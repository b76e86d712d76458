-- ===== src/Agent/Setup/Ready.antt =====
-- What the setup in Agent/src/c/JVMHeapScan.c leaves where every call succeeds.
use jvmheap_scan.Base.{ℕ, ◌<◌, ◌≡◌, refl, true, false, Option, some, List, [], ◌∷◌}
use jvmheap_scan.Store.Memory.{null, Store, ok}
use jvmheap_scan.Store.Initial.{started, on_initialize-Represents}
use jvmheap_scan.Store.Represents.{Represents}
use jvmheap_scan.Store.Requests.{no_messages}
use jvmheap_scan.Store
use jvmheap_scan.Sync
use jvmheap_scan.Agent.Machine.{
  Hook, Call, vm_init, vm_death, vm_start, class_file_load, object_free, enable,
  set_event_callbacks, get_addr_info, add_to_bootstrap_class_loader_search, Machine, Setup, Outcome,
  and_then, done, get_env, add_capabilities, create_raw_monitor, tag_objects,
  generate_all_class_hook_events, generate_object_free_events, free_addr_info, bind_socket,
  open_socket, wsa_startup, jvmti, call, check_environment, ◌>>=◌,
}
use jvmheap_scan.Agent.Message.{calculate_size}
use jvmheap_scan.Agent.Options.{AgentOptions, loaded, on_set_options}
use jvmheap_scan.Agent.Setup.Seen.{meant_for, enabled, installed, bound_to, searched}
use jvmheap_scan.Agent.Setup.{
  Program, limit_of, initialize_store, initialize_socket, initialize_output, initialize_functions,
  read_agent_options, on_initialize_agent, event_callbacks, add_jar, register, agent_on_load,
}

-- The calls of `Agent_OnLoad`, the latest first.
abbrev calls_of : AgentOptions → List Call
calls_of o =
    create_raw_monitor
    ∷ add_to_bootstrap_class_loader_search o.tracker_path
    ∷ set_event_callbacks event_callbacks
    ∷ enable object_free
    ∷ enable class_file_load
    ∷ enable vm_start
    ∷ enable vm_death
    ∷ enable vm_init
    ∷ add_capabilities
        (tag_objects ∷ generate_all_class_hook_events ∷ generate_object_free_events ∷ [])
    ∷ free_addr_info
    ∷ bind_socket
    ∷ open_socket
    ∷ get_addr_info o.port
    ∷ wsa_startup
    ∷ get_env
    ∷ []

abbrev left_by : AgentOptions → Store → Program
left_by o s = record {
  store = s;
  shared = some Sync.on_initialize;
  status_lock = some false;
  sizes = some calculate_size;
  jar_path = some o.tracker_path;
}

bind-done :
    {S A B : Type 0} {r : Outcome S A} {a : A} {calls : List Call} {s : S} (k : A → Setup S B)
    {out : Outcome S B}
    → r ≡ done a calls s
    → k a calls s ≡ out
    → and_then r k ≡ out
bind-done k e h = rw e h

asked_of : (o : AgentOptions) (h : Hook) → enabled h (calls_of o) ≡ true
asked_of o vm_init = refl
asked_of o vm_death = refl
asked_of o vm_start = refl
asked_of o object_free = refl
asked_of o class_file_load = refl

handled_of : (o : AgentOptions) (h : Hook) → installed h (calls_of o) ≡ some (meant_for h)
handled_of o vm_init = refl
handled_of o vm_death = refl
handled_of o vm_start = refl
handled_of o object_free = refl
handled_of o class_file_load = refl

-- The agent after `Agent_OnLoad` with these options.
pub record Ready (o : AgentOptions) (calls : List Call) (p : Program) : Type 0 where
  pub store : Represents (limit_of o.socket_msg_limit) p.store no_messages
  pub shared : p.shared ≡ some Sync.on_initialize
  pub unset : p.status_lock ≡ some false
  pub sizes : p.sizes ≡ some calculate_size
  pub port : bound_to calls ≡ some o.port
  pub path : searched calls ≡ some o.tracker_path
  pub asked : (h : Hook) → enabled h calls ≡ true
  pub handled : (h : Hook) → installed h calls ≡ some (meant_for h)

module _ (m : Machine) (zero : m.error_none ≡ 0)
    (answers : (calls : List Call) (c : Call) → m.answer calls c ≡ 0) where
  jvmti-passes :
      {S : Type 0} (c : Call) (calls : List Call) (s : S)
      → jvmti m c calls s ≡ done tt (c ∷ calls) s
  jvmti-passes c calls s = rw (answers calls c, zero)

  env-passes :
      (calls : List Call) (p : Program)
      → (call m {S = Program} get_env >>= check_environment m) calls p ≡ done tt (get_env ∷ calls) p
  env-passes calls p = rw (answers calls get_env, zero)

  initialize_socket-passes :
      (port : List ℕ) (calls : List Call) (p : Program)
      → initialize_socket m port calls p
        ≡ done tt
            (free_addr_info ∷ bind_socket ∷ open_socket ∷ get_addr_info port ∷ wsa_startup ∷ calls)
            p
  unfolding initialize_socket
  initialize_socket-passes port calls p = simp (answers)

  stored :
      (o : AgentOptions) (calls : List Call) (p : Program) (t : Store)
      → Store.on_initialize (limit_of o.socket_msg_limit) p.store ≡ ok tt t
      → initialize_store o calls p
        ≡ done tt calls (record p { store = t; shared = some Sync.on_initialize })
  unfolding initialize_store
  stored o calls p t e = rw (initialize_store, e)

  opened :
      (options : Option (List ℕ)) (o : AgentOptions) (calls : List Call) (p : Program)
      → on_set_options m.files options ≡ loaded o
      → read_agent_options m options calls p ≡ done o calls p
  unfolding read_agent_options
  opened options o calls p e = rw (read_agent_options, e)

  on_initialize_agent-passes :
      (options : Option (List ℕ)) (o : AgentOptions) (calls : List Call) (p : Program) (t : Store)
      → on_set_options m.files options ≡ loaded o
      → Store.on_initialize (limit_of o.socket_msg_limit) p.store ≡ ok tt t
      → on_initialize_agent m options calls p
        ≡ done tt
            (free_addr_info
              ∷ bind_socket
              ∷ open_socket
              ∷ get_addr_info o.port
              ∷ wsa_startup
              ∷ calls)
            (left_by o t)
  unfolding on_initialize_agent initialize_output initialize_functions read_agent_options
  on_initialize_agent-passes options o calls p t read store =
      bind-done {s = p} _ (opened options o calls p read) (
        bind-done _ (stored o calls p t store)
          (bind-done _ (bind-done _ (initialize_socket-passes o.port calls _) refl) refl))

  register-passes :
      (o : AgentOptions) (s : Store)
      → register m
          (free_addr_info
            ∷ bind_socket
            ∷ open_socket
            ∷ get_addr_info o.port
            ∷ wsa_startup
            ∷ get_env
            ∷ [])
          (left_by o s)
        ≡ done tt (calls_of o) (left_by o s)
  unfolding register add_jar
  register-passes o s = bind-done _ (jvmti-passes _ _ _) (
      bind-done _ (jvmti-passes _ _ _) (
        bind-done _ (jvmti-passes _ _ _) (
          bind-done _ (jvmti-passes _ _ _) (
            bind-done _ (jvmti-passes _ _ _) (
              bind-done _ (jvmti-passes _ _ _) (
                bind-done _ (jvmti-passes _ _ _)
                  (bind-done _ (jvmti-passes _ _ _) (jvmti-passes _ _ _))))))))

-- Where the options are read, every call returns 0, the code of success, the store's limit is not yet
-- set and its next address is not null, `Agent_OnLoad` returns: the message store holds four empty
-- queues with the limit of the options, the synchronizer is at its start, a socket is opened and bound
-- to the address of the port, the path is searched, and each of the five events is enabled and handled
-- by its function.
pub agent_on_load-Ready :
    (m : Machine) (options : Option (List ℕ)) (o : AgentOptions) (p : Program)
    → m.error_none ≡ 0
    → ((calls : List Call) (c : Call) → m.answer calls c ≡ 0)
    → on_set_options m.files options ≡ loaded o
    → null < p.store.fresh
    → p.store.is_to_be_split ≡ false
    → p.store.split_sz ≡ 0
    → (calls : List Call) × (q : Program) × (agent_on_load m options [] p ≡ done tt calls q)
      × Ready o calls q
unfolding agent_on_load
agent_on_load-Ready m options o p zero answers read some_address unset no_limit =
    let limit = limit_of o.socket_msg_limit in
    let t = started limit p.store some_address in
    let (store, empty) = on_initialize-Represents limit p.store some_address unset no_limit in
    (
      calls_of o,
      left_by o t,
      bind-done _ (env-passes m zero answers [] p) (
          bind-done _ (on_initialize_agent-passes m zero answers options o _ p t read store)
            (register-passes m zero answers o t)),
      record {
        store = empty;
        shared = refl;
        unset = refl;
        sizes = refl;
        port = refl;
        path = refl;
        asked = asked_of o;
        handled = handled_of o;
      },
    )
