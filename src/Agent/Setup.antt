-- ===== src/Agent/Setup.antt =====
-- The setup of the agent: Agent/src/c/JVMHeapScan.c from `Agent_OnLoad` on and its callbacks, with
-- `initializeSocket` of Agent/src/c/SocketOutputInterface.c.
pub mod Checked
pub mod Errors
pub mod Examples
pub mod Ready
pub mod Seen
pub mod Hooks
use Prim.Native.String.{String}
use text.Mathlib.Text.{◌==◌ as str_eq}
use jvmheap_scan.Base.{
  ℕ, Bool, true, false, Option, none, some, List, [], ◌∷◌, ◌==◌, if◌then◌else◌, length,
}
use jvmheap_scan.Base.Int.{ℤ, pos, negsuc}
use jvmheap_scan.Agent.Machine.{
  vm_init, vm_death, vm_start, class_file_load, object_free, tag_objects,
  generate_all_class_hook_events, generate_object_free_events, vm_initialization, on_vm_death,
  on_vm_start, on_object_free, on_class_file_load, Callbacks, class_of, method_of, object_of,
  field_of, get_env, add_capabilities, enable, set_event_callbacks,
  add_to_bootstrap_class_loader_search, create_raw_monitor, raw_monitor_enter, raw_monitor_exit,
  run_agent_thread, allocate, register_natives, set_static_int_field, wsa_startup, get_addr_info,
  open_socket, bind_socket, free_addr_info, Machine, Setup, done, ended, undefined, pure, ◌>>=◌,
  ◌>>◌, on_fatal_error, call, on_check_socket_error, check_environment, jvmti, winsock, unchecked,
}
use jvmheap_scan.Agent.Message.{Sizes, calculate_size}
use jvmheap_scan.Agent.Options.{AgentOptions, loaded, no_file, overflow, on_set_options}
use jvmheap_scan.Store.Memory.{Store, ok, fault, out_of_fuel}
use jvmheap_scan.Store
use jvmheap_scan.Sync.{Shared}
use jvmheap_scan.Sync

-- The static variables that the setup writes, of all four files. `status_lock` is an event.
pub record Program : Type 0 where
  pub store : Store
  pub shared : Option Shared
  pub status_lock : Option Bool
  pub sizes : Option Sizes
  pub jar_path : Option (List ℕ)

abbrev pub Act : Type 0 → Type 0
Act A = Setup Program A

-- What `socketMsgLimit` is where it is positive, else 0.
abbrev pub limit_of : ℤ → ℕ
limit_of (pos n) = n
limit_of (negsuc n) = 0

-- `onInitialize` of the message store, which initialises the synchronizer too.
unfoldable pub initialize_store : AgentOptions → Act (Unit {0})
initialize_store options calls p =
    elim (Store.on_initialize (limit_of options.socket_msg_limit) p.store) [
      | ok _ s ↦ done tt calls (record p { store = s; shared = some Sync.on_initialize })
      | fault ↦ undefined
      | out_of_fuel ↦ undefined
    ]

-- The checks end the process, so the early returns behind them are never taken.
unfoldable pub initialize_socket : Machine → List ℕ → Act (Unit {0})
initialize_socket m port = do
  winsock m wsa_startup
  status ← call m (get_addr_info port)
  on_check_socket_error m status
  if status == 0
      then (do
        unchecked m open_socket
        bound ← call m bind_socket
        on_check_socket_error m bound
        if bound == 0 then unchecked m free_addr_info else pure tt)
      else pure tt

-- `onInitialize` of the socket thread; the event is created unset.
unfoldable pub initialize_output : Machine → AgentOptions → Act (Unit {0})
unfolding initialize_socket
initialize_output m options = do
  initialize_socket m options.port
  λ calls p. done tt calls (record p { status_lock = some false })

-- `onInitialize` of the agent.
unfoldable pub initialize_functions : AgentOptions → Act (Unit {0})
initialize_functions options calls p =
    done tt calls (record p { sizes = some calculate_size; jar_path = some options.tracker_path })

unfoldable pub read_agent_options : Machine → Option (List ℕ) → Act AgentOptions
read_agent_options m options calls p = elim (on_set_options m.files options) [
  | loaded o ↦ done o calls p
  | no_file ↦ ended calls
  | overflow ↦ undefined
]

unfoldable pub on_initialize_agent : Machine → Option (List ℕ) → Act (Unit {0})
unfolding read_agent_options initialize_store initialize_output initialize_functions
on_initialize_agent m options = do
  o ← read_agent_options m options
  initialize_store o
  initialize_output m o
  initialize_functions o

abbrev pub no_callbacks : Callbacks
no_callbacks = record {
  vm_init = none;
  vm_death = none;
  vm_start = none;
  object_free = none;
  class_file_load = none;
}

abbrev pub event_callbacks : Callbacks
event_callbacks = record no_callbacks {
  vm_init = some vm_initialization;
  vm_death = some on_vm_death;
  vm_start = some on_vm_start;
  object_free = some on_object_free;
  class_file_load = some on_class_file_load;
}

-- `jarPath`, which `onInitialize` has written before.
unfoldable pub add_jar : Machine → Act (Unit {0})
add_jar m calls p = elim p.jar_path [
  | none ↦ undefined
  | some path ↦ jvmti m (add_to_bootstrap_class_loader_search path) calls p
]

-- What `Agent_OnLoad` does once the options are read.
unfoldable pub register : Machine → Act (Unit {0})
unfolding add_jar
register m = do
  jvmti m (
      add_capabilities
        (tag_objects ∷ generate_all_class_hook_events ∷ generate_object_free_events ∷ []))
  jvmti m (enable vm_init)
  jvmti m (enable vm_death)
  jvmti m (enable vm_start)
  jvmti m (enable class_file_load)
  jvmti m (enable object_free)
  jvmti m (set_event_callbacks event_callbacks)
  add_jar m
  jvmti m create_raw_monitor

unfoldable pub agent_on_load : Machine → Option (List ℕ) → Act (Unit {0})
unfolding on_initialize_agent register
agent_on_load m options = do
  found ← call m get_env
  check_environment m found
  on_initialize_agent m options
  register m

-- `onVMStart`: the native method of the tracker class, and its flag.
unfoldable pub vm_started : Machine → Act (Unit {0})
vm_started m = do
  jvmti m raw_monitor_enter
  unchecked m
      (register_natives (class_of "ObjectAllocationTracker") "_trackObject" "(Ljava/lang/Object;)V")
  unchecked m (
      set_static_int_field (class_of "ObjectAllocationTracker")
        (field_of (class_of "ObjectAllocationTracker") "flag" "I") 1)
  jvmti m raw_monitor_exit

-- `onVMDeath`, whose one statement is commented out.
abbrev pub vm_died : Act (Unit {0})
vm_died = pure tt

-- `vmInitialization`: the thread that runs `referenceFollowerInit`.
unfoldable pub vm_initialized : Machine → Act (Unit {0})
vm_initialized m = jvmti m (
    run_agent_thread (
      object_of (class_of "java/lang/Thread")
        (method_of (class_of "java/lang/Thread") "<init>" "()V")))

-- The branch of `onClassFileLoad` for the class that it instruments.
unfoldable pub instrument_class : Machine → List ℕ → Act (Option (List ℕ))
instrument_class m bytes = do
  jvmti m (allocate (length (m.instrument bytes)))
  pure (some (m.instrument bytes))

-- `onClassFileLoad`: the new class file, if there is one. A class may have no name, and `strcmp`
-- takes none.
unfoldable pub class_loaded : Machine → Option String → List ℕ → Act (Option (List ℕ))
unfolding instrument_class
class_loaded m name bytes = do
  jvmti m raw_monitor_enter
  new ← elim name [
    | none ↦ (λ calls p. undefined)
    | some n ↦ (if str_eq n "java/lang/Object" then instrument_class m bytes else pure none)
  ]
  jvmti m raw_monitor_exit
  pure new
