-- ===== src/Agent/Setup/Errors.antt =====
-- The error paths of the setup in Agent/src/c/JVMHeapScan.c.
use jvmheap_scan.Base.{
  ℕ, ◌≡◌, ◌≢◌, ◌⊎◌, refl, false, Option, none, some, List, [], ◌∷◌, inl, inr, Bool-cases, ◌∙◌, ◌==◌,
}
use jvmheap_scan.Agent.Machine.{
  Call, wsa_startup, get_addr_info, open_socket, bind_socket, get_env,
  add_to_bootstrap_class_loader_search, Machine, done, ended, undefined, jvmti, and_then, ◌>>◌,
  ◌>>=◌, call, check_environment,
}
use jvmheap_scan.Store.Memory.{Store, Run, ok, fault, out_of_fuel}
use jvmheap_scan.Store
use jvmheap_scan.Sync
use jvmheap_scan.Agent.Options.{AgentOptions, Loaded, loaded, overflow, on_set_options, no_file}
use jvmheap_scan.Agent.Setup.{
  Program, Act, limit_of, add_jar, register, agent_on_load, initialize_socket, initialize_output,
  initialize_store, initialize_functions, on_initialize_agent, read_agent_options,
}
use jvmheap_scan.Agent.Setup.Checked.{
  accepted, Passed, refused, nameless, Strict, Strict-bind, Strict-bind_twice, jvmti-Strict,
}

module _ (m : Machine) (Missing Broken : Type 0) where
  jvmti_last :
      (c : Call) (calls : List Call) (p : Program)
      → ((code : ℕ) → accepted m c code ≡ (code == m.error_none))
      → Passed m calls
      → Strict m Missing Broken (jvmti m {S = Program} c calls p)
  jvmti_last c calls p kind h = elim (Bool-cases (m.answer calls c == m.error_none)) [
    | inl good ↦ rw good (kind _ ∙ good, h)
    | inr bad ↦ elim (Bool-cases (m.error_name (c ∷ calls) (m.answer calls c) == m.error_none)) [
      | inl named ↦ rw (bad, named) (inl (refused m c calls (kind _ ∙ bad) h))
      | inr unnamed ↦ rw (bad, unnamed) (inl (nameless m c calls (kind _ ∙ bad) h unnamed))
    ]
  ]

  env-Strict :
      (p : Program) (k : Act (Unit {0}))
      → ((m.answer [] get_env == m.error_none) ≡ false → Broken)
      → (Passed m (get_env ∷ []) → Strict m Missing Broken (k (get_env ∷ []) p))
      → Strict m Missing Broken ((call m get_env >>= λ found. check_environment m found >> k) [] p)
  env-Strict p k broken next = elim (Bool-cases (m.answer [] get_env == m.error_none)) [
    | inl good ↦ rw good (next (good, tt))
    | inr bad ↦ rw bad (inr (broken bad))
  ]

  add_jar-Strict :
      (calls : List Call) (p : Program) (path : List ℕ) (k : Act (Unit {0}))
      → Passed m calls
      → p.jar_path ≡ some path
      → (Passed m (add_to_bootstrap_class_loader_search path ∷ calls)
          → Strict m Missing Broken (k (add_to_bootstrap_class_loader_search path ∷ calls) p))
      → Strict m Missing Broken ((add_jar m >> k) calls p)
  unfolding add_jar
  add_jar-Strict calls p path k h known next = by_path p.jar_path known
    where
      by_path :
          (found : Option (List ℕ))
          → found ≡ some path
          → Strict m Missing Broken (
              and_then
                (elim found [
                  | none ↦ undefined
                  | some t ↦ jvmti m (add_to_bootstrap_class_loader_search t) calls p
                ])
                (λ _. k))
      by_path none e = absurd cc
      by_path (some t) e =
          let same : path ≡ t = cc in
          jvmti-Strict m Missing Broken _ _ _ _ (λ code. refl) h (rw same at next)

  register-Strict :
      (calls : List Call) (p : Program) (path : List ℕ)
      → Passed m calls
      → p.jar_path ≡ some path
      → Strict m Missing Broken (register m calls p)
  unfolding register
  register-Strict calls p path h known =
      jvmti-Strict m Missing Broken _ _ _ _ (λ code. refl) h
        λ h.
          jvmti-Strict m Missing Broken _ _ _ _ (λ code. refl) h
            λ h.
              jvmti-Strict m Missing Broken _ _ _ _ (λ code. refl) h
                λ h.
                  jvmti-Strict m Missing Broken _ _ _ _ (λ code. refl) h
                    λ h.
                      jvmti-Strict m Missing Broken _ _ _ _ (λ code. refl) h
                        λ h.
                          jvmti-Strict m Missing Broken _ _ _ _ (λ code. refl) h
                            λ h.
                              jvmti-Strict m Missing Broken _ _ _ _ (λ code. refl) h
                                λ h.
                                  add_jar-Strict _ _ path _ h known
                                    λ h. jvmti_last _ _ _ (λ code. refl) h

  socket-Strict :
      (port : List ℕ) (calls : List Call) (p : Program)
      → Passed m calls
      → Strict m Missing Broken (initialize_socket m port calls p)
  unfolding initialize_socket
  socket-Strict port calls p h = elim (Bool-cases (m.answer calls wsa_startup == 0)) [
    | inr bad ↦ rw bad (inl (refused m wsa_startup calls bad h))
    | inl started ↦ elim (Bool-cases (m.answer found_at (get_addr_info port) == 0)) [
      | inr bad ↦ rw (started, bad) (inl (refused m (get_addr_info port) found_at bad (started, h)))
      | inl found ↦ elim (Bool-cases (m.answer bound_at bind_socket == 0)) [
        | inr bad ↦
            rw (started, found, bad)
              (inl (refused m bind_socket bound_at bad (refl, (found, (started, h)))))
        | inl bound ↦ rw (started, found, bound) (refl, (bound, (refl, (found, (started, h)))))
      ]
    ]
  ]
    where
      found_at : List Call
      found_at = wsa_startup ∷ calls

      bound_at : List Call
      bound_at = open_socket ∷ get_addr_info port ∷ found_at

initialized-ok : (limit : ℕ) (s : Store) → Store.on_initialize limit s ≢ fault
unfolding Store.on_initialize
initialized-ok limit s e = cc

initialized-ends : (limit : ℕ) (s : Store) → Store.on_initialize limit s ≢ out_of_fuel
unfolding Store.on_initialize
initialized-ends limit s e = cc

module _ (m : Machine) (options : Option (List ℕ)) where
  abbrev Missing : Type 0
  Missing = on_set_options m.files options ≡ no_file

  abbrev Broken : Type 0
  Broken =
      (on_set_options m.files options ≡ overflow) ⊎ ((m.answer [] get_env == m.error_none) ≡ false)

  -- What is left to do once the agent is initialized, and the path of the tracker is known.
  abbrev Continues : Act (Unit {0}) → Type 0
  Continues k =
      (path : List ℕ) (calls : List Call) (q : Program)
      → Passed m calls
      → q.jar_path ≡ some path
      → Strict m Missing Broken (k calls q)

  initialized-Strict :
      (o : AgentOptions) (calls : List Call) (p : Program) (k : Act (Unit {0}))
      → Passed m calls
      → Continues k
      → Strict m Missing Broken
          (((initialize_store o >> (initialize_output m o >> initialize_functions o)) >> k) calls p)
  unfolding initialize_store initialize_output initialize_functions
  initialized-Strict o calls p k h next =
      by_run (Store.on_initialize (limit_of o.socket_msg_limit) p.store) refl
    where
      by_run :
          (r : Run (Unit {0}))
          → Store.on_initialize (limit_of o.socket_msg_limit) p.store ≡ r
          → Strict m Missing Broken (
              and_then
                (and_then
                  (elim r [
                    | ok _ s ↦
                        done tt calls (record p { store = s; shared = some Sync.on_initialize })
                    | fault ↦ undefined
                    | out_of_fuel ↦ undefined
                  ])
                  (λ _. initialize_output m o >> initialize_functions o))
                (λ _. k))
      by_run (ok _ s) e =
          Strict-bind_twice m Missing Broken _ _ _
            (Strict-bind m Missing Broken _ _ (socket-Strict m Missing Broken o.port calls _ h)
              (λ _ c q h. h))
            (λ _ c q h. next o.tracker_path c _ h refl)
      by_run fault e = absurd (initialized-ok _ _ e)
      by_run out_of_fuel e = absurd (initialized-ends _ _ e)

  agent-Strict :
      (calls : List Call) (p : Program) (k : Act (Unit {0}))
      → Passed m calls
      → Continues k
      → Strict m Missing Broken ((on_initialize_agent m options >> k) calls p)
  unfolding on_initialize_agent read_agent_options
  agent-Strict calls p k h next = by_loaded (on_set_options m.files options) refl
    where
      by_loaded :
          (l : Loaded)
          → on_set_options m.files options ≡ l
          → Strict m Missing Broken (
              and_then
                (and_then
                  (elim l [
                    | loaded o ↦ done o calls p
                    | no_file ↦ ended calls
                    | overflow ↦ undefined
                  ])
                  (λ o. initialize_store o >> (initialize_output m o >> initialize_functions o)))
                (λ _. k))
      by_loaded (loaded o) e = initialized-Strict o calls p k h next
      by_loaded no_file e = inr e
      by_loaded overflow e = inr (inl e)

-- Whatever codes the calls return, `Agent_OnLoad` ends the process only behind the first call that
-- returns an error that it looks for, or for want of the properties file, and where it returns, no
-- call has returned such an error; it does not look at what `socket` returns. Its behaviour is
-- undefined only if `GetEnv` fails, if `GetErrorName` fails for the first error that a call returns,
-- or if the options do not fit their arrays or the limit an `int`.
pub agent_on_load-Strict :
    (m : Machine) (options : Option (List ℕ)) (p : Program)
    → Strict m
        (on_set_options m.files options ≡ no_file)
        ((on_set_options m.files options ≡ overflow)
          ⊎ ((m.answer [] get_env == m.error_none) ≡ false))
        (agent_on_load m options [] p)
unfolding agent_on_load
agent_on_load-Strict m options p =
    env-Strict m _ _ p _ (λ bad. inr bad)
      λ h.
        agent-Strict m options _ p _ h
          (λ path calls q h known. register-Strict m _ _ calls q path h known)
