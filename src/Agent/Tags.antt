-- ===== src/Agent/Tags.antt =====
-- How Agent/src/c/JVMHeapScan.c tags classes and objects, and what it reports of them.
pub mod Bounded
pub mod Callback
pub mod Classes
pub mod Examples
pub mod Heap
pub mod Laws
pub mod Metadata
pub mod Objects
pub mod Report
pub mod Visits
pub mod Race
use jvmheap_scan.Base.{ℕ, ◌+◌, Bool, true, false, List, [], ◌∷◌, ◌++◌, ◌==◌, if◌then◌else◌, not}
use jvmheap_scan.Base.Int.{ℤ, pos, negsuc}
use jvmheap_scan.Agent.Message.{Message, store_object_tag, store_class_tag_msg, on_object_free}

-- The functions of the JVM Tool Interface that the agent calls, with the error code that each
-- returns. `Env` is the state of the virtual machine, `Object` what a `jobject` refers to.
pub record Jvmti : Type 1 where
  pub Env : Type 0
  pub Object : Type 0
  pub error_none : ℕ
  pub get_tag : Object → Env → ℕ × ℤ
  pub set_tag : Object → ℤ → Env → ℕ × Env
  pub get_class_signature : Object → Env → ℕ × List ℕ
  pub get_loaded_classes : Env → ℕ × List Object
  pub raw_monitor_enter : Env → ℕ × Env
  pub raw_monitor_exit : Env → ℕ × Env

-- The calls of the message store, in order.
pub data Event : Type 0 where
  include : Message → Event
  start_group : Event
  flush_group : Event

abbrev pub is_zero : ℤ → Bool
is_zero (pos n) = n == 0
is_zero (negsuc n) = false

module _ (j : Jvmti) where
  -- `lastTag`, the virtual machine, and what has been handed to the message store.
  pub record Agent : Type 0 where
    pub last_tag : ℕ
    pub env : j.Env
    pub sent : List Event

  -- `onFatalError` ends the process.
  pub data Outcome (A : Type 0) : Type 0 where
    done : A → Agent → Outcome A
    fatal : Outcome A

  abbrev pub Act : Type 0 → Type 0
  Act A = Agent → Outcome A

  abbrev pub pure : {A : Type 0} → A → Act A
  pure a s = done a s

  abbrev pub and_then : {A B : Type 0} → Outcome A → (A → Act B) → Outcome B
  and_then (done a s) k = k a s
  and_then fatal k = fatal

  infixl 5 ◌>>=◌ ◌>>◌
  abbrev pub ◌>>=◌ : {A B : Type 0} → Act A → (A → Act B) → Act B
  m >>= k = λ s. and_then (m s) k

  abbrev pub ◌>>◌ : {B : Type 0} → Act (Unit {0}) → Act B → Act B
  m >> k = m >>= λ _. k

  abbrev pub on_check_jvmti_error : ℕ → Act (Unit {0})
  on_check_jvmti_error code = if code == j.error_none then (λ s. done tt s) else (λ _. fatal)

  abbrev pub send : Event → Act (Unit {0})
  send e s = done tt (record s { sent = s.sent ++ (e ∷ []) })

  -- `if` with no `else`
  abbrev pub when : Bool → Act (Unit {0}) → Act (Unit {0})
  when true m = m
  when false m = pure tt

  unfoldable pub get_tag : j.Object → Act ℤ
  get_tag o s = let (code, tag) = j.get_tag o s.env in (on_check_jvmti_error code >> pure tag) s

  unfoldable pub set_tag : j.Object → ℤ → Act (Unit {0})
  set_tag o tag s =
      let (code, env) = j.set_tag o tag s.env in on_check_jvmti_error code (record s { env = env })

  unfoldable pub store_class_tag : j.Object → ℤ → Bool → Act (Unit {0})
  store_class_tag class tag flush s =
      let (code, sign) = j.get_class_signature class s.env in
      (on_check_jvmti_error code >> send (include (store_class_tag_msg tag sign flush))) s

  -- The tag, and whether it has been set by this call.
  unfoldable pub set_and_get_tag : j.Object → Act (ℤ × Bool)
  set_and_get_tag o = do
    tag ← get_tag o
    if not (is_zero tag) then pure (tag, false) else λ s.
        let next = s.last_tag + 1 in
        (set_tag o (pos next) >> pure (pos next, true)) (record s { last_tag = next })

  unfoldable pub get_object_tag : j.Object → j.Object → Bool → Act (Unit {0})
  get_object_tag class o flush = do
    (class_tag, class_set) ← set_and_get_tag class
    when class_set (store_class_tag class class_tag flush)
    (object_tag, object_set) ← set_and_get_tag o
    when object_set (send (include (store_object_tag object_tag class_tag flush)))

  -- `Java_ObjectAllocationTracker__1trackObject`, with the class that `GetObjectClass` returns.
  unfoldable pub track_object : j.Object → j.Object → Act (Unit {0})
  track_object class o = get_object_tag class o true

  -- One round of `checkAndTagClasses`: what is reported is the tag read before.
  unfoldable pub check_and_tag_class : Bool → j.Object → Act (Unit {0})
  check_and_tag_class flush class = do
    tag ← get_tag class
    when (is_zero tag) λ s.
        (set_tag class (pos s.last_tag) >> λ t. done tt (record t { last_tag = s.last_tag + 1 })) s
    store_class_tag class tag flush

  unfoldable pub check_and_tag_classes : Bool → List j.Object → Act (Unit {0})
  check_and_tag_classes flush [] = pure tt
  check_and_tag_classes flush (c ∷ cs) =
      check_and_tag_class flush c >> check_and_tag_classes flush cs

  unfoldable pub on_get_class_metadata : Act (Unit {0})
  on_get_class_metadata s =
      let (entered, env) = j.raw_monitor_enter s.env in
      (do
        on_check_jvmti_error entered
        let loaded = j.get_loaded_classes env
        on_check_jvmti_error loaded.0
        send start_group
        check_and_tag_classes false loaded.1
        send flush_group
        λ t.
            let (left, env') = j.raw_monitor_exit t.env in
            on_check_jvmti_error left (record t { env = env' }))
        (record s { env = env })

  -- `onObjectFree` hands its message to the store at once.
  unfoldable pub object_freed : ℤ → Act (Unit {0})
  object_freed tag = send (include (on_object_free tag))
