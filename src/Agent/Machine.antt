-- ===== src/Agent/Machine.antt =====
-- What the setup of Agent/src/c/JVMHeapScan.c and Agent/src/c/SocketOutputInterface.c asks of the virtual
-- machine, of Winsock and of the instrumentation, in order.
use Prim.Native.String.{String}
use jvmheap_scan.Base.{ℕ, Option, List, ◌∷◌, ◌==◌, if◌then◌else◌}

-- The events that the agent asks for, and the functions that it has for events.
pub data Hook : Type 0 where
  vm_init vm_death vm_start class_file_load object_free : Hook

pub data Capability : Type 0 where
  tag_objects generate_all_class_hook_events generate_object_free_events : Capability

pub data Handler : Type 0 where
  vm_initialization on_vm_death on_vm_start on_object_free on_class_file_load : Handler

-- `jvmtiEventCallbacks`, all null after `memset`.
pub record Callbacks : Type 0 where
  pub vm_init : Option Handler
  pub vm_death : Option Handler
  pub vm_start : Option Handler
  pub object_free : Option Handler
  pub class_file_load : Option Handler

-- What a call of the Java Native Interface returns, named by the call. The agent does not look at it.
pub data Ref : Type 0 where
  class_of : String → Ref
  method_of : Ref → String → String → Ref
  object_of : Ref → Ref → Ref
  field_of : Ref → String → String → Ref

pub data Call : Type 0 where
  get_env : Call
  add_capabilities : List Capability → Call
  enable : Hook → Call
  set_event_callbacks : Callbacks → Call
  add_to_bootstrap_class_loader_search : List ℕ → Call
  create_raw_monitor : Call
  raw_monitor_enter : Call
  raw_monitor_exit : Call
  run_agent_thread : Ref → Call
  allocate : ℕ → Call
  force_garbage_collection : Call
  register_natives : Ref → String → String → Call
  set_static_int_field : Ref → Ref → ℕ → Call
  wsa_startup : Call
  get_addr_info : List ℕ → Call
  open_socket : Call
  bind_socket : Call
  free_addr_info : Call

-- The code that a call returns, which may depend on the calls before it, the latest first;
-- `error_name` the one that `GetErrorName` returns for a code after these calls, `instrument` is
-- `java_crw_demo`, `files` what `fopen` finds.
pub record Machine : Type 0 where
  pub error_none : ℕ
  pub answer : List Call → Call → ℕ
  pub error_name : List Call → ℕ → ℕ
  pub instrument : List ℕ → List ℕ
  pub files : List ℕ → Option (List ℕ)

-- `exit(3)` ends the process; `undefined` is undefined behaviour of the C.
pub data Outcome (S A : Type 0) : Type 0 where
  done : A → List Call → S → Outcome S A
  ended : List Call → Outcome S A
  undefined : Outcome S A

-- A command of the setup, over the calls made so far and the static variables.
abbrev pub Setup : Type 0 → Type 0 → Type 0
Setup S A = List Call → S → Outcome S A

abbrev pub pure : {S A : Type 0} → A → Setup S A
pure a calls s = done a calls s

abbrev pub and_then : {S A B : Type 0} → Outcome S A → (A → Setup S B) → Outcome S B
and_then (done a calls s) k = k a calls s
and_then (ended calls) k = ended calls
and_then undefined k = undefined

infixl 5 ◌>>=◌ ◌>>◌
abbrev pub ◌>>=◌ : {S A B : Type 0} → Setup S A → (A → Setup S B) → Setup S B
m >>= k = λ calls s. and_then (m calls s) k

abbrev pub ◌>>◌ : {S A B : Type 0} → Setup S A → Setup S B → Setup S B
m >> k = m >>= λ _. k

-- `onFatalError`
abbrev pub on_fatal_error : {S A : Type 0} → Setup S A
on_fatal_error calls s = ended calls

module _ (m : Machine) {S : Type 0} where
  abbrev pub call : Call → Setup S ℕ
  call c calls s = done (m.answer calls c) (c ∷ calls) s

  -- `GetErrorName` is called with the code, and the length of the name is taken whether or not it
  -- has written one. Its call is not listed, since the process ends behind it.
  abbrev pub name_error : ℕ → Setup S (Unit {0})
  name_error code calls s =
      if m.error_name calls code == m.error_none then on_fatal_error calls s else undefined

  abbrev pub on_check_jvmti_error : ℕ → Setup S (Unit {0})
  on_check_jvmti_error code = if code == m.error_none then pure tt else name_error code

  -- The same, before `local_jvmti_env` is set: `GetErrorName` is called through a null pointer.
  abbrev pub check_environment : ℕ → Setup S (Unit {0})
  check_environment code = if code == m.error_none then pure tt else (λ calls s. undefined)

  abbrev pub on_check_socket_error : ℕ → Setup S (Unit {0})
  on_check_socket_error status = if status == 0 then pure tt else on_fatal_error

  -- A call whose code is checked.
  abbrev pub jvmti : Call → Setup S (Unit {0})
  jvmti c = call c >>= on_check_jvmti_error

  abbrev pub winsock : Call → Setup S (Unit {0})
  winsock c = call c >>= on_check_socket_error

  -- A call whose result is not looked at.
  abbrev pub unchecked : Call → Setup S (Unit {0})
  unchecked c = call c >> pure tt
