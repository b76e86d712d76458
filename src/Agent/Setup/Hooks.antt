-- ===== src/Agent/Setup/Hooks.antt =====
-- `onClassFileLoad` of Agent/src/c/JVMHeapScan.c.
use Prim.Native.String.{String}
use text.Mathlib.Text.{◌==◌ as str_eq}
use jvmheap_scan.Base.{
  ℕ, ◌+◌, ◌-◌, ◌≡◌, refl, ◌==◌, length, Option, none, some, List, [], ◌∷◌, arith, inl, inr,
  Bool-cases, if◌then◌else◌,
}
use jvmheap_scan.Agent.Machine.{
  Call, raw_monitor_enter, raw_monitor_exit, allocate, Machine, Outcome, done, ended, undefined,
  jvmti, ◌>>=◌, ◌>>◌,
}
use jvmheap_scan.Agent.Setup.{Program, Act, instrument_class, class_loaded}
use jvmheap_scan.Agent.Setup.Checked.{accepted, Passed, Refused, Nameless, jvmti-cases}

-- How often the monitor has been entered and not left.
abbrev pub held : List Call → ℕ
held [] = 0
held (c ∷ cs) = elim c [
  | raw_monitor_enter ↦ held cs + 1
  | raw_monitor_exit ↦ held cs - 1
  | _ ↦ held cs
]

-- What `onClassFileLoad` hands back for a class with a name.
abbrev pub class_file_for : Machine → String → List ℕ → Option (List ℕ)
class_file_for m name bytes =
    if str_eq name "java/lang/Object" then some (m.instrument bytes) else none

-- It hands back that class file, with the monitor as it was, and no call has returned an error; or
-- it has ended the process behind the first that has, or `GetErrorName` has failed for that error.
abbrev pub Loads :
    Machine → String → List ℕ → List Call → Program → Outcome Program (Option (List ℕ)) → Type 0
Loads m name bytes calls p (done new after q) =
    (new ≡ class_file_for m name bytes) × (held after ≡ held calls) × (q ≡ p) × Passed m after
Loads m name bytes calls p (ended after) = Refused m after
Loads m name bytes calls p undefined = Nameless m

instrument-then :
    (m : Machine) (bytes : List ℕ) (calls : List Call) (p : Program)
    (k : Option (List ℕ) → Act (Option (List ℕ)))
    → (instrument_class m bytes >>= k) calls p
      ≡ (jvmti m (allocate (length (m.instrument bytes))) >> k (some (m.instrument bytes))) calls p
unfolding instrument_class
instrument-then m bytes calls p k = ground arith

-- If no call before has returned an error that the agent looks for: for a class with a name
-- `onClassFileLoad` returns only where none of its own calls has returned one, with the monitor left
-- as often as it was entered, and hands back the instrumented file for `java/lang/Object` and none for
-- any other class; it ends the process only behind the first call that has returned an error, and its
-- behaviour is undefined only where `GetErrorName` fails for that error.
pub class_loaded-Loads :
    (m : Machine) (name : String) (bytes : List ℕ) (calls : List Call) (p : Program)
    → Passed m calls
    → Loads m name bytes calls p (class_loaded m (some name) bytes calls p)
unfolding class_loaded
class_loaded-Loads m name bytes calls p h =
    checked raw_monitor_enter calls _ (λ code. refl) h
      λ h. elim (Bool-cases (str_eq name "java/lang/Object")) [
        | inl object ↦
            rw (object, instrument-then m bytes _ p _)
              (checked (allocate (length (m.instrument bytes))) _ _ (λ code. refl) h
                λ h.
                  checked raw_monitor_exit _ _ (λ code. refl) h
                    λ h. (rw object refl, omega arith, refl, h))
        | inr other ↦ rw other (
            checked raw_monitor_exit _ _ (λ code. refl) h
              λ h. (rw other refl, omega arith, refl, h))
      ]
  where
    checked :
        (c : Call) (before : List Call) (k : Act (Option (List ℕ)))
        → ((code : ℕ) → accepted m c code ≡ (code == m.error_none))
        → Passed m before
        → (Passed m (c ∷ before) → Loads m name bytes calls p (k (c ∷ before) p))
        → Loads m name bytes calls p ((jvmti m c >> k) before p)
    checked c before k kind h next =
        jvmti-cases m (Loads m name bytes calls p) c before p k kind h (λ r. r) (λ n. n) next
