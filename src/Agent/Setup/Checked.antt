-- ===== src/Agent/Setup/Checked.antt =====
-- Calls of the setup in Agent/src/c/JVMHeapScan.c whose codes are checked.
use jvmheap_scan.Base.{
  ℕ, ◌≡◌, ◌⊎◌, refl, Bool, true, false, List, [], ◌∷◌, inl, inr, Bool-cases, ◌∙◌, ◌==◌,
}
use jvmheap_scan.Agent.Machine.{
  Call, register_natives, set_static_int_field, wsa_startup, get_addr_info, open_socket,
  bind_socket, free_addr_info, Machine, Outcome, done, ended, undefined, jvmti, and_then, ◌>>◌,
  winsock,
}
use jvmheap_scan.Agent.Setup.{Program, Act}

-- Whether the agent goes on after a call that returns this code. It does not look at what
-- `RegisterNatives`, `SetStaticIntField`, `socket` and `freeaddrinfo` return.
abbrev pub accepted : Machine → Call → ℕ → Bool
accepted m c code = elim c [
  | register_natives _ _ _ ↦ true
  | set_static_int_field _ _ _ ↦ true
  | open_socket ↦ true
  | free_addr_info ↦ true
  | wsa_startup ↦ code == 0
  | get_addr_info _ ↦ code == 0
  | bind_socket ↦ code == 0
  | _ ↦ code == m.error_none
]

-- No call of the list, the latest first, has returned an error that the agent looks for.
abbrev pub Passed : Machine → List Call → Type 0
Passed m [] = Unit
Passed m (c ∷ before) = (accepted m c (m.answer before c) ≡ true) × Passed m before

-- The latest call is the first that has returned such an error.
pub record Refused (m : Machine) (calls : List Call) : Type 0 where
  pub last : Call
  pub before : List Call
  pub made : calls ≡ last ∷ before
  pub error : accepted m last (m.answer before last) ≡ false
  pub passed : Passed m before

pub refused :
    (m : Machine) (c : Call) (before : List Call)
    → accepted m c (m.answer before c) ≡ false
    → Passed m before
    → Refused m (c ∷ before)
refused m c before bad h = record {
  last = c;
  before = before;
  made = refl;
  error = bad;
  passed = h;
}

-- After the first call that has returned such an error, `GetErrorName` has failed for its code.
pub record Nameless (m : Machine) : Type 0 where
  pub last : Call
  pub before : List Call
  pub error : accepted m last (m.answer before last) ≡ false
  pub passed : Passed m before
  pub unnamed : (m.error_name (last ∷ before) (m.answer before last) == m.error_none) ≡ false

pub nameless :
    (m : Machine) (c : Call) (before : List Call)
    → accepted m c (m.answer before c) ≡ false
    → Passed m before
    → (m.error_name (c ∷ before) (m.answer before c) == m.error_none) ≡ false
    → Nameless m
nameless m c before bad h unnamed = record {
  last = c;
  before = before;
  error = bad;
  passed = h;
  unnamed = unnamed;
}

-- How a command of the setup has ended: `Missing` is what else may end the process, `Broken` what else
-- may be undefined.
abbrev pub Strict : {S A : Type 0} → Machine → Type 0 → Type 0 → Outcome S A → Type 0
Strict m Missing Broken (done a calls s) = Passed m calls
Strict m Missing Broken (ended calls) = Refused m calls ⊎ Missing
Strict m Missing Broken undefined = Nameless m ⊎ Broken

module _ (m : Machine) (Missing Broken : Type 0) {A B : Type 0} where
  pub Strict-bind :
      (r : Outcome Program A) (k : A → Act B)
      → Strict m Missing Broken r
      → ((a : A) (calls : List Call) (q : Program)
          → Passed m calls
          → Strict m Missing Broken (k a calls q))
      → Strict m Missing Broken (and_then r k)
  Strict-bind (done a calls q) k h next = next a calls q h
  Strict-bind (ended calls) k h next = h
  Strict-bind undefined k h next = h

  pub Strict-bind_twice :
      {C : Type 0} (r : Outcome Program A) (f : A → Act B) (k : B → Act C)
      → Strict m Missing Broken r
      → ((a : A) (calls : List Call) (q : Program)
          → Passed m calls
          → Strict m Missing Broken (and_then (f a calls q) k))
      → Strict m Missing Broken (and_then (and_then r f) k)
  Strict-bind_twice (done a calls q) f k h next = next a calls q h
  Strict-bind_twice (ended calls) f k h next = h
  Strict-bind_twice undefined f k h next = h

module _ (m : Machine) {A : Type 0} (Good : Outcome Program A → Type 0) where
  -- One checked call, by what it returns.
  pub jvmti-cases :
      (c : Call) (calls : List Call) (p : Program) (k : Act A)
      → ((code : ℕ) → accepted m c code ≡ (code == m.error_none))
      → Passed m calls
      → (Refused m (c ∷ calls) → Good (ended (c ∷ calls)))
      → (Nameless m → Good undefined)
      → (Passed m (c ∷ calls) → Good (k (c ∷ calls) p))
      → Good ((jvmti m c >> k) calls p)
  jvmti-cases c calls p k kind h end name next = elim (Bool-cases (code == m.error_none)) [
    | inl good ↦ rw good (next (kind _ ∙ good, h))
    | inr bad ↦ elim (Bool-cases (m.error_name (c ∷ calls) code == m.error_none)) [
      | inl named ↦ rw (bad, named) (end (refused m c calls (kind _ ∙ bad) h))
      | inr unnamed ↦ rw (bad, unnamed) (name (nameless m c calls (kind _ ∙ bad) h unnamed))
    ]
  ]
    where
      code : ℕ
      code = m.answer calls c

module _ (m : Machine) (Missing Broken : Type 0) {A : Type 0} where
  -- One checked call, and what the agent does where it returns no error.
  pub jvmti-Strict :
      (c : Call) (calls : List Call) (p : Program) (k : Act A)
      → ((code : ℕ) → accepted m c code ≡ (code == m.error_none))
      → Passed m calls
      → (Passed m (c ∷ calls) → Strict m Missing Broken (k (c ∷ calls) p))
      → Strict m Missing Broken ((jvmti m c >> k) calls p)
  jvmti-Strict c calls p k kind h next =
      jvmti-cases m (Strict m Missing Broken) c calls p k kind h (λ r. inl r) (λ n. inl n) next

  winsock-Strict :
      (c : Call) (calls : List Call) (p : Program) (k : Act A)
      → ((code : ℕ) → accepted m c code ≡ (code == 0))
      → Passed m calls
      → (Passed m (c ∷ calls) → Strict m Missing Broken (k (c ∷ calls) p))
      → Strict m Missing Broken ((winsock m c >> k) calls p)
  winsock-Strict c calls p k kind h next = elim (Bool-cases (m.answer calls c == 0)) [
    | inl good ↦ rw good (next (kind _ ∙ good, h))
    | inr bad ↦ rw bad (inl (refused m c calls (kind _ ∙ bad) h))
  ]
