-- ===== src/Agent/Tags/Race.antt =====
-- Threads in `setAndGetTag` of Agent/src/c/JVMHeapScan.c, which hold no monitor there, interleaved in any
-- order: each access of `lastTag` and each call of the JVM Tool Interface is a step.
use jvmheap_scan.Base.{
  ℕ, ◌+◌, ◌≡◌, ◌≢◌, sym, ap, ◌∙◌, Bool, true, false, inl, inr, Bool-cases, arith, update,
}
use jvmheap_scan.Base.Int.{ℤ, pos}
use jvmheap_scan.Agent.Tags.{Jvmti, Agent, done, is_zero, set_and_get_tag}
use jvmheap_scan.Agent.Tags.Laws.{Laws, tag_of}
use jvmheap_scan.Agent.Tags.Objects.{set_and_get_tag-old, set_and_get_tag-new}

-- Where a thread stands in `setAndGetTag`.
pub data TagPc : Type 0 where
  reading : TagPc  -- before `GetTag`
  missing : TagPc  -- no tag was found: before `lastTag++`
  counted : TagPc  -- before `SetTag`, which is given `lastTag`
  marked : TagPc  -- before `lastTag` is read for the result
  returned : ℤ × Bool → TagPc  -- the result, and `tagSetFl`

module _ (j : Jvmti) where
  -- The steps of a thread for an object.
  pub data TagMove (o : j.Object) (s : Agent j) : TagPc → Agent j → TagPc → Type 0 where
    find :
        (j.get_tag o s.env).0 ≡ j.error_none
        → is_zero (j.get_tag o s.env).1 ≡ false
        → TagMove o s reading s (returned ((j.get_tag o s.env).1, false))
    find_none :
        (j.get_tag o s.env).0 ≡ j.error_none
        → is_zero (j.get_tag o s.env).1 ≡ true
        → TagMove o s reading s missing
    count : TagMove o s missing (record s { last_tag = s.last_tag + 1 }) counted
    mark :
        (j.set_tag o (pos s.last_tag) s.env).0 ≡ j.error_none
        → TagMove o s counted (record s { env = (j.set_tag o (pos s.last_tag) s.env).1 }) marked
    give : TagMove o s marked s (returned (pos s.last_tag, true))

  -- Steps of any threads, of which each has its object.
  pub data TagRuns (object : ℕ → j.Object)
      : Agent j → (ℕ → TagPc) → Agent j → (ℕ → TagPc) → Type 0 where
    rest : {s : Agent j} {pc : ℕ → TagPc} → TagRuns object s pc s pc
    step :
        (i : ℕ) {s t u : Agent j} {pc d : ℕ → TagPc} {p c : TagPc}
        → pc i ≡ p
        → TagMove (object i) s p t c
        → TagRuns object t (update pc i c) u d
        → TagRuns object s pc u d

  module _ (laws : Laws j) (object : ℕ → j.Object) where
    -- A thread alone does what the whole function does.
    TagRuns-set_and_get_tag :
        (s : Agent j) (pc : ℕ → TagPc) (i : ℕ)
        → pc i ≡ reading
        → (r : ℤ × Bool) × (t : Agent j) × (d : ℕ → TagPc) × TagRuns object s pc t d
          × (d i ≡ returned r)
          × (set_and_get_tag j (object i) s ≡ done r t)
    TagRuns-set_and_get_tag s pc i at = elim (Bool-cases (is_zero (tag_of j (object i) s))) [
      | inl new ↦ (
        _,
        _,
        _,
        step i at (find_none (laws.get_ok _ _) new) (
            step i (ground arith) count
              (step i (ground arith) (mark (laws.set_ok _ _ _)) (step i (ground arith) give rest))),
        ground arith,
        set_and_get_tag-new j laws (object i) s new,
      )
      | inr old ↦ (
        _,
        _,
        _,
        step i at (find (laws.get_ok _ _) old) rest,
        ground arith,
        set_and_get_tag-old j laws (object i) s old,
      )
    ]

    -- If the calls of the JVM Tool Interface succeed, two threads that come to `setAndGetTag` with
    -- different objects, neither of which has a tag, may leave it with the same tag for both, each told
    -- that it has set a new one.
    pub same_tag :
        (s : Agent j) (pc : ℕ → TagPc) (i k : ℕ)
        → object i ≢ object k
        → is_zero (tag_of j (object i) s) ≡ true
        → is_zero (tag_of j (object k) s) ≡ true
        → pc i ≡ reading
        → pc k ≡ reading
        → (t : Agent j) × (d : ℕ → TagPc) × TagRuns object s pc t d
          × ((d i ≡ returned (pos (s.last_tag + 2), true))
              × (d k ≡ returned (pos (s.last_tag + 2), true)))
          × ((tag_of j (object i) t ≡ pos (s.last_tag + 2))
              × (tag_of j (object k) t ≡ pos (s.last_tag + 2)))
    same_tag s pc i k ne new new' at at' =
        let other : i ≢ k = λ e. ne (ap object e) in
        (
          _,
          _,
          step i at (find_none (laws.get_ok _ _) new) (
              step k (ground arith) (find_none (laws.get_ok _ _) new') (
                step i (ground arith) count (
                  step k (ground arith) count (
                    step i (ground arith) (mark (laws.set_ok _ _ _)) (
                      step k (ground arith) (mark (laws.set_ok _ _ _))
                        (step i (ground arith) give (step k (ground arith) give rest))))))),
          (ground arith, ground arith),
          (
            laws.get_set_ne _ _ _ _ (λ e. ne (sym e)) ∙ laws.get_set _ _ _ ∙ twice,
            laws.get_set _ _ _ ∙ twice,
          ),
        )
      where
        twice : pos (s.last_tag + 1 + 1) ≡ pos (s.last_tag + 2)
        twice = ap pos (omega arith)
