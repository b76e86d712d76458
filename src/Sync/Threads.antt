-- ===== src/Sync/Threads.antt =====
-- The counters of Agent/src/c/ThreadSync_PriorityProducer.c against the producers that stand between
-- their increment and their decrement.
use jvmheap_scan.Base.{
  ℕ, zero, suc, ◌+◌, ◌≤◌, ◌<◌, ◌≡◌, refl, sym, ◌∙◌, Bool, true, false, arith, update, ltb, ltb→lt,
  ◌==◌, inl, inr, Bool-cases, if◌then◌else◌,
}
use jvmheap_scan.Sync.{Side, left, right, Shared, space_of}
use jvmheap_scan.Sync.System.{
  Pc, idle, seeking, storing, releasing, Move, enter, ConsumerPc, draining, locking_left, Consume,
  wake, System, produce, consume, Reach, begin, then_step, initial, drained,
}

abbrev same_side : Side → Side → Bool
same_side left left = true
same_side right right = true
same_side _ _ = false

-- Whether a producer at this point is counted in a space, as 1 or 0.
abbrev pub inside : Side → Pc → ℕ
inside s (seeking d e) = if same_side s d then 1 else 0
inside s (storing d e) = if same_side s d then 1 else 0
inside s (releasing d) = if same_side s d then 1 else 0
inside s _ = 0

-- How many of the first `n` producers are counted in a space.
unfoldable pub count : Side → ℕ → (ℕ → Pc) → ℕ
count s zero pc = 0
count s (suc n) pc = count s n pc + inside s (pc n)

module _ (s : Side) (pc : ℕ → Pc) where
  count-beyond : (n i : ℕ) (p : Pc) → n ≤ i → count s n (update pc i p) ≡ count s n pc
  unfolding count
  count-beyond zero i p h = refl
  count-beyond (suc n) i p h = let e = count-beyond n i p (omega arith) in ground arith

  count-update :
      (n i : ℕ) (p : Pc)
      → i < n
      → count s n (update pc i p) + inside s (pc i) ≡ count s n pc + inside s p
  unfolding count
  count-update zero i p h = absurd (omega arith)
  count-update (suc n) i p h = elim (Bool-cases (n == i)) [
    | inl e ↦ (let b = count-beyond n i p (ground arith) in ground arith)
    | inr e ↦ (let b = count-update n i p (ground arith) in ground arith)
  ]

  -- Producers that are outside do not count.
  count-more : (n k : ℕ) → ((i : ℕ) → n ≤ i → pc i ≡ idle) → count s (n + k) pc ≡ count s n pc
  unfolding count
  count-more n zero outside = let e : n + 0 ≡ n = omega arith in rw e refl
  count-more n (suc k) outside =
      let next : n + suc k ≡ suc (n + k) = omega arith in
      let e = count-more n k outside in
      let o = outside (n + k) (omega arith) in rw (next, o, e) (omega arith)

  count-one : (n i : ℕ) → i < n → inside s (pc i) ≤ count s n pc
  unfolding count
  count-one zero i h = absurd (omega arith)
  count-one (suc n) i h = elim (Bool-cases (n == i)) [
    | inl e ↦ ground arith
    | inr e ↦ (let b = count-one n i (ground arith) in ground arith)
  ]

Move-threads :
    {i : ℕ} {m m' : Shared} {p p' : Pc}
    → Move i m p m' p'
    → (s : Side) → inside s p ≤ (space_of s m).threads
    → (space_of s m').threads + inside s p ≡ (space_of s m).threads + inside s p'
Move-threads enter s h = refl
Move-threads mv s h = ground arith

Consume-threads :
    {m m' : Shared} {c d : ConsumerPc}
    → Consume m c m' d
    → (s : Side) → (space_of s m').threads ≡ (space_of s m).threads
Consume-threads (wake g) s = refl
Consume-threads st s = ground arith

-- The first `n` producers are all that are not outside, and both counters are right.
pub record Counted (n : ℕ) (m : Shared) (pc : ℕ → Pc) : Type 0 where
  pub outside : (i : ℕ) → n ≤ i → pc i ≡ idle
  pub counts : (s : Side) → (space_of s m).threads ≡ count s n pc

Counted-more : {n : ℕ} {m : Shared} {pc : ℕ → Pc} (k : ℕ) → Counted n m pc → Counted (n + k) m pc
Counted-more {n} {pc} k c = record {
  outside = λ i h. c.outside i (omega arith);
  counts = λ s. c.counts s ∙ sym (count-more s pc n k c.outside);
}

Move-Counted :
    {n i : ℕ} {m m' : Shared} {pc : ℕ → Pc} {p : Pc}
    → Move i m (pc i) m' p
    → i < n
    → Counted n m pc
    → Counted n m' (update pc i p)
Move-Counted {n} {i} {pc} {p} mv below c = record {
  outside = λ k h. let o = c.outside k h in ground arith;
  counts = λ s.
      let e = c.counts s in
      let some_inside = count-one s pc n i below in
      let a = Move-threads mv s (omega arith) in
      let b = count-update s pc n i p below in omega arith;
}

counts-initial : (s : Side) → (space_of s initial.mem).threads ≡ count s 0 initial.pc
unfolding count
counts-initial left = refl
counts-initial right = refl

-- In every reachable state all but a finite number of producers are outside, and the counter of each
-- space is the number of those that stand between their increment and their decrement there.
pub threads-count : {z : System} → Reach z → (n : ℕ) × Counted n z.mem z.pc
threads-count begin = (0, record { outside = λ i h. refl; counts = counts-initial })
threads-count (then_step r (produce i mv)) =
    let (n, c) = threads-count r in
    (n + suc i, Move-Counted mv (omega arith) (Counted-more (suc i) c))
threads-count (then_step r (consume st)) =
    let (n, c) = threads-count r in
    (n, record { outside = c.outside; counts = λ s. Consume-threads st s ∙ c.counts s })

goes_on-threads :
    {m n : Shared} {s d : Side}
    → Consume m (draining s) n (locking_left d)
    → (space_of s m).threads ≡ 0
goes_on-threads (drained h) = h

-- A producer that is counted in a space in a reachable state keeps its counter from 0: no decrement
-- goes below it, and the consumer that waits for the space does not go on.
pub inside-threads :
    {z : System} (s : Side) (i : ℕ)
    → Reach z
    → inside s (z.pc i) ≡ 1
    → (1 ≤ (space_of s z.mem).threads)
      × ((m : Shared) (d : Side) → Consume z.mem (draining s) m (locking_left d) → ⊥)
inside-threads {z} s i r here =
    (positive, λ m d st. let e = goes_on-threads st in omega (arith, positive))
  where
    positive : 1 ≤ (space_of s z.mem).threads
    positive =
        let (n, c) = threads-count r in
        let e = c.counts s in
        elim (Bool-cases (ltb i n)) [
          | inl below ↦ (let a = count-one s z.pc n i (ltb→lt i n below) in omega arith)
          | inr beyond ↦ (let o = c.outside i (ground arith) in ground arith)
        ]
