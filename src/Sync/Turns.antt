-- ===== src/Sync/Turns.antt =====
-- One turn of the consumer of Agent/src/c/ThreadSync_PriorityProducer.c, alone.
use jvmheap_scan.Base.{
  ◌≡◌, refl, Bool, true, false, some, arith, ◌&&◌, Bool-cases, inl, inr, ◌∙◌, if◌then◌else◌,
}
use jvmheap_scan.Sync.{
  Side, left, right, opposite, Owner, free, consumer, Shared, space_of, with_space, lock_of,
  with_lock,
}
use jvmheap_scan.Sync.Handlers.{
  accumulate_message, on_start_consume, on_end_consume, take_entry, pure,
}

-- The consumer has the space: its gate is closed and both entries are the consumer's; the other
-- space lets producers in, and its entries are as they were.
pub record Turn (m n : Shared) : Type 0 where
  pub closed : (space_of m.current n).gate ≡ false
  pub open_other : (space_of (opposite m.current) n).gate ≡ true
  pub mine : (e : Side) → lock_of m.current e n ≡ consumer 0
  pub others : (e : Side) → lock_of (opposite m.current) e n ≡ lock_of (opposite m.current) e m
  pub current : n.current ≡ m.current

-- The shared variables after each part of `onStartConsume`.
abbrev quieted : Bool → Side → Shared → Shared
quieted accumulate s m =
    if accumulate && (space_of s m).accumulate_gate
    then with_space s (record (space_of s m) { accumulate_gate = false }) m
    else m

abbrev opened_for : Side → Shared → Shared
opened_for s m =
    let n = with_space (opposite s) (record (space_of (opposite s) m) { gate = true }) m in
    record (with_space s (record (space_of s n) { gate = false }) n) { consumer_in = false }

abbrev owned_by_consumer : Side → Shared → Shared
owned_by_consumer s m = with_lock s right (consumer 0) (with_lock s left (consumer 0) m)

abbrev turned : Bool → Shared → Shared
turned accumulate m =
    owned_by_consumer m.current (opened_for m.current (quieted accumulate m.current m))

quieted_lock :
    (b : Bool) (s d e : Side) (m : Shared)
    → lock_of d e (opened_for s (quieted b s m)) ≡ lock_of d e m
quieted_lock b s d e m = ground arith

quieted_threads :
    (b : Bool) (s : Side) (m : Shared)
    → (space_of s (opened_for s (quieted b s m))).threads ≡ (space_of s m).threads
quieted_threads b s m = ground arith

turned-Turn : (b : Bool) (m : Shared) → Turn m (turned b m)
turned-Turn b m = record {
  closed = ground arith;
  open_other = ground arith;
  mine = λ e. ground arith;
  others = λ e. ground arith;
  current = ground arith;
}

module _ {W : Type 0} (m : Shared) (w : W) where
  accumulate-quieted :
      (b : Bool) (s : Side)
      → (if b then accumulate_message {W = W} 2 s else pure tt) (m, w)
        ≡ some (tt, (quieted b s m, w))
  unfolding accumulate_message
  accumulate-quieted false s = refl
  accumulate-quieted true left = elim (Bool-cases m.left_space.accumulate_gate) [
    | inl e ↦ rw e
    | inr e ↦ rw e
  ]
  accumulate-quieted true right = elim (Bool-cases m.right_space.accumulate_gate) [
    | inl e ↦ rw e
    | inr e ↦ rw e
  ]

  take_entry-free :
      (s e : Side)
      → lock_of s e m ≡ free
      → take_entry {W = W} s e (m, w) ≡ some (tt, (with_lock s e (consumer 0) m, w))
  take_entry-free s e h = rw h

kept_right :
    (s : Side) (o : Owner) (m : Shared)
    → lock_of s right m ≡ free
    → lock_of s right (with_lock s left o m) ≡ free
kept_right s o m h = ground arith

ends :
    {W : Type 0} (n : Shared) (w : W) (s : Side)
    → lock_of s left n ≡ consumer 0
    → lock_of s right n ≡ consumer 0
    → on_end_consume {W = W} s (n, w)
      ≡ some (tt, (with_lock s right free (with_lock s left free n), w))
unfolding on_end_consume
ends n w left l r = rw (l, r)
ends n w right l r = rw (l, r)

given_back_lock :
    (s d e : Side) (m n : Shared)
    → lock_of s left n ≡ consumer 0
    → lock_of s right n ≡ consumer 0
    → ((e : Side) → lock_of (opposite s) e n ≡ lock_of (opposite s) e m)
    → lock_of s left m ≡ free
    → lock_of s right m ≡ free
    → lock_of d e (with_lock s right free (with_lock s left free n)) ≡ lock_of d e m
given_back_lock s d e m n l r others l' r' = ground (arith, others e)

module _ {W : Type 0} (accumulate : Bool) (m : Shared) (w : W) where
  -- Where no producer is counted in the current space and both its entries are free, the consumer gets
  -- that space, whether the store accumulates or not, and what it gives back at the end is free.
  pub on_end_consume-on_start_consume :
      (space_of m.current m).threads ≡ 0
      → lock_of m.current left m ≡ free
      → lock_of m.current right m ≡ free
      → (n k : Shared) × (on_start_consume {W = W} accumulate (m, w) ≡ some (m.current, (n, w)))
        × Turn m n
        × (on_end_consume {W = W} m.current (n, w) ≡ some (tt, (k, w)))
        × ((s e : Side) → lock_of s e k ≡ lock_of s e m)
  unfolding on_start_consume on_end_consume
  on_end_consume-on_start_consume none_inside left_free right_free =
      let c = m.current in
      let q = opened_for c (quieted accumulate c m) in
      let n = turned accumulate m in
      let t = turned-Turn accumulate m in
      (
        n,
        with_lock c right free (with_lock c left free n),
        rw (
          accumulate-quieted m w accumulate c,
          quieted_threads accumulate c m ∙ none_inside,
          take_entry-free q w c left (quieted_lock accumulate c c left m ∙ left_free),
          take_entry-free (with_lock c left (consumer 0) q) w c right
              (kept_right c (consumer 0) q (quieted_lock accumulate c c right m ∙ right_free)),
        ),
        t,
        ends n w c (t.mine left) (t.mine right),
        λ s e. given_back_lock c s e m n (t.mine left) (t.mine right) t.others left_free right_free,
      )
