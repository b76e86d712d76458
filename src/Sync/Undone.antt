-- ===== src/Sync/Undone.antt =====
-- What two producers of Agent/src/c/ThreadSync_PriorityProducer.c do that change the space at the
-- same time.
use jvmheap_scan.Base.{ℕ, ◌≡◌, ◌≢◌, refl, sym, ap, ◌∙◌, Bool, true, false, arith, update}
use jvmheap_scan.Sync.{Side, opposite, free, producer, Shared, space_of}
use jvmheap_scan.Sync.System.{
  Pc, changing, switching, turning, leaving, announcing, Move, take_gate, wake_consumer, turn,
  leave_gate, System, produce, Reach, then_step,
}
use jvmheap_scan.Sync.Gates.{Copied, never_ready}

moved :
    {z : System} {i : ℕ} {m : Shared} {p q : Pc}
    → Reach z
    → z.pc i ≡ p
    → Move i z.mem p m q
    → Reach (record z { mem = m; pc = update z.pc i q })
moved {i} r at mv = then_step r (produce i (rw at mv))

-- The state after producer `i` has changed the space.
record Changed (i : ℕ) (o : Side) (z : System) : Type 0 where
  after : System
  reach : Reach after
  current : after.mem.current ≡ opposite z.mem.current
  at : after.pc i ≡ announcing o
  others : (k : ℕ) → k ≢ i → after.pc k ≡ z.pc k
  gate_free : after.mem.main_producer_gate ≡ free
  gates : (s : Side) → (space_of s after.mem).gate ≡ (space_of s z.mem).gate

here : (pc : ℕ → Pc) (i : ℕ) (p : Pc) → update pc i p i ≡ p
here pc i p = ground arith

change-Changed :
    {z : System} {i : ℕ} {o : Side} {b : Bool}
    → Reach z
    → z.pc i ≡ changing o b
    → z.mem.main_producer_gate ≡ free
    → Changed i o z
change-Changed {z} {i} {o} {b} r at unowned = record {
  after = _;
  reach = moved turned_to (here twice i (leaving o)) leave_gate;
  current = refl;
  at = here (update twice i (leaving o)) i (announcing o);
  others = λ k h. ground arith;
  gate_free = refl;
  gates = λ s. refl;
}
  where
    once : ℕ → Pc
    once = update z.pc i (switching o b)

    twice : ℕ → Pc
    twice = update once i (turning o)

    owning : Reach (record z { mem = record z.mem { main_producer_gate = producer i }; pc = once })
    owning = moved r at (take_gate unowned)

    unset : b ≡ false
    unset =
        let k : Copied (switching o b) =
          rw (here z.pc i (switching o b)) at ((never_ready owning).1 i) in
        k

    turned_to : Reach (record z {
      mem = record z.mem {
        main_producer_gate = producer i;
        consumer_gate = true;
        current = opposite z.mem.current;
      };
      pc = update twice i (leaving o);
    })
    turned_to =
        moved (moved owning (here z.pc i (switching o b)) (wake_consumer unset))
          (here once i (turning o)) turn

opposite_twice : (s : Side) → opposite (opposite s) ≡ s
opposite_twice s = ground arith

-- Two producers that are both in `changeSpace`, before `mainProducerGate`, can change the space one
-- after the other: the second change undoes the first. The current space is the one that it was, with
-- every gate as it was, while both producers go on in the spaces that they have copied.
pub change_twice :
    {z : System} (i k : ℕ) {o d : Side} {b c : Bool}
    → Reach z
    → i ≢ k
    → z.pc i ≡ changing o b
    → z.pc k ≡ changing d c
    → z.mem.main_producer_gate ≡ free
    → (w : System) × Reach w
      × (w.mem.current ≡ z.mem.current)
      × ((s : Side) → (space_of s w.mem).gate ≡ (space_of s z.mem).gate)
      × (w.pc i ≡ announcing o)
      × (w.pc k ≡ announcing d)
change_twice {z} i k r different at_i at_k unowned =
    let a = change-Changed r at_i unowned in
    let b = change-Changed a.reach (a.others k (λ e. different (sym e)) ∙ at_k) a.gate_free in
    (
      b.after,
      b.reach,
      b.current ∙ (ap opposite a.current ∙ opposite_twice z.mem.current),
      λ s. b.gates s ∙ a.gates s,
      b.others i different ∙ a.at,
      b.at,
    )
