-- ===== src/Sync/Exclusion.antt =====
-- Who owns the mutexes of Agent/src/c/ThreadSync_PriorityProducer.c in every reachable state.
use mathlib.Core.Path.{subst}
use jvmheap_scan.Base.{ℕ, ◌≡◌, ◌≢◌, refl, Bool, true, false, arith, update}
use jvmheap_scan.Sync.{Side, left, right, Owner, producer, consumer, Shared, lock_of}
use jvmheap_scan.Sync.System.{
  Pc, switching, turning, leaving, storing, Move, enter, take_gate, acquire, ConsumerPc,
  locking_right, consuming, unlocking, Consume, wake, lock_left, lock_right, System, Step, produce,
  consume, initial, Reach, begin, then_step,
}

abbrev pub changes_space : Pc → Bool
changes_space (switching _ _) = true
changes_space (turning _) = true
changes_space (leaving _) = true
changes_space _ = false

abbrev pub is_consumer's : Owner → Bool
is_consumer's (consumer _) = true
is_consumer's _ = false

-- The entries that the consumer has locked where it stands.
abbrev pub Holding : ConsumerPc → Shared → Type 0
Holding (locking_right s) m = is_consumer's (lock_of s left m) ≡ true
Holding (consuming s) m =
    (is_consumer's (lock_of s left m) ≡ true) × (is_consumer's (lock_of s right m) ≡ true)
Holding (unlocking s) m = is_consumer's (lock_of s right m) ≡ true
Holding _ m = Unit

pub record Inv (m : Shared) (pc : ℕ → Pc) (c : ConsumerPc) : Type 0 where
  pub owner : (s e : Side) (i : ℕ) → lock_of s e m ≡ producer i → pc i ≡ storing s e
  pub owns : (s e : Side) (i : ℕ) → pc i ≡ storing s e → lock_of s e m ≡ producer i
  pub changer : (i : ℕ) → changes_space (pc i) ≡ true → m.main_producer_gate ≡ producer i
  pub holding : Holding c m

module _ {m : Shared} {pc : ℕ → Pc} {c : ConsumerPc} (inv : Inv m pc c) (i : ℕ) where
  Move-owner :
      {p p' : Pc} {m' : Shared}
      → Move i m p m' p'
      → pc i ≡ p
      → (s e : Side) (j : ℕ) → lock_of s e m' ≡ producer j
      → update pc i p' j ≡ storing s e
  Move-owner enter at s e j h = ground (arith, inv.owner s e j)
  Move-owner mv at s e j h = ground (arith, inv.owner s e j)

  Move-owns :
      {p p' : Pc} {m' : Shared}
      → Move i m p m' p'
      → pc i ≡ p
      → (s e : Side) (j : ℕ) → update pc i p' j ≡ storing s e
      → lock_of s e m' ≡ producer j
  Move-owns enter at s e j h = ground (arith, inv.owns s e j)
  Move-owns (acquire g) at s e j h = ground (arith, inv.owns s e j)
  Move-owns mv at s e j h = ground (arith, inv.owns s e j, inv.owns s e i)

  Move-changer :
      {p p' : Pc} {m' : Shared}
      → Move i m p m' p'
      → pc i ≡ p
      → (j : ℕ) → changes_space (update pc i p' j) ≡ true
      → m'.main_producer_gate ≡ producer j
  Move-changer enter at j h = ground (arith, inv.changer j)
  Move-changer (take_gate g) at j h = ground (arith, inv.changer j)
  Move-changer mv at j h = ground (arith, inv.changer j, inv.changer i)

  pub Move-consumer's :
      {p p' : Pc} {m' : Shared}
      → Move i m p m' p'
      → pc i ≡ p
      → (s e : Side) → is_consumer's (lock_of s e m) ≡ true
      → is_consumer's (lock_of s e m') ≡ true
  Move-consumer's (acquire g) at s e h = ground arith
  Move-consumer's enter at s e h = h
  Move-consumer's mv at s e h = ground (arith, inv.owns s e i)

  Move-Holding :
      {p p' : Pc} {m' : Shared}
      → Move i m p m' p'
      → pc i ≡ p
      → (d : ConsumerPc) → Holding d m
      → Holding d m'
  Move-Holding mv at (locking_right s) h = Move-consumer's mv at s left h
  Move-Holding mv at (consuming s) h =
      (Move-consumer's mv at s left h.0, Move-consumer's mv at s right h.1)
  Move-Holding mv at (unlocking s) h = Move-consumer's mv at s right h
  Move-Holding mv at d h = tt

  Move-Inv : {p' : Pc} {m' : Shared} → Move i m (pc i) m' p' → Inv m' (update pc i p') c
  Move-Inv mv = record {
    owner = Move-owner mv refl;
    owns = Move-owns mv refl;
    changer = Move-changer mv refl;
    holding = Move-Holding mv refl c inv.holding;
  }

module _ {m : Shared} where
  -- A step of the consumer moves no mutex from or to a producer.
  Consume-owner :
      {c d : ConsumerPc} {m' : Shared}
      → Consume m c m' d
      → Holding c m
      → (s e : Side) (i : ℕ) → lock_of s e m' ≡ producer i
      → lock_of s e m ≡ producer i
  Consume-owner (wake g) k s e i h = h
  Consume-owner st k s e i h = ground arith

  Consume-owns :
      {c d : ConsumerPc} {m' : Shared}
      → Consume m c m' d
      → Holding c m
      → (s e : Side) (i : ℕ) → lock_of s e m ≡ producer i
      → lock_of s e m' ≡ producer i
  Consume-owns (wake g) k s e i h = h
  Consume-owns (lock_left g) k s e i h = ground arith
  Consume-owns (lock_right g) k s e i h = ground arith
  Consume-owns st k s e i h = ground arith

  Consume-Holding : {c d : ConsumerPc} {m' : Shared} → Consume m c m' d → Holding c m → Holding d m'
  Consume-Holding (wake g) k = tt
  Consume-Holding (lock_left g) k = ground arith
  Consume-Holding (lock_right g) k = ground arith
  Consume-Holding st k = ground arith

  Consume-gate :
      {c d : ConsumerPc} {m' : Shared}
      → Consume m c m' d
      → m'.main_producer_gate ≡ m.main_producer_gate
  Consume-gate (wake g) = refl
  Consume-gate st = refl

-- Every step of a producer or of the consumer keeps the invariant.
pub Step-Inv :
    {y z : System} → Step y z → Inv y.mem y.pc y.consumer_pc → Inv z.mem z.pc z.consumer_pc
Step-Inv (produce i mv) inv = Move-Inv inv i mv
Step-Inv (consume st) inv = record {
  owner = λ s e i h. inv.owner s e i (Consume-owner st inv.holding s e i h);
  owns = λ s e i h. Consume-owns st inv.holding s e i (inv.owns s e i h);
  changer = λ i h. rw (Consume-gate st) (inv.changer i h);
  holding = Consume-Holding st inv.holding;
}

Inv-initial : Inv initial.mem initial.pc initial.consumer_pc
Inv-initial = record {
  owner = λ s e i h. ground arith;
  owns = λ s e i h. cc;
  changer = λ i h. cc;
  holding = tt;
}

pub Reach-Inv : {z : System} → Reach z → Inv z.mem z.pc z.consumer_pc
Reach-Inv begin = Inv-initial
Reach-Inv (then_step r st) = Step-Inv st (Reach-Inv r)

-- In every reachable state at most one producer stores a message in an entry.
pub exclusive_storing :
    {z : System} (s e : Side) (i k : ℕ)
    → Reach z
    → z.pc i ≡ storing s e
    → z.pc k ≡ storing s e
    → i ≡ k
exclusive_storing s e i k r hi hk =
    let inv = Reach-Inv r in ground (arith, inv.owns s e i, inv.owns s e k)

-- In every reachable state no producer stores a message in the space that the consumer reads.
pub consumer_alone :
    {z : System} (s e : Side) (i : ℕ) → Reach z → z.consumer_pc ≡ consuming s → z.pc i ≢ storing s e
consumer_alone {z} s e i r c h =
    let inv = Reach-Inv r in
    let held : Holding (consuming s) z.mem = subst (λ d. Holding d z.mem) c inv.holding in
    by_entry e (inv.owns s e i h) held
  where
    by_entry : (d : Side) → lock_of s d z.mem ≡ producer i → Holding (consuming s) z.mem → ⊥
    by_entry left own held = ground arith
    by_entry right own held = ground arith

-- In every reachable state at most one producer changes the current space.
exclusive_change :
    {z : System} (i k : ℕ)
    → Reach z
    → changes_space (z.pc i) ≡ true
    → changes_space (z.pc k) ≡ true
    → i ≡ k
exclusive_change i k r hi hk = let inv = Reach-Inv r in ground (arith, inv.changer i, inv.changer k)
