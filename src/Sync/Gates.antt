-- ===== src/Sync/Gates.antt =====
-- The flags of the two spaces of Agent/src/c/ThreadSync_PriorityProducer.c.
use jvmheap_scan.Base.{ℕ, ◌≡◌, refl, ◌∙◌, ◌⊎◌, true, false, ◌||◌, arith}
use jvmheap_scan.Sync.{Side, left, right, opposite, Shared, space_of}
use jvmheap_scan.Sync.System.{
  Pc, changing, switching, Move, enter, ConsumerPc, closing, Consume, wake, System, Step, produce,
  consume, Reach, begin, then_step,
}

-- The consumer opens the gate of the other space before it closes its own; when it closes, the
-- other gate stands open.
abbrev OtherOpen : ConsumerPc → Shared → Type 0
OtherOpen (closing s) m = (space_of (opposite s) m).gate ≡ true
OtherOpen _ m = Unit

-- A producer that is changing the space has found the flag unset.
abbrev pub Copied : Pc → Type 0
Copied (changing o r) = r ≡ false
Copied (switching o r) = r ≡ false
Copied _ = Unit

record Inv (z : System) : Type 0 where
  unready : (s : Side) → (space_of s z.mem).is_ready ≡ false
  copies : (i : ℕ) → Copied (z.pc i)
  one_open : ((space_of left z.mem).gate || (space_of right z.mem).gate) ≡ true
  other_open : OtherOpen z.consumer_pc z.mem

Move-unready :
    {i : ℕ} {m m' : Shared} {p p' : Pc}
    → Move i m p m' p'
    → (s : Side) → (space_of s m').is_ready ≡ (space_of s m).is_ready
Move-unready enter s = refl
Move-unready mv s = ground arith

Move-gate :
    {i : ℕ} {m m' : Shared} {p p' : Pc}
    → Move i m p m' p'
    → (s : Side) → (space_of s m').gate ≡ (space_of s m).gate
Move-gate enter s = refl
Move-gate mv s = ground arith

Move-copies :
    {i : ℕ} {m m' : Shared} {p p' : Pc}
    → Move i m p m' p'
    → ((s : Side) → (space_of s m).is_ready ≡ false)
    → Copied p
    → Copied p'
Move-copies enter u k = tt
Move-copies {m} mv u k = ground (arith, u (opposite m.current))

Consume-unready :
    {m m' : Shared} {c d : ConsumerPc}
    → Consume m c m' d
    → (s : Side) → (space_of s m').is_ready ≡ (space_of s m).is_ready
Consume-unready (wake g) s = refl
Consume-unready st s = ground arith

Consume-one_open :
    {m m' : Shared} {c d : ConsumerPc}
    → Consume m c m' d
    → OtherOpen c m
    → ((space_of left m).gate || (space_of right m).gate) ≡ true
    → ((space_of left m').gate || (space_of right m').gate) ≡ true
Consume-one_open (wake g) k h = h
Consume-one_open st k h = ground arith

Consume-OtherOpen : {m m' : Shared} {c d : ConsumerPc} → Consume m c m' d → OtherOpen d m'
Consume-OtherOpen (wake g) = tt
Consume-OtherOpen st = ground arith

Move-OtherOpen :
    {i : ℕ} {m m' : Shared} {p p' : Pc}
    → Move i m p m' p'
    → (c : ConsumerPc) → OtherOpen c m
    → OtherOpen c m'
Move-OtherOpen mv (closing s) h = Move-gate mv (opposite s) ∙ h
Move-OtherOpen mv c h = tt

Step-Inv : {y z : System} → Step y z → Inv y → Inv z
Step-Inv {y} (produce i {p} mv) inv = record {
  unready = λ s. Move-unready mv s ∙ inv.unready s;
  copies = λ k. ground (arith, inv.copies k, Move-copies mv inv.unready (inv.copies i));
  one_open = rw (Move-gate mv left, Move-gate mv right) inv.one_open;
  other_open = Move-OtherOpen mv y.consumer_pc inv.other_open;
}
Step-Inv (consume st) inv = record {
  unready = λ s. Consume-unready st s ∙ inv.unready s;
  copies = inv.copies;
  one_open = Consume-one_open st inv.other_open inv.one_open;
  other_open = Consume-OtherOpen st;
}

Reach-Inv : {z : System} → Reach z → Inv z
Reach-Inv begin = record {
  unready = λ s. ground arith;
  copies = λ i. tt;
  one_open = refl;
  other_open = tt;
}
Reach-Inv (then_step r st) = Step-Inv st (Reach-Inv r)

-- In every reachable state neither space is marked as ready, since `changeSpace` and `onStartConsume`
-- write that flag in copies only, and the copy of every producer that stands between its copy of the
-- other space and its test of the flag has it unset.
pub never_ready :
    {z : System}
    → Reach z
    → ((s : Side) → (space_of s z.mem).is_ready ≡ false) × ((i : ℕ) → Copied (z.pc i))
never_ready reach = let inv = Reach-Inv reach in (inv.unready, inv.copies)

-- In every reachable state one of the two spaces lets producers in.
one_gate_open :
    {z : System}
    → Reach z
    → ((space_of left z.mem).gate ≡ true) ⊎ ((space_of right z.mem).gate ≡ true)
one_gate_open r = let inv = Reach-Inv r in ground (arith, inv.one_open)
