-- ===== src/Sync/Stuck.antt =====
-- What follows where the consumer never calls `onEndConsume`, as the loop of
-- Agent/src/c/SocketOutputInterface.c does not.
use mathlib.Core.Path.{subst}
use jvmheap_scan.Base.{ℕ, ◌≡◌, ◌≢◌, refl, true, arith}
use jvmheap_scan.Sync.{Side, left, right, Shared, lock_of}
use jvmheap_scan.Sync.System.{
  storing, ConsumerPc, consuming, unlocking, Consume, wake, lock_left, lock_right, unlock_left,
  unlock_right, System, Step, produce, consume, Reach, then_step,
}
use jvmheap_scan.Sync.Exclusion.{Inv, Holding, is_consumer's, Move-consumer's, Reach-Inv}

-- Steps among which no call of `onEndConsume` is.
pub data Serves (y : System) : System → Type 0 where
  now : Serves y y
  next_step :
      {z w : System}
      → Serves y z
      → Step z w
      → ((s : Side) → w.consumer_pc ≢ unlocking s)
      → Serves y w

Consume-consumer's :
    {m m' : Shared} {c d : ConsumerPc}
    → Consume m c m' d
    → ((s : Side) → c ≢ unlocking s)
    → ((s : Side) → d ≢ unlocking s)
    → (s e : Side) → is_consumer's (lock_of s e m) ≡ true
    → is_consumer's (lock_of s e m') ≡ true
Consume-consumer's (wake g) nc nd s e h = h
Consume-consumer's (lock_left g) nc nd s e h = ground arith
Consume-consumer's (lock_right g) nc nd s e h = ground arith
Consume-consumer's (unlock_left {s = o}) nc nd s e h = absurd (nd o refl)
Consume-consumer's (unlock_right {s = o}) nc nd s e h = absurd (nc o refl)
Consume-consumer's st nc nd s e h = ground arith

Step-consumer's :
    {y z : System}
    → Step y z
    → Inv y.mem y.pc y.consumer_pc
    → ((s : Side) → y.consumer_pc ≢ unlocking s)
    → ((s : Side) → z.consumer_pc ≢ unlocking s)
    → (s e : Side) → is_consumer's (lock_of s e y.mem) ≡ true
    → is_consumer's (lock_of s e z.mem) ≡ true
Step-consumer's (produce i mv) inv ny nz s e h = Move-consumer's inv i mv refl s e h
Step-consumer's (consume st) inv ny nz s e h = Consume-consumer's st ny nz s e h

Serves-Reach : {y z : System} → Reach y → Serves y z → Reach z
Serves-Reach r now = r
Serves-Reach r (next_step v st n) = then_step (Serves-Reach r v) st

module _ {y : System} (r : Reach y) (o : Side) (at : y.consumer_pc ≡ consuming o) where
  Serves-outside : {z : System} → Serves y z → (s : Side) → z.consumer_pc ≢ unlocking s
  Serves-outside now s h = ground (arith, at)
  Serves-outside (next_step v st n) s h = n s h

  Serves-consumer's :
      {z : System} → Serves y z → (e : Side) → is_consumer's (lock_of o e z.mem) ≡ true
  Serves-consumer's now e = both e (subst (λ d. Holding d y.mem) at (Reach-Inv r).holding)
    where
      both : (d : Side) → Holding (consuming o) y.mem → is_consumer's (lock_of o d y.mem) ≡ true
      both left held = held.0
      both right held = held.1
  Serves-consumer's (next_step v st n) e =
      Step-consumer's st (Reach-Inv (Serves-Reach r v)) (Serves-outside v) n o e
        (Serves-consumer's v e)

  -- Once the consumer has been given a space in a reachable state, and as long as it does not call
  -- `onEndConsume`, no producer on another thread than the consumer's ever stores a message in that
  -- space again, whatever steps these producers and the consumer take.
  pub never_storing_again : {z : System} (e : Side) (i : ℕ) → Serves y z → z.pc i ≢ storing o e
  never_storing_again e i v h =
      let own = (Reach-Inv (Serves-Reach r v)).owns o e i h in
      let held = Serves-consumer's v e in ground arith
