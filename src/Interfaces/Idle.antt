-- ===== src/Interfaces/Idle.antt =====
-- Agent/src/c/MessageStore.c and Agent/src/c/ThreadSync_PriorityProducer.c together, while nobody is in
-- the current space.
use jvmheap_scan.Base.{ℕ, ◌≡◌, sym, ◌∙◌, ap, true, false, some}
use jvmheap_scan.Store.Memory.{Store}
use jvmheap_scan.Store.Seg.{Item}
use jvmheap_scan.Store.Requests.{Queues, send, IsAllowed, enqueue}
use jvmheap_scan.Store.Refinement.{on_flush_msg-Represents}
use jvmheap_scan.Store.Represents.{Represents}
use jvmheap_scan.Store.{get_msg_group_holder, create_msg_node, on_flush_msg}
use jvmheap_scan.Sync.{Side, left, right, opposite, free, Shared, space_of, lock_of}
use jvmheap_scan.Sync.Entry.{location}
use jvmheap_scan.Sync.Handlers.{on_start_consume}
use jvmheap_scan.Sync.Turns.{Turn, on_end_consume-on_start_consume}
use jvmheap_scan.Interfaces.{data_store}
use jvmheap_scan.Interfaces.Laws.{Unnoticed, on_produce-stores}
use jvmheap_scan.Interfaces.Combined.{flush_by_thread}

-- Nobody is in the current space, and nothing keeps anybody out of it.
pub record IsIdle (m : Shared) : Type 0 where
  pub gate : (space_of m.current m).gate ≡ true
  pub nobody_in : (space_of m.current m).threads ≡ 0
  pub left_free : lock_of m.current left m ≡ free
  pub right_free : lock_of m.current right m ≡ free
  pub consumer_out : m.consumer_in ≡ false

-- A thread alone sends a message: it goes behind those of the left entry of the current space.
pub flush_by_thread-Represents :
    (limit i : ℕ) (c : Side) (m : Shared) (s : Store) (q : Queues) (a : Item)
    → Represents limit s q
    → IsIdle m
    → IsAllowed limit (send (location m.current left) a) q
    → (n : Shared) × (t : Store) × (flush_by_thread i c a.text a.size (m, s) ≡ some (tt, (n, t)))
      × Unnoticed m n
      × Represents limit t (enqueue q (get_msg_group_holder (location m.current left)) a)
unfolding flush_by_thread on_flush_msg create_msg_node
flush_by_thread-Represents limit i c m s q a r idle allowed =
    let (t, run, r') = on_flush_msg-Represents limit s q r (location m.current left) a allowed in
    let (n, produced, u) = on_produce-stores i c m _ t s.fresh idle.gate idle.left_free run in
    (n, t, produced, u, r')

-- The synchronizer as the consumer leaves the gate.
abbrev pub come_in : Shared → Shared
come_in n = record n { consumer_in = true; consumer_gate = false }

-- The consumer that is called while nobody is in the current space gets that space.
module _ {W : Type 0} (m n : Shared) (w : W) (idle : IsIdle m) (u : Unnoticed m n) where
  pub on_start_consume-idle :
      (c : Shared) × (on_start_consume data_store.accumulate (come_in n, w)
        ≡ some (m.current, (c, w)))
      × Turn m c
  on_start_consume-idle =
      let (c, k, got, turn, ends, rest) =
        on_end_consume-on_start_consume data_store.accumulate (come_in n) w
          (rw u.current (u.threads m.current ∙ idle.nobody_in))
          (rw u.current (u.locks m.current left ∙ idle.left_free))
          (rw u.current (u.locks m.current right ∙ idle.right_free)) in
      (
        c,
        got ∙ ap (λ d. some (d, (c, w))) u.current,
        record {
          closed = ap (λ d. (space_of d c).gate) here ∙ turn.closed;
          open_other = ap (λ d. (space_of (opposite d) c).gate) here ∙ turn.open_other;
          mine = λ e. ap (λ d. lock_of d e c) here ∙ turn.mine e;
          others = λ e.
              ap (λ d. lock_of (opposite d) e c) here
              ∙ (turn.others e
                  ∙ (ap (λ d. lock_of (opposite d) e n) u.current
                      ∙ u.locks (opposite m.current) e));
          current = turn.current ∙ u.current;
        },
      )
    where
      here : m.current ≡ n.current
      here = sym u.current
