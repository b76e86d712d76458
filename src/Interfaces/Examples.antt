-- ===== src/Interfaces/Examples.antt =====
-- The store behind the synchronizer, at a concrete store.
use jvmheap_scan.Base.{ℕ, List, inl, map, ◌≡◌, refl, some, false, [], ◌∷◌, inr, arith}
use jvmheap_scan.Base.Int.{ℤ, pos}
use jvmheap_scan.Agent.Tags.{Agent, done, on_get_class_metadata}
use jvmheap_scan.Agent.Tags.Examples.{machine, machine-Laws, begun}
use jvmheap_scan.Interfaces.Report.{class_item, class_group, class_report-Represents}
use jvmheap_scan.Interfaces.Handover.{hand_over, item_of, message_group}
use jvmheap_scan.Interfaces.HeapReport.{heap_report-Represents}
use jvmheap_scan.Agent.Message.{Message}
use jvmheap_scan.Agent.Tags.{include}
use jvmheap_scan.Agent.Tags.Callback.{follow_reference_callback}
use jvmheap_scan.Agent.Tags.Heap.{on_follow_reference, visited}
use jvmheap_scan.Agent.Tags.Examples.{kinds, walker, walker_walks}
use jvmheap_scan.Store.Grouped.{joined}
use jvmheap_scan.Store.Initial.{started}
use jvmheap_scan.Store.Memory.{Store, ok}
use jvmheap_scan.Store.Tests.{loaded, blank, item}
use jvmheap_scan.Store.Requests.{enqueue, no_messages, rearranged, text_of_items}
use jvmheap_scan.Store.Represents.{Represents}
use jvmheap_scan.Store.Initial.{on_initialize-Represents}
use jvmheap_scan.Socket.{running, flush_round}
use jvmheap_scan.Socket.Packets.{packets}
use jvmheap_scan.Socket.Drain.{over_store}
use jvmheap_scan.Socket.Examples.{client, start}
use jvmheap_scan.Interfaces.Combined.{flush_by_thread, over_synchronizer}
use jvmheap_scan.Interfaces.Delivery.{connected, flush_round-flush_by_thread}
use jvmheap_scan.Sync.Turns.{Turn}
use jvmheap_scan.Store.{get_msg_group_holder, on_queue_message}
use jvmheap_scan.Sync.{Shared, left}
use jvmheap_scan.Sync
use jvmheap_scan.Sync.Entry.{location}

-- The store after the node at 7 is queued in the left entry of the left space.
record Queued : Type 0 where
  after : Store
  run : on_queue_message (location left left) 7 loaded ≡ ok tt after

queued : Queued
unfolding on_queue_message
queued = record { after = _; run = refl }

-- One message for a store with a limit of two, and a client that has got nothing yet.
flush_round-flush_by_thread_example :
    (n : Shared) × (t : Store) × (flush_by_thread 3 left (65 ∷ []) 2 (Sync.on_initialize, start)
      ≡ some (tt, (n, t)))
    × ((d : Shared) × (u : Store) × (flush_round
            (over_store (10 ∷ []) (over_synchronizer 258 (client (pos 0))))
            3
            (connected 258 (10 ∷ []) (client (pos 0)) t n [])
          ≡ running false (connected 258 (10 ∷ []) (client (pos 0)) u d ((65 ∷ [], 2) ∷ [])))
        × Turn Sync.on_initialize d
        × Represents 2 u (rearranged false [] [] no_messages))
unfolding packets text_of_items get_msg_group_holder
flush_round-flush_by_thread_example =
    flush_round-flush_by_thread 2 0 3 258 (10 ∷ []) left (client (pos 0)) Sync.on_initialize start
      no_messages (item 65) [] (pos 0) (on_initialize-Represents 2 blank (omega arith) refl refl).1
      (record {
        gate = refl;
        nobody_in = refl;
        left_free = refl;
        right_free = refl;
        consumer_out = refl;
      })
      (inr (omega arith), omega arith) refl refl (refl, tt)

-- Two loaded classes, and a store with no limit.
class_report-Represents_example :
    (b : Agent machine) × (cs : List (ℤ × List ℕ)) × (t : Store) × (on_get_class_metadata machine
        begun
      ≡ done tt b)
    × (b.sent ≡ class_group cs)
    × (map (λ c. c.1) cs ≡ (76 ∷ []) ∷ (76 ∷ []) ∷ [])
    × (hand_over (on_queue_message 2) (10 ∷ []) (class_group cs) (started 0 blank (omega arith))
        ≡ ok tt t)
    × Represents 0 t
        (enqueue no_messages (get_msg_group_holder 2) (joined (10 ∷ []) (map class_item cs)))
class_report-Represents_example =
    class_report-Represents machine machine-Laws begun 0 2 (10 ∷ []) (started 0 blank (omega arith))
      no_messages (λ o. (0, refl, omega arith)) (omega arith) (λ e. cc)
      (on_initialize-Represents 0 blank (omega arith) refl refl).1 (inl refl)

-- A heap with one reference.
heap_report-Represents_example :
    (b : Agent machine) × (ms : List Message) × (t : Store) × (on_follow_reference machine walker
        (some (follow_reference_callback kinds))
        begun
      ≡ done tt b)
    × (b.sent ≡ message_group ms)
    × (map include ms ≡ (visited machine walker kinds walker_walks begun).1)
    × (hand_over (on_queue_message 2) (10 ∷ []) (message_group ms) (started 0 blank (omega arith))
        ≡ ok tt t)
    × Represents 0 t
        (enqueue no_messages (get_msg_group_holder 2) (joined (10 ∷ []) (map item_of ms)))
heap_report-Represents_example =
    heap_report-Represents machine walker kinds walker_walks begun 0 2 (10 ∷ [])
      (started 0 blank (omega arith)) no_messages (omega arith)
      (
        (record {
          kind = omega arith;
          info = omega arith;
          class = omega arith;
          referrer_class = omega arith;
          bytes = omega arith;
          tag = omega arith;
          referrer = omega arith;
          len = omega arith;
        }),
        tt,
      )
      (λ e. cc) (on_initialize-Represents 0 blank (omega arith) refl refl).1 (inl refl)
