-- ===== src/Interfaces/HeapReport.antt =====
-- What `onFollowReference` of Agent/src/c/JVMHeapScan.c hands to Agent/src/c/MessageStore.c, as the store
-- serves it.
use jvmheap_scan.Base.{
  ℕ, ◌+◌, ◌*◌, ◌<◌, ◌^◌, ◌≡◌, ◌≢◌, ◌⊎◌, refl, sym, ap, ◌∙◌, some, List, [], ◌∷◌, ◌++◌, arith,
  length, map,
}
use jvmheap_scan.Agent.Message.{Message}
use jvmheap_scan.Agent.Tags.{Jvmti, Agent, Event, done, include, start_group, flush_group}
use jvmheap_scan.Agent.Tags.Callback.{Kinds, follow_reference_callback}
use jvmheap_scan.Agent.Tags.Heap.{
  Walker, Walks, on_follow_reference, followed, visited, on_follow_reference-visits,
}
use jvmheap_scan.Interfaces.Handover.{
  hand_over, item_of, message_group, AreCollected, hand_over-Represents,
}
use jvmheap_scan.Store.Memory.{Store, ok}
use jvmheap_scan.Store.{get_msg_group_holder, on_queue_message}
use jvmheap_scan.Store.Requests.{Queues, enqueue}
use jvmheap_scan.Store.Represents.{Represents}
use jvmheap_scan.Store.Grouped.{joined}
use jvmheap_scan.Agent.Tags.Visits.{
  AreSmallVisits, AreIncluded, visit_all-AreIncluded, visit_all-some,
}

-- The messages of such events.
included_messages :
    (es : List Event)
    → AreIncluded es
    → (ms : List Message) × (map include ms ≡ es) × AreCollected ms
included_messages [] h = ([], refl, tt)
included_messages (include m ∷ es) h =
    let (ms, e, k) = included_messages es h.1 in (m ∷ ms, ap (λ l. include m ∷ l) e, (h.0, k))
included_messages (start_group ∷ es) h = elim h [ ]
included_messages (flush_group ∷ es) h = elim h [ ]

-- If a walk of the heap calls the callback once for each reference that it follows, it follows one, all
-- values of these have 32 bits, and there is room for twice as many tags as references below 2 ^ 31,
-- then what `onFollowReference` hands to the store becomes one message of the queue that its location
-- names, if that has room: the messages of the callback, in order, with the separator between them.
pub heap_report-Represents :
    (j : Jvmti) (walker : Walker j) (k : Kinds) (walks : Walks j walker k) (a : Agent j)
    (limit id : ℕ) (sep : List ℕ) (s : Store) (q : Queues)
    → a.last_tag + 2 * length (followed j walker k walks a) < 2 ^ 31
    → AreSmallVisits (followed j walker k walks a)
    → followed j walker k walks a ≢ []
    → Represents limit s q
    → (limit ≡ 0) ⊎ (length (q (get_msg_group_holder id)) < limit)
    → (b : Agent j) × (ms : List Message) × (t : Store) × (on_follow_reference j walker
          (some (follow_reference_callback k))
          a
        ≡ done tt b)
      × (b.sent ≡ a.sent ++ message_group ms)
      × (map include ms ≡ (visited j walker k walks a).1)
      × (hand_over (on_queue_message id) sep (message_group ms) s ≡ ok tt t)
      × Represents limit t (enqueue q (get_msg_group_holder id) (joined sep (map item_of ms)))
heap_report-Represents j walker k walks a limit id sep s q small fit some_visit r room =
    let vs = followed j walker k walks a in
    let (b, run, sent, tags) = on_follow_reference-visits j walker k walks a in
    let (ms, same, collected) =
      included_messages (visited j walker k walks a).1
        (visit_all-AreIncluded k a.last_tag vs small fit) in
    let (t, runs, r') =
      hand_over-Represents limit id sep ms s q r
        (λ e. visit_all-some k a.last_tag vs some_visit (sym same ∙ ap (λ l. map include l) e))
        collected (room, omega arith) in
    (
      b,
      ms,
      t,
      run,
      sent ∙ ap (λ l. a.sent ++ ((start_group ∷ l) ++ (flush_group ∷ []))) (sym same),
      same,
      runs,
      r',
    )
