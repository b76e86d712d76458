-- ===== src/Store/Runs.antt =====
-- The queues of Agent/src/c/MessageStore.c at concrete requests.
use jvmheap_scan.Base.{◌<◌, inr, true, some, none, ◌≡◌, refl, false, List, [], ◌∷◌, arith}
use jvmheap_scan.Store.Memory.{left_space_right_entry, Store, ok, ◌>>◌}
use jvmheap_scan.Store.Tests.{blank, item}
use jvmheap_scan.Store.Requests.{
  answer, enqueue, join_texts, Request, send, retrieve, no_messages, AreAllowed, answer_all,
  serve_all,
}
use jvmheap_scan.Store.Represents.{Represents}
use jvmheap_scan.Store.Grouped.{send_group, send_group-Represents}
use jvmheap_scan.Store.Initial.{on_initialize-Represents, started, serve_all-answer_all}
use jvmheap_scan.Store.{on_initialize, on_queue_message, get_msg_group_holder}

-- With a limit of two messages, the left entry has two and the right one has one.
abbrev requests : List Request
requests =
    send 2 (item 65)
    ∷ send 4 (item 66)
    ∷ send 2 (item 67)
    ∷ retrieve (10 ∷ []) 0
    ∷ retrieve (10 ∷ []) 0
    ∷ retrieve (10 ∷ []) 0
    ∷ []

requests-AreAllowed : AreAllowed 2 requests no_messages
unfolding answer get_msg_group_holder
requests-AreAllowed =
    let small : ◌<◌ 0 2 = omega arith in
    (
      (inr small, omega arith),
      ((inr small, omega arith), ((inr (omega arith), omega arith), (tt, (tt, (tt, tt))))),
    )

-- What the queues deliver: the left queue, then the right one, then nothing.
delivers :
    (answer_all 2 requests no_messages).0
    ≡ record { pending = true; total_msg = 2; text = some (65 ∷ 10 ∷ 67 ∷ [], 4) }
      ∷ record { pending = false; total_msg = 1; text = some (66 ∷ [], 2) }
      ∷ record { pending = false; total_msg = 0; text = none }
      ∷ []
unfolding answer_all get_msg_group_holder
delivers = refl

serve_all-answer_all_example :
    (t : Store) × ((on_initialize 2 >> serve_all requests) blank
      ≡ ok (answer_all 2 requests no_messages).0 t)
    × Represents 2 t (answer_all 2 requests no_messages).1
serve_all-answer_all_example =
    serve_all-answer_all 2 blank requests (omega arith) refl refl requests-AreAllowed

-- Two messages as one, for the right entry of the left space.
send_group-Represents_example :
    (t : Store) × (send_group
        (on_queue_message 4)
        (10 ∷ [])
        (item 65 ∷ item 66 ∷ [])
        (started 2 blank (omega arith))
      ≡ ok tt t)
    × Represents 2 t
        (enqueue no_messages left_space_right_entry (record { size = 4; text = 65 ∷ 10 ∷ 66 ∷ [] }))
unfolding get_msg_group_holder join_texts
send_group-Represents_example =
    send_group-Represents 2 4 (10 ∷ []) (item 65 ∷ item 66 ∷ []) (started 2 blank (omega arith))
      no_messages (on_initialize-Represents 2 blank (omega arith) refl refl).1 (λ e. cc)
      (omega arith, (omega arith, tt)) (inr (omega arith), omega arith)
