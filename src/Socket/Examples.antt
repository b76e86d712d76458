-- ===== src/Socket/Examples.antt =====
-- The theorems on Agent/src/c/SocketOutputInterface.c at concrete clients.
use jvmheap_scan.Base.{◌<◌, inr, ℕ, ◌≡◌, refl, true, false, none, some, List, [], ◌∷◌, ◌++◌, arith}
use jvmheap_scan.Agent.Chars.{get_chars, decimal}
use jvmheap_scan.Base.Int.{ℤ, pos, negsuc}
use jvmheap_scan.Store.Memory.{Store}
use jvmheap_scan.Store.Memory.{ok}
use jvmheap_scan.Store.{get_msg_group_holder}
use jvmheap_scan.Store.Requests.{
  Request, send, no_messages, rearranged, text_of_items, read_space, answer, answer_all, AreAllowed,
  serve_all,
}
use jvmheap_scan.Store.Answers.{serve_all-Represents}
use jvmheap_scan.Store.Represents.{Represents}
use jvmheap_scan.Store.Initial.{started, on_initialize-Represents}
use jvmheap_scan.Socket.Batches.{drain-packets, drain-lost}
use jvmheap_scan.Socket.Packets.{packets}
use jvmheap_scan.Store.Tests.{blank, item, loaded}
use jvmheap_scan.Socket.{
  Status, normal, Peer, Output, running, exited, drain, flush_round, on_change_status,
  process_incoming_message, on_clean_socket, on_kill_thread, on_handle_socket_error, and_then, pure,
}
use jvmheap_scan.Socket.Drain.{over_store}
use jvmheap_scan.Socket.Kill.{killed, flush_round-killed, flush_round-kill_lost}

-- A client for which every call succeeds, but for the look at what has come in, which has the given
-- status. The world is what has been sent.
abbrev pub client : ℤ → Peer
client input = record {
  World = List (List ℕ × ℕ);
  socket_error = negsuc 0;
  wait_object_0 = 0;
  pending_input = λ w. (input, 0);
  recv = λ n w. ([], w);
  send = λ m w. (pos m.1, w ++ (m ∷ []));
  close_client = λ w. (pos 0, w);
  close_listener = λ w. (pos 0, w);
  listen = λ w. (pos 0, w);
  accept = λ w. w;
  set_non_blocking = λ w. (pos 0, w);
  follow_reference = λ w. w;
  start_gc = λ w. w;
  on_get_class_metadata = λ w. w;
  on_try_consumer_entry = λ n w. (0, w);
  on_start_consume = λ w. some (0, w);
  retrieve_msg = λ id w. none;
}

abbrev connected : (input : ℤ) → Output (client input)
connected input = record { thread_status = normal; status_lock = true; die = false; world = [] }

abbrev with_messages : Output (over_store (10 ∷ []) (client (pos 0)))
with_messages = record {
  thread_status = normal;
  status_lock = true;
  die = false;
  world = (loaded, []);
}

-- The thread was connected, so the client is told: its message is the code 5 with a NUL.
flush_round-killed_example :
    flush_round (client (pos 0)) 1 (killed (client (pos 0)) (connected (pos 0)))
    ≡ exited 0 (record (killed (client (pos 0)) (connected (pos 0))) { world = (53 ∷ [], 2) ∷ [] })
unfolding process_incoming_message on_kill_thread on_clean_socket decimal get_chars
flush_round-killed_example =
    flush_round-killed (client (pos 0)) 1 (connected (pos 0)) (pos 0) [] refl refl

flush_round-kill_lost_example :
    (t : Output (client (negsuc 0))) × (flush_round
        (client (negsuc 0))
        1
        (killed (client (negsuc 0)) (connected (negsuc 0)))
      ≡ running true t)
    × (t.thread_status ≡ normal)
    × (t.die ≡ true)
    × ((status : Status)
        → on_change_status (client (negsuc 0)) status t
          ≡ running tt (record t { thread_status = status }))
unfolding process_incoming_message on_kill_thread
flush_round-kill_lost_example =
    flush_round-kill_lost (client (negsuc 0)) 1 (connected (negsuc 0)) (negsuc 0) [] refl refl refl
      refl refl

-- A store with a limit of two messages, two in the left entry and one in the right one.
abbrev sends : List Request
sends = send 2 (item 65) ∷ send 4 (item 66) ∷ send 2 (item 67) ∷ []

sends-AreAllowed : AreAllowed 2 sends no_messages
unfolding answer get_msg_group_holder
sends-AreAllowed =
    let small : ◌<◌ 0 2 = omega arith in
    ((inr small, omega arith), ((inr small, omega arith), ((inr (omega arith), omega arith), tt)))

abbrev pub start : Store
start = started 2 blank (omega arith)

filled :
    (t : Store) × (serve_all sends start ≡ ok (answer_all 2 sends no_messages).0 t)
    × Represents 2 t (answer_all 2 sends no_messages).1
filled =
    serve_all-Represents 2 sends start no_messages sends-AreAllowed
      (on_initialize-Represents 2 blank (omega arith) refl refl).1

abbrev over_limit : (p : Peer) → p.World → Output (over_store (10 ∷ []) p)
over_limit p w = record {
  thread_status = normal;
  status_lock = true;
  die = false;
  world = (filled.0, w);
}

drain-packets_example :
    (t : Store) × (drain
        (over_store (10 ∷ []) (client (pos 0)))
        3
        0
        (over_limit (client (pos 0)) [])
      ≡ running false (record (over_limit (client (pos 0)) []) {
        world = (t, (65 ∷ 10 ∷ 67 ∷ [], 4) ∷ (66 ∷ [], 2) ∷ []);
      }))
    × Represents 2 t (rearranged false [] [] (answer_all 2 sends no_messages).1)
unfolding answer_all get_msg_group_holder packets text_of_items
drain-packets_example =
    drain-packets 2 (10 ∷ []) (client (pos 0)) 0 0 (over_limit (client (pos 0)) [])
      (answer_all 2 sends no_messages).1 filled.2 (refl, (refl, tt))

-- The same client, but nothing can be sent.
abbrev refusing : Peer
refusing = record (client (pos 0)) { send = λ m w. (negsuc 0, w) }

drain-lost_example :
    (t : Store) × (drain (over_store (10 ∷ []) refusing) 1 0 (over_limit refusing [])
      ≡ and_then
          (over_store (10 ∷ []) refusing)
          (on_handle_socket_error
            (over_store (10 ∷ []) refusing)
            (record (over_limit refusing []) { world = (t, []) }))
          (λ _. pure (over_store (10 ∷ []) refusing) true))
    × Represents 2 t (read_space 2 (10 ∷ []) false (answer_all 2 sends no_messages).1).1
unfolding answer_all get_msg_group_holder read_space text_of_items
drain-lost_example =
    drain-lost 2 (10 ∷ []) refusing 0 0 (over_limit refusing []) (answer_all 2 sends no_messages).1
      filled.2 {n = (65 ∷ 10 ∷ 67 ∷ [], 4)} refl refl
