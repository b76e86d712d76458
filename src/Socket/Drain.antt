-- ===== src/Socket/Drain.antt =====
-- The inner loop of `startFlushProcess` of Agent/src/c/SocketOutputInterface.c over the message store
-- of Agent/src/c/MessageStore.c.
use jvmheap_scan.Base.{
  ℕ, suc, ◌+◌, ◌≤◌, ◌%◌, ◌≡◌, ◌≢◌, refl, Bool, true, false, none, some, List, [], ◌∷◌, ◌++◌, arith,
  ltb, ◌==◌, length,
}
use jvmheap_scan.Store.Memory.{Store, ok}
use jvmheap_scan.Store.Seg.{Cells}
use jvmheap_scan.Store.Merge.{IsSized, join}
use jvmheap_scan.Store.Space.{IsSpace}
use jvmheap_scan.Store.Retrieve.{on_retrieve_message-join}
use jvmheap_scan.Store.{Retrieved, on_retrieve_message}
use jvmheap_scan.Socket.{Peer, Output, running, same_status, retrieve, send_retrieved, drain}

-- The thread's calls with the message store behind `retrieve_msg`.
abbrev pub over_store : List ℕ → Peer → Peer
over_store sep p = record {
  World = Store × p.World;
  socket_error = p.socket_error;
  wait_object_0 = p.wait_object_0;
  pending_input = λ w. p.pending_input w.1;
  recv = λ n w. ((p.recv n w.1).0, (w.0, (p.recv n w.1).1));
  send = λ m w. ((p.send m w.1).0, (w.0, (p.send m w.1).1));
  close_client = λ w. ((p.close_client w.1).0, (w.0, (p.close_client w.1).1));
  close_listener = λ w. ((p.close_listener w.1).0, (w.0, (p.close_listener w.1).1));
  listen = λ w. ((p.listen w.1).0, (w.0, (p.listen w.1).1));
  accept = λ w. (w.0, p.accept w.1);
  set_non_blocking = λ w. ((p.set_non_blocking w.1).0, (w.0, (p.set_non_blocking w.1).1));
  follow_reference = λ w. (w.0, p.follow_reference w.1);
  start_gc = λ w. (w.0, p.start_gc w.1);
  on_get_class_metadata = λ w. (w.0, p.on_get_class_metadata w.1);
  on_try_consumer_entry =
      λ n w. ((p.on_try_consumer_entry n w.1).0, (w.0, (p.on_try_consumer_entry n w.1).1));
  on_start_consume =
      λ w. elim (p.on_start_consume w.1) [ none ↦ none | some (id, v) ↦ some (id, (w.0, v)) ];
  retrieve_msg =
      λ id w. elim (on_retrieve_message sep id w.0) [ ok r t ↦ some (r, (t, w.1)) | _ ↦ none ];
}

module _ (p : Peer) (s : Output p) where
  pub retrieve-ok :
      (id : ℕ) {r : Retrieved} {w : p.World}
      → p.retrieve_msg id s.world ≡ some (r, w)
      → retrieve p id s ≡ running r (record s { world = w })
  unfolding retrieve
  retrieve-ok id got = rw (retrieve, got)

  pub send_retrieved-ok :
      (r : Retrieved) {m : List ℕ × ℕ}
      → r.text ≡ some m
      → ltb 0 r.total_msg ≡ true
      → same_status (p.send m s.world).0 p.socket_error ≡ false
      → send_retrieved p r s ≡ running false (record s { world = (p.send m s.world).1 })
  unfolding send_retrieved
  send_retrieved-ok r text messages sent = rw (messages, text, sent)

  -- A round that retrieves the last text and sends it.
  drain_last :
      (id k : ℕ) {r : Retrieved} {w : p.World}
      → retrieve p id s ≡ running r (record s { world = w })
      → r.pending ≡ false
      → {t : Output p} → send_retrieved p r (record s { world = w }) ≡ running false t
      → drain p (suc k) id s ≡ running false t
  unfolding drain
  drain_last id k got last sent = rw (got, sent, last)

-- Both entries of a space together hold at least one message and fit the limit, and sending them
-- succeeds: the loop sends one text, all messages with the separator between them, the left entry's
-- first, with its NUL, and ends after one round with the space empty.
drain-join :
    (sep : List ℕ) (p : Peer) (side : Bool) (id k : ℕ) (s : Output (over_store sep p))
    (xs ys : Cells)
    → (id % 2 == 1) ≡ side
    → IsSpace s.world.0 side xs ys
    → xs ++ ys ≢ []
    → IsSized (xs ++ ys)
    → length xs + length ys ≤ s.world.0.split_sz
    → same_status
        (p.send (join sep (xs ++ ys), length (join sep (xs ++ ys)) + 1) s.world.1).0
        p.socket_error
      ≡ false
    → (t : Store) × (drain (over_store sep p) (suc k) id s
        ≡ running false (record s {
          world = (t, (p.send (join sep (xs ++ ys), length (join sep (xs ++ ys)) + 1) s.world.1).1);
        }))
      × IsSpace t side [] []
drain-join sep p side id k s xs ys here space nonempty sized small sent =
    let (t, run, empty) =
      on_retrieve_message-join sep side id s.world.0 xs ys here space nonempty sized small in
    (
      t,
      drain_last (over_store sep p) s id k (retrieve-ok (over_store sep p) s id (retrieved t run))
          refl
          (send_retrieved-ok (over_store sep p) (record s { world = (t, s.world.1) }) _ refl
            (some_messages xs ys nonempty) sent),
      empty,
    )
  where
    retrieved :
        {r : Retrieved} (t : Store)
        → on_retrieve_message sep id s.world.0 ≡ ok r t
        → (over_store sep p).retrieve_msg id s.world ≡ some (r, (t, s.world.1))
    retrieved t run = rw (over_store, run)

    some_messages : (xs ys : Cells) → xs ++ ys ≢ [] → ltb 0 (length xs + length ys) ≡ true
    some_messages [] [] h = ground (arith, h refl)
    some_messages [] (y ∷ ys) h = ground arith
    some_messages (x ∷ xs) ys h = ground arith
