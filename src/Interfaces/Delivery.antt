-- ===== src/Interfaces/Delivery.antt =====
-- A message from the thread that sends it to the client: Agent/src/c/MessageStore.c,
-- Agent/src/c/ThreadSync_PriorityProducer.c and Agent/src/c/SocketOutputInterface.c together.
use jvmheap_scan.Base.{
  ℕ, suc, ◌≡◌, refl, ◌∙◌, ap, Bool, true, false, some, List, [], ◌∷◌, ◌++◌, arith, ◌==◌, ◌%◌,
}
use jvmheap_scan.Base.Int.{ℤ}
use jvmheap_scan.Store.Memory.{HolderId, Store}
use jvmheap_scan.Store.Seg.{Item}
use jvmheap_scan.Store.Space.{left_entry, right_entry}
use jvmheap_scan.Store.Requests.{Queues, send, IsAllowed, enqueue, rearranged}
use jvmheap_scan.Store.Represents.{Represents, Represents-same}
use jvmheap_scan.Store.{get_msg_group_holder}
use jvmheap_scan.Sync.{Side, left, right, Shared, space_id}
use jvmheap_scan.Sync.Entry.{location}
use jvmheap_scan.Sync.Handlers.{try_consumer_entry, on_start_consume}
use jvmheap_scan.Sync.Turns.{Turn}
use jvmheap_scan.Socket.{Peer, Output, normal, running, same_status, flush_round, drain}
use jvmheap_scan.Socket.Drain.{over_store}
use jvmheap_scan.Socket.Batches.{drain-packets}
use jvmheap_scan.Socket.Packets.{Packet, packets, after_sending, AreSent}
use jvmheap_scan.Socket.Round.{nothing_received, flush_round-drain}
use jvmheap_scan.Interfaces.{data_store}
use jvmheap_scan.Interfaces.Idle.{
  IsIdle, come_in, flush_by_thread-Represents, on_start_consume-idle,
}
use jvmheap_scan.Interfaces.Combined.{flush_by_thread, wait_for_entry, over_synchronizer}

module _ (wait_timeout : ℕ) (p : Peer) where
  abbrev o : Peer
  o = over_synchronizer wait_timeout p

  after_sending-over :
      (ms : List Packet) (n : Shared) (w : p.World)
      → after_sending o ms (n, w) ≡ (n, after_sending p ms w)
  after_sending-over [] n w = refl
  after_sending-over (m ∷ ms) n w = after_sending-over ms n (p.send m w).1

  AreSent-over :
      (ms : List Packet) (n : Shared) (w : p.World) → AreSent p ms w → AreSent o ms (n, w)
  AreSent-over [] n w h = tt
  AreSent-over (m ∷ ms) n w h = (h.0, AreSent-over ms n (p.send m w).1 h.1)

  -- The consumer was called and gets the current space.
  entered :
      (n : Shared) (w : p.World)
      → n.consumer_gate ≡ true
      → wait_for_entry wait_timeout p (n, w)
        ≡ (p.wait_object_0, (record n { consumer_in = true; consumer_gate = false }, w))
  unfolding wait_for_entry try_consumer_entry
  entered n w h = rw h

-- The thread is connected, and is not to end.
abbrev pub connected :
    (wait_timeout : ℕ) (sep : List ℕ) (p : Peer)
    → Store
    → Shared
    → p.World
    → Output (over_store sep (over_synchronizer wait_timeout p))
connected wait_timeout sep p t n w = record {
  thread_status = normal;
  status_lock = true;
  die = false;
  world = (t, (n, w));
}

-- Whether a space is the right one, for the message store.
abbrev pub is_right : Side → Bool
is_right d = space_id d % 2 == 1

-- The packets of a space, with one more message in its left entry.
abbrev pub packets_with : ℕ → List ℕ → Side → Queues → Item → List Packet
packets_with limit sep d q a =
    packets limit sep (q (left_entry (is_right d)) ++ (a ∷ [])) (q (right_entry (is_right d)))

-- The new message stands in the left entry.
module _ (q : Queues) (a : Item) where
  abbrev with_new : Side → Queues
  with_new d = enqueue q (get_msg_group_holder (location d left)) a

  new-left :
      (d : Side) → with_new d (left_entry (is_right d)) ≡ q (left_entry (is_right d)) ++ (a ∷ [])
  unfolding get_msg_group_holder
  new-left left = refl
  new-left right = refl

  new-right : (d : Side) → with_new d (right_entry (is_right d)) ≡ q (right_entry (is_right d))
  unfolding get_msg_group_holder
  new-right left = refl
  new-right right = refl

  new-gone :
      (d : Side) (i : HolderId)
      → rearranged (is_right d) [] [] (with_new d) i ≡ rearranged (is_right d) [] [] q i
  unfolding get_msg_group_holder
  new-gone left i = ground arith
  new-gone right i = ground arith

  drain-packets_with :
      (limit k wait_timeout : ℕ) (sep : List ℕ) (p : Peer) (d : Side) (t : Store) (n : Shared)
      (w : p.World)
      → Represents limit t (with_new d)
      → AreSent p (packets_with limit sep d q a) w
      → (u : Store) × (drain
            (over_store sep (over_synchronizer wait_timeout p))
            (suc (suc (suc k)))
            (space_id d)
            (connected wait_timeout sep p t n w)
          ≡ running false
              (connected wait_timeout sep p u n (after_sending p (packets_with limit sep d q a) w)))
        × Represents limit u (rearranged (is_right d) [] [] q)
  drain-packets_with limit k wait_timeout sep p d t n w r sent =
      let ms = packets_with limit sep d q a in
      let (u, run, r') =
        drain-packets limit sep (over_synchronizer wait_timeout p) (space_id d) k
          (connected wait_timeout sep p t n w) (with_new d) r
          (rw (new-left d, new-right d) (AreSent-over wait_timeout p ms n w sent)) in
      (
        u,
        rw (new-left d, new-right d, after_sending-over wait_timeout p ms n w) at run,
        Represents-same (new-gone d) r',
      )

-- The round of the client's thread comes to the messages of the space that the consumer gets.
flush_round-enters :
    (k wait_timeout : ℕ) (sep : List ℕ) (p : Peer) (t : Store) (n d : Shared) (w : p.World)
    (e : Side) (input : ℤ)
    → p.pending_input w ≡ (input, 0)
    → same_status input p.socket_error ≡ false
    → n.consumer_gate ≡ true
    → on_start_consume data_store.accumulate (come_in n, w) ≡ some (e, (d, w))
    → flush_round
        (over_store sep (over_synchronizer wait_timeout p))
        k
        (connected wait_timeout sep p t n w)
      ≡ drain
          (over_store sep (over_synchronizer wait_timeout p))
          k
          (space_id e)
          (connected wait_timeout sep p t d w)
flush_round-enters k wait_timeout sep p t n d w e input quiet fine called got =
    flush_round-drain o s k (nothing_received o s quiet fine) fine refl
      (ap (λ v. (v.0, (t, v.1))) (entered wait_timeout p n w called)) (rw (over_store, handed) refl)
  where
    handed :
        (over_synchronizer wait_timeout p).on_start_consume (come_in n, w)
        ≡ some (space_id e, (d, w))
    handed = rw (over_synchronizer, got) refl

    o : Peer
    o = over_store sep (over_synchronizer wait_timeout p)

    s : Output o
    s = connected wait_timeout sep p t n w

-- A thread sends a message while nobody is in the current space, and the thread of the client, which
-- is connected, then makes its round alone with nothing to receive. If no packet meets an error, the
-- client has got the messages of that space, the new one behind those of the left entry, and the
-- space is empty; the consumer has it, and producers are let into the other one.
pub flush_round-flush_by_thread :
    (limit k i wait_timeout : ℕ) (sep : List ℕ) (c : Side) (p : Peer) (m : Shared) (s : Store)
    (q : Queues) (a : Item) (w : p.World) (input : ℤ)
    → Represents limit s q
    → IsIdle m
    → IsAllowed limit (send (location m.current left) a) q
    → p.pending_input w ≡ (input, 0)
    → same_status input p.socket_error ≡ false
    → AreSent p (packets_with limit sep m.current q a) w
    → (n : Shared) × (t : Store) × (flush_by_thread i c a.text a.size (m, s) ≡ some (tt, (n, t)))
      × ((d : Shared) × (u : Store) × (flush_round
              (over_store sep (over_synchronizer wait_timeout p))
              (suc (suc (suc k)))
              (connected wait_timeout sep p t n w)
            ≡ running false (
                connected wait_timeout sep p u d
                  (after_sending p (packets_with limit sep m.current q a) w)))
          × Turn m d
          × Represents limit u (rearranged (is_right m.current) [] [] q))
flush_round-flush_by_thread limit k i wait_timeout sep c p m s q a w input r idle allowed quiet fine
      sent =
    let (n, t, flushed, u, r') = flush_by_thread-Represents limit i c m s q a r idle allowed in
    let (d, got, turn) = on_start_consume-idle m n w idle u in
    let (z, drained, r'') =
      drain-packets_with q a limit k wait_timeout sep p m.current t d w r' sent in
    let enters =
      flush_round-enters (suc (suc (suc k))) wait_timeout sep p t n d w m.current input quiet fine
        (u.announces idle.consumer_out) got in
    (n, t, flushed, (d, z, enters ∙ drained, turn, r''))
