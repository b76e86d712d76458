-- ===== src/Socket/Batches.antt =====
-- The inner loop of `startFlushProcess` of Agent/src/c/SocketOutputInterface.c over the queues that the
-- message store of Agent/src/c/MessageStore.c holds.
use jvmheap_scan.Base.{
  ℕ, suc, ◌%◌, ◌≡◌, ◌∙◌, Bool, true, false, some, List, [], ◌++◌, arith, leb, ◌==◌, length,
  append-nil, inl, inr, Bool-cases,
}
use jvmheap_scan.Store.Memory.{Store, ok}
use jvmheap_scan.Store.Space.{left_entry, right_entry}
use jvmheap_scan.Store.Requests.{Queues, rearranged, queued, text_of_items, batch, read_space}
use jvmheap_scan.Store.Refinement.{read-Represents}
use jvmheap_scan.Store.Represents.{Represents, Represents-same}
use jvmheap_scan.Store.{on_retrieve_message}
use jvmheap_scan.Socket.{
  Peer, Output, running, same_status, drain, on_handle_socket_error, and_then, pure,
}
use jvmheap_scan.Socket.Drain.{over_store}
use jvmheap_scan.Socket.Packets.{
  Packet, packet, packets, after_sending, AreSent, AreSent-append, after_sending-append,
  rearranged_twice, rearranged-left, rearranged-right, one_round, failed_round, read_space-messages,
}

module _ (limit : ℕ) (sep : List ℕ) (p : Peer) (id : ℕ) where
  abbrev side : Bool
  side = id % 2 == 1

  -- What some rounds do: the packets are sent, and the store holds these queues.
  abbrev Drains : ℕ → Output (over_store sep p) → List Packet → Queues → Type 0
  Drains k s ms q =
      (t : Store) × (drain (over_store sep p) k id s
        ≡ running false (record s { world = (t, after_sending p ms s.world.1) }))
      × Represents limit t q

  module _ (k : ℕ) (s : Output (over_store sep p)) (q : Queues)
      (r : Represents limit s.world.0 q) where
    read_whole :
        leb (length (queued side q)) limit ≡ true
        → (t : Store) × (on_retrieve_message sep id s.world.0
            ≡ ok (batch sep false (queued side q)) t)
          × Represents limit t (rearranged side [] [] q)
    unfolding read_space
    read_whole small = rw small at (read-Represents limit s.world.0 q r sep id)

    read_part :
        leb (length (queued side q)) limit ≡ false
        → (t : Store) × (on_retrieve_message sep id s.world.0
            ≡ ok (batch sep true (q (left_entry side))) t)
          × Represents limit t (rearranged side (q (right_entry side)) [] q)
    unfolding read_space
    read_part large = rw large at (read-Represents limit s.world.0 q r sep id)

    last_round :
        leb (length (queued side q)) limit ≡ true
        → AreSent p (packet sep (queued side q)) s.world.1
        → Drains (suc k) s (packet sep (queued side q)) (rearranged side [] [] q)
    last_round small sent =
        let (t, run, r') = read_whole small in
        (t, one_round sep p id k s false (queued side q) t run sent, r')

    first_round :
        leb (length (queued side q)) limit ≡ false
        → AreSent p (packet sep (q (left_entry side))) s.world.1
        → (t : Store) × (drain (over_store sep p) (suc k) id s
            ≡ drain (over_store sep p) k id (record s {
              world = (t, after_sending p (packet sep (q (left_entry side))) s.world.1);
            }))
          × Represents limit t (rearranged side (q (right_entry side)) [] q)
    first_round large sent =
        let (t, run, r') = read_part large in
        (t, one_round sep p id k s true (q (left_entry side)) t run sent, r')

  -- Where the right entry has no message, two rounds are enough.
  rest_rounds :
      (k : ℕ) (s : Output (over_store sep p)) (q : Queues)
      → Represents limit s.world.0 q
      → q (right_entry side) ≡ []
      → AreSent p (packet sep (q (left_entry side))) s.world.1
      → Drains (suc (suc k)) s (packet sep (q (left_entry side))) (rearranged side [] [] q)
  unfolding text_of_items
  rest_rounds k s q r none_right sent = elim (Bool-cases (leb (length (queued side q)) limit)) [
    | inl small ↦ rw only at (last_round (suc k) s q r small (rw only sent))
    | inr large ↦
        (let (t, run, r') = first_round (suc k) s q r large sent in
          let (u, run', r'') =
            last_round k
              (record s {
                world = (t, after_sending p (packet sep (q (left_entry side))) s.world.1);
              })
              (rearranged side (q (right_entry side)) [] q) r' (rw nothing (ground arith))
              (rw nothing tt) in
          (
            u,
            run ∙ rw nothing at run',
            Represents-same (rearranged_twice side (q (right_entry side)) [] [] [] q) r'',
          ))
  ]
    where
      only : queued side q ≡ q (left_entry side)
      only = rw (none_right, append-nil (q (left_entry side)))

      nothing : queued side (rearranged side (q (right_entry side)) [] q) ≡ []
      nothing = rw (
        rearranged-left side (q (right_entry side)) [] q,
        rearranged-right side (q (right_entry side)) [] q,
        none_right,
      )

  -- The loop ends within three rounds. It has sent every message of the space, the left entry's
  -- before the right entry's, and the space is empty.
  pub drain-packets :
      (k : ℕ) (s : Output (over_store sep p)) (q : Queues)
      → Represents limit s.world.0 q
      → AreSent p (packets limit sep (q (left_entry side)) (q (right_entry side))) s.world.1
      → Drains
          (suc (suc (suc k)))
          s
          (packets limit sep (q (left_entry side)) (q (right_entry side)))
          (rearranged side [] [] q)
  unfolding packets
  drain-packets k s q r sent = elim (Bool-cases (leb (length (queued side q)) limit)) [
    | inl small ↦ rw small (last_round (suc (suc k)) s q r small (rw small at sent))
    | inr large ↦ rw large (two_packets large (rw large at sent))
  ]
    where
      lefts : List Packet
      lefts = packet sep (q (left_entry side))

      rights : List Packet
      rights = packet sep (q (right_entry side))

      two_packets :
          leb (length (queued side q)) limit ≡ false
          → AreSent p (lefts ++ rights) s.world.1
          → Drains (suc (suc (suc k))) s (lefts ++ rights) (rearranged side [] [] q)
      two_packets large sent' =
          let (a, b) = AreSent-append p lefts rights s.world.1 sent' in
          let (t, run, r') = first_round (suc (suc k)) s q r large a in
          let moved = rearranged-left side (q (right_entry side)) [] q in
          let (u, run', r'') =
            rest_rounds k (record s { world = (t, after_sending p lefts s.world.1) })
              (rearranged side (q (right_entry side)) [] q) r'
              (rearranged-right side (q (right_entry side)) [] q) (rw moved b) in
          (
            u,
            run ∙ rw (moved, ← after_sending-append p lefts rights s.world.1) at run',
            Represents-same (rearranged_twice side (q (right_entry side)) [] [] [] q) r'',
          )

  -- A packet that cannot be sent is lost: the loop ends with what the thread does on an error, and the
  -- store has only what is left behind the packet's messages.
  pub drain-lost :
      (k : ℕ) (s : Output (over_store sep p)) (q : Queues)
      → Represents limit s.world.0 q
      → {n : Packet} → (read_space limit sep side q).0.text ≡ some n
      → same_status (p.send n s.world.1).0 p.socket_error ≡ true
      → (t : Store) × (drain (over_store sep p) (suc k) id s
          ≡ and_then
              (over_store sep p)
              (on_handle_socket_error
                (over_store sep p)
                (record s { world = (t, (p.send n s.world.1).1) }))
              (λ _. pure (over_store sep p) true))
        × Represents limit t (read_space limit sep side q).1
  drain-lost k s q r text refused =
      let (t, run, r') = read-Represents limit s.world.0 q r sep id in
      (
        t,
        failed_round sep p id k s t run text (read_space-messages limit sep side q text) refused,
        r',
      )
