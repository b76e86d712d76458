-- ===== src/Socket/Packets.antt =====
-- What one round of the inner loop of `startFlushProcess` of Agent/src/c/SocketOutputInterface.c sends.
use jvmheap_scan.Base.{
  ℕ, suc, ◌≡◌, refl, Bool, true, false, none, some, List, [], ◌∷◌, ◌++◌, arith, ltb, leb,
  if◌then◌else◌, length, inl, inr, Bool-cases,
}
use jvmheap_scan.Store.Memory.{HolderId, Store, ok}
use jvmheap_scan.Store.Seg.{Item}
use jvmheap_scan.Store.Space.{left_entry, right_entry}
use jvmheap_scan.Store.Sides.{Where, at_left, at_right, away, seen, kept_of}
use jvmheap_scan.Store.Requests.{Queues, rearranged, queued, text_of_items, batch, read_space}
use jvmheap_scan.Store.{Retrieved, on_retrieve_message}
use jvmheap_scan.Socket.{
  Peer, Output, running, same_status, retrieve, send_retrieved, drain, on_handle_socket_error,
  and_then, pure,
}
use jvmheap_scan.Socket.Drain.{over_store, retrieve-ok, send_retrieved-ok}

-- A text with its size, as it is sent.
abbrev pub Packet : Type 0
Packet = List ℕ × ℕ

-- The packet of some messages, if there is a message.
abbrev pub packet : List ℕ → List Item → List Packet
packet sep ms = elim (text_of_items sep ms) [ none ↦ [] | some m ↦ m ∷ [] ]

-- What is sent for a space: one packet if its messages fit the limit together, else one for each
-- entry; none for an entry with no message.
unfoldable pub packets : ℕ → List ℕ → List Item → List Item → List Packet
packets limit sep ls rs =
    if leb (length (ls ++ rs)) limit then packet sep (ls ++ rs) else packet sep ls ++ packet sep rs

-- The world after the packets are sent one after the other.
abbrev pub after_sending : (p : Peer) → List Packet → p.World → p.World
after_sending p [] w = w
after_sending p (m ∷ ms) w = after_sending p ms (p.send m w).1

-- No packet meets an error.
abbrev pub AreSent : (p : Peer) → List Packet → p.World → Type 0
AreSent p [] w = Unit
AreSent p (m ∷ ms) w =
    (same_status (p.send m w).0 p.socket_error ≡ false) × AreSent p ms (p.send m w).1

pub AreSent-append :
    (p : Peer) (ms ns : List Packet) (w : p.World)
    → AreSent p (ms ++ ns) w
    → AreSent p ms w × AreSent p ns (after_sending p ms w)
AreSent-append p [] ns w h = (tt, h)
AreSent-append p (m ∷ ms) ns w h =
    let (a, b) = AreSent-append p ms ns (p.send m w).1 h.1 in ((h.0, a), b)

pub after_sending-append :
    (p : Peer) (ms ns : List Packet) (w : p.World)
    → after_sending p (ms ++ ns) w ≡ after_sending p ns (after_sending p ms w)
after_sending-append p [] ns w = refl
after_sending-append p (m ∷ ms) ns w = after_sending-append p ms ns (p.send m w).1

pub rearranged_twice :
    (side : Bool) (xs ys ls rs : List Item) (q : Queues) (i : HolderId)
    → rearranged side ls rs (rearranged side xs ys q) i ≡ rearranged side ls rs q i
rearranged_twice side xs ys ls rs q i = cases (seen side i)
  where
    cases : (w : Where) → kept_of w ls rs (kept_of w xs ys (q i)) ≡ kept_of w ls rs (q i)
    cases at_left = refl
    cases at_right = refl
    cases away = refl

pub rearranged-left :
    (side : Bool) (ls rs : List Item) (q : Queues) → rearranged side ls rs q (left_entry side) ≡ ls
rearranged-left true ls rs q = refl
rearranged-left false ls rs q = refl

pub rearranged-right :
    (side : Bool) (ls rs : List Item) (q : Queues) → rearranged side ls rs q (right_entry side) ≡ rs
rearranged-right true ls rs q = refl
rearranged-right false ls rs q = refl

module _ (sep : List ℕ) (p : Peer) (id : ℕ) where
  abbrev o : Peer
  o = over_store sep p

  abbrev at_world : Output o → Store → p.World → Output o
  at_world s t w = record s { world = (t, w) }

  stored :
      (s : Output o) {r : Retrieved} (t : Store)
      → on_retrieve_message sep id s.world.0 ≡ ok r t
      → retrieve o id s ≡ running r (at_world s t s.world.1)
  stored s t run = retrieve-ok o s id (rw (over_store, run))

  goes_on :
      (k : ℕ) (s : Output o) {r : Retrieved} {s' u : Output o} (pending : Bool)
      → r.pending ≡ pending
      → retrieve o id s ≡ running r s'
      → send_retrieved o r s' ≡ running false u
      → drain o (suc k) id s ≡ elim pending [ true ↦ drain o k id u | false ↦ running false u ]
  unfolding drain
  goes_on k s true e got sent = rw (got, sent, e)
  goes_on k s false e got sent = rw (got, sent, e)

  -- One round that meets no error.
  pub one_round :
      (k : ℕ) (s : Output o) (pending : Bool) (ms : List Item) (t : Store)
      → on_retrieve_message sep id s.world.0 ≡ ok (batch sep pending ms) t
      → AreSent p (packet sep ms) s.world.1
      → drain o (suc k) id s ≡ (
          let u = at_world s t (after_sending p (packet sep ms) s.world.1) in
          elim pending [ true ↦ drain o k id u | false ↦ running false u ])
  unfolding batch text_of_items send_retrieved
  one_round k s pending [] t run sent = goes_on k s pending refl (stored s t run) refl
  one_round k s pending (m ∷ ms) t run sent = goes_on k s pending refl (stored s t run) (
      send_retrieved-ok o (at_world s t s.world.1) (batch sep pending (m ∷ ms)) refl (ground arith)
        sent.0)

  failing :
      (r : Retrieved) (u : Output o) {n : Packet}
      → r.text ≡ some n
      → ltb 0 r.total_msg ≡ true
      → same_status (p.send n u.world.1).0 p.socket_error ≡ true
      → send_retrieved o r u ≡ running true (at_world u u.world.0 (p.send n u.world.1).1)
  unfolding send_retrieved
  failing r u text messages refused = rw (messages, text, refused)

  pub failed_round :
      (k : ℕ) (s : Output o) {r : Retrieved} (t : Store) {n : Packet}
      → on_retrieve_message sep id s.world.0 ≡ ok r t
      → r.text ≡ some n
      → ltb 0 r.total_msg ≡ true
      → same_status (p.send n s.world.1).0 p.socket_error ≡ true
      → drain o (suc k) id s
        ≡ and_then o
            (on_handle_socket_error o (at_world s t (p.send n s.world.1).1))
            (λ _. pure o true)
  unfolding drain
  failed_round k s {r} t run text messages refused =
      rw (stored s t run, failing r (at_world s t s.world.1) text messages refused)

some_messages :
    (sep : List ℕ) (ms : List Item) {n : Packet}
    → text_of_items sep ms ≡ some n
    → ltb 0 (length ms) ≡ true
unfolding text_of_items
some_messages sep [] e = cc
some_messages sep (m ∷ ms) e = ground arith

pub read_space-messages :
    (limit : ℕ) (sep : List ℕ) (side : Bool) (q : Queues) {n : Packet}
    → (read_space limit sep side q).0.text ≡ some n
    → ltb 0 (read_space limit sep side q).0.total_msg ≡ true
unfolding read_space batch
read_space-messages limit sep side q e = elim (Bool-cases (leb (length (queued side q)) limit)) [
  | inl small ↦ rw small (some_messages sep (queued side q) (rw small at e))
  | inr large ↦ rw large (some_messages sep (q (left_entry side)) (rw large at e))
]
