-- ===== src/Store/Requests.antt =====
-- Requests to Agent/src/c/MessageStore.c, and four queues of messages that say how it is to answer.
use jvmheap_scan.Base.{
  append_assoc, append-nil, refl, sym, ap, ◌∙◌, ℕ, ◌+◌, ◌≤◌, ◌<◌, ◌%◌, ◌≡◌, ◌⊎◌, Bool, true, false,
  Option, none, some, List, [], ◌∷◌, ◌++◌, leb, ◌==◌, if◌then◌else◌, length,
}
use jvmheap_scan.Store.Memory.{HolderId, Cmd, pure, ◌>>=◌, ◌>>◌}
use jvmheap_scan.Store.Seg.{Item}
use jvmheap_scan.Store.Space.{left_entry, right_entry}
use jvmheap_scan.Store.Contents.{same_holder}
use jvmheap_scan.Store.Sides.{seen, kept_of}
use jvmheap_scan.Store.{
  get_msg_group_holder, on_flush_msg, on_queue_message, on_retrieve_message, Retrieved,
}

-- What the store is asked for: a message sent at once under a location, or the messages of the space
-- that a location names, with this separator.
pub data Request : Type 0 where
  send : ℕ → Item → Request
  retrieve : List ℕ → ℕ → Request

unfoldable pub serve : Request → Cmd (List Retrieved)
serve (send id m) = on_flush_msg (on_queue_message id) m.text m.size >> pure []
serve (retrieve sep id) = do r ← on_retrieve_message sep id; pure (r ∷ [])

unfoldable pub serve_all : List Request → Cmd (List Retrieved)
unfolding serve
serve_all [] = pure []
serve_all (r ∷ rs) = do out ← serve r; outs ← serve_all rs; pure (out ++ outs)

-- The queue of each holder, the oldest message first.
abbrev pub Queues : Type 0
Queues = HolderId → List Item

abbrev pub no_messages : Queues
no_messages _ = []

abbrev pub enqueue : Queues → HolderId → Item → Queues
enqueue q i m j = if same_holder i j then q j ++ (m ∷ []) else q j

-- The queues with others in the entries of a space.
abbrev pub rearranged : Bool → List Item → List Item → Queues → Queues
rearranged side ls rs q i = kept_of (seen side i) ls rs (q i)

abbrev pub queued : Bool → Queues → List Item
queued side q = q (left_entry side) ++ q (right_entry side)

unfoldable pub join_texts : List ℕ → List Item → List ℕ
join_texts sep [] = []
join_texts sep (m ∷ []) = m.text
join_texts sep (m ∷ n ∷ ms) = m.text ++ (sep ++ join_texts sep (n ∷ ms))

unfoldable pub text_of_items : List ℕ → List Item → Option (List ℕ × ℕ)
unfolding join_texts
text_of_items sep [] = none
text_of_items sep (m ∷ ms) = some (join_texts sep (m ∷ ms), length (join_texts sep (m ∷ ms)) + 1)

-- Some messages as one text, and whether more is pending.
unfoldable pub batch : List ℕ → Bool → List Item → Retrieved
unfolding text_of_items
batch sep pending ms = record {
  pending = pending;
  total_msg = length ms;
  text = text_of_items sep ms;
}

-- Where the messages of a space fit the limit together, they are one text, the left queue's first.
-- Where they do not, the left queue is, more is pending, and the right queue takes its place. No limit
-- is a limit of 0 here, so that any message is too much.
unfoldable pub read_space : ℕ → List ℕ → Bool → Queues → Retrieved × Queues
unfolding batch
read_space limit sep side q =
    if leb (length (queued side q)) limit
    then (batch sep false (queued side q), rearranged side [] [] q)
    else (batch sep true (q (left_entry side)), rearranged side (q (right_entry side)) [] q)

unfoldable pub answer : ℕ → Request → Queues → List Retrieved × Queues
unfolding read_space
answer limit (send id m) q = ([], enqueue q (get_msg_group_holder id) m)
answer limit (retrieve sep id) q = let (r, p) = read_space limit sep (id % 2 == 1) q in (r ∷ [], p)

unfoldable pub answer_all : ℕ → List Request → Queues → List Retrieved × Queues
unfolding answer
answer_all limit [] q = ([], q)
answer_all limit (r ∷ rs) q =
    let (out, p) = answer limit r q in let (outs, z) = answer_all limit rs p in (out ++ outs, z)

-- A message is sent with a size that covers its text, and its queue has room, unless there is no
-- limit, which is written 0. Any space may be read at any time.
abbrev pub IsAllowed : ℕ → Request → Queues → Type 0
IsAllowed limit (send id m) q =
    ((limit ≡ 0) ⊎ (length (q (get_msg_group_holder id)) < limit)) × (length m.text + 1 ≤ m.size)
IsAllowed limit (retrieve sep id) q = Unit

abbrev pub AreAllowed : ℕ → List Request → Queues → Type 0
AreAllowed limit [] q = Unit
AreAllowed limit (r ∷ rs) q = IsAllowed limit r q × AreAllowed limit rs (answer limit r q).1

-- One more request.
pub answer_all-snoc :
    (limit : ℕ) (rs : List Request) (a : Request) (q : Queues)
    → ((answer_all limit (rs ++ (a ∷ [])) q).0
        ≡ (answer_all limit rs q).0 ++ (answer limit a (answer_all limit rs q).1).0)
      × ((answer_all limit (rs ++ (a ∷ [])) q).1 ≡ (answer limit a (answer_all limit rs q).1).1)
unfolding answer_all
answer_all-snoc limit [] a q = (append-nil (answer limit a q).0, refl)
answer_all-snoc limit (r ∷ rs) a q =
    let (out, p) = answer limit r q in
    let (outs, z) = answer_all limit rs p in
    let (x, y) = answer_all-snoc limit rs a p in
    (ap (λ l. out ++ l) x ∙ sym (append_assoc out outs (answer limit a z).0), y)

pub AreAllowed-snoc :
    (limit : ℕ) (rs : List Request) (a : Request) (q : Queues)
    → AreAllowed limit (rs ++ (a ∷ [])) q
    → AreAllowed limit rs q × IsAllowed limit a (answer_all limit rs q).1
unfolding answer_all
AreAllowed-snoc limit [] a q h = (tt, h.0)
AreAllowed-snoc limit (r ∷ rs) a q h =
    let (x, y) = AreAllowed-snoc limit rs a (answer limit r q).1 h.1 in ((h.0, x), y)
