-- ===== src/Store/Refinement.antt =====
-- Agent/src/c/MessageStore.c as an implementation of four queues of messages.
use jvmheap_scan.Base.{
  ℕ, ◌<◌, ◌≢◌, some, ◌+◌, ◌≤◌, ◌%◌, ◌≡◌, refl, ap, ◌∙◌, Bool, true, false, ◌&&◌, List, [], ◌∷◌,
  ◌++◌, arith, ◌==◌, if◌then◌else◌, length, length-append, leb, inl, inr, Bool-cases,
}
use jvmheap_scan.Store.Memory.{Ptr, null, HolderId, Store, ok}
use jvmheap_scan.Store.Seg.{Item, node, Cells}
use jvmheap_scan.Store.Merge.{IsSized}
use jvmheap_scan.Store.Space.{left_entry, right_entry}
use jvmheap_scan.Store.Contents.{same_holder, IsStore, added, IsFree, Spares}
use jvmheap_scan.Store.Queued.{flush-IsStore, queue-IsStore}
use jvmheap_scan.Store.Sides.{seen, kept_of, Where, at_left, at_right, away}
use jvmheap_scan.Store.Replaced.{replaced}
use jvmheap_scan.Store.Reads.{Hands, retrieve_whole-IsStore, retrieve_part-IsStore}
use jvmheap_scan.Store.{get_msg_group_holder, on_flush_msg, on_queue_message, on_retrieve_message}
use jvmheap_scan.Store.Requests.{
  send, Queues, enqueue, rearranged, queued, batch, read_space, IsAllowed,
}
use jvmheap_scan.Store.Items.{items, items-append, length-items, handed-items, IsSized-append}
use jvmheap_scan.Store.Represents.{Represents}

module _ (limit : ℕ) (s : Store) (q : Queues) (r : Represents limit s q) where
  items-added :
      (i : HolderId) (p : Ptr) (m : Item) (j : HolderId)
      → items (added r.contents i p m j) ≡ enqueue q i m j
  unfolding items
  items-added i p m j = cases (same_holder i j)
    where
      cases :
          (b : Bool)
          → items (if b then r.contents j ++ ((p, m) ∷ []) else r.contents j)
            ≡ (if b then q j ++ (m ∷ []) else q j)
      cases true = items-append (r.contents j) ((p, m) ∷ []) ∙ ap (λ l. l ++ (m ∷ [])) (r.same j)
      cases false = r.same j

  IsSized-added :
      (i : HolderId) (p : Ptr) (m : Item)
      → length m.text + 1 ≤ m.size
      → (j : HolderId) → IsSized (added r.contents i p m j)
  IsSized-added i p m fits j = cases (same_holder i j)
    where
      cases : (b : Bool) → IsSized (if b then r.contents j ++ ((p, m) ∷ []) else r.contents j)
      cases true = IsSized-append (r.contents j) ((p, m) ∷ []) (r.sized j) (fits, tt)
      cases false = r.sized j

  items-replaced :
      (side : Bool) (ls rs : Cells) (i : HolderId)
      → items (replaced side ls rs r.contents i) ≡ rearranged side (items ls) (items rs) q i
  items-replaced side ls rs i = cases (seen side i)
    where
      cases :
          (w : Where)
          → items (kept_of w ls rs (r.contents i)) ≡ kept_of w (items ls) (items rs) (q i)
      cases at_left = refl
      cases at_right = refl
      cases away = r.same i

  IsSized-replaced :
      (side : Bool) (ls rs : Cells)
      → IsSized ls
      → IsSized rs
      → (i : HolderId) → IsSized (replaced side ls rs r.contents i)
  IsSized-replaced side ls rs l r' i = cases (seen side i)
    where
      cases : (w : Where) → IsSized (kept_of w ls rs (r.contents i))
      cases at_left = l
      cases at_right = r'
      cases away = r.sized i

  abbrev both : Bool → Cells
  both side = r.contents (left_entry side) ++ r.contents (right_entry side)

  items-both : (side : Bool) → items (both side) ≡ queued side q
  items-both side =
      items-append (r.contents (left_entry side)) (r.contents (right_entry side))
      ∙ rw (r.same (left_entry side), r.same (right_entry side)) refl

  roomy :
      (id : ℕ) (m : Item)
      → IsAllowed limit (send id m) q
      → (s.is_to_be_split && leb s.split_sz (length (r.contents (get_msg_group_holder id)))) ≡ false
  roomy id m allowed =
      let i = get_msg_group_holder id in
      rw (r.splits, r.at_most, ← length-items (r.contents i), r.same i)
        (elim allowed.0 [ inl unlimited ↦ ground arith | inr some_room ↦ ground arith ])

  with_one_more :
      (id : ℕ) (m : Item) (p : Ptr) (t : Store)
      → length m.text + 1 ≤ m.size
      → IsStore t (added r.contents (get_msg_group_holder id) p m)
      → t.is_to_be_split ≡ s.is_to_be_split
      → t.split_sz ≡ s.split_sz
      → Represents limit t (enqueue q (get_msg_group_holder id) m)
  with_one_more id m p t fits is splits at_most = record {
    contents = added r.contents (get_msg_group_holder id) p m;
    is = is;
    same = items-added (get_msg_group_holder id) p m;
    sized = IsSized-added (get_msg_group_holder id) p m fits;
    splits = splits ∙ r.splits;
    at_most = at_most ∙ r.at_most;
  }

  -- A message of which the node is there already goes behind those of its queue, and the other nodes
  -- that no queue has are left alone.
  pub queue-Represents :
      (id : ℕ) (m : Item) (p : Ptr)
      → IsAllowed limit (send id m) q
      → s.nodes p ≡ some (node m null)
      → p ≢ null
      → p < s.fresh
      → IsFree r.is p
      → (t : Store) × (on_queue_message id p s ≡ ok tt t)
        × ((k : Represents limit t (enqueue q (get_msg_group_holder id) m)) × Spares p r.is k.is)
  unfolding with_one_more
  queue-Represents id m p allowed placed ne old free =
      let (t, run, (is, spares), splits, at_most) =
        queue-IsStore s r.contents r.is id m p (roomy id m allowed) placed ne old free in
      (t, run, (with_one_more id m p t allowed.1 is splits at_most, spares))

  -- A message that is sent goes behind those of its queue.
  pub on_flush_msg-Represents :
      (id : ℕ) (m : Item)
      → IsAllowed limit (send id m) q
      → (t : Store) × (on_flush_msg (on_queue_message id) m.text m.size s ≡ ok tt t)
        × Represents limit t (enqueue q (get_msg_group_holder id) m)
  on_flush_msg-Represents id m allowed =
      let (t, run, is, splits, at_most) =
        flush-IsStore s r.contents r.is id m (roomy id m allowed) in
      (t, run, with_one_more id m s.fresh t allowed.1 is splits at_most)

  -- What is handed out is what the queues say, and the rest is what they keep.
  Hands-Represents :
      (sep : List ℕ) (id : ℕ) (pending : Bool) (out ls rs : Cells)
      → Hands sep id r.is pending out (replaced (id % 2 == 1) ls rs r.contents)
      → IsSized ls
      → IsSized rs
      → (t : Store) × (on_retrieve_message sep id s ≡ ok (batch sep pending (items out)) t)
        × ((k : Represents limit t (rearranged (id % 2 == 1) (items ls) (items rs) q)) × ((p : Ptr)
              → Spares p r.is k.is))
  Hands-Represents sep id pending out ls rs (t, run, (is, spares), splits, at_most) l r' = (
    t,
    run ∙ ap (λ r. ok r t) (handed-items sep pending out),
    (
      record {
        contents = replaced (id % 2 == 1) ls rs r.contents;
        is = is;
        same = items-replaced (id % 2 == 1) ls rs;
        sized = IsSized-replaced (id % 2 == 1) ls rs l r';
        splits = splits ∙ r.splits;
        at_most = at_most ∙ r.at_most;
      },
      spares,
    ),
  )

  length-both :
      (side : Bool)
      → length (r.contents (left_entry side)) + length (r.contents (right_entry side))
        ≡ length (queued side q)
  length-both side = omega (
    arith,
    length-append {0} (r.contents (left_entry side)) (r.contents (right_entry side)),
    length-items (both side),
    ap length (items-both side),
  )

  -- The store reads a space as the queues do, and leaves the nodes that no queue has alone.
  pub read-Spares :
      (sep : List ℕ) (id : ℕ)
      → (t : Store) × (on_retrieve_message sep id s ≡ ok (read_space limit sep (id % 2 == 1) q).0 t)
        × ((k : Represents limit t (read_space limit sep (id % 2 == 1) q).1) × ((p : Ptr)
              → Spares p r.is k.is))
  unfolding read_space items
  read-Spares sep id =
      let side = id % 2 == 1 in
      let n = length-both side in
      let m = r.at_most in
      let lefts = r.contents (left_entry side) in
      let rights = r.contents (right_entry side) in
      elim (Bool-cases (leb (length (queued side q)) limit)) [
        | inl small ↦
            rw (small, ← items-both side)
              (Hands-Represents sep id false (both side) [] []
                (retrieve_whole-IsStore sep id s r.contents r.is
                  (IsSized-append lefts rights (r.sized _) (r.sized _)) (ground arith))
                tt tt)
        | inr large ↦
            rw (large, ← r.same (left_entry side), ← r.same (right_entry side))
              (Hands-Represents sep id true lefts rights []
                (retrieve_part-IsStore sep id s r.contents r.is (r.sized _) (ground arith))
                (r.sized _) tt)
      ]

-- The store reads a space as the queues do.
pub read-Represents :
    (limit : ℕ) (s : Store) (q : Queues) (r : Represents limit s q) (sep : List ℕ) (id : ℕ)
    → (t : Store) × (on_retrieve_message sep id s ≡ ok (read_space limit sep (id % 2 == 1) q).0 t)
      × Represents limit t (read_space limit sep (id % 2 == 1) q).1
read-Represents limit s q r sep id =
    let (t, run, r') = read-Spares limit s q r sep id in (t, run, r'.0)
