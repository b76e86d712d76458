-- ===== src/Store/Reads.antt =====
-- What a retrieval of Agent/src/c/MessageStore.c hands out and what it leaves, where each holder has one
-- group.
use jvmheap_scan.Base.{
  ℕ, ◌+◌, ◌≤◌, ◌<◌, ◌%◌, ◌≡◌, refl, Bool, true, false, List, [], ◌++◌, ◌==◌, length,
}
use jvmheap_scan.Store.Memory.{Ptr, HolderId, Store, ok}
use jvmheap_scan.Store.Seg.{Cells}
use jvmheap_scan.Store.Merge.{IsSized}
use jvmheap_scan.Store.Space.{left_entry, right_entry}
use jvmheap_scan.Store.Hand.{handed}
use jvmheap_scan.Store.Part.{retrieved_part}
use jvmheap_scan.Store.Retrieve.{retrieved_whole}
use jvmheap_scan.Store.{on_retrieve_message}
use jvmheap_scan.Store.Contents.{IsStore, Spares}
use jvmheap_scan.Store.Replaced.{replaced, to_space, replaced-IsStore, replaced-Spares}

-- One retrieval for a space of a store: what is handed out, and what the holders contain afterwards.
abbrev pub Hands :
    List ℕ
    → ℕ
    → {s : Store} {xs : HolderId → Cells} → IsStore s xs
    → Bool
    → Cells
    → (HolderId → Cells)
    → Type 0
Hands sep id {s = s} h pending out after =
    (t : Store) × (on_retrieve_message sep id s ≡ ok (handed sep pending out) t)
    × ((k : IsStore t after) × ((p : Ptr) → Spares p h k))
    × (t.is_to_be_split ≡ s.is_to_be_split)
    × (t.split_sz ≡ s.split_sz)

module _ (sep : List ℕ) (id : ℕ) (s : Store) (xs : HolderId → Cells) (h : IsStore s xs) where
  abbrev side : Bool
  side = id % 2 == 1

  abbrev lefts : Cells
  lefts = xs (left_entry side)

  abbrev rights : Cells
  rights = xs (right_entry side)

  -- A space that fits the limit is sent as one text, and is empty afterwards.
  pub retrieve_whole-IsStore :
      IsSized (lefts ++ rights)
      → length lefts + length rights ≤ s.split_sz
      → Hands sep id h false (lefts ++ rights) (replaced side [] [] xs)
  retrieve_whole-IsStore sized small =
      let (t, run, after, e) =
        retrieved_whole side s lefts rights (to_space s xs h side) sep id refl sized small in
      (
        t,
        run,
        (replaced-IsStore s t xs h side [] [] after e, replaced-Spares s t xs h side [] [] after e),
        e.splits,
        e.limit,
      )

  -- Of a space that does not, the left entry is, and the right entry's messages take its place.
  pub retrieve_part-IsStore :
      IsSized lefts
      → s.split_sz < length lefts + length rights
      → Hands sep id h true lefts (replaced side rights [] xs)
  retrieve_part-IsStore sized large =
      let (t, run, after, e) =
        retrieved_part side s lefts rights (to_space s xs h side) sep id refl sized large in
      (
        t,
        run,
        (
          replaced-IsStore s t xs h side rights [] after e,
          replaced-Spares s t xs h side rights [] after e,
        ),
        e.splits,
        e.limit,
      )
