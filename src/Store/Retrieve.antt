-- ===== src/Store/Retrieve.antt =====
-- `onRetrieveMessage` of Agent/src/c/MessageStore.c where each entry of the space has one group.
use jvmheap_scan.Base.{
  ℕ, ◌+◌, ◌≤◌, ◌%◌, ◌≡◌, ◌≢◌, refl, length-append, ◌∙◌, ap, Bool, false, some, List, [], ◌∷◌, ◌++◌,
  arith, ◌==◌, length,
}
use jvmheap_scan.Store.Memory.{Store, ok}
use jvmheap_scan.Store.Seg.{Cells, Nodes, Disjoint}
use jvmheap_scan.Store.Merge.{IsSized, join}
use jvmheap_scan.Store.Split.{on_get_msg_split-merge}
use jvmheap_scan.Store.{get_msg_group_holder_in_space, on_retrieve_message}
use jvmheap_scan.Store.Space.{
  left_entry, initialize_holder-ok, space-ok, IsSpace, first, second, Retrieves,
}
use jvmheap_scan.Store.Hand.{handed, hand_out-text}
use jvmheap_scan.Store.Final.{
  merged_once, both_groups, renewed, final, merged_once-Pair, left_group, right_group,
  renewed-Holds, final-IsSpace, final-Elsewhere,
}

module _ (side : Bool) (s : Store) (xs ys : Cells) (space : IsSpace s side xs ys) where
  merged_once-ok :
      (id : ℕ)
      → (id % 2 == 1) ≡ side
      → get_msg_group_holder_in_space id s ≡ ok (left_entry side) (merged_once side s xs ys space)
  unfolding merged_once
  merged_once-ok id here = space-ok side id s here

  both_at :
      (left : Nodes)
      → (renewed side s xs ys space left).groups (first side s)
        ≡ some (both_groups side s xs ys space)
  unfolding merged_once
  both_at left = let ne = space.apart in let o = space.l.old in ground arith

  -- Both entries together fit the limit: all messages are handed out as one text, the left entry's
  -- first. The space is empty afterwards.
  pub retrieved_whole :
      (sep : List ℕ) (id : ℕ)
      → (id % 2 == 1) ≡ side
      → IsSized (xs ++ ys)
      → length xs + length ys ≤ s.split_sz
      → Retrieves sep id s side xs ys space false (xs ++ ys) [] []
  unfolding on_retrieve_message merged_once
  retrieved_whole sep id here sized small =
      let (left, run, both, same) =
        on_get_msg_split-merge (left_entry side) (merged_once side s xs ys space) (first side s)
          (second side s) space.l.grp space.r.grp xs ys (merged_once-Pair side s xs ys space)
          space.l.alone (left_group side s xs ys space) (right_group side s xs ys space) distinct
          small in
      let u = renewed side s xs ys space left in
      let (rest, gs, text, gone, others) =
        hand_out-text sep false u (first side s) (both_groups side s xs ys space) (xs ++ ys)
          (both_at left) (renewed-Holds side s xs ys space left both) sized in
      (
        final side s xs ys space left rest gs,
        rw (merged_once-ok id here, run, initialize_holder-ok, text),
        final-IsSpace side s xs ys space left rest gs same gone others,
        final-Elsewhere side s xs ys space left rest gs same gone others,
      )
    where
      distinct :
          Disjoint ((space.l.grp.first_node, (left_group side s xs ys space).sentinel) ∷ xs) ys
      distinct p i = ground (arith, space.disjoint p)

-- The text that is handed out, where there is a message.
handed-append :
    (sep : List ℕ) (xs ys : Cells)
    → xs ++ ys ≢ []
    → handed sep false (xs ++ ys) ≡ record {
      pending = false;
      total_msg = length xs + length ys;
      text = some (join sep (xs ++ ys), length (join sep (xs ++ ys)) + 1);
    }
handed-append sep [] [] h = absurd (h refl)
handed-append sep [] (y ∷ ys) h = ground arith
handed-append sep (x ∷ xs) ys h = let e = length-append (x ∷ xs) ys in ground arith

-- Both entries of the space together hold at least one message and fit the limit: one call returns
-- all messages, the left entry's first, with the separator between them, their number, the size of
-- the text with its NUL, and that nothing is pending. The space is empty afterwards.
pub on_retrieve_message-join :
    (sep : List ℕ) (side : Bool) (id : ℕ) (s : Store) (xs ys : Cells)
    → (id % 2 == 1) ≡ side
    → IsSpace s side xs ys
    → xs ++ ys ≢ []
    → IsSized (xs ++ ys)
    → length xs + length ys ≤ s.split_sz
    → (t : Store) × (on_retrieve_message sep id s
        ≡ ok
            (record {
              pending = false;
              total_msg = length xs + length ys;
              text = some (join sep (xs ++ ys), length (join sep (xs ++ ys)) + 1);
            })
            t)
      × IsSpace t side [] []
on_retrieve_message-join sep side id s xs ys here space nonempty sized small =
    let (t, run, empty, elsewhere) = retrieved_whole side s xs ys space sep id here sized small in
    (t, run ∙ ap (λ r. ok r t) (handed-append sep xs ys nonempty), empty)
