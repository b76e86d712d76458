-- ===== src/Store/Final.antt =====
-- The store that `onRetrieveMessage` of Agent/src/c/MessageStore.c leaves, where each entry of the space
-- has one group: the space with two new empty groups, and all else as it was.
use jvmheap_scan.Base.{
  suc, ◌≤◌, ◌<◌, ◌≡◌, ◌≢◌, refl, ap, ◌∙◌, Bool, true, false, some, inl, [], ◌∷◌, ◌++◌, arith,
  update,
}
use jvmheap_scan.Store.Memory.{Ptr, null, MsgGroup, MsgGroupHolder, HolderId, holder_of, Store}
use jvmheap_scan.Store.Seg.{Groups, node, Cells, Nodes, has, has-append}
use jvmheap_scan.Store.Merge.{IsGroup, Holds, Holds-frame, Without}
use jvmheap_scan.Store.Split.{Pair}
use jvmheap_scan.Store.Group.{merged, regrouped}
use jvmheap_scan.Store.Space.{
  left_entry, right_entry, blank_item, empty_group, empty_group-IsGroup, initialized,
  entries_merged, Single, IsSpace, Elsewhere, IsOwnStart, side_of, first, second,
  entries_merged-start, entries_merged-next,
}

module _ (side : Bool) (s : Store) (xs ys : Cells) (space : IsSpace s side xs ys) where
  open space use {l, r, apart, disjoint}

  unfoldable pub merged_once : Store
  merged_once = entries_merged side s

  pub merged_once-Pair :
      Pair (left_entry side) merged_once (first side s) (second side s) l.grp r.grp
  unfolding merged_once
  merged_once-Pair = record {
    start = entries_merged-start side s;
    next = entries_merged-next side s;
    ne_null = r.ne_null;
    ne = apart;
    at1 = let a = l.at in let o = l.old in ground arith;
    at2 = let a = r.at in let o = r.old in ground arith;
  }

  pub spared : (p : Ptr) → p < s.fresh → merged_once.nodes p ≡ s.nodes p
  unfolding merged_once
  spared p h = ground arith

  pub left_group : IsGroup merged_once.nodes l.grp xs
  left_group = record {
    holds = Holds-frame l.is.holds (λ p i. spared p (l.low p i));
    last = l.is.last;
  }

  pub right_group : Holds merged_once.nodes r.grp ys
  right_group = Holds-frame r.is.holds (λ p i. spared p (r.low p i))

  abbrev pub both_groups : MsgGroup
  both_groups = merged l.grp r.grp

  abbrev pub split_up : Nodes → Store
  split_up left = regrouped merged_once (first side s) (second side s) both_groups left

  abbrev pub renewed : Nodes → Store
  renewed left = initialized (left_entry side) (split_up left)

  abbrev pub final : Nodes → Nodes → Groups → Store
  final left rest gs = record (renewed left) { nodes = rest; groups = gs }

  low : (p : Ptr) → has p ((l.grp.first_node, blank_item) ∷ (xs ++ ys)) ≡ true → p < s.fresh
  low p h = ground (arith, has-append p xs ys, l.low p, r.low p)

  pub renewed-Holds :
      (left : Nodes)
      → Holds left both_groups (xs ++ ys)
      → Holds (renewed left).nodes both_groups (xs ++ ys)
  unfolding merged_once
  renewed-Holds left h = Holds-frame h (λ p i. let q = low p i in ground arith)

  -- Nothing at or above the old `fresh` belongs to a message, so it is neither freed nor relinked.
  new_node :
      (left rest : Nodes) (p : Ptr)
      → ((q : Ptr)
          → has q ((l.grp.first_node, l.is.sentinel) ∷ xs) ≡ false
          → left q ≡ merged_once.nodes q)
      → Without (xs ++ ys) (renewed left).nodes rest
      → s.fresh ≤ p
      → rest p ≡ update merged_once.nodes (suc (suc (suc s.fresh))) (some (node blank_item null)) p
  unfolding merged_once
  new_node left rest p same gone h = ground (arith, same p, gone p, low p, has-append p xs ys)

  module _ (left rest : Nodes) (gs : Groups)
      (same : (q : Ptr)
        → has q ((l.grp.first_node, l.is.sentinel) ∷ xs) ≡ false
        → left q ≡ merged_once.nodes q)
      (gone : Without (xs ++ ys) (renewed left).nodes rest)
      (others : (p : Ptr) → p ≢ first side s → gs p ≡ (renewed left).groups p) where
    final-left :
        holder_of (left_entry side) (final left rest gs)
        ≡ record { start_grp = suc (suc s.fresh); cur_msg_grp = suc (suc s.fresh); next_grp = null }
    unfolding merged_once
    final-left = ground arith

    final-right :
        holder_of (right_entry side) (final left rest gs)
        ≡ record { start_grp = s.fresh; cur_msg_grp = s.fresh; next_grp = null }
    unfolding merged_once
    final-right = ground arith

    final-Single-left : Single (final left rest gs) (left_entry side) []
    unfolding merged_once
    final-Single-left = record {
      grp = empty_group (suc (suc (suc s.fresh)));
      at = rw final-left (let o = l.old in ground (arith, others (suc (suc s.fresh))));
      only = rw final-left;
      alone = refl;
      is =
          empty_group-IsGroup rest (suc (suc (suc s.fresh)))
            (new_node left rest _ same gone (omega arith) ∙ ground arith) (omega arith);
      ne_null = rw final-left (omega arith);
      old = rw final-left (omega arith);
      low = λ p i. ground arith;
    }

    final-Single-right : Single (final left rest gs) (right_entry side) []
    unfolding merged_once
    final-Single-right = record {
      grp = empty_group (suc s.fresh);
      at = rw final-right (let o = l.old in let q = r.old in ground (arith, others s.fresh));
      only = rw final-right;
      alone = refl;
      is =
          empty_group-IsGroup rest (suc s.fresh)
            (new_node left rest _ same gone (omega arith) ∙ ground arith) (omega arith);
      ne_null = rw final-right (let o = l.old in omega arith);
      old = rw final-right (omega arith);
      low = λ p i. ground arith;
    }

    pub final-IsSpace : IsSpace (final left rest gs) side [] []
    unfolding final-Single-left final-Single-right
    final-IsSpace = record {
      l = final-Single-left;
      r = final-Single-right;
      apart = rw (final-left, final-right) (omega arith);
      disjoint = λ p i. ground arith;
    }

    final-holders :
        (i : HolderId) → side_of i ≢ side → holder_of i (final left rest gs) ≡ holder_of i s
    unfolding merged_once
    final-holders i ne = ground arith

    final-groups :
        (p : Ptr)
        → p < s.fresh
        → p ≢ first side s
        → p ≢ second side s
        → (final left rest gs).groups p ≡ s.groups p
    unfolding merged_once
    final-groups p low ne ne' = ground (arith, others p)

    final-nodes :
        (p : Ptr)
        → p < s.fresh
        → has p ((l.grp.first_node, blank_item) ∷ xs) ≡ false
        → has p ((r.grp.first_node, blank_item) ∷ ys) ≡ false
        → (final left rest gs).nodes p ≡ s.nodes p
    unfolding merged_once
    final-nodes p low out out' = ground (arith, gone p, same p, spared p, has-append p xs ys)

    final-starts :
        IsOwnStart s side (first side (final left rest gs))
        × IsOwnStart s side (second side (final left rest gs))
    final-starts = (
      inl (omega (arith, ap (λ (h : MsgGroupHolder). h.start_grp) final-left)),
      inl (omega (arith, ap (λ (h : MsgGroupHolder). h.start_grp) final-right)),
    )

    pub final-Elsewhere : Elsewhere s (final left rest gs) side xs ys space [] [] final-IsSpace
    unfolding merged_once final-IsSpace final-Single-left final-Single-right
    final-Elsewhere = record {
      holders = final-holders;
      groups = final-groups;
      nodes = final-nodes;
      grows = omega arith;
      starts = final-starts;
      left_nodes = λ p o. inl (ground arith);
      right_nodes = λ p o. inl (ground arith);
      splits = refl;
      limit = refl;
    }
