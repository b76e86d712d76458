-- ===== src/Store/Part.antt =====
-- `onRetrieveMessage` of Agent/src/c/MessageStore.c where each entry of the space has one group, and both
-- together do not fit the limit.
use jvmheap_scan.Base.{
  ℕ, suc, ◌+◌, ◌<◌, ◌%◌, ◌≡◌, ◌≢◌, refl, sym, ap, ◌∙◌, inl, inr, Bool, true, some, List, [], ◌∷◌,
  arith, ◌==◌, length,
}
use jvmheap_scan.Store.Memory.{Ptr, null, MsgGroupHolder, holder_of, with_holder, Store}
use jvmheap_scan.Store.Seg.{node, Cells, Nodes, Groups, has}
use jvmheap_scan.Store.Merge.{Holds-frame, IsSized, Without}
use jvmheap_scan.Store.Split.{Pair, on_get_msg_split-pending}
use jvmheap_scan.Store.Hand.{hand_out-text}
use jvmheap_scan.Store.{on_retrieve_message}
use jvmheap_scan.Store.Space.{
  left_entry, right_entry, blank_item, empty_group, empty_group-IsGroup, space-ok, Single, IsSpace,
  Elsewhere, first, second, Retrieves,
}
use jvmheap_scan.Store.Final.{merged_once, merged_once-Pair, left_group, spared}

module _ (side : Bool) (s : Store) (xs ys : Cells) (space : IsSpace s side xs ys) where
  open space use {l, r, apart, disjoint}

  merged_at :
      Pair
        (left_entry side)
        (merged_once side s xs ys space)
        (first side s)
        (second side s)
        l.grp
        r.grp
  merged_at = merged_once-Pair side s xs ys space

  -- The store in which the right entry's group is the left one's.
  abbrev halved : Store
  halved =
      let m = merged_once side s xs ys space in
      with_holder (left_entry side)
        (record (holder_of (left_entry side) m) {
          start_grp = second side s;
          next_grp = r.grp.next_grp;
        })
        m

  abbrev parted : Nodes → Groups → Store
  parted rest gs = record halved { nodes = rest; groups = gs }

  module _ (rest : Nodes) (gs : Groups) (gone : Without xs halved.nodes rest)
      (others : (p : Ptr) → p ≢ first side s → gs p ≡ halved.groups p) where
    parted-left :
        holder_of (left_entry side) (parted rest gs)
        ≡ record { start_grp = second side s; cur_msg_grp = second side s; next_grp = null }
    unfolding merged_once
    parted-left = let o = r.only in let a = r.alone in ground arith

    parted-right :
        holder_of (right_entry side) (parted rest gs)
        ≡ record { start_grp = s.fresh; cur_msg_grp = s.fresh; next_grp = null }
    unfolding merged_once
    parted-right = ground arith

    kept_node : (p : Ptr) → has p ((r.grp.first_node, blank_item) ∷ ys) ≡ true → rest p ≡ s.nodes p
    unfolding merged_once
    kept_node p h = ground (arith, gone p, disjoint p, r.low p, spared side s xs ys space p)

    parted-Single-left : Single (parted rest gs) (left_entry side) ys
    unfolding merged_once
    parted-Single-left = record {
      grp = r.grp;
      at = rw parted-left (others (second side s) (λ e. apart (sym e)) ∙ merged_at.at2);
      only = rw parted-left;
      alone = r.alone;
      is = record { holds = Holds-frame r.is.holds (λ p h. kept_node p h); last = r.is.last };
      ne_null = rw parted-left r.ne_null;
      old = rw parted-left (let o = r.old in omega arith);
      low = λ p h. let o = r.low p h in omega arith;
    }

    new_node : rest (suc s.fresh) ≡ some (node blank_item null)
    unfolding merged_once
    new_node = ground (arith, gone (suc s.fresh), l.low (suc s.fresh))

    parted-Single-right : Single (parted rest gs) (right_entry side) []
    unfolding merged_once
    parted-Single-right = record {
      grp = empty_group (suc s.fresh);
      at = rw parted-right (let o = l.old in let q = r.old in ground (arith, others s.fresh));
      only = rw parted-right;
      alone = refl;
      is = empty_group-IsGroup rest (suc s.fresh) new_node (omega arith);
      ne_null = rw parted-right (let o = l.old in omega arith);
      old = rw parted-right (omega arith);
      low = λ p i. ground arith;
    }

    parted-IsSpace : IsSpace (parted rest gs) side ys []
    unfolding parted-Single-left parted-Single-right
    parted-IsSpace = record {
      l = parted-Single-left;
      r = parted-Single-right;
      apart = rw (parted-left, parted-right) (let o = r.old in omega arith);
      disjoint = λ p i. let o = r.low p i in ground arith;
    }

    parted-Elsewhere : Elsewhere s (parted rest gs) side xs ys space ys [] parted-IsSpace
    unfolding merged_once parted-IsSpace parted-Single-left parted-Single-right
    parted-Elsewhere = record {
      holders = λ i ne. ground arith;
      groups = λ p low ne ne'. ground (arith, others p);
      nodes = λ p low out out'. ground (arith, gone p, spared side s xs ys space p);
      grows = omega arith;
      starts = (
        inr (inr (ap (λ (h : MsgGroupHolder). h.start_grp) parted-left)),
        inl (omega (arith, ap (λ (h : MsgGroupHolder). h.start_grp) parted-right)),
      );
      left_nodes = λ p o. inr (inr o);
      right_nodes = λ p o. inl (ground arith);
      splits = refl;
      limit = refl;
    }

  -- The left entry's messages are handed out alone, and more is pending: the right entry's messages
  -- are the left entry's then.
  pub retrieved_part :
      (sep : List ℕ) (id : ℕ)
      → (id % 2 == 1) ≡ side
      → IsSized xs
      → s.split_sz < length xs + length ys
      → Retrieves sep id s side xs ys space true xs ys []
  unfolding on_retrieve_message merged_once
  retrieved_part sep id here sized large =
      let split =
        on_get_msg_split-pending (left_entry side) (merged_once side s xs ys space) (first side s)
          (second side s) l.grp r.grp merged_at too_many in
      let (rest, gs, text, gone, others) =
        hand_out-text sep true halved (first side s) l.grp xs merged_at.at1
          (left_group side s xs ys space).holds sized in
      (
        parted rest gs,
        rw (space-ok side id s here, split, text),
        parted-IsSpace rest gs gone others,
        parted-Elsewhere rest gs gone others,
      )
    where
      too_many : s.split_sz < l.grp.total_msgs + r.grp.total_msgs
      too_many = let c = l.is.count in let d = r.is.count in omega arith
