-- ===== src/Store/Split.antt =====
-- `onGetMsgSplit` of Agent/src/c/MessageStore.c.
use jvmheap_scan.Base.{
  ◌+◌, ◌≤◌, ◌<◌, ◌≡◌, ◌≢◌, true, false, none, some, ◌∷◌, ◌++◌, arith, leb, length, update,
}
use jvmheap_scan.Store.Memory.{Ptr, null, MsgGroup, HolderId, holder_of, with_holder, Store, ok}
use jvmheap_scan.Store.Seg.{Cells, Nodes, SameOutside, Disjoint}
use jvmheap_scan.Store.Merge.{IsGroup, Holds}
use jvmheap_scan.Store.Group.{merged, regrouped, merge_grp-append}
use jvmheap_scan.Store.Rules.{load_group-ok, not_null}
use jvmheap_scan.Store.{on_get_msg_split, split_loop}

module _ (i : HolderId) (s : Store) (a b : Ptr) (g1 g2 : MsgGroup) where
  -- The holder's first group and the one behind it.
  pub record Pair : Type 0 where
    pub start : (holder_of i s).start_grp ≡ a
    pub next : (holder_of i s).next_grp ≡ b
    pub ne_null : b ≢ null
    pub ne : a ≢ b
    pub at1 : s.groups a ≡ some g1
    pub at2 : s.groups b ≡ some g2

  -- If both groups together fit the limit, and the first has no other group behind it, they are
  -- merged and nothing is pending.
  pub on_get_msg_split-merge :
      (xs ys : Cells)
      → Pair
      → g1.next_grp ≡ null
      → (is : IsGroup s.nodes g1 xs) → Holds s.nodes g2 ys
      → Disjoint ((g1.first_node, is.sentinel) ∷ xs) ys
      → length xs + length ys ≤ s.split_sz
      → (left : Nodes) × (on_get_msg_split i s
          ≡ ok (false, a) (regrouped s a b (merged g1 g2) left))
        × Holds left (merged g1 g2) (xs ++ ys)
        × SameOutside ((g1.first_node, is.sentinel) ∷ xs) s.nodes left
  unfolding on_get_msg_split split_loop
  on_get_msg_split-merge xs ys pair alone is holds apart small =
      let (left, run, both, same) =
        merge_grp-append s a b g1 g2 xs ys pair.at1 pair.at2 pair.ne is holds apart in
      (
        left,
        rw (
          pair.start,
          pair.next,
          load_group-ok s a pair.at1,
          not_null pair.ne_null,
          load_group-ok s b pair.at2,
          fits,
          run,
          load_group-ok (regrouped s a b (merged g1 g2) left) a {g = merged g1 g2} here,
          alone,
        ),
        both,
        same,
      )
    where
      fits : leb (g1.total_msgs + g2.total_msgs) s.split_sz ≡ true
      fits = let c = is.count in let d = holds.count in ground arith

      here : update (update s.groups a (some (merged g1 g2))) b none a ≡ some (merged g1 g2)
      here = let ne = pair.ne in ground arith

  -- If the holder's first group and the next one together do not fit the limit, the first is handed
  -- out alone, the next becomes the first, and the call says that more is pending.
  pub on_get_msg_split-pending :
      Pair
      → s.split_sz < g1.total_msgs + g2.total_msgs
      → on_get_msg_split i s
        ≡ ok
            (true, a)
            (with_holder i (record (holder_of i s) { start_grp = b; next_grp = g2.next_grp }) s)
  unfolding on_get_msg_split split_loop
  on_get_msg_split-pending pair large = rw (
    pair.start,
    pair.next,
    load_group-ok s a pair.at1,
    not_null pair.ne_null,
    load_group-ok s b pair.at2,
    fits,
  )
    where
      fits : leb (g1.total_msgs + g2.total_msgs) s.split_sz ≡ false
      fits = ground arith
