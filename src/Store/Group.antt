-- ===== src/Store/Group.antt =====
-- `mergeGrp` of Agent/src/c/MessageStore.c.
use jvmheap_scan.Base.{◌+◌, ◌≡◌, ◌≢◌, none, some, ◌∷◌, ◌++◌, arith, length-append, update}
use jvmheap_scan.Store.Memory.{Ptr, MsgNode, MsgGroup, Store, ok}
use jvmheap_scan.Store.Seg.{Cells, Nodes, SameOutside, Disjoint, has-last_addr, Seg-Head, link}
use jvmheap_scan.Store.Merge.{IsGroup, Holds}
use jvmheap_scan.Store.Queue.{total_size-append}
use jvmheap_scan.Store.Rules.{load_node-ok, load_group-ok, set_next_node-ok, free_group-ok}
use jvmheap_scan.Store.{merge_grp}

-- The group at `group1` with the counters of both; its last pointer stays as it was.
abbrev pub merged : MsgGroup → MsgGroup → MsgGroup
merged g1 g2 = record g1 {
  total_msgs = g1.total_msgs + g2.total_msgs;
  total_msg_size = g1.total_msg_size + g2.total_msg_size;
}

abbrev pub regrouped : Store → Ptr → Ptr → MsgGroup → Nodes → Store
regrouped s a b g left = record s {
  nodes = left;
  groups = update (update s.groups a (some g)) b none;
}

module _ (s : Store) (a b : Ptr) (g1 g2 : MsgGroup) (xs ys : Cells) where
  -- Two groups with no common node become one group that holds the messages of the first and then
  -- those of the second, with the counters added. The second group is freed; nodes outside of the
  -- first group stay as they are.
  pub merge_grp-append :
      s.groups a ≡ some g1
      → s.groups b ≡ some g2
      → a ≢ b
      → (is : IsGroup s.nodes g1 xs) → Holds s.nodes g2 ys
      → Disjoint ((g1.first_node, is.sentinel) ∷ xs) ys
      → (left : Nodes) × (merge_grp a b s ≡ ok tt (regrouped s a b (merged g1 g2) left))
        × Holds left (merged g1 g2) (xs ++ ys)
        × SameOutside ((g1.first_node, is.sentinel) ∷ xs) s.nodes left
  unfolding merge_grp
  merge_grp-append at1 at2 ne is holds apart =
      let c = is.chain in
      let d = holds.chain in
      let (n, old, chain) =
        link g1.first_node c.next d.next is.sentinel xs ys c.here c.ne c.out c.rest d.rest apart in
      let left : Nodes = update s.nodes g1.last_node (some (record n { next_node = d.next })) in
      (
        left,
        rw (
          load_group-ok s a at1,
          load_group-ok s b at2,
          load_node-ok (counted s) g2.first_node d.here,
          set_next_node-ok (counted s) g1.last_node {n = n} (rw is.last old) d.next,
          free_group-ok (relinked n) b {g = g2} (ground arith),
        ),
        record {
          sentinel = is.sentinel;
          chain = rw is.last ((Seg-Head chain).1);
          count = omega (arith, length-append xs ys);
          size = omega (arith, total_size-append xs ys);
        },
        λ p o. ground (arith, is.last, has-last_addr g1.first_node is.sentinel xs),
      )
    where
      counted : Store → Store
      counted t = record t { groups = update t.groups a (some (merged g1 g2)) }

      relinked : MsgNode → Store
      relinked n = record (counted s) {
        nodes = update s.nodes g1.last_node (some (record n { next_node = holds.chain.next }));
      }
