-- ===== src/Store/Collect.antt =====
-- `onIncludeMessage` and `onFlushMsgGrp` of Agent/src/c/MessageStore.c: messages that are collected in
-- a group and sent as one.
use jvmheap_scan.Base.{
  ℕ, suc, ◌+◌, ◌≤◌, ◌≡◌, ◌≢◌, refl, sym, true, false, some, List, [], ◌∷◌, ◌++◌, arith, length,
  length-append, update,
}
use jvmheap_scan.Store.Memory.{Ptr, null, MsgNode, MsgGroup, Store, Cmd, ok, set_next_node}
use jvmheap_scan.Store.Seg.{
  Item, node, Cells, Nodes, has, Seg-Head, link, nil, cons, last_addr, has-last_addr,
}
use jvmheap_scan.Store.Merge.{
  total_size, IsGroup, Holds, Holds-frame, IsSized, Without, join, merge_msg_as_string-join,
}
use jvmheap_scan.Store.Queue.{total_size-append, last_addr-append}
use jvmheap_scan.Store.Rules.{set_next_node-ok}
use jvmheap_scan.Store.{
  empty_size, create_msg_node, on_include_message, on_flush_msg, on_flush_msg_grp,
}

relink :
    (s : Store) {k l : Ptr} (q : Ptr) {n : MsgNode}
    → k ≡ l
    → s.nodes l ≡ some n
    → set_next_node k q s
      ≡ ok tt (record s { nodes = update s.nodes l (some (record n { next_node = q })) })
relink s {l = l} q e h = rw e (set_next_node-ok s l h q)

module _ (produce : Ptr → Cmd (Unit {0})) where
  pub flush-merged :
      (sep : List ℕ) (s : Store) (xs : Cells)
      → xs ≢ []
      → Holds s.nodes s.cur_msg_grp xs
      → IsSized xs
      → (left : Nodes) × (on_flush_msg_grp produce sep s
          ≡ on_flush_msg produce
              (join sep xs)
              (length (join sep xs) + 1)
              (record s { nodes = left }))
        × Without xs s.nodes left
  unfolding on_flush_msg_grp
  flush-merged sep s xs ne h sized =
      let (left, run, gone) = merge_msg_as_string-join sep s.cur_msg_grp s xs ne h sized in
      (left, rw run refl, gone)

  -- The group that is collected holds at least one message, and each message fits its size: the
  -- group is handed to the synchronizer as one message, its texts with the separator between them,
  -- in a node of its own with the size of text and NUL.
  on_flush_msg_grp-join :
      (sep : List ℕ) (s : Store) (xs : Cells)
      → xs ≢ []
      → Holds s.nodes s.cur_msg_grp xs
      → IsSized xs
      → (t : Store) × (on_flush_msg_grp produce sep s ≡ produce s.fresh t)
        × (t.nodes s.fresh
            ≡ some (node (record { size = length (join sep xs) + 1; text = join sep xs }) null))
  unfolding on_flush_msg_grp on_flush_msg create_msg_node
  on_flush_msg_grp-join sep s xs ne h sized =
      let (rest, run, gone) = merge_msg_as_string-join sep s.cur_msg_grp s xs ne h sized in
      (
        record s {
          nodes =
              update rest s.fresh
                (some (node (record { size = length (join sep xs) + 1; text = join sep xs }) null));
          fresh = suc s.fresh;
        },
        rw run,
        ground arith,
      )

  -- What `onIncludeMessage` leaves where `malloc` returns an address that is not null and not that of a
  -- node of the group.
  module _ (text : List ℕ) (size : ℕ) (s : Store) (xs : Cells)
      (is : IsGroup s.nodes s.cur_msg_grp xs) (ne : s.fresh ≢ null)
      (new : has s.fresh ((s.cur_msg_grp.first_node, is.sentinel) ∷ xs) ≡ false) where
    pub include-IsGroup :
        (left : Nodes) × (grp : MsgGroup) × (on_include_message produce text size false s
          ≡ ok tt (record s { nodes = left; fresh = suc s.fresh; cur_msg_grp = grp }))
        × IsGroup left grp (xs ++ (s.fresh, record { size = size; text = text }) ∷ [])
        × (grp.first_node ≡ s.cur_msg_grp.first_node)
        × ((a : Ptr)
            → has a ((s.cur_msg_grp.first_node, is.sentinel) ∷ xs) ≡ false
            → a ≢ s.fresh
            → left a ≡ s.nodes a)
    unfolding on_include_message create_msg_node
    include-IsGroup =
        let (n, old, chain) =
          link {nodes = stored} s.cur_msg_grp.first_node kept.chain.next s.fresh kept.sentinel xs
            (added ∷ []) kept.chain.here kept.chain.ne kept.chain.out kept.chain.rest
            (cons (ground arith) ne refl nil) apart in
        (
          update stored (last_addr s.cur_msg_grp.first_node xs)
              (some (record n { next_node = s.fresh })),
          record s.cur_msg_grp {
            last_node = s.fresh;
            total_msg_size = size + s.cur_msg_grp.total_msg_size;
            total_msgs = s.cur_msg_grp.total_msgs + 1;
          },
          rw (relink (record s { nodes = stored; fresh = suc s.fresh }) s.fresh is.last old),
          record {
            holds = record {
              sentinel = kept.sentinel;
              chain = (Seg-Head chain).1;
              count = counted;
              size = sized;
            };
            last = sym (last_addr-append s.cur_msg_grp.first_node s.fresh added.1 xs);
          },
          refl,
          λ a out other.
              let l = has-last_addr s.cur_msg_grp.first_node is.sentinel xs in ground arith,
        )
      where
        added : Ptr × Item
        added = (s.fresh, record { size = size; text = text })

        stored : Nodes
        stored = update s.nodes s.fresh (some (node added.1 null))

        kept : Holds stored s.cur_msg_grp xs
        kept = Holds-frame is.holds (λ a i. ground arith)

        apart :
            (a : Ptr)
            → has a ((s.cur_msg_grp.first_node, kept.sentinel) ∷ xs) ≡ true
            → has a (added ∷ []) ≡ false
        apart a i = ground arith

        counted : s.cur_msg_grp.total_msgs + 1 ≡ length (xs ++ added ∷ [])
        counted = omega (arith, is.count, length-append xs (added ∷ []))

        sized : empty_size + total_size (xs ++ added ∷ []) ≤ size + s.cur_msg_grp.total_msg_size
        sized = omega (arith, is.size, total_size-append xs (added ∷ []))

  -- A message that is not sent at once goes behind the messages of the group that is collected, if
  -- `malloc` returns an address that is not null and not that of a node of the group.
  on_include_message-append :
      (text : List ℕ) (size : ℕ) (s : Store) (xs : Cells)
      → (is : IsGroup s.nodes s.cur_msg_grp xs) → s.fresh ≢ null
      → has s.fresh ((s.cur_msg_grp.first_node, is.sentinel) ∷ xs) ≡ false
      → (t : Store) × (on_include_message produce text size false s ≡ ok tt t)
        × IsGroup t.nodes t.cur_msg_grp (xs ++ (s.fresh, record { size = size; text = text }) ∷ [])
  on_include_message-append text size s xs is ne new =
      let (left, grp, run, after, first, rest) = include-IsGroup text size s xs is ne new in
      (record s { nodes = left; fresh = suc s.fresh; cur_msg_grp = grp }, run, after)
