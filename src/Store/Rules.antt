-- ===== src/Store/Rules.antt =====
-- One rule for each command of the store that loads, writes or frees.
use jvmheap_scan.Base.{
  ℕ, ◌+◌, ◌≤◌, ◌≡◌, ◌≢◌, false, none, some, List, ◌++◌, arith, ◌==◌, length, update,
}
use jvmheap_scan.Store.Memory.{
  Ptr, null, MsgNode, MsgGroup, Store, ok, load_node, load_group, set_next_node, free_group,
}
use jvmheap_scan.Store.{free_msg_node, print_into}

pub not_null : {p : Ptr} → p ≢ null → (p == null) ≡ false
not_null ne = ground arith

module _ (s : Store) (p : Ptr) {n : MsgNode} (e : s.nodes p ≡ some n) where
  pub load_node-ok : load_node p s ≡ ok n s
  unfolding load_node
  load_node-ok = rw (e, load_node)

  pub free_msg_node-ok : free_msg_node p s ≡ ok tt (record s { nodes = update s.nodes p none })
  unfolding free_msg_node
  free_msg_node-ok = rw load_node-ok

  pub set_next_node-ok :
      (q : Ptr)
      → set_next_node p q s
        ≡ ok tt (record s { nodes = update s.nodes p (some (record n { next_node = q })) })
  unfolding set_next_node
  set_next_node-ok q = rw load_node-ok

module _ (s : Store) (p : Ptr) {g : MsgGroup} (e : s.groups p ≡ some g) where
  pub load_group-ok : load_group p s ≡ ok g s
  unfolding load_group
  load_group-ok = rw (e, load_group)

  pub free_group-ok : free_group p s ≡ ok tt (record s { groups = update s.groups p none })
  unfolding free_group
  free_group-ok = rw load_group-ok

pub print_into-ok :
    (room : ℕ) (out piece : List ℕ) (s : Store)
    → length out + length piece + 1 ≤ room
    → print_into room out piece s ≡ ok (out ++ piece) s
unfolding print_into
print_into-ok room out piece s h = ground arith
