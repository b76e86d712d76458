-- ===== src/Store/Collected.antt =====
-- What has been collected since a group of Agent/src/c/MessageStore.c was started.
use jvmheap_scan.Base.{
  ℕ, suc, ◌≤◌, ◌<◌, ◌≡◌, refl, ◌∙◌, true, false, some, [], ◌∷◌, ◌++◌, arith, update, ◌⊎◌, inl, inr,
  Bool-cases,
}
use jvmheap_scan.Store.Memory.{
  Ptr, null, MsgGroup, HolderId, left_space_left_entry, left_space_right_entry,
  right_space_left_entry, right_space_right_entry, holder_of, Store, ok,
}
use jvmheap_scan.Store.Seg.{Item, node, Cells, Nodes, has, has-append}
use jvmheap_scan.Store.Merge.{IsGroup}
use jvmheap_scan.Store.Space.{blank_item, empty_group, empty_group-IsGroup}
use jvmheap_scan.Store.{initialize_msg_grp, create_msg_node, on_start_msg_grp}
use jvmheap_scan.Store.Untouched.{Untouched}

-- Since `s`, nothing has been done but to collect these messages, in nodes of their own.
pub record Collected (s t : Store) (xs : Cells) : Type 0 where
  pub untouched : Untouched s t
  pub is : IsGroup t.nodes t.cur_msg_grp xs
  pub own :
      (a : Ptr)
      → has a ((t.cur_msg_grp.first_node, is.sentinel) ∷ xs) ≡ true
      → (s.fresh ≤ a) × (a < t.fresh)

pub same_holders :
    (s : Store) (left : Nodes) (n : ℕ) (g : MsgGroup) (i : HolderId)
    → holder_of i (record s { nodes = left; fresh = n; cur_msg_grp = g }) ≡ holder_of i s
same_holders s left n g left_space_left_entry = refl
same_holders s left n g left_space_right_entry = refl
same_holders s left n g right_space_left_entry = refl
same_holders s left n g right_space_right_entry = refl

pub started-Collected :
    (s : Store) → null < s.fresh → (t : Store) × (on_start_msg_grp s ≡ ok tt t) × Collected s t []
unfolding on_start_msg_grp initialize_msg_grp create_msg_node
started-Collected s some_address = (
  _,
  refl,
  record {
    untouched = record {
      nodes = λ a below. ground arith;
      groups = λ a. refl;
      holders =
          same_holders s (update s.nodes s.fresh (some (node blank_item null))) (suc s.fresh)
            (empty_group s.fresh);
      later = omega arith;
      splits = refl;
      at_most = refl;
    };
    is = empty_group-IsGroup _ s.fresh (ground arith) (ground arith);
    own = λ a h. ground arith;
  },
)

-- Steps that leave alone what was there before the group.
pub kept-Untouched :
    (s t : Store) (left : Nodes) (n : ℕ) (g : MsgGroup)
    → Untouched s t
    → t.fresh ≤ n
    → ((a : Ptr) → a < s.fresh → left a ≡ t.nodes a)
    → Untouched s (record t { nodes = left; fresh = n; cur_msg_grp = g })
kept-Untouched s t left n g u later same = record {
  nodes = λ a below. same a below ∙ u.nodes a below;
  groups = u.groups;
  holders = λ i. same_holders t left n g i ∙ u.holders i;
  later = let l = u.later in omega arith;
  splits = u.splits;
  at_most = u.at_most;
}

pub outside_own :
    {s t : Store} {xs : Cells} (c : Collected s t xs) (a : Ptr)
    → ((s.fresh ≤ a) × (a < t.fresh) → ⊥)
    → has a ((t.cur_msg_grp.first_node, c.is.sentinel) ∷ xs) ≡ false
outside_own {t} {xs} c a out =
    elim (Bool-cases (has a ((t.cur_msg_grp.first_node, c.is.sentinel) ∷ xs))) [
      | inl inside ↦ absurd (out (c.own a inside))
      | inr apart ↦ apart
    ]

pub own_more :
    (f g p a : Ptr) (x y m : Item) (xs : Cells)
    → g ≡ f
    → has a ((g, y) ∷ (xs ++ (p, m) ∷ [])) ≡ true
    → (has a ((f, x) ∷ xs) ≡ true) ⊎ (a ≡ p)
own_more f g p a x y m xs e h = let k = has-append a xs ((p, m) ∷ []) in ground arith
