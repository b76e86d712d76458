-- ===== src/Store/Space.antt =====
-- The two entries of a space of Agent/src/c/MessageStore.c, where each has one group.
use jvmheap_scan.Base.{
  ℕ, suc, ◌+◌, ◌≤◌, ◌<◌, ◌%◌, ◌≡◌, ◌≢◌, ◌⊎◌, refl, Bool, true, false, some, List, [], ◌∷◌, ◌++◌,
  arith, ◌==◌, length, update,
}
use jvmheap_scan.Store.Memory.{
  Ptr, null, MsgGroup, HolderId, left_space_left_entry, left_space_right_entry,
  right_space_left_entry, right_space_right_entry, holder_of, with_holder, Store, ok,
}
use jvmheap_scan.Store.Seg.{Item, node, Cells, Disjoint, has, Nodes, nil}
use jvmheap_scan.Store.Merge.{IsGroup}
use jvmheap_scan.Store.Hand.{handed}
use jvmheap_scan.Store.{
  on_initialize_msg_group_holder, initialize_msg_grp, create_msg_node, merge_entries,
  get_msg_group_holder_in_space, on_retrieve_message, empty_size,
}

-- The two holders of a space: `true` is the right space.
abbrev pub left_entry : Bool → HolderId
left_entry side = elim side [ true ↦ right_space_left_entry | false ↦ left_space_left_entry ]

abbrev pub right_entry : Bool → HolderId
right_entry side = elim side [ true ↦ right_space_right_entry | false ↦ left_space_right_entry ]

abbrev pub blank_item : Item
blank_item = record { size = empty_size; text = [] }

abbrev pub empty_group : Ptr → MsgGroup
empty_group p = record {
  total_msg_size = empty_size;
  total_msgs = 0;
  first_node = p;
  last_node = p;
  next_grp = null;
}

pub empty_group-IsGroup :
    (nodes : Nodes) (p : Ptr)
    → nodes p ≡ some (node blank_item null)
    → p ≢ null
    → IsGroup nodes (empty_group p) []
empty_group-IsGroup nodes p e ne = record {
  holds = record {
    sentinel = blank_item;
    chain = record { next = null; here = e; ne = ne; out = refl; rest = nil };
    count = refl;
    size = omega arith;
  };
  last = refl;
}

-- What `onInitializeMsgGroupHolder` leaves.
abbrev pub initialized : HolderId → Store → Store
initialized i s =
    with_holder i (record { start_grp = s.fresh; cur_msg_grp = s.fresh; next_grp = null })
      (record s {
        nodes = update s.nodes (suc s.fresh) (some (node blank_item null));
        groups = update s.groups s.fresh (some (empty_group (suc s.fresh)));
        fresh = suc (suc s.fresh);
      })

pub initialize_holder-ok :
    (i : HolderId) (s : Store) → on_initialize_msg_group_holder i s ≡ ok tt (initialized i s)
unfolding on_initialize_msg_group_holder initialize_msg_grp create_msg_node
initialize_holder-ok i s = refl

-- What `mergeEntries` leaves in a space.
abbrev pub entries_merged : Bool → Store → Store
entries_merged side s =
    let l = holder_of (left_entry side) s in
    let r = holder_of (right_entry side) s in
    initialized (right_entry side) (
      with_holder (left_entry side)
        (record l { next_grp = r.start_grp; cur_msg_grp = r.cur_msg_grp }) s)

pub space-ok :
    (side : Bool) (id : ℕ) (s : Store)
    → (id % 2 == 1) ≡ side
    → get_msg_group_holder_in_space id s ≡ ok (left_entry side) (entries_merged side s)
unfolding get_msg_group_holder_in_space merge_entries
space-ok true id s e = rw e
space-ok false id s e = rw e

pub length-pos : (xs ys : Cells) → xs ++ ys ≢ [] → 1 ≤ length xs + length ys
length-pos [] [] h = absurd (h refl)
length-pos [] (y ∷ ys) h = omega arith
length-pos (x ∷ xs) ys h = omega arith

-- A holder whose one group holds `xs`, all below `fresh`.
pub record Single (s : Store) (i : HolderId) (xs : Cells) : Type 0 where
  pub grp : MsgGroup
  pub at : s.groups (holder_of i s).start_grp ≡ some grp
  pub only : (holder_of i s).cur_msg_grp ≡ (holder_of i s).start_grp
  pub alone : grp.next_grp ≡ null
  pub is : IsGroup s.nodes grp xs
  pub ne_null : (holder_of i s).start_grp ≢ null
  pub old : (holder_of i s).start_grp < s.fresh
  pub low : (p : Ptr) → has p ((grp.first_node, is.sentinel) ∷ xs) ≡ true → p < s.fresh

-- A space whose left entry holds `xs` and whose right entry holds `ys`, with nothing in common.
pub record IsSpace (s : Store) (side : Bool) (xs ys : Cells) : Type 0 where
  pub l : Single s (left_entry side) xs
  pub r : Single s (right_entry side) ys
  pub apart : (holder_of (left_entry side) s).start_grp ≢ (holder_of (right_entry side) s).start_grp
  pub disjoint :
      Disjoint ((l.grp.first_node, l.is.sentinel) ∷ xs) ((r.grp.first_node, r.is.sentinel) ∷ ys)

module _ (side : Bool) (s : Store) where
  abbrev pub first : Ptr
  first = (holder_of (left_entry side) s).start_grp

  abbrev pub second : Ptr
  second = (holder_of (right_entry side) s).start_grp

  pub entries_merged-start : (holder_of (left_entry side) (entries_merged side s)).start_grp ≡ first
  entries_merged-start = side_cases side
    where
      side_cases :
          (b : Bool)
          → (holder_of (left_entry b) (entries_merged b s)).start_grp
            ≡ (holder_of (left_entry b) s).start_grp
      side_cases true = refl
      side_cases false = refl

  pub entries_merged-next : (holder_of (left_entry side) (entries_merged side s)).next_grp ≡ second
  entries_merged-next = side_cases side
    where
      side_cases :
          (b : Bool)
          → (holder_of (left_entry b) (entries_merged b s)).next_grp
            ≡ (holder_of (right_entry b) s).start_grp
      side_cases true = refl
      side_cases false = refl

abbrev pub side_of : HolderId → Bool
side_of right_space_left_entry = true
side_of right_space_right_entry = true
side_of _ = false

-- An address that is new, or that of a group of the space.
abbrev pub IsOwnStart : Store → Bool → Ptr → Type 0
IsOwnStart s side p = (s.fresh ≤ p) ⊎ ((p ≡ first side s) ⊎ (p ≡ second side s))

-- An address that is new, or that of a node of the space.
abbrev pub IsOwnNode :
    (s : Store) (side : Bool) (xs ys : Cells) → IsSpace s side xs ys → Ptr → Type 0
IsOwnNode s side xs ys space p =
    (s.fresh ≤ p)
    ⊎ ((has p ((space.l.grp.first_node, blank_item) ∷ xs) ≡ true)
        ⊎ (has p ((space.r.grp.first_node, blank_item) ∷ ys) ≡ true))

-- What a call for one space leaves alone: the other space, and the memory that is not of this one.
-- The groups and nodes that the space has afterwards are new, or it had them before.
pub record Elsewhere (s t : Store) (side : Bool) (xs ys : Cells) (space : IsSpace s side xs ys)
    (xs' ys' : Cells) (after : IsSpace t side xs' ys') : Type 0 where
  pub holders : (i : HolderId) → side_of i ≢ side → holder_of i t ≡ holder_of i s
  pub groups :
      (p : Ptr) → p < s.fresh → p ≢ first side s → p ≢ second side s → t.groups p ≡ s.groups p
  pub nodes :
      (p : Ptr)
      → p < s.fresh
      → has p ((space.l.grp.first_node, blank_item) ∷ xs) ≡ false
      → has p ((space.r.grp.first_node, blank_item) ∷ ys) ≡ false
      → t.nodes p ≡ s.nodes p
  pub grows : s.fresh ≤ t.fresh
  pub starts : IsOwnStart s side (first side t) × IsOwnStart s side (second side t)
  pub left_nodes :
      (p : Ptr)
      → has p ((after.l.grp.first_node, blank_item) ∷ xs') ≡ true
      → IsOwnNode s side xs ys space p
  pub right_nodes :
      (p : Ptr)
      → has p ((after.r.grp.first_node, blank_item) ∷ ys') ≡ true
      → IsOwnNode s side xs ys space p
  pub splits : t.is_to_be_split ≡ s.is_to_be_split
  pub limit : t.split_sz ≡ s.split_sz

-- One retrieval for a space: the messages that are handed out, whether more is pending, and what
-- the space holds afterwards. All else is left alone.
abbrev pub Retrieves :
    List ℕ
    → ℕ
    → (s : Store) (side : Bool) (xs ys : Cells) → IsSpace s side xs ys
    → Bool
    → Cells
    → Cells
    → Cells
    → Type 0
Retrieves sep id s side xs ys space pending out xs' ys' =
    (t : Store) × (on_retrieve_message sep id s ≡ ok (handed sep pending out) t)
    × (after : IsSpace t side xs' ys') × Elsewhere s t side xs ys space xs' ys' after
