-- ===== src/Store/Sides.antt =====
-- The four holders of Agent/src/c/MessageStore.c, seen from a space.
use jvmheap_scan.Base.{◌≡◌, ◌≢◌, Bool, true, false, arith}
use jvmheap_scan.Store.Memory.{
  HolderId, left_space_left_entry, left_space_right_entry, right_space_left_entry,
  right_space_right_entry,
}
use jvmheap_scan.Store.Space.{left_entry, right_entry, side_of}
use jvmheap_scan.Store.Contents.{same_holder}

-- Where a holder stands, seen from a space.
pub data Where : Type 0 where
  at_left at_right away : Where

abbrev pub seen : Bool → HolderId → Where
seen true right_space_left_entry = at_left
seen true right_space_right_entry = at_right
seen false left_space_left_entry = at_left
seen false left_space_right_entry = at_right
seen _ _ = away

pub seen-left : (side : Bool) (i : HolderId) → seen side i ≡ at_left → i ≡ left_entry side
seen-left side i h = ground arith

pub seen-right : (side : Bool) (i : HolderId) → seen side i ≡ at_right → i ≡ right_entry side
seen-right side i h = ground arith

pub seen-away :
    (side : Bool) (i : HolderId)
    → seen side i ≡ away
    → (side_of i ≢ side)
      × (same_holder i (left_entry side) ≡ false)
      × (same_holder i (right_entry side) ≡ false)
seen-away side i h = ground arith

pub seen_once :
    (side : Bool) (i j : HolderId)
    → seen side i ≡ seen side j
    → seen side i ≢ away
    → same_holder i j ≡ true
seen_once side i j e ne = ground arith

pub entries_apart : (side : Bool) → same_holder (left_entry side) (right_entry side) ≡ false
entries_apart side = ground arith

abbrev pub kept_of {ℓ} : {A : Type ℓ} → Where → A → A → A → A
kept_of at_left l r x = l
kept_of at_right l r x = r
kept_of away l r x = x
