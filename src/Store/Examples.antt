-- ===== src/Store/Examples.antt =====
-- The theorems on Agent/src/c/MessageStore.c at concrete stores.
use jvmheap_scan.Base.{
  ℕ, suc, ◌≡◌, ◌≢◌, refl, true, false, none, some, [], ◌∷◌, arith, ◌==◌, if◌then◌else◌,
}
use jvmheap_scan.Store.Memory.{
  Ptr, Cmd, pure, Store, ok, out_of_fuel, left_space_left_entry, left_space_right_entry,
  right_space_left_entry, right_space_right_entry, HolderId, holder_of,
}
use jvmheap_scan.Store.Seg.{node, nil, cons}
use jvmheap_scan.Store.Merge.{Holds, join}
use jvmheap_scan.Store.Queue.{Current, NewGroup, on_queue_message-NewGroup}
use jvmheap_scan.Store.Split.{Pair}
use jvmheap_scan.Store.Loss.{Misses, TwoBehind, Unlinked, on_retrieve_message-loses}
use jvmheap_scan.Store.Fuel.{on_get_msg_split-total}
use jvmheap_scan.Store.Space.{blank_item, empty_group}
use jvmheap_scan.Store.Tests.{blank, item, group, loaded, cells, loaded-IsGroup}
use jvmheap_scan.Store.{
  on_retrieve_message, on_queue_message, on_get_msg_split, split_loop, get_msg_group_holder,
}

-- A store with one group and no message in it.
abbrev bare : Store
bare = record blank { nodes = λ p. if p == 2 then some (node blank_item 0) else none }

bare-Holds : Holds bare.nodes (empty_group 2) []
bare-Holds = record {
  sentinel = blank_item;
  chain = record { next = 0; here = refl; ne = omega arith; out = refl; rest = nil };
  count = refl;
  size = omega arith;
}

abbrev current : Current loaded (get_msg_group_holder 2) (cells 5 65)
unfolding get_msg_group_holder loaded-IsGroup
current = record { grp = group 2 5 0; at = refl; is = loaded-IsGroup }

-- The same store with a limit of one message.
abbrev full : Store
full = record loaded { split_sz = 1 }

abbrev full_current : Current full (get_msg_group_holder 2) (cells 5 65)
unfolding get_msg_group_holder loaded-IsGroup
full_current = record { grp = group 2 5 0; at = refl; is = loaded-IsGroup }

on_queue_message-NewGroup_example :
    (t : Store) × (on_queue_message 2 7 full ≡ ok tt t)
    × NewGroup full t (get_msg_group_holder 2) (group 2 5 0) 7 (item 67)
unfolding get_msg_group_holder loaded-IsGroup
on_queue_message-NewGroup_example =
    on_queue_message-NewGroup 2 full (cells 5 65) 7 (item 67) full_current refl refl (omega arith)
      (omega arith) (omega arith)

-- The holder after `mergeEntries`, with the limit of one message; `next` is what the left entry's
-- group is linked to.
abbrev entries : ℕ → Store
entries next = record loaded {
  split_sz = 1;
  left_left = record { start_grp = 1; cur_msg_grp = 3; next_grp = 3 };
  groups =
      λ p. if p == 1 then some (group 2 5 next) else if p == 3 then some (group 4 6 0) else none;
}

abbrev pair :
    (next : ℕ) → Pair left_space_left_entry (entries next) 1 3 (group 2 5 next) (group 4 6 0)
pair next = record {
  start = refl;
  next = refl;
  ne_null = omega arith;
  ne = omega arith;
  at1 = refl;
  at2 = refl;
}

-- Both groups of the left entry in memory, the second one at 9 with its one message at 11.
abbrev behind : Store
behind = record loaded {
  nodes = λ p.
      if p == 10
      then some (node blank_item 11)
      else if p == 11
      then some (node (item 68) 0)
      else loaded.nodes p;
  groups = λ p.
      if p == 1
      then some (group 2 5 9)
      else if p == 3
      then some (group 4 6 0)
      else if p == 9
      then some (group 10 11 0)
      else none;
  left_left = record { start_grp = 1; cur_msg_grp = 9; next_grp = 0 };
  split_sz = 1;
  fresh = 12;
}

behind-TwoBehind :
    TwoBehind false behind 1 3 9 (group 2 5 9) (group 4 6 0) (group 10 11 0) (cells 5 65)
behind-TwoBehind = record {
  start = refl;
  right = refl;
  at1 = refl;
  at2 = refl;
  at3 = refl;
  behind = refl;
  alone = refl;
  ne = omega arith;
  nulls = (omega arith, omega arith);
  apart = (omega arith, omega arith);
  old = (omega arith, omega arith, omega arith);
  only = λ p g e h. ground arith;
  others = λ i ne. missed i ne;
  collected = omega arith;
  holds = record {
    sentinel = blank_item;
    chain = record {
      next = 5;
      here = refl;
      ne = omega arith;
      out = refl;
      rest = cons refl (omega arith) refl nil;
    };
    count = refl;
    size = omega arith;
  };
  low = λ p h. ground arith;
}
  where
    missed : (i : HolderId) → i ≢ left_space_left_entry → Misses 9 (holder_of i behind)
    missed left_space_left_entry ne = absurd (ne refl)
    missed left_space_right_entry ne = (omega arith, omega arith, omega arith)
    missed right_space_left_entry ne = (omega arith, omega arith, omega arith)
    missed right_space_right_entry ne = (omega arith, omega arith, omega arith)

on_retrieve_message-loses_example :
    (t : Store) × (on_retrieve_message (10 ∷ []) 0 behind
      ≡ ok (record { pending = true; total_msg = 1; text = some (65 ∷ [], 2) }) t)
    × (t.groups 9 ≡ some (group 10 11 0))
    × Unlinked 9 t
unfolding join
on_retrieve_message-loses_example =
    on_retrieve_message-loses false behind 1 3 9 (group 2 5 9) (group 4 6 0) (group 10 11 0)
      (cells 5 65) behind-TwoBehind (10 ∷ []) 0 refl (λ e. cc) (omega arith, tt) (omega arith)

on_get_msg_split-total_example :
    (on_get_msg_split left_space_left_entry (entries 1) ≢ out_of_fuel)
    × ((cur : Ptr) (k tot : ℕ) (next : Ptr)
        → split_loop left_space_left_entry cur (suc (suc (suc k))) tot next (entries 1)
          ≡ split_loop left_space_left_entry cur 3 tot next (entries 1))
on_get_msg_split-total_example = on_get_msg_split-total left_space_left_entry (entries 1)

abbrev drop : Ptr → Cmd (Unit {0})
drop p = pure tt
