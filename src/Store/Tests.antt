-- ===== src/Store/Tests.antt =====
-- Runs of Agent/src/c/MessageStore.c at small inputs, and the theorems at concrete stores.
use jvmheap_scan.Base.{
  ℕ, ◌≡◌, refl, true, false, none, some, List, [], ◌∷◌, arith, ◌==◌, if◌then◌else◌,
}
use jvmheap_scan.Store.Memory.{
  MsgGroup, MsgGroupHolder, Store, Run, load_group, free_group, Cmd, ok, ◌>>◌,
}
use jvmheap_scan.Store.Seg.{Item, node, Cells, nil, cons}
use jvmheap_scan.Store.Merge.{IsGroup}
use jvmheap_scan.Store.Space.{IsSpace, blank_item}
use jvmheap_scan.Store.{
  get_msg_group_holder_in_space, on_get_msg_split, split_loop, merge_grp,
  on_initialize_msg_group_holder, on_initialize, on_flush_msg, on_queue_message, hand_out,
  on_retrieve_message, merge_msg_as_string,
}

abbrev pub no_holder : MsgGroupHolder
no_holder = record { start_grp = 0; cur_msg_grp = 0; next_grp = 0 }

-- The static variables before `onInitialize`.
abbrev pub blank : Store
blank = record {
  nodes = λ _. none;
  groups = λ _. none;
  fresh = 1;
  cur_msg_grp = record {
    total_msg_size = 0;
    total_msgs = 0;
    first_node = 0;
    last_node = 0;
    next_grp = 0;
  };
  left_left = no_holder;
  left_right = no_holder;
  right_left = no_holder;
  right_right = no_holder;
  is_to_be_split = false;
  split_sz = 0;
}

-- A message of one character, flushed through a synchronizer that chooses the location `id`.
abbrev send : ℕ → ℕ → Cmd (Unit {0})
send id c = on_flush_msg (on_queue_message id) (c ∷ []) 2

abbrev result : {A : Type 0} → Run A → List A
result (ok a s) = a ∷ []
result _ = []

-- Both entries fit the limit: one text, the left entry's messages first.
fits :
    result
      ((do on_initialize 5; send 2 65; send 4 66; send 2 67; on_retrieve_message (10 ∷ []) 0) blank)
    ≡ record { pending = false; total_msg = 3; text = some (65 ∷ 10 ∷ 67 ∷ 10 ∷ 66 ∷ [], 6) } ∷ []
unfolding on_initialize on_flush_msg on_queue_message on_retrieve_message
    get_msg_group_holder_in_space on_get_msg_split split_loop merge_grp
    on_initialize_msg_group_holder merge_msg_as_string load_group free_group hand_out
fits = refl

-- The left entry has two groups and the right entry one: the message 68 of the second group is in
-- neither of the two texts, and nothing is pending after them.
loses :
    result (
      (do
        on_initialize 2
        send 2 65
        send 2 66
        send 4 67
        send 2 68
        on_retrieve_message (10 ∷ []) 0
        on_retrieve_message (10 ∷ []) 0)
        blank)
    ≡ record { pending = false; total_msg = 1; text = some (67 ∷ [], 2) } ∷ []
unfolding on_initialize on_flush_msg on_queue_message on_retrieve_message
    get_msg_group_holder_in_space on_get_msg_split split_loop merge_grp
    on_initialize_msg_group_holder merge_msg_as_string load_group free_group hand_out
loses = refl

abbrev pub item : ℕ → Item
item c = record { size = 2; text = c ∷ [] }

abbrev pub group : ℕ → ℕ → ℕ → MsgGroup
group first last next = record {
  total_msg_size = 4;
  total_msgs = 1;
  first_node = first;
  last_node = last;
  next_grp = next;
}

abbrev pub holder : ℕ → MsgGroupHolder
holder p = record { start_grp = p; cur_msg_grp = p; next_grp = 0 }

-- The left space with one message in each entry: the groups at 1 and 3 with the sentinels 2 and 4,
-- the messages at 5 and 6.
abbrev pub loaded : Store
loaded = record blank {
  nodes = λ p.
      if p == 2
      then some (node blank_item 5)
      else if p == 4
      then some (node blank_item 6)
      else if p == 5
      then some (node (item 65) 0)
      else if p == 6
      then some (node (item 66) 0)
      else if p == 7
      then some (node (item 67) 0)
      else none;
  groups = λ p. if p == 1 then some (group 2 5 0) else if p == 3 then some (group 4 6 0) else none;
  fresh = 8;
  left_left = holder 1;
  left_right = holder 3;
  cur_msg_grp = group 2 5 0;
  is_to_be_split = true;
  split_sz = 2;
}

abbrev pub cells : ℕ → ℕ → Cells
cells p c = (p, item c) ∷ []

unfoldable pub loaded-IsGroup : IsGroup loaded.nodes (group 2 5 0) (cells 5 65)
loaded-IsGroup = record {
  holds = record {
    sentinel = blank_item;
    chain = record {
      next = 5;
      here = refl;
      ne = omega arith;
      out = refl;
      rest = cons refl (omega arith) refl nil;
    };
    count = refl;
    size = omega arith;
  };
  last = refl;
}

unfoldable pub right-IsGroup : IsGroup loaded.nodes (group 4 6 0) (cells 6 66)
right-IsGroup = record {
  holds = record {
    sentinel = blank_item;
    chain = record {
      next = 6;
      here = refl;
      ne = omega arith;
      out = refl;
      rest = cons refl (omega arith) refl nil;
    };
    count = refl;
    size = omega arith;
  };
  last = refl;
}

pub loaded-IsSpace : IsSpace loaded false (cells 5 65) (cells 6 66)
unfolding loaded-IsGroup right-IsGroup
loaded-IsSpace = record {
  l = record {
    grp = group 2 5 0;
    at = refl;
    only = refl;
    alone = refl;
    is = loaded-IsGroup;
    ne_null = omega arith;
    old = omega arith;
    low = λ p h. ground arith;
  };
  r = record {
    grp = group 4 6 0;
    at = refl;
    only = refl;
    alone = refl;
    is = right-IsGroup;
    ne_null = omega arith;
    old = omega arith;
    low = λ p h. ground arith;
  };
  apart = omega arith;
  disjoint = λ p h. ground arith;
}
