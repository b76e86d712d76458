-- ===== src/Store/Initial.antt =====
-- The store of Agent/src/c/MessageStore.c after `onInitialize`: four empty queues.
use jvmheap_scan.Base.{
  ℕ, suc, ◌+◌, ◌≤◌, ◌<◌, ◌≡◌, ◌⊎◌, inl, inr, refl, ap, ◌∙◌, true, false, some, List, [],
  if◌then◌else◌, arith, ltb,
}
use jvmheap_scan.Store.Memory.{
  Ptr, null, HolderId, left_space_left_entry, left_space_right_entry, right_space_left_entry,
  right_space_right_entry, holder_of, Store, ok, ◌>>◌,
}
use jvmheap_scan.Store.Seg.{Cells, nil}
use jvmheap_scan.Store.Space.{blank_item, empty_group, initialized, Single}
use jvmheap_scan.Store.Contents.{same_holder, IsStore}
use jvmheap_scan.Store.Requests.{Request, no_messages, AreAllowed, answer_all, serve_all}
use jvmheap_scan.Store.Answers.{serve_all-Represents}
use jvmheap_scan.Store.Represents.{Represents}
use jvmheap_scan.Store.Items.{items}
use jvmheap_scan.Store.{
  on_initialize, on_initialize_msg_group_holder, initialize_msg_grp, create_msg_node,
}

-- The order in which `onInitialize` prepares the holders.
abbrev place : HolderId → ℕ
place left_space_left_entry = 0
place left_space_right_entry = 1
place right_space_left_entry = 2
place right_space_right_entry = 3

-- No holder contains a message.
abbrev pub no_cells : HolderId → Cells
no_cells _ = []

limit_set :
    (limit : ℕ) (t : Store)
    → t.is_to_be_split ≡ false
    → t.split_sz ≡ 0
    → (if ltb 0 limit then record t { is_to_be_split = true; split_sz = limit } else t)
      ≡ record t { is_to_be_split = ltb 0 limit; split_sz = limit }
limit_set limit t unset zero = ground arith

module _ (limit : ℕ) (s : Store) (some_address : null < s.fresh) where
  -- Each holder takes two addresses: its group and the group's first node.
  abbrev pub address : HolderId → Ptr
  address i = s.fresh + (place i + place i)

  abbrev pub started : Store
  started =
      let t = initialized right_space_right_entry (
        initialized right_space_left_entry
          (initialized left_space_right_entry (initialized left_space_left_entry s))) in
      record t { is_to_be_split = ltb 0 limit; split_sz = limit }

  start_at : (i : HolderId) → (holder_of i started).start_grp ≡ address i
  start_at left_space_left_entry = omega arith
  start_at left_space_right_entry = omega arith
  start_at right_space_left_entry = omega arith
  start_at right_space_right_entry = omega arith

  group_at : (i : HolderId) → started.groups (address i) ≡ some (empty_group (suc (address i)))
  group_at left_space_left_entry = ground arith
  group_at left_space_right_entry = ground arith
  group_at right_space_left_entry = ground arith
  group_at right_space_right_entry = ground arith

  node_at :
      (i : HolderId)
      → started.nodes (suc (address i)) ≡ some (record { msg_size = 2; msg = []; next_node = null })
  node_at left_space_left_entry = ground arith
  node_at left_space_right_entry = ground arith
  node_at right_space_left_entry = ground arith
  node_at right_space_right_entry = ground arith

  cur_at : (i : HolderId) → (holder_of i started).cur_msg_grp ≡ (holder_of i started).start_grp
  cur_at left_space_left_entry = refl
  cur_at left_space_right_entry = refl
  cur_at right_space_left_entry = refl
  cur_at right_space_right_entry = refl

  fresh_at : started.fresh ≡ s.fresh + 8
  fresh_at = omega arith

  empty : (i : HolderId) → Single started i []
  empty i = record {
    grp = empty_group (suc (address i));
    at = ap started.groups (start_at i) ∙ group_at i;
    only = cur_at i;
    alone = refl;
    is = record {
      holds = record {
        sentinel = blank_item;
        chain = record { next = null; here = node_at i; ne = omega arith; out = refl; rest = nil };
        count = refl;
        size = omega arith;
      };
      last = refl;
    };
    ne_null = let e = start_at i in omega arith;
    old = ground (arith, start_at i);
    low = λ p o. ground arith;
  }

  apart_at :
      (i j : HolderId) → same_holder i j ≡ false → (place i + 1 ≤ place j) ⊎ (place j + 1 ≤ place i)
  apart_at i j ne = ground arith

  started-IsStore : IsStore started no_cells
  unfolding empty
  started-IsStore = record {
    first = λ i. suc (address i);
    single = empty;
    is_first = λ i. refl;
    apart = λ i j ne e. elim (apart_at i j ne) [
      | inl l ↦ omega (arith, start_at i, start_at j)
      | inr l ↦ omega (arith, start_at i, start_at j)
    ];
    disjoint = λ i j ne a o. elim (apart_at i j ne) [ inl l ↦ ground arith | inr l ↦ ground arith ];
  }

  -- The static variables start as zeros.
  pub on_initialize-Represents :
      s.is_to_be_split ≡ false
      → s.split_sz ≡ 0
      → (on_initialize limit s ≡ ok tt started) × Represents limit started no_messages
  unfolding on_initialize on_initialize_msg_group_holder initialize_msg_grp create_msg_node items
  on_initialize-Represents unset zero = (
    limited,
    record {
      contents = no_cells;
      is = started-IsStore;
      same = λ i. refl;
      sized = λ i. tt;
      splits = refl;
      at_most = refl;
    },
  )
    where
      limited : on_initialize limit s ≡ ok tt started
      limited = ap (ok tt) (limit_set limit _ unset zero)

-- In a memory whose next address is not null, and with the static variables zero, the store that is
-- initialized with any limit, or with none, answers any sequence of requests as four queues do that
-- start empty, provided that a message is sent with a size that covers its text and to a queue with
-- room. A read delivers the messages of the space's left queue and then of its right one as one
-- text, in the order in which they were sent; if they do not fit the limit together, it delivers the
-- left queue alone, says that more is pending, and keeps the right queue for the next read. No limit
-- counts as 0 there: unless the space is empty, a read delivers its left queue alone with more pending.
pub serve_all-answer_all :
    (limit : ℕ) (s : Store) (rs : List Request)
    → null < s.fresh
    → s.is_to_be_split ≡ false
    → s.split_sz ≡ 0
    → AreAllowed limit rs no_messages
    → (t : Store) × ((on_initialize limit >> serve_all rs) s
        ≡ ok (answer_all limit rs no_messages).0 t)
      × Represents limit t (answer_all limit rs no_messages).1
serve_all-answer_all limit s rs some_address unset zero allowed =
    let (first, start) = on_initialize-Represents limit s some_address unset zero in
    let (t, run, r) =
      serve_all-Represents limit rs (started limit s some_address) no_messages allowed start in
    (t, rw (first, run) refl, r)
