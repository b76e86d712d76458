-- ===== src/Store/Loss.antt =====
-- What `onRetrieveMessage` of Agent/src/c/MessageStore.c leaves behind: a group of the left entry that
-- is linked to the entry's first group only.
use jvmheap_scan.Base.{
  ℕ, ◌+◌, ◌%◌, ◌<◌, ◌≡◌, ◌≢◌, ap, ◌∙◌, Bool, true, false, none, some, List, [], ◌∷◌, arith, ◌==◌,
  update,
}
use jvmheap_scan.Store.Memory.{
  Ptr, null, MsgGroup, MsgGroupHolder, HolderId, left_space_left_entry, left_space_right_entry,
  right_space_left_entry, right_space_right_entry, holder_of, with_holder, Store, ok,
}
use jvmheap_scan.Store.Seg.{Cells, Nodes, has}
use jvmheap_scan.Store.Merge.{Holds, Holds-frame, IsSized}
use jvmheap_scan.Store.Split.{Pair, on_get_msg_split-pending}
use jvmheap_scan.Store.Hand.{handed, hand_out-frees}
use jvmheap_scan.Store.Space.{left_entry, right_entry, blank_item, entries_merged, space-ok}
use jvmheap_scan.Store.{on_get_msg_split, on_retrieve_message}

-- A holder that does not point to `c`.
abbrev pub Misses : Ptr → MsgGroupHolder → Type 0
Misses c h = (h.start_grp ≢ c) × (h.cur_msg_grp ≢ c) × (h.next_grp ≢ c)

-- Nothing in the store points to the group at `c`.
pub record Unlinked (c : Ptr) (s : Store) : Type 0 where
  pub groups : (p : Ptr) (g : MsgGroup) → s.groups p ≡ some g → g.next_grp ≢ c
  pub holders : (i : HolderId) → Misses c (holder_of i s)
  pub collected : s.cur_msg_grp.next_grp ≢ c

-- The left entry of a space has a first group at `a`, with the messages `xs`, and behind it one at
-- `c`, to which only `a` and the entry's own holder point; the right entry has one group, at `b`.
pub record TwoBehind (side : Bool) (s : Store) (a b c : Ptr) (g1 g2 g3 : MsgGroup) (xs : Cells)
    : Type 0 where
  pub start : (holder_of (left_entry side) s).start_grp ≡ a
  pub right :
      holder_of (right_entry side) s ≡ record { start_grp = b; cur_msg_grp = b; next_grp = null }
  pub at1 : s.groups a ≡ some g1
  pub at2 : s.groups b ≡ some g2
  pub at3 : s.groups c ≡ some g3
  pub behind : g1.next_grp ≡ c
  pub alone : g2.next_grp ≡ null
  pub ne : a ≢ b
  pub nulls : (b ≢ null) × (c ≢ null)
  pub apart : (c ≢ a) × (c ≢ b)
  pub old : (a < s.fresh) × (b < s.fresh) × (c < s.fresh)
  pub only : (p : Ptr) (g : MsgGroup) → s.groups p ≡ some g → g.next_grp ≡ c → p ≡ a
  pub others : (i : HolderId) → i ≢ left_entry side → Misses c (holder_of i s)
  pub collected : s.cur_msg_grp.next_grp ≢ c
  pub holds : Holds s.nodes g1 xs
  pub low : (p : Ptr) → has p ((g1.first_node, blank_item) ∷ xs) ≡ true → p < s.fresh

-- The space's left holder goes on with the group at `b`.
abbrev gone_on : Bool → Store → Ptr → Ptr → Store
gone_on side s b n =
    let m = entries_merged side s in
    with_holder (left_entry side)
      (record (holder_of (left_entry side) m) { start_grp = b; next_grp = n }) m

gone_on-Misses :
    (side : Bool) (s : Store) (b c : Ptr) (i : HolderId)
    → holder_of (right_entry side) s ≡ record { start_grp = b; cur_msg_grp = b; next_grp = null }
    → c ≢ b
    → c ≢ null
    → c < s.fresh
    → ((i : HolderId) → i ≢ left_entry side → Misses c (holder_of i s))
    → Misses c (holder_of i (gone_on side s b null))
gone_on-Misses true s b c left_space_left_entry e nb nn lt o = o left_space_left_entry (λ h. cc)
gone_on-Misses true s b c left_space_right_entry e nb nn lt o = o left_space_right_entry (λ h. cc)
gone_on-Misses true s b c right_space_left_entry e nb nn lt o = ground arith
gone_on-Misses true s b c right_space_right_entry e nb nn lt o = ground arith
gone_on-Misses false s b c left_space_left_entry e nb nn lt o = ground arith
gone_on-Misses false s b c left_space_right_entry e nb nn lt o = ground arith
gone_on-Misses false s b c right_space_left_entry e nb nn lt o = o right_space_left_entry (λ h. cc)
gone_on-Misses false s b c right_space_right_entry e nb nn lt o =
    o right_space_right_entry (λ h. cc)

module _ (side : Bool) (s : Store) (a b c : Ptr) (g1 g2 g3 : MsgGroup) (xs : Cells)
    (two : TwoBehind side s a b c g1 g2 g3 xs) where
  abbrev handed_out : Nodes → Store
  handed_out rest = record (gone_on side s b null) {
    nodes = rest;
    groups = update (gone_on side s b null).groups a none;
  }

  merged_pair : Pair (left_entry side) (entries_merged side s) a b g1 g2
  merged_pair =
      let o = two.old in
      record {
        start = by_side side two.start;
        next = by_next side two.right;
        ne_null = two.nulls.0;
        ne = two.ne;
        at1 = let e = two.at1 in ground arith;
        at2 = let e = two.at2 in ground arith;
      }
    where
      by_side :
          (side : Bool)
          → (holder_of (left_entry side) s).start_grp ≡ a
          → (holder_of (left_entry side) (entries_merged side s)).start_grp ≡ a
      by_side true e = e
      by_side false e = e

      by_next :
          (side : Bool)
          → holder_of (right_entry side) s
            ≡ record { start_grp = b; cur_msg_grp = b; next_grp = null }
          → (holder_of (left_entry side) (entries_merged side s)).next_grp ≡ b
      by_next true e = ground arith
      by_next false e = ground arith

  first-Holds : Holds (gone_on side s b null).nodes g1 xs
  first-Holds = Holds-frame two.holds (λ p i. let l = two.low p i in ground arith)

  still : (rest : Nodes) → (handed_out rest).groups c ≡ some g3
  still rest = let e = two.at3 in let o = two.old in let n = two.apart in ground arith

  handed_out-Unlinked : (rest : Nodes) → Unlinked c (handed_out rest)
  handed_out-Unlinked rest = record {
    groups = λ p g e h. let n = two.nulls in ground (arith, two.only p g);
    holders =
        λ i. gone_on-Misses side s b c i two.right two.apart.1 two.nulls.1 two.old.2 two.others;
    collected = two.collected;
  }

  went_on :
      s.split_sz < g1.total_msgs + g2.total_msgs
      → on_get_msg_split (left_entry side) (entries_merged side s)
        ≡ ok (true, a) (gone_on side s b null)
  went_on large =
      on_get_msg_split-pending (left_entry side) (entries_merged side s) a b g1 g2 merged_pair large
      ∙ ap (λ n. ok (true, a) (gone_on side s b n)) two.alone

  -- The left entry of a space has a second group behind its first one, which has a message and whose
  -- messages each fit their size, and only the first group and the entry's holder point to the second;
  -- the right entry has one group, every address is below the next one of malloc, and the two first
  -- groups do not fit the limit. Then `onRetrieveMessage` hands the first group's messages out with
  -- more pending, and leaves the second group in memory with nothing in the store pointing to it.
  pub on_retrieve_message-loses :
      (sep : List ℕ) (id : ℕ)
      → (id % 2 == 1) ≡ side
      → xs ≢ []
      → IsSized xs
      → s.split_sz < g1.total_msgs + g2.total_msgs
      → (t : Store) × (on_retrieve_message sep id s ≡ ok (handed sep true xs) t)
        × (t.groups c ≡ some g3)
        × Unlinked c t
  unfolding on_retrieve_message
  on_retrieve_message-loses sep id here full sized large =
      let (rest, text, gone) =
        hand_out-frees sep true (gone_on side s b null) a g1 xs merged_pair.at1 full first-Holds
          sized in
      (
        handed_out rest,
        rw (space-ok side id s here, went_on large, text),
        still rest,
        handed_out-Unlinked rest,
      )
