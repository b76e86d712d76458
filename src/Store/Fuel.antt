-- ===== src/Store/Fuel.antt =====
-- The rounds of the loop in `onGetMsgSplit` of Agent/src/c/MessageStore.c.
use jvmheap_scan.Base.{ℕ, zero, suc, ◌+◌, ◌≡◌, ◌≢◌, ◌∙◌, refl, Option, none, some, arith}
use jvmheap_scan.Store.Memory.{
  Ptr, MsgGroup, HolderId, holder_of, Store, Run, ok, fault, out_of_fuel, load_group,
}
use jvmheap_scan.Store.{on_get_msg_split, split_loop, merge_grp}

-- A merge frees the second group and leaves the first one's successor.
merge_grp-frees : (a b : Ptr) (s t : Store) → merge_grp a b s ≡ ok tt t → t.groups b ≡ none
unfolding merge_grp
merge_grp-frees a b s t run = ground arith

merge_grp-next :
    (a b : Ptr) (s t : Store) (g0 g : MsgGroup)
    → merge_grp a b s ≡ ok tt t
    → s.groups a ≡ some g0
    → t.groups a ≡ some g
    → g.next_grp ≡ g0.next_grp
unfolding merge_grp
merge_grp-next a b s t g0 g run e e' = ground arith

-- The loop at a group that is not there stops in its first round.
split_loop-none :
    (i : HolderId) (cur : Ptr) (k tot : ℕ) (next : Ptr) (s : Store)
    → s.groups next ≡ none
    → split_loop i cur (suc k) tot next s ≢ out_of_fuel
unfolding split_loop load_group
split_loop-none i cur k tot next s e h = ground arith

merge_grp-total : (a b : Ptr) (s : Store) → merge_grp a b s ≢ out_of_fuel
unfolding merge_grp
merge_grp-total a b s h = ground arith

abbrev counted : Option MsgGroup → ℕ
counted none = 0
counted (some g) = g.total_msgs

-- If the loop runs out of fuel, its first round has merged, and the next one is at the successor
-- of the merged group.
record Merged (i : HolderId) (cur : Ptr) (k tot : ℕ) (next : Ptr) (s : Store) : Type 0 where
  to : Store
  grp : MsgGroup
  run : merge_grp cur next s ≡ ok tt to
  at : to.groups cur ≡ some grp
  more : split_loop i cur k (tot + counted (s.groups next)) grp.next_grp to ≡ out_of_fuel

module _ (i : HolderId) (cur : Ptr) (k tot : ℕ) (next : Ptr) (s : Store) where
  round-Merged : split_loop i cur (suc k) tot next s ≡ out_of_fuel → Merged i cur k tot next s
  unfolding split_loop load_group
  round-Merged h = by_merge (merge_grp cur next s) refl
    where
      by_group :
          (t : Store) (o : Option MsgGroup)
          → merge_grp cur next s ≡ ok tt t
          → t.groups cur ≡ o
          → Merged i cur k tot next s
      by_group t none e at = absurd (ground arith)
      by_group t (some g) e at = record { to = t; grp = g; run = e; at = at; more = ground arith }

      by_merge : (r : Run (Unit {0})) → merge_grp cur next s ≡ r → Merged i cur k tot next s
      by_merge fault e = absurd (ground arith)
      by_merge out_of_fuel e = absurd (merge_grp-total cur next s e)
      by_merge (ok u t) e = by_group t (t.groups cur) e refl

split_loop-total :
    (i : HolderId) (cur : Ptr) (k tot : ℕ) (next : Ptr) (s : Store)
    → split_loop i cur (suc (suc (suc k))) tot next s ≢ out_of_fuel
split_loop-total i cur k tot next s h =
    let m1 = round-Merged i cur (suc (suc k)) tot next s h in
    let m2 = round-Merged i cur (suc k) _ m1.grp.next_grp m1.to m1.more in
    let again = merge_grp-next cur m1.grp.next_grp m1.to m2.to m1.grp m2.grp m2.run m1.at m2.at in
    split_loop-none i cur k _ m2.grp.next_grp m2.to
      (rw again (merge_grp-frees cur m1.grp.next_grp m1.to m2.to m2.run)) m2.more

-- A loop that ends gives the same with one more round allowed.
split_loop-more :
    (i : HolderId) (cur : Ptr) (k tot : ℕ) (next : Ptr) (s : Store)
    → split_loop i cur k tot next s ≢ out_of_fuel
    → split_loop i cur (suc k) tot next s ≡ split_loop i cur k tot next s
unfolding split_loop load_group
split_loop-more i cur zero tot next s ends = absurd (ends refl)
split_loop-more i cur (suc k) tot next s ends =
    by_merge (split_loop-more i cur k) (merge_grp cur next s) refl
  where
    Again : Type 0
    Again =
        (tot : ℕ) (next : Ptr) (s : Store)
        → split_loop i cur k tot next s ≢ out_of_fuel
        → split_loop i cur (suc k) tot next s ≡ split_loop i cur k tot next s

    by_group :
        Again
        → (t : Store) (o : Option MsgGroup) → merge_grp cur next s ≡ ok tt t
        → t.groups cur ≡ o
        → split_loop i cur (suc (suc k)) tot next s ≡ split_loop i cur (suc k) tot next s
    by_group again t none e at = ground arith
    by_group again t (some g) e at =
        ground (arith, again (tot + counted (s.groups next)) g.next_grp t)

    by_merge :
        Again
        → (r : Run (Unit {0})) → merge_grp cur next s ≡ r
        → split_loop i cur (suc (suc k)) tot next s ≡ split_loop i cur (suc k) tot next s
    by_merge again fault e = ground arith
    by_merge again out_of_fuel e = absurd (merge_grp-total cur next s e)
    by_merge again (ok u t) e = by_group again t (t.groups cur) e refl

split_loop-three :
    (i : HolderId) (cur : Ptr) (k tot : ℕ) (next : Ptr) (s : Store)
    → split_loop i cur (suc (suc (suc k))) tot next s ≡ split_loop i cur 3 tot next s
split_loop-three i cur zero tot next s = refl
split_loop-three i cur (suc k) tot next s =
    split_loop-more i cur (suc (suc (suc k))) tot next s (split_loop-total i cur k tot next s)
    ∙ split_loop-three i cur k tot next s

-- Whatever the groups in memory are, the three rounds that the loop of `onGetMsgSplit` is given are
-- enough: it does not run out of them, and with any greater number, from any group and total, the
-- loop gives the same. It may still end at a pointer that leads to nothing in memory.
pub on_get_msg_split-total :
    (i : HolderId) (s : Store)
    → (on_get_msg_split i s ≢ out_of_fuel)
      × ((cur : Ptr) (k tot : ℕ) (next : Ptr)
          → split_loop i cur (suc (suc (suc k))) tot next s ≡ split_loop i cur 3 tot next s)
unfolding on_get_msg_split load_group
on_get_msg_split-total i s = (
  λ h. go h (s.groups (holder_of i s).start_grp) refl,
  λ cur k tot next. split_loop-three i cur k tot next s,
)
  where
    go :
        on_get_msg_split i s ≡ out_of_fuel
        → (o : Option MsgGroup) → s.groups (holder_of i s).start_grp ≡ o
        → ⊥
    go h none e = ground arith
    go h (some c) e = ground (
      arith,
      split_loop-total i (holder_of i s).start_grp 0 c.total_msgs (holder_of i s).next_grp s,
    )
