-- ===== src/Store/Replaced.antt =====
-- What the holders of Agent/src/c/MessageStore.c contain after a retrieval for a space.
use mathlib.Core.Path.{subst}
use jvmheap_scan.Base.{
  ◌<◌, ◌≡◌, ◌≢◌, refl, sym, ap, ◌∙◌, inl, inr, Bool-cases, Bool, true, false, arith,
}
use jvmheap_scan.Store.Memory.{Ptr, MsgGroupHolder, HolderId, holder_of, Store}
use jvmheap_scan.Store.Seg.{Cells, Disjoint, has}
use jvmheap_scan.Store.Merge.{Holds-frame}
use jvmheap_scan.Store.Space.{
  left_entry, right_entry, Single, IsSpace, Elsewhere, IsOwnStart, IsOwnNode,
}
use jvmheap_scan.Store.Sides.{
  Where, at_left, at_right, away, seen, seen-left, seen-right, seen-away, seen_once, entries_apart,
  kept_of,
}
use jvmheap_scan.Store.Contents.{same_holder, owned, IsStore, IsFree, Spares}

-- The contents with other messages in the entries of a space.
abbrev pub replaced : Bool → Cells → Cells → (HolderId → Cells) → HolderId → Cells
replaced side ls rs xs i = kept_of (seen side i) ls rs (xs i)

-- The space of a store, as the retrieval wants it.
pub to_space :
    (s : Store) (xs : HolderId → Cells)
    → IsStore s xs
    → (side : Bool) → IsSpace s side (xs (left_entry side)) (xs (right_entry side))
to_space s xs h side = record {
  l = h.single (left_entry side);
  r = h.single (right_entry side);
  apart = h.apart _ _ (entries_apart side);
  disjoint =
      rw (h.is_first (left_entry side), h.is_first (right_entry side))
        (h.disjoint _ _ (entries_apart side));
}

module _ (s t : Store) (xs : HolderId → Cells) (h : IsStore s xs) (side : Bool) (ls rs : Cells)
    (after : IsSpace t side ls rs)
    (e : Elsewhere s t side
      (xs (left_entry side))
      (xs (right_entry side))
      (to_space s xs h side)
      ls
      rs
      after) where
  abbrev first_of : HolderId → Where → Ptr
  first_of i w = kept_of w after.l.grp.first_node after.r.grp.first_node (h.first i)

  below : (j : HolderId) (p : Ptr) → has p (owned (h.first j) (xs j)) ≡ true → p < s.fresh
  below j p o = (h.single j).low p (rw (h.is_first j) o)

  same_nodes :
      (i : HolderId)
      → seen side i ≡ away
      → (a : Ptr) → has a (owned (h.first i) (xs i)) ≡ true
      → t.nodes a ≡ s.nodes a
  unfolding to_space
  same_nodes i w a o =
      let (other, l, r) = seen-away side i w in
      e.nodes a (below i a o)
        (rw (h.is_first (left_entry side)) (h.disjoint i (left_entry side) l a o))
        (rw (h.is_first (right_entry side)) (h.disjoint i (right_entry side) r a o))

  same_group :
      (i : HolderId)
      → seen side i ≡ away
      → t.groups (holder_of i s).start_grp ≡ s.groups (holder_of i s).start_grp
  same_group i w =
      let (other, l, r) = seen-away side i w in
      e.groups (holder_of i s).start_grp (h.single i).old (h.apart i (left_entry side) l)
        (h.apart i (right_entry side) r)

  same_start :
      (i : HolderId) → seen side i ≡ away → (holder_of i t).start_grp ≡ (holder_of i s).start_grp
  same_start i w = ap (λ (k : MsgGroupHolder). k.start_grp) (e.holders i (seen-away side i w).0)

  still : (i : HolderId) → seen side i ≡ away → Single t i (xs i)
  still i w = record {
    grp = (h.single i).grp;
    at = ap t.groups (same_start i w) ∙ same_group i w ∙ (h.single i).at;
    only =
        ap (λ (k : MsgGroupHolder). k.cur_msg_grp) (e.holders i (seen-away side i w).0)
        ∙ (h.single i).only
        ∙ sym (same_start i w);
    alone = (h.single i).alone;
    is = record {
      holds = Holds-frame (h.single i).is.holds (λ a o. same_nodes i w a (rw (← h.is_first i) o));
      last = (h.single i).is.last;
    };
    ne_null = rw (same_start i w) (h.single i).ne_null;
    old = let l = (h.single i).old in let g = e.grows in omega (arith, same_start i w);
    low = λ p o. let l = (h.single i).low p o in let g = e.grows in omega arith;
  }

  single_of :
      (i : HolderId) (w : Where)
      → seen side i ≡ w
      → (g : Single t i (kept_of w ls rs (xs i))) × (g.grp.first_node ≡ first_of i w)
  unfolding still
  single_of i at_left w =
      subst (λ k. (g : Single t k ls) × (g.grp.first_node ≡ after.l.grp.first_node))
        (sym (seen-left side i w)) (after.l, refl)
  single_of i at_right w =
      subst (λ k. (g : Single t k rs) × (g.grp.first_node ≡ after.r.grp.first_node))
        (sym (seen-right side i w)) (after.r, refl)
  single_of i away w = (still i w, h.is_first i)

  abbrev is_away : Where → Bool
  is_away away = true
  is_away _ = false

  not_away : (i : HolderId) (w : Where) → seen side i ≡ w → is_away w ≡ false → seen side i ≢ away
  not_away i w e' f x = let k = ap is_away (sym e' ∙ x) in cc

  twice : (i j : HolderId) → same_holder i j ≡ false → same_holder i j ≢ true
  twice i j ne e' = cc

  -- A node of the space is not one of a holder of the other space.
  inside :
      (i : HolderId)
      → seen side i ≡ away
      → (a : Ptr)
      → IsOwnNode s side (xs (left_entry side)) (xs (right_entry side)) (to_space s xs h side) a
      → has a (owned (h.first i) (xs i)) ≡ false
  unfolding to_space
  inside i w a own =
      let (other, l, r) = seen-away side i w in
      elim (Bool-cases (has a (owned (h.first i) (xs i)))) [
        | inr out ↦ out
        | inl o ↦ absurd (elim own [
          | inl new ↦ (let b = below i a o in omega arith)
          | inr (inl left) ↦
              (let k = h.disjoint i (left_entry side) l a o in
                let f = h.is_first (left_entry side) in cc (k, f, left))
          | inr (inr right) ↦
              (let k = h.disjoint i (right_entry side) r a o in
                let f = h.is_first (right_entry side) in cc (k, f, right))
        ])
      ]

  outside :
      (i : HolderId)
      → seen side i ≡ away
      → (a : Ptr) → has a (owned (h.first i) (xs i)) ≡ true
      → (b : Bool)
      → (b ≡ true
          → IsOwnNode s side
              (xs (left_entry side))
              (xs (right_entry side))
              (to_space s xs h side)
              a)
      → b ≡ false
  outside i w a o true own = let k = inside i w a (own refl) in cc
  outside i w a o false own = refl

  other_way : Disjoint (owned after.r.grp.first_node rs) (owned after.l.grp.first_node ls)
  other_way a o = elim (Bool-cases (has a (owned after.l.grp.first_node ls))) [
    | inl l ↦ (let k = after.disjoint a l in cc)
    | inr l ↦ l
  ]

  no_common_node :
      (i j : HolderId) (w v : Where)
      → seen side i ≡ w
      → seen side j ≡ v
      → same_holder i j ≡ false
      → Disjoint
          (owned (first_of i w) (kept_of w ls rs (xs i)))
          (owned (first_of j v) (kept_of v ls rs (xs j)))
  no_common_node i j away away w v ne a o = h.disjoint i j ne a o
  no_common_node i j away at_left w v ne a o = outside i w a o _ (e.left_nodes a)
  no_common_node i j away at_right w v ne a o = outside i w a o _ (e.right_nodes a)
  no_common_node i j at_left away w v ne a o = inside j v a (e.left_nodes a o)
  no_common_node i j at_right away w v ne a o = inside j v a (e.right_nodes a o)
  no_common_node i j at_left at_right w v ne a o = after.disjoint a o
  no_common_node i j at_right at_left w v ne a o = other_way a o
  no_common_node i j at_left at_left w v ne a o =
      absurd (twice i j ne (seen_once side i j (w ∙ sym v) (not_away i at_left w refl)))
  no_common_node i j at_right at_right w v ne a o =
      absurd (twice i j ne (seen_once side i j (w ∙ sym v) (not_away i at_right w refl)))

  new_start :
      (i : HolderId)
      → seen side i ≡ away
      → (p : Ptr) → IsOwnStart s side p
      → (holder_of i t).start_grp ≢ p
  new_start i w p own q =
      let (other, l, r) = seen-away side i w in
      elim own [
        | inl new ↦ (let o = (h.single i).old in omega (arith, same_start i w))
        | inr (inl left) ↦ h.apart i (left_entry side) l (sym (same_start i w) ∙ q ∙ left)
        | inr (inr right) ↦ h.apart i (right_entry side) r (sym (same_start i w) ∙ q ∙ right)
      ]

  start_apart :
      (i j : HolderId) (w v : Where)
      → seen side i ≡ w
      → seen side j ≡ v
      → same_holder i j ≡ false
      → (holder_of i t).start_grp ≢ (holder_of j t).start_grp
  unfolding to_space
  start_apart i j away away w v ne = ground (arith, same_start i w, same_start j v, h.apart i j ne)
  start_apart i j away at_left w v ne = rw (seen-left side j v) (new_start i w _ e.starts.0)
  start_apart i j away at_right w v ne = rw (seen-right side j v) (new_start i w _ e.starts.1)
  start_apart i j at_left away w v ne =
      λ q. new_start j v _ e.starts.0 (sym (rw (seen-left side i w) at q))
  start_apart i j at_right away w v ne =
      λ q. new_start j v _ e.starts.1 (sym (rw (seen-right side i w) at q))
  start_apart i j at_left at_right w v ne = rw (seen-left side i w, seen-right side j v) after.apart
  start_apart i j at_right at_left w v ne =
      rw (seen-right side i w, seen-left side j v) (λ q. after.apart (sym q))
  start_apart i j at_left at_left w v ne =
      absurd (twice i j ne (seen_once side i j (w ∙ sym v) (not_away i at_left w refl)))
  start_apart i j at_right at_right w v ne =
      absurd (twice i j ne (seen_once side i j (w ∙ sym v) (not_away i at_right w refl)))

  pub replaced-IsStore : IsStore t (replaced side ls rs xs)
  replaced-IsStore = record {
    first = λ i. first_of i (seen side i);
    single = λ i. (single_of i (seen side i) refl).0;
    is_first = λ i. (single_of i (seen side i) refl).1;
    apart = λ i j ne. start_apart i j (seen side i) (seen side j) refl refl ne;
    disjoint = λ i j ne. no_common_node i j (seen side i) (seen side j) refl refl ne;
  }

  -- An old node that no holder has is not one of the space, and no holder gets it.
  not_own :
      (a : Ptr)
      → a < s.fresh
      → IsFree h a
      → ¬ IsOwnNode s side (xs (left_entry side)) (xs (right_entry side)) (to_space s xs h side) a
  unfolding to_space
  not_own a below f own = elim own [
    | inl new ↦ omega arith
    | inr (inl l) ↦
        (let k = f (left_entry side) in let o = h.is_first (left_entry side) in cc (k, o, l))
    | inr (inr r) ↦
        (let k = f (right_entry side) in let o = h.is_first (right_entry side) in cc (k, o, r))
  ]

  still_free :
      (a : Ptr)
      → a < s.fresh
      → IsFree h a
      → (i : HolderId) (w : Where) → has a (owned (first_of i w) (kept_of w ls rs (xs i))) ≡ false
  still_free a below f i away = f i
  still_free a below f i at_left = elim (Bool-cases (has a (owned after.l.grp.first_node ls))) [
    | inl o ↦ absurd (not_own a below f (e.left_nodes a o))
    | inr o ↦ o
  ]
  still_free a below f i at_right = elim (Bool-cases (has a (owned after.r.grp.first_node rs))) [
    | inl o ↦ absurd (not_own a below f (e.right_nodes a o))
    | inr o ↦ o
  ]

  pub replaced-Spares : (p : Ptr) → Spares p h replaced-IsStore
  unfolding replaced-IsStore to_space
  replaced-Spares p = record {
    node = λ a below ne f.
        e.nodes a below (rw (h.is_first (left_entry side)) (f (left_entry side)))
          (rw (h.is_first (right_entry side)) (f (right_entry side)));
    free = λ a below ne f i. still_free a below f i (seen side i);
    later = e.grows;
  }
