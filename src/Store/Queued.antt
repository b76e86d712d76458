-- ===== src/Store/Queued.antt =====
-- What `onQueueMessage` of Agent/src/c/MessageStore.c does to a store whose holders have one group each.
use mathlib.Core.Path.{subst}
use jvmheap_scan.Base.{
  ℕ, suc, ◌<◌, ◌≡◌, ◌≢◌, refl, ◌∙◌, true, false, ◌&&◌, some, [], ◌∷◌, ◌++◌, arith, inl, inr,
  Bool-cases, leb, length, update,
}
use jvmheap_scan.Store.Memory.{
  Ptr, null, MsgGroup, HolderId, left_space_left_entry, holder_of, Store, ok,
}
use jvmheap_scan.Store.Seg.{Item, node, Cells, Nodes, has, has-append}
use jvmheap_scan.Store.Merge.{IsGroup, Holds-frame}
use jvmheap_scan.Store.Queue.{Current, on_queue_message-append}
use jvmheap_scan.Store.Space.{Single}
use jvmheap_scan.Store.{get_msg_group_holder, create_msg_node, on_flush_msg, on_queue_message}
use jvmheap_scan.Store.Contents.{
  same_holder, same_holder-eq, same_holder_sym, same_holder_both, owned, IsStore, added, has-added,
  IsFree, Spares, fresh-IsFree,
}
use jvmheap_scan.Store.Untouched.{Untouched, Untouched-Leaves, IsStore-Leaves, IsFree-Leaves}

module _ (s : Store) (xs : HolderId → Cells) (h : IsStore s xs) (i : HolderId) (m : Item) (p : Ptr)
    (old : p < s.fresh) (free : IsFree h p) where
  abbrev target : Single s i (xs i)
  target = h.single i

  below : (j : HolderId) (p : Ptr) → has p (owned (h.first j) (xs j)) ≡ true → p < s.fresh
  below j p o = (h.single j).low p (rw (h.is_first j) o)

  full_group : Current s i (xs i)
  full_group = record { grp = target.grp; at = rw target.only target.at; is = target.is }

  module _ (left : Nodes) (grp : MsgGroup) (is : IsGroup left grp (xs i ++ ((p, m) ∷ [])))
      (first : grp.first_node ≡ target.grp.first_node) (next : grp.next_grp ≡ target.grp.next_grp)
      (same : (a : Ptr) → has a (owned (h.first i) (xs i)) ≡ false → left a ≡ s.nodes a) where
    abbrev after : Store
    after = record s { nodes = left; groups = update s.groups (holder_of i s).start_grp (some grp) }

    grown : Single after i (xs i ++ ((p, m) ∷ []))
    grown = record {
      grp = grp;
      at = ground arith;
      only = target.only;
      alone = next ∙ target.alone;
      is = is;
      ne_null = target.ne_null;
      old = target.old;
      low = λ a o. ground (arith, first, has-append a (xs i) ((p, m) ∷ []), target.low a);
    }

    untouched :
        (j : HolderId)
        → same_holder i j ≡ false
        → (a : Ptr) → has a (owned (h.first j) (xs j)) ≡ true
        → left a ≡ s.nodes a
    untouched j ne a o = same a (h.disjoint j i (same_holder_sym i j ne) a o)

    other : (j : HolderId) → same_holder i j ≡ false → Single after j (xs j)
    other j ne = record {
      grp = (h.single j).grp;
      at = let a = h.apart i j ne in let b = (h.single j).at in ground arith;
      only = (h.single j).only;
      alone = (h.single j).alone;
      is = record {
        holds = Holds-frame (h.single j).is.holds (λ a o. untouched j ne a (rw (← h.is_first j) o));
        last = (h.single j).is.last;
      };
      ne_null = (h.single j).ne_null;
      old = (h.single j).old;
      low = (h.single j).low;
    }

    at_once :
        (j : HolderId) → (g : Single after j (added xs i p m j)) × (g.grp.first_node ≡ h.first j)
    unfolding grown other
    at_once j = elim (Bool-cases (same_holder i j)) [
      | inl e ↦ rw e (
          subst (λ k. (g : Single after k (xs k ++ ((p, m) ∷ []))) × (g.grp.first_node ≡ h.first k))
            (same_holder-eq i j e) (grown, first ∙ h.is_first i))
      | inr e ↦ rw e (other j e, h.is_first j)
    ]

    after-IsStore : IsStore after (added xs i p m)
    after-IsStore = record {
      first = h.first;
      single = λ j. (at_once j).0;
      is_first = λ j. (at_once j).1;
      apart = h.apart;
      disjoint = λ j k ne a o. ground (
        arith,
        has-added xs i j p m (h.first j) a,
        has-added xs i k p m (h.first k) a,
        h.disjoint j k ne a,
        free j,
        free k,
        same_holder_both i j k,
      );
    }

    after-Spares : Spares p h after-IsStore
    unfolding after-IsStore
    after-Spares = record {
      node = λ a below ne f. same a (f i);
      free = λ a below ne f j. ground (arith, has-added xs i j p m (h.first j) a, f j);
      later = omega arith;
    }

-- A message of which the node is there already, and in no holder, goes behind those of the holder that
-- its location names, if that has room, and all else stays as it is.
pub queue-IsStore :
    (s : Store) (xs : HolderId → Cells) (h : IsStore s xs) (id : ℕ) (m : Item) (p : Ptr)
    → (s.is_to_be_split && leb s.split_sz (length (xs (get_msg_group_holder id)))) ≡ false
    → s.nodes p ≡ some (node m null)
    → p ≢ null
    → p < s.fresh
    → IsFree h p
    → (t : Store) × (on_queue_message id p s ≡ ok tt t)
      × ((k : IsStore t (added xs (get_msg_group_holder id) p m)) × Spares p h k)
      × (t.is_to_be_split ≡ s.is_to_be_split)
      × (t.split_sz ≡ s.split_sz)
unfolding full_group after-Spares
queue-IsStore s xs h id m p room placed ne old free =
    let i = get_msg_group_holder id in
    let c : Current s i (xs i) = full_group s xs h i m p old free in
    let unused : has p (owned c.grp.first_node (xs i)) ≡ false = rw (h.is_first i) (free i) in
    let (t, run, a) = on_queue_message-append id s (xs i) p m c room placed ne unused in
    (
      t,
      run,
      rw (a.result, (h.single i).only)
          (
            after-IsStore s xs h i m p old free a.left a.grp a.is a.first a.next
                (λ b o. a.same b (rw (h.is_first i) o)),
            after-Spares s xs h i m p old free a.left a.grp a.is a.first a.next
                (λ b o. a.same b (rw (h.is_first i) o)),
          ),
      rw a.result,
      rw a.result,
    )

-- The store after `createMsgNode`.
abbrev pub with_node : Store → Item → Store
with_node s m = record s {
  nodes = update s.nodes s.fresh (some (node m null));
  fresh = suc s.fresh;
}

pub with_node-Untouched : (s : Store) (m : Item) → Untouched s (with_node s m)
with_node-Untouched s m = record {
  nodes = λ a below. ground arith;
  groups = λ a. refl;
  holders = λ i. ground arith;
  later = omega arith;
  splits = refl;
  at_most = refl;
}

-- A message that is sent at once goes behind those of the holder that its location names, if that has
-- room, and all else stays as it is.
pub flush-IsStore :
    (s : Store) (xs : HolderId → Cells) (h : IsStore s xs) (id : ℕ) (m : Item)
    → (s.is_to_be_split && leb s.split_sz (length (xs (get_msg_group_holder id)))) ≡ false
    → (t : Store) × (on_flush_msg (on_queue_message id) m.text m.size s ≡ ok tt t)
      × IsStore t (added xs (get_msg_group_holder id) s.fresh m)
      × (t.is_to_be_split ≡ s.is_to_be_split)
      × (t.split_sz ≡ s.split_sz)
unfolding on_flush_msg create_msg_node
flush-IsStore s xs h id m room =
    let u = Untouched-Leaves (with_node-Untouched s m) h in
    let k = IsStore-Leaves h u in
    let (t, run, is, splits, at_most) =
      queue-IsStore (with_node s m) xs k id m s.fresh room (ground arith) fresh_pos (omega arith)
        (IsFree-Leaves h u s.fresh (fresh-IsFree h s.fresh (omega arith))) in
    (t, run, is.0, splits, at_most)
  where
    fresh_pos : s.fresh ≢ null
    fresh_pos = let o = (h.single left_space_left_entry).old in ground arith
