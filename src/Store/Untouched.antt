-- ===== src/Store/Untouched.antt =====
-- Steps of Agent/src/c/MessageStore.c that leave the holders and their messages alone.
use jvmheap_scan.Base.{◌≤◌, ◌<◌, ◌≡◌, true, refl, ap, ◌∙◌, arith}
use jvmheap_scan.Store.Memory.{Ptr, HolderId, holder_of, Store}
use jvmheap_scan.Store.Seg.{Cells, has}
use jvmheap_scan.Store.Merge.{Holds-frame}
use jvmheap_scan.Store.Space.{Single}
use jvmheap_scan.Store.Contents.{owned, IsStore, IsFree}

-- What was there before is as it was.
pub record Untouched (s t : Store) : Type 0 where
  pub nodes : (a : Ptr) → a < s.fresh → t.nodes a ≡ s.nodes a
  pub groups : (a : Ptr) → t.groups a ≡ s.groups a
  pub holders : (i : HolderId) → holder_of i t ≡ holder_of i s
  pub later : s.fresh ≤ t.fresh
  pub splits : t.is_to_be_split ≡ s.is_to_be_split
  pub at_most : t.split_sz ≡ s.split_sz

-- The holders and their messages are as they were.
pub record Leaves {s : Store} {xs : HolderId → Cells} (h : IsStore s xs) (t : Store) : Type 0 where
  pub nodes :
      (i : HolderId) (a : Ptr) → has a (owned (h.first i) (xs i)) ≡ true → t.nodes a ≡ s.nodes a
  pub groups : (a : Ptr) → t.groups a ≡ s.groups a
  pub holders : (i : HolderId) → holder_of i t ≡ holder_of i s
  pub later : s.fresh ≤ t.fresh
  pub splits : t.is_to_be_split ≡ s.is_to_be_split
  pub at_most : t.split_sz ≡ s.split_sz

pub Untouched-Leaves :
    {s t : Store} {xs : HolderId → Cells} → Untouched s t → (h : IsStore s xs) → Leaves h t
Untouched-Leaves u h = record {
  nodes = λ i a o. u.nodes a ((h.single i).low a (rw (h.is_first i) o));
  groups = u.groups;
  holders = u.holders;
  later = u.later;
  splits = u.splits;
  at_most = u.at_most;
}

module _ {s t : Store} {xs : HolderId → Cells} (h : IsStore s xs) (u : Leaves h t) where
  Single-Leaves :
      (i : HolderId) → (k : Single t i (xs i)) × (k.grp.first_node ≡ (h.single i).grp.first_node)
  Single-Leaves i =
      let g = h.single i in
      (
        record {
          grp = g.grp;
          at = ap (λ r. t.groups r.start_grp) (u.holders i) ∙ (u.groups _ ∙ g.at);
          only = rw (u.holders i) g.only;
          alone = g.alone;
          is = record {
            holds = Holds-frame g.is.holds (λ a o. u.nodes i a (rw (← h.is_first i) o));
            last = g.is.last;
          };
          ne_null = rw (u.holders i) g.ne_null;
          old = rw (u.holders i) (let o = g.old in let l = u.later in omega arith);
          low = λ a o. let b = g.low a o in let l = u.later in omega arith;
        },
        refl,
      )

  pub IsStore-Leaves : IsStore t xs
  IsStore-Leaves = record {
    first = h.first;
    single = λ i. (Single-Leaves i).0;
    is_first = λ i. (Single-Leaves i).1 ∙ h.is_first i;
    apart = λ i j e. rw (u.holders i, u.holders j) (h.apart i j e);
    disjoint = h.disjoint;
  }

  pub IsFree-Leaves : (a : Ptr) → IsFree h a → IsFree IsStore-Leaves a
  unfolding IsStore-Leaves
  IsFree-Leaves a f = f
