-- ===== src/Interfaces/Carried.antt =====
-- The messages of Interfaces/World that producers have in hand, and those of the group that is collected,
-- while the store serves others.
use mathlib.Core.Option.{some-injective}
use jvmheap_scan.Base.{
  ap, ℕ, ◌≤◌, ◌<◌, ◌≡◌, ◌⊎◌, ◌≢◌, inl, inr, Bool-cases, ◌==◌, some, none, arith, update, List, ◌∷◌,
  true, ◌∙◌,
}
use jvmheap_scan.Store.Memory.{Ptr, null, HolderId, Store}
use jvmheap_scan.Store.Seg.{Item, node, Cells, has}
use jvmheap_scan.Store.Merge.{IsGroup, IsSized, Holds-frame}
use jvmheap_scan.Store.Items.{items}
use jvmheap_scan.Store.Contents.{IsStore, IsFree}
use jvmheap_scan.Store.Requests.{Queues}
use jvmheap_scan.Store.Represents.{Represents}
use jvmheap_scan.Interfaces.World.{Hand, Group}

-- The node is there with its message, and in no holder.
pub record Waits {s : Store} {xs : HolderId → Cells} (h : IsStore s xs) (p : Ptr) (m : Item)
    : Type 0 where
  pub placed : s.nodes p ≡ some (node m null)
  pub ne_null : p ≢ null
  pub old : p < s.fresh
  pub free : IsFree h p

-- The address is that of a node that is in no holder and in no hand.
pub record Apart {s : Store} {xs : HolderId → Cells} (h : IsStore s xs) (hand : ℕ → Hand) (a : Ptr)
    : Type 0 where
  pub ne_null : a ≢ null
  pub old : a < s.fresh
  pub free : IsFree h a
  pub unheld : (i : ℕ) (m : Item) → hand i ≢ some (a, m)

-- The group that is collected has these messages, in nodes of its own.
pub record Collects {s : Store} {xs : HolderId → Cells} (h : IsStore s xs) (hand : ℕ → Hand)
    (ms : List Item) : Type 0 where
  pub cells : Cells
  pub is : IsGroup s.nodes s.cur_msg_grp cells
  pub same : items cells ≡ ms
  pub sized : IsSized cells
  pub apart :
      (a : Ptr) → has a ((s.cur_msg_grp.first_node, is.sentinel) ∷ cells) ≡ true → Apart h hand a

-- The store holds these queues, each producer has a node of its own in hand, or none, and who collects
-- a group has its messages in it.
pub record Carries (limit : ℕ) (s : Store) (hand : ℕ → Hand) (group : Group) (q : Queues)
    : Type 0 where
  pub rep : Represents limit s q
  pub waits : (i : ℕ) (p : Ptr) (m : Item) → hand i ≡ some (p, m) → Waits rep.is p m
  pub own : (i j : ℕ) (p : Ptr) (m n : Item) → hand i ≡ some (p, m) → hand j ≡ some (p, n) → i ≡ j
  pub collects : (i : ℕ) (ms : List Item) → group ≡ some (i, ms) → Collects rep.is hand ms

module _ {s t : Store} {xs ys : HolderId → Cells} {h : IsStore s xs} {k : IsStore t ys} where
  pub Waits-stays :
      {a : Ptr} {m : Item} (w : Waits h a m)
      → t.nodes a ≡ s.nodes a
      → s.fresh ≤ t.fresh
      → IsFree k a
      → Waits k a m
  Waits-stays w still later free = record {
    placed = still ∙ w.placed;
    ne_null = w.ne_null;
    old = let o = w.old in omega arith;
    free = free;
  }

  pub Collects-stays :
      {hand hand' : ℕ → Hand} {ms : List Item}
      → Collects h hand ms
      → t.cur_msg_grp ≡ s.cur_msg_grp
      → ((a : Ptr) → Apart h hand a → (t.nodes a ≡ s.nodes a) × Apart k hand' a)
      → Collects k hand' ms
  Collects-stays c cur still = record {
    cells = c.cells;
    is = rw cur (record {
      holds = Holds-frame c.is.holds (λ a o. (still a (c.apart a o)).0);
      last = c.is.last;
    });
    same = c.same;
    sized = c.sized;
    apart = λ a o. (still a (c.apart a (rw cur at o))).1;
  }

-- What another producer has in hand when one has got or given something.
pub others :
    (hand : ℕ → Hand) (i j : ℕ) (v : Hand) (p : Ptr) (m : Item)
    → update hand i v j ≡ some (p, m)
    → ((j ≡ i) × (v ≡ some (p, m))) ⊎ ((j ≢ i) × (hand j ≡ some (p, m)))
others hand i j v p m h = elim (Bool-cases (j == i)) [
  | inl e ↦ inl (ground arith, (rw e at h))
  | inr e ↦ inr ((λ k. ground arith), (rw e at h))
]

abbrev pub in_hand : Ptr → Item → Hand
in_hand p m = some (p, m)

pub same_hand : {p a : Ptr} {m n : Item} → in_hand p m ≡ in_hand a n → (p ≡ a) × (m ≡ n)
same_hand {p} {a} {m} {n} e =
    let x = some-injective {A = Ptr × Item} (p, m) (a, n) e in
    (ap (λ (y : Ptr × Item). y.0) x, ap (λ (y : Ptr × Item). y.1) x)

pub given_away :
    (hand : ℕ → Hand) (i j : ℕ) (p : Ptr) (m : Item)
    → update hand i none j ≡ some (p, m)
    → (j ≢ i) × (hand j ≡ some (p, m))
given_away hand i j p m h = elim (others hand i j none p m h) [
  | inl e ↦ absurd (let n = e.1 in cc)
  | inr e ↦ e
]
