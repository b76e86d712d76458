-- ===== src/Store/Contents.antt =====
-- What the four holders of Agent/src/c/MessageStore.c contain.
use jvmheap_scan.Base.{
  ◌≤◌, ◌<◌, ◌≡◌, ◌≢◌, refl, sym, ap, ◌∙◌, Bool, true, false, ◌&&◌, ◌||◌, [], ◌∷◌, ◌++◌, arith, inl,
  inr, Bool-cases, ◌==◌, if◌then◌else◌,
}
use jvmheap_scan.Store.Memory.{
  Ptr, HolderId, left_space_left_entry, left_space_right_entry, right_space_left_entry,
  right_space_right_entry, holder_of, Store,
}
use jvmheap_scan.Store.Seg.{Item, Cells, Disjoint, has, has-append}
use jvmheap_scan.Store.Space.{Single, blank_item}

abbrev pub same_holder : HolderId → HolderId → Bool
same_holder left_space_left_entry left_space_left_entry = true
same_holder left_space_right_entry left_space_right_entry = true
same_holder right_space_left_entry right_space_left_entry = true
same_holder right_space_right_entry right_space_right_entry = true
same_holder _ _ = false

pub same_holder-eq : (i j : HolderId) → same_holder i j ≡ true → i ≡ j
same_holder-eq i j h = ground arith

pub same_holder_sym : (i j : HolderId) → same_holder i j ≡ false → same_holder j i ≡ false
same_holder_sym i j h = ground arith

pub same_holder_both :
    (i j k : HolderId) → same_holder i j ≡ true → same_holder i k ≡ true → same_holder j k ≡ true
same_holder_both i j k h h' = ground arith

-- The addresses of a group: its first node, which holds no message, and its messages.
abbrev pub owned : Ptr → Cells → Cells
owned first xs = (first, blank_item) ∷ xs

-- Each holder has one group, with these messages, and no two groups have a node in common.
pub record IsStore (s : Store) (xs : HolderId → Cells) : Type 0 where
  pub first : HolderId → Ptr
  pub single : (i : HolderId) → Single s i (xs i)
  pub is_first : (i : HolderId) → (single i).grp.first_node ≡ first i
  pub apart :
      (i j : HolderId)
      → same_holder i j ≡ false
      → (holder_of i s).start_grp ≢ (holder_of j s).start_grp
  pub disjoint :
      (i j : HolderId)
      → same_holder i j ≡ false
      → Disjoint (owned (first i) (xs i)) (owned (first j) (xs j))

-- The contents with one more message in a holder.
abbrev pub added : (HolderId → Cells) → HolderId → Ptr → Item → HolderId → Cells
added xs i p m j = if same_holder i j then xs j ++ ((p, m) ∷ []) else xs j

or_assoc : (x y z : Bool) → (x || (y || z)) ≡ ((x || y) || z)
or_assoc true y z = refl
or_assoc false y z = refl

or_false : (x : Bool) → x ≡ (x || false)
or_false true = refl
or_false false = refl

has_one_more :
    (b : Bool) (l : Cells) (p : Ptr) (m : Item) (a : Ptr)
    → has a (if b then l ++ ((p, m) ∷ []) else l) ≡ (has a l || (b && (a == p)))
has_one_more true l p m a =
    has-append a l ((p, m) ∷ []) ∙ ap (λ b. has a l || b) (sym (or_false (a == p)))
has_one_more false l p m a = or_false (has a l)

pub has-added :
    (xs : HolderId → Cells) (i j : HolderId) (p : Ptr) (m : Item) (first a : Ptr)
    → has a (owned first (added xs i p m j))
      ≡ (has a (owned first (xs j)) || (same_holder i j && (a == p)))
has-added xs i j p m first a =
    ap (λ b. (a == first) || b) (has_one_more (same_holder i j) (xs j) p m a)
    ∙ or_assoc (a == first) (has a (xs j)) (same_holder i j && (a == p))

-- An address is not that of a node of a holder.
abbrev pub IsFree : {s : Store} {xs : HolderId → Cells} → IsStore s xs → Ptr → Type 0
IsFree {xs = xs} h a = (j : HolderId) → has a (owned (h.first j) (xs j)) ≡ false

-- What a step does to the nodes that no holder has, but for the one at `p`: it leaves them alone, and
-- no holder gets them.
pub record Spares {s t : Store} {xs ys : HolderId → Cells} (p : Ptr) (h : IsStore s xs)
    (k : IsStore t ys) : Type 0 where
  pub node : (a : Ptr) → a < s.fresh → a ≢ p → IsFree h a → t.nodes a ≡ s.nodes a
  pub free : (a : Ptr) → a < s.fresh → a ≢ p → IsFree h a → IsFree k a
  pub later : s.fresh ≤ t.fresh

-- The nodes of a holder are old.
pub fresh-IsFree :
    {s : Store} {xs : HolderId → Cells} (h : IsStore s xs) (a : Ptr) → s.fresh ≤ a → IsFree h a
fresh-IsFree {xs} h a new j = elim (Bool-cases (has a (owned (h.first j) (xs j)))) [
  | inl o ↦ (let l = (h.single j).low a (rw (h.is_first j) o) in absurd (omega arith))
  | inr o ↦ o
]
