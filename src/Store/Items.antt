-- ===== src/Store/Items.antt =====
-- The messages of nodes of Agent/src/c/MessageStore.c without their addresses.
use jvmheap_scan.Base.{ℕ, ◌≡◌, refl, ap, Bool, List, [], ◌∷◌, ◌++◌, arith, length}
use jvmheap_scan.Store.Seg.{Item, Cells}
use jvmheap_scan.Store.Merge.{IsSized, join}
use jvmheap_scan.Store.Hand.{handed}
use jvmheap_scan.Store.Requests.{join_texts, text_of_items, batch}

unfoldable pub items : Cells → List Item
items [] = []
items ((p, m) ∷ xs) = m ∷ items xs

pub items-append : (xs ys : Cells) → items (xs ++ ys) ≡ items xs ++ items ys
unfolding items
items-append [] ys = refl
items-append ((p, m) ∷ xs) ys = ap (λ l. m ∷ l) (items-append xs ys)

pub length-items : (xs : Cells) → length (items xs) ≡ length xs
unfolding items
length-items [] = refl
length-items ((p, m) ∷ xs) = let e = length-items xs in omega arith

pub join-items : (sep : List ℕ) (xs : Cells) → join_texts sep (items xs) ≡ join sep xs
unfolding items join join_texts
join-items sep [] = refl
join-items sep ((p, m) ∷ []) = refl
join-items sep ((p, m) ∷ (q, n) ∷ xs) =
    ap (λ l. m.text ++ (sep ++ l)) (join-items sep ((q, n) ∷ xs))

pub handed-items :
    (sep : List ℕ) (pending : Bool) (xs : Cells)
    → handed sep pending xs ≡ batch sep pending (items xs)
unfolding batch text_of_items items
handed-items sep pending [] = refl
handed-items sep pending ((p, m) ∷ xs) = rw (join-items sep ((p, m) ∷ xs), length-items xs)

pub IsSized-append : (xs ys : Cells) → IsSized xs → IsSized ys → IsSized (xs ++ ys)
IsSized-append [] ys a b = b
IsSized-append ((p, m) ∷ xs) ys a b = (a.0, IsSized-append xs ys a.1 b)
