-- ===== src/Store/Seg.antt =====
-- Chains of message nodes in the memory of the store, and what a list of messages is.
use jvmheap_scan.Base.{
  ℕ, ◌≡◌, ◌≢◌, refl, Bool, true, false, ◌||◌, Option, some, List, [], ◌∷◌, ◌++◌, arith, ◌==◌,
  update,
}
use jvmheap_scan.Store.Memory.{Ptr, null, MsgNode, MsgGroup}

-- A message with the size that its sender gave.
pub record Item : Type 0 where
  pub size : ℕ
  pub text : List ℕ

abbrev pub node : Item → Ptr → MsgNode
node m q = record { msg_size = m.size; msg = m.text; next_node = q }

-- The addresses of nodes, each with its message.
abbrev pub Cells : Type 0
Cells = List (Ptr × Item)

abbrev pub has : Ptr → Cells → Bool
has a [] = false
has a ((p, _) ∷ xs) = (a == p) || has a xs

abbrev pub Disjoint : Cells → Cells → Type 0
Disjoint xs ys = (a : Ptr) → has a xs ≡ true → has a ys ≡ false

abbrev pub Nodes : Type 0
Nodes = Ptr → Option MsgNode

abbrev pub Groups : Type 0
Groups = Ptr → Option MsgGroup

-- `other` differs from `nodes` at most at the addresses of `xs`.
abbrev pub SameOutside : Cells → Nodes → Nodes → Type 0
SameOutside xs nodes other = (a : Ptr) → has a xs ≡ false → other a ≡ nodes a

-- From `p` the `nextNode` pointers lead through the distinct nodes `xs` to `stop`.
pub data Seg (nodes : Nodes) (stop : Ptr) : Ptr → Cells → Type 0 where
  nil : Seg nodes stop stop []
  cons :
      {p q : Ptr} {m : Item} {xs : Cells}
      → nodes p ≡ some (node m q)
      → p ≢ null
      → has p xs ≡ false
      → Seg nodes stop q xs
      → Seg nodes stop p ((p, m) ∷ xs)

-- A chain taken apart behind its first node.
pub record Head (nodes : Nodes) (stop p : Ptr) (m : Item) (xs : Cells) : Type 0 where
  pub next : Ptr
  pub here : nodes p ≡ some (node m next)
  pub ne : p ≢ null
  pub out : has p xs ≡ false
  pub rest : Seg nodes stop next xs

pub Seg-Head :
    {nodes : Nodes} {stop f p : Ptr} {m : Item} {xs : Cells}
    → Seg nodes stop f ((p, m) ∷ xs)
    → (f ≡ p) × Head nodes stop p m xs
Seg-Head (cons {q = q} e ne o c) = (refl, record { next = q; here = e; ne = ne; out = o; rest = c })

pub end_of : {nodes : Nodes} {stop f : Ptr} → Seg nodes stop f [] → f ≡ stop
end_of nil = refl

-- The last address of a chain that begins at `p`.
abbrev pub last_addr : Ptr → Cells → Ptr
last_addr p [] = p
last_addr p ((q, _) ∷ xs) = last_addr q xs

pub has-append : (a : Ptr) (xs ys : Cells) → has a (xs ++ ys) ≡ (has a xs || has a ys)
has-append a [] ys = refl
has-append a ((p, m) ∷ xs) ys = ground (arith, has-append a xs ys)

module _ {nodes : Nodes} {stop : Ptr} where
  -- A chain survives what spares its own addresses.
  pub frame :
      {other : Nodes} {p : Ptr} {xs : Cells}
      → Seg nodes stop p xs
      → ((a : Ptr) → has a xs ≡ true → other a ≡ nodes a)
      → Seg other stop p xs
  frame nil same = nil
  frame (cons {p} e ne out s) same =
      cons (ground (arith, same p)) ne out (frame s λ a i. same a (ground arith))

  pub frame-update :
      {p : Ptr} {xs : Cells} (a : Ptr) (n : Option MsgNode)
      → Seg nodes stop p xs
      → has a xs ≡ false
      → Seg (update nodes a n) stop p xs
  frame-update a n s out = frame s λ b i. ground arith

-- The last address is one of the chain's.
pub has-last_addr : (p : Ptr) (m : Item) (xs : Cells) → has (last_addr p xs) ((p, m) ∷ xs) ≡ true
has-last_addr p m [] = ground arith
has-last_addr p m ((q, n) ∷ xs) = ground (arith, has-last_addr q n xs)

module _ {nodes : Nodes} {stop end : Ptr} where
  -- The node at the end of a chain that begins with the node of `m` at `p`, relinked to a chain of
  -- nodes that it does not hold: the two chains, one behind the other.
  pub link :
      (p q r : Ptr) (m : Item) (xs ys : Cells)
      → nodes p ≡ some (node m q)
      → p ≢ null
      → has p xs ≡ false
      → Seg nodes stop q xs
      → Seg nodes end r ys
      → Disjoint ((p, m) ∷ xs) ys
      → (n : MsgNode) × (nodes (last_addr p xs) ≡ some n)
        × Seg
            (update nodes (last_addr p xs) (some (record n { next_node = r })))
            end
            p
            ((p, m) ∷ (xs ++ ys))
  link p q r m xs ys e ne out nil t apart = (
    node m q,
    e,
    cons (ground arith) ne (apart p (ground arith)) (frame-update p _ t (apart p (ground arith))),
  )
  link p q r m xs ys e ne out (cons {q = q'} {m = m'} {xs = xs'} e' ne' out' s) t apart =
      let (n, at, chain) = link q q' r m' xs' ys e' ne' out' s t (λ a i. apart a (ground arith)) in
      (
        n,
        at,
        cons (ground (arith, has-last_addr q m' xs')) ne
            (ground (arith, has-append p xs' ys, apart p)) chain,
      )
