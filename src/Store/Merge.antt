-- ===== src/Store/Merge.antt =====
-- `mergeMsgAsString` of Agent/src/c/MessageStore.c: the text of a group, and what is freed.
use jvmheap_scan.Base.{
  ℕ, true, zero, suc, ◌+◌, ◌*◌, ◌≤◌, ◌<◌, ◌≡◌, ◌≢◌, refl, ap, ◌∙◌, none, some, List, [], ◌∷◌, ◌++◌,
  append_assoc, append-nil, arith, if◌then◌else◌, length, length-append, update,
}
use jvmheap_scan.Store.Memory.{Ptr, null, MsgGroup, Store, ok, fault}
use jvmheap_scan.Store.Seg.{
  Item, node, Cells, Nodes, has, Seg, Head, Seg-Head, end_of, nil, cons, frame, frame-update,
  last_addr,
}
use jvmheap_scan.Store.Rules.{not_null, load_node-ok, free_msg_node-ok, print_into-ok}
use jvmheap_scan.Store.{merge_loop, merge_msg_as_string, empty_size}

-- The texts with the separator between them.
unfoldable pub join : List ℕ → Cells → List ℕ
join sep [] = []
join sep ((p, m) ∷ []) = m.text
join sep ((p, m) ∷ c ∷ xs) = m.text ++ (sep ++ join sep (c ∷ xs))

abbrev pub total_size : Cells → ℕ
total_size [] = 0
total_size ((p, m) ∷ xs) = m.size + total_size xs

-- The text and its NUL fit the size that the sender gave.
abbrev pub IsSized : Cells → Type 0
IsSized [] = Unit
IsSized ((p, m) ∷ xs) = (length m.text + 1 ≤ m.size) × IsSized xs

-- The messages of the group are `xs`, in order; `sentinel` is its first node. The size that the
-- group counts covers theirs.
pub record Holds (nodes : Nodes) (g : MsgGroup) (xs : Cells) : Type 0 where
  pub sentinel : Item
  pub chain : Head nodes null g.first_node sentinel xs
  pub count : g.total_msgs ≡ length xs
  pub size : empty_size + total_size xs ≤ g.total_msg_size

-- The group is ready for one more message: its last pointer is up to date.
pub record IsGroup (nodes : Nodes) (g : MsgGroup) (xs : Cells) : Type 0 where
  pub holds : Holds nodes g xs
  pub open holds use *
  pub last : g.last_node ≡ last_addr g.first_node xs

-- A group stays as it is where its nodes do.
module _ {nodes other : Nodes} {g : MsgGroup} {xs : Cells} where
  pub Holds-frame :
      (h : Holds nodes g xs)
      → ((a : Ptr) → has a ((g.first_node, h.sentinel) ∷ xs) ≡ true → other a ≡ nodes a)
      → Holds other g xs
  Holds-frame h same = record {
    sentinel = h.sentinel;
    chain = record {
      next = h.chain.next;
      here = same g.first_node (ground arith) ∙ h.chain.here;
      ne = h.chain.ne;
      out = h.chain.out;
      rest = frame h.chain.rest (λ a i. same a (ground arith));
    };
    count = h.count;
    size = h.size;
  }

-- `other` is `nodes` less the nodes of `xs`.
abbrev pub Without : Cells → Nodes → Nodes → Type 0
Without xs nodes other = (a : Ptr) → other a ≡ (if has a xs then none else nodes a)

-- What the loop writes: each text behind a separator.
behind : List ℕ → Cells → List ℕ
behind sep [] = []
behind sep ((p, m) ∷ xs) = (sep ++ m.text) ++ behind sep xs

length-behind :
    (sep : List ℕ) (xs : Cells)
    → IsSized xs
    → length (behind sep xs) ≤ total_size xs + length xs * length sep
unfolding behind
length-behind sep [] z = omega arith
length-behind sep ((p, m) ∷ xs) z = omega (
  arith,
  length-append (sep ++ m.text) (behind sep xs),
  length-append sep m.text,
  length-behind sep xs z.1,
)

join-cons :
    (sep : List ℕ) (p : Ptr) (m : Item) (xs : Cells)
    → join sep ((p, m) ∷ xs) ≡ m.text ++ behind sep xs
unfolding join behind
join-cons sep p m [] = sym_nil
  where
    sym_nil : m.text ≡ m.text ++ []
    sym_nil = simp append-nil
join-cons sep p m ((q, n) ∷ xs) = simp (join-cons sep q n xs, append_assoc)

merge_loop-behind :
    (sep : List ℕ) (room k : ℕ) (p : Ptr) (out : List ℕ) (s : Store) (xs : Cells)
    → Seg s.nodes null p xs
    → length xs < k
    → length out + length (behind sep xs) + 1 ≤ room
    → (left : Nodes) × (merge_loop sep room k p out s
        ≡ ok (out ++ behind sep xs) (record s { nodes = left }))
      × Without xs s.nodes left
unfolding merge_loop behind
merge_loop-behind sep room zero p out s xs c h fits = absurd (omega arith)
merge_loop-behind sep room (suc k) p out s [] nil h fits = (s.nodes, simp append-nil, λ a. refl)
merge_loop-behind sep room (suc k) p out s ((p', m) ∷ xs) (cons {q = q} e ne o c) h fits =
    rw
      (
        not_null ne,
        load_node-ok s p e,
        print_into-ok room out (sep ++ m.text) s (omega (arith, more)),
        free_msg_node-ok s p e,
      )
      (let (left, run, gone) =
          merge_loop-behind sep room k q (out ++ (sep ++ m.text))
            (record s { nodes = update s.nodes p none }) xs (frame-update p none c o) (omega arith)
            (omega (arith, more, length-append out (sep ++ m.text))) in
        (
          left,
          run
              ∙ ap (λ (t : List ℕ). ok t (record s { nodes = left }))
                  (append_assoc out (sep ++ m.text) (behind sep xs)),
          λ a. ground (arith, gone a),
        ))
  where
    more : length (behind sep ((p, m) ∷ xs)) ≡ length (sep ++ m.text) + length (behind sep xs)
    more = length-append (sep ++ m.text) (behind sep xs)

-- `mergeMsgAsString` returns the joined texts with the size of text and NUL, no buffer is too small
-- on the way, and exactly the nodes `xs` are freed.
abbrev pub Joins : List ℕ → MsgGroup → Store → Cells → Type 0
Joins sep g s xs =
    (left : Nodes) × (merge_msg_as_string sep g s
      ≡ ok (join sep xs, length (join sep xs) + 1) (record s { nodes = left }))
    × Without xs s.nodes left

-- The room of the buffer, as the sizes of the messages.
room-le :
    (sep : List ℕ) (g : MsgGroup) (xs : Cells)
    → g.total_msgs ≡ length xs
    → empty_size + total_size xs ≤ g.total_msg_size
    → total_size xs + length xs * length sep + 1
      ≤ g.total_msg_size + g.total_msgs * ((length sep + 1) * 1)
room-le sep g xs count size = omega (arith, ap (λ (t : ℕ). t * (length sep + 1)) count)

module _ (sep : List ℕ) (g : MsgGroup) (s : Store) (p : Ptr) (m : Item) (xs : Cells) where
  Head-Joins :
      (a : Item) (f : Ptr)
      → s.nodes g.first_node ≡ some (node a f)
      → (f ≡ p) × Head s.nodes null p m xs
      → g.total_msgs ≡ suc (length xs)
      → empty_size + (m.size + total_size xs) ≤ g.total_msg_size
      → IsSized ((p, m) ∷ xs)
      → Joins sep g s ((p, m) ∷ xs)
  unfolding merge_msg_as_string
  Head-Joins a f first (at, c) count size z =
      rw
        (
          load_node-ok s g.first_node first,
          at,
          not_null c.ne,
          load_node-ok s p c.here,
          print_into-ok room [] m.text s (omega (arith, fits)),
          free_msg_node-ok s p c.here,
        )
        (let (left, run, gone) =
            merge_loop-behind sep room (g.total_msgs + 1) c.next m.text
              (record s { nodes = update s.nodes p none }) xs (frame-update p none c.rest c.out)
              (omega arith) (omega (arith, fits, length-behind sep xs z.1)) in
          (
            left,
            rw (run, join-cons sep p m xs)
                (ap (λ (n : ℕ). ok (m.text ++ behind sep xs, n) (record s { nodes = left }))
                  (omega arith)),
            λ b. ground (arith, gone b),
          ))
    where
      room : ℕ
      room = g.total_msg_size + g.total_msgs * ((length sep + 1) * 1)

      fits : m.size + total_size xs + suc (length xs) * length sep + 1 ≤ room
      fits = room-le sep g ((p, m) ∷ xs) count size

-- The text of a group is its messages in order with the separator between them; it is returned
-- with the size of text and NUL, the buffer is never too small, and exactly the group's nodes are
-- freed. The group has at least one message, and each message fits the size given for it.
pub merge_msg_as_string-join :
    (sep : List ℕ) (g : MsgGroup) (s : Store) (xs : Cells)
    → xs ≢ []
    → Holds s.nodes g xs
    → IsSized xs
    → Joins sep g s xs
merge_msg_as_string-join sep g s [] some_left h z = absurd (some_left refl)
merge_msg_as_string-join sep g s ((p, m) ∷ xs) some_left h z =
    Head-Joins sep g s p m xs h.sentinel h.chain.next h.chain.here (Seg-Head h.chain.rest) h.count
      h.size z

-- A group with no message makes `mergeMsgAsString` take the length of memory never written.
pub merge_msg_as_string-fault :
    (sep : List ℕ) (g : MsgGroup) (s : Store)
    → Holds s.nodes g []
    → merge_msg_as_string sep g s ≡ fault
unfolding merge_msg_as_string
merge_msg_as_string-fault sep g s is =
    rw (load_node-ok s g.first_node is.chain.here, (end_of is.chain.rest))
