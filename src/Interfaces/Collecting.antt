-- ===== src/Interfaces/Collecting.antt =====
-- A group of Interfaces/World that one thread collects while the others go on.
use mathlib.Core.Option.{some-injective}
use mathlib.Core.Path.{subst}
use jvmheap_scan.Base.{
  ℕ, suc, ◌+◌, ◌≤◌, ◌<◌, ◌≡◌, ◌≢◌, ◌⊎◌, refl, sym, ap, ◌∙◌, inl, inr, Bool-cases, true, false, some,
  none, List, [], ◌∷◌, ◌++◌, arith, length, update,
}
use jvmheap_scan.Store.Memory.{Ptr, null, MsgGroup, left_space_left_entry, Store, Cmd, ok, fault}
use jvmheap_scan.Store.Seg.{Item, Cells, has, Nodes}
use jvmheap_scan.Store.Merge.{
  Holds, Without, join, merge_msg_as_string-join, merge_msg_as_string-fault,
}
use jvmheap_scan.Store.Items.{items, items-append, join-items, IsSized-append}
use jvmheap_scan.Store.Contents.{owned, IsFree, fresh-IsFree}
use jvmheap_scan.Store.Untouched.{Leaves, Untouched-Leaves}
use jvmheap_scan.Store.Collect.{include-IsGroup}
use jvmheap_scan.Store.Collected.{started-Collected, own_more, same_holders}
use jvmheap_scan.Store.Frame.{same_result}
use jvmheap_scan.Store.Queued.{with_node}
use jvmheap_scan.Store.Requests.{Queues, join_texts}
use jvmheap_scan.Store.Represents.{Represents}
use jvmheap_scan.Store.Grouped.{joined}
use jvmheap_scan.Store.{create_msg_node, on_start_msg_grp, on_include_message}
use jvmheap_scan.Interfaces.World.{Hand, Group, close_group}
use jvmheap_scan.Interfaces.Carried.{Apart, Collects, Carries}
use jvmheap_scan.Interfaces.Handed.{Carries-regrouped, Carries-given}

abbrev collected_by : ℕ → List Item → Group
collected_by i ms = some (i, ms)

same_group : {i j : ℕ} {ms ns : List Item} → collected_by i ms ≡ collected_by j ns → ms ≡ ns
same_group {i} {j} {ms} {ns} e =
    ap (λ (y : ℕ × List Item). y.1) (some-injective {A = ℕ × List Item} (i, ms) (j, ns) e)

Cells-cases : (xs : Cells) → (xs ≡ []) ⊎ (xs ≢ [])
Cells-cases [] = inl refl
Cells-cases (x ∷ xs) = inr (λ e. cc)

module _ {limit : ℕ} {s : Store} {hand : ℕ → Hand} {group : Group} {q : Queues}
    (c : Carries limit s hand group q) where
  some_address : null < s.fresh
  some_address = let o = (c.rep.is.single left_space_left_entry).old in ground arith

  -- An address that is new.
  new_Apart :
      {t : Store} (r : Represents limit t q)
      → ((a : Ptr) → IsFree c.rep.is a → IsFree r.is a)
      → (a : Ptr) → s.fresh ≤ a
      → a < t.fresh
      → Apart r.is hand a
  new_Apart r f a new old = record {
    ne_null = λ e. let o = some_address in omega (arith, e);
    old = old;
    free = f a (fresh-IsFree c.rep.is a new);
    unheld = λ i m h. let o = (c.waits i a m h).old in omega arith;
  }

  pub Carries-started :
      (i : ℕ) (t : Store) → on_start_msg_grp s ≡ ok tt t → Carries limit t hand (some (i, [])) q
  unfolding items
  Carries-started i t run =
      let (z, run', k) = started-Collected s some_address in
      same_result (λ _ t. Carries limit t hand (some (i, [])) q) run' run
        (Carries-regrouped c (some (i, [])) (Untouched-Leaves k.untouched c.rep.is)
          (λ j a m h. k.untouched.nodes a (c.waits j a m h).old)
          (λ r f j ms h. record {
            cells = [];
            is = k.is;
            same = same_group h;
            sized = tt;
            apart = λ a o. new_Apart r f a (k.own a o).0 (k.own a o).1;
          }))

  module _ (i : ℕ) (ms : List Item) (here : group ≡ some (i, ms)) where
    abbrev k : Collects c.rep.is hand ms
    k = c.collects i ms here

    outside :
        (a : Ptr)
        → (Apart c.rep.is hand a → ⊥)
        → has a ((s.cur_msg_grp.first_node, k.is.sentinel) ∷ k.cells) ≡ false
    outside a out =
        elim (Bool-cases (has a ((s.cur_msg_grp.first_node, k.is.sentinel) ∷ k.cells))) [
          | inl inside ↦ absurd (out (k.apart a inside))
          | inr apart ↦ apart
        ]

    -- A node of a holder, or in a hand, is not one of the group.
    outside_holder :
        (j : _) (a : Ptr)
        → has a (owned (c.rep.is.first j) (c.rep.contents j)) ≡ true
        → has a ((s.cur_msg_grp.first_node, k.is.sentinel) ∷ k.cells) ≡ false
    outside_holder j a o = outside a (λ p. let f = p.free j in cc)

    outside_hand :
        (j : ℕ) (a : Ptr) (m : Item)
        → hand j ≡ some (a, m)
        → has a ((s.cur_msg_grp.first_node, k.is.sentinel) ∷ k.cells) ≡ false
    outside_hand j a m h = outside a (λ p. p.unheld j m h)

    new_outside : has s.fresh ((s.cur_msg_grp.first_node, k.is.sentinel) ∷ k.cells) ≡ false
    new_outside = outside s.fresh (λ p. let o = p.old in omega arith)

    -- A step that changes the nodes of the group, and new ones.
    module _ (left : Nodes) (n : ℕ) (g : MsgGroup) (later : s.fresh ≤ n)
        (rest : (a : Ptr)
          → has a ((s.cur_msg_grp.first_node, k.is.sentinel) ∷ k.cells) ≡ false
          → a < s.fresh
          → left a ≡ s.nodes a) where
      holders_left : Leaves c.rep.is (record s { nodes = left; fresh = n; cur_msg_grp = g })
      holders_left = record {
        nodes = λ j a o.
            rest a (outside_holder j a o) ((c.rep.is.single j).low a (rw (c.rep.is.is_first j) o));
        groups = λ a. refl;
        holders = same_holders s left n g;
        later = later;
        splits = refl;
        at_most = refl;
      }

      hands_left : (j : ℕ) (a : Ptr) (m : Item) → hand j ≡ some (a, m) → left a ≡ s.nodes a
      hands_left j a m h = rest a (outside_hand j a m h) (c.waits j a m h).old

    pub Carries-included :
        (produce : Ptr → Cmd (Unit {0})) (m : Item) (t : Store)
        → length m.text + 1 ≤ m.size
        → on_include_message produce m.text m.size false s ≡ ok tt t
        → Carries limit t hand (some (i, ms ++ (m ∷ []))) q
    unfolding items
    Carries-included produce m t fits run =
        let (left, grp, run', after, first, rest) =
          include-IsGroup produce m.text m.size s k.cells k.is
            (λ e. let o = some_address in omega (arith, e)) new_outside in
        let kept : (a : Ptr)
            → has a ((s.cur_msg_grp.first_node, k.is.sentinel) ∷ k.cells) ≡ false
            → a < s.fresh
            → left a ≡ s.nodes a =
          λ a out below. rest a out (λ e. omega arith) in
        same_result (λ _ t. Carries limit t hand (some (i, ms ++ (m ∷ []))) q) run' run
          (Carries-regrouped c (some (i, ms ++ (m ∷ [])))
            (holders_left left (suc s.fresh) grp (omega arith) kept)
            (hands_left left (suc s.fresh) grp (omega arith) kept)
            (λ r f j ns h. record {
              cells = k.cells ++ ((s.fresh, m) ∷ []);
              is = after;
              same =
                  items-append k.cells ((s.fresh, m) ∷ [])
                  ∙ ap (λ l. l ++ (m ∷ [])) k.same
                  ∙ same_group h;
              sized = IsSized-append k.cells ((s.fresh, m) ∷ []) k.sized (fits, tt);
              apart = λ a o.
                  elim (own_more s.cur_msg_grp.first_node grp.first_node s.fresh a k.is.sentinel
                    after.sentinel m k.cells first o) [
                      | inl before ↦
                          (let p = k.apart a before in
                            record {
                              ne_null = p.ne_null;
                              old = let b = p.old in omega arith;
                              free = f a p.free;
                              unheld = p.unheld;
                            })
                      | inr e ↦ new_Apart r f a (omega (arith, e)) (omega (arith, e))
                    ];
            }))

    joined-items : (sep : List ℕ) → join sep k.cells ≡ join_texts sep ms
    joined-items sep = sym (join-items sep k.cells) ∙ ap (λ l. join_texts sep l) k.same

    -- The store when the messages of the group are merged and freed, and the new node is there.
    abbrev closed : List ℕ → Nodes → Store
    closed sep left = with_node (record s { nodes = left }) (joined sep ms)

    merged :
        (sep : List ℕ)
        → k.cells ≢ []
        → (left : Nodes) × (close_group sep s ≡ ok s.fresh (closed sep left))
          × Without k.cells s.nodes left
    unfolding close_group create_msg_node
    merged sep ne =
        let (left, run, gone) =
          merge_msg_as_string-join sep s.cur_msg_grp s k.cells ne k.is.holds k.sized in
        (left, rw (run, joined-items sep) refl, gone)

    nothing_merged : (sep : List ℕ) → k.cells ≡ [] → close_group sep s ≡ fault
    unfolding close_group
    nothing_merged sep e =
        rw
          (merge_msg_as_string-fault sep s.cur_msg_grp s
            (subst (λ xs. Holds s.nodes s.cur_msg_grp xs) e k.is.holds))
          refl

    -- The thread takes the messages of the group as one.
    pub Carries-closed :
        (sep : List ℕ) (p : Ptr) (t : Store)
        → close_group sep s ≡ ok p t
        → Carries limit t (update hand i (some (p, joined sep ms))) none q
    Carries-closed sep p t run = elim (Cells-cases k.cells) [
      | inl e ↦ absurd (let f = nothing_merged sep e in cc)
      | inr ne ↦
          (let (left, run', gone) = merged sep ne in
            let kept : (a : Ptr)
                → has a ((s.cur_msg_grp.first_node, k.is.sentinel) ∷ k.cells) ≡ false
                → a < s.fresh
                → left a ≡ s.nodes a =
              λ a out below. let g = gone a in ground arith in
            let freed : Carries limit (record s { nodes = left }) hand none q =
              Carries-regrouped c none (holders_left left s.fresh s.cur_msg_grp (omega arith) kept)
                (hands_left left s.fresh s.cur_msg_grp (omega arith) kept)
                (λ r f j ns h. absurd cc) in
            same_result (λ a t. Carries limit t (update hand i (some (a, joined sep ms))) none q)
              run' run (Carries-given freed i (joined sep ms)))
    ]
