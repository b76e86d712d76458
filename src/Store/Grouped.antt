-- ===== src/Store/Grouped.antt =====
-- A group of Agent/src/c/MessageStore.c from its start to its end: messages that are collected and sent
-- as one.
use jvmheap_scan.Base.{
  ℕ, suc, ◌+◌, ◌≤◌, ◌<◌, ◌≡◌, ◌≢◌, refl, sym, ap, ◌∙◌, false, List, [], ◌∷◌, ◌++◌, arith, length,
  append-nil, append_assoc, inl, inr,
}
use jvmheap_scan.Store.Memory.{Ptr, null, left_space_left_entry, Store, Cmd, ok, pure, ◌>>◌}
use jvmheap_scan.Store.Seg.{Item, Cells}
use jvmheap_scan.Store.Merge.{IsSized, join}
use jvmheap_scan.Store.Collect.{include-IsGroup, flush-merged}
use jvmheap_scan.Store.{
  get_msg_group_holder, on_start_msg_grp, on_include_message, on_flush_msg_grp, on_queue_message,
}
use jvmheap_scan.Store.Requests.{Queues, send, IsAllowed, enqueue, join_texts}
use jvmheap_scan.Store.Refinement.{on_flush_msg-Represents}
use jvmheap_scan.Store.Represents.{Represents-Untouched, Represents}
use jvmheap_scan.Store.Items.{items, items-append, join-items, IsSized-append}
use jvmheap_scan.Store.Collected.{
  Collected, started-Collected, kept-Untouched, outside_own, own_more,
}

-- The calls of `includeMessage` for some messages that are not sent at once.
unfoldable pub include_all : (Ptr → Cmd (Unit {0})) → List Item → Cmd (Unit {0})
include_all produce [] = pure tt
include_all produce (m ∷ ms) =
    on_include_message produce m.text m.size false >> include_all produce ms

-- A group, as `onGetClassMetadata` and `onFollowReference` send it.
unfoldable pub send_group : (Ptr → Cmd (Unit {0})) → List ℕ → List Item → Cmd (Unit {0})
unfolding include_all on_start_msg_grp on_flush_msg_grp
send_group produce sep ms =
    on_start_msg_grp >> (include_all produce ms >> on_flush_msg_grp produce sep)

-- The message that a group becomes.
abbrev pub joined : List ℕ → List Item → Item
joined sep ms = record { size = length (join_texts sep ms) + 1; text = join_texts sep ms }

-- Each text and its NUL fit the size that the sender gave.
abbrev pub AreSized : List Item → Type 0
AreSized [] = Unit
AreSized (m ∷ ms) = (length m.text + 1 ≤ m.size) × AreSized ms

module _ (produce : Ptr → Cmd (Unit {0})) (s : Store) (some_address : null < s.fresh) where
  include-Collected :
      (t : Store) (xs : Cells) (m : Item)
      → Collected s t xs
      → (z : Store) × (on_include_message produce m.text m.size false t ≡ ok tt z)
        × Collected s z (xs ++ (t.fresh, m) ∷ [])
  include-Collected t xs m c =
      let u = c.untouched in
      let l = u.later in
      let (left, grp, run, after, first, rest) =
        include-IsGroup produce m.text m.size t xs c.is (λ e. omega arith)
          (outside_own c t.fresh (λ b. let o = b.1 in omega arith)) in
      (
        _,
        run,
        record {
          untouched = kept-Untouched s t left (suc t.fresh) grp u (omega arith) (λ a below.
              rest a (outside_own c a (λ b. let o = b.0 in omega arith)) (λ e. omega arith));
          is = after;
          own = λ a h.
              elim (own_more t.cur_msg_grp.first_node grp.first_node t.fresh a c.is.sentinel
                after.sentinel m xs first h) [
                  | inl before ↦ (let o = c.own a before in (o.0, omega (arith, o.1)))
                  | inr e ↦ (omega arith, omega arith)
                ];
        },
      )

  include_all-Collected :
      (ms : List Item) (t : Store) (xs : Cells)
      → Collected s t xs
      → IsSized xs
      → AreSized ms
      → (z : Store) × (ys : Cells) × (include_all produce ms t ≡ ok tt z)
        × Collected s z ys
        × IsSized ys
        × (items ys ≡ items xs ++ ms)
  unfolding include_all items
  include_all-Collected [] t xs c sized fits = (t, xs, refl, c, sized, sym (append-nil (items xs)))
  include_all-Collected (m ∷ ms) t xs c sized fits =
      let (y, run, d) = include-Collected t xs m c in
      let (z, ys, runs, e, sized', same) =
        include_all-Collected ms y (xs ++ (t.fresh, m) ∷ []) d
          (IsSized-append xs ((t.fresh, m) ∷ []) sized (fits.0, tt)) fits.1 in
      (
        z,
        ys,
        rw (run, runs) refl,
        e,
        sized',
        same
            ∙ (ap (λ l. l ++ ms) (items-append xs ((t.fresh, m) ∷ []))
                ∙ append_assoc (items xs) (m ∷ []) ms),
      )

-- The collected messages are sent as one.
flush_grp-Represents :
    (limit id : ℕ) (sep : List ℕ) (ms : List Item) (s z : Store) (ys : Cells) (q : Queues)
    → Represents limit s q
    → Collected s z ys
    → IsSized ys
    → items ys ≡ ms
    → ms ≢ []
    → IsAllowed limit (send id (joined sep ms)) q
    → (t : Store) × (on_flush_msg_grp (on_queue_message id) sep z ≡ ok tt t)
      × Represents limit t (enqueue q (get_msg_group_holder id) (joined sep ms))
unfolding items
flush_grp-Represents limit id sep ms s z ys q r c sized same ne allowed =
    let (left, flush, gone) =
      flush-merged (on_queue_message id) sep z ys (λ e. ne (sym same ∙ ap items e)) c.is.holds
        sized in
    let quiet = kept-Untouched s z left z.fresh z.cur_msg_grp c.untouched (omega arith) (λ a below.
      let o = outside_own c a (λ b. let l = b.0 in omega arith) in
      let g = gone a in ground arith) in
    let (t, run, r') =
      on_flush_msg-Represents limit (record z { nodes = left }) q (Represents-Untouched quiet r) id
        (joined sep ms) allowed in
    (t, flush ∙ rw text run, r')
  where
    text : join sep ys ≡ join_texts sep ms
    text = sym (join-items sep ys) ∙ ap (λ l. join_texts sep l) same

one_by_one :
    (a b c : Cmd (Unit {0})) (s y z : Store)
    → a s ≡ ok tt y
    → b y ≡ ok tt z
    → (a >> (b >> c)) s ≡ c z
one_by_one a b c s y z first second = rw (first, second) refl

-- A group of at least one message, each with a size that covers its text, is one message for the
-- queue that its location names, provided that the queue has room: the texts with the separator
-- between them. The nodes in which they were collected leave no trace.
pub send_group-Represents :
    (limit id : ℕ) (sep : List ℕ) (ms : List Item) (s : Store) (q : Queues)
    → Represents limit s q
    → ms ≢ []
    → AreSized ms
    → IsAllowed limit (send id (joined sep ms)) q
    → (t : Store) × (send_group (on_queue_message id) sep ms s ≡ ok tt t)
      × Represents limit t (enqueue q (get_msg_group_holder id) (joined sep ms))
unfolding send_group items
send_group-Represents limit id sep ms s q r ne sized allowed =
    let o = (r.is.single left_space_left_entry).old in
    let some_address : null < s.fresh = omega arith in
    let produce = on_queue_message id in
    let (y, first, start) = started-Collected s some_address in
    let (z, ys, includes, c, ys_sized, same) =
      include_all-Collected produce s some_address ms y [] start tt sized in
    let (t, flush, r') =
      flush_grp-Represents limit id sep ms s z ys q r c ys_sized same ne allowed in
    (
      t,
      one_by_one on_start_msg_grp (include_all produce ms) (on_flush_msg_grp produce sep) s y z
            first includes
          ∙ flush,
      r',
    )
