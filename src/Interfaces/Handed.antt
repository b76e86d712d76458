-- ===== src/Interfaces/Handed.antt =====
-- What a step of the store of Interfaces/World does to the nodes in the producers' hands and to the group
-- that is collected.
use jvmheap_scan.Base.{
  ℕ, ◌≤◌, ◌<◌, ◌≡◌, ◌≢◌, inl, inr, some, none, arith, update, sym, refl, ◌∙◌, List,
}
use jvmheap_scan.Store.Memory.{Ptr, null, left_space_left_entry, Store}
use jvmheap_scan.Store.Seg.{Item}
use jvmheap_scan.Store.Contents.{IsFree, Spares, fresh-IsFree}
use jvmheap_scan.Store.Untouched.{Leaves, Untouched-Leaves}
use jvmheap_scan.Store.Queued.{with_node, with_node-Untouched}
use jvmheap_scan.Store.Requests.{Queues}
use jvmheap_scan.Store.Represents.{Represents, Represents-Leaves}
use jvmheap_scan.Interfaces.World.{Hand, Group}
use jvmheap_scan.Interfaces.Carried.{
  Waits, Apart, Collects, Carries, Waits-stays, Collects-stays, others, in_hand, same_hand,
  given_away,
}

module _ {limit : ℕ} {s : Store} {hand : ℕ → Hand} {group : Group} {q : Queues}
    (c : Carries limit s hand group q) where
  -- A step of the store that takes no node out of a hand.
  pub Carries-still :
      {t : Store} {q' : Queues} (r : Represents limit t q')
      → Spares null c.rep.is r.is
      → t.cur_msg_grp ≡ s.cur_msg_grp
      → Carries limit t hand group q'
  Carries-still r u cur = record {
    rep = r;
    waits = λ i p m h.
        let w = c.waits i p m h in
        Waits-stays w (u.node p w.old w.ne_null w.free) u.later (u.free p w.old w.ne_null w.free);
    own = c.own;
    collects = λ i ms h. Collects-stays (c.collects i ms h) cur (λ a o. (
      u.node a o.old o.ne_null o.free,
      record {
        ne_null = o.ne_null;
        old = let b = o.old in let l = u.later in omega arith;
        free = u.free a o.old o.ne_null o.free;
        unheld = o.unheld;
      },
    ));
  }

  -- A step of the store that takes the node of a producer.
  pub Carries-taken :
      (i : ℕ) (p : Ptr) (m : Item) {t : Store} {q' : Queues} (r : Represents limit t q')
      → hand i ≡ some (p, m)
      → Spares p c.rep.is r.is
      → t.cur_msg_grp ≡ s.cur_msg_grp
      → Carries limit t (update hand i none) group q'
  Carries-taken i p m r here u cur = record {
    rep = r;
    waits = λ j a n h.
        let (ne, h') = given_away hand i j a n h in
        let w = c.waits j a n h' in
        let other : a ≢ p = λ e. ne (c.own j i p n m (rw e at h') here) in
        Waits-stays w (u.node a w.old other w.free) u.later (u.free a w.old other w.free);
    own = λ j k a m' n h h'.
        c.own j k a m' n (given_away hand i j a m' h).1 (given_away hand i k a n h').1;
    collects = λ j ms h. Collects-stays (c.collects j ms h) cur (λ a o.
        let other : a ≢ p = λ e. o.unheld i m (rw e here) in
        (
          u.node a o.old other o.free,
          record {
            ne_null = o.ne_null;
            old = let b = o.old in let l = u.later in omega arith;
            free = u.free a o.old other o.free;
            unheld = λ k n h. o.unheld k n (given_away hand i k a n h).1;
          },
        ));
  }

  -- A step for the group that is collected: the holders and the nodes in hand are left alone.
  pub Carries-regrouped :
      {t : Store} (group' : Group)
      → Leaves c.rep.is t
      → ((i : ℕ) (a : Ptr) (m : Item) → hand i ≡ some (a, m) → t.nodes a ≡ s.nodes a)
      → ((r : Represents limit t q)
          → ((a : Ptr) → IsFree c.rep.is a → IsFree r.is a)
          → (i : ℕ) (ms : List Item) → group' ≡ some (i, ms)
          → Collects r.is hand ms)
      → Carries limit t hand group' q
  Carries-regrouped group' u held collects =
      let (r, f) = Represents-Leaves c.rep u in
      record {
        rep = r;
        waits =
            λ i p m h. let w = c.waits i p m h in Waits-stays w (held i p m h) u.later (f p w.free);
        own = c.own;
        collects = collects r f;
      }

  -- The new node is in no other hand.
  unshared :
      (p : Ptr) (m : Item) (k : ℕ) (a : Ptr) (m' n : Item)
      → s.fresh ≤ p
      → in_hand p m ≡ in_hand a m'
      → hand k ≢ some (a, n)
  unshared p m k a m' n new e h =
      let (x, y) = same_hand e in let o = (c.waits k a n h).old in omega (arith, x)

  -- A producer gets a new node.
  module _ (i : ℕ) (m : Item) where
    abbrev t : Store
    t = with_node s m

    abbrev hand' : ℕ → Hand
    hand' = update hand i (some (s.fresh, m))

    some_address : null < s.fresh
    some_address = let o = (c.rep.is.single left_space_left_entry).old in ground arith

    module _ (r : Represents limit t q) (f : (a : Ptr) → IsFree c.rep.is a → IsFree r.is a) where
      given : Waits r.is s.fresh m
      given = record {
        placed = ground arith;
        ne_null = λ e. let o = some_address in omega (arith, e);
        old = omega arith;
        free = f s.fresh (fresh-IsFree c.rep.is s.fresh (omega arith));
      }

      old_node : (a : Ptr) → a < s.fresh → t.nodes a ≡ s.nodes a
      old_node a below = ground arith

      Waits-given : (j : ℕ) (a : Ptr) (n : Item) → hand' j ≡ some (a, n) → Waits r.is a n
      Waits-given j a n h = elim (others hand i j (some (s.fresh, m)) a n h) [
        | inl e ↦ (let (x, y) = same_hand e.1 in rw (← x, ← y) given)
        | inr e ↦
            (let w = c.waits j a n e.1 in
              Waits-stays w (old_node a w.old) (omega arith) (f a w.free))
      ]

      own_given :
          (j k : ℕ) (a : Ptr) (m' n : Item) → hand' j ≡ some (a, m') → hand' k ≡ some (a, n) → j ≡ k
      own_given j k a m' n h h' = elim (others hand i j (some (s.fresh, m)) a m' h) [
        | inl x ↦ elim (others hand i k (some (s.fresh, m)) a n h') [
          | inl y ↦ x.0 ∙ sym y.0
          | inr y ↦ absurd (unshared s.fresh m k a m' n (omega arith) x.1 y.1)
        ]
        | inr x ↦ elim (others hand i k (some (s.fresh, m)) a n h') [
          | inl y ↦ absurd (unshared s.fresh m j a n m' (omega arith) y.1 x.1)
          | inr y ↦ c.own j k a m' n x.1 y.1
        ]
      ]

      Apart-given : (a : Ptr) → Apart c.rep.is hand a → Apart r.is hand' a
      Apart-given a o = record {
        ne_null = o.ne_null;
        old = let b = o.old in omega arith;
        free = f a o.free;
        unheld = λ k n h. elim (others hand i k (some (s.fresh, m)) a n h) [
          | inl x ↦ (let (y, z) = same_hand x.1 in let b = o.old in omega (arith, y))
          | inr x ↦ o.unheld k n x.1
        ];
      }

    pub Carries-given : Carries limit t hand' group q
    Carries-given =
        let (r, f) =
          Represents-Leaves c.rep (Untouched-Leaves (with_node-Untouched s m) c.rep.is) in
        record {
          rep = r;
          waits = Waits-given r f;
          own = own_given r f;
          collects = λ j ms h.
              Collects-stays (c.collects j ms h) refl
                (λ a o. (old_node r f a o.old, Apart-given r f a o));
        }
