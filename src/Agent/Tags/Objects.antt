-- ===== src/Agent/Tags/Objects.antt =====
-- `setAndGetTag` and `GetObjectTag` of Agent/src/c/JVMHeapScan.c.
use mathlib.Core.Logic.{ite}
use jvmheap_scan.Base.{
  ℕ, ◌+◌, ◌≤◌, ◌≡◌, ◌≢◌, refl, sym, ◌∙◌, Bool, true, false, arith, inl, inr, Bool-cases, ◌==◌,
}
use jvmheap_scan.Base.Int.{ℤ, pos}
use jvmheap_scan.Agent.Tags.{Jvmti, Agent, done, is_zero, get_tag, set_tag, set_and_get_tag}
use jvmheap_scan.Agent.Tags.Laws.{Laws, IsUnique, tag_of, sign_of}

pub ==-refl : (n m : ℕ) → n ≡ m → (n == m) ≡ true
==-refl n m h = ground arith

module _ (j : Jvmti) (laws : Laws j) where
  abbrev pub tagged : j.Object → Agent j → Agent j
  tagged o s = record s {
    last_tag = s.last_tag + 1;
    env = (j.set_tag o (pos (s.last_tag + 1)) s.env).1;
  }

  pub get_tag-done : (o : j.Object) (s : Agent j) → get_tag j o s ≡ done (tag_of j o s) s
  unfolding get_tag
  get_tag-done o s = rw (==-refl _ _ (laws.get_ok o s.env))

  pub set_tag-done :
      (o : j.Object) (t : ℤ) (s : Agent j)
      → set_tag j o t s ≡ done tt (record s { env = (j.set_tag o t s.env).1 })
  unfolding set_tag
  set_tag-done o t s = rw (==-refl _ _ (laws.set_ok o t s.env))

  -- An object with a tag keeps it, and nothing changes.
  pub set_and_get_tag-old :
      (o : j.Object) (s : Agent j)
      → is_zero (tag_of j o s) ≡ false
      → set_and_get_tag j o s ≡ done (tag_of j o s, false) s
  unfolding set_and_get_tag
  set_and_get_tag-old o s h = rw (get_tag-done o s, h)

  -- An object without a tag gets the successor of `lastTag`.
  pub set_and_get_tag-new :
      (o : j.Object) (s : Agent j)
      → is_zero (tag_of j o s) ≡ true
      → set_and_get_tag j o s ≡ done (pos (s.last_tag + 1), true) (tagged o s)
  unfolding set_and_get_tag
  set_and_get_tag-new o s h = rw (get_tag-done o s, h, set_tag-done)

  -- What a call of `setAndGetTag` leaves.
  pub record Tagged (o : j.Object) (s : Agent j) (tag : ℤ) (fresh : Bool) (t : Agent j)
      : Type 0 where
    pub got : tag_of j o t ≡ tag
    pub tagged_now : is_zero tag ≡ false
    pub new : fresh ≡ is_zero (tag_of j o s)
    pub others : (p : j.Object) → p ≢ o → tag_of j p t ≡ tag_of j p s
    pub signs : (p : j.Object) → sign_of j p t ≡ sign_of j p s
    pub sent : t.sent ≡ s.sent
    pub unique : IsUnique j t

  renumber : (o : j.Object) (s : Agent j) → (j.Object → ℕ) → j.Object → ℕ
  renumber o s number p = ite (laws.same o p) (s.last_tag + 1) (number p)

  tagged-IsUnique : (o : j.Object) (s : Agent j) → IsUnique j s → IsUnique j (tagged o s)
  unfolding renumber
  tagged-IsUnique o s u = record {
    number = renumber o s u.number;
    is = λ p. is_of p (laws.same o p);
    bound = λ p. bound_of p (laws.same o p);
    distinct = λ p q. distinct_of p q (laws.same o p) (laws.same o q);
  }
    where
      is_of :
          (p : j.Object) (d : Dec (o ≡ p))
          → tag_of j p (tagged o s) ≡ pos (ite d (s.last_tag + 1) (u.number p))
      is_of p (yes e) = rw (← e) (laws.get_set o _ s.env)
      is_of p (no ne) = laws.get_set_ne o p _ s.env ne ∙ u.is p

      bound_of :
          (p : j.Object) (d : Dec (o ≡ p)) → ite d (s.last_tag + 1) (u.number p) ≤ s.last_tag + 1
      bound_of p (yes e) = omega arith
      bound_of p (no ne) = omega (arith, u.bound p)

      distinct_of :
          (p q : j.Object) (d : Dec (o ≡ p)) (d' : Dec (o ≡ q))
          → ite d (s.last_tag + 1) (u.number p) ≡ ite d' (s.last_tag + 1) (u.number q)
          → ite d (s.last_tag + 1) (u.number p) ≢ 0
          → p ≡ q
      distinct_of p q (yes e) (yes e') h n = sym e ∙ e'
      distinct_of p q (yes e) (no ne) h n = absurd (omega (arith, u.bound q))
      distinct_of p q (no ne) (yes e) h n = absurd (omega (arith, u.bound p))
      distinct_of p q (no ne) (no ne') h n = u.distinct p q h n

  pub set_and_get_tag-Tagged :
      (o : j.Object) (s : Agent j)
      → IsUnique j s
      → (tag : ℤ) × (fresh : Bool) × (t : Agent j) × (set_and_get_tag j o s ≡ done (tag, fresh) t)
        × Tagged o s tag fresh t
  set_and_get_tag-Tagged o s u = elim (Bool-cases (is_zero (tag_of j o s))) [
    | inl none_yet ↦ (
      pos (s.last_tag + 1),
      true,
      tagged o s,
      set_and_get_tag-new o s none_yet,
      record {
        got = laws.get_set o _ s.env;
        tagged_now = ground arith;
        new = sym none_yet;
        others = λ p ne. laws.get_set_ne o p _ s.env (λ e. ne (sym e));
        signs = λ p. laws.sign_set o p _ s.env;
        sent = refl;
        unique = tagged-IsUnique o s u;
      },
    )
    | inr old ↦ (
      tag_of j o s,
      false,
      s,
      set_and_get_tag-old o s old,
      record {
        got = refl;
        tagged_now = old;
        new = sym old;
        others = λ p ne. refl;
        signs = λ p. refl;
        sent = refl;
        unique = u;
      },
    )
  ]
