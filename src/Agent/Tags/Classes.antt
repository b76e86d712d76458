-- ===== src/Agent/Tags/Classes.antt =====
-- `checkAndTagClasses` of Agent/src/c/JVMHeapScan.c.
use jvmheap_scan.Base.{
  ◌+◌, ◌≡◌, ◌≢◌, refl, sym, ◌∙◌, Bool, true, [], ◌∷◌, ◌++◌, inl, inr, Bool-cases, if◌then◌else◌,
}
use jvmheap_scan.Base.Int.{pos}
use jvmheap_scan.Agent.Message.{store_class_tag_msg}
use jvmheap_scan.Agent.Tags.{
  Jvmti, Agent, done, include, is_zero, check_and_tag_class, set_and_get_tag,
}
use jvmheap_scan.Agent.Tags.Laws.{Laws, tag_of, sign_of}
use jvmheap_scan.Agent.Tags.Objects.{tagged, set_and_get_tag-new, get_tag-done, set_tag-done}
use jvmheap_scan.Agent.Tags.Report.{store_class_tag-done}

module _ (j : Jvmti) (laws : Laws j) where
  -- What one round leaves.
  pub record Checked (class : j.Object) (flush : Bool) (s t : Agent j) : Type 0 where
    pub tag :
        tag_of j class t ≡ (if is_zero (tag_of j class s) then pos s.last_tag else tag_of j class s)
    pub last : t.last_tag ≡ (if is_zero (tag_of j class s) then s.last_tag + 1 else s.last_tag)
    pub others : (p : j.Object) → p ≢ class → tag_of j p t ≡ tag_of j p s
    pub signs : (p : j.Object) → sign_of j p t ≡ sign_of j p s
    pub sent :
        t.sent
        ≡ s.sent
          ++ (include (store_class_tag_msg (tag_of j class s) (sign_of j class s) flush) ∷ [])

  -- Every round of `checkAndTagClasses` succeeds, if all calls do: a class without a tag gets `lastTag`,
  -- which then grows, and other tags stay. The one message carries the tag that the class had before,
  -- which is 0 for a class that has just been tagged.
  pub check_and_tag_class-Checked :
      (class : j.Object) (flush : Bool) (s : Agent j)
      → (t : Agent j) × (check_and_tag_class j flush class s ≡ done tt t) × Checked class flush s t
  unfolding check_and_tag_class
  check_and_tag_class-Checked class flush s = elim (Bool-cases (is_zero (tag_of j class s))) [
    | inl none_yet ↦ (
      record (given s) {
        sent =
            s.sent
            ++ (include (store_class_tag_msg (tag_of j class s) (sign_of j class (given s)) flush)
                ∷ []);
      },
      rw (
        get_tag-done j laws class s,
        none_yet,
        set_tag-done j laws class (pos s.last_tag) s,
        store_class_tag-done j laws class (tag_of j class s) flush (given s),
      ),
      record {
        tag = rw none_yet (laws.get_set class _ s.env);
        last = rw none_yet;
        others = λ p ne. laws.get_set_ne class p _ s.env (λ e. ne (sym e));
        signs = λ p. laws.sign_set class p _ s.env;
        sent = rw (laws.sign_set class class (pos s.last_tag) s.env);
      },
    )
    | inr old ↦ (
      record s {
        sent =
            s.sent
            ++ (include (store_class_tag_msg (tag_of j class s) (sign_of j class s) flush) ∷ []);
      },
      rw (
        get_tag-done j laws class s,
        old,
        store_class_tag-done j laws class (tag_of j class s) flush s,
      ),
      record { tag = rw old; last = rw old; others = λ p ne. refl; signs = λ p. refl; sent = refl },
    )
  ]
    where
      given : Agent j → Agent j
      given u = record u {
        last_tag = u.last_tag + 1;
        env = (j.set_tag class (pos u.last_tag) u.env).1;
      }

  -- An object tagged by `setAndGetTag` and then a class tagged by `checkAndTagClasses` have the
  -- same tag: the first takes the successor of `lastTag`, the second `lastTag` itself.
  pub check_after_track-duplicate :
      (o class : j.Object) (flush : Bool) (s : Agent j)
      → o ≢ class
      → is_zero (tag_of j o s) ≡ true
      → is_zero (tag_of j class s) ≡ true
      → (t u : Agent j) × (set_and_get_tag j o s ≡ done (pos (s.last_tag + 1), true) t)
        × (check_and_tag_class j flush class t ≡ done tt u)
        × (tag_of j o u ≡ pos (s.last_tag + 1))
        × (tag_of j class u ≡ pos (s.last_tag + 1))
  check_after_track-duplicate o class flush s ne no_tag no_class_tag =
      let (u, run, checked) = check_and_tag_class-Checked class flush (tagged j laws o s) in
      (
        tagged j laws o s,
        u,
        set_and_get_tag-new j laws o s no_tag,
        run,
        checked.others o ne ∙ laws.get_set o _ s.env,
        checked.tag ∙ rw (laws.get_set_ne o class (pos (s.last_tag + 1)) s.env ne, no_class_tag),
      )
