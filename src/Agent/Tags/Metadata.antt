-- ===== src/Agent/Tags/Metadata.antt =====
-- `onGetClassMetadata` of Agent/src/c/JVMHeapScan.c.
use jvmheap_scan.Base.{
  ◌≡◌, refl, ap, sym, ◌∙◌, Bool, false, List, [], ◌∷◌, ◌++◌, append_assoc, append-nil,
}
use jvmheap_scan.Base.Int.{ℤ}
use jvmheap_scan.Agent.Message.{store_class_tag_msg}
use jvmheap_scan.Agent.Tags.{
  Jvmti, Agent, Event, done, include, start_group, flush_group, check_and_tag_classes,
  on_get_class_metadata,
}
use jvmheap_scan.Agent.Tags.Laws.{Laws, sign_of}
use jvmheap_scan.Agent.Tags.Objects.{==-refl}
use jvmheap_scan.Agent.Tags.Classes.{check_and_tag_class-Checked}

module _ (j : Jvmti) (laws : Laws j) where
  -- One message for each class, in order, with the class's signature and some tag.
  abbrev pub Reports : Bool → Agent j → List j.Object → List Event → Type 0
  Reports flush s [] [] = Unit
  Reports flush s (c ∷ cs) (e ∷ es) =
      ((tag : ℤ) × (e ≡ include (store_class_tag_msg tag (sign_of j c s) flush)))
      × Reports flush s cs es
  Reports flush s _ _ = ⊥

  Reports-same :
      (flush : Bool) (s t : Agent j) (cs : List j.Object) (es : List Event)
      → ((o : j.Object) → sign_of j o t ≡ sign_of j o s)
      → Reports flush t cs es
      → Reports flush s cs es
  Reports-same flush s t [] [] signs r = r
  Reports-same flush s t [] (e ∷ es) signs r = elim r [ ]
  Reports-same flush s t (c ∷ cs) [] signs r = elim r [ ]
  Reports-same flush s t (c ∷ cs) (e ∷ es) signs ((tag, is), r) = (
    (tag, is ∙ ap (λ g. include (store_class_tag_msg tag g flush)) (signs c)),
    Reports-same flush s t cs es signs r,
  )

  check_and_tag_classes-Reports :
      (flush : Bool) (cs : List j.Object) (s : Agent j)
      → (t : Agent j) × (es : List Event) × (check_and_tag_classes j flush cs s ≡ done tt t)
        × (t.sent ≡ s.sent ++ es)
        × Reports flush s cs es
  unfolding check_and_tag_classes
  check_and_tag_classes-Reports flush [] s = (s, [], refl, sym (append-nil s.sent), tt)
  check_and_tag_classes-Reports flush (c ∷ cs) s =
      let (t, run, checked) = check_and_tag_class-Checked j laws c flush s in
      let (u, es, rest, sent, r) = check_and_tag_classes-Reports flush cs t in
      (
        u,
        _ ∷ es,
        rw (run, rest),
        sent ∙ ap (λ l. l ++ es) checked.sent ∙ append_assoc s.sent _ es,
        ((_, refl), Reports-same flush s t cs es checked.signs r),
      )

  -- If all calls of the JVM Tool Interface succeed, `onGetClassMetadata` does too, and hands the store
  -- one group, with one message for each loaded class in order, which carries the class's signature.
  pub on_get_class_metadata-Reports :
      (s : Agent j)
      → (t : Agent j) × (es : List Event) × (on_get_class_metadata j s ≡ done tt t)
        × (t.sent ≡ s.sent ++ ((start_group ∷ es) ++ (flush_group ∷ [])))
        × Reports false s (j.get_loaded_classes (j.raw_monitor_enter s.env).1).1 es
  unfolding on_get_class_metadata
  on_get_class_metadata-Reports s =
      let entered = record s {
        env = (j.raw_monitor_enter s.env).1;
        sent = s.sent ++ (start_group ∷ []);
      } in
      let cs = (j.get_loaded_classes entered.env).1 in
      let (t, es, run, sent, r) = check_and_tag_classes-Reports false cs entered in
      (
        record t { env = (j.raw_monitor_exit t.env).1; sent = t.sent ++ (flush_group ∷ []) },
        es,
        rw (
          ==-refl _ _ (laws.enter_ok s.env),
          ==-refl _ _ (laws.loaded_ok entered.env),
          run,
          ==-refl _ _ (laws.exit_ok t.env),
        ),
        ap (λ l. l ++ (flush_group ∷ [])) sent
            ∙ append_assoc entered.sent es (flush_group ∷ [])
            ∙ append_assoc s.sent (start_group ∷ []) (es ++ (flush_group ∷ [])),
        Reports-same false s entered cs es (λ o. laws.sign_enter o s.env) r,
      )
