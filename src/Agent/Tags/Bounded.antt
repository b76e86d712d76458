-- ===== src/Agent/Tags/Bounded.antt =====
-- The tags that `onGetClassMetadata` of Agent/src/c/JVMHeapScan.c prints.
use jvmheap_scan.Base.{
  ℕ, ◌+◌, ◌≤◌, ◌<◌, ◌^◌, ◌≡◌, refl, sym, ap, ◌∙◌, false, List, [], ◌∷◌, ◌++◌, arith, length, map,
  append_assoc, append-nil, inl, inr, Bool-cases,
}
use jvmheap_scan.Base.Int.{ℤ, pos, Fits32}
use jvmheap_scan.Agent.Message.{store_class_tag_msg}
use jvmheap_scan.Agent.Tags.{
  Jvmti, Agent, Event, done, include, start_group, flush_group, is_zero, check_and_tag_classes,
  on_get_class_metadata,
}
use jvmheap_scan.Agent.Tags.Laws.{Laws, tag_of, sign_of}
use jvmheap_scan.Agent.Tags.Objects.{==-refl}
use jvmheap_scan.Agent.Tags.Classes.{Checked, check_and_tag_class-Checked}

-- A class that is reported: its tag and its signature.
abbrev pub class_event : ℤ × List ℕ → Event
class_event (tag, sign) = include (store_class_tag_msg tag sign false)

-- The tags that are printed have 32 bits.
abbrev pub HaveTags : List (ℤ × List ℕ) → Type 0
HaveTags [] = Unit
HaveTags ((tag, sign) ∷ cs) = Fits32 tag × HaveTags cs

module _ (j : Jvmti) where
  -- Every tag is a number up to `lastTag`.
  abbrev pub IsBounded : Agent j → Type 0
  IsBounded s = (o : j.Object) → (n : ℕ) × (tag_of j o s ≡ pos n) × (n ≤ s.last_tag)

  -- The state in which the classes are looked at.
  abbrev pub entered : Agent j → Agent j
  entered s = record s { env = (j.raw_monitor_enter s.env).1 }

  abbrev pub loaded_classes : Agent j → List j.Object
  loaded_classes s = (j.get_loaded_classes (j.raw_monitor_enter s.env).1).1

  module _ (laws : Laws j) where
    Checked-last :
        (class : j.Object) (s t : Agent j)
        → Checked j laws class false s t
        → (s.last_tag ≤ t.last_tag) × (t.last_tag ≤ s.last_tag + 1)
    Checked-last class s t c = let l = c.last in ground arith

    Checked-class :
        (class : j.Object) (s t : Agent j)
        → Checked j laws class false s t
        → IsBounded s
        → (n : ℕ) × (tag_of j class t ≡ pos n) × (n ≤ t.last_tag)
    Checked-class class s t c bounded = elim (Bool-cases (is_zero (tag_of j class s))) [
      | inl none_yet ↦
          (let l = Checked-last class s t c in
            (s.last_tag, c.tag ∙ rw none_yet refl, omega (arith, l.0)))
      | inr old ↦
          (let (n, is, bound) = bounded class in
            let l = Checked-last class s t c in (n, c.tag ∙ rw old is, omega (arith, l.0)))
    ]

    Checked-IsBounded :
        (class : j.Object) (s t : Agent j)
        → Checked j laws class false s t
        → IsBounded s
        → IsBounded t
    Checked-IsBounded class s t c bounded o = elim (laws.same o class) [
      | yes e ↦
          (let (n, is, bound) = Checked-class class s t c bounded in
            (n, ap (λ p. tag_of j p t) e ∙ is, bound))
      | no other ↦
          (let (n, is, bound) = bounded o in
            let l = Checked-last class s t c in (n, c.others o other ∙ is, omega (arith, l.0)))
    ]

    same_signs :
        (s t : Agent j)
        → ((p : j.Object) → sign_of j p t ≡ sign_of j p s)
        → (os : List j.Object) → map (λ o. sign_of j o t) os ≡ map (λ o. sign_of j o s) os
    same_signs s t e [] = refl
    same_signs s t e (o ∷ os) = rw (e o, same_signs s t e os) refl

    -- What `checkAndTagClasses` hands to the store.
    check_and_tag_classes-HaveTags :
        (os : List j.Object) (s : Agent j)
        → IsBounded s
        → s.last_tag + length os < 2 ^ 31
        → (t : Agent j) × (cs : List (ℤ × List ℕ)) × (check_and_tag_classes j false os s
            ≡ done tt t)
          × (t.sent ≡ s.sent ++ map class_event cs)
          × HaveTags cs
          × (map (λ c. c.1) cs ≡ map (λ o. sign_of j o s) os)
    unfolding check_and_tag_classes
    check_and_tag_classes-HaveTags [] s bounded small =
        (s, [], refl, sym (append-nil s.sent), tt, refl)
    check_and_tag_classes-HaveTags (o ∷ os) s bounded small =
        let (t, run, c) = check_and_tag_class-Checked j laws o false s in
        let l = Checked-last o s t c in
        let (u, cs, rest, sent, tags, signs) =
          check_and_tag_classes-HaveTags os t (Checked-IsBounded o s t c bounded)
            (omega (arith, l.1)) in
        let (n, is, bound) = bounded o in
        (
          u,
          (tag_of j o s, sign_of j o s) ∷ cs,
          rw (run, rest) refl,
          sent ∙ (ap (λ l. l ++ map class_event cs) c.sent ∙ append_assoc s.sent _ _),
          (rw is (omega (arith, bound)), tags),
          ap (λ l. sign_of j o s ∷ l) (signs ∙ same_signs s t c.signs os),
        )

    -- `onGetClassMetadata` hands the store one group: a message for each loaded class in order, with
    -- its signature and a tag of 32 bits, if each tag is a number up to `lastTag` and there is room for
    -- as many tags as classes below 2 ^ 31.
    pub on_get_class_metadata-HaveTags :
        (s : Agent j)
        → IsBounded (entered s)
        → s.last_tag + length (loaded_classes s) < 2 ^ 31
        → (t : Agent j) × (cs : List (ℤ × List ℕ)) × (on_get_class_metadata j s ≡ done tt t)
          × (t.sent ≡ s.sent ++ ((start_group ∷ map class_event cs) ++ (flush_group ∷ [])))
          × HaveTags cs
          × (map (λ c. c.1) cs ≡ map (λ o. sign_of j o s) (loaded_classes s))
    unfolding on_get_class_metadata
    on_get_class_metadata-HaveTags s bounded small =
        let begun = record (entered s) { sent = s.sent ++ (start_group ∷ []) } in
        let (t, cs, run, sent, tags, signs) =
          check_and_tag_classes-HaveTags (loaded_classes s) begun bounded small in
        (
          record t { env = (j.raw_monitor_exit t.env).1; sent = t.sent ++ (flush_group ∷ []) },
          cs,
          rw (
            ==-refl _ _ (laws.enter_ok s.env),
            ==-refl _ _ (laws.loaded_ok begun.env),
            run,
            ==-refl _ _ (laws.exit_ok t.env),
          ),
          ap (λ l. l ++ (flush_group ∷ [])) sent
              ∙ (append_assoc begun.sent (map class_event cs) (flush_group ∷ [])
                  ∙ append_assoc s.sent (start_group ∷ [])
                      (map class_event cs ++ (flush_group ∷ []))),
          tags,
          signs ∙ same_signs s begun (λ o. laws.sign_enter o s.env) (loaded_classes s),
        )
