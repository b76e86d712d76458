-- ===== src/Agent/Tags/Heap.antt =====
-- `onFollowReference`, `onStartGC` and `referenceFollowerInit` of Agent/src/c/JVMHeapScan.c.
use jvmheap_scan.Base.{
  ℕ, ◌+◌, ◌≡◌, ap, ◌∙◌, false, Option, some, List, [], ◌∷◌, ◌++◌, append_assoc, arith, length,
  length-append,
}
use jvmheap_scan.Agent.Tags.{
  Jvmti, Agent, Event, Act, done, start_group, flush_group, send, on_check_jvmti_error, and_then,
  on_get_class_metadata,
}
use jvmheap_scan.Agent.Tags.Laws.{Laws}
use jvmheap_scan.Agent.Tags.Objects.{==-refl}
use jvmheap_scan.Agent.Tags.Metadata.{Reports, on_get_class_metadata-Reports}
use jvmheap_scan.Agent.Tags.Callback.{
  Kinds, Visit, Visited, follow_reference_callback, follow_reference_callback-count,
}

-- `jvmtiHeapCallbacks.heap_reference_callback`: what a call makes of `lastTag` and a reference.
abbrev pub Callback : Type 0
Callback = ℕ → Visit → Visited

-- The functions of the JVM Tool Interface that walk and collect the heap, with their codes. A walk
-- calls the callback, so that it changes what the callback changes.
pub record Walker (j : Jvmti) : Type 0 where
  pub follow_references : Option Callback → Agent j → ℕ × Agent j
  pub force_garbage_collection : Agent j → ℕ × Agent j

-- The callback at one reference after the other: `lastTag` and the messages.
abbrev pub visit_all : Callback → ℕ → List Visit → ℕ × List Event
visit_all callback last [] = (last, [])
visit_all callback last (v ∷ vs) =
    let w = callback last v in
    let rest = visit_all callback w.last_tag vs in (rest.0, w.sent ++ rest.1)

module _ (j : Jvmti) (walker : Walker j) where
  infixl 5 ◌>>◌
  abbrev ◌>>◌ : Act j (Unit {0}) → Act j (Unit {0}) → Act j (Unit {0})
  m >> k = λ s. and_then j (m s) (λ _. k)

  unfoldable pub on_follow_reference : Option Callback → Act j (Unit {0})
  on_follow_reference callbacks = do
    send j start_group
    (λ s. let (code, t) = walker.follow_references callbacks s in on_check_jvmti_error j code t)
    send j flush_group

  unfoldable pub on_start_gc : Act j (Unit {0})
  on_start_gc s = let (code, t) = walker.force_garbage_collection s in on_check_jvmti_error j code t

  -- `start` is `opInterface.start`; the callbacks are set before.
  unfoldable pub reference_follower_init : Kinds → Act j (Unit {0}) → Act j (Unit {0})
  unfolding on_follow_reference
  reference_follower_init k start = do
    on_get_class_metadata j
    on_follow_reference (some (follow_reference_callback k))
    start

  -- What the documentation says of a walk: it succeeds, and calls the callback once for each
  -- reference that it follows.
  pub record Walks (k : Kinds) : Type 0 where
    pub visits : Agent j → List Visit
    pub walks :
        (s : Agent j)
        → (walker.follow_references (some (follow_reference_callback k)) s).0 ≡ j.error_none
    pub tags :
        (s : Agent j)
        → (walker.follow_references (some (follow_reference_callback k)) s).1.last_tag
          ≡ (visit_all (follow_reference_callback k) s.last_tag (visits s)).0
    pub messages :
        (s : Agent j)
        → (walker.follow_references (some (follow_reference_callback k)) s).1.sent
          ≡ s.sent ++ (visit_all (follow_reference_callback k) s.last_tag (visits s)).1

visit_all-count :
    (k : Kinds) (last : ℕ) (vs : List Visit)
    → length (visit_all (follow_reference_callback k) last vs).1 + last
      ≡ (visit_all (follow_reference_callback k) last vs).0 + length vs
visit_all-count k last [] = omega arith
visit_all-count k last (v ∷ vs) =
    let w = follow_reference_callback k last v in
    omega (
      arith,
      follow_reference_callback-count k last v,
      visit_all-count k w.last_tag vs,
      length-append w.sent (visit_all (follow_reference_callback k) w.last_tag vs).1,
    )

module _ (j : Jvmti) (walker : Walker j) (k : Kinds) (walks : Walks j walker k) where
  -- The references that `onFollowReference` follows, and what the callback makes of them.
  abbrev pub followed : Agent j → List Visit
  followed s = walks.visits (record s { sent = s.sent ++ (start_group ∷ []) })

  abbrev pub visited : Agent j → ℕ × List Event
  visited s = visit_all (follow_reference_callback k) s.last_tag (followed s)

  pub on_follow_reference-visits :
      (s : Agent j)
      → (t : Agent j) × (on_follow_reference j walker (some (follow_reference_callback k)) s
          ≡ done tt t)
        × (t.sent ≡ s.sent ++ ((start_group ∷ (visited s).1) ++ (flush_group ∷ [])))
        × (t.last_tag ≡ (visited s).0)
  unfolding on_follow_reference
  on_follow_reference-visits s =
      let begun = record s { sent = s.sent ++ (start_group ∷ []) } in
      let t = (walker.follow_references (some (follow_reference_callback k)) begun).1 in
      let es = (visited s).1 in
      (
        record t { sent = t.sent ++ (flush_group ∷ []) },
        rw (==-refl _ _ (walks.walks begun)),
        ap (λ l. l ++ (flush_group ∷ [])) (walks.messages begun)
            ∙ append_assoc begun.sent es (flush_group ∷ [])
            ∙ append_assoc s.sent (start_group ∷ []) (es ++ (flush_group ∷ [])),
        walks.tags begun,
      )

  -- `onFollowReference` hands the store one group: a message for each reference that is followed and
  -- one for each tag that is given on the way.
  on_follow_reference-group :
      (s : Agent j)
      → (t : Agent j) × (es : List Event) × (references : ℕ) × (on_follow_reference j walker
            (some (follow_reference_callback k))
            s
          ≡ done tt t)
        × (t.sent ≡ s.sent ++ ((start_group ∷ es) ++ (flush_group ∷ [])))
        × (length es + s.last_tag ≡ t.last_tag + references)
  on_follow_reference-group s =
      let (t, run, sent, tags) = on_follow_reference-visits s in
      (
        t,
        (visited s).1,
        length (followed s),
        run,
        sent,
        omega (arith, tags, visit_all-count k s.last_tag (followed s)),
      )

  -- If the calls of the JVM Tool Interface succeed, `referenceFollowerInit` hands the store two groups
  -- before the socket is started: one message for each loaded class in order, and then one for each
  -- reference that is followed and each tag that is given on the way.
  reference_follower_init-groups :
      (laws : Laws j) (start : Act j (Unit {0})) (s : Agent j)
      → (u t : Agent j) × (classes es : List Event) × (references : ℕ) × (reference_follower_init j
            walker k start s
          ≡ start t)
        × Reports j laws false s (j.get_loaded_classes (j.raw_monitor_enter s.env).1).1 classes
        × (t.sent
            ≡ s.sent
              ++ (((start_group ∷ classes) ++ (flush_group ∷ []))
                  ++ ((start_group ∷ es) ++ (flush_group ∷ []))))
        × (length es + u.last_tag ≡ t.last_tag + references)
  unfolding reference_follower_init
  reference_follower_init-groups laws start s =
      let (u, classes, run, sent, reports) = on_get_class_metadata-Reports j laws s in
      let (t, es, references, run', sent', count) = on_follow_reference-group u in
      (
        u,
        t,
        classes,
        es,
        references,
        rw (run, run'),
        reports,
        sent'
            ∙ ap (λ l. l ++ ((start_group ∷ es) ++ (flush_group ∷ []))) sent
            ∙ append_assoc s.sent _ _,
        count,
      )
