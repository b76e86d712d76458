-- ===== src/Agent/Tags/Report.antt =====
-- What `GetObjectTag` of Agent/src/c/JVMHeapScan.c reports of a new object.
use jvmheap_scan.Base.{
  ◌≡◌, ◌≢◌, refl, sym, Bool, true, false, List, [], ◌∷◌, ◌++◌, append_assoc, append-nil,
}
use jvmheap_scan.Base.Int.{ℤ}
use jvmheap_scan.Agent.Message.{store_object_tag, store_class_tag_msg}
use jvmheap_scan.Agent.Tags.{
  Jvmti, Agent, when, send, done, Event, include, is_zero, get_object_tag, store_class_tag,
}
use jvmheap_scan.Agent.Tags.Laws.{Laws, IsUnique, tag_of, sign_of}
use jvmheap_scan.Agent.Tags.Objects.{Tagged, set_and_get_tag-Tagged, ==-refl}

module _ (j : Jvmti) (laws : Laws j) where
  pub store_class_tag-done :
      (class : j.Object) (tag : ℤ) (flush : Bool) (s : Agent j)
      → store_class_tag j class tag flush s
        ≡ done tt (record s {
          sent = s.sent ++ (include (store_class_tag_msg tag (sign_of j class s) flush) ∷ []);
        })
  unfolding store_class_tag
  store_class_tag-done class tag flush s = rw (==-refl _ _ (laws.sign_ok class s.env))

  abbrev pub events_if : Bool → Event → List Event
  events_if true e = e ∷ []
  events_if false e = []

  -- A class is reported when it gets its tag, and so is an object.
  abbrev pub class_report : j.Object → Bool → Agent j → Agent j → List Event
  class_report class flush s t =
      events_if (is_zero (tag_of j class s))
        (include (store_class_tag_msg (tag_of j class t) (sign_of j class s) flush))

  abbrev pub object_report : j.Object → j.Object → Bool → Agent j → Agent j → List Event
  object_report class o flush s t =
      events_if (is_zero (tag_of j o s))
        (include (store_object_tag (tag_of j o t) (tag_of j class t) flush))

  abbrev with_sent : Agent j → List Event → Agent j
  with_sent s es = record s { sent = s.sent ++ es }

  IsUnique-with_sent : (s : Agent j) (es : List Event) → IsUnique j s → IsUnique j (with_sent s es)
  IsUnique-with_sent s es u = record {
    number = u.number;
    is = u.is;
    bound = u.bound;
    distinct = u.distinct;
  }

  report_class :
      (class : j.Object) (flush b : Bool) (tag : ℤ) (t : Agent j)
      → when j b (store_class_tag j class tag flush) t
        ≡ done tt (
            with_sent t (events_if b (include (store_class_tag_msg tag (sign_of j class t) flush))))
  report_class class flush true tag t = store_class_tag-done class tag flush t
  report_class class flush false tag t = rw append-nil

  report_object :
      (b : Bool) (e : Event) (t : Agent j)
      → when j b (send j e) t ≡ done tt (with_sent t (events_if b e))
  report_object true e t = refl
  report_object false e t = rw append-nil

  -- Where every tag is a number of at most `lastTag`, no two objects share one and the class is not the
  -- object, `GetObjectTag` succeeds: class and object have a tag afterwards, still every tag is at most
  -- `lastTag` and no two objects share one, and exactly what had no tag before has been reported, the
  -- class first.
  pub get_object_tag-report :
      (class o : j.Object) (flush : Bool) (s : Agent j)
      → class ≢ o
      → IsUnique j s
      → (t : Agent j) × (get_object_tag j class o flush s ≡ done tt t)
        × IsUnique j t
        × (is_zero (tag_of j class t) ≡ false)
        × (is_zero (tag_of j o t) ≡ false)
        × (t.sent ≡ s.sent ++ (class_report class flush s t ++ object_report class o flush s t))
  unfolding get_object_tag
  get_object_tag-report class o flush s ne u =
      let (ct, cb, t1, run1, c) = set_and_get_tag-Tagged j laws class s u in
      let e = include (store_class_tag_msg ct (sign_of j class t1) flush) in
      let t2 = with_sent t1 (events_if cb e) in
      let (ot, ob, t3, run2, d) =
        set_and_get_tag-Tagged j laws o t2 (IsUnique-with_sent t1 (events_if cb e) c.unique) in
      let f = include (store_object_tag ot ct flush) in
      (
        with_sent t3 (events_if ob f),
        rw (run1, report_class class flush cb ct t1, run2, report_object ob f t3),
        IsUnique-with_sent t3 (events_if ob f) d.unique,
        rw (d.others class ne, c.got) c.tagged_now,
        rw d.got d.tagged_now,
        rw (
          class_part (events_if cb e) (events_if ob f) c d,
          object_part (events_if cb e) (events_if ob f) c d,
          d.sent,
          c.sent,
          append_assoc,
        ),
      )
    where
      class_part :
          {ct ot : ℤ} {cb ob : Bool} {t1 t3 : Agent j} (es fs : List Event)
          → Tagged j laws class s ct cb t1
          → Tagged j laws o (with_sent t1 es) ot ob t3
          → class_report class flush s (with_sent t3 fs)
            ≡ events_if cb (include (store_class_tag_msg ct (sign_of j class t1) flush))
      class_part es fs c d = rw (d.others class ne, c.got, c.new, c.signs class)

      object_part :
          {ct ot : ℤ} {cb ob : Bool} {t1 t3 : Agent j} (es fs : List Event)
          → Tagged j laws class s ct cb t1
          → Tagged j laws o (with_sent t1 es) ot ob t3
          → object_report class o flush s (with_sent t3 fs)
            ≡ events_if ob (include (store_object_tag ot ct flush))
      object_part es fs c d =
          rw (d.others class ne, c.got, d.got, d.new, c.others o (λ e. ne (sym e)))
