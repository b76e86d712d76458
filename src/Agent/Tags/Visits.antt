-- ===== src/Agent/Tags/Visits.antt =====
-- The messages of the references that `onFollowReference` of Agent/src/c/JVMHeapScan.c follows, and the
-- buffers that they are printed into.
use jvmheap_scan.Base.{
  ℕ, ◌+◌, ◌*◌, ◌≤◌, ◌<◌, ◌^◌, ◌≡◌, ◌≢◌, refl, ap, Bool, true, false, ◌&&◌, not, Option, none, some,
  List, [], ◌∷◌, ◌++◌, arith, if◌then◌else◌, length, length-append,
}
use jvmheap_scan.Base.Int.{ℤ, pos, Fits32}
use jvmheap_scan.Agent.Message.{store_object_tag, heap_ref_message}
use jvmheap_scan.Agent.Message.Size.{IsExact, store_object_tag-IsExact, heap_ref_message-IsExact}
use jvmheap_scan.Agent.Tags.{Event, include, start_group, flush_group, is_zero}
use jvmheap_scan.Agent.Tags.Callback.{
  Kinds, Visit, Visited, Referrer, none_given, itself, other, index_of, referrer_tag, tag_visited,
  tag_referrer, visit_message, follow_reference_callback,
}
use jvmheap_scan.Agent.Tags.Heap.{visit_all}

-- The index that is given has 32 bits.
abbrev pub IsIndex : Option ℤ → Type 0
IsIndex none = Unit
IsIndex (some i) = Fits32 i

-- All values of a visited reference have 32 bits.
pub record IsSmallVisit (v : Visit) : Type 0 where
  pub kind : Fits32 (pos v.kind)
  pub info : IsIndex v.info
  pub class : Fits32 v.class_tag
  pub referrer_class : Fits32 v.referrer_class_tag
  pub bytes : Fits32 v.size
  pub tag : Fits32 v.tag
  pub referrer : Fits32 (referrer_tag v.referrer v.tag)
  pub len : Fits32 v.len

abbrev pub AreSmallVisits : List Visit → Type 0
AreSmallVisits [] = Unit
AreSmallVisits (v ∷ vs) = IsSmallVisit v × AreSmallVisits vs

-- Only messages, none of which is sent at once and each of which fills its buffer exactly.
abbrev pub AreIncluded : List Event → Type 0
AreIncluded [] = Unit
AreIncluded (include m ∷ es) = ((m.immediate ≡ false) × IsExact m) × AreIncluded es
AreIncluded (_ ∷ es) = ⊥

AreIncluded-append : (es fs : List Event) → AreIncluded es → AreIncluded fs → AreIncluded (es ++ fs)
AreIncluded-append [] fs h k = k
AreIncluded-append (include m ∷ es) fs h k = (h.0, AreIncluded-append es fs h.1 k)
AreIncluded-append (start_group ∷ es) fs h k = elim h [ ]
AreIncluded-append (flush_group ∷ es) fs h k = elim h [ ]

object_tag-AreIncluded :
    (object class : ℤ)
    → Fits32 object
    → Fits32 class
    → AreIncluded (include (store_object_tag object class false) ∷ [])
unfolding store_object_tag
object_tag-AreIncluded object class h k =
    ((refl, store_object_tag-IsExact object class false h k), tt)

-- What a call has made so far of a visit: the tags have 32 bits, and `lastTag` has not grown by more than
-- `n`.
record IsSmallVisited (last n : ℕ) (w : Visited) : Type 0 where
  at_least : last ≤ w.last_tag
  at_most : w.last_tag ≤ last + n
  sent : AreIncluded w.sent
  tag : Fits32 w.tag
  referrer : Fits32 (referrer_tag w.referrer w.tag)

if_IsSmall :
    {last n : ℕ} (b : Bool) (v w : Visited)
    → IsSmallVisited last n v
    → IsSmallVisited last n w
    → IsSmallVisited last n (if b then v else w)
if_IsSmall true v w h k = h
if_IsSmall false v w h k = k

referrer_small :
    (r : Referrer) (t u : ℤ) → Fits32 u → Fits32 (referrer_tag r t) → Fits32 (referrer_tag r u)
referrer_small none_given t u h k = k
referrer_small itself t u h k = h
referrer_small (other x) t u h k = k

tag_visited-IsSmall :
    (last : ℕ) (v : Visit)
    → last + 2 < 2 ^ 31
    → IsSmallVisit v
    → IsSmallVisited last 1 (tag_visited last v)
unfolding tag_visited
tag_visited-IsSmall last v small k =
    let fits : Fits32 (pos last) = omega arith in
    if_IsSmall (is_zero v.tag && not (is_zero v.class_tag)) _ _
      (record {
        at_least = omega arith;
        at_most = omega arith;
        sent = object_tag-AreIncluded (pos last) v.class_tag fits k.class;
        tag = fits;
        referrer = referrer_small v.referrer v.tag (pos last) fits k.referrer;
      })
      (record {
        at_least = omega arith;
        at_most = omega arith;
        sent = tt;
        tag = k.tag;
        referrer = k.referrer;
      })

tag_referrer-IsSmall :
    (last : ℕ) (v : Visit) (w : Visited)
    → last + 2 < 2 ^ 31
    → IsSmallVisit v
    → IsSmallVisited last 1 w
    → IsSmallVisited last 2 (tag_referrer v w)
unfolding tag_referrer
tag_referrer-IsSmall last v w small k h =
    if_IsSmall (is_zero (referrer_tag w.referrer w.tag) && not (is_zero v.referrer_class_tag)) _ _
      (cases w.referrer) left
  where
    fits : Fits32 (pos w.last_tag)
    fits = let a = h.at_most in omega arith

    left : IsSmallVisited last 2 w
    left = record {
      at_least = h.at_least;
      at_most = let a = h.at_most in omega arith;
      sent = h.sent;
      tag = h.tag;
      referrer = h.referrer;
    }

    report : List Event
    report = include (store_object_tag (pos w.last_tag) v.referrer_class_tag false) ∷ []

    reported : AreIncluded (w.sent ++ report)
    reported =
        AreIncluded-append w.sent report h.sent
          (object_tag-AreIncluded (pos w.last_tag) v.referrer_class_tag fits k.referrer_class)

    cases :
        (r : Referrer)
        → IsSmallVisited last 2 (elim r [
          | none_given ↦ w
          | itself ↦ record w {
            last_tag = w.last_tag + 1;
            tag = pos w.last_tag;
            sent = w.sent ++ report;
          }
          | other t ↦ record w {
            last_tag = w.last_tag + 1;
            referrer = other (pos w.last_tag);
            sent = w.sent ++ report;
          }
        ])
    cases none_given = left
    cases itself = record {
      at_least = let a = h.at_least in omega arith;
      at_most = let a = h.at_most in omega arith;
      sent = reported;
      tag = fits;
      referrer = referrer_small w.referrer w.tag (pos w.last_tag) fits h.referrer;
    }
    cases (other t) = record {
      at_least = let a = h.at_least in omega arith;
      at_most = let a = h.at_most in omega arith;
      sent = reported;
      tag = h.tag;
      referrer = fits;
    }

index_of-Fits32 : (k : Kinds) (kind : ℕ) (i : Option ℤ) → IsIndex i → Fits32 (index_of k kind i)
unfolding index_of
index_of-Fits32 k kind none h = omega arith
index_of-Fits32 k kind (some i) h = ground arith

module _ (k : Kinds) where
  follow_reference_callback-IsSmall :
      (last : ℕ) (v : Visit)
      → last + 2 < 2 ^ 31
      → IsSmallVisit v
      → ((follow_reference_callback k last v).last_tag ≤ last + 2)
        × AreIncluded (follow_reference_callback k last v).sent
  unfolding follow_reference_callback visit_message heap_ref_message
  follow_reference_callback-IsSmall last v small h =
      let w = tag_referrer v (tag_visited last v) in
      let g =
        tag_referrer-IsSmall last v (tag_visited last v) small h
          (tag_visited-IsSmall last v small h) in
      (
        g.at_most,
        AreIncluded-append w.sent (include (visit_message k v w) ∷ []) g.sent (
          (
            refl,
            heap_ref_message-IsExact _
                (record {
                  kind = h.kind;
                  index = index_of-Fits32 k v.kind v.info h.info;
                  class = h.class;
                  referrer_class = h.referrer_class;
                  object = g.tag;
                  referrer = g.referrer;
                  len = h.len;
                })
                h.bytes,
          ),
          tt,
        ),
      )

  pub visit_all-AreIncluded :
      (last : ℕ) (vs : List Visit)
      → last + 2 * length vs < 2 ^ 31
      → AreSmallVisits vs
      → AreIncluded (visit_all (follow_reference_callback k) last vs).1
  visit_all-AreIncluded last [] small h = tt
  visit_all-AreIncluded last (v ∷ vs) small h =
      let w = follow_reference_callback k last v in
      let (grown, sent) = follow_reference_callback-IsSmall last v (omega arith) h.0 in
      AreIncluded-append w.sent (visit_all (follow_reference_callback k) w.last_tag vs).1 sent
        (visit_all-AreIncluded w.last_tag vs (omega arith) h.1)

  pub visit_all-some :
      (last : ℕ) (vs : List Visit)
      → vs ≢ []
      → (visit_all (follow_reference_callback k) last vs).1 ≢ []
  unfolding follow_reference_callback
  visit_all-some last [] ne e = ne refl
  visit_all-some last (v ∷ vs) ne e =
      let w = tag_referrer v (tag_visited last v) in
      let c = follow_reference_callback k last v in
      omega (
        arith,
        ap length e,
        length-append c.sent (visit_all (follow_reference_callback k) c.last_tag vs).1,
        length-append w.sent (include (visit_message k v w) ∷ []),
      )
