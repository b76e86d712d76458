-- ===== src/Agent/Tags/Callback.antt =====
-- `followReferenceCallback` of Agent/src/c/JVMHeapScan.c.
use Prim.Native.Nat.{bit_or}
use jvmheap_scan.Base.{
  ℕ, ◌+◌, ◌≡◌, ◌≢◌, ◌⊎◌, false, ◌&&◌, Option, none, some, List, [], ◌∷◌, ◌++◌, arith, not, ◌==◌,
  if◌then◌else◌, length,
}
use jvmheap_scan.Base.Int.{ℤ, pos, negsuc}
use jvmheap_scan.Agent.Message.{Message, store_object_tag, heap_ref_message}
use jvmheap_scan.Agent.Tags.{Event, include, is_zero}

-- The values of `jvmtiHeapReferenceKind` that the callback names.
pub record Kinds : Type 0 where
  pub array_element : ℕ
  pub field : ℕ
  pub static_field : ℕ
  pub constant_pool : ℕ

-- `referrer_tag_ptr`: null, the pointer to the object's own tag, or a pointer to another tag.
pub data Referrer : Type 0 where
  none_given : Referrer
  itself : Referrer
  other : ℤ → Referrer

-- The arguments of one call. `info` is the index that `reference_info` holds, if that is not null.
pub record Visit : Type 0 where
  pub kind : ℕ
  pub info : Option ℤ
  pub class_tag : ℤ
  pub referrer_class_tag : ℤ
  pub size : ℤ
  pub tag : ℤ
  pub referrer : Referrer
  pub len : ℤ

-- What a call leaves: `lastTag`, the tags behind both pointers, and the messages.
pub record Visited : Type 0 where
  pub last_tag : ℕ
  pub tag : ℤ
  pub referrer : Referrer
  pub sent : List Event

-- The `switch`: one of its cases is the bitwise "or" of two kinds.
unfoldable pub index_of : Kinds → ℕ → Option ℤ → ℤ
index_of k kind none = negsuc 0
index_of k kind (some i) =
    if kind == k.array_element
    then i
    else if kind == bit_or k.field k.static_field
    then i
    else if kind == k.constant_pool
    then i
    else negsuc 0

-- `*referrer_tag_ptr`, 0 for a null pointer; `tag` is what the object's own pointer leads to.
abbrev pub referrer_tag : Referrer → ℤ → ℤ
referrer_tag none_given tag = pos 0
referrer_tag itself tag = tag
referrer_tag (other t) tag = t

-- The first `if`: a tag for the object.
unfoldable pub tag_visited : ℕ → Visit → Visited
tag_visited last v =
    if is_zero v.tag && not (is_zero v.class_tag)
    then record {
      last_tag = last + 1;
      tag = pos last;
      referrer = v.referrer;
      sent = include (store_object_tag (pos last) v.class_tag false) ∷ [];
    }
    else record { last_tag = last; tag = v.tag; referrer = v.referrer; sent = [] }

-- The second `if`: a tag for the referrer, where there is one.
unfoldable pub tag_referrer : Visit → Visited → Visited
tag_referrer v w =
    let report = include (store_object_tag (pos w.last_tag) v.referrer_class_tag false) ∷ [] in
    if is_zero (referrer_tag w.referrer w.tag) && not (is_zero v.referrer_class_tag)
    then elim w.referrer [
      | none_given ↦ w
      | itself ↦ record w {
        last_tag = w.last_tag + 1;
        tag = pos w.last_tag;
        sent = w.sent ++ report;
      }
      | other t ↦ record w {
        last_tag = w.last_tag + 1;
        referrer = other (pos w.last_tag);
        sent = w.sent ++ report;
      }
    ]
    else w

-- The message of the reference itself.
unfoldable pub visit_message : Kinds → Visit → Visited → Message
unfolding index_of
visit_message k v w = heap_ref_message (record {
  kind = pos v.kind;
  index = index_of k v.kind v.info;
  class = v.class_tag;
  referrer_class = v.referrer_class_tag;
  object = w.tag;
  referrer = referrer_tag w.referrer w.tag;
  len = v.len;
  bytes = v.size;
})

-- The whole call; it always goes on with the visit.
unfoldable pub follow_reference_callback : Kinds → ℕ → Visit → Visited
unfolding tag_visited tag_referrer visit_message
follow_reference_callback k last v =
    let w = tag_referrer v (tag_visited last v) in
    record w { sent = w.sent ++ (include (visit_message k v w) ∷ []) }

-- A field and a static field never reach their case, so their index is reported as -1. The kinds
-- are told apart from each other and from the bitwise "or" of these two.
index_of-field :
    (k : Kinds) (kind : ℕ) (i : ℤ)
    → (kind ≡ k.field) ⊎ (kind ≡ k.static_field)
    → kind ≢ k.array_element
    → kind ≢ k.constant_pool
    → kind ≢ bit_or k.field k.static_field
    → index_of k kind (some i) ≡ negsuc 0
unfolding index_of
index_of-field k kind i which ne ne' ne'' = ground arith

-- If `lastTag` is positive, both classes have a tag and a referrer is given, then object and referrer
-- have a tag after the call.
follow_reference_callback-tags :
    (k : Kinds) (last : ℕ) (v : Visit)
    → last ≢ 0
    → is_zero v.class_tag ≡ false
    → is_zero v.referrer_class_tag ≡ false
    → v.referrer ≢ none_given
    → (is_zero (follow_reference_callback k last v).tag ≡ false)
      × (is_zero (
            referrer_tag
              (follow_reference_callback k last v).referrer
              (follow_reference_callback k last v).tag)
          ≡ false)
unfolding follow_reference_callback
follow_reference_callback-tags k last v positive class referrer_class given = ground arith

-- One message is sent for each tag that the call has given, and one for the reference.
pub follow_reference_callback-count :
    (k : Kinds) (last : ℕ) (v : Visit)
    → length (follow_reference_callback k last v).sent + last
      ≡ (follow_reference_callback k last v).last_tag + 1
unfolding follow_reference_callback
follow_reference_callback-count k last v = ground arith
