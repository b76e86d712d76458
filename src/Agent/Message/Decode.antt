-- ===== src/Agent/Message/Decode.antt =====
-- The messages of Agent/src/c/JVMHeapScan.c as a client reads them: cut at the delimiter, each
-- number read back.
use jvmheap_scan.Base.{
  ℕ, zero, suc, ◌+◌, ◌-◌, ◌/◌, ◌%◌, ◌≤◌, ◌<◌, ◌≡◌, ◌⊎◌, refl, ap, ◌∙◌, Bool, false, ◌||◌, List, [],
  ◌∷◌, map, arith, ◌==◌, if◌then◌else◌, inl,
}
use jvmheap_scan.Base.Int.{ℤ, pos, negsuc, Fits32}
use jvmheap_scan.Agent.Chars.{
  decimal, to_long, digits_loop, read_digits, read-digits_loop, to_long-Fits32,
}
use jvmheap_scan.Agent.Message.Size.{IsSmall}
use jvmheap_scan.Agent.Message.{
  HeapRef, msg_delimiter, ◌‖◌, store_object_tag, store_class_tag_msg, on_object_free,
  heap_ref_message,
}

-- The fields of a message: what stands before the first delimiter, and the fields behind it.
glue : ℕ → List (List ℕ) → List (List ℕ)
glue c [] = (c ∷ []) ∷ []
glue c (f ∷ fs) = (c ∷ f) ∷ fs

unfoldable pub fields : List ℕ → List (List ℕ)
unfolding glue
fields [] = [] ∷ []
fields (c ∷ cs) = if c == msg_delimiter then [] ∷ fields cs else glue c (fields cs)

-- The number that a field stands for.
unfoldable pub read_decimal : List ℕ → ℤ
unfolding read_digits
read_decimal [] = pos 0
read_decimal (c ∷ cs) =
    if c == b'-' then negsuc (read_digits 0 cs - 1) else pos (read_digits 0 (c ∷ cs))

unfoldable pub has_char : ℕ → List ℕ → Bool
has_char d [] = false
has_char d (c ∷ cs) = (c == d) || has_char d cs

-- The digits hold no character that is no digit.
has_char-digits_loop :
    (d f value : ℕ) (rest : List ℕ)
    → (d < 48) ⊎ (57 < d)
    → value ≤ f
    → has_char d (digits_loop f value rest) ≡ has_char d rest
unfolding digits_loop has_char
has_char-digits_loop d zero value rest out h = ground arith
has_char-digits_loop d (suc f) value rest out h =
    ground (arith, has_char-digits_loop d f (value / 10) ((value % 10 + 48) ∷ rest))

has_char-decimal : (v : ℤ) → has_char msg_delimiter (decimal v) ≡ false
unfolding decimal has_char
has_char-decimal (pos n) = ground (arith, has_char-digits_loop msg_delimiter n n [])
has_char-decimal (negsuc n) = ground (arith, has_char-digits_loop msg_delimiter (n + 1) (n + 1) [])

fields-single : (a : List ℕ) → has_char msg_delimiter a ≡ false → fields a ≡ a ∷ []
unfolding fields has_char
fields-single [] h = refl
fields-single (c ∷ cs) h = ground (arith, fields-single cs)

fields-‖ : (a b : List ℕ) → has_char msg_delimiter a ≡ false → fields (a ‖ b) ≡ a ∷ fields b
unfolding fields has_char
fields-‖ [] b h = refl
fields-‖ (c ∷ cs) b h = ground (arith, fields-‖ cs b)

read-minus : (cs : List ℕ) → has_char b'-' cs ≡ false → read_decimal cs ≡ pos (read_digits 0 cs)
unfolding read_decimal has_char read_digits
read-minus [] h = refl
read-minus (c ∷ cs) h = ground arith

-- Reading a printed number gives it back.
read_decimal-decimal : (v : ℤ) → read_decimal (decimal v) ≡ v
unfolding decimal has_char read_digits read_decimal
read_decimal-decimal (pos n) =
    read-minus (digits_loop n n [])
      (has_char-digits_loop b'-' n n [] (inl (omega arith)) (omega arith))
    ∙ ap pos (read-digits_loop n n [] (omega arith))
read_decimal-decimal (negsuc n) =
    ap (λ (k : ℕ). negsuc (k - 1)) (read-digits_loop (n + 1) (n + 1) [] (omega arith))
    ∙ ap negsuc (omega arith)

read-to_long : (v : ℤ) → Fits32 v → read_decimal (decimal (to_long v)) ≡ v
read-to_long v h = rw (to_long-Fits32 v h) (read_decimal-decimal v)

ruleset reading = (fields-‖, fields-single, has_char-decimal, read_decimal-decimal)

-- An object's message gives back the code and both tags, if the tags have 32 bits.
store_object_tag-decode :
    (object class : ℤ) (flush : Bool)
    → Fits32 object
    → Fits32 class
    → map read_decimal (fields (store_object_tag object class flush).text)
      ≡ pos 2 ∷ object ∷ class ∷ []
unfolding store_object_tag
store_object_tag-decode object class flush h k =
    simp (reading, to_long-Fits32 object h, to_long-Fits32 class k)

-- A class's message gives back the code, the signature and the tag, if the tag has 32 bits and the
-- signature has no delimiter.
store_class_tag_msg-decode :
    (tag : ℤ) (sign : List ℕ) (flush : Bool)
    → Fits32 tag
    → has_char msg_delimiter sign ≡ false
    → fields (store_class_tag_msg tag sign flush).text ≡ decimal (pos 1) ∷ sign ∷ decimal tag ∷ []
unfolding store_class_tag_msg
store_class_tag_msg-decode tag sign flush h k =
    simp (fields-‖, fields-single, has_char-decimal, k, to_long-Fits32 tag h)

-- The message of a freed object gives back the code and the tag.
on_object_free-decode :
    (tag : ℤ) → Fits32 tag → map read_decimal (fields (on_object_free tag).text) ≡ pos 3 ∷ tag ∷ []
unfolding on_object_free
on_object_free-decode tag h = simp (reading, to_long-Fits32 tag h)

-- The message of a reference gives back its eight values in order, if all have 32 bits.
pub heap_ref_message-decode :
    (r : HeapRef)
    → IsSmall r
    → Fits32 r.bytes
    → map read_decimal (fields (heap_ref_message r).text)
      ≡ pos 4
        ∷ r.kind
        ∷ r.index
        ∷ r.class
        ∷ r.referrer_class
        ∷ r.object
        ∷ r.referrer
        ∷ r.len
        ∷ r.bytes
        ∷ []
unfolding heap_ref_message
heap_ref_message-decode r small h = simp (
  reading,
  to_long-Fits32 r.class small.class,
  to_long-Fits32 r.referrer_class small.referrer_class,
  to_long-Fits32 r.object small.object,
  to_long-Fits32 r.referrer small.referrer,
  to_long-Fits32 r.bytes h,
)
