-- ===== src/Agent/Message/Size.antt =====
-- The buffers of Agent/src/c/JVMHeapScan.c against the texts that are written into them.
use jvmheap_scan.Base.{
  ℕ, suc, ◌+◌, ◌-◌, ◌^◌, ◌≤◌, ◌≡◌, ◌≢◌, Bool, List, ◌∷◌, arith, length, length-append,
}
use jvmheap_scan.Base.Int.{ℤ, pos, negsuc, Fits32}
use jvmheap_scan.Agent.Chars.{
  get_chars, decimal, to_long, get_chars-decimal, to_long-Fits32, get_chars_short,
}
use jvmheap_scan.Agent.Message.{
  Message, HeapRef, msg_delimiter, ◌‖◌, calculate_size, store_object_tag, store_class_tag_msg,
  on_object_free, heap_ref_message,
}

-- The buffer holds the text and its NUL, and not a byte more.
abbrev pub IsExact : Message → Type 0
IsExact m = m.size ≡ length m.text + 1

Fits32-ne : (v : ℤ) → Fits32 v → v ≢ negsuc (2 ^ 63 - 1)
Fits32-ne (pos n) h e = cc
Fits32-ne (negsuc n) h e = ground arith

-- A number of 32 bits takes as many characters as `getChars` counts, with or without the cast.
length-decimal : (v : ℤ) → Fits32 v → length (decimal v) ≡ get_chars v
length-decimal v h = omega (arith, get_chars-decimal v (Fits32-ne v h))

length-to_long : (v : ℤ) → Fits32 v → length (decimal (to_long v)) ≡ get_chars v
length-to_long v h = rw (to_long-Fits32 v h) (length-decimal v h)

length-‖ : (a b : List ℕ) → length (a ‖ b) ≡ length a + suc (length b)
length-‖ a b = length-append a (msg_delimiter ∷ b)

-- An object's message fills its buffer exactly, if both tags have 32 bits.
pub store_object_tag-IsExact :
    (object class : ℤ) (flush : Bool)
    → Fits32 object
    → Fits32 class
    → IsExact (store_object_tag object class flush)
unfolding store_object_tag calculate_size
store_object_tag-IsExact object class flush h k =
    omega (arith, length-‖, length-decimal (pos 2), length-to_long object h, length-to_long class k)

-- A class's message fills its buffer exactly.
pub store_class_tag_msg-IsExact :
    (tag : ℤ) (sign : List ℕ) (flush : Bool)
    → Fits32 tag
    → IsExact (store_class_tag_msg tag sign flush)
unfolding store_class_tag_msg
store_class_tag_msg-IsExact tag sign flush h =
    omega (arith, length-‖, length-decimal (pos 1), length-to_long tag h)

-- The message of a freed object fills its buffer exactly.
on_object_free-IsExact : (tag : ℤ) → Fits32 tag → IsExact (on_object_free tag)
unfolding on_object_free calculate_size
on_object_free-IsExact tag h = omega (arith, length-‖, length-decimal (pos 3), length-to_long tag h)

-- All values of a reference fit 32 bits, but perhaps the size of the object.
pub record IsSmall (r : HeapRef) : Type 0 where
  pub kind : Fits32 r.kind
  pub index : Fits32 r.index
  pub class : Fits32 r.class
  pub referrer_class : Fits32 r.referrer_class
  pub object : Fits32 r.object
  pub referrer : Fits32 r.referrer
  pub len : Fits32 r.len

module _ (r : HeapRef) (small : IsSmall r) where
  heap_ref_message-length :
      length (heap_ref_message r).text + get_chars r.bytes + 1
      ≡ (heap_ref_message r).size + length (decimal (to_long r.bytes))
  unfolding heap_ref_message calculate_size
  heap_ref_message-length = omega (
    arith,
    length-‖,
    length-decimal (pos 4),
    length-decimal r.kind small.kind,
    length-decimal r.index small.index,
    length-to_long r.class small.class,
    length-to_long r.referrer_class small.referrer_class,
    length-to_long r.object small.object,
    length-to_long r.referrer small.referrer,
    length-decimal r.len small.len,
  )

  -- The message of a reference fills its buffer exactly, if the object's size fits 32 bits too.
  pub heap_ref_message-IsExact : Fits32 r.bytes → IsExact (heap_ref_message r)
  heap_ref_message-IsExact h = omega (arith, heap_ref_message-length, length-to_long r.bytes h)

  -- An object of 2 GB up to 2 ^ 32 - 10 ^ 9 bytes makes `sprintf` write one byte past the buffer.
  pub heap_ref_message-overflow :
      (n : ℕ)
      → r.bytes ≡ pos n
      → 2 ^ 31 ≤ n
      → n ≤ 2 ^ 32 - 10 ^ 9
      → length (heap_ref_message r).text + 1 ≡ (heap_ref_message r).size + 1
  heap_ref_message-overflow n e lo hi = omega (arith, heap_ref_message-length, short)
    where
      short : length (decimal (to_long r.bytes)) ≡ get_chars r.bytes + 1
      short = rw e (get_chars_short n lo hi)
