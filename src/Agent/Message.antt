-- ===== src/Agent/Message.antt =====
-- The messages of Agent/src/c/JVMHeapScan.c: the buffer that is allocated for each and the text
-- that `sprintf` writes into it; the codes stand in Agent/src/header/JVMHeapScan.h.
pub mod Decode
pub mod Size
use jvmheap_scan.Base.{ℕ, ◌+◌, ◌*◌, Bool, true, false, List, [], ◌∷◌, ◌++◌, length}
use jvmheap_scan.Base.Int.{ℤ, pos}
use jvmheap_scan.Agent.Chars.{get_chars, decimal, to_long}

-- `enum messageCode`
pub data MessageCode : Type 0 where
  null_code class_tag object_tag deallocate_object heap_ref_info agent_exit : MessageCode

abbrev pub code_of : MessageCode → ℤ
code_of null_code = pos 0
code_of class_tag = pos 1
code_of object_tag = pos 2
code_of deallocate_object = pos 3
code_of heap_ref_info = pos 4
code_of agent_exit = pos 5

abbrev pub msg_delimiter : ℕ
msg_delimiter = b'|'

-- What is handed to `msgStore.includeMessage`: the text in the buffer, the bytes allocated for
-- the buffer, and whether the message is flushed at once.
pub record Message : Type 0 where
  pub text : List ℕ
  pub size : ℕ
  pub immediate : Bool

-- The parts of each buffer's size that do not depend on the values.
pub record Sizes : Type 0 where
  pub heap_ref_dtl_size : ℕ
  pub object_tag_size : ℕ
  pub free_tag_size : ℕ

unfoldable pub calculate_size : Sizes
unfolding get_chars
calculate_size = record {
  heap_ref_dtl_size = get_chars (code_of heap_ref_info) + 8 + 1;
  object_tag_size = get_chars (code_of object_tag) + 2 + 1;
  free_tag_size = get_chars (code_of deallocate_object) + 1 + 1;
}

-- `%c` of the delimiter between two fields.
infixr 66 ◌‖◌
abbrev pub ◌‖◌ : List ℕ → List ℕ → List ℕ
a ‖ b = a ++ (msg_delimiter ∷ b)

unfoldable pub store_object_tag : ℤ → ℤ → Bool → Message
store_object_tag object class flush = record {
  text = decimal (code_of object_tag) ‖ decimal (to_long object) ‖ decimal (to_long class);
  size = calculate_size.object_tag_size + get_chars object + get_chars class;
  immediate = flush;
}

-- The tag is passed to `%ld` with no cast: its low 32 bits are printed, as under the cast.
unfoldable pub store_class_tag_msg : ℤ → List ℕ → Bool → Message
store_class_tag_msg tag sign flush = record {
  text = decimal (code_of class_tag) ‖ sign ‖ decimal (to_long tag);
  size = get_chars (code_of class_tag) + (length sign + get_chars tag + 1 + 2) * 1;
  immediate = flush;
}

unfoldable pub on_object_free : ℤ → Message
on_object_free tag = record {
  text = decimal (code_of deallocate_object) ‖ decimal (to_long tag);
  size = get_chars tag + calculate_size.free_tag_size;
  immediate = true;
}

-- The values of one call of `followReferenceCallback`, after its tags have been set.
pub record HeapRef : Type 0 where
  pub kind : ℤ
  pub index : ℤ
  pub class : ℤ
  pub referrer_class : ℤ
  pub object : ℤ
  pub referrer : ℤ
  pub len : ℤ
  pub bytes : ℤ

unfoldable pub heap_ref_message : HeapRef → Message
heap_ref_message r = record {
  text =
      decimal (code_of heap_ref_info)
      ‖ decimal r.kind
      ‖ decimal r.index
      ‖ decimal (to_long r.class)
      ‖ decimal (to_long r.referrer_class)
      ‖ decimal (to_long r.object)
      ‖ decimal (to_long r.referrer)
      ‖ decimal r.len
      ‖ decimal (to_long r.bytes);
  size =
      calculate_size.heap_ref_dtl_size
      + get_chars r.kind
      + get_chars r.index
      + get_chars r.class
      + get_chars r.referrer_class
      + get_chars r.object
      + get_chars r.referrer
      + get_chars r.len
      + get_chars r.bytes;
  immediate = false;
}
