-- ===== src/Agent/Examples.antt =====
-- The theorems on Agent/src/c/JVMHeapScan.c at concrete values.
use jvmheap_scan.Base.{ℕ, ◌+◌, ◌^◌, ◌≡◌, refl, codes, some, [], ◌∷◌, map, arith, length}
use jvmheap_scan.Base.Int.{pos, negsuc}
use jvmheap_scan.Agent.ErrorTexts.{
  Prints, has_nul, create_string, length-create_string, jvmti_error_message, socket_error_message,
  no_file_message, error_texts-Prints,
}
use jvmheap_scan.Agent.Chars.{get_chars, decimal, digits_loop, get_chars-decimal}
use jvmheap_scan.Agent.Message.{HeapRef, heap_ref_message}
use jvmheap_scan.Agent.Message.Size.{
  IsExact, IsSmall, heap_ref_message-IsExact, heap_ref_message-overflow,
}
use jvmheap_scan.Agent.Message.Decode.{fields, read_decimal, heap_ref_message-decode}

get_chars-decimal_example : get_chars (negsuc 41) ≡ length (decimal (negsuc 41))
get_chars-decimal_example = get_chars-decimal (negsuc 41) (λ e. ground (arith, e))

abbrev reference : ℕ → HeapRef
reference n = record {
  kind = pos 3;
  index = pos 0;
  class = pos 4;
  referrer_class = pos 5;
  object = pos 6;
  referrer = pos 7;
  len = negsuc 0;
  bytes = pos n;
}

reference-IsSmall : (n : ℕ) → IsSmall (reference n)
reference-IsSmall n = omega arith

heap_ref_message-IsExact_example : IsExact (heap_ref_message (reference 24))
heap_ref_message-IsExact_example =
    heap_ref_message-IsExact (reference 24) (reference-IsSmall 24) (omega arith)

heap_ref_message-overflow_example :
    length (heap_ref_message (reference (2 ^ 31))).text + 1
    ≡ (heap_ref_message (reference (2 ^ 31))).size + 1
heap_ref_message-overflow_example =
    heap_ref_message-overflow (reference (2 ^ 31)) (reference-IsSmall (2 ^ 31)) (2 ^ 31) refl
      (omega arith) (omega arith)

heap_ref_message-decode_example :
    map read_decimal (fields (heap_ref_message (reference 24)).text)
    ≡ pos 4 ∷ pos 3 ∷ pos 0 ∷ pos 4 ∷ pos 5 ∷ pos 6 ∷ pos 7 ∷ negsuc 0 ∷ pos 24 ∷ []
heap_ref_message-decode_example =
    heap_ref_message-decode (reference 24) (reference-IsSmall 24) (omega arith)

-- An error of the virtual machine whose name is E, and the error 10048 of Winsock.
error_texts-Prints_example :
    Prints
      (jvmti_error_message (codes "'X'") (pos 0) (some (codes "E")))
      (codes "Error encountered 'X'. Error Reference: E")
    × Prints
        (socket_error_message (codes "'X'") (pos 10048) create_string)
        (codes "Error during 'X'. Winsock error Reference: 10048")
    × Prints
        (no_file_message (codes "'X'") create_string)
        (codes "Could not find properties file. ''X''")
unfolding has_nul decimal digits_loop
error_texts-Prints_example =
    error_texts-Prints (codes "'X'") (codes "E") (pos 0) (pos 10048) create_string refl refl
      (omega arith) length-create_string
