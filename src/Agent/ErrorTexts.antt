-- ===== src/Agent/ErrorTexts.antt =====
-- The texts with which Agent/src/c/JVMHeapScan.c and Agent/src/c/SocketOutputInterface.c end the
-- process, and the buffers that they are printed into.
use jvmheap_scan.Base.{
  ℕ, zero, suc, ◌+◌, ◌<◌, ◌-◌, ◌^◌, ◌≡◌, ◌≢◌, refl, ap, ◌∙◌, Bool, true, false, ◌||◌, Option, none,
  some, List, [], ◌∷◌, ◌++◌, arith, ltb, ◌==◌, if◌then◌else◌, length, length-append, codes,
  Bool-cases, inl, inr,
}
use jvmheap_scan.Base.Int.{ℤ, pos, negsuc, Fits32}
use jvmheap_scan.Agent.Chars.{get_chars, decimal, digits_loop, get_chars-decimal}
use jvmheap_scan.Agent.Tags.{is_zero}

-- `createString`: `ZeroMemory` clears what was allocated.
abbrev pub create_string : ℕ → List ℕ
create_string zero = []
create_string (suc size) = 0 ∷ create_string size

-- `sprintf` of a text into a buffer: the NUL goes behind the text, and the rest of the buffer stays.
-- Nothing where the buffer is too small, since that is undefined.
unfoldable pub print_text : List ℕ → List ℕ → Option (List ℕ)
print_text text [] = none
print_text [] (b ∷ buffer) = some (0 ∷ buffer)
print_text (c ∷ text) (b ∷ buffer) = elim (print_text text buffer) [
  | none ↦ none
  | some printed ↦ some (c ∷ printed)
]

-- The text in a buffer, up to its NUL.
unfoldable pub c_string : List ℕ → List ℕ
c_string [] = []
c_string (c ∷ cs) = let rest = c_string cs in if c == 0 then [] else c ∷ rest

unfoldable pub has_nul : List ℕ → Bool
has_nul [] = false
has_nul (c ∷ cs) = (c == 0) || has_nul cs

-- The text of `onCheckJVMTIError`; the code is what `GetErrorName` returns.
abbrev pub jvmti_error_text : List ℕ → ℤ → List ℕ → List ℕ
jvmti_error_text function_name code name =
    if is_zero code
    then codes "Error encountered " ++ (function_name ++ (codes ". Error Reference: " ++ name))
    else codes "Error " ++ (function_name ++ codes ". Unable to fetch error details")

-- `newErrorMsg` of `onCheckJVMTIError`. The name is what `GetErrorName` has written, if it has: the
-- size is computed from it before the code is looked at.
unfoldable pub jvmti_error_message : List ℕ → ℤ → Option (List ℕ) → Option (List ℕ)
unfolding print_text
jvmti_error_message function_name code none = none
jvmti_error_message function_name code (some name) =
    print_text (jvmti_error_text function_name code name)
      (create_string (length name + length function_name + 2 + 50))

abbrev pub socket_error_text : List ℕ → ℤ → List ℕ
socket_error_text action err =
    codes "Error during " ++ (action ++ (codes ". Winsock error Reference: " ++ decimal err))

-- `errMsg` of `onCheckSocketError`; `memory` is what stands in memory from the buffer on.
unfoldable pub socket_error_message : List ℕ → ℤ → (ℕ → List ℕ) → Option (List ℕ)
unfolding print_text get_chars
socket_error_message action err allocate_memory =
    print_text (socket_error_text action err) (allocate_memory (length action + get_chars err + 42))

abbrev pub no_file_text : List ℕ → List ℕ
no_file_text path = codes "Could not find properties file" ++ (codes ". '" ++ (path ++ codes "'"))

-- `totErrMsg` of `onSetOptions`
unfoldable pub no_file_message : List ℕ → (ℕ → List ℕ) → Option (List ℕ)
unfolding print_text
no_file_message path allocate_memory =
    print_text (no_file_text path)
      (allocate_memory (length (codes "Could not find properties file") + length path + 5))

-- The buffer is large enough, and the text stands in it.
abbrev pub Prints : Option (List ℕ) → List ℕ → Type 0
Prints r text = (buffer : List ℕ) × (r ≡ some buffer) × (c_string buffer ≡ text)

has_nul-append : (xs ys : List ℕ) → has_nul (xs ++ ys) ≡ (has_nul xs || has_nul ys)
unfolding has_nul
has_nul-append [] ys = refl
has_nul-append (x ∷ xs) ys = let e = has_nul-append xs ys in ground arith

print_text-Prints :
    (text buffer : List ℕ)
    → has_nul text ≡ false
    → length text < length buffer
    → Prints (print_text text buffer) text
unfolding print_text c_string has_nul
print_text-Prints text [] h l = absurd (omega arith)
print_text-Prints [] (b ∷ buffer) h l = (0 ∷ buffer, refl, refl)
print_text-Prints (c ∷ text) (b ∷ buffer) h l =
    let (rest, run, same) = print_text-Prints text buffer (ground arith) (omega arith) in
    let other : (c == 0) ≡ false = ground arith in (c ∷ rest, rw run refl, rw (other, same) refl)

digits_loop-has_nul :
    (f value : ℕ) (rest : List ℕ)
    → has_nul rest ≡ false
    → has_nul (digits_loop f value rest) ≡ false
unfolding digits_loop has_nul
digits_loop-has_nul zero value rest h = ground arith
digits_loop-has_nul (suc f) value rest h = elim (Bool-cases (ltb value 10)) [
  | inl done ↦ rw done (ground arith)
  | inr more ↦ rw more (digits_loop-has_nul f _ _ (ground arith))
]

decimal-has_nul : (v : ℤ) → has_nul (decimal v) ≡ false
unfolding decimal has_nul
decimal-has_nul (pos n) = digits_loop-has_nul n n [] refl
decimal-has_nul (negsuc n) = digits_loop-has_nul (n + 1) (n + 1) [] refl

pub length-create_string : (size : ℕ) → length (create_string size) ≡ size
length-create_string zero = refl
length-create_string (suc size) = ap suc (length-create_string size)

jvmti_error_message-Prints :
    (function_name name : List ℕ) (code : ℤ)
    → has_nul function_name ≡ false
    → has_nul name ≡ false
    → Prints
        (jvmti_error_message function_name code (some name))
        (jvmti_error_text function_name code name)
unfolding jvmti_error_message has_nul
jvmti_error_message-Prints f name code hf hn = cases (is_zero code)
  where
    size : ℕ
    size = length name + length f + 2 + 50

    cases :
        (found : Bool)
        → let text =
            if found
            then codes "Error encountered " ++ (f ++ (codes ". Error Reference: " ++ name))
            else codes "Error " ++ (f ++ codes ". Unable to fetch error details") in
          Prints (print_text text (create_string size)) text
    cases true =
        print_text-Prints _ (create_string size)
          (has_nul-append f (codes ". Error Reference: " ++ name) ∙ rw (hf, hn) refl)
          (omega (
            arith,
            length-append f (codes ". Error Reference: " ++ name),
            length-create_string size,
          ))
    cases false =
        print_text-Prints _ (create_string size)
          (has_nul-append f (codes ". Unable to fetch error details") ∙ rw hf refl)
          (omega (
            arith,
            length-append f (codes ". Unable to fetch error details"),
            length-create_string size,
          ))

socket_error_message-Prints :
    (action : List ℕ) (err : ℤ) (allocate_memory : ℕ → List ℕ)
    → has_nul action ≡ false
    → Fits32 err
    → ((size : ℕ) → length (allocate_memory size) ≡ size)
    → Prints (socket_error_message action err allocate_memory) (socket_error_text action err)
unfolding socket_error_message has_nul
socket_error_message-Prints action err allocate_memory ha fits allocated =
    print_text-Prints (socket_error_text action err) (allocate_memory size)
      (has_nul-append action (codes ". Winsock error Reference: " ++ decimal err)
        ∙ rw (ha, decimal-has_nul err) refl)
      (omega (
        arith,
        length-append action (codes ". Winsock error Reference: " ++ decimal err),
        get_chars-decimal err (not_least err fits),
        allocated size,
      ))
  where
    size : ℕ
    size = length action + get_chars err + 42

    not_least : (v : ℤ) → Fits32 v → v ≢ negsuc (2 ^ 63 - 1)
    not_least (pos n) h e = ground arith
    not_least (negsuc n) h e = ground arith

no_file_message-Prints :
    (path : List ℕ) (allocate_memory : ℕ → List ℕ)
    → has_nul path ≡ false
    → ((size : ℕ) → length (allocate_memory size) ≡ size)
    → Prints (no_file_message path allocate_memory) (no_file_text path)
unfolding no_file_message has_nul
no_file_message-Prints path allocate_memory h allocated =
    print_text-Prints (no_file_text path)
      (allocate_memory (length (codes "Could not find properties file") + length path + 5))
      (has_nul-append path (codes "'") ∙ rw h refl)
      (omega (
        arith,
        length-append path (codes "'"),
        allocated (length (codes "Could not find properties file") + length path + 5),
      ))

-- Every text with which the process ends fits its buffer with its NUL, and can be read from there as
-- it was meant: for a JVMTI error where `GetErrorName` has written a name, for a Winsock error whose
-- number has 32 bits, and for a missing properties file, whatever the memory held.
pub error_texts-Prints :
    (what name : List ℕ) (code err : ℤ) (allocate_memory : ℕ → List ℕ)
    → has_nul what ≡ false
    → has_nul name ≡ false
    → Fits32 err
    → ((size : ℕ) → length (allocate_memory size) ≡ size)
    → Prints (jvmti_error_message what code (some name)) (jvmti_error_text what code name)
      × Prints (socket_error_message what err allocate_memory) (socket_error_text what err)
      × Prints (no_file_message what allocate_memory) (no_file_text what)
error_texts-Prints what name code err allocate_memory hw hn fits allocated = (
  jvmti_error_message-Prints what name code hw hn,
  socket_error_message-Prints what err allocate_memory hw fits allocated,
  no_file_message-Prints what allocate_memory hw allocated,
)
