-- ===== src/Agent/Options/Scan.antt =====
-- `fscanf` of the C library, for formats with white space, plain characters, `%s` and `%d`.
use jvmheap_scan.Base.{
  ℕ, zero, suc, Bool, true, false, not, Option, none, some, List, [], ◌∷◌, ◌&&◌, ◌||◌, leb, ◌==◌,
  if◌then◌else◌,
}
use jvmheap_scan.Base.Int.{ℤ, pos, negsuc}
use jvmheap_scan.Agent.Chars.{read_digits}

pub data Directive : Type 0 where
  white : Directive
  plain : ℕ → Directive
  word : Directive
  decimal_number : Directive

-- What a conversion stores.
pub data Value : Type 0 where
  text : List ℕ → Value
  number : ℤ → Value

-- `isspace`
abbrev pub is_space : ℕ → Bool
is_space c = c == 32 || (leb 9 c && leb c 13)

abbrev pub is_digit : ℕ → Bool
is_digit c = leb b'0' c && leb c b'9'

-- `%s` and `%d` apart, a character of a format stands for itself.
unfoldable pub format : List ℕ → List Directive
format [] = []
format (c ∷ []) = (if is_space c then white else plain c) ∷ []
format (c ∷ d ∷ cs) =
    let converted = format cs in
    let next = format (d ∷ cs) in
    if c == b'%'
    then (if d == b's' then word else decimal_number) ∷ converted
    else (if is_space c then white else plain c) ∷ next

unfoldable pub skip_space : List ℕ → List ℕ
skip_space [] = []
skip_space (c ∷ cs) = if is_space c then skip_space cs else c ∷ cs

-- The longest beginning whose characters pass the test, and the rest.
unfoldable pub span : (ℕ → Bool) → List ℕ → List ℕ × List ℕ
span test [] = ([], [])
span test (c ∷ cs) =
    let rest = span test cs in if test c then (c ∷ rest.0, rest.1) else ([], c ∷ cs)

abbrev pub is_visible : ℕ → Bool
is_visible c = not (is_space c)

abbrev pub with_sign : Bool → ℕ → ℤ
with_sign false n = pos n
with_sign true zero = pos 0
with_sign true (suc n) = negsuc n

-- The number that the digits stand for, if there are any.
abbrev pub number_of : Bool → List ℕ → Option ℤ
number_of negative [] = none
number_of negative (d ∷ ds) = some (with_sign negative (read_digits 0 (d ∷ ds)))

-- The digits of `%d` behind the sign.
unfoldable pub digits : Bool → List ℕ → Option ℤ × List ℕ
unfolding span
digits negative cs = (number_of negative (span is_digit cs).0, (span is_digit cs).1)

unfoldable pub signed : List ℕ → Option ℤ × List ℕ
unfolding digits
signed [] = (none, [])
signed (c ∷ cs) =
    if c == b'-'
    then digits true cs
    else if c == b'+'
    then digits false cs
    else digits false (c ∷ cs)

-- One call: what its conversion stores, if it comes to that, and what is left of the file.
unfoldable pub scan : List Directive → List ℕ → Option Value → Option Value × List ℕ
unfolding skip_space span signed
scan [] file v = (v, file)
scan (white ∷ ds) file v = scan ds (skip_space file) v
scan (plain c ∷ ds) [] v = (v, [])
scan (plain c ∷ ds) (x ∷ xs) v = elim (x == c) [ true ↦ scan ds xs v | false ↦ (v, x ∷ xs) ]
scan (word ∷ ds) file v =
    let (w, rest) = span is_visible (skip_space file) in
    elim w [ [] ↦ (v, rest) | c ∷ cs ↦ scan ds rest (some (text (c ∷ cs))) ]
scan (decimal_number ∷ ds) file v =
    let (n, rest) = signed (skip_space file) in
    elim n [ none ↦ (v, rest) | some k ↦ scan ds rest (some (number k)) ]
