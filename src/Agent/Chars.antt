-- ===== src/Agent/Chars.antt =====
-- `getChars` of Agent/src/c/JVMHeapScan.c, and the decimal text that `sprintf` writes.
use jvmheap_scan.Base.{
  ℕ, zero, suc, ◌+◌, ◌-◌, ◌/◌, ◌%◌, ◌^◌, ◌≤◌, ◌<◌, ◌*◌, ◌≡◌, ◌≢◌, ap, ◌∙◌, List, [], ◌∷◌, arith,
  ltb, ◌==◌, if◌then◌else◌, length, Bool-cases, inl, inr,
}
use native.Mathlib.Nat.{pow-suc}
use jvmheap_scan.Base.Int.{ℤ, pos, negsuc, Fits32}

-- `for (; value > 9; value = value / 10) chars++;`. A tenth is smaller, so `value` rounds are enough.
pub chars_loop : ℕ → ℕ → ℕ → ℕ
chars_loop zero value chars = chars
chars_loop (suc f) value chars =
    let rest = chars_loop f (value / 10) (chars + 1) in if ltb 9 value then rest else chars

-- `jlong` has 64 bits: the negation of its least value is that value again, and the loop is
-- not entered.
unfoldable pub get_chars : ℤ → ℕ
unfolding chars_loop
get_chars (pos n) = chars_loop n n 1
get_chars (negsuc n) = if n + 1 == 2 ^ 63 then 2 else chars_loop (n + 1) (n + 1) 2

-- The digits of `%d`, most significant first, before what stands in `rest`.
unfoldable pub digits_loop : ℕ → ℕ → List ℕ → List ℕ
digits_loop zero value rest = (value % 10 + 48) ∷ rest
digits_loop (suc f) value rest =
    let more = digits_loop f (value / 10) ((value % 10 + 48) ∷ rest) in
    if ltb value 10 then (value + 48) ∷ rest else more

unfoldable pub decimal : ℤ → List ℕ
unfolding digits_loop
decimal (pos n) = digits_loop n n []
decimal (negsuc n) = b'-' ∷ digits_loop (n + 1) (n + 1) []

-- The cast to `long`, which has 32 bits on Windows.
unfoldable pub to_long : ℤ → ℤ
to_long (pos n) =
    let low = n % 2 ^ 32 in if ltb low (2 ^ 31) then pos low else negsuc (2 ^ 32 - 1 - low)
to_long (negsuc n) =
    let low = n % 2 ^ 32 in if ltb low (2 ^ 31) then negsuc low else pos (2 ^ 32 - 1 - low)

-- What a text of decimal digits stands for, from the left.
unfoldable pub read_digits : ℕ → List ℕ → ℕ
read_digits acc [] = acc
read_digits acc (c ∷ cs) = read_digits (acc * 10 + (c - 48)) cs

loops_agree :
    (f value chars : ℕ) (rest : List ℕ)
    → value ≤ f
    → length (digits_loop f value rest) + chars ≡ chars_loop f value (chars + 1) + length rest
unfolding chars_loop digits_loop
loops_agree zero value chars rest h = omega arith
loops_agree (suc f) value chars rest h = elim (Bool-cases (ltb 9 value)) [
  | inl more ↦ ground (arith, loops_agree f (value / 10) (chars + 1) ((value % 10 + 48) ∷ rest))
  | inr done ↦ ground arith
]

pub read-digits_loop :
    (f value : ℕ) (rest : List ℕ)
    → value ≤ f
    → read_digits 0 (digits_loop f value rest) ≡ read_digits value rest
unfolding digits_loop read_digits
read-digits_loop zero value rest h = ap (λ (n : ℕ). read_digits n rest) (omega arith)
read-digits_loop (suc f) value rest h = elim (Bool-cases (ltb value 10)) [
  | inl done ↦ rw done (ap (λ (n : ℕ). read_digits n rest) (omega arith))
  | inr more ↦ rw more (
      read-digits_loop f (value / 10) ((value % 10 + 48) ∷ rest) (ground arith)
      ∙ ap (λ (n : ℕ). read_digits n rest) (omega arith))
]

pow_pos : (k : ℕ) → 1 ≤ 10 ^ k
pow_pos zero = omega arith
pow_pos (suc k) = omega (arith, pow-suc 10 k, pow_pos k)

-- For every value but the least of 64 bits `getChars` is the length of the printed number.
pub get_chars-decimal : (v : ℤ) → v ≢ negsuc (2 ^ 63 - 1) → get_chars v ≡ length (decimal v)
unfolding get_chars decimal
get_chars-decimal (pos n) h = omega (arith, loops_agree n n 0 [])
get_chars-decimal (negsuc n) h = ground (arith, loops_agree (n + 1) (n + 1) 1 [])

-- In the range of 32 bits the cast changes nothing.
pub to_long-Fits32 : (v : ℤ) → Fits32 v → to_long v ≡ v
unfolding to_long
to_long-Fits32 (pos n) h = ground arith
to_long-Fits32 (negsuc n) h = ground arith

-- Between two powers of ten the loop makes a fixed number of rounds.
chars_loop-pow :
    (k f value chars : ℕ)
    → 10 ^ k ≤ value
    → value < 10 ^ suc k
    → value ≤ f
    → chars_loop f value chars ≡ chars + k
unfolding chars_loop
chars_loop-pow zero zero value chars lo hi h = omega arith
chars_loop-pow zero (suc f) value chars lo hi h = ground arith
chars_loop-pow (suc k) zero value chars lo hi h = absurd (omega (arith, pow-suc 10 k))
chars_loop-pow (suc k) (suc f) value chars lo hi h = ground (
  arith,
  pow-suc 10 k,
  pow-suc 10 (suc k),
  pow_pos k,
  chars_loop-pow k f (value / 10) (chars + 1),
)

-- A size of 2 GB and more is printed as a negative number, with one character more than counted.
pub get_chars_short :
    (n : ℕ)
    → 2 ^ 31 ≤ n
    → n ≤ 2 ^ 32 - 10 ^ 9
    → length (decimal (to_long (pos n))) ≡ get_chars (pos n) + 1
unfolding get_chars decimal to_long
get_chars_short n lo hi = rw cast (
    omega (
      arith,
      loops_agree k k 0 [],
      chars_loop-pow 9 k k 1 (omega arith) (omega arith) (omega arith),
      chars_loop-pow 9 n n 1 (omega arith) (omega arith) (omega arith),
    ))
  where
    k : ℕ
    k = 2 ^ 32 - 1 - n + 1

    cast : to_long (pos n) ≡ negsuc (2 ^ 32 - 1 - n)
    cast = ground arith
