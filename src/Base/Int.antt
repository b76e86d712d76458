-- ===== src/Base/Int.antt =====
-- Signed integers over the native numbers: `negsuc n` is -(n + 1).
use Prim.Native.Nat.{ℕ, ◌^◌, ◌<◌}

pub data ℤ : Type 0 where
  pos : ℕ → ℤ
  negsuc : ℕ → ℤ

-- The value lies in the range of a signed integer of 32 bits.
abbrev pub Fits32 : ℤ → Type 0
Fits32 (pos n) = n < 2 ^ 31
Fits32 (negsuc n) = n < 2 ^ 31
