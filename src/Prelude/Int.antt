-- ===== src/Prelude/Int.antt =====
-- Signed integers: a C++ int of 32 bits. The wrap-around of a cast and of a sum is written out.
use Prim.Native.Nat.{ℕ, suc, ◌+◌, ◌-◌, ◌%◌, ◌^◌, ◌<◌}
use mathlib.Core.Path.{◌≡◌}
use mathlib.Core.Bool.{Bool, true, false}
use mathlib.Core.Logic.{◌↔◌}
use native.Mathlib.Omega.{arith}
use obs_zcamera.Prelude.Tests.{ltb, ◌==◌, if◌then◌else◌}
use obs_zcamera.Prelude.Strings.{Text, decimal}
use mathlib.Core.List.{◌∷◌}

-- `negsuc n` is -(n + 1).
pub data ℤ : Type 0 where
  pos : ℕ → ℤ
  negsuc : ℕ → ℤ

-- The comparison of an int with a literal that is not negative.
abbrev pub eq_pos : ℤ → ℕ → Bool
eq_pos (pos n) k = n == k
eq_pos (negsuc n) k = false

-- `z >= 0`.
abbrev pub is_nonneg : ℤ → Bool
is_nonneg (pos n) = true
is_nonneg (negsuc n) = false

pub eq_pos_iff : (z : ℤ) (k : ℕ) → (eq_pos z k ≡ true) ↔ (z ≡ pos k)
eq_pos_iff (pos n) k = ground arith
eq_pos_iff (negsuc n) k = ground arith

-- `(int)n` of a 64-bit number.
unfoldable pub to_int32 : ℕ → ℤ
to_int32 n = let r = n % 2 ^ 32 in if ltb r (2 ^ 31) then pos r else negsuc (2 ^ 32 - 1 - r)

-- `h + z` of an int that is not negative and an int. A sum from 2^31 on comes round to the negative
-- numbers, as compilers have it.
unfoldable pub add_int : ℕ → ℤ → ℤ
add_int h (pos n) = let s = h + n in if ltb s (2 ^ 31) then pos s else negsuc (2 ^ 32 - 1 - s)
add_int h (negsuc n) = if ltb n h then pos (h - suc n) else negsuc (n - h)

pub add_int-pos : (h n : ℕ) → h + n < 2 ^ 31 → add_int h (pos n) ≡ pos (h + n)
unfolding add_int
add_int-pos h n small = ground arith

-- `QString::number(z)`.
unfoldable pub int_text : ℤ → Text
unfolding decimal
int_text (pos n) = decimal n
int_text (negsuc n) = b'-' ∷ decimal (suc n)
