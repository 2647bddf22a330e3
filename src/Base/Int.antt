-- ===== src/Base/Int.antt =====
-- Go's int and time.Duration: 64-bit integers in two's complement.
use Prim.Native.Nat.{ℕ, suc, ◌-◌, ◌*◌, ◌%◌, ◌<◌}
use mathlib.Core.Path.{◌≡◌}
use mathlib.Core.Bool.{Bool, false}
use native.Mathlib.Omega.{arith}
use temenos.Base.Tests.{ltb, ◌==◌, if◌then◌else◌}

-- `negsuc n` is -(n + 1).
pub data ℤ : Type 0 where
  pos : ℕ → ℤ
  negsuc : ℕ → ℤ

-- `n > 0`
abbrev pub is_positive : ℤ → Bool
is_positive (pos n) = ltb 0 n
is_positive (negsuc n) = false

-- `n == 0`
abbrev pub is_zero : ℤ → Bool
is_zero (pos n) = n == 0
is_zero (negsuc n) = false

abbrev word_64 : ℕ
word_64 = 18446744073709551616

abbrev half_64 : ℕ
half_64 = 9223372036854775808

-- The integer that the low 64 bits of a number stand for.
pub signed_64 : ℕ → ℤ
signed_64 n =
    if ltb (n % word_64) half_64 then pos (n % word_64) else negsuc (word_64 - 1 - n % word_64)

-- `time.Duration(n) * unit`: the product wraps at 64 bits.
unfoldable pub scale_64 : ℤ → ℕ → ℤ
unfolding signed_64
scale_64 (pos n) unit = signed_64 (n * unit)
scale_64 (negsuc n) unit = signed_64 (word_64 * unit - suc n * unit % word_64)

-- Below the limit nothing wraps.
pub scale_64-pos : (n unit : ℕ) → n * unit < half_64 → scale_64 (pos n) unit ≡ pos (n * unit)
unfolding scale_64
scale_64-pos n unit h = ground arith
