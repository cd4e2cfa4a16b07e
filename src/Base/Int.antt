-- ===== src/Base/Int.antt =====
-- int64 values that can be negative.
use Prim.Native.Nat.{ℕ, ◌<◌, ◌+◌, ◌-◌, ◌%◌, ◌/◌, ◌^◌}
use mathlib.Core.Path.{◌≡◌}
use native.Mathlib.Omega.{arith}
use mathlib.Core.Bool.{Bool, true, false}
use plex_mirror.Base.Tests.{ltb, leb, ◌==◌, if◌then◌else◌}

-- `negsuc n` is -(n + 1).
pub data ℤ : Type 0 where
  pos : ℕ → ℤ
  negsuc : ℕ → ℤ

abbrev pub neg : ℕ → ℤ
neg n = if n == 0 then pos 0 else negsuc (n - 1)

-- The int64 that a result of int64 arithmetic wraps to.
unfoldable pub wrap64 : ℕ → ℤ
wrap64 n = let w = n % 2 ^ 64 in if ltb w (2 ^ 63) then pos w else neg (2 ^ 64 - w)

-- Go's `/` by a positive number rounds towards zero.
unfoldable pub quot : ℤ → ℕ → ℤ
quot (pos n) k = pos (n / k)
quot (negsuc n) k = neg ((1 + n) / k)

-- `n <= z` for a count n.
unfoldable pub at_most : ℕ → ℤ → Bool
at_most n (pos z) = leb n z
at_most n (negsuc z) = false

-- `a <= b` on int64 values.
unfoldable pub leb_int : ℤ → ℤ → Bool
leb_int (pos a) (pos b) = leb a b
leb_int (pos a) (negsuc b) = false
leb_int (negsuc a) (pos b) = true
leb_int (negsuc a) (negsuc b) = leb b a

-- A number in range does not wrap.
pub wrap64_small : (n : ℕ) → n < 2 ^ 63 → wrap64 n ≡ pos n
unfolding wrap64
wrap64_small n h = ground arith
