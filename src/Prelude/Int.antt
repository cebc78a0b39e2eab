-- ===== src/Prelude/Int.antt =====
-- Signed integers, as Go's int, int32 and int64 are read, with the wrap of an int64.
use mathlib.Core.Path.{◌≡◌}
use native.Mathlib.Omega.{arith}
use Prim.Native.Nat.{ℕ, zero, suc, ◌-◌, ◌%◌, ◌≤◌}
use mathlib.Core.Bool.{Bool, true, false}
use devops_manager.Prelude.Tests.{ltb, leb, ◌==◌, if◌then◌else◌}

-- `negsuc n` is -(n + 1).
pub data ℤ : Type 0 where
  pos : ℕ → ℤ
  negsuc : ℕ → ℤ

abbrev pub is_zero : ℤ → Bool
is_zero (pos n) = n == 0
is_zero (negsuc n) = false

abbrev pub is_positive : ℤ → Bool
is_positive (pos n) = ltb 0 n
is_positive (negsuc n) = false

-- a - b, as an integer.
abbrev pub sub_ℕ : ℕ → ℕ → ℤ
sub_ℕ a b = if leb b a then pos (a - b) else negsuc (b - a - 1)

-- a < b
abbrev pub ltℤ : ℤ → ℤ → Bool
ltℤ (pos a) (pos b) = ltb a b
ltℤ (pos a) (negsuc b) = false
ltℤ (negsuc a) (pos b) = true
ltℤ (negsuc a) (negsuc b) = ltb b a

-- -n
abbrev pub negate_ℕ : ℕ → ℤ
negate_ℕ zero = pos 0
negate_ℕ (suc n) = negsuc n

abbrev pub max_int64 : ℕ
max_int64 = 9223372036854775807

-- The int64 whose bits are those of a natural number, modulo 2 ^ 64.
unfoldable pub to_int64 : ℕ → ℤ
to_int64 n =
    if leb (n % 18446744073709551616) max_int64
    then pos (n % 18446744073709551616)
    else negsuc (18446744073709551615 - n % 18446744073709551616)

pub to_int64_small : (n : ℕ) → n ≤ max_int64 → to_int64 n ≡ pos n
unfolding to_int64
to_int64_small n h = ground arith
