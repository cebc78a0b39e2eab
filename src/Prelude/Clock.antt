-- ===== src/Prelude/Clock.antt =====
-- Instants and durations of Go's package time. An instant is a number of nanoseconds, a duration
-- a signed one that saturates at the ends of int64.
use Prim.Native.Nat.{ℕ, ◌+◌, ◌-◌, ◌*◌, ◌/◌, ◌%◌}
use devops_manager.Prelude.Tests.{leb, if◌then◌else◌}
use devops_manager.Prelude.Int.{ℤ, pos, negsuc, negate_ℕ, max_int64, to_int64}

abbrev pub Time : Type 0
Time = ℕ

cap : ℕ → ℕ
cap n = if leb n max_int64 then n else max_int64

-- `a.Sub(b)`
unfoldable pub sub : Time → Time → ℤ
unfolding cap
sub a b = if leb b a then pos (cap (a - b)) else negsuc (cap (b - a - 1))

-- `d.Milliseconds()`, which truncates toward zero.
unfoldable pub milliseconds : ℤ → ℤ
milliseconds (pos n) = pos (n / 1000000)
milliseconds (negsuc n) = negate_ℕ ((n + 1) / 1000000)

-- `time.Duration(seconds) * time.Second`, a product of int64.
unfoldable pub of_seconds : ℤ → ℤ
of_seconds (pos n) = to_int64 (n * 1000000000)
of_seconds (negsuc n) =
    to_int64 (18446744073709551616 - ((n + 1) * 1000000000) % 18446744073709551616)

-- `int64(d.Seconds())`: the seconds of a duration, truncated. `Seconds` is a float; it is exact for a
-- whole number of seconds.
unfoldable pub whole_seconds : ℤ → ℤ
whole_seconds (pos n) = pos (n / 1000000000)
whole_seconds (negsuc n) = negate_ℕ ((n + 1) / 1000000000)
