-- ===== src/Clock.antt =====
-- src/clock/clock.h: the comparison of two readings of the millisecond clock.
use mbus.Base.{ℕ, ◌+◌, ◌-◌, ◌%◌, ◌^◌, Bool, leb}

-- `(long long) (b - a) < 0`, on 64 bits.
unfoldable pub clock_after : ℕ → ℕ → Bool
clock_after a b = leb (2 ^ 63) ((b + 2 ^ 64 - a) % 2 ^ 64)
