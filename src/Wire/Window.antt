-- ===== src/Wire/Window.antt =====
-- The activation window of an upgrade link in synchronizer/src/wire.rs: `now` is a `u64` and the
-- bounds are `i64`, in milliseconds; the comparisons are made in `i128`, without wrapping.
use enclavia.Base.{ℕ, Bool, not}
use enclavia.Base.Int.{ℤ, pos, leb_plus}

abbrev pub transition_clock_tolerance_ms : ℕ
transition_clock_tolerance_ms = 60000

-- now > valid_until + tolerance
unfoldable pub past_valid_until : ℕ → ℤ → Bool
past_valid_until now_ms valid_until_ms =
    not (leb_plus (pos now_ms) 0 valid_until_ms transition_clock_tolerance_ms)

-- now < valid_from - tolerance
unfoldable pub before_valid_from : ℕ → ℤ → Bool
before_valid_from now_ms valid_from_ms =
    not (leb_plus valid_from_ms 0 (pos now_ms) transition_clock_tolerance_ms)
