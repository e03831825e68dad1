-- ===== src/Dates/Rounding.antt =====
-- How far the relative dates are from the truth.
use kuberpult.Prelude.{ℕ, ◌≤◌, ◌<◌, ◌+◌, ◌*◌, Option, none, some, arith}
use kuberpult.Dates.{TimeUnit, milliseconds, relative_date, ms_per_minute}

-- At most half a unit off, and at least one unit.
abbrev pub IsClose : (elapsed : ℕ) → Option (TimeUnit × ℕ) → Type 0
IsClose elapsed none = elapsed < ms_per_minute
IsClose elapsed (some (u, n)) =
    (2 * elapsed ≤ 2 * (n * milliseconds u) + milliseconds u)
    × (2 * (n * milliseconds u) ≤ 2 * elapsed + milliseconds u)
    × (1 ≤ n)

-- A relative date is at most half of its unit off and counts at least one unit; only less than a
-- minute is just now.
pub relative_date-IsClose : (elapsed : ℕ) → IsClose elapsed (relative_date elapsed)
unfolding relative_date
relative_date-IsClose elapsed = ground arith
