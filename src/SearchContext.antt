-- ===== src/SearchContext.antt =====
-- include/fast_vector/search_context.h: the cooperative search budget. What another thread or the
-- clock decides, the stop reason that is stored and the time, is one observation for each check.
pub mod Budgets
use fast_vector.Prelude.{
  ℕ, ◌+◌, ◌-◌, ◌%◌, ◌^◌, Bool, true, false, not, ◌&&◌, ◌||◌, leb, ◌==◌, if◌then◌else◌, Result, ok,
  ◌>>=◌, ◌>>◌, throw_if, zero_check_interval, interrupted, StopReason, not_stopped, cancelled,
  deadline_exceeded, shut_down,
}
use Prim.Native.String.{String}

abbrev pub is_stop : StopReason → Bool
is_stop not_stopped = false
is_stop cancelled = true
is_stop deadline_exceeded = true
is_stop shut_down = true

-- SearchCancellation::request, a compare-and-exchange from None.
unfoldable pub request : StopReason → StopReason → StopReason
request current reason = if is_stop current then current else reason

-- Clock::time_point::max(), in nanoseconds of a 64-bit signed count.
abbrev pub time_max : ℕ
time_max = 2 ^ 63 - 1

pub record SearchContext : Type 0 where
  pub deadline : ℕ
  pub has_cancellation : Bool
  pub check_interval : ℕ
  pub expected_snapshot_id : String

pub record Observation : Type 0 where
  pub reason : StopReason
  pub now : ℕ

-- The observation of the n-th check.
abbrev pub World : Type 0
World = ℕ → Observation

unfoldable pub has_deadline : SearchContext → Bool
has_deadline c = not (c.deadline == time_max)

unfoldable pub enabled : SearchContext → Bool
unfolding has_deadline
enabled c = c.has_cancellation || has_deadline c

unfoldable pub check : SearchContext → Observation → Result (Unit {0})
unfolding has_deadline
check c o = do
  throw_if (c.has_cancellation && is_stop o.reason) (interrupted o.reason)
  throw_if (has_deadline c && leb c.deadline o.now) (interrupted deadline_exceeded)

unfoldable pub validate : SearchContext → Result (Unit {0})
validate c = throw_if (c.check_interval == 0) zero_check_interval

-- The counter that a loop hands to `checkpoint`, and how many checks there were.
pub record Budget : Type 0 where
  pub remaining : ℕ
  pub checks : ℕ

-- `context.check()` outside a loop: it reads the clock and leaves the loop's counter alone.
unfoldable pub check_now : SearchContext → World → Budget → Result Budget
unfolding check
check_now c w b = do check c (w b.checks); ok (record b { checks = b.checks + 1 })

-- `remaining` is a size_t, and wraps.
unfoldable pub checkpoint : SearchContext → World → Budget → Result Budget
unfolding enabled check_now
checkpoint c w b =
    if not (enabled c)
    then ok b
    else (if b.remaining == 0
        then (do
          b' ← check_now c w b
          ok (record b' { remaining = (c.check_interval + 2 ^ 64 - 1) % 2 ^ 64 }))
        else ok (record b { remaining = b.remaining - 1 }))

abbrev pub fresh : Budget
fresh = record { remaining = 0; checks = 0 }

-- SearchContext{}.
abbrev pub default_context : SearchContext
default_context = record {
  deadline = time_max;
  has_cancellation = false;
  check_interval = 64;
  expected_snapshot_id = "";
}
