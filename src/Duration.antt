-- ===== src/Duration.antt =====
-- config.go and options.go: Go durations, in nanoseconds, as the kernel's counts of milliseconds and
-- seconds, and the checks of plain arguments. An error is the reason of the refusal; its text is
-- left out.
mod Examples
pub mod Laws
use go_sctp.Common.{
  ℕ, ◌+◌, ◌-◌, ◌*◌, ◌/◌, ◌%◌, ◌^◌, Bool, true, false, not, zero, suc, ltb, leb, ◌==◌, if◌then◌else◌,
  ℤ, pos, negsuc, Outcome, ok, err, panic,
}

pub data ArgError : Type 0 where
  is_negative not_whole out_of_range unknown_value not_applicable is_zero : ArgError

abbrev pub millisecond : ℕ
millisecond = 1000000

abbrev pub second : ℕ
second = 1000000000

abbrev pub max_uint32 : ℕ
max_uint32 = 4294967295

-- A count of `unit`s: the common body of durationToMillis and durationToSeconds.
abbrev pub whole_units : ℕ → ℤ → ℕ → Outcome ArgError ℕ
whole_units unit (negsuc d) limit = if ltb max_uint32 limit then panic else err is_negative
whole_units unit (pos d) limit =
    if ltb max_uint32 limit
    then panic
    else if not (d % unit == 0)
    then err not_whole
    else if ltb limit (d / unit)
    then err out_of_range
    else ok (d / unit % 2 ^ 32)

unfoldable pub duration_to_millis : ℤ → ℕ → Outcome ArgError ℕ
duration_to_millis d limit = whole_units millisecond d limit

unfoldable pub duration_to_seconds : ℤ → ℕ → Outcome ArgError ℕ
duration_to_seconds d limit = whole_units second d limit

unfoldable pub millis_to_duration : ℕ → ℤ
millis_to_duration ms = pos (ms * millisecond)

unfoldable pub uint32_arg : ℤ → Outcome ArgError ℕ
uint32_arg (negsuc v) = err is_negative
uint32_arg (pos v) = if ltb max_uint32 v then err out_of_range else ok (v % 2 ^ 32)

unfoldable pub buffer_size_arg : ℤ → Outcome ArgError ℕ
buffer_size_arg (negsuc v) = err is_negative
buffer_size_arg (pos v) =
    if v == 0 then err is_zero else if ltb 2147483647 v then err out_of_range else ok v

-- Config.CloseTimeout.
unfoldable pub resolve_close_timeout : ℤ → Outcome ArgError ℤ
resolve_close_timeout (negsuc d) = err is_negative
resolve_close_timeout (pos d) = if d == 0 then ok (pos (3 * second)) else ok (pos d)
