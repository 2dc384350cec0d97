-- ===== src/Duration/Examples.antt =====
-- The duration theorems at concrete durations.
use go_sctp.Common.{ℕ, ◌≤◌, ◌<◌, ◌≡◌, ◌⊎◌, ◌*◌, refl, pos, negsuc, ok, err, arith}
use go_sctp.Duration.{ArgError, duration_to_millis, millis_to_duration, millisecond}
use go_sctp.Duration.Laws.{
  duration_to_millis-millis_to_duration, millis_to_duration-duration_to_millis,
  duration_to_millis_cases,
}

duration_to_millis-millis_to_duration_example :
    duration_to_millis (millis_to_duration 1500) 60000 ≡ ok 1500
duration_to_millis-millis_to_duration_example =
    duration_to_millis-millis_to_duration 1500 60000 (omega arith) (omega arith)

millis_to_duration-duration_to_millis_example :
    (millis_to_duration 1500 ≡ pos 1500000000) × (1500 ≤ 60000)
unfolding duration_to_millis
millis_to_duration-duration_to_millis_example =
    millis_to_duration-duration_to_millis (pos 1500000000) 60000 1500 refl

duration_to_millis_cases_example :
    ((ms : ℕ) × (negsuc 0 ≡ pos (ms * millisecond))
      × (ms ≤ 10)
      × (duration_to_millis (negsuc 0) 10 ≡ ok ms))
    ⊎ (((ms : ℕ) → negsuc 0 ≡ pos (ms * millisecond) → 10 < ms)
        × (x : ArgError) × (duration_to_millis (negsuc 0) 10 ≡ err x))
duration_to_millis_cases_example = duration_to_millis_cases (negsuc 0) 10 (omega arith)
