-- ===== src/Duration/Laws.antt =====
-- Which durations are accepted, and that the counts convert back.
use go_sctp.Common.{
  Bool-cases, ◌==◌, ltb, ℕ, ◌*◌, ◌/◌, ◌%◌, ◌≤◌, ◌<◌, ◌≡◌, ◌⊎◌, inl, inr, ap, ℤ, pos, negsuc, ok,
  err, arith,
}
use go_sctp.Duration.{
  ArgError, is_negative, not_whole, out_of_range, duration_to_millis, millis_to_duration,
  max_uint32, millisecond,
}

-- Every count of milliseconds comes back, up to the field's limit.
pub duration_to_millis-millis_to_duration :
    (ms limit : ℕ)
    → ms ≤ limit
    → limit ≤ max_uint32
    → duration_to_millis (millis_to_duration ms) limit ≡ ok ms
unfolding duration_to_millis millis_to_duration
duration_to_millis-millis_to_duration ms limit h k = ground arith

-- A duration is accepted only where the conversion back gives the duration itself: nothing is
-- rounded, cut off or wrapped around, and the count is within the field's limit.
pub millis_to_duration-duration_to_millis :
    (d : ℤ) (limit ms : ℕ)
    → duration_to_millis d limit ≡ ok ms
    → (millis_to_duration ms ≡ d) × (ms ≤ limit)
unfolding duration_to_millis millis_to_duration
millis_to_duration-duration_to_millis (pos d) limit ms h =
    (ap pos (counted d limit ms h).0, (counted d limit ms h).1)
  where
    counted :
        (d limit ms : ℕ)
        → duration_to_millis (pos d) limit ≡ ok ms
        → (ms * 1000000 ≡ d) × (ms ≤ limit)
    counted d limit ms h = ground arith
millis_to_duration-duration_to_millis (negsuc d) limit ms h = ground arith

-- With a limit of at most 2^32 - 1 milliseconds, a duration that is a count of milliseconds within the limit
-- is accepted as that count, and any other, negative ones included, is refused with an error: nothing panics.
pub duration_to_millis_cases :
    (d : ℤ) (limit : ℕ)
    → limit ≤ max_uint32
    → ((ms : ℕ) × (d ≡ pos (ms * millisecond))
        × (ms ≤ limit)
        × (duration_to_millis d limit ≡ ok ms))
      ⊎ (((ms : ℕ) → d ≡ pos (ms * millisecond) → limit < ms)
          × (x : ArgError) × (duration_to_millis d limit ≡ err x))
unfolding duration_to_millis
duration_to_millis_cases (negsuc d) limit k = inr (λ ms q. cc, is_negative, ground arith)
duration_to_millis_cases (pos d) limit k = elim (Bool-cases (d % millisecond == 0)) [
  | inl whole ↦ elim (Bool-cases (ltb limit (d / millisecond))) [
    | inl beyond ↦
        inr (λ ms q. let r : d ≡ ms * millisecond = cc in ground arith, out_of_range, ground arith)
    | inr within ↦ inl (d / millisecond, ap pos (ground arith), ground arith, ground arith)
  ]
  | inr part ↦
      inr (λ ms q. let r : d ≡ ms * millisecond = cc in ground arith, not_whole, ground arith)
]
