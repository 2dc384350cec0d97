-- ===== src/PrInfo.antt =====
-- options.go and msginfo.go: the PR-SCTP policy of a message and its value, and the flags of a send.
mod Examples
pub mod Laws
use go_sctp.Common.{
  ℕ, suc, ◌-◌, false, ◌/◌, ◌%◌, ◌^◌, Bool, true, not, ◌&&◌, Option, none, some, ltb, ◌==◌,
  if◌then◌else◌, and_not, bit_and, ℤ, pos, negsuc, Outcome, ok, err, ◌>>=◌, ◌>>◌, refuse,
}
use go_sctp.Duration.{
  ArgError, is_negative, not_whole, out_of_range, unknown_value, not_applicable, is_zero,
  millisecond, max_uint32,
}

abbrev pub pr_none : ℕ
pr_none = 0x0000

abbrev pub pr_ttl : ℕ
pr_ttl = 0x0010

abbrev pub pr_rtx : ℕ
pr_rtx = 0x0020

abbrev pub pr_prio : ℕ
pr_prio = 0x0030

abbrev pub pr_all : ℕ
pr_all = 0x0080

abbrev pub pr_policy_mask : ℕ
pr_policy_mask = 0x0030

abbrev pub snd_flag_unordered : ℕ
snd_flag_unordered = 0x0001

abbrev pub snd_flag_sack_immediately : ℕ
snd_flag_sack_immediately = 0x0008

pub record PrInfo : Type 0 where
  pub policy : ℕ  -- PRPolicy, uint16
  pub ttl : ℤ  -- time.Duration
  pub value : ℕ  -- uint32

pub record SndInfo : Type 0 where
  pub stream : ℕ
  pub flags : ℕ  -- SendFlags, uint16
  pub ppid : ℕ
  pub context : ℕ

unfoldable pub is_zero_duration : ℤ → Bool
is_zero_duration (pos d) = d == 0
is_zero_duration (negsuc d) = false

-- The checks of a lifetime.
pub validate_ttl : ℤ → Outcome ArgError Unit
validate_ttl (negsuc d) = err is_negative
validate_ttl (pos d) =
    if d == 0
    then err is_zero
    else if not (d % millisecond == 0)
    then err not_whole
    else if ltb max_uint32 (d / millisecond)
    then err out_of_range
    else ok tt

unfoldable pub validate_pr_info : PrInfo → Outcome ArgError Unit
unfolding validate_ttl is_zero_duration
validate_pr_info pr =
    if not (and_not pr.policy pr_policy_mask == 0)
    then err unknown_value
    else if pr.policy == pr_ttl
    then (if not (pr.value == 0) then err not_applicable else validate_ttl pr.ttl)
    else if not (is_zero_duration pr.ttl)
    then err not_applicable
    else if pr.policy == pr_none && not (pr.value == 0)
    then err not_applicable
    else ok tt

-- The whole milliseconds of `uint32(d / time.Millisecond)`.
abbrev pub ttl_millis : ℤ → ℕ
ttl_millis (pos d) = d / millisecond % 2 ^ 32
ttl_millis (negsuc d) = (2 ^ 32 - (suc d / millisecond % 2 ^ 32)) % 2 ^ 32

unfoldable pub resolve_pr_info : PrInfo → ℕ × ℕ
resolve_pr_info pr =
    if pr.policy == pr_none
    then (pr.policy, 0)
    else if pr.policy == pr_ttl
    then (pr.policy, ttl_millis pr.ttl)
    else (pr.policy, pr.value)

pub validate_flags : ℕ → ℕ → Outcome ArgError Unit
validate_flags allowed flags = refuse (not (and_not flags allowed == 0)) unknown_value

-- The parts of SendOptions that need no socket.
unfoldable pub validate_send_options : Option SndInfo → Option PrInfo → Outcome ArgError Unit
unfolding validate_flags
validate_send_options info pr =
    elim info [ none ↦ ok tt | some i ↦ validate_flags 0x0009 i.flags ]
    >> elim pr [ none ↦ ok tt | some x ↦ validate_pr_info x ]

unfoldable pub validate_default_snd_info : SndInfo → Outcome ArgError Unit
unfolding validate_flags
validate_default_snd_info info = validate_flags snd_flag_unordered info.flags

unfoldable pub split_default_flags : ℕ → ℕ × ℕ
split_default_flags raw = (bit_and raw snd_flag_unordered, bit_and raw pr_policy_mask)
