-- ===== src/PrInfo/Examples.antt =====
-- The PrInfo theorems at a lifetime of five milliseconds.
use go_sctp.Common.{◌≤◌, ◌≡◌, refl, pos}
use go_sctp.PrInfo.{PrInfo, resolve_pr_info, validate_pr_info, validate_ttl, is_zero_duration}
use go_sctp.PrInfo.Laws.{restored, resolve_pr_info-restored, resolve_pr_info-ttl}

abbrev short_lived : PrInfo
short_lived = record { policy = 16; ttl = pos 5000000; value = 0 }

resolve_pr_info-restored_example : restored (resolve_pr_info short_lived) ≡ short_lived
unfolding validate_pr_info validate_ttl is_zero_duration
resolve_pr_info-restored_example = resolve_pr_info-restored short_lived refl

resolve_pr_info-ttl_example : 1 ≤ (resolve_pr_info short_lived).1
unfolding validate_pr_info validate_ttl is_zero_duration
resolve_pr_info-ttl_example = resolve_pr_info-ttl short_lived refl refl
