-- ===== src/Options/Examples.antt =====
-- The option structs at one second and ten seconds, and at a delay of 200 ms.
use go_sctp.Common.{ℕ, ◌≡◌, ◌++◌, refl, List, pos, ok, arith, replicate}
use go_sctp.Bytes.{little, octets32, octet, slice, put}
use go_sctp.Duration.{duration_to_millis}
use go_sctp.Options.{
  RtoInfo, DelayedSack, encode_rto_info, decode_rto_info, encode_delayed_sack, decode_delayed_sack,
}
use go_sctp.Options.Laws.{decode_rto_info-encode_rto_info, decode_delayed_sack-encode_delayed_sack}

abbrev timers : RtoInfo
timers = record { initial = pos 1000000000; maximum = pos 10000000000; minimum = pos 0 }

abbrev timer_bytes : List ℕ
timer_bytes =
    octets32 little 3 ++ (octets32 little 1000 ++ (octets32 little 10000 ++ octets32 little 0))

abbrev sack : DelayedSack
sack = record { delay = pos 200000000; frequency = 2 }

abbrev sack_bytes : List ℕ
sack_bytes = octets32 little 3 ++ (octets32 little 200 ++ octets32 little 2)

decode_rto_info-encode_rto_info_example : decode_rto_info little timer_bytes ≡ ok timers
unfolding encode_rto_info duration_to_millis slice put octet
decode_rto_info-encode_rto_info_example =
    decode_rto_info-encode_rto_info little (replicate 16 7) 3 timers timer_bytes refl refl

decode_delayed_sack-encode_delayed_sack_example : decode_delayed_sack little sack_bytes ≡ ok sack
unfolding encode_delayed_sack duration_to_millis slice put octet
decode_delayed_sack-encode_delayed_sack_example =
    decode_delayed_sack-encode_delayed_sack little (replicate 12 7) 3 sack sack_bytes refl
      (omega arith) refl
