-- ===== src/Endpoint/Examples.antt =====
-- A list of two association ids, given out of order.
use go_sctp.Common.{ℕ, ◌+◌, ◌*◌, ◌≡◌, refl, List, [], ◌∷◌, length, All}
use mathlib.Core.List.{Perm}
use go_sctp.Bytes.{little, peek32, uint32, word32}
use go_sctp.Endpoint.{decode_assoc_ids, read_ids, sort, insert, has_twins, real_assoc_id}
use go_sctp.Common.{Option, none, ok, replicate, ◌++◌}
use go_sctp.Platform.{Platform, w64}
use go_sctp.Message.Receive.{MsgInfo}
use go_sctp.Endpoint.Receive.{
  RcvInfoError, IsRoutable, parse_endpoint_recv_cmsgs, parse_endpoint_recv_cmsgs-IsRoutable,
}
use go_sctp.Endpoint.Laws.{words, Increasing, IsReal, decode_assoc_ids-Increasing}

abbrev in_order : List ℕ
in_order = 4 ∷ 9 ∷ []

abbrev two_ids : List ℕ
two_ids = 2 ∷ 0 ∷ 0 ∷ 0 ∷ 9 ∷ 0 ∷ 0 ∷ 0 ∷ 4 ∷ 0 ∷ 0 ∷ 0 ∷ []

decode_assoc_ids-Increasing_example :
    Increasing in_order
    × All IsReal in_order
    × Perm (words little two_ids 4 (peek32 little two_ids 0)) in_order
    × (peek32 little two_ids 0 ≡ length in_order)
    × (length two_ids ≡ 4 + 4 * length in_order)
unfolding decode_assoc_ids read_ids sort insert has_twins real_assoc_id uint32 word32
decode_assoc_ids-Increasing_example = decode_assoc_ids-Increasing little two_ids in_order refl

abbrev host : Platform
host = record { order = little; word = w64; interface_name = λ i. none }

-- An SCTP_RCVINFO record of association 7.
abbrev rcv_info_of_7 : List ℕ
rcv_info_of_7 =
    44
    ∷ 0
    ∷ 0
    ∷ 0
    ∷ 0
    ∷ 0
    ∷ 0
    ∷ 0
    ∷ 132
    ∷ 0
    ∷ 0
    ∷ 0
    ∷ 3
    ∷ 0
    ∷ 0
    ∷ 0
    ∷ (replicate 24 0 ++ (7 ∷ 0 ∷ 0 ∷ 0 ∷ []))

parse_endpoint_recv_cmsgs-IsRoutable_example :
    (r : MsgInfo × Option RcvInfoError) × (parse_endpoint_recv_cmsgs host rcv_info_of_7 0x80 ≡ ok r)
    × IsRoutable r
parse_endpoint_recv_cmsgs-IsRoutable_example =
    parse_endpoint_recv_cmsgs-IsRoutable host rcv_info_of_7 0x80
