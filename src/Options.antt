-- ===== src/Options.antt =====
-- options.go: the structs of the socket options, encoded into and decoded from their buffers. An
-- int32 is the uint32 with its bits.
pub mod Lists
pub mod Laws
mod Examples
use go_sctp.Common.{
  ℕ, ◌+◌, ◌*◌, ◌%◌, ◌^◌, List, [], Bool, true, false, not, ◌&&◌, ◌||◌, Option, none, some, ltb,
  ◌==◌, if◌then◌else◌, length, replicate, ℤ, Outcome, ok, err, panic, ◌>>=◌, ◌>>◌, refuse, pos,
}
use go_sctp.Bytes.{Endian, uint16, uint32, uint64, slice, put, octets16, octets32}
use go_sctp.Platform.{Platform}
use go_sctp.Netip.{IpAddr, invalid}
use go_sctp.Sockaddr.{SockaddrError}
use go_sctp.Sockaddr.Decode.{decode_addr}
use go_sctp.Duration.{
  ArgError, is_zero, out_of_range, not_applicable, duration_to_millis, millis_to_duration,
  max_uint32,
}

pub record RtoInfo : Type 0 where
  pub initial : ℤ
  pub maximum : ℤ
  pub minimum : ℤ

pub record AssocInfo : Type 0 where
  pub max_retrans : ℕ
  pub cookie_life : ℤ
  pub peer_destinations : ℕ
  pub peer_rwnd : ℕ
  pub local_rwnd : ℕ

pub record DelayedSack : Type 0 where
  pub delay : ℤ
  pub frequency : ℕ

pub record InitMsg : Type 0 where
  pub out_streams : ℕ
  pub max_in_streams : ℕ
  pub max_attempts : ℕ
  pub max_init_timeout : ℤ

pub record PathInfo : Type 0 where
  pub addr : IpAddr × ℕ
  pub state : ℕ
  pub cwnd : ℕ
  pub srtt_ticks : ℕ
  pub rto : ℤ
  pub mtu : ℕ

pub record Status : Type 0 where
  pub state : ℕ
  pub peer_rwnd : ℕ
  pub unacked : ℕ
  pub pending : ℕ
  pub in_streams : ℕ
  pub out_streams : ℕ
  pub fragmentation_point : ℕ
  pub primary : PathInfo

pub record PrStatus : Type 0 where
  pub abandoned_unsent : ℕ
  pub abandoned_sent : ℕ

pub record ThresholdValues : Type 0 where
  pub max_retrans : ℕ
  pub pf : ℕ
  pub switchover : ℕ

pub record PathThresholds : Type 0 where
  pub max_retrans : Option ℕ
  pub pf_threshold : Option ℕ
  pub primary_switchover : Option ℕ

abbrev pub max_sack_delay_ms : ℕ
max_sack_delay_ms = 500

pub encode_rto_info : Endian → List ℕ → ℕ → RtoInfo → Outcome ArgError (List ℕ)
encode_rto_info e b assoc r = do
  initial ← duration_to_millis r.initial max_uint32
  max_ms ← duration_to_millis r.maximum max_uint32
  min_ms ← duration_to_millis r.minimum max_uint32
  refuse (not (min_ms == 0) && not (max_ms == 0) && ltb max_ms min_ms) out_of_range
  b ← slice b 0 16
  b ← put b 0 (octets32 e assoc)
  b ← put b 4 (octets32 e initial)
  b ← put b 8 (octets32 e max_ms)
  put b 12 (octets32 e min_ms)

pub decode_rto_info : Endian → List ℕ → Outcome ArgError RtoInfo
decode_rto_info e b = do
  initial ← uint32 e b 4
  max_ms ← uint32 e b 8
  min_ms ← uint32 e b 12
  ok (record {
    initial = millis_to_duration initial;
    maximum = millis_to_duration max_ms;
    minimum = millis_to_duration min_ms;
  })

pub encode_assoc_info : Endian → List ℕ → ℕ → AssocInfo → Outcome ArgError (List ℕ)
encode_assoc_info e b assoc a = do
  cookie ← duration_to_millis a.cookie_life max_uint32
  room ← slice b 0 20
  b ← put (replicate 20 0) 0 (octets32 e assoc)
  b ← put b 4 (octets16 e a.max_retrans)
  put b 16 (octets32 e cookie)

pub decode_assoc_info : Endian → List ℕ → Outcome ArgError AssocInfo
decode_assoc_info e b = do
  max_retrans ← uint16 e b 4
  cookie ← uint32 e b 16
  peer_destinations ← uint16 e b 6
  peer_rwnd ← uint32 e b 8
  local_rwnd ← uint32 e b 12
  ok (record {
    max_retrans = max_retrans;
    cookie_life = millis_to_duration cookie;
    peer_destinations = peer_destinations;
    peer_rwnd = peer_rwnd;
    local_rwnd = local_rwnd;
  })

pub encode_delayed_sack : Endian → List ℕ → ℕ → DelayedSack → Outcome ArgError (List ℕ)
encode_delayed_sack e b assoc d = do
  delay ← duration_to_millis d.delay max_uint32
  refuse (ltb max_sack_delay_ms delay) out_of_range
  b ← slice b 0 12
  b ← put b 0 (octets32 e assoc)
  b ← put b 4 (octets32 e delay)
  put b 8 (octets32 e d.frequency)

pub decode_delayed_sack : Endian → List ℕ → Outcome ArgError DelayedSack
decode_delayed_sack e b = do
  delay ← uint32 e b 4
  frequency ← uint32 e b 8
  ok (record { delay = millis_to_duration delay; frequency = frequency })

pub decode_init_msg : Endian → List ℕ → Outcome ArgError InitMsg
decode_init_msg e b = do
  out_streams ← uint16 e b 0
  max_in_streams ← uint16 e b 2
  max_attempts ← uint16 e b 4
  timeout ← uint16 e b 6
  ok (record {
    out_streams = out_streams;
    max_in_streams = max_in_streams;
    max_attempts = max_attempts;
    max_init_timeout = millis_to_duration timeout;
  })

-- An address that does not decode is the zero AddrPort.
abbrev pub addr_or_zero : Outcome SockaddrError (IpAddr × ℕ) → Outcome ArgError (IpAddr × ℕ)
addr_or_zero (ok a) = ok a
addr_or_zero (err e) = ok (invalid, 0)
addr_or_zero panic = panic

pub decode_path_info : Platform → List ℕ → Outcome ArgError PathInfo
decode_path_info p b = do
  storage ← slice b 4 132
  addr ← addr_or_zero (decode_addr p storage)
  state ← uint32 p.order b 132
  cwnd ← uint32 p.order b 136
  srtt ← uint32 p.order b 140
  rto ← uint32 p.order b 144
  mtu ← uint32 p.order b 148
  ok (record {
    addr = addr;
    state = state;
    cwnd = cwnd;
    srtt_ticks = srtt;
    rto = millis_to_duration rto;
    mtu = mtu;
  })

pub decode_status : Platform → List ℕ → Outcome ArgError Status
unfolding decode_path_info
decode_status p b = do
  state ← uint32 p.order b 4
  rwnd ← uint32 p.order b 8
  unacked ← uint16 p.order b 12
  pending ← uint16 p.order b 14
  in_streams ← uint16 p.order b 16
  out_streams ← uint16 p.order b 18
  fragmentation_point ← uint32 p.order b 20
  field ← slice b 24 176
  primary ← decode_path_info p field
  ok (record {
    state = state;
    peer_rwnd = rwnd;
    unacked = unacked;
    pending = pending;
    in_streams = in_streams;
    out_streams = out_streams;
    fragmentation_point = fragmentation_point;
    primary = primary;
  })

pub pr_status_request : Endian → List ℕ → ℕ → ℕ → ℕ → Outcome ArgError (List ℕ)
pr_status_request e b assoc stream policy = do
  room ← slice b 0 24
  b ← put (replicate 24 0) 0 (octets32 e assoc)
  b ← put b 4 (octets16 e stream)
  put b 6 (octets16 e policy)

pub decode_pr_status : Endian → List ℕ → Outcome ArgError PrStatus
decode_pr_status e b = do
  unsent ← uint64 e b 8
  sent ← uint64 e b 16
  ok (record { abandoned_unsent = unsent; abandoned_sent = sent })

abbrev pub or_kept : Option ℕ → ℕ → ℕ
or_kept none cur = cur
or_kept (some v) cur = v

pub merge_path_thresholds : ThresholdValues → PathThresholds → Outcome ArgError ThresholdValues
merge_path_thresholds cur t = do
  refuse (elim t.max_retrans [ none ↦ false | some v ↦ v == 0 ]) is_zero
  ok (record {
    max_retrans = or_kept t.max_retrans cur.max_retrans;
    pf = or_kept t.pf_threshold cur.pf;
    switchover = or_kept t.primary_switchover cur.switchover;
  })
