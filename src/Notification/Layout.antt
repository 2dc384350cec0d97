-- ===== src/Notification/Layout.antt =====
-- The kernel's side, independent of the parser: the bytes of each notification as the structs of
-- include/uapi/linux/sctp.h lay them out, field by field.
use go_sctp.Common.{
  ℕ, ◌+◌, ◌-◌, ◌≤◌, ◌<◌, ◌^◌, ◌≡◌, ◌≢◌, ◌⊎◌, List, [], ◌∷◌, ◌++◌, Bool, true, false, ok, length,
  All, leb, if◌then◌else◌,
}
use go_sctp.Bytes.{Endian, big, octet, word16, octets16, octets32, peek16, peek32}
use go_sctp.Netip.{IpAddr}
use go_sctp.Platform.{Platform}
use go_sctp.Sockaddr.Decode.{decode_addr}
use go_sctp.Notification.{
  event_type, Notification, assoc_change, peer_addr_change, send_failed, remote_error, shutdown,
  sender_dry, partial_delivery, adaptation_indication, auth_event, stream_reset, assoc_reset,
  stream_change, unknown_notification,
}

-- A flag bit.
abbrev pub bit : ℕ → Bool → ℕ
bit m true = m
bit m false = 0

-- The header { type(2) flags(2) length(4) } before the fields `body`.
abbrev pub with_header : Endian → ℕ → ℕ → List ℕ → List ℕ
with_header e typ flags body =
    octets16 e typ ++ (octets16 e flags ++ (octets32 e (8 + length body) ++ body))

abbrev pub stream_octets : Endian → List ℕ → List ℕ
stream_octets e [] = []
stream_octets e (s ∷ ss) = octets16 e s ++ stream_octets e ss

-- The raw `spc_error` of a reason.
abbrev pub raw_reason : ℕ → ℕ
raw_reason r = if leb r 1 then 0 else if leb (2 ^ 31) r then r else r - 1

-- The flags of the header.
abbrev pub event_flags : Notification → ℕ
event_flags (assoc_change n) = 0
event_flags (peer_addr_change n) = 0
event_flags (send_failed n) = bit 1 n.sent
event_flags (remote_error n) = 0
event_flags (shutdown id) = 0
event_flags (sender_dry id) = 0
event_flags (partial_delivery n) = bit 1 n.unordered
event_flags (adaptation_indication n) = 0
event_flags (auth_event n) = 0
event_flags (stream_reset n) = bit 1 n.incoming + bit 2 n.outgoing + bit 4 n.denied + bit 8 n.failed
event_flags (assoc_reset n) = bit 4 n.denied + bit 8 n.failed
event_flags (stream_change n) = bit 4 n.denied + bit 8 n.failed
event_flags (unknown_notification d) = 0

-- The fields behind the header. `storage` gives the 128 bytes that the kernel fills in for an address;
-- the streams of an SCTP_STREAM_RESET_EVENT follow its fixed fields.
abbrev pub event_body : Endian → (IpAddr × ℕ → List ℕ) → Notification → List ℕ
event_body e storage (assoc_change n) =
    octets16 e n.state
    ++ (octets16 big n.error
        ++ (octets16 e n.out_streams
            ++ (octets16 e n.in_streams ++ (octets32 e n.assoc_id ++ n.info))))
event_body e storage (peer_addr_change n) =
    storage n.addr
    ++ (octets32 e n.state ++ (octets32 e (raw_reason n.reason) ++ octets32 e n.assoc_id))
event_body e storage (send_failed n) =
    octets32 e (word16 e (octet big 2 0 n.error) (octet big 2 1 n.error))
    ++ (octets16 e n.stream
        ++ (octets16 e (bit 4 n.unordered + bit 2 n.first_fragment + bit 1 n.last_fragment)
            ++ (octets32 big n.ppid
                ++ (octets32 e n.context
                    ++ (octets32 e 0 ++ (octets32 e n.assoc_id ++ n.payload))))))
event_body e storage (remote_error n) =
    octets16 big n.error ++ (octets16 e 0 ++ (octets32 e n.assoc_id ++ n.payload))
event_body e storage (shutdown id) = octets32 e id
event_body e storage (sender_dry id) = octets32 e id
event_body e storage (partial_delivery n) =
    octets32 e 0 ++ (octets32 e n.assoc_id ++ (octets32 e n.stream ++ octets32 e n.seq_num))
event_body e storage (adaptation_indication n) = octets32 e n.indication ++ octets32 e n.assoc_id
event_body e storage (auth_event n) =
    octets16 e n.key ++ (octets16 e n.alt_key ++ (octets32 e n.indication ++ octets32 e n.assoc_id))
event_body e storage (stream_reset n) = octets32 e n.assoc_id ++ stream_octets e n.streams
event_body e storage (assoc_reset n) =
    octets32 e n.assoc_id ++ (octets32 e n.local_tsn ++ octets32 e n.remote_tsn)
event_body e storage (stream_change n) =
    octets32 e n.assoc_id ++ (octets16 e n.in_streams ++ octets16 e n.out_streams)
event_body e storage (unknown_notification d) = []

-- The whole record. An unknown one is its bytes.
abbrev pub event_bytes : Endian → (IpAddr × ℕ → List ℕ) → Notification → List ℕ
event_bytes e storage (unknown_notification d) = d
event_bytes e storage n = with_header e (event_type e n) (event_flags n) (event_body e storage n)

abbrev pub U16 : ℕ → Type 0
U16 v = v < 2 ^ 16

abbrev pub U32 : ℕ → Type 0
U32 v = v < 2 ^ 32

-- The reasons that the kernel's values decode to, in each state.
abbrev pub IsReason : ℕ → ℕ → Type 0
IsReason r state = ((r ≡ 0) × (state ≢ 1)) ⊎ (((r ≡ 1) × (state ≡ 1)) ⊎ ((2 ≤ r) × U32 r))

abbrev pub IsKnown : ℕ → Type 0
IsKnown t = ((0x8001 ≤ t) × (t ≤ 0x8002)) ⊎ ((0x8004 ≤ t) × (t ≤ 0x800d))

-- Every field fits its width; an address is one that its storage decodes to; an unknown record is
-- whole and of another type.
abbrev pub IsWf : Platform → (IpAddr × ℕ → List ℕ) → Notification → Type 0
IsWf p storage (assoc_change n) =
    U16 n.state × U16 n.error × U16 n.out_streams × U16 n.in_streams × U32 n.assoc_id
IsWf p storage (peer_addr_change n) =
    (length (storage n.addr) ≡ 128)
    × (decode_addr p (storage n.addr) ≡ ok n.addr)
    × U32 n.state
    × IsReason n.reason n.state
    × U32 n.assoc_id
IsWf p storage (send_failed n) =
    U16 n.error × U16 n.stream × U32 n.ppid × U32 n.context × U32 n.assoc_id
IsWf p storage (remote_error n) = U16 n.error × U32 n.assoc_id
IsWf p storage (shutdown id) = U32 id
IsWf p storage (sender_dry id) = U32 id
IsWf p storage (partial_delivery n) = U32 n.stream × U32 n.seq_num × U32 n.assoc_id
IsWf p storage (adaptation_indication n) = U32 n.indication × U32 n.assoc_id
IsWf p storage (auth_event n) = U16 n.key × U16 n.alt_key × U32 n.indication × U32 n.assoc_id
IsWf p storage (stream_reset n) = All U16 n.streams × U32 n.assoc_id
IsWf p storage (assoc_reset n) = U32 n.local_tsn × U32 n.remote_tsn × U32 n.assoc_id
IsWf p storage (stream_change n) = U16 n.in_streams × U16 n.out_streams × U32 n.assoc_id
IsWf p storage (unknown_notification d) =
    (8 ≤ length d) × (peek32 p.order d 4 ≡ length d) × ¬ IsKnown (peek16 p.order d 0)
