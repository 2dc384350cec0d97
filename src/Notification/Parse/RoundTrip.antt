-- ===== src/Notification/Parse/RoundTrip.antt =====
-- Parsing undoes the kernel's layout of every notification, and does not look past the record.
use go_sctp.Common.{
  ℕ, ◌+◌, ◌-◌, ◌≤◌, ◌<◌, ◌^◌, ◌%◌, ◌≡◌, ap, ◌∙◌, ok, inl, inr, Bool-cases, some, List, ◌++◌, length,
  length-append, arith, take, take-append, get_or-append_left, le→ltb, false, ◌==◌,
}
use mathlib.Core.Path.{ap₂, subst}
use go_sctp.Bytes.{Endian, peek16, peek32}
use go_sctp.Bytes.Laws.{slice_lem, word16-octet, word32-octet}
use go_sctp.Netip.{IpAddr}
use go_sctp.Platform.{Platform}
use go_sctp.Notification.{
  event_type, Notification, notification_reassembly_limit, unknown_notification, assoc_change,
  peer_addr_change, remote_error, shutdown, partial_delivery, adaptation_indication, auth_event,
  sender_dry, stream_reset, assoc_reset, stream_change, send_failed, event_assoc_change,
  event_peer_addr_change, event_remote_error, event_shutdown, event_partial_delivery,
  event_adaptation_indication, event_authentication, event_sender_dry, event_stream_reset,
  event_assoc_reset, event_stream_change, event_send_failed,
}
use go_sctp.Notification.Layout.{
  event_bytes, event_body, event_flags, with_header, IsWf, IsKnown, U16,
}
use go_sctp.Notification.Events.RoundTrip.{
  assoc_change_round_trip, remote_error_round_trip, shutdown_round_trip,
  partial_delivery_round_trip, adaptation_indication_round_trip, auth_event_round_trip,
  sender_dry_round_trip, assoc_reset_round_trip, stream_change_round_trip, send_failed_round_trip,
}
use go_sctp.Notification.Events.Variable.{stream_reset_round_trip, peer_addr_change_round_trip}
use go_sctp.Notification.Parse.{decode_event, parse_record, notification_header, parse_notification}

notification_header_lem :
    {E : Type 0} (e : Endian) (b : List ℕ)
    → 8 ≤ length b
    → notification_header {E = E} e b ≡ ok (some (peek16 e b 0, peek16 e b 2, peek32 e b 4))
unfolding notification_header
notification_header_lem e b h = ground arith

-- The header of a record is not changed by what follows it.
header-append :
    (e : Endian) (b extra : List ℕ)
    → 8 ≤ length b
    → (peek16 e (b ++ extra) 0 ≡ peek16 e b 0)
      × (peek16 e (b ++ extra) 2 ≡ peek16 e b 2)
      × (peek32 e (b ++ extra) 4 ≡ peek32 e b 4)
header-append e b extra h =
    let at = λ (i : ℕ) (k : i < length b). get_or-append_left b extra i 0 k in
    (
      cc (at 0 (omega arith), at 1 (omega arith)),
      cc (at 2 (omega arith), at 3 (omega arith)),
      cc (at 4 (omega arith), at 5 (omega arith), at 6 (omega arith), at 7 (omega arith)),
    )

-- A record that is as long as its header says is decoded by its type, whatever follows it.
parse_notification-whole :
    (p : Platform) (b extra : List ℕ)
    → 8 ≤ length b
    → peek32 p.order b 4 ≡ length b
    → length b ≤ notification_reassembly_limit
    → length (b ++ extra) < 2 ^ 32
    → parse_notification p (b ++ extra) ≡ decode_event p (peek16 p.order b 0) (peek16 p.order b 2) b
unfolding parse_notification
parse_notification-whole p b extra long whole limit small =
    let (typ, flags, declared) = header-append p.order b extra long in
    let total = length-append b extra in
    rw (notification_header_lem p.order (b ++ extra) (omega arith)) (
      rw (typ, flags, declared, whole)
        (unfold parse_record in
          rw
            (
              le→ltb (length b) 8 long,
              le→ltb notification_reassembly_limit (length b) limit,
              le→ltb (length (b ++ extra) % 2 ^ 32) (length b) (omega arith),
              slice_lem (b ++ extra) 0 (length b) (omega arith) (omega arith),
            )
            (ap (decode_event p (peek16 p.order b 0) (peek16 p.order b 2)) cut)))
  where
    cut : take (length b - 0) (b ++ extra) ≡ b
    cut = ap (λ (k : ℕ). take k (b ++ extra)) (omega arith) ∙ take-append b extra

-- A record with a header that tells its length.
parse_layout :
    (p : Platform) (typ flags : ℕ) (body extra : List ℕ)
    → U16 typ
    → U16 flags
    → 8 + length body ≤ notification_reassembly_limit
    → length (with_header p.order typ flags body ++ extra) < 2 ^ 32
    → parse_notification p (with_header p.order typ flags body ++ extra)
      ≡ decode_event p typ flags (with_header p.order typ flags body)
parse_layout p typ flags body extra t f limit small =
    let b = with_header p.order typ flags body in
    parse_notification-whole p b extra (omega arith)
      (word32-octet p.order (8 + length body) (omega arith) ∙ omega arith) (omega arith) small
    ∙ ap₂ (λ (x y : ℕ). decode_event p x y b) (word16-octet p.order typ t)
        (word16-octet p.order flags f)

event_flags-lt : (n : Notification) → U16 (event_flags n)
event_flags-lt (assoc_change n) = ground arith
event_flags-lt (peer_addr_change n) = ground arith
event_flags-lt (remote_error n) = ground arith
event_flags-lt (shutdown n) = ground arith
event_flags-lt (partial_delivery n) = ground arith
event_flags-lt (adaptation_indication n) = ground arith
event_flags-lt (auth_event n) = ground arith
event_flags-lt (sender_dry n) = ground arith
event_flags-lt (stream_reset n) = ground arith
event_flags-lt (assoc_reset n) = ground arith
event_flags-lt (stream_change n) = ground arith
event_flags-lt (send_failed n) = ground arith
event_flags-lt (unknown_notification d) = omega arith

absent : (typ k : ℕ) → ¬ IsKnown typ → IsKnown k → (typ == k) ≡ false
absent typ k h known = elim (Bool-cases (typ == k)) [
  | inl e ↦ absurd (h (subst IsKnown (ground arith) known))
  | inr e ↦ e
]

decode_event-unknown :
    (p : Platform) (typ flags : ℕ) (d : List ℕ)
    → ¬ IsKnown typ
    → decode_event p typ flags d ≡ ok (unknown_notification d)
unfolding decode_event
decode_event-unknown p typ flags d h = rw (
  absent typ 0x8001 h (omega arith),
  absent typ 0x8002 h (omega arith),
  absent typ 0x8004 h (omega arith),
  absent typ 0x8005 h (omega arith),
  absent typ 0x8006 h (omega arith),
  absent typ 0x8007 h (omega arith),
  absent typ 0x8008 h (omega arith),
  absent typ 0x8009 h (omega arith),
  absent typ 0x800a h (omega arith),
  absent typ 0x800b h (omega arith),
  absent typ 0x800c h (omega arith),
  absent typ 0x800d h (omega arith),
)

-- Each event is decoded by the decoder of its type.
decode_event-bytes :
    (p : Platform) (storage : IpAddr × ℕ → List ℕ) (n : Notification)
    → IsWf p storage n
    → decode_event p (event_type p.order n) (event_flags n) (event_bytes p.order storage n) ≡ ok n
unfolding decode_event
decode_event-bytes p storage (assoc_change n) w = assoc_change_round_trip p storage p.order n w
decode_event-bytes p storage (peer_addr_change n) w =
    peer_addr_change_round_trip p storage p.order n w
decode_event-bytes p storage (remote_error n) w = remote_error_round_trip p storage p.order n w
decode_event-bytes p storage (shutdown n) w = shutdown_round_trip p storage p.order n w
decode_event-bytes p storage (partial_delivery n) w =
    partial_delivery_round_trip p storage p.order n w
decode_event-bytes p storage (adaptation_indication n) w =
    adaptation_indication_round_trip p storage p.order n w
decode_event-bytes p storage (auth_event n) w = auth_event_round_trip p storage p.order n w
decode_event-bytes p storage (sender_dry n) w = sender_dry_round_trip p storage p.order n w
decode_event-bytes p storage (stream_reset n) w = stream_reset_round_trip p storage p.order n w
decode_event-bytes p storage (assoc_reset n) w = assoc_reset_round_trip p storage p.order n w
decode_event-bytes p storage (stream_change n) w = stream_change_round_trip p storage p.order n w
decode_event-bytes p storage (send_failed n) w = send_failed_round_trip p storage p.order n w
decode_event-bytes p storage (unknown_notification d) (long, whole, other) =
    rw (le→ltb (length d) 8 long) (decode_event-unknown p (peek16 p.order d 0) 0 d other)

-- A notification that the kernel lays out, of at most the reassembly limit, is parsed as it is, and
-- the bytes behind it are not looked at, as long as the buffer's length fits a uint32.
pub parse_notification-event_bytes :
    (p : Platform) (storage : IpAddr × ℕ → List ℕ) (n : Notification) (extra : List ℕ)
    → IsWf p storage n
    → length (event_bytes p.order storage n) ≤ notification_reassembly_limit
    → length (event_bytes p.order storage n ++ extra) < 2 ^ 32
    → parse_notification p (event_bytes p.order storage n ++ extra) ≡ ok n
parse_notification-event_bytes p storage (assoc_change n) extra w limit small =
    parse_layout p event_assoc_change (event_flags (assoc_change n))
      (event_body p.order storage (assoc_change n)) extra (omega arith)
      (event_flags-lt (assoc_change n)) (omega arith) small
    ∙ decode_event-bytes p storage (assoc_change n) w
parse_notification-event_bytes p storage (peer_addr_change n) extra w limit small =
    parse_layout p event_peer_addr_change (event_flags (peer_addr_change n))
      (event_body p.order storage (peer_addr_change n)) extra (omega arith)
      (event_flags-lt (peer_addr_change n)) (omega arith) small
    ∙ decode_event-bytes p storage (peer_addr_change n) w
parse_notification-event_bytes p storage (remote_error n) extra w limit small =
    parse_layout p event_remote_error (event_flags (remote_error n))
      (event_body p.order storage (remote_error n)) extra (omega arith)
      (event_flags-lt (remote_error n)) (omega arith) small
    ∙ decode_event-bytes p storage (remote_error n) w
parse_notification-event_bytes p storage (shutdown n) extra w limit small =
    parse_layout p event_shutdown (event_flags (shutdown n))
      (event_body p.order storage (shutdown n)) extra (omega arith) (event_flags-lt (shutdown n))
      (omega arith) small
    ∙ decode_event-bytes p storage (shutdown n) w
parse_notification-event_bytes p storage (partial_delivery n) extra w limit small =
    parse_layout p event_partial_delivery (event_flags (partial_delivery n))
      (event_body p.order storage (partial_delivery n)) extra (omega arith)
      (event_flags-lt (partial_delivery n)) (omega arith) small
    ∙ decode_event-bytes p storage (partial_delivery n) w
parse_notification-event_bytes p storage (adaptation_indication n) extra w limit small =
    parse_layout p event_adaptation_indication (event_flags (adaptation_indication n))
      (event_body p.order storage (adaptation_indication n)) extra (omega arith)
      (event_flags-lt (adaptation_indication n)) (omega arith) small
    ∙ decode_event-bytes p storage (adaptation_indication n) w
parse_notification-event_bytes p storage (auth_event n) extra w limit small =
    parse_layout p event_authentication (event_flags (auth_event n))
      (event_body p.order storage (auth_event n)) extra (omega arith)
      (event_flags-lt (auth_event n)) (omega arith) small
    ∙ decode_event-bytes p storage (auth_event n) w
parse_notification-event_bytes p storage (sender_dry n) extra w limit small =
    parse_layout p event_sender_dry (event_flags (sender_dry n))
      (event_body p.order storage (sender_dry n)) extra (omega arith)
      (event_flags-lt (sender_dry n)) (omega arith) small
    ∙ decode_event-bytes p storage (sender_dry n) w
parse_notification-event_bytes p storage (stream_reset n) extra w limit small =
    parse_layout p event_stream_reset (event_flags (stream_reset n))
      (event_body p.order storage (stream_reset n)) extra (omega arith)
      (event_flags-lt (stream_reset n)) (omega arith) small
    ∙ decode_event-bytes p storage (stream_reset n) w
parse_notification-event_bytes p storage (assoc_reset n) extra w limit small =
    parse_layout p event_assoc_reset (event_flags (assoc_reset n))
      (event_body p.order storage (assoc_reset n)) extra (omega arith)
      (event_flags-lt (assoc_reset n)) (omega arith) small
    ∙ decode_event-bytes p storage (assoc_reset n) w
parse_notification-event_bytes p storage (stream_change n) extra w limit small =
    parse_layout p event_stream_change (event_flags (stream_change n))
      (event_body p.order storage (stream_change n)) extra (omega arith)
      (event_flags-lt (stream_change n)) (omega arith) small
    ∙ decode_event-bytes p storage (stream_change n) w
parse_notification-event_bytes p storage (send_failed n) extra w limit small =
    parse_layout p event_send_failed (event_flags (send_failed n))
      (event_body p.order storage (send_failed n)) extra (omega arith)
      (event_flags-lt (send_failed n)) (omega arith) small
    ∙ decode_event-bytes p storage (send_failed n) w
parse_notification-event_bytes p storage (unknown_notification d) extra (long, whole, other) limit
      small =
    parse_notification-whole p d extra long whole limit small ∙ decode_event-unknown p _ _ d other
