-- ===== src/Notification/Events/RoundTrip.antt =====
-- Each decoder undoes the kernel's layout of its event.
use go_sctp.Common.{ℕ, ◌+◌, ◌<◌, ◌^◌, ◌≡◌, refl, ok, List, Bool, true, false, arith, has_bits}
use go_sctp.Bytes.{Endian, little, big, octet, word16, word32, octets32, peek32}
use go_sctp.Bytes.Laws.{word16-octet, word32-octet}
use go_sctp.Platform.{Platform}
use go_sctp.Netip.{IpAddr}
use go_sctp.Notification.{
  AdaptationIndication, AssocChange, AssocReset, AuthEvent, PartialDelivery, RemoteError,
  SendFailed, StreamChange, adaptation_indication, assoc_change, assoc_reset, auth_event,
  partial_delivery, remote_error, send_failed, sender_dry, shutdown, stream_change,
}
use go_sctp.Notification.Layout.{event_bytes, bit, IsWf}
use go_sctp.Notification.Events.{
  cause_from_u32, decode_assoc_change, decode_remote_error, decode_shutdown, decode_sender_dry,
  decode_partial_delivery, decode_adaptation_indication, decode_auth_event, decode_assoc_reset,
  decode_stream_change, decode_send_failed,
}
use go_sctp.Notification.Events.Values.{
  decode_assoc_change_lem, decode_remote_error_lem, decode_shutdown_lem, decode_sender_dry_lem,
  decode_partial_delivery_lem, decode_adaptation_indication_lem, decode_auth_event_lem,
  decode_assoc_reset_lem, decode_stream_change_lem, decode_send_failed_lem,
}

one_bit : (a : Bool) → has_bits (bit 1 a) 1 ≡ a
one_bit true = refl
one_bit false = refl

two_bits :
    (a b : Bool) → (has_bits (bit 4 a + bit 8 b) 4 ≡ a) × (has_bits (bit 4 a + bit 8 b) 8 ≡ b)
two_bits true true = (refl, refl)
two_bits true false = (refl, refl)
two_bits false true = (refl, refl)
two_bits false false = (refl, refl)

abbrev fragment_bits : Bool → Bool → Bool → ℕ
fragment_bits u f l = bit 4 u + bit 2 f + bit 1 l

three_bits :
    (u f l : Bool)
    → (has_bits (fragment_bits u f l) 4 ≡ u)
      × (has_bits (fragment_bits u f l) 2 ≡ f)
      × (has_bits (fragment_bits u f l) 1 ≡ l)
      × (fragment_bits u f l < 2 ^ 16)
three_bits true true true = (refl, refl, refl, omega arith)
three_bits true true false = (refl, refl, refl, omega arith)
three_bits true false true = (refl, refl, refl, omega arith)
three_bits true false false = (refl, refl, refl, omega arith)
three_bits false true true = (refl, refl, refl, omega arith)
three_bits false true false = (refl, refl, refl, omega arith)
three_bits false false true = (refl, refl, refl, omega arith)
three_bits false false false = (refl, refl, refl, omega arith)

-- A cause in the low half of a host-order word keeps its network order.
cause_round_trip :
    (e : Endian) (c : ℕ)
    → c < 2 ^ 16
    → cause_from_u32 e (peek32 e (octets32 e (word16 e (octet big 2 0 c) (octet big 2 1 c))) 0) ≡ c
unfolding cause_from_u32 word32
cause_round_trip little c h = omega arith
cause_round_trip big c h = omega arith

module _ (p : Platform) (storage : IpAddr × ℕ → List ℕ) (e : Endian) where
  pub assoc_change_round_trip :
      (n : AssocChange)
      → IsWf p storage (assoc_change n)
      → decode_assoc_change e (event_bytes e storage (assoc_change n)) ≡ ok (assoc_change n)
  assoc_change_round_trip n w =
      rw (decode_assoc_change_lem e (event_bytes e storage (assoc_change n)) (omega arith)) (
        ground (
          arith,
          word16-octet e n.state,
          word16-octet big n.error,
          word16-octet e n.out_streams,
          word16-octet e n.in_streams,
          word32-octet e n.assoc_id,
        ))

  pub remote_error_round_trip :
      (n : RemoteError)
      → IsWf p storage (remote_error n)
      → decode_remote_error e (event_bytes e storage (remote_error n)) ≡ ok (remote_error n)
  remote_error_round_trip n w =
      rw (decode_remote_error_lem e (event_bytes e storage (remote_error n)) (omega arith))
        (ground (arith, word16-octet big n.error, word32-octet e n.assoc_id))

  pub shutdown_round_trip :
      (n : ℕ)
      → IsWf p storage (shutdown n)
      → decode_shutdown e (event_bytes e storage (shutdown n)) ≡ ok (shutdown n)
  shutdown_round_trip n w =
      rw (decode_shutdown_lem e (event_bytes e storage (shutdown n)) (omega arith))
        (ground (arith, word32-octet e n))

  pub sender_dry_round_trip :
      (n : ℕ)
      → IsWf p storage (sender_dry n)
      → decode_sender_dry e (event_bytes e storage (sender_dry n)) ≡ ok (sender_dry n)
  sender_dry_round_trip n w =
      rw (decode_sender_dry_lem e (event_bytes e storage (sender_dry n)) (omega arith))
        (ground (arith, word32-octet e n))

  pub partial_delivery_round_trip :
      (n : PartialDelivery)
      → IsWf p storage (partial_delivery n)
      → decode_partial_delivery e (bit 1 n.unordered) (event_bytes e storage (partial_delivery n))
        ≡ ok (partial_delivery n)
  partial_delivery_round_trip n w =
      rw
        (decode_partial_delivery_lem e (bit 1 n.unordered)
          (event_bytes e storage (partial_delivery n)) (omega arith))
        (ground (
          arith,
          word32-octet e n.stream,
          word32-octet e n.seq_num,
          word32-octet e n.assoc_id,
          one_bit n.unordered,
        ))

  pub adaptation_indication_round_trip :
      (n : AdaptationIndication)
      → IsWf p storage (adaptation_indication n)
      → decode_adaptation_indication e (event_bytes e storage (adaptation_indication n))
        ≡ ok (adaptation_indication n)
  adaptation_indication_round_trip n w =
      rw
        (decode_adaptation_indication_lem e (event_bytes e storage (adaptation_indication n))
          (omega arith))
        (ground (arith, word32-octet e n.indication, word32-octet e n.assoc_id))

  pub auth_event_round_trip :
      (n : AuthEvent)
      → IsWf p storage (auth_event n)
      → decode_auth_event e (event_bytes e storage (auth_event n)) ≡ ok (auth_event n)
  auth_event_round_trip n w =
      rw (decode_auth_event_lem e (event_bytes e storage (auth_event n)) (omega arith)) (
        ground (
          arith,
          word16-octet e n.key,
          word16-octet e n.alt_key,
          word32-octet e n.indication,
          word32-octet e n.assoc_id,
        ))

  pub assoc_reset_round_trip :
      (n : AssocReset)
      → IsWf p storage (assoc_reset n)
      → decode_assoc_reset e
          (bit 4 n.denied + bit 8 n.failed)
          (event_bytes e storage (assoc_reset n))
        ≡ ok (assoc_reset n)
  assoc_reset_round_trip n w =
      rw
        (decode_assoc_reset_lem e (bit 4 n.denied + bit 8 n.failed)
          (event_bytes e storage (assoc_reset n)) (omega arith))
        (ground (
          arith,
          word32-octet e n.local_tsn,
          word32-octet e n.remote_tsn,
          word32-octet e n.assoc_id,
          two_bits n.denied n.failed,
        ))

  pub stream_change_round_trip :
      (n : StreamChange)
      → IsWf p storage (stream_change n)
      → decode_stream_change e
          (bit 4 n.denied + bit 8 n.failed)
          (event_bytes e storage (stream_change n))
        ≡ ok (stream_change n)
  stream_change_round_trip n w =
      rw
        (decode_stream_change_lem e (bit 4 n.denied + bit 8 n.failed)
          (event_bytes e storage (stream_change n)) (omega arith))
        (ground (
          arith,
          word16-octet e n.in_streams,
          word16-octet e n.out_streams,
          word32-octet e n.assoc_id,
          two_bits n.denied n.failed,
        ))

  pub send_failed_round_trip :
      (n : SendFailed)
      → IsWf p storage (send_failed n)
      → decode_send_failed e (bit 1 n.sent) (event_bytes e storage (send_failed n))
        ≡ ok (send_failed n)
  send_failed_round_trip n w =
      rw
        (decode_send_failed_lem e (bit 1 n.sent) (event_bytes e storage (send_failed n))
          (omega arith))
        (ground (
          arith,
          word16-octet e n.stream,
          word32-octet big n.ppid,
          word32-octet e n.context,
          word32-octet e n.assoc_id,
          one_bit n.sent,
          cause_round_trip e n.error,
          three_bits n.unordered n.first_fragment n.last_fragment,
          word16-octet e (bit 4 n.unordered + bit 2 n.first_fragment + bit 1 n.last_fragment),
        ))
