-- ===== src/Notification/Events/Safety.antt =====
-- No decoder of an event reads or cuts out of range, and each returns its own type of notification.
use go_sctp.Common.{
  ℕ, zero, suc, ◌+◌, ◌*◌, ◌/◌, ◌≤◌, ◌≢◌, ok, err, panic, Outcome, refl, List, length, arith, drop,
  take, >>=-ne-panic, ltb, Bool-cases, inl, inr, ◌-◌,
}
use go_sctp.Bytes.{Endian, uint16, uint32, slice}
use go_sctp.Bytes.Laws.{uint16_lem, uint32_lem, slice_lem}
use go_sctp.Platform.{Platform}
use go_sctp.Sockaddr.{SockaddrError}
use go_sctp.Sockaddr.Decode.Safety.{decode_addr-ne-panic}
use go_sctp.Notification.{NotificationError, wrap_sockaddr}
use go_sctp.Notification.Events.{
  tail_from, decode_streams, decode_stream_reset, decode_peer_addr_change, decode_assoc_change,
  decode_remote_error, decode_shutdown, decode_partial_delivery, decode_adaptation_indication,
  decode_auth_event, decode_sender_dry, decode_assoc_reset, decode_stream_change,
  decode_send_failed,
}

tail_from-ne-panic : {E : Type 0} (b : List ℕ) (size : ℕ) → tail_from {E = E} b size ≢ panic
unfolding tail_from
tail_from-ne-panic b size = ground arith

pub decode_assoc_change-ne-panic : (e : Endian) (b : List ℕ) → decode_assoc_change e b ≢ panic
unfolding decode_assoc_change uint16 uint32
decode_assoc_change-ne-panic e b = ground (arith, tail_from-ne-panic {E = NotificationError} b 20)

pub decode_remote_error-ne-panic : (e : Endian) (b : List ℕ) → decode_remote_error e b ≢ panic
unfolding decode_remote_error uint16 uint32
decode_remote_error-ne-panic e b = ground (arith, tail_from-ne-panic {E = NotificationError} b 16)

pub decode_shutdown-ne-panic : (e : Endian) (b : List ℕ) → decode_shutdown e b ≢ panic
unfolding decode_shutdown uint16 uint32
decode_shutdown-ne-panic e b = ground arith

pub decode_partial_delivery-ne-panic :
    (e : Endian) (flags : ℕ) (b : List ℕ) → decode_partial_delivery e flags b ≢ panic
unfolding decode_partial_delivery uint16 uint32
decode_partial_delivery-ne-panic e flags b = ground arith

pub decode_adaptation_indication-ne-panic :
    (e : Endian) (b : List ℕ) → decode_adaptation_indication e b ≢ panic
unfolding decode_adaptation_indication uint16 uint32
decode_adaptation_indication-ne-panic e b = ground arith

pub decode_auth_event-ne-panic : (e : Endian) (b : List ℕ) → decode_auth_event e b ≢ panic
unfolding decode_auth_event uint16 uint32
decode_auth_event-ne-panic e b = ground arith

pub decode_sender_dry-ne-panic : (e : Endian) (b : List ℕ) → decode_sender_dry e b ≢ panic
unfolding decode_sender_dry uint16 uint32
decode_sender_dry-ne-panic e b = ground arith

pub decode_assoc_reset-ne-panic :
    (e : Endian) (flags : ℕ) (b : List ℕ) → decode_assoc_reset e flags b ≢ panic
unfolding decode_assoc_reset uint16 uint32
decode_assoc_reset-ne-panic e flags b = ground arith

pub decode_stream_change-ne-panic :
    (e : Endian) (flags : ℕ) (b : List ℕ) → decode_stream_change e flags b ≢ panic
unfolding decode_stream_change uint16 uint32
decode_stream_change-ne-panic e flags b = ground arith

pub decode_send_failed-ne-panic :
    (e : Endian) (flags : ℕ) (b : List ℕ) → decode_send_failed e flags b ≢ panic
unfolding decode_send_failed uint16 uint32
decode_send_failed-ne-panic e flags b =
    ground (arith, tail_from-ne-panic {E = NotificationError} b 32)

decode_streams-ne-panic :
    {E : Type 0} (e : Endian) (tail : List ℕ) (i n : ℕ)
    → (i + n) * 2 ≤ length tail
    → decode_streams {E = E} e tail i n ≢ panic
unfolding decode_streams
decode_streams-ne-panic e tail i zero h = λ k. cc
decode_streams-ne-panic e tail i (suc n) h =
    rw (uint16_lem e tail (i * 2) (omega arith))
      (>>=-ne-panic _ _ (decode_streams-ne-panic e tail (i + 1) n (omega arith)) (λ s r k. cc))

pub decode_stream_reset-ne-panic :
    (e : Endian) (flags : ℕ) (b : List ℕ) → decode_stream_reset e flags b ≢ panic
unfolding decode_stream_reset uint32 slice
decode_stream_reset-ne-panic e flags b =
    let tail = take (length b - 12) (drop 12 b) in
    ground (
      arith,
      decode_streams-ne-panic {E = NotificationError} e tail 0 (length tail / 2) (omega arith),
    )

wrap_sockaddr-ne-panic :
    {A : Type 0} (m : Outcome SockaddrError A) → m ≢ panic → wrap_sockaddr m ≢ panic
wrap_sockaddr-ne-panic (ok a) h = λ k. cc
wrap_sockaddr-ne-panic (err e) h = λ k. cc
wrap_sockaddr-ne-panic panic h = absurd (h refl)

pub decode_peer_addr_change-ne-panic :
    (p : Platform) (order : Endian) (b : List ℕ) → decode_peer_addr_change p order b ≢ panic
unfolding decode_peer_addr_change
decode_peer_addr_change-ne-panic p order b = elim (Bool-cases (ltb (length b) 148)) [
  | inl few ↦ rw few (λ k. cc)
  | inr many ↦
      let long : 148 ≤ length b = ground arith in
      rw (many, slice_lem b 8 136 (omega arith) (omega arith))
        (>>=-ne-panic _ _ (wrap_sockaddr-ne-panic _ (decode_addr-ne-panic p (take 128 (drop 8 b))))
          (λ addr read.
            rw
              (
                uint32_lem order b 136 (omega arith),
                uint32_lem order b 140 (omega arith),
                uint32_lem order b 144 (omega arith),
              )
              (λ k. cc)))
]
