-- ===== src/Notification/Events/Values.antt =====
-- What the decoder of each event returns on a record that is long enough.
use go_sctp.Common.{
  ℕ, ◌-◌, ◌≤◌, ◌≡◌, ok, List, length, arith, drop, ltb, le→ltb, has_bits, Bool-cases, inl, inr, ap,
  sym, drop_all, take_all, length-drop,
}
use go_sctp.Bytes.{Endian, big, peek16, peek32}
use go_sctp.Bytes.Laws.{uint16_lem, uint32_lem, slice_lem}
use go_sctp.Notification.{
  assoc_change, remote_error, shutdown, sender_dry, partial_delivery, adaptation_indication,
  auth_event, assoc_reset, stream_change, send_failed,
}
use go_sctp.Notification.Events.{
  tail_from, cause_from_u32, decode_assoc_change, decode_remote_error, decode_shutdown,
  decode_sender_dry, decode_partial_delivery, decode_adaptation_indication, decode_auth_event,
  decode_assoc_reset, decode_stream_change, decode_send_failed,
}

tail_from_lem :
    {E : Type 0} (b : List ℕ) (n : ℕ) → n ≤ length b → tail_from {E = E} b n ≡ ok (drop n b)
unfolding tail_from
tail_from_lem b n h = elim (Bool-cases (ltb n (length b))) [
  | inl more ↦
      rw (more, slice_lem b n (length b) h (omega arith))
        (ap ok (take_all (length b - n) (drop n b) (omega (arith, length-drop n b))))
  | inr done ↦ rw done (ap ok (sym (drop_all n b (ground arith))))
]

pub decode_assoc_change_lem :
    (e : Endian) (b : List ℕ)
    → 20 ≤ length b
    → decode_assoc_change e b
      ≡ ok (
          assoc_change (record {
            state = peek16 e b 8;
            error = peek16 big b 10;
            out_streams = peek16 e b 12;
            in_streams = peek16 e b 14;
            assoc_id = peek32 e b 16;
            info = drop 20 b;
          }))
unfolding decode_assoc_change
decode_assoc_change_lem e b h = rw (
  le→ltb (length b) 20 h,
  uint16_lem e b 8 (omega arith),
  uint16_lem big b 10 (omega arith),
  uint16_lem e b 12 (omega arith),
  uint16_lem e b 14 (omega arith),
  uint32_lem e b 16 (omega arith),
  tail_from_lem b 20 h,
)

pub decode_remote_error_lem :
    (e : Endian) (b : List ℕ)
    → 16 ≤ length b
    → decode_remote_error e b
      ≡ ok (
          remote_error
            (record { error = peek16 big b 8; assoc_id = peek32 e b 12; payload = drop 16 b }))
unfolding decode_remote_error
decode_remote_error_lem e b h = rw (
  le→ltb (length b) 16 h,
  uint16_lem big b 8 (omega arith),
  uint32_lem e b 12 (omega arith),
  tail_from_lem b 16 h,
)

pub decode_shutdown_lem :
    (e : Endian) (b : List ℕ) → 12 ≤ length b → decode_shutdown e b ≡ ok (shutdown (peek32 e b 8))
unfolding decode_shutdown
decode_shutdown_lem e b h = rw (le→ltb (length b) 12 h, uint32_lem e b 8 (omega arith))

pub decode_sender_dry_lem :
    (e : Endian) (b : List ℕ)
    → 12 ≤ length b
    → decode_sender_dry e b ≡ ok (sender_dry (peek32 e b 8))
unfolding decode_sender_dry
decode_sender_dry_lem e b h = rw (le→ltb (length b) 12 h, uint32_lem e b 8 (omega arith))

pub decode_partial_delivery_lem :
    (e : Endian) (flags : ℕ) (b : List ℕ)
    → 24 ≤ length b
    → decode_partial_delivery e flags b
      ≡ ok (
          partial_delivery (record {
            stream = peek32 e b 16;
            seq_num = peek32 e b 20;
            unordered = has_bits flags 1;
            assoc_id = peek32 e b 12;
          }))
unfolding decode_partial_delivery
decode_partial_delivery_lem e flags b h = rw (
  le→ltb (length b) 24 h,
  uint32_lem e b 16 (omega arith),
  uint32_lem e b 20 (omega arith),
  uint32_lem e b 12 (omega arith),
)

pub decode_adaptation_indication_lem :
    (e : Endian) (b : List ℕ)
    → 16 ≤ length b
    → decode_adaptation_indication e b
      ≡ ok (adaptation_indication (record { indication = peek32 e b 8; assoc_id = peek32 e b 12 }))
unfolding decode_adaptation_indication
decode_adaptation_indication_lem e b h =
    rw (le→ltb (length b) 16 h, uint32_lem e b 8 (omega arith), uint32_lem e b 12 (omega arith))

pub decode_auth_event_lem :
    (e : Endian) (b : List ℕ)
    → 20 ≤ length b
    → decode_auth_event e b
      ≡ ok (
          auth_event (record {
            key = peek16 e b 8;
            alt_key = peek16 e b 10;
            indication = peek32 e b 12;
            assoc_id = peek32 e b 16;
          }))
unfolding decode_auth_event
decode_auth_event_lem e b h = rw (
  le→ltb (length b) 20 h,
  uint16_lem e b 8 (omega arith),
  uint16_lem e b 10 (omega arith),
  uint32_lem e b 12 (omega arith),
  uint32_lem e b 16 (omega arith),
)

pub decode_assoc_reset_lem :
    (e : Endian) (flags : ℕ) (b : List ℕ)
    → 20 ≤ length b
    → decode_assoc_reset e flags b
      ≡ ok (
          assoc_reset (record {
            denied = has_bits flags 4;
            failed = has_bits flags 8;
            local_tsn = peek32 e b 12;
            remote_tsn = peek32 e b 16;
            assoc_id = peek32 e b 8;
          }))
unfolding decode_assoc_reset
decode_assoc_reset_lem e flags b h = rw (
  le→ltb (length b) 20 h,
  uint32_lem e b 12 (omega arith),
  uint32_lem e b 16 (omega arith),
  uint32_lem e b 8 (omega arith),
)

pub decode_stream_change_lem :
    (e : Endian) (flags : ℕ) (b : List ℕ)
    → 16 ≤ length b
    → decode_stream_change e flags b
      ≡ ok (
          stream_change (record {
            denied = has_bits flags 4;
            failed = has_bits flags 8;
            in_streams = peek16 e b 12;
            out_streams = peek16 e b 14;
            assoc_id = peek32 e b 8;
          }))
unfolding decode_stream_change
decode_stream_change_lem e flags b h = rw (
  le→ltb (length b) 16 h,
  uint16_lem e b 12 (omega arith),
  uint16_lem e b 14 (omega arith),
  uint32_lem e b 8 (omega arith),
)

pub decode_send_failed_lem :
    (e : Endian) (flags : ℕ) (b : List ℕ)
    → 32 ≤ length b
    → decode_send_failed e flags b
      ≡ ok (
          send_failed (record {
            error = cause_from_u32 e (peek32 e b 8);
            sent = has_bits flags 1;
            stream = peek16 e b 12;
            ppid = peek32 big b 16;
            context = peek32 e b 20;
            unordered = has_bits (peek16 e b 14) 4;
            first_fragment = has_bits (peek16 e b 14) 2;
            last_fragment = has_bits (peek16 e b 14) 1;
            assoc_id = peek32 e b 28;
            payload = drop 32 b;
          }))
unfolding decode_send_failed
decode_send_failed_lem e flags b h = rw (
  le→ltb (length b) 32 h,
  uint16_lem e b 14 (omega arith),
  uint32_lem e b 8 (omega arith),
  uint16_lem e b 12 (omega arith),
  uint32_lem big b 16 (omega arith),
  uint32_lem e b 20 (omega arith),
  uint32_lem e b 28 (omega arith),
  tail_from_lem b 32 h,
)
