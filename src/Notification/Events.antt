-- ===== src/Notification/Events.antt =====
-- notification.go, ParseNotification: the decoder of each event type, for a record that is cut to its
-- declared length.
pub mod Safety
pub mod RoundTrip
pub mod Variable
pub mod Values
use go_sctp.Common.{◌-◌, ℕ, zero, suc, ◌+◌, ◌*◌, ◌/◌, ◌%◌, ◌^◌, List, [], ◌∷◌, ◌||◌, not}
use go_sctp.Common.{
  ltb, leb, ◌==◌, if◌then◌else◌, length, has_bits, Outcome, ok, ◌>>=◌, ◌>>◌, refuse,
}
use go_sctp.Bytes.{Endian, big, uint16, uint32, slice, octet, word16}
use go_sctp.Platform.{Platform}
use go_sctp.Sockaddr.Decode.{decode_addr}
use go_sctp.Notification.{
  Notification, assoc_change, peer_addr_change, send_failed, remote_error, shutdown, sender_dry,
  partial_delivery, adaptation_indication, auth_event, stream_reset, assoc_reset, stream_change,
  NotificationError, short_notification, wrap_sockaddr,
}

-- A cause that the kernel keeps in the low half of a host-order word, in network order.
pub cause_from_u32 : Endian → ℕ → ℕ
unfolding octet word16
cause_from_u32 order v =
    let low = v % 2 ^ 16 in word16 big (octet order 2 0 low) (octet order 2 1 low)

-- The rest of the record, copied, and nothing where the record ends at `size`.
tail_from : {E : Type 0} → List ℕ → ℕ → Outcome E (List ℕ)
unfolding slice
tail_from b size = if ltb size (length b) then slice b size (length b) else ok []

pub decode_assoc_change : Endian → List ℕ → Outcome NotificationError Notification
decode_assoc_change e b = do
  refuse (ltb (length b) 20) short_notification
  state ← uint16 e b 8
  error ← uint16 big b 10
  out_streams ← uint16 e b 12
  in_streams ← uint16 e b 14
  assoc_id ← uint32 e b 16
  info ← tail_from b 20
  ok (
      assoc_change (record {
        state = state;
        error = error;
        out_streams = out_streams;
        in_streams = in_streams;
        assoc_id = assoc_id;
        info = info;
      }))

-- `raw` and the state are bit patterns of int32 values: a negative one is 2 ^ 31 or more.
decode_addr_change_reason : ℕ → ℕ → ℕ
decode_addr_change_reason raw state =
    if raw == 0
    then if state == 1 then 1 else 0
    else if leb (2 ^ 31) raw || raw == 2 ^ 31 - 1
    then raw
    else raw + 1

pub decode_peer_addr_change : Platform → Endian → List ℕ → Outcome NotificationError Notification
decode_peer_addr_change p order b = do
  refuse (ltb (length b) 148) short_notification
  storage ← slice b 8 136
  addr ← wrap_sockaddr (decode_addr p storage)
  state ← uint32 order b 136
  reason ← uint32 order b 140
  assoc_id ← uint32 order b 144
  ok (
      peer_addr_change (record {
        addr = addr;
        state = state;
        reason = decode_addr_change_reason reason state;
        assoc_id = assoc_id;
      }))

pub decode_remote_error : Endian → List ℕ → Outcome NotificationError Notification
decode_remote_error e b = do
  refuse (ltb (length b) 16) short_notification
  error ← uint16 big b 8
  assoc_id ← uint32 e b 12
  payload ← tail_from b 16
  ok (remote_error (record { error = error; assoc_id = assoc_id; payload = payload }))

pub decode_shutdown : Endian → List ℕ → Outcome NotificationError Notification
decode_shutdown e b = do
  refuse (ltb (length b) 12) short_notification
  assoc_id ← uint32 e b 8
  ok (shutdown assoc_id)

pub decode_partial_delivery : Endian → ℕ → List ℕ → Outcome NotificationError Notification
decode_partial_delivery e flags b = do
  refuse (ltb (length b) 24) short_notification
  stream ← uint32 e b 16
  seq_num ← uint32 e b 20
  assoc_id ← uint32 e b 12
  ok (
      partial_delivery (record {
        stream = stream;
        seq_num = seq_num;
        unordered = has_bits flags 1;
        assoc_id = assoc_id;
      }))

pub decode_adaptation_indication : Endian → List ℕ → Outcome NotificationError Notification
decode_adaptation_indication e b = do
  refuse (ltb (length b) 16) short_notification
  indication ← uint32 e b 8
  assoc_id ← uint32 e b 12
  ok (adaptation_indication (record { indication = indication; assoc_id = assoc_id }))

pub decode_auth_event : Endian → List ℕ → Outcome NotificationError Notification
decode_auth_event e b = do
  refuse (ltb (length b) 20) short_notification
  key ← uint16 e b 8
  alt_key ← uint16 e b 10
  indication ← uint32 e b 12
  assoc_id ← uint32 e b 16
  ok (
      auth_event
        (record { key = key; alt_key = alt_key; indication = indication; assoc_id = assoc_id }))

pub decode_sender_dry : Endian → List ℕ → Outcome NotificationError Notification
decode_sender_dry e b = do
  refuse (ltb (length b) 12) short_notification
  assoc_id ← uint32 e b 8
  ok (sender_dry assoc_id)

-- The `n` stream numbers of the tail from number `i` on.
decode_streams : {E : Type 0} → Endian → List ℕ → ℕ → ℕ → Outcome E (List ℕ)
decode_streams e tail i zero = ok []
decode_streams e tail i (suc n) = do
  stream ← uint16 e tail (i * 2)
  streams ← decode_streams e tail (i + 1) n
  ok (stream ∷ streams)

pub decode_stream_reset : Endian → ℕ → List ℕ → Outcome NotificationError Notification
decode_stream_reset e flags b = do
  refuse (ltb (length b) 12) short_notification
  tail ← slice b 12 (length b)
  refuse (not (length tail % 2 == 0)) short_notification
  streams ← decode_streams e tail 0 (length tail / 2)
  assoc_id ← uint32 e b 8
  ok (
      stream_reset (record {
        incoming = has_bits flags 1;
        outgoing = has_bits flags 2;
        denied = has_bits flags 4;
        failed = has_bits flags 8;
        streams = streams;
        assoc_id = assoc_id;
      }))

pub decode_assoc_reset : Endian → ℕ → List ℕ → Outcome NotificationError Notification
decode_assoc_reset e flags b = do
  refuse (ltb (length b) 20) short_notification
  local_tsn ← uint32 e b 12
  remote_tsn ← uint32 e b 16
  assoc_id ← uint32 e b 8
  ok (
      assoc_reset (record {
        denied = has_bits flags 4;
        failed = has_bits flags 8;
        local_tsn = local_tsn;
        remote_tsn = remote_tsn;
        assoc_id = assoc_id;
      }))

pub decode_stream_change : Endian → ℕ → List ℕ → Outcome NotificationError Notification
decode_stream_change e flags b = do
  refuse (ltb (length b) 16) short_notification
  in_streams ← uint16 e b 12
  out_streams ← uint16 e b 14
  assoc_id ← uint32 e b 8
  ok (
      stream_change (record {
        denied = has_bits flags 4;
        failed = has_bits flags 8;
        in_streams = in_streams;
        out_streams = out_streams;
        assoc_id = assoc_id;
      }))

pub decode_send_failed : Endian → ℕ → List ℕ → Outcome NotificationError Notification
decode_send_failed e flags b = do
  refuse (ltb (length b) 32) short_notification
  snd_flags ← uint16 e b 14
  error ← uint32 e b 8
  stream ← uint16 e b 12
  ppid ← uint32 big b 16
  context ← uint32 e b 20
  assoc_id ← uint32 e b 28
  payload ← tail_from b 32
  ok (
      send_failed (record {
        error = cause_from_u32 e error;
        sent = has_bits flags 1;
        stream = stream;
        ppid = ppid;
        context = context;
        unordered = has_bits snd_flags 4;
        first_fragment = has_bits snd_flags 2;
        last_fragment = has_bits snd_flags 1;
        assoc_id = assoc_id;
        payload = payload;
      }))
