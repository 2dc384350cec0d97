-- ===== src/Notification/Parse.antt =====
-- notification.go, ParseNotification: the header, one decoder for each event type, and the dispatch.
pub mod RoundTrip
pub mod Safety
use go_sctp.Common.{
  ℕ, zero, suc, ◌+◌, ◌*◌, ◌/◌, ◌%◌, ◌^◌, List, [], ◌∷◌, Bool, true, ◌&&◌, ◌||◌, not, Option, none,
  some,
}
use go_sctp.Common.{
  ltb, leb, ◌==◌, if◌then◌else◌, length, has_bits, Outcome, ok, err, panic, ◌>>=◌, ◌>>◌, refuse,
}
use go_sctp.Bytes.{Endian, big, uint16, uint32, slice, octet, word16}
use go_sctp.Platform.{Platform}
use go_sctp.Sockaddr.Decode.{decode_addr}
use go_sctp.Notification.Events.{
  decode_assoc_change, decode_peer_addr_change, decode_remote_error, decode_shutdown,
  decode_partial_delivery, decode_adaptation_indication, decode_auth_event, decode_sender_dry,
  decode_stream_reset, decode_assoc_reset, decode_stream_change, decode_send_failed,
}
use go_sctp.Notification.{
  Notification, assoc_change, peer_addr_change, send_failed, remote_error, shutdown, sender_dry,
  partial_delivery, adaptation_indication, auth_event, stream_reset, assoc_reset, stream_change,
  unknown_notification, NotificationError, short_notification, notification_too_long, bad_sockaddr,
  wrap_sockaddr, event_assoc_change, event_peer_addr_change, event_remote_error, event_shutdown,
  event_partial_delivery, event_adaptation_indication, event_authentication, event_sender_dry,
  event_stream_reset, event_assoc_reset, event_stream_change, event_send_failed,
  notification_header_size, notification_reassembly_limit,
}

-- The type, the flags and the length.
unfoldable pub notification_header : {E : Type 0} → Endian → List ℕ → Outcome E (Option (ℕ × ℕ × ℕ))
unfolding uint16 uint32
notification_header e b = if ltb (length b) notification_header_size then ok none else (do
  typ ← uint16 e b 0
  flags ← uint16 e b 2
  declared ← uint32 e b 4
  ok (some (typ, flags, declared)))

-- `(sac_state, sac_assoc_id)` of the first bytes of a record.
unfoldable pub assoc_change_info : {E : Type 0} → Endian → List ℕ → Outcome E (Option (ℕ × ℕ))
unfolding uint16 uint32
assoc_change_info e b =
    if ltb (length b) 20
    then ok none
    else (do state ← uint16 e b 8; id ← uint32 e b 16; ok (some (state, id)))

-- The switch over the event type, for a record cut to its declared length.
pub decode_event : Platform → ℕ → ℕ → List ℕ → Outcome NotificationError Notification
decode_event p typ flags b =
    if typ == event_assoc_change
    then decode_assoc_change p.order b
    else if typ == event_peer_addr_change
    then decode_peer_addr_change p p.order b
    else if typ == event_remote_error
    then decode_remote_error p.order b
    else if typ == event_shutdown
    then decode_shutdown p.order b
    else if typ == event_partial_delivery
    then decode_partial_delivery p.order flags b
    else if typ == event_adaptation_indication
    then decode_adaptation_indication p.order b
    else if typ == event_authentication
    then decode_auth_event p.order b
    else if typ == event_sender_dry
    then decode_sender_dry p.order b
    else if typ == event_stream_reset
    then decode_stream_reset p.order flags b
    else if typ == event_assoc_reset
    then decode_assoc_reset p.order flags b
    else if typ == event_stream_change
    then decode_stream_change p.order flags b
    else if typ == event_send_failed
    then decode_send_failed p.order flags b
    else ok (unknown_notification b)

parse_record : Platform → List ℕ → Option (ℕ × ℕ × ℕ) → Outcome NotificationError Notification
parse_record p b none = err short_notification
parse_record p b (some (typ, flags, declared)) = do
  refuse (ltb declared notification_header_size) short_notification
  refuse (ltb notification_reassembly_limit declared) notification_too_long
  refuse (ltb (length b % 2 ^ 32) declared) short_notification
  whole ← slice b 0 declared
  decode_event p typ flags whole

pub parse_notification : Platform → List ℕ → Outcome NotificationError Notification
unfolding parse_record
parse_notification p b = do header ← notification_header p.order b; parse_record p b header
