-- ===== src/Notification/Parse/Safety.antt =====
-- `ParseNotification` never panics.
use go_sctp.Common.{
  ℕ, ◌≢◌, Bool, Outcome, if◌then◌else◌, if_cases, ◌==◌, panic, none, some, Option, List, arith,
  >>=-ne-panic, take, drop,
}
use go_sctp.Bytes.{Endian, slice}
use go_sctp.Platform.{Platform}
use go_sctp.Notification.{
  event_assoc_change, event_peer_addr_change, event_remote_error, event_shutdown,
  event_partial_delivery, event_adaptation_indication, event_authentication, event_sender_dry,
  event_stream_reset, event_assoc_reset, event_stream_change, event_send_failed,
}
use go_sctp.Notification.Events.Safety.{
  decode_assoc_change-ne-panic, decode_remote_error-ne-panic, decode_shutdown-ne-panic,
  decode_partial_delivery-ne-panic, decode_adaptation_indication-ne-panic,
  decode_auth_event-ne-panic, decode_sender_dry-ne-panic, decode_assoc_reset-ne-panic,
  decode_stream_change-ne-panic, decode_send_failed-ne-panic, decode_stream_reset-ne-panic,
  decode_peer_addr_change-ne-panic,
}
use go_sctp.Notification.Parse.{decode_event, parse_record, notification_header, parse_notification}

either :
    {E A : Type 0} (t : Bool) {x y : Outcome E A}
    → x ≢ panic
    → y ≢ panic
    → (if t then x else y) ≢ panic
either t h k = if_cases (λ m. m ≢ panic) t (λ e. h) (λ e. k)

decode_event-ne-panic :
    (p : Platform) (typ flags : ℕ) (b : List ℕ) → decode_event p typ flags b ≢ panic
unfolding decode_event
decode_event-ne-panic p typ flags b =
    either (typ == event_assoc_change) (decode_assoc_change-ne-panic p.order b) (
      either (typ == event_peer_addr_change) (decode_peer_addr_change-ne-panic p p.order b) (
        either (typ == event_remote_error) (decode_remote_error-ne-panic p.order b) (
          either (typ == event_shutdown) (decode_shutdown-ne-panic p.order b) (
            either (typ == event_partial_delivery)
              (decode_partial_delivery-ne-panic p.order flags b)
              (either (typ == event_adaptation_indication)
                (decode_adaptation_indication-ne-panic p.order b)
                (either (typ == event_authentication) (decode_auth_event-ne-panic p.order b) (
                  either (typ == event_sender_dry) (decode_sender_dry-ne-panic p.order b) (
                    either (typ == event_stream_reset)
                      (decode_stream_reset-ne-panic p.order flags b)
                      (either (typ == event_assoc_reset)
                        (decode_assoc_reset-ne-panic p.order flags b)
                        (either (typ == event_stream_change)
                          (decode_stream_change-ne-panic p.order flags b)
                          (either (typ == event_send_failed)
                            (decode_send_failed-ne-panic p.order flags b) (λ k. cc))))))))))))

pub notification_header-ne-panic :
    {E : Type 0} (e : Endian) (b : List ℕ) → notification_header {E = E} e b ≢ panic
unfolding notification_header
notification_header-ne-panic e b = ground arith

parse_record-ne-panic :
    (p : Platform) (b : List ℕ) (header : Option (ℕ × ℕ × ℕ)) → parse_record p b header ≢ panic
unfolding parse_record slice
parse_record-ne-panic p b none = λ k. cc
parse_record-ne-panic p b (some (typ, flags, declared)) =
    ground (arith, decode_event-ne-panic p typ flags (take declared (drop 0 b)))

-- `ParseNotification` returns a notification or an error for any bytes: it never panics.
pub parse_notification-ne-panic : (p : Platform) (b : List ℕ) → parse_notification p b ≢ panic
unfolding parse_notification
parse_notification-ne-panic p b =
    >>=-ne-panic _ _ (notification_header-ne-panic p.order b) (λ h e. parse_record-ne-panic p b h)
