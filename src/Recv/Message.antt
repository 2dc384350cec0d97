-- ===== src/Recv/Message.antt =====
-- recv_linux.go, readMsgNotification: a notification record that ReadMsg consumes, before its message or
-- between the message's pieces. The buffers of the message are left out.
use go_sctp.Common.{
  ℕ, ◌+◌, ◌-◌, ◌≡◌, ◌⊎◌, List, [], ◌∷◌, ◌++◌, Bool, true, false, not, ◌&&◌, ◌||◌, ◌≤◌, ◌<◌, Option,
  none, some, if◌then◌else◌, ltb, length, Outcome, ok, err, panic, ◌>>=◌,
}
use go_sctp.Bytes.{Endian}
use go_sctp.Platform.{Platform}
use go_sctp.Term.{eof}
use go_sctp.Notification.{
  Notification, NotificationError, notification_too_long, event_assoc_change,
  event_partial_delivery, notification_reassembly_limit,
}
use go_sctp.Notification.Parse.{parse_notification}
use go_sctp.Notification.Accumulator.{finish, reset}
use go_sctp.Recv.{RecvState, is_set, reported_state, assoc_restart}
use go_sctp.Recv.Next.{
  Env, Cause, errno, malformed, control_truncated, partial_delivery_aborted, association_restarted,
  read_ended,
}

-- readMsgState, but for the buffer: `errors` is resultErr, one entry for each cause joined.
pub record ReadMsgState : Type 0 where
  pub have_first_fragment : Bool
  pub application_complete : Bool
  pub partial_delivery_boundary : Bool
  pub truncation_reported : Bool
  pub errors : List Cause
  pub queued : List Notification
  pub queued_bytes : ℕ
  pub queue_full : Bool
  pub immediate : Option Notification
  pub partial_application_error : Option Cause

abbrev pub is_truncation : Cause → Bool
is_truncation control_truncated = true
is_truncation c = false

unfoldable pub add_error : ReadMsgState → Cause → ReadMsgState
add_error st c = if is_truncation c && st.truncation_reported then st else record st {
  truncation_reported = st.truncation_reported || is_truncation c;
  errors = st.errors ++ (c ∷ []);
}

-- Why the record just consumed ends the message that is being read.
unfoldable pub message_cut : Endian → RecvState → Option Cause
message_cut e s =
    if is_set s.typ event_partial_delivery
    then some partial_delivery_aborted
    else if is_set s.typ event_assoc_change && is_set (reported_state e s.notes) assoc_restart
    then some association_restarted
    else none

-- The record, with its length, parsed.
unfoldable pub parsed_record : Platform → RecvState → Outcome NotificationError (ℕ × Notification)
parsed_record p s = do
  whole ← finish s.notes
  note ← parse_notification p whole
  ok (length whole, note)

abbrev pub is_abort : Cause → Bool
is_abort partial_delivery_aborted = true
is_abort c = false

-- What a turn of readMsgNotification leaves, and whether the read goes on; none for a panic.
abbrev pub Turn : Type 0
Turn = Option (ReadMsgState × Bool)

-- The message will never be completed; the record still goes to the handler.
unfoldable pub take_cut : Platform → RecvState → ReadMsgState → Cause → Turn
take_cut p s st cut =
    let u = record st { partial_application_error = some cut } in
    if s.kept
    then elim (parsed_record p s) [
      | ok (size, note) ↦ some (
        record u { queued = u.queued ++ (note ∷ []); partial_delivery_boundary = is_abort cut },
        false,
      )
      | err e ↦
          some (record (add_error u (malformed e)) { partial_delivery_boundary = false }, false)
      | panic ↦ none
    ]
    else elim (finish s.notes) [
      | ok whole ↦ some (record u { partial_delivery_boundary = is_abort cut }, false)
      | err e ↦
          some (record (add_error u (malformed e)) { partial_delivery_boundary = false }, false)
      | panic ↦ none
    ]

abbrev pub in_message : ReadMsgState → Bool
in_message st = st.have_first_fragment && not st.application_complete

-- A record the caller does not receive; it may have ended the association.
unfoldable pub drop_unseen : Env → RecvState → ReadMsgState → Turn
drop_unseen env s st = elim (finish s.notes) [
  | err e ↦ some (add_error st (malformed e), st.have_first_fragment)
  | panic ↦ none
  | ok whole ↦
      if not (elim s.term [ none ↦ false | some l ↦ l.ended ])
      then some (st, true)
      else if in_message st
      then some (record st { partial_application_error = some (errno eof) }, false)
      else some (end_read (read_ended env (errno eof)) st, false)
]
  where
    end_read : List Cause → ReadMsgState → ReadMsgState
    end_read [] st = st
    end_read (c ∷ cs) st = add_error (end_read cs st) c

abbrev pub is_too_long : NotificationError → Bool
is_too_long notification_too_long = true
is_too_long e = false

-- A record for the handler, parsed.
unfoldable pub queue_parsed : ReadMsgState → Outcome NotificationError (ℕ × Notification) → Turn
queue_parsed st (err e) =
    let u = add_error st (malformed e) in
    some (if is_too_long e then record u { queue_full = true } else u, st.have_first_fragment)
queue_parsed st panic = none
queue_parsed st (ok (size, note)) =
    if not st.have_first_fragment
    then some (record st { immediate = some note }, false)
    else if st.queue_full
    then some (st, true)
    else if ltb (notification_reassembly_limit - st.queued_bytes) size
    then some (record (add_error st (malformed notification_too_long)) { queue_full = true }, true)
    else some (
      record st { queued = st.queued ++ (note ∷ []); queued_bytes = st.queued_bytes + size },
      true,
    )

unfoldable pub read_msg_notification : Platform → Env → RecvState → ReadMsgState → RecvState × Turn
read_msg_notification p env s st =
    let t = record s { notes = reset s.notes } in
    let rest = if s.kept then queue_parsed st (parsed_record p s) else drop_unseen env s st in
    if in_message st
    then elim (message_cut p.order s) [
      | none ↦ (t, rest)
      | some cut ↦ (record t { partial = false }, take_cut p s st cut)
    ]
    else (t, rest)

-- What is left of a note of `size` bytes. Where the record ends the message, it is queued beside the count of
-- bytes, and the read ends. Otherwise it is queued and counted, or, where the count would pass the limit,
-- dropped with an error, and the read goes on.
abbrev pub Keeps : Option Cause → ReadMsgState → ℕ → Notification → Turn → Type 0
Keeps cut st size note none = ⊥
Keeps (some cut) st size note (some (u, go)) =
    (u.queued ≡ st.queued ++ (note ∷ []))
    × (u.queued_bytes ≡ st.queued_bytes)
    × (u.errors ≡ st.errors)
    × (u.partial_application_error ≡ some cut)
    × (go ≡ false)
Keeps none st size note (some (u, go)) =
    (((u.queued ≡ st.queued ++ (note ∷ []))
        × (u.queued_bytes ≡ st.queued_bytes + size)
        × (u.queued_bytes ≤ notification_reassembly_limit)
        × (u.errors ≡ st.errors))
      ⊎ ((u.queued ≡ st.queued)
          × (u.queued_bytes ≡ st.queued_bytes)
          × (notification_reassembly_limit < st.queued_bytes + size)
          × (u.errors ≡ st.errors ++ (malformed notification_too_long ∷ []))))
    × (go ≡ true)
