-- ===== src/Recv.antt =====
-- recv_linux.go: the receive storage of a connection, and one attempt of a read. What the kernel returns
-- from each recvmsg call is an argument: one `Received` for a call, in the order of the calls.
pub mod Next
pub mod Callback
pub mod Laws
pub mod Serving
pub mod Reassembly
pub mod Report
pub mod Pieces
pub mod Record
pub mod Subscribe
pub mod Message
mod Examples
use go_sctp.Common.{
  ℕ, ◌==◌, List, [], ◌∷◌, Bool, true, false, not, ◌&&◌, ◌||◌, Option, none, some, if◌then◌else◌,
  length, has_bits, Outcome, ok, err, panic,
}
use go_sctp.Bytes.{Endian}
use go_sctp.Term.{
  TermState, Errno, other, eagain, eof, store_locked, read_error_locked, mark_failed, mark_ended,
}
use go_sctp.Message.Receive.{MsgInfo, msg_eor, msg_notification}
use go_sctp.Notification.{NotificationError, event_assoc_change, event_partial_delivery}
use go_sctp.Notification.Parse.{assoc_change_info}
use go_sctp.Notification.Accumulator.{Accumulator, add, keep, reset, peek_type, head, finish}
use go_sctp.Config.Subscriptions.{has}

-- What one recvmsg call gives: the bytes it put into the buffer, the flags, the ancillary data, and its
-- errno, if it failed.
pub record Received : Type 0 where
  pub bytes : List ℕ
  pub flags : ℕ
  pub control : List ℕ
  pub errno : Option Errno

abbrev pub eintr : ℕ
eintr = 4

-- AssocChangeState.
abbrev pub assoc_comm_lost : ℕ
assoc_comm_lost = 1

abbrev pub assoc_restart : ℕ
assoc_restart = 2

abbrev pub assoc_shutdown_complete : ℕ
assoc_shutdown_complete = 3

abbrev pub eproto : Errno
eproto = other 71

-- recvState. The buffers are those of the calls; `term` is none for an Endpoint, `subs` the bits of the
-- logical subscriptions.
pub record RecvState : Type 0 where
  pub control : List ℕ  -- what the last recvmsg wrote to cbuf
  pub notes : Accumulator
  pub term : Option TermState
  pub subs : ℕ
  pub keep_notes : Bool
  pub partial : Bool
  pub interleaved : Bool
  pub noting : Bool
  pub typ : Option ℕ  -- typ, where typed
  pub kept : Bool
  pub serving : Bool
  pub served : ℕ
  pub serve_info : MsgInfo

-- What an attempt leaves for `take`.
pub record Taken : Type 0 where
  pub bytes : List ℕ
  pub flags : ℕ
  pub record_end : Bool
  pub cut : Bool
  pub error : Option Errno

abbrev pub is_set : Option ℕ → ℕ → Bool
is_set none t = false
is_set (some u) t = u == t

-- Whether a record of the type reaches the caller as far as the subscriptions go.
abbrev pub is_callers : ℕ → ℕ → Bool
is_callers subs typ =
    (not (typ == event_assoc_change) && not (typ == event_partial_delivery)) || has subs typ

-- The type of the record is known now.
unfoldable pub set_type : RecvState → ℕ → RecvState
set_type s typ =
    let t = record s { typ = some typ } in
    if s.keep_notes && is_callers s.subs typ
    then record t { notes = (keep s.notes).0; kept = (keep s.notes).1 }
    else t

unfoldable pub start_record : RecvState → RecvState
start_record s =
    if s.noting
    then s
    else record s { notes = reset s.notes; noting = true; typ = none; kept = false }

unfoldable pub note_type : Endian → RecvState → List ℕ → RecvState
note_type e s p = elim s.typ [
  | some t ↦ s
  | none ↦ elim (peek_type e s.notes p) [ none ↦ s | some t ↦ set_type s t ]
]

unfoldable pub add_piece : Endian → RecvState → List ℕ → RecvState
add_piece e s p = let t = note_type e (start_record s) p in record t { notes = add e t.notes p }

-- The state that an SCTP_ASSOC_CHANGE record reports.
unfoldable pub reported_state : Endian → Accumulator → Option ℕ
reported_state e a = elim (assoc_change_info {E = NotificationError} e (head a)) [
  | ok (some (state, id)) ↦ some state
  | _ ↦ none
]

unfoldable pub mark : Option ℕ → TermState → TermState
mark state t =
    if is_set state assoc_comm_lost
    then mark_failed t
    else if is_set state assoc_shutdown_complete
    then mark_ended t
    else t

unfoldable pub end_record_locked : Endian → RecvState → RecvState
end_record_locked e s =
    let t = record s { noting = false } in
    elim s.term [
      | none ↦ t
      | some l ↦
          if is_set s.typ event_assoc_change
          then record t { term = some (mark (reported_state e s.notes) l) }
          else t
    ]

-- `storeLocked` and `readErrorLocked` of the latch, where there is one.
abbrev pub store_error : RecvState → Option Errno → RecvState
store_error s none = s
store_error s (some x) = record s {
  term = elim s.term [ none ↦ none | some l ↦ some (store_locked l x).0 ];
}

abbrev pub read_error : RecvState → Errno → RecvState × Errno
read_error s x = elim s.term [
  | none ↦ (s, x)
  | some l ↦ (record s { term = some (read_error_locked l x).0 }, (read_error_locked l x).1)
]

-- How the loop of `attempt` goes on after a recvmsg call.
pub data Step : Type 0 where
  again waits : Step
  done : Taken → Step

abbrev pub is_would_block : Errno → Bool
is_would_block eagain = true
is_would_block x = false

abbrev pub is_eintr : Option Errno → Bool
is_eintr (some (other n)) = n == eintr
is_eintr x = false

abbrev pub is_none : Option Errno → Bool
is_none none = true
is_none x = false

-- The error of a call that was neither interrupted nor a piece: an empty read is the end.
abbrev pub data_error : Received → Option Errno
data_error r = elim r.errno [
  | none ↦ if length r.bytes == 0 then some eof else none
  | some x ↦ some x
]

-- Data, the end, or an error, outside of a record.
unfoldable pub receive_data : RecvState → Received → RecvState × Step
receive_data s r = elim (data_error r) [
  | none ↦ (
    s,
    done (record {
      bytes = r.bytes;
      flags = r.flags;
      record_end = false;
      cut = false;
      error = none;
    }),
  )
  | some x ↦
      (let (t, y) = read_error s x in
        (
          t,
          if is_would_block y
              then waits
              else done (record {
                bytes = r.bytes;
                flags = r.flags;
                record_end = false;
                cut = false;
                error = some y;
              }),
        ))
]

-- Anything else where a record's next piece belonged.
unfoldable pub cut_record : RecvState → Received → RecvState × Step
cut_record s r = (
  record (store_error s r.errno) { noting = false },
  done (record {
    bytes = [];
    flags = r.flags;
    record_end = false;
    cut = true;
    error = elim r.errno [
      | none ↦ some (if length r.bytes == 0 then eof else eproto)
      | some x ↦ some x
    ];
  }),
)

unfoldable pub receive_piece : Endian → RecvState → Received → RecvState × Step
receive_piece e s r =
    let t = add_piece e s r.bytes in
    if has_bits r.flags msg_eor
    then (
      end_record_locked e t,
      done (record { bytes = []; flags = r.flags; record_end = true; cut = false; error = none }),
    )
    else (t, again)

abbrev pub is_piece : Received → Bool
is_piece r = is_none r.errno && has_bits r.flags msg_notification

-- One round of the loop.
unfoldable pub receive : Endian → RecvState → Received → RecvState × Step
receive e s r =
    let t = record s { control = r.control } in
    if is_eintr r.errno
    then (t, again)
    else if is_piece r
    then receive_piece e t r
    else if s.noting
    then cut_record t r
    else receive_data t r

-- One call of the callback: `waits` where it returns false, `again` where the calls have run out. What
-- is left of the calls is for the next.
unfoldable pub attempt : Endian → RecvState → List Received → RecvState × Step × List Received
attempt e s [] = (s, again, [])
attempt e s (r ∷ rs) =
    let rest = attempt e (receive e s r).0 rs in
    elim (receive e s r).1 [
      | again ↦ rest
      | waits ↦ ((receive e s r).0, waits, rs)
      | done t ↦ ((receive e s r).0, done t, rs)
    ]
