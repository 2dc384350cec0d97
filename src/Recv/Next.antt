-- ===== src/Recv/Next.antt =====
-- recv_linux.go: one read of a connection, recvNext, and the loops of RecvMsg and Read around it. The
-- outcomes of the poller, by raw.Read and by its wait after each EAGAIN, are an argument, and so are
-- the error of the abort that an interrupted record leads to and the handler's error for each notification.
use go_sctp.Common.{
  ℕ, ◌+◌, ◌==◌, List, [], ◌∷◌, ◌++◌, map, Bool, true, false, not, ◌&&◌, ◌||◌, Option, none, some,
  if◌then◌else◌, length, take, drop, has_bits, ok, err, panic,
}
use go_sctp.Platform.{Platform}
use go_sctp.Term.{Errno, read_end}
use go_sctp.Message.Receive.{MsgInfo, no_rcv_info, no_nxt_info, parse_recv_cmsgs, msg_eor}
use go_sctp.Notification.{Notification, NotificationError, event_partial_delivery}
use go_sctp.Notification.Parse.{parse_notification}
use go_sctp.Notification.Accumulator.{finish, interrupted, reset}
use go_sctp.Recv.{RecvState, Received, Taken, again, waits, done, attempt, is_set}

-- What an error that a read returns matches, one entry for each that is joined.
pub data Cause : Type 0 where
  errno : Errno → Cause
  net_closed association_restarted message_interrupted partial_delivery_aborted control_truncated :
      Cause
  malformed : NotificationError → Cause
  other_error : ℕ → Cause

-- A wait of the poller that ends well, or not.
pub data Poll : Type 0 where
  ready : Poll
  poll_error : Cause → Poll

pub record Env : Type 0 where
  pub is_open : Bool  -- life.state is lifeOpen
  pub handler : Option (Notification → List Cause)
  pub abort_error : List Cause  -- what joinAbortCause adds

-- What recvNext returns; `still_reading` where the outcomes given do not let it return.
pub data Delivered : Type 0 where
  delivered : List ℕ → MsgInfo → List Cause → Delivered
  notified : Notification → List Cause → Delivered
  still_reading read_panics : Delivered

abbrev pub no_info : MsgInfo
no_info = record {
  eor = false;
  notification = false;
  rcv = no_rcv_info;
  nxt = no_nxt_info;
  has_nxt = false;
}

abbrev pub fails : List Cause → Delivered
fails causes = delivered [] no_info causes

abbrev pub has_handler : Env → Bool
has_handler env = elim env.handler [ none ↦ false | some f ↦ true ]

abbrev pub read_ended : Env → Cause → List Cause
read_ended env cause = if env.is_open then cause ∷ [] else net_closed ∷ []

-- servePiece, into a buffer of `size` bytes.
abbrev pub stop_serving : RecvState → RecvState
stop_serving s = record s { serving = false; served = 0; notes = reset s.notes }

unfoldable pub serve_piece : ℕ → RecvState → RecvState × List ℕ × MsgInfo
serve_piece size s =
    let whole = s.notes.kept in
    let piece = take size (drop s.served whole) in
    let t = record s { served = s.served + length piece } in
    let eor = t.served == length whole in
    (
      if eor then stop_serving t else t,
      piece,
      record s.serve_info { notification = true; eor = eor },
    )

pub data Got : Type 0 where
  parked : Got
  polled : Cause → Got
  taken : Taken → Got

-- raw.Read: the callback, and again after each wait for which it returns false.
unfoldable pub raw_read :
    Platform → RecvState → List Poll → List Received → RecvState × Got × List Received
raw_read p s [] calls = (s, parked, calls)
raw_read p s (poll_error x ∷ polls) calls = (s, polled x, calls)
raw_read p s (ready ∷ polls) calls =
    let (t, step, rest) = attempt p.order s calls in
    let later = raw_read p t polls rest in
    elim step [ again ↦ (t, parked, rest) | waits ↦ later | done k ↦ (t, taken k, rest) ]

-- abortInterruptedNotification.
abbrev pub abort_interrupted_notification : Env → RecvState → Cause → RecvState × List Cause
abort_interrupted_notification env s cause = (
  record s { notes = reset s.notes },
  map malformed (interrupted s.notes) ++ (read_ended env cause ++ env.abort_error),
)

-- A record the caller does not receive: none where the read goes on.
unfoldable pub drop_record : RecvState → List Cause → RecvState × Option Delivered
drop_record s interruption = (
  record s { notes = reset s.notes },
  elim (finish s.notes) [
    | err e ↦ some (fails (malformed e ∷ interruption))
    | panic ↦ some read_panics
    | ok whole ↦ elim interruption [ [] ↦ none | x ∷ xs ↦ some (fails (x ∷ xs)) ]
  ],
)

-- A record for the handler, parsed.
unfoldable pub hand_over : Platform → RecvState → List ℕ → List Cause → RecvState × Option Delivered
hand_over p s whole interruption = (
  record s { notes = reset s.notes },
  elim (parse_notification p whole) [
    | ok note ↦ some (notified note interruption)
    | err e ↦ some (fails (malformed e ∷ []))
    | panic ↦ some read_panics
  ],
)

-- A record for a caller of RecvMsg without a handler, returned in pieces.
unfoldable pub start_serving : Platform → ℕ → RecvState → ℕ → RecvState × Option Delivered
start_serving p size s flags = elim (parse_recv_cmsgs {E = NotificationError} p s.control flags) [
  | ok (info, truncated) ↦
      (let (t, piece, shown) =
          serve_piece size (record s { serving = true; served = 0; serve_info = info }) in
        (t, some (delivered piece shown [])))
  | _ ↦ (s, some read_panics)
]

-- Whether the record that has been consumed ends the delivery of a partial message.
abbrev pub is_interrupted : RecvState → Bool
is_interrupted s = not s.interleaved && is_set s.typ event_partial_delivery && s.partial

abbrev pub interruption : Bool → RecvState → List Cause
interruption raw s =
    if is_interrupted s && (not raw || not s.kept)
    then message_interrupted ∷ partial_delivery_aborted ∷ []
    else []

unfoldable pub settle_record :
    Platform → Env → Bool → ℕ → RecvState → ℕ → RecvState × Option Delivered
settle_record p env raw size s flags =
    let t = record s {
      partial = if is_set s.typ event_partial_delivery then false else s.partial;
    } in
    if not s.kept then drop_record t (interruption raw s) else elim (finish s.notes) [
      | err e ↦ (record t { notes = reset s.notes }, some (fails (malformed e ∷ [])))
      | panic ↦ (t, some read_panics)
      | ok whole ↦
          if has_handler env
          then hand_over p t whole (interruption raw s)
          else start_serving p size t flags
    ]

unfoldable pub settle_data : Platform → Bool → RecvState → Taken → RecvState × Option Delivered
settle_data p raw s k =
    let t = record s { partial = not (has_bits k.flags msg_eor) } in
    if not raw
    then (t, some (delivered k.bytes no_info []))
    else elim (parse_recv_cmsgs {E = NotificationError} p s.control k.flags) [
      | ok (info, truncated) ↦
          (t, some (delivered k.bytes info (if truncated then control_truncated ∷ [] else [])))
      | _ ↦ (t, some read_panics)
    ]

-- The switch of recvNext over what the attempt took.
unfoldable pub settle : Platform → Env → Bool → ℕ → RecvState → Taken → RecvState × Option Delivered
settle p env raw size s k = elim k.error [
  | some x ↦
      if k.cut
      then (let (t, causes) = abort_interrupted_notification env s (errno x) in
          (t, some (fails causes)))
      else (s, some (fails (read_ended env (errno x))))
  | none ↦ if k.record_end then settle_record p env raw size s k.flags else settle_data p raw s k
]

-- What a read returns before any system call: a piece that is being served, or the end.
unfoldable pub before_read : Env → Bool → ℕ → RecvState → RecvState × Option Delivered
before_read env raw size s =
    if s.serving && raw
    then (let (t, piece, info) = serve_piece size s in (t, some (delivered piece info [])))
    else (let t = if s.serving then stop_serving s else s in
        (
          record t { keep_notes = raw || has_handler env },
          elim s.term [
            | none ↦ none
            | some l ↦ elim (read_end l) [
              | none ↦ none
              | some x ↦ some (fails (read_ended env (errno x)))
            ]
          ],
        ))

unfoldable pub after_read :
    Platform → Env → Bool → ℕ → RecvState → Got → RecvState × Option Delivered
after_read p env raw size s parked = (s, some still_reading)
after_read p env raw size s (polled x) = (s, some (fails (read_ended env x)))
after_read p env raw size s (taken k) = settle p env raw size s k

-- What a stage of the read returns, or what the read does next.
abbrev pub or_next :
    Option Delivered
    → RecvState
    → List Received
    → RecvState × Delivered × List Received
    → RecvState × Delivered × List Received
or_next none s calls next = next
or_next (some d) s calls next = (s, d, calls)

-- recvNext: each entry of the outer list is what the poller does for one raw.Read.
unfoldable pub recv_next :
    Platform
    → Env
    → Bool
    → ℕ
    → RecvState
    → List (List Poll)
    → List Received
    → RecvState × Delivered × List Received
recv_next p env raw size s [] calls = (s, still_reading, calls)
recv_next p env raw size s (polls ∷ reads) calls =
    let (t, early) = before_read env raw size s in
    let (u, got, left) = raw_read p t polls calls in
    let (v, late) = after_read p env raw size u got in
    or_next early t calls (or_next late v left (recv_next p env raw size v reads left))

-- What a call of RecvMsg or Read returns.
pub data Returned : Type 0 where
  returned : List ℕ → MsgInfo → List Cause → Returned
  unfinished panicked : Returned

abbrev pub handled : Env → Notification → List Cause
handled env note = elim env.handler [ none ↦ [] | some f ↦ f note ]

-- RecvMsg and Read, of an open connection, into a buffer of `size` bytes: each entry of the outermost list
-- is for one recvNext.
unfoldable pub recv_msg :
    Platform
    → Env
    → ℕ
    → RecvState
    → List (List (List Poll))
    → List Received
    → RecvState × Returned × List Received
recv_msg p env size s [] calls = (s, unfinished, calls)
recv_msg p env size s (reads ∷ rounds) calls =
    if size == 0
    then (s, returned [] no_info [], calls)
    else (let (t, d, left) = recv_next p env true size s reads calls in
        let next = recv_msg p env size t rounds left in
        elim d [
          | notified note causes ↦ elim (handled env note) [
            | [] ↦ next
            | x ∷ xs ↦ (t, returned [] no_info (x ∷ xs), left)
          ]
          | delivered bytes info causes ↦ (t, returned bytes info causes, left)
          | still_reading ↦ (t, unfinished, left)
          | read_panics ↦ (t, panicked, left)
        ])

unfoldable pub read :
    Platform
    → Env
    → ℕ
    → RecvState
    → List (List (List Poll))
    → List Received
    → RecvState × Returned × List Received
read p env size s [] calls = (s, unfinished, calls)
read p env size s (reads ∷ rounds) calls =
    if size == 0
    then (s, returned [] no_info [], calls)
    else (let (t, d, left) = recv_next p env false size s reads calls in
        let next = read p env size t rounds left in
        elim d [
          | notified note causes ↦ elim (causes ++ handled env note) [
            | [] ↦ next
            | x ∷ xs ↦ (t, returned [] no_info (x ∷ xs), left)
          ]
          | delivered bytes info [] ↦ (t, returned bytes no_info [], left)
          | delivered bytes info (x ∷ xs) ↦ (t, returned [] no_info (x ∷ xs), left)
          | still_reading ↦ (t, unfinished, left)
          | read_panics ↦ (t, panicked, left)
        ])
