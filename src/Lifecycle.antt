-- ===== src/Lifecycle.antt =====
-- close.go, lifecycle: the close state machine of one descriptor. Each atomic operation, channel
-- operation and system-level step of `close`, `abortNow` and `shutdown` is one step of a thread, so
-- the goroutines of a program interleave as sequences of steps. What the system steps give is a
-- parameter of each step, a `World`.
mod Examples
pub mod Invariant
pub mod Threads
use go_sctp.Common.{
  ℕ, ◌+◌, ◌-◌, ◌*◌, ◌≡◌, zero, suc, List, [], ◌∷◌, ◌++◌, Bool, true, false, Option, none, some, leb,
  if◌then◌else◌, min, ℤ, pos, negsuc,
}

pub data LifeState : Type 0 where
  life_open life_closing life_aborting life_closed : LifeState

-- `abort` and `done` say whether the channel has been closed; `released` counts the calls of
-- `release` and `abortive`.
pub record Lifecycle : Type 0 where
  pub made : Bool  -- init has run
  pub state : LifeState
  pub abort : Bool
  pub done : Bool
  pub shut : Bool
  pub released : ℕ

pub data Gone : Type 0 where
  gone present : Gone
  query_failed : ℕ → Gone

-- What closeOps give to a step: the time, the association's status, the errors of the steps, and
-- which of the two ready cases of the select is taken.
pub record World : Type 0 where
  pub now : ℕ
  pub status : Gone
  pub step_error : Option ℕ
  pub see_abort : Bool

-- What a call returns: net.ErrClosed, or the errors of the system steps, none of them for nil.
pub data Result : Type 0 where
  err_closed : Result
  errors : List ℕ → Result

-- Where a thread stands.
pub data Pc : Type 0 where
  close_enter : ℤ → Pc
  close_cas close_shut close_start : ℕ → Pc
  close_poll close_wait : ℕ → ℕ → Pc
  close_release : Pc
  close_abortive : List ℕ → Pc
  close_store close_done : List ℕ → Pc
  abort_enter abort_load abort_cas_open abort_cas_closing abort_signal abort_wait abort_abortive :
      Pc
  abort_done : List ℕ → Pc
  shutdown_enter shutdown_cas shutdown_start : Pc
  returned : Result → Pc
  panicked : Pc

-- In nanoseconds.
abbrev pub shutdown_poll_min : ℕ
shutdown_poll_min = 200000

abbrev pub shutdown_poll_max : ℕ
shutdown_poll_max = 20000000

abbrev pub errors_of : Option ℕ → List ℕ
errors_of none = []
errors_of (some e) = e ∷ []

-- `close(ch)`: a second close panics.
abbrev pub close_channel : Bool → Lifecycle → Lifecycle → Pc → Lifecycle × Pc
close_channel closed l after pc = if closed then (l, panicked) else (after, pc)

abbrev pub is_open : LifeState → Bool
is_open life_open = true
is_open s = false

abbrev pub is_closing : LifeState → Bool
is_closing life_closing = true
is_closing s = false

-- The switch of abortNow over the state it loads.
abbrev pub abort_switch : LifeState → Pc
abort_switch life_open = abort_cas_open
abort_switch life_closing = abort_cas_closing
abort_switch life_aborting = abort_wait
abort_switch life_closed = returned err_closed

abbrev pub after_status : Gone → ℕ → ℕ → ℕ → Pc
after_status gone now deadline pause = close_release
after_status (query_failed e) now deadline pause = close_abortive (e ∷ [])
after_status present now deadline pause =
    if leb deadline now then close_abortive [] else close_wait deadline pause

-- One step of a thread, or `none` while it has to wait.
pub next : World → Lifecycle → Pc → Option (Lifecycle × Pc)
next w l (close_enter (pos zero)) = some (l, if l.made then abort_enter else returned err_closed)
next w l (close_enter (negsuc n)) = some (l, if l.made then abort_enter else returned err_closed)
next w l (close_enter (pos (suc n))) =
    some (l, if l.made then close_cas (suc n) else returned err_closed)
next w l (close_cas grace) =
    if is_open l.state
    then some (record l { state = life_closing }, close_shut (w.now + grace))
    else some (l, returned err_closed)
next w l (close_shut deadline) = some (record l { shut = true }, close_start deadline)
next w l (close_start deadline) = some (l, close_poll deadline shutdown_poll_min)
next w l (close_poll deadline pause) = some (l, after_status w.status w.now deadline pause)
next w l (close_wait deadline pause) =
    if w.see_abort
    then (if l.abort then some (l, close_abortive []) else none)
    else some (l, close_poll deadline (min (2 * pause) shutdown_poll_max))
next w l close_release =
    some (record l { released = l.released + 1 }, close_store (errors_of w.step_error))
next w l (close_abortive es) =
    some (record l { released = l.released + 1 }, close_store (es ++ errors_of w.step_error))
next w l (close_store es) = some (record l { state = life_closed }, close_done es)
next w l (close_done es) =
    some (close_channel l.done l (record l { done = true }) (returned (errors es)))
next w l abort_enter = some (l, if l.made then abort_load else returned err_closed)
next w l abort_load = some (l, abort_switch l.state)
next w l abort_cas_open =
    if is_open l.state
    then some (record l { state = life_closed }, abort_abortive)
    else some (l, abort_load)
next w l abort_cas_closing =
    if is_closing l.state
    then some (record l { state = life_aborting }, abort_signal)
    else some (l, abort_load)
next w l abort_signal = some (close_channel l.abort l (record l { abort = true }) abort_wait)
next w l abort_wait = if l.done then some (l, returned (errors [])) else none
next w l abort_abortive =
    some (record l { released = l.released + 1 }, abort_done (errors_of w.step_error))
next w l (abort_done es) =
    some (close_channel l.done l (record l { done = true }) (returned (errors es)))
next w l shutdown_enter = some (
  l,
  if l.made
      then (if is_open l.state then shutdown_cas else returned err_closed)
      else returned err_closed,
)
next w l shutdown_cas =
    if l.shut
    then some (l, returned (errors []))
    else some (record l { shut = true }, shutdown_start)
next w l shutdown_start = some (l, returned (errors (errors_of w.step_error)))
next w l (returned r) = none
next w l panicked = none

-- The zero value, and `init`.
abbrev pub zero_value : Lifecycle
zero_value = record {
  made = false;
  state = life_open;
  abort = false;
  done = false;
  shut = false;
  released = 0;
}

abbrev pub init : Lifecycle
init = record zero_value { made = true }
