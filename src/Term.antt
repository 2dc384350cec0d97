-- ===== src/Term.antt =====
-- term_linux.go and conn.go, termState: the latch of the error with which an association failed.
-- The receivers and senders call these steps with the latch's lock held, so each is one atomic step.
mod Examples
pub mod Laws
use go_sctp.Common.{ℕ, Bool, true, false, ◌&&◌, ◌||◌, not, Option, none, some, if◌then◌else◌}

-- The errors the latch tells apart; every other errno is `other`.
pub data Errno : Type 0 where
  econnreset etimedout econnaborted enotconn epipe eagain eof : Errno
  other : ℕ → Errno

pub record TermState : Type 0 where
  pub error : Option Errno
  pub failed : Bool  -- an AssocCommLost record was seen
  pub ended : Bool  -- an AssocShutdownComplete record was seen
  pub drained : Bool

unfoldable pub is_assoc_failure : Errno → Bool
is_assoc_failure econnreset = true
is_assoc_failure etimedout = true
is_assoc_failure econnaborted = true
is_assoc_failure _ = false

pub is_eagain : Errno → Bool
is_eagain eagain = true
is_eagain _ = false

pub is_eof : Errno → Bool
is_eof eof = true
is_eof _ = false

pub is_epipe : Errno → Bool
is_epipe epipe = true
is_epipe _ = false

pub latched : TermState → Option Errno
latched t = t.error

-- Whether `err` is an association failure, and the latch after it.
pub store_locked : TermState → Errno → TermState × Bool
unfolding is_assoc_failure
store_locked t err =
    if not (is_assoc_failure err)
    then (t, false)
    else (record t { error = elim t.error [ none ↦ some err | some e ↦ some e ] }, true)

unfoldable pub mark_failed : TermState → TermState
mark_failed t = record t { failed = true }

-- An AssocShutdownComplete record is seen.
unfoldable pub mark_ended : TermState → TermState
mark_ended t = record t { ended = true }

pub send_error_locked : TermState → Errno → TermState × Errno
unfolding store_locked is_epipe
send_error_locked t err =
    let (u, stored) = store_locked t err in
    if stored then (u, err) else if not (is_epipe err) then (u, err) else elim u.error [
      | some e ↦ (u, e)
      | none ↦ if u.failed then (record u { error = some enotconn }, enotconn) else (u, err)
    ]

-- The latched error, once there is one, and the error of the call otherwise.
pub observe : TermState → Errno → TermState × Errno
unfolding store_locked
observe t err =
    let (u, stored) = store_locked t err in elim u.error [ some e ↦ (u, e) | none ↦ (u, err) ]

pub read_error_locked : TermState → Errno → TermState × Errno
unfolding observe is_eagain is_eof
read_error_locked t err =
    let (u, e) = observe t err in
    elim u.error [
      | some z ↦ (record u { drained = true }, e)
      | none ↦
          if u.failed && (is_eagain e || is_eof e)
          then (record u { error = some enotconn; drained = true }, enotconn)
          else if u.ended && is_eagain e
          then (u, eof)
          else (u, e)
    ]

pub has_ended : TermState → Bool
has_ended t = t.ended

-- What a read reports without a system call; `none` where it has to make one.
pub read_end : TermState → Option Errno
read_end t = if t.drained then t.error else if t.ended then some eof else none
