-- ===== src/Term/Laws.antt =====
-- The latch over a run of calls.
use go_sctp.Common.{
  Bool, true, false, not, ◌&&◌, ◌||◌, if◌then◌else◌, Option, none, some, List, [], ◌∷◌, ◌≡◌, ◌≢◌,
  refl, sym, ◌∙◌, inl, inr, ap, ◌⊎◌,
}
use mathlib.Core.Path.{subst}
use mathlib.Core.Option.{some-injective}
use go_sctp.Term.{
  Errno, TermState, econnreset, etimedout, econnaborted, enotconn, epipe, eagain, eof, other,
  is_assoc_failure, is_eagain, is_eof, is_epipe, store_locked, mark_failed, mark_ended,
  send_error_locked, observe, read_error_locked, read_end,
}

-- What the receivers and senders do to the latch.
pub data Step : Type 0 where
  recv_failed : Errno → Step
  send_failed : Errno → Step
  comm_lost shutdown_complete : Step

abbrev pub step : TermState → Step → TermState
step t (recv_failed e) = (read_error_locked t e).0
step t (send_failed e) = (send_error_locked t e).0
step t comm_lost = mark_failed t
step t shutdown_complete = mark_ended t

abbrev pub run : TermState → List Step → TermState
run t [] = t
run t (s ∷ ss) = run (step t s) ss

-- The errors that the latch may hold.
abbrev pub IsEnd : Errno → Type 0
IsEnd e = (is_assoc_failure e ≡ true) ⊎ (e ≡ enotconn)

abbrev state : Option Errno → Bool → Bool → Bool → TermState
state o f n d = record { error = o; failed = f; ended = n; drained = d }

read-latched :
    (e x : Errno) (f n d : Bool)
    → read_error_locked (state (some e) f n d) x ≡ (state (some e) f n true, e)
unfolding read_error_locked observe store_locked
read-latched e econnreset f n d = refl
read-latched e etimedout f n d = refl
read-latched e econnaborted f n d = refl
read-latched e enotconn f n d = refl
read-latched e epipe f n d = refl
read-latched e eagain f n d = refl
read-latched e eof f n d = refl
read-latched e (other k) f n d = refl

send-latched :
    (e x : Errno) (f n d : Bool)
    → (send_error_locked (state (some e) f n d) x).0 ≡ state (some e) f n d
unfolding send_error_locked store_locked
send-latched e econnreset f n d = refl
send-latched e etimedout f n d = refl
send-latched e econnaborted f n d = refl
send-latched e enotconn f n d = refl
send-latched e epipe f n d = refl
send-latched e eagain f n d = refl
send-latched e eof f n d = refl
send-latched e (other k) f n d = refl

-- A state that the steps lead to: a latched error is an end, and a drained latch holds one.
pub record IsWf (t : TermState) : Type 0 where
  pub ends : (e : Errno) → t.error ≡ some e → IsEnd e
  pub latched_once : t.drained ≡ true → t.error ≢ none

IsWf-some : (e : Errno) (f n d : Bool) → IsEnd e → IsWf (state (some e) f n d)
IsWf-some e f n d h = record {
  ends = λ x q. subst IsEnd (some-injective _ _ q) h;
  latched_once = λ _ q. cc;
}

IsWf-none : (f n : Bool) → IsWf (state none f n false)
IsWf-none f n = record { ends = λ x q. cc; latched_once = λ q. cc }

read-none : (x : Errno) (f n : Bool) → IsWf (read_error_locked (state none f n false) x).0
unfolding read_error_locked observe store_locked is_eagain is_eof
read-none econnreset f n = IsWf-some econnreset f n true (inl refl)
read-none etimedout f n = IsWf-some etimedout f n true (inl refl)
read-none econnaborted f n = IsWf-some econnaborted f n true (inl refl)
read-none eagain true n = IsWf-some enotconn true n true (inr refl)
read-none eof true n = IsWf-some enotconn true n true (inr refl)
read-none eagain false true = IsWf-none false true
read-none eagain false false = IsWf-none false false
read-none eof false true = IsWf-none false true
read-none eof false false = IsWf-none false false
read-none enotconn true true = IsWf-none true true
read-none enotconn true false = IsWf-none true false
read-none enotconn false true = IsWf-none false true
read-none enotconn false false = IsWf-none false false
read-none epipe true true = IsWf-none true true
read-none epipe true false = IsWf-none true false
read-none epipe false true = IsWf-none false true
read-none epipe false false = IsWf-none false false
read-none (other k) true true = IsWf-none true true
read-none (other k) true false = IsWf-none true false
read-none (other k) false true = IsWf-none false true
read-none (other k) false false = IsWf-none false false

send-none : (x : Errno) (f n : Bool) → IsWf (send_error_locked (state none f n false) x).0
unfolding send_error_locked store_locked is_epipe
send-none econnreset f n = IsWf-some econnreset f n false (inl refl)
send-none etimedout f n = IsWf-some etimedout f n false (inl refl)
send-none econnaborted f n = IsWf-some econnaborted f n false (inl refl)
send-none epipe true n = IsWf-some enotconn true n false (inr refl)
send-none epipe false n = IsWf-none false n
send-none enotconn f n = IsWf-none f n
send-none eagain f n = IsWf-none f n
send-none eof f n = IsWf-none f n
send-none (other k) f n = IsWf-none f n

step-state :
    (s : Step) (o : Option Errno) (f n d : Bool)
    → IsWf (state o f n d)
    → IsWf (step (state o f n d) s)
unfolding mark_failed mark_ended
step-state s none f n true w = absurd (w.latched_once refl refl)
step-state (recv_failed x) none f n false w = read-none x f n
step-state (send_failed x) none f n false w = send-none x f n
step-state comm_lost none f n false w = IsWf-none true n
step-state shutdown_complete none f n false w = IsWf-none f true
step-state (recv_failed x) (some e) f n d w =
    subst (λ z. IsWf z.0) (sym (read-latched e x f n d)) (IsWf-some e f n true (w.ends e refl))
step-state (send_failed x) (some e) f n d w = subst IsWf (sym (send-latched e x f n d)) w
step-state comm_lost (some e) f n d w = IsWf-some e true n d (w.ends e refl)
step-state shutdown_complete (some e) f n d w = IsWf-some e f true d (w.ends e refl)

-- Whatever the calls and the records seen, a latched error is one that ends the association, and a
-- latch is drained only with an error in it.
pub run-IsWf : (t : TermState) (ss : List Step) → IsWf t → IsWf (run t ss)
run-IsWf t [] w = w
run-IsWf t (s ∷ ss) w = run-IsWf (step t s) ss (step-state s t.error t.failed t.ended t.drained w)

step-latched :
    (s : Step) (e : Errno) (f n d : Bool) → (step (state (some e) f n d) s).error ≡ some e
unfolding mark_failed mark_ended
step-latched (recv_failed x) e f n d = ap (λ z. z.0.error) (read-latched e x f n d)
step-latched (send_failed x) e f n d = ap (λ z. z.error) (send-latched e x f n d)
step-latched comm_lost e f n d = refl
step-latched shutdown_complete e f n d = refl

run-error :
    (t : TermState) (ss : List Step) (e : Errno) → t.error ≡ some e → (run t ss).error ≡ some e
run-error t [] e h = h
run-error t (s ∷ ss) e h = run-error (step t s) ss e (
    subst (λ o. (step (state o t.failed t.ended t.drained) s).error ≡ some e) (sym h)
      (step-latched s e t.failed t.ended t.drained))

drained-step :
    (s : Step) (e : Errno) (f n : Bool) → (step (state (some e) f n true) s).drained ≡ true
unfolding mark_failed mark_ended
drained-step (recv_failed x) e f n = ap (λ z. z.0.drained) (read-latched e x f n true)
drained-step (send_failed x) e f n = ap (λ z. z.drained) (send-latched e x f n true)
drained-step comm_lost e f n = refl
drained-step shutdown_complete e f n = refl

run-read_end :
    (ss : List Step) (e : Errno) (o : Option Errno) (f n d : Bool)
    → o ≡ some e
    → d ≡ true
    → read_end (run (state o f n d) ss) ≡ some e
unfolding read_end
run-read_end [] e o f n d h k =
    subst (λ b. (if b then o else if n then some eof else none) ≡ some e) (sym k) h
run-read_end (s ∷ ss) e o f n d h k =
    let u = step (state o f n d) s in
    run-read_end ss e u.error u.failed u.ended u.drained
      (subst (λ p. (step (state p f n d) s).error ≡ some e) (sym h) (step-latched s e f n d))
      (subst (λ b. (step (state o f n b) s).drained ≡ true) (sym k)
        (subst (λ p. (step (state p f n true) s).drained ≡ true) (sym h) (drained-step s e f n)))

-- Once an error is latched, readErrorLocked, whatever comes before it and whatever the system call gave,
-- reports that error; and after it readEnd reports it too, without a system call, whatever comes
-- between. Before it, readEnd may still give io.EOF, if AssocShutdownComplete has been seen.
pub read_error_locked-run :
    (t : TermState) (e : Errno) (ss : List Step) (x : Errno) (later : List Step)
    → t.error ≡ some e
    → let r = read_error_locked (run t ss) x in (r.1 ≡ e) × (read_end (run r.0 later) ≡ some e)
read_error_locked-run t e ss x later h =
    let u = run t ss in
    subst
      (λ o.
        let r = read_error_locked (state o u.failed u.ended u.drained) x in
        (r.1 ≡ e) × (read_end (run r.0 later) ≡ some e))
      (sym (run-error t ss e h))
      (subst (λ z. (z.1 ≡ e) × (read_end (run z.0 later) ≡ some e))
        (sym (read-latched e x u.failed u.ended u.drained))
        (refl, run-read_end later e (some e) u.failed u.ended true refl refl))

-- What a read waits on or reports as the end of the stream.
abbrev pub no_failure : Errno → Bool
no_failure e = is_eagain e || is_eof e

no_failure-IsEnd : (e : Errno) → IsEnd e → no_failure e ≡ false
unfolding is_eagain is_eof is_assoc_failure
no_failure-IsEnd econnreset h = refl
no_failure-IsEnd etimedout h = refl
no_failure-IsEnd econnaborted h = refl
no_failure-IsEnd enotconn h = refl
no_failure-IsEnd epipe h = refl
no_failure-IsEnd eagain (inl h) = cc
no_failure-IsEnd eagain (inr h) = cc
no_failure-IsEnd eof (inl h) = cc
no_failure-IsEnd eof (inr h) = cc
no_failure-IsEnd (other k) h = refl

failed-read :
    (o : Option Errno) (n d : Bool) (x : Errno)
    → IsWf (state o true n d)
    → no_failure (read_error_locked (state o true n d) x).1 ≡ false
unfolding read_error_locked observe store_locked is_eagain is_eof
failed-read (some e) n d x w =
    ap (λ z. no_failure z.1) (read-latched e x true n d) ∙ no_failure-IsEnd e (w.ends e refl)
failed-read none n d econnreset w = refl
failed-read none n d etimedout w = refl
failed-read none n d econnaborted w = refl
failed-read none n d eagain w = refl
failed-read none n d eof w = refl
failed-read none true d enotconn w = refl
failed-read none true d epipe w = refl
failed-read none true d (other k) w = refl
failed-read none false d enotconn w = refl
failed-read none false d epipe w = refl
failed-read none false d (other k) w = refl

read-keeps_failed :
    (o : Option Errno) (n d : Bool) (x : Errno)
    → (read_error_locked (state o true n d) x).0.failed ≡ true
unfolding read_error_locked observe store_locked is_eagain is_eof
read-keeps_failed (some e) n d x = ap (λ z. z.0.failed) (read-latched e x true n d)
read-keeps_failed none n d econnreset = refl
read-keeps_failed none n d etimedout = refl
read-keeps_failed none n d econnaborted = refl
read-keeps_failed none true d enotconn = refl
read-keeps_failed none false d enotconn = refl
read-keeps_failed none true d epipe = refl
read-keeps_failed none false d epipe = refl
read-keeps_failed none n d eagain = refl
read-keeps_failed none n d eof = refl
read-keeps_failed none true d (other k) = refl
read-keeps_failed none false d (other k) = refl

send-keeps_failed :
    (o : Option Errno) (n d : Bool) (x : Errno)
    → (send_error_locked (state o true n d) x).0.failed ≡ true
unfolding send_error_locked store_locked is_epipe
send-keeps_failed (some e) n d x = ap (λ z. z.failed) (send-latched e x true n d)
send-keeps_failed none n d econnreset = refl
send-keeps_failed none n d etimedout = refl
send-keeps_failed none n d econnaborted = refl
send-keeps_failed none n d enotconn = refl
send-keeps_failed none n d epipe = refl
send-keeps_failed none n d eagain = refl
send-keeps_failed none n d eof = refl
send-keeps_failed none n d (other k) = refl

step-failed : (s : Step) (o : Option Errno) (n d : Bool) → (step (state o true n d) s).failed ≡ true
unfolding mark_failed mark_ended
step-failed (recv_failed x) o n d = read-keeps_failed o n d x
step-failed (send_failed x) o n d = send-keeps_failed o n d x
step-failed comm_lost o n d = refl
step-failed shutdown_complete o n d = refl

run-failed : (t : TermState) (ss : List Step) → t.failed ≡ true → (run t ss).failed ≡ true
run-failed t [] h = h
run-failed t (s ∷ ss) h = run-failed (step t s) ss (
    subst (λ f. (step (state t.error f t.ended t.drained) s).failed ≡ true) (sym h)
      (step-failed s t.error t.ended t.drained))

-- What a read ends with that makes no system call, if it reports that the stream ended gracefully.
abbrev pub is_graceful : Option Errno → Bool
is_graceful none = false
is_graceful (some e) = no_failure e

read_end-graceful :
    (o : Option Errno) (f n d : Bool)
    → IsWf (state o f n d)
    → is_graceful (read_end (state o f n d)) ≡ n && not d
unfolding read_end is_eagain is_eof
read_end-graceful (some e) f true true w = no_failure-IsEnd e (w.ends e refl)
read_end-graceful (some e) f false true w = no_failure-IsEnd e (w.ends e refl)
read_end-graceful none f n true w = absurd (w.latched_once refl refl)
read_end-graceful o f true false w = refl
read_end-graceful o f false false w = refl

-- After the association has failed, whatever calls are made, readErrorLocked never tells a read to wait
-- (EAGAIN) or that the stream ended gracefully (io.EOF); and readEnd, of a read that makes no
-- system call, says so exactly where AssocShutdownComplete has been seen as well and no read has
-- reported the latched error yet.
pub read_error_locked-failed :
    (t : TermState) (ss : List Step) (x : Errno)
    → IsWf t
    → t.failed ≡ true
    → (no_failure (read_error_locked (run t ss) x).1 ≡ false)
      × (is_graceful (read_end (run t ss)) ≡ (run t ss).ended && not (run t ss).drained)
read_error_locked-failed t ss x w h =
    let u = run t ss in
    let v = run-IsWf t ss w in
    let k = run-failed t ss h in
    (
      subst
          (λ f.
            IsWf (state u.error f u.ended u.drained)
            → no_failure (read_error_locked (state u.error f u.ended u.drained) x).1 ≡ false)
          (sym k) (failed-read u.error u.ended u.drained x) v,
      read_end-graceful u.error u.failed u.ended u.drained v,
    )
