-- ===== src/Term/Examples.antt =====
-- The latch after a peer's ABORT, and after a failure whose error was taken elsewhere.
use go_sctp.Common.{◌≡◌, refl, [], ◌∷◌, none, some, true, false, not, ◌&&◌}
use go_sctp.Term.{TermState, econnreset, etimedout, epipe, eagain, eof, read_error_locked, read_end}
use go_sctp.Term.Laws.{
  recv_failed, send_failed, comm_lost, shutdown_complete, is_graceful, run, IsWf, run-IsWf,
  no_failure, read_error_locked-run, read_error_locked-failed,
}

abbrev reset_seen : TermState
reset_seen = record { error = some econnreset; failed = false; ended = false; drained = false }

abbrev lost : TermState
lost = record { error = none; failed = true; ended = false; drained = false }

lost-IsWf : IsWf lost
lost-IsWf = record { ends = λ e q. cc; latched_once = λ q. cc }

read_error_locked-run_example :
    let r = read_error_locked (run reset_seen (comm_lost ∷ send_failed epipe ∷ [])) etimedout in
    (r.1 ≡ econnreset) × (read_end (run r.0 (shutdown_complete ∷ [])) ≡ some econnreset)
read_error_locked-run_example =
    read_error_locked-run reset_seen econnreset (comm_lost ∷ send_failed epipe ∷ []) etimedout
      (shutdown_complete ∷ []) refl

run-IsWf_example : IsWf (run lost (send_failed epipe ∷ recv_failed eagain ∷ []))
run-IsWf_example = run-IsWf lost (send_failed epipe ∷ recv_failed eagain ∷ []) lost-IsWf

read_error_locked-failed_example :
    let ss = recv_failed econnreset ∷ shutdown_complete ∷ [] in
    (no_failure (read_error_locked (run lost ss) eof).1 ≡ false)
    × (is_graceful (read_end (run lost ss)) ≡ (run lost ss).ended && not (run lost ss).drained)
read_error_locked-failed_example =
    read_error_locked-failed lost (recv_failed econnreset ∷ shutdown_complete ∷ []) eof lost-IsWf
      refl
