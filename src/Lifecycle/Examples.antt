-- ===== src/Lifecycle/Examples.antt =====
-- A close that an Abort overtakes.
use go_sctp.Common.{
  ℕ, ◌≤◌, ◌≡◌, ◌≢◌, refl, List, [], ◌∷◌, none, some, true, false, pos, get_elem?, All,
}
use go_sctp.Lifecycle.{
  World, Pc, present, close_enter, abort_enter, shutdown_enter, life_closed, init, next,
}
use go_sctp.Lifecycle.Invariant.{panicker}
use go_sctp.Lifecycle.Threads.{
  interleave, sum, IsCall, call_close, call_abort, call_shutdown, interleave_sound, interleave-done,
  interleave-moves,
}

abbrev calls : List Pc
calls = close_enter (pos 3000000000) ∷ abort_enter ∷ shutdown_enter ∷ []

calls-IsCall : All IsCall calls
calls-IsCall = (call_close (pos 3000000000), (call_abort, (call_shutdown, tt)))

abbrev quiet : World
quiet = record { now = 0; status = present; step_error = none; see_abort = false }

abbrev woken : World
woken = record { now = 5; status = present; step_error = none; see_abort = true }

-- The close enters, starts the shutdown and polls; the Abort signals; the close sees it, aborts and
-- reports; the Abort returns.
abbrev overtaken : List (ℕ × World)
overtaken =
    (0, quiet)
    ∷ (0, quiet)
    ∷ (0, quiet)
    ∷ (0, quiet)
    ∷ (0, quiet)
    ∷ (1, quiet)
    ∷ (1, quiet)
    ∷ (1, quiet)
    ∷ (1, quiet)
    ∷ (0, woken)
    ∷ (0, woken)
    ∷ (0, woken)
    ∷ (0, woken)
    ∷ (1, quiet)
    ∷ []

abbrev waiting : List (ℕ × World)
waiting = (0, quiet) ∷ (0, quiet) ∷ (0, quiet) ∷ []

interleave_sound_example :
    let z = interleave init calls overtaken in (sum panicker z.1 ≡ 0) × (z.0.released ≤ 1)
interleave_sound_example = interleave_sound calls overtaken calls-IsCall

interleave-done_example :
    let z = interleave init calls overtaken in (z.0.state ≡ life_closed) × (z.0.released ≡ 1)
unfolding next
interleave-done_example = interleave-done calls overtaken calls-IsCall refl

interleave-moves_example :
    (i : ℕ) × (pc : Pc) × (get_elem? (interleave init calls waiting).1 i ≡ some pc)
    × (next quiet (interleave init calls waiting).0 pc ≢ none)
unfolding next
interleave-moves_example = interleave-moves calls waiting quiet calls-IsCall refl (λ e. cc) refl
