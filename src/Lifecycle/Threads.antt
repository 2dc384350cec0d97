-- ===== src/Lifecycle/Threads.antt =====
-- The goroutines that share one lifecycle: every interleaving of their steps.
use go_sctp.Common.{
  ℕ, ◌+◌, ◌≤◌, ◌≡◌, ◌≢◌, refl, ap, zero, suc, List, [], ◌∷◌, true, false, Option, none, some, inl,
  inr, arith, get_elem?, All, ℤ, Bool-cases, leb, leb→le, ◌<◌,
}
use go_sctp.Lifecycle.{
  LifeState, life_open, life_closing, life_aborting, life_closed, Lifecycle, World, Pc, close_enter,
  close_cas, close_shut, close_start, close_poll, close_wait, close_release, close_abortive,
  close_store, close_done, abort_enter, abort_load, abort_cas_open, abort_cas_closing, abort_signal,
  abort_wait, abort_abortive, abort_done, shutdown_enter, shutdown_cas, shutdown_start, returned,
  panicked, next, init,
}
use go_sctp.Lifecycle.Invariant.{
  one, closer, releaser, finisher, signaller, panicker, opened, pending, ended, Owned, Kept,
  next-Kept, balance,
}

-- The thread at this place takes its step, if it can.
abbrev pub stepped : Pc → List Pc → Lifecycle → Option (Lifecycle × Pc) → Lifecycle × List Pc
stepped pc pcs l none = (l, pc ∷ pcs)
stepped pc pcs l (some (l', pc')) = (l', pc' ∷ pcs)

abbrev pub advance : World → Lifecycle → List Pc → ℕ → Lifecycle × List Pc
advance w l [] i = (l, [])
advance w l (pc ∷ pcs) zero = stepped pc pcs l (next w l pc)
advance w l (pc ∷ pcs) (suc i) = let (l', rest) = advance w l pcs i in (l', pc ∷ rest)

-- A schedule: which thread steps, in which world.
abbrev pub interleave : Lifecycle → List Pc → List (ℕ × World) → Lifecycle × List Pc
interleave l pcs [] = (l, pcs)
interleave l pcs ((i, w) ∷ ms) = let (l', pcs') = advance w l pcs i in interleave l' pcs' ms

abbrev pub sum : (Pc → ℕ) → List Pc → ℕ
sum k [] = 0
sum k (pc ∷ pcs) = k pc + sum k pcs

-- The invariant of all the threads.
abbrev pub Shares : Lifecycle × List Pc → Type 0
Shares (l, pcs) =
    Owned l (sum closer pcs) (sum releaser pcs) (sum finisher pcs) (sum signaller pcs)
      (sum panicker pcs)

-- The same, besides threads already counted.
Besides : ℕ → ℕ → ℕ → ℕ → ℕ → Lifecycle × List Pc → Type 0
Besides c r f s p (l, pcs) =
    Owned l (c + sum closer pcs) (r + sum releaser pcs) (f + sum finisher pcs)
      (s + sum signaller pcs) (p + sum panicker pcs)

recount :
    {l : Lifecycle} {c r f s p c' r' f' s' p' : ℕ}
    → Owned l c r f s p
    → c ≡ c'
    → r ≡ r'
    → f ≡ f'
    → s ≡ s'
    → p ≡ p'
    → Owned l c' r' f' s' p'
recount o hc hr hf hs hp = record {
  closing = omega (arith, o.closing, hc);
  finishing = omega (arith, o.finishing, hf);
  releasing = omega (arith, o.releasing, hr);
  signalling = omega (arith, o.signalling, hs);
  sound = omega (arith, o.sound, hp);
}

stepped-Besides :
    (l : Lifecycle) (pc : Pc) (pcs : List Pc) (c r f s p : ℕ) (m : Option (Lifecycle × Pc))
    → Besides c r f s p (l, pc ∷ pcs)
    → Kept
        (c + sum closer pcs)
        (r + sum releaser pcs)
        (f + sum finisher pcs)
        (s + sum signaller pcs)
        (p + sum panicker pcs)
        m
    → Besides c r f s p (stepped pc pcs l m)
unfolding Besides Kept
stepped-Besides l pc pcs c r f s p none o k = o
stepped-Besides l pc pcs c r f s p (some (l', pc')) o k =
    recount k (omega arith) (omega arith) (omega arith) (omega arith) (omega arith)

advance-Besides :
    (w : World) (l : Lifecycle) (pcs : List Pc) (i c r f s p : ℕ)
    → Besides c r f s p (l, pcs)
    → Besides c r f s p (advance w l pcs i)
unfolding Besides
advance-Besides w l [] i c r f s p o = o
advance-Besides w l (pc ∷ pcs) zero c r f s p o =
    stepped-Besides l pc pcs c r f s p (next w l pc) o (
      next-Kept w l pc (c + sum closer pcs) (r + sum releaser pcs) (f + sum finisher pcs)
        (s + sum signaller pcs) (p + sum panicker pcs)
        (recount o (omega arith) (omega arith) (omega arith) (omega arith) (omega arith)))
advance-Besides w l (pc ∷ pcs) (suc i) c r f s p o =
    recount
      (advance-Besides w l pcs i (c + closer pc) (r + releaser pc) (f + finisher pc)
        (s + signaller pc) (p + panicker pc)
        (recount o (omega arith) (omega arith) (omega arith) (omega arith) (omega arith)))
      (omega arith) (omega arith) (omega arith) (omega arith) (omega arith)

advance-Shares :
    (w : World) (l : Lifecycle) (pcs : List Pc) (i : ℕ)
    → Shares (l, pcs)
    → Shares (advance w l pcs i)
unfolding Besides
advance-Shares w l pcs i o =
    recount
      (advance-Besides w l pcs i 0 0 0 0 0
        (recount o (omega arith) (omega arith) (omega arith) (omega arith) (omega arith)))
      (omega arith) (omega arith) (omega arith) (omega arith) (omega arith)

-- Every interleaving of the threads keeps the invariant.
pub interleave-Shares :
    (l : Lifecycle) (pcs : List Pc) (ms : List (ℕ × World))
    → Shares (l, pcs)
    → Shares (interleave l pcs ms)
interleave-Shares l pcs [] o = o
interleave-Shares l pcs ((i, w) ∷ ms) o =
    let z = advance w l pcs i in interleave-Shares z.0 z.1 ms (advance-Shares w l pcs i o)

-- A call that has just been made.
pub data IsCall : Pc → Type 0 where
  call_close : (g : ℤ) → IsCall (close_enter g)
  call_abort : IsCall abort_enter
  call_shutdown : IsCall shutdown_enter

calls-Shares : (pcs : List Pc) → All IsCall pcs → Shares (init, pcs)
calls-Shares [] h = record {
  closing = refl;
  finishing = refl;
  releasing = refl;
  signalling = omega arith;
  sound = refl;
}
calls-Shares (pc ∷ pcs) (call_close g, hs) =
    recount (calls-Shares pcs hs) (omega arith) (omega arith) (omega arith) (omega arith)
      (omega arith)
calls-Shares (pc ∷ pcs) (call_abort, hs) =
    recount (calls-Shares pcs hs) (omega arith) (omega arith) (omega arith) (omega arith)
      (omega arith)
calls-Shares (pc ∷ pcs) (call_shutdown, hs) =
    recount (calls-Shares pcs hs) (omega arith) (omega arith) (omega arith) (omega arith)
      (omega arith)

-- However the calls of close, abortNow and shutdown on one lifecycle interleave, no channel is closed
-- twice, and the descriptor is released at most once.
pub interleave_sound :
    (pcs : List Pc) (ms : List (ℕ × World))
    → All IsCall pcs
    → let z = interleave init pcs ms in (sum panicker z.1 ≡ 0) × (z.0.released ≤ 1)
interleave_sound pcs ms h =
    let o = interleave-Shares init pcs ms (calls-Shares pcs h) in
    (o.sound, omega (arith, o.releasing))

releaser-le : (pc : Pc) → releaser pc ≤ closer pc + finisher pc
releaser-le (close_cas d) = omega arith
releaser-le (close_shut d) = omega arith
releaser-le (close_start d) = omega arith
releaser-le (close_poll d q) = omega arith
releaser-le (close_wait d q) = omega arith
releaser-le close_release = omega arith
releaser-le (close_abortive d) = omega arith
releaser-le (close_store d) = omega arith
releaser-le (close_done d) = omega arith
releaser-le abort_enter = omega arith
releaser-le abort_load = omega arith
releaser-le abort_cas_open = omega arith
releaser-le abort_cas_closing = omega arith
releaser-le abort_signal = omega arith
releaser-le abort_wait = omega arith
releaser-le abort_abortive = omega arith
releaser-le (abort_done d) = omega arith
releaser-le shutdown_enter = omega arith
releaser-le shutdown_cas = omega arith
releaser-le shutdown_start = omega arith
releaser-le (returned d) = omega arith
releaser-le panicked = omega arith
releaser-le (close_enter d) = omega arith

sum-releaser : (pcs : List Pc) → sum releaser pcs ≤ sum closer pcs + sum finisher pcs
sum-releaser [] = omega arith
sum-releaser (pc ∷ pcs) = omega (arith, releaser-le pc, sum-releaser pcs)

ended-closed : (s : LifeState) → ended s ≡ 1 → (s ≡ life_closed) × (pending s ≡ 0) × (opened s ≡ 0)
ended-closed life_open h = absurd (omega arith)
ended-closed life_closing h = absurd (omega arith)
ended-closed life_aborting h = absurd (omega arith)
ended-closed life_closed h = (refl, refl, refl)

-- Who sees `done` closed sees the lifecycle closed and the descriptor released.
pub interleave-done :
    (pcs : List Pc) (ms : List (ℕ × World))
    → All IsCall pcs
    → let z = interleave init pcs ms in
      z.0.done ≡ true → (z.0.state ≡ life_closed) × (z.0.released ≡ 1)
interleave-done pcs ms h d =
    let z = interleave init pcs ms in
    let o = interleave-Shares init pcs ms (calls-Shares pcs h) in
    let k = balance z.0.state in
    let (closed, p, q) = ended-closed z.0.state (omega (arith, o.finishing, k.0, ap one d)) in
    (
      closed,
      omega (arith, o.releasing, o.closing, o.finishing, k.0, p, q, ap one d, sum-releaser z.1),
    )

-- A thread that has the lifecycle to close is never stuck: with a timer that fires it takes a step.
owner-moves :
    (l : Lifecycle) (w : World) (pc : Pc)
    → w.see_abort ≡ false
    → 1 ≤ closer pc + finisher pc
    → next w l pc ≢ none
unfolding next
owner-moves l w (close_cas d) t h = absurd (omega arith)
owner-moves l w (close_shut d) t h = λ e. cc
owner-moves l w (close_start d) t h = λ e. cc
owner-moves l w (close_poll d q) t h = λ e. cc
owner-moves l w (close_wait d q) t h = rw (t) (λ e. cc)
owner-moves l w close_release t h = λ e. cc
owner-moves l w (close_abortive d) t h = λ e. cc
owner-moves l w (close_store d) t h = λ e. cc
owner-moves l w (close_done d) t h = λ e. cc
owner-moves l w abort_enter t h = absurd (omega arith)
owner-moves l w abort_load t h = absurd (omega arith)
owner-moves l w abort_cas_open t h = absurd (omega arith)
owner-moves l w abort_cas_closing t h = absurd (omega arith)
owner-moves l w abort_signal t h = absurd (omega arith)
owner-moves l w abort_wait t h = absurd (omega arith)
owner-moves l w abort_abortive t h = λ e. cc
owner-moves l w (abort_done d) t h = λ e. cc
owner-moves l w shutdown_enter t h = absurd (omega arith)
owner-moves l w shutdown_cas t h = absurd (omega arith)
owner-moves l w shutdown_start t h = absurd (omega arith)
owner-moves l w (returned d) t h = absurd (omega arith)
owner-moves l w panicked t h = absurd (omega arith)
owner-moves l w (close_enter d) t h = absurd (omega arith)

leb-false : (a b : ℕ) → leb a b ≡ false → b < a
leb-false a b h = ground arith

owner-exists :
    (pcs : List Pc)
    → 1 ≤ sum closer pcs + sum finisher pcs
    → (i : ℕ) × (pc : Pc) × (get_elem? pcs i ≡ some pc) × (1 ≤ closer pc + finisher pc)
owner-exists [] h = absurd (omega arith)
owner-exists (pc ∷ pcs) h = elim (Bool-cases (leb 1 (closer pc + finisher pc))) [
  | inl e ↦ (0, pc, refl, leb→le 1 (closer pc + finisher pc) e)
  | inr e ↦
      (let (i, q, at, own) =
          owner-exists pcs (omega (arith, leb-false 1 (closer pc + finisher pc) e)) in
        (suc i, q, at, own))
]

-- Once a close or an Abort has taken the lifecycle out of its open state, and until `done` is closed,
-- some thread has a step to take, in any world where the timer of the wait fires.
pub interleave-moves :
    (pcs : List Pc) (ms : List (ℕ × World)) (w : World)
    → All IsCall pcs
    → w.see_abort ≡ false
    → (interleave init pcs ms).0.state ≢ life_open
    → (interleave init pcs ms).0.done ≡ false
    → (i : ℕ) × (pc : Pc) × (get_elem? (interleave init pcs ms).1 i ≡ some pc)
      × (next w (interleave init pcs ms).0 pc ≢ none)
interleave-moves pcs ms w h t n d =
    let z = interleave init pcs ms in
    let o = interleave-Shares init pcs ms (calls-Shares pcs h) in
    let k = balance z.0.state in
    let (i, pc, at, own) =
      owner-exists z.1
        (omega (arith, o.closing, o.finishing, k.0, not_open z.0.state n, ap one d)) in
    (i, pc, at, owner-moves z.0 w pc t own)
  where
    not_open : (s : LifeState) → s ≢ life_open → opened s ≡ 0
    not_open life_open q = absurd (q refl)
    not_open life_closing q = refl
    not_open life_aborting q = refl
    not_open life_closed q = refl
