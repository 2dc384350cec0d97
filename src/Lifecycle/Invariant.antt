-- ===== src/Lifecycle/Invariant.antt =====
-- What the threads of one lifecycle own between them, and that a step keeps it.
use go_sctp.Common.{
  ℕ, ◌+◌, ◌≤◌, ◌≡◌, refl, zero, suc, Bool, true, false, Option, none, some, leb, if_cases, ap, pos,
  negsuc, arith,
}
use go_sctp.Lifecycle.{
  LifeState, life_open, life_closing, life_aborting, life_closed, Lifecycle, World, Gone, gone,
  present, query_failed, Pc, close_enter, close_cas, close_shut, close_start, close_poll,
  close_wait, close_release, close_abortive, close_store, close_done, abort_enter, abort_load,
  abort_cas_open, abort_cas_closing, abort_signal, abort_wait, abort_abortive, abort_done,
  shutdown_enter, shutdown_cas, shutdown_start, returned, panicked, next, is_open, is_closing,
  abort_switch, after_status,
}

abbrev pub one : Bool → ℕ
one true = 1
one false = 0

-- The threads inside `close` before they store lifeClosed, and those of them that have yet to
-- release the descriptor.
abbrev pub closer : Pc → ℕ
closer (close_shut d) = 1
closer (close_start d) = 1
closer (close_poll d p) = 1
closer (close_wait d p) = 1
closer close_release = 1
closer (close_abortive es) = 1
closer (close_store es) = 1
closer pc = 0

abbrev pub releaser : Pc → ℕ
releaser (close_shut d) = 1
releaser (close_start d) = 1
releaser (close_poll d p) = 1
releaser (close_wait d p) = 1
releaser close_release = 1
releaser (close_abortive es) = 1
releaser abort_abortive = 1
releaser pc = 0

-- The threads that are to close `done` with the lifecycle closed, and that are to close `abort`.
abbrev pub finisher : Pc → ℕ
finisher (close_done es) = 1
finisher abort_abortive = 1
finisher (abort_done es) = 1
finisher pc = 0

abbrev pub signaller : Pc → ℕ
signaller abort_signal = 1
signaller pc = 0

abbrev pub waiter : Pc → ℕ
waiter abort_wait = 1
waiter pc = 0

abbrev pub panicker : Pc → ℕ
panicker panicked = 1
panicker pc = 0

abbrev pub opened : LifeState → ℕ
opened life_open = 1
opened s = 0

abbrev pub pending : LifeState → ℕ
pending life_closing = 1
pending life_aborting = 1
pending s = 0

abbrev pub ended : LifeState → ℕ
ended life_closed = 1
ended s = 0

-- At most this many Aborts have interrupted, or are to.
abbrev pub interrupts : LifeState → ℕ
interrupts life_aborting = 1
interrupts life_closed = 1
interrupts s = 0

-- The invariant, for the numbers of the threads of each kind.
pub record Owned (l : Lifecycle) (c r f s p : ℕ) : Type 0 where
  pub closing : c ≡ pending l.state
  pub finishing : f + one l.done ≡ ended l.state
  pub releasing : r + l.released + opened l.state ≡ 1
  pub signalling : s + one l.abort ≤ interrupts l.state
  pub sound : p ≡ 0

unfoldable pub Kept : ℕ → ℕ → ℕ → ℕ → ℕ → Option (Lifecycle × Pc) → Type 0
Kept c r f s p none = Unit
Kept c r f s p (some (l, pc)) =
    Owned l (c + closer pc) (r + releaser pc) (f + finisher pc) (s + signaller pc) (p + panicker pc)

pub balance : (s : LifeState) → (opened s + pending s + ended s ≡ 1) × (interrupts s ≤ 1)
balance life_open = (refl, omega arith)
balance life_closing = (refl, omega arith)
balance life_aborting = (refl, omega arith)
balance life_closed = (refl, omega arith)

is_open-opened : (s : LifeState) → is_open s ≡ true → opened s ≡ 1
is_open-opened life_open h = refl
is_open-opened life_closing h = cc
is_open-opened life_aborting h = cc
is_open-opened life_closed h = cc

opened-interrupts : (s : LifeState) → opened s ≡ 1 → interrupts s ≡ 0
opened-interrupts life_open h = refl
opened-interrupts life_closing h = omega arith
opened-interrupts life_aborting h = omega arith
opened-interrupts life_closed h = omega arith

is_closing-numbers : (s : LifeState) → is_closing s ≡ true → (pending s ≡ 1) × (interrupts s ≡ 0)
is_closing-numbers life_open h = cc
is_closing-numbers life_closing h = (refl, refl)
is_closing-numbers life_aborting h = cc
is_closing-numbers life_closed h = cc

poll-Kept :
    (g : Gone) (now d q : ℕ) (l : Lifecycle) (c r f s p : ℕ)
    → Owned l (c + 1) (r + 1) (f + 0) (s + 0) (p + 0)
    → Kept c r f s p (some (l, after_status g now d q))
unfolding Kept
poll-Kept gone now d q l c r f s p o = o
poll-Kept (query_failed e) now d q l c r f s p o = o
poll-Kept present now d q l c r f s p o =
    if_cases (λ k. Kept c r f s p (some (l, k))) (leb d now) (λ _. o) (λ _. o)

load-Kept :
    (z : LifeState) (l : Lifecycle) (c r f s p : ℕ)
    → Owned l (c + 0) (r + 0) (f + 0) (s + 0) (p + 0)
    → Kept c r f s p (some (l, abort_switch z))
unfolding Kept
load-Kept life_open l c r f s p o = o
load-Kept life_closing l c r f s p o = o
load-Kept life_aborting l c r f s p o = o
load-Kept life_closed l c r f s p o = o

pub next-Kept :
    (w : World) (l : Lifecycle) (pc : Pc) (c r f s p : ℕ)
    → Owned l
        (c + closer pc)
        (r + releaser pc)
        (f + finisher pc)
        (s + signaller pc)
        (p + panicker pc)
    → Kept c r f s p (next w l pc)
unfolding next Kept
next-Kept w l (close_enter (pos zero)) c r f s p o =
    if_cases (λ q. Kept c r f s p (some (l, q))) l.made (λ _. o) (λ _. o)
next-Kept w l (close_enter (negsuc n)) c r f s p o =
    if_cases (λ q. Kept c r f s p (some (l, q))) l.made (λ _. o) (λ _. o)
next-Kept w l (close_enter (pos (suc n))) c r f s p o =
    if_cases (λ q. Kept c r f s p (some (l, q))) l.made (λ _. o) (λ _. o)
next-Kept w l (close_cas d) c r f s p o =
    if_cases (Kept c r f s p) (is_open l.state)
      (λ h.
        let u = is_open-opened l.state h in
        let b = balance l.state in
        let i = opened-interrupts l.state u in
        record {
          closing = omega (arith, o.closing, u, b.0);
          finishing = omega (arith, o.finishing, u, b.0);
          releasing = omega (arith, o.releasing, u);
          signalling = omega (arith, o.signalling, i);
          sound = o.sound;
        })
      (λ _. o)
next-Kept w l (close_shut d) c r f s p o = record {
  closing = o.closing;
  finishing = o.finishing;
  releasing = o.releasing;
  signalling = o.signalling;
  sound = o.sound;
}
next-Kept w l (close_start d) c r f s p o = o
next-Kept w l (close_poll d q) c r f s p o = poll-Kept w.status w.now d q l c r f s p o
next-Kept w l (close_wait d q) c r f s p o =
    if_cases (Kept c r f s p) w.see_abort
      (λ _. if_cases (Kept c r f s p) l.abort (λ _. o) (λ _. tt)) (λ _. o)
next-Kept w l close_release c r f s p o = record {
  closing = o.closing;
  finishing = o.finishing;
  releasing = omega (arith, o.releasing);
  signalling = o.signalling;
  sound = o.sound;
}
next-Kept w l (close_abortive es) c r f s p o = record {
  closing = o.closing;
  finishing = o.finishing;
  releasing = omega (arith, o.releasing);
  signalling = o.signalling;
  sound = o.sound;
}
next-Kept w l (close_store es) c r f s p o =
    let b = balance l.state in
    record {
      closing = omega (arith, o.closing, b.0);
      finishing = omega (arith, o.closing, o.finishing, b.0);
      releasing = omega (arith, o.closing, o.releasing, b.0);
      signalling = omega (arith, o.signalling, b.1);
      sound = o.sound;
    }
next-Kept w l (close_done es) c r f s p o =
    if_cases (λ q. Kept c r f s p (some q)) l.done
      (λ h. absurd (omega (arith, o.finishing, (balance l.state).0, ap one h)))
      (λ h. record {
        closing = o.closing;
        finishing = omega (arith, o.finishing, ap one h);
        releasing = o.releasing;
        signalling = o.signalling;
        sound = o.sound;
      })
next-Kept w l abort_enter c r f s p o =
    if_cases (λ q. Kept c r f s p (some (l, q))) l.made (λ _. o) (λ _. o)
next-Kept w l abort_load c r f s p o = load-Kept l.state l c r f s p o
next-Kept w l abort_cas_open c r f s p o =
    if_cases (Kept c r f s p) (is_open l.state)
      (λ h.
        let u = is_open-opened l.state h in
        let b = balance l.state in
        let i = opened-interrupts l.state u in
        record {
          closing = omega (arith, o.closing, u, b.0);
          finishing = omega (arith, o.finishing, u, b.0);
          releasing = omega (arith, o.releasing, u);
          signalling = omega (arith, o.signalling, i);
          sound = o.sound;
        })
      (λ _. o)
next-Kept w l abort_cas_closing c r f s p o =
    if_cases (Kept c r f s p) (is_closing l.state)
      (λ h.
        let (u, i) = is_closing-numbers l.state h in
        let b = balance l.state in
        record {
          closing = omega (arith, o.closing, u);
          finishing = omega (arith, o.finishing, u, b.0);
          releasing = omega (arith, o.releasing, u, b.0);
          signalling = omega (arith, o.signalling, i);
          sound = o.sound;
        })
      (λ _. o)
next-Kept w l abort_signal c r f s p o =
    if_cases (λ q. Kept c r f s p (some q)) l.abort
      (λ h. absurd (omega (arith, o.signalling, (balance l.state).1, ap one h)))
      (λ h. record {
        closing = o.closing;
        finishing = o.finishing;
        releasing = o.releasing;
        signalling = omega (arith, o.signalling, ap one h);
        sound = o.sound;
      })
next-Kept w l abort_wait c r f s p o = if_cases (Kept c r f s p) l.done (λ _. o) (λ _. tt)
next-Kept w l abort_abortive c r f s p o = record {
  closing = o.closing;
  finishing = o.finishing;
  releasing = omega (arith, o.releasing);
  signalling = o.signalling;
  sound = o.sound;
}
next-Kept w l (abort_done es) c r f s p o =
    if_cases (λ q. Kept c r f s p (some q)) l.done
      (λ h. absurd (omega (arith, o.finishing, (balance l.state).0, ap one h)))
      (λ h. record {
        closing = o.closing;
        finishing = omega (arith, o.finishing, ap one h);
        releasing = o.releasing;
        signalling = o.signalling;
        sound = o.sound;
      })
next-Kept w l shutdown_enter c r f s p o =
    if_cases (λ q. Kept c r f s p (some (l, q))) l.made
      (λ _. if_cases (λ q. Kept c r f s p (some (l, q))) (is_open l.state) (λ _. o) (λ _. o))
      (λ _. o)
next-Kept w l shutdown_cas c r f s p o =
    if_cases (Kept c r f s p) l.shut (λ _. o)
      (λ _. record {
        closing = o.closing;
        finishing = o.finishing;
        releasing = o.releasing;
        signalling = o.signalling;
        sound = o.sound;
      })
next-Kept w l shutdown_start c r f s p o = o
next-Kept w l (returned e) c r f s p o = tt
next-Kept w l panicked c r f s p o = tt
