-- ===== src/Recv/Report.antt =====
-- recv_linux.go: what a record means for its reader, as the kernel's headers number it.
use go_sctp.Common.{
  ℕ, ◌==◌, ◌≤◌, ◌<◌, ◌≡◌, refl, sym, ap, ◌∙◌, List, Bool, true, false, not, ◌&&◌, ◌||◌, Option,
  none, some, if◌then◌else◌, length, min, take, drop, leb, get_or, ok, Bool-cases, leb→le, inl, inr,
  get_or-append_left, length-take, arith,
}
use mathlib.Core.Path.{ap₂}
use go_sctp.Bytes.{Endian, peek16, word16, uint16, uint32}
use go_sctp.Config.Subscriptions.{has}
use go_sctp.Notification.{NotificationError}
use go_sctp.Notification.Parse.{assoc_change_info}
use go_sctp.Term.{TermState, mark_failed, mark_ended}
use go_sctp.Recv.{is_callers, mark}
use go_sctp.Recv.Serving.{if_true}
use mathlib.Core.List.{take-append-drop}

-- SCTP_ASSOC_CHANGE and SCTP_PARTIAL_DELIVERY_EVENT, which the package subscribes to for itself, reach
-- the caller where the caller has subscribed; any other type does.
abbrev pub is_reported : ℕ → ℕ → Bool
is_reported subs typ =
    if typ == 0x8001 then has subs typ else if typ == 0x8006 then has subs typ else true

pub is_callers-reported : (subs typ : ℕ) → is_callers subs typ ≡ is_reported subs typ
is_callers-reported subs typ = cases (typ == 0x8001) (typ == 0x8006) (has subs typ)
  where
    cases : (a b h : Bool) → (not a && not b) || h ≡ (if a then h else if b then h else true)
    cases true b h = refl
    cases false true h = refl
    cases false false h = refl

-- sac_state of `struct sctp_assoc_change`, if the record is one in full.
abbrev pub state_of : Endian → List ℕ → Option ℕ
state_of e d = if leb 20 (length d) then some (peek16 e d 8) else none

-- SCTP_COMM_LOST is 1 and SCTP_SHUTDOWN_COMP is 3.
abbrev pub heard : Option ℕ → TermState → TermState
heard none l = l
heard (some n) l = record {
  error = l.error;
  failed = l.failed || n == 1;
  ended = l.ended || n == 3;
  drained = l.drained;
}

pub mark-heard : (o : Option ℕ) (l : TermState) → mark o l ≡ heard o l
unfolding mark mark_failed mark_ended
mark-heard none l = refl
mark-heard (some n) l = cases (n == 1) (n == 3) (λ h. ground arith)
  where
    or_true : (b : Bool) → b || true ≡ true
    or_true true = refl
    or_true false = refl

    or_false : (b : Bool) → b || false ≡ b
    or_false true = refl
    or_false false = refl

    flags : Bool → Bool → TermState
    flags f n = record { error = l.error; failed = f; ended = n; drained = l.drained }

    cases :
        (a b : Bool)
        → (a ≡ true → b ≡ false)
        → (if a then flags true l.ended else if b then flags l.failed true else l)
          ≡ flags (l.failed || a) (l.ended || b)
    cases true b h =
        ap₂ flags (sym (or_true l.failed))
          (sym (ap (λ c. l.ended || c) (h refl) ∙ or_false l.ended))
    cases false true h = ap₂ flags (sym (or_false l.failed)) (sym (or_true l.ended))
    cases false false h = ap₂ flags (sym (or_false l.failed)) (sym (or_false l.ended))

-- What the state in the first 20 bytes of a record is read as.
abbrev pub read_state : Endian → List ℕ → Option ℕ
read_state e h = elim (assoc_change_info {E = NotificationError} e h) [
  | ok (some (state, id)) ↦ some state
  | _ ↦ none
]

pub assoc_change_info-state : (e : Endian) (d : List ℕ) → read_state e (take 20 d) ≡ state_of e d
unfolding assoc_change_info uint16 uint32
assoc_change_info-state e d = elim (Bool-cases (leb 20 (length d))) [
  | inl long ↦
      whole (take 20 d) (omega (arith, counted, leb→le 20 (length d) long))
      ∙ ap some (same (omega (arith, counted, leb→le 20 (length d) long)))
      ∙ sym (if_true (leb 20 (length d)) _ _ long)
  | inr short ↦
      part (take 20 d) (ground (arith, counted))
      ∙ sym (ap (λ b. if b then some (peek16 e d 8) else none) short)
]
  where
    counted : length (take 20 d) ≡ min 20 (length d)
    counted = length-take 20 d

    whole : (h : List ℕ) → 20 ≤ length h → read_state e h ≡ some (peek16 e h 8)
    whole h l = ground arith

    part : (h : List ℕ) → length h < 20 → read_state e h ≡ none
    part h l = ground arith

    byte : (i : ℕ) → i < length (take 20 d) → get_or (take 20 d) i 0 ≡ get_or d i 0
    byte i l =
        sym (get_or-append_left (take 20 d) (drop 20 d) i 0 l)
        ∙ ap (λ x. get_or x i 0) (take-append-drop 20 d)

    same : 20 ≤ length (take 20 d) → peek16 e (take 20 d) 8 ≡ peek16 e d 8
    same l = ap₂ (word16 e) (byte 8 (omega arith)) (byte 9 (omega arith))
