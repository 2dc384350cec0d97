-- ===== src/Recv/Subscribe.antt =====
-- recv_linux.go, Subscribe and Subscribed. Whether the connection is open and what setEvent gives are
-- arguments; `subs` is the atomic eventSet.
use go_sctp.Common.{
  ℕ, ◌-◌, ◌==◌, ◌≡◌, ◌⊎◌, inl, inr, refl, sym, ap, ◌∙◌, Bool, true, false, not, ◌&&◌, ◌||◌, Option,
  none, some, if◌then◌else◌, bit_or, and_not, arith, Outcome, ok, err,
}
use go_sctp.Bits.{bit, bit-and_not, bit-pow, has_bits-pow}
use go_sctp.Notification.{event_assoc_change, event_partial_delivery}
use go_sctp.Term.{Errno}
use go_sctp.Config.Subscriptions.{has, event_bit, is_event_type}
use go_sctp.Config.Subscribed.{has-event_bit}

pub data SubscribeError : Type 0 where
  not_open unknown_type : SubscribeError
  refused_by_kernel : Errno → SubscribeError

-- Both stay subscribed in the kernel.
abbrev pub is_internal : ℕ → Bool
is_internal t = t == event_assoc_change || t == event_partial_delivery

-- `c.subs.Or(bit)` and `c.subs.And(^bit)`.
unfoldable pub switched : ℕ → ℕ → Bool → ℕ
switched subs t true = bit_or subs (event_bit t)
switched subs t false = and_not subs (event_bit t)

-- Subscribe: the subscriptions after it, and whether it made the system call.
unfoldable pub subscribe :
    Bool → (ℕ → Bool → Option Errno) → ℕ → ℕ → Bool → Outcome SubscribeError ℕ
subscribe is_open set_event subs t on =
    if not is_open
    then err not_open
    else if not (is_event_type t)
    then err unknown_type
    else if is_internal t
    then ok (switched subs t on)
    else elim (set_event t on) [
      | none ↦ ok (switched subs t on)
      | some x ↦ err (refused_by_kernel x)
    ]

unfoldable pub subscribed : Bool → ℕ → ℕ → Outcome SubscribeError Bool
subscribed is_open subs t =
    if not is_open
    then err not_open
    else if not (is_event_type t)
    then err unknown_type
    else ok (has subs t)

-- The type is one, the connection is open, and the kernel, where it is asked, agrees.
abbrev pub IsAccepted : (ℕ → Bool → Option Errno) → ℕ → Bool → Type 0
IsAccepted set_event t on = (is_internal t ≡ true) ⊎ (set_event t on ≡ none)

switched-has :
    (subs t u : ℕ) (on : Bool)
    → is_event_type t ≡ true
    → is_event_type u ≡ true
    → has (switched subs t on) u ≡ (if u == t then on else has subs u)
unfolding switched
switched-has subs t u true h k =
    has-event_bit subs t u h (ground arith) ∙ added (has subs u) (u == t)
  where
    added : (x e : Bool) → x || e ≡ (if e then true else x)
    added true true = refl
    added true false = refl
    added false true = refl
    added false false = refl
switched-has subs t u false h k =
    has_bits-pow (u - 0x8001) (and_not subs (event_bit t))
    ∙ bit-and_not (u - 0x8001) subs (event_bit t)
    ∙ ap (λ b. bit (u - 0x8001) subs && not b) (bit-pow (u - 0x8001) (t - 0x8001) ∙ ground arith)
    ∙ ap (λ b. b && not (u == t)) (sym (has_bits-pow (u - 0x8001) subs))
    ∙ removed (has subs u) (u == t)
  where
    removed : (x e : Bool) → x && not e ≡ (if e then false else x)
    removed true true = refl
    removed true false = refl
    removed false true = refl
    removed false false = refl

-- On an open connection, for a known type of which the kernel, where it is asked, accepts the change:
-- Subscribe succeeds, and Subscribed then reports the type as it was set and every other known type as
-- before: the bits are the set of the types.
pub subscribed-subscribe :
    (set_event : ℕ → Bool → Option Errno) (subs t u : ℕ) (on : Bool)
    → is_event_type t ≡ true
    → is_event_type u ≡ true
    → IsAccepted set_event t on
    → (after : ℕ) × (subscribe true set_event subs t on ≡ ok after)
      × (subscribed true after u ≡ (if u == t then ok on else subscribed true subs u))
unfolding subscribe subscribed
subscribed-subscribe set_event subs t u on h k accepted = (
  switched subs t on,
  known (is_event_type t) h unknown_type _ ∙ answered (is_internal t) refl,
  known (is_event_type u) k unknown_type _
      ∙ ap ok (switched-has subs t u on h k)
      ∙ pushed (u == t) (has subs u) _ (sym (known (is_event_type u) k unknown_type _)),
)
  where
    known :
        {A : Type 0} (b : Bool)
        → b ≡ true
        → (x : SubscribeError) (m : Outcome SubscribeError A) → (if not b then err x else m) ≡ m
    known true q x m = refl
    known false q x m = cc

    pushed :
        (e x : Bool) (m : Outcome SubscribeError Bool)
        → ok x ≡ m
        → ok (if e then on else x) ≡ (if e then ok on else m)
    pushed true x m q = refl
    pushed false x m q = q

    answered :
        (b : Bool)
        → is_internal t ≡ b
        → (if b then ok (switched subs t on) else elim (set_event t on) [
          | none ↦ ok (switched subs t on)
          | some x ↦ err (refused_by_kernel x)
        ])
          ≡ ok (switched subs t on)
    answered true q = refl
    answered false q = elim accepted [
      | inl w ↦ (let both : true ≡ false = sym w ∙ q in cc)
      | inr w ↦
          ap {B = Outcome SubscribeError ℕ}
            (λ o. elim o [ none ↦ ok (switched subs t on) | some x ↦ err (refused_by_kernel x) ]) w
    ]
