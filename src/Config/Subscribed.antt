-- ===== src/Config/Subscribed.antt =====
-- config.go, buildSubscriptions: what an accepted Config subscribes to.
use go_sctp.Common.{
  ◌-◌, bit_or, ℕ, ◌+◌, ◌==◌, ◌≤◌, ◌≡◌, refl, sym, ap, ◌∙◌, List, [], ◌∷◌, ◌++◌, Bool, true, false,
  not, ◌&&◌, ◌||◌, if◌then◌else◌, ℤ, ok, >>=-eq-ok, All, arith,
}
use mathlib.Core.List.{append_assoc}
use mathlib.Core.Path.{subst}
use go_sctp.Bytes.{Endian}
use go_sctp.Config.{Config, ConfigOp, Prepared, SocketStyle, is_endpoint, op_notification}
use go_sctp.Config.Auth.{contains}
use go_sctp.Config.Subscriptions.{build_subscriptions, is_event_type, has, event_bit}
use go_sctp.Config.Prepare.{prepare_socket}
use go_sctp.Config.Gives.{ok-injective, refuse-eq-ok}
use go_sctp.Config.Prepare.{listed}
use go_sctp.Config.Validity.{prepare_socket-eq-ok}
use go_sctp.Bits.{bit-nil, bit, bit-bit_or, bit-pow, has_bits-pow}
use go_sctp.Config.Validity.{prepare_socket-eq-ok}
use go_sctp.Config.Sorted.{Within, kind}
use go_sctp.Config.Order.{settings-IsOrdered}

-- 1 for an operation that subscribes to `u`, and how many there are.
abbrev pub subscribes : ℕ → ConfigOp → ℕ
subscribes u (op_notification t) = if u == t then 1 else 0
subscribes u op = 0

abbrev pub count_notifications : ℕ → List ConfigOp → ℕ
count_notifications u [] = 0
count_notifications u (op ∷ ops) = subscribes u op + count_notifications u ops

count_notifications-append :
    (u : ℕ) (xs ys : List ConfigOp)
    → count_notifications u (xs ++ ys) ≡ count_notifications u xs + count_notifications u ys
count_notifications-append u [] ys = omega arith
count_notifications-append u (x ∷ xs) ys = let q = count_notifications-append u xs ys in omega arith

subscribes-zero : (u : ℕ) (op : ConfigOp) → kind op ≤ 23 → subscribes u op ≡ 0
subscribes-zero u (op_notification t) h = omega arith
subscribes-zero u op h = refl

count_notifications-zero :
    (u : ℕ) (ops : List ConfigOp) → All (Within 0 23) ops → count_notifications u ops ≡ 0
count_notifications-zero u [] h = refl
count_notifications-zero u (op ∷ ops) (k, h) =
    let p = subscribes-zero u op k.1 in let q = count_notifications-zero u ops h in omega arith

pub has-event_bit :
    (s t u : ℕ)
    → is_event_type t ≡ true
    → 0x8001 ≤ u
    → has (bit_or s (event_bit t)) u ≡ has s u || (u == t)
has-event_bit s t u h k =
    has_bits-pow (u - 0x8001) (bit_or s (event_bit t))
    ∙ bit-bit_or (u - 0x8001) s (event_bit t)
    ∙ ap (λ b. bit (u - 0x8001) s || b) (bit-pow (u - 0x8001) (t - 0x8001) ∙ ground arith)
    ∙ ap (λ b. b || (u == t)) (sym (has_bits-pow (u - 0x8001) s))

has-same : (s t u : ℕ) → (u == t) ≡ true → has s t ≡ has s u
has-same s t u h = ap (has s) (same u t h)
  where
    same : (u t : ℕ) → (u == t) ≡ true → t ≡ u
    same u t h = ground arith

kept :
    (hs e c r : Bool) (n : ℕ)
    → (e ≡ true → hs ≡ true)
    → (r ≡ hs || c) × (n ≡ (if hs then 0 else if c then 1 else 0))
    → (r ≡ hs || (e || c)) × (n ≡ (if hs then 0 else if e || c then 1 else 0))
kept true e c r n h q = q
kept false true c r n h q = let absurd : false ≡ true = h refl in cc
kept false false c r n h q = q

added :
    (hs e c r : Bool) (n : ℕ)
    → (e ≡ true → hs ≡ false)
    → (r ≡ (hs || e) || c) × (n ≡ (if hs || e then 0 else if c then 1 else 0))
    → (r ≡ hs || (e || c))
      × ((if e then 1 else 0) + n ≡ (if hs then 0 else if e || c then 1 else 0))
added true true c r n h q = let absurd : true ≡ false = h refl in cc
added true false c r n h q = (q.0, omega (arith, q.1))
added false true c r n h q = (q.0, omega (arith, q.1))
added false false c r n h q = (q.0, omega (arith, q.1))

-- From `s`, the listed types are added, each with one operation where it was not in `s`.
abbrev Subscribes : ℕ → List ℕ → ℕ → List ConfigOp × ℕ → Type 0
Subscribes s ts u r =
    (has r.1 u ≡ has s u || contains u ts)
    × (count_notifications u r.0 ≡ (if has s u then 0 else if contains u ts then 1 else 0))

subscribe-step :
    (s t : ℕ) (ts : List ℕ) (rest : List ConfigOp × ℕ) (u : ℕ)
    → not (is_event_type t) ≡ false
    → 0x8001 ≤ u
    → Subscribes (if has s t then s else bit_or s (event_bit t)) ts u rest
    → Subscribes s (t ∷ ts) u (if has s t then rest else (op_notification t ∷ rest.0, rest.1))
subscribe-step s t ts rest u known h q = by_case (has s t) refl q
  where
    by_case :
        (b : Bool)
        → has s t ≡ b
        → Subscribes (if b then s else bit_or s (event_bit t)) ts u rest
        → Subscribes s (t ∷ ts) u (if b then rest else (op_notification t ∷ rest.0, rest.1))
    by_case true e q =
        kept (has s u) (u == t) (contains u ts) (has rest.1 u) (count_notifications u rest.0)
          (λ k. sym (has-same s t u k) ∙ e) q
    by_case false e q =
        added (has s u) (u == t) (contains u ts) (has rest.1 u) (count_notifications u rest.0)
          (λ k. sym (has-same s t u k) ∙ e)
          (let same = has-event_bit s t u (ground arith) h in
            subst
              (λ x.
                (has rest.1 u ≡ x || contains u ts)
                × (count_notifications u rest.0
                    ≡ (if x then 0 else if contains u ts then 1 else 0)))
              same q)

-- After the loop: a type is subscribed to where it was before or is listed, and one that is listed and
-- was not subscribed to has one operation.
build_subscriptions-has :
    (s : ℕ) (ts : List ℕ) (r : List ConfigOp × ℕ) (u : ℕ)
    → 0x8001 ≤ u
    → build_subscriptions s ts ≡ ok r
    → Subscribes s ts u r
unfolding build_subscriptions
build_subscriptions-has s [] r u h q =
    subst (Subscribes s [] u) (ok-injective _ _ q) (ground arith, ground arith)
build_subscriptions-has s (t ∷ ts) r u h q =
    let (known, p) = refuse-eq-ok (not (is_event_type t)) _ _ q in
    let (rest, k, w) =
      >>=-eq-ok (build_subscriptions (if has s t then s else bit_or s (event_bit t)) ts) _ p in
    let (set, count) =
      build_subscriptions-has (if has s t then s else bit_or s (event_bit t)) ts rest u h k in
    subst (Subscribes s (t ∷ ts) u) (ok-injective _ _ w)
      (subscribe-step s t ts rest u known h (set, count))

has-endpoint :
    (b : Bool) (m u : ℕ)
    → 0x8001 ≤ u
    → has (if b then bit_or m (event_bit 0x8001) else m) u ≡ has m u || (b && (u == 0x8001))
has-endpoint true m u h = has-event_bit m 0x8001 u refl h
has-endpoint false m u h = ground arith

has-none : (u : ℕ) → has 0 u ≡ false
has-none u = has_bits-pow (u - 0x8001) 0 ∙ bit-nil (u - 0x8001)

-- Of an accepted Config that is not for an adopted descriptor, the set of subscribed types has the listed
-- ones, for an Endpoint the association changes too, and no other known type; and the operations
-- subscribe exactly once to each listed type and to no other.
pub prepare-subscribed :
    (e : Endian) (c : Config) (style : SocketStyle) (t : ℤ) (p : Prepared) (u : ℕ)
    → prepare_socket e c style t ≡ ok p
    → is_event_type u ≡ true
    → (has p.subscribed u
        ≡ contains u (listed c.notifications) || (is_endpoint style && (u == 0x8001)))
      × (count_notifications u p.ops ≡ (if contains u (listed c.notifications) then 1 else 0))
prepare-subscribed e c style t p u h known =
    let (early, level, late, s, early_eq, level_eq, late_eq, s_eq, ops_eq, mask_eq) =
      prepare_socket-eq-ok e c style t p h in
    let from_none =
      subst
        (λ b.
          (has s.1 u ≡ b || contains u ts)
          × (count_notifications u s.0 ≡ (if b then 0 else if contains u ts then 1 else 0)))
        (has-none u) (build_subscriptions-has 0 ts s u (ground arith) s_eq) in
    (
      ap (λ m. has m u) mask_eq
          ∙ has-endpoint (is_endpoint style) s.1 u (ground arith)
          ∙ ap (λ b. b || (is_endpoint style && (u == 0x8001))) from_none.0,
      ap (count_notifications u) (ops_eq ∙ sym (append_assoc early late s.0))
          ∙ count_notifications-append u (early ++ late) s.0
          ∙ ap (λ n. n + count_notifications u s.0)
              (count_notifications-zero u (early ++ late)
                (settings-IsOrdered e c style level early late early_eq late_eq).1)
          ∙ plus_zero (count_notifications u s.0)
          ∙ from_none.1,
    )
  where
    plus_zero : (n : ℕ) → 0 + n ≡ n
    plus_zero n = omega arith

    ts : List ℕ
    ts = listed c.notifications
