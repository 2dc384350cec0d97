-- ===== src/Config/Subscriptions.antt =====
-- config.go: the set of notification types that the caller subscribes to, one bit for each type.
use go_sctp.Common.{
  ℕ, ◌-◌, ◌^◌, ◌==◌, List, [], ◌∷◌, Bool, not, ◌&&◌, leb, if◌then◌else◌, has_bits, bit_or, Outcome,
  ok, ◌>>=◌, ◌>>◌, refuse,
}
use go_sctp.Duration.{unknown_value}
use go_sctp.Config.{ConfigOp, ConfigError, invalid_arg, f_notifications, op_notification}

-- `1 << (t - EventAssocChange)`, for the types of `eventTypeNames`.
abbrev pub event_bit : ℕ → ℕ
event_bit t = 2 ^ (t - 0x8001)

abbrev pub has : ℕ → ℕ → Bool
has s t = has_bits s (event_bit t)

-- The keys of `eventTypeNames`.
abbrev pub is_event_type : ℕ → Bool
is_event_type t = leb 0x8001 t && leb t 0x800d && not (t == 0x8003)

-- One operation for each new type, and the set after them.
unfoldable pub build_subscriptions : ℕ → List ℕ → Outcome ConfigError (List ConfigOp × ℕ)
build_subscriptions subscribed [] = ok ([], subscribed)
build_subscriptions subscribed (t ∷ ts) = do
  refuse (not (is_event_type t)) (invalid_arg f_notifications unknown_value)
  rest ←
      build_subscriptions (if has subscribed t then subscribed else bit_or subscribed (event_bit t))
        ts
  ok (if has subscribed t then rest else (op_notification t ∷ rest.0, rest.1))
