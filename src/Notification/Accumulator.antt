-- ===== src/Notification/Accumulator.antt =====
-- notification.go, notificationAccumulator: one notification reassembled from its fragments. The
-- capacity that `reset` keeps or drops is not observable and is left out.
pub mod Laws
pub mod Reassembly
pub mod Peek
use go_sctp.Common.{
  ℕ, ◌+◌, ◌-◌, ◌%◌, ◌^◌, ◌≡◌, List, [], ◌++◌, Bool, true, false, ◌&&◌, ◌||◌, not, Option, none,
  some, length, take, drop, replicate, ltb, leb, ◌==◌, if◌then◌else◌, min, Outcome, ok, err, panic,
  ◌∷◌,
}
use go_sctp.Bytes.{Endian, peek16, peek32}
use go_sctp.Notification.{
  NotificationError, short_notification, notification_too_long, notification_header_size,
  notification_reassembly_limit,
}

-- `len(a.prefix)`.
abbrev pub size_assoc_change : ℕ
size_assoc_change = 20

pub record Accumulator : Type 0 where
  pub kept : List ℕ  -- data
  pub prefix : List ℕ  -- [20]byte
  pub prefix_bytes : ℕ
  pub total : ℕ
  pub declared : ℕ  -- uint32
  pub have_declared : Bool
  pub retain : Bool
  pub error : Option NotificationError

-- `copy(dst[at:], src)`: as much of `src` as fits, and how much that was.
abbrev pub copied : List ℕ → ℕ → List ℕ → ℕ
copied dst at src = min (length dst - at) (length src)

abbrev pub copy_into : List ℕ → ℕ → List ℕ → List ℕ
copy_into dst at src = let n = copied dst at src in take at dst ++ (take n src ++ drop (at + n) dst)

fail : Accumulator → NotificationError → Accumulator
fail a e = record a { error = some e; kept = [] }

pub collect_prefix : Accumulator → List ℕ → Accumulator
collect_prefix a fragment =
    if ltb a.prefix_bytes size_assoc_change
    then record a {
      prefix = copy_into a.prefix a.prefix_bytes fragment;
      prefix_bytes = a.prefix_bytes + copied a.prefix a.prefix_bytes fragment;
    }
    else a

-- The header is complete: its length is read and judged, once.
pub declare : Endian → Accumulator → Accumulator
unfolding fail
declare e a =
    if leb notification_header_size a.prefix_bytes && not a.have_declared
    then (let d = peek32 e a.prefix 4 in
        let b = record a { declared = d; have_declared = true } in
        if ltb d notification_header_size
        then fail b short_notification
        else if ltb notification_reassembly_limit d
        then fail b notification_too_long
        else b)
    else a

-- What `add` does after the header: the total may not pass the declared length.
keep_fragment : Accumulator → List ℕ → Accumulator
unfolding fail
keep_fragment a fragment =
    if a.have_declared && ltb a.declared (a.total % 2 ^ 32)
    then fail a short_notification
    else if a.retain
    then record a { kept = a.kept ++ fragment }
    else a

is_none : {A : Type 0} → Option A → Bool
is_none none = true
is_none (some x) = false

unfoldable pub add : Endian → Accumulator → List ℕ → Accumulator
unfolding fail collect_prefix declare keep_fragment is_none
add e a fragment =
    if not (is_none a.error) || length fragment == 0
    then a
    else if ltb (notification_reassembly_limit - a.total) (length fragment)
    then fail a notification_too_long
    else (let b = collect_prefix a fragment in
        let c = declare e (record b { total = b.total + length fragment }) in
        if is_none c.error then keep_fragment c fragment else c)

-- The type of the record, once its header is in the prefix and the next fragment.
unfoldable pub peek_type : Endian → Accumulator → List ℕ → Option ℕ
peek_type e a next =
    if ltb (a.total + length next) notification_header_size
    then none
    else (let head = copy_into (replicate 8 0) 0 (take a.prefix_bytes a.prefix) in
        let k = copied (replicate 8 0) 0 (take a.prefix_bytes a.prefix) in
        some (peek16 e (copy_into head k next) 0))

unfoldable pub keep : Accumulator → Accumulator × Bool
unfolding is_none
keep a =
    if a.retain
    then (a, true)
    else if not (is_none a.error) || ltb a.prefix_bytes a.total
    then (a, false)
    else (record a { retain = true; kept = a.kept ++ take a.prefix_bytes a.prefix }, true)

unfoldable pub head : Accumulator → List ℕ
head a = take a.prefix_bytes a.prefix

unfoldable pub finish : Accumulator → Outcome NotificationError (List ℕ)
finish a = elim a.error [
  | some e ↦ err e
  | none ↦
      if not a.have_declared || not (a.total % 2 ^ 32 == a.declared)
      then err short_notification
      else ok a.kept
]

-- The errors that the error of `interrupted` matches: its own, and ErrShortNotification.
unfoldable pub interrupted : Accumulator → List NotificationError
interrupted a = elim (finish a) [
  | ok b ↦ short_notification ∷ []
  | err notification_too_long ↦ notification_too_long ∷ short_notification ∷ []
  | err e ↦ e ∷ []
  | panic ↦ []
]

unfoldable pub reset : Accumulator → Accumulator
reset a = record {
  kept = [];
  prefix = replicate size_assoc_change 0;
  prefix_bytes = 0;
  total = 0;
  declared = 0;
  have_declared = false;
  retain = false;
  error = none;
}

-- The fragments of one record, in the order they arrive.
unfoldable pub add_all : Endian → Accumulator → List (List ℕ) → Accumulator
add_all e a [] = a
add_all e a (f ∷ fs) = add_all e (add e a f) fs
