-- ===== src/Notification/Accumulator/Reassembly.antt =====
-- A record reassembled from its fragments, whatever they are.
use go_sctp.Common.{
  ◌-◌, ◌&&◌, ltb, Outcome, ℕ, ◌+◌, ◌%◌, ◌^◌, ◌≤◌, ◌≡◌, refl, ap, sym, ◌∙◌, List, [], ◌∷◌, ◌++◌,
  true, not, ◌||◌, ok, length, leb, ◌==◌, le→leb, if_cases, length-append, arith, ◌>>=◌,
}
use mathlib.Core.List.{append_assoc, append-nil}
use mathlib.Core.Path.{subst}
use go_sctp.Bytes.{Endian, peek32}
use go_sctp.Bytes.Laws.{word32-octet}
use go_sctp.Platform.{Platform}
use go_sctp.Netip.{IpAddr}
use go_sctp.Notification.{
  Notification, NotificationError, notification_header_size, notification_reassembly_limit,
  assoc_change, peer_addr_change, remote_error, shutdown, partial_delivery, adaptation_indication,
  auth_event, sender_dry, stream_reset, assoc_reset, stream_change, send_failed,
  unknown_notification, event_type,
}
use go_sctp.Notification.Layout.{IsWf, event_bytes, event_body, event_flags, with_header}
use go_sctp.Notification.Parse.{parse_notification}
use go_sctp.Notification.Parse.RoundTrip.{parse_notification-event_bytes}
use go_sctp.Notification.Accumulator.{
  Accumulator, add, add_all, keep, reset, finish, is_none, fail, declare, keep_fragment,
  collect_prefix,
}
use go_sctp.Notification.Accumulator.Laws.{Fits, Tracks, add-Tracks, peek32-append, collect-rest}

-- The bytes of the fragments.
abbrev pub joined : List (List ℕ) → List ℕ
joined [] = []
joined (f ∷ fs) = f ++ joined fs

-- A whole record: the length in its header is its own.
pub record IsRecord (e : Endian) (d : List ℕ) : Type 0 where
  pub long : 8 ≤ length d
  pub whole : peek32 e d 4 ≡ length d
  pub within : length d ≤ notification_reassembly_limit

pub Fits-prefix : (e : Endian) (d f : List ℕ) → Fits e (d ++ f) → Fits e d
Fits-prefix e d f g = record {
  within = omega (arith, g.within, length-append d f);
  header = λ h.
      let (low, high, fit) = g.header (omega (arith, h, length-append d f)) in
      let same = peek32-append e d f h in
      (omega arith, omega arith, omega (arith, length-append d f));
}

pub Fits-IsRecord : (e : Endian) (d : List ℕ) → IsRecord e d → Fits e d
Fits-IsRecord e d r = record {
  within = r.within;
  header = λ h.
      (omega (arith, r.whole, r.long), omega (arith, r.whole, r.within), omega (arith, r.whole));
}

add_all-Tracks :
    (e : Endian) (a : Accumulator) (d : List ℕ) (fs : List (List ℕ))
    → Tracks e a d
    → Fits e (d ++ joined fs)
    → Tracks e (add_all e a fs) (d ++ joined fs)
unfolding add_all
add_all-Tracks e a d [] t g = rw (append-nil d) t
add_all-Tracks e a d (f ∷ fs) t g =
    let h = subst (Fits e) (sym (append_assoc d f (joined fs))) g in
    subst (Tracks e (add_all e (add e a f) fs)) (append_assoc d f (joined fs)) (
      add_all-Tracks e (add e a f) (d ++ f) fs
        (add-Tracks e a d f t (Fits-prefix e (d ++ f) (joined fs) h)) h)

started : (e : Endian) (a : Accumulator) → Tracks e (keep (reset a)).0 []
unfolding keep reset is_none
started e a = record {
  reads = record {
    clean = refl;
    count = refl;
    front = record { room = refl; count = refl; bytes = refl };
    seen = refl;
    length_read = λ h. cc;
  };
  held = λ _. refl;
}

pub declare-retain : (e : Endian) (b : Accumulator) → (declare e b).retain ≡ b.retain
unfolding declare fail
declare-retain e b =
    let P : Accumulator → Type 0 = λ z. z.retain ≡ b.retain in
    if_cases P (leb notification_header_size b.prefix_bytes && not b.have_declared)
      (λ _.
        if_cases P (ltb (peek32 e b.prefix 4) notification_header_size) (λ _. refl)
          (λ _.
            if_cases P (ltb notification_reassembly_limit (peek32 e b.prefix 4)) (λ _. refl)
              (λ _. refl)))
      (λ _. refl)

keep_fragment-retain : (c : Accumulator) (f : List ℕ) → (keep_fragment c f).retain ≡ c.retain
unfolding keep_fragment fail
keep_fragment-retain c f =
    let P : Accumulator → Type 0 = λ z. z.retain ≡ c.retain in
    if_cases P (c.have_declared && ltb c.declared (c.total % 2 ^ 32)) (λ _. refl)
      (λ _. if_cases P c.retain (λ _. refl) (λ _. refl))

pub add-retain : (e : Endian) (a : Accumulator) (f : List ℕ) → (add e a f).retain ≡ a.retain
unfolding add is_none fail
add-retain e a f =
    let P : Accumulator → Type 0 = λ z. z.retain ≡ a.retain in
    let b = collect_prefix a f in
    let b' = record b { total = b.total + length f } in
    let q = declare-retain e b' ∙ (collect-rest a f).4 in
    if_cases P (not (is_none a.error) || length f == 0) (λ _. refl)
      (λ _.
        if_cases P (ltb (notification_reassembly_limit - a.total) (length f)) (λ _. refl)
          (λ _.
            if_cases P (is_none (declare e b').error)
              (λ _. keep_fragment-retain (declare e b') f ∙ q) (λ _. q)))

add_all-retain :
    (e : Endian) (a : Accumulator) (fs : List (List ℕ)) → (add_all e a fs).retain ≡ a.retain
unfolding add_all
add_all-retain e a [] = refl
add_all-retain e a (f ∷ fs) = add_all-retain e (add e a f) fs ∙ add-retain e a f

pub finish-kept :
    (e : Endian) (a : Accumulator) (d : List ℕ) → Tracks e a d → IsRecord e d → finish a ≡ ok a.kept
unfolding finish
finish-kept e a d t r =
    let declared : a.have_declared ≡ true =
      t.reads.seen ∙ le→leb 8 a.prefix_bytes (omega (arith, t.reads.front.count, r.long)) in
    let l = t.reads.length_read declared in
    rw (t.reads.clean, declared)
      (if_cases (λ (z : Outcome NotificationError (List ℕ)). z ≡ ok a.kept)
        (not (a.total % 2 ^ 32 == a.declared))
        (λ p. absurd (differs p (omega (arith, l, r.whole, r.within, t.reads.count)))) (λ _. refl))
  where
    differs : not (a.total % 2 ^ 32 == a.declared) ≡ true → a.total % 2 ^ 32 ≡ a.declared → ⊥
    differs p q = ground arith

finish-Tracks :
    (e : Endian) (a : Accumulator) (d : List ℕ)
    → Tracks e a d
    → a.retain ≡ true
    → IsRecord e d
    → finish a ≡ ok d
finish-Tracks e a d t k r = finish-kept e a d t r ∙ ap ok (t.held k)

keep-retain : (a : Accumulator) → (keep (reset a)).0.retain ≡ true
unfolding keep reset is_none
keep-retain a = refl

-- A whole record that arrives in fragments, cut anywhere, empty ones included, is what `finish`
-- gives.
pub finish-add_all :
    (e : Endian) (a : Accumulator) (fs : List (List ℕ))
    → IsRecord e (joined fs)
    → finish (add_all e (keep (reset a)).0 fs) ≡ ok (joined fs)
finish-add_all e a fs r =
    let s = (keep (reset a)).0 in
    finish-Tracks e (add_all e s fs) (joined fs)
      (add_all-Tracks e s [] fs (started e a) (Fits-IsRecord e (joined fs) r))
      (add_all-retain e s fs ∙ keep-retain a) r

IsRecord-with_header :
    (e : Endian) (typ flags : ℕ) (body : List ℕ)
    → 8 + length body ≤ notification_reassembly_limit
    → IsRecord e (with_header e typ flags body)
IsRecord-with_header e typ flags body h = record {
  long = omega arith;
  whole = word32-octet e (8 + length body) (omega arith) ∙ omega arith;
  within = omega arith;
}

IsRecord-event_bytes :
    (p : Platform) (storage : IpAddr × ℕ → List ℕ) (n : Notification)
    → IsWf p storage n
    → length (event_bytes p.order storage n) ≤ notification_reassembly_limit
    → IsRecord p.order (event_bytes p.order storage n)
IsRecord-event_bytes p storage (assoc_change n) w h =
    IsRecord-with_header p.order (event_type p.order (assoc_change n))
      (event_flags (assoc_change n)) (event_body p.order storage (assoc_change n)) (omega arith)
IsRecord-event_bytes p storage (peer_addr_change n) w h =
    IsRecord-with_header p.order (event_type p.order (peer_addr_change n))
      (event_flags (peer_addr_change n)) (event_body p.order storage (peer_addr_change n))
      (omega arith)
IsRecord-event_bytes p storage (remote_error n) w h =
    IsRecord-with_header p.order (event_type p.order (remote_error n))
      (event_flags (remote_error n)) (event_body p.order storage (remote_error n)) (omega arith)
IsRecord-event_bytes p storage (shutdown n) w h =
    IsRecord-with_header p.order (event_type p.order (shutdown n)) (event_flags (shutdown n))
      (event_body p.order storage (shutdown n)) (omega arith)
IsRecord-event_bytes p storage (partial_delivery n) w h =
    IsRecord-with_header p.order (event_type p.order (partial_delivery n))
      (event_flags (partial_delivery n)) (event_body p.order storage (partial_delivery n))
      (omega arith)
IsRecord-event_bytes p storage (adaptation_indication n) w h =
    IsRecord-with_header p.order (event_type p.order (adaptation_indication n))
      (event_flags (adaptation_indication n)) (event_body p.order storage (adaptation_indication n))
      (omega arith)
IsRecord-event_bytes p storage (auth_event n) w h =
    IsRecord-with_header p.order (event_type p.order (auth_event n)) (event_flags (auth_event n))
      (event_body p.order storage (auth_event n)) (omega arith)
IsRecord-event_bytes p storage (sender_dry n) w h =
    IsRecord-with_header p.order (event_type p.order (sender_dry n)) (event_flags (sender_dry n))
      (event_body p.order storage (sender_dry n)) (omega arith)
IsRecord-event_bytes p storage (stream_reset n) w h =
    IsRecord-with_header p.order (event_type p.order (stream_reset n))
      (event_flags (stream_reset n)) (event_body p.order storage (stream_reset n)) (omega arith)
IsRecord-event_bytes p storage (assoc_reset n) w h =
    IsRecord-with_header p.order (event_type p.order (assoc_reset n)) (event_flags (assoc_reset n))
      (event_body p.order storage (assoc_reset n)) (omega arith)
IsRecord-event_bytes p storage (stream_change n) w h =
    IsRecord-with_header p.order (event_type p.order (stream_change n))
      (event_flags (stream_change n)) (event_body p.order storage (stream_change n)) (omega arith)
IsRecord-event_bytes p storage (send_failed n) w h =
    IsRecord-with_header p.order (event_type p.order (send_failed n)) (event_flags (send_failed n))
      (event_body p.order storage (send_failed n)) (omega arith)
IsRecord-event_bytes p storage (unknown_notification d) (long, whole, other) h = record {
  long = long;
  whole = whole;
  within = h;
}

-- A notification that the kernel lays out, of at most the reassembly limit, survives being cut into
-- fragments: what `finish` gives of them, parsed, is the notification.
pub parse_notification-finish :
    (p : Platform) (storage : IpAddr × ℕ → List ℕ) (n : Notification) (a : Accumulator)
    (fs : List (List ℕ))
    → joined fs ≡ event_bytes p.order storage n
    → IsWf p storage n
    → length (event_bytes p.order storage n) ≤ notification_reassembly_limit
    → (finish (add_all p.order (keep (reset a)).0 fs) >>= parse_notification p) ≡ ok n
parse_notification-finish p storage n a fs cut w h =
    let b = event_bytes p.order storage n in
    let r = IsRecord-event_bytes p storage n w h in
    ap (λ z. z >>= parse_notification p)
      (finish-add_all p.order a fs (subst (IsRecord p.order) (sym cut) r) ∙ ap ok cut)
    ∙ ap (parse_notification p) (sym (append-nil b))
    ∙ parse_notification-event_bytes p storage n [] w h (omega (arith, length-append b []))
