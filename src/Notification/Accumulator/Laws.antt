-- ===== src/Notification/Accumulator/Laws.antt =====
-- What an accumulator holds of the bytes that it was given.
use go_sctp.Common.{
  suc, le→leb, leb→le, le→ltb, ◌∷◌, ◌||◌, ℕ, ◌+◌, ◌-◌, ◌%◌, ◌^◌, ◌≤◌, ◌<◌, ◌≡◌, ◌∙◌, ap, sym, refl,
  List, [], ◌++◌, Bool, true, false, ◌&&◌, not, Option, none, some, length, take, drop, ltb, leb,
  ◌==◌, min, arith, length-append, length-take, length-drop, get_or, get_or-take,
  get_or-append_left, take-append_more, take-append_less, take-min, take_all, take-join, if_cases,
  ltb→lt,
}
use mathlib.Core.List.{append-nil}
use go_sctp.Bytes.{Endian, peek32}
use go_sctp.Notification.{
  NotificationError, notification_header_size, notification_reassembly_limit,
}
use go_sctp.Notification.Accumulator.{
  Accumulator, add, collect_prefix, declare, keep_fragment, copied, copy_into, is_none,
}

-- The bytes so far do not contradict a whole record: the header is not complete, or it declares a
-- length in range that they do not pass.
pub record Fits (e : Endian) (d : List ℕ) : Type 0 where
  pub within : length d ≤ notification_reassembly_limit
  pub header :
      8 ≤ length d
      → (8 ≤ peek32 e d 4)
        × (peek32 e d 4 ≤ notification_reassembly_limit)
        × (length d ≤ peek32 e d 4)

-- `p` is the first bytes of `x`, as far as twenty of them, and `k` says how many there are.
pub record Front (p : List ℕ) (k : ℕ) (x : List ℕ) : Type 0 where
  pub room : length p ≡ 20
  pub count : k ≡ min 20 (length x)
  pub bytes : take k p ≡ take 20 x

module _ (p : List ℕ) (k : ℕ) (f : List ℕ) (h : k ≤ length p) where
  pub length-copy_into : length (copy_into p k f) ≡ length p
  length-copy_into =
      let n = copied p k f in
      omega (
        arith,
        length-append (take k p) (take n f ++ drop (k + n) p),
        length-append (take n f) (drop (k + n) p),
        length-take k p,
        length-take n f,
        length-drop (k + n) p,
      )

  pub take-copy_into : take (k + copied p k f) (copy_into p k f) ≡ take k p ++ take (copied p k f) f
  take-copy_into =
      take-join (take k p) (take (copied p k f) f) (drop (k + copied p k f) p) k (copied p k f)
        (omega (arith, length-take k p)) (omega (arith, length-take (copied p k f) f))

Front-copy_into :
    (p : List ℕ) (k : ℕ) (d f : List ℕ)
    → Front p k d
    → k < 20
    → Front (copy_into p k f) (k + copied p k f) (d ++ f)
Front-copy_into p k d f w h = record {
  room = length-copy_into p k f (omega (arith, w.room)) ∙ w.room;
  count = omega (arith, w.room, w.count, length-append d f);
  bytes =
      take-copy_into p k f (omega (arith, w.room))
      ∙ ap (λ l. l ++ take (copied p k f) f) (w.bytes ∙ take_all 20 d (omega (arith, w.count)))
      ∙ ap (λ l. d ++ l) (take-min (length p - k) f)
      ∙ sym (take-append_more d f (length p - k))
      ∙ ap (λ (n : ℕ). take n (d ++ f)) {y = 20} (omega (arith, w.room, w.count));
}

Front-more : (p : List ℕ) (k : ℕ) (d f : List ℕ) → Front p k d → 20 ≤ k → Front p k (d ++ f)
Front-more p k d f w h = record {
  room = w.room;
  count = omega (arith, w.count, length-append d f);
  bytes = w.bytes ∙ sym (take-append_less d f 20 (omega (arith, w.count)));
}

Front-peek8 :
    (p : List ℕ) (k : ℕ) (x : List ℕ) → Front p k x → (i : ℕ) → i < k → get_or p i 0 ≡ get_or x i 0
Front-peek8 p k x w i h =
    sym (get_or-take k p i 0 h)
    ∙ ap (λ l. get_or l i 0) w.bytes
    ∙ get_or-take 20 x i 0 (omega (arith, w.count))

Front-peek32 :
    (e : Endian) (p : List ℕ) (k : ℕ) (x : List ℕ)
    → Front p k x
    → 8 ≤ k
    → peek32 e p 4 ≡ peek32 e x 4
Front-peek32 e p k x w h = rw (
  Front-peek8 p k x w 4 (omega arith),
  Front-peek8 p k x w 5 (omega arith),
  Front-peek8 p k x w 6 (omega arith),
  Front-peek8 p k x w 7 (omega arith),
)

-- What the accumulator has read of the header of `d`, with no error so far.
pub record Reads (e : Endian) (a : Accumulator) (d : List ℕ) : Type 0 where
  pub clean : a.error ≡ none
  pub count : a.total ≡ length d
  pub front : Front a.prefix a.prefix_bytes d
  pub seen : a.have_declared ≡ leb 8 a.prefix_bytes
  pub length_read : a.have_declared ≡ true → a.declared ≡ peek32 e d 4

-- The accumulator after the bytes `d`, with no error so far.
pub record Tracks (e : Endian) (a : Accumulator) (d : List ℕ) : Type 0 where
  pub reads : Reads e a d
  pub held : a.retain ≡ true → a.kept ≡ d

collected :
    (a : Accumulator) (d f : List ℕ)
    → Front a.prefix a.prefix_bytes d
    → let b = collect_prefix a f in Front b.prefix b.prefix_bytes (d ++ f)
unfolding collect_prefix
collected a d f w =
    if_cases (λ (b : Accumulator). Front b.prefix b.prefix_bytes (d ++ f)) (ltb a.prefix_bytes 20)
      (λ h. Front-copy_into a.prefix a.prefix_bytes d f w (ltb→lt a.prefix_bytes 20 h))
      (λ h. Front-more a.prefix a.prefix_bytes d f w (ground arith))

pub peek32-append : (e : Endian) (d f : List ℕ) → 8 ≤ length d → peek32 e (d ++ f) 4 ≡ peek32 e d 4
peek32-append e d f h = rw (
  get_or-append_left d f 4 0 (omega arith),
  get_or-append_left d f 5 0 (omega arith),
  get_or-append_left d f 6 0 (omega arith),
  get_or-append_left d f 7 0 (omega arith),
)

Kept : Endian → Accumulator → List ℕ → Accumulator → Type 0
Kept e b x c = Reads e c x × (c.retain ≡ b.retain) × (c.kept ≡ b.kept)

undeclared : (v : Bool) (k : ℕ) → (v ≡ true → 8 ≤ k) → leb 8 k && not v ≡ false → v ≡ leb 8 k
undeclared true k h p = sym (le→leb 8 k (h refl))
undeclared false k h p = ground arith

module _ (e : Endian) (b : Accumulator) (x : List ℕ) (n : b.error ≡ none) (c : b.total ≡ length x)
    (w : Front b.prefix b.prefix_bytes x) where
  declared-Reads :
      8 ≤ b.prefix_bytes
      → Kept e b x (record b { declared = peek32 e b.prefix 4; have_declared = true })
  unfolding Kept
  declared-Reads p = (
    record {
      clean = n;
      count = c;
      front = w;
      seen = sym (le→leb 8 b.prefix_bytes p);
      length_read = λ _. Front-peek32 e b.prefix b.prefix_bytes x w p;
    },
    refl,
    refl,
  )

  declare-Reads :
      (b.have_declared ≡ true → (8 ≤ b.prefix_bytes) × (b.declared ≡ peek32 e x 4))
      → Fits e x
      → Kept e b x (declare e b)
  unfolding declare Kept
  declare-Reads h g =
      if_cases (Kept e b x) (leb 8 b.prefix_bytes && not b.have_declared)
        (λ p.
          let m : 8 ≤ b.prefix_bytes = ground arith in
          let r = g.header (omega (arith, w.count)) in
          let q = Front-peek32 e b.prefix b.prefix_bytes x w m in
          if_cases (Kept e b x) (ltb (peek32 e b.prefix 4) notification_header_size)
            (λ s. absurd (omega (arith, ltb→lt (peek32 e b.prefix 4) 8 s, q, r.0)))
            (λ s.
              if_cases (Kept e b x) (ltb notification_reassembly_limit (peek32 e b.prefix 4))
                (λ u. absurd (
                  omega
                    (arith, ltb→lt notification_reassembly_limit (peek32 e b.prefix 4) u, q, r.1)))
                (λ u. declared-Reads m)))
        (λ p.
          let o = undeclared b.have_declared b.prefix_bytes (λ k. (h k).0) p in
          (
            record { clean = n; count = c; front = w; seen = o; length_read = λ k. (h k).1 },
            refl,
            refl,
          ))

pub collect-rest :
    (a : Accumulator) (f : List ℕ)
    → let b = collect_prefix a f in
      (b.error ≡ a.error)
      × (b.total ≡ a.total)
      × (b.have_declared ≡ a.have_declared)
      × (b.declared ≡ a.declared)
      × (b.retain ≡ a.retain)
      × (b.kept ≡ a.kept)
unfolding collect_prefix
collect-rest a f =
    if_cases
      (λ (b : Accumulator).
        (b.error ≡ a.error)
        × (b.total ≡ a.total)
        × (b.have_declared ≡ a.have_declared)
        × (b.declared ≡ a.declared)
        × (b.retain ≡ a.retain)
        × (b.kept ≡ a.kept))
      (ltb a.prefix_bytes 20) (λ h. (refl, refl, refl, refl, refl, refl))
      (λ h. (refl, refl, refl, refl, refl, refl))

keep_fragment-Tracks :
    (e : Endian) (c : Accumulator) (d f : List ℕ)
    → Reads e c (d ++ f)
    → (c.retain ≡ true → c.kept ≡ d)
    → Fits e (d ++ f)
    → Tracks e (keep_fragment c f) (d ++ f)
unfolding keep_fragment
keep_fragment-Tracks e c d f r h g =
    if_cases (λ z. Tracks e z (d ++ f)) (c.have_declared && ltb c.declared (c.total % 2 ^ 32))
      (λ p. absurd (passed c.have_declared r.length_read (λ k. g.header (long k)) p))
      (λ p.
        if_cases (λ z. Tracks e z (d ++ f)) c.retain
          (λ k. record {
            reads = record {
              clean = r.clean;
              count = r.count;
              front = r.front;
              seen = r.seen;
              length_read = r.length_read;
            };
            held = λ _. ap (λ l. l ++ f) (h k);
          })
          (λ k. record { reads = r; held = λ k'. cc }))
  where
    passed :
        (v : Bool)
        → (v ≡ true → c.declared ≡ peek32 e (d ++ f) 4)
        → (v ≡ true
            → (8 ≤ peek32 e (d ++ f) 4)
              × (peek32 e (d ++ f) 4 ≤ notification_reassembly_limit)
              × (length (d ++ f) ≤ peek32 e (d ++ f) 4))
        → v && ltb c.declared (c.total % 2 ^ 32) ≡ true
        → ⊥
    passed true l b p =
        omega (arith, ltb→lt c.declared (c.total % 2 ^ 32) p, l refl, (b refl).2, r.count, g.within)
    passed false l b p = cc

    long : c.have_declared ≡ true → 8 ≤ length (d ++ f)
    long k = omega (arith, leb→le 8 c.prefix_bytes (sym r.seen ∙ k), r.front.count)

add-empty : (e : Endian) (a : Accumulator) → add e a [] ≡ a
unfolding add is_none
add-empty e a = ground arith

pub add-Tracks :
    (e : Endian) (a : Accumulator) (d f : List ℕ)
    → Tracks e a d
    → Fits e (d ++ f)
    → Tracks e (add e a f) (d ++ f)
unfolding add is_none Kept
add-Tracks e a d [] t g = rw (append-nil d, add-empty e a) t
add-Tracks e a d (y ∷ ys) t g =
    let f = y ∷ ys in
    let x = d ++ f in
    let b = collect_prefix a f in
    let u = collect-rest a f in
    let w = collected a d f t.reads.front in
    let b' = record b { total = b.total + length f } in
    let early : b'.have_declared ≡ true → (8 ≤ b'.prefix_bytes) × (b'.declared ≡ peek32 e x 4) =
      λ s.
        let v = sym u.2 ∙ s in
        let o = leb→le 8 a.prefix_bytes (sym t.reads.seen ∙ v) in
        let l : 8 ≤ length d = omega (arith, o, t.reads.front.count) in
        (
          omega (arith, l, w.count, length-append d f),
          u.3 ∙ t.reads.length_read v ∙ sym (peek32-append e d f l),
        ) in
    let k =
      declare-Reads e b' x (u.0 ∙ t.reads.clean)
        (omega (arith, u.1, t.reads.count, length-append d f)) w early g in
    let room : ltb (notification_reassembly_limit - a.total) (length f) ≡ false =
      le→ltb (notification_reassembly_limit - a.total) (length f)
        (omega (arith, g.within, t.reads.count, length-append d f)) in
    let P : Accumulator → Type 0 = λ z. Tracks e z x in
    if_cases P (not (is_none a.error) || length f == 0)
      (λ p. absurd (busy a.error (length ys) t.reads.clean p))
      (λ _.
        if_cases P (ltb (notification_reassembly_limit - a.total) (length f)) (λ p. cc)
          (λ _.
            if_cases P (is_none (declare e b').error)
              (λ _.
                keep_fragment-Tracks e (declare e b') d f k.0
                  (λ r. k.2 ∙ u.5 ∙ t.held (sym u.4 ∙ sym k.1 ∙ r)) g)
              (λ p. absurd (unset (declare e b').error k.0.clean p))))
  where
    busy :
        (o : Option NotificationError) (n : ℕ) → o ≡ none → not (is_none o) || suc n == 0 ≡ true → ⊥
    busy none n q p = ground arith
    busy (some z) n q p = cc

    unset : (o : Option NotificationError) → o ≡ none → is_none o ≡ false → ⊥
    unset none q p = cc
    unset (some z) q p = cc
