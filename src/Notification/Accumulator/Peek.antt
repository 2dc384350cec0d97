-- ===== src/Notification/Accumulator/Peek.antt =====
-- The type of a record before it is complete, and a record that is retained late or never.
use go_sctp.Common.{
  ℕ, ◌+◌, ◌-◌, ◌%◌, ◌^◌, ◌==◌, ◌≤◌, ◌<◌, ◌≡◌, refl, sym, ap, ◌∙◌, List, [], ◌++◌, Bool, true, false,
  not, ◌&&◌, ◌||◌, Option, none, some, if◌then◌else◌, length, take, replicate, get_or, get_or-take,
  leb, ltb, if_cases, length-append, take_all, take-append_more, take-append_less, arith,
}
use mathlib.Core.Path.{subst}
use go_sctp.Bytes.{Endian, peek16, peek32}
use go_sctp.Notification.{notification_header_size, notification_reassembly_limit}
use go_sctp.Notification.Accumulator.{
  Accumulator, add, keep, peek_type, copied, copy_into, declare, keep_fragment, fail, is_none,
  collect_prefix,
}
use go_sctp.Notification.Accumulator.Reassembly.{declare-retain}
use go_sctp.Notification.Accumulator.Laws.{
  Tracks, Front, take-copy_into, length-copy_into, collect-rest,
}

-- The type of the record with the bytes `d` so far, once it is known.
abbrev pub type_of : Endian → List ℕ → Option ℕ
type_of e d = if leb 8 (length d) then some (peek16 e d 0) else none

peek16-take : (e : Endian) (x y : List ℕ) → take 8 x ≡ take 8 y → peek16 e x 0 ≡ peek16 e y 0
peek16-take e x y h = rw (at 0 (omega arith), at 1 (omega arith)) refl
  where
    at : (i : ℕ) → i < 8 → get_or x i 0 ≡ get_or y i 0
    at i k = sym (get_or-take 8 x i 0 k) ∙ ap (λ l. get_or l i 0) h ∙ get_or-take 8 y i 0 k

pub peek16-append : (e : Endian) (d p : List ℕ) → 8 ≤ length d → peek16 e (d ++ p) 0 ≡ peek16 e d 0
peek16-append e d p h = peek16-take e (d ++ p) d (take-append_less d p 8 h)

-- Eight bytes of the header, from those read before and the next.
head-take :
    (d p : List ℕ)
    → length d < 8
    → 8 ≤ length (d ++ p)
    → (let h = copy_into (replicate 8 0) 0 d in
        take 8 (copy_into h (copied (replicate 8 0) 0 d) p) ≡ take 8 (d ++ p))
head-take d p h k =
    let z : List ℕ = replicate 8 0 in
    let n = copied z 0 d in
    let first = copy_into z 0 d in
    let c = copied first n p in
    let room = length-copy_into z 0 d (omega arith) in
    let n_eq : n ≡ length d = omega arith in
    let long = length-append d p in
    let c_eq : c ≡ 8 - length d = omega arith in
    let start : take n first ≡ d =
      ap (λ (m : ℕ). take m first) (omega arith)
      ∙ take-copy_into z 0 d (omega arith)
      ∙ take_all n d (omega arith) in
    ap (λ (m : ℕ). take m (copy_into first n p)) {x = 8} {y = n + c} (omega arith)
    ∙ take-copy_into first n p (omega arith)
    ∙ ap (λ l. l ++ take c p) start
    ∙ ap (λ (m : ℕ). d ++ take m p) c_eq
    ∙ sym (take-append_more d p (8 - length d))
    ∙ ap (λ (m : ℕ). take m (d ++ p)) {y = 8} (omega arith)

all_read :
    (a : Accumulator) (d : List ℕ)
    → Front a.prefix a.prefix_bytes d
    → length d < 8
    → take a.prefix_bytes a.prefix ≡ d
all_read a d w h = w.bytes ∙ take_all 20 d (omega arith)

never : (x : Bool) (m n : ℕ) → x ≡ true → n ≤ m → not x || ltb m n ≡ true → ⊥
never true m n h k q = ground arith
never false m n h k q = cc

keep_now :
    (a : Accumulator)
    → a.retain ≡ false
    → a.error ≡ none
    → a.total ≤ a.prefix_bytes
    → keep a ≡ (record a { retain = true; kept = a.kept ++ take a.prefix_bytes a.prefix }, true)
unfolding keep is_none
keep_now a r c h =
    if_cases
      (λ (x : Accumulator × Bool).
        x ≡ (record a { retain = true; kept = a.kept ++ take a.prefix_bytes a.prefix }, true))
      a.retain (λ q. let both : true ≡ false = sym q ∙ r in cc)
      (λ _.
        if_cases
          (λ (x : Accumulator × Bool).
            x ≡ (record a { retain = true; kept = a.kept ++ take a.prefix_bytes a.prefix }, true))
          (not (is_none a.error) || ltb a.prefix_bytes a.total)
          (λ q. elim (never (is_none a.error) a.prefix_bytes a.total (ap is_none c) h q) [ ])
          (λ _. refl))

pub peek_type-Tracks :
    (e : Endian) (a : Accumulator) (d p : List ℕ)
    → Tracks e a d
    → length d < 8
    → peek_type e a p ≡ type_of e (d ++ p)
unfolding peek_type
peek_type-Tracks e a d p t h =
    let whole = all_read a d t.reads.front h in
    let long = length-append d p in
    let count = t.reads.count in
    subst
      (λ l.
        (if ltb (a.total + length p) 8
          then none
          else some (
              peek16 e (copy_into (copy_into (replicate 8 0) 0 l) (copied (replicate 8 0) 0 l) p)
                0))
        ≡ type_of e (d ++ p))
      (sym whole)
      (if_cases (λ (x : Option ℕ). x ≡ type_of e (d ++ p)) (ltb (a.total + length p) 8)
        (λ short.
          ap (λ (b : Bool). if b then some (peek16 e (d ++ p) 0) else none) {x = false}
            (ground arith))
        (λ enough.
          ap some (peek16-take e _ (d ++ p) (head-take d p h (ground arith)))
          ∙ ap (λ (b : Bool). if b then some (peek16 e (d ++ p) 0) else none) {x = true}
              (ground arith)))

pub keep-Tracks :
    (e : Endian) (a : Accumulator) (d : List ℕ)
    → Tracks e a d
    → length d < 8
    → a.retain ≡ false
    → a.kept ≡ []
    → ((keep a).1 ≡ true) × ((keep a).0.retain ≡ true) × Tracks e (keep a).0 d
keep-Tracks e a d t h r k =
    let whole = all_read a d t.reads.front h in
    subst (λ x. (x.1 ≡ true) × (x.0.retain ≡ true) × Tracks e x.0 d)
      (sym (keep_now a r t.reads.clean (omega (arith, t.reads.count, t.reads.front.count))))
      (
        refl,
        refl,
        record {
          reads = record {
            clean = t.reads.clean;
            count = t.reads.count;
            front = t.reads.front;
            seen = t.reads.seen;
            length_read = t.reads.length_read;
          };
          held = λ _. ap (λ l. l ++ take a.prefix_bytes a.prefix) k ∙ whole;
        },
      )

pub add-unkept :
    (e : Endian) (a : Accumulator) (p : List ℕ)
    → a.retain ≡ false
    → a.kept ≡ []
    → (add e a p).kept ≡ []
unfolding add is_none fail declare keep_fragment
add-unkept e a p r k =
    let P : Accumulator → Type 0 = λ z. z.kept ≡ [] in
    let b = collect_prefix a p in
    let rest = collect-rest a p in
    let b' = record b { total = b.total + length p } in
    if_cases P (not (is_none a.error) || length p == 0) (λ _. k)
      (λ _.
        if_cases P (ltb (notification_reassembly_limit - a.total) (length p)) (λ _. refl)
          (λ _.
            if_cases P (is_none (declare e b').error)
              (λ _.
                fragment (declare e b') (declared e b' (rest.5 ∙ k))
                  (declare-retain e b' ∙ rest.4 ∙ r))
              (λ _. declared e b' (rest.5 ∙ k))))
  where
    declared : (e : Endian) (b : Accumulator) → b.kept ≡ [] → (declare e b).kept ≡ []
    declared e b k =
        let P : Accumulator → Type 0 = λ z. z.kept ≡ [] in
        if_cases P (leb notification_header_size b.prefix_bytes && not b.have_declared)
          (λ _.
            if_cases P (ltb (peek32 e b.prefix 4) notification_header_size) (λ _. refl)
              (λ _.
                if_cases P (ltb notification_reassembly_limit (peek32 e b.prefix 4)) (λ _. refl)
                  (λ _. k)))
          (λ _. k)

    fragment : (c : Accumulator) → c.kept ≡ [] → c.retain ≡ false → (keep_fragment c p).kept ≡ []
    fragment c k r =
        let P : Accumulator → Type 0 = λ z. z.kept ≡ [] in
        if_cases P (c.have_declared && ltb c.declared (c.total % 2 ^ 32)) (λ _. refl)
          (λ _. if_cases P c.retain (λ q. let both : true ≡ false = sym q ∙ r in cc) (λ _. k))
