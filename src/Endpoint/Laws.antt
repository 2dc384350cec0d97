-- ===== src/Endpoint/Laws.antt =====
-- What a list of association ids that is accepted holds.
use go_sctp.Common.{
  ℕ, zero, suc, ◌+◌, ◌*◌, ◌≤◌, ◌<◌, ◌^◌, ◌≡◌, refl, ap, List, [], ◌∷◌, Bool, true, false, not, ◌||◌,
  ltb, leb, ◌==◌, length, Outcome, in_range, ◌∙◌, ok, >>=-eq-ok, refuse, All, if_cases, arith,
  leb→le,
}
use mathlib.Core.Path.{subst}
use mathlib.Core.Path.{ap₂}
use mathlib.Core.List.{Perm}
use mathlib.Core.List.Perm
use go_sctp.Bytes.{Endian, uint32, peek32}
use go_sctp.Endpoint.{
  AssocIdsError, decode_assoc_ids, read_ids, invalid_assoc_list, assoc_list_too_large,
  assoc_id_list_limit, sort, insert, has_twins, real_assoc_id,
}

abbrev pub Ascending : List ℕ → Type 0
Ascending [] = Unit {0}
Ascending (x ∷ []) = Unit {0}
Ascending (x ∷ y ∷ ys) = (x ≤ y) × Ascending (y ∷ ys)

abbrev pub Increasing : List ℕ → Type 0
Increasing [] = Unit {0}
Increasing (x ∷ []) = Unit {0}
Increasing (x ∷ y ∷ ys) = (x < y) × Increasing (y ∷ ys)

abbrev pub IsReal : ℕ → Type 0
IsReal id = (2 < id) × (id < 2 ^ 31)

leb-false : (a b : ℕ) → leb a b ≡ false → b ≤ a
leb-false a b h = ground arith

insert-Ascending : (x : ℕ) (ys : List ℕ) → Ascending ys → Ascending (insert x ys)
unfolding insert
insert-Ascending x [] h = tt
insert-Ascending x (y ∷ []) h =
    if_cases Ascending (leb x y) (λ k. (leb→le x y k, tt)) (λ k. (leb-false x y k, tt))
insert-Ascending x (y ∷ z ∷ zs) (h, hs) =
    if_cases Ascending (leb x y) (λ k. (leb→le x y k, (h, hs)))
      (λ k. cons y x z zs (leb-false x y k) h (insert-Ascending x (z ∷ zs) hs))
  where
    cons :
        (y x z : ℕ) (zs : List ℕ)
        → y ≤ x
        → y ≤ z
        → Ascending (insert x (z ∷ zs))
        → Ascending (y ∷ insert x (z ∷ zs))
    cons y x z zs p q =
        if_cases (λ l. Ascending l → Ascending (y ∷ l)) (leb x z) (λ k a. (p, a)) (λ k a. (q, a))

sort-Ascending : (xs : List ℕ) → Ascending (sort xs)
unfolding sort
sort-Ascending [] = tt
sort-Ascending (x ∷ xs) = insert-Ascending x (sort xs) (sort-Ascending xs)

insert-All : (P : ℕ → Type 0) (x : ℕ) (ys : List ℕ) → P x → All P ys → All P (insert x ys)
unfolding insert
insert-All P x [] p h = (p, tt)
insert-All P x (y ∷ ys) p (q, h) =
    if_cases (All P) (leb x y) (λ _. (p, (q, h))) (λ _. (q, insert-All P x ys p h))

sort-All : (P : ℕ → Type 0) (xs : List ℕ) → All P xs → All P (sort xs)
unfolding sort
sort-All P [] h = tt
sort-All P (x ∷ xs) (p, h) = insert-All P x (sort xs) p (sort-All P xs h)

length-insert : (x : ℕ) (ys : List ℕ) → length (insert x ys) ≡ suc (length ys)
unfolding insert
length-insert x [] = refl
length-insert x (y ∷ ys) =
    if_cases (λ (l : List ℕ). length l ≡ suc (suc (length ys))) (leb x y) (λ _. refl)
      (λ _. ap suc (length-insert x ys))

length-sort : (xs : List ℕ) → length (sort xs) ≡ length xs
unfolding sort
length-sort [] = refl
length-sort (x ∷ xs) = omega (arith, length-insert x (sort xs), length-sort xs)

no_twins : (xs : List ℕ) → Ascending xs → has_twins xs ≡ false → Increasing xs
unfolding has_twins
no_twins [] h k = tt
no_twins (x ∷ []) h k = tt
no_twins (x ∷ y ∷ ys) (h, hs) k = (
  below x y (has_twins (y ∷ ys)) h k,
  no_twins (y ∷ ys) hs (later (x == y) (has_twins (y ∷ ys)) k),
)
  where
    below : (x y : ℕ) (b : Bool) → x ≤ y → x == y || b ≡ false → x < y
    below x y b h k = ground arith

    later : (a b : Bool) → a || b ≡ false → b ≡ false
    later false b k = k
    later true b k = cc

insert-Perm : (x : ℕ) (ys : List ℕ) → Perm (x ∷ ys) (insert x ys)
unfolding insert
insert-Perm x [] = Perm.refl (x ∷ [])
insert-Perm x (y ∷ ys) =
    if_cases (Perm (x ∷ y ∷ ys)) (leb x y) (λ _. Perm.refl (x ∷ y ∷ ys))
      (λ _. Perm.trans (Perm.swap y x ys) (Perm.cons y (insert-Perm x ys)))

sort-Perm : (xs : List ℕ) → Perm xs (sort xs)
unfolding sort
sort-Perm [] = Perm.refl []
sort-Perm (x ∷ xs) = Perm.trans (Perm.cons x (sort-Perm xs)) (insert-Perm x (sort xs))

accepted_id : (id : ℕ) → refuse (not (real_assoc_id id)) invalid_assoc_list ≡ ok tt → IsReal id
unfolding real_assoc_id
accepted_id id h = ground arith

uint32-peek :
    (e : Endian) (b : List ℕ) (at id : ℕ)
    → ◌≡◌ {A = Outcome AssocIdsError ℕ} (uint32 e b at) (ok id)
    → id ≡ peek32 e b at
unfolding uint32
uint32-peek e b at id h = within (leb (at + 4) (length b)) h
  where
    within :
        (t : Bool)
        → ◌≡◌ {A = Outcome AssocIdsError ℕ} (in_range t (peek32 e b at)) (ok id)
        → id ≡ peek32 e b at
    within true q = cc
    within false q = cc

-- The `n` words at `at`.
abbrev pub words : Endian → List ℕ → ℕ → ℕ → List ℕ
words e b at zero = []
words e b at (suc n) = peek32 e b at ∷ words e b (at + 4) n

read_ids-All :
    (e : Endian) (b : List ℕ) (at n : ℕ) (ids : List ℕ)
    → read_ids e b at n ≡ ok ids
    → All IsReal ids × (ids ≡ words e b at n)
unfolding read_ids
read_ids-All e b at zero [] h = (tt, refl)
read_ids-All e b at zero (i ∷ ids) h = cc
read_ids-All e b at (suc n) ids h =
    let (id, read, h1) = >>=-eq-ok (uint32 e b at) _ h in
    let (u, real, h2) = >>=-eq-ok (refuse (not (real_assoc_id id)) invalid_assoc_list) _ h1 in
    let (rest, more, h3) = >>=-eq-ok (read_ids e b (at + 4) n) _ h2 in
    let (good, same) = read_ids-All e b (at + 4) n rest more in
    let q : id ∷ rest ≡ ids = cc in
    subst (λ l. All IsReal l × (l ≡ words e b at (suc n))) q
      ((accepted_id id real, good), ap₂ (λ x l. x ∷ l) (uint32-peek e b at id read) same)

length-words : (e : Endian) (b : List ℕ) (at n : ℕ) → length (words e b at n) ≡ n
length-words e b at zero = refl
length-words e b at (suc n) = ap suc (length-words e b (at + 4) n)

-- A list that is accepted holds association ids only, in increasing order, so each of them once; they are
-- the words behind the count, in some order, as many as the count says, and there are no other bytes.
pub decode_assoc_ids-Increasing :
    (e : Endian) (b ids : List ℕ)
    → decode_assoc_ids e b ≡ ok ids
    → Increasing ids
      × All IsReal ids
      × Perm (words e b 4 (peek32 e b 0)) ids
      × (peek32 e b 0 ≡ length ids)
      × (length b ≡ 4 + 4 * length ids)
unfolding decode_assoc_ids
decode_assoc_ids-Increasing e b ids h =
    let (u, k, h1) = >>=-eq-ok (refuse (ltb (length b) 4) invalid_assoc_list) _ h in
    let (count, read, h2) = >>=-eq-ok (uint32 e b 0) _ h1 in
    let (v, small, h3) =
      >>=-eq-ok (refuse (ltb assoc_id_list_limit count) assoc_list_too_large) _ h2 in
    let (w, whole, h4) =
      >>=-eq-ok (refuse (not (length b == 4 + count * 4)) invalid_assoc_list) _ h3 in
    let (raw, ids_read, h5) = >>=-eq-ok (read_ids e b 4 count) _ h4 in
    let (z, single, h6) = >>=-eq-ok (refuse (has_twins (sort raw)) invalid_assoc_list) _ h5 in
    let (good, same) = read_ids-All e b 4 count raw ids_read in
    let counted : count ≡ peek32 e b 0 = uint32-peek e b 0 count read in
    let many : length raw ≡ count = ap length same ∙ length-words e b 4 count in
    let q : sort raw ≡ ids = cc in
    subst
      (λ l.
        Increasing l
        × All IsReal l
        × Perm (words e b 4 (peek32 e b 0)) l
        × (peek32 e b 0 ≡ length l)
        × (length b ≡ 4 + 4 * length l))
      q
      (
        no_twins (sort raw) (sort-Ascending raw) (untwinned (has_twins (sort raw)) single),
        sort-All IsReal raw good,
        subst (λ l. Perm l (sort raw)) (same ∙ ap (words e b 4) counted) (sort-Perm raw),
        omega (arith, length-sort raw, many, counted),
        omega (arith, length-sort raw, many, sized count whole),
      )
  where
    untwinned : (t : Bool) → refuse t invalid_assoc_list ≡ ok tt → t ≡ false
    untwinned false k = refl
    untwinned true k = cc

    sized :
        (n : ℕ)
        → refuse (not (length b == 4 + n * 4)) invalid_assoc_list ≡ ok tt
        → length b ≡ 4 + n * 4
    sized n k = ground arith
