-- ===== src/Bits.antt =====
-- The bits of a number, and what the native operations on bits do to each.
use go_sctp.Common.{
  ℕ, ◌+◌, ◌*◌, ◌/◌, ◌%◌, ◌^◌, ◌==◌, ◌≤◌, ◌≡◌, refl, sym, ap, ◌∙◌, Bool, false, not, ◌||◌, has_bits,
  bit_or, and_not, if◌then◌else◌, ◌&&◌, true, arith,
}
use native.Mathlib.Nat.{pow-suc}
use Prim.Native.Nat.{
  differ, bit_xor, bit_xor-bitwise, ◌<◌, zero, suc, bit_and, bit_and-bitwise, bit_or-bitwise,
  digits, min, max,
}

abbrev pub bit : ℕ → ℕ → Bool
bit zero n = n % 2 == 1
bit (suc i) n = bit i (n / 2)

module _ (z : ℕ → ℕ) (f : ℕ → ℕ → ℕ) where
  digits_enough : (n m a b : ℕ) → a ≤ n → a ≤ m → digits z f n a b ≡ digits z f m a b
  digits_enough zero zero a b h k = refl
  digits_enough zero (suc m) zero b h k = refl
  digits_enough zero (suc m) (suc a) b h k = omega arith
  digits_enough (suc n) zero zero b h k = refl
  digits_enough (suc n) zero (suc a) b h k = omega arith
  digits_enough (suc n) (suc m) zero b h k = refl
  digits_enough (suc n) (suc m) (suc a) b h k =
      ap (λ d. d * 2 + f (suc a % 2) (b % 2))
        (digits_enough n m (suc a / 2) (b / 2) (omega arith) (omega arith))

bit_and-zero : (b : ℕ) → bit_and 0 b ≡ 0
bit_and-zero b = bit_and-bitwise 0 b

bit_and-step : (a b : ℕ) → bit_and a b ≡ bit_and (a / 2) (b / 2) * 2 + min (a % 2) (b % 2)
bit_and-step zero b = let p = bit_and-zero b in let q = bit_and-zero (b / 2) in omega arith
bit_and-step (suc a) b =
    bit_and-bitwise (suc a) b
    ∙ ap (λ d. d * 2 + min (suc a % 2) (b % 2))
        (digits_enough (λ b. 0) min a (suc a / 2) (suc a / 2) (b / 2) (omega arith) (omega arith)
          ∙ sym (bit_and-bitwise (suc a / 2) (b / 2)))

bit_or-zero : (b : ℕ) → bit_or 0 b ≡ b
bit_or-zero b = bit_or-bitwise 0 b

bit_or-step : (a b : ℕ) → bit_or a b ≡ bit_or (a / 2) (b / 2) * 2 + max (a % 2) (b % 2)
bit_or-step zero b = let p = bit_or-zero b in let q = bit_or-zero (b / 2) in omega arith
bit_or-step (suc a) b =
    bit_or-bitwise (suc a) b
    ∙ ap (λ d. d * 2 + max (suc a % 2) (b % 2))
        (digits_enough (λ b. b) max a (suc a / 2) (suc a / 2) (b / 2) (omega arith) (omega arith)
          ∙ sym (bit_or-bitwise (suc a / 2) (b / 2)))

bit_and-nil : (n a : ℕ) → a ≤ n → bit_and a 0 ≡ 0
bit_and-nil zero zero h = bit_and-zero 0
bit_and-nil zero (suc a) h = omega arith
bit_and-nil (suc n) a h =
    let s = bit_and-step a 0 in
    let rest : bit_and (a / 2) 0 ≡ 0 = bit_and-nil n (a / 2) (omega arith) in omega arith

pub bit-bit_or : (i a b : ℕ) → bit i (bit_or a b) ≡ bit i a || bit i b
bit-bit_or zero a b = let s = bit_or-step a b in ground arith
bit-bit_or (suc i) a b = ap (bit i) (half a b) ∙ bit-bit_or i (a / 2) (b / 2)
  where
    half : (a b : ℕ) → bit_or a b / 2 ≡ bit_or (a / 2) (b / 2)
    half a b = let s = bit_or-step a b in omega arith

pub bit-nil : (i : ℕ) → bit i 0 ≡ false
bit-nil zero = refl
bit-nil (suc i) = bit-nil i

pub bit-pow : (i j : ℕ) → bit i (2 ^ j) ≡ (i == j)
bit-pow zero zero = refl
bit-pow zero (suc j) = let p = pow-suc 2 j in ground arith
bit-pow (suc i) zero = bit-nil i ∙ ground arith
bit-pow (suc i) (suc j) = ap (bit i) (omega (arith, pow-suc 2 j)) ∙ bit-pow i j ∙ ground arith

pub has_bits-pow : (i a : ℕ) → has_bits a (2 ^ i) ≡ bit i a
has_bits-pow zero a =
    let s = bit_and-step a 1 in let n = bit_and-nil (a / 2) (a / 2) (omega arith) in ground arith
has_bits-pow (suc i) a =
    ap (λ b. not b)
      (zero_iff (bit_and a (2 ^ suc i)) (bit_and (a / 2) (2 ^ i)) (
        let s = bit_and-step a (2 ^ suc i) in
        let p = pow-suc 2 i in
        let half : 2 ^ suc i / 2 ≡ 2 ^ i = omega arith in
        let q = ap (bit_and (a / 2)) half in omega arith))
    ∙ has_bits-pow i (a / 2)
  where
    zero_iff : (x y : ℕ) → x ≡ y * 2 → (x == 0) ≡ (y == 0)
    zero_iff x y h = ground arith

pub bit-bit_and : (i a b : ℕ) → bit i (bit_and a b) ≡ bit i a && bit i b
bit-bit_and zero a b = let s = bit_and-step a b in ground arith
bit-bit_and (suc i) a b = ap (bit i) (half a b) ∙ bit-bit_and i (a / 2) (b / 2)
  where
    half : (a b : ℕ) → bit_and a b / 2 ≡ bit_and (a / 2) (b / 2)
    half a b = let s = bit_and-step a b in omega arith

differ_digits : (x y : ℕ) → x < 2 → y < 2 → differ x y ≡ (if x == y then 0 else 1)
differ_digits zero zero h k = refl
differ_digits zero (suc zero) h k = refl
differ_digits zero (suc (suc y)) h k = omega arith
differ_digits (suc zero) zero h k = refl
differ_digits (suc zero) (suc zero) h k = refl
differ_digits (suc zero) (suc (suc y)) h k = omega arith
differ_digits (suc (suc x)) y h k = omega arith

bit_xor-step :
    (a b : ℕ) → bit_xor a b ≡ bit_xor (a / 2) (b / 2) * 2 + (if a % 2 == b % 2 then 0 else 1)
bit_xor-step zero b =
    let p = bit_xor-bitwise 0 b in let q = bit_xor-bitwise 0 (b / 2) in ground arith
bit_xor-step (suc a) b =
    bit_xor-bitwise (suc a) b
    ∙ ap (λ d. d * 2 + differ (suc a % 2) (b % 2))
        (digits_enough (λ b. b) differ a (suc a / 2) (suc a / 2) (b / 2) (omega arith) (omega arith)
          ∙ sym (bit_xor-bitwise (suc a / 2) (b / 2)))
    ∙ ap (λ d. bit_xor (suc a / 2) (b / 2) * 2 + d)
        (differ_digits (suc a % 2) (b % 2) (omega arith) (omega arith))

bit-bit_xor : (i a b : ℕ) → bit i (bit_xor a b) ≡ (if bit i a then not (bit i b) else bit i b)
bit-bit_xor zero a b = let s = bit_xor-step a b in ground arith
bit-bit_xor (suc i) a b = ap (bit i) (half a b) ∙ bit-bit_xor i (a / 2) (b / 2)
  where
    half : (a b : ℕ) → bit_xor a b / 2 ≡ bit_xor (a / 2) (b / 2)
    half a b = let s = bit_xor-step a b in ground arith

pub bit-and_not : (i a b : ℕ) → bit i (and_not a b) ≡ bit i a && not (bit i b)
bit-and_not i a b =
    bit-bit_xor i a (bit_and a b)
    ∙ ap (λ y. if bit i a then not y else y) (bit-bit_and i a b)
    ∙ both (bit i a) (bit i b)
  where
    both : (x y : Bool) → (if x then not (x && y) else x && y) ≡ x && not y
    both true y = refl
    both false y = refl
