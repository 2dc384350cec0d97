-- ===== src/Bytes.antt =====
-- encoding/binary as the package uses it: fixed-width reads and writes in a byte slice, in a byte
-- order. A byte slice is a list of numbers below 256; `NativeEndian` is the order `e` of the target,
-- which every definition takes as an argument.
pub mod Laws
use go_sctp.Common.{ℕ, ◌+◌, ◌-◌, ◌*◌, ◌/◌, ◌%◌, ◌^◌, List, [], ◌∷◌, ◌++◌, leb}
use go_sctp.Common.{length, get_or, take, drop, ◌&&◌, Outcome, in_range}

pub data Endian : Type 0 where
  little big : Endian

-- The `i`th of the `w` bytes of `v`.
unfoldable pub octet : Endian → ℕ → ℕ → ℕ → ℕ
octet little w i v = v / 256 ^ i % 256
octet big w i v = v / 256 ^ (w - 1 - i) % 256

unfoldable pub word16 : Endian → ℕ → ℕ → ℕ
word16 little a b = a + 256 * b
word16 big a b = 256 * a + b

unfoldable pub word32 : Endian → ℕ → ℕ → ℕ → ℕ → ℕ
word32 little a b c d = a + 256 * b + 65536 * c + 16777216 * d
word32 big a b c d = 16777216 * a + 65536 * b + 256 * c + d

unfoldable pub join64 : Endian → ℕ → ℕ → ℕ
join64 little a b = a + 4294967296 * b
join64 big a b = 4294967296 * a + b

-- The values that a read inside the slice gives.
abbrev pub peek8 : List ℕ → ℕ → ℕ
peek8 b i = get_or b i 0

abbrev pub peek16 : Endian → List ℕ → ℕ → ℕ
peek16 e b i = word16 e (peek8 b i) (peek8 b (i + 1))

abbrev pub peek32 : Endian → List ℕ → ℕ → ℕ
peek32 e b i = word32 e (peek8 b i) (peek8 b (i + 1)) (peek8 b (i + 2)) (peek8 b (i + 3))

abbrev pub peek64 : Endian → List ℕ → ℕ → ℕ
peek64 e b i = join64 e (peek32 e b i) (peek32 e b (i + 4))

-- `b[i]`, `order.Uint16(b[i:])`, `order.Uint32(b[i:])` and `order.Uint64(b[i:])`: a read past the
-- end panics.
unfoldable pub uint8 : {E : Type 0} → List ℕ → ℕ → Outcome E ℕ
uint8 b i = in_range (leb (i + 1) (length b)) (peek8 b i)

unfoldable pub uint16 : {E : Type 0} → Endian → List ℕ → ℕ → Outcome E ℕ
uint16 e b i = in_range (leb (i + 2) (length b)) (peek16 e b i)

unfoldable pub uint32 : {E : Type 0} → Endian → List ℕ → ℕ → Outcome E ℕ
uint32 e b i = in_range (leb (i + 4) (length b)) (peek32 e b i)

unfoldable pub uint64 : {E : Type 0} → Endian → List ℕ → ℕ → Outcome E ℕ
uint64 e b i = in_range (leb (i + 8) (length b)) (peek64 e b i)

-- `b[lo:hi]`: the capacity of every slice that the package cuts so is its length.
unfoldable pub slice : {E : Type 0} → List ℕ → ℕ → ℕ → Outcome E (List ℕ)
slice b lo hi = in_range (leb lo hi && leb hi (length b)) (take (hi - lo) (drop lo b))

-- The bytes of a value, and `copy(b[i:], xs)` where all of `xs` has to fit.
abbrev pub octets16 : Endian → ℕ → List ℕ
octets16 e v = octet e 2 0 v ∷ octet e 2 1 v ∷ []

abbrev pub octets32 : Endian → ℕ → List ℕ
octets32 e v = octet e 4 0 v ∷ octet e 4 1 v ∷ octet e 4 2 v ∷ octet e 4 3 v ∷ []

abbrev pub octets64 : Endian → ℕ → List ℕ
octets64 e v =
    octet e 8 0 v
    ∷ octet e 8 1 v
    ∷ octet e 8 2 v
    ∷ octet e 8 3 v
    ∷ octet e 8 4 v
    ∷ octet e 8 5 v
    ∷ octet e 8 6 v
    ∷ octet e 8 7 v
    ∷ []

unfoldable pub put : {E : Type 0} → List ℕ → ℕ → List ℕ → Outcome E (List ℕ)
put b i xs = in_range (leb (i + length xs) (length b)) (take i b ++ (xs ++ drop (i + length xs) b))
