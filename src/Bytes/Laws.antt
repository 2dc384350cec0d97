-- ===== src/Bytes/Laws.antt =====
-- Reads inside a slice do not panic, and a value written is read back.
use go_sctp.Common.{ℕ, ◌+◌, ◌≤◌, ◌<◌, ◌^◌, ◌≡◌, arith, List, length, ok, le→leb}
use go_sctp.Common.{take, drop, ◌-◌}
use go_sctp.Bytes.{
  Endian, little, big, octet, word16, word32, join64, peek8, peek16, peek32, peek64, uint8, uint16,
  uint32, uint64, slice,
}

pub uint8_lem :
    {E : Type 0} (b : List ℕ) (i : ℕ) → i + 1 ≤ length b → uint8 {E = E} b i ≡ ok (peek8 b i)
unfolding uint8
uint8_lem b i h = rw (le→leb _ _ h)

pub uint16_lem :
    {E : Type 0} (e : Endian) (b : List ℕ) (i : ℕ)
    → i + 2 ≤ length b
    → uint16 {E = E} e b i ≡ ok (peek16 e b i)
unfolding uint16
uint16_lem e b i h = rw (le→leb _ _ h)

pub uint32_lem :
    {E : Type 0} (e : Endian) (b : List ℕ) (i : ℕ)
    → i + 4 ≤ length b
    → uint32 {E = E} e b i ≡ ok (peek32 e b i)
unfolding uint32
uint32_lem e b i h = rw (le→leb _ _ h)

pub uint64_lem :
    {E : Type 0} (e : Endian) (b : List ℕ) (i : ℕ)
    → i + 8 ≤ length b
    → uint64 {E = E} e b i ≡ ok (peek64 e b i)
unfolding uint64
uint64_lem e b i h = rw (le→leb _ _ h)

pub slice_lem :
    {E : Type 0} (b : List ℕ) (lo hi : ℕ)
    → lo ≤ hi
    → hi ≤ length b
    → slice {E = E} b lo hi ≡ ok (take (hi - lo) (drop lo b))
unfolding slice
slice_lem b lo hi h k = rw (le→leb _ _ h, le→leb _ _ k)

pub word16-octet : (e : Endian) (v : ℕ) → v < 2 ^ 16 → word16 e (octet e 2 0 v) (octet e 2 1 v) ≡ v
unfolding word16 octet
word16-octet little v h = omega arith
word16-octet big v h = omega arith

pub word32-octet :
    (e : Endian) (v : ℕ)
    → v < 2 ^ 32
    → word32 e (octet e 4 0 v) (octet e 4 1 v) (octet e 4 2 v) (octet e 4 3 v) ≡ v
unfolding word32 octet
word32-octet little v h = omega arith
word32-octet big v h = omega arith

pub word64-octet :
    (e : Endian) (v : ℕ)
    → v < 2 ^ 64
    → join64 e
        (word32 e (octet e 8 0 v) (octet e 8 1 v) (octet e 8 2 v) (octet e 8 3 v))
        (word32 e (octet e 8 4 v) (octet e 8 5 v) (octet e 8 6 v) (octet e 8 7 v))
      ≡ v
unfolding join64 word32 octet
word64-octet little v h = omega arith
word64-octet big v h = omega arith
