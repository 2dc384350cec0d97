-- ===== src/Sockaddr/Decode/Safety.antt =====
-- Decoding any bytes at all neither reads nor cuts out of range.
use go_sctp.Common.{ℕ, zero, suc, ◌+◌, ◌≤◌, ◌<◌, ◌≡◌, ◌≢◌, ◌⊎◌, inl, inr, arith, List, length}
use go_sctp.Common.{
  take, drop, get_or, ok, panic, ℤ, pos, negsuc, length-take, length-drop, get_or-take, get_or-drop,
  ap, ◌∙◌, >>=-ne-panic, >>=-eq-ok, refl, ◌==◌, if◌then◌else◌, Bool-cases, ltb, ◌/◌,
}
use mathlib.Core.Path.{ap₂}
use go_sctp.Bytes.{Endian, big, peek16, word16, slice}
use go_sctp.Bytes.Laws.{slice_lem}
use go_sctp.Platform.{Platform}
use go_sctp.Sockaddr.{SockaddrError}
use go_sctp.Sockaddr.Decode.{
  sockaddr_entry_size, decode_sockaddr_entry, decode_addr, check_entries, decode_entries,
  decode_addrs, decode_in6,
}

-- A size that is returned fits the slice, and belongs to the family that stands there.
pub sockaddr_entry_size_fits :
    (e : Endian) (b : List ℕ) (at size : ℕ)
    → sockaddr_entry_size e b at ≡ ok size
    → (at + size ≤ length b)
      × (((size ≡ 16) × (peek16 e b at ≡ 2)) ⊎ ((size ≡ 28) × (peek16 e b at ≡ 10)))
unfolding sockaddr_entry_size
sockaddr_entry_size_fits e b at size h = ground arith

pub sockaddr_entry_size-ne-panic :
    (e : Endian) (b : List ℕ) (at : ℕ) → sockaddr_entry_size e b at ≢ panic
unfolding sockaddr_entry_size
sockaddr_entry_size-ne-panic e b at = ground arith

decode_in6-ne-panic :
    (p : Platform) (b : List ℕ) (port : ℕ) → 28 ≤ length b → decode_in6 p b port ≢ panic
unfolding decode_in6
decode_in6-ne-panic p b port h = ground arith

-- An entry of either size, with the family that goes with it.
decode_sockaddr_entry-ne-panic :
    (p : Platform) (b : List ℕ) (size : ℕ)
    → length b ≡ size
    → ((size ≡ 16) × (peek16 p.order b 0 ≡ 2)) ⊎ ((size ≡ 28) × (peek16 p.order b 0 ≡ 10))
    → decode_sockaddr_entry p b ≢ panic
unfolding decode_sockaddr_entry
decode_sockaddr_entry-ne-panic p b size h k =
    ground (arith, decode_in6-ne-panic p b (peek16 big b 2))

get_or-take-drop :
    (b : List ℕ) (at n i : ℕ) → i < n → get_or (take n (drop at b)) i 0 ≡ get_or b (at + i) 0
get_or-take-drop b at n i h = get_or-take n (drop at b) i 0 h ∙ get_or-drop at b i 0

-- The family of the bytes cut out for an entry is the one that was checked.
peek16-cut :
    (e : Endian) (b : List ℕ) (at n : ℕ) → 2 ≤ n → peek16 e (take n (drop at b)) 0 ≡ peek16 e b at
peek16-cut e b at n h =
    ap₂ (word16 e)
      (get_or-take-drop b at n 0 (omega arith) ∙ ap (λ (k : ℕ). get_or b k 0) (omega arith))
      (get_or-take-drop b at n 1 (omega arith))

-- The entry that a returned size cuts out.
entry_of_size :
    (e : Endian) (b : List ℕ) (at size : ℕ)
    → sockaddr_entry_size e b at ≡ ok size
    → (length (take size (drop at b)) ≡ size)
      × (((size ≡ 16) × (peek16 e (take size (drop at b)) 0 ≡ 2))
          ⊎ ((size ≡ 28) × (peek16 e (take size (drop at b)) 0 ≡ 10)))
entry_of_size e b at size h =
    let (fits, kind) = sockaddr_entry_size_fits e b at size h in
    ground
      (arith, fits, kind, peek16-cut e b at size, length-take size (drop at b), length-drop at b)

-- The bytes of a checked entry are cut out and decoded.
entry-ne-panic :
    (p : Platform) (b : List ℕ) (at size : ℕ)
    → sockaddr_entry_size p.order b at ≡ ok size
    → decode_sockaddr_entry p (take size (drop at b)) ≢ panic
entry-ne-panic p b at size h =
    let (long, kind) = entry_of_size p.order b at size h in
    decode_sockaddr_entry-ne-panic p (take size (drop at b)) size long kind

slice_entry :
    (e : Endian) (b : List ℕ) (at size hi : ℕ)
    → sockaddr_entry_size e b at ≡ ok size
    → hi ≡ at + size
    → slice {E = SockaddrError} b at hi ≡ ok (take size (drop at b))
slice_entry e b at size hi h k =
    slice_lem b at hi (omega arith) (omega (arith, (sockaddr_entry_size_fits e b at size h).0))
    ∙ ap (λ (n : ℕ). ok (take n (drop at b))) (omega arith)

-- `decodeAddr` returns an address or an error for any bytes: it never panics.
pub decode_addr-ne-panic : (p : Platform) (b : List ℕ) → decode_addr p b ≢ panic
unfolding decode_addr
decode_addr-ne-panic p b =
    >>=-ne-panic _ _ (sockaddr_entry_size-ne-panic p.order b 0) (λ size h.
      rw (slice_entry p.order b 0 size size h (omega arith)) (entry-ne-panic p b 0 size h))

-- After a first walk that found no error the second walk does not panic.
decode_entries-ne-panic :
    (p : Platform) (b : List ℕ) (at i port n : ℕ)
    → check_entries p.order b at n ≡ ok tt
    → decode_entries p b at i port n ≢ panic
unfolding check_entries decode_entries
decode_entries-ne-panic p b at i port zero h = λ e. cc
decode_entries-ne-panic p b at i port (suc n) h =
    let (size, sized, rest) = >>=-eq-ok (sockaddr_entry_size p.order b at) _ h in
    rw (sized, slice_entry p.order b at size (at + size) sized refl)
      (>>=-ne-panic (decode_sockaddr_entry p (take size (drop at b))) _
        (entry-ne-panic p b at size sized)
        (λ d e.
          >>=-ne-panic _ _
            (decode_entries-ne-panic p b (at + size) (i + 1) (if i == 0 then d.1 else port) n rest)
            (λ t e k. cc)))

check_entries-ne-panic : (e : Endian) (b : List ℕ) (at n : ℕ) → check_entries e b at n ≢ panic
unfolding check_entries
check_entries-ne-panic e b at zero = λ k. cc
check_entries-ne-panic e b at (suc n) =
    >>=-ne-panic _ _ (sockaddr_entry_size-ne-panic e b at)
      (λ size h. check_entries-ne-panic e b (at + size) n)

-- `decodeAddrs` never panics, whatever the bytes and the count.
pub decode_addrs-ne-panic : (p : Platform) (b : List ℕ) (n : ℤ) → decode_addrs p b n ≢ panic
unfolding decode_addrs
decode_addrs-ne-panic p b (negsuc n) = λ k. cc
decode_addrs-ne-panic p b (pos zero) = λ k. cc
decode_addrs-ne-panic p b (pos (suc n)) = elim (Bool-cases (ltb (length b / 16) (suc n))) [
  | inl many ↦ rw many (λ k. cc)
  | inr few ↦ rw few (
      >>=-ne-panic _ _ (check_entries-ne-panic p.order b 0 (suc n))
        (λ u h. decode_entries-ne-panic p b 0 0 0 (suc n) h))
]
