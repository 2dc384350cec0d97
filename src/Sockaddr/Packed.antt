-- ===== src/Sockaddr/Packed.antt =====
-- The packed array: what `encodeAddrs` packs, `decodeAddrs` unpacks.
use go_sctp.Common.{
  Bool, true, false, le→ltb, ◌/◌, sym, Outcome-cases, take-append, drop-append, replicate,
  >>=-eq-ok, All, ℕ, ◌+◌, ◌*◌, ◌<◌, ◌≤◌, ◌≡◌, ◌^◌, inl, inr, refl, arith, List, [], ◌∷◌, ◌++◌,
  length, Option, ok, ℤ, pos, map, if◌then◌else◌, ◌==◌, take, get_or, get_or-append_left,
  get_or-append_right, ◌∙◌, ap, length-append,
}
use mathlib.Core.Path.{ap₂, subst}
use mathlib.Core.List.{append_assoc, append-nil}
use go_sctp.Bytes.{peek16, Endian, word16, slice}
use go_sctp.Bytes.Laws.{slice_lem}
use go_sctp.Netip.{IpAddr, zone}
use go_sctp.Platform.{Platform}
use go_sctp.Sockaddr.{SockaddrError, encode_addr, sockaddr_size, encode_addrs, encode_entries}
use go_sctp.Sockaddr.Decode.{
  decode_sockaddr_entry, sockaddr_entry_size, check_entries, decode_entries, decode_addrs,
}
use go_sctp.Sockaddr.Layout.{IsWf, NamesZone}
use go_sctp.Sockaddr.RoundTrip.{reported, decode_sockaddr_entry-encode_addr, sockaddr_size_cases}

-- An entry behind `pre` and before `rest`.
module _ (e : Endian) (pre chunk rest : List ℕ) where
  abbrev whole : List ℕ
  whole = pre ++ (chunk ++ rest)

  byte-whole : (i : ℕ) → i < length chunk → get_or whole (length pre + i) 0 ≡ get_or chunk i 0
  byte-whole i h = get_or-append_right pre (chunk ++ rest) i 0 ∙ get_or-append_left chunk rest i 0 h

  peek16-whole : 2 ≤ length chunk → peek16 e whole (length pre) ≡ peek16 e chunk 0
  peek16-whole h =
      ap₂ (word16 e) (ap (λ (k : ℕ). get_or whole k 0) (omega arith) ∙ byte-whole 0 (omega arith))
        (byte-whole 1 (omega arith))

  length-whole : length whole ≡ length pre + length chunk + length rest
  length-whole = omega (arith, length-append pre (chunk ++ rest), length-append chunk rest)

  entry_size-whole :
      (family size : ℕ)
      → sockaddr_size family ≡ ok size
      → length chunk ≡ size
      → peek16 e chunk 0 ≡ family
      → sockaddr_entry_size e whole (length pre) ≡ ok size
  unfolding sockaddr_entry_size
  entry_size-whole family size sized long kind =
      ground (arith, sockaddr_size_cases family size sized, long, kind, peek16-whole, length-whole)

  slice_whole :
      (size : ℕ)
      → length chunk ≡ size
      → slice {E = SockaddrError} whole (length pre) (length pre + size) ≡ ok chunk
  slice_whole size long =
      slice_lem whole (length pre) (length pre + size) (omega arith) (omega (arith, length-whole))
      ∙ ap₂ (λ (k : ℕ) (l : List ℕ). ok (take k l)) (omega arith) (drop-append pre (chunk ++ rest))
      ∙ ap ok (take-append chunk rest)

same_port : (t : Bool) (port : ℕ) → (if t then port else port) ≡ port
same_port true port = refl
same_port false port = refl

encode_entries-cons :
    (e : Endian) (index : List ℕ → Option ℤ) (size family port i : ℕ) (ip : IpAddr)
    (ips : List IpAddr) (buf : List ℕ)
    → encode_entries e index size family port i (ip ∷ ips) ≡ ok buf
    → (chunk : List ℕ) × (n : ℕ) × (rest : List ℕ) × (encode_addr e index
          (replicate size 0)
          family
          ip
          port
        ≡ ok (chunk, n))
      × (encode_entries e index size family port (i + 1) ips ≡ ok rest)
      × (buf ≡ chunk ++ rest)
unfolding encode_entries
encode_entries-cons e index size family port i ip ips buf h =
    elim (Outcome-cases (encode_addr e index (replicate size 0) family ip port)) [
      | inl ((chunk, n), made) ↦
          let (rest, others, joined) = >>=-eq-ok _ _ (rw (made, encode_entries) at h) in
          (chunk, n, rest, made, others, cc)
      | inr (inl (x, failed)) ↦ cc (rw (failed, encode_entries) at h)
      | inr (inr failed) ↦ cc (rw (failed, encode_entries) at h)
    ]

-- The addresses that can be packed.
abbrev pub Packable : Platform → (List ℕ → Option ℤ) → IpAddr → Type 0
Packable p index ip = IsWf ip × NamesZone p index (zone ip)

-- A family of known size, a port, and a byte string that holds the packed entries from `at` on.
module _ (p : Platform) (index : List ℕ → Option ℤ) (family size port : ℕ) (small : port < 2 ^ 16)
    (sized : sockaddr_size family ≡ ok size) where
  abbrev Holds : List ℕ → ℕ → List ℕ → Type 0
  Holds b at chunk =
      (pre : List ℕ) × (rest : List ℕ) × (b ≡ pre ++ (chunk ++ rest)) × (at ≡ length pre)

  -- One entry: its size, and the bytes that are cut out for it.
  first_entry :
      (b : List ℕ) (at : ℕ) (ip : IpAddr) (chunk : List ℕ) (n : ℕ)
      → Holds b at chunk
      → Packable p index ip
      → encode_addr p.order index (replicate size 0) family ip port ≡ ok (chunk, n)
      → (sockaddr_entry_size p.order b at ≡ ok size)
        × (slice {E = SockaddrError} b at (at + size) ≡ ok chunk)
        × (decode_sockaddr_entry p chunk ≡ ok (reported family ip, port))
        × (length chunk ≡ size)
  first_entry b at ip chunk n (pre, rest, bytes, start) (w, named) made =
      let (read, long, kind) =
        decode_sockaddr_entry-encode_addr p index family size port ip chunk n w small named sized
          made in
      (
        rw (bytes, start) (entry_size-whole p.order pre chunk rest family size sized long kind),
        rw (bytes, start) (slice_whole p.order pre chunk rest size long),
        read,
        long,
      )

  -- The bytes behind the first entry hold the rest.
  Holds-rest :
      (b : List ℕ) (at : ℕ) (chunk rest : List ℕ)
      → length chunk ≡ size
      → Holds b at (chunk ++ rest)
      → Holds b (at + size) rest
  Holds-rest b at chunk rest long (pre, post, bytes, start) = (
    pre ++ chunk,
    post,
    rw (bytes, append_assoc chunk rest post, append_assoc pre chunk (rest ++ post)),
    omega (arith, length-append pre chunk),
  )

  Holds-first :
      (b : List ℕ) (at : ℕ) (chunk rest : List ℕ) → Holds b at (chunk ++ rest) → Holds b at chunk
  Holds-first b at chunk rest (pre, post, bytes, start) =
      (pre, rest ++ post, rw (bytes, append_assoc chunk rest post), start)

  check_entries-packed :
      (ips : List IpAddr) (i : ℕ) (b : List ℕ) (at : ℕ) (buf : List ℕ)
      → All (Packable p index) ips
      → encode_entries p.order index size family port i ips ≡ ok buf
      → Holds b at buf
      → check_entries p.order b at (length ips) ≡ ok tt
  unfolding check_entries
  check_entries-packed [] i b at buf good h holds = refl
  check_entries-packed (ip ∷ ips) i b at buf (g, good) h holds =
      let (chunk, n, rest, made, others, joined) =
        encode_entries-cons p.order index size family port i ip ips buf h in
      let holds' : Holds b at (chunk ++ rest) = rw joined at holds in
      let (sized', cut, read, long) =
        first_entry b at ip chunk n (Holds-first b at chunk rest holds') g made in
      rw sized' (
        check_entries-packed ips (i + 1) b (at + size) rest good others
          (Holds-rest b at chunk rest long holds'))

  -- Once the port is known it is kept.
  decode_entries-packed :
      (ips : List IpAddr) (i j : ℕ) (b : List ℕ) (at : ℕ) (buf : List ℕ)
      → All (Packable p index) ips
      → encode_entries p.order index size family port i ips ≡ ok buf
      → Holds b at buf
      → decode_entries p b at j port (length ips) ≡ ok (map (reported family) ips, port)
  unfolding decode_entries
  decode_entries-packed [] i j b at buf good h holds = refl
  decode_entries-packed (ip ∷ ips) i j b at buf (g, good) h holds =
      let (chunk, n, rest, made, others, joined) =
        encode_entries-cons p.order index size family port i ip ips buf h in
      let holds' : Holds b at (chunk ++ rest) = rw joined at holds in
      let (sized', cut, read, long) =
        first_entry b at ip chunk n (Holds-first b at chunk rest holds') g made in
      rw (sized', cut, read, same_port (j == 0) port)
        (rw
          (decode_entries-packed ips (i + 1) (j + 1) b (at + size) rest good others
            (Holds-rest b at chunk rest long holds'))
          refl)

  length-encode_entries :
      (ips : List IpAddr) (i : ℕ) (buf : List ℕ)
      → All (Packable p index) ips
      → encode_entries p.order index size family port i ips ≡ ok buf
      → 16 * length ips ≤ length buf
  unfolding encode_entries
  length-encode_entries [] i buf good h = omega arith
  length-encode_entries (ip ∷ ips) i buf ((w, named), good) h =
      let (chunk, n, rest, made, others, joined) =
        encode_entries-cons p.order index size family port i ip ips buf h in
      let (read, long, kind) =
        decode_sockaddr_entry-encode_addr p index family size port ip chunk n w small named sized
          made in
      ground (
        arith,
        long,
        sockaddr_size_cases family size sized,
        length-append chunk rest,
        joined,
        length-encode_entries ips (i + 1) rest good others,
      )

  decode_entries-All :
      (ip : IpAddr) (ips : List IpAddr) (buf : List ℕ)
      → All (Packable p index) (ip ∷ ips)
      → encode_entries p.order index size family port 0 (ip ∷ ips) ≡ ok buf
      → Holds buf 0 buf
      → decode_entries p buf 0 0 0 (length (ip ∷ ips)) ≡ ok (map (reported family) (ip ∷ ips), port)
  unfolding decode_entries
  decode_entries-All ip ips buf (g, good) h holds =
      let (chunk, n, rest, made, others, joined) =
        encode_entries-cons p.order index size family port 0 ip ips buf h in
      let holds' : Holds buf 0 (chunk ++ rest) = subst (Holds buf 0) joined holds in
      let (sized', cut, read, long) =
        first_entry buf 0 ip chunk n (Holds-first buf 0 chunk rest holds') g made in
      rw (sized', cut, read)
        (rw
          (decode_entries-packed ips 1 1 buf (0 + size) rest good others
            (Holds-rest buf 0 chunk rest long holds'))
          refl)

-- What `encodeAddrs` packs from at least one address, `decodeAddrs` unpacks, given the number of
-- entries: the same addresses in the same order and the port. An IPv4-mapped address comes back as the IPv4
-- one, and from an AF_INET6 socket the IPv4 wildcard as the IPv6 one. A zone has to be one that the host's
-- interface names undo.
pub decode_addrs-encode_addrs :
    (p : Platform) (index : List ℕ → Option ℤ) (family port : ℕ) (ip : IpAddr) (ips : List IpAddr)
    (buf : List ℕ)
    → port < 2 ^ 16
    → All (Packable p index) (ip ∷ ips)
    → encode_addrs p.order index family (ip ∷ ips) port ≡ ok buf
    → decode_addrs p buf (pos (length (ip ∷ ips))) ≡ ok (map (reported family) (ip ∷ ips), port)
unfolding encode_addrs decode_addrs
decode_addrs-encode_addrs p index family port ip ips buf small good h =
    let (size, sized, made) = >>=-eq-ok (sockaddr_size family) _ h in
    let fits =
      length-encode_entries p index family size port small sized (ip ∷ ips) 0 buf good made in
    rw
      (
        le→ltb (length buf / 16) (length (ip ∷ ips)) (omega arith),
        check_entries-packed p index family size port small sized (ip ∷ ips) 0 buf 0 buf good made
            holds,
      )
      (decode_entries-All p index family size port small sized ip ips buf good made holds)
  where
    holds : (pre : List ℕ) × (rest : List ℕ) × (buf ≡ pre ++ (buf ++ rest)) × (0 ≡ length pre)
    holds = ([], [], sym (append-nil buf), refl)
