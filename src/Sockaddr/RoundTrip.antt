-- ===== src/Sockaddr/RoundTrip.antt =====
-- What `encodeAddr` and `encodeAddrs` write, `decodeSockaddrEntry` and `decodeAddrs` read back.
use mathlib.Core.Path.{subst}
use go_sctp.Common.{
  ◌+◌, refl, sym, ap, ◌∙◌, [], get_or, ℕ, ◌<◌, ◌≡◌, ◌^◌, arith, ◌⊎◌, inl, inr, Bool-cases, List,
  length, replicate, Option, ok, ℤ, if◌then◌else◌, ◌==◌,
}
use go_sctp.Bytes.{peek16}
use go_sctp.Netip.{IpAddr, invalid, v4, v6, is_mapped, mapped_v4, unmap, zone, is_valid}
use go_sctp.Platform.{Platform}
use go_sctp.Sockaddr.{encode_addr, sockaddr_size, wire_addr, encode_in}
use go_sctp.Sockaddr.Decode.{decode_sockaddr_entry}
use go_sctp.Sockaddr.Layout.{
  wire_addr-mapped, wire_addr-unmapped, IsWf, NamesZone, in_v4, InV6-round_trip, in6_round_trip,
}

-- The IPv4 wildcard 0.0.0.0 as the IPv6 wildcard.
abbrev pub dual_stack : IpAddr → IpAddr
dual_stack (v4 a b c d) = if a + b + c + d == 0 then v6 (replicate 16 0) [] else v4 a b c d
dual_stack ip = ip

-- What is to be read back of an address that went to a socket of the family: an IPv4-mapped address as the
-- IPv4 one, and on AF_INET6 the IPv4 wildcard as the IPv6 one.
abbrev pub reported : ℕ → IpAddr → IpAddr
reported family ip = if family == 2 then unmap ip else dual_stack (unmap ip)

wire_addr-v4 : (a b c d : ℕ) → wire_addr (v4 a b c d) ≡ dual_stack (v4 a b c d)
wire_addr-v4 a b c d = ground arith

wire_addr-reported : (ip : IpAddr) → wire_addr ip ≡ dual_stack (unmap ip)
wire_addr-reported invalid = refl
wire_addr-reported (v4 a b c d) = wire_addr-v4 a b c d
wire_addr-reported (v6 b z) = elim (Bool-cases (is_mapped b)) [
  | inl m ↦
      wire_addr-mapped b z m
      ∙ wire_addr-v4 (get_or b 12 0) (get_or b 13 0) (get_or b 14 0) (get_or b 15 0)
      ∙ ap dual_stack (sym (ap (λ c. if c then mapped_v4 b else v6 b z) m))
  | inr u ↦
      wire_addr-unmapped b z u ∙ sym (ap dual_stack (ap (λ c. if c then mapped_v4 b else v6 b z) u))
]

encode_in-invalid :
    (p : Platform) (port : ℕ) (chunk : List ℕ) (n : ℕ)
    → ¬ (encode_in p.order (replicate 16 0) invalid port ≡ ok (chunk, n))
unfolding encode_in
encode_in-invalid p port chunk n h = cc

in_round_trip :
    (p : Platform) (port : ℕ) (ip : IpAddr) (chunk : List ℕ) (n : ℕ)
    → IsWf ip
    → port < 2 ^ 16
    → encode_in p.order (replicate 16 0) ip port ≡ ok (chunk, n)
    → (decode_sockaddr_entry p chunk ≡ ok (unmap ip, port))
      × (length chunk ≡ 16)
      × (peek16 p.order chunk 0 ≡ 2)
in_round_trip p port invalid chunk n w small h = absurd (encode_in-invalid p port chunk n h)
in_round_trip p port (v4 a b c d) chunk n w small h = in_v4 p a b c d port n chunk small h
in_round_trip p port (v6 b z) chunk n w small h = InV6-round_trip p port z small b w n chunk h

-- The families that have a size.
pub sockaddr_size_cases :
    (family size : ℕ)
    → sockaddr_size family ≡ ok size
    → ((family ≡ 2) × (size ≡ 16)) ⊎ ((family ≡ 10) × (size ≡ 28))
unfolding sockaddr_size
sockaddr_size_cases family size h = ground arith

-- An address of a family, encoded into a zeroed buffer of that family's size.
module _ (p : Platform) (index : List ℕ → Option ℤ) (port : ℕ) (ip : IpAddr) (chunk : List ℕ)
    (n : ℕ) (w : IsWf ip) (small : port < 2 ^ 16) (named : NamesZone p index (zone ip)) where
  round_trip_in :
      encode_addr p.order index (replicate 16 0) 2 ip port ≡ ok (chunk, n)
      → (decode_sockaddr_entry p chunk ≡ ok (unmap ip, port))
        × (length chunk ≡ 16)
        × (peek16 p.order chunk 0 ≡ 2)
  unfolding encode_addr
  round_trip_in h = elim (Bool-cases (is_valid ip)) [
    | inl v ↦ in_round_trip p port ip chunk n w small (rw v at h)
    | inr i ↦ cc (rw i at h)
  ]

  round_trip_in6 :
      encode_addr p.order index (replicate 28 0) 10 ip port ≡ ok (chunk, n)
      → (decode_sockaddr_entry p chunk ≡ ok (dual_stack (unmap ip), port))
        × (length chunk ≡ 28)
        × (peek16 p.order chunk 0 ≡ 10)
  unfolding encode_addr
  round_trip_in6 h = elim (Bool-cases (is_valid ip)) [
    | inl v ↦
        subst
          (λ (x : IpAddr).
            (decode_sockaddr_entry p chunk ≡ ok (x, port))
            × (length chunk ≡ 28)
            × (peek16 p.order chunk 0 ≡ 10))
          (wire_addr-reported ip)
          (in6_round_trip p index port ip chunk n w v small named (rw v at h))
    | inr i ↦ cc (rw i at h)
  ]

-- An address that is encoded into a zeroed buffer of its family's size is decoded with the same port and
-- zone, the zone being one that the host's interface names undo: an IPv4-mapped address as the IPv4 one, on an
-- AF_INET6 socket the IPv4 wildcard as the IPv6 one, and any other address as itself. The entry has the size
-- and the family asked for.
pub decode_sockaddr_entry-encode_addr :
    (p : Platform) (index : List ℕ → Option ℤ) (family size port : ℕ) (ip : IpAddr) (chunk : List ℕ)
    (n : ℕ)
    → IsWf ip
    → port < 2 ^ 16
    → NamesZone p index (zone ip)
    → sockaddr_size family ≡ ok size
    → encode_addr p.order index (replicate size 0) family ip port ≡ ok (chunk, n)
    → (decode_sockaddr_entry p chunk ≡ ok (reported family ip, port))
      × (length chunk ≡ size)
      × (peek16 p.order chunk 0 ≡ family)
decode_sockaddr_entry-encode_addr p index family size port ip chunk n w small named sized h =
    elim (sockaddr_size_cases family size sized) [
      | inl (f, s) ↦
          rw (f, s) (round_trip_in p index port ip chunk n w small named (rw (f, s) at h))
      | inr (f, s) ↦
          rw (f, s) (round_trip_in6 p index port ip chunk n w small named (rw (f, s) at h))
    ]
