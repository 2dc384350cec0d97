-- ===== src/Sockaddr/Layout.antt =====
-- The bytes of the two sockaddr layouts, as they are written and as they are read.
use go_sctp.Common.{
  ℕ, ◌<◌, ◌≡◌, ◌^◌, refl, arith, List, [], ◌∷◌, length, replicate, Option, ok, sym, length-append,
  >>=-eq-ok, ◌∙◌, inl, inr, Bool-cases, get_or, ◌&&◌, ◌⊎◌, Bool, true, false, ℤ, ◌++◌, Outcome,
  EveryOf, every_of_length, ◌==◌, if◌then◌else◌,
}
use mathlib.Core.Path.{subst}
use go_sctp.Bytes.{Endian, big, octets16, octets32, peek16}
use go_sctp.Bytes.Laws.{word16-octet, word32-octet}
use go_sctp.Netip.{
  IpAddr, invalid, v4, v6, unmap, zone, is4, is_empty, is4_in6, is_valid, is_link_local_unicast,
  is_mapped, mapped_v4, link_local_bytes, as16,
}
use go_sctp.Platform.{Platform}
use go_sctp.Sockaddr.{
  encode_zone, scope_id, wire_addr, encode_in, encode_in6, write_in6, SockaddrError,
}
use go_sctp.Sockaddr.Decode.{decode_sockaddr_entry, zone_name}

-- The sixteen bytes of an IPv6 address.
abbrev pub IsWf : IpAddr → Type 0
IsWf (v6 b z) = length b ≡ 16
IsWf _ = Unit {0}

-- The host's names undo its indexes: the id that a zone is encoded as is named by that zone.
abbrev pub NamesZone : Platform → (List ℕ → Option ℤ) → List ℕ → Type 0
NamesZone p index z = (s : ℕ) → encode_zone index z ≡ ok s → (s < 2 ^ 32) × (zone_name p s ≡ z)

pub in_v4 :
    (p : Platform) (a b c d port n : ℕ) (chunk : List ℕ)
    → port < 2 ^ 16
    → encode_in p.order (replicate 16 0) (v4 a b c d) port ≡ ok (chunk, n)
    → (decode_sockaddr_entry p chunk ≡ ok (v4 a b c d, port))
      × (length chunk ≡ 16)
      × (peek16 p.order chunk 0 ≡ 2)
unfolding encode_in decode_sockaddr_entry
in_v4 p a b c d port n chunk small h = ground (arith, word16-octet p.order 2, word16-octet big port)

abbrev pub InV6 : Platform → ℕ → List ℕ → List ℕ → Type 0
InV6 p port z b =
    (n : ℕ) (chunk : List ℕ)
    → encode_in p.order (replicate 16 0) (v6 b z) port ≡ ok (chunk, n)
    → (decode_sockaddr_entry p chunk ≡ ok (unmap (v6 b z), port))
      × (length chunk ≡ 16)
      × (peek16 p.order chunk 0 ≡ 2)

in_v6 : (p : Platform) (port : ℕ) (z : List ℕ) → port < 2 ^ 16 → EveryOf 16 (InV6 p port z)
unfolding encode_in decode_sockaddr_entry
in_v6 p port z small b0 b1 b2 b3 b4 b5 b6 b7 b8 b9 b10 b11 b12 b13 b14 b15 n chunk h =
    ground (arith, word16-octet p.order 2, word16-octet big port)

pub InV6-round_trip :
    (p : Platform) (port : ℕ) (z : List ℕ)
    → port < 2 ^ 16
    → (b : List ℕ) → length b ≡ 16
    → InV6 p port z b
InV6-round_trip p port z small = every_of_length 16 _ (in_v6 p port z small)

-- The bytes of `struct sockaddr_in6`.
abbrev layout6 : Endian → ℕ → List ℕ → ℕ → List ℕ
layout6 e port b scope =
    octets16 e 10 ++ (octets16 big port ++ (replicate 4 0 ++ (b ++ octets32 e scope)))

write_layout6 :
    (e : Endian) (port scope : ℕ)
    → EveryOf 16 (λ b. write_in6 e (replicate 28 0) port b scope ≡ ok (layout6 e port b scope, 28))
unfolding write_in6
write_layout6 e port scope b0 b1 b2 b3 b4 b5 b6 b7 b8 b9 b10 b11 b12 b13 b14 b15 = refl

-- What an AF_INET6 entry is read as.
abbrev decoded6 : Platform → List ℕ → ℕ → ℕ → Outcome SockaddrError (IpAddr × ℕ)
decoded6 p b port scope =
    if is_mapped b
    then ok (mapped_v4 b, port)
    else if link_local_bytes b
    then ok (if scope == 0 then v6 b [] else v6 b (zone_name p scope), port)
    else ok (v6 b [], port)

same_branches :
    (m l q : Bool) (u w : IpAddr) (port : ℕ) (s t : Outcome SockaddrError (IpAddr × ℕ))
    → (if m then ok (if m then u else w, port) else if (if m then q else l) then s else t)
      ≡ (if m then ok (u, port) else if l then s else t)
same_branches true l q u w port s t = refl
same_branches false l q u w port s t = refl

decode_branches :
    (b : List ℕ) (port : ℕ) (s t : Outcome SockaddrError (IpAddr × ℕ))
    → (if is4_in6 (v6 b [])
        then ok (unmap (v6 b []), port)
        else if is_link_local_unicast (v6 b [])
        then s
        else t)
      ≡ (if is_mapped b then ok (mapped_v4 b, port) else if link_local_bytes b then s else t)
decode_branches b port s t =
    same_branches (is_mapped b) (link_local_bytes b) (get_or b 12 0 == 169 && get_or b 13 0 == 254)
      (mapped_v4 b) (v6 b []) port s t

decode_layout6 :
    (p : Platform) (port scope : ℕ)
    → port < 2 ^ 16
    → scope < 2 ^ 32
    → EveryOf 16
        (λ b. decode_sockaddr_entry p (layout6 p.order port b scope) ≡ decoded6 p b port scope)
unfolding decode_sockaddr_entry
decode_layout6 p port scope hp hs b0 b1 b2 b3 b4 b5 b6 b7 b8 b9 b10 b11 b12 b13 b14 b15 =
    rw
      (
        word16-octet p.order 10 (omega arith),
        word16-octet big port hp,
        word32-octet p.order scope hs,
      )
      (decode_branches
        (b0 ∷ b1 ∷ b2 ∷ b3 ∷ b4 ∷ b5 ∷ b6 ∷ b7 ∷ b8 ∷ b9 ∷ b10 ∷ b11 ∷ b12 ∷ b13 ∷ b14 ∷ b15 ∷ [])
        port _ _)

-- The scope id that an address was encoded with: none, or that of a link-local IPv6 address.
abbrev ScopeOf : Platform → ℕ → IpAddr → Type 0
ScopeOf p scope ip =
    ((scope ≡ 0) × (zone ip ≡ []))
    ⊎ ((is_link_local_unicast (unmap ip) ≡ true)
        × (is4 (unmap ip) ≡ false)
        × (zone_name p scope ≡ zone ip))

decoded6-v4 :
    (p : Platform) (port scope a b c d : ℕ)
    → decoded6 p (as16 (wire_addr (v4 a b c d))) port scope ≡ ok (wire_addr (v4 a b c d), port)
decoded6-v4 p port scope a b c d = ground arith

zone_name-zero : (p : Platform) (scope : ℕ) → scope ≡ 0 → zone_name p scope ≡ []
unfolding zone_name
zone_name-zero p scope h = rw h

decoded6-v6 :
    (l : Bool) (b z y : List ℕ) (port scope : ℕ)
    → (scope ≡ 0 → y ≡ [])
    → ((scope ≡ 0) × (z ≡ [])) ⊎ ((l ≡ true) × (y ≡ z))
    → ◌≡◌ {A = Outcome SockaddrError (IpAddr × ℕ)}
        (if l then ok (if scope == 0 then v6 b [] else v6 b y, port) else ok (v6 b [], port))
        (ok (v6 b z, port))
decoded6-v6 l b z y port scope h k = ground arith

pub wire_addr-mapped :
    (b z : List ℕ) → is_mapped b ≡ true → wire_addr (v6 b z) ≡ wire_addr (mapped_v4 b)
wire_addr-mapped b z m = rw m

pub wire_addr-unmapped : (b z : List ℕ) → is_mapped b ≡ false → wire_addr (v6 b z) ≡ v6 b z
wire_addr-unmapped b z u = rw u

-- An address reads back as itself.
abbrev ReadsBack : Platform → ℕ → ℕ → IpAddr → Type 0
ReadsBack p port scope ip = decoded6 p (as16 ip) port scope ≡ ok (ip, port)

-- The address that goes on the wire is read back, with the zone that its scope id stands for.
decoded6-wire :
    (p : Platform) (port scope : ℕ) (ip : IpAddr)
    → is_valid ip ≡ true
    → ScopeOf p scope ip
    → decoded6 p (as16 (wire_addr ip)) port scope ≡ ok (wire_addr ip, port)
decoded6-wire p port scope invalid v k = cc
decoded6-wire p port scope (v4 a b c d) v k = decoded6-v4 p port scope a b c d
decoded6-wire p port scope (v6 b z) v k = elim (Bool-cases (is_mapped b)) [
  | inl m ↦
      subst (ReadsBack p port scope) (sym (wire_addr-mapped b z m))
        (decoded6-v4 p port scope (get_or b 12 0) (get_or b 13 0) (get_or b 14 0) (get_or b 15 0))
  | inr u ↦ subst (ReadsBack p port scope) (sym (wire_addr-unmapped b z u)) (
      rw u (
        decoded6-v6 (link_local_bytes b) b z (zone_name p scope) port scope (zone_name-zero p scope)
          (plain u k)))
]
  where
    plain :
        is_mapped b ≡ false
        → ScopeOf p scope (v6 b z)
        → ((scope ≡ 0) × (z ≡ [])) ⊎ ((link_local_bytes b ≡ true) × (zone_name p scope ≡ z))
    plain u (inl none) = inl none
    plain u (inr (l, f, n)) = inr (rw (u, u) at l, n)

is_empty→nil : (z : List ℕ) → is_empty z ≡ true → z ≡ []
is_empty→nil [] h = refl
is_empty→nil (c ∷ z) h = cc

scope_id-ScopeOf :
    (p : Platform) (index : List ℕ → Option ℤ) (ip : IpAddr) (scope : ℕ)
    → NamesZone p index (zone ip)
    → scope_id index ip ≡ ok scope
    → (scope < 2 ^ 32) × ScopeOf p scope ip
unfolding scope_id
scope_id-ScopeOf p index ip scope named h = elim (Bool-cases (is_empty (zone ip))) [
  | inl none ↦ ground (arith, is_empty→nil (zone ip) none)
  | inr some ↦ ground (arith, named scope)
]

written6 :
    (e : Endian) (port scope : ℕ) (b : List ℕ)
    → length b ≡ 16
    → write_in6 e (replicate 28 0) port b scope ≡ ok (layout6 e port b scope, 28)
written6 e port scope = every_of_length 16 _ (write_layout6 e port scope)

read6 :
    (p : Platform) (port scope : ℕ)
    → port < 2 ^ 16
    → scope < 2 ^ 32
    → (b : List ℕ) → length b ≡ 16
    → decode_sockaddr_entry p (layout6 p.order port b scope) ≡ decoded6 p b port scope
read6 p port scope hp hs = every_of_length 16 _ (decode_layout6 p port scope hp hs)

length-as16_wire_v4 : (a b c d : ℕ) → length (as16 (wire_addr (v4 a b c d))) ≡ 16
length-as16_wire_v4 a b c d = ground arith

length-as16_wire : (ip : IpAddr) → IsWf ip → length (as16 (wire_addr ip)) ≡ 16
length-as16_wire invalid w = refl
length-as16_wire (v4 a b c d) w = length-as16_wire_v4 a b c d
length-as16_wire (v6 b z) w = elim (Bool-cases (is_mapped b)) [
  | inl m ↦
      rw (wire_addr-mapped b z m)
        (length-as16_wire_v4 (get_or b 12 0) (get_or b 13 0) (get_or b 14 0) (get_or b 15 0))
  | inr u ↦ rw (wire_addr-unmapped b z u) w
]

length-layout6 :
    (e : Endian) (port scope : ℕ) (b : List ℕ)
    → length b ≡ 16
    → length (layout6 e port b scope) ≡ 28
length-layout6 e port scope b h = ground (arith, h, length-append b (octets32 e scope))

-- What `encode_in6` returns, where it returns.
encode_in6-layout :
    (p : Platform) (index : List ℕ → Option ℤ) (port : ℕ) (ip : IpAddr) (chunk : List ℕ) (n : ℕ)
    → IsWf ip
    → NamesZone p index (zone ip)
    → encode_in6 p.order index (replicate 28 0) ip port ≡ ok (chunk, n)
    → (scope : ℕ) × (chunk ≡ layout6 p.order port (as16 (wire_addr ip)) scope)
      × (n ≡ 28)
      × (scope < 2 ^ 32)
      × ScopeOf p scope ip
unfolding encode_in6
encode_in6-layout p index port ip chunk n w named h =
    let (scope, scoped, written) = >>=-eq-ok (scope_id index ip) _ h in
    let made = written6 p.order port scope (as16 (wire_addr ip)) (length-as16_wire ip w) in
    let (small, of) = scope_id-ScopeOf p index ip scope named scoped in (scope, cc, cc, small, of)

-- An AF_INET6 entry reads back as the address that it was made from.
pub in6_round_trip :
    (p : Platform) (index : List ℕ → Option ℤ) (port : ℕ) (ip : IpAddr) (chunk : List ℕ) (n : ℕ)
    → IsWf ip
    → is_valid ip ≡ true
    → port < 2 ^ 16
    → NamesZone p index (zone ip)
    → encode_in6 p.order index (replicate 28 0) ip port ≡ ok (chunk, n)
    → (decode_sockaddr_entry p chunk ≡ ok (wire_addr ip, port))
      × (length chunk ≡ 28)
      × (peek16 p.order chunk 0 ≡ 10)
in6_round_trip p index port ip chunk n w v hp named h =
    let (scope, made, count, small, of) = encode_in6-layout p index port ip chunk n w named h in
    let long = length-as16_wire ip w in
    (
      rw made (
          read6 p port scope hp small (as16 (wire_addr ip)) long
          ∙ decoded6-wire p port scope ip v of),
      rw made (length-layout6 p.order port scope (as16 (wire_addr ip)) long),
      rw made (word16-octet p.order 10 (omega arith)),
    )
