-- ===== src/Netip.antt =====
-- What the package uses of net/netip and strconv: addresses, their predicates, and decimal text.
-- Texts (zones, interface names) are lists of bytes.
use go_sctp.Common.{ℕ, zero, suc, ◌+◌, ◌/◌, ◌%◌, List, [], ◌∷◌, ◌++◌, Bool, true, false, ◌&&◌}
use go_sctp.Common.{◌==◌, if◌then◌else◌, get_or, replicate, bit_and}

-- `netip.Addr`: the zero value, an IPv4 address of four bytes, or an IPv6 address of sixteen bytes
-- with a zone.
pub data IpAddr : Type 0 where
  invalid : IpAddr
  v4 : ℕ → ℕ → ℕ → ℕ → IpAddr
  v6 : List ℕ → List ℕ → IpAddr

abbrev pub is_empty : List ℕ → Bool
is_empty [] = true
is_empty (c ∷ s) = false

abbrev pub all_zero : ℕ → List ℕ → Bool
all_zero zero b = true
all_zero (suc n) b = get_or b n 0 == 0 && all_zero n b

abbrev pub is_valid : IpAddr → Bool
is_valid invalid = false
is_valid (v4 _ _ _ _) = true
is_valid (v6 _ _) = true

abbrev pub zone : IpAddr → List ℕ
zone (v6 _ z) = z
zone _ = []

abbrev pub is4 : IpAddr → Bool
is4 (v4 _ _ _ _) = true
is4 _ = false

abbrev pub is6 : IpAddr → Bool
is6 (v6 _ _) = true
is6 _ = false

-- ::ffff:0:0/96
abbrev pub is_mapped : List ℕ → Bool
is_mapped b = all_zero 10 b && get_or b 10 0 == 255 && get_or b 11 0 == 255

abbrev pub is4_in6 : IpAddr → Bool
is4_in6 (v6 b _) = is_mapped b
is4_in6 _ = false

abbrev pub mapped_v4 : List ℕ → IpAddr
mapped_v4 b = v4 (get_or b 12 0) (get_or b 13 0) (get_or b 14 0) (get_or b 15 0)

abbrev pub unmap : IpAddr → IpAddr
unmap (v6 b z) = if is_mapped b then mapped_v4 b else v6 b z
unmap ip = ip

-- 169.254.0.0/16 and fe80::/10; a mapped address is judged by the IPv4 address in it.
abbrev pub link_local_bytes : List ℕ → Bool
link_local_bytes b = get_or b 0 0 == 0xfe && bit_and (get_or b 1 0) 0xc0 == 0x80

abbrev pub is_link_local_unicast : IpAddr → Bool
is_link_local_unicast invalid = false
is_link_local_unicast (v4 a b c d) = a == 169 && b == 254
is_link_local_unicast (v6 b z) =
    if is_mapped b then get_or b 12 0 == 169 && get_or b 13 0 == 254 else link_local_bytes b

abbrev pub as4 : IpAddr → List ℕ
as4 (v4 a b c d) = a ∷ b ∷ c ∷ d ∷ []
as4 _ = replicate 4 0

abbrev pub map_prefix : List ℕ
map_prefix = 0 ∷ 0 ∷ 0 ∷ 0 ∷ 0 ∷ 0 ∷ 0 ∷ 0 ∷ 0 ∷ 0 ∷ 255 ∷ 255 ∷ []

abbrev pub as16 : IpAddr → List ℕ
as16 invalid = replicate 16 0
as16 (v4 a b c d) = map_prefix ++ (a ∷ b ∷ c ∷ d ∷ [])
as16 (v6 b z) = b

abbrev pub is_unspecified : IpAddr → Bool
is_unspecified (v4 a b c d) = a == 0 && b == 0 && c == 0 && d == 0
is_unspecified (v6 b z) = all_zero 16 b && is_empty z
is_unspecified invalid = false

abbrev pub ipv6_unspecified : IpAddr
ipv6_unspecified = v6 (replicate 16 0) []

-- `WithZone`, which leaves an address that is not IPv6 alone.
abbrev pub with_zone : IpAddr → List ℕ → IpAddr
with_zone (v6 b _) z = v6 b z
with_zone ip z = ip

-- `strconv.FormatUint(n, 10)` for a uint32: ten digits at most.
format_loop : ℕ → ℕ → List ℕ → List ℕ
format_loop zero n acc = acc
format_loop (suc f) n acc =
    let digit = 48 + n % 10 in
    let rest = format_loop f (n / 10) (digit ∷ acc) in if n == 0 then acc else rest

unfoldable pub format_uint : ℕ → List ℕ
unfolding format_loop
format_uint n = if n == 0 then 48 ∷ [] else format_loop 10 n []
