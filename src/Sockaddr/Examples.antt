-- ===== src/Sockaddr/Examples.antt =====
-- The address theorems at two IPv4 addresses on an IPv6 socket, and the zone cache of a host with one card.
use go_sctp.Common.{
  ℕ, ◌+◌, ◌≤◌, ◌≡◌, ◌≢◌, ◌⊎◌, refl, List, [], ◌∷◌, Option, none, ok, panic, pos, arith, replicate,
  length, map, ℤ, ◌++◌, ◌<◌,
}
use go_sctp.Bytes.{little, peek16, uint16, word16, put, octet}
use mathlib.Core.Path.{subst}
use go_sctp.Platform.{Platform, w64}
use go_sctp.Netip.{v4}
use go_sctp.Sockaddr.{
  encode_addr, encode_addrs, encode_entries, sockaddr_size, encode_in, encode_in6, scope_id,
  write_in6, encode_zone,
}
use go_sctp.Sockaddr.Layout.{NamesZone}
use go_sctp.Sockaddr.Decode.{
  decode_sockaddr_entry, decode_addr, decode_addrs, sockaddr_entry_size, zone_name,
}
use go_sctp.Sockaddr.Decode.Safety.{
  decode_addrs-ne-panic, decode_addr-ne-panic, sockaddr_entry_size_fits,
}
use go_sctp.Sockaddr.RoundTrip.{reported, decode_sockaddr_entry-encode_addr}
use go_sctp.Sockaddr.Packed.{decode_addrs-encode_addrs}
use go_sctp.Sockaddr.Zones.{Interface, ZoneCache, table_of, index}
use go_sctp.Sockaddr.Zones.Laws.{Holds, lookup-table_of, index-lookup}
use go_sctp.Common.{some}

abbrev host : Platform
host = record { order = little; word = w64; interface_name = λ i. none }

abbrev no_interface : List ℕ → Option ℤ
no_interface name = none

abbrev mapped_entry : ℕ → List ℕ
mapped_entry last =
    10 ∷ 0 ∷ 150 ∷ 12 ∷ replicate 14 0 ++ (255 ∷ 255 ∷ 10 ∷ 0 ∷ 0 ∷ last ∷ replicate 4 0)

no_zone : NamesZone host no_interface []
unfolding encode_zone zone_name
no_zone s h =
    let q : 0 ≡ s = cc in
    subst (λ (k : ℕ). (k < 4294967296) × (zone_name host k ≡ [])) q (omega arith, refl)

decode_addrs-encode_addrs_example :
    decode_addrs host (mapped_entry 1 ++ mapped_entry 2) (pos 2)
    ≡ ok (map (reported 10) (v4 10 0 0 1 ∷ v4 10 0 0 2 ∷ []), 38412)
unfolding encode_addrs encode_entries encode_addr encode_in encode_in6 scope_id write_in6
    encode_zone sockaddr_size put octet
decode_addrs-encode_addrs_example =
    decode_addrs-encode_addrs host no_interface 10 38412 (v4 10 0 0 1) (v4 10 0 0 2 ∷ [])
      (mapped_entry 1 ++ mapped_entry 2) (omega arith) ((tt, no_zone), ((tt, no_zone), tt)) refl

decode_sockaddr_entry-encode_addr_example :
    (decode_sockaddr_entry host (mapped_entry 1) ≡ ok (reported 10 (v4 10 0 0 1), 38412))
    × (length (mapped_entry 1) ≡ 28)
    × (peek16 little (mapped_entry 1) 0 ≡ 10)
unfolding encode_addr encode_in encode_in6 scope_id write_in6 encode_zone sockaddr_size put octet
decode_sockaddr_entry-encode_addr_example =
    decode_sockaddr_entry-encode_addr host no_interface 10 28 38412 (v4 10 0 0 1) (mapped_entry 1)
      28 tt (omega arith) no_zone refl refl

decode_addrs-ne-panic_example : decode_addrs host (10 ∷ 0 ∷ 0 ∷ replicate 20 1) (pos 1) ≢ panic
decode_addrs-ne-panic_example = decode_addrs-ne-panic host (10 ∷ 0 ∷ 0 ∷ replicate 20 1) (pos 1)

decode_addr-ne-panic_example : decode_addr host (10 ∷ 0 ∷ 1 ∷ []) ≢ panic
decode_addr-ne-panic_example = decode_addr-ne-panic host (10 ∷ 0 ∷ 1 ∷ [])

sockaddr_entry_size_fits_example :
    (0 + 28 ≤ length (mapped_entry 1))
    × (((◌≡◌ {A = ℕ} 28 16) × (peek16 little (mapped_entry 1) 0 ≡ 2))
        ⊎ ((◌≡◌ {A = ℕ} 28 28) × (peek16 little (mapped_entry 1) 0 ≡ 10)))
unfolding sockaddr_entry_size uint16 word16
sockaddr_entry_size_fits_example = sockaddr_entry_size_fits little (mapped_entry 1) 0 28 refl

abbrev eth0 : List ℕ
eth0 = 101 ∷ 116 ∷ 104 ∷ 48 ∷ []

abbrev lo : List ℕ
lo = 108 ∷ 111 ∷ []

abbrev card : ℤ → Interface
card i = record { name = eth0; idx = i }

-- The host has recreated eth0 since the cache was read at instant 7.
abbrev read_at_7 : List Interface → ZoneCache
read_at_7 t = record { by_name = table_of t; fetched = some 7 }

abbrev two_interfaces : List Interface
two_interfaces = card (pos 2) ∷ record { name = lo; idx = pos 1 } ∷ []

index-lookup_example :
    ((index (λ z. z) (some two_interfaces) 21 20 lo (read_at_7 two_interfaces)).1 ≡ some (pos 1))
    × Holds two_interfaces
        (index (λ z. z) (some two_interfaces) 21 20 lo (read_at_7 two_interfaces)).0
index-lookup_example =
    index-lookup two_interfaces (λ z. z) (λ z h. h) 21 20 lo (read_at_7 two_interfaces)
      (λ n. lookup-table_of n two_interfaces)
