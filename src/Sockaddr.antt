-- ===== src/Sockaddr.antt =====
-- sockaddr.go: the codec of Linux sockaddr_in and sockaddr_in6, and zones as interface indexes.
-- `index` stands for the zone cache's lookup, `zoneIndexes.index`.
mod Examples
pub mod Decode
pub mod Layout
pub mod Packed
pub mod RoundTrip
pub mod Zones
use go_sctp.Common.{
  ℕ, zero, suc, ◌+◌, ◌-◌, ◌*◌, ◌/◌, ◌%◌, ◌^◌, List, [], ◌∷◌, ◌++◌, Bool, true, false,
}
use go_sctp.Common.{◌&&◌, ◌||◌, not, Option, none, some, ltb, leb, ◌==◌, if◌then◌else◌, length}
use go_sctp.Common.{get_or, replicate, Outcome, ok, err, panic, ◌>>=◌, ◌>>◌, refuse, ℤ, pos, negsuc}
use go_sctp.Bytes.{Endian, big, uint16, uint32, slice, put, octets16, octets32}
use go_sctp.Netip.{
  IpAddr, v4, v6, is_empty, is_valid, zone, is4, is4_in6, unmap, is_link_local_unicast, as4, as16,
  is_unspecified, ipv6_unspecified, with_zone, format_uint,
}
use go_sctp.Platform.{
  Platform, WordSize, w32, w64, af_inet, af_inet6, size_sockaddr_in, size_sockaddr_in6,
}

-- One constructor for each message; `entry i e` is the one that names the entry.
pub data SockaddrError : Type 0 where
  negative_count too_many short_entry unknown_entry_family : SockaddrError
  unknown_family zero_address zoned_ipv4_socket not_ipv4 buffer_small : SockaddrError
  zoned_ipv4 zoned_not_link_local zone_negative zone_unknown zone_zero : SockaddrError
  entry : ℕ → SockaddrError → SockaddrError

unfoldable pub sockaddr_size : ℕ → Outcome SockaddrError ℕ
sockaddr_size family =
    if family == af_inet
    then ok size_sockaddr_in
    else if family == af_inet6
    then ok size_sockaddr_in6
    else err unknown_family

-- `strconv.ParseUint(zone, 10, 32)`: `none` for a syntax error and for a value out of range.
parse_digits : ℕ → List ℕ → Option ℕ
parse_digits acc [] = some acc
parse_digits acc (c ∷ s) =
    let rest = parse_digits (acc * 10 + (c - 48)) s in if ltb c 48 || ltb 57 c then none else rest

parse_uint32 : List ℕ → Option ℕ
unfolding parse_digits
parse_uint32 [] = none
parse_uint32 (c ∷ s) = elim (parse_digits 0 (c ∷ s)) [
  | none ↦ none
  | some n ↦ if ltb n (2 ^ 32) then some n else none
]

decimal_zone : Option ℕ → Outcome SockaddrError ℕ
decimal_zone none = err zone_unknown
decimal_zone (some n) = if n == 0 then err zone_zero else ok n

named_zone : Option ℤ → List ℕ → Outcome SockaddrError ℕ
unfolding decimal_zone parse_uint32
named_zone (some (pos i)) z = ok (i % 2 ^ 32)
named_zone (some (negsuc i)) z = err zone_negative
named_zone none z = decimal_zone (parse_uint32 z)

unfoldable pub encode_zone : (List ℕ → Option ℤ) → List ℕ → Outcome SockaddrError ℕ
unfolding named_zone
encode_zone index z = if is_empty z then ok 0 else named_zone (index z) z

-- The AF_INET case: the new contents of `dst`, and the number of bytes written.
pub encode_in : Endian → List ℕ → IpAddr → ℕ → Outcome SockaddrError (List ℕ × ℕ)
unfolding put
encode_in e dst ip port = do
  refuse (not (is_empty (zone ip))) zoned_ipv4_socket
  refuse (not (is4 (unmap ip))) not_ipv4
  refuse (ltb (length dst) size_sockaddr_in) buffer_small
  with_family ← put dst 0 (octets16 e af_inet)
  with_port ← put with_family 2 (octets16 big port)
  with_addr ← put with_port 4 (as4 (unmap ip))
  whole ← put with_addr 8 (replicate 8 0)
  ok (whole, size_sockaddr_in)

-- The scope id of an AF_INET6 entry.
scope_id : (List ℕ → Option ℤ) → IpAddr → Outcome SockaddrError ℕ
unfolding encode_zone
scope_id index ip = if is_empty (zone ip) then ok 0 else do
  refuse (is4 (unmap ip)) zoned_ipv4
  refuse (not (is_link_local_unicast (unmap ip))) zoned_not_link_local
  encode_zone index (zone ip)

-- The address that goes on the wire of an AF_INET6 socket.
abbrev pub wire_addr : IpAddr → IpAddr
wire_addr ip = if is4 (unmap ip) && is_unspecified (unmap ip) then ipv6_unspecified else unmap ip

-- The writes of an AF_INET6 entry.
write_in6 : Endian → List ℕ → ℕ → List ℕ → ℕ → Outcome SockaddrError (List ℕ × ℕ)
unfolding put
write_in6 e dst port b16 scope = do
  with_family ← put dst 0 (octets16 e af_inet6)
  with_port ← put with_family 2 (octets16 big port)
  with_flow ← put with_port 4 (replicate 4 0)
  with_addr ← put with_flow 8 b16
  whole ← put with_addr 24 (octets32 e scope)
  ok (whole, size_sockaddr_in6)

pub encode_in6 :
    Endian → (List ℕ → Option ℤ) → List ℕ → IpAddr → ℕ → Outcome SockaddrError (List ℕ × ℕ)
unfolding scope_id write_in6
encode_in6 e index dst ip port = do
  refuse (ltb (length dst) size_sockaddr_in6) buffer_small
  scope ← scope_id index ip
  write_in6 e dst port (as16 (wire_addr ip)) scope

unfoldable pub encode_addr :
    Endian → (List ℕ → Option ℤ) → List ℕ → ℕ → IpAddr → ℕ → Outcome SockaddrError (List ℕ × ℕ)
unfolding encode_in encode_in6
encode_addr e index dst family ip port =
    if not (is_valid ip)
    then err zero_address
    else if family == af_inet
    then encode_in e dst ip port
    else if family == af_inet6
    then encode_in6 e index dst ip port
    else err unknown_family

-- The loop of `encodeAddrs`: the entries from number `i` on, each written into its own zeroed part
-- of the buffer.
encode_entries :
    Endian → (List ℕ → Option ℤ) → ℕ → ℕ → ℕ → ℕ → List IpAddr → Outcome SockaddrError (List ℕ)
encode_entries e index size family port i [] = ok []
encode_entries e index size family port i (ip ∷ ips) =
    elim (encode_addr e index (replicate size 0) family ip port) [
      | ok (chunk, n) ↦ do
        rest ← encode_entries e index size family port (i + 1) ips
        ok (chunk ++ rest)
      | err x ↦ err (entry i x)
      | panic ↦ panic
    ]

unfoldable pub encode_addrs :
    Endian → (List ℕ → Option ℤ) → ℕ → List IpAddr → ℕ → Outcome SockaddrError (List ℕ)
unfolding encode_entries sockaddr_size
encode_addrs e index family ips port = do
  size ← sockaddr_size family
  encode_entries e index size family port 0 ips
