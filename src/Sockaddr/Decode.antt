-- ===== src/Sockaddr/Decode.antt =====
-- sockaddr.go, the decoding half: one sockaddr, and the packed arrays that the kernel replies with.
pub mod Safety
use go_sctp.Common.{ℕ, zero, suc, ◌+◌, ◌/◌, ◌^◌, List, [], ◌∷◌, Bool, true}
use go_sctp.Common.{none, some, ltb, ◌==◌, if◌then◌else◌, length}
use go_sctp.Common.{get_or, Outcome, ok, err, panic, ◌>>=◌, ◌>>◌, refuse, ℤ, pos, negsuc}
use go_sctp.Bytes.{Endian, big, uint16, uint32, slice}
use go_sctp.Netip.{IpAddr, v4, v6, is4_in6, unmap, is_link_local_unicast, with_zone, format_uint}
use go_sctp.Platform.{
  Platform, WordSize, w32, w64, af_inet, af_inet6, size_sockaddr_in, size_sockaddr_in6,
}
use go_sctp.Sockaddr.{SockaddrError, negative_count, too_many, short_entry, unknown_entry_family}

-- `int(index)` is negative on a 32-bit target from 2^31 on, and is not looked up then.
abbrev index_fits : WordSize → ℕ → Bool
index_fits w32 i = ltb i (2 ^ 31)
index_fits w64 i = true

unfoldable pub zone_name : Platform → ℕ → List ℕ
zone_name p i =
    if i == 0 then [] else elim (if index_fits p.word i then p.interface_name i else none) [
      | some name ↦ name
      | none ↦ format_uint i
    ]

-- The size of the entry at `at`, which is a count of bytes and so never negative here.
unfoldable pub sockaddr_entry_size : Endian → List ℕ → ℕ → Outcome SockaddrError ℕ
unfolding uint16
sockaddr_entry_size e b at = do
  refuse (ltb (length b) (at + 2)) short_entry
  family ← uint16 e b at
  size ←
      (if family == af_inet
        then ok size_sockaddr_in
        else if family == af_inet6
        then ok size_sockaddr_in6
        else err unknown_entry_family)
  refuse (ltb (length b) (at + size)) short_entry
  ok size

abbrev addr_from4 : List ℕ → IpAddr
addr_from4 a = v4 (get_or a 0 0) (get_or a 1 0) (get_or a 2 0) (get_or a 3 0)

-- The AF_INET6 case.
decode_in6 : Platform → List ℕ → ℕ → Outcome SockaddrError (IpAddr × ℕ)
unfolding slice uint32
decode_in6 p b port = do
  a16 ← slice b 8 24
  if is4_in6 (v6 a16 [])
      then ok (unmap (v6 a16 []), port)
      else if is_link_local_unicast (v6 a16 [])
      then (do
        scope ← uint32 p.order b 24
        ok (if scope == 0 then v6 a16 [] else with_zone (v6 a16 []) (zone_name p scope), port))
      else ok (v6 a16 [], port)

unfoldable pub decode_sockaddr_entry : Platform → List ℕ → Outcome SockaddrError (IpAddr × ℕ)
unfolding uint16 slice decode_in6
decode_sockaddr_entry p b = do
  family ← uint16 p.order b 0
  port ← uint16 big b 2
  if family == af_inet then (do a4 ← slice b 4 8; ok (addr_from4 a4, port)) else decode_in6 p b port

unfoldable pub decode_addr : Platform → List ℕ → Outcome SockaddrError (IpAddr × ℕ)
unfolding slice
decode_addr p b = do
  size ← sockaddr_entry_size p.order b 0
  whole ← slice b 0 size
  decode_sockaddr_entry p whole

-- The first walk of `decodeAddrs`.
unfoldable pub check_entries : Endian → List ℕ → ℕ → ℕ → Outcome SockaddrError (Unit {0})
check_entries e b at zero = ok tt
check_entries e b at (suc n) = do size ← sockaddr_entry_size e b at; check_entries e b (at + size) n

-- The second walk drops the error of `sockaddrEntrySize`, whose size is 0 then.
abbrev pub size_or_zero : Outcome SockaddrError ℕ → ℕ
size_or_zero (ok size) = size
size_or_zero (err x) = 0
size_or_zero panic = 0

unfoldable pub decode_entries :
    Platform → List ℕ → ℕ → ℕ → ℕ → ℕ → Outcome SockaddrError (List IpAddr × ℕ)
decode_entries p b at i port zero = ok ([], port)
decode_entries p b at i port (suc n) = do
  let size = size_or_zero (sockaddr_entry_size p.order b at)
  bytes ← slice b at (at + size)
  (ip, q) ← decode_sockaddr_entry p bytes
  (ips, r) ← decode_entries p b (at + size) (i + 1) (if i == 0 then q else port) n
  ok (ip ∷ ips, r)

decode_counted : Platform → List ℕ → ℕ → Outcome SockaddrError (List IpAddr × ℕ)
decode_counted p b n = do
  refuse (ltb (length b / size_sockaddr_in) n) too_many
  check_entries p.order b 0 n
  decode_entries p b 0 0 0 n

unfoldable pub decode_addrs : Platform → List ℕ → ℤ → Outcome SockaddrError (List IpAddr × ℕ)
unfolding decode_counted
decode_addrs p b (negsuc n) = err negative_count
decode_addrs p b (pos zero) = ok ([], 0)
decode_addrs p b (pos (suc n)) = decode_counted p b (suc n)
