-- ===== src/Platform.antt =====
-- abi.go: what the target and the host decide, which the package reads off constants and the net
-- package: the byte order, the word size, and the names of the interfaces.
use go_sctp.Common.{ℕ, List, Option}
use go_sctp.Bytes.{Endian}

pub data WordSize : Type 0 where
  w32 w64 : WordSize

-- `wordSize`, in bytes.
abbrev pub word_size : WordSize → ℕ
word_size w32 = 4
word_size w64 = 8

-- `interface_name i` is `net.InterfaceByIndex(i)`, with `none` for its error.
pub record Platform : Type 0 where
  pub order : Endian
  pub word : WordSize
  pub interface_name : ℕ → Option (List ℕ)

-- Address families and sockaddr sizes.
abbrev pub af_inet : ℕ
af_inet = 2

abbrev pub af_inet6 : ℕ
af_inet6 = 10

abbrev pub size_sockaddr_in : ℕ
size_sockaddr_in = 16

abbrev pub size_sockaddr_in6 : ℕ
size_sockaddr_in6 = 28

abbrev pub size_sockaddr_storage : ℕ
size_sockaddr_storage = 128
