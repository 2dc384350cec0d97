-- ===== src/Options/Lists.antt =====
-- options.go: the option structs that end in a list.
use go_sctp.Common.{
  ℕ, zero, suc, ◌+◌, ◌-◌, ◌/◌, ◌%◌, ◌^◌, List, [], ◌∷◌, ◌++◌, not, ◌||◌, ltb, ◌==◌, if◌then◌else◌,
  length, and_not, Outcome, ok, err, ◌>>=◌, ◌>>◌, refuse,
}
use go_sctp.Bytes.{Endian, uint16, uint32, slice, octets16, octets32}
use go_sctp.Duration.{ArgError, is_zero, out_of_range, unknown_value}

-- Why a reply is refused.
pub data ReplyError : Type 0 where
  bad_size odd_size bad_count : ReplyError

-- `n` identifiers from position `at` on.
decode_idents : Endian → List ℕ → ℕ → ℕ → Outcome ReplyError (List ℕ)
decode_idents e b at zero = ok []
decode_idents e b at (suc n) = do
  id ← uint16 e b at
  rest ← decode_idents e b (at + 2) n
  ok (id ∷ rest)

unfoldable pub decode_hmac_idents : Endian → List ℕ → ℕ → Outcome ReplyError (List ℕ)
unfolding decode_idents
decode_hmac_idents e b n = do
  refuse (ltb n 4 || ltb (length b) n) bad_size
  refuse (not ((n - 4) % 2 == 0)) odd_size
  count ← uint32 e b 0
  refuse (not (count == (n - 4) / 2 % 2 ^ 32)) bad_count
  decode_idents e b 4 count

unfoldable pub decode_auth_chunks : Endian → List ℕ → ℕ → Outcome ReplyError (List ℕ)
decode_auth_chunks e b n = do
  refuse (ltb n 8 || ltb (length b) n) bad_size
  count ← uint32 e b 4
  refuse (not (count == (n - 8) % 2 ^ 32)) bad_count
  slice b 8 n

-- The struct and the secret behind it: `sca_keylength` is a uint16.
unfoldable pub encode_auth_key : Endian → ℕ → ℕ → List ℕ → Outcome ArgError (List ℕ)
encode_auth_key e assoc key secret =
    if length secret == 0
    then err is_zero
    else if ltb 65535 (length secret)
    then err out_of_range
    else ok (octets32 e assoc ++ (octets16 e key ++ (octets16 e (length secret) ++ secret)))

abbrev pub sid_octets : Endian → List ℕ → List ℕ
sid_octets e [] = []
sid_octets e (s ∷ ss) = octets16 e s ++ sid_octets e ss

-- ResetIncoming is 1, ResetOutgoing 2.
unfoldable pub encode_reset_streams : Endian → ℕ → ℕ → List ℕ → Outcome ArgError (List ℕ)
encode_reset_streams e assoc dir streams =
    if not (and_not dir 3 == 0)
    then err unknown_value
    else if dir == 0
    then err is_zero
    else if ltb 65535 (length streams)
    then err out_of_range
    else ok (
        octets32 e assoc
        ++ (octets16 e dir ++ (octets16 e (length streams) ++ sid_octets e streams)))
