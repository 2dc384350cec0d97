-- ===== src/Config/Auth.antt =====
-- config.go, prepare: the HMAC identifiers and the AUTH chunk types.
use go_sctp.Common.{
  ℕ, ◌+◌, ◌==◌, List, [], ◌∷◌, map, Bool, false, not, ◌&&◌, ◌||◌, Option, none, some, if◌then◌else◌,
  ltb, length, Outcome, ok, ◌>>◌, refuse,
}
use go_sctp.Duration.{unknown_value, not_applicable, out_of_range}
use go_sctp.Config.{
  ConfigOp, ConfigError, invalid_arg, f_hmac_identifiers, f_auth_chunks, op_hmac_identifiers,
  op_auth_chunk,
}

abbrev pub hmac_sha1 : ℕ
hmac_sha1 = 1

abbrev pub hmac_sha256 : ℕ
hmac_sha256 = 3

abbrev pub chunk_type_asconf : ℕ
chunk_type_asconf = 0xC1

abbrev pub chunk_type_asconf_ack : ℕ
chunk_type_asconf_ack = 0x80

abbrev pub sctp_auth_max_chunks : ℕ
sctp_auth_max_chunks = 16

-- INIT, INIT-ACK, SHUTDOWN-COMPLETE and AUTH.
abbrev pub is_forbidden_chunk : ℕ → Bool
is_forbidden_chunk ct = ct == 1 || ct == 2 || ct == 14 || ct == 15

-- `seen[x]`, for the keys stored so far.
abbrev pub contains : ℕ → List ℕ → Bool
contains x [] = false
contains x (y ∷ ys) = x == y || contains x ys

-- The loops over the entries: `seen` holds those before.
unfoldable pub check_hmacs : List ℕ → List ℕ → Outcome ConfigError Unit
check_hmacs seen [] = ok tt
check_hmacs seen (id ∷ ids) = do
  refuse (not (id == hmac_sha1) && not (id == hmac_sha256))
      (invalid_arg f_hmac_identifiers unknown_value)
  refuse (contains id seen) (invalid_arg f_hmac_identifiers not_applicable)
  check_hmacs (id ∷ seen) ids

unfoldable pub check_chunks : List ℕ → List ℕ → Outcome ConfigError Unit
check_chunks seen [] = ok tt
check_chunks seen (ct ∷ cts) = do
  refuse (is_forbidden_chunk ct) (invalid_arg f_auth_chunks not_applicable)
  refuse (contains ct seen) (invalid_arg f_auth_chunks not_applicable)
  check_chunks (ct ∷ seen) cts

unfoldable pub hmac_ops : Bool → Option (List ℕ) → Outcome ConfigError (List ConfigOp)
hmac_ops auth none = ok []
hmac_ops auth (some ids) = do
  refuse (not auth) (invalid_arg f_hmac_identifiers not_applicable)
  check_hmacs [] ids
  refuse (not (contains hmac_sha1 ids)) (invalid_arg f_hmac_identifiers not_applicable)
  ok (op_hmac_identifiers ids ∷ [])

-- ASCONF and ASCONF-ACK, which Linux adds by itself, are always counted.
abbrev pub effective_count : List ℕ → ℕ
effective_count cts =
    length cts
    + (if contains chunk_type_asconf cts then 0 else 1)
    + (if contains chunk_type_asconf_ack cts then 0 else 1)

unfoldable pub chunk_ops : Bool → Option (List ℕ) → Outcome ConfigError (List ConfigOp)
chunk_ops auth none = ok []
chunk_ops auth (some cts) = do
  refuse (not auth) (invalid_arg f_auth_chunks not_applicable)
  check_chunks [] cts
  refuse (ltb sctp_auth_max_chunks (effective_count cts)) (invalid_arg f_auth_chunks out_of_range)
  ok (map op_auth_chunk cts)
