-- ===== src/Config/Refusals.antt =====
-- config.go, prepare: what a refusal of each section is.
use go_sctp.Common.{
  bit_or, ℕ, ◌==◌, ◌≤◌, ◌≡◌, ◌≢◌, refl, List, [], ◌∷◌, Bool, true, false, not, ◌&&◌, ◌||◌, Option,
  none, some, if◌then◌else◌, ltb, and_not, ℤ, pos, negsuc, Outcome, ok, err, panic, ◌>>=◌, refuse,
  All, if_cases, arith,
}
use mathlib.Core.Path.{subst}
use go_sctp.Bytes.{Endian}
use go_sctp.Duration.{ArgError, duration_to_millis, buffer_size_arg, max_uint32}
use go_sctp.PrInfo.{SndInfo, PrInfo, validate_default_snd_info, validate_pr_info, is_zero_duration}
use go_sctp.Config.{
  ConfigOp, ConfigError, SocketStyle, Field, is_endpoint, is_some, naming, invalid_arg, unsupported,
  resolve_fragment_interleave, interleave_assocs,
}
use go_sctp.Options.{InitMsg, RtoInfo, DelayedSack, max_sack_delay_ms}
use go_sctp.Config.Auth.{
  hmac_ops, chunk_ops, contains, check_hmacs, check_chunks, is_forbidden_chunk, effective_count,
  sctp_auth_max_chunks, hmac_sha1,
}
use go_sctp.Config.Sections.{
  Ops, collect, optional, buffer_ops, init_msg_ops, interleave_ops, dynamic_address_ops,
  reset_mask_ops, interleaving_ops, rto_info_ops, delayed_sack_ops, reuse_port_ops,
  default_snd_info_ops, default_pr_info_ops, is_unset,
}
use go_sctp.Config.Subscriptions.{build_subscriptions, is_event_type, has, event_bit}
use go_sctp.Duration.{resolve_close_timeout, unknown_value, not_applicable, out_of_range}
use go_sctp.Config.{
  f_hmac_identifiers, f_auth_chunks, f_stream_reset_mask, f_dynamic_address_reconfiguration,
  f_message_interleaving, f_rto_info, f_delayed_sack, f_reuse_port, f_notifications,
}
use go_sctp.Config.Auth.{hmac_sha256}
use go_sctp.Config.Prepare.{check_unset}
use go_sctp.Config.Prepare.{check_unset}
use go_sctp.Duration.{resolve_close_timeout, unknown_value, not_applicable, out_of_range}
use go_sctp.Config.{
  f_hmac_identifiers, f_auth_chunks, f_stream_reset_mask, f_dynamic_address_reconfiguration,
  f_message_interleaving, f_rto_info, f_delayed_sack, f_reuse_port, f_notifications,
}
use go_sctp.Config.Auth.{hmac_sha256}

-- Accepted, or refused with an error that matches EINVAL, or, at the level that Linux cannot deliver, with
-- one that matches ErrUnsupported.
pub data IsRefusal {A : Type 0} : Option ℕ → Outcome ConfigError A → Type 0 where
  refusal_ok : {l : Option ℕ} {a : A} → IsRefusal l (ok a)
  refusal_invalid : {l : Option ℕ} {f : Field} {e : ArgError} → IsRefusal l (err (invalid_arg f e))
  refusal_unsupported : IsRefusal (some 2) (err (unsupported Field.f_fragment_interleave))

pub duration_to_millis-panic :
    (d : ℤ) (limit : ℕ) → limit ≤ max_uint32 → duration_to_millis d limit ≢ panic
unfolding duration_to_millis
duration_to_millis-panic (pos d) limit h q = ground arith
duration_to_millis-panic (negsuc d) limit h q = ground arith

pub buffer_size_arg-panic : (v : ℤ) → buffer_size_arg v ≢ panic
unfolding buffer_size_arg
buffer_size_arg-panic (pos v) q = ground arith
buffer_size_arg-panic (negsuc v) q = ground arith

pub validate_default_snd_info-panic : (i : SndInfo) → validate_default_snd_info i ≢ panic
unfolding validate_default_snd_info
validate_default_snd_info-panic i q = ground arith

pub validate_pr_info-panic : (i : PrInfo) → validate_pr_info i ≢ panic
unfolding validate_pr_info
validate_pr_info-panic i q = ground arith

pub resolve_close_timeout-panic : (d : ℤ) → resolve_close_timeout d ≢ panic
unfolding resolve_close_timeout
resolve_close_timeout-panic (pos d) q = ground arith
resolve_close_timeout-panic (negsuc d) q = ground arith

pub after_IsRefusal :
    {A B : Type 0} (l : Option ℕ) (m : Outcome ConfigError A) (f : A → Outcome ConfigError B)
    → IsRefusal l m
    → ((a : A) → IsRefusal l (f a))
    → IsRefusal l (m >>= f)
after_IsRefusal l (ok a) f h k = k a
after_IsRefusal l (err x) f refusal_invalid k = refusal_invalid
after_IsRefusal l (err x) f refusal_unsupported k = refusal_unsupported
after_IsRefusal l panic f h k = elim h [ ]

module _ (l : Option ℕ) where
  pub naming-IsRefusal :
      {A : Type 0} (n : Field) (m : Outcome ArgError A) → m ≢ panic → IsRefusal l (naming n m)
  naming-IsRefusal n (ok a) h = refusal_ok
  naming-IsRefusal n (err e) h = refusal_invalid
  naming-IsRefusal n panic h = elim (h refl) [ ]

  pub refuse-IsRefusal :
      {A : Type 0} (b : Bool) (n : Field) (e : ArgError) (m : Outcome ConfigError A)
      → IsRefusal l m
      → IsRefusal l (refuse b (invalid_arg n e) >>= λ _. m)
  refuse-IsRefusal true n e m h = refusal_invalid
  refuse-IsRefusal false n e m h = h

  pub millis-IsRefusal :
      {A : Type 0} (n : Field) (d : ℤ) (limit : ℕ) (f : ℕ → Outcome ConfigError A)
      → limit ≤ max_uint32
      → ((ms : ℕ) → IsRefusal l (f ms))
      → IsRefusal l (naming n (duration_to_millis d limit) >>= f)
  millis-IsRefusal n d limit f h k =
      after_IsRefusal l (naming n (duration_to_millis d limit)) f
        (naming-IsRefusal n _ (duration_to_millis-panic d limit h)) k

  pub optional-IsRefusal :
      {A : Type 0} (op : A → ConfigOp) (o : Option A) → IsRefusal l (optional op o)
  optional-IsRefusal op none = refusal_ok
  optional-IsRefusal op (some a) = refusal_ok

  pub collect-IsRefusal : (ms : List Ops) → All (IsRefusal l) ms → IsRefusal l (collect ms)
  unfolding collect
  collect-IsRefusal [] h = refusal_ok
  collect-IsRefusal (m ∷ ms) (h, hs) =
      after_IsRefusal l m _ h
        (λ _. after_IsRefusal l (collect ms) _ (collect-IsRefusal ms hs) (λ _. refusal_ok))

  pub buffer_ops-IsRefusal :
      (n : Field) (op : ℕ → ConfigOp) (o : Option ℤ) → IsRefusal l (buffer_ops n op o)
  unfolding buffer_ops
  buffer_ops-IsRefusal n op none = refusal_ok
  buffer_ops-IsRefusal n op (some v) =
      after_IsRefusal l (naming n (buffer_size_arg v)) _
        (naming-IsRefusal n _ (buffer_size_arg-panic v)) (λ _. refusal_ok)

  pub init_msg_ops-IsRefusal : (m : InitMsg) → IsRefusal l (init_msg_ops m)
  unfolding init_msg_ops
  init_msg_ops-IsRefusal m =
      if_cases (λ (x : Ops). IsRefusal l x) (is_unset m) (λ _. refusal_ok)
        (λ _.
          millis-IsRefusal Field.f_init_msg m.max_init_timeout 65535 _ (omega arith)
            (λ _. refusal_ok))

  pub interleave_ops-IsRefusal :
      (setting : Option ℕ) (style : SocketStyle) (level : ℕ)
      → IsRefusal l (interleave_ops setting style level)
  unfolding interleave_ops
  interleave_ops-IsRefusal setting style level =
      if_cases (λ (x : Ops). IsRefusal l x) (is_some setting) (λ _. refusal_ok)
        (λ _.
          if_cases (λ (x : Ops). IsRefusal l x) (is_endpoint style) (λ _. refusal_ok)
            (λ _. refusal_ok))

  pub check_hmacs-IsRefusal : (seen ids : List ℕ) → IsRefusal l (check_hmacs seen ids)
  unfolding check_hmacs
  check_hmacs-IsRefusal seen [] = refusal_ok
  check_hmacs-IsRefusal seen (id ∷ ids) =
      refuse-IsRefusal (not (id == hmac_sha1) && not (id == hmac_sha256)) f_hmac_identifiers
        unknown_value _
        (refuse-IsRefusal (contains id seen) f_hmac_identifiers not_applicable _
          (check_hmacs-IsRefusal (id ∷ seen) ids))

  pub check_chunks-IsRefusal : (seen cts : List ℕ) → IsRefusal l (check_chunks seen cts)
  unfolding check_chunks
  check_chunks-IsRefusal seen [] = refusal_ok
  check_chunks-IsRefusal seen (ct ∷ cts) =
      refuse-IsRefusal (is_forbidden_chunk ct) f_auth_chunks not_applicable _ (
        refuse-IsRefusal (contains ct seen) f_auth_chunks not_applicable _
          (check_chunks-IsRefusal (ct ∷ seen) cts))

  pub hmac_ops-IsRefusal : (auth : Bool) (o : Option (List ℕ)) → IsRefusal l (hmac_ops auth o)
  unfolding hmac_ops
  hmac_ops-IsRefusal auth none = refusal_ok
  hmac_ops-IsRefusal auth (some ids) =
      refuse-IsRefusal (not auth) f_hmac_identifiers not_applicable _ (
        after_IsRefusal l (check_hmacs [] ids) _ (check_hmacs-IsRefusal [] ids) (λ _.
          refuse-IsRefusal (not (contains hmac_sha1 ids)) f_hmac_identifiers not_applicable _
            refusal_ok))

  pub chunk_ops-IsRefusal : (auth : Bool) (o : Option (List ℕ)) → IsRefusal l (chunk_ops auth o)
  unfolding chunk_ops
  chunk_ops-IsRefusal auth none = refusal_ok
  chunk_ops-IsRefusal auth (some cts) = refuse-IsRefusal (not auth) f_auth_chunks not_applicable _ (
      after_IsRefusal l (check_chunks [] cts) _ (check_chunks-IsRefusal [] cts) (λ _.
        refuse-IsRefusal (ltb sctp_auth_max_chunks (effective_count cts)) f_auth_chunks out_of_range
          _ refusal_ok))

  pub dynamic_address_ops-IsRefusal :
      (auth : Bool) (o : Option Bool) → IsRefusal l (dynamic_address_ops auth o)
  unfolding dynamic_address_ops
  dynamic_address_ops-IsRefusal auth none = refusal_ok
  dynamic_address_ops-IsRefusal auth (some on) =
      refuse-IsRefusal (on && not auth) f_dynamic_address_reconfiguration not_applicable _
        refusal_ok

  pub reset_mask_ops-IsRefusal : (on : Bool) (o : Option ℕ) → IsRefusal l (reset_mask_ops on o)
  unfolding reset_mask_ops
  reset_mask_ops-IsRefusal on none = refusal_ok
  reset_mask_ops-IsRefusal on (some mask) =
      refuse-IsRefusal (not (and_not mask 7 == 0)) f_stream_reset_mask unknown_value _ (
        refuse-IsRefusal (not (mask == 0) && not on) f_stream_reset_mask not_applicable _
          refusal_ok)

  pub interleaving_ops-IsRefusal : (on : Bool) (level : ℕ) → IsRefusal l (interleaving_ops on level)
  unfolding interleaving_ops
  interleaving_ops-IsRefusal false level = refusal_ok
  interleaving_ops-IsRefusal true level =
      refuse-IsRefusal (ltb level interleave_assocs) f_message_interleaving not_applicable _
        refusal_ok

  pub rto_info_ops-IsRefusal : (o : Option RtoInfo) → IsRefusal l (rto_info_ops o)
  unfolding rto_info_ops
  rto_info_ops-IsRefusal none = refusal_ok
  rto_info_ops-IsRefusal (some r) = millis-IsRefusal _ r.initial max_uint32 _ (omega arith) (λ i.
      millis-IsRefusal _ r.maximum max_uint32 _ (omega arith) (λ hi.
        millis-IsRefusal _ r.minimum max_uint32 _ (omega arith) (λ lo.
          refuse-IsRefusal
            (not (is_zero_duration r.minimum) && not (is_zero_duration r.maximum) && ltb hi lo)
            f_rto_info out_of_range _ refusal_ok)))

  pub delayed_sack_ops-IsRefusal : (o : Option DelayedSack) → IsRefusal l (delayed_sack_ops o)
  unfolding delayed_sack_ops
  delayed_sack_ops-IsRefusal none = refusal_ok
  delayed_sack_ops-IsRefusal (some d) =
      millis-IsRefusal _ d.delay max_uint32 _ (omega arith) (λ delay.
        refuse-IsRefusal (ltb max_sack_delay_ms delay) f_delayed_sack out_of_range _ refusal_ok)

  pub reuse_port_ops-IsRefusal :
      (o : Option Bool) (style : SocketStyle) → IsRefusal l (reuse_port_ops o style)
  unfolding reuse_port_ops
  reuse_port_ops-IsRefusal none style = refusal_ok
  reuse_port_ops-IsRefusal (some on) style =
      refuse-IsRefusal (is_endpoint style) f_reuse_port not_applicable _ refusal_ok

  pub default_snd_info_ops-IsRefusal :
      (e : Endian) (o : Option SndInfo) → IsRefusal l (default_snd_info_ops e o)
  unfolding default_snd_info_ops
  default_snd_info_ops-IsRefusal e none = refusal_ok
  default_snd_info_ops-IsRefusal e (some i) =
      after_IsRefusal l (naming Field.f_default_snd_info (validate_default_snd_info i)) _
        (naming-IsRefusal _ _ (validate_default_snd_info-panic i)) (λ _. refusal_ok)

  pub default_pr_info_ops-IsRefusal : (o : Option PrInfo) → IsRefusal l (default_pr_info_ops o)
  unfolding default_pr_info_ops
  default_pr_info_ops-IsRefusal none = refusal_ok
  default_pr_info_ops-IsRefusal (some i) =
      after_IsRefusal l (naming Field.f_default_pr_info (validate_pr_info i)) _
        (naming-IsRefusal _ _ (validate_pr_info-panic i)) (λ _. refusal_ok)

  pub build_subscriptions-IsRefusal : (s : ℕ) (ts : List ℕ) → IsRefusal l (build_subscriptions s ts)
  unfolding build_subscriptions
  build_subscriptions-IsRefusal s [] = refusal_ok
  build_subscriptions-IsRefusal s (t ∷ ts) =
      refuse-IsRefusal (not (is_event_type t)) f_notifications unknown_value _ (
        after_IsRefusal l (build_subscriptions (if has s t then s else bit_or s (event_bit t)) ts) _
          (build_subscriptions-IsRefusal (if has s t then s else bit_or s (event_bit t)) ts)
          (λ _. refusal_ok))

  pub check_unset-IsRefusal : (fs : List (Field × Bool)) → IsRefusal l (check_unset fs)
  unfolding check_unset
  check_unset-IsRefusal [] = refusal_ok
  check_unset-IsRefusal ((f, set) ∷ fs) =
      refuse-IsRefusal set f not_applicable _ (check_unset-IsRefusal fs)

pub resolve_fragment_interleave-IsRefusal :
    (l : Option ℕ) (style : SocketStyle) → IsRefusal l (resolve_fragment_interleave l style)
unfolding resolve_fragment_interleave
resolve_fragment_interleave-IsRefusal none style = refusal_ok
resolve_fragment_interleave-IsRefusal (some n) style =
    if_cases (λ (x : Outcome ConfigError ℕ). IsRefusal (some n) x) (n == 0 || n == 1)
      (λ _. refusal_ok)
      (λ _.
        if_cases (λ (x : Outcome ConfigError ℕ). IsRefusal (some n) x) (n == 2) (λ h. refuses n h)
          (λ _. refusal_invalid))
  where
    same : (n : ℕ) → (n == 2) ≡ true → 2 ≡ n
    same n h = ground arith

    refuses :
        (n : ℕ)
        → (n == 2) ≡ true
        → IsRefusal {A = ℕ} (some n) (err (unsupported Field.f_fragment_interleave))
    refuses n h =
        subst (λ n. IsRefusal {A = ℕ} (some n) (err (unsupported Field.f_fragment_interleave)))
          (same n h) refusal_unsupported
