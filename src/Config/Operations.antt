-- ===== src/Config/Operations.antt =====
-- What each section of `prepare` gives.
use go_sctp.Common.{
  ◌≢◌, bit_or, ℕ, ◌==◌, ◌≤◌, ◌<◌, ◌^◌, ◌≡◌, ◌⊎◌, inl, inr, refl, List, [], ◌∷◌, map, Bool, true,
  false, not, ◌&&◌, Option, none, some, if◌then◌else◌, ltb, and_not, ℤ, pos, negsuc, ok, >>=-eq-ok,
  All, if_cases, arith,
}
use mathlib.Core.Path.{subst}
use go_sctp.Bytes.{Endian}
use go_sctp.Duration.{duration_to_millis, buffer_size_arg, max_uint32}
use go_sctp.Duration.Laws.{millis_to_duration-duration_to_millis}
use go_sctp.PrInfo.{
  resolve_pr_info, SndInfo, PrInfo, validate_default_snd_info, validate_pr_info, is_zero_duration,
}
use go_sctp.Config.{
  ConfigOp, SocketStyle, Field, is_endpoint, is_some, naming, interleave_assocs, op_init_msg,
  op_fragment_interleave, op_hmac_identifiers, op_auth_chunk, op_dynamic_address_reconfiguration,
  op_stream_reset_mask, op_message_interleaving, op_rto_info, op_delayed_sack, op_reuse_port,
  op_default_snd_info, op_default_pr_info, op_notification,
}
use go_sctp.Options.{InitMsg, RtoInfo, DelayedSack, max_sack_delay_ms}
use go_sctp.Config.Auth.{
  hmac_ops, chunk_ops, contains, check_hmacs, check_chunks, is_forbidden_chunk, effective_count,
  sctp_auth_max_chunks, hmac_sha1,
}
use go_sctp.Config.Sections.{
  buffer_ops, init_msg_ops, interleave_ops, dynamic_address_ops, reset_mask_ops, interleaving_ops,
  rto_info_ops, delayed_sack_ops, reuse_port_ops, default_snd_info_ops, default_pr_info_ops,
  is_unset,
}
use go_sctp.Config.Subscriptions.{build_subscriptions, is_event_type, has, event_bit}
use go_sctp.Config.Gives.{
  IsDistinct, Gives, ok-Gives, after-Gives, refuse-Gives, ok-injective, naming-eq-ok, zero_millis,
  check_hmacs-eq-ok, check_chunks-eq-ok, refuse-eq-ok,
}

-- For each section: a predicate that holds of each operation under what the section has checked holds of
-- all that the section gives.
module _ (P : ConfigOp → Type 0) where
  pub buffer_ops-Gives :
      (f : Field) (op : ℕ → ConfigOp) (o : Option ℤ)
      → ((n : ℕ) → (1 ≤ n) × (n < 2 ^ 31) → P (op n))
      → Gives P (buffer_ops f op o)
  unfolding buffer_ops buffer_size_arg
  buffer_ops-Gives f op none h = ok-Gives P [] tt
  buffer_ops-Gives f op (some v) h =
      after-Gives P (naming f (buffer_size_arg v)) _ (λ n q.
        ok-Gives P (op n ∷ []) (h n (sized v n (naming-eq-ok f (buffer_size_arg v) n q)), tt))
    where
      sized : (v : ℤ) (n : ℕ) → buffer_size_arg v ≡ ok n → (1 ≤ n) × (n < 2 ^ 31)
      sized (pos v) n q = ground arith
      sized (negsuc v) n q = cc

  pub init_msg_ops-Gives :
      (m : InitMsg)
      → ((ms : ℕ) → ms < 2 ^ 16 → P (op_init_msg m.out_streams m.max_in_streams m.max_attempts ms))
      → Gives P (init_msg_ops m)
  unfolding init_msg_ops
  init_msg_ops-Gives m h =
      if_cases (Gives P) (is_unset m) (λ _. ok-Gives P [] tt)
        (λ _.
          after-Gives P (naming Field.f_init_msg (duration_to_millis m.max_init_timeout 65535)) _
            (λ ms q.
              let (_, bound) = millis_to_duration-duration_to_millis m.max_init_timeout 65535 ms (
                naming-eq-ok Field.f_init_msg (duration_to_millis m.max_init_timeout 65535) ms q) in
              ok-Gives P (op_init_msg m.out_streams m.max_in_streams m.max_attempts ms ∷ [])
                (h ms (omega (arith, bound)), tt)))

  pub interleave_ops-Gives :
      (setting : Option ℕ) (style : SocketStyle) (level : ℕ)
      → P (op_fragment_interleave level)
      → Gives P (interleave_ops setting style level)
  unfolding interleave_ops
  interleave_ops-Gives setting style level h =
      if_cases (Gives P) (is_some setting)
        (λ _. ok-Gives P (op_fragment_interleave level ∷ []) (h, tt))
        (λ _.
          if_cases (Gives P) (is_endpoint style)
            (λ _. ok-Gives P (op_fragment_interleave level ∷ []) (h, tt)) (λ _. ok-Gives P [] tt))

  pub dynamic_address_ops-Gives :
      (auth : Bool) (o : Option Bool)
      → ((on : Bool) → on && not auth ≡ false → P (op_dynamic_address_reconfiguration on))
      → Gives P (dynamic_address_ops auth o)
  unfolding dynamic_address_ops
  dynamic_address_ops-Gives auth none h = ok-Gives P [] tt
  dynamic_address_ops-Gives auth (some on) h =
      refuse-Gives P (on && not auth) _ _
        (λ q. ok-Gives P (op_dynamic_address_reconfiguration on ∷ []) (h on q, tt))

  pub reset_mask_ops-Gives :
      (on : Bool) (o : Option ℕ)
      → ((mask : ℕ)
          → (and_not mask 7 ≡ 0) × ((mask ≡ 0) ⊎ (on ≡ true))
          → P (op_stream_reset_mask mask))
      → Gives P (reset_mask_ops on o)
  unfolding reset_mask_ops
  reset_mask_ops-Gives on none h = ok-Gives P [] tt
  reset_mask_ops-Gives on (some mask) h = refuse-Gives P (not (and_not mask 7 == 0)) _ _ (λ k.
      refuse-Gives P (not (mask == 0) && not on) _ _
        (λ q. ok-Gives P (op_stream_reset_mask mask ∷ []) (h mask (ground arith, needs on q), tt)))
    where
      needs : (on : Bool) → not (mask == 0) && not on ≡ false → (mask ≡ 0) ⊎ (on ≡ true)
      needs true q = inr refl
      needs false q = ground arith

  pub rto_info_ops-Gives :
      (o : Option RtoInfo)
      → ((i hi lo : ℕ) → (lo ≡ 0) ⊎ ((hi ≡ 0) ⊎ (lo ≤ hi)) → P (op_rto_info i hi lo))
      → Gives P (rto_info_ops o)
  unfolding rto_info_ops
  rto_info_ops-Gives none h = ok-Gives P [] tt
  rto_info_ops-Gives (some r) h =
      after-Gives P (naming Field.f_rto_info (duration_to_millis r.initial max_uint32)) _ (λ i _.
        after-Gives P (naming Field.f_rto_info (duration_to_millis r.maximum max_uint32)) _ (λ hi p.
          after-Gives P (naming Field.f_rto_info (duration_to_millis r.minimum max_uint32)) _
            (λ lo q.
              refuse-Gives P
                (not (is_zero_duration r.minimum) && not (is_zero_duration r.maximum) && ltb hi lo)
                _ _
                (λ k. ok-Gives P (op_rto_info i hi lo ∷ []) (
                  h i hi lo (
                      ordered hi lo p q (is_zero_duration r.minimum) (is_zero_duration r.maximum)
                        refl refl k),
                  tt,
                )))))
    where
      ordered :
          (hi lo : ℕ)
          → naming Field.f_rto_info (duration_to_millis r.maximum max_uint32) ≡ ok hi
          → naming Field.f_rto_info (duration_to_millis r.minimum max_uint32) ≡ ok lo
          → (x y : Bool) → is_zero_duration r.minimum ≡ x
          → is_zero_duration r.maximum ≡ y
          → not x && not y && ltb hi lo ≡ false
          → (lo ≡ 0) ⊎ ((hi ≡ 0) ⊎ (lo ≤ hi))
      ordered hi lo p q true y x_eq y_eq k =
          inl (zero_millis r.minimum max_uint32 lo x_eq (naming-eq-ok _ _ lo q))
      ordered hi lo p q false true x_eq y_eq k =
          inr (inl (zero_millis r.maximum max_uint32 hi y_eq (naming-eq-ok _ _ hi p)))
      ordered hi lo p q false false x_eq y_eq k = inr (inr (ground arith))

  pub delayed_sack_ops-Gives :
      (o : Option DelayedSack)
      → ((delay f : ℕ) → delay ≤ 500 → P (op_delayed_sack delay f))
      → Gives P (delayed_sack_ops o)
  unfolding delayed_sack_ops
  delayed_sack_ops-Gives none h = ok-Gives P [] tt
  delayed_sack_ops-Gives (some d) h =
      after-Gives P (naming Field.f_delayed_sack (duration_to_millis d.delay max_uint32)) _
        (λ delay _. refuse-Gives P (ltb max_sack_delay_ms delay) _ _ (λ q.
          ok-Gives P (op_delayed_sack delay d.frequency ∷ [])
            (h delay d.frequency (ground arith), tt)))

  pub reuse_port_ops-Gives :
      (o : Option Bool) (style : SocketStyle)
      → ((on : Bool) → is_endpoint style ≡ false → P (op_reuse_port on))
      → Gives P (reuse_port_ops o style)
  unfolding reuse_port_ops
  reuse_port_ops-Gives none style h = ok-Gives P [] tt
  reuse_port_ops-Gives (some on) style h =
      refuse-Gives P (is_endpoint style) _ _ (λ q. ok-Gives P (op_reuse_port on ∷ []) (h on q, tt))

  pub hmac_ops-Gives :
      (auth : Bool) (o : Option (List ℕ))
      → ((ids : List ℕ)
          → (auth ≡ true)
            × (contains hmac_sha1 ids ≡ true)
            × All (λ id. (id ≡ 1) ⊎ (id ≡ 3)) ids
            × IsDistinct ids
          → P (op_hmac_identifiers ids))
      → Gives P (hmac_ops auth o)
  unfolding hmac_ops
  hmac_ops-Gives auth none h = ok-Gives P [] tt
  hmac_ops-Gives auth (some ids) h = refuse-Gives P (not auth) _ _ (λ on.
      after-Gives P (check_hmacs [] ids) _ (λ _ p.
        refuse-Gives P (not (contains hmac_sha1 ids)) _ _ (λ sha1.
          ok-Gives P (op_hmac_identifiers ids ∷ []) (
            let (named, _, distinct) = check_hmacs-eq-ok [] ids p in
                h ids (ground arith, ground arith, named, distinct),
            tt,
          ))))

  pub chunk_ops-Gives :
      (auth : Bool) (o : Option (List ℕ))
      → ((ct : ℕ) → (auth ≡ true) × (is_forbidden_chunk ct ≡ false) → P (op_auth_chunk ct))
      → Gives P (chunk_ops auth o)
  unfolding chunk_ops
  chunk_ops-Gives auth none h = ok-Gives P [] tt
  chunk_ops-Gives auth (some cts) h = refuse-Gives P (not auth) _ _ (λ on.
      after-Gives P (check_chunks [] cts) _ (λ _ p.
        refuse-Gives P (ltb sctp_auth_max_chunks (effective_count cts)) _ _ (λ _.
          ok-Gives P (map op_auth_chunk cts)
            (each (ground arith) cts (check_chunks-eq-ok [] cts p)))))
    where
      each :
          auth ≡ true
          → (cts : List ℕ) → All (λ ct. is_forbidden_chunk ct ≡ false) cts
          → All P (map op_auth_chunk cts)
      each on [] hs = tt
      each on (ct ∷ cts) (k, hs) = (h ct (on, k), each on cts hs)

  pub default_snd_info_ops-Gives :
      (e : Endian) (o : Option SndInfo)
      → ((a b x y : ℕ) → and_not b 1 ≡ 0 → P (op_default_snd_info a b x y))
      → Gives P (default_snd_info_ops e o)
  unfolding default_snd_info_ops validate_default_snd_info
  default_snd_info_ops-Gives e none h = ok-Gives P [] tt
  default_snd_info_ops-Gives e (some i) h =
      after-Gives P (naming Field.f_default_snd_info (validate_default_snd_info i)) _
        (λ _ q. ok-Gives P (_ ∷ []) (h _ _ _ _ (known (naming-eq-ok _ _ _ q)), tt))
    where
      known : validate_default_snd_info i ≡ ok tt → and_not i.flags 1 ≡ 0
      known q = ground arith

  pub default_pr_info_ops-Gives :
      (o : Option PrInfo)
      → ((a b : ℕ) → (and_not a 0x30 ≡ 0) × ((a ≢ 0) ⊎ (b ≡ 0)) → P (op_default_pr_info a b))
      → Gives P (default_pr_info_ops o)
  unfolding default_pr_info_ops validate_pr_info resolve_pr_info
  default_pr_info_ops-Gives none h = ok-Gives P [] tt
  default_pr_info_ops-Gives (some i) h =
      after-Gives P (naming Field.f_default_pr_info (validate_pr_info i)) _
        (λ _ q. ok-Gives P (_ ∷ []) (h _ _ (known (naming-eq-ok _ _ _ q)), tt))
    where
      known :
          validate_pr_info i ≡ ok tt
          → (and_not (resolve_pr_info i).0 0x30 ≡ 0)
            × (((resolve_pr_info i).0 ≢ 0) ⊎ ((resolve_pr_info i).1 ≡ 0))
      known q = ground arith

  pub interleaving_ops-Gives :
      (on : Bool) (level : ℕ)
      → (interleave_assocs ≤ level → P (op_message_interleaving true))
      → Gives P (interleaving_ops on level)
  unfolding interleaving_ops
  interleaving_ops-Gives false level h = ok-Gives P [] tt
  interleaving_ops-Gives true level h =
      refuse-Gives P (ltb level interleave_assocs) _ _
        (λ q. ok-Gives P (op_message_interleaving true ∷ []) (h (ground arith), tt))

  pub build_subscriptions-Gives :
      (s : ℕ) (ts : List ℕ) {r : List ConfigOp × ℕ}
      → ((t : ℕ) → is_event_type t ≡ true → P (op_notification t))
      → build_subscriptions s ts ≡ ok r
      → All P r.0
  unfolding build_subscriptions
  build_subscriptions-Gives s [] h q = subst (λ r. All P r.0) (ok-injective _ _ q) tt
  build_subscriptions-Gives s (t ∷ ts) {r} h q =
      let (known, p) = refuse-eq-ok (not (is_event_type t)) _ _ q in
      let (rest, k, w) =
        >>=-eq-ok (build_subscriptions (if has s t then s else bit_or s (event_bit t)) ts) _ p in
      let later : All P rest.0 =
        build_subscriptions-Gives (if has s t then s else bit_or s (event_bit t)) ts h k in
      subst (λ r. All P r.0) (ok-injective _ _ w)
        (if_cases (λ (r : List ConfigOp × ℕ). All P r.0) (has s t) (λ _. later)
          (λ _. (h t (ground arith), later)))
