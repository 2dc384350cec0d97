-- ===== src/Config/Validity.antt =====
-- config.go, prepare: every operation of an accepted Config is one the kernel takes.
use go_sctp.Config.Auth.{is_forbidden_chunk}
use go_sctp.Config.Subscriptions.{is_event_type}
use go_sctp.Common.{
  ◌≢◌, bit_or, ℕ, ◌==◌, ◌≤◌, ◌≡◌, ◌⊎◌, inl, inr, sym, ap, List, [], ◌∷◌, ◌++◌, Bool, true, false,
  not, ◌&&◌, Option, none, some, if◌then◌else◌, ℤ, ok, >>=-eq-ok, All, arith,
}
use mathlib.Core.Path.{subst}
use go_sctp.Bytes.{Endian}
use go_sctp.Duration.{duration_to_millis, max_uint32}
use go_sctp.PrInfo.{is_zero_duration}
use go_sctp.Config.{
  Config, ConfigOp, Prepared, SocketStyle, Field, style_file, is_endpoint, is_true, naming,
  resolve_fragment_interleave, op_recv_rcv_info, op_assoc_change, op_read_buffer, op_write_buffer,
  op_authentication, op_dynamic_address_reconfiguration, op_partial_reliability,
  op_stream_reconfiguration, op_experimental_ecn, op_adaptation_layer, op_fragments_disabled,
  op_receive_nxt_info, op_no_delay,
}
use go_sctp.Config.Sections.{collect, early_ops}
use go_sctp.Config.Subscriptions.{build_subscriptions, event_bit}
use go_sctp.Config.Prepare.{late_ops, prepare_socket, prepare_file_style, prepare}
use go_sctp.Config.Gives.{
  effective_level, IsAllowed, Gives, ok-Gives, optional-Gives, collect-Gives, ok-injective,
  refuse-eq-ok, All-append,
}
use go_sctp.Duration.{resolve_close_timeout}
use go_sctp.Config.{is_dial, style_dial, style_listen, style_listen_endpoint, style_open_endpoint}
use go_sctp.Config.Prepare.{prepare_style, listed, check_unset, file_fields}
use go_sctp.Config.Operations.{
  buffer_ops-Gives, init_msg_ops-Gives, interleave_ops-Gives, dynamic_address_ops-Gives,
  reset_mask_ops-Gives, rto_info_ops-Gives, delayed_sack_ops-Gives, reuse_port_ops-Gives,
  hmac_ops-Gives, chunk_ops-Gives, default_snd_info_ops-Gives, default_pr_info_ops-Gives,
  interleaving_ops-Gives, build_subscriptions-Gives,
}

-- What an accepted Config has passed.
abbrev pub Accepted : Endian → Config → SocketStyle → Prepared → Type 0
Accepted e c style p =
    (early : List ConfigOp) × (level : ℕ) × (late : List ConfigOp) × (s : List ConfigOp × ℕ)
    × (collect (early_ops c) ≡ ok early)
    × (resolve_fragment_interleave c.fragment_interleave style ≡ ok level)
    × (collect (late_ops e c style level) ≡ ok late)
    × (build_subscriptions 0 (listed c.notifications) ≡ ok s)
    × (p.ops ≡ early ++ (late ++ s.0))
    × (p.subscribed ≡ (if is_endpoint style then bit_or s.1 (event_bit 0x8001) else s.1))

pub prepare_socket-eq-ok :
    (e : Endian) (c : Config) (style : SocketStyle) (t : ℤ) (p : Prepared)
    → prepare_socket e c style t ≡ ok p
    → Accepted e c style p
unfolding prepare_socket
prepare_socket-eq-ok e c style t p h =
    let (_, h1) = refuse-eq-ok (not (c.abandon_policy == 0) && not (c.abandon_policy == 1)) _ _ h in
    let (_, h2) = refuse-eq-ok (not (c.abandon_policy == 0) && not (is_dial style)) _ _ h1 in
    let (_, h3) =
      refuse-eq-ok (not (is_zero_duration c.setup_rto_initial) && not (is_dial style)) _ _ h2 in
    let (_, _, h4) =
      >>=-eq-ok
        (naming Field.f_setup_rto_initial (duration_to_millis c.setup_rto_initial max_uint32)) _
        h3 in
    let (early, early_eq, h5) = >>=-eq-ok (collect (early_ops c)) _ h4 in
    let (level, level_eq, h6) =
      >>=-eq-ok (resolve_fragment_interleave c.fragment_interleave style) _ h5 in
    let (late, late_eq, h7) = >>=-eq-ok (collect (late_ops e c style level)) _ h6 in
    let (s, s_eq, h8) = >>=-eq-ok (build_subscriptions 0 (listed c.notifications)) _ h7 in
    let same = ok-injective _ _ h8 in
    (
      early,
      level,
      late,
      s,
      early_eq,
      level_eq,
      late_eq,
      s_eq,
      sym (ap (λ q. q.ops) same),
      sym (ap (λ q. q.subscribed) same),
    )

-- What the kernel allows of each operation; the operations of an accepted Config satisfy it.
module _ (c : Config) (style : SocketStyle) where
  abbrev Allowed : ConfigOp → Type 0
  Allowed = IsAllowed c style

  early_ops-Allowed : Gives Allowed (collect (early_ops c))
  unfolding early_ops
  early_ops-Allowed = collect-Gives Allowed _ (
    ok-Gives Allowed (op_recv_rcv_info ∷ op_assoc_change ∷ []) (tt, (tt, tt)),
    (
      buffer_ops-Gives Allowed Field.f_read_buffer op_read_buffer c.read_buffer (λ n h. h),
      (
        buffer_ops-Gives Allowed Field.f_write_buffer op_write_buffer c.write_buffer (λ n h. h),
        (init_msg_ops-Gives Allowed c.init_msg (λ ms h. h), tt),
      ),
    ),
  )

  asconf :
      (on : Bool)
      → on && not (is_true c.authentication) ≡ false
      → Allowed (op_dynamic_address_reconfiguration on)
  asconf true h = ground arith
  asconf false h = tt

  unforbidden :
      (ct : ℕ) → is_forbidden_chunk ct ≡ false → (ct ≢ 1) × (ct ≢ 2) × (ct ≢ 14) × (ct ≢ 15)
  unforbidden ct h = ground arith

  known_type : (t : ℕ) → is_event_type t ≡ true → (0x8001 ≤ t) × (t ≤ 0x800d) × (t ≢ 0x8003)
  known_type t h = ground arith

  late_ops-Allowed :
      (e : Endian) (level : ℕ)
      → level ≤ 1
      → level ≡ effective_level c.fragment_interleave style
      → Gives Allowed (collect (late_ops e c style level))
  unfolding late_ops
  late_ops-Allowed e level h same = collect-Gives Allowed _ (
    interleave_ops-Gives Allowed c.fragment_interleave style level h,
    (
      optional-Gives Allowed op_authentication c.authentication (λ _. tt),
      (
        hmac_ops-Gives Allowed (is_true c.authentication) c.hmac_identifiers (λ ids k. k),
        (
          chunk_ops-Gives Allowed (is_true c.authentication) c.auth_chunks
              (λ ct (on, k). let (a, b, d, f) = unforbidden ct k in (on, a, b, d, f)),
          (
            dynamic_address_ops-Gives Allowed (is_true c.authentication)
                c.dynamic_address_reconfiguration asconf,
            (
              optional-Gives Allowed op_partial_reliability c.partial_reliability (λ _. tt),
              (
                optional-Gives Allowed op_stream_reconfiguration c.stream_reconfiguration (λ _. tt),
                (
                  reset_mask_ops-Gives Allowed (is_true c.stream_reconfiguration)
                      c.stream_reset_mask (λ mask k. k),
                  (
                    interleaving_ops-Gives Allowed c.message_interleaving level
                        (λ k. inr (subst (λ n. 1 ≤ n) same k)),
                    (
                      optional-Gives Allowed op_experimental_ecn c.experimental_ecn (λ _. tt),
                      (
                        optional-Gives Allowed op_adaptation_layer c.adaptation_layer (λ _. tt),
                        (
                          rto_info_ops-Gives Allowed c.rto_info (λ i hi lo k. k),
                          (
                            delayed_sack_ops-Gives Allowed c.delayed_sack (λ delay f k. k),
                            (
                              optional-Gives Allowed op_fragments_disabled c.fragments_disabled
                                  (λ _. tt),
                              (
                                reuse_port_ops-Gives Allowed c.reuse_port style (λ on k. k),
                                (
                                  optional-Gives Allowed op_receive_nxt_info c.receive_nxt_info
                                      (λ _. tt),
                                  (
                                    optional-Gives Allowed op_no_delay c.no_delay (λ _. tt),
                                    (
                                      default_snd_info_ops-Gives Allowed e c.default_snd_info
                                          (λ _ _ _ _ k. k),
                                      (
                                        default_pr_info_ops-Gives Allowed c.default_pr_info
                                            (λ _ _ k. k),
                                        tt,
                                      ),
                                    ),
                                  ),
                                ),
                              ),
                            ),
                          ),
                        ),
                      ),
                    ),
                  ),
                ),
              ),
            ),
          ),
        ),
      ),
    ),
  )

resolve_fragment_interleave-le :
    (o : Option ℕ) (style : SocketStyle) (level : ℕ)
    → resolve_fragment_interleave o style ≡ ok level
    → level ≤ 1
unfolding resolve_fragment_interleave
resolve_fragment_interleave-le none style level h = ground arith
resolve_fragment_interleave-le (some n) style level h = ground arith

resolve_fragment_interleave-level :
    (o : Option ℕ) (style : SocketStyle) (level : ℕ)
    → resolve_fragment_interleave o style ≡ ok level
    → level ≡ effective_level o style
unfolding resolve_fragment_interleave
resolve_fragment_interleave-level none style level h = ground arith
resolve_fragment_interleave-level (some n) style level h = ground arith

prepare_socket-IsAllowed :
    (e : Endian) (c : Config) (style : SocketStyle) (t : ℤ) (p : Prepared)
    → prepare_socket e c style t ≡ ok p
    → All (IsAllowed c style) p.ops
prepare_socket-IsAllowed e c style t p h =
    let (early, level, late, s, early_eq, level_eq, late_eq, s_eq, ops_eq, _) =
      prepare_socket-eq-ok e c style t p h in
    subst (All (IsAllowed c style)) (sym ops_eq) (
      All-append _ early (late ++ s.0) (early_ops-Allowed c style early early_eq) (
        All-append _ late s.0
          (late_ops-Allowed c style e level
            (resolve_fragment_interleave-le c.fragment_interleave style level level_eq)
            (resolve_fragment_interleave-level c.fragment_interleave style level level_eq) late
            late_eq)
          (build_subscriptions-Gives (IsAllowed c style) 0 (listed c.notifications)
            (λ t k. known_type c style t k) s_eq)))

prepare_file_style-eq-ok :
    (c : Config) (t : ℤ) (p : Prepared)
    → prepare_file_style c t ≡ ok p
    → p.ops ≡ op_recv_rcv_info ∷ op_assoc_change ∷ []
unfolding prepare_file_style
prepare_file_style-eq-ok c t p h =
    let (_, _, q) = >>=-eq-ok (check_unset (file_fields c)) _ h in
    ap (λ p. p.ops) (sym (ok-injective _ _ q))

-- The way by which a Config has been accepted.
pub prepare-eq-ok :
    (e : Endian) (c : Config) (style : SocketStyle) (p : Prepared)
    → prepare e c style ≡ ok p
    → (p.ops ≡ op_recv_rcv_info ∷ op_assoc_change ∷ [])
      ⊎ ((t : ℤ) × (prepare_socket e c style t ≡ ok p))
unfolding prepare prepare_style
prepare-eq-ok e c style p h =
    by_style style
      (>>=-eq-ok (naming Field.f_close_timeout (resolve_close_timeout c.close_timeout)) _ h)
  where
    by_style :
        (style : SocketStyle)
        → (t : ℤ) × (naming Field.f_close_timeout (resolve_close_timeout c.close_timeout) ≡ ok t)
          × (prepare_style e c style t ≡ ok p)
        → (p.ops ≡ op_recv_rcv_info ∷ op_assoc_change ∷ [])
          ⊎ ((t : ℤ) × (prepare_socket e c style t ≡ ok p))
    by_style style_file (t, _, q) = inl (prepare_file_style-eq-ok c t p q)
    by_style style_dial (t, _, q) = inr (t, q)
    by_style style_listen (t, _, q) = inr (t, q)
    by_style style_listen_endpoint (t, _, q) = inr (t, q)
    by_style style_open_endpoint (t, _, q) = inr (t, q)

-- Every operation of an accepted Config, of any style, satisfies IsAllowed: a buffer size is positive
-- and fits an int32, an InitMsg timeout fits 16 bits, the interleave level is 0 or 1, HMAC
-- identifiers are known, distinct and include SHA-1, an AUTH chunk is not INIT, INIT ACK, SHUTDOWN
-- COMPLETE or AUTH, HMAC identifiers, AUTH chunks and ASCONF only stand beside Authentication, a reset
-- mask has no unknown bits and stands beside stream reconfiguration if it is not empty,
-- MessageInterleaving is on only at an effective interleave level of at least 1, the default send flags
-- are at most SendUnordered, the default policy is one of the four, without a value if it is none, a
-- minimum RTO is not above the maximum, if both are set, a SACK delay is at most 500 ms, ReusePort is
-- not set on an Endpoint, and a notification is of a known type.
pub prepare-IsAllowed :
    (e : Endian) (c : Config) (style : SocketStyle) (p : Prepared)
    → prepare e c style ≡ ok p
    → All (IsAllowed c style) p.ops
prepare-IsAllowed e c style p h = elim (prepare-eq-ok e c style p h) [
  | inl q ↦ subst (All (IsAllowed c style)) (sym q) (tt, (tt, tt))
  | inr (t, q) ↦ prepare_socket-IsAllowed e c style t p q
]
