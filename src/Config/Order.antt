-- ===== src/Config/Order.antt =====
-- config.go, prepare: the order of the operations.
use go_sctp.Common.{ℕ, ◌≡◌, inl, inr, refl, sym, ◌∙◌, List, [], ◌∷◌, ◌++◌, ok, All, arith}
use mathlib.Core.Path.{subst}
use mathlib.Core.List.{append_assoc}
use go_sctp.Bytes.{Endian}
use go_sctp.Config.{
  Config, ConfigOp, Prepared, SocketStyle, Field, is_true, op_recv_rcv_info, op_assoc_change,
  op_read_buffer, op_write_buffer, op_authentication, op_partial_reliability,
  op_stream_reconfiguration, op_experimental_ecn, op_adaptation_layer, op_fragments_disabled,
  op_receive_nxt_info, op_no_delay,
}
use go_sctp.Config.Sections.{Ops, collect, early_ops}
use go_sctp.Config.Prepare.{late_ops, prepare}
use go_sctp.Config.Gives.{optional-Gives, ok-injective}
use go_sctp.Config.Prepare.{listed}
use go_sctp.Config.Operations.{
  buffer_ops-Gives, init_msg_ops-Gives, interleave_ops-Gives, dynamic_address_ops-Gives,
  reset_mask_ops-Gives, rto_info_ops-Gives, delayed_sack_ops-Gives, reuse_port_ops-Gives,
  hmac_ops-Gives, chunk_ops-Gives, default_snd_info_ops-Gives, default_pr_info_ops-Gives,
  interleaving_ops-Gives, build_subscriptions-Gives,
}
use go_sctp.Config.Gives.{All-map}
use go_sctp.Config.Validity.{prepare-eq-ok, prepare_socket-eq-ok}
use go_sctp.Config.Sorted.{
  collect-IsOrdered, later-Within, join-IsOrdered, same-IsOrdered, IsOrdered, Within, Rises, K,
  one_kind, rises_end, rises_section,
}

first_two-IsOrdered :
    (ops : List ConfigOp)
    → ◌≡◌ {A = Ops} (ok (op_recv_rcv_info ∷ op_assoc_change ∷ [])) (ok ops)
    → IsOrdered ops × All (Within 0 1) ops
first_two-IsOrdered ops q =
    subst (λ ops. IsOrdered ops × All (Within 0 1) ops)
      (ok-injective (op_recv_rcv_info ∷ op_assoc_change ∷ []) ops q)
      (
        ((omega arith, tt), (tt, tt)),
        ((omega arith, omega arith), ((omega arith, omega arith), tt)),
      )

early_ops-Rises : (c : Config) → Rises 0 4 (early_ops c)
unfolding early_ops
early_ops-Rises c =
    rises_section 1 (omega arith, first_two-IsOrdered)
      (rises_section 2
        (one_kind 1 2 _ refl
          (buffer_ops-Gives (K 2) Field.f_read_buffer op_read_buffer c.read_buffer (λ _ _. refl)))
        (rises_section 3
          (one_kind 2 3 _ refl (
            buffer_ops-Gives (K 3) Field.f_write_buffer op_write_buffer c.write_buffer
              (λ _ _. refl)))
          (rises_section 4 (one_kind 3 4 _ refl (init_msg_ops-Gives (K 4) c.init_msg (λ _ _. refl)))
            (rises_end (omega arith)))))

late_ops-Rises :
    (e : Endian) (c : Config) (style : SocketStyle) (level : ℕ)
    → Rises 4 23 (late_ops e c style level)
unfolding late_ops
late_ops-Rises e c style level =
    rises_section 5
      (one_kind 4 5 _ refl (interleave_ops-Gives (K 5) c.fragment_interleave style level refl))
      (rises_section 6
        (one_kind 5 6 _ refl (optional-Gives (K 6) op_authentication c.authentication (λ _. refl)))
        (rises_section 7
          (one_kind 6 7 _ refl
            (hmac_ops-Gives (K 7) (is_true c.authentication) c.hmac_identifiers (λ _ _. refl)))
          (rises_section 8
            (one_kind 7 8 _ refl
              (chunk_ops-Gives (K 8) (is_true c.authentication) c.auth_chunks (λ _ _. refl)))
            (rises_section 9
              (one_kind 8 9 _ refl (
                dynamic_address_ops-Gives (K 9) (is_true c.authentication)
                  c.dynamic_address_reconfiguration (λ _ _. refl)))
              (rises_section 10
                (one_kind 9 10 _ refl
                  (optional-Gives (K 10) op_partial_reliability c.partial_reliability (λ _. refl)))
                (rises_section 11
                  (one_kind 10 11 _ refl (
                    optional-Gives (K 11) op_stream_reconfiguration c.stream_reconfiguration
                      (λ _. refl)))
                  (rises_section 12
                    (one_kind 11 12 _ refl (
                      reset_mask_ops-Gives (K 12) (is_true c.stream_reconfiguration)
                        c.stream_reset_mask (λ _ _. refl)))
                    (rises_section 13
                      (one_kind 12 13 _ refl
                        (interleaving_ops-Gives (K 13) c.message_interleaving level (λ _. refl)))
                      (rises_section 14
                        (one_kind 13 14 _ refl (
                          optional-Gives (K 14) op_experimental_ecn c.experimental_ecn (λ _. refl)))
                        (rises_section 15
                          (one_kind 14 15 _ refl (
                            optional-Gives (K 15) op_adaptation_layer c.adaptation_layer
                              (λ _. refl)))
                          (rises_section 16
                            (one_kind 15 16 _ refl
                              (rto_info_ops-Gives (K 16) c.rto_info (λ _ _ _ _. refl)))
                            (rises_section 17
                              (one_kind 16 17 _ refl
                                (delayed_sack_ops-Gives (K 17) c.delayed_sack (λ _ _ _. refl)))
                              (rises_section 18
                                (one_kind 17 18 _ refl (
                                  optional-Gives (K 18) op_fragments_disabled c.fragments_disabled
                                    (λ _. refl)))
                                (rises_section 19
                                  (one_kind 18 19 _ refl
                                    (reuse_port_ops-Gives (K 19) c.reuse_port style (λ _ _. refl)))
                                  (rises_section 20
                                    (one_kind 19 20 _ refl (
                                      optional-Gives (K 20) op_receive_nxt_info c.receive_nxt_info
                                        (λ _. refl)))
                                    (rises_section 21
                                      (one_kind 20 21 _ refl
                                        (optional-Gives (K 21) op_no_delay c.no_delay (λ _. refl)))
                                      (rises_section 22
                                        (one_kind 21 22 _ refl (
                                          default_snd_info_ops-Gives (K 22) e c.default_snd_info
                                            (λ _ _ _ _ _. refl)))
                                        (rises_section 23
                                          (one_kind 22 23 _ refl (
                                            default_pr_info_ops-Gives (K 23) c.default_pr_info
                                              (λ _ _ _. refl)))
                                          (rises_end (omega arith))))))))))))))))))))

-- Everything before the notifications, of kinds up to 23.
pub settings-IsOrdered :
    (e : Endian) (c : Config) (style : SocketStyle) (level : ℕ) (early late : List ConfigOp)
    → collect (early_ops c) ≡ ok early
    → collect (late_ops e c style level) ≡ ok late
    → IsOrdered (early ++ late) × All (Within 0 23) (early ++ late)
settings-IsOrdered e c style level early late early_eq late_eq =
    join-IsOrdered 0 4 23 early late
      (collect-IsOrdered 0 4 (early_ops c) (early_ops-Rises c) early early_eq)
      (collect-IsOrdered 4 23 (late_ops e c style level) (late_ops-Rises e c style level) late
        late_eq)
      (omega arith) (omega arith)

-- The operations of an accepted Config stand in the order of their kinds, in which they are applied.
pub prepare-IsOrdered :
    (e : Endian) (c : Config) (style : SocketStyle) (p : Prepared)
    → prepare e c style ≡ ok p
    → IsOrdered p.ops
prepare-IsOrdered e c style p h = elim (prepare-eq-ok e c style p h) [
  | inl q ↦ subst IsOrdered (sym q) (first_two-IsOrdered _ refl).0
  | inr (t, q) ↦
      (let (early, level, late, s, early_eq, level_eq, late_eq, s_eq, ops_eq, _) =
          prepare_socket-eq-ok e c style t p q in
        let notifications : All (Within 24 24) s.0 =
          build_subscriptions-Gives (Within 24 24) 0 (listed c.notifications)
            (λ t k. (omega arith, omega arith)) s_eq in
        let one : IsOrdered s.0 × All (Within 24 24) s.0 = (
          same-IsOrdered 24 s.0
              (All-map (Within 24 24) (K 24) (λ op k. omega arith) s.0 notifications),
          notifications,
        ) in
        subst IsOrdered (sym (ops_eq ∙ sym (append_assoc early late s.0)))
          (join-IsOrdered 0 23 24 (early ++ late) s.0
            (settings-IsOrdered e c style level early late early_eq late_eq)
            (one.0, later-Within 23 24 24 (omega arith) s.0 notifications) (omega arith)
            (omega arith)).0)
]
