-- ===== src/Config/Errors.antt =====
-- config.go, prepare: its refusals.
use go_sctp.Common.{ℕ, ◌==◌, not, ◌&&◌, ℤ, arith}
use go_sctp.Bytes.{Endian}
use go_sctp.Duration.{max_uint32}
use go_sctp.PrInfo.{is_zero_duration}
use go_sctp.Config.{
  Config, SocketStyle, Field, style_file, is_true, naming, resolve_fragment_interleave,
  op_read_buffer, op_write_buffer, op_authentication, op_partial_reliability,
  op_stream_reconfiguration, op_experimental_ecn, op_adaptation_layer, op_fragments_disabled,
  op_receive_nxt_info, op_no_delay,
}
use go_sctp.Config.Sections.{collect, early_ops}
use go_sctp.Config.Subscriptions.{build_subscriptions}
use go_sctp.Config.Prepare.{late_ops, prepare_socket, prepare_file_style, prepare}
use go_sctp.Duration.{resolve_close_timeout, unknown_value, not_applicable}
use go_sctp.Config.{f_abandon_policy, f_setup_rto_initial}
use go_sctp.Config.{is_dial, style_dial, style_listen, style_listen_endpoint, style_open_endpoint}
use go_sctp.Config.Prepare.{prepare_style, listed, check_unset, file_fields, listed}
use go_sctp.Config.{style_dial, style_listen, style_listen_endpoint, style_open_endpoint}
use go_sctp.Config.Prepare.{prepare_style, check_unset}
use go_sctp.Duration.{resolve_close_timeout, unknown_value, not_applicable}
use go_sctp.Config.{f_abandon_policy, f_setup_rto_initial}
use go_sctp.Config.Refusals.{
  IsRefusal, refusal_ok, resolve_close_timeout-panic, after_IsRefusal, naming-IsRefusal,
  refuse-IsRefusal, millis-IsRefusal, optional-IsRefusal, collect-IsRefusal, buffer_ops-IsRefusal,
  init_msg_ops-IsRefusal, interleave_ops-IsRefusal, hmac_ops-IsRefusal, chunk_ops-IsRefusal,
  dynamic_address_ops-IsRefusal, reset_mask_ops-IsRefusal, interleaving_ops-IsRefusal,
  rto_info_ops-IsRefusal, delayed_sack_ops-IsRefusal, reuse_port_ops-IsRefusal,
  default_snd_info_ops-IsRefusal, default_pr_info_ops-IsRefusal, build_subscriptions-IsRefusal,
  check_unset-IsRefusal, resolve_fragment_interleave-IsRefusal,
}

early_ops-IsRefusal : (c : Config) → IsRefusal c.fragment_interleave (collect (early_ops c))
unfolding early_ops
early_ops-IsRefusal c =
    let l = c.fragment_interleave in
    collect-IsRefusal l _ (
      refusal_ok,
      (
        buffer_ops-IsRefusal l Field.f_read_buffer op_read_buffer c.read_buffer,
        (
          buffer_ops-IsRefusal l Field.f_write_buffer op_write_buffer c.write_buffer,
          (init_msg_ops-IsRefusal l c.init_msg, tt),
        ),
      ),
    )

late_ops-IsRefusal :
    (e : Endian) (c : Config) (style : SocketStyle) (level : ℕ)
    → IsRefusal c.fragment_interleave (collect (late_ops e c style level))
unfolding late_ops
late_ops-IsRefusal e c style level =
    let l = c.fragment_interleave in
    collect-IsRefusal l _ (
      interleave_ops-IsRefusal l c.fragment_interleave style level,
      (
        optional-IsRefusal l op_authentication c.authentication,
        (
          hmac_ops-IsRefusal l (is_true c.authentication) c.hmac_identifiers,
          (
            chunk_ops-IsRefusal l (is_true c.authentication) c.auth_chunks,
            (
              dynamic_address_ops-IsRefusal l (is_true c.authentication)
                  c.dynamic_address_reconfiguration,
              (
                optional-IsRefusal l op_partial_reliability c.partial_reliability,
                (
                  optional-IsRefusal l op_stream_reconfiguration c.stream_reconfiguration,
                  (
                    reset_mask_ops-IsRefusal l (is_true c.stream_reconfiguration)
                        c.stream_reset_mask,
                    (
                      interleaving_ops-IsRefusal l c.message_interleaving level,
                      (
                        optional-IsRefusal l op_experimental_ecn c.experimental_ecn,
                        (
                          optional-IsRefusal l op_adaptation_layer c.adaptation_layer,
                          (
                            rto_info_ops-IsRefusal l c.rto_info,
                            (
                              delayed_sack_ops-IsRefusal l c.delayed_sack,
                              (
                                optional-IsRefusal l op_fragments_disabled c.fragments_disabled,
                                (
                                  reuse_port_ops-IsRefusal l c.reuse_port style,
                                  (
                                    optional-IsRefusal l op_receive_nxt_info c.receive_nxt_info,
                                    (
                                      optional-IsRefusal l op_no_delay c.no_delay,
                                      (
                                        default_snd_info_ops-IsRefusal l e c.default_snd_info,
                                        (default_pr_info_ops-IsRefusal l c.default_pr_info, tt),
                                      ),
                                    ),
                                  ),
                                ),
                              ),
                            ),
                          ),
                        ),
                      ),
                    ),
                  ),
                ),
              ),
            ),
          ),
        ),
      ),
    )

prepare_socket-IsRefusal :
    (e : Endian) (c : Config) (style : SocketStyle) (t : ℤ)
    → IsRefusal c.fragment_interleave (prepare_socket e c style t)
unfolding prepare_socket
prepare_socket-IsRefusal e c style t =
    let l = c.fragment_interleave in
    refuse-IsRefusal l (not (c.abandon_policy == 0) && not (c.abandon_policy == 1)) f_abandon_policy
      unknown_value _
      (refuse-IsRefusal l (not (c.abandon_policy == 0) && not (is_dial style)) f_abandon_policy
        not_applicable _
        (refuse-IsRefusal l (not (is_zero_duration c.setup_rto_initial) && not (is_dial style))
          f_setup_rto_initial not_applicable _
          (millis-IsRefusal l f_setup_rto_initial c.setup_rto_initial max_uint32 _ (omega arith)
            (λ _. after_IsRefusal l (collect (early_ops c)) _ (early_ops-IsRefusal c) (λ _.
              after_IsRefusal l (resolve_fragment_interleave l style) _
                (resolve_fragment_interleave-IsRefusal l style)
                (λ level.
                  after_IsRefusal l (collect (late_ops e c style level)) _
                    (late_ops-IsRefusal e c style level)
                    (λ _.
                      after_IsRefusal l (build_subscriptions 0 (listed c.notifications)) _
                        (build_subscriptions-IsRefusal l 0 (listed c.notifications))
                        (λ _. refusal_ok))))))))

prepare_style-IsRefusal :
    (e : Endian) (c : Config) (style : SocketStyle) (t : ℤ)
    → IsRefusal c.fragment_interleave (prepare_style e c style t)
unfolding prepare_style prepare_file_style
prepare_style-IsRefusal e c style_file t =
    after_IsRefusal c.fragment_interleave (check_unset (file_fields c)) _
      (check_unset-IsRefusal c.fragment_interleave (file_fields c)) (λ _. refusal_ok)
prepare_style-IsRefusal e c style_dial t = prepare_socket-IsRefusal e c style_dial t
prepare_style-IsRefusal e c style_listen t = prepare_socket-IsRefusal e c style_listen t
prepare_style-IsRefusal e c style_listen_endpoint t =
    prepare_socket-IsRefusal e c style_listen_endpoint t
prepare_style-IsRefusal e c style_open_endpoint t =
    prepare_socket-IsRefusal e c style_open_endpoint t

-- Whatever the Config and the style, `prepare` returns: it accepts, or it refuses with an error that
-- matches EINVAL, except that FragmentInterleave at the level of streams may be refused with
-- ErrUnsupported, and only this setting. It never panics.
pub prepare-IsRefusal :
    (e : Endian) (c : Config) (style : SocketStyle)
    → IsRefusal c.fragment_interleave (prepare e c style)
unfolding prepare
prepare-IsRefusal e c style =
    after_IsRefusal c.fragment_interleave
      (naming Field.f_close_timeout (resolve_close_timeout c.close_timeout)) _
      (naming-IsRefusal c.fragment_interleave Field.f_close_timeout
        (resolve_close_timeout c.close_timeout) (resolve_close_timeout-panic c.close_timeout))
      (prepare_style-IsRefusal e c style)
