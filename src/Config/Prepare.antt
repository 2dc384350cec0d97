-- ===== src/Config/Prepare.antt =====
-- config.go, prepare and prepareFileStyle.
use go_sctp.Common.{
  ℕ, ◌==◌, List, [], ◌∷◌, ◌++◌, Bool, true, false, not, ◌&&◌, Option, none, some, if◌then◌else◌,
  bit_or, Outcome, ok, ◌>>=◌, ◌>>◌, refuse, ℤ,
}
use go_sctp.Bytes.{Endian}
use go_sctp.Duration.{
  unknown_value, not_applicable, duration_to_millis, resolve_close_timeout, max_uint32,
}
use go_sctp.PrInfo.{is_zero_duration}
use go_sctp.Config.{
  Config, ConfigError, Prepared, SocketStyle, Field, is_endpoint, is_dial, is_some, is_true, naming,
  invalid_arg, resolve_fragment_interleave, interleave_none, style_file, f_close_timeout,
  f_abandon_policy, f_setup_rto_initial, op_recv_rcv_info, op_assoc_change, op_authentication,
  op_partial_reliability, op_stream_reconfiguration, op_experimental_ecn, op_adaptation_layer,
  op_fragments_disabled, op_receive_nxt_info, op_no_delay,
}
use go_sctp.Config.Auth.{hmac_ops, chunk_ops}
use go_sctp.Config.Sections.{
  Ops, collect, optional, early_ops, is_unset, interleave_ops, dynamic_address_ops, reset_mask_ops,
  interleaving_ops, rto_info_ops, delayed_sack_ops, reuse_port_ops, default_snd_info_ops,
  default_pr_info_ops,
}
use go_sctp.Config.Subscriptions.{build_subscriptions, event_bit}

-- What comes after the level is resolved, up to the notifications.
unfoldable pub late_ops : Endian → Config → SocketStyle → ℕ → List Ops
late_ops e c style level =
    interleave_ops c.fragment_interleave style level
    ∷ optional op_authentication c.authentication
    ∷ hmac_ops (is_true c.authentication) c.hmac_identifiers
    ∷ chunk_ops (is_true c.authentication) c.auth_chunks
    ∷ dynamic_address_ops (is_true c.authentication) c.dynamic_address_reconfiguration
    ∷ optional op_partial_reliability c.partial_reliability
    ∷ optional op_stream_reconfiguration c.stream_reconfiguration
    ∷ reset_mask_ops (is_true c.stream_reconfiguration) c.stream_reset_mask
    ∷ interleaving_ops c.message_interleaving level
    ∷ optional op_experimental_ecn c.experimental_ecn
    ∷ optional op_adaptation_layer c.adaptation_layer
    ∷ rto_info_ops c.rto_info
    ∷ delayed_sack_ops c.delayed_sack
    ∷ optional op_fragments_disabled c.fragments_disabled
    ∷ reuse_port_ops c.reuse_port style
    ∷ optional op_receive_nxt_info c.receive_nxt_info
    ∷ optional op_no_delay c.no_delay
    ∷ default_snd_info_ops e c.default_snd_info
    ∷ default_pr_info_ops c.default_pr_info
    ∷ []

-- The fields that a Config for an adopted descriptor may not set, with whether they are set.
abbrev pub file_fields : Config → List (Field × Bool)
file_fields c =
    (Field.f_control, c.control)
    ∷ (Field.f_abandon_policy, not (c.abandon_policy == 0))
    ∷ (Field.f_setup_rto_initial, not (is_zero_duration c.setup_rto_initial))
    ∷ (Field.f_init_msg, not (is_unset c.init_msg))
    ∷ (Field.f_adaptation_layer, is_some c.adaptation_layer)
    ∷ (Field.f_hmac_identifiers, is_some c.hmac_identifiers)
    ∷ (Field.f_auth_chunks, is_some c.auth_chunks)
    ∷ (Field.f_partial_reliability, is_some c.partial_reliability)
    ∷ (Field.f_stream_reconfiguration, is_some c.stream_reconfiguration)
    ∷ (Field.f_dynamic_address_reconfiguration, is_some c.dynamic_address_reconfiguration)
    ∷ (Field.f_authentication, is_some c.authentication)
    ∷ (Field.f_experimental_ecn, is_some c.experimental_ecn)
    ∷ (Field.f_message_interleaving, c.message_interleaving)
    ∷ (Field.f_read_buffer, is_some c.read_buffer)
    ∷ (Field.f_write_buffer, is_some c.write_buffer)
    ∷ (Field.f_no_delay, is_some c.no_delay)
    ∷ (Field.f_default_snd_info, is_some c.default_snd_info)
    ∷ (Field.f_default_pr_info, is_some c.default_pr_info)
    ∷ (Field.f_reuse_port, is_some c.reuse_port)
    ∷ (Field.f_fragments_disabled, is_some c.fragments_disabled)
    ∷ (Field.f_fragment_interleave, is_some c.fragment_interleave)
    ∷ (Field.f_receive_nxt_info, is_some c.receive_nxt_info)
    ∷ (Field.f_stream_reset_mask, is_some c.stream_reset_mask)
    ∷ (Field.f_rto_info, is_some c.rto_info)
    ∷ (Field.f_delayed_sack, is_some c.delayed_sack)
    ∷ (Field.f_notifications, is_some c.notifications)
    ∷ []

-- The first field that is set is refused.
unfoldable pub check_unset : List (Field × Bool) → Outcome ConfigError Unit
check_unset [] = ok tt
check_unset ((f, set) ∷ fs) = do refuse set (invalid_arg f not_applicable); check_unset fs

abbrev pub file_prepared : Config → ℤ → Prepared
file_prepared c close_timeout = record {
  ops = op_recv_rcv_info ∷ op_assoc_change ∷ [];
  handler = c.notification_handler;
  close_timeout = close_timeout;
  abandon = 0;
  setup_rto_initial_ms = 0;
  subscribed = 0;
  frag_level = interleave_none;
  adopted = true;
}

unfoldable pub prepare_file_style : Config → ℤ → Outcome ConfigError Prepared
prepare_file_style c close_timeout = do
  check_unset (file_fields c)
  ok (file_prepared c close_timeout)

abbrev pub listed : Option (List ℕ) → List ℕ
listed none = []
listed (some ts) = ts

unfoldable pub prepare_socket : Endian → Config → SocketStyle → ℤ → Outcome ConfigError Prepared
prepare_socket e c style close_timeout = do
  refuse (not (c.abandon_policy == 0) && not (c.abandon_policy == 1))
      (invalid_arg f_abandon_policy unknown_value)
  refuse (not (c.abandon_policy == 0) && not (is_dial style))
      (invalid_arg f_abandon_policy not_applicable)
  refuse (not (is_zero_duration c.setup_rto_initial) && not (is_dial style))
      (invalid_arg f_setup_rto_initial not_applicable)
  setup_ms ← naming f_setup_rto_initial (duration_to_millis c.setup_rto_initial max_uint32)
  early ← collect (early_ops c)
  level ← resolve_fragment_interleave c.fragment_interleave style
  late ← collect (late_ops e c style level)
  subscriptions ← build_subscriptions 0 (listed c.notifications)
  ok (record {
    ops = early ++ (late ++ subscriptions.0);
    handler = c.notification_handler;
    close_timeout = close_timeout;
    abandon = c.abandon_policy;
    setup_rto_initial_ms = setup_ms;
    subscribed =
        if is_endpoint style then bit_or subscriptions.1 (event_bit 0x8001) else subscriptions.1;
    frag_level = level;
    adopted = false;
  })

unfoldable pub prepare_style : Endian → Config → SocketStyle → ℤ → Outcome ConfigError Prepared
prepare_style e c style_file close_timeout = prepare_file_style c close_timeout
prepare_style e c style close_timeout = prepare_socket e c style close_timeout

-- The Config of a nil pointer is the zero one.
unfoldable pub prepare : Endian → Config → SocketStyle → Outcome ConfigError Prepared
prepare e c style = do
  close_timeout ← naming f_close_timeout (resolve_close_timeout c.close_timeout)
  prepare_style e c style close_timeout
