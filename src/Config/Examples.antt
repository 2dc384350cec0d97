-- ===== src/Config/Examples.antt =====
-- The theorems on a Config at concrete ones.
use go_sctp.Common.{
  ◌==◌, ◌≡◌, ◌⊎◌, refl, [], ◌∷◌, true, false, ◌&&◌, ◌||◌, none, some, if◌then◌else◌, pos, ok, err,
  All,
}
use go_sctp.Bytes.{little}
use go_sctp.Duration.{duration_to_millis, resolve_close_timeout, buffer_size_arg, not_applicable}
use go_sctp.PrInfo.{is_zero_duration}
use go_sctp.Config
use go_sctp.Config.{
  Config, ConfigOp, ConfigError, Prepared, SocketStyle, Field, invalid_arg, unsupported, style_file,
  style_listen_endpoint, style_dial, is_endpoint, resolve_fragment_interleave, op_recv_rcv_info,
  op_assoc_change,
}
use go_sctp.Config.Auth.{hmac_ops, chunk_ops, check_hmacs, check_chunks, contains}
use go_sctp.Config.Sections.{
  collect, early_ops, buffer_ops, init_msg_ops, interleave_ops, dynamic_address_ops, reset_mask_ops,
  interleaving_ops, rto_info_ops, delayed_sack_ops, reuse_port_ops, default_snd_info_ops,
  default_pr_info_ops,
}
use go_sctp.Config.Subscriptions.{build_subscriptions, has}
use go_sctp.Config.Prepare.{late_ops, prepare, prepare_style, prepare_socket, file_fields, listed}
use go_sctp.Config.Gives.{IsAllowed}
use go_sctp.Config.Validity.{prepare-IsAllowed}
use go_sctp.Config.Sorted.{IsOrdered}
use go_sctp.Config.Order.{prepare-IsOrdered}
use go_sctp.Config.Subscribed.{count_notifications, prepare-subscribed}
use go_sctp.Config.Refusals.{IsRefusal}
use go_sctp.Config.Errors.{prepare-IsRefusal}
use go_sctp.Config.Unset.{IsUnset}
use go_sctp.Config.FileStyle.{FirstSet, prepare-file_error}

-- An Endpoint with AUTH, two HMAC identifiers, ASCONF, a SACK delay and two notification types.
abbrev secured : Config
secured = record {
  control = false;
  notification_handler = true;
  close_timeout = pos 0;
  abandon_policy = 0;
  setup_rto_initial = pos 0;
  init_msg = record {
    out_streams = 10;
    max_in_streams = 5;
    max_attempts = 0;
    max_init_timeout = pos 2000000000;
  };
  adaptation_layer = none;
  hmac_identifiers = some (3 ∷ 1 ∷ []);
  auth_chunks = some (0 ∷ 0xC1 ∷ []);
  partial_reliability = none;
  stream_reconfiguration = none;
  dynamic_address_reconfiguration = some true;
  authentication = some true;
  experimental_ecn = none;
  message_interleaving = true;
  read_buffer = some (pos 65536);
  write_buffer = none;
  no_delay = some true;
  default_snd_info = none;
  default_pr_info = none;
  reuse_port = none;
  fragments_disabled = none;
  fragment_interleave = none;
  receive_nxt_info = none;
  stream_reset_mask = some 0;
  rto_info = none;
  delayed_sack = some (record { delay = pos 100000000; frequency = 2 });
  notifications = some (0x8005 ∷ 0x8002 ∷ 0x8005 ∷ []);
}

-- What it is prepared to.
abbrev secured_prepared : Prepared
secured_prepared = record {
  ops =
      op_recv_rcv_info
      ∷ op_assoc_change
      ∷ Config.op_read_buffer 65536
      ∷ Config.op_init_msg 10 5 0 2000
      ∷ Config.op_fragment_interleave 1
      ∷ Config.op_authentication true
      ∷ Config.op_hmac_identifiers (3 ∷ 1 ∷ [])
      ∷ Config.op_auth_chunk 0
      ∷ Config.op_auth_chunk 0xC1
      ∷ Config.op_dynamic_address_reconfiguration true
      ∷ Config.op_stream_reset_mask 0
      ∷ Config.op_message_interleaving true
      ∷ Config.op_delayed_sack 100 2
      ∷ Config.op_no_delay true
      ∷ Config.op_notification 0x8005
      ∷ Config.op_notification 0x8002
      ∷ [];
  handler = true;
  close_timeout = pos 3000000000;
  abandon = 0;
  setup_rto_initial_ms = 0;
  subscribed = 19;
  frag_level = 1;
  adopted = false;
}

prepare_socket-secured :
    prepare_socket little secured style_listen_endpoint (pos 3000000000) ≡ ok secured_prepared
unfolding prepare_socket collect early_ops late_ops buffer_ops buffer_size_arg init_msg_ops
    is_zero_duration duration_to_millis interleave_ops resolve_fragment_interleave hmac_ops
    check_hmacs chunk_ops check_chunks dynamic_address_ops reset_mask_ops interleaving_ops
    rto_info_ops delayed_sack_ops reuse_port_ops default_snd_info_ops default_pr_info_ops
    build_subscriptions
prepare_socket-secured = refl

prepare-secured : prepare little secured style_listen_endpoint ≡ ok secured_prepared
unfolding prepare prepare_style resolve_close_timeout
prepare-secured = prepare_socket-secured

prepare-IsAllowed_example : All (IsAllowed secured style_listen_endpoint) secured_prepared.ops
prepare-IsAllowed_example =
    prepare-IsAllowed little secured style_listen_endpoint secured_prepared prepare-secured

prepare-IsOrdered_example : IsOrdered secured_prepared.ops
prepare-IsOrdered_example =
    prepare-IsOrdered little secured style_listen_endpoint secured_prepared prepare-secured

prepare-subscribed_example :
    (has 19 0x8005
      ≡ contains 0x8005 (listed secured.notifications)
        || (is_endpoint style_listen_endpoint && (0x8005 == 0x8001)))
    × (count_notifications 0x8005 secured_prepared.ops
        ≡ (if contains 0x8005 (listed secured.notifications) then 1 else 0))
prepare-subscribed_example =
    prepare-subscribed little secured style_listen_endpoint (pos 3000000000) secured_prepared 0x8005
      prepare_socket-secured refl

prepare-IsRefusal_example :
    IsRefusal secured.fragment_interleave (prepare little secured style_dial)
prepare-IsRefusal_example = prepare-IsRefusal little secured style_dial

prepare-file_error_example :
    (((p : Prepared) × (prepare little secured style_file ≡ ok p)
        × (p.ops ≡ op_recv_rcv_info ∷ op_assoc_change ∷ [])
        × (p.adopted ≡ true))
      × ((f : Field) → IsUnset f secured))
    ⊎ ((f : Field) × (prepare little secured style_file ≡ err (invalid_arg f not_applicable))
        × ¬ IsUnset f secured
        × FirstSet f (file_fields secured))
unfolding resolve_close_timeout
prepare-file_error_example = prepare-file_error little secured (pos 3000000000) refl
