-- ===== src/Config.antt =====
-- config.go: a Config, and the operations and settings that `prepare` makes of it. A refusal keeps the
-- field that it names and the kind of the error.
pub mod Sections
pub mod Auth
pub mod Subscriptions
pub mod Prepare
pub mod Gives
pub mod Operations
pub mod Validity
pub mod Sorted
pub mod Order
pub mod Subscribed
pub mod Refusals
pub mod Errors
pub mod FileStyle
pub mod Unset
mod Examples
use go_sctp.Common.{
  ℕ, ◌==◌, List, Bool, true, false, ◌||◌, Option, none, some, if◌then◌else◌, ltb, ℤ, Outcome, ok,
  err, panic,
}
use go_sctp.Duration.{ArgError, unknown_value}
use go_sctp.Options.{InitMsg, RtoInfo, DelayedSack}
use go_sctp.PrInfo.{SndInfo, PrInfo}

pub data SocketStyle : Type 0 where
  style_dial style_listen style_listen_endpoint style_open_endpoint style_file : SocketStyle

abbrev pub is_endpoint : SocketStyle → Bool
is_endpoint style_listen_endpoint = true
is_endpoint style_open_endpoint = true
is_endpoint s = false

abbrev pub is_dial : SocketStyle → Bool
is_dial style_dial = true
is_dial s = false

-- The fields of a Config, as its refusals name them.
pub data Field : Type 0 where
  f_control f_close_timeout f_abandon_policy f_setup_rto_initial f_init_msg f_adaptation_layer :
      Field
  f_hmac_identifiers f_auth_chunks f_partial_reliability f_stream_reconfiguration : Field
  f_dynamic_address_reconfiguration f_authentication f_experimental_ecn f_message_interleaving :
      Field
  f_read_buffer f_write_buffer f_no_delay f_default_snd_info f_default_pr_info f_reuse_port : Field
  f_fragments_disabled f_fragment_interleave f_receive_nxt_info f_stream_reset_mask : Field
  f_rto_info f_delayed_sack f_notifications : Field

-- An error that matches syscall.EINVAL, or one that matches ErrUnsupported.
pub data ConfigError : Type 0 where
  invalid_arg : Field → ArgError → ConfigError
  unsupported : Field → ConfigError

-- A pointer field is an option, a nil slice `none`. Whether Control and NotificationHandler are set
-- is all that is kept of them.
pub record Config : Type 0 where
  pub control : Bool
  pub notification_handler : Bool
  pub close_timeout : ℤ
  pub abandon_policy : ℕ
  pub setup_rto_initial : ℤ
  pub init_msg : InitMsg
  pub adaptation_layer : Option ℕ
  pub hmac_identifiers : Option (List ℕ)
  pub auth_chunks : Option (List ℕ)
  pub partial_reliability : Option Bool
  pub stream_reconfiguration : Option Bool
  pub dynamic_address_reconfiguration : Option Bool
  pub authentication : Option Bool
  pub experimental_ecn : Option Bool
  pub message_interleaving : Bool
  pub read_buffer : Option ℤ
  pub write_buffer : Option ℤ
  pub no_delay : Option Bool
  pub default_snd_info : Option SndInfo
  pub default_pr_info : Option PrInfo
  pub reuse_port : Option Bool
  pub fragments_disabled : Option Bool
  pub fragment_interleave : Option ℕ
  pub receive_nxt_info : Option Bool
  pub stream_reset_mask : Option ℕ
  pub rto_info : Option RtoInfo
  pub delayed_sack : Option DelayedSack
  pub notifications : Option (List ℕ)

-- configOp: its kind, with the fields of the struct that the kind reads.
pub data ConfigOp : Type 0 where
  op_recv_rcv_info op_assoc_change : ConfigOp
  op_read_buffer op_write_buffer : ℕ → ConfigOp
  op_init_msg : ℕ → ℕ → ℕ → ℕ → ConfigOp
  op_fragment_interleave : ℕ → ConfigOp
  op_authentication : Bool → ConfigOp
  op_hmac_identifiers : List ℕ → ConfigOp
  op_auth_chunk : ℕ → ConfigOp
  op_dynamic_address_reconfiguration op_partial_reliability op_stream_reconfiguration :
      Bool → ConfigOp
  op_stream_reset_mask : ℕ → ConfigOp
  op_message_interleaving op_experimental_ecn : Bool → ConfigOp
  op_adaptation_layer : ℕ → ConfigOp
  op_rto_info : ℕ → ℕ → ℕ → ConfigOp
  op_delayed_sack : ℕ → ℕ → ConfigOp
  op_fragments_disabled op_reuse_port op_receive_nxt_info op_no_delay : Bool → ConfigOp
  op_default_snd_info : ℕ → ℕ → ℕ → ℕ → ConfigOp
  op_default_pr_info : ℕ → ℕ → ConfigOp
  op_notification : ℕ → ConfigOp

pub record Prepared : Type 0 where
  pub ops : List ConfigOp
  pub handler : Bool
  pub close_timeout : ℤ
  pub abandon : ℕ
  pub setup_rto_initial_ms : ℕ
  pub subscribed : ℕ
  pub frag_level : ℕ
  pub adopted : Bool

abbrev pub interleave_none : ℕ
interleave_none = 0

abbrev pub interleave_assocs : ℕ
interleave_assocs = 1

abbrev pub interleave_streams : ℕ
interleave_streams = 2

-- An error of an argument, with the field.
abbrev pub naming : {A : Type 0} → Field → Outcome ArgError A → Outcome ConfigError A
naming f (ok a) = ok a
naming f (err e) = err (invalid_arg f e)
naming f panic = panic

abbrev pub is_some : {A : Type 0} → Option A → Bool
is_some none = false
is_some (some a) = true

abbrev pub is_true : Option Bool → Bool
is_true (some true) = true
is_true o = false

-- The level asked for, or the default of the style. A level is the uint32 with the bits of the int32.
unfoldable pub resolve_fragment_interleave : Option ℕ → SocketStyle → Outcome ConfigError ℕ
resolve_fragment_interleave none style =
    ok (if is_endpoint style then interleave_assocs else interleave_none)
resolve_fragment_interleave (some level) style =
    if level == interleave_none || level == interleave_assocs
    then ok level
    else if level == interleave_streams
    then err (unsupported f_fragment_interleave)
    else err (invalid_arg f_fragment_interleave unknown_value)
