-- ===== src/Config/Sections.antt =====
-- config.go, prepare: the operations of each field, in the order of the code.
use go_sctp.Common.{
  ℕ, ◌==◌, List, [], ◌∷◌, ◌++◌, Bool, true, not, ◌&&◌, Option, none, some, if◌then◌else◌, ltb,
  and_not, ℤ, Outcome, ok, ◌>>=◌, ◌>>◌, refuse,
}
use go_sctp.Bytes.{Endian, octet, word32, big}
use go_sctp.Duration.{
  unknown_value, not_applicable, out_of_range, duration_to_millis, buffer_size_arg, max_uint32,
}
use go_sctp.PrInfo.{
  SndInfo, PrInfo, validate_default_snd_info, validate_pr_info, resolve_pr_info, is_zero_duration,
}
use go_sctp.Options.{InitMsg, RtoInfo, DelayedSack, max_sack_delay_ms}
use go_sctp.Config.{
  Config, ConfigOp, ConfigError, SocketStyle, Field, is_endpoint, is_some, naming, invalid_arg,
  interleave_assocs, f_init_msg, f_dynamic_address_reconfiguration, f_stream_reset_mask,
  f_message_interleaving, f_rto_info, f_delayed_sack, f_reuse_port, f_default_snd_info,
  f_default_pr_info, op_recv_rcv_info, op_assoc_change, op_read_buffer, op_write_buffer,
  op_init_msg, op_fragment_interleave, op_dynamic_address_reconfiguration, op_stream_reset_mask,
  op_message_interleaving, op_rto_info, op_delayed_sack, op_reuse_port, op_default_snd_info,
  op_default_pr_info,
}

abbrev pub Ops : Type 0
Ops = Outcome ConfigError (List ConfigOp)

-- The operations of one section after another, up to the first refusal.
unfoldable pub collect : List Ops → Ops
collect [] = ok []
collect (m ∷ ms) = do ops ← m; rest ← collect ms; ok (ops ++ rest)

-- A field that only has to be passed on.
abbrev pub optional : {A : Type 0} → (A → ConfigOp) → Option A → Ops
optional op none = ok []
optional op (some a) = ok (op a ∷ [])

-- networkOrderUint32.
abbrev pub network_order_uint32 : Endian → ℕ → ℕ
network_order_uint32 e v =
    word32 e (octet big 4 0 v) (octet big 4 1 v) (octet big 4 2 v) (octet big 4 3 v)

unfoldable pub buffer_ops : Field → (ℕ → ConfigOp) → Option ℤ → Ops
buffer_ops f op none = ok []
buffer_ops f op (some v) = do n ← naming f (buffer_size_arg v); ok (op n ∷ [])

-- Whether it is the zero InitMsg.
abbrev pub is_unset : InitMsg → Bool
is_unset m =
    m.out_streams == 0
    && m.max_in_streams == 0
    && m.max_attempts == 0
    && is_zero_duration m.max_init_timeout

unfoldable pub init_msg_ops : InitMsg → Ops
init_msg_ops m = if is_unset m then ok [] else (do
  ms ← naming f_init_msg (duration_to_millis m.max_init_timeout 65535)
  ok (op_init_msg m.out_streams m.max_in_streams m.max_attempts ms ∷ []))

unfoldable pub interleave_ops : Option ℕ → SocketStyle → ℕ → Ops
interleave_ops setting style level =
    if is_some setting
    then ok (op_fragment_interleave level ∷ [])
    else if is_endpoint style
    then ok (op_fragment_interleave level ∷ [])
    else ok []

unfoldable pub dynamic_address_ops : Bool → Option Bool → Ops
dynamic_address_ops auth none = ok []
dynamic_address_ops auth (some on) = do
  refuse (on && not auth) (invalid_arg f_dynamic_address_reconfiguration not_applicable)
  ok (op_dynamic_address_reconfiguration on ∷ [])

unfoldable pub reset_mask_ops : Bool → Option ℕ → Ops
reset_mask_ops reconfiguration none = ok []
reset_mask_ops reconfiguration (some mask) = do
  refuse (not (and_not mask 7 == 0)) (invalid_arg f_stream_reset_mask unknown_value)
  refuse (not (mask == 0) && not reconfiguration) (invalid_arg f_stream_reset_mask not_applicable)
  ok (op_stream_reset_mask mask ∷ [])

unfoldable pub interleaving_ops : Bool → ℕ → Ops
interleaving_ops on level =
    if on
    then (do
      refuse (ltb level interleave_assocs) (invalid_arg f_message_interleaving not_applicable)
      ok (op_message_interleaving true ∷ []))
    else ok []

unfoldable pub rto_info_ops : Option RtoInfo → Ops
rto_info_ops none = ok []
rto_info_ops (some r) = do
  initial ← naming f_rto_info (duration_to_millis r.initial max_uint32)
  max_ms ← naming f_rto_info (duration_to_millis r.maximum max_uint32)
  min_ms ← naming f_rto_info (duration_to_millis r.minimum max_uint32)
  refuse (not (is_zero_duration r.minimum) && not (is_zero_duration r.maximum) && ltb max_ms min_ms)
      (invalid_arg f_rto_info out_of_range)
  ok (op_rto_info initial max_ms min_ms ∷ [])

unfoldable pub delayed_sack_ops : Option DelayedSack → Ops
delayed_sack_ops none = ok []
delayed_sack_ops (some d) = do
  delay ← naming f_delayed_sack (duration_to_millis d.delay max_uint32)
  refuse (ltb max_sack_delay_ms delay) (invalid_arg f_delayed_sack out_of_range)
  ok (op_delayed_sack delay d.frequency ∷ [])

unfoldable pub reuse_port_ops : Option Bool → SocketStyle → Ops
reuse_port_ops none style = ok []
reuse_port_ops (some on) style = do
  refuse (is_endpoint style) (invalid_arg f_reuse_port not_applicable)
  ok (op_reuse_port on ∷ [])

unfoldable pub default_snd_info_ops : Endian → Option SndInfo → Ops
default_snd_info_ops e none = ok []
default_snd_info_ops e (some i) = do
  naming f_default_snd_info (validate_default_snd_info i)
  ok (op_default_snd_info i.stream i.flags (network_order_uint32 e i.ppid) i.context ∷ [])

unfoldable pub default_pr_info_ops : Option PrInfo → Ops
default_pr_info_ops none = ok []
default_pr_info_ops (some i) = do
  naming f_default_pr_info (validate_pr_info i)
  ok (op_default_pr_info (resolve_pr_info i).0 (resolve_pr_info i).1 ∷ [])

-- What comes before the FragmentInterleave level is resolved.
unfoldable pub early_ops : Config → List Ops
early_ops c =
    ok (op_recv_rcv_info ∷ op_assoc_change ∷ [])
    ∷ buffer_ops Field.f_read_buffer op_read_buffer c.read_buffer
    ∷ buffer_ops Field.f_write_buffer op_write_buffer c.write_buffer
    ∷ init_msg_ops c.init_msg
    ∷ []
