-- ===== src/Config/Unset.antt =====
-- config.go: the Config fields with their zero values.
use go_sctp.Common.{
  ℕ, ◌==◌, ◌≡◌, refl, ap, false, not, Option, none, some, ℤ, pos, negsuc, All, arith,
}
use go_sctp.Options.{InitMsg}
use go_sctp.PrInfo.{is_zero_duration}
use go_sctp.Config.{Config, Field, is_some}
use go_sctp.Config.Sections.{is_unset}
use go_sctp.Config.Prepare.{file_fields}

-- The field has its zero value, or is CloseTimeout, which a Config for a descriptor may set.
abbrev pub IsUnset : Field → Config → Type 0
IsUnset Field.f_close_timeout c = Unit {0}
IsUnset Field.f_control c = c.control ≡ false
IsUnset Field.f_abandon_policy c = c.abandon_policy ≡ 0
IsUnset Field.f_setup_rto_initial c = c.setup_rto_initial ≡ pos 0
IsUnset Field.f_init_msg c =
    (c.init_msg.out_streams ≡ 0)
    × (c.init_msg.max_in_streams ≡ 0)
    × (c.init_msg.max_attempts ≡ 0)
    × (c.init_msg.max_init_timeout ≡ pos 0)
IsUnset Field.f_adaptation_layer c = c.adaptation_layer ≡ none
IsUnset Field.f_hmac_identifiers c = c.hmac_identifiers ≡ none
IsUnset Field.f_auth_chunks c = c.auth_chunks ≡ none
IsUnset Field.f_partial_reliability c = c.partial_reliability ≡ none
IsUnset Field.f_stream_reconfiguration c = c.stream_reconfiguration ≡ none
IsUnset Field.f_dynamic_address_reconfiguration c = c.dynamic_address_reconfiguration ≡ none
IsUnset Field.f_authentication c = c.authentication ≡ none
IsUnset Field.f_experimental_ecn c = c.experimental_ecn ≡ none
IsUnset Field.f_message_interleaving c = c.message_interleaving ≡ false
IsUnset Field.f_read_buffer c = c.read_buffer ≡ none
IsUnset Field.f_write_buffer c = c.write_buffer ≡ none
IsUnset Field.f_no_delay c = c.no_delay ≡ none
IsUnset Field.f_default_snd_info c = c.default_snd_info ≡ none
IsUnset Field.f_default_pr_info c = c.default_pr_info ≡ none
IsUnset Field.f_reuse_port c = c.reuse_port ≡ none
IsUnset Field.f_fragments_disabled c = c.fragments_disabled ≡ none
IsUnset Field.f_fragment_interleave c = c.fragment_interleave ≡ none
IsUnset Field.f_receive_nxt_info c = c.receive_nxt_info ≡ none
IsUnset Field.f_stream_reset_mask c = c.stream_reset_mask ≡ none
IsUnset Field.f_rto_info c = c.rto_info ≡ none
IsUnset Field.f_delayed_sack c = c.delayed_sack ≡ none
IsUnset Field.f_notifications c = c.notifications ≡ none

unset_option : {A : Type 0} (o : Option A) → is_some o ≡ false → o ≡ none
unset_option none h = refl
unset_option (some a) h = cc

unset_nat : (n : ℕ) → not (n == 0) ≡ false → n ≡ 0
unset_nat n h = ground arith

unset_duration : (d : ℤ) → not (is_zero_duration d) ≡ false → d ≡ pos 0
unfolding is_zero_duration
unset_duration (pos d) h = ap pos (unset_nat d h)
unset_duration (negsuc d) h = cc

unset_init_msg :
    (i : InitMsg)
    → not (is_unset i) ≡ false
    → (i.out_streams ≡ 0)
      × (i.max_in_streams ≡ 0)
      × (i.max_attempts ≡ 0)
      × (i.max_init_timeout ≡ pos 0)
unfolding is_zero_duration
unset_init_msg i h =
    (ground arith, ground arith, ground arith, unset_duration i.max_init_timeout (ground arith))

-- Every field is checked, and for its zero value.
pub All-IsUnset : (c : Config) (f : Field) → All (λ x. x.1 ≡ false) (file_fields c) → IsUnset f c
All-IsUnset c Field.f_close_timeout h = tt
All-IsUnset c Field.f_control h = h.0
All-IsUnset c Field.f_abandon_policy h = unset_nat c.abandon_policy h.1.0
All-IsUnset c Field.f_setup_rto_initial h = unset_duration c.setup_rto_initial h.1.1.0
All-IsUnset c Field.f_init_msg h = unset_init_msg c.init_msg h.1.1.1.0
All-IsUnset c Field.f_adaptation_layer h = unset_option c.adaptation_layer h.1.1.1.1.0
All-IsUnset c Field.f_hmac_identifiers h = unset_option c.hmac_identifiers h.1.1.1.1.1.0
All-IsUnset c Field.f_auth_chunks h = unset_option c.auth_chunks h.1.1.1.1.1.1.0
All-IsUnset c Field.f_partial_reliability h = unset_option c.partial_reliability h.1.1.1.1.1.1.1.0
All-IsUnset c Field.f_stream_reconfiguration h =
    unset_option c.stream_reconfiguration h.1.1.1.1.1.1.1.1.0
All-IsUnset c Field.f_dynamic_address_reconfiguration h =
    unset_option c.dynamic_address_reconfiguration h.1.1.1.1.1.1.1.1.1.0
All-IsUnset c Field.f_authentication h = unset_option c.authentication h.1.1.1.1.1.1.1.1.1.1.0
All-IsUnset c Field.f_experimental_ecn h = unset_option c.experimental_ecn h.1.1.1.1.1.1.1.1.1.1.1.0
All-IsUnset c Field.f_message_interleaving h = h.1.1.1.1.1.1.1.1.1.1.1.1.0
All-IsUnset c Field.f_read_buffer h = unset_option c.read_buffer h.1.1.1.1.1.1.1.1.1.1.1.1.1.0
All-IsUnset c Field.f_write_buffer h = unset_option c.write_buffer h.1.1.1.1.1.1.1.1.1.1.1.1.1.1.0
All-IsUnset c Field.f_no_delay h = unset_option c.no_delay h.1.1.1.1.1.1.1.1.1.1.1.1.1.1.1.0
All-IsUnset c Field.f_default_snd_info h =
    unset_option c.default_snd_info h.1.1.1.1.1.1.1.1.1.1.1.1.1.1.1.1.0
All-IsUnset c Field.f_default_pr_info h =
    unset_option c.default_pr_info h.1.1.1.1.1.1.1.1.1.1.1.1.1.1.1.1.1.0
All-IsUnset c Field.f_reuse_port h =
    unset_option c.reuse_port h.1.1.1.1.1.1.1.1.1.1.1.1.1.1.1.1.1.1.0
All-IsUnset c Field.f_fragments_disabled h =
    unset_option c.fragments_disabled h.1.1.1.1.1.1.1.1.1.1.1.1.1.1.1.1.1.1.1.0
All-IsUnset c Field.f_fragment_interleave h =
    unset_option c.fragment_interleave h.1.1.1.1.1.1.1.1.1.1.1.1.1.1.1.1.1.1.1.1.0
All-IsUnset c Field.f_receive_nxt_info h =
    unset_option c.receive_nxt_info h.1.1.1.1.1.1.1.1.1.1.1.1.1.1.1.1.1.1.1.1.1.0
All-IsUnset c Field.f_stream_reset_mask h =
    unset_option c.stream_reset_mask h.1.1.1.1.1.1.1.1.1.1.1.1.1.1.1.1.1.1.1.1.1.1.0
All-IsUnset c Field.f_rto_info h =
    unset_option c.rto_info h.1.1.1.1.1.1.1.1.1.1.1.1.1.1.1.1.1.1.1.1.1.1.1.0
All-IsUnset c Field.f_delayed_sack h =
    unset_option c.delayed_sack h.1.1.1.1.1.1.1.1.1.1.1.1.1.1.1.1.1.1.1.1.1.1.1.1.0
All-IsUnset c Field.f_notifications h =
    unset_option c.notifications h.1.1.1.1.1.1.1.1.1.1.1.1.1.1.1.1.1.1.1.1.1.1.1.1.1.0
