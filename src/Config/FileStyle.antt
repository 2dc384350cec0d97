-- ===== src/Config/FileStyle.antt =====
-- config.go, prepareFileStyle: what a Config for an adopted descriptor may hold, and what its refusal is.
use go_sctp.Common.{
  ℕ, ◌==◌, ◌≡◌, ◌⊎◌, inl, inr, refl, ap, ◌∙◌, List, [], ◌∷◌, Bool, true, false, not, Option, none,
  some, ℤ, pos, negsuc, Outcome, ok, err, ◌>>=◌, All, arith,
}
use go_sctp.Bytes.{Endian}
use go_sctp.Duration.{ArgError, not_applicable, resolve_close_timeout}
use go_sctp.Options.{InitMsg}
use go_sctp.PrInfo.{is_zero_duration}
use go_sctp.Config.{
  Config, ConfigError, Field, Prepared, style_file, invalid_arg, is_some, naming, op_recv_rcv_info,
  op_assoc_change,
}
use go_sctp.Config.Sections.{is_unset}
use go_sctp.Config.Prepare.{
  check_unset, file_fields, file_prepared, prepare, prepare_style, prepare_file_style,
}
use go_sctp.Config.Unset.{IsUnset, All-IsUnset}

set_option : {A : Type 0} (o : Option A) → is_some o ≡ true → ¬ (o ≡ none)
set_option none h = λ q. cc
set_option (some a) h = λ q. cc

set_bool : (b : Bool) → b ≡ true → ¬ (b ≡ false)
set_bool b h = λ q. cc

set_nat : (n : ℕ) → not (n == 0) ≡ true → ¬ (n ≡ 0)
set_nat n h = λ q. ground arith

set_duration : (d : ℤ) → not (is_zero_duration d) ≡ true → ¬ (d ≡ pos 0)
unfolding is_zero_duration
set_duration (pos d) h = λ q. let r : d ≡ 0 = cc in set_nat d h r
set_duration (negsuc d) h = λ q. cc

set_init_msg :
    (i : InitMsg)
    → not (is_unset i) ≡ true
    → ¬ (
        (i.out_streams ≡ 0)
        × (i.max_in_streams ≡ 0)
        × (i.max_attempts ≡ 0)
        × (i.max_init_timeout ≡ pos 0))
unfolding is_zero_duration
set_init_msg i h = λ (q1, q2, q3, q4). ground arith

entries_set : (c : Config) → All (λ x. x.1 ≡ true → ¬ IsUnset x.0 c) (file_fields c)
entries_set c = (
  set_bool c.control,
  (
    set_nat c.abandon_policy,
    (
      set_duration c.setup_rto_initial,
      (
        set_init_msg c.init_msg,
        (
          set_option c.adaptation_layer,
          (
            set_option c.hmac_identifiers,
            (
              set_option c.auth_chunks,
              (
                set_option c.partial_reliability,
                (
                  set_option c.stream_reconfiguration,
                  (
                    set_option c.dynamic_address_reconfiguration,
                    (
                      set_option c.authentication,
                      (
                        set_option c.experimental_ecn,
                        (
                          set_bool c.message_interleaving,
                          (
                            set_option c.read_buffer,
                            (
                              set_option c.write_buffer,
                              (
                                set_option c.no_delay,
                                (
                                  set_option c.default_snd_info,
                                  (
                                    set_option c.default_pr_info,
                                    (
                                      set_option c.reuse_port,
                                      (
                                        set_option c.fragments_disabled,
                                        (
                                          set_option c.fragment_interleave,
                                          (
                                            set_option c.receive_nxt_info,
                                            (
                                              set_option c.stream_reset_mask,
                                              (
                                                set_option c.rto_info,
                                                (
                                                  set_option c.delayed_sack,
                                                  (set_option c.notifications, tt),
                                                ),
                                              ),
                                            ),
                                          ),
                                        ),
                                      ),
                                    ),
                                  ),
                                ),
                              ),
                            ),
                          ),
                        ),
                      ),
                    ),
                  ),
                ),
              ),
            ),
          ),
        ),
      ),
    ),
  ),
)

-- The first field of a list that is set.
pub data FirstSet : Field → List (Field × Bool) → Type 0 where
  first_here : {f : Field} {fs : List (Field × Bool)} → FirstSet f ((f, true) ∷ fs)
  first_later :
      {f g : Field} {fs : List (Field × Bool)} → FirstSet f fs → FirstSet f ((g, false) ∷ fs)

check_unset-cases :
    (fs : List (Field × Bool))
    → ((check_unset fs ≡ ok tt) × All (λ x. x.1 ≡ false) fs)
      ⊎ ((f : Field) × (check_unset fs ≡ err (invalid_arg f not_applicable)) × FirstSet f fs)
unfolding check_unset
check_unset-cases [] = inl (refl, tt)
check_unset-cases ((f, true) ∷ fs) = inr (f, refl, first_here)
check_unset-cases ((f, false) ∷ fs) = elim (check_unset-cases fs) [
  | inl (q, h) ↦ inl (q, (refl, h))
  | inr (g, q, h) ↦ inr (g, q, first_later h)
]

first_set :
    (P : Field → Type 0) (f : Field) (fs : List (Field × Bool))
    → FirstSet f fs
    → All (λ x. x.1 ≡ true → P x.0) fs
    → P f
first_set P f [] s _ = elim s [ ]
first_set P f ((g, true) ∷ fs) first_here (h, _) = h refl
first_set P f ((g, false) ∷ fs) (first_later s) (_, hs) = first_set P f fs s hs

-- A Config for an adopted descriptor, with a CloseTimeout that is not negative: it is accepted, with the
-- two fixed operations, only where every field but NotificationHandler and CloseTimeout has its zero value,
-- and else it is refused, and the refusal names a field that has another value, the first that is checked.
pub prepare-file_error :
    (e : Endian) (c : Config) (t : ℤ)
    → resolve_close_timeout c.close_timeout ≡ ok t
    → (((p : Prepared) × (prepare e c style_file ≡ ok p)
          × (p.ops ≡ op_recv_rcv_info ∷ op_assoc_change ∷ [])
          × (p.adopted ≡ true))
        × ((f : Field) → IsUnset f c))
      ⊎ ((f : Field) × (prepare e c style_file ≡ err (invalid_arg f not_applicable))
          × ¬ IsUnset f c
          × FirstSet f (file_fields c))
unfolding prepare prepare_style prepare_file_style
prepare-file_error e c t h = elim (check_unset-cases (file_fields c)) [
  | inl (q, unset) ↦ inl (
    (file_prepared c t, ap after_timeout h ∙ ap after_check q, refl, refl),
    λ f. All-IsUnset c f unset,
  )
  | inr (f, q, first) ↦ inr (
    f,
    ap after_timeout h ∙ ap after_check q,
    first_set (λ g. ¬ IsUnset g c) f (file_fields c) first (entries_set c),
    first,
  )
]
  where
    after_timeout : Outcome ArgError ℤ → Outcome ConfigError Prepared
    after_timeout m = naming Field.f_close_timeout m >>= prepare_style e c style_file

    after_check : Outcome ConfigError Unit → Outcome ConfigError Prepared
    after_check m = m >>= λ _. ok (file_prepared c t)
