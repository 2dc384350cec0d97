-- ===== src/PrInfo/Laws.antt =====
-- What an accepted PrInfo means, and that its encoding loses nothing.
use go_sctp.Common.{
  ℕ, ◌*◌, ◌/◌, ◌%◌, ◌≤◌, ◌≡◌, ◌≢◌, refl, ap, sym, ◌∙◌, false, ◌==◌, if◌then◌else◌, ℤ, pos, negsuc,
  ok, arith, ◌⊎◌, inl, inr, Bool-cases,
}
use go_sctp.Duration.{millis_to_duration, millisecond, max_uint32}
use go_sctp.PrInfo.{
  PrInfo, pr_none, pr_ttl, validate_pr_info, resolve_pr_info, validate_ttl, is_zero_duration,
}

-- The caller's PrInfo that a pair of kernel fields stands for.
abbrev pub restored : ℕ × ℕ → PrInfo
restored (policy, value) =
    if policy == pr_ttl
    then record { policy = policy; ttl = millis_to_duration value; value = 0 }
    else record { policy = policy; ttl = pos 0; value = value }

abbrev pr_info : ℕ → ℤ → ℕ → PrInfo
pr_info policy ttl value = record { policy = policy; ttl = ttl; value = value }

-- The cases of an accepted PrInfo.
accepted :
    (policy : ℕ) (ttl : ℤ) (value : ℕ)
    → validate_pr_info (pr_info policy ttl value) ≡ ok tt
    → ((policy ≡ pr_ttl)
        × (value ≡ 0)
        × ((d : ℕ) × (ttl ≡ pos d)
            × (1 ≤ d)
            × (d % millisecond ≡ 0)
            × (d / millisecond ≤ max_uint32)))
      ⊎ ((policy ≢ pr_ttl) × (ttl ≡ pos 0) × (policy ≡ pr_none → value ≡ 0))
unfolding validate_pr_info validate_ttl is_zero_duration
accepted policy (pos d) value h = elim (Bool-cases (policy == pr_ttl)) [
  | inl e ↦ inl (ground arith, ground arith, (d, refl, ground arith, ground arith, ground arith))
  | inr e ↦ inr (ground arith, ap pos (ground arith), ground arith)
]
accepted policy (negsuc d) value h = ground arith

back : PrInfo → PrInfo
back pr = restored (resolve_pr_info pr)

back-ttl :
    (d : ℕ)
    → d % millisecond ≡ 0
    → d / millisecond ≤ max_uint32
    → back (pr_info pr_ttl (pos d) 0) ≡ pr_info pr_ttl (pos d) 0
unfolding back resolve_pr_info millis_to_duration
back-ttl d whole high =
    ap (λ (k : ℕ). pr_info pr_ttl (pos k) 0) {x = d / 1000000 % 4294967296 * 1000000} {y = d}
      (omega arith)

back-other :
    (policy value : ℕ)
    → policy ≢ pr_ttl
    → (policy ≡ pr_none → value ≡ 0)
    → back (pr_info policy (pos 0) value) ≡ pr_info policy (pos 0) value
unfolding back resolve_pr_info
back-other policy value p n = elim (Bool-cases (policy == pr_none)) [
  | inl e ↦
      (let q : policy ≡ 0 = ground arith in
        let same : pr_info policy (pos 0) value ≡ pr_info 0 (pos 0) 0 =
          λ i. pr_info (q i) (pos 0) (n q i) in
        ap back same ∙ sym same)
  | inr e ↦ (let f : (policy == pr_ttl) ≡ false = ground arith in rw (e, f) (rw (f) refl))
]

-- Nothing of an accepted PrInfo is lost in the two fields that the kernel is given.
pub resolve_pr_info-restored :
    (pr : PrInfo) → validate_pr_info pr ≡ ok tt → restored (resolve_pr_info pr) ≡ pr
unfolding back
resolve_pr_info-restored pr h = elim (accepted pr.policy pr.ttl pr.value h) [
  | inl (p, v, (d, t, low, whole, high)) ↦
      (let same : pr ≡ pr_info pr_ttl (pos d) 0 = λ i. pr_info (p i) (t i) (v i) in
        ap back same ∙ back-ttl d whole high ∙ sym same)
  | inr (p, t, n) ↦
      (let same : pr ≡ pr_info pr.policy (pos 0) pr.value = λ i. pr_info pr.policy (t i) pr.value in
        ap back same ∙ back-other pr.policy pr.value p n ∙ sym same)
]

-- A zero lifetime is never accepted: the kernel would abandon the message at once.
pub resolve_pr_info-ttl :
    (pr : PrInfo) → validate_pr_info pr ≡ ok tt → pr.policy ≡ pr_ttl → 1 ≤ (resolve_pr_info pr).1
unfolding resolve_pr_info
resolve_pr_info-ttl pr h q = elim (accepted pr.policy pr.ttl pr.value h) [
  | inl (p, v, (d, t, low, whole, high)) ↦ rw (q, t) (omega arith)
  | inr (p, t, n) ↦ absurd (p q)
]
