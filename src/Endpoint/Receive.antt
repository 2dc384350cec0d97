-- ===== src/Endpoint/Receive.antt =====
-- endpoint.go, parseEndpointRecvCmsgs: the ancillary data of an Endpoint, whose messages must name their
-- association.
use go_sctp.Common.{
  ℕ, zero, suc, ◌+◌, ◌-◌, ◌==◌, ◌≤◌, ◌<◌, ◌≡◌, ◌≢◌, ◌⊎◌, inl, inr, refl, List, Bool, true, false,
  not, ◌&&◌, ◌||◌, Option, none, some, if◌then◌else◌, length, drop, length-drop, ltb, Outcome, ok,
  err, panic, ◌>>=◌, ◌>>◌, >>=-eq-ok, >>=-ne-panic, refuse, if_cases, arith,
}
use go_sctp.Bytes.{uint32}
use go_sctp.Bytes.Laws.{uint32_lem}
use go_sctp.Platform.{Platform}
use go_sctp.Message.{
  size_cmsghdr, cmsghdr_level_off, cmsghdr_type_off, cmsg_align, cmsg_rcv_info, ipproto_sctp,
}
use go_sctp.Message.Receive.{MsgInfo, no_rcv_info, parse_recv_cmsgs, read_word, size_rcv_info}
use go_sctp.Message.Receive.Safety.{
  Shrinks, Shrinks->>=, word_size-bounds, word-ne-panic, cmsg_align-pos, parse_recv_cmsgs-ne-panic,
}
use go_sctp.Endpoint.{real_assoc_id}

pub data RcvInfoError : Type 0 where
  control_truncated missing_rcv_info invalid_rcv_info : RcvInfoError

-- One turn of the loop: the records so far, and what is left where it goes on.
unfoldable pub count_record : Platform → ℕ → List ℕ → Outcome RcvInfoError (ℕ × Option (List ℕ))
count_record p records oob = if ltb (length oob) (size_cmsghdr p) then ok (records, none) else (do
  len ← read_word p oob
  refuse (ltb len (size_cmsghdr p) || ltb (length oob) len) invalid_rcv_info
  level ← uint32 p.order oob (cmsghdr_level_off p)
  typ ← uint32 p.order oob (cmsghdr_type_off p)
  refuse (level == ipproto_sctp && typ == cmsg_rcv_info && ltb (len - size_cmsghdr p) size_rcv_info)
      invalid_rcv_info
  ok (
    if level == ipproto_sctp && typ == cmsg_rcv_info then records + 1 else records,
    if ltb (length oob) (cmsg_align p len) then none else some (drop (cmsg_align p len) oob),
  ))

unfoldable pub count_records : ℕ → Platform → ℕ → List ℕ → Outcome RcvInfoError ℕ
count_records zero p records oob = panic
count_records (suc fuel) p records oob = do
  r ← count_record p records oob
  elim r.1 [ none ↦ ok r.0 | some rest ↦ count_records fuel p r.0 rest ]

-- Each turn leaves fewer bytes, so the length is fuel enough.
unfoldable pub check_rcv_info_record : Platform → List ℕ → ℕ → Outcome RcvInfoError Unit
check_rcv_info_record p oob id = do
  records ← count_records (length oob + 1) p 0 oob
  refuse (records == 0) missing_rcv_info
  refuse (ltb 1 records) invalid_rcv_info
  refuse (not (real_assoc_id id)) invalid_rcv_info

-- The check of data, after parseRecvCmsgs.
unfoldable pub check_info :
    Platform → List ℕ → MsgInfo → Bool → Outcome RcvInfoError (MsgInfo × Option RcvInfoError)
check_info p oob info truncated =
    if info.notification
    then ok (info, if truncated then some control_truncated else none)
    else elim (check_rcv_info_record p oob info.rcv.assoc_id) [
      | ok x ↦ ok (info, if truncated then some control_truncated else none)
      | err e ↦
          ok (record info { rcv = no_rcv_info }, some (if truncated then control_truncated else e))
      | panic ↦ panic
    ]

-- The info, and the error, with the truncation before that of the record. parseRecvCmsgs has no other error.
unfoldable pub parse_endpoint_recv_cmsgs :
    Platform → List ℕ → ℕ → Outcome RcvInfoError (MsgInfo × Option RcvInfoError)
parse_endpoint_recv_cmsgs p oob flags = elim (parse_recv_cmsgs {E = ⊥} p oob flags) [
  | ok (info, truncated) ↦ check_info p oob info truncated
  | err e ↦ elim e [ ]
  | panic ↦ panic
]

count_record-Shrinks :
    (p : Platform) (records : ℕ) (oob : List ℕ) → Shrinks (length oob) (count_record p records oob)
unfolding count_record Shrinks
count_record-Shrinks p records oob =
    let P : Outcome RcvInfoError (ℕ × Option (List ℕ)) → Type 0 = Shrinks (length oob) in
    let w = word_size-bounds p.word in
    if_cases P (ltb (length oob) (size_cmsghdr p)) (λ _. tt)
      (λ short.
        let long : size_cmsghdr p ≤ length oob = ground arith in
        Shrinks->>= (length oob) (read_word p oob) _
          (word-ne-panic p.order p.word p.interface_name oob (omega arith))
          (λ len _. refused (ltb len (size_cmsghdr p) || ltb (length oob) len) _ (λ fits.
            Shrinks->>= (length oob) (uint32 p.order oob (cmsghdr_level_off p)) _
              (rw (uint32_lem p.order oob (cmsghdr_level_off p) (omega arith)) (λ q. cc))
              (λ level _.
                Shrinks->>= (length oob) (uint32 p.order oob (cmsghdr_type_off p)) _
                  (rw (uint32_lem p.order oob (cmsghdr_type_off p) (omega arith)) (λ q. cc))
                  (λ typ _.
                    refused
                      (level == ipproto_sctp
                        && typ == cmsg_rcv_info
                        && ltb (len - size_cmsghdr p) size_rcv_info)
                      _
                      (λ _.
                        left
                          (if level == ipproto_sctp && typ == cmsg_rcv_info
                            then records + 1
                            else records)
                          len (enough len (size_cmsghdr p) (length oob) fits)))))))
  where
    enough : (n a b : ℕ) → ltb n a || ltb b n ≡ false → a ≤ n
    enough n a b h = ground arith

    refused :
        (b : Bool) (m : Outcome RcvInfoError (ℕ × Option (List ℕ)))
        → (b ≡ false → Shrinks (length oob) m)
        → Shrinks (length oob) (refuse b invalid_rcv_info >>= λ _. m)
    refused true m h = tt
    refused false m h = h refl

    left :
        (after len : ℕ)
        → size_cmsghdr p ≤ len
        → Shrinks {E = RcvInfoError} (length oob) (
            ok (
              after,
              if ltb (length oob) (cmsg_align p len)
                  then none
                  else some (drop (cmsg_align p len) oob),
            ))
    left after len low =
        if_cases (λ (o : Option (List ℕ)). Shrinks {E = RcvInfoError} (length oob) (ok (after, o)))
          (ltb (length oob) (cmsg_align p len)) (λ _. tt)
          (λ h.
            let l = length-drop (cmsg_align p len) oob in
            let q = cmsg_align-pos p.word len (omega (arith, word_size-bounds p.word)) in
            let k : cmsg_align p len ≤ length oob = ground arith in omega arith)

count_records-ne-panic :
    (fuel : ℕ) (p : Platform) (records : ℕ) (oob : List ℕ)
    → length oob < fuel
    → count_records fuel p records oob ≢ panic
unfolding count_records Shrinks
count_records-ne-panic zero p records oob h = absurd (omega arith)
count_records-ne-panic (suc fuel) p records oob h =
    onward (λ n rest k. count_records-ne-panic fuel p n rest k) (count_record p records oob)
      (count_record-Shrinks p records oob)
  where
    onward :
        ((n : ℕ) (rest : List ℕ) → length rest < fuel → count_records fuel p n rest ≢ panic)
        → (m : Outcome RcvInfoError (ℕ × Option (List ℕ))) → Shrinks (length oob) m
        → (m >>= λ r. elim r.1 [ none ↦ ok r.0 | some rest ↦ count_records fuel p r.0 rest ])
          ≢ panic
    onward ih (ok (n, none)) s = λ e. cc
    onward ih (ok (n, some rest)) s = ih n rest (omega arith)
    onward ih (err x) s = λ e. cc
    onward ih panic s = absurd s

-- What an Endpoint may rely on.
abbrev pub IsRoutable : MsgInfo × Option RcvInfoError → Type 0
IsRoutable (info, e) =
    (info.notification ≡ true)
    ⊎ ((real_assoc_id info.rcv.assoc_id ≡ true) ⊎ ((info.rcv ≡ no_rcv_info) × (e ≢ none)))

check_rcv_info_record-real :
    (p : Platform) (oob : List ℕ) (id : ℕ)
    → check_rcv_info_record p oob id ≡ ok tt
    → real_assoc_id id ≡ true
unfolding check_rcv_info_record
check_rcv_info_record-real p oob id h =
    let (records, _, h1) = >>=-eq-ok (count_records (length oob + 1) p 0 oob) _ h in
    named (real_assoc_id id) (passed (ltb 1 records) _ _ (passed (records == 0) _ _ h1))
  where
    passed :
        (b : Bool) (e : RcvInfoError) (m : Outcome RcvInfoError Unit)
        → (refuse b e >>= λ _. m) ≡ ok tt
        → m ≡ ok tt
    passed true e m q = cc
    passed false e m q = q

    named : (b : Bool) → refuse (not b) invalid_rcv_info ≡ ok tt → b ≡ true
    named true q = refl
    named false q = cc

check_rcv_info_record-ne-panic :
    (p : Platform) (oob : List ℕ) (id : ℕ) → check_rcv_info_record p oob id ≢ panic
unfolding check_rcv_info_record
check_rcv_info_record-ne-panic p oob id =
    >>=-ne-panic (count_records (length oob + 1) p 0 oob) _
      (count_records-ne-panic (length oob + 1) p 0 oob (omega arith))
      (λ records q.
        unrefused (records == 0) _ _
          (unrefused (ltb 1 records) _ _ (last (not (real_assoc_id id)))))
  where
    last : (b : Bool) → refuse b invalid_rcv_info ≢ panic
    last true q = cc
    last false q = cc

    unrefused :
        (b : Bool) (e : RcvInfoError) (m : Outcome RcvInfoError Unit)
        → m ≢ panic
        → (refuse b e >>= λ _. m) ≢ panic
    unrefused true e m h = λ q. cc
    unrefused false e m h = h

Routes : Outcome RcvInfoError (MsgInfo × Option RcvInfoError) → Type 0
Routes m = (r : MsgInfo × Option RcvInfoError) × (m ≡ ok r) × IsRoutable r

check_info-Routes :
    (p : Platform) (oob : List ℕ) (info : MsgInfo) (truncated : Bool)
    → Routes (check_info p oob info truncated)
unfolding check_info Routes
check_info-Routes p oob info truncated =
    if_cases Routes info.notification (λ n. (_, refl, inl n))
      (λ _.
        checked (check_rcv_info_record p oob info.rcv.assoc_id)
          (check_rcv_info_record-real p oob info.rcv.assoc_id)
          (check_rcv_info_record-ne-panic p oob info.rcv.assoc_id))
  where
    checked :
        (m : Outcome RcvInfoError Unit)
        → (m ≡ ok tt → real_assoc_id info.rcv.assoc_id ≡ true)
        → m ≢ panic
        → Routes (elim m [
          | ok x ↦ ok (info, if truncated then some control_truncated else none)
          | err e ↦
              ok (
                record info { rcv = no_rcv_info },
                some (if truncated then control_truncated else e),
              )
          | panic ↦ panic
        ])
    checked (ok tt) real np = (_, refl, inr (inl (real refl)))
    checked (err e) real np = (_, refl, inr (inr (refl, λ q. cc)))
    checked panic real np = absurd (np refl)

-- Whatever the ancillary data of a message, parsing it ends with an info; where the message is data, its
-- info names a real association, or it is the zero one and an error is reported.
pub parse_endpoint_recv_cmsgs-IsRoutable :
    (p : Platform) (oob : List ℕ) (flags : ℕ)
    → (r : MsgInfo × Option RcvInfoError) × (parse_endpoint_recv_cmsgs p oob flags ≡ ok r)
      × IsRoutable r
unfolding parse_endpoint_recv_cmsgs Routes
parse_endpoint_recv_cmsgs-IsRoutable p oob flags =
    parsed (parse_recv_cmsgs {E = ⊥} p oob flags) (parse_recv_cmsgs-ne-panic p oob flags)
  where
    parsed :
        (m : Outcome ⊥ (MsgInfo × Bool))
        → m ≢ panic
        → Routes (elim m [
          | ok (info, truncated) ↦ check_info p oob info truncated
          | err e ↦ elim e [ ]
          | panic ↦ panic
        ])
    parsed (ok (info, truncated)) np = check_info-Routes p oob info truncated
    parsed (err e) np = elim e [ ]
    parsed panic np = absurd (np refl)
