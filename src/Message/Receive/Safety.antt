-- ===== src/Message/Receive/Safety.antt =====
-- A receive never panics and its loop ends, whatever the control bytes are.
use go_sctp.Common.{
  ℕ, zero, suc, ◌+◌, ◌-◌, ◌%◌, ◌≤◌, ◌<◌, ◌≡◌, ◌≢◌, refl, List, Bool, true, false, not, ◌&&◌, ◌||◌,
  Option, none, some, ltb, leb, ◌==◌, if◌then◌else◌, length, drop, length-drop, Outcome, ok, err,
  panic, ◌>>=◌, >>=-ne-panic, if_cases, arith, leb→le,
}
use go_sctp.Bytes.{Endian, uint32, slice, big}
use go_sctp.Bytes.Laws.{uint16_lem, uint32_lem, uint64_lem, slice_lem}
use go_sctp.Platform.{Platform, WordSize, w32, w64, word_size}
use go_sctp.Message.{
  size_cmsghdr, cmsghdr_level_off, cmsghdr_type_off, cmsg_align, cmsg_rcv_info, cmsg_nxt_info,
  ipproto_sctp,
}
use go_sctp.Message.Receive.{
  MsgInfo, decode_rcv_info, decode_nxt_info, record_in, next_record, walk, parse_recv_cmsgs,
  size_rcv_info, size_nxt_info, read_word,
}

-- What a turn of the loop gives: no panic, and fewer bytes to go on with.
unfoldable pub Shrinks : {E A : Type 0} → ℕ → Outcome E (A × Option (List ℕ)) → Type 0
Shrinks n (ok (a, none)) = Unit
Shrinks n (ok (a, some rest)) = length rest < n
Shrinks n (err e) = Unit
Shrinks n panic = ⊥

decode_rcv_info-ne-panic :
    {E : Type 0} (p : Platform) (b : List ℕ) → 28 ≤ length b → decode_rcv_info {E = E} p b ≢ panic
unfolding decode_rcv_info
decode_rcv_info-ne-panic p b h =
    rw
      (
        uint16_lem p.order b 0 (omega arith),
        uint16_lem p.order b 2 (omega arith),
        uint16_lem p.order b 4 (omega arith),
        uint32_lem big b 8 (omega arith),
        uint32_lem p.order b 12 (omega arith),
        uint32_lem p.order b 16 (omega arith),
        uint32_lem p.order b 20 (omega arith),
        uint32_lem p.order b 24 (omega arith),
      )
      (λ e. cc)

decode_nxt_info-ne-panic :
    {E : Type 0} (p : Platform) (b : List ℕ) → 16 ≤ length b → decode_nxt_info {E = E} p b ≢ panic
unfolding decode_nxt_info
decode_nxt_info-ne-panic p b h =
    rw
      (
        uint16_lem p.order b 2 (omega arith),
        uint16_lem p.order b 0 (omega arith),
        uint32_lem big b 4 (omega arith),
        uint32_lem p.order b 8 (omega arith),
        uint32_lem p.order b 12 (omega arith),
      )
      (λ e. cc)

record_in-ne-panic :
    {E : Type 0} (p : Platform) (info : MsgInfo) (level typ : ℕ) (payload : List ℕ)
    → record_in {E = E} p info level typ payload ≢ panic
unfolding record_in
record_in-ne-panic {E} p info level typ payload =
    let P : Outcome E MsgInfo → Type 0 = λ m. m ≢ panic in
    if_cases P (not (level == ipproto_sctp)) (λ _ e. cc)
      (λ _.
        if_cases P (typ == cmsg_rcv_info)
          (λ _.
            if_cases P (not info.notification && leb size_rcv_info (length payload))
              (λ h.
                >>=-ne-panic (decode_rcv_info p payload) (λ r. ok (record info { rcv = r }))
                  (decode_rcv_info-ne-panic p payload (enough (not info.notification) 28 h))
                  (λ a q e. cc))
              (λ _ e. cc))
          (λ _.
            if_cases P (typ == cmsg_nxt_info && leb size_nxt_info (length payload))
              (λ h.
                >>=-ne-panic (decode_nxt_info p payload)
                  (λ n. ok (record info { nxt = n; has_nxt = true }))
                  (decode_nxt_info-ne-panic p payload (enough (typ == cmsg_nxt_info) 16 h))
                  (λ a q e. cc))
              (λ _ e. cc)))
  where
    enough : (b : Bool) (n : ℕ) → b && leb n (length payload) ≡ true → n ≤ length payload
    enough true n h = leb→le n (length payload) h
    enough false n h = cc

pub Shrinks->>= :
    {E A B : Type 0} (n : ℕ) (m : Outcome E A) (f : A → Outcome E (B × Option (List ℕ)))
    → m ≢ panic
    → ((a : A) → m ≡ ok a → Shrinks n (f a))
    → Shrinks n (m >>= f)
unfolding Shrinks
Shrinks->>= n (ok a) f h k = k a refl
Shrinks->>= n (err e) f h k = tt
Shrinks->>= n panic f h k = absurd (h refl)

pub word_size-bounds : (w : WordSize) → (4 ≤ word_size w) × (word_size w ≤ 8)
word_size-bounds w32 = (omega arith, omega arith)
word_size-bounds w64 = (omega arith, omega arith)

pub word-ne-panic :
    {E : Type 0} (e : Endian) (w : WordSize) (names : ℕ → Option (List ℕ)) (b : List ℕ)
    → word_size w ≤ length b
    → read_word {E = E} (record { order = e; word = w; interface_name = names }) b ≢ panic
unfolding read_word
word-ne-panic e w32 names b h = rw (uint32_lem e b 0 h) (λ q. cc)
word-ne-panic e w64 names b h = rw (uint64_lem e b 0 h) (λ q. cc)

pub cmsg_align-pos :
    (w : WordSize) (n : ℕ) → 8 ≤ n → let m = n + word_size w - 1 in 1 ≤ m - m % word_size w
cmsg_align-pos w32 n h = omega arith
cmsg_align-pos w64 n h = omega arith

-- A turn of the loop does not panic, and what it leaves is shorter.
next_record-Shrinks :
    (E : Type 0) (p : Platform) (info : MsgInfo) (oob : List ℕ)
    → Shrinks (length oob) (next_record {E = E} p info oob)
unfolding next_record Shrinks
next_record-Shrinks E p info oob =
    let P : Outcome E (MsgInfo × Option (List ℕ)) → Type 0 = Shrinks (length oob) in
    let w = word_size-bounds p.word in
    if_cases P (ltb (length oob) (size_cmsghdr p)) (λ _. tt)
      (λ short.
        let long : size_cmsghdr p ≤ length oob = not_below (length oob) (size_cmsghdr p) short in
        Shrinks->>= (length oob) (read_word p oob) _
          (word-ne-panic p.order p.word p.interface_name oob (omega arith))
          (λ len _.
            if_cases P (ltb len (size_cmsghdr p) || ltb (length oob) len) (λ _. tt)
              (λ fits.
                let (low, high) = in_bounds len (size_cmsghdr p) (length oob) fits in
                Shrinks->>= (length oob) (uint32 p.order oob (cmsghdr_level_off p)) _
                  (rw (uint32_lem p.order oob (cmsghdr_level_off p) (omega arith)) (λ q. cc))
                  (λ level _.
                    Shrinks->>= (length oob) (uint32 p.order oob (cmsghdr_type_off p)) _
                      (rw (uint32_lem p.order oob (cmsghdr_type_off p) (omega arith)) (λ q. cc))
                      (λ typ _.
                        Shrinks->>= (length oob) (slice oob (size_cmsghdr p) len) _
                          (rw (slice_lem oob (size_cmsghdr p) len low high) (λ q. cc))
                          (λ payload _.
                            Shrinks->>= (length oob) (record_in p info level typ payload) _
                              (record_in-ne-panic p info level typ payload)
                              (λ after _. left after len low)))))))
  where
    not_below : (a b : ℕ) → ltb a b ≡ false → b ≤ a
    not_below a b h = ground arith

    in_bounds : (n a b : ℕ) → ltb n a || ltb b n ≡ false → (a ≤ n) × (n ≤ b)
    in_bounds n a b h = ground arith

    left :
        (after : MsgInfo) (len : ℕ)
        → size_cmsghdr p ≤ len
        → Shrinks {E = E} (length oob) (
            ok (
              after,
              if ltb (length oob) (cmsg_align p len)
                  then none
                  else some (drop (cmsg_align p len) oob),
            ))
    left after len low =
        if_cases (λ (o : Option (List ℕ)). Shrinks {E = E} (length oob) (ok (after, o)))
          (ltb (length oob) (cmsg_align p len)) (λ _. tt)
          (λ h. omega (
            arith,
            length-drop (cmsg_align p len) oob,
            cmsg_align-pos p.word len (omega arith),
            not_below (length oob) (cmsg_align p len) h,
          ))

walk-ne-panic :
    {E : Type 0} (fuel : ℕ) (p : Platform) (info : MsgInfo) (oob : List ℕ)
    → length oob < fuel
    → walk {E = E} fuel p info oob ≢ panic
unfolding walk Shrinks
walk-ne-panic zero p info oob h = absurd (omega arith)
walk-ne-panic {E} (suc fuel) p info oob h =
    onward (λ after rest k. walk-ne-panic fuel p after rest k) (next_record p info oob)
      (next_record-Shrinks E p info oob)
  where
    onward :
        ((after : MsgInfo) (rest : List ℕ)
          → length rest < fuel
          → walk {E = E} fuel p after rest ≢ panic)
        → (m : Outcome E (MsgInfo × Option (List ℕ))) → Shrinks (length oob) m
        → (m >>= λ r. elim r.1 [ none ↦ ok r.0 | some rest ↦ walk fuel p r.0 rest ]) ≢ panic
    onward ih (ok (after, none)) s = λ e. cc
    onward ih (ok (after, some rest)) s = ih after rest (omega arith)
    onward ih (err x) s = λ e. cc
    onward ih panic s = absurd s

-- Whatever the control bytes are, parsing them ends, with the info and no read out of range.
pub parse_recv_cmsgs-ne-panic :
    {E : Type 0} (p : Platform) (oob : List ℕ) (flags : ℕ)
    → parse_recv_cmsgs {E = E} p oob flags ≢ panic
unfolding parse_recv_cmsgs
parse_recv_cmsgs-ne-panic p oob flags =
    >>=-ne-panic _ _ (walk-ne-panic (length oob + 1) p _ oob (omega arith)) (λ a q e. cc)
