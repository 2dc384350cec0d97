-- ===== src/Recv/Callback.antt =====
-- recv_linux.go: what the callback and raw.Read leave, whatever the calls give.
use go_sctp.Common.{
  ℕ, ◌<◌, ◌≡◌, refl, ◌∙◌, List, [], ◌∷◌, Bool, true, false, ◌&&◌, Option, none, some, if◌then◌else◌,
  length, has_bits, if_cases,
}
use mathlib.Core.Path.{subst}
use go_sctp.Bytes.{Endian}
use go_sctp.Platform.{Platform}
use go_sctp.Notification.{event_assoc_change}
use go_sctp.Notification.Accumulator.{peek_type}
use go_sctp.Term.{Errno}
use go_sctp.Message.Receive.{msg_eor}
use go_sctp.Recv.{
  read_error, store_error, RecvState, Received, Step, again, waits, done, attempt, receive,
  receive_data, receive_piece, cut_record, end_record_locked, add_piece, note_type, start_record,
  set_type, is_callers, is_piece, is_eintr, data_error, is_would_block, is_set,
}
use go_sctp.Recv.Next.{Poll, ready, poll_error, Got, parked, polled, taken, raw_read}

-- Between records, and within the record that is being served, if there is one.
pub record IsWf (s : RecvState) : Type 0 where
  pub between : s.noting ≡ false
  pub unserved : s.serving ≡ true → s.served < length s.notes.kept

-- The state after a round that ends the callback; nothing that it does touches what is being served.
abbrev pub Ends : Bool → RecvState × Step → Type 0
Ends b (t, again) = t.serving ≡ b
Ends b (t, waits) = (t.noting ≡ false) × (t.serving ≡ b)
Ends b (t, done k) = (t.noting ≡ false) × (t.serving ≡ b)

pub split_option :
    {A B : Type 0} (M : B → Type 0) (o : Option A) (x : B) (f : A → B)
    → M x
    → ((a : A) → M (f a))
    → M (elim o [ none ↦ x | some a ↦ f a ])
split_option M none x f h k = h
split_option M (some a) x f h k = k a

end_record_locked-Ends :
    (e : Endian) (s : RecvState)
    → ((end_record_locked e s).noting ≡ false) × ((end_record_locked e s).serving ≡ s.serving)
unfolding end_record_locked
end_record_locked-Ends e s =
    split_option (λ (t : RecvState). (t.noting ≡ false) × (t.serving ≡ s.serving)) s.term _ _
      (refl, refl)
      (λ l.
        if_cases (λ (t : RecvState). (t.noting ≡ false) × (t.serving ≡ s.serving))
          (is_set s.typ event_assoc_change) (λ _. (refl, refl)) (λ _. (refl, refl)))

add_piece-serving :
    (e : Endian) (s : RecvState) (b : List ℕ) → (add_piece e s b).serving ≡ s.serving
unfolding add_piece note_type start_record set_type
add_piece-serving e s b =
    noted (if s.noting then s else _)
      (if_cases (λ (t : RecvState). t.serving ≡ s.serving) s.noting (λ _. refl) (λ _. refl))
  where
    noted : (t : RecvState) → t.serving ≡ s.serving → (note_type e t b).serving ≡ s.serving
    noted t h =
        split_option (λ (u : RecvState). u.serving ≡ s.serving) t.typ _ _
          (split_option (λ (u : RecvState). u.serving ≡ s.serving) (peek_type e t.notes b) _ _ h
            (λ typ.
              if_cases (λ (u : RecvState). u.serving ≡ s.serving)
                (t.keep_notes && is_callers t.subs typ) (λ _. h) (λ _. h)))
          (λ _. h)

read_error-same :
    (s : RecvState) (x : Errno)
    → ((read_error s x).0.noting ≡ s.noting) × ((read_error s x).0.serving ≡ s.serving)
read_error-same s x =
    split_option (λ (t : RecvState × Errno). (t.0.noting ≡ s.noting) × (t.0.serving ≡ s.serving))
      s.term _ _ (refl, refl) (λ l. (refl, refl))

store_error-serving : (s : RecvState) (x : Option Errno) → (store_error s x).serving ≡ s.serving
store_error-serving s none = refl
store_error-serving s (some x) = refl

receive_data-Ends :
    (s : RecvState) (r : Received) → s.noting ≡ false → Ends s.serving (receive_data s r)
unfolding receive_data
receive_data-Ends s r h =
    split_option (Ends s.serving) (data_error r) _ _ (h, refl)
      (λ x.
        let (n, v) = read_error-same s x in
        if_cases (λ (st : Step). Ends s.serving ((read_error s x).0, st))
          (is_would_block (read_error s x).1) (λ _. (n ∙ h, v)) (λ _. (n ∙ h, v)))

receive-Ends : (e : Endian) (s : RecvState) (r : Received) → Ends s.serving (receive e s r)
unfolding receive receive_piece cut_record
receive-Ends e s r =
    if_cases (Ends s.serving) (is_eintr r.errno) (λ _. refl)
      (λ _.
        if_cases (Ends s.serving) (is_piece r) (λ _. piece (record s { control = r.control }))
          (λ _.
            if_cases (Ends s.serving) s.noting
              (λ _. (refl, store_error-serving (record s { control = r.control }) r.errno))
              (λ n. receive_data-Ends _ r n)))
  where
    piece : (s : RecvState) → Ends s.serving (receive_piece e s r)
    piece s =
        let (n, v) = end_record_locked-Ends e (add_piece e s r.bytes) in
        if_cases (Ends s.serving) (has_bits r.flags msg_eor)
          (λ _. (n, v ∙ add_piece-serving e s r.bytes)) (λ _. add_piece-serving e s r.bytes)

attempt-Ends :
    (e : Endian) (s : RecvState) (rs : List Received)
    → Ends s.serving ((attempt e s rs).0, (attempt e s rs).1)
unfolding attempt
attempt-Ends e s [] = refl
attempt-Ends e s (r ∷ rs) =
    by_step (receive e s r).0 (receive e s r).1 (receive-Ends e s r)
      (attempt-Ends e (receive e s r).0 rs)
  where
    by_step :
        (t : RecvState) (st : Step)
        → Ends s.serving (t, st)
        → Ends t.serving ((attempt e t rs).0, (attempt e t rs).1)
        → (let out : RecvState × Step × List Received = elim st [
          | again ↦ attempt e t rs
          | waits ↦ (t, waits, rs)
          | done k ↦ (t, done k, rs)
        ] in
            Ends s.serving (out.0, out.1))
    by_step t again h rest = subst (λ b. Ends b ((attempt e t rs).0, (attempt e t rs).1)) h rest
    by_step t waits h rest = h
    by_step t (done k) h rest = h

-- The state after raw.Read, where it returned.
abbrev pub Returns : RecvState × Got × List Received → Type 0
Returns (t, parked, rest) = Unit {0}
Returns (t, polled x, rest) = (t.noting ≡ false) × (t.serving ≡ false)
Returns (t, taken k, rest) = (t.noting ≡ false) × (t.serving ≡ false)

pub raw_read-Returns :
    (p : Platform) (s : RecvState) (polls : List Poll) (calls : List Received)
    → s.noting ≡ false
    → s.serving ≡ false
    → Returns (raw_read p s polls calls)
unfolding raw_read
raw_read-Returns p s [] calls h k = tt
raw_read-Returns p s (poll_error x ∷ polls) calls h k = (h, k)
raw_read-Returns p s (ready ∷ polls) calls h k =
    by_step (attempt p.order s calls).0 (attempt p.order s calls).1 (attempt p.order s calls).2
      (attempt-Ends p.order s calls)
      (raw_read-Returns p (attempt p.order s calls).0 polls (attempt p.order s calls).2)
  where
    by_step :
        (t : RecvState) (st : Step) (rest : List Received)
        → Ends s.serving (t, st)
        → (t.noting ≡ false → t.serving ≡ false → Returns (raw_read p t polls rest))
        → Returns (elim st [
          | again ↦ (t, parked, rest)
          | waits ↦ raw_read p t polls rest
          | done j ↦ (t, taken j, rest)
        ])
    by_step t again rest q later = tt
    by_step t waits rest q later = later q.0 (q.1 ∙ k)
    by_step t (done j) rest q later = (q.0, q.1 ∙ k)
