-- ===== src/Recv/Record.antt =====
-- A notification record that arrives in pieces is read by one attempt.
use go_sctp.Common.{ℕ, ◌≡◌, refl, sym, ◌∙◌, List, [], ◌∷◌, ◌++◌, true, false, none, has_bits}
use mathlib.Core.Path.{subst}
use mathlib.Core.List.{append_assoc, append-nil}
use go_sctp.Bytes.{Endian}
use go_sctp.Notification.Accumulator.Laws.{Fits}
use go_sctp.Notification.Accumulator.Reassembly.{IsRecord, joined, Fits-prefix, Fits-IsRecord}
use go_sctp.Message.Receive.{msg_eor}
use go_sctp.Recv.{
  RecvState, Received, Taken, Step, again, done, attempt, receive, receive_piece, end_record_locked,
  add_piece, start_record,
}
use go_sctp.Recv.Reassembly.{Reading, add_piece-Reading, start_record-Reading, start_record-same}
use go_sctp.Recv.Serving.{if_true}
use go_sctp.Recv.Pieces.{
  Pieces, if_false, Completed, with_control, piece_last, piece_next, piece_interrupted,
  attempt-again, attempt-done, end_record_locked-Completed, receive-interrupted, receive-piece,
  with_control-Reading,
}

-- The end of an attempt that has read the record `d`.
abbrev ReadsRecord :
    Endian → RecvState → List ℕ → List Received → RecvState × Step × List Received → Type 0
ReadsRecord e b d more out =
    (t : RecvState) × (k : Taken) × (out ≡ (t, done k, more))
    × (k.record_end ≡ true)
    × (k.error ≡ none)
    × Completed e b t d

-- One call more, and what the rest gives.
again_first :
    (e : Endian) (b s t : RecvState) (d : List ℕ) (r : Received) (rs more : List Received)
    → receive e s r ≡ (t, again)
    → ReadsRecord e b d more (attempt e t (rs ++ more))
    → ReadsRecord e b d more (attempt e s (r ∷ (rs ++ more)))
again_first e b s t d r rs more q (u, k, run, ended, clean, rest) =
    (u, k, attempt-again e s t r (rs ++ more) q ∙ run, ended, clean, rest)

piece-Fits : (e : Endian) (d p x : List ℕ) → IsRecord e (d ++ (p ++ x)) → Fits e (d ++ p)
piece-Fits e d p x w =
    Fits-prefix e (d ++ p) x
      (subst (Fits e) (sym (append_assoc d p x)) (Fits-IsRecord e (d ++ (p ++ x)) w))

attempt-Reading :
    (e : Endian) (b s : RecvState) (d : List ℕ) (more : List Received) {rs : List Received}
    {fs : List (List ℕ)}
    → Pieces rs fs
    → Reading e b (start_record s) d d
    → IsRecord e (d ++ joined fs)
    → ReadsRecord e b (d ++ joined fs) more (attempt e s (rs ++ more))
unfolding receive_piece
attempt-Reading e b s d more (piece_last {r = r} p i eor) h w =
    let t = with_control s r in
    let added =
      add_piece-Reading e b t d r.bytes (with_control-Reading e b s r d h)
        (piece-Fits e d r.bytes [] w) in
    let whole = subst (λ x. IsRecord e (d ++ x)) (append-nil r.bytes) w in
    let k : Taken = record {
      bytes = [];
      flags = r.flags;
      record_end = true;
      cut = false;
      error = none;
    } in
    (
      end_record_locked e (add_piece e t r.bytes),
      k,
      attempt-done e s (end_record_locked e (add_piece e t r.bytes)) k r more
          (receive-piece e s r p i ∙ if_true (has_bits r.flags msg_eor) _ _ eor),
      refl,
      refl,
      subst (λ x. Completed e b (end_record_locked e (add_piece e t r.bytes)) (d ++ x))
          (sym (append-nil r.bytes))
          (end_record_locked-Completed e b (add_piece e t r.bytes) (d ++ r.bytes) added whole),
    )
attempt-Reading e b s d more (piece_next {r = r} {rs = rs} {fs = fs} p i eor pieces) h w =
    let t = with_control s r in
    let u = add_piece e t r.bytes in
    let added =
      add_piece-Reading e b t d r.bytes (with_control-Reading e b s r d h)
        (piece-Fits e d r.bytes (joined fs) w) in
    let go_on =
      subst (λ x. Reading e b x (d ++ r.bytes) (d ++ r.bytes))
        (sym (start_record-same u added.noting)) added in
    let assoc = append_assoc d r.bytes (joined fs) in
    again_first e b s u (d ++ (r.bytes ++ joined fs)) r rs more
      (receive-piece e s r p i ∙ if_false (has_bits r.flags msg_eor) _ _ eor)
      (subst (λ x. ReadsRecord e b x more (attempt e u (rs ++ more))) assoc
        (attempt-Reading e b u (d ++ r.bytes) more pieces go_on (subst (IsRecord e) (sym assoc) w)))
attempt-Reading e b s d more (piece_interrupted {r = r} {rs = rs} {fs = fs} i pieces) h w =
    again_first e b s (with_control s r) (d ++ joined fs) r rs more (receive-interrupted e s r i)
      (attempt-Reading e b (with_control s r) d more pieces (with_control-Reading e b s r d h) w)

-- A whole notification record that recvmsg gives in any pieces, with MSG_EOR on the last, and with any
-- number of interrupted calls between them, is read by one attempt, and the calls after it are left. Its
-- type is known; it is retained, and `finish` gives it, exactly where the reader keeps notifications and
-- the caller receives the type: the association changes and the partial delivery events where it has
-- subscribed to them, any other type always. An association change of state SCTP_COMM_LOST marks the latch
-- failed, one of state SCTP_SHUTDOWN_COMP marks it ended, and no other record changes the latch.
pub attempt-Completed :
    (e : Endian) (s : RecvState) (rs more : List Received) (fs : List (List ℕ))
    → s.noting ≡ false
    → Pieces rs fs
    → IsRecord e (joined fs)
    → (t : RecvState) × (k : Taken) × (attempt e s (rs ++ more) ≡ (t, done k, more))
      × (k.record_end ≡ true)
      × (k.error ≡ none)
      × Completed e s t (joined fs)
attempt-Completed e s rs more fs h pieces w =
    attempt-Reading e s s [] more pieces (start_record-Reading e s h) w
