-- ===== src/Recv/Pieces.antt =====
-- The calls that give one record, and the state after it.
use go_sctp.Common.{
  ℕ, ◌==◌, ◌≡◌, refl, sym, ap, ◌∙◌, List, [], ◌∷◌, Bool, true, false, ◌&&◌, Option, none, some,
  if◌then◌else◌, length, leb, has_bits, ok, if_cases, le→leb,
}
use go_sctp.Bytes.{Endian, peek16}
use go_sctp.Notification.{event_assoc_change}
use go_sctp.Notification.Accumulator.{reset, head, finish}
use go_sctp.Notification.Accumulator.Reassembly.{IsRecord, finish-kept}
use go_sctp.Term.{TermState}
use go_sctp.Message.Receive.{msg_eor}
use go_sctp.Recv.{
  RecvState, Received, Taken, Step, again, waits, done, attempt, receive, receive_piece,
  end_record_locked, start_record, is_piece, is_eintr, is_set,
}
use go_sctp.Recv.Reassembly.{split_eq, Reading, is_wanted}
use go_sctp.Recv.{mark, reported_state}
use go_sctp.Recv.Report.{state_of, heard, read_state, assoc_change_info-state, mark-heard}
use go_sctp.Recv.Serving.{if_true}

-- The calls that give one record: its pieces, without MSG_EOR up to the last, and interrupted calls between
-- them, with the bytes of the pieces.
pub data Pieces : List Received → List (List ℕ) → Type 0 where
  piece_last :
      {r : Received}
      → is_piece r ≡ true
      → is_eintr r.errno ≡ false
      → has_bits r.flags msg_eor ≡ true
      → Pieces (r ∷ []) (r.bytes ∷ [])
  piece_next :
      {r : Received} {rs : List Received} {fs : List (List ℕ)}
      → is_piece r ≡ true
      → is_eintr r.errno ≡ false
      → has_bits r.flags msg_eor ≡ false
      → Pieces rs fs
      → Pieces (r ∷ rs) (r.bytes ∷ fs)
  piece_interrupted :
      {r : Received} {rs : List Received} {fs : List (List ℕ)}
      → is_eintr r.errno ≡ true
      → Pieces rs fs
      → Pieces (r ∷ rs) fs

pub if_false : {A : Type 0} (b : Bool) (x y : A) → b ≡ false → (if b then x else y) ≡ y
if_false true x y q = cc
if_false false x y q = refl

-- The latch after the record, of whose types SCTP_ASSOC_CHANGE is 0x8001.
abbrev pub latch_after : Endian → List ℕ → Option TermState → Option TermState
latch_after e d none = none
latch_after e d (some l) = if peek16 e d 0 == 0x8001 then some (heard (state_of e d) l) else some l

-- After the record `d`: it has been consumed whole, it is retained exactly where it is the caller's, and the
-- latch holds what it says.
pub record Completed (e : Endian) (b t : RecvState) (d : List ℕ) : Type 0 where
  pub between : t.noting ≡ false
  pub typed : t.typ ≡ some (peek16 e d 0)
  pub kept : t.kept ≡ is_wanted e b d
  pub whole : finish t.notes ≡ ok (if is_wanted e b d then d else [])
  pub latch : t.term ≡ latch_after e d b.term

pub attempt-again :
    (e : Endian) (s t : RecvState) (r : Received) (rs : List Received)
    → receive e s r ≡ (t, again)
    → attempt e s (r ∷ rs) ≡ attempt e t rs
unfolding attempt
attempt-again e s t r rs q =
    ap {B = RecvState × Step × List Received}
      (λ (x : RecvState × Step). elim x.1 [
        | again ↦ attempt e x.0 rs
        | waits ↦ (x.0, waits, rs)
        | done k ↦ (x.0, done k, rs)
      ])
      q

pub attempt-done :
    (e : Endian) (s t : RecvState) (k : Taken) (r : Received) (rs : List Received)
    → receive e s r ≡ (t, done k)
    → attempt e s (r ∷ rs) ≡ (t, done k, rs)
unfolding attempt
attempt-done e s t k r rs q =
    ap {B = RecvState × Step × List Received}
      (λ (x : RecvState × Step). elim x.1 [
        | again ↦ attempt e x.0 rs
        | waits ↦ (x.0, waits, rs)
        | done k ↦ (x.0, done k, rs)
      ])
      q

pub with_control : RecvState → Received → RecvState
with_control s r = record s { control = r.control }

pub receive-interrupted :
    (e : Endian) (s : RecvState) (r : Received)
    → is_eintr r.errno ≡ true
    → receive e s r ≡ (with_control s r, again)
unfolding receive with_control
receive-interrupted e s r h = if_true (is_eintr r.errno) _ _ h

pub receive-piece :
    (e : Endian) (s : RecvState) (r : Received)
    → is_piece r ≡ true
    → is_eintr r.errno ≡ false
    → receive e s r ≡ receive_piece e (with_control s r) r
unfolding receive with_control
receive-piece e s r p h = if_false (is_eintr r.errno) _ _ h ∙ if_true (is_piece r) _ _ p

pub with_control-Reading :
    (e : Endian) (b s : RecvState) (r : Received) (d : List ℕ)
    → Reading e b (start_record s) d d
    → Reading e b (start_record (with_control s r)) d d
unfolding start_record with_control
with_control-Reading e b s r d = by_noting s.noting
  where
    same : (s : RecvState) → Reading e b s d d → Reading e b (record s { control = r.control }) d d
    same s h = record {
      noting = h.noting;
      tracks = h.tracks;
      typed = h.typed;
      retained = h.retained;
      kept = h.kept;
      unkept = h.unkept;
      keeps = h.keeps;
      subscribed = h.subscribed;
      latch = h.latch;
    }

    by_noting :
        (n : Bool)
        → Reading e b
            (if n
              then s
              else record s { notes = reset s.notes; noting = true; typ = none; kept = false })
            d
            d
        → Reading e b
            (if n then record s { control = r.control } else record s {
              control = r.control;
              notes = reset s.notes;
              noting = true;
              typ = none;
              kept = false;
            })
            d
            d
    by_noting true h = same s h
    by_noting false h =
        same (record s { notes = reset s.notes; noting = true; typ = none; kept = false }) h

pub complete :
    (e : Endian) (b s t : RecvState) (d : List ℕ)
    → Reading e b s d d
    → IsRecord e d
    → t.noting ≡ false
    → t.notes ≡ s.notes
    → t.typ ≡ s.typ
    → t.kept ≡ s.kept
    → t.term ≡ latch_after e d b.term
    → Completed e b t d
complete e b s t d r w h notes typ kept latch =
    let long = le→leb 8 (length d) w.long in
    let retained : s.notes.retain ≡ is_wanted e b d =
      r.retained ∙ ap (λ x. x && is_wanted e b d) long in
    record {
      between = h;
      typed = typ ∙ r.typed ∙ if_true (leb 8 (length d)) _ _ long;
      kept = kept ∙ r.kept ∙ retained;
      whole =
          ap finish notes
          ∙ finish-kept e s.notes d r.tracks w
          ∙ ap ok (bytes s.notes.retain refl)
          ∙ ap (λ x. ok (if x then d else [])) retained;
      latch = latch;
    }
  where
    bytes : (x : Bool) → s.notes.retain ≡ x → s.notes.kept ≡ (if x then d else [])
    bytes true q = r.tracks.held q
    bytes false q = r.unkept q

pub end_record_locked-Completed :
    (e : Endian) (b s : RecvState) (d : List ℕ)
    → Reading e b s d d
    → IsRecord e d
    → Completed e b (end_record_locked e s) d
unfolding end_record_locked reported_state head
end_record_locked-Completed e b s d r w =
    split_eq (λ (t : RecvState). Completed e b t d) s.term _ _
      (λ u. complete e b s _ d r w refl refl refl refl (r.latch ∙ none_after (sym r.latch ∙ u)))
      (λ l u.
        let is_type : is_set s.typ event_assoc_change ≡ (peek16 e d 0 == event_assoc_change) =
          ap (λ x. is_set x event_assoc_change)
            (r.typed ∙ if_true (leb 8 (length d)) _ _ (le→leb 8 (length d) w.long)) in
        let seen : latch_after e d b.term ≡ latch_after e d (some l) =
          ap (latch_after e d) (sym r.latch ∙ u) in
        if_cases (λ (t : RecvState). Completed e b t d) (is_set s.typ event_assoc_change)
          (λ c. complete e b s _ d r w refl refl refl refl (
            ap (λ h. some (mark (read_state e h) l)) r.tracks.reads.front.bytes
            ∙ ap (λ o. some (mark o l)) (assoc_change_info-state e d)
            ∙ ap some (mark-heard (state_of e d) l)
            ∙ sym (seen ∙ if_true (peek16 e d 0 == event_assoc_change) _ _ (sym is_type ∙ c))))
          (λ c.
            complete e b s _ d r w refl refl refl refl (
              u
              ∙ sym (seen ∙ if_false (peek16 e d 0 == event_assoc_change) _ _ (sym is_type ∙ c)))))
  where
    none_after : b.term ≡ none → b.term ≡ latch_after e d b.term
    none_after h = h ∙ ap (latch_after e d) (sym h)
