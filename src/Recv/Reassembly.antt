-- ===== src/Recv/Reassembly.antt =====
-- The record that a reader is within, as its pieces arrive.
use go_sctp.Common.{
  ℕ, ◌<◌, ◌≡◌, refl, sym, ap, ◌∙◌, List, [], ◌++◌, Bool, true, false, ◌&&◌, Option, none, some,
  if◌then◌else◌, length, leb, if_cases, length-append, leb→le, arith,
}
use go_sctp.Bytes.{Endian, peek16}
use go_sctp.Notification.Accumulator.{add, reset, peek_type}
use go_sctp.Notification.Accumulator.Laws.{Tracks, Fits, add-Tracks}
use go_sctp.Notification.Accumulator.Reassembly.{add-retain}
use go_sctp.Notification.Accumulator.Peek.{
  type_of, peek16-append, peek_type-Tracks, keep-Tracks, add-unkept,
}
use go_sctp.Recv.Report.{is_reported, is_callers-reported}
use go_sctp.Recv.{RecvState, add_piece, note_type, start_record, set_type, is_callers}

-- Whether the reader keeps notifications and the record reaches the caller.
abbrev pub is_wanted : Endian → RecvState → List ℕ → Bool
is_wanted e s d = s.keep_notes && is_reported s.subs (peek16 e d 0)

pub split_eq :
    {A B : Type 0} (M : B → Type 0) (o : Option A) (x : B) (f : A → B)
    → (o ≡ none → M x)
    → ((a : A) → o ≡ some a → M (f a))
    → M (elim o [ none ↦ x | some a ↦ f a ])
split_eq M none x f h k = h refl
split_eq M (some a) x f h k = k a refl

-- A record of which the bytes `d` have been read, by a reader that began as `b`.
pub record Reading (e : Endian) (b : RecvState) (s : RecvState) (d : List ℕ) (known : List ℕ)
    : Type 0 where
  pub noting : s.noting ≡ true
  pub tracks : Tracks e s.notes d
  pub typed : s.typ ≡ type_of e known
  pub retained : s.notes.retain ≡ leb 8 (length known) && is_wanted e b known
  pub kept : s.kept ≡ s.notes.retain
  pub unkept : s.notes.retain ≡ false → s.notes.kept ≡ []
  pub keeps : s.keep_notes ≡ b.keep_notes
  pub subscribed : s.subs ≡ b.subs
  pub latch : s.term ≡ b.term

pub start_record-Reading :
    (e : Endian) (b : RecvState) → b.noting ≡ false → Reading e b (start_record b) [] []
unfolding start_record reset
start_record-Reading e b h =
    if_cases (λ (s : RecvState). Reading e b s [] []) b.noting
      (λ q. let both : true ≡ false = sym q ∙ h in cc)
      (λ _. record {
        noting = refl;
        tracks = record {
          reads = record {
            clean = refl;
            count = refl;
            front = record { room = refl; count = refl; bytes = refl };
            seen = refl;
            length_read = λ k. cc;
          };
          held = λ k. cc;
        };
        typed = refl;
        retained = refl;
        kept = refl;
        unkept = λ _. refl;
        keeps = refl;
        subscribed = refl;
        latch = refl;
      })

leb_more : (d p : List ℕ) → leb 8 (length d) ≡ true → leb 8 (length (d ++ p)) ≡ true
leb_more d p h = let l = length-append d p in ground arith

pub type_of-more :
    (e : Endian) (d p : List ℕ) → leb 8 (length d) ≡ true → type_of e (d ++ p) ≡ type_of e d
type_of-more e d p h = rw (h, leb_more d p h, peek16-append e d p (leb→le 8 (length d) h)) refl

is_wanted-more :
    (e : Endian) (b : RecvState) (d p : List ℕ)
    → leb 8 (length d) ≡ true
    → leb 8 (length (d ++ p)) && is_wanted e b (d ++ p) ≡ leb 8 (length d) && is_wanted e b d
is_wanted-more e b d p h = rw (h, leb_more d p h, peek16-append e d p (leb→le 8 (length d) h)) refl

typed_some :
    (e : Endian) (d : List ℕ) (t : ℕ)
    → type_of e d ≡ some t
    → (leb 8 (length d) ≡ true) × (t ≡ peek16 e d 0)
typed_some e d t = by_length (leb 8 (length d))
  where
    by_length :
        (x : Bool)
        → (if x then some (peek16 e d 0) else none) ≡ some t
        → (x ≡ true) × (t ≡ peek16 e d 0)
    by_length true q = (refl, cc)
    by_length false q = cc

typed_none : (e : Endian) (d : List ℕ) → type_of e d ≡ none → leb 8 (length d) ≡ false
typed_none e d = by_length (leb 8 (length d))
  where
    by_length : (x : Bool) → (if x then some (peek16 e d 0) else none) ≡ none → x ≡ false
    by_length true q = cc
    by_length false q = refl

not_retained :
    (e : Endian) (b s : RecvState) (d : List ℕ)
    → Reading e b s d d
    → length d < 8
    → s.notes.retain ≡ false
not_retained e b s d r h = r.retained ∙ ap (λ x. x && is_wanted e b d) (short (length d) h)
  where
    short : (n : ℕ) → n < 8 → leb 8 n ≡ false
    short n h = ground arith

-- The state as it was, for the same record with more bytes known.
pub settled :
    (e : Endian) (b s : RecvState) (d known : List ℕ)
    → Reading e b s d d
    → s.typ ≡ type_of e known
    → s.notes.retain ≡ leb 8 (length known) && is_wanted e b known
    → Reading e b s d known
settled e b s d known r q k = record {
  noting = r.noting;
  tracks = r.tracks;
  typed = q;
  retained = k;
  kept = r.kept;
  unkept = r.unkept;
  keeps = r.keeps;
  subscribed = r.subscribed;
  latch = r.latch;
}

set_type-Reading :
    (e : Endian) (b s : RecvState) (d p : List ℕ) (t : ℕ)
    → Reading e b s d d
    → length d < 8
    → type_of e (d ++ p) ≡ some t
    → Reading e b (set_type s t) d (d ++ p)
unfolding set_type
set_type-Reading e b s d p t r h q =
    let (known, t_eq) = typed_some e (d ++ p) t q in
    let off = not_retained e b s d r h in
    let (k1, k2, tracks) = keep-Tracks e s.notes d r.tracks h off (r.unkept off) in
    let wanted : is_wanted e b (d ++ p) ≡ s.keep_notes && is_callers s.subs t =
      ap (λ x. b.keep_notes && x) (sym (is_callers-reported b.subs (peek16 e (d ++ p) 0)))
      ∙ ap (λ x. x && is_callers b.subs (peek16 e (d ++ p) 0)) (sym r.keeps)
      ∙ ap (λ x. s.keep_notes && is_callers x (peek16 e (d ++ p) 0)) (sym r.subscribed)
      ∙ ap (λ x. s.keep_notes && is_callers s.subs x) (sym t_eq) in
    let now : leb 8 (length (d ++ p)) && is_wanted e b (d ++ p)
        ≡ s.keep_notes && is_callers s.subs t =
      ap (λ x. x && is_wanted e b (d ++ p)) known ∙ wanted in
    if_cases (λ (u : RecvState). Reading e b u d (d ++ p)) (s.keep_notes && is_callers s.subs t)
      (λ c. record {
        noting = r.noting;
        tracks = tracks;
        typed = sym q;
        retained = k2 ∙ sym (now ∙ c);
        kept = k1 ∙ sym k2;
        unkept = λ z. let both : true ≡ false = sym k2 ∙ z in cc;
        keeps = r.keeps;
        subscribed = r.subscribed;
        latch = r.latch;
      })
      (λ c. record {
        noting = r.noting;
        tracks = r.tracks;
        typed = sym q;
        retained = off ∙ sym (now ∙ c);
        kept = r.kept;
        unkept = r.unkept;
        keeps = r.keeps;
        subscribed = r.subscribed;
        latch = r.latch;
      })

note_type-Reading :
    (e : Endian) (b s : RecvState) (d p : List ℕ)
    → Reading e b s d d
    → Reading e b (note_type e s p) d (d ++ p)
unfolding note_type
note_type-Reading e b s d p r =
    split_eq (λ (u : RecvState). Reading e b u d (d ++ p)) s.typ _ _
      (λ u.
        let short = typed_none e d (sym r.typed ∙ u) in
        let few = below (length d) short in
        let peeked = peek_type-Tracks e s.notes d p r.tracks few in
        split_eq (λ (u : RecvState). Reading e b u d (d ++ p)) (peek_type e s.notes p) _ _
          (λ w.
            let unknown = sym peeked ∙ w in
            settled e b s d (d ++ p) r (u ∙ sym unknown) (
              not_retained e b s d r few
              ∙ sym (ap (λ x. x && is_wanted e b (d ++ p)) (typed_none e (d ++ p) unknown))))
          (λ t w. set_type-Reading e b s d p t r few (sym peeked ∙ w)))
      (λ t u.
        let (known, _) = typed_some e d t (sym r.typed ∙ u) in
        settled e b s d (d ++ p) r (r.typed ∙ sym (type_of-more e d p known))
          (r.retained ∙ sym (is_wanted-more e b d p known)))
  where
    below : (n : ℕ) → leb 8 n ≡ false → n < 8
    below n h = ground arith

add-Reading :
    (e : Endian) (b s : RecvState) (d p : List ℕ)
    → Reading e b s d (d ++ p)
    → Fits e (d ++ p)
    → Reading e b (record s { notes = add e s.notes p }) (d ++ p) (d ++ p)
add-Reading e b s d p r f = record {
  noting = r.noting;
  tracks = add-Tracks e s.notes d p r.tracks f;
  typed = r.typed;
  retained = add-retain e s.notes p ∙ r.retained;
  kept = r.kept ∙ sym (add-retain e s.notes p);
  unkept = λ h. let u = sym (add-retain e s.notes p) ∙ h in add-unkept e s.notes p u (r.unkept u);
  keeps = r.keeps;
  subscribed = r.subscribed;
  latch = r.latch;
}

pub add_piece-Reading :
    (e : Endian) (b s : RecvState) (d p : List ℕ)
    → Reading e b (start_record s) d d
    → Fits e (d ++ p)
    → Reading e b (add_piece e s p) (d ++ p) (d ++ p)
unfolding add_piece
add_piece-Reading e b s d p r f =
    add-Reading e b (note_type e (start_record s) p) d p
      (note_type-Reading e b (start_record s) d p r) f

pub start_record-same : (s : RecvState) → s.noting ≡ true → start_record s ≡ s
unfolding start_record
start_record-same s h =
    if_cases (λ (u : RecvState). u ≡ s) s.noting (λ _. refl)
      (λ q. let both : true ≡ false = sym h ∙ q in cc)
