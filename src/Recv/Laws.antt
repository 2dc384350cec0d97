-- ===== src/Recv/Laws.antt =====
-- What holds of the receive storage between reads, and how a record is returned in pieces.
use go_sctp.Common.{
  ℕ, ◌+◌, ◌==◌, ◌≤◌, ◌≡◌, ◌≢◌, ◌⊎◌, inl, inr, refl, sym, ◌∙◌, List, [], ◌∷◌, Bool, true, false, not,
  ◌&&◌, ◌||◌, Option, none, some, if◌then◌else◌, length, take, drop, Outcome, ok, err, panic,
  if_cases, length-take, length-drop, arith,
}
use go_sctp.Platform.{Platform}
use go_sctp.Message.Receive.{parse_recv_cmsgs}
use go_sctp.Notification.{NotificationError}
use go_sctp.Notification.Accumulator.{finish}
use go_sctp.Recv.{RecvState, Received, Taken}
use go_sctp.Recv.Next.{
  Env, Poll, Got, parked, polled, taken, Delivered, still_reading, or_next, raw_read, recv_next,
  before_read, after_read, settle, settle_record, settle_data, drop_record, hand_over, has_handler,
  start_serving, serve_piece, stop_serving,
}
use go_sctp.Recv.Callback.{IsWf, split_option, Returns, raw_read-Returns}

-- What is left of the record that is being served.
abbrev pub remaining : RecvState → List ℕ
remaining s = if s.serving then drop s.served s.notes.kept else []

serve_piece-IsWf :
    (size : ℕ) (s : RecvState)
    → s.noting ≡ false
    → s.served ≤ length s.notes.kept
    → IsWf (serve_piece size s).0
unfolding serve_piece
serve_piece-IsWf size s h k =
    let le = length-take size (drop s.served s.notes.kept) in
    let all = length-drop s.served s.notes.kept in
    if_cases IsWf
      (s.served + length (take size (drop s.served s.notes.kept)) == length s.notes.kept)
      (λ _. record { between = h; unserved = λ q. cc })
      (λ ne. record { between = h; unserved = λ q. ground arith })

idle-IsWf : (s : RecvState) → s.noting ≡ false → s.serving ≡ false → IsWf s
idle-IsWf s h v = record { between = h; unserved = λ q. let both : true ≡ false = sym q ∙ v in cc }

split_outcome :
    {A E B : Type 0} (M : B → Type 0) (m : Outcome E A) (f : A → B) (g : E → B) (x : B)
    → ((a : A) → M (f a))
    → ((e : E) → M (g e))
    → M x
    → M (elim m [ ok a ↦ f a | err e ↦ g e | panic ↦ x ])
split_outcome M (ok a) f g x h k l = h a
split_outcome M (err e) f g x h k l = k e
split_outcome M panic f g x h k l = l

abbrev Left : RecvState × Option Delivered → Type 0
Left t = IsWf t.0

start_serving-IsWf :
    (p : Platform) (size : ℕ) (s : RecvState) (flags : ℕ)
    → s.noting ≡ false
    → s.serving ≡ false
    → Left (start_serving p size s flags)
unfolding start_serving
start_serving-IsWf p size s flags h v =
    split_outcome Left (parse_recv_cmsgs {E = NotificationError} p s.control flags) _ _ _
      (λ i.
        serve_piece-IsWf size (record s { serving = true; served = 0; serve_info = i.0 }) h
          (omega arith))
      (λ _. idle-IsWf s h v) (idle-IsWf s h v)

settle_record-IsWf :
    (p : Platform) (env : Env) (raw : Bool) (size : ℕ) (s : RecvState) (flags : ℕ)
    → s.noting ≡ false
    → s.serving ≡ false
    → Left (settle_record p env raw size s flags)
unfolding settle_record drop_record hand_over
settle_record-IsWf p env raw size s flags h v =
    if_cases Left (not s.kept) (λ _. idle-IsWf _ h v)
      (λ _.
        split_outcome Left (finish s.notes) _ _ _
          (λ whole.
            if_cases Left (has_handler env) (λ _. idle-IsWf _ h v)
              (λ _. start_serving-IsWf p size _ flags h v))
          (λ _. idle-IsWf _ h v) (idle-IsWf _ h v))

settle_data-IsWf :
    (p : Platform) (raw : Bool) (s : RecvState) (k : Taken)
    → s.noting ≡ false
    → s.serving ≡ false
    → Left (settle_data p raw s k)
unfolding settle_data
settle_data-IsWf p raw s k h v =
    if_cases Left (not raw) (λ _. idle-IsWf _ h v)
      (λ _.
        split_outcome Left (parse_recv_cmsgs {E = NotificationError} p s.control k.flags) _ _ _
          (λ _. idle-IsWf _ h v) (λ _. idle-IsWf _ h v) (idle-IsWf _ h v))

settle-IsWf :
    (p : Platform) (env : Env) (raw : Bool) (size : ℕ) (s : RecvState) (k : Taken)
    → s.noting ≡ false
    → s.serving ≡ false
    → IsWf (settle p env raw size s k).0
unfolding settle
settle-IsWf p env raw size s k h v =
    split_option Left k.error _ _
      (if_cases Left k.record_end (λ _. settle_record-IsWf p env raw size s k.flags h v)
        (λ _. settle_data-IsWf p raw s k h v))
      (λ x. if_cases Left k.cut (λ _. idle-IsWf _ h v) (λ _. idle-IsWf s h v))

abbrev Before : RecvState × Option Delivered → Type 0
Before (t, none) = (t.noting ≡ false) × (t.serving ≡ false)
Before (t, some d) = IsWf t

before_read-Before :
    (env : Env) (raw : Bool) (size : ℕ) (s : RecvState)
    → IsWf s
    → Before (before_read env raw size s)
unfolding before_read
before_read-Before env raw size s w =
    if_cases Before (s.serving && raw)
      (λ q. serve_piece-IsWf size s w.between (let k = w.unserved (ground arith) in omega arith))
      (λ _.
        idle
          (record (if s.serving then stop_serving s else s) { keep_notes = raw || has_handler env })
          (if_cases (λ (t : RecvState). t.noting ≡ false) s.serving (λ _. w.between)
            (λ _. w.between))
          (if_cases (λ (t : RecvState). t.serving ≡ false) s.serving (λ _. refl) (λ q. q)) _)
  where
    idle :
        (t : RecvState)
        → t.noting ≡ false
        → t.serving ≡ false
        → (x : Option Delivered) → Before (t, x)
    idle t h v none = (h, v)
    idle t h v (some d) = idle-IsWf t h v

-- Either the read has not returned, or the state is well formed.
abbrev LeftOrReading : RecvState × Option Delivered → Type 0
LeftOrReading t = (t.1 ≡ some still_reading) ⊎ IsWf t.0

after_read-IsWf :
    (p : Platform) (env : Env) (raw : Bool) (size : ℕ) (s : RecvState) (got : Got)
    (rest : List Received)
    → Returns (s, got, rest)
    → LeftOrReading (after_read p env raw size s got)
unfolding after_read
after_read-IsWf p env raw size s parked rest h = inl refl
after_read-IsWf p env raw size s (polled x) rest h = inr (idle-IsWf s h.0 h.1)
after_read-IsWf p env raw size s (taken k) rest h = inr (settle-IsWf p env raw size s k h.0 h.1)

-- Unless the read has not returned, the state is well formed.
abbrev Leaves : RecvState × Delivered × List Received → Type 0
Leaves x = x.1 ≢ still_reading → IsWf x.0

or_next-Before :
    (t : RecvState) (early : Option Delivered) (calls : List Received)
    (next : RecvState × Delivered × List Received)
    → Before (t, early)
    → (t.noting ≡ false → t.serving ≡ false → Leaves next)
    → Leaves (or_next early t calls next)
or_next-Before t none calls next b h = h b.0 b.1
or_next-Before t (some d) calls next b h = λ _. b

or_next-after :
    (v : RecvState) (late : Option Delivered) (left : List Received)
    (next : RecvState × Delivered × List Received)
    → LeftOrReading (v, late)
    → (IsWf v → Leaves next)
    → Leaves (or_next late v left next)
or_next-after v none left next (inl q) h = cc
or_next-after v none left next (inr w) h = h w
or_next-after v (some d) left next (inl q) h = λ returns. elim (returns cc) [ ]
or_next-after v (some d) left next (inr w) h = λ _. w

-- A read of a connection that is between records leaves it between records, whatever the kernel and the
-- poller do, unless it has not returned: no deadline and no error leaves a reader inside of a record.
pub recv_next-IsWf :
    (p : Platform) (env : Env) (raw : Bool) (size : ℕ) (s : RecvState) (reads : List (List Poll))
    (calls : List Received)
    → IsWf s
    → (recv_next p env raw size s reads calls).1 ≢ still_reading
    → IsWf (recv_next p env raw size s reads calls).0
unfolding recv_next
recv_next-IsWf p env raw size s [] calls w = λ _. w
recv_next-IsWf p env raw size s (polls ∷ reads) calls w =
    let t = (before_read env raw size s).0 in
    let got = raw_read p t polls calls in
    let v = after_read p env raw size got.0 got.1 in
    or_next-Before t _ calls _ (before_read-Before env raw size s w) (λ h k.
      or_next-after v.0 v.1 got.2 _
        (after_read-IsWf p env raw size got.0 got.1 got.2 (raw_read-Returns p t polls calls h k))
        (λ w. recv_next-IsWf p env raw size v.0 reads got.2 w))
