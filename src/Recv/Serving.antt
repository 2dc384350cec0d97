-- ===== src/Recv/Serving.antt =====
-- RecvMsg without a handler: a notification record is returned in pieces.
use go_sctp.Common.{
  ℕ, zero, suc, drop_all, ◌+◌, ◌-◌, ◌==◌, ◌≤◌, ◌<◌, ◌≡◌, refl, sym, ap, ◌∙◌, List, [], ◌∷◌, ◌++◌,
  Bool, true, false, ◌&&◌, Option, some, if◌then◌else◌, length, take, drop, min, length-take,
  length-drop, arith,
}
use go_sctp.Platform.{Platform}
use go_sctp.Message.Receive.{MsgInfo}
use go_sctp.Recv.{RecvState, Received}
use go_sctp.Recv.Callback.{IsWf}
use go_sctp.Recv.Laws.{remaining}
use go_sctp.Recv.Next.{
  Env, Poll, Delivered, delivered, recv_next, raw_read, after_read, before_read, serve_piece,
  stop_serving, or_next,
}

-- The piece that is next of `rest`, as long as `size` and `rest` allow, and what it leaves.
pub record IsPiece (size : ℕ) (rest : List ℕ) (piece : List ℕ) (info : MsgInfo) (after : List ℕ)
    : Type 0 where
  pub whole : piece ++ after ≡ rest
  pub most : length piece ≡ min size (length rest)
  pub end : info.eor ≡ (length after == 0)
  pub marked : info.notification ≡ true

take-drop : (n : ℕ) (xs : List ℕ) → take n xs ++ drop (length (take n xs)) xs ≡ xs
take-drop zero xs = refl
take-drop (suc n) [] = refl
take-drop (suc n) (x ∷ xs) = ap (λ l. x ∷ l) (take-drop n xs)

drop-drop : (n m : ℕ) (xs : List ℕ) → drop m (drop n xs) ≡ drop (n + m) xs
drop-drop zero m xs = ap (λ n. drop n xs) (omega arith)
drop-drop (suc n) m [] = drop_all m [] (omega arith) ∙ sym (drop_all (suc n + m) [] (omega arith))
drop-drop (suc n) m (x ∷ xs) =
    drop-drop n m xs ∙ ap (λ k. drop k (x ∷ xs)) {x = suc (n + m)} (omega arith)

pub if_true : {A : Type 0} (b : Bool) (x y : A) → b ≡ true → (if b then x else y) ≡ x
if_true true x y q = refl
if_true false x y q = cc

abbrev piece_of : ℕ → RecvState → List ℕ
piece_of size s = take size (drop s.served s.notes.kept)

ends : (n : ℕ) (xs : List ℕ) → n ≤ length xs → (n == length xs) ≡ (length (drop n xs) == 0)
ends n xs h = let l = length-drop n xs in ground arith

module _ (size : ℕ) (s : RecvState) where
  rest-split :
      piece_of size s ++ drop (s.served + length (piece_of size s)) s.notes.kept
      ≡ drop s.served s.notes.kept
  rest-split =
      ap (λ l. piece_of size s ++ l)
        (sym (drop-drop s.served (length (piece_of size s)) s.notes.kept))
      ∙ take-drop size (drop s.served s.notes.kept)

  serve_piece-IsPiece :
      s.serving ≡ true
      → s.served < length s.notes.kept
      → 1 ≤ size
      → IsPiece size
          (remaining s)
          (serve_piece size s).1
          (serve_piece size s).2
          (remaining (serve_piece size s).0)
  unfolding serve_piece
  serve_piece-IsPiece v h k =
      by_end (s.served + length (piece_of size s) == length s.notes.kept) refl
    where
      advanced : RecvState
      advanced = record s { served = s.served + length (piece_of size s) }

      counted : length (piece_of size s) ≡ min size (length s.notes.kept - s.served)
      counted =
          length-take size (drop s.served s.notes.kept)
          ∙ ap (min size) (length-drop s.served s.notes.kept)

      at_end :
          (b : Bool)
          → (s.served + length (piece_of size s) == length s.notes.kept) ≡ b
          → remaining (if b then stop_serving advanced else advanced)
            ≡ drop (s.served + length (piece_of size s)) s.notes.kept
      at_end true q =
          sym (drop_all (s.served + length (piece_of size s)) s.notes.kept (ground arith))
      at_end false q = if_true s.serving _ _ v

      by_end :
          (b : Bool)
          → (s.served + length (piece_of size s) == length s.notes.kept) ≡ b
          → IsPiece size
              (remaining s)
              (piece_of size s)
              (record s.serve_info { notification = true; eor = b })
              (remaining (if b then stop_serving advanced else advanced))
      by_end b q = record {
        whole =
            ap (λ l. piece_of size s ++ l) (at_end b q)
            ∙ rest-split
            ∙ sym (if_true s.serving _ _ v);
        most =
            length-take size (drop s.served s.notes.kept)
            ∙ ap (λ (l : List ℕ). min size (length l)) (sym (if_true s.serving _ _ v));
        end =
            sym q
            ∙ ends (s.served + length (piece_of size s)) s.notes.kept (omega (arith, counted))
            ∙ ap (λ l. length l == 0) (sym (at_end b q));
        marked = refl;
      }

before_read-serving :
    (env : Env) (size : ℕ) (s : RecvState)
    → s.serving ≡ true
    → before_read env true size s
      ≡ ((serve_piece size s).0, some (delivered (serve_piece size s).1 (serve_piece size s).2 []))
unfolding before_read
before_read-serving env size s v = if_true (s.serving && true) _ _ (ap (λ b. b && true) v)

-- While a notification record is being returned, RecvMsg makes no system call: it gives the next bytes of
-- the record, as many as the buffer holds or all that are left, marked as a notification, with EOR exactly
-- on the piece that ends it; the pieces make up the record.
pub recv_next-serving :
    (p : Platform) (env : Env) (size : ℕ) (s : RecvState) (polls : List Poll)
    (reads : List (List Poll)) (calls : List Received)
    → IsWf s
    → s.serving ≡ true
    → 1 ≤ size
    → (piece : List ℕ) × (info : MsgInfo) × (t : RecvState) × (recv_next p env true size s
          (polls ∷ reads)
          calls
        ≡ (t, delivered piece info [], calls))
      × IsPiece size (remaining s) piece info (remaining t)
unfolding recv_next
recv_next-serving p env size s polls reads calls w v k =
    let out = serve_piece size s in
    let after_before : RecvState × Option Delivered → RecvState × Delivered × List Received = λ x.
      let got = raw_read p x.0 polls calls in
      let u = after_read p env true size got.0 got.1 in
      or_next x.1 x.0 calls (or_next u.1 u.0 got.2 (recv_next p env true size u.0 reads got.2)) in
    (
      out.1,
      out.2,
      out.0,
      ap after_before (before_read-serving env size s v),
      serve_piece-IsPiece size s v (w.unserved v) k,
    )
