-- ===== src/Config/Sorted.antt =====
-- config.go, configOpKind, and lists of operations in the order of their kinds.
use go_sctp.Common.{ℕ, ◌≤◌, ◌≡◌, List, [], ◌∷◌, ◌++◌, true, ok, >>=-eq-ok, All, leb, leb→le, arith}
use mathlib.Core.Path.{subst}
use go_sctp.Config.{
  ConfigOp, op_recv_rcv_info, op_assoc_change, op_read_buffer, op_write_buffer, op_init_msg,
  op_fragment_interleave, op_authentication, op_hmac_identifiers, op_auth_chunk,
  op_dynamic_address_reconfiguration, op_partial_reliability, op_stream_reconfiguration,
  op_stream_reset_mask, op_message_interleaving, op_experimental_ecn, op_adaptation_layer,
  op_rto_info, op_delayed_sack, op_fragments_disabled, op_reuse_port, op_receive_nxt_info,
  op_no_delay, op_default_snd_info, op_default_pr_info, op_notification,
}
use go_sctp.Config.Sections.{Ops, collect}
use go_sctp.Config.Gives.{Gives, ok-injective, All-append}
use go_sctp.Config.Gives.{All-map}

-- configOpKind.
abbrev pub kind : ConfigOp → ℕ
kind op_recv_rcv_info = 0
kind op_assoc_change = 1
kind (op_read_buffer _) = 2
kind (op_write_buffer _) = 3
kind (op_init_msg _ _ _ _) = 4
kind (op_fragment_interleave _) = 5
kind (op_authentication _) = 6
kind (op_hmac_identifiers _) = 7
kind (op_auth_chunk _) = 8
kind (op_dynamic_address_reconfiguration _) = 9
kind (op_partial_reliability _) = 10
kind (op_stream_reconfiguration _) = 11
kind (op_stream_reset_mask _) = 12
kind (op_message_interleaving _) = 13
kind (op_experimental_ecn _) = 14
kind (op_adaptation_layer _) = 15
kind (op_rto_info _ _ _) = 16
kind (op_delayed_sack _ _) = 17
kind (op_fragments_disabled _) = 18
kind (op_reuse_port _) = 19
kind (op_receive_nxt_info _) = 20
kind (op_no_delay _) = 21
kind (op_default_snd_info _ _ _ _) = 22
kind (op_default_pr_info _ _) = 23
kind (op_notification _) = 24

-- The operations stand in the order of their kinds.
abbrev pub IsOrdered : List ConfigOp → Type 0
IsOrdered [] = Unit {0}
IsOrdered (x ∷ xs) = All (λ y. kind x ≤ kind y) xs × IsOrdered xs

abbrev pub Within : ℕ → ℕ → ConfigOp → Type 0
Within lo hi op = (lo ≤ kind op) × (kind op ≤ hi)

pub append-IsOrdered :
    (xs ys : List ConfigOp) (k : ℕ)
    → All (λ op. kind op ≤ k) xs
    → All (λ op. k ≤ kind op) ys
    → IsOrdered xs
    → IsOrdered ys
    → IsOrdered (xs ++ ys)
append-IsOrdered [] ys k below above o1 o2 = o2
append-IsOrdered (x ∷ xs) ys k (b, below) above (h, o1) o2 = (
  All-append _ xs ys h (All-map _ _ (λ op q. omega arith) ys above),
  append-IsOrdered xs ys k below above o1 o2,
)

pub same-IsOrdered : (k : ℕ) (xs : List ConfigOp) → All (λ op. kind op ≡ k) xs → IsOrdered xs
same-IsOrdered k [] h = tt
same-IsOrdered k (x ∷ xs) (q, h) = (All-map _ _ (λ op r. omega arith) xs h, same-IsOrdered k xs h)

-- Sections, each ordered and within its bounds, which begin where those of the section before end.
pub data Rises : ℕ → ℕ → List Ops → Type 0 where
  rises_end : {lo hi : ℕ} → lo ≤ hi → Rises lo hi []
  rises_section :
      {lo hi : ℕ} {m : Ops} {ms : List Ops} (k : ℕ)
      → ((lo ≤ k) × ((ops : List ConfigOp) → m ≡ ok ops → IsOrdered ops × All (Within lo k) ops))
      → Rises k hi ms
      → Rises lo hi (m ∷ ms)

Rises-le : {lo hi : ℕ} {ms : List Ops} → Rises lo hi ms → lo ≤ hi
Rises-le (rises_end h) = h
Rises-le (rises_section k h r) = let (p, _) = h in let q = Rises-le r in omega arith

abbrev pub K : ℕ → ConfigOp → Type 0
K k op = kind op ≡ k

pub one_kind :
    (lo k : ℕ) (m : Ops)
    → leb lo k ≡ true
    → Gives (λ op. kind op ≡ k) m
    → (lo ≤ k) × ((ops : List ConfigOp) → m ≡ ok ops → IsOrdered ops × All (Within lo k) ops)
one_kind lo k m h g =
    let le = leb→le lo k h in
    (
      le,
      λ ops q. (
        same-IsOrdered k ops (g ops q),
        All-map _ (Within lo k) (λ op e. (omega arith, omega arith)) ops (g ops q),
      ),
    )

module _ (lo k hi : ℕ) where
  earlier-Within : k ≤ hi → (xs : List ConfigOp) → All (Within lo k) xs → All (Within lo hi) xs
  earlier-Within h xs w = All-map (Within lo k) (Within lo hi) (λ op e. (e.0, omega arith)) xs w

  pub later-Within : lo ≤ k → (xs : List ConfigOp) → All (Within k hi) xs → All (Within lo hi) xs
  later-Within h xs w = All-map (Within k hi) (Within lo hi) (λ op e. (omega arith, e.1)) xs w

  pub join-IsOrdered :
      (xs ys : List ConfigOp)
      → IsOrdered xs × All (Within lo k) xs
      → IsOrdered ys × All (Within k hi) ys
      → lo ≤ k
      → k ≤ hi
      → IsOrdered (xs ++ ys) × All (Within lo hi) (xs ++ ys)
  join-IsOrdered xs ys (o1, w1) (o2, w2) h1 h2 = (
    append-IsOrdered xs ys k (All-map _ (λ op. kind op ≤ k) (λ op e. e.1) xs w1)
        (All-map _ (λ op. k ≤ kind op) (λ op e. e.0) ys w2) o1 o2,
    All-append _ xs ys (earlier-Within h2 xs w1) (later-Within h1 ys w2),
  )

pub collect-IsOrdered :
    (lo hi : ℕ) (ms : List Ops)
    → Rises lo hi ms
    → (ops : List ConfigOp) → collect ms ≡ ok ops
    → IsOrdered ops × All (Within lo hi) ops
unfolding collect
collect-IsOrdered lo hi [] (rises_end h) ops q =
    subst (λ ops. IsOrdered ops × All (Within lo hi) ops) (ok-injective _ _ q) (tt, tt)
collect-IsOrdered lo hi (m ∷ ms) (rises_section k (h, g) r) ops q =
    let (xs, p, q1) = >>=-eq-ok m _ q in
    let (ys, w, q2) = >>=-eq-ok (collect ms) _ q1 in
    subst (λ ops. IsOrdered ops × All (Within lo hi) ops) (ok-injective _ _ q2)
      (join-IsOrdered lo k hi xs ys (g xs p) (collect-IsOrdered k hi ms r ys w) h (Rises-le r))
