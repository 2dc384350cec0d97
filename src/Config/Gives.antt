-- ===== src/Config/Gives.antt =====
-- What every operation of an accepted Config satisfies, and how a section of `prepare` keeps it.
use go_sctp.Common.{
  ℕ, ◌==◌, ◌≤◌, ◌<◌, ◌^◌, ◌≡◌, ◌≢◌, ◌⊎◌, and_not, if◌then◌else◌, refl, List, [], ◌∷◌, ◌++◌, Bool,
  true, false, not, ◌&&◌, Option, none, some, ℤ, pos, negsuc, Outcome, ok, err, panic, ◌>>=◌,
  >>=-eq-ok, refuse, All, arith,
}
use mathlib.Core.Path.{subst}
use go_sctp.Duration.{ArgError, duration_to_millis}
use go_sctp.PrInfo.{is_zero_duration}
use go_sctp.Config.{
  Config, ConfigOp, ConfigError, SocketStyle, Field, is_endpoint, is_true, naming, op_read_buffer,
  op_write_buffer, op_init_msg, op_fragment_interleave, op_hmac_identifiers, op_auth_chunk,
  op_dynamic_address_reconfiguration, op_stream_reset_mask, op_rto_info, op_delayed_sack,
  op_reuse_port, op_notification, op_message_interleaving, op_default_snd_info, op_default_pr_info,
}
use go_sctp.Config.Auth.{contains, check_hmacs, check_chunks, is_forbidden_chunk, hmac_sha1}
use go_sctp.Config.Sections.{Ops, collect, optional}

-- No entry of the list stands in it again.
abbrev pub IsDistinct : List ℕ → Type 0
IsDistinct [] = Unit {0}
IsDistinct (x ∷ xs) = (contains x xs ≡ false) × IsDistinct xs

-- The FragmentInterleave level that the socket has: the one asked for, and else 1 on an Endpoint and 0 elsewhere.
abbrev pub effective_level : Option ℕ → SocketStyle → ℕ
effective_level none style = if is_endpoint style then 1 else 0
effective_level (some n) style = n

-- What the kernel and the package ask of the operations that have such a condition.
abbrev pub IsAllowed : Config → SocketStyle → ConfigOp → Type 0
IsAllowed c style (op_read_buffer n) = (1 ≤ n) × (n < 2 ^ 31)
IsAllowed c style (op_write_buffer n) = (1 ≤ n) × (n < 2 ^ 31)
IsAllowed c style (op_init_msg o i a ms) = ms < 2 ^ 16
IsAllowed c style (op_fragment_interleave level) = level ≤ 1
IsAllowed c style (op_hmac_identifiers ids) =
    (is_true c.authentication ≡ true)
    × (contains hmac_sha1 ids ≡ true)
    × All (λ id. (id ≡ 1) ⊎ (id ≡ 3)) ids
    × IsDistinct ids
IsAllowed c style (op_auth_chunk ct) =
    (is_true c.authentication ≡ true) × (ct ≢ 1) × (ct ≢ 2) × (ct ≢ 14) × (ct ≢ 15)
IsAllowed c style (op_dynamic_address_reconfiguration true) = is_true c.authentication ≡ true
IsAllowed c style (op_stream_reset_mask mask) =
    (and_not mask 7 ≡ 0) × ((mask ≡ 0) ⊎ (is_true c.stream_reconfiguration ≡ true))
IsAllowed c style (op_message_interleaving on) =
    (on ≡ false) ⊎ (1 ≤ effective_level c.fragment_interleave style)
IsAllowed c style (op_default_snd_info stream flags ppid context) = and_not flags 1 ≡ 0
IsAllowed c style (op_default_pr_info policy value) =
    (and_not policy 0x30 ≡ 0) × ((policy ≢ 0) ⊎ (value ≡ 0))
IsAllowed c style (op_rto_info i hi lo) = (lo ≡ 0) ⊎ ((hi ≡ 0) ⊎ (lo ≤ hi))
IsAllowed c style (op_delayed_sack delay f) = delay ≤ 500
IsAllowed c style (op_reuse_port on) = is_endpoint style ≡ false
IsAllowed c style (op_notification t) = (0x8001 ≤ t) × (t ≤ 0x800d) × (t ≢ 0x8003)
IsAllowed c style op = Unit {0}

-- A section whose operations, where it is accepted, all satisfy `P`.
abbrev pub Gives : (ConfigOp → Type 0) → Ops → Type 0
Gives P m = (ops : List ConfigOp) → m ≡ ok ops → All P ops

pub All-append {ℓ κ} :
    {A : Type ℓ} (P : A → Type κ) (xs ys : List A) → All P xs → All P ys → All P (xs ++ ys)
All-append P [] ys h k = k
All-append P (x ∷ xs) ys (p, h) k = (p, All-append P xs ys h k)

pub ok-injective : {E A : Type 0} (x y : A) → ◌≡◌ {A = Outcome E A} (ok x) (ok y) → x ≡ y
ok-injective x y q = cc

module _ (P : ConfigOp → Type 0) where
  pub ok-Gives : (ops : List ConfigOp) → All P ops → Gives P (ok ops)
  ok-Gives ops h got q = subst (All P) (ok-injective ops got q) h

  pub err-Gives : (x : ConfigError) → Gives P (err x)
  err-Gives x got q = cc

  pub after-Gives :
      {A : Type 0} (m : Outcome ConfigError A) (f : A → Ops)
      → ((a : A) → m ≡ ok a → Gives P (f a))
      → Gives P (m >>= f)
  after-Gives m f h ops q = let (a, p, r) = >>=-eq-ok m f q in h a p ops r

  pub refuse-Gives :
      (b : Bool) (x : ConfigError) (m : Ops)
      → (b ≡ false → Gives P m)
      → Gives P (refuse b x >>= λ _. m)
  refuse-Gives true x m h = err-Gives x
  refuse-Gives false x m h = h refl

  pub optional-Gives :
      {A : Type 0} (op : A → ConfigOp) (o : Option A)
      → ((a : A) → P (op a))
      → Gives P (optional op o)
  optional-Gives op none h = ok-Gives [] tt
  optional-Gives op (some a) h = ok-Gives (op a ∷ []) (h a, tt)

  pub collect-Gives : (ms : List Ops) → All (Gives P) ms → Gives P (collect ms)
  unfolding collect
  collect-Gives [] h = ok-Gives [] tt
  collect-Gives (m ∷ ms) (h, hs) = after-Gives m _ (λ ops p. after-Gives (collect ms) _ (λ rest q.
      ok-Gives (ops ++ rest) (All-append P ops rest (h ops p) (collect-Gives ms hs rest q))))

pub naming-eq-ok :
    {A : Type 0} (f : Field) (m : Outcome ArgError A) (a : A) → naming f m ≡ ok a → m ≡ ok a
naming-eq-ok f (ok b) a h = cc
naming-eq-ok f (err e) a h = cc
naming-eq-ok f panic a h = cc

pub zero_millis :
    (d : ℤ) (limit ms : ℕ) → is_zero_duration d ≡ true → duration_to_millis d limit ≡ ok ms → ms ≡ 0
unfolding is_zero_duration duration_to_millis
zero_millis (pos d) limit ms h q = ground arith
zero_millis (negsuc d) limit ms h q = cc

pub refuse-eq-ok :
    {A : Type 0} (b : Bool) (x : ConfigError) (m : Outcome ConfigError A) {a : A}
    → (refuse b x >>= λ _. m) ≡ ok a
    → (b ≡ false) × (m ≡ ok a)
refuse-eq-ok true x m h = cc
refuse-eq-ok false x m h = (refl, h)

pub All-map :
    {A : Type 0} (P Q : A → Type 0) → ((a : A) → P a → Q a) → (xs : List A) → All P xs → All Q xs
All-map P Q f [] h = tt
All-map P Q f (x ∷ xs) (p, h) = (f x p, All-map P Q f xs h)

pub check_hmacs-eq-ok :
    (seen ids : List ℕ)
    → check_hmacs seen ids ≡ ok tt
    → All (λ id. (id ≡ 1) ⊎ (id ≡ 3)) ids
      × All (λ id. contains id seen ≡ false) ids
      × IsDistinct ids
unfolding check_hmacs
check_hmacs-eq-ok seen [] h = (tt, tt, tt)
check_hmacs-eq-ok seen (id ∷ ids) h =
    let (named, p) = refuse-eq-ok (not (id == 1) && not (id == 3)) _ _ h in
    let (fresh, q) = refuse-eq-ok (contains id seen) _ _ p in
    let (ids_named, ids_fresh, distinct) = check_hmacs-eq-ok (id ∷ seen) ids q in
    (
      (ground arith, ids_named),
      (fresh, All-map _ _ (λ i k. ground arith) ids ids_fresh),
      (not_among ids ids_fresh, distinct),
    )
  where
    not_among :
        (ids : List ℕ) → All (λ i. contains i (id ∷ seen) ≡ false) ids → contains id ids ≡ false
    not_among [] hs = refl
    not_among (i ∷ is) (k, hs) = let rest : contains id is ≡ false = not_among is hs in ground arith

pub check_chunks-eq-ok :
    (seen cts : List ℕ)
    → check_chunks seen cts ≡ ok tt
    → All (λ ct. is_forbidden_chunk ct ≡ false) cts
unfolding check_chunks
check_chunks-eq-ok seen [] h = tt
check_chunks-eq-ok seen (ct ∷ cts) h =
    let (allowed, p) = refuse-eq-ok (is_forbidden_chunk ct) _ _ h in
    let (_, q) = refuse-eq-ok (contains ct seen) _ _ p in
    (allowed, check_chunks-eq-ok (ct ∷ seen) cts q)
