-- ===== src/Options/Laws.antt =====
-- Round trips of the option structs.
use go_sctp.Common.{
  ℕ, ◌≤◌, ◌<◌, ◌^◌, ◌≡◌, refl, sym, ap, ◌∙◌, List, ◌++◌, not, ◌&&◌, ltb, ◌==◌, length, Outcome, ok,
  ◌>>=◌, refuse, >>=-eq-ok, every_of_length, EveryOf, arith,
}
use go_sctp.Bytes.{Endian, uint32, slice, put, octets32}
use go_sctp.Bytes.Laws.{word32-octet}
use go_sctp.Duration.{ArgError, out_of_range, duration_to_millis, millis_to_duration, max_uint32}
use go_sctp.Duration.Laws.{millis_to_duration-duration_to_millis}
use go_sctp.Options.{
  RtoInfo, DelayedSack, encode_rto_info, decode_rto_info, encode_delayed_sack, decode_delayed_sack,
  max_sack_delay_ms,
}

-- Four uint32 in a struct of sixteen bytes.
fields4 : Endian → ℕ → ℕ → ℕ → ℕ → List ℕ → Outcome ArgError (List ℕ)
fields4 e w x y z b = do
  b ← slice b 0 16
  b ← put b 0 (octets32 e w)
  b ← put b 4 (octets32 e x)
  b ← put b 8 (octets32 e y)
  put b 12 (octets32 e z)

abbrev Writes4 : Endian → ℕ → ℕ → ℕ → ℕ → List ℕ → Type 0
Writes4 e w x y z b =
    fields4 e w x y z b ≡ ok (octets32 e w ++ (octets32 e x ++ (octets32 e y ++ octets32 e z)))

fields4_lem : (e : Endian) (w x y z : ℕ) → EveryOf 16 (Writes4 e w x y z)
unfolding fields4 slice put
fields4_lem e w x y z a0 a1 a2 a3 a4 a5 a6 a7 a8 a9 a10 a11 a12 a13 a14 a15 = refl

fields3 : Endian → ℕ → ℕ → ℕ → List ℕ → Outcome ArgError (List ℕ)
fields3 e w x y b = do
  b ← slice b 0 12
  b ← put b 0 (octets32 e w)
  b ← put b 4 (octets32 e x)
  put b 8 (octets32 e y)

abbrev Writes3 : Endian → ℕ → ℕ → ℕ → List ℕ → Type 0
Writes3 e w x y b = fields3 e w x y b ≡ ok (octets32 e w ++ (octets32 e x ++ octets32 e y))

fields3_lem : (e : Endian) (w x y : ℕ) → EveryOf 12 (Writes3 e w x y)
unfolding fields3 slice put
fields3_lem e w x y a0 a1 a2 a3 a4 a5 a6 a7 a8 a9 a10 a11 = refl

decode_rto_info-fields :
    (e : Endian) (w x y z : ℕ)
    → x ≤ max_uint32
    → y ≤ max_uint32
    → z ≤ max_uint32
    → decode_rto_info e (octets32 e w ++ (octets32 e x ++ (octets32 e y ++ octets32 e z)))
      ≡ ok (record {
        initial = millis_to_duration x;
        maximum = millis_to_duration y;
        minimum = millis_to_duration z;
      })
unfolding decode_rto_info uint32
decode_rto_info-fields e w x y z hx hy hz =
    rw
      (
        word32-octet e x (omega arith),
        word32-octet e y (omega arith),
        word32-octet e z (omega arith),
      )
      refl

decode_delayed_sack-fields :
    (e : Endian) (w x y : ℕ)
    → x ≤ max_uint32
    → y < 2 ^ 32
    → decode_delayed_sack e (octets32 e w ++ (octets32 e x ++ octets32 e y))
      ≡ ok (record { delay = millis_to_duration x; frequency = y })
unfolding decode_delayed_sack uint32
decode_delayed_sack-fields e w x y hx hy =
    rw (word32-octet e x (omega arith), word32-octet e y hy) refl

-- What encodeRTOInfo writes into a buffer of the struct's size, decodeRTOInfo reads back, every
-- duration exactly.
pub decode_rto_info-encode_rto_info :
    (e : Endian) (b : List ℕ) (assoc : ℕ) (r : RtoInfo) (out : List ℕ)
    → length b ≡ 16
    → encode_rto_info e b assoc r ≡ ok out
    → decode_rto_info e out ≡ ok r
unfolding encode_rto_info fields4
decode_rto_info-encode_rto_info e b assoc r out room h =
    let (x, dx, h1) = >>=-eq-ok (duration_to_millis r.initial max_uint32) _ h in
    let (y, dy, h2) = >>=-eq-ok (duration_to_millis r.maximum max_uint32) _ h1 in
    let (z, dz, h3) = >>=-eq-ok (duration_to_millis r.minimum max_uint32) _ h2 in
    let (u, fine, h4) =
      >>=-eq-ok (refuse (not (z == 0) && not (y == 0) && ltb y z) out_of_range) _ h3 in
    let (ix, lx) = millis_to_duration-duration_to_millis r.initial max_uint32 x dx in
    let (iy, ly) = millis_to_duration-duration_to_millis r.maximum max_uint32 y dy in
    let (iz, lz) = millis_to_duration-duration_to_millis r.minimum max_uint32 z dz in
    let bytes = octets32 e assoc ++ (octets32 e x ++ (octets32 e y ++ octets32 e z)) in
    let made =
      sym h4 ∙ every_of_length 16 (Writes4 e assoc x y z) (fields4_lem e assoc x y z) b room in
    let same : out ≡ bytes = cc in
    ap (decode_rto_info e) same
    ∙ decode_rto_info-fields e assoc x y z lx ly lz
    ∙ (λ i. ok (record { initial = ix i; maximum = iy i; minimum = iz i }))

-- What encodeDelayedSACK writes into a buffer of the struct's size, decodeDelayedSACK reads back, the
-- delay exactly, for a frequency that is a uint32.
pub decode_delayed_sack-encode_delayed_sack :
    (e : Endian) (b : List ℕ) (assoc : ℕ) (d : DelayedSack) (out : List ℕ)
    → length b ≡ 12
    → d.frequency < 2 ^ 32
    → encode_delayed_sack e b assoc d ≡ ok out
    → decode_delayed_sack e out ≡ ok d
unfolding encode_delayed_sack fields3
decode_delayed_sack-encode_delayed_sack e b assoc d out room small h =
    let (x, dx, h1) = >>=-eq-ok (duration_to_millis d.delay max_uint32) _ h in
    let (u, fine, h2) = >>=-eq-ok (refuse (ltb max_sack_delay_ms x) out_of_range) _ h1 in
    let (ix, lx) = millis_to_duration-duration_to_millis d.delay max_uint32 x dx in
    let bytes = octets32 e assoc ++ (octets32 e x ++ octets32 e d.frequency) in
    let made =
      sym h2
      ∙ every_of_length 12 (Writes3 e assoc x d.frequency) (fields3_lem e assoc x d.frequency) b
          room in
    let same : out ≡ bytes = cc in
    ap (decode_delayed_sack e) same
    ∙ decode_delayed_sack-fields e assoc x d.frequency lx small
    ∙ (λ i. ok (record { delay = ix i; frequency = d.frequency }))
