-- ===== src/Notification/Events/Variable.antt =====
-- The two events with parts of their own: the streams of a stream reset, and the address of a path
-- change.
use go_sctp.Common.{
  ℕ, ◌+◌, ◌*◌, ◌/◌, ◌%◌, ◌-◌, ◌≤◌, ◌<◌, ◌^◌, ◌≡◌, refl, sym, ap, ◌∙◌, ok, List, [], ◌∷◌, ◌++◌, Bool,
  true, false, length, length-append, length-drop, get_or, get_or-append_right, arith, drop, take,
  take_all, has_bits, All, le→ltb, ◌==◌, not, take-append,
}
use mathlib.Core.Path.{ap₂}
use mathlib.Core.List.{append_assoc}
use go_sctp.Bytes.{Endian, word16, octets16, octets32, peek16, peek32}
use go_sctp.Bytes.Laws.{word16-octet, word32-octet, uint16_lem, uint32_lem, slice_lem}
use go_sctp.Netip.{IpAddr}
use go_sctp.Platform.{Platform}
use go_sctp.Sockaddr.Decode.{decode_addr}
use go_sctp.Notification.{
  NotificationError, StreamReset, stream_reset, PeerAddrChange, peer_addr_change,
}
use go_sctp.Notification.Layout.{event_bytes, stream_octets, bit, IsWf, U16, IsReason, raw_reason}
use go_sctp.Notification.Events.{
  decode_streams, decode_stream_reset, decode_peer_addr_change, decode_addr_change_reason,
}

length-stream_octets : (e : Endian) (ss : List ℕ) → length (stream_octets e ss) ≡ length ss * 2
length-stream_octets e [] = refl
length-stream_octets e (s ∷ ss) = omega (arith, length-stream_octets e ss)

-- Two bytes behind `pre`.
peek16-behind :
    (e : Endian) (pre rest : List ℕ) (s i : ℕ)
    → i ≡ length pre
    → s < 2 ^ 16
    → peek16 e (pre ++ (octets16 e s ++ rest)) i ≡ s
peek16-behind e pre rest s i at small =
    ap₂ (word16 e)
      (ap (λ (k : ℕ). get_or (pre ++ (octets16 e s ++ rest)) k 0) (omega arith)
        ∙ get_or-append_right pre (octets16 e s ++ rest) 0 0)
      (ap (λ (k : ℕ). get_or (pre ++ (octets16 e s ++ rest)) k 0) (omega arith)
        ∙ get_or-append_right pre (octets16 e s ++ rest) 1 0)
    ∙ word16-octet e s small

decode_streams-octets :
    {E : Type 0} (e : Endian) (ss pre : List ℕ) (i : ℕ)
    → All U16 ss
    → length pre ≡ i * 2
    → decode_streams {E = E} e (pre ++ stream_octets e ss) i (length ss) ≡ ok ss
unfolding decode_streams
decode_streams-octets e [] pre i w h = refl
decode_streams-octets {E} e (s ∷ ss) pre i (small, w) h =
    let others =
      decode_streams-octets {E = E} e ss (pre ++ octets16 e s) (i + 1) w
        (omega (arith, length-append pre (octets16 e s))) in
    rw (
      uint16_lem e (pre ++ (octets16 e s ++ stream_octets e ss)) (i * 2)
          (omega (arith, length-append pre (octets16 e s ++ stream_octets e ss))),
      peek16-behind e pre (stream_octets e ss) s (i * 2) (omega arith) small,
      ap (λ l. decode_streams e l (i + 1) (length ss))
            (sym (append_assoc pre (octets16 e s) (stream_octets e ss)))
          ∙ others,
    )

-- The bytes behind `pre`.
byte-behind :
    (pre tail : List ℕ) (i k j : ℕ)
    → i ≡ length pre + k
    → get_or (pre ++ tail) (i + j) 0 ≡ get_or tail (k + j) 0
byte-behind pre tail i k j h =
    ap (λ (m : ℕ). get_or (pre ++ tail) m 0) (omega arith) ∙ get_or-append_right pre tail (k + j) 0

peek32-behind :
    (e : Endian) (pre tail : List ℕ) (i k : ℕ)
    → i ≡ length pre + k
    → peek32 e (pre ++ tail) i ≡ peek32 e tail k
peek32-behind e pre tail i k h = cc (
  ap (λ (m : ℕ). get_or (pre ++ tail) m 0) (plus_zero i)
      ∙ byte-behind pre tail i k 0 h
      ∙ ap (λ (m : ℕ). get_or tail m 0) (sym (plus_zero k)),
  byte-behind pre tail i k 1 h,
  byte-behind pre tail i k 2 h,
  byte-behind pre tail i k 3 h,
)
  where
    plus_zero : (m : ℕ) → m ≡ m + 0
    plus_zero m = omega arith

abbrev reset_bits : StreamReset → ℕ
reset_bits n = bit 1 n.incoming + bit 2 n.outgoing + bit 4 n.denied + bit 8 n.failed

four_bits :
    (i o d f : Bool)
    → let v = bit 1 i + bit 2 o + bit 4 d + bit 8 f in
      (has_bits v 1 ≡ i)
      × (has_bits v 2 ≡ o)
      × (has_bits v 4 ≡ d)
      × (has_bits v 8 ≡ f)
      × (v < 2 ^ 16)
four_bits true true true true = (refl, refl, refl, refl, omega arith)
four_bits true true true false = (refl, refl, refl, refl, omega arith)
four_bits true true false true = (refl, refl, refl, refl, omega arith)
four_bits true true false false = (refl, refl, refl, refl, omega arith)
four_bits true false true true = (refl, refl, refl, refl, omega arith)
four_bits true false true false = (refl, refl, refl, refl, omega arith)
four_bits true false false true = (refl, refl, refl, refl, omega arith)
four_bits true false false false = (refl, refl, refl, refl, omega arith)
four_bits false true true true = (refl, refl, refl, refl, omega arith)
four_bits false true true false = (refl, refl, refl, refl, omega arith)
four_bits false true false true = (refl, refl, refl, refl, omega arith)
four_bits false true false false = (refl, refl, refl, refl, omega arith)
four_bits false false true true = (refl, refl, refl, refl, omega arith)
four_bits false false true false = (refl, refl, refl, refl, omega arith)
four_bits false false false true = (refl, refl, refl, refl, omega arith)
four_bits false false false false = (refl, refl, refl, refl, omega arith)

decode_stream_reset_lem :
    (e : Endian) (flags : ℕ) (b ss : List ℕ)
    → length b ≡ 12 + length ss * 2
    → decode_streams {E = NotificationError} e (drop 12 b) 0 (length ss) ≡ ok ss
    → decode_stream_reset e flags b
      ≡ ok (
          stream_reset (record {
            incoming = has_bits flags 1;
            outgoing = has_bits flags 2;
            denied = has_bits flags 4;
            failed = has_bits flags 8;
            streams = ss;
            assoc_id = peek32 e b 8;
          }))
unfolding decode_stream_reset
decode_stream_reset_lem e flags b ss long read = rw (
  le→ltb (length b) 12 (omega arith),
  slice_lem b 12 (length b) (omega arith) (omega arith),
  take_all (length b - 12) (drop 12 b) (omega (arith, length-drop 12 b)),
  even,
  halves,
  read,
  uint32_lem e b 8 (omega arith),
)
  where
    even : not (length (drop 12 b) % 2 == 0) ≡ false
    even = ground (arith, long, length-drop 12 b)

    halves : length (drop 12 b) / 2 ≡ length ss
    halves = omega (arith, long, length-drop 12 b)

decode_peer_addr_change_lem :
    (p : Platform) (e : Endian) (b : List ℕ) (addr : IpAddr × ℕ)
    → 148 ≤ length b
    → decode_addr p (take 128 (drop 8 b)) ≡ ok addr
    → decode_peer_addr_change p e b
      ≡ ok (
          peer_addr_change (record {
            addr = addr;
            state = peek32 e b 136;
            reason = decode_addr_change_reason (peek32 e b 140) (peek32 e b 136);
            assoc_id = peek32 e b 144;
          }))
unfolding decode_peer_addr_change
decode_peer_addr_change_lem p e b addr long read = rw (
  le→ltb (length b) 148 long,
  slice_lem b 8 136 (omega arith) (omega arith),
  read,
  uint32_lem e b 136 (omega arith),
  uint32_lem e b 140 (omega arith),
  uint32_lem e b 144 (omega arith),
)

-- The raw value of a reason decodes to it.
reason_round_trip :
    (r state : ℕ) → IsReason r state → decode_addr_change_reason (raw_reason r) state ≡ r
unfolding decode_addr_change_reason
reason_round_trip r state w = ground arith

raw_reason-lt : (r state : ℕ) → IsReason r state → raw_reason r < 2 ^ 32
raw_reason-lt r state w = ground arith

module _ (p : Platform) (storage : IpAddr × ℕ → List ℕ) (e : Endian) where
  pub stream_reset_round_trip :
      (n : StreamReset)
      → IsWf p storage (stream_reset n)
      → decode_stream_reset e (reset_bits n) (event_bytes e storage (stream_reset n))
        ≡ ok (stream_reset n)
  stream_reset_round_trip n w =
      rw
        (decode_stream_reset_lem e (reset_bits n) (event_bytes e storage (stream_reset n)) n.streams
          (omega (arith, length-stream_octets e n.streams))
          (decode_streams-octets e n.streams [] 0 w.0 (omega arith)))
        (ground
          (arith, four_bits n.incoming n.outgoing n.denied n.failed, word32-octet e n.assoc_id))

  -- The fields behind the address.
  abbrev path_fields : PeerAddrChange → List ℕ
  path_fields n = octets32 e n.state ++ (octets32 e (raw_reason n.reason) ++ octets32 e n.assoc_id)

  pub peer_addr_change_round_trip :
      (n : PeerAddrChange)
      → IsWf p storage (peer_addr_change n)
      → decode_peer_addr_change p e (event_bytes e storage (peer_addr_change n))
        ≡ ok (peer_addr_change n)
  peer_addr_change_round_trip n (long, read, st, re, id) =
      let st_bytes = storage n.addr in
      rw
        (
          decode_peer_addr_change_lem p e (event_bytes e storage (peer_addr_change n)) n.addr
              (omega (arith, length-append st_bytes (path_fields n)))
              (ap (λ l. decode_addr p l)
                  (ap (λ (k : ℕ). take k (st_bytes ++ path_fields n)) (sym long)
                    ∙ take-append st_bytes (path_fields n))
                ∙ read),
          peek32-behind e st_bytes (path_fields n) 128 0 (omega arith),
          peek32-behind e st_bytes (path_fields n) 132 4 (omega arith),
          peek32-behind e st_bytes (path_fields n) 136 8 (omega arith),
        )
        (ground (
          arith,
          word32-octet e n.state,
          word32-octet e (raw_reason n.reason),
          word32-octet e n.assoc_id,
          raw_reason-lt n.reason n.state,
          reason_round_trip n.reason n.state,
        ))
