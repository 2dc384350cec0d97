-- ===== src/Message/Receive/Values.antt =====
-- What a receive reports of the records that the kernel attaches to a message.
use go_sctp.Common.{
  ℕ, ◌+◌, ◌≡◌, refl, List, ◌++◌, Bool, true, false, Option, has_bits, ok, replicate, arith,
}
use go_sctp.Bytes.{
  Endian, little, big, octet, octets16, octets32, uint16, uint32, uint64, slice, word32, join64,
}
use go_sctp.Bytes.Laws.{word16-octet, word32-octet}
use go_sctp.Platform.{Platform, WordSize, w32, w64}
use go_sctp.Notification.Layout.{bit, U16, U32}
use go_sctp.Message.{cmsg_rcv_info, cmsg_nxt_info}
use go_sctp.Message.Layout.{cmsg}
use go_sctp.Message.Receive.{
  RcvInfo, NxtInfo, decode_rcv_info, decode_nxt_info, parse_recv_cmsgs, walk, next_record,
  record_in, read_word, msg_eor, msg_ctrunc, msg_notification,
}

-- struct sctp_rcvinfo and struct sctp_nxtinfo.
abbrev pub rcv_info_fields : Endian → RcvInfo → List ℕ
rcv_info_fields e r =
    octets16 e r.stream
    ++ (octets16 e r.ssn
        ++ (octets16 e (bit 1 r.unordered)
            ++ (replicate 2 0
                ++ (octets32 big r.ppid
                    ++ (octets32 e r.tsn
                        ++ (octets32 e r.cum_tsn
                            ++ (octets32 e r.context ++ octets32 e r.assoc_id)))))))

abbrev pub nxt_info_fields : Endian → NxtInfo → List ℕ
nxt_info_fields e n =
    octets16 e n.stream
    ++ (octets16 e (bit 1 n.unordered + bit 0x8000 n.notification)
        ++ (octets32 big n.ppid ++ (octets32 e n.length ++ octets32 e n.assoc_id)))

abbrev pub FitsRcv : RcvInfo → Type 0
FitsRcv r =
    U16 r.stream
    × U16 r.ssn
    × U32 r.ppid
    × U32 r.tsn
    × U32 r.cum_tsn
    × U32 r.context
    × U32 r.assoc_id

abbrev pub FitsNxt : NxtInfo → Type 0
FitsNxt n = U16 n.stream × U32 n.ppid × U32 n.length × U32 n.assoc_id

one_bit : (u : Bool) → has_bits (bit 1 u) 1 ≡ u
one_bit true = refl
one_bit false = refl

two_bits :
    (u n : Bool)
    → (has_bits (bit 1 u + bit 0x8000 n) 1 ≡ u)
      × (has_bits (bit 1 u + bit 0x8000 n) 0x8000 ≡ n)
      × (U16 (bit 1 u + bit 0x8000 n))
two_bits true true = (refl, refl, omega arith)
two_bits true false = (refl, refl, omega arith)
two_bits false true = (refl, refl, omega arith)
two_bits false false = (refl, refl, omega arith)

bit_small : (u : Bool) → U16 (bit 1 u)
bit_small true = omega arith
bit_small false = omega arith

-- Decoding the struct that the kernel fills in gives every field of it.
pub decode_rcv_info-fields :
    {E : Type 0} (p : Platform) (r : RcvInfo)
    → FitsRcv r
    → decode_rcv_info {E = E} p (rcv_info_fields p.order r) ≡ ok r
unfolding decode_rcv_info uint16 uint32
decode_rcv_info-fields p r (h1, h2, h3, h4, h5, h6, h7) =
    rw
      (
        word16-octet p.order r.stream h1,
        word16-octet p.order r.ssn h2,
        word16-octet p.order (bit 1 r.unordered) (bit_small r.unordered),
        word32-octet big r.ppid h3,
        word32-octet p.order r.tsn h4,
        word32-octet p.order r.cum_tsn h5,
        word32-octet p.order r.context h6,
        word32-octet p.order r.assoc_id h7,
        one_bit r.unordered,
      )
      refl

pub decode_nxt_info-fields :
    {E : Type 0} (p : Platform) (n : NxtInfo)
    → FitsNxt n
    → decode_nxt_info {E = E} p (nxt_info_fields p.order n) ≡ ok n
unfolding decode_nxt_info uint16 uint32
decode_nxt_info-fields p n (h1, h2, h3, h4) =
    let (a, b, c) = two_bits n.unordered n.notification in
    rw
      (
        word16-octet p.order (bit 1 n.unordered + bit 0x8000 n.notification) c,
        word16-octet p.order n.stream h1,
        word32-octet big n.ppid h2,
        word32-octet p.order n.length h3,
        word32-octet p.order n.assoc_id h4,
        a,
        b,
      )
      refl

received :
    {E : Type 0} (e : Endian) (w : WordSize) (names : ℕ → Option (List ℕ)) (flags : ℕ) (n : NxtInfo)
    (r : RcvInfo)
    → has_bits flags msg_notification ≡ false
    → FitsNxt n
    → FitsRcv r
    → let p : Platform = record { order = e; word = w; interface_name = names } in
      parse_recv_cmsgs {E = E} p
        (cmsg p cmsg_nxt_info (nxt_info_fields e n) ++ cmsg p cmsg_rcv_info (rcv_info_fields e r))
        flags
      ≡ ok (
        record {
          eor = has_bits flags msg_eor;
          notification = false;
          rcv = r;
          nxt = n;
          has_nxt = true;
        },
        has_bits flags msg_ctrunc,
      )
unfolding parse_recv_cmsgs walk next_record record_in read_word uint32 uint64 slice octet word32
    join64
received {E} little w32 names flags n r q hn hr =
    let p : Platform = record { order = little; word = w32; interface_name = names } in
    rw (q, decode_nxt_info-fields {E = E} p n hn, decode_rcv_info-fields {E = E} p r hr) refl
received {E} little w64 names flags n r q hn hr =
    let p : Platform = record { order = little; word = w64; interface_name = names } in
    rw (q, decode_nxt_info-fields {E = E} p n hn, decode_rcv_info-fields {E = E} p r hr) refl
received {E} big w32 names flags n r q hn hr =
    let p : Platform = record { order = big; word = w32; interface_name = names } in
    rw (q, decode_nxt_info-fields {E = E} p n hn, decode_rcv_info-fields {E = E} p r hr) refl
received {E} big w64 names flags n r q hn hr =
    let p : Platform = record { order = big; word = w64; interface_name = names } in
    rw (q, decode_nxt_info-fields {E = E} p n hn, decode_rcv_info-fields {E = E} p r hr) refl

-- A data message (MSG_NOTIFICATION is not set) that the kernel attaches SCTP_NXTINFO and then
-- SCTP_RCVINFO to, fields in the range of their types, is reported with both, and with the flags of
-- the end of the message and of the truncation.
pub parse_recv_cmsgs-layout :
    {E : Type 0} (p : Platform) (flags : ℕ) (n : NxtInfo) (r : RcvInfo)
    → has_bits flags msg_notification ≡ false
    → FitsNxt n
    → FitsRcv r
    → parse_recv_cmsgs {E = E} p
        (cmsg p cmsg_nxt_info (nxt_info_fields p.order n)
          ++ cmsg p cmsg_rcv_info (rcv_info_fields p.order r))
        flags
      ≡ ok (
        record {
          eor = has_bits flags msg_eor;
          notification = false;
          rcv = r;
          nxt = n;
          has_nxt = true;
        },
        has_bits flags msg_ctrunc,
      )
parse_recv_cmsgs-layout p flags n r q hn hr =
    received p.order p.word p.interface_name flags n r q hn hr
