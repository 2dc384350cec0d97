-- ===== src/Message/Receive.antt =====
-- msginfo.go, parseRecvCmsgs: what a receive reports. A loop that does not end would be `panic`
-- here, as a read out of range is.
pub mod Safety
pub mod Values
use go_sctp.Common.{
  ℕ, zero, suc, ◌+◌, List, [], Bool, true, false, not, ◌&&◌, ◌||◌, Option, none, some, ltb, leb,
  ◌==◌, if◌then◌else◌, length, drop, has_bits, Outcome, ok, err, panic, ◌>>=◌,
}
use go_sctp.Bytes.{Endian, big, uint16, uint32, uint64, slice}
use go_sctp.Platform.{Platform, w32, w64}
use go_sctp.Message.{
  size_cmsghdr, cmsghdr_level_off, cmsghdr_type_off, ipproto_sctp, cmsg_rcv_info, cmsg_nxt_info,
  cmsg_align,
}
use go_sctp.PrInfo.{snd_flag_unordered}

abbrev pub msg_eor : ℕ
msg_eor = 0x80

abbrev pub msg_ctrunc : ℕ
msg_ctrunc = 0x08

abbrev pub msg_notification : ℕ
msg_notification = 0x8000

abbrev pub size_rcv_info : ℕ
size_rcv_info = 28

abbrev pub size_nxt_info : ℕ
size_nxt_info = 16

pub record RcvInfo : Type 0 where
  pub stream : ℕ
  pub ssn : ℕ
  pub unordered : Bool
  pub ppid : ℕ
  pub tsn : ℕ
  pub cum_tsn : ℕ
  pub context : ℕ
  pub assoc_id : ℕ

pub record NxtInfo : Type 0 where
  pub stream : ℕ
  pub unordered : Bool
  pub notification : Bool
  pub ppid : ℕ
  pub length : ℕ
  pub assoc_id : ℕ

pub record MsgInfo : Type 0 where
  pub eor : Bool
  pub notification : Bool
  pub rcv : RcvInfo
  pub nxt : NxtInfo
  pub has_nxt : Bool

abbrev pub no_rcv_info : RcvInfo
no_rcv_info = record {
  stream = 0;
  ssn = 0;
  unordered = false;
  ppid = 0;
  tsn = 0;
  cum_tsn = 0;
  context = 0;
  assoc_id = 0;
}

abbrev pub no_nxt_info : NxtInfo
no_nxt_info = record {
  stream = 0;
  unordered = false;
  notification = false;
  ppid = 0;
  length = 0;
  assoc_id = 0;
}

pub read_word : {E : Type 0} → Platform → List ℕ → Outcome E ℕ
read_word p b = elim p.word [ w32 ↦ uint32 p.order b 0 | w64 ↦ uint64 p.order b 0 ]

pub decode_rcv_info : {E : Type 0} → Platform → List ℕ → Outcome E RcvInfo
decode_rcv_info p b = do
  stream ← uint16 p.order b 0
  ssn ← uint16 p.order b 2
  flags ← uint16 p.order b 4
  ppid ← uint32 big b 8
  tsn ← uint32 p.order b 12
  cum_tsn ← uint32 p.order b 16
  context ← uint32 p.order b 20
  assoc_id ← uint32 p.order b 24
  ok (record {
    stream = stream;
    ssn = ssn;
    unordered = has_bits flags snd_flag_unordered;
    ppid = ppid;
    tsn = tsn;
    cum_tsn = cum_tsn;
    context = context;
    assoc_id = assoc_id;
  })

pub decode_nxt_info : {E : Type 0} → Platform → List ℕ → Outcome E NxtInfo
decode_nxt_info p b = do
  flags ← uint16 p.order b 2
  stream ← uint16 p.order b 0
  ppid ← uint32 big b 4
  size ← uint32 p.order b 8
  assoc_id ← uint32 p.order b 12
  ok (record {
    stream = stream;
    unordered = has_bits flags snd_flag_unordered;
    notification = has_bits flags msg_notification;
    ppid = ppid;
    length = size;
    assoc_id = assoc_id;
  })

-- What one record adds.
pub record_in : {E : Type 0} → Platform → MsgInfo → ℕ → ℕ → List ℕ → Outcome E MsgInfo
unfolding decode_rcv_info decode_nxt_info
record_in p info level typ payload =
    if not (level == ipproto_sctp)
    then ok info
    else if typ == cmsg_rcv_info
    then (if not info.notification && leb size_rcv_info (length payload)
        then (do r ← decode_rcv_info p payload; ok (record info { rcv = r }))
        else ok info)
    else if typ == cmsg_nxt_info && leb size_nxt_info (length payload)
    then (do n ← decode_nxt_info p payload; ok (record info { nxt = n; has_nxt = true }))
    else ok info

-- One turn of the loop: the info after it, and what is left if the loop goes on.
pub next_record : {E : Type 0} → Platform → MsgInfo → List ℕ → Outcome E (MsgInfo × Option (List ℕ))
unfolding read_word record_in
next_record p info oob = if ltb (length oob) (size_cmsghdr p) then ok (info, none) else (do
  len ← read_word p oob
  if ltb len (size_cmsghdr p) || ltb (length oob) len then ok (info, none) else (do
    level ← uint32 p.order oob (cmsghdr_level_off p)
    typ ← uint32 p.order oob (cmsghdr_type_off p)
    payload ← slice oob (size_cmsghdr p) len
    after ← record_in p info level typ payload
    ok (
      after,
      if ltb (length oob) (cmsg_align p len) then none else some (drop (cmsg_align p len) oob),
    )))

pub walk : {E : Type 0} → ℕ → Platform → MsgInfo → List ℕ → Outcome E MsgInfo
walk zero p info oob = panic
walk (suc fuel) p info oob = do
  r ← next_record p info oob
  elim r.1 [ none ↦ ok r.0 | some rest ↦ walk fuel p r.0 rest ]

-- The info, and whether the error is ErrControlTruncated. Each turn leaves fewer bytes, so the
-- length is fuel enough.
pub parse_recv_cmsgs : {E : Type 0} → Platform → List ℕ → ℕ → Outcome E (MsgInfo × Bool)
parse_recv_cmsgs p oob flags = do
  info ←
      walk (length oob + 1) p
        (record {
          eor = has_bits flags msg_eor;
          notification = has_bits flags msg_notification;
          rcv = no_rcv_info;
          nxt = no_nxt_info;
          has_nxt = false;
        })
        oob
  ok (info, has_bits flags msg_ctrunc)
