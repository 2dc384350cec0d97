-- ===== src/Message.antt =====
-- msginfo.go: the control messages of a send, encoded, and of a receive, decoded.
mod Examples
pub mod Receive
pub mod Layout
use go_sctp.Common.{
  ℕ, ◌+◌, ◌-◌, ◌%◌, ◌^◌, List, [], Bool, true, false, not, ◌||◌, Option, none, some, ltb, ◌==◌,
  if◌then◌else◌, length, replicate, Outcome, ok, err, panic, ◌>>=◌,
}
use go_sctp.Bytes.{Endian, big, octets16, octets32, octets64, put}
use go_sctp.Platform.{Platform, WordSize, w32, w64, word_size}
use go_sctp.PrInfo.{SndInfo, PrInfo, resolve_pr_info}

abbrev pub size_cmsghdr : Platform → ℕ
size_cmsghdr p = word_size p.word + 8

abbrev pub cmsghdr_level_off : Platform → ℕ
cmsghdr_level_off p = word_size p.word

abbrev pub cmsghdr_type_off : Platform → ℕ
cmsghdr_type_off p = word_size p.word + 4

abbrev pub ipproto_sctp : ℕ
ipproto_sctp = 132

abbrev pub cmsg_snd_info : ℕ
cmsg_snd_info = 2

abbrev pub cmsg_rcv_info : ℕ
cmsg_rcv_info = 3

abbrev pub cmsg_nxt_info : ℕ
cmsg_nxt_info = 4

abbrev pub cmsg_pr_info : ℕ
cmsg_pr_info = 5

abbrev pub cmsg_auth_info : ℕ
cmsg_auth_info = 6

abbrev pub size_snd_info : ℕ
size_snd_info = 16

abbrev pub size_pr_info : ℕ
size_pr_info = 8

abbrev pub size_auth_info : ℕ
size_auth_info = 2

-- `(n + wordSize - 1) &^ (wordSize - 1)`: the word size is a power of two, so this clears what is
-- beyond a multiple of it.
abbrev pub cmsg_align : Platform → ℕ → ℕ
cmsg_align p n = let m = n + word_size p.word - 1 in m - m % word_size p.word

abbrev pub cmsg_space : Platform → ℕ → ℕ
cmsg_space p n = size_cmsghdr p + cmsg_align p n

-- `sndCmsgSpace`, the capacity of the array that every send passes.
abbrev pub snd_cmsg_space : Platform → ℕ
snd_cmsg_space p =
    size_cmsghdr p
    + cmsg_align p size_snd_info
    + (size_cmsghdr p + cmsg_align p size_pr_info)
    + (size_cmsghdr p + cmsg_align p size_auth_info)

abbrev pub cmsg_len : Platform → ℕ → ℕ
cmsg_len p n = size_cmsghdr p + n

abbrev pub word_octets : Platform → ℕ → List ℕ
word_octets p v = elim p.word [ w32 ↦ octets32 p.order (v % 2 ^ 32) | w64 ↦ octets64 p.order v ]

pub put_word : {E : Type 0} → Platform → List ℕ → ℕ → ℕ → Outcome E (List ℕ)
put_word p b i v = put b i (word_octets p v)

pub put_cmsg_header : {E : Type 0} → Platform → List ℕ → ℕ → ℕ → ℕ → Outcome E (List ℕ)
unfolding put_word
put_cmsg_header p dst off n typ = do
  b ← put_word p dst off (cmsg_len p n)
  c ← put b (off + cmsghdr_level_off p) (octets32 p.order ipproto_sctp)
  put c (off + cmsghdr_type_off p) (octets32 p.order typ)

abbrev pub space_of : {A : Type 0} → Platform → Option A → ℕ → ℕ
space_of p none n = 0
space_of p (some x) n = cmsg_space p n

-- The records, each at its offset; what follows is given the offset after it.
pub put_snd_info : {E : Type 0} → Platform → List ℕ → ℕ → Option SndInfo → ℕ → Outcome E (List ℕ)
unfolding put_cmsg_header
put_snd_info p dst off none assoc = ok dst
put_snd_info p dst off (some snd) assoc = do
  b ← put_cmsg_header p dst off size_snd_info cmsg_snd_info
  c ← put b (off + size_cmsghdr p) (octets16 p.order snd.stream)
  d ← put c (off + size_cmsghdr p + 2) (octets16 p.order snd.flags)
  e ← put d (off + size_cmsghdr p + 4) (octets32 big snd.ppid)
  f ← put e (off + size_cmsghdr p + 8) (octets32 p.order snd.context)
  put f (off + size_cmsghdr p + 12) (octets32 p.order assoc)

pub put_pr_info : {E : Type 0} → Platform → List ℕ → ℕ → Option PrInfo → Outcome E (List ℕ)
unfolding put_cmsg_header
put_pr_info p dst off none = ok dst
put_pr_info p dst off (some pr) = do
  b ← put_cmsg_header p dst off size_pr_info cmsg_pr_info
  c ← put b (off + size_cmsghdr p) (octets16 p.order (resolve_pr_info pr).0)
  put c (off + size_cmsghdr p + 4) (octets32 p.order (resolve_pr_info pr).1)

pub put_auth_info : {E : Type 0} → Platform → List ℕ → ℕ → Option ℕ → Outcome E (List ℕ)
unfolding put_cmsg_header
put_auth_info p dst off none = ok dst
put_auth_info p dst off (some key) = do
  b ← put_cmsg_header p dst off size_auth_info cmsg_auth_info
  put b (off + size_cmsghdr p) (octets16 p.order key)

-- The bytes used of a destination with this length and capacity: they are cleared first, so what
-- they held does not matter, and those behind them are not written. The association id is the
-- uint32 with its bits.
pub append_send_cmsgs :
    {E : Type 0}
    → Platform
    → ℕ
    → ℕ
    → Option SndInfo
    → ℕ
    → Option PrInfo
    → Option ℕ
    → Outcome E (List ℕ)
unfolding put_snd_info put_pr_info put_auth_info
append_send_cmsgs p len cap snd assoc pr key =
    let total =
      space_of p snd size_snd_info + space_of p pr size_pr_info + space_of p key size_auth_info in
    if not (len == 0) || ltb cap total then panic else (do
      b ← put_snd_info p (replicate total 0) 0 snd assoc
      c ← put_pr_info p b (space_of p snd size_snd_info) pr
      put_auth_info p c (space_of p snd size_snd_info + space_of p pr size_pr_info) key)
