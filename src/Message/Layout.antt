-- ===== src/Message/Layout.antt =====
-- The control messages as include/linux/socket.h lays them out, and that the encoder writes them.
use go_sctp.Common.{ℕ, ◌+◌, ◌-◌, List, [], ◌++◌, Option, none, some, length, replicate}
use go_sctp.Bytes.{Endian, big, octets16, octets32}
use go_sctp.Platform.{Platform, WordSize}
use go_sctp.PrInfo.{SndInfo, PrInfo, resolve_pr_info}
use go_sctp.Message.{
  cmsg_align, size_cmsghdr, word_octets, cmsg_snd_info, cmsg_pr_info, cmsg_auth_info, ipproto_sctp,
}

-- A header, the fields, and the padding.
abbrev pub cmsg : Platform → ℕ → List ℕ → List ℕ
cmsg p typ fields =
    word_octets p (size_cmsghdr p + length fields)
    ++ (octets32 p.order ipproto_sctp
        ++ (octets32 p.order typ
            ++ (fields ++ replicate (cmsg_align p (length fields) - length fields) 0)))

abbrev pub snd_info_cmsg : Platform → ℕ → Option SndInfo → List ℕ
snd_info_cmsg p assoc none = []
snd_info_cmsg p assoc (some snd) = cmsg p cmsg_snd_info (
    octets16 p.order snd.stream
    ++ (octets16 p.order snd.flags
        ++ (octets32 big snd.ppid ++ (octets32 p.order snd.context ++ octets32 p.order assoc))))

abbrev pub pr_info_cmsg : Platform → Option PrInfo → List ℕ
pr_info_cmsg p none = []
pr_info_cmsg p (some pr) =
    let r = resolve_pr_info pr in
    cmsg p cmsg_pr_info (octets16 p.order r.0 ++ (replicate 2 0 ++ octets32 p.order r.1))

abbrev pub auth_info_cmsg : Platform → Option ℕ → List ℕ
auth_info_cmsg p none = []
auth_info_cmsg p (some key) = cmsg p cmsg_auth_info (octets16 p.order key)

platform : Endian → WordSize → (ℕ → Option (List ℕ)) → Platform
platform e w names = record { order = e; word = w; interface_name = names }
