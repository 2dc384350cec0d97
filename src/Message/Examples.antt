-- ===== src/Message/Examples.antt =====
-- The control message theorems at one send and one truncated receive.
use go_sctp.Common.{refl, ◌≡◌, ◌≢◌, ◌++◌, ◌∷◌, none, ok, panic, pos, arith, replicate, Bool}
use go_sctp.Common.{true, false}
use go_sctp.Message.{cmsg_nxt_info, cmsg_rcv_info}
use go_sctp.Message.Layout.{cmsg}
use go_sctp.Message.Receive.{RcvInfo, NxtInfo}
use go_sctp.Message.Receive.Values.{parse_recv_cmsgs-layout, nxt_info_fields, rcv_info_fields}
use go_sctp.Bytes.{little}
use go_sctp.Platform.{Platform, w64}
use go_sctp.PrInfo.{PrInfo, SndInfo}
use go_sctp.Message.Receive.{parse_recv_cmsgs}
use go_sctp.Message.Receive.Safety.{parse_recv_cmsgs-ne-panic}

abbrev host : Platform
host = record { order = little; word = w64; interface_name = λ i. none }

abbrev ngap : SndInfo
ngap = record { stream = 1; flags = 0; ppid = 60; context = 7 }

abbrev short_lived : PrInfo
short_lived = record { policy = 16; ttl = pos 5000000; value = 0 }

-- A record cut off in its header.
parse_recv_cmsgs-ne-panic_example :
    parse_recv_cmsgs {E = Bool} host (44 ∷ replicate 11 0) 0x88 ≢ panic
parse_recv_cmsgs-ne-panic_example = parse_recv_cmsgs-ne-panic host (44 ∷ replicate 11 0) 0x88

abbrev got : RcvInfo
got = record {
  stream = 1;
  ssn = 2;
  unordered = true;
  ppid = 60;
  tsn = 3;
  cum_tsn = 0;
  context = 4;
  assoc_id = 5;
}

abbrev queued : NxtInfo
queued = record {
  stream = 1;
  unordered = false;
  notification = true;
  ppid = 0;
  length = 20;
  assoc_id = 5;
}

parse_recv_cmsgs-layout_example :
    parse_recv_cmsgs {E = Bool} host
      (cmsg host cmsg_nxt_info (nxt_info_fields little queued)
        ++ cmsg host cmsg_rcv_info (rcv_info_fields little got))
      0x80
    ≡ ok (
      record { eor = true; notification = false; rcv = got; nxt = queued; has_nxt = true },
      false,
    )
parse_recv_cmsgs-layout_example =
    parse_recv_cmsgs-layout host 0x80 queued got refl
      (omega arith, omega arith, omega arith, omega arith)
      (omega arith, omega arith, omega arith, omega arith, omega arith, omega arith, omega arith)
