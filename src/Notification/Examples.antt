-- ===== src/Notification/Examples.antt =====
-- The notification theorems at an association that comes up, with two bytes of information.
use go_sctp.Common.{
  ℕ, ◌≡◌, ◌≢◌, refl, List, [], ◌∷◌, ◌++◌, none, ok, panic, arith, false, true, replicate, ◌>>=◌,
  take, drop,
}
use go_sctp.Bytes.{little, octet, word32}
use go_sctp.Platform.{Platform, w64}
use go_sctp.Netip.{IpAddr}
use go_sctp.Notification.{Notification, assoc_change}
use go_sctp.Notification.Layout.{event_bytes, IsWf}
use go_sctp.Notification.Parse.{parse_notification}
use go_sctp.Notification.Parse.RoundTrip.{parse_notification-event_bytes}
use go_sctp.Notification.Parse.Safety.{parse_notification-ne-panic}
use go_sctp.Notification.Accumulator.{Accumulator, add_all, keep, reset, finish}
use go_sctp.Notification.Accumulator.Reassembly.{
  joined, IsRecord, finish-add_all, parse_notification-finish,
}

abbrev host : Platform
host = record { order = little; word = w64; interface_name = λ i. none }

abbrev no_storage : IpAddr × ℕ → List ℕ
no_storage a = []

abbrev comm_up : Notification
comm_up = assoc_change (record {
  state = 0;
  error = 0;
  out_streams = 10;
  in_streams = 10;
  assoc_id = 5;
  info = 1 ∷ 2 ∷ [];
})

abbrev comm_up_bytes : List ℕ
comm_up_bytes =
    1 ∷ 128 ∷ 0 ∷ 0 ∷ 22 ∷ 0 ∷ 0 ∷ 0 ∷ 0 ∷ 0 ∷ 0 ∷ 0 ∷ 10 ∷ 0 ∷ 10 ∷ 0 ∷ 5 ∷ 0 ∷ 0 ∷ 0 ∷ 1 ∷ 2 ∷ []

comm_up-IsWf : IsWf host no_storage comm_up
comm_up-IsWf = (omega arith, omega arith, omega arith, omega arith, omega arith)

-- An accumulator that an earlier record left behind.
abbrev used : Accumulator
used = record {
  kept = 9 ∷ [];
  prefix = replicate 20 9;
  prefix_bytes = 1;
  total = 1;
  declared = 0;
  have_declared = false;
  retain = true;
  error = none;
}

abbrev pieces : List (List ℕ)
pieces = take 3 comm_up_bytes ∷ [] ∷ drop 3 comm_up_bytes ∷ []

parse_notification-event_bytes_example :
    parse_notification host (event_bytes little no_storage comm_up ++ (7 ∷ [])) ≡ ok comm_up
unfolding octet
parse_notification-event_bytes_example =
    parse_notification-event_bytes host no_storage comm_up (7 ∷ []) comm_up-IsWf (omega arith)
      (omega arith)

parse_notification-finish_example :
    (finish (add_all little (keep (reset used)).0 pieces) >>= parse_notification host) ≡ ok comm_up
unfolding octet
parse_notification-finish_example =
    parse_notification-finish host no_storage comm_up used pieces refl comm_up-IsWf (omega arith)

comm_up-IsRecord : IsRecord little (joined pieces)
unfolding octet word32
comm_up-IsRecord = record { long = omega arith; whole = refl; within = omega arith }

finish-add_all_example : finish (add_all little (keep (reset used)).0 pieces) ≡ ok (joined pieces)
finish-add_all_example = finish-add_all little used pieces comm_up-IsRecord

parse_notification-ne-panic_example : parse_notification host (1 ∷ 128 ∷ 0 ∷ 0 ∷ 255 ∷ []) ≢ panic
parse_notification-ne-panic_example = parse_notification-ne-panic host (1 ∷ 128 ∷ 0 ∷ 0 ∷ 255 ∷ [])
