-- ===== src/Recv/Examples.antt =====
-- The theorems on reads at concrete calls.
use go_sctp.Common.{ℕ, ◌≡◌, ◌≢◌, refl, List, [], ◌∷◌, true, false, none, some, arith}
use go_sctp.Bytes.{little}
use go_sctp.Platform.{Platform, w64}
use go_sctp.Term.{other}
use go_sctp.Message.Receive.{MsgInfo}
use go_sctp.Notification.Accumulator.{Accumulator}
use go_sctp.Recv.{RecvState, Received, Taken, done, attempt, receive, receive_data}
use go_sctp.Recv.Next.{
  Env, ready, delivered, still_reading, no_info, recv_next, before_read, raw_read, after_read,
  settle, settle_data,
}
use go_sctp.Recv.Callback.{IsWf}
use go_sctp.Recv.Laws.{remaining, recv_next-IsWf}
use go_sctp.Recv.Serving.{IsPiece, recv_next-serving}
use go_sctp.Common.{inr, ok, ◌==◌, if◌then◌else◌}
use go_sctp.Recv.Subscribe.{subscribe, subscribed, subscribed-subscribe}
use go_sctp.Netip.{IpAddr}
use go_sctp.Notification.Accumulator.{add_all, keep, reset}
use go_sctp.Recv.Message.{ReadMsgState}
use go_sctp.Recv.Pieces.{Pieces, piece_last, piece_next, piece_interrupted, Completed}
use go_sctp.Recv.Record.{attempt-Completed}

abbrev host : Platform
host = record { order = little; word = w64; interface_name = λ i. none }

abbrev empty_notes : Accumulator
empty_notes = record {
  kept = [];
  prefix = [];
  prefix_bytes = 0;
  total = 0;
  declared = 0;
  have_declared = false;
  retain = false;
  error = none;
}

-- An Endpoint's storage before its first read, and a reader of it.
abbrev fresh : RecvState
fresh = record {
  control = [];
  notes = empty_notes;
  term = none;
  subs = 0;
  keep_notes = true;
  partial = false;
  interleaved = false;
  noting = false;
  typ = none;
  kept = false;
  serving = false;
  served = 0;
  serve_info = no_info;
}

abbrev reader : Env
reader = record { is_open = true; handler = none; abort_error = [] }

abbrev hello : Received
hello = record { bytes = 104 ∷ 105 ∷ []; flags = 0x80; control = []; errno = none }

abbrev interrupted_call : Received
interrupted_call = record { bytes = []; flags = 0; control = []; errno = some (other 4) }

fresh-IsWf : IsWf fresh
fresh-IsWf = record { between = refl; unserved = λ q. cc }

read_hello-returns :
    (recv_next host reader false 16 fresh ((ready ∷ []) ∷ []) (interrupted_call ∷ hello ∷ [])).1
    ≢ still_reading
unfolding recv_next before_read raw_read attempt receive receive_data after_read settle settle_data
read_hello-returns = λ q. differs q
  where
    differs : delivered (104 ∷ 105 ∷ []) no_info [] ≢ still_reading
    differs q = cc

recv_next-IsWf_example :
    IsWf
      (recv_next host reader false 16 fresh ((ready ∷ []) ∷ []) (interrupted_call ∷ hello ∷ [])).0
recv_next-IsWf_example =
    recv_next-IsWf host reader false 16 fresh ((ready ∷ []) ∷ []) (interrupted_call ∷ hello ∷ [])
      fresh-IsWf read_hello-returns

-- Five bytes of a record are to be returned, of which one has been.
abbrev serving_five : RecvState
serving_five = record fresh {
  notes = record empty_notes { kept = 1 ∷ 2 ∷ 3 ∷ 4 ∷ 5 ∷ [] };
  serving = true;
  served = 1;
}

recv_next-serving_example :
    (piece : List ℕ) × (info : MsgInfo) × (t : RecvState) × (recv_next host reader true 3
        serving_five
        ((ready ∷ []) ∷ [])
        []
      ≡ (t, delivered piece info [], []))
    × IsPiece 3 (remaining serving_five) piece info (remaining t)
recv_next-serving_example =
    recv_next-serving host reader 3 serving_five (ready ∷ []) [] []
      (record { between = refl; unserved = λ q. omega arith }) refl (omega arith)

abbrev first_piece : Received
first_piece = record {
  bytes = 5 ∷ 0x80 ∷ 0 ∷ 0 ∷ 12 ∷ [];
  flags = 0x8000;
  control = [];
  errno = none;
}

abbrev second_piece : Received
second_piece = record {
  bytes = 0 ∷ 0 ∷ 0 ∷ 1 ∷ 0 ∷ 0 ∷ 0 ∷ [];
  flags = 0x8080;
  control = [];
  errno = none;
}

shutdown-Pieces :
    Pieces
      (first_piece ∷ interrupted_call ∷ second_piece ∷ [])
      (first_piece.bytes ∷ second_piece.bytes ∷ [])
shutdown-Pieces = piece_next refl refl refl (piece_interrupted refl (piece_last refl refl refl))

attempt-Completed_example :
    (t : RecvState) × (k : Taken) × (attempt little fresh
        (first_piece ∷ interrupted_call ∷ second_piece ∷ hello ∷ [])
      ≡ (t, done k, hello ∷ []))
    × (k.record_end ≡ true)
    × (k.error ≡ none)
    × Completed little fresh t (5 ∷ 0x80 ∷ 0 ∷ 0 ∷ 12 ∷ 0 ∷ 0 ∷ 0 ∷ 1 ∷ 0 ∷ 0 ∷ 0 ∷ [])
unfolding go_sctp.Bytes.word32
attempt-Completed_example =
    attempt-Completed little fresh (first_piece ∷ interrupted_call ∷ second_piece ∷ []) (hello ∷ [])
      (first_piece.bytes ∷ second_piece.bytes ∷ []) refl shutdown-Pieces
      (record { long = omega arith; whole = refl; within = omega arith })

-- A subscription to SCTP_SHUTDOWN_EVENT beside the association changes.
subscribed-subscribe_example :
    (after : ℕ) × (subscribe true (λ t on. none) 1 0x8005 true ≡ ok after)
    × (subscribed true after 0x8001
        ≡ (if 0x8001 == 0x8005 then ok true else subscribed true 1 0x8001))
subscribed-subscribe_example =
    subscribed-subscribe (λ t on. none) 1 0x8005 0x8001 true refl refl (inr refl)

-- An SCTP_SHUTDOWN_EVENT record of association 1, which a ReadMsg with a handler has taken between two
-- pieces of its message.
abbrev shutdown_bytes : List ℕ
shutdown_bytes = 5 ∷ 128 ∷ 0 ∷ 0 ∷ 12 ∷ 0 ∷ 0 ∷ 0 ∷ 1 ∷ 0 ∷ 0 ∷ 0 ∷ []

abbrev no_storage : IpAddr × ℕ → List ℕ
no_storage a = []

abbrev shut_down : RecvState
shut_down = record fresh {
  notes = add_all little (keep (reset empty_notes)).0 (shutdown_bytes ∷ []);
  typ = some 0x8005;
  kept = true;
}

abbrev half_read : ReadMsgState
half_read = record {
  have_first_fragment = true;
  application_complete = false;
  partial_delivery_boundary = false;
  truncation_reported = false;
  errors = [];
  queued = [];
  queued_bytes = 0;
  queue_full = false;
  immediate = none;
  partial_application_error = none;
}
