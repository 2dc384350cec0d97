-- ===== src/Notification.antt =====
-- notification.go: the notifications that the kernel delivers, as values. An int32 (an association
-- id, a state, a reason) is kept as its bit pattern, below 2 ^ 32; the event types, offsets and flag
-- bits are those of enums.go and abi.go.
mod Examples
pub mod Accumulator
pub mod Events
pub mod Layout
pub mod Parse
use go_sctp.Common.{ℕ, List, Bool, Outcome, ok, err, panic}
use go_sctp.Common.{length, ltb, if◌then◌else◌}
use go_sctp.Bytes.{Endian, peek16}
use go_sctp.Netip.{IpAddr}
use go_sctp.Sockaddr.{SockaddrError}

abbrev pub event_assoc_change : ℕ
event_assoc_change = 0x8001

abbrev pub event_peer_addr_change : ℕ
event_peer_addr_change = 0x8002

abbrev pub event_remote_error : ℕ
event_remote_error = 0x8004

abbrev pub event_shutdown : ℕ
event_shutdown = 0x8005

abbrev pub event_partial_delivery : ℕ
event_partial_delivery = 0x8006

abbrev pub event_adaptation_indication : ℕ
event_adaptation_indication = 0x8007

abbrev pub event_authentication : ℕ
event_authentication = 0x8008

abbrev pub event_sender_dry : ℕ
event_sender_dry = 0x8009

abbrev pub event_stream_reset : ℕ
event_stream_reset = 0x800a

abbrev pub event_assoc_reset : ℕ
event_assoc_reset = 0x800b

abbrev pub event_stream_change : ℕ
event_stream_change = 0x800c

abbrev pub event_send_failed : ℕ
event_send_failed = 0x800d

abbrev pub notification_header_size : ℕ
notification_header_size = 8

abbrev pub notification_reassembly_limit : ℕ
notification_reassembly_limit = 1048576

pub record AssocChange : Type 0 where
  pub state : ℕ
  pub error : ℕ
  pub out_streams : ℕ
  pub in_streams : ℕ
  pub assoc_id : ℕ
  pub info : List ℕ

pub record PeerAddrChange : Type 0 where
  pub addr : IpAddr × ℕ
  pub state : ℕ
  pub reason : ℕ
  pub assoc_id : ℕ

pub record SendFailed : Type 0 where
  pub error : ℕ
  pub sent : Bool
  pub stream : ℕ
  pub ppid : ℕ
  pub context : ℕ
  pub unordered : Bool
  pub first_fragment : Bool
  pub last_fragment : Bool
  pub assoc_id : ℕ
  pub payload : List ℕ

pub record RemoteError : Type 0 where
  pub error : ℕ
  pub assoc_id : ℕ
  pub payload : List ℕ

pub record PartialDelivery : Type 0 where
  pub stream : ℕ
  pub seq_num : ℕ
  pub unordered : Bool
  pub assoc_id : ℕ

pub record AdaptationIndication : Type 0 where
  pub indication : ℕ
  pub assoc_id : ℕ

pub record AuthEvent : Type 0 where
  pub key : ℕ
  pub alt_key : ℕ
  pub indication : ℕ
  pub assoc_id : ℕ

pub record StreamReset : Type 0 where
  pub incoming : Bool
  pub outgoing : Bool
  pub denied : Bool
  pub failed : Bool
  pub streams : List ℕ
  pub assoc_id : ℕ

pub record AssocReset : Type 0 where
  pub denied : Bool
  pub failed : Bool
  pub local_tsn : ℕ
  pub remote_tsn : ℕ
  pub assoc_id : ℕ

pub record StreamChange : Type 0 where
  pub denied : Bool
  pub failed : Bool
  pub in_streams : ℕ
  pub out_streams : ℕ
  pub assoc_id : ℕ

-- The types that implement `Notification`.
pub data Notification : Type 0 where
  assoc_change : AssocChange → Notification
  peer_addr_change : PeerAddrChange → Notification
  send_failed : SendFailed → Notification
  remote_error : RemoteError → Notification
  shutdown : ℕ → Notification
  sender_dry : ℕ → Notification
  partial_delivery : PartialDelivery → Notification
  adaptation_indication : AdaptationIndication → Notification
  auth_event : AuthEvent → Notification
  stream_reset : StreamReset → Notification
  assoc_reset : AssocReset → Notification
  stream_change : StreamChange → Notification
  unknown_notification : List ℕ → Notification

pub data NotificationError : Type 0 where
  short_notification notification_too_long : NotificationError
  bad_sockaddr : SockaddrError → NotificationError

abbrev pub wrap_sockaddr : {A : Type 0} → Outcome SockaddrError A → Outcome NotificationError A
wrap_sockaddr (ok a) = ok a
wrap_sockaddr (err e) = err (bad_sockaddr e)
wrap_sockaddr panic = panic

-- The `Type` methods. An unknown record names its own type, and 0 where it has no whole header.
abbrev pub event_type : Endian → Notification → ℕ
event_type e (assoc_change n) = event_assoc_change
event_type e (peer_addr_change n) = event_peer_addr_change
event_type e (send_failed n) = event_send_failed
event_type e (remote_error n) = event_remote_error
event_type e (shutdown id) = event_shutdown
event_type e (sender_dry id) = event_sender_dry
event_type e (partial_delivery n) = event_partial_delivery
event_type e (adaptation_indication n) = event_adaptation_indication
event_type e (auth_event n) = event_authentication
event_type e (stream_reset n) = event_stream_reset
event_type e (assoc_reset n) = event_assoc_reset
event_type e (stream_change n) = event_stream_change
event_type e (unknown_notification d) =
    if ltb (length d) notification_header_size then 0 else peek16 e d 0
