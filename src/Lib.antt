-- ===== src/Lib.antt =====
-- A verification library for go-sctp, a Go package for SCTP sockets on Linux.
--
-- The package talks to the kernel in byte strings (socket addresses, notifications, control
-- messages, option structs) and keeps, for each descriptor, a close state machine and the error with
-- which its association failed. The receive path feeds notification fragments to an accumulator and
-- parses what it reassembles; the senders and receivers report through the error latch; Close, Abort
-- and Shutdown share the lifecycle.
--
-- The files and the code they are about:
--   Common, Bytes, Platform, Netip: shared names; encoding/binary, the word size and byte order of
--     the target (abi.go), and what is used of net/netip and strconv. A byte string is a list of
--     numbers, a read out of range is the outcome `panic`.
--   Sockaddr: sockaddr.go, encodeAddr, encodeAddrs, encodeZone (here), decodeAddr, decodeAddrs
--     (Decode); Layout states the struct layouts, RoundTrip and Packed the round trips.
--     Sockaddr.Zones models zoneCache, with the clock, the host's interfaces and the other callers as
--     arguments; Zones.Laws compares it with the host's interfaces.
--   Notification: notification.go, the record types (here), each event's decoder (Events),
--     ParseNotification (Parse), notificationAccumulator (Accumulator). Layout states the kernel's
--     side, the bytes of every notification, independently of the parser.
--   Lifecycle: close.go. A thread's program counter (`Pc`) and one step of it (`next`); Invariant
--     counts what the threads own, Threads runs any interleaving of them.
--   Term: term_linux.go and the termState of conn.go. Laws runs any sequence of calls.
--   Duration: config.go and options.go, durations and plain arguments as kernel fields.
--   PrInfo: options.go and msginfo.go, PR-SCTP policies and send flags.
--   Message: msginfo.go, appendSendCmsgs (here) and parseRecvCmsgs (Receive); Layout states the
--     records as include/linux/socket.h lays them out.
--   Options: options.go, the structs of the socket options (here) and those that end in a list
--     (Lists).
--   Endpoint: endpoint.go, the association ids of a one-to-many socket, and the check of the ancillary
--     data of its messages (Receive).
--   Config: config.go, Config, configOp, prepared (here), prepare by its sections (Auth, Sections,
--     Subscriptions, Prepare); Operations states what each section gives, Validity, Sorted, Order,
--     Subscribed, Errors and FileStyle (with Unset) what holds of the whole.
--   Bits: the bits of a number under the native operations.
--   Recv: recv_linux.go, recvState and the attempt callback (here), recvNext, RecvMsg and Read (Next),
--     Subscribe and Subscribed (Subscribe), readMsgNotification (Message). The results of recvmsg and
--     the outcomes of the poller are arguments, one for each call; a read that they do not let
--     return is `still_reading`. Report states what a record means for its reader;
--     Callback, Laws, Serving, Reassembly, Pieces and Record hold the theorems.
--   Examples in each component hold the theorems applied to concrete values.
--
-- Integers are natural numbers with the wrap-around of their Go type written out; a negative int and
-- a duration are the integers of Common. The interface table of the host and the index of a zone are
-- parameters. The loop over control messages takes as fuel one more than the number of bytes: each
-- turn leaves fewer. Running out would be `panic`.
--
-- Not modelled: the system calls and their waiting (send_linux.go, recv_linux.go, dial_linux.go,
-- socket_linux.go, endpoint_linux.go, listener_linux.go, options_linux.go), since they are the
-- kernel's behaviour, except for the receive path around recvmsg; the loop of ReadMsg and its
-- buffers; a handler that reads from its own connection; name resolution; the texts of
-- errors, of which the kind is kept.
pub mod Common
pub mod Bits
pub mod Bytes
pub mod Platform
pub mod Netip
pub mod Sockaddr
pub mod Notification
pub mod Term
pub mod Lifecycle
pub mod Duration
pub mod PrInfo
pub mod Message
pub mod Options
pub mod Endpoint
pub mod Config
pub mod Recv
