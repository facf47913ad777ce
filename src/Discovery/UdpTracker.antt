-- ===== src/Discovery/UdpTracker.antt =====
-- crates/xfer-discovery/src/udp_tracker.rs: the packets of the UDP tracker protocol. Random numbers are
-- arguments; sockets and timers are left out. `String::from_utf8_lossy` is an argument too: from the bytes of a
-- message to those of the text that is made of it.
pub mod Replies
use xfer_rust.Common.{
  ℕ, ◌+◌, ◌*◌, ◌/◌, ◌%◌, ◌^◌, Bool, true, false, not, Option, none, some, List, [], ◌∷◌, ◌++◌, ltb,
  ◌==◌, if◌then◌else◌, length, drop, get_or,
}
use xfer_rust.Common.Bytes.{Bytes, be16, be32, from_be32}
use xfer_rust.Common.Run.{Run, ok, err}
use xfer_rust.Discovery.Pex.{PeerAddr, parse_compact_peers}

pub data UdpEvent : Type 0 where
  no_event completed started stopped : UdpEvent

-- `as u32`.
abbrev pub event_number : UdpEvent → ℕ
event_number UdpEvent.no_event = 0
event_number UdpEvent.completed = 1
event_number UdpEvent.started = 2
event_number UdpEvent.stopped = 3

pub record UdpAnnounceRequest : Type 0 where
  pub info_hash : Bytes
  pub peer_id : Bytes
  pub port : ℕ
  pub uploaded : ℕ
  pub downloaded : ℕ
  pub left : ℕ
  pub event : UdpEvent
  pub numwant : ℕ

pub record UdpTrackerResponse : Type 0 where
  pub interval : ℕ
  pub leechers : ℕ
  pub seeders : ℕ
  pub peers : List PeerAddr

-- What a protocol error is about; the texts are left out.
pub data Fault : Type 0 where
  too_short other_transaction : Fault
  other_action : ℕ → Fault

pub data UdpTrackerError : Type 0 where
  protocol : Fault → UdpTrackerError
  tracker_error : Bytes → UdpTrackerError

abbrev pub action_connect : ℕ
action_connect = 0

abbrev pub action_announce : ℕ
action_announce = 1

abbrev pub action_error : ℕ
action_error = 3

abbrev pub be64 : ℕ → Bytes → Bytes
be64 v rest = be32 (v / 2 ^ 32) (be32 (v % 2 ^ 32) rest)

-- The big-endian u32 at an offset.
abbrev pub read_u32 : ℕ → Bytes → ℕ
read_u32 i bs =
    from_be32 (get_or bs i 0) (get_or bs (i + 1) 0) (get_or bs (i + 2) 0) (get_or bs (i + 3) 0)

abbrev pub read_u64 : ℕ → Bytes → ℕ
read_u64 i bs = read_u32 i bs * 2 ^ 32 + read_u32 (i + 4) bs

unfoldable pub build_connect_packet : ℕ → Bytes
build_connect_packet transaction_id =
    be64 0x41727101980 (be32 action_connect (be32 transaction_id []))

unfoldable pub parse_connect_response : (Bytes → Bytes) → Bytes → ℕ → Run UdpTrackerError ℕ
parse_connect_response from_utf8_lossy bs expected_tid =
    if ltb (length bs) 16
    then err (protocol Fault.too_short)
    else if not (read_u32 4 bs == expected_tid)
    then err (protocol Fault.other_transaction)
    else if read_u32 0 bs == action_error
    then err (tracker_error (from_utf8_lossy (drop 8 bs)))
    else if not (read_u32 0 bs == action_connect)
    then err (protocol (other_action (read_u32 0 bs)))
    else ok (read_u64 8 bs)

unfoldable pub build_announce_packet : ℕ → ℕ → ℕ → UdpAnnounceRequest → Bytes
build_announce_packet connection_id transaction_id key req = be64 connection_id (
    be32 action_announce (
      be32 transaction_id (
        req.info_hash
        ++ (req.peer_id
            ++ be64 req.downloaded (
                be64 req.left (
                  be64 req.uploaded (
                    be32 (event_number req.event)
                      (be32 0 (be32 key (be32 req.numwant (be16 req.port [])))))))))))

unfoldable pub parse_announce_response :
    (Bytes → Bytes) → Bytes → ℕ → Run UdpTrackerError UdpTrackerResponse
parse_announce_response from_utf8_lossy bs expected_tid =
    if ltb (length bs) 20
    then err (protocol Fault.too_short)
    else if not (read_u32 4 bs == expected_tid)
    then err (protocol Fault.other_transaction)
    else if read_u32 0 bs == action_error
    then err (tracker_error (from_utf8_lossy (drop 8 bs)))
    else if not (read_u32 0 bs == action_announce)
    then err (protocol (other_action (read_u32 0 bs)))
    else ok (record {
      interval = read_u32 8 bs;
      leechers = read_u32 12 bs;
      seeders = read_u32 16 bs;
      peers = parse_compact_peers (drop 20 bs);
    })
