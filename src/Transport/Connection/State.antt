-- ===== src/Transport/Connection/State.antt =====
-- crates/xfer-transport/src/utp_connection.rs: the connection's fields and its stream API. A
-- `Duration` and an `Instant` are numbers of nanoseconds. The peer's address, which no operation
-- reads, is left out.
use xfer_rust.Common.{
  ℕ, ◌-◌, ◌*◌, min, Bool, true, false, not, ◌&&◌, ◌||◌, Option, none, some, List, [], ◌∷◌, ◌++◌,
  ltb, ◌==◌, if◌then◌else◌, length, take, drop,
}
use xfer_rust.Common.Bytes.{Bytes}
use xfer_rust.Common.BTree

abbrev pub default_packet_size : ℕ
default_packet_size = 1400

abbrev pub min_packet_size : ℕ
min_packet_size = 150

abbrev pub initial_cwnd_packets : ℕ
initial_cwnd_packets = 10

abbrev pub recv_window : ℕ
recv_window = 8 * 1024 * 1024

abbrev pub reorder_window : ℕ
reorder_window = 1024 * 1024

abbrev pub cc_target_us : ℕ
cc_target_us = 100_000

abbrev pub base_delay_window : ℕ
base_delay_window = 120_000_000_000

abbrev pub rto_min : ℕ
rto_min = 500_000_000

abbrev pub rto_max : ℕ
rto_max = 60_000_000_000

abbrev pub max_pending_send : ℕ
max_pending_send = 1024 * 1024

pub data UtpState : Type 0 where
  syn_sent syn_recv connected fin_sent closed : UtpState

-- The derived `==` of the enumeration.
abbrev pub same_state : UtpState → UtpState → Bool
same_state UtpState.syn_sent UtpState.syn_sent = true
same_state UtpState.syn_recv UtpState.syn_recv = true
same_state UtpState.connected UtpState.connected = true
same_state UtpState.fin_sent UtpState.fin_sent = true
same_state UtpState.closed UtpState.closed = true
same_state _ _ = false

pub record OutPacket : Type 0 where
  pub payload : Bytes
  pub seq : ℕ
  pub send_time : ℕ
  pub size : ℕ
  pub retransmits : ℕ

pub record InPacket : Type 0 where
  pub payload : Bytes
  pub received_at : ℕ

-- `readings` counts the calls of the system clock so far, which is an argument of the operations.
pub record UtpConnection : Type 0 where
  pub recv_id : ℕ
  pub send_id : ℕ
  pub state : UtpState
  pub error : Bool
  pub seq : ℕ
  pub syn_seq : ℕ
  pub ack : ℕ
  pub syn_acked : Bool
  pub pending_send : Bytes
  pub send_queue : List OutPacket
  pub cur_window : ℕ
  pub max_window : ℕ
  pub packet_size : ℕ
  pub peer_wnd : ℕ
  pub want_write : Bool
  pub ack_pending : Bool
  pub fin_sent : Bool
  pub fin_pending : Bool
  pub fin_acked : Bool
  pub fin_seq : ℕ
  pub syn_attempts : ℕ
  pub recv_out : Bytes
  pub recv_reorder : List (ℕ × InPacket)
  pub recv_buffered : ℕ
  pub eof : Bool
  pub eof_pkt : ℕ
  pub want_read : Bool
  pub rtt : ℕ
  pub rtt_var : ℕ
  pub timeout : ℕ
  pub last_recv : Option ℕ
  pub last_send : Option ℕ
  pub consecutive_timeouts : ℕ
  pub base_delay : Option ℕ
  pub base_delay_set : Option ℕ
  pub last_delay_sample : ℕ
  pub last_ack_nr : ℕ
  pub dup_ack_count : ℕ
  pub last_fast_recovery_seq : ℕ
  pub fast_recovery_valid : Bool
  pub ts_diff_echo : ℕ
  pub outbox : List Bytes
  pub readings : ℕ

-- The fields that both constructors set alike.
unfoldable pub initial : UtpState → ℕ → ℕ → ℕ → ℕ → ℕ → Option ℕ → ℕ → UtpConnection
initial state recv_id send_id seq syn_seq ack last_recv now = record {
  recv_id = recv_id;
  send_id = send_id;
  state = state;
  error = false;
  seq = seq;
  syn_seq = syn_seq;
  ack = ack;
  syn_acked = false;
  pending_send = [];
  send_queue = [];
  cur_window = 0;
  max_window = default_packet_size * initial_cwnd_packets;
  packet_size = default_packet_size;
  peer_wnd = 0x7fff_ffff;
  want_write = false;
  ack_pending = false;
  fin_sent = false;
  fin_pending = false;
  fin_acked = false;
  fin_seq = 0;
  syn_attempts = 0;
  recv_out = [];
  recv_reorder = [];
  recv_buffered = 0;
  eof = false;
  eof_pkt = 0;
  want_read = false;
  rtt = 0;
  rtt_var = 0;
  timeout = 1_000_000_000;
  last_recv = last_recv;
  last_send = some now;
  consecutive_timeouts = 0;
  base_delay = none;
  base_delay_set = none;
  last_delay_sample = 0;
  last_ack_nr = 0;
  dup_ack_count = 0;
  last_fast_recovery_seq = 0;
  fast_recovery_valid = false;
  ts_diff_echo = 0;
  outbox = [];
  readings = 0;
}

unfoldable pub is_connected : UtpConnection → Bool
is_connected c = same_state c.state UtpState.connected || same_state c.state UtpState.fin_sent

unfoldable pub is_empty_bytes : Bytes → Bool
is_empty_bytes [] = true
is_empty_bytes (b ∷ bs) = false

unfoldable pub eof_received : UtpConnection → Bool
unfolding is_empty_bytes
eof_received c = c.eof && is_empty_bytes c.recv_out && BTree.is_empty c.recv_reorder

unfoldable pub is_closed : UtpConnection → Bool
is_closed c = same_state c.state UtpState.closed

-- The number of bytes taken is the result.
unfoldable pub write : Bytes → UtpConnection → ℕ × UtpConnection
write bytes c =
    if same_state c.state UtpState.closed || c.error
    then (0, record c { want_write = false })
    else let accepted = min (max_pending_send - length c.pending_send) (length bytes) in
      (
        accepted,
        record c {
          pending_send = c.pending_send ++ take accepted bytes;
          want_write = ltb accepted (length bytes);
        },
      )

-- The buffer has `room` bytes; the bytes copied to it are the result.
unfoldable pub read : ℕ → UtpConnection → Bytes × UtpConnection
unfolding eof_received is_closed is_empty_bytes
read room c =
    let n = min room (length c.recv_out) in
    let left = record c { recv_out = drop n c.recv_out; want_read = false } in
    let waits =
      n == 0
      && is_empty_bytes left.recv_out
      && not (eof_received left)
      && not (is_closed left)
      && not left.error in
    (take n c.recv_out, record left { want_read = waits })

-- A graceful close: the FIN goes out at the next tick.
unfoldable pub close : UtpConnection → UtpConnection
close c =
    if c.fin_pending || c.fin_sent || same_state c.state UtpState.closed
    then c
    else if same_state c.state UtpState.syn_sent
    then record c { state = UtpState.closed }
    else record c { fin_pending = true }

unfoldable pub drain_outbox : UtpConnection → List Bytes × UtpConnection
drain_outbox c = (c.outbox, record c { outbox = [] })
