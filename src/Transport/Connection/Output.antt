-- ===== src/Transport/Connection/Output.antt =====
-- crates/xfer-transport/src/utp_connection.rs: the encoding of outgoing packets into the outbox.
use xfer_rust.Common.{
  ℕ, ◌+◌, ◌-◌, ◌%◌, ◌^◌, bit_or, false, some, List, [], ◌∷◌, ◌++◌, ltb, ◌==◌, if◌then◌else◌, length,
}
use xfer_rust.Common.Bytes.{Bytes}
use xfer_rust.Common.BTree
use xfer_rust.Transport.Packet.{
  PacketHeader, header_bytes, st_data, st_fin, st_state, st_syn, ext_none, ext_sack,
  protocol_version, wrapping_add16, wrapping_sub16, sack_byte,
}
use xfer_rust.Transport.Connection.State.{UtpConnection, OutPacket, recv_window}

unfoldable pub advertised_wnd : UtpConnection → ℕ
advertised_wnd c = recv_window - (c.recv_buffered + length c.recv_out % 2 ^ 32) % 2 ^ 32

-- `bits |= 1u32 << off` for each buffered number at most 31 places above `ack + 2`.
unfoldable pub sack_bitmap : ℕ → List ℕ → ℕ → ℕ
sack_bitmap ack [] bits = bits
sack_bitmap ack (s ∷ keys) bits =
    let off = wrapping_sub16 s (wrapping_add16 ack 2) in
    sack_bitmap ack keys (if ltb off 32 then bit_or bits (2 ^ off) else bits)

-- The SACK extension as it stands behind the header.
unfoldable pub sack_extension : ℕ → Bytes
sack_extension bits =
    ext_none ∷ 4 ∷ sack_byte bits 0 ∷ sack_byte bits 1 ∷ sack_byte bits 2 ∷ sack_byte bits 3 ∷ []

unfoldable pub mark_retransmitted : ℕ → OutPacket → OutPacket
mark_retransmitted now p = record p { send_time = now; retransmits = (p.retransmits + 1) % 2 ^ 32 }

unfoldable pub mark_all : ℕ → List OutPacket → List OutPacket
mark_all now [] = []
mark_all now (p ∷ queue) = mark_retransmitted now p ∷ mark_all now queue

-- `now_micros n` is the n-th reading of the system clock, in microseconds modulo 2^32.
module _ (now_micros : ℕ → ℕ) where
  -- The header that the three senders of data build.
  unfoldable pub data_header : UtpConnection → ℕ → PacketHeader
  data_header c seq = record {
    type_ = st_data;
    version = protocol_version;
    extension = ext_none;
    connection_id = c.send_id;
    timestamp = now_micros c.readings;
    timestamp_diff = c.ts_diff_echo;
    wnd_size = advertised_wnd c;
    seq_nr = seq;
    ack_nr = c.ack;
  }

  unfoldable pub data_packet : UtpConnection → ℕ → Bytes → Bytes
  data_packet c seq payload = header_bytes (data_header c seq) ++ payload

  unfoldable pub retransmit_packet_clone : OutPacket → ℕ → UtpConnection → UtpConnection
  retransmit_packet_clone p now c = record c {
    outbox = c.outbox ++ data_packet c p.seq p.payload ∷ [];
    last_send = some now;
    readings = c.readings + 1;
  }

  -- Each packet of the queue is marked and encoded again; `readings` counts the encodings.
  unfoldable pub retransmit_loop : ℕ → List OutPacket → UtpConnection → List Bytes
  retransmit_loop now [] c = []
  retransmit_loop now (p ∷ queue) c =
      data_packet c p.seq p.payload
      ∷ retransmit_loop now queue (record c { readings = c.readings + 1 })

  unfoldable pub retransmit_unacked : ℕ → UtpConnection → UtpConnection
  retransmit_unacked now c = record c {
    send_queue = mark_all now c.send_queue;
    outbox = c.outbox ++ retransmit_loop now c.send_queue c;
    readings = c.readings + length c.send_queue;
  }

  unfoldable pub queue_data_packet : OutPacket → ℕ → UtpConnection → UtpConnection
  queue_data_packet op now c = record c {
    cur_window = (c.cur_window + op.size) % 2 ^ 32;
    outbox = c.outbox ++ data_packet c op.seq op.payload ∷ [];
    last_send = some now;
    send_queue = c.send_queue ++ op ∷ [];
    readings = c.readings + 1;
  }

  unfoldable pub control_header : UtpConnection → ℕ → ℕ → PacketHeader
  control_header c type_ seq_for_ack = record {
    type_ = type_;
    version = protocol_version;
    extension = if BTree.is_empty c.recv_reorder then ext_none else ext_sack;
    connection_id = if type_ == st_syn then c.recv_id else c.send_id;
    timestamp = now_micros c.readings;
    timestamp_diff = c.ts_diff_echo;
    wnd_size = if type_ == st_syn then 0 else advertised_wnd c;
    seq_nr = if type_ == st_syn then c.syn_seq else if type_ == st_fin then c.fin_seq else c.seq;
    ack_nr = if seq_for_ack == 0 then c.ack else seq_for_ack;
  }

  unfoldable pub control_packet : UtpConnection → ℕ → ℕ → Bytes
  control_packet c type_ seq_for_ack =
      header_bytes (control_header c type_ seq_for_ack)
      ++ (if BTree.is_empty c.recv_reorder
          then []
          else sack_extension (sack_bitmap c.ack (BTree.keys c.recv_reorder) 0))

  unfoldable pub queue_control : ℕ → ℕ → ℕ → UtpConnection → UtpConnection
  queue_control type_ now seq_for_ack c = record c {
    outbox = c.outbox ++ control_packet c type_ seq_for_ack ∷ [];
    last_send = some now;
    readings = c.readings + 1;
  }

  unfoldable pub send_ack : ℕ → UtpConnection → UtpConnection
  unfolding queue_control
  send_ack now c = record (queue_control st_state now 0 c) { ack_pending = false }
