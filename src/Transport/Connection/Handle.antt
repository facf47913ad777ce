-- ===== src/Transport/Connection/Handle.antt =====
-- crates/xfer-transport/src/utp_connection.rs: the constructors, and `handle_packet`.
use xfer_rust.Common.{
  ℕ, ◌+◌, ◌-◌, ◌%◌, ◌^◌, bit_and, true, not, ◌&&◌, ◌||◌, none, some, List, [], ◌∷◌, ◌==◌,
  if◌then◌else◌, drop,
}
use xfer_rust.Common.Bytes.{Bytes}
use xfer_rust.Common.Run.{Run, Rejected, ok, err, stuck}
use xfer_rust.Transport.Packet.{
  PacketHeader, Extension, parse_packet, decode_sack_bits, st_data, st_fin, st_state, st_reset,
  st_syn, ext_sack, wrapping_add16, wrapping_sub16,
}
use xfer_rust.Transport.Connection.State.{UtpConnection, UtpState, same_state, initial}
use xfer_rust.Transport.Connection.Output.{queue_control, send_ack}
use xfer_rust.Transport.Connection.Congestion.{Floats, update_delay}
use xfer_rust.Transport.Connection.Receive.{on_data}
use xfer_rust.Transport.Connection.Acknowledge.{on_ack}

-- The last SACK extension counts.
unfoldable pub sack_of : List Extension → ℕ → ℕ
sack_of [] sack_bits = sack_bits
sack_of ((ext_type, payload) ∷ es) sack_bits =
    sack_of es (if ext_type == ext_sack then decode_sack_bits payload else sack_bits)

-- A FIN takes a number; it counts only when that number is the next.
unfoldable pub on_fin : ℕ → UtpConnection → UtpConnection
on_fin seq_nr c =
    if seq_nr == wrapping_add16 c.ack 1 && not c.eof
    then record c { ack = seq_nr; eof = true; eof_pkt = seq_nr; ack_pending = true }
    else record c { ack_pending = true }

-- The state in which data or a FIN finds the connection established.
unfoldable pub establish : ℕ → UtpConnection → UtpConnection
establish seq_nr c = elim c.state [
  | UtpState.syn_recv ↦ record c { state = UtpState.connected }
  | UtpState.syn_sent ↦ record c { ack = seq_nr; syn_acked = true; state = UtpState.connected }
  | _ ↦ c
]

module _ (now_micros : ℕ → ℕ) where
  -- `random` is the number drawn for the connection's id; the SYN goes to the outbox at once.
  unfoldable pub new_outbound : ℕ → ℕ → UtpConnection
  new_outbound random now =
      let recv_id = bit_and random 0xfffe in
      queue_control now_micros st_syn now 0
        (initial UtpState.syn_sent recv_id (wrapping_add16 recv_id 1) 2 1 0 none now)

  -- `random` is the first number of the reply's direction.
  unfoldable pub new_inbound : ℕ → ℕ → ℕ → ℕ → UtpConnection
  new_inbound random peer_recv_id ack_nr now = queue_control now_micros st_state now 0 (
      initial UtpState.syn_recv (wrapping_add16 peer_recv_id 1) peer_recv_id random 0 ack_nr
        (some now) now)

  -- What every accepted packet does first; the delay sample takes a reading of the clock.
  unfoldable pub account : PacketHeader → ℕ → UtpConnection → UtpConnection
  account hdr now c =
      let ts_diff = (now_micros c.readings + 2 ^ 32 - hdr.timestamp) % 2 ^ 32 in
      let noted = record c {
        last_recv = some now;
        consecutive_timeouts = 0;
        ts_diff_echo = ts_diff;
        peer_wnd = hdr.wnd_size;
        readings = c.readings + 1;
      } in
      if hdr.type_ == st_syn then noted else update_delay ts_diff now noted

  abbrev pub flush_ack : ℕ → UtpConnection → UtpConnection
  flush_ack now c = if c.ack_pending then send_ack now_micros now c else c

  module _ (f : Floats) where
    -- A repeated SYN is answered again.
    unfoldable pub handle_syn : ℕ → UtpConnection → UtpConnection
    handle_syn now c =
        if same_state c.state UtpState.syn_recv || same_state c.state UtpState.connected
        then queue_control now_micros st_state now 0 c
        else c

    unfoldable pub handle_state : PacketHeader → ℕ → ℕ → UtpConnection → UtpConnection
    handle_state hdr sack_bits now c =
        let connecting = record c {
          ack = wrapping_sub16 hdr.seq_nr 1;
          syn_acked = true;
          state = UtpState.connected;
        } in
        on_ack now_micros f hdr.ack_nr sack_bits now
          (if same_state c.state UtpState.syn_sent then connecting else c)

    unfoldable pub handle_data : PacketHeader → Bytes → ℕ → ℕ → UtpConnection → UtpConnection
    handle_data hdr payload sack_bits now c =
        on_ack now_micros f hdr.ack_nr sack_bits now
          (on_data hdr.seq_nr payload now (establish hdr.seq_nr c))

    unfoldable pub handle_fin : PacketHeader → ℕ → ℕ → UtpConnection → UtpConnection
    handle_fin hdr sack_bits now c =
        on_ack now_micros f hdr.ack_nr sack_bits now (on_fin hdr.seq_nr (establish hdr.seq_nr c))

    -- A RESET returns before the pending acknowledgement is sent.
    unfoldable pub dispatch : PacketHeader → Bytes → ℕ → ℕ → UtpConnection → UtpConnection
    dispatch hdr payload sack_bits now c =
        if hdr.type_ == st_syn
        then flush_ack now (handle_syn now c)
        else if hdr.type_ == st_reset
        then record c { error = true; state = UtpState.closed }
        else if hdr.type_ == st_state
        then flush_ack now (handle_state hdr sack_bits now c)
        else if hdr.type_ == st_data
        then flush_ack now (handle_data hdr payload sack_bits now c)
        else if hdr.type_ == st_fin
        then flush_ack now (handle_fin hdr sack_bits now c)
        else flush_ack now c

    unfoldable pub handle_parsed :
        Bytes → ℕ → Run Rejected (PacketHeader × List Extension × ℕ) → UtpConnection → UtpConnection
    handle_parsed bytes now (ok (hdr, exts, payload_off)) c =
        dispatch hdr (drop payload_off bytes) (sack_of exts 0) now (account hdr now c)
    handle_parsed bytes now (err e) c = c
    handle_parsed bytes now stuck c = c

    -- A datagram that does not parse changes nothing.
    unfoldable pub handle_packet : Bytes → ℕ → UtpConnection → UtpConnection
    unfolding handle_parsed
    handle_packet bytes now c = handle_parsed bytes now (parse_packet bytes) c
