-- ===== src/Transport/Connection/Tick.antt =====
-- crates/xfer-transport/src/utp_connection.rs: `process_tick` with the timeouts and the sending of
-- pending data.
use xfer_rust.Common.{
  ℕ, zero, suc, ◌-◌, ◌*◌, ◌%◌, ◌^◌, min, Bool, true, false, not, ◌&&◌, ◌||◌, Option, none, some,
  List, [], ◌∷◌, ltb, leb, if◌then◌else◌, length, take, drop,
}
use xfer_rust.Transport.Packet.{st_syn, st_fin, wrapping_add16}
use xfer_rust.Transport.Connection.State.{
  UtpConnection, UtpState, OutPacket, same_state, is_empty_bytes, eof_received, rto_max,
  min_packet_size,
}
use xfer_rust.Transport.Connection.Output.{
  queue_control, send_ack, queue_data_packet, retransmit_unacked,
}
use xfer_rust.Transport.Connection.Congestion.{can_send_data}
use xfer_rust.Transport.Connection.Receive.{add32}

abbrev pub since : ℕ → Option ℕ → ℕ
since now none = 0
since now (some t) = now - t

abbrev pub is_some : Option ℕ → Bool
is_some none = false
is_some (some t) = true

abbrev pub queue_is_empty : List OutPacket → Bool
queue_is_empty [] = true
queue_is_empty (p ∷ queue) = false

unfoldable pub fin_in_flight : UtpConnection → Bool
fin_in_flight c = c.fin_sent && not c.fin_acked && same_state c.state UtpState.fin_sent

unfoldable pub timed_out : ℕ → UtpConnection → Bool
unfolding fin_in_flight
timed_out now c =
    let connecting = same_state c.state UtpState.syn_sent in
    let waiting = is_some c.last_recv && (not (queue_is_empty c.send_queue) || fin_in_flight c) in
    (connecting || waiting)
    && ltb c.timeout (since now (if connecting then c.last_send else c.last_recv))

module _ (now_micros : ℕ → ℕ) where
  unfoldable pub retry_syn : ℕ → UtpConnection → UtpConnection
  retry_syn now c =
      let tried = record c {
        syn_attempts = add32 c.syn_attempts 1;
        timeout = min (c.timeout * 2) rto_max;
      } in
      if leb 4 tried.syn_attempts
      then record tried { error = true; state = UtpState.closed }
      else record (queue_control now_micros st_syn now 0 tried) { last_send = some now }

  unfoldable pub retry_data : ℕ → UtpConnection → UtpConnection
  unfolding fin_in_flight
  retry_data now c =
      let tried = record c {
        consecutive_timeouts = add32 c.consecutive_timeouts 1;
        timeout = min (c.timeout * 2) rto_max;
      } in
      let sent = retransmit_unacked now_micros now (record tried {
        packet_size = min_packet_size;
        max_window = min_packet_size;
        last_recv = some now;
      }) in
      if leb 5 tried.consecutive_timeouts
      then record tried { error = true; state = UtpState.closed }
      else if fin_in_flight sent
      then queue_control now_micros st_fin now 0 sent
      else sent

  unfoldable pub handle_timeout : ℕ → UtpConnection → UtpConnection
  handle_timeout now c =
      if same_state c.state UtpState.syn_sent then retry_syn now c else retry_data now c

  -- One round of the sending loop: a packet from the front of the pending bytes.
  unfoldable pub send_chunk : ℕ → UtpConnection → UtpConnection
  send_chunk now c =
      let chunk = min (length c.pending_send) c.packet_size in
      let payload = take chunk c.pending_send in
      queue_data_packet now_micros
        (record {
          payload = payload;
          seq = c.seq;
          send_time = now;
          size = length payload % 2 ^ 32;
          retransmits = 0;
        })
        now (record c { pending_send = drop chunk c.pending_send; seq = wrapping_add16 c.seq 1 })

  -- A round takes a byte at least, so a unit of fuel for each pending byte is enough.
  unfoldable pub flush_pending : ℕ → ℕ → UtpConnection → UtpConnection
  flush_pending zero now c = c
  flush_pending (suc fuel) now c =
      let more = flush_pending fuel now (send_chunk now c) in
      if is_empty_bytes c.pending_send
      then c
      else if can_send_data c
      then more
      else record c { want_write = true }

  -- Data, the pending acknowledgement, and the wish to read.
  unfoldable pub flush_all : ℕ → UtpConnection → UtpConnection
  flush_all now c =
      let sending = same_state c.state UtpState.connected || same_state c.state UtpState.fin_sent in
      let sent = if sending then flush_pending (length c.pending_send) now c else c in
      let acked = if sent.ack_pending then send_ack now_micros now sent else sent in
      record acked {
        want_read = acked.want_read || not (is_empty_bytes acked.recv_out) || eof_received acked;
      }

  unfoldable pub timers_and_flush : ℕ → UtpConnection → UtpConnection
  timers_and_flush now c = if timed_out now c then handle_timeout now c else flush_all now c

  -- The pending FIN takes the next number without consuming it.
  unfoldable pub send_fin : ℕ → UtpConnection → UtpConnection
  send_fin now c = queue_control now_micros st_fin now 0 (record c {
    fin_pending = false;
    fin_sent = true;
    fin_seq = c.seq;
    state = UtpState.fin_sent;
  })

  unfoldable pub process_tick : ℕ → UtpConnection → UtpConnection
  process_tick now c =
      if same_state c.state UtpState.closed
      then c
      else if not c.fin_pending
      then timers_and_flush now c
      else if same_state c.state UtpState.syn_sent
      then record c {
        fin_pending = false;
        fin_sent = true;
        fin_seq = c.seq;
        state = UtpState.closed;
      }
      else timers_and_flush now (send_fin now c)
