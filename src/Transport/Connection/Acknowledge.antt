-- ===== src/Transport/Connection/Acknowledge.antt =====
-- crates/xfer-transport/src/utp_connection.rs, `on_ack`: packets acknowledged cumulatively, the
-- selective and the duplicate acknowledgements with their fast retransmissions, and the end of a close.
use xfer_rust.Common.{
  ℕ, zero, suc, ◌+◌, ◌-◌, ◌/◌, ◌^◌, max, bit_and, Bool, true, not, ◌&&◌, ◌||◌, Option, none, some,
  List, [], ◌∷◌, ltb, leb, ◌==◌, if◌then◌else◌,
}
use xfer_rust.Transport.Packet.{seq_leq, seq_after, wrapping_add16}
use xfer_rust.Transport.Connection.State.{
  UtpConnection, UtpState, OutPacket, same_state, eof_received, default_packet_size,
}
use xfer_rust.Transport.Connection.Output.{retransmit_packet_clone, mark_retransmitted}
use xfer_rust.Transport.Connection.Congestion.{Floats, update_rtt, update_window}
use xfer_rust.Transport.Connection.Receive.{add32}

unfoldable pub count_duplicates : ℕ → UtpConnection → UtpConnection
count_duplicates ack_nr c =
    if ack_nr == c.last_ack_nr
    then record c { dup_ack_count = add32 c.dup_ack_count 1 }
    else record c { last_ack_nr = ack_nr; dup_ack_count = 0 }

-- What the loop over the front of the send queue leaves.
pub record Released : Type 0 where
  pub queue : List OutPacket
  pub rtt_sample : Option ℕ
  pub freed : ℕ
  pub fin_acked : Bool

abbrev pub sample_of : ℕ → OutPacket → Option ℕ → Option ℕ
sample_of now front (some sample) = some sample
sample_of now front none = if front.retransmits == 0 then some (now - front.send_time) else none

unfoldable pub release_loop : ℕ → ℕ → Bool → ℕ → List OutPacket → Option ℕ → ℕ → Bool → Released
release_loop ack_nr fin_seq fin_sent now [] rtt_sample freed fin_acked = record {
  queue = [];
  rtt_sample = rtt_sample;
  freed = freed;
  fin_acked = fin_acked;
}
release_loop ack_nr fin_seq fin_sent now (front ∷ queue) rtt_sample freed fin_acked =
    let rest =
      release_loop ack_nr fin_seq fin_sent now queue (sample_of now front rtt_sample)
        (add32 freed front.size) (fin_acked || (front.seq == fin_seq && fin_sent)) in
    if seq_leq front.seq ack_nr then rest else record {
      queue = front ∷ queue;
      rtt_sample = rtt_sample;
      freed = freed;
      fin_acked = fin_acked;
    }

unfoldable pub finish_close_if_idle : UtpConnection → UtpConnection
finish_close_if_idle c =
    if c.fin_sent && c.fin_acked && eof_received c then record c { state = UtpState.closed } else c

-- The bits of the bitmap below `bits` that name a number after `oldest`.
unfoldable pub sacks_after : ℕ → ℕ → ℕ → ℕ → ℕ
sacks_after zero sack_bits ack_nr oldest = 0
sacks_after (suc bit) sack_bits ack_nr oldest =
    sacks_after bit sack_bits ack_nr oldest
    + (if not (bit_and sack_bits (2 ^ bit) == 0)
          && seq_after (wrapping_add16 ack_nr (2 + bit)) oldest
        then 1
        else 0)

unfoldable pub find_packet : ℕ → List OutPacket → Option OutPacket
find_packet target [] = none
find_packet target (p ∷ queue) = if p.seq == target then some p else find_packet target queue

-- Marks the first packet of that number.
unfoldable pub mark_packet : ℕ → ℕ → List OutPacket → List OutPacket
unfolding mark_retransmitted
mark_packet target now [] = []
mark_packet target now (p ∷ queue) =
    if p.seq == target then mark_retransmitted now p ∷ queue else p ∷ mark_packet target now queue

abbrev pub already_recovered : ℕ → UtpConnection → Bool
already_recovered number c = c.fast_recovery_valid && c.last_fast_recovery_seq == number

unfoldable pub halve_window : ℕ → UtpConnection → UtpConnection
halve_window number c = record c {
  max_window = max (c.max_window / 2) c.packet_size;
  last_fast_recovery_seq = number;
  fast_recovery_valid = true;
}

module _ (now_micros : ℕ → ℕ) where
  unfoldable pub sack_recovery : ℕ → ℕ → ℕ → List OutPacket → UtpConnection → UtpConnection
  sack_recovery ack_nr sack_bits now [] c = c
  sack_recovery ack_nr sack_bits now (front ∷ queue) c =
      if seq_after front.seq ack_nr
        && leb 3 (sacks_after 32 sack_bits ack_nr front.seq)
        && not (already_recovered front.seq c)
      then halve_window front.seq (retransmit_packet_clone now_micros front now c)
      else c

  unfoldable pub retransmit_found : ℕ → ℕ → Option OutPacket → UtpConnection → UtpConnection
  retransmit_found target now none c = c
  retransmit_found target now (some p) c =
      if already_recovered target c
      then c
      else let sent = retransmit_packet_clone now_micros p now c in
        halve_window target (record sent { send_queue = mark_packet target now sent.send_queue })

  -- The third duplicate acknowledgement.
  unfoldable pub duplicate_recovery : ℕ → ℕ → UtpConnection → UtpConnection
  duplicate_recovery ack_nr now c =
      let target = wrapping_add16 ack_nr 1 in
      let sent = retransmit_found target now (find_packet target c.send_queue) c in
      if leb 3 c.dup_ack_count then record sent { dup_ack_count = 0 } else c

  module _ (f : Floats) where
    abbrev pub with_sample : Option ℕ → UtpConnection → UtpConnection
    with_sample none c = c
    with_sample (some rtt) c = update_rtt rtt c

    unfoldable pub apply_released : Released → UtpConnection → UtpConnection
    apply_released r c =
        let popped = record c { send_queue = r.queue; fin_acked = r.fin_acked } in
        let shrunk = record popped {
          cur_window = c.cur_window - r.freed;
          packet_size =
              if ltb c.packet_size default_packet_size then default_packet_size else c.packet_size;
        } in
        let grown = update_window f r.freed (with_sample r.rtt_sample shrunk) in
        if ltb 0 r.freed then record grown { want_write = true } else popped

    unfoldable pub release : ℕ → ℕ → UtpConnection → UtpConnection
    release ack_nr now c =
        apply_released
          (release_loop ack_nr c.fin_seq c.fin_sent now c.send_queue none 0 c.fin_acked) c

    unfoldable pub acknowledge_fin : ℕ → UtpConnection → UtpConnection
    acknowledge_fin ack_nr c =
        if c.fin_sent && not c.fin_acked && seq_leq c.fin_seq ack_nr
        then record c { fin_acked = true }
        else c

    unfoldable pub on_ack : ℕ → ℕ → ℕ → UtpConnection → UtpConnection
    on_ack ack_nr sack_bits now c =
        let released = acknowledge_fin ack_nr (release ack_nr now (count_duplicates ack_nr c)) in
        let recovered =
          duplicate_recovery ack_nr now
            (sack_recovery ack_nr sack_bits now released.send_queue released) in
        if same_state c.state UtpState.syn_sent && not c.syn_acked
        then c
        else if recovered.fin_sent && recovered.fin_acked
        then finish_close_if_idle recovered
        else recovered
