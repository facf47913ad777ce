-- ===== src/Transport/Connection/Acknowledging.antt =====
-- `on_ack` of `utp_connection.rs` as a whole: which packets it releases, and the bytes in flight.
use xfer_rust.Common.{
  ℕ, ◌+◌, ◌-◌, ◌≡◌, sym, ap, ◌∙◌, not, false, ◌&&◌, none, List, [], ◌∷◌, ◌++◌, arith, if◌then◌else◌,
  All,
}
use mathlib.Core.Path.{subst}
use xfer_rust.Transport.Connection.State.{UtpConnection, OutPacket, UtpState}
use xfer_rust.Transport.Connection.Congestion.{Floats, update_rtt, update_window}
use xfer_rust.Transport.Connection.Acknowledge.{
  Released, release_loop, apply_released, release, count_duplicates, acknowledge_fin, sack_recovery,
  duplicate_recovery, finish_close_if_idle, on_ack,
}
use xfer_rust.Transport.Connection.Sending.{total, payloads, InFlight}
use xfer_rust.Transport.Connection.State.{same_state}
use xfer_rust.Transport.Connection.Releasing.{
  Unacknowledged, IsAcknowledged, release_loop-Splits, KeepsQueue, KeepsQueue-trans, same_queue,
  sack_recovery-KeepsQueue, duplicate_recovery-KeepsQueue,
}

total-append : (q r : List OutPacket) → total (q ++ r) ≡ total q + total r
total-append [] r = omega arith
total-append (p ∷ q) r = omega (arith, total-append q r)

-- From `c` to `d`: the acknowledged front of the queue goes; of what stays, the bytes are as before, and
-- the count of bytes in flight is exact again.
pub record Releases (ack_nr : ℕ) (c d : UtpConnection) : Type 0 where
  pub gone : List OutPacket
  pub rest : List OutPacket
  pub split : c.send_queue ≡ gone ++ rest
  pub acknowledged : All (IsAcknowledged ack_nr) gone
  pub kept : payloads d.send_queue ≡ payloads rest
  pub front : Unacknowledged ack_nr d.send_queue
  pub in_flight : InFlight d

module _ (now_micros : ℕ → ℕ) (f : Floats) where
  applied :
      (r : Released) (c : UtpConnection)
      → ((apply_released now_micros f r c).send_queue ≡ r.queue)
        × ((apply_released now_micros f r c).cur_window ≡ c.cur_window - r.freed)
  unfolding apply_released update_window update_rtt
  applied r c = (ground arith, ground arith)

  counted :
      (ack_nr : ℕ) (c : UtpConnection)
      → ((count_duplicates ack_nr c).send_queue ≡ c.send_queue)
        × ((count_duplicates ack_nr c).cur_window ≡ c.cur_window)
  unfolding count_duplicates
  counted ack_nr c = (ground arith, ground arith)

  fin_kept :
      (ack_nr : ℕ) (c : UtpConnection) → KeepsQueue ack_nr c (acknowledge_fin now_micros f ack_nr c)
  unfolding acknowledge_fin
  fin_kept ack_nr c = same_queue (ground arith) (ground arith)

  finish_kept :
      (ack_nr : ℕ) (c : UtpConnection)
      → KeepsQueue ack_nr c (if c.fin_sent && c.fin_acked then finish_close_if_idle c else c)
  unfolding finish_close_if_idle
  finish_kept ack_nr c = same_queue (ground arith) (ground arith)

  release-Releases :
      (ack_nr now : ℕ) (c : UtpConnection)
      → InFlight c
      → Releases ack_nr c (release now_micros f ack_nr now c)
  unfolding release
  release-Releases ack_nr now c h =
      let r = release_loop ack_nr c.fin_seq c.fin_sent now c.send_queue none 0 c.fin_acked in
      let in_window = h.counted in
      let bounded = h.bounded in
      let s =
        release_loop-Splits ack_nr c.fin_seq c.fin_sent now c.send_queue none 0 c.fin_acked
          (omega arith) in
      let (queue, window) = applied r c in
      let sizes = ap total s.split ∙ total-append s.gone r.queue in
      record {
        gone = s.gone;
        rest = r.queue;
        split = s.split;
        acknowledged = s.acknowledged;
        kept = ap payloads queue;
        front = subst (Unacknowledged ack_nr) (sym queue) s.unacknowledged;
        in_flight = record {
          counted = window ∙ omega (arith, sizes, s.adds) ∙ ap total (sym queue);
          bounded = omega (arith, window);
        };
      }

  -- After the handshake, an acknowledgement of `ack_nr` takes from the front of the send queue packets
  -- whose numbers are at or before `ack_nr`, and leaves none such at the front; the bytes
  -- of the packets behind them stay in the queue in their order; and if `cur_window` was the sum of the
  -- queued sizes and below 2 GiB, so it is again.
  pub on_ack-Releases :
      (ack_nr sack_bits now : ℕ) (c : UtpConnection)
      → same_state c.state UtpState.syn_sent && not c.syn_acked ≡ false
      → InFlight c
      → Releases ack_nr c (on_ack now_micros f ack_nr sack_bits now c)
  unfolding on_ack
  on_ack-Releases ack_nr sack_bits now c established h =
      let dup = count_duplicates ack_nr c in
      let (same_q, same_w) = counted ack_nr c in
      let step = release-Releases ack_nr now dup (record {
        counted = same_w ∙ h.counted ∙ ap total (sym same_q);
        bounded = omega (arith, same_w, h.bounded);
      }) in
      let released = release now_micros f ack_nr now dup in
      let fin = acknowledge_fin now_micros f ack_nr released in
      let sacked = sack_recovery now_micros ack_nr sack_bits now fin.send_queue fin in
      let recovered = duplicate_recovery now_micros ack_nr now sacked in
      let kept = KeepsQueue-trans (fin_kept ack_nr released) (
        KeepsQueue-trans
          (sack_recovery-KeepsQueue now_micros ack_nr sack_bits now fin.send_queue fin)
          (KeepsQueue-trans (duplicate_recovery-KeepsQueue now_micros ack_nr now sacked)
            (finish_kept ack_nr recovered))) in
      rw established (record {
        gone = step.gone;
        rest = step.rest;
        split = sym same_q ∙ step.split;
        acknowledged = step.acknowledged;
        kept = kept.bytes ∙ step.kept;
        front = kept.front step.front;
        in_flight = record {
          counted = kept.window ∙ step.in_flight.counted ∙ sym kept.size;
          bounded = omega (arith, kept.window, step.in_flight.bounded);
        };
      })
