-- ===== src/Transport/Connection/Frame.antt =====
-- What the parts of an acknowledgement leave alone: the life cycle, the receiving side and the timeout
-- bounds of `utp_connection.rs`.
use xfer_rust.Common.{ℕ, ◌≤◌, ◌≡◌, ◌⊎◌, false, List, [], ◌∷◌, arith}
use xfer_rust.Transport.Connection.State.{UtpConnection, UtpState, OutPacket, rto_min, rto_max}
use xfer_rust.Transport.Connection.Output.{retransmit_packet_clone}
use xfer_rust.Transport.Connection.Congestion.{Floats, update_rtt, update_window}
use xfer_rust.Transport.Connection.Acknowledge.{
  Released, count_duplicates, apply_released, release, acknowledge_fin, sack_recovery,
  retransmit_found, duplicate_recovery, halve_window, on_ack, finish_close_if_idle,
}

-- Life cycle and receiving side are the same in `c` and `d`.
pub record Frame (c d : UtpConnection) : Type 0 where
  pub state : d.state ≡ c.state
  pub error : d.error ≡ c.error
  pub ack : d.ack ≡ c.ack
  pub seq : d.seq ≡ c.seq
  pub fin_sent : d.fin_sent ≡ c.fin_sent
  pub recv_out : d.recv_out ≡ c.recv_out
  pub recv_reorder : d.recv_reorder ≡ c.recv_reorder
  pub recv_buffered : d.recv_buffered ≡ c.recv_buffered
  pub pending_send : d.pending_send ≡ c.pending_send
  pub peer_wnd : d.peer_wnd ≡ c.peer_wnd

abbrev pub InBounds : UtpConnection → Type 0
InBounds c = (rto_min ≤ c.timeout) × (c.timeout ≤ rto_max)

pub update_rtt-Frame : (rtt : ℕ) (c : UtpConnection) → Frame c (update_rtt rtt c)
unfolding update_rtt
update_rtt-Frame rtt c = ground arith

pub update_rtt-InBounds : (rtt : ℕ) (c : UtpConnection) → InBounds c → InBounds (update_rtt rtt c)
unfolding update_rtt
update_rtt-InBounds rtt c h = ground arith

pub Frame-refl : (c : UtpConnection) → Frame c c
Frame-refl c = ground arith

pub Frame-trans : {c d e : UtpConnection} → Frame c d → Frame d e → Frame c e
Frame-trans p q = ground arith

module _ (now_micros : ℕ → ℕ) (f : Floats) where
  pub apply_released-Frame :
      (r : Released) (c : UtpConnection) → Frame c (apply_released now_micros f r c)
  unfolding apply_released update_window update_rtt
  apply_released-Frame r c = ground arith

  pub apply_released-InBounds :
      (r : Released) (c : UtpConnection) → InBounds c → InBounds (apply_released now_micros f r c)
  unfolding apply_released update_window update_rtt
  apply_released-InBounds r c h = ground arith

  release-Frame : (ack_nr now : ℕ) (c : UtpConnection) → Frame c (release now_micros f ack_nr now c)
  unfolding release
  release-Frame ack_nr now c = apply_released-Frame _ c

  release-InBounds :
      (ack_nr now : ℕ) (c : UtpConnection)
      → InBounds c
      → InBounds (release now_micros f ack_nr now c)
  unfolding release
  release-InBounds ack_nr now c = apply_released-InBounds _ c

  sack_recovery-Frame :
      (ack_nr sack_bits now : ℕ) (queue : List OutPacket) (c : UtpConnection)
      → Frame c (sack_recovery now_micros ack_nr sack_bits now queue c)
        × (c.timeout ≡ (sack_recovery now_micros ack_nr sack_bits now queue c).timeout)
  unfolding sack_recovery halve_window retransmit_packet_clone
  sack_recovery-Frame ack_nr sack_bits now [] c = ground arith
  sack_recovery-Frame ack_nr sack_bits now (front ∷ queue) c = ground arith

  duplicate_recovery-Frame :
      (ack_nr now : ℕ) (c : UtpConnection)
      → Frame c (duplicate_recovery now_micros ack_nr now c)
        × (c.timeout ≡ (duplicate_recovery now_micros ack_nr now c).timeout)
  unfolding duplicate_recovery retransmit_found halve_window retransmit_packet_clone
  duplicate_recovery-Frame ack_nr now c = ground arith

  -- All of `on_ack` before it may close the connection.
  abbrev acknowledged : ℕ → ℕ → ℕ → UtpConnection → UtpConnection
  acknowledged ack_nr sack_bits now c =
      let released =
        acknowledge_fin now_micros f ack_nr
          (release now_micros f ack_nr now (count_duplicates ack_nr c)) in
      duplicate_recovery now_micros ack_nr now
        (sack_recovery now_micros ack_nr sack_bits now released.send_queue released)

  fin-Frame :
      (ack_nr : ℕ) (c : UtpConnection)
      → Frame c (acknowledge_fin now_micros f ack_nr c)
        × (c.timeout ≡ (acknowledge_fin now_micros f ack_nr c).timeout)
  unfolding acknowledge_fin
  fin-Frame ack_nr c = ground arith

  count-Frame :
      (ack_nr : ℕ) (c : UtpConnection)
      → Frame c (count_duplicates ack_nr c) × (c.timeout ≡ (count_duplicates ack_nr c).timeout)
  unfolding count_duplicates
  count-Frame ack_nr c = ground arith

  acknowledged-Frame :
      (ack_nr sack_bits now : ℕ) (c : UtpConnection)
      → Frame c (acknowledged ack_nr sack_bits now c)
        × (InBounds c → InBounds (acknowledged ack_nr sack_bits now c))
  acknowledged-Frame ack_nr sack_bits now c =
      let counted = count_duplicates ack_nr c in
      let released = release now_micros f ack_nr now counted in
      let fin = acknowledge_fin now_micros f ack_nr released in
      let recovered = sack_recovery now_micros ack_nr sack_bits now fin.send_queue fin in
      let (p0, t0) = count-Frame ack_nr c in
      let (p1, t1) = fin-Frame ack_nr released in
      let (p2, t2) = sack_recovery-Frame ack_nr sack_bits now fin.send_queue fin in
      let (p3, t3) = duplicate_recovery-Frame ack_nr now recovered in
      (
        Frame-trans p0
            (Frame-trans (release-Frame ack_nr now counted) (Frame-trans p1 (Frame-trans p2 p3))),
        λ h. omega (arith, release-InBounds ack_nr now counted (omega arith)),
      )

  -- `on_ack` leaves the frame but for the state, which it may close, and keeps the timeout's bounds.
  pub on_ack-cases :
      (ack_nr sack_bits now : ℕ) (c : UtpConnection)
      → let d = on_ack now_micros f ack_nr sack_bits now c in
        ((d.state ≡ c.state) ⊎ (d.state ≡ UtpState.closed))
        × (d.error ≡ c.error)
        × (d.ack ≡ c.ack)
        × (d.recv_out ≡ c.recv_out)
        × (d.recv_reorder ≡ c.recv_reorder)
        × (d.recv_buffered ≡ c.recv_buffered)
        × (InBounds c → InBounds d)
  unfolding on_ack finish_close_if_idle
  on_ack-cases ack_nr sack_bits now c = ground (arith, acknowledged-Frame ack_nr sack_bits now c)

  -- With no FIN sent an acknowledgement cannot close the connection.
  pub on_ack-open :
      (ack_nr sack_bits now : ℕ) (c : UtpConnection)
      → c.fin_sent ≡ false
      → let d = on_ack now_micros f ack_nr sack_bits now c in (d.state ≡ c.state) × (d.seq ≡ c.seq)
  unfolding on_ack finish_close_if_idle
  on_ack-open ack_nr sack_bits now c h = ground (arith, acknowledged-Frame ack_nr sack_bits now c)
