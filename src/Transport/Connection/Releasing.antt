-- ===== src/Transport/Connection/Releasing.antt =====
-- What an acknowledgement does to the send queue of `utp_connection.rs`.
use xfer_rust.Common.{
  ℕ, ◌+◌, ◌^◌, ◌<◌, ◌≡◌, refl, sym, ap, ◌∙◌, Bool, true, false, ◌&&◌, ◌||◌, Option, none, some,
  List, [], ◌∷◌, ◌++◌, arith, ◌==◌, Bool-cases, leb, inl, inr, All,
}
use mathlib.Core.Path.{subst}
use xfer_rust.Transport.Packet.{seq_leq, wrapping_add16}
use xfer_rust.Transport.Connection.State.{UtpConnection, OutPacket}
use xfer_rust.Transport.Connection.Output.{retransmit_packet_clone}
use xfer_rust.Transport.Connection.Acknowledge.{
  Released, sample_of, release_loop, sack_recovery, find_packet, retransmit_found,
  duplicate_recovery, halve_window, mark_packet,
}
use xfer_rust.Transport.Connection.Receive.{add32}
use xfer_rust.Transport.Connection.Sending.{total, payloads}

-- The front of a queue stands after `ack_nr`, or there is none.
abbrev pub Unacknowledged : ℕ → List OutPacket → Type 0
Unacknowledged ack_nr [] = Unit
Unacknowledged ack_nr (p ∷ queue) = seq_leq p.seq ack_nr ≡ false

abbrev pub IsAcknowledged : ℕ → OutPacket → Type 0
IsAcknowledged ack_nr p = seq_leq p.seq ack_nr ≡ true

-- The loop splits the queue in an acknowledged front and the rest, and adds up the sizes of the front.
pub record Splits (ack_nr : ℕ) (queue : List OutPacket) (freed : ℕ) (r : Released) : Type 0 where
  pub gone : List OutPacket
  pub split : queue ≡ gone ++ r.queue
  pub acknowledged : All (IsAcknowledged ack_nr) gone
  pub unacknowledged : Unacknowledged ack_nr r.queue
  pub adds : r.freed ≡ freed + total gone

pub release_loop-Splits :
    (ack_nr fin_seq : ℕ) (fin_sent : Bool) (now : ℕ) (queue : List OutPacket)
    (rtt_sample : Option ℕ) (freed : ℕ) (fin_acked : Bool)
    → freed + total queue < 2 ^ 32
    → Splits ack_nr queue freed
        (release_loop ack_nr fin_seq fin_sent now queue rtt_sample freed fin_acked)
unfolding release_loop
release_loop-Splits ack_nr fin_seq fin_sent now [] rtt_sample freed fin_acked h = record {
  gone = [];
  split = refl;
  acknowledged = tt;
  unacknowledged = tt;
  adds = omega arith;
}
release_loop-Splits ack_nr fin_seq fin_sent now (p ∷ queue) rtt_sample freed fin_acked h =
    let rest =
      release_loop-Splits ack_nr fin_seq fin_sent now queue (sample_of now p rtt_sample)
        (add32 freed p.size) (fin_acked || (p.seq == fin_seq && fin_sent)) (omega arith) in
    elim (Bool-cases (seq_leq p.seq ack_nr)) [
      | inl go ↦ rw go (record {
        gone = p ∷ rest.gone;
        split = ap (λ q. p ∷ q) rest.split;
        acknowledged = (go, rest.acknowledged);
        unacknowledged = rest.unacknowledged;
        adds = rest.adds ∙ omega arith;
      })
      | inr stop ↦ rw stop (record {
        gone = [];
        split = refl;
        acknowledged = tt;
        unacknowledged = stop;
        adds = omega arith;
      })
    ]

-- The recoveries leave the queue's numbers, bytes and sizes as they are.
pub record KeepsQueue (ack_nr : ℕ) (c d : UtpConnection) : Type 0 where
  pub window : d.cur_window ≡ c.cur_window
  pub size : total d.send_queue ≡ total c.send_queue
  pub bytes : payloads d.send_queue ≡ payloads c.send_queue
  pub front : Unacknowledged ack_nr c.send_queue → Unacknowledged ack_nr d.send_queue

pub KeepsQueue-trans :
    {ack_nr : ℕ} {c d e : UtpConnection}
    → KeepsQueue ack_nr c d
    → KeepsQueue ack_nr d e
    → KeepsQueue ack_nr c e
KeepsQueue-trans p q = record {
  window = q.window ∙ p.window;
  size = q.size ∙ p.size;
  bytes = q.bytes ∙ p.bytes;
  front = λ h. q.front (p.front h);
}

pub same_queue :
    {ack_nr : ℕ} {c d : UtpConnection}
    → d.cur_window ≡ c.cur_window
    → d.send_queue ≡ c.send_queue
    → KeepsQueue ack_nr c d
same_queue {ack_nr} w q = record {
  window = w;
  size = ap total q;
  bytes = ap payloads q;
  front = λ h. subst (Unacknowledged ack_nr) (sym q) h;
}

total-mark_packet :
    (target now : ℕ) (q : List OutPacket) → total (mark_packet target now q) ≡ total q
unfolding mark_packet
total-mark_packet target now [] = refl
total-mark_packet target now (p ∷ q) = ground (arith, total-mark_packet target now q)

payloads-mark_packet :
    (target now : ℕ) (q : List OutPacket) → payloads (mark_packet target now q) ≡ payloads q
unfolding mark_packet
payloads-mark_packet target now [] = refl
payloads-mark_packet target now (p ∷ q) = ground (arith, payloads-mark_packet target now q)

mark_packet-Unacknowledged :
    (ack_nr target now : ℕ) (q : List OutPacket)
    → Unacknowledged ack_nr q
    → Unacknowledged ack_nr (mark_packet target now q)
unfolding mark_packet
mark_packet-Unacknowledged ack_nr target now [] h = tt
mark_packet-Unacknowledged ack_nr target now (p ∷ q) h = ground arith

module _ (now_micros : ℕ → ℕ) where
  pub sack_recovery-KeepsQueue :
      (ack_nr sack_bits now : ℕ) (queue : List OutPacket) (c : UtpConnection)
      → KeepsQueue ack_nr c (sack_recovery now_micros ack_nr sack_bits now queue c)
  unfolding sack_recovery halve_window retransmit_packet_clone
  sack_recovery-KeepsQueue ack_nr sack_bits now [] c = same_queue refl refl
  sack_recovery-KeepsQueue ack_nr sack_bits now (front ∷ queue) c =
      same_queue (ground arith) (ground arith)

  retransmit_found-KeepsQueue :
      (ack_nr target now : ℕ) (found : Option OutPacket) (c : UtpConnection)
      → KeepsQueue ack_nr c (retransmit_found now_micros target now found c)
  unfolding retransmit_found halve_window retransmit_packet_clone
  retransmit_found-KeepsQueue ack_nr target now none c = same_queue refl refl
  retransmit_found-KeepsQueue ack_nr target now (some p) c =
      let marked = mark_packet-Unacknowledged ack_nr target now c.send_queue in
      record {
        window = ground arith;
        size = ground (arith, total-mark_packet target now c.send_queue);
        bytes = ground (arith, payloads-mark_packet target now c.send_queue);
        front = λ h. ground (arith, marked h, h);
      }

  pub duplicate_recovery-KeepsQueue :
      (ack_nr now : ℕ) (c : UtpConnection)
      → KeepsQueue ack_nr c (duplicate_recovery now_micros ack_nr now c)
  unfolding duplicate_recovery
  duplicate_recovery-KeepsQueue ack_nr now c =
      let target = wrapping_add16 ack_nr 1 in
      let k = retransmit_found-KeepsQueue ack_nr target now (find_packet target c.send_queue) c in
      elim (Bool-cases (leb 3 c.dup_ack_count)) [
        | inl e ↦
            rw e (record { window = k.window; size = k.size; bytes = k.bytes; front = k.front })
        | inr e ↦ rw e (same_queue refl refl)
      ]
