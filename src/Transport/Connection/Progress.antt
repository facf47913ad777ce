-- ===== src/Transport/Connection/Progress.antt =====
-- The life cycle of `utp_connection.rs`: no operation goes back to an earlier state.
use xfer_rust.Common.{
  if◌then◌else◌, drop, ℕ, ◌≤◌, ◌≡◌, refl, Bool, true, false, List, [], ◌∷◌, ◌++◌, arith, length,
  ◌==◌,
}
use xfer_rust.Common.Bytes.{Bytes}
use xfer_rust.Common.Run.{Rejected, Run, ok, err, stuck}
use xfer_rust.Transport.Packet.{
  st_data, st_fin, st_state, st_reset, st_syn, wrapping_sub16, Extension, PacketHeader,
  parse_packet,
}
use xfer_rust.Transport.Connection.State.{UtpConnection, UtpState, InPacket, same_state}
use xfer_rust.Transport.Connection.Output.{queue_control, send_ack}
use xfer_rust.Transport.Connection.Congestion.{Floats, update_delay}
use xfer_rust.Transport.Connection.Receive.{sub32, on_data, deliver, drain_reorder, buffer_packet}
use xfer_rust.Transport.Connection.Acknowledge.{on_ack}
use xfer_rust.Transport.Connection.Handle.{
  sack_of, flush_ack, on_fin, establish, account, handle_syn, handle_state, handle_data, handle_fin,
  dispatch, handle_packet, handle_parsed,
}
use xfer_rust.Transport.Connection.Frame.{InBounds, on_ack-cases}

-- Handshake, established, closing, closed.
abbrev pub rank : UtpState → ℕ
rank UtpState.syn_sent = 0
rank UtpState.syn_recv = 0
rank UtpState.connected = 1
rank UtpState.fin_sent = 2
rank UtpState.closed = 3

-- The state does not go back, an error closes the connection, and the timeout keeps its bounds.
pub record Step (c d : UtpConnection) : Type 0 where
  pub forward : rank c.state ≤ rank d.state
  pub errors :
      (c.error ≡ true → c.state ≡ UtpState.closed) → d.error ≡ true → d.state ≡ UtpState.closed
  pub bounds : InBounds c → InBounds d

pub Step-trans : {c d e : UtpConnection} → Step c d → Step d e → Step c e
Step-trans p q = record {
  forward = omega arith;
  errors = λ h. q.errors (p.errors h);
  bounds = λ h. q.bounds (p.bounds h);
}

-- The fields that `Step` speaks of.
abbrev pub Same : UtpConnection → UtpConnection → Type 0
Same c d = (d.state ≡ c.state) × (d.error ≡ c.error) × (d.timeout ≡ c.timeout)

pub Same-Step : {c d : UtpConnection} → Same c d → Step c d
Same-Step {c} {d} (s, e, t) = record {
  forward = ground (arith, s);
  errors = λ h x. ground (arith, s, e, x, h);
  bounds = λ h. omega (arith, t, h);
}

pub Step-if : {c x y : UtpConnection} (b : Bool) → Step c x → Step c y → Step c (if b then x else y)
Step-if true p q = p
Step-if false p q = q

drain_reorder-Same : (m : List (ℕ × InPacket)) (c : UtpConnection) → Same c (drain_reorder m c)
unfolding drain_reorder
drain_reorder-Same [] c = ground arith
drain_reorder-Same ((k, p) ∷ m) c =
    let next = record c {
      ack = k;
      recv_out = c.recv_out ++ p.payload;
      recv_buffered = sub32 c.recv_buffered (length p.payload);
    } in
    ground (arith, drain_reorder-Same m next)

deliver-Same : (s : ℕ) (payload : Bytes) (c : UtpConnection) → Same c (deliver s payload c)
unfolding deliver
deliver-Same s payload c =
    drain_reorder-Same c.recv_reorder (record c { ack = s; recv_out = c.recv_out ++ payload })

buffer_packet-Same :
    (s : ℕ) (payload : Bytes) (now : ℕ) (c : UtpConnection) → Same c (buffer_packet s payload now c)
unfolding buffer_packet
buffer_packet-Same s payload now c = ground arith

on_data-Same :
    (s : ℕ) (payload : Bytes) (now : ℕ) (c : UtpConnection) → Same c (on_data s payload now c)
unfolding on_data
on_data-Same s payload now c =
    let asked = record c { ack_pending = true } in
    ground (arith, deliver-Same s payload asked, buffer_packet-Same s payload now asked)

module _ (now_micros : ℕ → ℕ) (f : Floats) where
  on_ack-Step :
      (ack_nr sack_bits now : ℕ) (c : UtpConnection)
      → Step c (on_ack now_micros f ack_nr sack_bits now c)
  on_ack-Step ack_nr sack_bits now c =
      let (s, e, _, _, _, _, b) = on_ack-cases now_micros f ack_nr sack_bits now c in
      record { forward = ground (arith, s); errors = λ h x. ground (arith, s, e, h, x); bounds = b }

  flush_ack-Same : (now : ℕ) (c : UtpConnection) → Same c (flush_ack now_micros now c)
  unfolding send_ack
  flush_ack-Same now c = ground arith

  account-Same :
      (hdr : PacketHeader) (now : ℕ) (c : UtpConnection) → Same c (account now_micros hdr now c)
  unfolding account update_delay
  account-Same hdr now c = ground arith

  establish-Step : (s : ℕ) (c : UtpConnection) → Step c (establish s c)
  unfolding establish
  establish-Step s c = record {
    forward = ground arith;
    errors = λ h e. ground (arith, h);
    bounds = λ h. ground arith;
  }

  on_fin-Same : (s : ℕ) (c : UtpConnection) → Same c (on_fin s c)
  unfolding on_fin
  on_fin-Same s c = ground arith

  handle_syn-Same : (now : ℕ) (c : UtpConnection) → Same c (handle_syn now_micros f now c)
  unfolding handle_syn queue_control
  handle_syn-Same now c = ground arith

  connecting-Step :
      (s : ℕ) (c : UtpConnection)
      → Step c (
          if same_state c.state UtpState.syn_sent
          then record c { ack = s; syn_acked = true; state = UtpState.connected }
          else c)
  connecting-Step s c = record {
    forward = ground arith;
    errors = λ h e. ground (arith, h);
    bounds = λ h. ground arith;
  }

  flush_ack-Step : (now : ℕ) (c : UtpConnection) → Step c (flush_ack now_micros now c)
  flush_ack-Step now c = Same-Step {d = flush_ack now_micros now c} (flush_ack-Same now c)

  handle_syn-Step : (now : ℕ) (c : UtpConnection) → Step c (handle_syn now_micros f now c)
  handle_syn-Step now c = Same-Step {d = handle_syn now_micros f now c} (handle_syn-Same now c)

  handle_state-Step :
      (hdr : PacketHeader) (sack_bits now : ℕ) (c : UtpConnection)
      → Step c (handle_state now_micros f hdr sack_bits now c)
  unfolding handle_state
  handle_state-Step hdr sack_bits now c =
      Step-trans (connecting-Step (wrapping_sub16 hdr.seq_nr 1) c)
        (on_ack-Step hdr.ack_nr sack_bits now _)

  handle_data-Step :
      (hdr : PacketHeader) (payload : Bytes) (sack_bits now : ℕ) (c : UtpConnection)
      → Step c (handle_data now_micros f hdr payload sack_bits now c)
  unfolding handle_data
  handle_data-Step hdr payload sack_bits now c =
      let open_c = establish hdr.seq_nr c in
      let taken = on_data hdr.seq_nr payload now open_c in
      Step-trans (establish-Step hdr.seq_nr c) (
        Step-trans (Same-Step {c = open_c} {d = taken} (on_data-Same hdr.seq_nr payload now open_c))
          (on_ack-Step hdr.ack_nr sack_bits now taken))

  handle_fin-Step :
      (hdr : PacketHeader) (sack_bits now : ℕ) (c : UtpConnection)
      → Step c (handle_fin now_micros f hdr sack_bits now c)
  unfolding handle_fin
  handle_fin-Step hdr sack_bits now c =
      let open_c = establish hdr.seq_nr c in
      let taken = on_fin hdr.seq_nr open_c in
      Step-trans (establish-Step hdr.seq_nr c) (
        Step-trans (Same-Step {c = open_c} {d = taken} (on_fin-Same hdr.seq_nr open_c))
          (on_ack-Step hdr.ack_nr sack_bits now taken))

  reset-Step : (c : UtpConnection) → Step c (record c { error = true; state = UtpState.closed })
  reset-Step c = record { forward = ground arith; errors = λ h e. refl; bounds = λ h. h }

  then_flush : {c d : UtpConnection} (now : ℕ) → Step c d → Step c (flush_ack now_micros now d)
  then_flush {d = d} now p = Step-trans p (flush_ack-Step now d)

  dispatch-Step :
      (hdr : PacketHeader) (payload : Bytes) (sack_bits now : ℕ) (c : UtpConnection)
      → Step c (dispatch now_micros f hdr payload sack_bits now c)
  unfolding dispatch
  dispatch-Step hdr payload sack_bits now c =
      Step-if (hdr.type_ == st_syn) (then_flush now (handle_syn-Step now c)) (
        Step-if (hdr.type_ == st_reset) (reset-Step c) (
          Step-if (hdr.type_ == st_state) (then_flush now (handle_state-Step hdr sack_bits now c)) (
            Step-if (hdr.type_ == st_data)
              (then_flush now (handle_data-Step hdr payload sack_bits now c))
              (Step-if (hdr.type_ == st_fin) (then_flush now (handle_fin-Step hdr sack_bits now c))
                (flush_ack-Step now c)))))

  handle_parsed-Step :
      (bytes : Bytes) (now : ℕ) (r : Run Rejected (PacketHeader × List Extension × ℕ))
      (c : UtpConnection)
      → Step c (handle_parsed now_micros f bytes now r c)
  unfolding handle_parsed
  handle_parsed-Step bytes now (ok (hdr, exts, payload_off)) c =
      Step-trans (Same-Step (account-Same hdr now c))
        (dispatch-Step hdr (drop payload_off bytes) (sack_of exts 0) now _)
  handle_parsed-Step bytes now (err e) c = Same-Step (refl, refl, refl)
  handle_parsed-Step bytes now stuck c = Same-Step (refl, refl, refl)

  pub handle_packet-Step :
      (bytes : Bytes) (now : ℕ) (c : UtpConnection)
      → Step c (handle_packet now_micros f bytes now c)
  unfolding handle_packet
  handle_packet-Step bytes now c = handle_parsed-Step bytes now (parse_packet bytes) c
