-- ===== src/Transport/Connection/Handshake.antt =====
-- The handshake of `utp_connection.rs` between its two constructors: SYN, SYN-ACK, and the ids and
-- numbers that the two sides use from then on.
use xfer_rust.Common.{
  ℕ, ◌≡◌, refl, ◌∙◌, true, false, none, some, List, [], ◌∷◌, arith, bit_and, drop,
}
use xfer_rust.Common.Masks.{bit_and-le}
use xfer_rust.Common.Bytes.{Bytes, IsU16, IsU32}
use xfer_rust.Common.Run.{ok}
use xfer_rust.Transport.Packet.{
  PacketHeader, Extension, parse_packet, wrapping_add16, wrapping_sub16, st_syn, st_state,
}
use xfer_rust.Transport.Connection.State.{UtpConnection, UtpState, initial}
use xfer_rust.Transport.Connection.Output.{control_header, control_packet, queue_control, send_ack}
use xfer_rust.Transport.Connection.Congestion.{Floats, update_delay}
use xfer_rust.Transport.Connection.Handle.{
  flush_ack, new_outbound, new_inbound, account, handle_state, dispatch, handle_packet, sack_of,
}
use xfer_rust.Transport.Connection.Frame.{on_ack-cases, on_ack-open}
use xfer_rust.Transport.Connection.Control.{IsWired, parse-control_packet}

module _ (now_micros : ℕ → ℕ) (f : Floats) where
  -- The fields of a connection that has just sent its SYN.
  abbrev outbound_id : ℕ → ℕ
  outbound_id random = bit_and random 0xfffe

  abbrev initiator : ℕ → ℕ → UtpConnection
  initiator random now =
      initial UtpState.syn_sent (outbound_id random) (wrapping_add16 (outbound_id random) 1) 2 1 0
        none now

  abbrev responder : ℕ → ℕ → ℕ → ℕ → UtpConnection
  responder random id nr now =
      initial UtpState.syn_recv (wrapping_add16 id 1) id random 0 nr (some now) now

  -- State, last delivered number and next number of `d`.
  abbrev Is : UtpConnection → UtpState → ℕ → ℕ → Type 0
  Is d state ack seq = (d.state ≡ state) × (d.ack ≡ ack) × (d.seq ≡ seq)

  flush_ack-Is : (now : ℕ) (d : UtpConnection) → Is (flush_ack now_micros now d) d.state d.ack d.seq
  unfolding send_ack
  flush_ack-Is now d = ground arith

  account-Is :
      (hdr : PacketHeader) (now : ℕ) (c : UtpConnection)
      → Is (account now_micros hdr now c) c.state c.ack c.seq
        × ((account now_micros hdr now c).fin_sent ≡ c.fin_sent)
  unfolding account update_delay
  account-Is hdr now c = ground arith

  handle_state-Is :
      (hdr : PacketHeader) (sack_bits now : ℕ) (c : UtpConnection)
      → c.state ≡ UtpState.syn_sent
      → c.fin_sent ≡ false
      → Is
          (handle_state now_micros f hdr sack_bits now c)
          UtpState.connected
          (wrapping_sub16 hdr.seq_nr 1)
          c.seq
  unfolding handle_state
  handle_state-Is hdr sack_bits now c syn open_c =
      let joined = record c {
        ack = wrapping_sub16 hdr.seq_nr 1;
        syn_acked = true;
        state = UtpState.connected;
      } in
      let (same_state, same_seq) =
        on_ack-open now_micros f hdr.ack_nr sack_bits now joined open_c in
      let (_, _, same_ack, _, _, _, _) =
        on_ack-cases now_micros f hdr.ack_nr sack_bits now joined in
      rw syn (same_state, same_ack, same_seq)

  dispatch-state :
      (hdr : PacketHeader) (payload : Bytes) (sack_bits now : ℕ) (c : UtpConnection)
      → hdr.type_ ≡ st_state
      → dispatch now_micros f hdr payload sack_bits now c
        ≡ flush_ack now_micros now (handle_state now_micros f hdr sack_bits now c)
  unfolding dispatch
  dispatch-state hdr payload sack_bits now c e = rw e

  -- A SYN-ACK completes the handshake of the initiator.
  connects :
      (hdr : PacketHeader) (es : List Extension) (off now : ℕ) (bytes : Bytes) (a : UtpConnection)
      → a.state ≡ UtpState.syn_sent
      → a.fin_sent ≡ false
      → hdr.type_ ≡ st_state
      → parse_packet bytes ≡ ok (hdr, es, off)
      → Is
          (handle_packet now_micros f bytes now a)
          UtpState.connected
          (wrapping_sub16 hdr.seq_nr 1)
          a.seq
  unfolding handle_packet
  connects hdr es off now bytes a syn open_a state parsed =
      let noted = account now_micros hdr now a in
      let ((s, k, q), o) = account-Is hdr now a in
      let (s', k', q') = handle_state-Is hdr (sack_of es 0) now noted (s ∙ syn) (o ∙ open_a) in
      let answered = handle_state now_micros f hdr (sack_of es 0) now noted in
      let (s2, k2, q2) = flush_ack-Is now answered in
      rw (parsed, dispatch-state hdr (drop off bytes) (sack_of es 0) now noted state)
        (s2 ∙ s', k2 ∙ k', q2 ∙ (q' ∙ q))

  -- Whatever numbers the two sides draw, the SYN that `new_outbound` queues parses; the connection
  -- that `new_inbound` makes of its id and number sends under the id that the initiator receives and
  -- receives under the id that the initiator sends; its SYN-ACK parses, and handling it connects
  -- the initiator, which then expects the responder's next number, as the responder expects the initiator's.
  pub handshake :
      (random random' t t' t'' : ℕ)
      → IsU16 random
      → IsU16 random'
      → ((n : ℕ) → IsU32 (now_micros n))
      → let a = new_outbound now_micros random t in
        (syn : Bytes) × (hdr : PacketHeader) × (es : List Extension) × (off : ℕ) × (a.outbox
          ≡ syn ∷ [])
        × (parse_packet syn ≡ ok (hdr, es, off))
        × (hdr.type_ ≡ st_syn)
        × (let b = new_inbound now_micros random' hdr.connection_id hdr.seq_nr t' in
            (reply : Bytes) × (b.outbox ≡ reply ∷ [])
            × (b.send_id ≡ a.recv_id)
            × (b.recv_id ≡ a.send_id)
            × (let d = handle_packet now_micros f reply t'' a in
                (d.state ≡ UtpState.connected)
                × (wrapping_add16 d.ack 1 ≡ b.seq)
                × (wrapping_add16 b.ack 1 ≡ d.seq)))
  unfolding new_outbound new_inbound initial queue_control control_header
  handshake random random' t t' t'' fits fits' clock =
      let a = new_outbound now_micros random t in
      let fresh = initiator random t in
      let below = bit_and-le random 0xfffe in
      let wired : IsWired fresh = omega (arith, below) in
      let (es, off, parsed, _) =
        parse-control_packet now_micros st_syn fresh (omega arith) wired (clock 0) in
      let hdr = control_header now_micros fresh st_syn 0 in
      let answer = responder random' hdr.connection_id hdr.seq_nr t' in
      let wired' : IsWired answer = omega (arith, below) in
      let (es', off', parsed', _) =
        parse-control_packet now_micros st_state answer (omega arith) wired' (clock 0) in
      let reply = control_packet now_micros answer st_state 0 in
      let hdr' = control_header now_micros answer st_state 0 in
      let (state, ack, seq) = connects hdr' es' off' t'' reply a refl refl refl parsed' in
      (
        control_packet now_micros fresh st_syn 0,
        hdr,
        es,
        off,
        refl,
        parsed,
        refl,
        (reply, refl, refl, refl, (state, omega (arith, ack), omega (arith, seq))),
      )
