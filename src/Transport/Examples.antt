-- ===== src/Transport/Examples.antt =====
-- Runs of the uTP model, and its theorems at concrete inputs.
use xfer_rust.Common.{
  ℕ, ◌+◌, ◌*◌, ◌/◌, ◌%◌, ◌^◌, ◌≤◌, ◌<◌, ◌≡◌, ◌≢◌, ◌↔◌, ◌⊎◌, inl, refl, true, false, some, List, [],
  ◌∷◌, arith, if◌then◌else◌, length,
}
use xfer_rust.Common.BTree
use xfer_rust.Common.Bytes.{Bytes, IsBytes, IsU32}
use xfer_rust.Common.Int.{pos}
use xfer_rust.Common.Run.{ok, err, rejected}
use xfer_rust.Transport.Packet.{
  seq_leq, PacketHeader, Extension, header_len, st_syn, st_state, parse_packet, header_bytes,
  parse_header, parse_extensions, seq_after, wrapping_add16, wrapping_sub16,
}
use xfer_rust.Transport.Packet.Header.{IsHeader}
use xfer_rust.Transport.Packet.Chain.{IsChain, first_type, chain_bytes}
use xfer_rust.Transport.Packet.Datagram.{wire, parse_packet_iff}
use xfer_rust.Transport.Connection.State.{
  UtpConnection, UtpState, InPacket, initial, is_empty_bytes,
}
use xfer_rust.Transport.Connection.Output.{control_packet, control_header, sack_bitmap}
use xfer_rust.Transport.Connection.Congestion.{Floats}
use xfer_rust.Transport.Connection.Receive.{on_data, deliver, drain_reorder, buffer_packet}
use xfer_rust.Transport.Connection.Acknowledge.{on_ack}
use xfer_rust.Transport.Connection.Handle.{new_outbound, new_inbound, handle_packet, sack_of}
use xfer_rust.Transport.Connection.Tick.{flush_pending}
use xfer_rust.Transport.Connection.Frame.{InBounds}
use xfer_rust.Transport.Connection.Progress.{rank}
use xfer_rust.Transport.Connection.Life.{Event, run, run_forward, run_new}
use xfer_rust.Transport.Connection.Reassembly.{Delivers, on_data-Delivers}
use xfer_rust.Transport.Connection.Reordering.{IsAccounted, on_data-IsAccounted}
use xfer_rust.Transport.Connection.Sending.{Flushes, flush_pending-Flushes}
use xfer_rust.Transport.Connection.Acknowledging.{Releases, on_ack-Releases}
use xfer_rust.Transport.Connection.Control.{IsWired, parse-control_packet}
use xfer_rust.Transport.Connection.Handshake.{handshake}

-- Fractions in place of the f64 operations, and a clock that ticks once a reading.
abbrev fractions : Floats
fractions = record {
  F64 = ℕ × ℕ;
  from_u32 = λ n. (n, 1);
  mul = λ a b. (a.0 * b.0, a.1 * b.1);
  div = λ a b. (a.0 * b.1, a.1 * b.0);
  to_i64 = λ a. pos (a.0 / a.1);
}

abbrev ticking : ℕ → ℕ
ticking n = n % 2 ^ 32

ticking-IsU32 : (n : ℕ) → IsU32 (ticking n)
ticking-IsU32 n = omega arith

abbrev some_header : PacketHeader
some_header = record {
  type_ = 0;
  version = 1;
  extension = 1;
  connection_id = 0x1234;
  timestamp = 0xdead_beef;
  timestamp_diff = 7;
  wnd_size = 0x10_0000;
  seq_nr = 42;
  ack_nr = 17;
}

abbrev one_sack : List Extension
one_sack = (1, 1 ∷ 0 ∷ 0 ∷ 0x80 ∷ []) ∷ []

abbrev datagram : Bytes
datagram = wire some_header one_sack (104 ∷ 105 ∷ [])

sack_datagram :
    parse_packet (
      0x01 ∷ 1 ∷ 0x12 ∷ 0x34 ∷ 0xde ∷ 0xad ∷ 0xbe ∷ 0xef ∷ 0 ∷ 0 ∷ 0 ∷ 7 ∷ 0 ∷ 0x10 ∷ 0 ∷ 0 ∷ 0 ∷ 42
      ∷ 0 ∷ 17 ∷ 0 ∷ 4 ∷ 1 ∷ 0 ∷ 0 ∷ 0x80 ∷ 104 ∷ 105 ∷ [])
    ≡ ok (some_header, one_sack, 26)
unfolding parse_packet parse_header parse_extensions
sack_datagram = refl

wrong_version : parse_packet (0x02 ∷ 0 ∷ []) ≡ err rejected
unfolding parse_packet parse_header
wrong_version = refl

wraps : seq_after 0 0xffff ≡ true
unfolding seq_after
wraps = refl

datagram-IsBytes : IsBytes datagram
datagram-IsBytes = unfold header_bytes in omega arith

parse_packet_iff_example : (parse_packet datagram ≡ ok (some_header, one_sack, 26)) ↔ (
    IsHeader some_header
    × IsChain one_sack
    × (some_header.extension ≡ first_type one_sack)
    × (26 ≡ header_len + length (chain_bytes one_sack))
    × ((payload : Bytes) × (datagram ≡ wire some_header one_sack payload)))
parse_packet_iff_example = parse_packet_iff datagram some_header one_sack 26 datagram-IsBytes

some_header-IsHeader : IsHeader some_header
some_header-IsHeader = omega arith

-- An established connection, and one that holds two packets behind a gap at the wrap-around.
abbrev opened : UtpConnection
opened = record (initial UtpState.connected 8 9 5 0 0xfffd (some 0) 0) {
  pending_send = 1 ∷ 2 ∷ 3 ∷ [];
}

abbrev held : ℕ → InPacket
held b = record { payload = b ∷ []; received_at = 0 }

abbrev gapped : UtpConnection
gapped = record opened { recv_reorder = (0, held 2) ∷ (0xffff, held 1) ∷ []; recv_buffered = 2 }

-- The handshake's two constructors, a data packet's arrival, a tick, and the stream API.
abbrev events : List Event
events =
    Event.arrives datagram 5_000
    ∷ Event.writes (1 ∷ 2 ∷ [])
    ∷ Event.ticks 2_000_000_000
    ∷ Event.reads 16
    ∷ Event.closes
    ∷ Event.drains
    ∷ []

run_forward_example : rank opened.state ≤ rank (run ticking fractions events opened).state
run_forward_example = run_forward ticking fractions events opened

run_new_example :
    InBounds (run ticking fractions events (new_outbound ticking 0xabcd 1))
    × (((run ticking fractions events (new_outbound ticking 0xabcd 1)).error ≡ false)
        ⊎ ((run ticking fractions events (new_outbound ticking 0xabcd 1)).state ≡ UtpState.closed))
run_new_example =
    run_new ticking fractions events (new_outbound ticking 0xabcd 1) (inl (0xabcd, 1, refl))

-- The peer's byte under each number from 0xfffe on.
abbrev stream : ℕ → Bytes
stream s = wrapping_sub16 s 0xfffe ∷ []

on_data-Delivers_example :
    (d : Delivers stream gapped (on_data 0xfffe (0 ∷ []) 7 gapped)) × ((0xfffe
        ≢ wrapping_add16 gapped.ack 1)
      ⊎ (◌≡◌ {A = Bytes} (0 ∷ []) [])
      ⊎ (0 < d.count))
unfolding initial
on_data-Delivers_example =
    on_data-Delivers stream 0xfffe (0 ∷ []) 7 gapped (omega arith) refl (refl, (refl, tt))

on_data-IsAccounted_example : IsAccounted (on_data 0xfffe (0 ∷ []) 7 gapped)
on_data-IsAccounted_example =
    on_data-IsAccounted 0xfffe (0 ∷ []) 7 gapped (omega arith)
      (record { ordered = ground arith; counted = refl; bounded = omega arith })

-- Two packets from both sides of the wrap-around arrive early, and then the one before them: only that
-- one is delivered, and the packet for the next number stays in the buffer.
abbrev stalled : UtpConnection
stalled = on_data 0xfffe (0 ∷ []) 7 (on_data 0 (2 ∷ []) 6 (on_data 0xffff (1 ∷ []) 5 opened))

stalled_at : stalled.ack ≡ 0xfffe
unfolding initial on_data deliver drain_reorder buffer_packet is_empty_bytes seq_leq
stalled_at = refl

stalled_holds :
    BTree.lookup (wrapping_add16 stalled.ack 1) stalled.recv_reorder
    ≡ some (record { payload = 1 ∷ []; received_at = 5 })
unfolding initial on_data deliver drain_reorder buffer_packet is_empty_bytes seq_leq
stalled_holds = refl

flush_pending-Flushes_example : Flushes opened (flush_pending ticking 3 9 opened)
unfolding initial
flush_pending-Flushes_example =
    flush_pending-Flushes ticking 3 9 opened (omega arith) (omega arith) (omega arith) (omega arith)
      (record { counted = refl; bounded = omega arith })

-- Two packets in flight, of which the first is acknowledged.
abbrev sending : UtpConnection
sending = record opened {
  cur_window = 5;
  seq = 10;
  send_queue =
      record { payload = 1 ∷ 2 ∷ []; seq = 8; send_time = 0; size = 2; retransmits = 0 }
      ∷ record { payload = 3 ∷ 4 ∷ 5 ∷ []; seq = 9; send_time = 0; size = 3; retransmits = 0 }
      ∷ [];
}

on_ack-Releases_example : Releases 8 sending (on_ack ticking fractions 8 0 50 sending)
unfolding initial
on_ack-Releases_example =
    on_ack-Releases ticking fractions 8 0 50 sending refl
      (record { counted = refl; bounded = omega arith })

gapped-IsWired : IsWired gapped
unfolding initial
gapped-IsWired = omega arith

parse-control_packet_example :
    (es : List Extension) × (off : ℕ) × (parse_packet (control_packet ticking gapped st_state 0)
      ≡ ok (control_header ticking gapped st_state 0, es, off))
    × (sack_of es 0 ≡ (
        if BTree.is_empty gapped.recv_reorder
        then 0
        else sack_bitmap gapped.ack (BTree.keys gapped.recv_reorder) 0))
parse-control_packet_example =
    parse-control_packet ticking st_state gapped (omega arith) gapped-IsWired
      (ticking-IsU32 gapped.readings)

handshake_example :
    let a = new_outbound ticking 0x1235 1 in
    (syn : Bytes) × (hdr : PacketHeader) × (es : List Extension) × (off : ℕ) × (a.outbox ≡ syn ∷ [])
    × (parse_packet syn ≡ ok (hdr, es, off))
    × (hdr.type_ ≡ st_syn)
    × (let b = new_inbound ticking 0x9876 hdr.connection_id hdr.seq_nr 2 in
        (reply : Bytes) × (b.outbox ≡ reply ∷ [])
        × (b.send_id ≡ a.recv_id)
        × (b.recv_id ≡ a.send_id)
        × (let d = handle_packet ticking fractions reply 3 a in
            (d.state ≡ UtpState.connected)
            × (wrapping_add16 d.ack 1 ≡ b.seq)
            × (wrapping_add16 b.ack 1 ≡ d.seq)))
handshake_example =
    handshake ticking fractions 0x1235 0x9876 1 2 3 (omega arith) (omega arith) ticking-IsU32
