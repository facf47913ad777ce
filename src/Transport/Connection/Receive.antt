-- ===== src/Transport/Connection/Receive.antt =====
-- crates/xfer-transport/src/utp_connection.rs, `on_data`: delivery in order and the reorder buffer.
use xfer_rust.Common.{
  ℕ, ◌+◌, ◌-◌, ◌%◌, ◌^◌, true, Option, none, some, List, [], ◌∷◌, ◌++◌, leb, ◌==◌, if◌then◌else◌,
  length,
}
use xfer_rust.Common.Bytes.{Bytes}
use xfer_rust.Common.BTree
use xfer_rust.Transport.Packet.{seq_leq, wrapping_add16}
use xfer_rust.Transport.Connection.State.{UtpConnection, InPacket, reorder_window, is_empty_bytes}

abbrev pub sub32 : ℕ → ℕ → ℕ
sub32 a b = (a + 2 ^ 32 - b % 2 ^ 32) % 2 ^ 32

abbrev pub add32 : ℕ → ℕ → ℕ
add32 a b = (a + b) % 2 ^ 32

-- The loop that empties the reorder buffer from its first key, as long as that is the next number.
unfoldable pub drain_reorder : List (ℕ × InPacket) → UtpConnection → UtpConnection
drain_reorder [] c = record c { recv_reorder = [] }
drain_reorder ((next_seq, p) ∷ more) c =
    let rest = drain_reorder more (record c {
      ack = next_seq;
      recv_out = c.recv_out ++ p.payload;
      recv_buffered = sub32 c.recv_buffered (length p.payload);
    }) in
    if next_seq == wrapping_add16 c.ack 1
    then rest
    else record c { recv_reorder = (next_seq, p) ∷ more }

-- The packet that expected to come next, and what the buffer held behind it.
unfoldable pub deliver : ℕ → Bytes → UtpConnection → UtpConnection
deliver s payload c =
    drain_reorder c.recv_reorder (record c { ack = s; recv_out = c.recv_out ++ payload })

abbrev pub buffered_size : Option InPacket → ℕ
buffered_size none = 0
buffered_size (some dup) = length dup.payload

-- A packet out of order replaces one of its number, within the window for reordering.
unfoldable pub buffer_packet : ℕ → Bytes → ℕ → UtpConnection → UtpConnection
buffer_packet s payload now c =
    if leb (add32 c.recv_buffered (length payload % 2 ^ 32)) reorder_window
    then record c {
      recv_reorder =
          BTree.insert s (record { payload = payload; received_at = now })
            (BTree.remove s c.recv_reorder);
      recv_buffered =
          add32 (sub32 c.recv_buffered (buffered_size (BTree.lookup s c.recv_reorder)))
            (length payload % 2 ^ 32);
    }
    else c

unfoldable pub on_data : ℕ → Bytes → ℕ → UtpConnection → UtpConnection
on_data s payload now c =
    let asked = record c { ack_pending = true } in
    let taken =
      if s == wrapping_add16 c.ack 1
      then deliver s payload asked
      else buffer_packet s payload now asked in
    if is_empty_bytes payload
    then asked
    else if seq_leq s c.ack
    then asked
    else record taken { want_read = true }
