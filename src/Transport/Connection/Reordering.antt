-- ===== src/Transport/Connection/Reordering.antt =====
-- The reorder buffer of `utp_connection.rs`: its accounting, its bound, and when it is emptied.
use xfer_rust.Common.{
  ℕ, ◌+◌, ◌%◌, ◌^◌, ◌≤◌, ◌<◌, ◌≡◌, refl, true, ◌||◌, none, List, [], ◌∷◌, ◌++◌, arith, ◌==◌,
  if◌then◌else◌, length, Bool-cases, leb, leb→le, inl, inr,
}
use xfer_rust.Common.Bytes.{Bytes}
use xfer_rust.Common.BTree
use xfer_rust.Transport.Packet.{seq_leq, wrapping_add16}
use xfer_rust.Transport.Connection.State.{UtpConnection, InPacket, reorder_window, is_empty_bytes}
use xfer_rust.Transport.Connection.Receive.{
  sub32, add32, drain_reorder, deliver, buffered_size, buffer_packet, on_data,
}
use xfer_rust.Transport.Connection.Reassembly.{on_data-old, on_data-taken}

-- The bytes that the buffer holds.
abbrev pub sizes : List (ℕ × InPacket) → ℕ
sizes [] = 0
sizes ((s, p) ∷ m) = length p.payload + sizes m

-- Keys in order, `recv_buffered` is the number of bytes held, and it stays within the window.
pub record IsAccounted (c : UtpConnection) : Type 0 where
  pub ordered : BTree.Ascending c.recv_reorder
  pub counted : c.recv_buffered ≡ sizes c.recv_reorder
  pub bounded : c.recv_buffered ≤ reorder_window

sizes-remove :
    (k : ℕ) (m : List (ℕ × InPacket))
    → sizes (BTree.remove k m) + buffered_size (BTree.lookup k m) ≡ sizes m
sizes-remove k [] = refl
sizes-remove k ((j, w) ∷ m) = ground (arith, sizes-remove k m)

sizes-insert :
    (k : ℕ) (p : InPacket) (m : List (ℕ × InPacket))
    → BTree.lookup k m ≡ none
    → sizes (BTree.insert k p m) ≡ length p.payload + sizes m
sizes-insert k p [] h = refl
sizes-insert k p ((j, w) ∷ m) h = ground (arith, sizes-insert k p m)

drain_reorder-IsAccounted :
    (m : List (ℕ × InPacket)) (c : UtpConnection)
    → BTree.Ascending m
    → c.recv_buffered ≡ sizes m
    → c.recv_buffered ≤ reorder_window
    → IsAccounted (drain_reorder m c)
unfolding drain_reorder
drain_reorder-IsAccounted [] c h e b = ground arith
drain_reorder-IsAccounted ((k, p) ∷ m) c (above, h) e b =
    let next = record c {
      ack = k;
      recv_out = c.recv_out ++ p.payload;
      recv_buffered = sub32 c.recv_buffered (length p.payload);
    } in
    let rest = drain_reorder-IsAccounted m next h (omega arith) (omega arith) in
    elim (Bool-cases (k == wrapping_add16 c.ack 1)) [
      | inl go ↦ rw go rest
      | inr stop ↦ rw stop (record { ordered = (above, h); counted = e; bounded = b })
    ]

buffer_packet-IsAccounted :
    (s : ℕ) (payload : Bytes) (now : ℕ) (c : UtpConnection)
    → length payload < 2 ^ 31
    → IsAccounted c
    → IsAccounted (buffer_packet s payload now c)
unfolding buffer_packet
buffer_packet-IsAccounted s payload now c short h =
    let p : InPacket = record { payload = payload; received_at = now } in
    let m = BTree.remove s c.recv_reorder in
    let removed = sizes-remove s c.recv_reorder in
    let inserted = sizes-insert s p m (BTree.lookup-remove s c.recv_reorder h.ordered) in
    let total = h.counted in
    let bounded = h.bounded in
    elim (Bool-cases (leb (add32 c.recv_buffered (length payload % 2 ^ 32)) reorder_window)) [
      | inl fits ↦
          let room = leb→le _ _ fits in
          rw fits (record {
            ordered =
                BTree.insert-Ascending s p m (BTree.remove-Ascending s c.recv_reorder h.ordered);
            counted = omega (arith, removed, inserted);
            bounded = omega (arith, removed, inserted, room);
          })
      | inr full ↦ rw full h
    ]

taken-IsAccounted :
    (s : ℕ) (payload : Bytes) (now : ℕ) (c : UtpConnection)
    → length payload < 2 ^ 31
    → IsAccounted c
    → let asked = record c { ack_pending = true } in
      let taken =
        if s == wrapping_add16 c.ack 1
        then deliver s payload asked
        else buffer_packet s payload now asked in
      IsAccounted (record taken { want_read = true })
unfolding deliver
taken-IsAccounted s payload now c short h =
    let asked = record c { ack_pending = true } in
    let held : IsAccounted asked = record {
      ordered = h.ordered;
      counted = h.counted;
      bounded = h.bounded;
    } in
    elim (Bool-cases (s == wrapping_add16 c.ack 1)) [
      | inl e ↦
          let d =
            drain_reorder-IsAccounted c.recv_reorder
              (record asked { ack = s; recv_out = c.recv_out ++ payload }) h.ordered h.counted
              h.bounded in
          rw e (record { ordered = d.ordered; counted = d.counted; bounded = d.bounded })
      | inr e ↦
          let d = buffer_packet-IsAccounted s payload now asked short held in
          rw e (record { ordered = d.ordered; counted = d.counted; bounded = d.bounded })
    ]

-- `on_data` keeps the reorder buffer ordered, its byte count exact and at most 1 MiB.
pub on_data-IsAccounted :
    (s : ℕ) (payload : Bytes) (now : ℕ) (c : UtpConnection)
    → length payload < 2 ^ 31
    → IsAccounted c
    → IsAccounted (on_data s payload now c)
on_data-IsAccounted s payload now c short h =
    let asked = record c { ack_pending = true } in
    elim (Bool-cases (is_empty_bytes payload || seq_leq s c.ack)) [
      | inl old ↦
          rw (on_data-old s payload now c old)
            (record { ordered = h.ordered; counted = h.counted; bounded = h.bounded })
      | inr new ↦ rw (on_data-taken s payload now c new) (taken-IsAccounted s payload now c short h)
    ]

drain_reorder_complete :
    (m : List (ℕ × InPacket)) (c : UtpConnection)
    → BTree.Ascending m
    → BTree.Above c.ack m
    → let d = drain_reorder m c in BTree.lookup (wrapping_add16 d.ack 1) d.recv_reorder ≡ none
unfolding drain_reorder
drain_reorder_complete [] c h above = refl
drain_reorder_complete ((k, p) ∷ m) c (over, h) (low, above) =
    let next = record c {
      ack = k;
      recv_out = c.recv_out ++ p.payload;
      recv_buffered = sub32 c.recv_buffered (length p.payload);
    } in
    let rest = drain_reorder_complete m next h over in
    elim (Bool-cases (k == wrapping_add16 c.ack 1)) [
      | inl go ↦ rw go rest
      | inr stop ↦
          rw stop (rw stop (BTree.lookup-Above (wrapping_add16 c.ack 1) k m (ground arith) over))
    ]

-- Where no buffered number has wrapped round below `ack`, a delivery empties the buffer up to the
-- next gap: the number after the new `ack` is not in it.
pub deliver_drains :
    (s : ℕ) (payload : Bytes) (c : UtpConnection)
    → BTree.Ascending c.recv_reorder
    → BTree.Above s c.recv_reorder
    → let d = deliver s payload c in BTree.lookup (wrapping_add16 d.ack 1) d.recv_reorder ≡ none
unfolding deliver
deliver_drains s payload c h above =
    drain_reorder_complete c.recv_reorder (record c { ack = s; recv_out = c.recv_out ++ payload }) h
      above
