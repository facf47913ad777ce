-- ===== src/Transport/Connection/Control.antt =====
-- What the peer reads off the control packets that `utp_connection.rs` builds.
use xfer_rust.Common.{
  ℕ, ◌^◌, ◌≤◌, ◌<◌, ◌≡◌, refl, List, [], ◌∷◌, arith, ltb, ltb→lt, if◌then◌else◌, Bool-cases, inl,
  inr, bit_or,
}
use native.Mathlib.Nat.{pow-le-pow_right}
use xfer_rust.Common.Masks.{bit_or-lt}
use xfer_rust.Common.Bytes.{IsU16, IsU32}
use xfer_rust.Common.Run.{ok}
use xfer_rust.Common.BTree
use xfer_rust.Transport.Packet.{
  Extension, parse_packet, ext_none, ext_sack, wrapping_add16, wrapping_sub16,
}
use xfer_rust.Transport.Packet.Header.{IsHeader}
use xfer_rust.Transport.Packet.Datagram.{parse_packet-wire}
use xfer_rust.Transport.Packet.Sack.{sack_payload, decode_sack_bits-payload}
use xfer_rust.Transport.Connection.State.{UtpConnection}
use xfer_rust.Transport.Connection.Output.{
  sack_bitmap, sack_extension, advertised_wnd, control_header, control_packet,
}
use xfer_rust.Transport.Connection.Handle.{sack_of}

-- The fields that are sent fit their widths.
pub record IsWired (c : UtpConnection) : Type 0 where
  pub recv_id_fits : IsU16 c.recv_id
  pub send_id_fits : IsU16 c.send_id
  pub seq_fits : IsU16 c.seq
  pub syn_seq_fits : IsU16 c.syn_seq
  pub fin_seq_fits : IsU16 c.fin_seq
  pub ack_fits : IsU16 c.ack
  pub echo_fits : IsU32 c.ts_diff_echo

power_below : (off : ℕ) → off < 32 → 2 ^ off < 2 ^ 32
power_below off h =
    let most : 2 ^ off ≤ 2 ^ 31 = pow-le-pow_right (omega arith) {j = 31} (omega arith) in
    omega (arith, most)

pub sack_bitmap-IsU32 :
    (ack : ℕ) (keys : List ℕ) (bits : ℕ) → IsU32 bits → IsU32 (sack_bitmap ack keys bits)
unfolding sack_bitmap
sack_bitmap-IsU32 ack [] bits h = h
sack_bitmap-IsU32 ack (s ∷ keys) bits h =
    let off = wrapping_sub16 s (wrapping_add16 ack 2) in
    elim (Bool-cases (ltb off 32)) [
      | inl e ↦ rw e (
          sack_bitmap-IsU32 ack keys (bit_or bits (2 ^ off))
            (bit_or-lt 32 bits (2 ^ off) h (power_below off (ltb→lt off 32 e))))
      | inr e ↦ rw e (sack_bitmap-IsU32 ack keys bits h)
    ]

module _ (now_micros : ℕ → ℕ) where
  control_header-IsHeader :
      (type_ : ℕ) (c : UtpConnection)
      → type_ < 16
      → IsWired c
      → IsU32 (now_micros c.readings)
      → IsHeader (control_header now_micros c type_ 0)
  unfolding control_header advertised_wnd
  control_header-IsHeader type_ c fits w clock = ground (arith, w)

  announced :
      (type_ : ℕ) (c : UtpConnection)
      → (control_header now_micros c type_ 0).extension
        ≡ (if BTree.is_empty c.recv_reorder then ext_none else ext_sack)
  unfolding control_header
  announced type_ c = refl

  -- The peer parses every control packet of a connection whose fields fit their widths to exactly the
  -- header that was meant, and reads off it the bitmap of the gaps, or no bit where nothing is
  -- buffered.
  pub parse-control_packet :
      (type_ : ℕ) (c : UtpConnection)
      → type_ < 16
      → IsWired c
      → IsU32 (now_micros c.readings)
      → (es : List Extension) × (off : ℕ) × (parse_packet (control_packet now_micros c type_ 0)
          ≡ ok (control_header now_micros c type_ 0, es, off))
        × (sack_of es 0 ≡ (
            if BTree.is_empty c.recv_reorder
            then 0
            else sack_bitmap c.ack (BTree.keys c.recv_reorder) 0))
  unfolding control_packet sack_extension sack_of
  parse-control_packet type_ c fits w clock =
      let proper = control_header-IsHeader type_ c fits w clock in
      let h = control_header now_micros c type_ 0 in
      let bits = sack_bitmap c.ack (BTree.keys c.recv_reorder) 0 in
      let read =
        decode_sack_bits-payload bits
          (sack_bitmap-IsU32 c.ack (BTree.keys c.recv_reorder) 0 (omega arith)) in
      elim (Bool-cases (BTree.is_empty c.recv_reorder)) [
        | inl none_held ↦ (
          [],
          20,
          rw none_held (parse_packet-wire h [] [] proper tt (rw none_held at (announced type_ c))),
          rw none_held refl,
        )
        | inr held ↦ (
          (ext_sack, sack_payload bits) ∷ [],
          26,
          rw held (
              parse_packet-wire h ((ext_sack, sack_payload bits) ∷ []) [] proper (omega arith)
                (rw held at (announced type_ c))),
          rw held read,
        )
      ]
