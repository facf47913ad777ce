-- ===== src/Transport/Packet/Sack.antt =====
-- The selective acknowledgement, from `append_sack_extension` through the parser to the bitmap.
use xfer_rust.Common.{ℕ, ◌+◌, ◌*◌, ◌/◌, ◌%◌, ◌^◌, ◌≡◌, ◌∙◌, ap, [], ◌∷◌, arith, bit_or}
use xfer_rust.Common.Masks.{bit_and_byte, bit_or-shift, zero-bit_or}
use xfer_rust.Common.Bytes.{Bytes, IsByte, IsU32}
use xfer_rust.Common.Run.{ok}
use xfer_rust.Transport.Packet.{
  PacketHeader, header_len, ext_sack, parse_packet, header_bytes, append_sack_extension,
  decode_sack_bits, sack_byte,
}
use xfer_rust.Transport.Packet.Header.{IsHeader}
use xfer_rust.Transport.Packet.Datagram.{parse_packet-wire}

abbrev pub sack_payload : ℕ → Bytes
sack_payload bits = sack_byte bits 0 ∷ sack_byte bits 1 ∷ sack_byte bits 2 ∷ sack_byte bits 3 ∷ []

-- Four bytes, the lowest first, are read as one number.
decode_four :
    (a b c d : ℕ)
    → IsByte a
    → IsByte b
    → IsByte c
    → IsByte d
    → decode_sack_bits (a ∷ b ∷ c ∷ d ∷ []) ≡ a + b * 2 ^ 8 + c * 2 ^ 16 + d * 2 ^ 24
unfolding decode_sack_bits
decode_four a b c d ha hb hc hd =
    let first : bit_or 0 (a * 2 ^ 0 % 2 ^ 32) ≡ a =
      omega (arith, zero-bit_or (a * 2 ^ 0 % 2 ^ 32)) in
    let second : bit_or a (b * 2 ^ 8 % 2 ^ 32) ≡ a + b * 2 ^ 8 =
      ap (bit_or a) (omega arith) ∙ bit_or-shift 8 a b (omega arith) in
    let third : bit_or (a + b * 2 ^ 8) (c * 2 ^ 16 % 2 ^ 32) ≡ a + b * 2 ^ 8 + c * 2 ^ 16 =
      ap (bit_or (a + b * 2 ^ 8)) (omega arith) ∙ bit_or-shift 16 (a + b * 2 ^ 8) c (omega arith) in
    let fourth : bit_or (a + b * 2 ^ 8 + c * 2 ^ 16) (d * 2 ^ 24 % 2 ^ 32)
        ≡ a + b * 2 ^ 8 + c * 2 ^ 16 + d * 2 ^ 24 =
      ap (bit_or (a + b * 2 ^ 8 + c * 2 ^ 16)) (omega arith)
      ∙ bit_or-shift 24 (a + b * 2 ^ 8 + c * 2 ^ 16) d (omega arith) in
    rw (first, second, third, fourth)

pub decode_sack_bits-payload : (bits : ℕ) → IsU32 bits → decode_sack_bits (sack_payload bits) ≡ bits
decode_sack_bits-payload bits h = omega (
  arith,
  decode_four (sack_byte bits 0) (sack_byte bits 1) (sack_byte bits 2) (sack_byte bits 3),
  bit_and_byte (bits / 2 ^ (8 * 0)),
  bit_and_byte (bits / 2 ^ (8 * 1)),
  bit_and_byte (bits / 2 ^ (8 * 2)),
  bit_and_byte (bits / 2 ^ (8 * 3)),
)

-- A header that announces a SACK, with the bitmap appended, parses to that header and one SACK
-- extension, whose payload decodes to the bitmap; the offset is the one that the encoder returned.
pub sack_round_trip :
    (header : PacketHeader) (bits : ℕ)
    → IsHeader header
    → header.extension ≡ ext_sack
    → IsU32 bits
    → (payload : Bytes) × (parse_packet
          (append_sack_extension (header_bytes header) header_len bits).0
        ≡ ok (
          header,
          (ext_sack, payload) ∷ [],
          (append_sack_extension (header_bytes header) header_len bits).1,
        ))
      × (decode_sack_bits payload ≡ bits)
unfolding append_sack_extension
sack_round_trip header bits h sack fits = (
  sack_payload bits,
  parse_packet-wire header ((ext_sack, sack_payload bits) ∷ []) [] h (omega arith) sack,
  decode_sack_bits-payload bits fits,
)
