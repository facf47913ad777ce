-- ===== src/Transport/Packet/Header.antt =====
-- The fixed header: what `parse_header` reads back from `header_bytes`, and the other way round.
use xfer_rust.Common.{
  inl, inr, Bool-cases, All-drop, ◌==◌, ==_iff, ℕ, ◌+◌, ◌*◌, ◌/◌, ◌%◌, ◌^◌, ◌<◌, ◌≡◌, ◌≢◌, bit_and,
  bit_or, ◌∷◌, ◌++◌, arith,
}
use mathlib.Core.Path.{subst}
use xfer_rust.Common.Bytes.{Bytes, IsByte, IsBytes, IsU16, IsU32}
use xfer_rust.Common.Masks.{bit_or_nibbles, bit_and_nibble}
use xfer_rust.Common.Run.{ok, ok-injective, stuck}
use xfer_rust.Transport.Packet.{PacketHeader, parse_header, header_bytes, protocol_version}

-- The values that the fields of a Rust `PacketHeader` of version 1 can have; the type takes four bits.
pub record IsHeader (header : PacketHeader) : Type 0 where
  pub type_fits : header.type_ < 16
  pub version_one : header.version ≡ protocol_version
  pub extension_fits : IsByte header.extension
  pub connection_fits : IsU16 header.connection_id
  pub timestamp_fits : IsU32 header.timestamp
  pub diff_fits : IsU32 header.timestamp_diff
  pub wnd_fits : IsU32 header.wnd_size
  pub seq_fits : IsU16 header.seq_nr
  pub ack_fits : IsU16 header.ack_nr

pub parse_header-header_bytes :
    (header : PacketHeader) (rest : Bytes)
    → IsHeader header
    → parse_header (header_bytes header ++ rest) ≡ ok (header, rest)
unfolding parse_header header_bytes
parse_header-header_bytes header rest h =
    rw (bit_or_nibbles header.type_ header.version h.type_fits (omega arith)) (
      ground (
        arith,
        bit_and_nibble (header.type_ * 16 + header.version),
        bit_and_nibble ((header.type_ * 16 + header.version) / 2 ^ 4),
      ))

byte_halves :
    (b : ℕ)
    → b < 256
    → bit_or (bit_and (bit_and (b / 2 ^ 4) 0x0f) 0x0f * 2 ^ 4 % 256) (bit_and (bit_and b 0x0f) 0x0f)
      ≡ b
byte_halves b h =
    let low : bit_and b 0x0f < 16 = omega (arith, bit_and_nibble b) in
    let high : bit_and (b / 2 ^ 4) 0x0f < 16 = omega (arith, bit_and_nibble (b / 2 ^ 4)) in
    omega (
      arith,
      bit_or_nibbles (bit_and (b / 2 ^ 4) 0x0f) (bit_and b 0x0f) high low,
      bit_and_nibble b,
      bit_and_nibble (b / 2 ^ 4),
    )

pub parse_header_sound :
    (bytes : Bytes) (header : PacketHeader) (rest : Bytes)
    → IsBytes bytes
    → parse_header bytes ≡ ok (header, rest)
    → IsHeader header × (bytes ≡ header_bytes header ++ rest) × IsBytes rest
unfolding parse_header header_bytes
parse_header_sound
      (b0 ∷ b1 ∷ b2 ∷ b3 ∷ b4 ∷ b5 ∷ b6 ∷ b7 ∷ b8 ∷ b9 ∷ b10 ∷ b11 ∷ b12 ∷ b13 ∷ b14 ∷ b15 ∷ b16
        ∷ b17 ∷ b18 ∷ b19 ∷ bs)
      header rest hb e =
    let version = bit_and_nibble b0 in
    let kind = bit_and_nibble (b0 / 2 ^ 4) in
    elim (Bool-cases (bit_and b0 0x0f == protocol_version)) [
      | inl one ↦
          subst
            (λ ((parsed, after) : PacketHeader × Bytes).
              IsHeader parsed
              × ((b0 ∷ b1 ∷ b2 ∷ b3 ∷ b4 ∷ b5 ∷ b6 ∷ b7 ∷ b8 ∷ b9 ∷ b10 ∷ b11 ∷ b12 ∷ b13 ∷ b14
                    ∷ b15 ∷ b16 ∷ b17 ∷ b18 ∷ b19 ∷ bs)
                  ≡ header_bytes parsed ++ after)
              × IsBytes after)
            (ok-injective (rw one at e))
            (
              omega (arith, version, kind, (==_iff (bit_and b0 0x0f) 1).0 one),
              rw (byte_halves b0 (hb.0)) (ground arith),
              All-drop IsByte 20
                  (b0 ∷ b1 ∷ b2 ∷ b3 ∷ b4 ∷ b5 ∷ b6 ∷ b7 ∷ b8 ∷ b9 ∷ b10 ∷ b11 ∷ b12 ∷ b13 ∷ b14
                    ∷ b15 ∷ b16 ∷ b17 ∷ b18 ∷ b19 ∷ bs)
                  hb,
            )
      | inr other ↦ absurd (cc (rw other at e))
    ]
parse_header_sound _ header rest hb e = absurd (ground arith)

pub parse_header-ne-stuck : (bytes : Bytes) → parse_header bytes ≢ stuck
unfolding parse_header
parse_header-ne-stuck
      (b0 ∷ b1 ∷ b2 ∷ b3 ∷ b4 ∷ b5 ∷ b6 ∷ b7 ∷ b8 ∷ b9 ∷ b10 ∷ b11 ∷ b12 ∷ b13 ∷ b14 ∷ b15 ∷ b16
        ∷ b17 ∷ b18 ∷ b19 ∷ bs)
      e =
    ground arith
parse_header-ne-stuck _ e = ground arith
