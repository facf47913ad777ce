-- ===== src/Transport/Packet.antt =====
-- crates/xfer-transport/src/utp_packet.rs: the uTP header, the extension chain, the SACK bitmap and
-- the wrap-safe comparison of sequence numbers. A byte slice is a list of numbers below 256.
pub mod Order
pub mod Header
pub mod Chain
pub mod Datagram
pub mod Sack
use xfer_rust.Common.{
  ℕ, zero, suc, ◌+◌, ◌-◌, ◌*◌, ◌/◌, ◌%◌, ◌^◌, ◌≤◌, ◌<◌, bit_and, bit_or, ◌≡◌, Bool, not, ◌&&◌, ◌||◌,
  Option, none, some, List, [], ◌∷◌, ◌++◌, ltb, leb, ◌==◌, if◌then◌else◌, length, take, drop,
}
use xfer_rust.Common.Bytes.{Bytes, be16, be32, from_be16, from_be32}
use xfer_rust.Common.Run.{Run, ◌>>=◌, ok, err, stuck, Rejected, rejected}

abbrev pub protocol_version : ℕ
protocol_version = 1

abbrev pub header_len : ℕ
header_len = 20

-- The module `packet_type`.
abbrev pub st_data : ℕ
st_data = 0

abbrev pub st_fin : ℕ
st_fin = 1

abbrev pub st_state : ℕ
st_state = 2

abbrev pub st_reset : ℕ
st_reset = 3

abbrev pub st_syn : ℕ
st_syn = 4

-- The module `ext_type`.
abbrev pub ext_none : ℕ
ext_none = 0

abbrev pub ext_sack : ℕ
ext_sack = 1

pub record PacketHeader : Type 0 where
  pub type_ : ℕ
  pub version : ℕ
  pub extension : ℕ
  pub connection_id : ℕ
  pub timestamp : ℕ
  pub timestamp_diff : ℕ
  pub wnd_size : ℕ
  pub seq_nr : ℕ
  pub ack_nr : ℕ

abbrev pub Extension : Type 0
Extension = ℕ × Bytes

-- The walk along the extension chain: `rest` is `data[off..]`. A round takes two bytes at least, so
-- one unit of fuel more than the data has bytes is enough.
unfoldable pub parse_extensions :
    ℕ → Bytes → ℕ → ℕ → List Extension → Run Rejected (List Extension × ℕ)
parse_extensions zero rest off ext_type extensions =
    if ext_type == ext_none then ok (extensions, off) else stuck
parse_extensions (suc fuel) (next_type ∷ ext_len ∷ rest) off ext_type extensions =
    let more =
      parse_extensions fuel (drop ext_len rest) (off + 2 + ext_len) next_type
        (extensions ++ (ext_type, take ext_len rest) ∷ []) in
    if ext_type == ext_none
    then ok (extensions, off)
    else if ltb (length rest) ext_len
    then err rejected
    else more
parse_extensions (suc fuel) rest off ext_type extensions =
    if ext_type == ext_none then ok (extensions, off) else err rejected

-- The version test and the fields of the fixed header. The clause stands for `data.len() >= 20`.
unfoldable pub parse_header : Bytes → Run Rejected (PacketHeader × Bytes)
parse_header
      (b0 ∷ b1 ∷ b2 ∷ b3 ∷ b4 ∷ b5 ∷ b6 ∷ b7 ∷ b8 ∷ b9 ∷ b10 ∷ b11 ∷ b12 ∷ b13 ∷ b14 ∷ b15 ∷ b16
        ∷ b17 ∷ b18 ∷ b19 ∷ rest) =
    if bit_and b0 0x0f == protocol_version
    then ok (
      record {
        type_ = bit_and (b0 / 2 ^ 4) 0x0f;
        version = bit_and b0 0x0f;
        extension = b1;
        connection_id = from_be16 b2 b3;
        timestamp = from_be32 b4 b5 b6 b7;
        timestamp_diff = from_be32 b8 b9 b10 b11;
        wnd_size = from_be32 b12 b13 b14 b15;
        seq_nr = from_be16 b16 b17;
        ack_nr = from_be16 b18 b19;
      },
      rest,
    )
    else err rejected
parse_header data' = err rejected

-- The header, the extensions in their order on the wire, and the offset of the payload.
unfoldable pub parse_packet : Bytes → Run Rejected (PacketHeader × List Extension × ℕ)
parse_packet bytes = do
  (header, rest) ← parse_header bytes
  (extensions, off) ← parse_extensions (suc (length rest)) rest header_len header.extension []
  ok (header, extensions, off)

-- The twenty bytes that `encode_header` stores.
unfoldable pub header_bytes : PacketHeader → Bytes
header_bytes header =
    bit_or (bit_and header.type_ 0x0f * 2 ^ 4 % 256) (bit_and header.version 0x0f)
    ∷ header.extension
    ∷ be16 header.connection_id (
        be32 header.timestamp (
          be32 header.timestamp_diff
            (be32 header.wnd_size (be16 header.seq_nr (be16 header.ack_nr [])))))

-- `none` is the panic of the assertion.
unfoldable pub encode_header : Bytes → PacketHeader → Option Bytes
unfolding header_bytes
encode_header out header =
    if leb header_len (length out) then some (header_bytes header ++ drop header_len out) else none

-- `bits |= (*b as u32) << (8 * i)` for the bytes from index `i` on.
sack_byte_loop : ℕ → ℕ → Bytes → ℕ
sack_byte_loop i bits [] = bits
sack_byte_loop i bits (b ∷ bs) = sack_byte_loop (i + 1) (bit_or bits (b * 2 ^ (8 * i) % 2 ^ 32)) bs

unfoldable pub decode_sack_bits : Bytes → ℕ
unfolding sack_byte_loop
decode_sack_bits payload = if ltb (length payload) 4 then 0 else sack_byte_loop 0 0 (take 4 payload)

-- `((sack_bits >> (8 * i)) & 0xFF) as u8`
abbrev pub sack_byte : ℕ → ℕ → ℕ
sack_byte sack_bits i = bit_and (sack_bits / 2 ^ (8 * i)) 0xff

unfoldable pub append_sack_extension : Bytes → ℕ → ℕ → Bytes × ℕ
append_sack_extension out off sack_bits = (
  out
      ++ (0
          ∷ 4
          ∷ sack_byte sack_bits 0
          ∷ sack_byte sack_bits 1
          ∷ sack_byte sack_bits 2
          ∷ sack_byte sack_bits 3
          ∷ []),
  off + 6,
)

-- `a.wrapping_sub(b)`, and the test that the difference, read as an i16, is positive.
abbrev pub wrapping_sub16 : ℕ → ℕ → ℕ
wrapping_sub16 a b = (a + 2 ^ 16 - b) % 2 ^ 16

abbrev pub wrapping_add16 : ℕ → ℕ → ℕ
wrapping_add16 a b = (a + b) % 2 ^ 16

-- A 16-bit difference read as an i16 is positive below 2^15, and negative from there on.
unfoldable pub seq_after : ℕ → ℕ → Bool
seq_after a b =
    let difference = wrapping_sub16 a b in not (difference == 0) && ltb difference (2 ^ 15)

unfoldable pub seq_leq : ℕ → ℕ → Bool
seq_leq a b = let difference = wrapping_sub16 a b in difference == 0 || leb (2 ^ 15) difference
