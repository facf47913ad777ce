-- ===== src/Peer/Handshake.antt =====
-- crates/xfer-bt/src/message.rs: the handshake that opens a peer connection.
pub mod RoundTrip
use xfer_rust.Common.{
  ℕ, ◌+◌, bit_and, Bool, true, false, not, ◌&&◌, Option, none, some, List, [], ◌∷◌, ◌++◌, ltb, ◌==◌,
  if◌then◌else◌, length, take, drop, get_or,
}
use xfer_rust.Common.ByteOrder.{same_bytes}
use xfer_rust.Common.Bytes.{Bytes}
use xfer_rust.Common.Run.{Run, ◌>>=◌, ok, err}
use xfer_rust.Peer.Message.{ReadError, fill_until, is_empty}

pub record Handshake : Type 0 where
  pub info_hash : Bytes
  pub peer_id : Bytes
  pub reserved : Bytes

-- "BitTorrent protocol".
abbrev pub pstr : Bytes
pstr =
    66 ∷ 105 ∷ 116 ∷ 84 ∷ 111 ∷ 114 ∷ 114 ∷ 101 ∷ 110 ∷ 116 ∷ 32 ∷ 112 ∷ 114 ∷ 111 ∷ 116 ∷ 111 ∷ 99
    ∷ 111 ∷ 108 ∷ []

abbrev pub own_reserved : Bytes
own_reserved = 0 ∷ 0 ∷ 0 ∷ 0 ∷ 0 ∷ 0x10 ∷ 0 ∷ 0x05 ∷ []

unfoldable pub supports_extension : Bytes → Bool
supports_extension reserved = not (bit_and (get_or reserved 5 0) 0x10 == 0)

unfoldable pub supports_fast_extension : Bytes → Bool
supports_fast_extension reserved = not (bit_and (get_or reserved 7 0) 0x04 == 0)

unfoldable pub supports_dht : Bytes → Bool
supports_dht reserved = not (bit_and (get_or reserved 7 0) 0x01 == 0)

unfoldable pub encode_handshake : Bytes → Bytes → Bytes
encode_handshake info_hash peer_id = length pstr ∷ pstr ++ own_reserved ++ info_hash ++ peer_id

-- The fields of 68 bytes or more.
unfoldable pub fields : Bytes → Run ReadError Handshake
fields bs =
    if not (get_or bs 0 0 == length pstr)
    then err ReadError.invalid_data
    else if not (same_bytes (take 19 (drop 1 bs)) pstr)
    then err ReadError.invalid_data
    else ok (record {
      info_hash = take 20 (drop 28 bs);
      peer_id = take 20 (drop 48 bs);
      reserved = take 8 (drop 20 bs);
    })

unfoldable pub decode_handshake : Bytes → Run ReadError Handshake
decode_handshake bs = if ltb (length bs) 68 then err ReadError.invalid_data else fields bs

unfoldable pub finish_handshake :
    Bytes × List Bytes → Run ReadError (Option Handshake × Bytes × List Bytes)
finish_handshake filled =
    if not (ltb (length filled.0) 68)
    then fields filled.0 >>= (λ hs. ok (some hs, drop 68 filled.0, filled.1))
    else if is_empty filled.0
    then ok (none, [], filled.1)
    else err ReadError.unexpected_eof

-- The reader's handshake so far, its buffer and the reads to come; the handshake that is the result
-- is kept by the reader.
unfoldable pub read_handshake :
    Option Handshake → Bytes → List Bytes → Run ReadError (Option Handshake × Bytes × List Bytes)
read_handshake (some hs) buf reads = ok (some hs, buf, reads)
read_handshake none buf reads = finish_handshake (fill_until 68 buf reads)
