-- ===== src/Peer/Examples.antt =====
-- Runs of the peer wire model, and its theorems at concrete inputs.
use xfer_rust.Peer.Handshake.{
  pstr, own_reserved, encode_handshake, decode_handshake, fields, read_handshake,
  supports_extension, supports_fast_extension, supports_dht,
}
use xfer_rust.Peer.Handshake.RoundTrip.{read_handshake-encode_handshake}
use xfer_rust.Common.{none, true, ◌&&◌, replicate, ℕ, ◌≡◌, refl, arith, List, [], ◌∷◌, ◌++◌, some}
use xfer_rust.Common.Bytes.{Bytes}
use xfer_rust.Common.Run.{ok, err}
use xfer_rust.Peer.Message.{
  Message, ReadError, encode, id, body, parse_message, parse_body, read_message, fill_until,
  request_loop, request_blocks,
}
use xfer_rust.Peer.Message.Wire.{payload}
use xfer_rust.Peer.Message.Reader.{concat, read_message-encode}
use xfer_rust.Peer.Message.Blocks.{Tiles, Full, request_blocks-Tiles}

have_bytes : encode (Message.have 7) ≡ 0 ∷ 0 ∷ 0 ∷ 5 ∷ 4 ∷ 0 ∷ 0 ∷ 0 ∷ 7 ∷ []
unfolding encode id body
have_bytes = refl

short_request : parse_message (6 ∷ 0 ∷ 0 ∷ []) ≡ err ReadError.invalid_data
unfolding parse_message parse_body
short_request = refl

three_blocks : request_blocks 40 16 ≡ ok ((0, 16) ∷ (16, 16) ∷ (32, 8) ∷ [])
unfolding request_blocks request_loop
three_blocks = refl

ended : read_message (0 ∷ []) [] ≡ err ReadError.unexpected_eof
unfolding read_message fill_until
ended = refl

-- The block arrives in two reads, the second of which brings a byte of the next message.
abbrev block : Message
block = Message.piece 1 0x4000 (7 ∷ 8 ∷ [])

abbrev reads : List Bytes
reads = (11 ∷ 7 ∷ 0 ∷ 0 ∷ 0 ∷ 1 ∷ []) ∷ (0 ∷ 0 ∷ 0x40 ∷ 0 ∷ 7 ∷ 8 ∷ 0 ∷ []) ∷ []

read_message-encode_example :
    (left : Bytes) × (later : List Bytes) × (read_message (0 ∷ 0 ∷ 0 ∷ []) reads
      ≡ ok (some block, left, later))
    × (left ++ concat later ≡ 0 ∷ [])
unfolding encode payload id body
read_message-encode_example =
    read_message-encode block (0 ∷ 0 ∷ 0 ∷ []) reads (0 ∷ []) (omega arith) (omega arith)
      (omega arith) refl

request_blocks-Tiles_example :
    (blocks : List (ℕ × ℕ)) × (request_blocks 40 16 ≡ ok blocks)
    × Tiles 16 0 40 blocks
    × Full 16 blocks
request_blocks-Tiles_example = request_blocks-Tiles 40 16 (omega arith) (omega arith)

-- A handshake in two reads, with the first byte of a message behind it.
abbrev hash : Bytes
hash = replicate 20 3

abbrev peer : Bytes
peer = replicate 20 9

abbrev opening : List Bytes
opening = (19 ∷ pstr) ∷ ((own_reserved ++ hash) ++ (peer ++ 0 ∷ [])) ∷ []

wrong_name : decode_handshake (replicate 68 19) ≡ err ReadError.invalid_data
unfolding decode_handshake fields
wrong_name = refl

offers :
    supports_extension own_reserved
      && supports_fast_extension own_reserved
      && supports_dht own_reserved
    ≡ true
unfolding supports_extension supports_fast_extension supports_dht
offers = refl

read_handshake-encode_handshake_example :
    (left : Bytes) × (later : List Bytes) × (read_handshake none [] opening
      ≡ ok (
        some (record { info_hash = hash; peer_id = peer; reserved = own_reserved }),
        left,
        later,
      ))
    × (left ++ concat later ≡ 0 ∷ [])
unfolding encode_handshake
read_handshake-encode_handshake_example =
    read_handshake-encode_handshake hash peer [] opening (0 ∷ []) refl refl (omega arith) refl
