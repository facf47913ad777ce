-- ===== src/Peer/Message.antt =====
-- crates/xfer-bt/src/message.rs: the messages between peers, their encoding, the reader that gathers
-- them from the reads of a stream, and the requests for the blocks of a piece.
pub mod Wire
pub mod Reader
pub mod Blocks
use xfer_rust.Common.{
  ℕ, zero, suc, ◌+◌, ◌-◌, ◌*◌, ◌%◌, ◌^◌, min, Bool, true, false, not, ◌||◌, Option, none, some,
  List, [], ◌∷◌, ◌++◌, ltb, leb, ◌==◌, if◌then◌else◌, length, take, drop,
}
use xfer_rust.Common.Bytes.{Bytes, be16, be32, from_be16, from_be32}
use xfer_rust.Common.Run.{Run, ◌>>=◌, ok, err, stuck}

pub data Message : Type 0 where
  keep_alive choke unchoke interested not_interested : Message
  have : ℕ → Message
  bitfield : Bytes → Message
  request : ℕ → ℕ → ℕ → Message
  piece : ℕ → ℕ → Bytes → Message
  cancel : ℕ → ℕ → ℕ → Message
  have_all have_none : Message
  reject_request : ℕ → ℕ → ℕ → Message
  allowed_fast suggest_piece : ℕ → Message
  port : ℕ → Message
  extended : ℕ → Bytes → Message
  unknown : ℕ → Bytes → Message

-- The kinds of `std::io::Error` that the reader gives.
pub data ReadError : Type 0 where
  unexpected_eof invalid_data : ReadError

unfoldable pub id : Message → Option ℕ
id Message.keep_alive = none
id Message.choke = some 0
id Message.unchoke = some 1
id Message.interested = some 2
id Message.not_interested = some 3
id (Message.have i) = some 4
id (Message.bitfield bf) = some 5
id (Message.request index begin len) = some 6
id (Message.piece index begin block) = some 7
id (Message.cancel index begin len) = some 8
id (Message.port p) = some 0x09
id (Message.suggest_piece index) = some 0x0d
id Message.have_all = some 0x0e
id Message.have_none = some 0x0f
id (Message.reject_request index begin len) = some 0x10
id (Message.allowed_fast index) = some 0x11
id (Message.extended ext_id payload) = some 0x14
id (Message.unknown i payload) = some i

unfoldable pub payload_len : Message → ℕ
payload_len Message.keep_alive = 0
payload_len (Message.have i) = 5
payload_len (Message.port p) = 5
payload_len (Message.suggest_piece index) = 5
payload_len (Message.allowed_fast index) = 5
payload_len (Message.bitfield bf) = 1 + length bf
payload_len (Message.request index begin len) = 13
payload_len (Message.cancel index begin len) = 13
payload_len (Message.reject_request index begin len) = 13
payload_len (Message.piece index begin block) = 9 + length block
payload_len (Message.extended ext_id payload) = 2 + length payload
payload_len (Message.unknown i payload) = 1 + length payload
payload_len _ = 1

-- What follows the id.
unfoldable pub body : Message → Bytes
body (Message.have i) = be32 i []
body (Message.bitfield bf) = bf
body (Message.request index begin len) = be32 index (be32 begin (be32 len []))
body (Message.cancel index begin len) = be32 index (be32 begin (be32 len []))
body (Message.reject_request index begin len) = be32 index (be32 begin (be32 len []))
body (Message.piece index begin block) = be32 index (be32 begin block)
body (Message.port p) = be16 p []
body (Message.suggest_piece index) = be32 index []
body (Message.allowed_fast index) = be32 index []
body (Message.extended ext_id payload) = ext_id ∷ payload
body (Message.unknown i payload) = payload
body _ = []

-- Only `keep_alive` has no id.
unfoldable pub encode : Message → Bytes
encode m = elim (id m) [
  | none ↦ 0 ∷ 0 ∷ 0 ∷ 0 ∷ []
  | some i ↦ be32 (length (i ∷ body m) % 2 ^ 32) (i ∷ body m)
]

abbrev pub first_u32 : Bytes → Run ReadError ℕ
first_u32 (a ∷ b ∷ c ∷ d ∷ rest) = ok (from_be32 a b c d)
first_u32 _ = err invalid_data

abbrev pub u32_at : ℕ → Bytes → Run ReadError ℕ
u32_at o bs = first_u32 (drop o bs)

abbrev pub three_u32 : (ℕ → ℕ → ℕ → Message) → Bytes → Run ReadError Message
three_u32 make bs = do
  index ← u32_at 0 bs
  begin ← u32_at 4 bs
  len ← u32_at 8 bs
  ok (make index begin len)

abbrev pub parse_port : Bytes → Message
parse_port (a ∷ b ∷ rest) = Message.port (from_be16 a b)
parse_port bs = Message.unknown 0x09 bs

abbrev pub parse_extended : Bytes → Message
parse_extended [] = Message.unknown 0x14 []
parse_extended (ext_id ∷ payload) = Message.extended ext_id payload

abbrev pub parse_piece : Bytes → Run ReadError Message
parse_piece bs = do
  index ← u32_at 0 bs
  begin ← u32_at 4 bs
  ok (Message.piece index begin (drop 8 bs))

abbrev pub one_u32 : (ℕ → Message) → Bytes → Run ReadError Message
one_u32 make bs = do index ← u32_at 0 bs; ok (make index)

unfoldable pub parse_body : ℕ → Bytes → Run ReadError Message
parse_body i bs =
    if i == 0
    then ok Message.choke
    else if i == 1
    then ok Message.unchoke
    else if i == 2
    then ok Message.interested
    else if i == 3
    then ok Message.not_interested
    else if i == 4
    then one_u32 Message.have bs
    else if i == 5
    then ok (Message.bitfield bs)
    else if i == 6
    then three_u32 Message.request bs
    else if i == 7
    then parse_piece bs
    else if i == 8
    then three_u32 Message.cancel bs
    else if i == 0x09
    then ok (parse_port bs)
    else if i == 0x0d
    then one_u32 Message.suggest_piece bs
    else if i == 0x0e
    then ok Message.have_all
    else if i == 0x0f
    then ok Message.have_none
    else if i == 0x10
    then three_u32 Message.reject_request bs
    else if i == 0x11
    then one_u32 Message.allowed_fast bs
    else if i == 0x14
    then ok (parse_extended bs)
    else ok (Message.unknown i bs)

unfoldable pub parse_message : Bytes → Run ReadError Message
parse_message [] = ok Message.keep_alive
parse_message (i ∷ bs) = parse_body i bs

-- Reads until `n` bytes are gathered or the stream ends. The list holds what each further `read` gives;
-- a read of no bytes, or the end of the list, is the end of the stream.
unfoldable pub fill_until : ℕ → Bytes → List Bytes → Bytes × List Bytes
fill_until n buf [] = (buf, [])
fill_until n buf ([] ∷ reads) = (buf, [] ∷ reads)
fill_until n buf ((b ∷ bs) ∷ reads) =
    let more = fill_until n (buf ++ b ∷ bs) reads in
    if ltb (length buf) n then more else (buf, (b ∷ bs) ∷ reads)

-- The prefix is read only where four bytes are there.
abbrev pub prefix : Bytes → ℕ
prefix (a ∷ b ∷ c ∷ d ∷ rest) = from_be32 a b c d
prefix _ = 0

abbrev pub is_empty : Bytes → Bool
is_empty [] = true
is_empty (b ∷ bs) = false

-- The message at the front of a buffer that holds `total` bytes at least.
unfoldable pub take_message :
    ℕ → Bytes → List Bytes → Run ReadError (Option Message × Bytes × List Bytes)
take_message total buf reads = do
  m ← parse_message (take (total - 4) (drop 4 buf))
  ok (some m, drop total buf, reads)

-- `filled` is the buffer after the reads for the message's bytes.
unfoldable pub read_rest :
    ℕ → Bytes × List Bytes → Run ReadError (Option Message × Bytes × List Bytes)
read_rest len filled =
    if ltb (2 * 1024 * 1024) len
    then err invalid_data
    else if ltb (length filled.0) (4 + len)
    then err unexpected_eof
    else take_message (4 + len) filled.0 filled.1

unfoldable pub read_body : Bytes → List Bytes → Run ReadError (Option Message × Bytes × List Bytes)
read_body buf reads = read_rest (prefix buf) (fill_until (4 + prefix buf) buf reads)

-- The buffer and the reads to come, before and after.
unfoldable pub read_message :
    Bytes → List Bytes → Run ReadError (Option Message × Bytes × List Bytes)
read_message buf reads =
    let (head, left) = fill_until 4 buf reads in
    if not (ltb (length head) 4)
    then read_body head left
    else if is_empty head
    then ok (none, [], left)
    else err unexpected_eof

unfoldable pub preload : Bytes → Bytes → Bytes
preload bytes buf = bytes ++ buf

-- On fuel: a block has a byte at least where `block_size` is not zero.
unfoldable pub request_loop : ℕ → ℕ → ℕ → ℕ → Run ReadError (List (ℕ × ℕ))
request_loop zero piece_len block_size begin = if ltb begin piece_len then stuck else ok []
request_loop (suc fuel) piece_len block_size begin =
    let len = min (piece_len - begin) block_size in
    let rest = request_loop fuel piece_len block_size ((begin + len) % 2 ^ 32) in
    if ltb begin piece_len then rest >>= (λ out. ok ((begin, len) ∷ out)) else ok []

unfoldable pub request_blocks : ℕ → ℕ → Run ReadError (List (ℕ × ℕ))
request_blocks piece_len block_size = request_loop piece_len piece_len block_size 0
