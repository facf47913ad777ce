-- ===== src/Flv.antt =====
-- crates/xfer-http/src/flv.rs: `FlvStream`, which cuts a live FLV stream into whole tags and moves their time
-- stamps, so that what is recorded is one file.
-- `buf` is what is not consumed yet: where the code keeps a position in it while it works, the model has what
-- follows on the position. The fields that the tags change are a record of their own, `Marks`. Times are below
-- 2^63 milliseconds, where the casts to i64 change nothing.
pub mod Chunks
pub mod Clock
pub mod Segments
mod Examples
use xfer_rust.Common.{
  ℕ, zero, suc, ◌+◌, ◌-◌, ◌*◌, ◌/◌, ◌%◌, ◌^◌, min, Bool, true, false, not, ◌&&◌, ◌||◌, Option, none,
  some, List, [], ◌∷◌, ◌++◌, ltb, ◌==◌, if◌then◌else◌, length, get_or, take, drop,
}
use xfer_rust.Common.Bytes.{Bytes, from_be32}
use xfer_rust.Common.ByteOrder.{same_bytes}
use xfer_rust.Common.Int.{ℤ, pos, pos_part, sub_ℕ, ◌-ℤ◌}

abbrev pub replay_probe_len : ℕ
replay_probe_len = 1024

pub record Marks : Type 0 where
  pub shift : Option ℤ
  pub mapped_max : ℕ
  pub begin_probe : Option Bytes
  pub seg_media_seen : Bool
  pub replay : Bool

pub record FlvStream : Type 0 where
  pub buf : Bytes
  pub started : Bool
  pub header_written : Bool
  pub marks : Marks

unfoldable pub new_stream : ℕ → ℕ → Option Bytes → FlvStream
new_stream resume_ms resume_bytes begin_probe = record {
  buf = [];
  started = false;
  header_written = ltb 0 resume_bytes;
  marks = record {
    shift = none;
    mapped_max = resume_ms;
    begin_probe = begin_probe;
    seg_media_seen = false;
    replay = false;
  };
}

unfoldable pub begin_segment : FlvStream → FlvStream
begin_segment s = record s {
  buf = [];
  started = false;
  marks = record s.marks { shift = none; seg_media_seen = false; replay = false };
}

-- Audio and video.
abbrev pub is_media : ℕ → Bool
is_media tag_type = tag_type == 8 || tag_type == 9

unfoldable pub check_probe : Bytes → Marks → Marks
check_probe probe m = elim m.begin_probe [
  | none ↦ record m { begin_probe = some probe }
  | some first ↦ if same_bytes first probe then record m { replay = true } else m
]

-- The first audio or video tag of a segment is kept, or compared with the one that was.
unfoldable pub note_media : Bytes → Marks → Marks
note_media tag m =
    if is_media (get_or tag 0 0) && not m.seg_media_seen
    then check_probe (take replay_probe_len tag) (record m { seg_media_seen = true })
    else m

abbrev pub is_none : Option ℤ → Bool
is_none none = true
is_none (some k) = false

unfoldable pub anchor : ℕ → ℕ → Marks → Marks
anchor tag_type ts m =
    if is_media tag_type && is_none m.shift
    then record m { shift = some (sub_ℕ ts m.mapped_max) }
    else m

unfoldable pub mapped_at : ℕ → Marks → ℕ
mapped_at ts m = elim m.shift [ none ↦ m.mapped_max | some k ↦ pos_part (pos ts -ℤ k) ]

unfoldable pub raise : ℕ → Marks → Marks
raise mapped m = if ltb m.mapped_max mapped then record m { mapped_max = mapped } else m

unfoldable pub map_ts : ℕ → ℕ → Marks → Marks × ℕ
map_ts tag_type ts m =
    let m1 = anchor tag_type ts m in
    let mapped = mapped_at ts m1 in (raise mapped m1, min mapped (2 ^ 32 - 1))

abbrev pub size_of : Bytes → ℕ
size_of tag = get_or tag 1 0 * 2 ^ 16 + get_or tag 2 0 * 2 ^ 8 + get_or tag 3 0

abbrev pub ts_of : Bytes → ℕ
ts_of tag =
    get_or tag 4 0 * 2 ^ 16 + get_or tag 5 0 * 2 ^ 8 + get_or tag 6 0 + get_or tag 7 0 * 2 ^ 24

-- The time stamp is in bytes 4 to 7, the highest of its bytes last.
unfoldable pub stamp : ℕ → Bytes → Bytes
stamp mapped tag =
    take 4 tag
    ++ (mapped / 2 ^ 16 % 256)
      ∷ (mapped / 2 ^ 8 % 256)
      ∷ (mapped % 256)
      ∷ (mapped / 2 ^ 24 % 256)
      ∷ drop 8 tag

-- One round of the loop: it ends, the data is not FLV, or something was consumed and something is written.
pub data Round : Type 0 where
  stop bad : Round
  go : FlvStream → Bytes → Round

unfoldable pub is_flv : Bytes → Bool
is_flv buf = get_or buf 0 0 == 0x46 && (get_or buf 1 0 == 0x4c && get_or buf 2 0 == 0x56)

abbrev pub data_offset : Bytes → ℕ
data_offset buf = from_be32 (get_or buf 5 0) (get_or buf 6 0) (get_or buf 7 0) (get_or buf 8 0)

-- A header is written only where none was.
unfoldable pub take_header : ℕ → FlvStream → Round
take_header end s =
    go (record s { buf = drop end s.buf; started = true; header_written = true })
      (if s.header_written then [] else take end s.buf)

unfoldable pub header_round : FlvStream → Round
header_round s =
    let off = data_offset s.buf in
    if ltb (length s.buf) 9
    then stop
    else if not (is_flv s.buf)
    then bad
    else if ltb off 9 || ltb 4096 off
    then bad
    else if ltb (length s.buf) (off + 4)
    then stop
    else take_header (off + 4) s

-- A whole tag: 11 bytes, the data, and 4 bytes.
unfoldable pub take_tag : ℕ → FlvStream → Round
take_tag end s =
    let tag = take end s.buf in
    let r = map_ts (get_or tag 0 0) (ts_of tag) (note_media tag s.marks) in
    go (record s { buf = drop end s.buf; marks = r.0 }) (stamp r.1 tag)

unfoldable pub tag_round : FlvStream → Round
tag_round s =
    let end = 11 + size_of s.buf + 4 in
    if ltb (length s.buf) 11 then stop else if ltb (length s.buf) end then stop else take_tag end s

unfoldable pub round : FlvStream → Round
round s = if s.started then tag_round s else header_round s

pub data Feed : Type 0 where
  fed not_flv : FlvStream → Bytes → Feed
  out_of_fuel : Feed

unfoldable pub feed_loop : ℕ → FlvStream → Bytes → Feed
feed_loop zero s out = out_of_fuel
feed_loop (suc n) s out = elim (round s) [
  | stop ↦ fed s out
  | bad ↦ not_flv s out
  | go t written ↦ feed_loop n t (out ++ written)
]

-- Each round that goes on consumes a byte or more.
unfoldable pub feed : FlvStream → Bytes → Bytes → Feed
feed s more out = feed_loop (suc (length (s.buf ++ more))) (record s { buf = s.buf ++ more }) out
