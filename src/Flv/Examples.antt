-- ===== src/Flv/Examples.antt =====
-- Tests and witnesses for crates/xfer-http/src/flv.rs.
use mathlib.Core.List.{map}
use xfer_rust.Common.{ℕ, ◌≡◌, ◌≢◌, refl, arith, true, none, List, [], ◌∷◌, ◌++◌, All}
use xfer_rust.Common.Bytes.{Bytes}
use xfer_rust.Common.Int.{◌-ℤ◌}
use xfer_rust.Flv.{
  FlvStream, new_stream, begin_segment, is_flv, take_header, header_round, check_probe, note_media,
  anchor, mapped_at, raise, map_ts, stamp, take_tag, tag_round, round, Feed, fed, not_flv,
  out_of_fuel, feed_loop, feed,
}
use xfer_rust.Flv.Chunks.{more, feed-append}
use xfer_rust.Flv.Clock.{Tag, IsTag, encode_tags, record_tags, feed-encode_tags}
use xfer_rust.Flv.Segments.{times_from, record_tags-times}

abbrev tag_at : ℕ → ℕ → Bytes → Tag
tag_at tag_type ts payload = record {
  tag_type = tag_type;
  ts = ts;
  stream0 = 0;
  stream1 = 0;
  stream2 = 0;
  payload = payload;
  size0 = 0;
  size1 = 0;
  size2 = 0;
  size3 = 12;
}

abbrev file_header : Bytes
file_header = 0x46 ∷ 0x4c ∷ 0x56 ∷ 1 ∷ 5 ∷ 0 ∷ 0 ∷ 0 ∷ 9 ∷ 0 ∷ 0 ∷ 0 ∷ 0 ∷ []

-- Script data, video and audio.
abbrev three_tags : List Tag
three_tags = tag_at 18 0 (7 ∷ []) ∷ tag_at 9 1000 (1 ∷ 2 ∷ []) ∷ tag_at 8 1020 (3 ∷ []) ∷ []

abbrev moved_tags : List Tag
moved_tags = tag_at 18 0 (7 ∷ []) ∷ tag_at 9 0 (1 ∷ 2 ∷ []) ∷ tag_at 8 20 (3 ∷ []) ∷ []

abbrev output_of : Feed → Bytes
output_of (fed s out) = out
output_of (not_flv s out) = out
output_of out_of_fuel = []

-- The times of a recording begin at 0.
recorded :
    output_of (feed (new_stream 0 0 none) (file_header ++ encode_tags three_tags) [])
    ≡ file_header ++ encode_tags moved_tags
unfolding feed new_stream feed_loop round header_round is_flv take_header tag_round take_tag stamp
    map_ts note_media check_probe anchor mapped_at raise ◌-ℤ◌
recorded = refl

-- The header of a connection that comes later is left out.
reconnected :
    output_of (
      feed
        (begin_segment (new_stream 50 100 none))
        (file_header ++ encode_tags (tag_at 9 7 [] ∷ []))
        [])
    ≡ encode_tags (tag_at 9 50 [] ∷ [])
unfolding feed new_stream begin_segment feed_loop round header_round is_flv take_header tag_round
    take_tag stamp map_ts note_media check_probe anchor mapped_at raise ◌-ℤ◌
reconnected = refl

abbrev running : FlvStream
running = record (new_stream 50 100 none) { started = true }

feed-append_example :
    (feed running (9 ∷ 0 ∷ []) [] ≢ out_of_fuel)
    × ((s1 : FlvStream) (out1 : Bytes)
        → feed running (9 ∷ 0 ∷ []) [] ≡ fed s1 out1
        → feed running (9 ∷ 0 ∷ 0 ∷ 4 ∷ []) [] ≡ feed s1 (0 ∷ 4 ∷ []) out1)
    × ((s1 : FlvStream) (out1 : Bytes)
        → feed running (9 ∷ 0 ∷ []) [] ≡ not_flv s1 out1
        → feed running (9 ∷ 0 ∷ 0 ∷ 4 ∷ []) [] ≡ not_flv (more (0 ∷ 4 ∷ []) s1) out1)
feed-append_example = feed-append running (9 ∷ 0 ∷ []) (0 ∷ 4 ∷ []) []

three_tags-IsTag : All IsTag three_tags
three_tags-IsTag =
    ((omega arith, omega arith), ((omega arith, omega arith), ((omega arith, omega arith), tt)))

feed-encode_tags_example :
    feed running (encode_tags three_tags) (1 ∷ [])
    ≡ fed
        (record running { marks = (record_tags three_tags running.marks).1 })
        ((1 ∷ []) ++ encode_tags (record_tags three_tags running.marks).0)
unfolding new_stream
feed-encode_tags_example = feed-encode_tags three_tags running (1 ∷ []) refl refl three_tags-IsTag

record_tags-times_example :
    map Tag.ts (record_tags three_tags running.marks).0
    ≡ times_from 50
        (tag_at 18 0 (7 ∷ []) ∷ [])
        (tag_at 9 1000 (1 ∷ 2 ∷ []))
        (tag_at 8 1020 (3 ∷ []) ∷ [])
unfolding new_stream
record_tags-times_example =
    record_tags-times (tag_at 18 0 (7 ∷ []) ∷ []) (tag_at 9 1000 (1 ∷ 2 ∷ []))
      (tag_at 8 1020 (3 ∷ []) ∷ []) running.marks refl (refl, tt) refl
