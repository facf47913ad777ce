-- ===== src/Flv/Clock.antt =====
-- crates/xfer-http/src/flv.rs: a stream of whole tags, and where its time stamps are moved to.
use xfer_rust.Common.{
  ℕ, zero, suc, ◌+◌, ◌/◌, ◌%◌, ◌^◌, ◌<◌, ◌≡◌, refl, sym, ap, ◌∙◌, arith, true, false, List, [], ◌∷◌,
  ◌++◌, append_assoc, append-nil, ltb, length, length-append, take-append, drop-append, All,
}
use xfer_rust.Common.Bytes.{Bytes}
use xfer_rust.Flv.{
  FlvStream, Marks, stop, go, note_media, map_ts, size_of, ts_of, stamp, take_tag, tag_round, round,
  fed, feed_loop, feed,
}
use xfer_rust.Flv.Chunks.{round-tag}

-- A tag of the format: its type, its time, its stream and its data, and the length that follows on it.
pub record Tag : Type 0 where
  pub tag_type : ℕ
  pub ts : ℕ
  pub stream0 : ℕ
  pub stream1 : ℕ
  pub stream2 : ℕ
  pub payload : Bytes
  pub size0 : ℕ
  pub size1 : ℕ
  pub size2 : ℕ
  pub size3 : ℕ

abbrev pub IsTag : Tag → Type 0
IsTag t = (length t.payload < 2 ^ 24) × (t.ts < 2 ^ 32)

abbrev pub tag_body : Tag → Bytes
tag_body t =
    t.stream0 ∷ t.stream1 ∷ t.stream2 ∷ t.payload ++ t.size0 ∷ t.size1 ∷ t.size2 ∷ t.size3 ∷ []

abbrev pub encode_tag : Tag → Bytes
encode_tag t =
    t.tag_type
    ∷ (length t.payload / 2 ^ 16)
    ∷ (length t.payload / 2 ^ 8 % 256)
    ∷ (length t.payload % 256)
    ∷ (t.ts / 2 ^ 16 % 256)
    ∷ (t.ts / 2 ^ 8 % 256)
    ∷ (t.ts % 256)
    ∷ (t.ts / 2 ^ 24 % 256)
    ∷ tag_body t

abbrev pub encode_tags : List Tag → Bytes
encode_tags [] = []
encode_tags (t ∷ ts) = encode_tag t ++ encode_tags ts

-- Each tag at its new time, and the marks after it.
abbrev pub move_tag : Tag → Marks → Marks × ℕ
move_tag t m = map_ts t.tag_type t.ts (note_media (encode_tag t) m)

abbrev pub record_tags : List Tag → Marks → List Tag × Marks
record_tags [] m = ([], m)
record_tags (t ∷ ts) m =
    let rest = record_tags ts (move_tag t m).0 in
    (record t { ts = (move_tag t m).1 } ∷ rest.0, rest.1)

length-encode_tag : (t : Tag) → length (encode_tag t) ≡ 11 + length t.payload + 4
length-encode_tag t =
    let e = length-append t.payload (t.size0 ∷ t.size1 ∷ t.size2 ∷ t.size3 ∷ []) in omega arith

stamp-encode_tag : (t : Tag) (m : ℕ) → stamp m (encode_tag t) ≡ encode_tag (record t { ts = m })
unfolding stamp
stamp-encode_tag t m = refl

ts_of-encode_tag : (t : Tag) → t.ts < 2 ^ 32 → ts_of (encode_tag t) ≡ t.ts
ts_of-encode_tag t h = omega arith

take_tag-encode_tag :
    (t : Tag) (rest : Bytes) (s : FlvStream)
    → IsTag t
    → take_tag (length (encode_tag t)) (record s { buf = encode_tag t ++ rest })
      ≡ go
          (record s { buf = rest; marks = (move_tag t s.marks).0 })
          (encode_tag (record t { ts = (move_tag t s.marks).1 }))
unfolding take_tag
take_tag-encode_tag t rest s h =
    let front = take-append (encode_tag t) rest in
    let back = drop-append (encode_tag t) rest in
    rw (take_tag, front, back, ts_of-encode_tag t h.1, stamp-encode_tag t (move_tag t s.marks).1)
      refl

tag_round-encode_tag :
    (t : Tag) (rest : Bytes) (s : FlvStream)
    → IsTag t
    → tag_round (record s { buf = encode_tag t ++ rest })
      ≡ go
          (record s { buf = rest; marks = (move_tag t s.marks).0 })
          (encode_tag (record t { ts = (move_tag t s.marks).1 }))
unfolding tag_round
tag_round-encode_tag t rest s h =
    let x = encode_tag t ++ rest in
    let len : length x ≡ 11 + length t.payload + 4 + length rest =
      length-append (encode_tag t) rest ∙ ap (λ n. n + length rest) (length-encode_tag t) in
    let size : size_of x ≡ length t.payload = (let small = h.0 in omega arith) in
    let end : 11 + size_of x + 4 ≡ length (encode_tag t) =
      ap (λ n. 11 + n + 4) size ∙ sym (length-encode_tag t) in
    let long : ltb (length x) 11 ≡ false = ground arith in
    let whole : ltb (length x) (length (encode_tag t)) ≡ false =
      (let l = length-encode_tag t in ground arith) in
    rw (tag_round, long, end, whole) (take_tag-encode_tag t rest s h)

empty_round : (s : FlvStream) → tag_round (record s { buf = [] }) ≡ stop
unfolding tag_round
empty_round s = refl

feed_loop-encode_tags :
    (n : ℕ) (ts : List Tag) (s : FlvStream) (out : Bytes)
    → s.started ≡ true
    → length (encode_tags ts) < n
    → All IsTag ts
    → feed_loop n (record s { buf = encode_tags ts }) out
      ≡ fed
          (record s { buf = []; marks = (record_tags ts s.marks).1 })
          (out ++ encode_tags (record_tags ts s.marks).0)
unfolding feed_loop
feed_loop-encode_tags zero ts s out st lt h = absurd (omega arith)
feed_loop-encode_tags (suc n) [] s out st lt h =
    let halt : round (record s { buf = [] }) ≡ stop =
      round-tag (record s { buf = [] }) st ∙ empty_round s in
    rw (feed_loop, halt) (ap (λ o. fed (record s { buf = [] }) o) (sym (append-nil out)))
feed_loop-encode_tags (suc n) (t ∷ ts) s out st lt (h, hs) =
    let next =
      round-tag (record s { buf = encode_tag t ++ encode_tags ts }) st
      ∙ tag_round-encode_tag t (encode_tags ts) s h in
    let len = length-append (encode_tag t) (encode_tags ts) in
    let one = length-encode_tag t in
    let s1 = record s { marks = (move_tag t s.marks).0 } in
    let new = encode_tag (record t { ts = (move_tag t s.marks).1 }) in
    rw (feed_loop, next)
      (feed_loop-encode_tags n ts s1 (out ++ new) st (omega arith) hs
        ∙ ap (λ o. fed (record s1 { buf = []; marks = (record_tags ts s1.marks).1 }) o)
            (append_assoc out new (encode_tags (record_tags ts s1.marks).0)))

-- Whole tags are written whole, each with its time moved, and nothing is left over.
pub feed-encode_tags :
    (ts : List Tag) (s : FlvStream) (out : Bytes)
    → s.started ≡ true
    → s.buf ≡ []
    → All IsTag ts
    → feed s (encode_tags ts) out
      ≡ fed
          (record s { marks = (record_tags ts s.marks).1 })
          (out ++ encode_tags (record_tags ts s.marks).0)
unfolding feed
feed-encode_tags ts s out st e h =
    ap
      (λ b.
        feed_loop (suc (length (b ++ encode_tags ts))) (record s { buf = b ++ encode_tags ts }) out)
      e
    ∙ feed_loop-encode_tags (suc (length (encode_tags ts))) ts s out st (omega arith) h
    ∙ ap
        (λ b.
          fed (record s { buf = b; marks = (record_tags ts s.marks).1 })
            (out ++ encode_tags (record_tags ts s.marks).0))
        (sym e)
