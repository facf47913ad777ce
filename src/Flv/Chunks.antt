-- ===== src/Flv/Chunks.antt =====
-- crates/xfer-http/src/flv.rs: the stream, cut in chunks by the network.
use mathlib.Core.Path.{subst}
use xfer_rust.Common.{
  ℕ, zero, suc, ◌+◌, ◌≤◌, ◌<◌, ◌≡◌, ◌≢◌, ◌⊎◌, inl, inr, refl, sym, ap, ◌∙◌, arith, Bool, true,
  false, not, ◌||◌, [], ◌∷◌, ◌++◌, append_assoc, ltb, if◌then◌else◌, length, length-append,
  length-drop, get_or, take, drop, Bool-cases,
}
use xfer_rust.Common.Bytes.{Bytes}
use xfer_rust.Flv.{
  FlvStream, Round, stop, bad, go, size_of, is_flv, data_offset, take_header, header_round,
  take_tag, tag_round, round, Feed, fed, not_flv, out_of_fuel, feed_loop, feed,
}

get_or-append : (xs ys : Bytes) (i : ℕ) → i < length xs → get_or (xs ++ ys) i 0 ≡ get_or xs i 0
get_or-append [] ys i lt = absurd (omega arith)
get_or-append (x ∷ xs) ys zero lt = refl
get_or-append (x ∷ xs) ys (suc i) lt = get_or-append xs ys i (omega arith)

pub take-append_le : (n : ℕ) (xs ys : Bytes) → n ≤ length xs → take n (xs ++ ys) ≡ take n xs
take-append_le zero xs ys le = refl
take-append_le (suc n) [] ys le = absurd (omega arith)
take-append_le (suc n) (x ∷ xs) ys le = ap (λ zs. x ∷ zs) (take-append_le n xs ys (omega arith))

pub drop-append_le : (n : ℕ) (xs ys : Bytes) → n ≤ length xs → drop n (xs ++ ys) ≡ drop n xs ++ ys
drop-append_le zero xs ys le = refl
drop-append_le (suc n) [] ys le = absurd (omega arith)
drop-append_le (suc n) (x ∷ xs) ys le = drop-append_le n xs ys (omega arith)

-- The state with more bytes behind those that are not consumed.
abbrev pub more : Bytes → FlvStream → FlvStream
more y s = record s { buf = s.buf ++ y }

abbrev more_round : Bytes → Round → Round
more_round y stop = stop
more_round y bad = bad
more_round y (go t written) = go (more y t) written

-- A round that does not wait for more is the same with more bytes behind.
take_tag-more :
    (y : Bytes) (end : ℕ) (s : FlvStream)
    → end ≤ length s.buf
    → take_tag end (more y s) ≡ more_round y (take_tag end s)
unfolding take_tag
take_tag-more y end s le =
    let front = take-append_le end s.buf y le in
    let rest = drop-append_le end s.buf y le in rw (take_tag, front, rest) refl

take_header-more :
    (y : Bytes) (end : ℕ) (s : FlvStream)
    → end ≤ length s.buf
    → take_header end (more y s) ≡ more_round y (take_header end s)
unfolding take_header
take_header-more y end s le =
    let front = take-append_le end s.buf y le in
    let rest = drop-append_le end s.buf y le in rw (take_header, front, rest) refl

tag_round-more :
    (y : Bytes) (s : FlvStream)
    → tag_round s ≢ stop
    → tag_round (more y s) ≡ more_round y (tag_round s)
unfolding tag_round
tag_round-more y s ne =
    let len = length-append s.buf y in
    elim (Bool-cases (ltb (length s.buf) 11)) [
      | inl e ↦ absurd (ne (rw (tag_round, e) refl))
      | inr e ↦
          let b1 = get_or-append s.buf y 1 (ground arith) in
          let b2 = get_or-append s.buf y 2 (ground arith) in
          let b3 = get_or-append s.buf y 3 (ground arith) in
          let size : size_of (s.buf ++ y) ≡ size_of s.buf = omega arith in
          let end = 11 + size_of s.buf + 4 in
          elim (Bool-cases (ltb (length s.buf) end)) [
            | inl e2 ↦ absurd (ne (rw (tag_round, e, e2) refl))
            | inr e2 ↦
                let long : ltb (length (s.buf ++ y)) 11 ≡ false = ground arith in
                let whole : ltb (length (s.buf ++ y)) (11 + size_of (s.buf ++ y) + 4) ≡ false =
                  ground arith in
                let there : tag_round (more y s)
                    ≡ take_tag (11 + size_of (s.buf ++ y) + 4) (more y s) =
                  rw (tag_round, long, whole) refl in
                let here : tag_round s ≡ take_tag end s = rw (tag_round, e, e2) refl in
                there
                ∙ ap (λ n. take_tag (11 + n + 4) (more y s)) size
                ∙ take_tag-more y end s (ground arith)
                ∙ ap (more_round y) (sym here)
          ]
    ]

header_round-more :
    (y : Bytes) (s : FlvStream)
    → header_round s ≢ stop
    → header_round (more y s) ≡ more_round y (header_round s)
unfolding header_round is_flv
header_round-more y s ne =
    let len = length-append s.buf y in
    elim (Bool-cases (ltb (length s.buf) 9)) [
      | inl e ↦ absurd (ne (rw (header_round, e) refl))
      | inr e ↦
          let at = λ (i : ℕ) (lt : i < 9).
            get_or-append s.buf y i (let short : i < length s.buf = ground arith in short) in
          let flv : is_flv (s.buf ++ y) ≡ is_flv s.buf =
            rw (is_flv, at 0 (omega arith), at 1 (omega arith), at 2 (omega arith)) refl in
          let off : data_offset (s.buf ++ y) ≡ data_offset s.buf =
            rw (at 5 (omega arith), at 6 (omega arith), at 7 (omega arith), at 8 (omega arith))
              refl in
          let long : ltb (length (s.buf ++ y)) 9 ≡ false = ground arith in
          let n = data_offset s.buf in
          elim (Bool-cases (is_flv s.buf)) [
            | inr e1 ↦
                let there : header_round (more y s) ≡ bad = rw (header_round, long, flv, e1) refl in
                let here : header_round s ≡ bad = rw (header_round, e, e1) refl in
                there ∙ ap (more_round y) (sym here)
            | inl e1 ↦ elim (Bool-cases (ltb n 9 || ltb 4096 n)) [
              | inl e2 ↦
                  let there : header_round (more y s) ≡ bad =
                    rw (header_round, long, flv, e1, off, e2) refl in
                  let here : header_round s ≡ bad = rw (header_round, e, e1, e2) refl in
                  there ∙ ap (more_round y) (sym here)
              | inr e2 ↦ elim (Bool-cases (ltb (length s.buf) (n + 4))) [
                | inl e3 ↦ absurd (ne (rw (header_round, e, e1, e2, e3) refl))
                | inr e3 ↦
                    let whole : ltb (length (s.buf ++ y)) (n + 4) ≡ false = ground arith in
                    let there : header_round (more y s) ≡ take_header (n + 4) (more y s) =
                      rw (header_round, long, flv, e1, off, e2, whole) refl in
                    let here : header_round s ≡ take_header (n + 4) s =
                      rw (header_round, e, e1, e2, e3) refl in
                    there
                    ∙ take_header-more y (n + 4) s (ground arith)
                    ∙ ap (more_round y) (sym here)
              ]
            ]
          ]
    ]

pub round-tag : (s : FlvStream) → s.started ≡ true → round s ≡ tag_round s
unfolding round
round-tag s e = ap (λ b. if b then tag_round s else header_round s) e

round-header : (s : FlvStream) → s.started ≡ false → round s ≡ header_round s
unfolding round
round-header s e = ap (λ b. if b then tag_round s else header_round s) e

round-more :
    (y : Bytes) (s : FlvStream) → round s ≢ stop → round (more y s) ≡ more_round y (round s)
round-more y s ne = elim (Bool-cases s.started) [
  | inl e ↦
      let here = round-tag s e in
      round-tag (more y s) e
      ∙ tag_round-more y s (λ halt. ne (here ∙ halt))
      ∙ ap (more_round y) (sym here)
  | inr e ↦
      let here = round-header s e in
      round-header (more y s) e
      ∙ header_round-more y s (λ halt. ne (here ∙ halt))
      ∙ ap (more_round y) (sym here)
]

-- What a round consumes.
abbrev Consumes : FlvStream → Round → Type 0
Consumes s stop = Unit
Consumes s bad = Unit
Consumes s (go t written) = length t.buf < length s.buf

if-Consumes :
    (s : FlvStream) (b : Bool) (r q : Round)
    → Consumes s r
    → (b ≡ false → Consumes s q)
    → Consumes s (if b then r else q)
if-Consumes s true r q h k = h
if-Consumes s false r q h k = k refl

take_tag-Consumes :
    (end : ℕ) (s : FlvStream) → 0 < end → end ≤ length s.buf → Consumes s (take_tag end s)
unfolding take_tag
take_tag-Consumes end s pos le = omega (arith, length-drop end s.buf)

take_header-Consumes :
    (end : ℕ) (s : FlvStream) → 0 < end → end ≤ length s.buf → Consumes s (take_header end s)
unfolding take_header
take_header-Consumes end s pos le = omega (arith, length-drop end s.buf)

tag_round-Consumes : (s : FlvStream) → Consumes s (tag_round s)
unfolding tag_round
tag_round-Consumes s =
    let end = 11 + size_of s.buf + 4 in
    if-Consumes s (ltb (length s.buf) 11) stop
      (if ltb (length s.buf) end then stop else take_tag end s) tt
      λ e.
        if-Consumes s (ltb (length s.buf) end) stop (take_tag end s) tt
          λ e2. take_tag-Consumes end s (omega arith) (ground arith)

header_round-Consumes : (s : FlvStream) → Consumes s (header_round s)
unfolding header_round
header_round-Consumes s =
    let end = data_offset s.buf + 4 in
    let r3 = if ltb (length s.buf) end then stop else take_header end s in
    let r2 = if ltb (data_offset s.buf) 9 || ltb 4096 (data_offset s.buf) then bad else r3 in
    let r1 = if not (is_flv s.buf) then bad else r2 in
    if-Consumes s (ltb (length s.buf) 9) stop r1 tt λ e.
      if-Consumes s (not (is_flv s.buf)) bad r2 tt λ e1.
        if-Consumes s (ltb (data_offset s.buf) 9 || ltb 4096 (data_offset s.buf)) bad r3 tt λ e2.
          if-Consumes s (ltb (length s.buf) end) stop (take_header end s) tt
            λ e3. take_header-Consumes end s (omega arith) (ground arith)

round-Consumes : (s : FlvStream) → Consumes s (round s)
unfolding round
round-Consumes s =
    if-Consumes s s.started (tag_round s) (header_round s) (tag_round-Consumes s)
      (λ e. header_round-Consumes s)

Round-cases :
    (r : Round)
    → (r ≡ stop) ⊎ ((r ≡ bad) ⊎ ((t : FlvStream) × (written : Bytes) × (r ≡ go t written)))
Round-cases stop = inl refl
Round-cases bad = inr (inl refl)
Round-cases (go t written) = inr (inr (t, written, refl))

go-consumes :
    (s t : FlvStream) (written : Bytes) → round s ≡ go t written → length t.buf < length s.buf
go-consumes s t written e = subst (Consumes s) e (round-Consumes s)

-- With enough fuel its amount makes no difference.
feed_loop-fuel :
    (n m : ℕ) (s : FlvStream) (out : Bytes)
    → length s.buf < n
    → length s.buf < m
    → feed_loop n s out ≡ feed_loop m s out
unfolding feed_loop
feed_loop-fuel zero m s out h k = absurd (omega arith)
feed_loop-fuel (suc n) zero s out h k = absurd (omega arith)
feed_loop-fuel (suc n) (suc m) s out h k = elim (Round-cases (round s)) [
  | inl e ↦ rw (feed_loop, e) refl
  | inr (inl e) ↦ rw (feed_loop, e) refl
  | inr (inr (t, written, e)) ↦
      let less = go-consumes s t written e in
      rw (feed_loop, e) (feed_loop-fuel n m t (out ++ written) (omega arith) (omega arith))
]

feed_loop-ne-out_of_fuel :
    (n : ℕ) (s : FlvStream) (out : Bytes) → length s.buf < n → feed_loop n s out ≢ out_of_fuel
unfolding feed_loop
feed_loop-ne-out_of_fuel zero s out h e = absurd (omega arith)
feed_loop-ne-out_of_fuel (suc n) s out h e = elim (Round-cases (round s)) [
  | inl r ↦
      let never : Path Feed (fed s out) out_of_fuel = (rw (feed_loop, r) at e) in absurd (cc never)
  | inr (inl r) ↦
      let never : Path Feed (not_flv s out) out_of_fuel = (rw (feed_loop, r) at e) in
      absurd (cc never)
  | inr (inr (t, written, r)) ↦
      let less = go-consumes s t written r in
      feed_loop-ne-out_of_fuel n t (out ++ written) (omega arith) (rw (feed_loop, r) at e)
]

abbrev stream_of : FlvStream → Feed → FlvStream
stream_of s (fed t out) = t
stream_of s (not_flv t out) = t
stream_of s out_of_fuel = s

abbrev output_of : Feed → Bytes
output_of (fed t out) = out
output_of (not_flv t out) = out
output_of out_of_fuel = []

feed_loop-more :
    (n m k : ℕ) (y : Bytes) (s s1 : FlvStream) (out out1 : Bytes)
    → feed_loop n s out ≡ fed s1 out1
    → length (s.buf ++ y) < m
    → length (s1.buf ++ y) < k
    → feed_loop m (more y s) out ≡ feed_loop k (more y s1) out1
unfolding feed_loop
feed_loop-more zero m k y s s1 out out1 e h l = absurd (cc e)
feed_loop-more (suc n) zero k y s s1 out out1 e h l = absurd (omega arith)
feed_loop-more (suc n) (suc m) k y s s1 out out1 e h l = elim (Round-cases (round s)) [
  | inl r ↦
      let same : Path Feed (fed s out) (fed s1 out1) = (rw (feed_loop, r) at e) in
      let state : s ≡ s1 = ap (stream_of s) same in
      let written : out ≡ out1 = ap output_of same in
      let enough : length (s.buf ++ y) < k =
        subst (λ (t : FlvStream). length (t.buf ++ y) < k) (sym state) l in
      feed_loop-fuel (suc m) k (more y s) out h enough
      ∙ (λ i. feed_loop k (more y (state i)) (written i))
  | inr (inl r) ↦
      let never : Path Feed (not_flv s out) (fed s1 out1) = (rw (feed_loop, r) at e) in
      absurd (cc never)
  | inr (inr (t, written, r)) ↦
      let less = go-consumes s t written r in
      let ne : round s ≢ stop =
        λ halt. let never : go t written ≡ stop = sym r ∙ halt in absurd (cc never) in
      let next : round (more y s) ≡ go (more y t) written =
        round-more y s ne ∙ ap (more_round y) r in
      let a = length-append s.buf y in
      let b = length-append t.buf y in
      rw (feed_loop, next)
        (feed_loop-more n m k y t s1 (out ++ written) out1 (rw (feed_loop, r) at e) (omega arith) l)
]

feed_loop-not_flv :
    (n m : ℕ) (y : Bytes) (s s1 : FlvStream) (out out1 : Bytes)
    → feed_loop n s out ≡ not_flv s1 out1
    → length (s.buf ++ y) < m
    → feed_loop m (more y s) out ≡ not_flv (more y s1) out1
unfolding feed_loop
feed_loop-not_flv zero m y s s1 out out1 e h = absurd (cc e)
feed_loop-not_flv (suc n) zero y s s1 out out1 e h = absurd (omega arith)
feed_loop-not_flv (suc n) (suc m) y s s1 out out1 e h = elim (Round-cases (round s)) [
  | inl r ↦
      let never : Path Feed (fed s out) (not_flv s1 out1) = (rw (feed_loop, r) at e) in
      absurd (cc never)
  | inr (inl r) ↦
      let same : Path Feed (not_flv s out) (not_flv s1 out1) = (rw (feed_loop, r) at e) in
      let ne : round s ≢ stop =
        λ halt. let never : bad ≡ stop = sym r ∙ halt in absurd (cc never) in
      let next : round (more y s) ≡ bad = round-more y s ne ∙ ap (more_round y) r in
      rw (feed_loop, next) (λ i. not_flv (more y (stream_of s (same i))) (output_of (same i)))
  | inr (inr (t, written, r)) ↦
      let less = go-consumes s t written r in
      let ne : round s ≢ stop =
        λ halt. let never : go t written ≡ stop = sym r ∙ halt in absurd (cc never) in
      let next : round (more y s) ≡ go (more y t) written =
        round-more y s ne ∙ ap (more_round y) r in
      let a = length-append s.buf y in
      let b = length-append t.buf y in
      rw (feed_loop, next)
        (feed_loop-not_flv n m y t s1 (out ++ written) out1 (rw (feed_loop, r) at e) (omega arith))
]

-- Wherever the data is cut: the first part is accepted or refused; if it is accepted, the whole is what the
-- second part makes of the state after the first; if it is refused, so is the whole, with as much written.
pub feed-append :
    (s : FlvStream) (a b out : Bytes)
    → (feed s a out ≢ out_of_fuel)
      × ((s1 : FlvStream) (out1 : Bytes)
          → feed s a out ≡ fed s1 out1
          → feed s (a ++ b) out ≡ feed s1 b out1)
      × ((s1 : FlvStream) (out1 : Bytes)
          → feed s a out ≡ not_flv s1 out1
          → feed s (a ++ b) out ≡ not_flv (more b s1) out1)
unfolding feed
feed-append s a b out =
    let n = suc (length (s.buf ++ a)) in
    let k = suc (length (s.buf ++ a ++ b)) in
    let joined : feed s (a ++ b) out ≡ feed_loop k (record s { buf = s.buf ++ a ++ b }) out =
      ap (λ x. feed_loop (suc (length x)) (record s { buf = x }) out)
        (sym (append_assoc s.buf a b)) in
    (
      feed_loop-ne-out_of_fuel n (more a s) out (omega arith),
      λ s1 out1 e.
          joined
          ∙ feed_loop-more n k (suc (length (s1.buf ++ b))) b (more a s) s1 out out1 e (omega arith)
              (omega arith),
      λ s1 out1 e. joined ∙ feed_loop-not_flv n k b (more a s) s1 out out1 e (omega arith),
    )
