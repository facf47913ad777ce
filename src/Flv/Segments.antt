-- ===== src/Flv/Segments.antt =====
-- crates/xfer-http/src/flv.rs: the time line of one segment of a recording.
use mathlib.Core.List.{map}
use xfer_rust.Common.{
  ℕ, ◌+◌, ◌-◌, ◌^◌, min, ◌≡◌, inl, inr, refl, ap, ◌∙◌, arith, Bool, true, false, not, ◌&&◌, Option,
  none, some, List, [], ◌∷◌, ◌++◌, ltb, get_or, take, Bool-cases, Option-cases, All,
}
use xfer_rust.Common.Bytes.{Bytes}
use xfer_rust.Common.ByteOrder.{same_bytes}
use xfer_rust.Common.Int.{ℤ, pos, pos_part, sub_ℕ, ◌-ℤ◌}
use xfer_rust.Flv.{
  Marks, is_media, is_none, check_probe, note_media, anchor, mapped_at, raise, map_ts,
  replay_probe_len,
}
use xfer_rust.Flv.Clock.{Tag, encode_tag, move_tag, record_tags}

-- The part of the marks that is the clock.
abbrev pub Clock : Type 0
Clock = Option ℤ × ℕ

abbrev pub clock : Marks → Clock
clock m = (m.shift, m.mapped_max)

check_probe-clock : (probe : Bytes) (m : Marks) → clock (check_probe probe m) ≡ clock m
unfolding check_probe
check_probe-clock probe m = elim (Option-cases m.begin_probe) [
  | inl e ↦ rw (check_probe, e) refl
  | inr (first, e) ↦ elim (Bool-cases (same_bytes first probe)) [
    | inl e2 ↦ rw (check_probe, e, e2) refl
    | inr e2 ↦ rw (check_probe, e, e2) refl
  ]
]

note_media-clock : (tag : Bytes) (m : Marks) → clock (note_media tag m) ≡ clock m
unfolding note_media
note_media-clock tag m = elim (Bool-cases (is_media (get_or tag 0 0) && not m.seg_media_seen)) [
  | inl e ↦
      rw (note_media, e)
        (check_probe-clock (take replay_probe_len tag) (record m { seg_media_seen = true }))
  | inr e ↦ rw (note_media, e) refl
]

abbrev pub cap : ℕ → ℕ
cap n = min n (2 ^ 32 - 1)

-- What a tag does where its segment has no media tag yet and it is none.
map_ts-lead :
    (tag_type ts : ℕ) (m : Marks)
    → m.shift ≡ none
    → is_media tag_type ≡ false
    → (clock (map_ts tag_type ts m).0 ≡ (none, m.mapped_max))
      × ((map_ts tag_type ts m).1 ≡ cap m.mapped_max)
unfolding map_ts anchor mapped_at raise
map_ts-lead tag_type ts m e other =
    let same : anchor tag_type ts m ≡ m = rw (anchor, other) refl in
    let now : mapped_at ts m ≡ m.mapped_max = rw (mapped_at, e) refl in
    let low : ltb m.mapped_max m.mapped_max ≡ false = ground arith in
    let still : raise m.mapped_max m ≡ m = rw (raise, low) refl in
    rw (map_ts, same, now, still) (λ i. (e i, m.mapped_max), refl)

and_false : (b : Bool) → (b && false) ≡ false
and_false true = refl
and_false false = refl

raise-shift : (mapped : ℕ) (m : Marks) → (raise mapped m).shift ≡ m.shift
unfolding raise
raise-shift mapped m = elim (Bool-cases (ltb m.mapped_max mapped)) [
  | inl e ↦ rw (raise, e) refl
  | inr e ↦ rw (raise, e) refl
]

shifted : (ts t0 m0 : ℕ) → pos_part (pos ts -ℤ sub_ℕ t0 m0) ≡ ts + m0 - t0
unfolding ◌-ℤ◌
shifted ts t0 m0 = ground arith

-- The first media tag of a segment.
map_ts-first :
    (tag_type ts : ℕ) (m : Marks)
    → m.shift ≡ none
    → is_media tag_type ≡ true
    → ((map_ts tag_type ts m).0.shift ≡ some (sub_ℕ ts m.mapped_max))
      × ((map_ts tag_type ts m).1 ≡ cap m.mapped_max)
unfolding map_ts anchor mapped_at
map_ts-first tag_type ts m e media =
    let n = record m { shift = some (sub_ℕ ts m.mapped_max) } in
    let test : (is_media tag_type && is_none m.shift) ≡ true = (λ i. media i && is_none (e i)) in
    let same : anchor tag_type ts m ≡ n = rw (anchor, test) refl in
    let now : mapped_at ts n ≡ m.mapped_max = shifted ts ts m.mapped_max ∙ omega arith in
    rw (map_ts, same, now) (raise-shift m.mapped_max n, refl)

-- A tag after that.
map_ts-after :
    (tag_type ts t0 m0 : ℕ) (m : Marks)
    → m.shift ≡ some (sub_ℕ t0 m0)
    → ((map_ts tag_type ts m).0.shift ≡ some (sub_ℕ t0 m0))
      × ((map_ts tag_type ts m).1 ≡ cap (ts + m0 - t0))
unfolding map_ts anchor mapped_at
map_ts-after tag_type ts t0 m0 m e =
    let test : (is_media tag_type && is_none m.shift) ≡ false =
      ap (λ k. is_media tag_type && is_none k) e ∙ and_false (is_media tag_type) in
    let same : anchor tag_type ts m ≡ m = rw (anchor, test) refl in
    let now : mapped_at ts m ≡ ts + m0 - t0 = simp (mapped_at, e) (shifted ts t0 m0) in
    rw (map_ts, same, now) (raise-shift (ts + m0 - t0) m ∙ e, refl)

-- Where each tag of a segment goes that begins at `now`.
abbrev pub times_from : ℕ → List Tag → Tag → List Tag → List ℕ
times_from now lead first rest =
    map (λ u. cap now) lead ++ cap now ∷ map (λ (u : Tag). cap (u.ts + now - first.ts)) rest

after-times :
    (t0 m0 : ℕ) (rest : List Tag) (m : Marks)
    → m.shift ≡ some (sub_ℕ t0 m0)
    → map Tag.ts (record_tags rest m).0 ≡ map (λ (u : Tag). cap (u.ts + m0 - t0)) rest
after-times t0 m0 [] m e = refl
after-times t0 m0 (u ∷ rest) m e =
    let n = note_media (encode_tag u) m in
    let kept : n.shift ≡ some (sub_ℕ t0 m0) =
      ap (λ c. c.0) (note_media-clock (encode_tag u) m) ∙ e in
    let (shift, time) = map_ts-after u.tag_type u.ts t0 m0 n kept in
    (λ i. time i ∷ after-times t0 m0 rest (move_tag u m).0 shift i)

-- A segment that begins with tags that are not media, and then has a media tag: up to that one all are put at
-- the end of what was recorded before, and each tag behind it as far from it as it was.
pub record_tags-times :
    (lead : List Tag) (first : Tag) (rest : List Tag) (m : Marks)
    → m.shift ≡ none
    → All (λ (u : Tag). is_media u.tag_type ≡ false) lead
    → is_media first.tag_type ≡ true
    → map Tag.ts (record_tags (lead ++ first ∷ rest) m).0 ≡ times_from m.mapped_max lead first rest
record_tags-times [] first rest m e h media =
    let n = note_media (encode_tag first) m in
    let same = note_media-clock (encode_tag first) m in
    let (shift, time) = map_ts-first first.tag_type first.ts n (ap (λ c. c.0) same ∙ e) media in
    let max_ : n.mapped_max ≡ m.mapped_max = ap (λ c. c.1) same in
    let shift1 = shift ∙ ap (λ k. some (sub_ℕ first.ts k)) max_ in
    (λ i.
      (time ∙ ap cap max_) i ∷ after-times first.ts m.mapped_max rest (move_tag first m).0 shift1 i)
record_tags-times (u ∷ lead) first rest m e (h, hs) media =
    let n = note_media (encode_tag u) m in
    let same = note_media-clock (encode_tag u) m in
    let (after, time) = map_ts-lead u.tag_type u.ts n (ap (λ c. c.0) same ∙ e) h in
    let max_ : n.mapped_max ≡ m.mapped_max = ap (λ c. c.1) same in
    let now : (move_tag u m).0.mapped_max ≡ m.mapped_max = ap (λ c. c.1) after ∙ max_ in
    let tail = record_tags-times lead first rest (move_tag u m).0 (ap (λ c. c.0) after) hs media in
    (λ i. (time ∙ ap cap max_) i ∷ (tail ∙ ap (λ k. times_from k lead first rest) now) i)
