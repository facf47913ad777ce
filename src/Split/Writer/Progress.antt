-- ===== src/Split/Writer/Progress.antt =====
-- crates/xfer-http/src/split.rs: what bytes that come for a segment do.
use mathlib.Core.Path.{subst}
use mathlib.Core.Option.{some-injective}
use xfer_rust.Common.{
  ℕ, ◌+◌, ◌-◌, ◌<◌, ◌≤◌, min, ◌≡◌, ◌≢◌, refl, sym, ap, ◌∙◌, arith, Bool, true, false, not, ◌||◌,
  ◌&&◌, Option, none, some, leb, ltb, ◌==◌, ==_iff, if◌then◌else◌, length, take, set, get_elem?,
  get_elem?-set_self, get_elem?-set_ne, Bool-cases, Option-cases, inl, inr,
}
use xfer_rust.Common.Bytes.{Bytes}
use xfer_rust.Common.Indexed.{sum_of-ge, get_elem?-lt}
use xfer_rust.Split.Writer.{
  DataFile, Seg, Writer, remaining, put_bytes, set_fatal, write_seg, on_write,
}
use xfer_rust.Split.Writer.Sound.{IsSound}

-- How many of the bytes a segment has a place for, if it is there and they begin at its mark.
abbrev pub room : Option Seg → ℕ → Bytes → ℕ
room none offset bytes = 0
room (some s) offset bytes =
    if offset == s.start + s.written then min (s.end - offset) (length bytes) else 0

-- How many of the bytes that come for a segment are to be written.
abbrev pub wanted : {D : Type 0} → Writer D → ℕ → ℕ → Bytes → ℕ
wanted w sid offset bytes = if w.fatal then 0 else room (get_elem? w.segs sid) offset bytes

-- The attempt to write them.
abbrev pub attempt : {D : Type 0} → DataFile D → Writer D → ℕ → ℕ → Bytes → D × Bool
attempt f w sid offset bytes = f.write_at offset (take (wanted w sid offset bytes) bytes) w.disk

-- How many of them are on disk afterwards.
abbrev pub bytes_taken : {D : Type 0} → DataFile D → Writer D → ℕ → ℕ → Bytes → ℕ
bytes_taken f w sid offset bytes =
    if (attempt f w sid offset bytes).1 then wanted w sid offset bytes else 0

or_true : (b : Bool) → true ≡ b || true
or_true true = refl
or_true false = refl

or_false : (b : Bool) → b ≡ b || false
or_false true = refl
or_false false = refl

-- From `w` to `v`, the segment `j`, which was `s`, has its bounds still, and `n` bytes more.
abbrev pub Moved : {D : Type 0} → ℕ → Seg → ℕ → Writer D → Type 0
Moved j s n v =
    (t : Seg) × (get_elem? v.segs j ≡ some t)
    × (t.start ≡ s.start)
    × (t.end ≡ s.end)
    × (t.written ≡ s.written + n)

module _ {D : Type 0} (f : DataFile D) (now sid offset : ℕ) (bytes : Bytes) (w : Writer D) where
  abbrev after : Writer D
  after = on_write f now sid offset bytes w

  abbrev amount : ℕ
  amount = wanted w sid offset bytes

  abbrev tried : D × Bool
  tried = attempt f w sid offset bytes

  module _ (s : Seg) (alive : w.fatal ≡ false) (at : get_elem? w.segs sid ≡ some s) where
    wanted-room : amount ≡ room (some s) offset bytes
    wanted-room = rw alive (ap (λ o. room o offset bytes) at)

    open_segment : after ≡ write_seg f now sid s offset bytes w
    unfolding on_write
    open_segment = simp (on_write, alive, at) refl

    write_none : amount ≡ 0 → write_seg f now sid s offset bytes w ≡ w
    unfolding write_seg
    write_none e =
        let small : room (some s) offset bytes ≡ 0 = sym wanted-room ∙ e in
        elim (Bool-cases
          (ltb offset s.start || leb s.end offset || not (offset - s.start == s.written))) [
            | inl out ↦ rw (write_seg, out) refl
            | inr in_ ↦
                let here : (offset == s.start + s.written) ≡ true = ground arith in
                let empty : min (s.end - offset) (length bytes) ≡ 0 =
                  (let u : min (s.end - offset) (length bytes) ≡ room (some s) offset bytes =
                      rw here refl in
                    u)
                  ∙ small in
                let z : (min (s.end - offset) (length bytes) == 0) ≡ true = ground arith in
                rw (write_seg, in_, z) refl
          ]

    -- What is written begins at the mark and ends within the segment.
    mark_fits : 0 < amount → (offset ≡ s.start + s.written) × (amount ≤ remaining s)
    mark_fits pos =
        let big : 0 < room (some s) offset bytes = subst (λ k. 0 < k) wanted-room pos in
        let e = wanted-room in
        elim (Bool-cases (offset == s.start + s.written)) [
          | inr away ↦ absurd (let z : room (some s) offset bytes ≡ 0 = rw away refl in omega arith)
          | inl here ↦
              let u : room (some s) offset bytes ≡ min (s.end - offset) (length bytes) =
                rw here refl in
              let mark : offset ≡ s.start + s.written =
                (==_iff offset (s.start + s.written)).0 here in
              let le : room (some s) offset bytes ≤ remaining s = omega arith in
              (mark, subst (λ k. k ≤ remaining s) (sym e) le)
        ]

    write_some :
        0 < amount
        → write_seg f now sid s offset bytes w ≡ (
            if tried.1
            then put_bytes f now sid s offset amount tried.0 w
            else set_fatal (record w { disk = tried.0 }))
    unfolding write_seg
    write_some pos =
        let big : 0 < room (some s) offset bytes = subst (λ k. 0 < k) wanted-room pos in
        elim (Bool-cases (offset == s.start + s.written)) [
          | inr away ↦ absurd (let z : room (some s) offset bytes ≡ 0 = rw away refl in omega arith)
          | inl here ↦
              let u : room (some s) offset bytes ≡ min (s.end - offset) (length bytes) =
                rw here refl in
              let e : min (s.end - offset) (length bytes) ≡ amount = sym (wanted-room ∙ u) in
              let in_ : (ltb offset s.start
                    || leb s.end offset
                    || not (offset - s.start == s.written))
                  ≡ false =
                ground arith in
              let z : (min (s.end - offset) (length bytes) == 0) ≡ false = ground arith in
              rw (write_seg, in_, z, e) refl
        ]

  -- What the message makes of the segment `j`, which was `s`, and of the whole, if it leads to `v`.
  abbrev pub Takes : ℕ → Seg → Writer D → Type 0
  Takes j s v =
      Moved j s (if j == sid then bytes_taken f w sid offset bytes else 0) v
      × (v.todo + bytes_taken f w sid offset bytes ≡ w.todo)
      × (v.disk ≡ (if amount == 0 then w.disk else tried.0))
      × (v.fatal ≡ (w.fatal || (not (amount == 0) && not tried.1)))

  nothing-Takes : (j : ℕ) (s : Seg) → get_elem? w.segs j ≡ some s → amount ≡ 0 → Takes j s w
  nothing-Takes j s at e =
      let z : (amount == 0) ≡ true = ground arith in
      let none_ : bytes_taken f w sid offset bytes ≡ 0 = elim (Bool-cases tried.1) [
        | inl ok ↦ rw ok e
        | inr bad ↦ rw bad refl
      ] in
      rw (none_, z) ((s, at, refl, refl, ground arith), omega arith, refl, or_false w.fatal)

  failed-Takes :
      (j : ℕ) (s : Seg)
      → get_elem? w.segs j ≡ some s
      → 0 < amount
      → tried.1 ≡ false
      → Takes j s (set_fatal (record w { disk = tried.0 }))
  unfolding set_fatal
  failed-Takes j s at pos bad =
      let z : (amount == 0) ≡ false = ground arith in
      rw (bad, z) ((s, at, refl, refl, ground arith), omega arith, refl, or_true w.fatal)

  put_bytes-Takes :
      (j : ℕ) (s here : Seg)
      → get_elem? w.segs j ≡ some s
      → get_elem? w.segs sid ≡ some here
      → 0 < amount
      → tried.1 ≡ true
      → offset ≡ here.start + here.written
      → amount ≤ remaining here
      → IsSound D w
      → w.fatal ≡ false
      → Takes j s (put_bytes f now sid here offset amount tried.0 w)
  unfolding put_bytes
  put_bytes-Takes j s here at there pos ok mark fits h alive =
      let z : (amount == 0) ≡ false = ground arith in
      let enough = sum_of-ge remaining w.segs sid here there in
      let counted = h.counted in
      rw (ok, z)
        (
          elim (Bool-cases (j == sid)) [
            | inl same ↦
                let e : sid ≡ j = sym ((==_iff j sid).0 same) in
                let it : here ≡ s =
                  some-injective here s (sym there ∙ ap (get_elem? w.segs) e ∙ at) in
                let t = record here {
                  written = offset + amount - here.start;
                  done = here.done || offset + amount - here.start == here.end - here.start;
                  last_progress = now;
                } in
                let found : get_elem? (set w.segs sid t) j ≡ some t =
                  subst (λ k. get_elem? (set w.segs sid t) k ≡ some t) e
                    (get_elem?-set_self w.segs sid t (get_elem?-lt w.segs sid here there)) in
                let further : offset + amount - here.start ≡ here.written + amount = omega arith in
                rw same (
                  t,
                  found,
                  ap Seg.start it,
                  ap Seg.end it,
                  further ∙ ap (λ (u : Seg). u.written + amount) it,
                )
            | inr other ↦
                let ne : sid ≢ j = ground arith in
                rw other (
                  s,
                  get_elem?-set_ne w.segs
                        (record here {
                          written = offset + amount - here.start;
                          done = here.done || offset + amount - here.start == here.end - here.start;
                          last_progress = now;
                        })
                        ne
                      ∙ at,
                  refl,
                  refl,
                  omega arith,
                )
          ],
          omega arith,
          refl,
          or_false w.fatal,
        )

  -- In a sound state, whatever comes for whichever segment: of the bytes, `bytes_taken` are written, which is none unless
  -- the download has no error, the segment is there and they begin at its mark, and else as many as there are, up to
  -- the end of the segment, if the write succeeds. The mark of that segment moves by so many, no other mark and no
  -- bound of a segment moves, so many bytes less are left, the file is what the attempt made of it, where there is
  -- something to write, and an error is kept exactly where it was there before or such an attempt failed.
  pub on_write-Takes :
      (j : ℕ) (s : Seg) → get_elem? w.segs j ≡ some s → IsSound D w → Takes j s after
  unfolding on_write
  on_write-Takes j s at h = elim (Bool-cases w.fatal) [
    | inl dead ↦
        let same : after ≡ w = simp (on_write, dead) refl in
        subst (Takes j s) (sym same) (nothing-Takes j s at (rw dead refl))
    | inr alive ↦ elim (Option-cases (get_elem? w.segs sid)) [
      | inl gone ↦
          let same : after ≡ w = simp (on_write, alive, gone) refl in
          let none_ : amount ≡ 0 = rw alive (ap (λ o. room o offset bytes) gone) in
          subst (Takes j s) (sym same) (nothing-Takes j s at none_)
      | inr (here, there) ↦ elim (Bool-cases (amount == 0)) [
        | inl zero_ ↦
            let e : amount ≡ 0 = ground arith in
            let same = open_segment here alive there ∙ write_none here alive there e in
            subst (Takes j s) (sym same) (nothing-Takes j s at e)
        | inr some_ ↦
            let pos : 0 < amount = ground arith in
            let opened = open_segment here alive there ∙ write_some here alive there pos in
            elim (Bool-cases tried.1) [
              | inr bad ↦
                  let failed = set_fatal (record w { disk = tried.0 }) in
                  let branch : (if tried.1
                        then put_bytes f now sid here offset amount tried.0 w
                        else failed)
                      ≡ failed =
                    rw bad refl in
                  subst (Takes j s) (sym (opened ∙ branch)) (failed-Takes j s at pos bad)
              | inl ok ↦
                  let (mark, fits) = mark_fits here alive there pos in
                  let put = put_bytes f now sid here offset amount tried.0 w in
                  let branch : (if tried.1 then put else set_fatal (record w { disk = tried.0 }))
                      ≡ put =
                    rw ok refl in
                  subst (Takes j s) (sym (opened ∙ branch))
                    (put_bytes-Takes j s here at there pos ok mark fits h alive)
            ]
      ]
    ]
  ]
