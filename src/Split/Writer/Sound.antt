-- ===== src/Split/Writer/Sound.antt =====
-- crates/xfer-http/src/split.rs: the sound states, by the bytes of the file and the segments that have them.
use xfer_rust.Common.{
  ℕ, ◌+◌, ◌-◌, ◌≤◌, ◌<◌, ◌≡◌, inl, inr, refl, sym, ◌∙◌, arith, Bool, true, false, ◌&&◌, ◌||◌, some,
  [], ◌∷◌, ◌++◌, ltb, leb, ◌==◌, if◌then◌else◌, get_elem?, set, Bool-cases,
}
use xfer_rust.Common.Indexed.{
  sum_of, Each, sum_of-set, sum_of-append, sum_of-ge, Each-set, Each-append,
}
use xfer_rust.Split.Writer.{DataFile, Seg, Writer, remaining, new_seg, split_off, put_bytes}

-- 1 where the byte `x` is in the range.
abbrev pub in_range : ℕ → ℕ → ℕ → ℕ
in_range low high x = if leb low x && ltb x high then 1 else 0

abbrev pub covers : ℕ → Seg → ℕ
covers x s = in_range s.start s.end x

-- The mark is in the segment, and at its end where the segment is done.
pub record Fits (s : Seg) : Type 0 where
  pub within : s.start + s.written ≤ s.end
  pub ended : s.done ≡ true → s.start + s.written ≡ s.end

-- Every byte from `base` to `total` is in one segment, and no other byte is in any; `todo` is the number of
-- bytes that are not written; and the download is finished where there are none.
pub record IsSound (D : Type 0) (w : Writer D) : Type 0 where
  pub fits : Each (λ i s. Fits s) w.segs
  pub tiled : (x : ℕ) → sum_of (covers x) w.segs ≡ in_range w.base w.total x
  pub counted : w.todo ≡ sum_of remaining w.segs
  pub over : w.finished ≡ true → w.todo ≡ 0
  pub told : w.todo ≡ 0 → w.finished ≡ true

or_true : (b : Bool) → b || true ≡ true
or_true true = refl
or_true false = refl

pub in_range-split :
    (low at high x : ℕ)
    → low ≤ at
    → at ≤ high
    → in_range low at x + in_range at high x ≡ in_range low high x
in_range-split low at high x h k = ground arith

module _ {D : Type 0} where
  -- One segment is changed: what the sums gain is what the segment gains.
  sums-set :
      (f : Seg → ℕ) (w : Writer D) (sid : ℕ) (s v : Seg)
      → get_elem? w.segs sid ≡ some s
      → f v ≡ f s
      → sum_of f (set w.segs sid v) ≡ sum_of f w.segs
  sums-set f w sid s v at e = let h = sum_of-set f w.segs sid s v at in omega arith

  sums-cut :
      (f : Seg → ℕ) (w : Writer D) (sid : ℕ) (s v new : Seg)
      → get_elem? w.segs sid ≡ some s
      → f v + f new ≡ f s
      → sum_of f (set w.segs sid v ++ new ∷ []) ≡ sum_of f w.segs
  unfolding sum_of
  sums-cut f w sid s v new at e =
      let h = sum_of-set f w.segs sid s v at in
      let a = sum_of-append f (set w.segs sid v) (new ∷ []) in omega arith

  -- A segment in place of one with the same bytes.
  pub same_bytes-IsSound :
      (w : Writer D) (sid : ℕ) (s v : Seg)
      → get_elem? w.segs sid ≡ some s
      → v.start ≡ s.start
      → v.end ≡ s.end
      → v.written ≡ s.written
      → Fits v
      → IsSound D w
      → IsSound D (record w { segs = set w.segs sid v })
  same_bytes-IsSound w sid s v at e f g fits h = record {
    fits = Each-set (λ i s. Fits s) w.segs sid v h.fits fits;
    tiled = λ x. sums-set (covers x) w sid s v at (cc (e, f)) ∙ h.tiled x;
    counted = h.counted ∙ sym (sums-set remaining w sid s v at (cc (e, f, g)));
    over = h.over;
    told = h.told;
  }

  pub cut-IsSound :
      (w : Writer D) (now sid : ℕ) (s : Seg) (at : ℕ)
      → get_elem? w.segs sid ≡ some s
      → s.start + s.written ≤ at
      → at ≤ s.end
      → IsSound D w
      → IsSound D (split_off now sid s at w)
  unfolding split_off new_seg
  cut-IsSound w now sid s at there low high h =
      let old = h.fits sid s there in
      let ended : s.done ≡ true → s.start + s.written ≡ at =
        λ e. let full = old.ended e in omega arith in
      let new_fits : Fits (new_seg now at s.end) = record {
        within = omega arith;
        ended = λ e. absurd (cc e);
      } in
      record {
        fits =
            Each-append (λ i s. Fits s) (set w.segs sid (record s { end = at }))
              (new_seg now at s.end)
              (Each-set (λ i s. Fits s) w.segs sid (record s { end = at }) h.fits
                (record { within = low; ended = ended }))
              new_fits;
        tiled = λ x.
            sums-cut (covers x) w sid s (record s { end = at }) (new_seg now at s.end) there
              (in_range-split s.start at s.end x (omega arith) high)
            ∙ h.tiled x;
        counted =
            h.counted
            ∙ sym (
                sums-cut remaining w sid s (record s { end = at }) (new_seg now at s.end) there
                  (omega arith));
        over = h.over;
        told = h.told;
      }

  pub store-IsSound :
      (f : DataFile D) (w : Writer D) (now sid : ℕ) (s : Seg) (offset n : ℕ) (disk : D)
      → get_elem? w.segs sid ≡ some s
      → offset ≡ s.start + s.written
      → 0 < n
      → offset + n ≤ s.end
      → IsSound D w
      → IsSound D (put_bytes f now sid s offset n disk w)
  unfolding put_bytes
  store-IsSound f w now sid s offset n disk at mark pos room h =
      let v = record s {
        written = offset + n - s.start;
        done = s.done || offset + n - s.start == s.end - s.start;
        last_progress = now;
      } in
      let old = h.fits sid s at in
      let ended : v.done ≡ true → s.start + (offset + n - s.start) ≡ s.end = λ e.
        elim (Bool-cases s.done) [
          | inl was ↦ let full = old.ended was in absurd (omega arith)
          | inr new ↦
              let full : offset + n - s.start == s.end - s.start ≡ true = (rw new at e) in
              ground arith
        ] in
      let sums = sum_of-set remaining w.segs sid s v at in
      let enough = sum_of-ge remaining w.segs sid s at in
      let counted = h.counted in
      let left : w.todo - n ≡ sum_of remaining (set w.segs sid v) = omega arith in
      record {
        fits =
            Each-set (λ i s. Fits s) w.segs sid v h.fits
              (record { within = omega arith; ended = ended });
        tiled = λ x. sums-set (covers x) w sid s v at refl ∙ h.tiled x;
        counted = left;
        over = λ e. elim (Bool-cases w.finished) [
          | inl was ↦ let none_left = h.over was in omega arith
          | inr new ↦ let z : w.todo - n == 0 ≡ true = (rw new at e) in ground arith
        ];
        told = λ e. let z : w.todo - n == 0 ≡ true = ground arith in rw z (or_true w.finished);
      }
