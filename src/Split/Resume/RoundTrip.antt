-- ===== src/Split/Resume/RoundTrip.antt =====
-- crates/xfer-http/src/split.rs: the control file that the thread writes, read back at the next start.
use mathlib.Core.List.{map}
use xfer_rust.Common.{
  ℕ, ◌+◌, ◌-◌, ◌≤◌, ◌<◌, min, ◌≡◌, ◌⊎◌, inl, inr, refl, sym, ap, ◌∙◌, arith, true, false, not, ◌&&◌,
  ◌||◌, some, List, [], ◌∷◌, ltb, leb, ◌==◌, Bool-cases, All,
}
use xfer_rust.Common.Indexed.{
  sum_of, filter, all_of, Each, sum_of-filter, sum_of-sort, filter-All, filter-true, all_of-All,
  All-Each, Each-All,
}
use xfer_rust.Common.Sort.{sort_by, sort_by-All, sort_by-Ordered, Ordered}
use xfer_rust.Split.Writer.{DataFile, Seg, SplitOptions, Writer, remaining}
use xfer_rust.Split.Writer.Sound.{IsSound, in_range, in_range-split}
use xfer_rust.Split.Resume.{
  CtrlSeg, load_ctrl, is_in_file, is_nonempty, no_segs, by_start, tiled_from, usable, load_seg,
  ctrl_seg, has_bytes, rebuild_queue, start_with, serialize_ctrl, bootstrap,
}

abbrev ctrl_covers : ℕ → CtrlSeg → ℕ
ctrl_covers x c = in_range c.s c.e x

sum_of-map :
    {A B : Type 0} (f : B → ℕ) (g : A → B) (xs : List A)
    → sum_of f (map g xs) ≡ sum_of (λ a. f (g a)) xs
unfolding sum_of
sum_of-map f g [] = refl
sum_of-map f g (x ∷ xs) = ap (λ n. f (g x) + n) (sum_of-map f g xs)

sum_of-same :
    {A : Type 0} (f g : A → ℕ) (xs : List A) → ((a : A) → f a ≡ g a) → sum_of f xs ≡ sum_of g xs
unfolding sum_of
sum_of-same f g [] h = refl
sum_of-same f g (x ∷ xs) h = let e = h x in omega (arith, sum_of-same f g xs h)

map-All :
    {A B : Type 0} (P : B → Type 0) (g : A → B) (xs : List A)
    → All (λ a. P (g a)) xs
    → All P (map g xs)
map-All P g [] h = tt
map-All P g (x ∷ xs) (h, hs) = (h, map-All P g xs hs)

-- No segment that starts behind a byte covers it.
none_before :
    (x : ℕ) (c : CtrlSeg) (cs : List CtrlSeg)
    → x < c.s
    → All (λ d. by_start c d ≡ true) cs
    → sum_of (ctrl_covers x) cs ≡ 0
unfolding sum_of
none_before x c [] lt h = refl
none_before x c (d ∷ cs) lt (h, hs) = let rest = none_before x c cs lt hs in ground arith

-- Segments in order that cover each byte once, and are not empty, follow on each other.
covers-tiled :
    (total cursor : ℕ) (cs : List CtrlSeg)
    → cursor ≤ total
    → All (λ c. is_nonempty c ≡ true) cs
    → Ordered by_start cs
    → ((x : ℕ) → sum_of (ctrl_covers x) cs ≡ in_range cursor total x)
    → tiled_from total cursor cs ≡ true
unfolding tiled_from sum_of
covers-tiled total cursor [] le full sorted h = let at = h cursor in ground arith
covers-tiled total cursor (c ∷ cs) le (some_, full) (first, sorted) h =
    let at_start = h c.s in
    let at_end = h (c.e - 1) in
    let at_cursor = h cursor in
    let low : cursor ≤ c.s = ground arith in
    let high : c.e ≤ total = ground arith in
    let start : c.s ≤ cursor = elim (Bool-cases (ltb cursor c.s)) [
      | inr e ↦ ground arith
      | inl e ↦ let gone = none_before cursor c cs (ground arith) first in ground arith
    ] in
    let rest = covers-tiled total c.e cs high full sorted (λ x.
      let split = in_range-split c.s c.e total x (ground arith) high in
      let same : c.s ≡ cursor = omega arith in
      let at = h x ∙ ap (λ k. in_range k total x) (sym same) in omega arith) in
    let test : (not (c.s == cursor) || leb c.e c.s) ≡ false = ground arith in
    rw (tiled_from, test) rest

-- What the control file says is the same sum as what the segments say.
sum_of-saved :
    (g : CtrlSeg → ℕ) (segs : List Seg)
    → ((c : CtrlSeg) → is_nonempty c ≡ false → g c ≡ 0)
    → sum_of g (sort_by by_start (filter is_nonempty (map ctrl_seg (filter has_bytes segs))))
      ≡ sum_of (λ s. g (ctrl_seg s)) segs
unfolding ctrl_seg
sum_of-saved g segs h =
    sum_of-sort g by_start (filter is_nonempty (map ctrl_seg (filter has_bytes segs)))
    ∙ sum_of-filter g is_nonempty (map ctrl_seg (filter has_bytes segs)) h
    ∙ sum_of-map g ctrl_seg (filter has_bytes segs)
    ∙ sum_of-filter (λ s. g (ctrl_seg s)) has_bytes segs (λ s e. h (ctrl_seg s) e)

saved-All :
    (P : CtrlSeg → Type 0) (segs : List Seg)
    → All (λ s. P (ctrl_seg s)) segs
    → All P (sort_by by_start (filter is_nonempty (map ctrl_seg (filter has_bytes segs))))
saved-All P segs h =
    sort_by-All by_start P (filter is_nonempty (map ctrl_seg (filter has_bytes segs))) (
      filter-All P is_nonempty (map ctrl_seg (filter has_bytes segs)) (
        map-All P ctrl_seg (filter has_bytes segs)
          (filter-All (λ s. P (ctrl_seg s)) has_bytes segs h)))

not_empty : (g : CtrlSeg → ℕ) (cs : List CtrlSeg) → 0 < sum_of g cs → no_segs cs ≡ false
unfolding sum_of
not_empty g [] h = absurd (omega arith)
not_empty g (c ∷ cs) h = refl

-- What counts as written is in the file.
abbrev pub InFile : ℕ → List Seg → Type 0
InFile file_len = Each (λ i s. (s.written ≡ 0) ⊎ (s.start + s.written ≤ file_len))

-- The bytes that count as written.
abbrev pub WrittenAre : (ℕ → Type 0) → List Seg → Type 0
WrittenAre P = Each (λ i s. (x : ℕ) → s.start ≤ x → x < s.start + s.written → P x)

module _ {D : Type 0} where
  usable-saved :
      (file_len : ℕ) (w : Writer D)
      → IsSound D w
      → w.base < w.total
      → InFile file_len w.segs
      → usable w.total file_len (serialize_ctrl w)
        ≡ some
            (w.base, sort_by by_start (filter is_nonempty (map ctrl_seg (filter has_bytes w.segs))))
  unfolding usable serialize_ctrl ctrl_seg is_in_file
  usable-saved file_len w h room inside =
      let saved = map ctrl_seg (filter has_bytes w.segs) in
      let found = sort_by by_start (filter is_nonempty saved) in
      let all_in : all_of (is_in_file file_len) saved ≡ true =
        all_of-All (is_in_file file_len) saved (
          map-All (λ c. is_in_file file_len c ≡ true) ctrl_seg (filter has_bytes w.segs)
            (filter-All _ has_bytes w.segs (
              Each-All (λ s. is_in_file file_len (ctrl_seg s) ≡ true) w.segs
                (λ i s at. let near = inside i s at in ground (arith, near))))) in
      let once : (x : ℕ) → sum_of (ctrl_covers x) found ≡ in_range w.base w.total x =
        λ x. sum_of-saved (ctrl_covers x) w.segs (λ c e. ground arith) ∙ h.tiled x in
      let at_base = once w.base in
      let some_ : no_segs found ≡ false =
        not_empty (ctrl_covers w.base) found (ground (arith, at_base)) in
      let base : min w.base w.total ≡ w.base = omega arith in
      let tiled : tiled_from w.total w.base found ≡ true =
        covers-tiled w.total w.base found (omega arith)
          (sort_by-All by_start (λ c. is_nonempty c ≡ true) (filter is_nonempty saved)
            (filter-true is_nonempty saved))
          (sort_by-Ordered by_start (λ a b e. ground arith) (λ a b c e f. ground arith)
            (filter is_nonempty saved))
          once in
      let fits : not (w.total == w.total && all_of (is_in_file file_len) saved) ≡ false =
        ground (arith, all_in) in
      let follows : tiled_from w.total (min w.base w.total) found ≡ true =
        ap (λ k. tiled_from w.total k found) base ∙ tiled in
      let good : (no_segs found || not (tiled_from w.total (min w.base w.total) found)) ≡ false =
        rw (some_, follows) refl in
      rw (usable, fits, good) (ap (λ k. some (k, found)) base)

load_seg-saved : (now : ℕ) (s : Seg) → remaining (load_seg now (ctrl_seg s)) ≡ remaining s
unfolding load_seg ctrl_seg
load_seg-saved now s = omega arith

load_seg-empty : (now : ℕ) (c : CtrlSeg) → is_nonempty c ≡ false → remaining (load_seg now c) ≡ 0
unfolding load_seg
load_seg-empty now c e = ground arith

load_ctrl-saved :
    {D : Type 0} (w : Writer D) → load_ctrl (some (serialize_ctrl w)) ≡ some (serialize_ctrl w)
unfolding load_ctrl serialize_ctrl
load_ctrl-saved w = refl

load_seg-WrittenAre :
    (P : ℕ → Type 0) (now : ℕ) (s : Seg)
    → ((x : ℕ) → s.start ≤ x → x < s.start + s.written → P x)
    → (x : ℕ) → (load_seg now (ctrl_seg s)).start ≤ x
    → x < (load_seg now (ctrl_seg s)).start + (load_seg now (ctrl_seg s)).written
    → P x
unfolding load_seg ctrl_seg
load_seg-WrittenAre P now s h x low high = h x low (omega arith)

module _ {D : Type 0} (f : DataFile D) where
  -- The download goes on where it was: the control file of a sound state is accepted, as much is left, and no
  -- byte counts as written that did not.
  pub bootstrap-serialize_ctrl :
      (now file_len : ℕ) (opts : SplitOptions) (desired_workers : ℕ) (w : Writer D) (P : ℕ → Type 0)
      → IsSound D w
      → w.base < w.total
      → InFile file_len w.segs
      → WrittenAre P w.segs
      → (v : Writer D) × (bootstrap f now file_len w.disk w.total opts desired_workers
            (some (serialize_ctrl w))
          ≡ some v)
        × (v.base ≡ w.base)
        × (v.todo ≡ w.todo)
        × WrittenAre P v.segs
  unfolding bootstrap start_with rebuild_queue
  bootstrap-serialize_ctrl now file_len opts desired_workers w P h room inside written =
      let found = sort_by by_start (filter is_nonempty (map ctrl_seg (filter has_bytes w.segs))) in
      let segs = map (load_seg now) found in
      let holds = λ (s : Seg). (x : ℕ) → s.start ≤ x → x < s.start + s.written → P x in
      (
        start_with now w.disk w.total opts desired_workers w.base segs,
        rw (bootstrap, load_ctrl-saved w, usable-saved file_len w h room inside) refl,
        refl,
        sum_of-map remaining (load_seg now) found
            ∙ sum_of-saved (λ c. remaining (load_seg now c)) w.segs (load_seg-empty now)
            ∙ sum_of-same (λ s. remaining (load_seg now (ctrl_seg s))) remaining w.segs
                (load_seg-saved now)
            ∙ sym h.counted,
        All-Each holds segs (
            map-All holds (load_seg now) found (
              saved-All (λ c. holds (load_seg now c)) w.segs
                (Each-All (λ s. holds (load_seg now (ctrl_seg s))) w.segs
                  (λ i s at. load_seg-WrittenAre P now s (written i s at))))),
      )
