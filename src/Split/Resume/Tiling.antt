-- ===== src/Split/Resume/Tiling.antt =====
-- crates/xfer-http/src/split.rs: the segments of a control file, and those that a file is cut in.
use mathlib.Core.List.{map}
use mathlib.Core.Option.{some-injective}
use native.Mathlib.Nat.{
  div-le_of_le-mul, mul-div_cancel, div-mul-le_self, mul-le-mul_left, mul-le-mul_right,
  le-div_iff_mul-le,
}
use xfer_rust.Common.{
  ℕ, zero, suc, ◌+◌, ◌-◌, ◌*◌, ◌/◌, ◌%◌, ◌^◌, ◌≤◌, ◌<◌, max, ◌≡◌, inl, inr, refl, ap, ◌∙◌, arith,
  Bool, true, false, not, ◌&&◌, ◌||◌, some, List, [], ◌∷◌, ltb, leb, ◌==◌, if◌then◌else◌, get_elem?,
  Bool-cases, All,
}
use xfer_rust.Common.Indexed.{sum_of, All-Each}
use xfer_rust.Split.Writer.{Seg, SplitOptions, new_seg}
use xfer_rust.Split.Writer.Sound.{IsSound, Fits, covers, in_range, in_range-split}
use xfer_rust.Split.Writer.Kept.{IsKept, Waits}
use xfer_rust.Split.Resume.{
  CtrlSeg, tiled_from, load_seg, segment_count, cut_from, fresh_segs, queued_from, rebuild_queue,
  start_with,
}

-- The bytes from `low` to `high` are each in one segment.
abbrev pub Tiles : ℕ → ℕ → List Seg → Type 0
Tiles low high segs = (x : ℕ) → sum_of (covers x) segs ≡ in_range low high x

-- A segment that is done is full, and one that is not is queued.
abbrev pub IsReady : Seg → Type 0
IsReady s = Fits s × (s.done ≡ false → s.queued ≡ true)

Waits-if :
    (k n : ℕ) (b : Bool) (queue : List ℕ) → Waits k queue → Waits k (if b then n ∷ queue else queue)
Waits-if k n true queue h = inr h
Waits-if k n false queue h = h

queued_from-Waits :
    (k n : ℕ) (segs : List Seg) (i : ℕ) (s : Seg)
    → k ≡ n + i
    → get_elem? segs i ≡ some s
    → s.done ≡ false
    → s.queued ≡ true
    → Waits k (queued_from n segs)
unfolding queued_from
queued_from-Waits k n [] i s e at more queued = absurd (cc at)
queued_from-Waits k n (t ∷ segs) zero s e at more queued =
    let same = some-injective t s at in
    let test : (t.queued && not t.done) ≡ true =
      ap (λ (u : Seg). u.queued && not u.done) same ∙ (λ i. queued i && not (more i)) in
    rw test (inl (omega arith))
queued_from-Waits k n (t ∷ segs) (suc i) s e at more queued =
    Waits-if k n (t.queued && not t.done) (queued_from (suc n) segs)
      (queued_from-Waits k (suc n) segs i s (omega arith) at more queued)

module _ {D : Type 0} where
  pub start_with-IsSound :
      (now : ℕ) (disk : D) (total : ℕ) (opts : SplitOptions) (desired_workers base : ℕ)
      (segs : List Seg)
      → All IsReady segs
      → Tiles base total segs
      → IsSound D (start_with now disk total opts desired_workers base segs)
        × IsKept D (start_with now disk total opts desired_workers base segs)
  unfolding start_with rebuild_queue
  start_with-IsSound now disk total opts desired_workers base segs ready tiles =
      let each = All-Each IsReady segs ready in
      (
        record {
          fits = λ i s at. (each i s at).0;
          tiled = tiles;
          counted = refl;
          over = λ e. ground arith;
          told = λ e. ground arith;
        },
        λ i s at. record {
          listed = λ more queued. queued_from-Waits i 0 segs i s (omega arith) at more queued;
          owned = λ more lacks. inl ((each i s at).1 more);
        },
      )

load_seg-IsReady : (now : ℕ) (c : CtrlSeg) → c.s ≤ c.e → IsReady (load_seg now c)
unfolding load_seg
load_seg-IsReady now c h =
    (record { within = omega arith; ended = λ e. ground arith }, λ e. ground arith)

-- What passes the test covers each byte once.
pub tiled_from-Tiles :
    (now total cursor : ℕ) (cs : List CtrlSeg)
    → tiled_from total cursor cs ≡ true
    → (cursor ≤ total)
      × All IsReady (map (load_seg now) cs)
      × Tiles cursor total (map (load_seg now) cs)
unfolding tiled_from sum_of load_seg
tiled_from-Tiles now total cursor [] h = (ground arith, tt, λ x. ground arith)
tiled_from-Tiles now total cursor (c ∷ cs) h =
    elim (Bool-cases (not (c.s == cursor) || leb c.e c.s)) [
      | inl e ↦ let never : Path Bool false true = (rw (tiled_from, e) at h) in absurd (cc never)
      | inr e ↦
          let rest = tiled_from-Tiles now total c.e cs (rw (tiled_from, e) at h) in
          (
            ground arith,
            (load_seg-IsReady now c (ground arith), rest.1),
            λ x.
                ap (λ k. in_range c.s c.e x + k) (rest.2 x)
                ∙ in_range-split c.s c.e total x (ground arith) rest.0
                ∙ ap (λ k. in_range k total x) (let same : c.s ≡ cursor = ground arith in same),
          )
    ]

div_mono : (a b n : ℕ) → 0 < n → a ≤ b → a / n ≤ b / n
div_mono a b n pos h = (le-div_iff_mul-le pos).1 (omega (arith, div-mul-le_self a n))

-- Segments that are cut one after the other cover what they are cut from.
cut_from-Tiles :
    (now base remain nseg prev i n : ℕ)
    → remain * nseg < 2 ^ 64
    → i + n ≡ nseg
    → 0 < nseg
    → prev ≡ base + remain * i / nseg
    → All IsReady (cut_from now base remain nseg prev (suc i) n)
      × Tiles prev (base + remain) (cut_from now base remain nseg prev (suc i) n)
unfolding cut_from sum_of new_seg
cut_from-Tiles now base remain nseg prev i zero fits count pos at =
    let last : remain * i / nseg ≡ remain =
      ap (λ k. remain * k / nseg) (let e : i ≡ nseg = omega arith in e)
      ∙ mul-div_cancel remain pos in
    (tt, λ x. ground arith)
cut_from-Tiles now base remain nseg prev i (suc n) fits count pos at =
    let end = base + (remain * suc i % 2 ^ 64) / nseg in
    let below : remain * suc i ≤ remain * nseg = mul-le-mul_left remain (omega arith) in
    let exact : remain * suc i % 2 ^ 64 ≡ remain * suc i = omega arith in
    let there : end ≡ base + remain * suc i / nseg = ap (λ k. base + k / nseg) exact in
    let up : prev ≤ end =
      let d =
        div_mono (remain * i) (remain * suc i) nseg pos (mul-le-mul_left remain (omega arith)) in
      omega arith in
    let rest = cut_from-Tiles now base remain nseg end (suc i) n fits (omega arith) pos there in
    let top : end ≤ base + remain =
      let d = div_mono (remain * suc i) (remain * nseg) nseg pos below in
      let e = mul-div_cancel remain pos in omega arith in
    (
      ((record { within = omega arith; ended = λ e. absurd (cc e) }, λ e. refl), rest.0),
      λ x.
          ap (λ k. in_range prev end x + k) (rest.1 x)
          ∙ in_range-split prev end (base + remain) x up top,
    )

pub fresh_segs-Tiles :
    (now base total : ℕ) (opts : SplitOptions)
    → base ≤ total
    → total * (max opts.connections 1 * 2) < 2 ^ 64
    → All IsReady (fresh_segs now base (total - base) opts)
      × Tiles base total (fresh_segs now base (total - base) opts)
unfolding fresh_segs segment_count sum_of
fresh_segs-Tiles now base total opts le small = elim (Bool-cases (ltb 0 (total - base))) [
  | inl e ↦
      let nseg = segment_count (total - base) opts in
      let most : max opts.connections 1 * 2 ≤ total * (max opts.connections 1 * 2) =
        let k =
          mul-le-mul_right (max opts.connections 1 * 2) (let p : 1 ≤ total = ground arith in p) in
        omega arith in
      let pos : 0 < nseg = omega arith in
      let few : nseg ≤ max opts.connections 1 * 2 = omega arith in
      let exact : (total - base) * nseg < 2 ^ 64 =
        let k = mul-le-mul_left (total - base) few in
        let l =
          mul-le-mul_right (max opts.connections 1 * 2)
            (let p : total - base ≤ total = omega arith in p) in
        omega arith in
      let start : base ≡ base + (total - base) * 0 / nseg =
        let none_ : (total - base) * 0 / nseg ≤ 0 = div-le_of_le-mul nseg (omega arith) in
        omega arith in
      let r =
        cut_from-Tiles now base (total - base) nseg base 0 nseg exact (omega arith) pos start in
      rw (fresh_segs, e)
        (
          r.0,
          λ x.
              r.1 x
              ∙ ap (λ k. in_range base k x)
                  (let p : base + (total - base) ≡ total = omega arith in p),
        )
  | inr e ↦ rw (fresh_segs, e) (tt, λ x. ground arith)
]
