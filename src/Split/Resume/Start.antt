-- ===== src/Split/Resume/Start.antt =====
-- crates/xfer-http/src/split.rs: the state in which the thread starts.
use mathlib.Core.List.{map}
use mathlib.Core.Path.{subst}
use mathlib.Core.Option.{some-injective}
use xfer_rust.Common.{
  ℕ, ◌-◌, ◌*◌, ◌^◌, ◌≤◌, ◌<◌, min, max, ◌≡◌, ◌⊎◌, inl, inr, refl, arith, true, not, ◌&&◌, ◌||◌,
  Option, none, some, List, ltb, ◌==◌, Bool-cases, Option-cases, All,
}
use xfer_rust.Common.Indexed.{filter, all_of}
use xfer_rust.Common.Sort.{sort_by}
use xfer_rust.Split.Writer.{DataFile, Seg, SplitOptions, Writer}
use xfer_rust.Split.Writer.Sound.{IsSound}
use xfer_rust.Split.Writer.Kept.{IsKept}
use xfer_rust.Split.Resume.{
  CtrlSeg, CtrlFile, load_ctrl, is_in_file, is_nonempty, no_segs, by_start, tiled_from, usable,
  load_seg, fresh_segs, rebuild_queue, start_with, start_fresh, bootstrap,
}
use xfer_rust.Split.Resume.Tiling.{
  IsReady, Tiles, start_with-IsSound, tiled_from-Tiles, fresh_segs-Tiles,
}

module _ {D : Type 0} (f : DataFile D) where
  -- A state in which each byte from its base to the end is in one segment and no segment is lost.
  abbrev pub IsStart : ℕ → Writer D → Type 0
  IsStart total w = IsSound D w × IsKept D w × (w.total ≡ total)

  pub start_with-IsStart :
      (now : ℕ) (disk : D) (total : ℕ) (opts : SplitOptions) (desired_workers base : ℕ)
      (segs : List Seg)
      → All IsReady segs
      → Tiles base total segs
      → IsStart total (start_with now disk total opts desired_workers base segs)
  unfolding start_with rebuild_queue
  start_with-IsStart now disk total opts desired_workers base segs ready tiles =
      let both = start_with-IsSound now disk total opts desired_workers base segs ready tiles in
      (both.0, both.1, refl)

  start_fresh-IsStart :
      (now file_len : ℕ) (disk : D) (total : ℕ) (opts : SplitOptions) (desired_workers : ℕ)
      → total * (max opts.connections 1 * 2) < 2 ^ 64
      → (file_len ≤ total) ⊎ ((f.set_len total disk).1 ≡ true)
      → (w : Writer D) × (start_fresh f now file_len disk total opts desired_workers ≡ some w)
        × IsStart total w
  unfolding start_fresh
  start_fresh-IsStart now file_len disk total opts desired_workers small ok =
      let base = min file_len total in
      let segs = fresh_segs now base (total - base) opts in
      let both = fresh_segs-Tiles now base total opts (omega arith) small in
      let sound =
        λ (d : D). start_with-IsStart now d total opts desired_workers base segs both.0 both.1 in
      elim (Bool-cases (ltb total file_len)) [
        | inl e ↦
            let cut : (f.set_len total disk).1 ≡ true = ground (arith, ok) in
            (
              start_with now (f.set_len total disk).0 total opts desired_workers base segs,
              rw (start_fresh, e, cut) refl,
              sound (f.set_len total disk).0,
            )
        | inr e ↦ (
          start_with now disk total opts desired_workers base segs,
          rw (start_fresh, e) refl,
          sound disk,
        )
      ]

  usable-Tiles :
      (now total file_len : ℕ) (c : CtrlFile) (base : ℕ) (sorted : List CtrlSeg)
      → usable total file_len c ≡ some (base, sorted)
      → All IsReady (map (load_seg now) sorted) × Tiles base total (map (load_seg now) sorted)
  unfolding usable
  usable-Tiles now total file_len c base sorted e =
      let found = sort_by by_start (filter is_nonempty c.segs) in
      let Pair = Path (Option (ℕ × List CtrlSeg)) in
      elim (Bool-cases (not (c.total == total && all_of (is_in_file file_len) c.segs))) [
        | inl e1 ↦
            let never : Pair none (some (base, sorted)) = (rw (usable, e1) at e) in
            absurd (cc never)
        | inr e1 ↦
            elim (Bool-cases (no_segs found || not (tiled_from total (min c.base total) found))) [
              | inl e2 ↦
                  let never : Pair none (some (base, sorted)) = (rw (usable, e1, e2) at e) in
                  absurd (cc never)
              | inr e2 ↦
                  let same : Pair (some (min c.base total, found)) (some (base, sorted)) =
                    (rw (usable, e1, e2) at e) in
                  let both = some-injective _ _ same in
                  let tiled : tiled_from total (min c.base total) found ≡ true = ground arith in
                  let r = tiled_from-Tiles now total (min c.base total) found tiled in
                  subst
                    (λ p.
                      All IsReady (map (load_seg now) p.1)
                      × Tiles p.0 total (map (load_seg now) p.1))
                    both (r.1, r.2)
            ]
      ]

  -- Whatever the control file holds, and whatever the length of the file is.
  pub bootstrap-IsStart :
      (now file_len : ℕ) (disk : D) (total : ℕ) (opts : SplitOptions) (desired_workers : ℕ)
      (ctrl : Option CtrlFile)
      → total * (max opts.connections 1 * 2) < 2 ^ 64
      → (file_len ≤ total) ⊎ ((f.set_len total disk).1 ≡ true)
      → (w : Writer D) × (bootstrap f now file_len disk total opts desired_workers ctrl ≡ some w)
        × IsStart total w
  unfolding bootstrap
  bootstrap-IsStart now file_len disk total opts desired_workers ctrl small ok =
      let fresh = start_fresh-IsStart now file_len disk total opts desired_workers small ok in
      elim (Option-cases (load_ctrl ctrl)) [
        | inl e ↦ (fresh.0, rw (bootstrap, e) fresh.1, fresh.2)
        | inr (c, e) ↦ elim (Option-cases (usable total file_len c)) [
          | inl e2 ↦ (fresh.0, rw (bootstrap, e, e2) fresh.1, fresh.2)
          | inr ((base, sorted), e2) ↦
              let segs = map (load_seg now) sorted in
              let both = usable-Tiles now total file_len c base sorted e2 in
              (
                start_with now disk total opts desired_workers base segs,
                rw (bootstrap, e, e2) refl,
                start_with-IsStart now disk total opts desired_workers base segs both.0 both.1,
              )
        ]
      ]
