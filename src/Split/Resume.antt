-- ===== src/Split/Resume.antt =====
-- crates/xfer-http/src/split.rs: the control file, the state in which the thread starts, and the prefix of the
-- file that is kept when a server turns out not to serve ranges.
-- The text of the control file is JSON; the model starts from the value that it is read as. The file is open,
-- and `file_len` is its length. Where a length is changed and that fails, there is no state.
pub mod Tiling
pub mod Start
pub mod RoundTrip
pub mod Prefix
use mathlib.Core.List.{map}
use xfer_rust.Common.{
  ℕ, zero, suc, ◌+◌, ◌-◌, ◌*◌, ◌/◌, ◌%◌, ◌^◌, min, max, Bool, true, false, not, ◌&&◌, ◌||◌, Option,
  none, some, List, [], ◌∷◌, ltb, leb, ◌==◌, if◌then◌else◌,
}
use xfer_rust.Common.Indexed.{sum_of, filter, all_of}
use xfer_rust.Common.Sort.{sort_by}
use xfer_rust.Split.Writer.{DataFile, Seg, SplitOptions, Writer, remaining, new_seg}

pub record CtrlSeg : Type 0 where
  pub s : ℕ
  pub w : ℕ
  pub e : ℕ

-- The address of the resource is left out.
pub record CtrlFile : Type 0 where
  pub v : ℕ
  pub total : ℕ
  pub base : ℕ
  pub segs : List CtrlSeg

unfoldable pub load_ctrl : Option CtrlFile → Option CtrlFile
load_ctrl none = none
load_ctrl (some c) = if c.v == 1 then some c else none

-- What the segment says is written can be in a file of the length.
unfoldable pub is_in_file : ℕ → CtrlSeg → Bool
is_in_file file_len c = c.w == 0 || leb ((c.s + c.w) % 2 ^ 64) file_len

abbrev pub is_nonempty : CtrlSeg → Bool
is_nonempty c = ltb c.s c.e

abbrev pub by_start : CtrlSeg → CtrlSeg → Bool
by_start a b = leb a.s b.s

-- The segments follow on each other from `cursor` to `total`.
unfoldable pub tiled_from : ℕ → ℕ → List CtrlSeg → Bool
tiled_from total cursor [] = cursor == total
tiled_from total cursor (c ∷ cs) =
    let rest = tiled_from total c.e cs in if not (c.s == cursor) || leb c.e c.s then false else rest

abbrev pub no_segs : List CtrlSeg → Bool
no_segs [] = true
no_segs (c ∷ cs) = false

-- The base and the segments of a control file that fits the resource and the file.
unfoldable pub usable : ℕ → ℕ → CtrlFile → Option (ℕ × List CtrlSeg)
usable total file_len c =
    let sorted = sort_by by_start (filter is_nonempty c.segs) in
    if not (c.total == total && all_of (is_in_file file_len) c.segs)
    then none
    else if no_segs sorted || not (tiled_from total (min c.base total) sorted)
    then none
    else some (min c.base total, sorted)

unfoldable pub load_seg : ℕ → CtrlSeg → Seg
load_seg now c =
    let written = min c.w (c.e - c.s) in
    let done = leb (c.e - c.s) written in
    record {
      start = c.s;
      end = c.e;
      written = written;
      done = done;
      queued = not done;
      holders = 0;
      last_progress = now;
    }

unfoldable pub div_ceil : ℕ → ℕ → ℕ
div_ceil a b = a / b + (if a % b == 0 then 0 else 1)

unfoldable pub segment_count : ℕ → SplitOptions → ℕ
segment_count remain opts =
    let workers = max opts.connections 1 in
    let by_min = max (div_ceil remain opts.min_split_size) 1 in
    min (max by_min 1) (workers * 2 % 2 ^ 64)

-- Segments `i` and those that follow, `n` of them, of the `nseg` into which the rest of the file is cut.
unfoldable pub cut_from : ℕ → ℕ → ℕ → ℕ → ℕ → ℕ → ℕ → List Seg
cut_from now base remain nseg prev i zero = []
cut_from now base remain nseg prev i (suc n) =
    let end = base + (remain * i % 2 ^ 64) / nseg in
    new_seg now prev end ∷ cut_from now base remain nseg end (suc i) n

unfoldable pub fresh_segs : ℕ → ℕ → ℕ → SplitOptions → List Seg
fresh_segs now base remain opts =
    let nseg = segment_count remain opts in
    if ltb 0 remain then cut_from now base remain nseg base 1 nseg else []

unfoldable pub queued_from : ℕ → List Seg → List ℕ
queued_from i [] = []
queued_from i (s ∷ segs) =
    let rest = queued_from (suc i) segs in if s.queued && not s.done then i ∷ rest else rest

unfoldable pub ctrl_seg : Seg → CtrlSeg
ctrl_seg s = record { s = s.start; w = s.written; e = s.end }

abbrev pub has_bytes : Seg → Bool
has_bytes s = ltb s.start s.end

-- How far the segments are written without a gap, from `cur` on.
unfoldable pub prefix_from : ℕ → List Seg → ℕ
prefix_from cur [] = cur
prefix_from cur (seg ∷ segs) =
    let reach = seg.start + seg.written in
    let next = if ltb cur reach then reach else cur in
    let rest = prefix_from next segs in
    if ltb cur seg.start then cur else if ltb reach seg.end then next else rest

abbrev pub seg_by_start : Seg → Seg → Bool
seg_by_start a b = leb a.start b.start

module _ {D : Type 0} where
  unfoldable pub contiguous_prefix : Writer D → ℕ
  contiguous_prefix w = prefix_from w.base (sort_by seg_by_start w.segs)

  unfoldable pub rebuild_queue : Writer D → Writer D
  rebuild_queue w = record w { queue = queued_from 0 w.segs }

  -- The state with these segments.
  unfoldable pub start_with : ℕ → D → ℕ → SplitOptions → ℕ → ℕ → List Seg → Writer D
  start_with now disk total opts desired_workers base segs =
      let todo = sum_of remaining segs in
      rebuild_queue (record {
        disk = disk;
        total = total;
        base = base;
        segs = segs;
        queue = [];
        todo = todo;
        alive = 0;
        fatal = false;
        finished = todo == 0;
        completed = base + (total - base - todo);
        opts = opts;
        desired_workers = desired_workers;
        last_progress = now;
      })

  unfoldable pub serialize_ctrl : Writer D → CtrlFile
  serialize_ctrl w = record {
    v = 1;
    total = w.total;
    base = w.base;
    segs = map ctrl_seg (filter has_bytes w.segs);
  }

module _ {D : Type 0} (f : DataFile D) where
  -- Without a control file that can be used, what the file holds is taken for the front of the resource.
  unfoldable pub start_fresh : ℕ → ℕ → D → ℕ → SplitOptions → ℕ → Option (Writer D)
  start_fresh now file_len disk total opts desired_workers =
      let base = min file_len total in
      let segs = fresh_segs now base (total - base) opts in
      let r = f.set_len total disk in
      if ltb total file_len
      then if r.1 then some (start_with now r.0 total opts desired_workers base segs) else none
      else some (start_with now disk total opts desired_workers base segs)

  unfoldable pub bootstrap : ℕ → ℕ → D → ℕ → SplitOptions → ℕ → Option CtrlFile → Option (Writer D)
  bootstrap now file_len disk total opts desired_workers ctrl =
      let fresh = start_fresh now file_len disk total opts desired_workers in
      elim (load_ctrl ctrl) [
        | none ↦ fresh
        | some c ↦ elim (usable total file_len c) [
          | none ↦ fresh
          | some (base, sorted) ↦
              some (start_with now disk total opts desired_workers base (map (load_seg now) sorted))
        ]
      ]
