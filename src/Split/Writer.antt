-- ===== src/Split/Writer.antt =====
-- crates/xfer-http/src/split.rs, the thread that assigns segments to workers and writes what they bring.
-- The data file is a type D with the write at an offset and the change of length, which say whether they
-- succeeded and may change the file where they did not. Times are milliseconds, an argument of each operation. `end_shared`, by which
-- a worker reads the end of its segment, is set with every change of `end` and is that field here; the
-- error that is kept is left out, and that there is one is `fatal`.
pub mod Dispatch
pub mod Messages
pub mod Steps
pub mod Sound
pub mod Invariant
pub mod Moves
pub mod Assign
pub mod Replies
pub mod Kept
pub mod Content
pub mod Outcome
pub mod Idle
pub mod Progress
use xfer_rust.Common.{
  ℕ, suc, ◌+◌, ◌-◌, ◌*◌, ◌/◌, min, max, Bool, true, false, not, ◌&&◌, ◌||◌, Option, none, some,
  List, [], ◌∷◌, ◌++◌, ltb, leb, ◌==◌, if◌then◌else◌, length, take, get_elem?, set,
}
use xfer_rust.Common.Bytes.{Bytes}

abbrev pub endgame_threshold : ℕ
endgame_threshold = 64 * 1024 * 1024

abbrev pub endgame_min_split : ℕ
endgame_min_split = 64 * 1024

pub record DataFile (D : Type 0) : Type 0 where
  pub write_at : ℕ → Bytes → D → D × Bool
  pub set_len : ℕ → D → D × Bool

pub record Seg : Type 0 where
  pub start : ℕ
  pub end : ℕ
  pub written : ℕ
  pub done : Bool
  pub queued : Bool
  pub holders : ℕ
  pub last_progress : ℕ

-- The options that the thread reads; the last is the upper bound of adaptive scheduling, if that is on.
pub record SplitOptions : Type 0 where
  pub connections : ℕ
  pub min_split_size : ℕ
  pub adaptive : Option ℕ

pub record Writer (D : Type 0) : Type 0 where
  pub disk : D
  pub total : ℕ
  pub base : ℕ
  pub segs : List Seg
  pub queue : List ℕ
  pub todo : ℕ
  pub alive : ℕ
  pub fatal : Bool
  pub finished : Bool
  pub completed : ℕ
  pub opts : SplitOptions
  pub desired_workers : ℕ
  pub last_progress : ℕ

abbrev pub remaining : Seg → ℕ
remaining s = s.end - s.start - s.written

unfoldable pub new_seg : ℕ → ℕ → ℕ → Seg
new_seg now start end = record {
  start = start;
  end = end;
  written = 0;
  done = false;
  queued = true;
  holders = 0;
  last_progress = now;
}

module _ {D : Type 0} where
  unfoldable pub set_fatal : Writer D → Writer D
  set_fatal w = record w { fatal = true }

  unfoldable pub effective_min_split : Writer D → ℕ
  effective_min_split w =
      if leb w.todo endgame_threshold
      then min w.opts.min_split_size endgame_min_split
      else w.opts.min_split_size

  -- The segment `sid`, which is `s`, ends at `cut`; the rest is a new segment, at the end of the queue.
  unfoldable pub split_off : ℕ → ℕ → Seg → ℕ → Writer D → Writer D
  split_off now sid s cut w = record w {
    segs = set w.segs sid (record s { end = cut }) ++ new_seg now cut s.end ∷ [];
    queue = w.queue ++ length w.segs ∷ [];
  }

module _ {D : Type 0} (f : DataFile D) where
  -- `n` bytes at the mark of the segment `sid` are on disk.
  unfoldable pub put_bytes : ℕ → ℕ → Seg → ℕ → ℕ → D → Writer D → Writer D
  put_bytes now sid s offset n disk w =
      let written = offset + n - s.start in
      record w {
        disk = disk;
        segs = set w.segs sid (record s {
          written = written;
          done = s.done || written == s.end - s.start;
          last_progress = now;
        });
        todo = w.todo - n;
        completed = w.completed + n;
        finished = w.finished || w.todo - n == 0;
        last_progress = now;
      }

  -- Only the bytes that follow on the mark are written, up to the end of the segment.
  unfoldable pub write_seg : ℕ → ℕ → Seg → ℕ → Bytes → Writer D → Writer D
  write_seg now sid s offset bytes w =
      let n = min (s.end - offset) (length bytes) in
      let r = f.write_at offset (take n bytes) w.disk in
      if ltb offset s.start || leb s.end offset || not (offset - s.start == s.written)
      then w
      else if n == 0
      then w
      else if r.1
      then put_bytes now sid s offset n r.0 w
      else set_fatal (record w { disk = r.0 })

  unfoldable pub on_write : ℕ → ℕ → ℕ → Bytes → Writer D → Writer D
  on_write now sid offset bytes w =
      if w.fatal
      then w
      else elim (get_elem? w.segs sid) [ none ↦ w | some s ↦ write_seg now sid s offset bytes w ]
