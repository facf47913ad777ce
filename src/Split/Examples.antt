-- ===== src/Split/Examples.antt =====
-- Tests and witnesses for crates/xfer-http/src/split.rs: a file of six bytes over two connections.
use mathlib.Core.Option
use mathlib.Core.Option.{some-injective}
use xfer_rust.Common.{
  ℕ, ◌+◌, ◌-◌, ◌≤◌, ◌<◌, ◌≡◌, ◌⊎◌, inl, inr, refl, ap, ◌∙◌, zero, suc, arith, true, false, ◌&&◌,
  Option, none, some, List, [], ◌∷◌, ltb, if◌then◌else◌, leb, length, get_elem?, All,
}
use xfer_rust.Common.Bytes.{Bytes}
use xfer_rust.Common.Indexed.{sum_of, Each, All-Each, get_elem?-lt}
use xfer_rust.Split.Writer.{
  DataFile, Seg, SplitOptions, Writer, new_seg, on_write, write_seg, put_bytes, effective_min_split,
  split_off,
}
use xfer_rust.Split.Writer.Dispatch.{
  work, next_work, release_held, find_work, pop_loop, reclaim_stalled, handoff_loop, is_stalled,
  take_on, best_from, can_steal, ensure_spare, handoff, try_steal, steal_work, take_stolen,
  steal_mid, idle,
}
use xfer_rust.Split.Writer.Messages.{
  ToWriter, write_data, next, handle_all, handle, spawn_count, writer_loop,
}
use xfer_rust.Split.Writer.Sound.{IsSound}
use xfer_rust.Split.Writer.Content.{IsDataFile, AreOf, HasContent}
use xfer_rust.Split.Writer.Outcome.{
  BringsOf, writer_loop-IsSound, writer_loop-IsKept, writer_loop_complete,
}
use xfer_rust.Split.Writer.Idle.{is_sent_away, next_work-held}
use xfer_rust.Split.Writer.Progress.{Takes, on_write-Takes}
use xfer_rust.Split.Resume.{
  CtrlFile, start_with, serialize_ctrl, bootstrap, contiguous_prefix, fresh_segs, start_fresh,
  segment_count, div_ceil, cut_from, rebuild_queue, queued_from, load_ctrl, usable, is_in_file,
  tiled_from, prefix_from,
}
use xfer_rust.Split.Resume.Tiling.{IsReady, Tiles}
use xfer_rust.Split.Resume.Start.{IsStart, start_with-IsStart, bootstrap-IsStart}
use xfer_rust.Split.Resume.RoundTrip.{InFile, WrittenAre, bootstrap-serialize_ctrl}

abbrev Disk : Type 0
Disk = ℕ → Option ℕ

abbrev memory : DataFile Disk
memory = record {
  write_at = λ offset bytes disk. (
    (λ x.
        if leb offset x && ltb x (offset + length bytes)
        then get_elem? bytes (x - offset)
        else disk x),
    true,
  );
  set_len = λ n disk. ((λ x. if ltb x n then disk x else none), true);
}

abbrev stored : Disk → ℕ → Option ℕ
stored disk x = disk x

abbrev resource : ℕ → ℕ
resource x = x + 10

abbrev two_connections : SplitOptions
two_connections = record { connections = 2; min_split_size = 3; adaptive = none }

abbrev halves : List Seg
halves = new_seg 0 0 3 ∷ new_seg 0 3 6 ∷ []

abbrev started : Writer Disk
started = start_with 0 (λ x. none) 6 two_connections 2 0 halves

halves_cut : fresh_segs 0 0 6 two_connections ≡ halves
unfolding fresh_segs segment_count div_ceil cut_from new_seg
halves_cut = refl

memory-IsDataFile : IsDataFile Disk memory stored
memory-IsDataFile = record {
  placed = λ offset bytes disk i b ok at.
      let lt = get_elem?-lt bytes i b at in
      let here : (leb offset (offset + i) && ltb (offset + i) (offset + length bytes)) ≡ true =
        ground arith in
      let same : offset + i - offset ≡ i = omega arith in
      rw here (ap (λ k. get_elem? bytes k) same ∙ at);
  kept = λ offset bytes disk x b ok outside at.
      let away : (leb offset x && ltb x (offset + length bytes)) ≡ false =
        ground (arith, outside) in
      rw away at;
}

halves-IsReady : All IsReady halves
unfolding new_seg
halves-IsReady = (
  (record { within = omega arith; ended = λ e. absurd (cc e) }, λ e. refl),
  ((record { within = omega arith; ended = λ e. absurd (cc e) }, λ e. refl), tt),
)

halves-Tiles : Tiles 0 6 halves
unfolding sum_of new_seg
halves-Tiles x = ground arith

started_lem : IsStart memory 6 started
started_lem =
    start_with-IsStart memory 0 (λ x. none) 6 two_connections 2 0 halves halves-IsReady halves-Tiles

started-content : HasContent memory stored resource started
unfolding start_with rebuild_queue new_seg
started-content ok =
    All-Each
      (λ s. (x : ℕ) → s.start ≤ x → x < s.start + s.written → started.disk x ≡ some (resource x))
      halves ((λ x low high. absurd (omega arith)), ((λ x low high. absurd (omega arith)), tt))

-- Both workers ask for work and bring their bytes; the second of them in two parts.
abbrev traffic : List (ℕ × ToWriter)
traffic =
    (0, next none 0)
    ∷ (1, next none 0)
    ∷ (5, write_data 1 3 (13 ∷ []))
    ∷ (6, write_data 0 0 (10 ∷ 11 ∷ 12 ∷ []))
    ∷ (9, write_data 1 4 (14 ∷ 15 ∷ []))
    ∷ []

AreOf-nil : (offset : ℕ) → AreOf resource offset []
AreOf-nil offset i b at = absurd (cc at)

AreOf-cons :
    (offset b : ℕ) (bytes : Bytes)
    → b ≡ resource offset
    → AreOf resource (offset + 1) bytes
    → AreOf resource offset (b ∷ bytes)
AreOf-cons offset b bytes e h zero c at = let same = some-injective b c at in omega arith
AreOf-cons offset b bytes e h (suc i) c at = let rest = h i c at in omega arith

traffic-brings : All (λ m. BringsOf resource m.1) traffic
traffic-brings = (
  tt,
  (
    tt,
    (
      AreOf-cons 3 13 [] refl (AreOf-nil 4),
      (
        AreOf-cons 0 10 (11 ∷ 12 ∷ []) refl
            (AreOf-cons 1 11 (12 ∷ []) refl (AreOf-cons 2 12 [] refl (AreOf-nil 3))),
        (AreOf-cons 4 14 (15 ∷ []) refl (AreOf-cons 5 15 [] refl (AreOf-nil 6)), tt),
      ),
    ),
  ),
)

abbrev both_asked : List (ℕ × ToWriter)
both_asked = (0, next none 0) ∷ (1, next none 0) ∷ []

writer_loop-IsSound_example :
    IsSound Disk (writer_loop memory traffic started)
    × (((writer_loop memory traffic started).base ≡ started.base)
        × ((writer_loop memory traffic started).total ≡ started.total))
writer_loop-IsSound_example = writer_loop-IsSound memory traffic started started_lem.0

traffic_finishes : (writer_loop memory traffic started).finished ≡ true
unfolding start_with writer_loop handle_all handle on_write next_work release_held rebuild_queue
    sum_of new_seg find_work pop_loop reclaim_stalled handoff_loop is_stalled queued_from take_on
    write_seg put_bytes best_from can_steal ensure_spare handoff spawn_count effective_min_split
    try_steal steal_work idle
traffic_finishes = refl

traffic_is_alive : (writer_loop memory traffic started).fatal ≡ false
unfolding start_with writer_loop handle_all handle on_write next_work release_held rebuild_queue
    sum_of new_seg find_work pop_loop reclaim_stalled handoff_loop is_stalled queued_from take_on
    write_seg put_bytes best_from can_steal ensure_spare handoff spawn_count effective_min_split
    try_steal steal_work idle
traffic_is_alive = refl

writer_loop_complete_example : stored (writer_loop memory traffic started).disk 4 ≡ some 14
unfolding start_with rebuild_queue
writer_loop_complete_example =
    writer_loop_complete memory stored resource traffic started memory-IsDataFile started_lem.0
      started-content traffic-brings traffic_finishes traffic_is_alive 4 (omega arith) (omega arith)

third_waits : is_sent_away (next_work 2 none 0 (writer_loop memory both_asked started)).1 ≡ true
unfolding start_with writer_loop handle_all handle on_write next_work release_held rebuild_queue
    sum_of new_seg find_work pop_loop reclaim_stalled handoff_loop is_stalled queued_from take_on
    write_seg put_bytes best_from can_steal ensure_spare handoff spawn_count effective_min_split
    try_steal steal_work idle
third_waits = refl

next_work-held_example :
    Each
      (λ i s. s.done ≡ false → s.written < s.end - s.start → 0 < s.holders)
      (next_work 2 none 0 (writer_loop memory both_asked started)).0.segs
next_work-held_example =
    next_work-held memory 2 none 0 (writer_loop memory both_asked started)
      (writer_loop-IsSound memory both_asked started started_lem.0).0
      (writer_loop-IsKept memory both_asked started started_lem.0 started_lem.1) third_waits

-- A control file with a gap, and a file that is longer than the resource.
abbrev gap : CtrlFile
gap = record {
  v = 1;
  total = 6;
  base = 0;
  segs = record { s = 0; w = 2; e = 2 } ∷ record { s = 4; w = 0; e = 6 } ∷ [];
}

bootstrap-IsStart_example :
    (w : Writer Disk) × (bootstrap memory 0 8 (λ x. none) 6 two_connections 2 (some gap) ≡ some w)
    × IsStart memory 6 w
bootstrap-IsStart_example =
    bootstrap-IsStart memory 0 8 (λ x. none) 6 two_connections 2 (some gap) (omega arith) (inr refl)

-- What the file holds is the front of the resource, as there is no control file that can be used.
ignores_gap :
    Option.map
      (λ (w : Writer Disk). w.todo)
      (bootstrap memory 0 4 (λ x. none) 6 two_connections 2 (some gap))
    ≡ some 2
unfolding bootstrap load_ctrl usable is_in_file tiled_from start_with rebuild_queue fresh_segs
    segment_count div_ceil cut_from new_seg sum_of start_fresh
ignores_gap = refl

-- The first half has two bytes, the second one.
abbrev some_traffic : List (ℕ × ToWriter)
some_traffic =
    (0, next none 0)
    ∷ (1, next none 0)
    ∷ (5, write_data 1 3 (13 ∷ []))
    ∷ (6, write_data 0 0 (10 ∷ 11 ∷ []))
    ∷ []

abbrev paused : Writer Disk
paused = writer_loop memory some_traffic started

paused_lem : IsSound Disk paused
paused_lem = (writer_loop-IsSound memory some_traffic started started_lem.0).0

paused-room : paused.base < paused.total
unfolding start_with writer_loop handle_all handle on_write next_work release_held rebuild_queue
    sum_of new_seg find_work pop_loop reclaim_stalled handoff_loop is_stalled queued_from take_on
    write_seg put_bytes best_from can_steal ensure_spare handoff spawn_count effective_min_split
    try_steal steal_work idle
paused-room = omega arith

paused-inside : InFile 4 paused.segs
unfolding start_with writer_loop handle_all handle on_write next_work release_held rebuild_queue
    sum_of new_seg find_work pop_loop reclaim_stalled handoff_loop is_stalled queued_from take_on
    write_seg put_bytes best_from can_steal ensure_spare handoff spawn_count effective_min_split
    try_steal steal_work idle
paused-inside =
    All-Each (λ s. (s.written ≡ 0) ⊎ (s.start + s.written ≤ 4)) paused.segs
      (inr (omega arith), (inr (omega arith), tt))

paused-written : WrittenAre (λ x. (x < 2) ⊎ (x ≡ 3)) paused.segs
unfolding start_with writer_loop handle_all handle on_write next_work release_held rebuild_queue
    sum_of new_seg find_work pop_loop reclaim_stalled handoff_loop is_stalled queued_from take_on
    write_seg put_bytes best_from can_steal ensure_spare handoff spawn_count effective_min_split
    try_steal steal_work idle
paused-written =
    All-Each (λ s. (x : ℕ) → s.start ≤ x → x < s.start + s.written → (x < 2) ⊎ (x ≡ 3)) paused.segs
      ((λ x low high. inl (omega arith)), ((λ x low high. inr (omega arith)), tt))

bootstrap-serialize_ctrl_example :
    (v : Writer Disk) × (bootstrap memory 20 4 paused.disk paused.total two_connections 2
        (some (serialize_ctrl paused))
      ≡ some v)
    × (v.base ≡ paused.base)
    × (v.todo ≡ paused.todo)
    × WrittenAre (λ x. (x < 2) ⊎ (x ≡ 3)) v.segs
bootstrap-serialize_ctrl_example =
    bootstrap-serialize_ctrl memory 20 4 two_connections 2 paused (λ x. (x < 2) ⊎ (x ≡ 3))
      paused_lem paused-room paused-inside paused-written

paused-prefix : contiguous_prefix paused ≡ 2
unfolding contiguous_prefix prefix_from start_with writer_loop handle_all handle on_write next_work
    release_held rebuild_queue sum_of new_seg find_work pop_loop reclaim_stalled handoff_loop
    is_stalled queued_from take_on write_seg put_bytes best_from can_steal ensure_spare handoff
    spawn_count effective_min_split try_steal steal_work idle
paused-prefix = refl

-- One segment, which the second worker cuts and takes the rest of; the third worker is given that rest as well.
abbrev one_segment : Writer Disk
one_segment =
    start_with 0 (λ x. none) 6 (record { connections = 3; min_split_size = 1; adaptive = none }) 3 0
      (new_seg 0 0 6 ∷ [])

stolen_twice : (next_work 2 none 0 (writer_loop memory both_asked one_segment)).1 ≡ work 1 3 6
unfolding start_with writer_loop handle_all handle on_write next_work release_held rebuild_queue
    sum_of new_seg find_work pop_loop reclaim_stalled handoff_loop is_stalled queued_from take_on
    write_seg put_bytes best_from can_steal ensure_spare handoff spawn_count effective_min_split
    try_steal steal_work idle take_stolen split_off steal_mid
stolen_twice = refl

second_steals :
    (next_work 1 none 0 (writer_loop memory ((0, next none 0) ∷ []) one_segment)).1 ≡ work 1 3 6
unfolding start_with writer_loop handle_all handle on_write next_work release_held rebuild_queue
    sum_of new_seg find_work pop_loop reclaim_stalled handoff_loop is_stalled queued_from take_on
    write_seg put_bytes best_from can_steal ensure_spare handoff spawn_count effective_min_split
    try_steal steal_work idle take_stolen split_off steal_mid
second_steals = refl

-- The second half is the worker's that asked second, and its mark is at 3.
abbrev asked : Writer Disk
asked = writer_loop memory both_asked started

abbrev second_half : Seg
second_half = record {
  start = 3;
  end = 6;
  written = 0;
  done = false;
  queued = false;
  holders = 1;
  last_progress = 1;
}

asked-second : get_elem? asked.segs 1 ≡ some second_half
unfolding start_with writer_loop handle_all handle next_work release_held rebuild_queue sum_of
    new_seg find_work pop_loop reclaim_stalled handoff_loop is_stalled queued_from take_on
    spawn_count
asked-second = refl

-- Four bytes, of which the segment takes three.
abbrev four_bytes : Bytes
four_bytes = 13 ∷ 14 ∷ 15 ∷ 16 ∷ []

on_write-Takes_example :
    Takes memory 9 1 3 four_bytes asked 1 second_half (on_write memory 9 1 3 four_bytes asked)
on_write-Takes_example =
    on_write-Takes memory 9 1 3 four_bytes asked 1 second_half asked-second
      (writer_loop-IsSound memory both_asked started started_lem.0).0
