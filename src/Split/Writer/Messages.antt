-- ===== src/Split/Writer/Messages.antt =====
-- crates/xfer-http/src/split.rs: the actions of adaptive scheduling, and the messages to the thread.
use xfer_rust.Common.{
  ℕ, ◌+◌, ◌-◌, min, max, Bool, true, false, not, ◌&&◌, Option, none, some, List, [], ◌∷◌, ltb, leb,
  if◌then◌else◌, length, get_elem?,
}
use xfer_rust.Common.Bytes.{Bytes}
use xfer_rust.Split.Writer.{
  DataFile, Seg, Writer, remaining, effective_min_split, split_off, set_fatal, on_write,
}
use xfer_rust.Split.Writer.Dispatch.{
  saturating_twice, best_from, passes, handoff, ensure_spare, reclaim_stalled,
  watchdog_requeue_stalled, next_work,
}

-- `ScheduleAction` of adaptive.rs.
pub data AdaptiveAction : Type 0 where
  maintain : AdaptiveAction
  grow : ℕ → AdaptiveAction
  shrink : ℕ → ℕ → AdaptiveAction
  retire_conn : ℕ → AdaptiveAction
  spawn : AdaptiveAction

unfoldable pub is_active : Seg → Bool
is_active s = not s.done && ltb 0 (remaining s)

unfoldable pub is_eligible : ℕ → Seg → Bool
is_eligible floor s = not s.done && leb (saturating_twice floor) (remaining s)

abbrev pub clamp : ℕ → ℕ → ℕ → ℕ
clamp n low high = min (max n low) high

abbrev pub or_connections : Option ℕ → ℕ → ℕ
or_connections none connections = connections
or_connections (some max_connections) connections = max_connections

abbrev pub is_on : Option ℕ → Bool
is_on none = false
is_on (some n) = true

module _ {D : Type 0} where
  unfoldable pub find_largest_active_seg : Writer D → Option ℕ
  find_largest_active_seg w = elim (best_from is_active 0 w.segs none) [
    | none ↦ none
    | some best ↦ some best.1
  ]

  unfoldable pub spawn_count : Writer D → ℕ
  spawn_count w = min (max w.opts.connections 1) (max (length w.segs) 1)

  unfoldable pub shrink_at : ℕ → ℕ → ℕ → Writer D → Writer D
  shrink_at now sid reclaim_bytes w =
      let floor = effective_min_split w in
      elim (get_elem? w.segs sid) [
        | none ↦ w
        | some s ↦
            let left = s.end - (s.start + s.written) in
            if ltb left (saturating_twice floor)
            then w
            else split_off now sid s (s.end - clamp reclaim_bytes floor (left - floor)) w
      ]

  unfoldable pub shrink_seg : ℕ → ℕ → ℕ → Writer D → Writer D
  shrink_seg now preferred reclaim_bytes w =
      let ok = is_eligible (effective_min_split w) in
      if passes ok (get_elem? w.segs preferred)
      then shrink_at now preferred reclaim_bytes w
      else elim (find_largest_active_seg w) [
        | none ↦ w
        | some i ↦ if passes ok (get_elem? w.segs i) then shrink_at now i reclaim_bytes w else w
      ]

  unfoldable pub spawn_target : Writer D → ℕ
  spawn_target w =
      let cap =
        min (max (or_connections w.opts.adaptive w.opts.connections) 1)
          (max (saturating_twice (length w.segs)) 1) in
      max (min cap (max (saturating_twice w.alive) (w.alive + 1))) w.alive

  unfoldable pub spawn_more : Writer D → Writer D
  spawn_more w =
      if ltb w.alive (spawn_target w) then record w { desired_workers = spawn_target w } else w

  unfoldable pub apply_action : ℕ → AdaptiveAction → Writer D → Writer D
  apply_action now maintain w = w
  apply_action now (grow extra_bytes) w = w
  apply_action now (shrink conn_id reclaim_bytes) w = shrink_seg now conn_id reclaim_bytes w
  apply_action now (retire_conn conn_id) w =
      let r = handoff now conn_id false false w in if r.1 then ensure_spare r.0 else r.0
  apply_action now spawn w = spawn_more w

  unfoldable pub apply_adaptive_action : ℕ → AdaptiveAction → Writer D → Writer D
  apply_adaptive_action now action w =
      if is_on w.opts.adaptive then apply_action now action w else w

-- `Finish` ends the loop, and is not among these.
pub data ToWriter : Type 0 where
  write_data : ℕ → ℕ → Bytes → ToWriter
  next : Option ℕ → ℕ → ToWriter
  fatal_error : ToWriter
  save_ctrl : ToWriter
  adaptive_action : AdaptiveAction → ToWriter
  worker_joined : ToWriter

module _ {D : Type 0} (f : DataFile D) where
  -- What a message does to the state; the reply to a request for work is the second part of `next_work`, and
  -- what a heartbeat (`save_ctrl`) hands on for the control file is `serialize_ctrl` of the state after it.
  unfoldable pub handle : ℕ → ToWriter → Writer D → Writer D
  handle now (write_data sid offset bytes) w = on_write f now sid offset bytes w
  handle now (next held failures) w = (next_work now held failures w).0
  handle now fatal_error w = set_fatal w
  handle now save_ctrl w = watchdog_requeue_stalled now (reclaim_stalled now w)
  handle now (adaptive_action action) w = apply_adaptive_action now action w
  handle now worker_joined w = record w { alive = w.alive + 1 }

  -- Messages with their times.
  unfoldable pub handle_all : List (ℕ × ToWriter) → Writer D → Writer D
  handle_all [] w = w
  handle_all ((now, message) ∷ rest) w = handle_all rest (handle now message w)

  unfoldable pub writer_loop : List (ℕ × ToWriter) → Writer D → Writer D
  writer_loop messages w = handle_all messages (record w { alive = spawn_count w })
