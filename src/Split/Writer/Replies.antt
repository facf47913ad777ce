-- ===== src/Split/Writer/Replies.antt =====
-- crates/xfer-http/src/split.rs: the steps of which adaptive scheduling and the messages consist.
use xfer_rust.Common.{
  ℕ, ◌+◌, ◌-◌, ◌≤◌, inl, inr, arith, false, List, [], ◌∷◌, ltb, take, get_elem?, Bool-cases,
  Option-cases, All,
}
use xfer_rust.Common.Bytes.{Bytes}
use xfer_rust.Split.Writer.{DataFile, Writer, effective_min_split}
use xfer_rust.Split.Writer.Dispatch.{saturating_twice, passes, handoff, reclaim_stalled}
use xfer_rust.Split.Writer.Messages.{
  AdaptiveAction, maintain, grow, shrink, retire_conn, spawn, is_eligible, clamp, is_on,
  find_largest_active_seg, shrink_at, shrink_seg, spawn_target, spawn_more, apply_action,
  apply_adaptive_action, ToWriter, write_data, next, fatal_error, save_ctrl, adaptive_action,
  worker_joined, handle, handle_all, spawn_count, writer_loop,
}
use xfer_rust.Split.Writer.Steps.{Reach, here, Reach-Step, Reach-trans, if-Reach, tune, cut, fail}
use xfer_rust.Split.Writer.Sound.{IsSound}
use xfer_rust.Split.Writer.Invariant.{Reach-IsSound}
use xfer_rust.Split.Writer.Moves.{
  on_write-Reach, handoff-Reach, spare-Reach, reclaim_stalled-Reach, watchdog_requeue_stalled-Reach,
}
use xfer_rust.Split.Writer.Assign.{next_work-Reach}

clamp-range : (n low high : ℕ) → clamp n low high ≤ high
clamp-range n low high = omega arith

-- What a message brings may be written.
abbrev pub IsAllowed : (ℕ → Bytes → Type 0) → ToWriter → Type 0
IsAllowed Allowed (write_data sid offset bytes) = (n : ℕ) → Allowed offset (take n bytes)
IsAllowed Allowed _ = Unit

module _ {D : Type 0} (f : DataFile D) (Allowed : ℕ → Bytes → Type 0) where
  abbrev Leads : Writer D → Writer D → Type 0
  Leads = Reach f Allowed

  shrink_at-Reach :
      (now sid reclaim_bytes : ℕ) (w : Writer D)
      → IsSound D w
      → Leads w (shrink_at now sid reclaim_bytes w)
  unfolding shrink_at
  shrink_at-Reach now sid reclaim_bytes w h =
      let floor = effective_min_split w in
      elim (Option-cases (get_elem? w.segs sid)) [
        | inl e ↦ rw (shrink_at, e) here
        | inr (s, at) ↦
            let left = s.end - (s.start + s.written) in
            let give = clamp reclaim_bytes floor (left - floor) in
            let fits = (h.fits sid s at).within in
            let bound = clamp-range reclaim_bytes floor (left - floor) in
            elim (Bool-cases (ltb left (saturating_twice floor))) [
              | inl e ↦ rw (shrink_at, at, e) here
              | inr e ↦
                  rw (shrink_at, at, e)
                    (Reach-Step f Allowed
                      (cut w now sid s (s.end - give) at (omega arith) (omega arith)))
            ]
      ]

  shrink_seg-Reach :
      (now preferred reclaim_bytes : ℕ) (w : Writer D)
      → IsSound D w
      → Leads w (shrink_seg now preferred reclaim_bytes w)
  unfolding shrink_seg
  shrink_seg-Reach now preferred reclaim_bytes w h =
      let ok = is_eligible (effective_min_split w) in
      elim (Bool-cases (passes ok (get_elem? w.segs preferred))) [
        | inl e ↦ rw (shrink_seg, e) (shrink_at-Reach now preferred reclaim_bytes w h)
        | inr e ↦ elim (Option-cases (find_largest_active_seg w)) [
          | inl e2 ↦ rw (shrink_seg, e, e2) here
          | inr (i, e2) ↦ elim (Bool-cases (passes ok (get_elem? w.segs i))) [
            | inl e3 ↦ rw (shrink_seg, e, e2, e3) (shrink_at-Reach now i reclaim_bytes w h)
            | inr e3 ↦ rw (shrink_seg, e, e2, e3) here
          ]
        ]
      ]

  apply_action-Reach :
      (now : ℕ) (action : AdaptiveAction) (w : Writer D)
      → IsSound D w
      → Leads w (apply_action now action w)
  unfolding apply_action spawn_more
  apply_action-Reach now maintain w h = here
  apply_action-Reach now (grow extra_bytes) w h = here
  apply_action-Reach now (shrink conn_id reclaim_bytes) w h =
      shrink_seg-Reach now conn_id reclaim_bytes w h
  apply_action-Reach now (retire_conn conn_id) w h =
      spare-Reach f Allowed (handoff now conn_id false false w)
        (handoff-Reach f Allowed now conn_id false false w)
  apply_action-Reach now spawn w h =
      if-Reach f Allowed {x = record w { desired_workers = spawn_target w }}
        (ltb w.alive (spawn_target w))
        (λ e. Reach-Step f Allowed (tune w w.alive (spawn_target w) w.last_progress)) (λ e. here)

  pub handle-Reach :
      (now : ℕ) (message : ToWriter) (w : Writer D)
      → IsAllowed Allowed message
      → IsSound D w
      → Leads w (handle f now message w)
  unfolding handle apply_adaptive_action
  handle-Reach now (write_data sid offset bytes) w a h =
      on_write-Reach f Allowed now sid offset bytes w a
  handle-Reach now (next held failures) w a h = next_work-Reach f Allowed now held failures w h
  handle-Reach now fatal_error w a h = Reach-Step f Allowed (fail w w.disk)
  handle-Reach now save_ctrl w a h =
      Reach-trans f Allowed (reclaim_stalled-Reach f Allowed now w)
        (watchdog_requeue_stalled-Reach f Allowed now (reclaim_stalled now w))
  handle-Reach now (adaptive_action action) w a h =
      if-Reach f Allowed (is_on w.opts.adaptive) (λ e. apply_action-Reach now action w h)
        (λ e. here)
  handle-Reach now worker_joined w a h =
      Reach-Step f Allowed (tune w (w.alive + 1) w.desired_workers w.last_progress)

  handle_all-Reach :
      (messages : List (ℕ × ToWriter)) (w : Writer D)
      → All (λ m. IsAllowed Allowed m.1) messages
      → IsSound D w
      → Leads w (handle_all f messages w)
  unfolding handle_all
  handle_all-Reach [] w a h = here
  handle_all-Reach ((now, m) ∷ rest) w a h =
      let once = handle-Reach now m w a.0 h in
      Reach-trans f Allowed once
        (handle_all-Reach rest (handle f now m w) a.1 (Reach-IsSound f Allowed once h))

  pub writer_loop-Reach :
      (messages : List (ℕ × ToWriter)) (w : Writer D)
      → All (λ m. IsAllowed Allowed m.1) messages
      → IsSound D w
      → Leads w (writer_loop f messages w)
  unfolding writer_loop
  writer_loop-Reach messages w a h =
      let begun = Reach-Step f Allowed (tune w (spawn_count w) w.desired_workers w.last_progress) in
      Reach-trans f Allowed begun (
        handle_all-Reach messages (record w { alive = spawn_count w }) a
          (Reach-IsSound f Allowed begun h))
