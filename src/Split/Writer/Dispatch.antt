-- ===== src/Split/Writer/Dispatch.antt =====
-- crates/xfer-http/src/split.rs: how the thread finds work for a worker that asks for it, and takes segments
-- from connections that make no progress.
use xfer_rust.Common.{
  ℕ, zero, suc, ◌+◌, ◌-◌, ◌*◌, ◌/◌, ◌^◌, min, max, Bool, true, false, not, ◌&&◌, ◌||◌, Option, none,
  some, List, [], ◌∷◌, ◌++◌, ltb, leb, ◌==◌, if◌then◌else◌, length, get_elem?, set,
}
use xfer_rust.Split.Writer.{Seg, Writer, remaining, effective_min_split, split_off}

-- Milliseconds.
abbrev pub seg_lease : ℕ
seg_lease = 4000

abbrev pub stall_timeout : ℕ
stall_timeout = 15000

abbrev pub handoff_whole_max : ℕ
handoff_whole_max = 4 * 1024 * 1024

abbrev pub handoff_min : ℕ
handoff_min = 32 * 1024

abbrev pub park_ms : ℕ
park_ms = 250

pub data Assignment : Type 0 where
  work : ℕ → ℕ → ℕ → Assignment
  park : ℕ → Assignment
  retire all_done : Assignment

-- The segment with most left among those that pass a test, the first one of several.
abbrev pub better : (Seg → Bool) → ℕ → Seg → Option (ℕ × ℕ) → Option (ℕ × ℕ)
better ok i s none = if ok s then some (remaining s, i) else none
better ok i s (some best) =
    if ok s && ltb best.0 (remaining s) then some (remaining s, i) else some best

unfoldable pub best_from : (Seg → Bool) → ℕ → List Seg → Option (ℕ × ℕ) → Option (ℕ × ℕ)
best_from ok i [] best = best
best_from ok i (s ∷ segs) best = best_from ok (suc i) segs (better ok i s best)

abbrev pub saturating_twice : ℕ → ℕ
saturating_twice n = min (n * 2) (2 ^ 64 - 1)

unfoldable pub can_steal : ℕ → Seg → Bool
can_steal floor s = not (s.done || s.queued) && leb floor (remaining s)

unfoldable pub is_stalled : ℕ → Seg → Bool
is_stalled now s =
    not s.done
    && (not s.queued
        && (ltb 0 s.holders
            && (ltb s.written (s.end - s.start) && leb seg_lease (now - s.last_progress))))

unfoldable pub is_stranded : Seg → Bool
is_stranded s = not s.done && (not s.queued && ltb s.written (s.end - s.start))

unfoldable pub steal_mid : Seg → ℕ
steal_mid s = s.start + s.written + (s.end - (s.start + s.written)) / 2

unfoldable pub handoff_cut : Bool → Seg → ℕ
handoff_cut whole s =
    let pos = s.start + s.written in
    if whole || leb (s.end - pos) handoff_whole_max then pos else pos + (s.end - pos) / 2

-- A worker takes the segment `sid`, which is `s`.
unfoldable pub take_on : ℕ → Seg → Seg
take_on now s = record s { queued = false; holders = s.holders + 1; last_progress = now }

abbrev pub passes : (Seg → Bool) → Option Seg → Bool
passes ok none = false
passes ok (some s) = ok s

abbrev pub assign : ℕ → Seg → Assignment
assign sid s = work sid (s.start + s.written) s.end

module _ {D : Type 0} where
  -- The new segment has the number that follows on the others.
  unfoldable pub try_steal : ℕ → Writer D → Option (ℕ × Writer D)
  try_steal now w =
      elim (best_from (can_steal (saturating_twice (effective_min_split w))) 0 w.segs none) [
        | none ↦ none
        | some best ↦ elim (get_elem? w.segs best.1) [
          | none ↦ none
          | some s ↦ some (length w.segs, split_off now best.1 s (steal_mid s) w)
        ]
      ]

  -- A segment that is cut at its mark has nothing left.
  unfoldable pub hand_over : ℕ → ℕ → Seg → ℕ → Writer D → Writer D
  hand_over now sid s cut w =
      let w1 = split_off now sid s cut w in
      record w1 {
        segs = set w1.segs sid (record s {
          end = cut;
          done = s.done || cut == s.start + s.written;
          last_progress = now;
        });
      }

  unfoldable pub handoff : ℕ → ℕ → Bool → Bool → Writer D → Writer D × Bool
  handoff now sid whole force w = elim (get_elem? w.segs sid) [
    | none ↦ (w, false)
    | some s ↦
        if leb s.end (s.start + s.written)
          || (ltb (s.end - (s.start + s.written)) handoff_min && not force)
        then (w, false)
        else (hand_over now sid s (handoff_cut whole s) w, true)
  ]

  unfoldable pub ensure_spare : Writer D → Writer D
  ensure_spare w =
      let want = min (w.alive + 1) (max w.opts.connections 1) in
      if ltb w.desired_workers want then record w { desired_workers = want } else w

  -- The segments from `i` on, `n` of them: those that pass the test are handed over; whether one was.
  unfoldable pub handoff_loop : ℕ → (Seg → Bool) → Bool → Bool → ℕ → ℕ → Writer D → Writer D × Bool
  handoff_loop now ok whole force i zero w = (w, false)
  handoff_loop now ok whole force i (suc n) w =
      let r = if passes ok (get_elem? w.segs i) then handoff now i whole force w else (w, false) in
      let rest = handoff_loop now ok whole force (suc i) n r.0 in (rest.0, r.1 || rest.1)

  unfoldable pub reclaim_stalled : ℕ → Writer D → Writer D
  reclaim_stalled now w =
      let r = handoff_loop now (is_stalled now) false false 0 (length w.segs) w in
      if w.finished || (w.fatal || w.todo == 0) then w else if r.1 then ensure_spare r.0 else r.0

  unfoldable pub watchdog_requeue_stalled : ℕ → Writer D → Writer D
  watchdog_requeue_stalled now w =
      let r = handoff_loop now is_stranded true true 0 (length w.segs) w in
      let w1 = if r.1 then ensure_spare r.0 else r.0 in
      if w.finished || (w.fatal || w.todo == 0)
      then w
      else if ltb (now - w.last_progress) stall_timeout
      then w
      else record w1 { last_progress = now }

  -- A segment that is not finished, not queued and that nobody holds any more goes back to the queue.
  unfoldable pub release_seg : ℕ → Seg → Writer D → Writer D
  release_seg sid s w =
      let holders = s.holders - 1 in
      if not s.done && (ltb s.written (s.end - s.start) && (not s.queued && holders == 0))
      then record w {
        segs = set w.segs sid (record s { holders = holders; queued = true });
        queue = w.queue ++ sid ∷ [];
      }
      else record w { segs = set w.segs sid (record s { holders = holders }) }

  unfoldable pub release_held : Option ℕ → Writer D → Writer D
  release_held none w = w
  release_held (some sid) w = elim (get_elem? w.segs sid) [
    | none ↦ w
    | some s ↦ release_seg sid s w
  ]

  -- The front of the queue that is not done is taken.
  unfoldable pub pop_loop : ℕ → List ℕ → Writer D → Writer D × Option Assignment
  pop_loop now [] w = (record w { queue = [] }, none)
  pop_loop now (sid ∷ queue) w =
      let rest = pop_loop now queue w in
      elim (get_elem? w.segs sid) [
        | none ↦ rest
        | some s ↦ if s.done then rest else (
          record w { queue = queue; segs = set w.segs sid (take_on now s) },
          some (assign sid s),
        )
      ]

  unfoldable pub take_stolen : ℕ → ℕ → Writer D → Writer D × Option Assignment
  take_stolen now sid w = elim (get_elem? w.segs sid) [
    | none ↦ (w, none)
    | some s ↦ (record w { segs = set w.segs sid (take_on now s) }, some (work sid s.start s.end))
  ]

  unfoldable pub retire_one : Writer D → Writer D
  retire_one w = record w { alive = w.alive - 1; desired_workers = w.alive - 1 }

  unfoldable pub idle : ℕ → Writer D → Writer D × Assignment
  idle failures w =
      if leb 2 failures && ltb 1 w.alive
      then (retire_one w, Assignment.retire)
      else (w, park park_ms)

  unfoldable pub steal_work : ℕ → ℕ → Writer D → Writer D × Assignment
  steal_work now failures w = elim (try_steal now w) [
    | none ↦ idle failures w
    | some stolen ↦
        let r = take_stolen now stolen.0 stolen.1 in
        elim r.1 [ none ↦ idle failures r.0 | some a ↦ (r.0, a) ]
  ]

  unfoldable pub find_work : ℕ → ℕ → Writer D → Writer D × Assignment
  find_work now failures w =
      let r = pop_loop now w.queue w in
      elim r.1 [ some a ↦ (r.0, a) | none ↦ steal_work now failures r.0 ]

  unfoldable pub next_work : ℕ → Option ℕ → ℕ → Writer D → Writer D × Assignment
  next_work now held failures w =
      let w1 = release_held held w in
      if w1.fatal || w1.finished
      then (record w1 { desired_workers = 0 }, all_done)
      else find_work now failures (reclaim_stalled now w1)
