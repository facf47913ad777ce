-- ===== src/Split/Writer/Assign.antt =====
-- crates/xfer-http/src/split.rs: the steps of which the answer to a request for work consists.
use xfer_rust.Common.{
  ℕ, ◌+◌, ◌-◌, ◌≤◌, ◌≡◌, inl, inr, refl, sym, ap, ◌∙◌, arith, true, ◌&&◌, ◌||◌, Option, none, some,
  List, [], ◌∷◌, ltb, leb, length, get_elem?, Bool-cases, Option-cases,
}
use mathlib.Core.Path.{subst}
use mathlib.Core.Option.{some-injective}
use xfer_rust.Common.Bytes.{Bytes}
use xfer_rust.Split.Writer.{DataFile, Seg, Writer, effective_min_split, split_off}
use xfer_rust.Split.Writer.Dispatch.{
  best_from, can_steal, saturating_twice, steal_mid, try_steal, release_held, pop_loop, take_stolen,
  retire_one, idle, steal_work, find_work, next_work, reclaim_stalled,
}
use xfer_rust.Split.Writer.Steps.{
  Reach, here, later, Reach-Step, Reach-trans, tune, cut, skip, pop, grab,
}
use xfer_rust.Split.Writer.Sound.{IsSound}
use xfer_rust.Split.Writer.Invariant.{Reach-IsSound}
use xfer_rust.Split.Writer.Moves.{reclaim_stalled-Reach, release_held-Reach}

steal_mid-range :
    (s : Seg)
    → s.start + s.written ≤ s.end
    → (s.start + s.written ≤ steal_mid s) × (steal_mid s ≤ s.end)
unfolding steal_mid
steal_mid-range s h = ground arith

module _ {D : Type 0} (f : DataFile D) (Allowed : ℕ → Bytes → Type 0) where
  abbrev Leads : Writer D → Writer D → Type 0
  Leads = Reach f Allowed

  pop_loop-Reach :
      (now : ℕ) (queue : List ℕ) (w : Writer D)
      → Leads (record w { queue = queue }) (pop_loop now queue w).0
  unfolding pop_loop
  pop_loop-Reach now [] w = here
  pop_loop-Reach now (sid ∷ queue) w =
      let from = record w { queue = sid ∷ queue } in
      let past : ((s : Seg) → get_elem? w.segs sid ≡ some s → s.done ≡ true)
          → Leads from (pop_loop now queue w).0 =
        λ gone.
          Reach-trans f Allowed (Reach-Step f Allowed (skip from sid queue refl gone))
            (pop_loop-Reach now queue w) in
      elim (Option-cases (get_elem? w.segs sid)) [
        | inl e ↦ rw (pop_loop, e) (past λ s at. absurd (cc (e, at)))
        | inr (s, at) ↦ elim (Bool-cases s.done) [
          | inl e ↦
              simp (pop_loop, at, e)
                (past λ v there. ap Seg.done (some-injective v s (sym there ∙ at)) ∙ e)
          | inr e ↦ simp (pop_loop, at, e) (Reach-Step f Allowed (pop from now sid queue s refl at))
        ]
      ]

  try_steal-Reach :
      (now : ℕ) (w : Writer D) (sid : ℕ) (v : Writer D)
      → IsSound D w
      → try_steal now w ≡ some (sid, v)
      → Leads w v
  unfolding try_steal
  try_steal-Reach now w sid v h e =
      elim (Option-cases
        (best_from (can_steal (saturating_twice (effective_min_split w))) 0 w.segs none)) [
          | inl none_ ↦
              let no : Path (Option (ℕ × Writer D)) none (some (sid, v)) =
                (rw (try_steal, none_) at e) in
              absurd (cc no)
          | inr (best, found) ↦ elim (Option-cases (get_elem? w.segs best.1)) [
            | inl gone ↦
                let no : Path (Option (ℕ × Writer D)) none (some (sid, v)) =
                  (rw (try_steal, found, gone) at e) in
                absurd (cc no)
            | inr (s, at) ↦
                let range = steal_mid-range s (h.fits best.1 s at).within in
                let same : Path (Option (ℕ × Writer D))
                    (some (length w.segs, split_off now best.1 s (steal_mid s) w)) (some (sid, v)) =
                  (rw (try_steal, found, at) at e) in
                subst (Leads w) (ap (λ r. r.1) (some-injective _ _ same))
                  (Reach-Step f Allowed (cut w now best.1 s (steal_mid s) at range.0 range.1))
          ]
        ]

  take_stolen-Reach : (now sid : ℕ) (w : Writer D) → Leads w (take_stolen now sid w).0
  unfolding take_stolen
  take_stolen-Reach now sid w = elim (Option-cases (get_elem? w.segs sid)) [
    | inl e ↦ rw (take_stolen, e) here
    | inr (s, at) ↦ rw (take_stolen, at) (Reach-Step f Allowed (grab w now sid s at))
  ]

  idle-Reach : (failures : ℕ) (w : Writer D) → Leads w (idle failures w).0
  unfolding idle retire_one
  idle-Reach failures w = elim (Bool-cases (leb 2 failures && ltb 1 w.alive)) [
    | inl e ↦
        rw (idle, e) (Reach-Step f Allowed (tune w (w.alive - 1) (w.alive - 1) w.last_progress))
    | inr e ↦ rw (idle, e) here
  ]

  steal_work-Reach :
      (now failures : ℕ) (w : Writer D) → IsSound D w → Leads w (steal_work now failures w).0
  unfolding steal_work
  steal_work-Reach now failures w h = elim (Option-cases (try_steal now w)) [
    | inl e ↦ rw (steal_work, e) (idle-Reach failures w)
    | inr ((sid, v), e) ↦
        let r = take_stolen now sid v in
        let so_far =
          Reach-trans f Allowed (try_steal-Reach now w sid v h e) (take_stolen-Reach now sid v) in
        elim (Option-cases r.1) [
          | inl e2 ↦ rw (steal_work, e, e2) (Reach-trans f Allowed so_far (idle-Reach failures r.0))
          | inr (a, e2) ↦ rw (steal_work, e, e2) so_far
        ]
  ]

  find_work-Reach :
      (now failures : ℕ) (w : Writer D) → IsSound D w → Leads w (find_work now failures w).0
  unfolding find_work
  find_work-Reach now failures w h =
      let r = pop_loop now w.queue w in
      let popped : Leads w r.0 = pop_loop-Reach now w.queue w in
      elim (Option-cases r.1) [
        | inr (a, e) ↦ rw (find_work, e) popped
        | inl e ↦
            rw (find_work, e)
              (Reach-trans f Allowed popped
                (steal_work-Reach now failures r.0 (Reach-IsSound f Allowed popped h)))
      ]

  pub next_work-Reach :
      (now : ℕ) (held : Option ℕ) (failures : ℕ) (w : Writer D)
      → IsSound D w
      → Leads w (next_work now held failures w).0
  unfolding next_work
  next_work-Reach now held failures w h =
      let w1 = release_held held w in
      let released = release_held-Reach f Allowed held w in
      elim (Bool-cases (w1.fatal || w1.finished)) [
        | inl e ↦ rw (next_work, e) (later released (tune w1 w1.alive 0 w1.last_progress))
        | inr e ↦
            let reclaimed =
              Reach-trans f Allowed released (reclaim_stalled-Reach f Allowed now w1) in
            rw (next_work, e)
              (Reach-trans f Allowed reclaimed (
                find_work-Reach now failures (reclaim_stalled now w1)
                  (Reach-IsSound f Allowed reclaimed h)))
      ]
