-- ===== src/Split/Writer/Moves.antt =====
-- crates/xfer-http/src/split.rs: the steps of which the operations on segments consist.
use xfer_rust.Common.{
  ℕ, zero, suc, ◌+◌, ◌-◌, ◌≤◌, min, max, ◌≡◌, ◌⊎◌, inl, inr, sym, ◌∙◌, arith, Bool, true, false,
  not, ◌&&◌, ◌||◌, Option, none, some, [], ◌∷◌, ◌++◌, ltb, leb, ◌==◌, if◌then◌else◌, length,
  length-set, length-take, take, get_elem?, get_elem?-set_self, set, Bool-cases, Option-cases,
}
use xfer_rust.Common.Bytes.{Bytes}
use xfer_rust.Common.Indexed.{get_elem?-append, get_elem?-lt}
use xfer_rust.Split.Writer.{DataFile, Seg, Writer, new_seg, split_off, write_seg, on_write}
use xfer_rust.Split.Writer.Dispatch.{
  is_stalled, is_stranded, handoff_cut, hand_over, handoff, handoff_min, ensure_spare, passes,
  handoff_loop, reclaim_stalled, watchdog_requeue_stalled, release_held, stall_timeout,
}
use xfer_rust.Split.Writer.Steps.{
  Reach, here, later, Reach-Step, Reach-trans, if-Reach, tune, cut, seal, give_back, store, fail,
}

pub handoff_cut-range :
    (whole : Bool) (s : Seg)
    → s.start + s.written ≤ s.end
    → (s.start + s.written ≤ handoff_cut whole s) × (handoff_cut whole s ≤ s.end)
unfolding handoff_cut
handoff_cut-range whole s h = ground arith

module _ {D : Type 0} (f : DataFile D) (Allowed : ℕ → Bytes → Type 0) where
  abbrev Leads : Writer D → Writer D → Type 0
  Leads = Reach f Allowed

  write_seg-Reach :
      (now sid : ℕ) (s : Seg) (offset : ℕ) (bytes : Bytes) (w : Writer D)
      → w.fatal ≡ false
      → get_elem? w.segs sid ≡ some s
      → ((n : ℕ) → Allowed offset (take n bytes))
      → Leads w (write_seg f now sid s offset bytes w)
  unfolding write_seg
  write_seg-Reach now sid s offset bytes w alive at allowed =
      let n = min (s.end - offset) (length bytes) in
      if-Reach f Allowed
        (ltb offset s.start || leb s.end offset || not (offset - s.start == s.written)) (λ e. here)
        λ e.
          if-Reach f Allowed (n == 0) (λ e2. here)
            λ e2.
              if-Reach f Allowed ((f.write_at offset (take n bytes) w.disk).1)
                (λ e3. Reach-Step f Allowed (
                  store w now sid s offset n (take n bytes) alive at (ground arith)
                    (sym (length-take n bytes ∙ omega arith)) (ground arith) (ground arith)
                    (allowed n) e3))
                (λ e3. Reach-Step f Allowed (fail w (f.write_at offset (take n bytes) w.disk).0))

  pub on_write-Reach :
      (now sid offset : ℕ) (bytes : Bytes) (w : Writer D)
      → ((n : ℕ) → Allowed offset (take n bytes))
      → Leads w (on_write f now sid offset bytes w)
  unfolding on_write
  on_write-Reach now sid offset bytes w allowed =
      if-Reach f Allowed w.fatal (λ e. here)
        λ e. elim (Option-cases (get_elem? w.segs sid)) [
          | inl none_ ↦ rw none_ here
          | inr (s, at) ↦ rw at (write_seg-Reach now sid s offset bytes w e at allowed)
        ]

  hand_over-Reach :
      (now sid : ℕ) (s : Seg) (at : ℕ) (w : Writer D)
      → get_elem? w.segs sid ≡ some s
      → s.start + s.written ≤ at
      → at ≤ s.end
      → Leads w (hand_over now sid s at w)
  unfolding hand_over split_off
  hand_over-Reach now sid s at w there low high =
      let lt = get_elem?-lt w.segs sid s there in
      let same : get_elem? (set w.segs sid (record s { end = at }) ++ new_seg now at s.end ∷ []) sid
          ≡ some (record s { end = at }) =
        get_elem?-append (set w.segs sid (record s { end = at })) _ sid
          (omega (arith, length-set w.segs sid (record s { end = at }), lt))
        ∙ get_elem?-set_self w.segs sid (record s { end = at }) lt in
      let done = s.done || at == s.start + s.written in
      let why : (done ≡ s.done) ⊎ ((done ≡ true) × (s.start + s.written ≡ at)) = ground arith in
      later (later here (cut w now sid s at there low high)) (
        seal (split_off now sid s at w) sid (record s { end = at })
          (s.done || at == s.start + s.written) now same why)

  pub handoff-Reach :
      (now sid : ℕ) (whole force : Bool) (w : Writer D) → Leads w (handoff now sid whole force w).0
  unfolding handoff
  handoff-Reach now sid whole force w = elim (Option-cases (get_elem? w.segs sid)) [
    | inl e ↦ rw (handoff, e) here
    | inr (s, at) ↦
        elim (Bool-cases (
          leb s.end (s.start + s.written)
          || (ltb (s.end - (s.start + s.written)) handoff_min && not force))) [
            | inl e ↦ rw (handoff, at, e) here
            | inr e ↦
                let range = handoff_cut-range whole s (ground arith) in
                rw (handoff, at, e)
                  (hand_over-Reach now sid s (handoff_cut whole s) w at range.0 range.1)
          ]
  ]

  pub ensure_spare-Reach : (w : Writer D) → Leads w (ensure_spare w)
  unfolding ensure_spare
  ensure_spare-Reach w =
      let want = min (w.alive + 1) (max w.opts.connections 1) in
      if-Reach f Allowed {x = record w { desired_workers = want }} (ltb w.desired_workers want)
        (λ e. Reach-Step f Allowed (tune w w.alive want w.last_progress)) (λ e. here)

  handoff_loop-Reach :
      (now : ℕ) (ok : Seg → Bool) (whole force : Bool) (i n : ℕ) (w : Writer D)
      → Leads w (handoff_loop now ok whole force i n w).0
  unfolding handoff_loop
  handoff_loop-Reach now ok whole force i zero w = here
  handoff_loop-Reach now ok whole force i (suc n) w =
      elim (Bool-cases (passes ok (get_elem? w.segs i))) [
        | inl e ↦ rw e (
            Reach-trans f Allowed (handoff-Reach now i whole force w)
              (handoff_loop-Reach now ok whole force (suc i) n (handoff now i whole force w).0))
        | inr e ↦ rw e (handoff_loop-Reach now ok whole force (suc i) n w)
      ]

  pub spare-Reach :
      {w : Writer D} (r : Writer D × Bool)
      → Leads w r.0
      → Leads w (if r.1 then ensure_spare r.0 else r.0)
  spare-Reach r h =
      if-Reach f Allowed r.1 (λ e. Reach-trans f Allowed h (ensure_spare-Reach r.0)) (λ e. h)

  pub reclaim_stalled-Reach : (now : ℕ) (w : Writer D) → Leads w (reclaim_stalled now w)
  unfolding reclaim_stalled
  reclaim_stalled-Reach now w =
      let r = handoff_loop now (is_stalled now) false false 0 (length w.segs) w in
      if-Reach f Allowed {x = w} {y = if r.1 then ensure_spare r.0 else r.0}
        (w.finished || (w.fatal || w.todo == 0)) (λ e. here)
        (λ e.
          spare-Reach r (handoff_loop-Reach now (is_stalled now) false false 0 (length w.segs) w))

  pub watchdog_requeue_stalled-Reach :
      (now : ℕ) (w : Writer D) → Leads w (watchdog_requeue_stalled now w)
  unfolding watchdog_requeue_stalled
  watchdog_requeue_stalled-Reach now w =
      let r = handoff_loop now is_stranded true true 0 (length w.segs) w in
      let w1 = if r.1 then ensure_spare r.0 else r.0 in
      let done = record w1 { last_progress = now } in
      if-Reach f Allowed {x = w} {y = if ltb (now - w.last_progress) stall_timeout then w else done}
        (w.finished || (w.fatal || w.todo == 0)) (λ e. here)
        λ e.
          if-Reach f Allowed {x = w} {y = done} (ltb (now - w.last_progress) stall_timeout)
            (λ e2. here)
            λ e2.
              let h =
                spare-Reach r (handoff_loop-Reach now is_stranded true true 0 (length w.segs) w) in
              later h (tune w1 w1.alive w1.desired_workers now)

  pub release_held-Reach : (held : Option ℕ) (w : Writer D) → Leads w (release_held held w)
  unfolding release_held
  release_held-Reach none w = here
  release_held-Reach (some sid) w = elim (Option-cases (get_elem? w.segs sid)) [
    | inl e ↦ rw (release_held, e) here
    | inr (s, at) ↦ rw (release_held, at) (Reach-Step f Allowed (give_back w sid s at))
  ]
