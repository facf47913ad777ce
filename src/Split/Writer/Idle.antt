-- ===== src/Split/Writer/Idle.antt =====
-- crates/xfer-http/src/split.rs: when a worker is sent away without work.
use mathlib.Core.Path.{subst}
use mathlib.Core.Option.{some-injective}
use xfer_rust.Common.{
  ℕ, ◌-◌, ◌<◌, ◌≡◌, inl, inr, refl, sym, ap, arith, Bool, true, false, ◌||◌, Option, none, some,
  List, [], ◌∷◌, ◌++◌, length, length-set, get_elem?, set, Bool-cases, Option-cases,
}
use xfer_rust.Common.Indexed.{Each, get_elem?-append_last}
use xfer_rust.Split.Writer.{DataFile, Seg, Writer, effective_min_split, split_off, new_seg}
use xfer_rust.Split.Writer.Dispatch.{
  Assignment, assign, work, park, retire, all_done, pop_loop, take_stolen, try_steal, idle,
  retire_one, steal_work, find_work, release_held, reclaim_stalled, next_work, best_from, can_steal,
  saturating_twice, steal_mid,
}
use xfer_rust.Split.Writer.Sound.{IsSound}
use xfer_rust.Split.Writer.Assign.{next_work-Reach}
use xfer_rust.Split.Writer.Kept.{IsKept, Waits, Reach-IsKept}

-- The worker is told to wait, or to leave, and the download is not over.
abbrev pub is_sent_away : Assignment → Bool
is_sent_away (work sid position end) = false
is_sent_away (park ms) = true
is_sent_away retire = true
is_sent_away all_done = false

module _ {D : Type 0} where
  pop_loop-none :
      (now : ℕ) (queue : List ℕ) (w : Writer D)
      → (pop_loop now queue w).1 ≡ none
      → (pop_loop now queue w).0.queue ≡ []
  unfolding pop_loop
  pop_loop-none now [] w e = refl
  pop_loop-none now (sid ∷ queue) w e = elim (Option-cases (get_elem? w.segs sid)) [
    | inl gone ↦ rw (pop_loop, gone) (pop_loop-none now queue w (rw (pop_loop, gone) at e))
    | inr (s, at) ↦ elim (Bool-cases s.done) [
      | inl d ↦ simp (pop_loop, at, d) (pop_loop-none now queue w (simp (pop_loop, at, d) at e))
      | inr d ↦
          let never : Path (Option Assignment) (some (assign sid s)) none =
            (simp (pop_loop, at, d) at e) in
          absurd (cc never)
    ]
  ]

  pop_loop-some :
      (now : ℕ) (queue : List ℕ) (w : Writer D) (a : Assignment)
      → (pop_loop now queue w).1 ≡ some a
      → is_sent_away a ≡ false
  unfolding pop_loop
  pop_loop-some now [] w a e = absurd (cc e)
  pop_loop-some now (sid ∷ queue) w a e = elim (Option-cases (get_elem? w.segs sid)) [
    | inl gone ↦ pop_loop-some now queue w a (rw (pop_loop, gone) at e)
    | inr (s, at) ↦ elim (Bool-cases s.done) [
      | inl d ↦ pop_loop-some now queue w a (simp (pop_loop, at, d) at e)
      | inr d ↦
          let same : Path (Option Assignment) (some (assign sid s)) (some a) =
            (simp (pop_loop, at, d) at e) in
          sym (ap is_sent_away (some-injective _ _ same))
    ]
  ]

  try_steal-take_on :
      (now sid : ℕ) (w v : Writer D)
      → try_steal now w ≡ some (sid, v)
      → (s : Seg) × (get_elem? v.segs sid ≡ some s)
  unfolding try_steal split_off
  try_steal-take_on now sid w v e =
      elim (Option-cases
        (best_from (can_steal (saturating_twice (effective_min_split w))) 0 w.segs none)) [
          | inl none_ ↦
              let never : Path (Option (ℕ × Writer D)) none (some (sid, v)) =
                (rw (try_steal, none_) at e) in
              absurd (cc never)
          | inr (best, found) ↦ elim (Option-cases (get_elem? w.segs best.1)) [
            | inl gone ↦
                let never : Path (Option (ℕ × Writer D)) none (some (sid, v)) =
                  (rw (try_steal, found, gone) at e) in
                absurd (cc never)
            | inr (s, at) ↦
                let same : Path (Option (ℕ × Writer D))
                    (some (length w.segs, split_off now best.1 s (steal_mid s) w)) (some (sid, v)) =
                  (rw (try_steal, found, at) at e) in
                let both = some-injective _ _ same in
                let old = set w.segs best.1 (record s { end = steal_mid s }) in
                let new = new_seg now (steal_mid s) s.end in
                let last = get_elem?-append_last old new in
                let there =
                  subst (λ n. get_elem? (old ++ new ∷ []) n ≡ some new) (length-set w.segs best.1 _)
                    last in
                (new, subst (λ r. get_elem? (Writer.segs r.1) r.0 ≡ some new) both there)
          ]
        ]

  idle-queue : (failures : ℕ) (w : Writer D) → w.queue ≡ [] → (idle failures w).0.queue ≡ []
  unfolding idle retire_one
  idle-queue failures w e = ground arith

  steal_work-queue :
      (now failures : ℕ) (w : Writer D)
      → w.queue ≡ []
      → is_sent_away (steal_work now failures w).1 ≡ true
      → (steal_work now failures w).0.queue ≡ []
  unfolding steal_work take_stolen
  steal_work-queue now failures w empty e = elim (Option-cases (try_steal now w)) [
    | inl none_ ↦ rw (steal_work, none_) (idle-queue failures w empty)
    | inr ((sid, v), stolen) ↦
        let (s, at) = try_steal-take_on now sid w v stolen in
        let never : Path Bool false true = (rw (steal_work, stolen, take_stolen, at) at e) in
        absurd (cc never)
  ]

  find_work-queue :
      (now failures : ℕ) (w : Writer D)
      → is_sent_away (find_work now failures w).1 ≡ true
      → (find_work now failures w).0.queue ≡ []
  unfolding find_work
  find_work-queue now failures w e =
      let r = pop_loop now w.queue w in
      elim (Option-cases r.1) [
        | inl none_ ↦
            rw (find_work, none_)
              (steal_work-queue now failures r.0 (pop_loop-none now w.queue w none_)
                (rw (find_work, none_) at e))
        | inr (a, popped) ↦
            let given = pop_loop-some now w.queue w a popped in
            let sent : is_sent_away a ≡ true = (rw (find_work, popped) at e) in
            absurd (cc (given, sent))
      ]

  next_work-queue :
      (now : ℕ) (held : Option ℕ) (failures : ℕ) (w : Writer D)
      → is_sent_away (next_work now held failures w).1 ≡ true
      → (next_work now held failures w).0.queue ≡ []
  unfolding next_work
  next_work-queue now held failures w e =
      let w1 = release_held held w in
      elim (Bool-cases (w1.fatal || w1.finished)) [
        | inl over ↦
            let never : Path Bool false true = (rw (next_work, over) at e) in absurd (cc never)
        | inr more ↦
            rw (next_work, more)
              (find_work-queue now failures (reclaim_stalled now w1) (rw (next_work, more) at e))
      ]

  empty_queue-held :
      (w : Writer D)
      → w.queue ≡ []
      → IsKept D w
      → Each (λ i s. s.done ≡ false → s.written < s.end - s.start → 0 < s.holders) w.segs
  empty_queue-held w empty h i s at more lacks = elim ((h i s at).owned more lacks) [
    | inl queued ↦ absurd (subst (Waits i) empty ((h i s at).listed more queued))
    | inr held ↦ held
  ]

-- No segment is lost: when a worker that asks for work is told to wait or to leave, each segment that lacks
-- bytes and is not done has a worker.
pub next_work-held :
    {D : Type 0} (f : DataFile D) (now : ℕ) (held : Option ℕ) (failures : ℕ) (w : Writer D)
    → IsSound D w
    → IsKept D w
    → is_sent_away (next_work now held failures w).1 ≡ true
    → Each
        (λ i s. s.done ≡ false → s.written < s.end - s.start → 0 < s.holders)
        (next_work now held failures w).0.segs
next_work-held f now held failures w sound h e =
    let r = next_work-Reach f (λ offset bytes. Unit) now held failures w sound in
    empty_queue-held (next_work now held failures w).0 (next_work-queue now held failures w e)
      (Reach-IsKept f (λ offset bytes. Unit) r h)
