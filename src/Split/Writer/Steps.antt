-- ===== src/Split/Writer/Steps.antt =====
-- The steps of which the operations of crates/xfer-http/src/split.rs consist.
use xfer_rust.Common.{
  ℕ, ◌+◌, ◌≤◌, ◌<◌, ◌≡◌, ◌⊎◌, refl, Bool, true, false, some, List, ◌∷◌, if◌then◌else◌, length,
  get_elem?, set,
}
use xfer_rust.Common.Bytes.{Bytes}
use xfer_rust.Split.Writer.{DataFile, Seg, Writer, split_off, put_bytes, set_fatal}
use xfer_rust.Split.Writer.Dispatch.{take_on, release_seg}

-- `Allowed` is what may be written where.
module _ {D : Type 0} (f : DataFile D) (Allowed : ℕ → Bytes → Type 0) where
  pub data Step : Writer D → Writer D → Type 0 where
    -- Neither segments nor the file.
    tune :
        (w : Writer D) (alive desired_workers last_progress : ℕ)
        → Step w (record w {
          alive = alive;
          desired_workers = desired_workers;
          last_progress = last_progress;
        })
    -- A segment is cut in two.
    cut :
        (w : Writer D) (now sid : ℕ) (s : Seg) (at : ℕ)
        → get_elem? w.segs sid ≡ some s
        → s.start + s.written ≤ at
        → at ≤ s.end
        → Step w (split_off now sid s at w)
    -- A segment with nothing left is closed, or the time of its progress is set.
    seal :
        (w : Writer D) (sid : ℕ) (s : Seg) (done : Bool) (now : ℕ)
        → get_elem? w.segs sid ≡ some s
        → (done ≡ s.done) ⊎ ((done ≡ true) × (s.start + s.written ≡ s.end))
        → Step w
            (record w { segs = set w.segs sid (record s { done = done; last_progress = now }) })
    -- The front of the queue is a segment that is done, or none.
    skip :
        (w : Writer D) (sid : ℕ) (queue : List ℕ)
        → w.queue ≡ sid ∷ queue
        → ((s : Seg) → get_elem? w.segs sid ≡ some s → s.done ≡ true)
        → Step w (record w { queue = queue })
    -- The front of the queue is taken.
    pop :
        (w : Writer D) (now sid : ℕ) (queue : List ℕ) (s : Seg)
        → w.queue ≡ sid ∷ queue
        → get_elem? w.segs sid ≡ some s
        → Step w (record w { queue = queue; segs = set w.segs sid (take_on now s) })
    -- A segment is taken where it is.
    grab :
        (w : Writer D) (now sid : ℕ) (s : Seg)
        → get_elem? w.segs sid ≡ some s
        → Step w (record w { segs = set w.segs sid (take_on now s) })
    give_back :
        (w : Writer D) (sid : ℕ) (s : Seg)
        → get_elem? w.segs sid ≡ some s
        → Step w (release_seg sid s w)
    -- Bytes at the mark of a segment are on disk.
    store :
        (w : Writer D) (now sid : ℕ) (s : Seg) (offset n : ℕ) (bytes : Bytes)
        → w.fatal ≡ false
        → get_elem? w.segs sid ≡ some s
        → offset ≡ s.start + s.written
        → n ≡ length bytes
        → 0 < n
        → offset + n ≤ s.end
        → Allowed offset bytes
        → (f.write_at offset bytes w.disk).1 ≡ true
        → Step w (put_bytes f now sid s offset n (f.write_at offset bytes w.disk).0 w)
    -- An error is kept, after whatever a write did that failed.
    fail : (w : Writer D) (disk : D) → Step w (set_fatal (record w { disk = disk }))

  pub data Reach (w : Writer D) : Writer D → Type 0 where
    here : Reach w w
    later : {u v : Writer D} → Reach w u → Step u v → Reach w v

  pub Reach-Step : {w v : Writer D} → Step w v → Reach w v
  Reach-Step s = later here s

  pub if-Reach :
      {w x y : Writer D} (b : Bool)
      → (b ≡ true → Reach w x)
      → (b ≡ false → Reach w y)
      → Reach w (if b then x else y)
  if-Reach true h k = h refl
  if-Reach false h k = k refl

  pub Reach-trans : {w u v : Writer D} → Reach w u → Reach u v → Reach w v
  Reach-trans r here = r
  Reach-trans r (later q s) = later (Reach-trans r q) s

  -- What holds before and that each step keeps, holds after.
  pub Reach-keeps :
      (P : Writer D → Type 0)
      → ((u v : Writer D) → Step u v → P u → P v)
      → {w v : Writer D} → Reach w v
      → P w
      → P v
  Reach-keeps P step here h = h
  Reach-keeps P step (later r s) h = step _ _ s (Reach-keeps P step r h)
