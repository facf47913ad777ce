-- ===== src/Split/Writer/Invariant.antt =====
-- crates/xfer-http/src/split.rs: the sound states, under the steps.
use mathlib.Core.Path.{subst}
use xfer_rust.Common.{
  ℕ, ◌+◌, ◌-◌, ◌≡◌, ◌⊎◌, inl, inr, refl, sym, ap, ◌∙◌, Bool, true, false, some, [], ◌∷◌, ◌++◌,
  if◌then◌else◌, get_elem?, set,
}
use xfer_rust.Common.Bytes.{Bytes}
use xfer_rust.Common.Indexed.{sum_of, Each}
use xfer_rust.Split.Writer.{DataFile, Seg, Writer, remaining, split_off, set_fatal}
use xfer_rust.Split.Writer.Dispatch.{take_on, release_seg}
use xfer_rust.Split.Writer.Steps.{
  Step, Reach, Reach-keeps, tune, cut, seal, skip, pop, grab, give_back, store, fail,
}
use xfer_rust.Split.Writer.Sound.{
  covers, in_range, Fits, IsSound, same_bytes-IsSound, cut-IsSound, store-IsSound,
}

module _ {D : Type 0} where
  take_on-IsSound :
      (w : Writer D) (now sid : ℕ) (s : Seg)
      → get_elem? w.segs sid ≡ some s
      → IsSound D w
      → IsSound D (record w { segs = set w.segs sid (take_on now s) })
  unfolding take_on
  take_on-IsSound w now sid s at h =
      let old = h.fits sid s at in
      same_bytes-IsSound w sid s (take_on now s) at refl refl refl
        (record { within = old.within; ended = old.ended }) h

  -- What is not the segments, the numbers that are about them, or the end, may be Anything.
  rest-IsSound :
      (w v : Writer D)
      → v.segs ≡ w.segs
      → v.base ≡ w.base
      → v.total ≡ w.total
      → v.todo ≡ w.todo
      → v.finished ≡ w.finished
      → IsSound D w
      → IsSound D v
  rest-IsSound w v segs base total todo finished h = record {
    fits = subst (Each (λ i s. Fits s)) (sym segs) h.fits;
    tiled =
        λ x. ap (sum_of (covers x)) segs ∙ h.tiled x ∙ (λ i. in_range (sym base i) (sym total i) x);
    counted = todo ∙ h.counted ∙ ap (sum_of remaining) (sym segs);
    over = λ e. todo ∙ h.over (sym finished ∙ e);
    told = λ e. finished ∙ h.told (sym todo ∙ e);
  }

  if-IsSound :
      (b : Bool) (u v : Writer D) → IsSound D u → IsSound D v → IsSound D (if b then u else v)
  if-IsSound true u v h k = h
  if-IsSound false u v h k = k

  release_seg-IsSound :
      (w : Writer D) (sid : ℕ) (s : Seg)
      → get_elem? w.segs sid ≡ some s
      → IsSound D w
      → IsSound D (release_seg sid s w)
  unfolding release_seg
  release_seg-IsSound w sid s at h =
      let old = h.fits sid s at in
      let queued = record s { holders = s.holders - 1; queued = true } in
      let idle = record s { holders = s.holders - 1 } in
      let again =
        same_bytes-IsSound w sid s queued at refl refl refl
          (record { within = old.within; ended = old.ended }) h in
      let one_less =
        same_bytes-IsSound w sid s idle at refl refl refl
          (record { within = old.within; ended = old.ended }) h in
      if-IsSound _ (record w { segs = set w.segs sid queued; queue = w.queue ++ sid ∷ [] })
        (record w { segs = set w.segs sid idle })
        (rest-IsSound (record w { segs = set w.segs sid queued }) _ refl refl refl refl refl again)
        one_less

  seal-IsSound :
      (w : Writer D) (sid : ℕ) (s : Seg) (done : Bool) (now : ℕ)
      → get_elem? w.segs sid ≡ some s
      → (done ≡ s.done) ⊎ ((done ≡ true) × (s.start + s.written ≡ s.end))
      → IsSound D w
      → IsSound D
          (record w { segs = set w.segs sid (record s { done = done; last_progress = now }) })
  seal-IsSound w sid s done now at why h =
      let old = h.fits sid s at in
      let ended : done ≡ true → s.start + s.written ≡ s.end =
        λ e. elim why [ inl same ↦ old.ended (sym same ∙ e) | inr full ↦ full.1 ] in
      same_bytes-IsSound w sid s (record s { done = done; last_progress = now }) at refl refl refl
        (record { within = old.within; ended = ended }) h

module _ {D : Type 0} (f : DataFile D) (Allowed : ℕ → Bytes → Type 0) where
  pub Step-IsSound : (u v : Writer D) → Step f Allowed u v → IsSound D u → IsSound D v
  unfolding split_off set_fatal
  Step-IsSound u v (tune w alive desired last) h = rest-IsSound w _ refl refl refl refl refl h
  Step-IsSound u v (cut w now sid s at there low high) h =
      cut-IsSound w now sid s at there low high h
  Step-IsSound u v (seal w sid s done now at why) h = seal-IsSound w sid s done now at why h
  Step-IsSound u v (skip w sid queue e gone) h = rest-IsSound w _ refl refl refl refl refl h
  Step-IsSound u v (pop w now sid queue s e at) h =
      rest-IsSound (record w { segs = set w.segs sid (take_on now s) }) _ refl refl refl refl refl
        (take_on-IsSound w now sid s at h)
  Step-IsSound u v (grab w now sid s at) h = take_on-IsSound w now sid s at h
  Step-IsSound u v (give_back w sid s at) h = release_seg-IsSound w sid s at h
  Step-IsSound u v (store w now sid s offset n bytes ok at mark len pos room allowed written) h =
      store-IsSound f w now sid s offset n _ at mark pos room h
  Step-IsSound u v (fail w disk) h = rest-IsSound w _ refl refl refl refl refl h

  pub Reach-IsSound : {u v : Writer D} → Reach f Allowed u v → IsSound D u → IsSound D v
  Reach-IsSound = Reach-keeps f Allowed (IsSound D) Step-IsSound
