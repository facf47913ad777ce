-- ===== src/Split/Writer/Kept.antt =====
-- crates/xfer-http/src/split.rs: the queue, and the workers that have a segment.
use mathlib.Core.Path.{subst}
use xfer_rust.Common.{
  ℕ, ◌+◌, ◌-◌, ◌≤◌, ◌<◌, ◌≡◌, ◌≢◌, ◌⊎◌, inl, inr, refl, sym, ◌∙◌, arith, Bool, true, false, not,
  ◌&&◌, ◌||◌, some, List, [], ◌∷◌, ◌++◌, ltb, ◌==◌, length, length-set, get_elem?, set, Bool-cases,
}
use xfer_rust.Common.Bytes.{Bytes}
use xfer_rust.Common.Indexed.{Each, Each-set, Each-replace, Each-append}
use xfer_rust.Split.Writer.{DataFile, Seg, Writer, new_seg, split_off, put_bytes, set_fatal}
use xfer_rust.Split.Writer.Dispatch.{take_on, release_seg}
use xfer_rust.Split.Writer.Steps.{
  Step, Reach, Reach-keeps, tune, cut, seal, skip, pop, grab, give_back, store, fail,
}

abbrev pub Waits : ℕ → List ℕ → Type 0
Waits i [] = ⊥
Waits i (j ∷ queue) = (i ≡ j) ⊎ Waits i queue

-- A segment that is not done and marked as queued is in the queue; and one that lacks bytes is marked so, or
-- has a holder.
pub record Kept (queue : List ℕ) (i : ℕ) (s : Seg) : Type 0 where
  pub listed : s.done ≡ false → s.queued ≡ true → Waits i queue
  pub owned : s.done ≡ false → s.written < s.end - s.start → (s.queued ≡ true) ⊎ (0 < s.holders)

abbrev pub IsKept : (D : Type 0) → Writer D → Type 0
IsKept D w = Each (Kept w.queue) w.segs

Waits-append : (i : ℕ) (queue more : List ℕ) → Waits i queue → Waits i (queue ++ more)
Waits-append i [] more h = absurd h
Waits-append i (j ∷ queue) more (inl e) = inl e
Waits-append i (j ∷ queue) more (inr h) = inr (Waits-append i queue more h)

Waits-last : (i : ℕ) (queue : List ℕ) → Waits i (queue ++ i ∷ [])
Waits-last i [] = inl refl
Waits-last i (j ∷ queue) = inr (Waits-last i queue)

Waits-rest : (i j : ℕ) (queue : List ℕ) → i ≢ j → Waits i (j ∷ queue) → Waits i queue
Waits-rest i j queue ne (inl e) = absurd (ne e)
Waits-rest i j queue ne (inr h) = h

Kept-append : (queue more : List ℕ) (i : ℕ) (s : Seg) → Kept queue i s → Kept (queue ++ more) i s
Kept-append queue more i s h = record {
  listed = λ d q. Waits-append i queue more (h.listed d q);
  owned = h.owned;
}

Kept-take_on : (queue : List ℕ) (now i : ℕ) (s : Seg) → Kept queue i (take_on now s)
unfolding take_on
Kept-take_on queue now i s = record {
  listed = λ d q. absurd (cc q);
  owned = λ d lt. inr (omega arith);
}

module _ {D : Type 0} (f : DataFile D) (Allowed : ℕ → Bytes → Type 0) where
  cut-IsKept :
      (w : Writer D) (now sid : ℕ) (s : Seg) (at : ℕ)
      → get_elem? w.segs sid ≡ some s
      → at ≤ s.end
      → IsKept D w
      → IsKept D (split_off now sid s at w)
  unfolding split_off new_seg
  cut-IsKept w now sid s at there high h =
      let queue = w.queue ++ length w.segs ∷ [] in
      let old = h sid s there in
      let v = record s { end = at } in
      let same : Kept queue sid v = record {
        listed = λ d q. Waits-append sid w.queue _ (old.listed d q);
        owned = λ d lt. old.owned d (let more : s.written < s.end - s.start = omega arith in more);
      } in
      let new : Kept queue (length (set w.segs sid v)) (new_seg now at s.end) = record {
        listed = λ d q.
            subst (λ n. Waits n queue) (sym (length-set w.segs sid v))
              (Waits-last (length w.segs) w.queue);
        owned = λ d lt. inl refl;
      } in
      Each-append (Kept queue) (set w.segs sid v) (new_seg now at s.end)
        (Each-set (Kept queue) w.segs sid v (λ i x e. Kept-append w.queue _ i x (h i x e)) same) new

  seal-Kept :
      (queue : List ℕ) (sid : ℕ) (s : Seg) (done : Bool) (now : ℕ)
      → (done ≡ s.done) ⊎ ((done ≡ true) × (s.start + s.written ≡ s.end))
      → Kept queue sid s
      → Kept queue sid (record s { done = done; last_progress = now })
  seal-Kept queue sid s done now (inl e) h = record {
    listed = λ d q. h.listed (sym e ∙ d) q;
    owned = λ d lt. h.owned (sym e ∙ d) lt;
  }
  seal-Kept queue sid s done now (inr full) h = record {
    listed = λ d q. absurd (cc (d, full.0));
    owned = λ d lt. absurd (cc (d, full.0));
  }

  pop-Kept :
      (w : Writer D) (now sid : ℕ) (queue : List ℕ) (s : Seg)
      → w.queue ≡ sid ∷ queue
      → IsKept D w
      → Each (Kept queue) (set w.segs sid (take_on now s))
  pop-Kept w now sid queue s e h =
      Each-replace (Kept queue) w.segs sid (take_on now s)
        (λ i x ne at.
          let old = h i x at in
          record {
            listed = λ d q.
                Waits-rest i sid queue (λ same. ne (sym same)) (subst (Waits i) e (old.listed d q));
            owned = old.owned;
          })
        (Kept-take_on queue now sid s)

  skip-Kept :
      (w : Writer D) (sid : ℕ) (queue : List ℕ)
      → w.queue ≡ sid ∷ queue
      → ((s : Seg) → get_elem? w.segs sid ≡ some s → s.done ≡ true)
      → IsKept D w
      → Each (Kept queue) w.segs
  skip-Kept w sid queue e gone h i x at =
      let old = h i x at in
      let other : x.done ≡ false → i ≢ sid =
        λ d same. absurd (cc (d, gone x (subst (λ k. get_elem? w.segs k ≡ some x) same at))) in
      record {
        listed = λ d q. Waits-rest i sid queue (other d) (subst (Waits i) e (old.listed d q));
        owned = old.owned;
      }

  give_back-IsKept :
      (w : Writer D) (sid : ℕ) (s : Seg)
      → get_elem? w.segs sid ≡ some s
      → IsKept D w
      → IsKept D (release_seg sid s w)
  unfolding release_seg
  give_back-IsKept w sid s at h =
      let test =
        not s.done && (ltb s.written (s.end - s.start) && (not s.queued && s.holders - 1 == 0)) in
      let old = h sid s at in
      elim (Bool-cases test) [
        | inl e ↦
            rw (release_seg, e)
              (Each-set (Kept (w.queue ++ sid ∷ [])) w.segs sid
                (record s { holders = s.holders - 1; queued = true })
                (λ i x there. Kept-append w.queue _ i x (h i x there))
                (record { listed = λ d q. Waits-last sid w.queue; owned = λ d lt. inl refl }))
        | inr e ↦
            rw (release_seg, e)
              (Each-set (Kept w.queue) w.segs sid (record s { holders = s.holders - 1 }) h
                (record { listed = old.listed; owned = λ d lt. ground arith }))
      ]

  store-Kept :
      (queue : List ℕ) (sid : ℕ) (s : Seg) (written now : ℕ) (full : Bool)
      → s.written ≤ written
      → Kept queue sid s
      → Kept queue sid (record s { written = written; done = s.done || full; last_progress = now })
  store-Kept queue sid s written now full le h =
      let was : s.done || full ≡ false → s.done ≡ false = ground arith in
      record {
        listed = λ d q. h.listed (was d) q;
        owned =
            λ d lt. h.owned (was d) (let more : s.written < s.end - s.start = omega arith in more);
      }

  Step-IsKept : (u v : Writer D) → Step f Allowed u v → IsKept D u → IsKept D v
  unfolding set_fatal put_bytes
  Step-IsKept u v (tune w alive desired last) h = h
  Step-IsKept u v (cut w now sid s at there low high) h = cut-IsKept w now sid s at there high h
  Step-IsKept u v (seal w sid s done now at why) h =
      Each-set (Kept w.queue) w.segs sid _ h (seal-Kept w.queue sid s done now why (h sid s at))
  Step-IsKept u v (skip w sid queue e gone) h = skip-Kept w sid queue e gone h
  Step-IsKept u v (pop w now sid queue s e at) h = pop-Kept w now sid queue s e h
  Step-IsKept u v (grab w now sid s at) h =
      Each-set (Kept w.queue) w.segs sid _ h (Kept-take_on w.queue now sid s)
  Step-IsKept u v (give_back w sid s at) h = give_back-IsKept w sid s at h
  Step-IsKept u v (store w now sid s offset n bytes ok at mark len pos room allowed written) h =
      Each-set (Kept w.queue) w.segs sid _ h
        (store-Kept w.queue sid s _ now _ (omega arith) (h sid s at))
  Step-IsKept u v (fail w disk) h = h

  pub Reach-IsKept : {u v : Writer D} → Reach f Allowed u v → IsKept D u → IsKept D v
  Reach-IsKept = Reach-keeps f Allowed (IsKept D) Step-IsKept
