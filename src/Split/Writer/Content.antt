-- ===== src/Split/Writer/Content.antt =====
-- crates/xfer-http/src/split.rs: what the file contains.
use xfer_rust.Common.{
  ℕ, zero, suc, ◌+◌, ◌-◌, ◌≤◌, ◌<◌, ◌≡◌, ◌⊎◌, inl, inr, refl, sym, ap, ◌∙◌, arith, true, false, not,
  ◌&&◌, ◌||◌, Option, some, [], ◌∷◌, ltb, leb, ◌==◌, length, get_elem?, set, Bool-cases,
}
use xfer_rust.Common.Bytes.{Bytes}
use xfer_rust.Common.Indexed.{sum_of, Each, sum_of-ge, sum_of-pos, Each-set, Each-append}
use xfer_rust.Split.Writer.{
  DataFile, Seg, Writer, remaining, new_seg, split_off, put_bytes, set_fatal,
}
use xfer_rust.Split.Writer.Dispatch.{take_on, release_seg}
use xfer_rust.Split.Writer.Steps.{
  Step, Reach, Reach-keeps, tune, cut, seal, skip, pop, grab, give_back, store, fail,
}
use xfer_rust.Split.Writer.Sound.{IsSound, covers}

-- What a file system does: a write that succeeds puts the bytes where it was told to, and the bytes that were
-- elsewhere in the file stay.
pub record IsDataFile (D : Type 0) (f : DataFile D) (stored : D → ℕ → Option ℕ) : Type 0 where
  pub placed :
      (offset : ℕ) (bytes : Bytes) (disk : D) (i b : ℕ)
      → (f.write_at offset bytes disk).1 ≡ true
      → get_elem? bytes i ≡ some b
      → stored (f.write_at offset bytes disk).0 (offset + i) ≡ some b
  pub kept :
      (offset : ℕ) (bytes : Bytes) (disk : D) (x b : ℕ)
      → (f.write_at offset bytes disk).1 ≡ true
      → (x < offset) ⊎ (offset + length bytes ≤ x)
      → stored disk x ≡ some b
      → stored (f.write_at offset bytes disk).0 x ≡ some b

-- The bytes are those of the resource at the offset.
abbrev pub AreOf : (ℕ → ℕ) → ℕ → Bytes → Type 0
AreOf resource offset bytes = (i b : ℕ) → get_elem? bytes i ≡ some b → b ≡ resource (offset + i)

get_elem?-some : (xs : Bytes) (i : ℕ) → i < length xs → (b : ℕ) × (get_elem? xs i ≡ some b)
get_elem?-some [] i lt = absurd (omega arith)
get_elem?-some (x ∷ xs) zero lt = (x, refl)
get_elem?-some (x ∷ xs) (suc i) lt = get_elem?-some xs i (omega arith)

module _ {D : Type 0} (f : DataFile D) (stored : D → ℕ → Option ℕ) (resource : ℕ → ℕ) where
  -- The part of the segment that counts as written is in the file.
  abbrev pub Holds : D → ℕ → Seg → Type 0
  Holds disk i s =
      (x : ℕ) → s.start ≤ x → x < s.start + s.written → stored disk x ≡ some (resource x)

  -- Where no error was kept, that is so for each segment.
  abbrev pub HasContent : Writer D → Type 0
  HasContent w = w.fatal ≡ false → Each (Holds w.disk) w.segs

  fresh-holds :
      IsDataFile D f stored
      → (disk : D) (offset : ℕ) (bytes : Bytes) (x : ℕ) → AreOf resource offset bytes
      → (f.write_at offset bytes disk).1 ≡ true
      → offset ≤ x
      → x < offset + length bytes
      → stored (f.write_at offset bytes disk).0 x ≡ some (resource x)
  fresh-holds law disk offset bytes x of ok low high =
      let (b, at) = get_elem?-some bytes (x - offset) (omega arith) in
      let e : offset + (x - offset) ≡ x = omega arith in
      let there = law.placed offset bytes disk (x - offset) b ok at in
      ap (stored (f.write_at offset bytes disk).0) (sym e)
      ∙ there
      ∙ ap some (of (x - offset) b at ∙ ap resource e)

  old-holds :
      IsDataFile D f stored
      → (disk : D) (offset : ℕ) (bytes : Bytes) (x : ℕ) → AreOf resource offset bytes
      → (f.write_at offset bytes disk).1 ≡ true
      → stored disk x ≡ some (resource x)
      → stored (f.write_at offset bytes disk).0 x ≡ some (resource x)
  old-holds law disk offset bytes x of ok old =
      elim (Bool-cases (leb offset x && ltb x (offset + length bytes))) [
        | inl e ↦ fresh-holds law disk offset bytes x of ok (ground arith) (ground arith)
        | inr e ↦ law.kept offset bytes disk x (resource x) ok (ground arith) old
      ]

  cut-HasContent :
      (w : Writer D) (now sid : ℕ) (s : Seg) (at : ℕ)
      → get_elem? w.segs sid ≡ some s
      → HasContent w
      → HasContent (split_off now sid s at w)
  unfolding split_off new_seg
  cut-HasContent w now sid s at there h ok =
      let v = record s { end = at } in
      let fresh : (i : ℕ) → Holds w.disk i (new_seg now at s.end) =
        λ i x low high. absurd (omega arith) in
      Each-append (Holds w.disk) (set w.segs sid v) (new_seg now at s.end)
        (Each-set (Holds w.disk) w.segs sid v (h ok) (h ok sid s there)) (fresh 0)

  give_back-HasContent :
      (w : Writer D) (sid : ℕ) (s : Seg)
      → get_elem? w.segs sid ≡ some s
      → HasContent w
      → HasContent (release_seg sid s w)
  unfolding release_seg
  give_back-HasContent w sid s at h =
      let test =
        not s.done && (ltb s.written (s.end - s.start) && (not s.queued && s.holders - 1 == 0)) in
      elim (Bool-cases test) [
        | inl e ↦
            rw (release_seg, e) (λ ok. Each-set (Holds w.disk) w.segs sid _ (h ok) (h ok sid s at))
        | inr e ↦
            rw (release_seg, e) (λ ok. Each-set (Holds w.disk) w.segs sid _ (h ok) (h ok sid s at))
      ]

  store-HasContent :
      IsDataFile D f stored
      → (w : Writer D) (now sid : ℕ) (s : Seg) (offset n : ℕ) (bytes : Bytes)
      → get_elem? w.segs sid ≡ some s
      → offset ≡ s.start + s.written
      → n ≡ length bytes
      → AreOf resource offset bytes
      → (f.write_at offset bytes w.disk).1 ≡ true
      → HasContent w
      → HasContent (put_bytes f now sid s offset n (f.write_at offset bytes w.disk).0 w)
  unfolding put_bytes
  store-HasContent law w now sid s offset n bytes at mark len of wrote h ok =
      let old =
        λ (i : ℕ) (t : Seg) (there : get_elem? w.segs i ≡ some t) (x : ℕ) (low : t.start ≤ x)
            (high : x < t.start + t.written).
          old-holds law w.disk offset bytes x of wrote (h ok i t there x low high) in
      let v = record s {
        written = offset + n - s.start;
        done = s.done || offset + n - s.start == s.end - s.start;
        last_progress = now;
      } in
      let new : Holds (f.write_at offset bytes w.disk).0 sid v = λ x low high.
        elim (Bool-cases (ltb x offset)) [
          | inl e ↦ old sid s at x low (ground arith)
          | inr e ↦ fresh-holds law w.disk offset bytes x of wrote (ground arith) (omega arith)
        ] in
      Each-set (Holds (f.write_at offset bytes w.disk).0) w.segs sid v old new

  Step-HasContent :
      IsDataFile D f stored
      → (u v : Writer D) → Step f (AreOf resource) u v
      → HasContent u
      → HasContent v
  unfolding set_fatal take_on
  Step-HasContent law u v (tune w alive desired last) h = h
  Step-HasContent law u v (cut w now sid s at there low high) h =
      cut-HasContent w now sid s at there h
  Step-HasContent law u v (seal w sid s done now at why) h =
      λ ok. Each-set (Holds w.disk) w.segs sid _ (h ok) (h ok sid s at)
  Step-HasContent law u v (skip w sid queue e gone) h = h
  Step-HasContent law u v (pop w now sid queue s e at) h =
      λ ok. Each-set (Holds w.disk) w.segs sid _ (h ok) (h ok sid s at)
  Step-HasContent law u v (grab w now sid s at) h =
      λ ok. Each-set (Holds w.disk) w.segs sid _ (h ok) (h ok sid s at)
  Step-HasContent law u v (give_back w sid s at) h = give_back-HasContent w sid s at h
  Step-HasContent law u v (store w now sid s offset n bytes ok at mark len pos room of wrote) h =
      store-HasContent law w now sid s offset n bytes at mark len of wrote h
  Step-HasContent law u v (fail w disk) h = λ ok. absurd (cc ok)

  pub Reach-HasContent :
      IsDataFile D f stored
      → {u v : Writer D} → Reach f (AreOf resource) u v
      → HasContent u
      → HasContent v
  Reach-HasContent law = Reach-keeps f (AreOf resource) HasContent (Step-HasContent law)

  -- A segment of which nothing is left is in the file.
  pub full-holds :
      (w : Writer D)
      → IsSound D w
      → HasContent w
      → w.todo ≡ 0
      → w.fatal ≡ false
      → (x : ℕ) → w.base ≤ x
      → x < w.total
      → stored w.disk x ≡ some (resource x)
  full-holds w sound content none_left ok x low high =
      let one = sound.tiled x in
      let counted = sound.counted in
      let some_pos : 0 < sum_of (covers x) w.segs = ground (arith, one) in
      let (i, s, at, pos) = sum_of-pos (covers x) w.segs some_pos in
      let left = sum_of-ge remaining w.segs i s at in
      let within = (sound.fits i s at).within in content ok i s at x (ground arith) (ground arith)
