-- ===== src/Storage/Store/Disk.antt =====
-- What writing the segments of a piece does to the disk, for the files of crates/xfer-storage/src/piece.rs.
use mathlib.Core.Path.{subst}
use xfer_rust.Common.{
  ℕ, ◌%◌, ◌^◌, zero, suc, ◌+◌, ◌≤◌, ◌<◌, ◌≡◌, ◌≢◌, ◌⊎◌, inl, inr, refl, ap, ◌∙◌, arith, Bool, true,
  false, ◌||◌, Option, some, List, [], ◌∷◌, leb, ◌==◌, ==_iff, length, take, drop, length-take,
  length-drop, get_elem?, All, Bool-cases,
}
use xfer_rust.Common.Bytes.{Bytes}
use xfer_rust.Storage.Layout.{FileLayout, segments}
use xfer_rust.Storage.Store.{Files, is_open, write_segments, read_segments, visible}

-- A disk as its users see it: `stored` is the byte of a file at an offset, if the file is that long. A
-- write changes no byte outside its range, even where it fails; one that succeeds puts the bytes there;
-- and bytes that are there are read.
pub record IsDisk (D : Type 0) (f : Files D) : Type 0 where
  pub stored : D → ℕ → ℕ → Option ℕ
  pub kept :
      (fi off : ℕ) (bytes : Bytes) (d : D) (g o : ℕ)
      → (g ≢ fi) ⊎ (o < off) ⊎ (off + length bytes ≤ o)
      → stored (f.write_at fi off bytes d).0 g o ≡ stored d g o
  pub puts :
      (fi off : ℕ) (bytes : Bytes) (d : D) (k : ℕ)
      → (f.write_at fi off bytes d).1 ≡ true
      → k < length bytes
      → stored (f.write_at fi off bytes d).0 fi (off + k) ≡ get_elem? bytes k
  pub reads_back :
      (fi off : ℕ) (bytes : Bytes) (d : D)
      → ((k : ℕ) → k < length bytes → stored d fi (off + k) ≡ get_elem? bytes k)
      → f.read_at fi off (length bytes) d ≡ some bytes

abbrev pub Segment : Type 0
Segment = ℕ × ℕ × ℕ

-- The byte of file `g` at `o` is in none of the segments.
abbrev pub Outside : ℕ → ℕ → List Segment → Type 0
Outside g o segs = All (λ s. (g ≢ s.0) ⊎ (o < s.1) ⊎ (s.1 + s.2 ≤ o)) segs

-- The files of the segments ascend, from `n` on.
abbrev pub FilesFrom : ℕ → List Segment → Type 0
FilesFrom n [] = Unit
FilesFrom n ((fi, off, len) ∷ segs) = (n ≤ fi) × FilesFrom (suc fi) segs

abbrev pub span : List Segment → ℕ
span [] = 0
span ((fi, off, len) ∷ segs) = len + span segs

-- Every byte of the second segments is outside the first ones.
abbrev pub Apart : List Segment → List Segment → Type 0
Apart segs others = All (λ s. (k : ℕ) → k < s.2 → Outside s.0 (s.1 + k) segs) others

FilesFrom-Outside : (n g o : ℕ) (segs : List Segment) → FilesFrom n segs → g < n → Outside g o segs
FilesFrom-Outside n g o [] h lt = tt
FilesFrom-Outside n g o ((fi, off, len) ∷ segs) (h, hs) lt =
    (inl (omega arith), FilesFrom-Outside (suc fi) g o segs hs (omega arith))

module _ {D : Type 0} (f : Files D) (fs : IsDisk D f) (opened : List Bool) where
  -- The opened segments hold the bytes of the piece.
  abbrev pub HoldsIn : List Segment → Bytes → D → Type 0
  HoldsIn [] bytes d = Unit
  HoldsIn ((fi, off, len) ∷ segs) bytes d =
      (is_open opened fi ≡ true
        → (k : ℕ) → k < len
        → fs.stored d fi (off + k) ≡ get_elem? (take len bytes) k)
      × HoldsIn segs (drop len bytes) d

  -- A write of segments changes nothing outside them, even where it fails.
  pub write_segments-kept :
      (segs : List Segment) (bytes : Bytes) (d : D) (g o : ℕ)
      → Outside g o segs
      → fs.stored (write_segments f opened segs bytes d).0 g o ≡ fs.stored d g o
  unfolding write_segments
  write_segments-kept [] bytes d g o h = refl
  write_segments-kept ((fi, off, len) ∷ segs) bytes d g o (h, hs) =
      let written = f.write_at fi off (take len bytes) d in
      let size : length (take len bytes) ≤ len = omega (arith, length-take len bytes) in
      let here : fs.stored written.0 g o ≡ fs.stored d g o =
        fs.kept fi off (take len bytes) d g o (ground arith) in
      elim (Bool-cases (is_open opened fi)) [
        | inr shut ↦ rw shut (write_segments-kept segs (drop len bytes) d g o hs)
        | inl open_ ↦ elim (Bool-cases written.1) [
          | inr failed ↦ rw (open_, failed) here
          | inl done ↦
              rw (open_, done) (write_segments-kept segs (drop len bytes) written.0 g o hs ∙ here)
        ]
      ]

  -- Where all its writes succeed, the segments hold the piece.
  pub write_segments-HoldsIn :
      (n : ℕ) (segs : List Segment) (bytes : Bytes) (d : D)
      → FilesFrom n segs
      → span segs ≡ length bytes
      → (write_segments f opened segs bytes d).1 ≡ true
      → HoldsIn segs bytes (write_segments f opened segs bytes d).0
  unfolding write_segments
  write_segments-HoldsIn n [] bytes d h size done = tt
  write_segments-HoldsIn n ((fi, off, len) ∷ segs) bytes d (h, hs) size done =
      let written = f.write_at fi off (take len bytes) d in
      let left : span segs ≡ length (drop len bytes) = omega (arith, length-drop len bytes) in
      let front : length (take len bytes) ≡ len = omega (arith, length-take len bytes) in
      elim (Bool-cases (is_open opened fi)) [
        | inr shut ↦
            let rest : (write_segments f opened segs (drop len bytes) d).1 ≡ true =
              (rw shut at done) in
            rw shut (
              (λ open_. absurd (cc open_)),
              write_segments-HoldsIn (suc fi) segs (drop len bytes) d hs left rest,
            )
        | inl open_ ↦ elim (Bool-cases written.1) [
          | inr failed ↦ let no : false ≡ true = (rw (open_, failed) at done) in absurd (cc no)
          | inl all ↦
              let rest : (write_segments f opened segs (drop len bytes) written.0).1 ≡ true =
                (rw (open_, all) at done) in
              let later = write_segments f opened segs (drop len bytes) written.0 in
              let head : (k : ℕ)
                  → k < len
                  → fs.stored later.0 fi (off + k) ≡ get_elem? (take len bytes) k =
                λ k lt.
                  write_segments-kept segs (drop len bytes) written.0 fi (off + k)
                    (FilesFrom-Outside (suc fi) fi (off + k) segs hs (omega arith))
                  ∙ fs.puts fi off (take len bytes) d k all (omega arith) in
              rw (open_, all)
                (
                  (λ _. head),
                  write_segments-HoldsIn (suc fi) segs (drop len bytes) written.0 hs left rest,
                )
        ]
      ]

  pub write_segments-Apart :
      (segs others : List Segment) (bytes more : Bytes) (d : D)
      → Apart segs others
      → HoldsIn others more d
      → HoldsIn others more (write_segments f opened segs bytes d).0
  write_segments-Apart segs [] bytes more d h held = tt
  write_segments-Apart segs ((fi, off, len) ∷ others) bytes more d (h, hs) (here, held) = (
    (λ open_ k lt. write_segments-kept segs bytes d fi (off + k) (h k lt) ∙ here open_ k lt),
    write_segments-Apart segs others bytes (drop len more) d hs held,
  )

  -- What the segments hold is read.
  pub read_segments-HoldsIn :
      (segs : List Segment) (bytes : Bytes) (d : D)
      → span segs ≡ length bytes
      → HoldsIn segs bytes d
      → read_segments f opened segs d ≡ some (visible opened segs bytes)
  unfolding read_segments visible
  read_segments-HoldsIn [] bytes d size h = refl
  read_segments-HoldsIn ((fi, off, len) ∷ segs) bytes d size (h, hs) =
      let left : span segs ≡ length (drop len bytes) = omega (arith, length-drop len bytes) in
      let front : length (take len bytes) ≡ len = omega (arith, length-take len bytes) in
      let rest = read_segments-HoldsIn segs (drop len bytes) d left hs in
      elim (Bool-cases (is_open opened fi)) [
        | inr shut ↦ rw shut rest
        | inl open_ ↦
            let here : f.read_at fi off len d ≡ some (take len bytes) =
              subst (λ n. f.read_at fi off n d ≡ some (take len bytes)) front
                (fs.reads_back fi off (take len bytes) d (λ k lt. h open_ k (omega arith))) in
            rw (open_, here, rest) refl
      ]

-- The segments of a piece are in the bytes from `lo` to `hi` of the whole, and their files ascend.
abbrev pub InRegion : (ℕ → ℕ) → ℕ → ℕ → List Segment → Type 0
InRegion base lo hi segs = All (λ s. (lo ≤ base s.0 + s.1) × (base s.0 + s.1 + s.2 ≤ hi)) segs

abbrev pub offset_at : List FileLayout → ℕ → ℕ
offset_at [] k = 0
offset_at (g ∷ files) zero = g.offset
offset_at (g ∷ files) (suc k) = offset_at files k

pub segments-FilesFrom :
    (ps pe fi n : ℕ) (files : List FileLayout) → n ≤ fi → FilesFrom n (segments ps pe fi files)
unfolding segments
segments-FilesFrom ps pe fi n [] h = tt
segments-FilesFrom ps pe fi n (g ∷ files) h =
    elim (Bool-cases (leb pe g.offset || leb ((g.offset + g.length) % 2 ^ 64) ps)) [
      | inl out ↦ rw out (segments-FilesFrom ps pe (suc fi) n files (omega arith))
      | inr in_ ↦ rw in_ (h, segments-FilesFrom ps pe (suc fi) (suc fi) files (omega arith))
    ]

pub segments-InRegion :
    (base : ℕ → ℕ) (ps pe hi fi : ℕ) (files : List FileLayout)
    → ((k : ℕ) → base (fi + k) ≡ offset_at files k)
    → ps ≤ hi
    → pe ≤ hi
    → InRegion base ps hi (segments ps pe fi files)
unfolding segments
segments-InRegion base ps pe hi fi [] at h k = tt
segments-InRegion base ps pe hi fi (g ∷ files) at h k =
    let first : base fi ≡ g.offset = ap base (let e : fi ≡ fi + 0 = omega arith in e) ∙ at 0 in
    let rest =
      segments-InRegion base ps pe hi (suc fi) files
        (λ j. ap base (let e : suc fi + j ≡ fi + suc j = omega arith in e) ∙ at (suc j)) h k in
    elim (Bool-cases (leb pe g.offset || leb ((g.offset + g.length) % 2 ^ 64) ps)) [
      | inl out ↦ rw out rest
      | inr in_ ↦ rw in_ ((ground arith, ground arith), rest)
    ]

pub InRegion-Outside :
    (base : ℕ → ℕ) (lo hi g o : ℕ) (segs : List Segment)
    → InRegion base lo hi segs
    → (base g + o < lo) ⊎ (hi ≤ base g + o)
    → Outside g o segs
InRegion-Outside base lo hi g o [] h away = tt
InRegion-Outside base lo hi g o ((fi, off, len) ∷ segs) (h, hs) away = (
  elim (Bool-cases (g == fi)) [
    | inr other ↦ inl (ground arith)
    | inl same ↦
        let e : g ≡ fi = (==_iff g fi).0 same in
        let b : base g ≡ base fi = ap base e in inr (ground arith)
  ],
  InRegion-Outside base lo hi g o segs hs away,
)
