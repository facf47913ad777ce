-- ===== src/Storage/Layout/Segments.antt =====
-- `piece_segments` of `PieceLayout`: the segments of a piece lie one behind the other in the files.
use mathlib.Core.Path.{subst}
use xfer_rust.Common.{
  ℕ, suc, ◌+◌, ◌-◌, ◌*◌, ◌%◌, ◌^◌, ◌≤◌, ◌<◌, min, max, ◌≡◌, ◌⊎◌, inl, inr, refl, sym, ap, ◌∙◌,
  arith, some, List, [], ◌∷◌, ◌==◌, leb, leb→le, Bool-cases, get_elem?,
}
use xfer_rust.Storage.Layout.{
  FileLayout, PieceLayout, place, new_layout, sum_lengths, total_length, piece_len, segments,
  piece_segments,
}

-- Each file starts where the one before it ends.
abbrev pub Placed : ℕ → List FileLayout → Type 0
Placed offset [] = Unit
Placed offset (f ∷ files) = (f.offset ≡ offset) × Placed (offset + f.length) files

-- From the position `pos` of the torrent to `finish`: each segment stands in its file, at the file's
-- offset where the segment before it ended, and it is empty only in an empty file.
abbrev pub Lays : List FileLayout → ℕ → ℕ → List (ℕ × ℕ × ℕ) → Type 0
Lays all pos finish [] = pos ≡ finish
Lays all pos finish ((fi, off, len) ∷ segs) =
    ((f : FileLayout) × (get_elem? all fi ≡ some f)
      × (f.offset + off ≡ pos)
      × (off + len ≤ f.length)
      × ((0 < len) ⊎ (f.length ≡ 0)))
    × Lays all (pos + len) finish segs

-- The sum of the lengths that the files are to have.
abbrev pub sum_of_lengths : List (List (List ℕ) × ℕ) → ℕ
sum_of_lengths [] = 0
sum_of_lengths ((path, len) ∷ files) = len + sum_of_lengths files

place-Placed :
    (offset : ℕ) (files : List (List (List ℕ) × ℕ))
    → offset + sum_of_lengths files < 2 ^ 64
    → Placed offset (place offset files) × (sum_lengths (place offset files) ≡ sum_of_lengths files)
unfolding place
place-Placed offset [] fits = (tt, refl)
place-Placed offset ((path, len) ∷ files) fits =
    let e : (offset + len) % 2 ^ 64 ≡ offset + len = omega arith in
    let (placed, sum) = place-Placed (offset + len) files (omega arith) in
    rw e ((refl, placed), ap (λ n. len + n) sum)

module _ (ps pe : ℕ) where
  segments-past :
      (fi o : ℕ) (files : List FileLayout) → Placed o files → pe ≤ o → segments ps pe fi files ≡ []
  unfolding segments
  segments-past fi o [] h past = refl
  segments-past fi o (f ∷ files) (at, more) past =
      ground (arith, segments-past (suc fi) (o + f.length) files more)

  segments-before :
      (fi o : ℕ) (files : List FileLayout)
      → Placed o files
      → o + sum_lengths files ≤ ps
      → o + sum_lengths files < 2 ^ 64
      → segments ps pe fi files ≡ []
  unfolding segments
  segments-before fi o [] h past fits = refl
  segments-before fi o (f ∷ files) (at, more) past fits =
      ground (arith, segments-before (suc fi) (o + f.length) files more)

  segments-Lays :
      (all : List FileLayout) (fi o : ℕ) (files : List FileLayout)
      → ((k : ℕ) → get_elem? files k ≡ get_elem? all (fi + k))
      → Placed o files
      → ps < pe
      → o ≤ pe
      → pe ≤ o + sum_lengths files
      → o + sum_lengths files < 2 ^ 64
      → Lays all (max ps o) pe (segments ps pe fi files)
  unfolding segments
  segments-Lays all fi o [] at h some_bytes low high fits = omega arith
  segments-Lays all fi o (f ∷ files) at (here, more) some_bytes low high fits =
      let next = o + f.length in
      let at' : (k : ℕ) → get_elem? files k ≡ get_elem? all (suc fi + k) =
        λ k. at (suc k) ∙ ap (get_elem? all) (let e : fi + suc k ≡ suc fi + k = omega arith in e) in
      let more_segs = segments ps pe (suc fi) files in
      let rest : next ≤ pe → Lays all (max ps next) pe more_segs = λ inside.
        segments-Lays all (suc fi) next files at' more some_bytes inside (omega arith)
          (omega arith) in
      let lies = λ (p q : ℕ) (e : p ≡ q) (h : Lays all p pe more_segs).
        subst (λ t. Lays all t pe more_segs) e h in
      let tail : ps < next → Lays all (min pe next) pe more_segs = λ begun.
        elim (Bool-cases (leb next pe)) [
          | inl inside ↦
              lies (max ps next) (min pe next) (ground arith) (rest (leb→le next pe inside))
          | inr past ↦ rw (segments-past (suc fi) next files more (ground arith)) (ground arith)
        ] in
      let exact : (f.offset + f.length) % 2 ^ 64 ≡ f.offset + f.length = omega arith in
      rw exact (elim (Bool-cases (leb pe f.offset)) [
        | inl past ↦ rw (past, segments-past (suc fi) next files more (ground arith)) (ground arith)
        | inr open_ ↦ elim (Bool-cases (leb (f.offset + f.length) ps)) [
          | inl before ↦
              rw (open_, before)
                (lies (max ps next) (max ps o) (ground arith) (rest (ground arith)))
          | inr begun ↦
              let found : some f ≡ get_elem? all fi =
                at 0 ∙ ap (get_elem? all) (let e : fi + 0 ≡ fi = omega arith in e) in
              let begins : max ps f.offset ≡ max ps o = omega arith in
              let opened : f.offset < pe = ground arith in
              let left : ps < f.offset + f.length = ground arith in
              let off = max ps f.offset - f.offset in
              let len = min pe (f.offset + f.length) - f.offset - off in
              let nonempty : (0 < len) ⊎ (f.length ≡ 0) = omega arith in
              rw (open_, begun)
                (
                  (f, sym found, omega arith, omega arith, nonempty),
                  lies (min pe next) (max ps o + len) (omega arith) (tail (omega arith)),
                )
        ]
      ])

piece_segments-Placed :
    (l : PieceLayout) (index : ℕ)
    → Placed 0 l.files
    → sum_lengths l.files < 2 ^ 64
    → index * l.piece_length + l.piece_length < 2 ^ 64
    → Lays l.files
        (index * l.piece_length)
        (index * l.piece_length + piece_len l index)
        (piece_segments l index)
unfolding piece_segments piece_len total_length
piece_segments-Placed l index h fits ends =
    let ps = index * l.piece_length in
    let total = sum_lengths l.files in
    let pe = min (ps + l.piece_length) total in
    let starts : ps % 2 ^ 64 ≡ ps = omega arith in
    let stops : (ps + l.piece_length) % 2 ^ 64 ≡ ps + l.piece_length = omega arith in
    let whole : total % 2 ^ 64 ≡ total = omega arith in
    rw (starts, stops, whole)
      (elim (Bool-cases (leb total ps)) [
        | inl past ↦
            rw (past, segments-before ps pe 0 0 l.files h (ground arith) (omega arith))
              (omega arith)
        | inr inside ↦
            let below : ps < total = ground arith in
            elim (Bool-cases (l.piece_length == 0)) [
              | inl none_ ↦
                  let empty : l.piece_length ≡ 0 = ground arith in
                  let start : ps ≡ 0 = ap (λ n. index * n) empty ∙ omega arith in
                  rw (inside, segments-past ps pe 0 0 l.files h (omega arith)) (omega arith)
              | inr some_ ↦
                  let pos : 0 < l.piece_length = ground arith in
                  let finish : pe ≡ ps + min (total - ps) l.piece_length = omega arith in
                  let lies =
                    segments-Lays ps pe l.files 0 0 l.files
                      (λ k. ap (get_elem? l.files) (let e : k ≡ 0 + k = omega arith in e)) h
                      (omega arith) (omega arith) (omega arith) (omega arith) in
                  let begins : max ps 0 ≡ ps = omega arith in
                  rw inside (
                    subst (λ t. Lays l.files ps t (segments ps pe 0 l.files)) finish
                      (subst (λ t. Lays l.files t pe (segments ps pe 0 l.files)) begins lies))
            ]
      ])

-- In a layout that `PieceLayout::new` makes of files whose lengths add up to a u64, the segments of a piece
-- whose start and length add up to a u64 lie one behind the other, each within its file, from the piece's
-- first byte to its last: they cover exactly the `piece_len` bytes of the piece, none of them twice, and
-- only an empty file has an empty segment.
pub piece_segments-Lays :
    (piece_length : ℕ) (files : List (List (List ℕ) × ℕ)) (index : ℕ)
    → sum_of_lengths files < 2 ^ 64
    → index * piece_length + piece_length < 2 ^ 64
    → let l = new_layout piece_length files in
      Lays l.files
        (index * l.piece_length)
        (index * l.piece_length + piece_len l index)
        (piece_segments l index)
unfolding new_layout
piece_segments-Lays piece_length files index fits ends =
    let (placed, sum) = place-Placed 0 files (omega arith) in
    piece_segments-Placed (new_layout piece_length files) index placed
      (let e : sum_lengths (place 0 files) < 2 ^ 64 = omega arith in e) ends
