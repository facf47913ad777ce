-- ===== src/Storage/Layout/Done.antt =====
-- `files_done_bytes` of crates/xfer-storage/src/piece.rs, by one pass over pieces and files. The cursors `fi`
-- and `j` are the numbers of files that the pass has behind it.
use mathlib.Core.List.{map}
use xfer_rust.Storage.Layout.{FileLayout, PieceLayout, total_length}
use xfer_rust.Common.{
  ℕ, zero, suc, ◌+◌, ◌-◌, ◌*◌, ◌/◌, ◌%◌, ◌^◌, ◌≤◌, min, max, ◌≡◌, refl, sym, ap, ◌∙◌, arith, Bool,
  ◌||◌, inl, inr, List, [], ◌∷◌, ◌++◌, ltb, leb, ◌==◌, if◌then◌else◌, length, length-drop,
  replicate, take, drop, Bool-cases, All,
}

-- Where a file ends; the sum wraps.
abbrev pub end_of : ℕ × ℕ → ℕ
end_of f = (f.0 + f.1) % 2 ^ 64

-- The bytes of a piece, from `p_start` to `p_end`, that are in a file are added to what the file has.
abbrev pub credit : ℕ → ℕ → ℕ × ℕ → ℕ → ℕ
credit p_start p_end f o =
    let seg_start = max p_start f.0 in
    let seg_end = min p_end (end_of f) in
    if ltb seg_start seg_end then (o + (seg_end - seg_start)) % 2 ^ 64 else o

-- The files that end at or before the piece.
unfoldable pub skip_files : ℕ → List (ℕ × ℕ) → ℕ
skip_files p_start [] = 0
skip_files p_start (f ∷ files) =
    let rest = skip_files p_start files in if leb (end_of f) p_start then suc rest else 0

-- The files that begin before the end of the piece.
unfoldable pub credit_files : ℕ → ℕ → List (ℕ × ℕ) → List ℕ → List ℕ
credit_files p_start p_end [] out = out
credit_files p_start p_end (f ∷ files) [] = []
credit_files p_start p_end (f ∷ files) (o ∷ out) =
    let rest = credit_files p_start p_end files out in
    if ltb f.0 p_end then credit p_start p_end f o ∷ rest else o ∷ out

module _ (piece_length total_length : ℕ) (files : List (ℕ × ℕ)) (have : ℕ → Bool) where
  abbrev pub piece_start : ℕ → ℕ
  piece_start i = i * piece_length % 2 ^ 64

  abbrev pub piece_end : ℕ → ℕ
  piece_end i = min ((piece_start i + piece_length) % 2 ^ 64) total_length

  -- Pieces `i` and those that follow, `n` of them.
  unfoldable pub pieces_loop : ℕ → ℕ → ℕ → List ℕ → List ℕ
  pieces_loop i zero fi out = out
  pieces_loop i (suc n) fi out =
      let next = fi + skip_files (piece_start i) (drop fi files) in
      let credited =
        take next out
        ++ credit_files (piece_start i) (piece_end i) (drop next files) (drop next out) in
      let c : ℕ × List ℕ = if have (i % 2 ^ 32) then (next, credited) else (fi, out) in
      pieces_loop (suc i) n c.0 c.1

  unfoldable pub files_done_bytes : List ℕ
  files_done_bytes =
      let out = replicate (length files) 0 in
      let count =
        total_length / piece_length + (if total_length % piece_length == 0 then 0 else 1) in
      if piece_length == 0 || (total_length == 0 || length files == 0)
      then out
      else pieces_loop 0 count 0 out

-- The same for the files of a layout.
unfoldable pub layout_done_bytes : PieceLayout → (ℕ → Bool) → List ℕ
layout_done_bytes l have =
    files_done_bytes l.piece_length (total_length l)
      (map (λ (f : FileLayout). (f.offset, f.length)) l.files) have

-- Each file has its share of the piece.
abbrev pub credit_all : ℕ → ℕ → List (ℕ × ℕ) → List ℕ → List ℕ
credit_all p_start p_end [] out = out
credit_all p_start p_end (f ∷ files) [] = []
credit_all p_start p_end (f ∷ files) (o ∷ out) =
    credit p_start p_end f o ∷ credit_all p_start p_end files out

-- The files in the order of where they begin.
abbrev pub Ascend : List (ℕ × ℕ) → Type 0
Ascend [] = Unit
Ascend (f ∷ files) = All (λ g. f.0 ≤ g.0) files × Ascend files

credit_all-none :
    (p_start p_end : ℕ) (files : List (ℕ × ℕ)) (out : List ℕ)
    → All (λ f. p_end ≤ f.0) files
    → length out ≡ length files
    → credit_all p_start p_end files out ≡ out
credit_all-none p_start p_end [] out h len = refl
credit_all-none p_start p_end (f ∷ files) [] h len = refl
credit_all-none p_start p_end (f ∷ files) (o ∷ out) (h, hs) len =
    let none_ : credit p_start p_end f o ≡ o = ground arith in
    (λ i. none_ i ∷ credit_all-none p_start p_end files out hs (omega arith) i)

All-begin :
    (a b : ℕ) (files : List (ℕ × ℕ)) → a ≤ b → All (λ g. b ≤ g.0) files → All (λ g. a ≤ g.0) files
All-begin a b [] le h = tt
All-begin a b (g ∷ files) le (h, hs) = (omega arith, All-begin a b files le hs)

credit_files-all :
    (p_start p_end : ℕ) (files : List (ℕ × ℕ)) (out : List ℕ)
    → Ascend files
    → length out ≡ length files
    → credit_files p_start p_end files out ≡ credit_all p_start p_end files out
unfolding credit_files
credit_files-all p_start p_end [] out h len = refl
credit_files-all p_start p_end (f ∷ files) [] h len = refl
credit_files-all p_start p_end (f ∷ files) (o ∷ out) (first, h) len =
    elim (Bool-cases (ltb f.0 p_end)) [
      | inl e ↦ rw e (
          ap (λ xs. credit p_start p_end f o ∷ xs)
            (credit_files-all p_start p_end files out h (omega arith)))
      | inr e ↦ rw e (
          sym (
            credit_all-none p_start p_end (f ∷ files) (o ∷ out)
              (
                (let le : p_end ≤ f.0 = ground arith in le),
                All-begin p_end f.0 files (ground arith) first,
              )
              len))
    ]

-- Files that end before the piece have no share.
credit_all-behind :
    (p_start p_end n : ℕ) (files : List (ℕ × ℕ)) (out : List ℕ)
    → All (λ f. end_of f ≤ p_start) (take n files)
    → length out ≡ length files
    → take n out ++ credit_all p_start p_end (drop n files) (drop n out)
      ≡ credit_all p_start p_end files out
credit_all-behind p_start p_end zero files out h len = refl
credit_all-behind p_start p_end (suc n) [] [] h len = refl
credit_all-behind p_start p_end (suc n) [] (o ∷ out) h len = absurd (omega arith)
credit_all-behind p_start p_end (suc n) (f ∷ files) [] h len = absurd (omega arith)
credit_all-behind p_start p_end (suc n) (f ∷ files) (o ∷ out) (h, hs) len =
    let none_ : o ≡ credit p_start p_end f o = ground arith in
    (λ i. none_ i ∷ credit_all-behind p_start p_end n files out hs (omega arith) i)

length-credit_all :
    (p_start p_end : ℕ) (files : List (ℕ × ℕ)) (out : List ℕ)
    → length out ≡ length files
    → length (credit_all p_start p_end files out) ≡ length files
length-credit_all p_start p_end [] [] len = refl
length-credit_all p_start p_end [] (o ∷ out) len = absurd (omega arith)
length-credit_all p_start p_end (f ∷ files) [] len = absurd (omega arith)
length-credit_all p_start p_end (f ∷ files) (o ∷ out) len =
    ap suc (length-credit_all p_start p_end files out (omega arith))

-- What a cursor has behind it ends at or before the piece, also after it was moved on.
All-take_nil : (k p_start : ℕ) → All (λ (f : ℕ × ℕ). end_of f ≤ p_start) (take k [])
All-take_nil zero p_start = tt
All-take_nil (suc k) p_start = tt

pub skip_files-All :
    (p_start k n : ℕ) (files : List (ℕ × ℕ))
    → k ≡ n + skip_files p_start (drop n files)
    → All (λ f. end_of f ≤ p_start) (take n files)
    → All (λ f. end_of f ≤ p_start) (take k files)
unfolding skip_files
skip_files-All p_start k n [] e h = All-take_nil k p_start
skip_files-All p_start zero n (f ∷ files) e h = tt
skip_files-All p_start (suc k) (suc n) (f ∷ files) e (h, hs) =
    (h, skip_files-All p_start k n files (omega arith) hs)
skip_files-All p_start (suc k) zero (f ∷ files) e h =
    (ground arith, skip_files-All p_start k 0 files (ground arith) tt)

Ascend-drop : (n : ℕ) (files : List (ℕ × ℕ)) → Ascend files → Ascend (drop n files)
Ascend-drop zero files h = h
Ascend-drop (suc n) [] h = tt
Ascend-drop (suc n) (f ∷ files) (h, hs) = Ascend-drop n files hs

pub All-later :
    (a b : ℕ) (files : List (ℕ × ℕ))
    → a ≤ b
    → All (λ f. end_of f ≤ a) files
    → All (λ f. end_of f ≤ b) files
All-later a b [] le h = tt
All-later a b (f ∷ files) le (h, hs) = (omega arith, All-later a b files le hs)

-- One piece, on the files from the cursor on, gives each file its share.
pub credit_from :
    (p_start p_end fi : ℕ) (files : List (ℕ × ℕ)) (out : List ℕ)
    → Ascend files
    → length out ≡ length files
    → All (λ f. end_of f ≤ p_start) (take fi files)
    → take fi out ++ credit_files p_start p_end (drop fi files) (drop fi out)
      ≡ credit_all p_start p_end files out
credit_from p_start p_end fi files out up len behind =
    ap (λ xs. take fi out ++ xs)
      (credit_files-all p_start p_end (drop fi files) (drop fi out) (Ascend-drop fi files up)
        (length-drop fi out ∙ ap (λ k. k - fi) len ∙ sym (length-drop fi files)))
    ∙ credit_all-behind p_start p_end fi files out behind len
