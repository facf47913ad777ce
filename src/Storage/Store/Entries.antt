-- ===== src/Storage/Store/Entries.antt =====
-- The entries of the write-back cache of crates/xfer-storage/src/piece.rs: one for a piece, and their bytes.
use mathlib.Core.Path.{subst}
use xfer_rust.Common.{
  ℕ, ◌+◌, ◌≡◌, ◌≢◌, inl, inr, refl, ◌∙◌, arith, false, none, some, List, [], ◌∷◌, ◌++◌, ◌==◌,
  ==_iff, length, Bool-cases,
}
use xfer_rust.Storage.Store.{CachedPiece, find_cached, remove_cached, removed_bytes}

abbrev pub cached_bytes : List CachedPiece → ℕ
cached_bytes [] = 0
cached_bytes (c ∷ cs) = length c.bytes + cached_bytes cs

-- No piece has two copies.
abbrev pub Single : List CachedPiece → Type 0
Single [] = Unit
Single (c ∷ cs) = (find_cached c.index cs ≡ none) × Single cs

pub cached_bytes-remove :
    (i : ℕ) (cs : List CachedPiece)
    → cached_bytes cs ≡ removed_bytes (find_cached i cs) + cached_bytes (remove_cached i cs)
unfolding find_cached remove_cached
cached_bytes-remove i [] = refl
cached_bytes-remove i (c ∷ cs) = elim (Bool-cases (c.index == i)) [
  | inl e ↦ rw e refl
  | inr e ↦ rw e (let h = cached_bytes-remove i cs in omega arith)
]

pub cached_bytes-append :
    (cs ds : List CachedPiece) → cached_bytes (cs ++ ds) ≡ cached_bytes cs + cached_bytes ds
cached_bytes-append [] ds = omega arith
cached_bytes-append (c ∷ cs) ds = let h = cached_bytes-append cs ds in omega arith

-- The other pieces are found as before.
pub find_cached-remove_other :
    (i j : ℕ) (cs : List CachedPiece)
    → i ≢ j
    → find_cached j (remove_cached i cs) ≡ find_cached j cs
unfolding find_cached remove_cached
find_cached-remove_other i j [] ne = refl
find_cached-remove_other i j (c ∷ cs) ne = elim (Bool-cases (c.index == i)) [
  | inl e ↦ let other : c.index == j ≡ false = ground arith in rw (e, other) refl
  | inr e ↦ elim (Bool-cases (c.index == j)) [
    | inl g ↦ rw (e, g) refl
    | inr g ↦ rw (e, g) (find_cached-remove_other i j cs ne)
  ]
]

pub find_cached-remove :
    (i : ℕ) (cs : List CachedPiece) → Single cs → find_cached i (remove_cached i cs) ≡ none
unfolding find_cached remove_cached
find_cached-remove i [] h = refl
find_cached-remove i (c ∷ cs) (h, hs) = elim (Bool-cases (c.index == i)) [
  | inl e ↦ rw e (subst (λ k. find_cached k cs ≡ none) ((==_iff c.index i).0 e) h)
  | inr e ↦ rw (e, e) (find_cached-remove i cs hs)
]

pub remove_cached-Single : (i : ℕ) (cs : List CachedPiece) → Single cs → Single (remove_cached i cs)
unfolding remove_cached
remove_cached-Single i [] h = tt
remove_cached-Single i (c ∷ cs) (h, hs) = elim (Bool-cases (c.index == i)) [
  | inl e ↦ rw e hs
  | inr e ↦
      let ne : i ≢ c.index = ground arith in
      rw e (find_cached-remove_other i c.index cs ne ∙ h, remove_cached-Single i cs hs)
]

pub find_cached-append :
    (i : ℕ) (cs : List CachedPiece) (c : CachedPiece)
    → find_cached i cs ≡ none
    → find_cached i (cs ++ c ∷ []) ≡ find_cached i (c ∷ [])
unfolding find_cached
find_cached-append i [] c h = refl
find_cached-append i (d ∷ cs) c h = elim (Bool-cases (d.index == i)) [
  | inl e ↦ let no : some d.bytes ≡ none = (rw e at h) in absurd (cc no)
  | inr e ↦ rw e (find_cached-append i cs c (rw e at h))
]

pub find_cached-append_other :
    (i : ℕ) (cs : List CachedPiece) (c : CachedPiece)
    → c.index ≢ i
    → find_cached i (cs ++ c ∷ []) ≡ find_cached i cs
unfolding find_cached
find_cached-append_other i [] c ne = let e : c.index == i ≡ false = ground arith in rw e refl
find_cached-append_other i (d ∷ cs) c ne = elim (Bool-cases (d.index == i)) [
  | inl e ↦ rw e refl
  | inr e ↦ rw e (find_cached-append_other i cs c ne)
]

pub Single-append :
    (cs : List CachedPiece) (c : CachedPiece)
    → Single cs
    → find_cached c.index cs ≡ none
    → Single (cs ++ c ∷ [])
unfolding find_cached
Single-append [] c h new = (refl, tt)
Single-append (d ∷ cs) c (h, hs) new = elim (Bool-cases (d.index == c.index)) [
  | inl e ↦ let no : some d.bytes ≡ none = (rw e at new) in absurd (cc no)
  | inr e ↦
      let ne : c.index ≢ d.index = ground arith in
      (find_cached-append_other d.index cs c ne ∙ h, Single-append cs c hs (rw e at new))
]
