-- ===== src/Storage/Layout/Counts.antt =====
-- The bytes that `files_done_bytes` of crates/xfer-storage/src/piece.rs gives a file, as a count of single bytes.
use mathlib.Core.List.{map}
use xfer_rust.Storage.Layout.Done.{end_of, credit, credit_all}
use xfer_rust.Common.{
  ℕ, zero, suc, ◌+◌, ◌-◌, ◌^◌, ◌≤◌, ◌<◌, min, max, ◌≡◌, refl, sym, ap, ◌∙◌, arith, Bool, false,
  ◌&&◌, inl, inr, List, [], ◌∷◌, ltb, leb, if◌then◌else◌, length, replicate, Bool-cases, All,
}

-- How many of the `n` numbers from `x` on pass a test.
abbrev pub count : (ℕ → Bool) → ℕ → ℕ → ℕ
count p x zero = 0
count p x (suc n) = (if p x then 1 else 0) + count p (suc x) n

abbrev pub in_file : ℕ × ℕ → ℕ → Bool
in_file f x = leb f.0 x && ltb x (f.0 + f.1)

pub count-append : (p : ℕ → Bool) (x m n : ℕ) → count p x (m + n) ≡ count p x m + count p (x + m) n
count-append p x zero n =
    let start : n ≡ 0 + n = omega arith in
    let e : count p x n ≡ count p (x + 0) n =
      ap (λ y. count p y n) (let e : x ≡ x + 0 = omega arith in e) in
    ap (count p x) (sym start)
    ∙ e
    ∙ (let z : count p (x + 0) n ≡ 0 + count p (x + 0) n = omega arith in z)
count-append p x (suc m) n =
    let e : suc x + m ≡ x + suc m = omega arith in
    let rest = count-append p (suc x) m n ∙ ap (λ y. count p (suc x) m + count p y n) e in
    let start : suc m + n ≡ suc (m + n) = omega arith in
    let opened : count p x (suc (m + n)) ≡ count p x (suc m) + count p (x + suc m) n =
      omega arith in
    ap (count p x) start ∙ opened

count-le : (p : ℕ → Bool) (x n : ℕ) → count p x n ≤ n
count-le p x zero = omega arith
count-le p x (suc n) = ground (arith, count-le p (suc x) n)

-- Tests that agree on the numbers count the same.
pub count-same :
    (p q : ℕ → Bool) (x n : ℕ)
    → ((k : ℕ) → k < n → p (x + k) ≡ q (x + k))
    → count p x n ≡ count q x n
count-same p q x zero h = refl
count-same p q x (suc n) h =
    let here : p x ≡ q x =
      let e : x ≡ x + 0 = omega arith in ap p e ∙ h 0 (omega arith) ∙ ap q (sym e) in
    let rest = count-same p q (suc x) n (λ k lt.
      let e : suc x + k ≡ x + suc k = omega arith in
      ap p e ∙ h (suc k) (omega arith) ∙ ap q (sym e)) in
    rw here (ap (λ m. (if q x then 1 else 0) + m) rest)

pub count-none : (x n : ℕ) → count (λ y. false) x n ≡ 0
count-none x zero = refl
count-none x (suc n) = ap (λ m. 0 + m) (count-none (suc x) n)

-- The bytes of a file among those from `x` to `x + n` are counted by the difference of two bounds.
count-in_file :
    (f : ℕ × ℕ) (x n : ℕ)
    → f.0 + f.1 < 2 ^ 64
    → count (in_file f) x n ≡ min (x + n) (end_of f) - max x f.0
count-in_file f x zero fits = omega arith
count-in_file f x (suc n) fits = ground (arith, count-in_file f (suc x) n fits)

pub map-All :
    (g h : ℕ × ℕ → ℕ) (P : ℕ × ℕ → Type 0) (files : List (ℕ × ℕ))
    → ((f : ℕ × ℕ) → P f → g f ≡ h f)
    → All P files
    → map g files ≡ map h files
map-All g h P [] same h' = refl
map-All g h P (f ∷ files) same (here, more) = (λ i. same f here i ∷ map-All g h P files same more i)

pub length-map : (g : ℕ × ℕ → ℕ) (files : List (ℕ × ℕ)) → length (map g files) ≡ length files
length-map g [] = refl
length-map g (f ∷ files) = ap suc (length-map g files)

pub credit_all-map :
    (a b : ℕ) (g : ℕ × ℕ → ℕ) (files : List (ℕ × ℕ))
    → credit_all a b files (map g files) ≡ map (λ f. credit a b f (g f)) files
credit_all-map a b g [] = refl
credit_all-map a b g (f ∷ files) = ap (λ xs. credit a b f (g f) ∷ xs) (credit_all-map a b g files)

pub zeros-map : (files : List (ℕ × ℕ)) → replicate {A = ℕ} (length files) 0 ≡ map (λ f. 0) files
zeros-map [] = refl
zeros-map (f ∷ files) = ap (λ xs. 0 ∷ xs) (zeros-map files)

pub empty-map :
    (g : ℕ × ℕ → ℕ) (files : List (ℕ × ℕ))
    → length files ≡ 0
    → replicate {A = ℕ} (length files) 0 ≡ map g files
empty-map g [] e = refl
empty-map g (f ∷ files) e = absurd (omega arith)

-- From where the count stands at `a`, the share of the bytes from `a` to `b` leads to where it stands at `b`.
pub credit-count :
    (p : ℕ → Bool) (f : ℕ × ℕ) (a b : ℕ)
    → f.0 + f.1 < 2 ^ 64
    → a ≤ b
    → b < 2 ^ 64
    → count p a (b - a) ≡ count (in_file f) a (b - a)
    → credit a b f (count p 0 a) ≡ count p 0 b
credit-count p f a b fits le small same =
    let n = b - a in
    let e : a + n ≡ b = omega arith in
    let z : 0 + a ≡ a = omega arith in
    let whole : count p 0 b ≡ count p 0 a + count p a n =
      ap (count p 0) (sym e) ∙ count-append p 0 a n ∙ ap (λ y. count p 0 a + count p y n) z in
    let share : count (in_file f) a n ≡ min b (end_of f) - max a f.0 =
      count-in_file f a n fits ∙ ap (λ y. min y (end_of f) - max a f.0) e in
    let most = count-le p 0 b in
    elim (Bool-cases (ltb (max a f.0) (min b (end_of f)))) [
      | inl some_ ↦ rw some_ (omega arith)
      | inr none_ ↦ rw none_ (ground arith)
    ]
