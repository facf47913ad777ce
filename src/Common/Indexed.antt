-- ===== src/Common/Indexed.antt =====
-- A property of each element with its number, and sums over a list, under changes of one element.
use mathlib.Core.Path.{subst}
use mathlib.Core.Option.{some-injective}
use xfer_rust.Common.{
  ℕ, zero, suc, ◌+◌, ◌≤◌, ◌<◌, ltb, length-append, length-set, get_elem?-set_self, get_elem?-set_ne,
  ◌≡◌, ◌≢◌, inl, inr, refl, sym, ap, ◌∙◌, arith, Bool, true, false, ◌==◌, ==_iff, some, List, [],
  ◌∷◌, ◌++◌, length, get_elem?, set, Bool-cases, ◌&&◌, if◌then◌else◌, All,
}
use xfer_rust.Common.Sort.{insert_sorted, sort_by}

module _ {A : Type 0} where
  unfoldable pub sum_of : (A → ℕ) → List A → ℕ
  sum_of f [] = 0
  sum_of f (x ∷ xs) = f x + sum_of f xs

  abbrev pub filter : (A → Bool) → List A → List A
  filter p [] = []
  filter p (x ∷ xs) = let rest = filter p xs in if p x then x ∷ rest else rest

  abbrev pub all_of : (A → Bool) → List A → Bool
  all_of p [] = true
  all_of p (x ∷ xs) = p x && all_of p xs

  -- The property of every element and its number.
  abbrev pub Each : (ℕ → A → Type 0) → List A → Type 0
  Each P xs = (i : ℕ) (x : A) → get_elem? xs i ≡ some x → P i x

module _ {A : Type 0} where
  pub sum_of-set :
      (f : A → ℕ) (xs : List A) (i : ℕ) (x v : A)
      → get_elem? xs i ≡ some x
      → sum_of f (set xs i v) + f x ≡ sum_of f xs + f v
  unfolding sum_of
  sum_of-set f [] i x v at = absurd (cc at)
  sum_of-set f (y ∷ xs) zero x v at =
      let e : f y ≡ f x = ap f (some-injective y x at) in omega arith
  sum_of-set f (y ∷ xs) (suc i) x v at = omega (arith, sum_of-set f xs i x v at)

  pub sum_of-append : (f : A → ℕ) (xs ys : List A) → sum_of f (xs ++ ys) ≡ sum_of f xs + sum_of f ys
  unfolding sum_of
  sum_of-append f [] ys = omega arith
  sum_of-append f (x ∷ xs) ys = omega (arith, sum_of-append f xs ys)

  pub sum_of-ge :
      (f : A → ℕ) (xs : List A) (i : ℕ) (x : A) → get_elem? xs i ≡ some x → f x ≤ sum_of f xs
  unfolding sum_of
  sum_of-ge f [] i x at = absurd (cc at)
  sum_of-ge f (y ∷ xs) zero x at = let e : f y ≡ f x = ap f (some-injective y x at) in omega arith
  sum_of-ge f (y ∷ xs) (suc i) x at = omega (arith, sum_of-ge f xs i x at)

  -- A sum that is not 0 has an element that is not.
  pub sum_of-pos :
      (f : A → ℕ) (xs : List A)
      → 0 < sum_of f xs
      → (i : ℕ) × (x : A) × (get_elem? xs i ≡ some x) × (0 < f x)
  unfolding sum_of
  sum_of-pos f [] h = absurd (omega arith)
  sum_of-pos f (x ∷ xs) h = elim (Bool-cases (f x == 0)) [
    | inr here ↦ (0, x, refl, ground arith)
    | inl none_ ↦ let (i, y, at, pos) = sum_of-pos f xs (ground arith) in (suc i, y, at, pos)
  ]

  pub sum_of-filter :
      (f : A → ℕ) (p : A → Bool) (xs : List A)
      → ((x : A) → p x ≡ false → f x ≡ 0)
      → sum_of f (filter p xs) ≡ sum_of f xs
  unfolding sum_of
  sum_of-filter f p [] h = refl
  sum_of-filter f p (x ∷ xs) h = elim (Bool-cases (p x)) [
    | inl e ↦ rw e (ap (λ n. f x + n) (sum_of-filter f p xs h))
    | inr e ↦ let gone = h x e in rw e (omega (arith, sum_of-filter f p xs h))
  ]

  sum_of-insert :
      (f : A → ℕ) (before : A → A → Bool) (x : A) (xs : List A)
      → sum_of f (insert_sorted before x xs) ≡ f x + sum_of f xs
  unfolding sum_of
  sum_of-insert f before x [] = refl
  sum_of-insert f before x (y ∷ ys) = elim (Bool-cases (before x y)) [
    | inl e ↦ rw e refl
    | inr e ↦ rw e (omega (arith, sum_of-insert f before x ys))
  ]

  pub sum_of-sort :
      (f : A → ℕ) (before : A → A → Bool) (xs : List A) → sum_of f (sort_by before xs) ≡ sum_of f xs
  unfolding sum_of
  sum_of-sort f before [] = refl
  sum_of-sort f before (x ∷ xs) =
      sum_of-insert f before x (sort_by before xs) ∙ ap (λ n. f x + n) (sum_of-sort f before xs)

  pub filter-All : (P : A → Type 0) (p : A → Bool) (xs : List A) → All P xs → All P (filter p xs)
  filter-All P p [] h = tt
  filter-All P p (x ∷ xs) (h, hs) = elim (Bool-cases (p x)) [
    | inl e ↦ rw e (h, filter-All P p xs hs)
    | inr e ↦ rw e (filter-All P p xs hs)
  ]

  pub filter-true : (p : A → Bool) (xs : List A) → All (λ x. p x ≡ true) (filter p xs)
  filter-true p [] = tt
  filter-true p (x ∷ xs) = elim (Bool-cases (p x)) [
    | inl e ↦ rw e (e, filter-true p xs)
    | inr e ↦ rw e (filter-true p xs)
  ]

  pub all_of-All : (p : A → Bool) (xs : List A) → All (λ x. p x ≡ true) xs → all_of p xs ≡ true
  all_of-All p [] h = refl
  all_of-All p (x ∷ xs) (h, hs) = rw h (all_of-All p xs hs)

  -- The two forms of a property of all elements.
  pub All-Each : (P : A → Type 0) (xs : List A) → All P xs → Each (λ i x. P x) xs
  All-Each P [] h i x at = absurd (cc at)
  All-Each P (y ∷ ys) h zero x at = subst P (some-injective y x at) h.0
  All-Each P (y ∷ ys) h (suc i) x at = All-Each P ys h.1 i x at

  pub Each-All : (P : A → Type 0) (xs : List A) → Each (λ i x. P x) xs → All P xs
  Each-All P [] h = tt
  Each-All P (y ∷ ys) h = (h 0 y refl, Each-All P ys λ i x at. h (suc i) x at)

  pub get_elem?-lt : (xs : List A) (i : ℕ) (x : A) → get_elem? xs i ≡ some x → i < length xs
  get_elem?-lt [] i x at = absurd (cc at)
  get_elem?-lt (y ∷ xs) zero x at = omega arith
  get_elem?-lt (y ∷ xs) (suc i) x at = omega (arith, get_elem?-lt xs i x at)

  pub get_elem?-append :
      (xs ys : List A) (i : ℕ) → i < length xs → get_elem? (xs ++ ys) i ≡ get_elem? xs i
  get_elem?-append [] ys i lt = absurd (omega arith)
  get_elem?-append (x ∷ xs) ys zero lt = refl
  get_elem?-append (x ∷ xs) ys (suc i) lt = get_elem?-append xs ys i (omega arith)

  pub get_elem?-append_last : (xs : List A) (v : A) → get_elem? (xs ++ v ∷ []) (length xs) ≡ some v
  get_elem?-append_last [] v = refl
  get_elem?-append_last (x ∷ xs) v = get_elem?-append_last xs v

  module _ (P : ℕ → A → Type 0) where
    -- Nothing is asked of the element that is replaced.
    pub Each-replace :
        (xs : List A) (i : ℕ) (v : A)
        → ((j : ℕ) (x : A) → i ≢ j → get_elem? xs j ≡ some x → P j x)
        → P i v
        → Each P (set xs i v)
    Each-replace xs i v h new j x at = elim (Bool-cases (i == j)) [
      | inr other ↦ let ne : i ≢ j = ground arith in h j x ne (sym (get_elem?-set_ne xs v ne) ∙ at)
      | inl same ↦
          let e : i ≡ j = (==_iff i j).0 same in
          let lt : i < length xs =
            omega (arith, get_elem?-lt (set xs i v) j x at, length-set xs i v) in
          let there =
            subst (λ k. get_elem? (set xs i v) k ≡ some v) e (get_elem?-set_self xs i v lt) in
          subst (P j) (some-injective v x (sym there ∙ at)) (subst (λ k. P k v) e new)
    ]

    pub Each-set : (xs : List A) (i : ℕ) (v : A) → Each P xs → P i v → Each P (set xs i v)
    Each-set xs i v h new = Each-replace xs i v (λ j x ne at. h j x at) new

    pub Each-append : (xs : List A) (v : A) → Each P xs → P (length xs) v → Each P (xs ++ v ∷ [])
    Each-append xs v h new j x at = elim (Bool-cases (ltb j (length xs))) [
      | inl inside ↦ h j x (sym (get_elem?-append xs (v ∷ []) j (ground arith)) ∙ at)
      | inr past ↦
          let e : length xs ≡ j =
            ground (arith, get_elem?-lt (xs ++ v ∷ []) j x at, length-append xs (v ∷ [])) in
          let there =
            subst (λ k. get_elem? (xs ++ v ∷ []) k ≡ some v) e (get_elem?-append_last xs v) in
          subst (P j) (some-injective v x (sym there ∙ at)) (subst (λ k. P k v) e new)
    ]
