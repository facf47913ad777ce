-- ===== src/Common/Sort.antt =====
-- `sort_by_key`: a stable sort by a test for "not after", which the keys of the code define.
use mathlib.Core.List.{Perm}
use mathlib.Core.List.Perm
use xfer_rust.Common.{
  ℕ, zero, take, drop, All-take, All-drop, suc, ◌≡◌, refl, ap, ◌∙◌, Bool, true, false, List, [],
  ◌∷◌, if◌then◌else◌, Bool-cases, inl, inr, length, All,
}

module _ {A : Type 0} (before : A → A → Bool) where
  abbrev pub insert_sorted : A → List A → List A
  insert_sorted x [] = x ∷ []
  insert_sorted x (y ∷ ys) = if before x y then x ∷ y ∷ ys else y ∷ insert_sorted x ys

  abbrev pub sort_by : List A → List A
  sort_by [] = []
  sort_by (x ∷ xs) = insert_sorted x (sort_by xs)

  -- Each element comes no later than all behind it.
  abbrev pub Ordered : List A → Type 0
  Ordered [] = Unit
  Ordered (x ∷ xs) = All (λ y. before x y ≡ true) xs × Ordered xs

module _ {A : Type 0} (before : A → A → Bool) where
  insert_sorted-perm : (x : A) (ys : List A) → Perm (insert_sorted before x ys) (x ∷ ys)
  insert_sorted-perm x [] = Perm.rfl
  insert_sorted-perm x (y ∷ ys) = elim (Bool-cases (before x y)) [
    | inl e ↦ rw e Perm.rfl
    | inr e ↦ rw e (Perm.trans (Perm.cons y (insert_sorted-perm x ys)) (Perm.swap x y ys))
  ]

  -- A sort reorders.
  pub sort_by-perm : (xs : List A) → Perm (sort_by before xs) xs
  sort_by-perm [] = Perm.rfl
  sort_by-perm (x ∷ xs) =
      Perm.trans (insert_sorted-perm x (sort_by before xs)) (Perm.cons x (sort_by-perm xs))

  length-insert_sorted :
      (x : A) (ys : List A) → length (insert_sorted before x ys) ≡ suc (length ys)
  length-insert_sorted x [] = refl
  length-insert_sorted x (y ∷ ys) = elim (Bool-cases (before x y)) [
    | inl e ↦ rw e refl
    | inr e ↦ rw e (ap suc (length-insert_sorted x ys))
  ]

  pub length-sort_by : (xs : List A) → length (sort_by before xs) ≡ length xs
  length-sort_by [] = refl
  length-sort_by (x ∷ xs) = length-insert_sorted x (sort_by before xs) ∙ ap suc (length-sort_by xs)

  module _ (P : A → Type 0) where
    insert_sorted-All : (x : A) (ys : List A) → P x → All P ys → All P (insert_sorted before x ys)
    insert_sorted-All x [] h hs = (h, tt)
    insert_sorted-All x (y ∷ ys) h (k, hs) = elim (Bool-cases (before x y)) [
      | inl e ↦ rw e (h, (k, hs))
      | inr e ↦ rw e (k, insert_sorted-All x ys h hs)
    ]

    pub sort_by-All : (xs : List A) → All P xs → All P (sort_by before xs)
    sort_by-All [] h = tt
    sort_by-All (x ∷ xs) (h, hs) = insert_sorted-All x (sort_by before xs) h (sort_by-All xs hs)

  module _ (total : (x y : A) → before x y ≡ false → before y x ≡ true)
      (trans : (x y z : A) → before x y ≡ true → before y z ≡ true → before x z ≡ true) where
    All-before :
        (x y : A) (zs : List A)
        → before x y ≡ true
        → All (λ z. before y z ≡ true) zs
        → All (λ z. before x z ≡ true) zs
    All-before x y [] h k = tt
    All-before x y (z ∷ zs) h (k, ks) = (trans x y z h k, All-before x y zs h ks)

    insert_sorted-Ordered :
        (x : A) (ys : List A) → Ordered before ys → Ordered before (insert_sorted before x ys)
    insert_sorted-Ordered x [] h = (tt, tt)
    insert_sorted-Ordered x (y ∷ ys) (h, hs) = elim (Bool-cases (before x y)) [
      | inl e ↦ rw e ((e, All-before x y ys e h), (h, hs))
      | inr e ↦ rw e (
        insert_sorted-All (λ z. before y z ≡ true) x ys (total x y e) h,
        insert_sorted-Ordered x ys hs,
      )
    ]

    -- With a total order the result is in order.
    pub sort_by-Ordered : (xs : List A) → Ordered before (sort_by before xs)
    sort_by-Ordered [] = tt
    sort_by-Ordered (x ∷ xs) = insert_sorted-Ordered x (sort_by before xs) (sort_by-Ordered xs)

module _ {A : Type 0} (before : A → A → Bool) where
  -- The front of a list in order is in order, and before all that is behind it.
  pub Ordered-take :
      (n : ℕ) (xs : List A)
      → Ordered before xs
      → Ordered before (take n xs) × All (λ a. All (λ b. before a b ≡ true) (drop n xs)) (take n xs)
  Ordered-take zero xs h = (tt, tt)
  Ordered-take (suc n) [] h = (tt, tt)
  Ordered-take (suc n) (x ∷ xs) (h, hs) =
      let rest = Ordered-take n xs hs in
      (
        (All-take (λ b. before x b ≡ true) n xs h, rest.0),
        (All-drop (λ b. before x b ≡ true) n xs h, rest.1),
      )
