-- ===== src/Common/BTree.antt =====
-- `BTreeMap<u16, V>`: an association list in ascending order of its keys.
use xfer_rust.Common.{
  ℕ, ◌≤◌, ◌<◌, ◌≡◌, refl, arith, Bool, true, false, List, [], ◌∷◌, Option, none, some, ltb, ◌==◌,
  if◌then◌else◌,
}

module _ {ℓ} {V : Type ℓ} where
  abbrev pub lookup : ℕ → List (ℕ × V) → Option V
  lookup k [] = none
  lookup k ((j, v) ∷ m) = if j == k then some v else lookup k m

  abbrev pub insert : ℕ → V → List (ℕ × V) → List (ℕ × V)
  insert k v [] = (k, v) ∷ []
  insert k v ((j, w) ∷ m) =
      if j == k then (k, v) ∷ m else if ltb k j then (k, v) ∷ (j, w) ∷ m else (j, w) ∷ insert k v m

  abbrev pub remove : ℕ → List (ℕ × V) → List (ℕ × V)
  remove k [] = []
  remove k ((j, w) ∷ m) = if j == k then m else (j, w) ∷ remove k m

  abbrev pub keys : List (ℕ × V) → List ℕ
  keys [] = []
  keys ((j, w) ∷ m) = j ∷ keys m

  abbrev pub is_empty : List (ℕ × V) → Bool
  is_empty [] = true
  is_empty (e ∷ m) = false

module _ {ℓ} {V : Type ℓ} where
  -- Every key is above `b`; every key is above the ones before it.
  abbrev pub Above : ℕ → List (ℕ × V) → Type 0
  Above b [] = Unit
  Above b ((j, w) ∷ m) = (b < j) × Above b m

  abbrev pub Ascending : List (ℕ × V) → Type 0
  Ascending [] = Unit
  Ascending ((j, w) ∷ m) = Above j m × Ascending m

  pub Above-weaken : (a b : ℕ) (m : List (ℕ × V)) → a ≤ b → Above b m → Above a m
  Above-weaken a b [] h k = tt
  Above-weaken a b ((j, w) ∷ m) h (p, q) = (omega arith, Above-weaken a b m h q)

  pub lookup-Above : (k b : ℕ) (m : List (ℕ × V)) → k ≤ b → Above b m → lookup k m ≡ none
  lookup-Above k b [] h p = refl
  lookup-Above k b ((j, w) ∷ m) h (p, q) = ground (arith, lookup-Above k b m h q)

  pub Above-insert :
      (b k : ℕ) (v : V) (m : List (ℕ × V)) → b < k → Above b m → Above b (insert k v m)
  Above-insert b k v [] h p = (h, tt)
  Above-insert b k v ((j, w) ∷ m) h (p, q) = ground (arith, Above-insert b k v m h q)

  pub Above-remove : (b k : ℕ) (m : List (ℕ × V)) → Above b m → Above b (remove k m)
  Above-remove b k [] p = tt
  Above-remove b k ((j, w) ∷ m) (p, q) = ground (arith, Above-remove b k m q)

  pub insert-Ascending : (k : ℕ) (v : V) (m : List (ℕ × V)) → Ascending m → Ascending (insert k v m)
  insert-Ascending k v [] h = (tt, tt)
  insert-Ascending k v ((j, w) ∷ m) (p, q) =
      ground (arith, insert-Ascending k v m q, Above-insert j k v m, Above-weaken k j m)

  pub remove-Ascending : (k : ℕ) (m : List (ℕ × V)) → Ascending m → Ascending (remove k m)
  remove-Ascending k [] h = tt
  remove-Ascending k ((j, w) ∷ m) (p, q) =
      ground (arith, remove-Ascending k m q, Above-remove j k m)

  pub lookup-remove : (k : ℕ) (m : List (ℕ × V)) → Ascending m → lookup k (remove k m) ≡ none
  lookup-remove k [] h = refl
  lookup-remove k ((j, w) ∷ m) (p, q) = ground (arith, lookup-remove k m q, lookup-Above k j m)

  pub lookup-insert :
      (k i : ℕ) (v : V) (m : List (ℕ × V))
      → Ascending m
      → lookup i (insert k v m) ≡ (if k == i then some v else lookup i m)
  lookup-insert k i v [] h = refl
  lookup-insert k i v ((j, w) ∷ m) (p, q) = ground (arith, lookup-insert k i v m q)
