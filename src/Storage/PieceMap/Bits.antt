-- ===== src/Storage/PieceMap/Bits.antt =====
-- Setting, clearing and merging bits of a `PieceMap`.
use xfer_rust.Common.{
  ℕ, zero, suc, ◌+◌, ◌/◌, ◌%◌, ◌<◌, bit_and, bit_or, ◌≡◌, inl, inr, refl, sym, ap, ◌∙◌, arith, Bool,
  true, false, not, ◌&&◌, ◌||◌, [], ◌∷◌, ltb, ltb→lt, leb, ◌==◌, if◌then◌else◌, Bool-cases, get_or,
  set, length, length-set,
}
use xfer_rust.Common.Bytes.{Bytes, IsBytes}
use xfer_rust.Storage.PieceMap.{PieceMap, mask, set_piece, is_set}

unfoldable pub all_below : ℕ → (ℕ → Bool) → Bool
all_below zero p = true
all_below (suc n) p = p n && all_below n p

pub all_below_holds : (n : ℕ) (p : ℕ → Bool) (x : ℕ) → x < n → all_below n p ≡ true → p x ≡ true
unfolding all_below
all_below_holds zero p x lt h = absurd (omega arith)
all_below_holds (suc n) p x lt h = ground (arith, all_below_holds n p x)

-- The test of a bit.
abbrev pub bit_at : ℕ → ℕ → Bool
bit_at b k = not (bit_and b (mask k) == 0)

abbrev pub same : Bool → Bool → Bool
same true b = b
same false b = not b

pub same-eq : (a b : Bool) → same a b ≡ true → a ≡ b
same-eq true true h = refl
same-eq true false h = sym h
same-eq false true h = h
same-eq false false h = refl

pub both : (a b : Bool) → a && b ≡ true → (a ≡ true) × (b ≡ true)
both true b h = (refl, h)
both false b h = absurd (cc h)

set_table :
    all_below 8 (λ k. all_below 8 (λ j. all_below 256 (λ b.
      same (bit_at (bit_or b (mask k)) j) (k == j || bit_at b j) && ltb (bit_or b (mask k)) 256)))
    ≡ true
unfolding all_below
set_table = refl

or_mask :
    (k j b : ℕ)
    → k < 8
    → j < 8
    → b < 256
    → (bit_at (bit_or b (mask k)) j ≡ (k == j || bit_at b j)) × (bit_or b (mask k) < 256)
or_mask k j b hk hj hb =
    let row = all_below_holds 8 _ k hk set_table in
    let column = all_below_holds 8 _ j hj row in
    let (agrees, small) =
      both (same (bit_at (bit_or b (mask k)) j) (k == j || bit_at b j)) _
        (all_below_holds 256 _ b hb column) in
    (same-eq _ _ agrees, ltb→lt _ _ small)

-- A byte for every eight pieces.
pub record IsMap (m : PieceMap) : Type 0 where
  pub sized : length m.bits ≡ (m.count + 7) / 8
  pub bytes : IsBytes m.bits

pub get_or-set :
    (xs : Bytes) (i j v : ℕ)
    → i < length xs
    → get_or (set xs i v) j 0 ≡ (if i == j then v else get_or xs j 0)
get_or-set [] i j v h = absurd (omega arith)
get_or-set (x ∷ xs) zero zero v h = refl
get_or-set (x ∷ xs) zero (suc j) v h = ground arith
get_or-set (x ∷ xs) (suc i) zero v h = ground arith
get_or-set (x ∷ xs) (suc i) (suc j) v h = ground (arith, get_or-set xs i j v (omega arith))

pub IsBytes-set : (xs : Bytes) (i v : ℕ) → v < 256 → IsBytes xs → IsBytes (set xs i v)
IsBytes-set [] i v h k = tt
IsBytes-set (x ∷ xs) zero v h (k, ks) = (h, ks)
IsBytes-set (x ∷ xs) (suc i) v h (k, ks) = (k, IsBytes-set xs i v h ks)

pub get_or-below : (xs : Bytes) (i : ℕ) → IsBytes xs → get_or xs i 0 < 256
get_or-below [] i h = omega arith
get_or-below (x ∷ xs) zero (h, hs) = h
get_or-below (x ∷ xs) (suc i) (h, hs) = get_or-below xs i hs

pub set_piece-IsMap : (i : ℕ) (m : PieceMap) → IsMap m → IsMap (set_piece i m)
unfolding set_piece
set_piece-IsMap i m h =
    let b = get_or m.bits (i / 8) 0 in
    let small =
      or_mask (i % 8) 0 b (omega arith) (omega arith) (get_or-below m.bits (i / 8) h.bytes) in
    elim (Bool-cases (ltb i m.count)) [
      | inl e ↦ rw e (record {
        sized = length-set m.bits (i / 8) (bit_or b (mask (i % 8))) ∙ h.sized;
        bytes = IsBytes-set m.bits (i / 8) (bit_or b (mask (i % 8))) small.1 h.bytes;
      })
      | inr e ↦ rw e h
    ]

-- Setting a piece of the map sets its bit and leaves every other as it was.
pub is_set-set_piece :
    (i j : ℕ) (m : PieceMap)
    → IsMap m
    → i < m.count
    → is_set j (set_piece i m) ≡ (i == j || is_set j m)
unfolding set_piece is_set
is_set-set_piece i j m h inside =
    let b = get_or m.bits (i / 8) 0 in
    let (bit, _) =
      or_mask (i % 8) (j % 8) b (omega arith) (omega arith) (get_or-below m.bits (i / 8) h.bytes) in
    let at = get_or-set m.bits (i / 8) (j / 8) (bit_or b (mask (i % 8))) (omega (arith, h.sized)) in
    let there : ltb i m.count ≡ true = ground arith in
    elim (Bool-cases (leb m.count j)) [
      | inl outside ↦ rw (there, outside) (ground arith)
      | inr within ↦ elim (Bool-cases (i / 8 == j / 8)) [
        | inl one ↦
            let q : i / 8 ≡ j / 8 = ground arith in
            let eqs : (i % 8 == j % 8) ≡ (i == j) = ground arith in
            let byte : b ≡ get_or m.bits (j / 8) 0 = ap (λ t. get_or m.bits t 0) q in
            rw (there, within, (rw one at at))
              (bit
                ∙ ap (λ t. t || bit_at b (j % 8)) eqs
                ∙ ap (λ t. (i == j) || bit_at t (j % 8)) byte)
        | inr other ↦
            let ne : (i == j) ≡ false = ground arith in
            rw (there, within, (rw other at at), ne) refl
      ]
    ]
