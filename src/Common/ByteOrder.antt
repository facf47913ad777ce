-- ===== src/Common/ByteOrder.antt =====
-- The order of byte strings and of arrays of bytes.
use xfer_rust.Common.{◌≡◌, refl, arith, Bool, true, false, ◌&&◌, ◌||◌, [], ◌∷◌, ltb, ◌==◌}
use xfer_rust.Common.Bytes.{Bytes}

unfoldable pub below : Bytes → Bytes → Bool
below [] [] = false
below [] (b ∷ bs) = true
below (a ∷ as_) [] = false
below (a ∷ as_) (b ∷ bs) = ltb a b || (a == b && below as_ bs)

pub below_asymm : (j k : Bytes) → below j k ≡ true → below k j ≡ false
unfolding below
below_asymm [] [] h = refl
below_asymm [] (b ∷ k) h = refl
below_asymm (a ∷ j) [] h = absurd (cc h)
below_asymm (a ∷ j) (b ∷ k) h = ground (arith, below_asymm j k)

pub below_trans : (a b c : Bytes) → below a b ≡ true → below b c ≡ true → below a c ≡ true
unfolding below
below_trans [] b [] h k = absurd (no_below b k)
  where
    no_below : (b : Bytes) → below b [] ≡ true → ⊥
    no_below [] k = cc k
    no_below (x ∷ b) k = cc k
below_trans [] b (z ∷ c) h k = refl
below_trans (x ∷ a) [] c h k = absurd (cc h)
below_trans (x ∷ a) (y ∷ b) [] h k = absurd (cc k)
below_trans (x ∷ a) (y ∷ b) (z ∷ c) h k = ground (arith, below_trans a b c)

-- The same of `not after`.
pub not_below_trans : (a b c : Bytes) → below b a ≡ false → below c b ≡ false → below c a ≡ false
unfolding below
not_below_trans [] b [] h k = refl
not_below_trans [] [] (z ∷ c) h k = k
not_below_trans [] (y ∷ b) (z ∷ c) h k = refl
not_below_trans (x ∷ a) [] c h k = absurd (cc h)
not_below_trans (x ∷ a) (y ∷ b) [] h k = absurd (cc k)
not_below_trans (x ∷ a) (y ∷ b) (z ∷ c) h k = ground (arith, not_below_trans a b c)

abbrev pub same_bytes : Bytes → Bytes → Bool
same_bytes [] [] = true
same_bytes (a ∷ as_) (b ∷ bs) = a == b && same_bytes as_ bs
same_bytes _ _ = false

pub same_bytes-eq : (a b : Bytes) → same_bytes a b ≡ true → a ≡ b
same_bytes-eq [] [] h = refl
same_bytes-eq [] (y ∷ b) h = absurd (cc h)
same_bytes-eq (x ∷ a) [] h = absurd (cc h)
same_bytes-eq (x ∷ a) (y ∷ b) h =
    let heads : x ≡ y = ground arith in
    let tails : same_bytes a b ≡ true = ground arith in cc (heads, same_bytes-eq a b tails)
