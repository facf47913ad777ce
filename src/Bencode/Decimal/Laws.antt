-- ===== src/Bencode/Decimal/Laws.antt =====
-- Numbers are read back from their digits.
use mathlib.Core.Path.{subst}
use xfer_rust.Common.{
  ℕ, zero, suc, ◌+◌, ◌-◌, ◌*◌, ◌/◌, ◌%◌, ◌^◌, ◌≤◌, ◌<◌, ◌≡◌, ◌≢◌, ◌⊎◌, inl, inr, refl, sym, ap, ◌∙◌,
  arith, true, some, [], ◌∷◌, ltb, ◌==◌, Bool-cases, All,
}
use xfer_rust.Common.Bytes.{Bytes, IsU64}
use xfer_rust.Common.Int.{ℤ, pos, negsuc}
use xfer_rust.Bencode.Decimal.{
  is_digit, show_onto, show, show_int, fold_digits, parse_digits, parse_u64, parse_i64,
}

abbrev pub IsDigit : ℕ → Type 0
IsDigit b = (48 ≤ b) × (b < 58)

show_onto-digits :
    (fuel n : ℕ) (rest : Bytes) → All IsDigit rest → All IsDigit (show_onto fuel n rest)
unfolding show_onto
show_onto-digits zero n rest h = h
show_onto-digits (suc fuel) n rest h =
    let more =
      show_onto-digits fuel (n / 10) ((48 + n % 10) ∷ rest) ((omega arith, omega arith), h) in
    elim (Bool-cases (ltb n 10)) [
      | inl e ↦ rw e ((omega arith, ground arith), h)
      | inr e ↦ rw e more
    ]

fold_digits-show_onto :
    (fuel n : ℕ) (rest : Bytes)
    → n < fuel
    → fold_digits 0 (show_onto fuel n rest) ≡ fold_digits n rest
unfolding show_onto fold_digits
fold_digits-show_onto zero n rest h = absurd (omega arith)
fold_digits-show_onto (suc fuel) n rest h =
    let more = fold_digits-show_onto fuel (n / 10) ((48 + n % 10) ∷ rest) in
    elim (Bool-cases (ltb n 10)) [
      | inl e ↦
          let digit : is_digit (48 + n) ≡ true = ground arith in
          rw (e, digit)
            (ap (λ a. fold_digits a rest)
              (let value : 0 + (48 + n - 48) ≡ n = omega arith in value))
      | inr e ↦
          let digit : is_digit (48 + n % 10) ≡ true = ground arith in
          let value : n / 10 * 10 + (48 + n % 10 - 48) ≡ n = omega arith in
          rw e (more (ground arith) ∙ rw digit (ap (λ a. fold_digits a rest) value))
    ]

shown : (n : ℕ) → fold_digits 0 (show n) ≡ some n
unfolding show fold_digits
shown n = fold_digits-show_onto (suc n) n [] (omega arith)

-- The first digit is zero only where the number is.
first_digit :
    (fuel n : ℕ) (rest : Bytes)
    → n < fuel
    → (d : ℕ) × (ds : Bytes) × (show_onto fuel n rest ≡ d ∷ ds)
      × ((d ≢ 48) ⊎ ((n ≡ 0) × (ds ≡ rest)))
unfolding show_onto
first_digit zero n rest h = absurd (omega arith)
first_digit (suc fuel) n rest h = elim (Bool-cases (ltb n 10)) [
  | inl e ↦ rw e (
    48 + n,
    rest,
    refl,
    elim (Bool-cases (n == 0)) [ inl z ↦ inr (ground arith, refl) | inr z ↦ inl (ground arith) ],
  )
  | inr e ↦
      let (d, ds, written, nonzero) =
        first_digit fuel (n / 10) ((48 + n % 10) ∷ rest) (ground arith) in
      rw e (d, ds, written, elim nonzero [ inl ne ↦ inl ne | inr z ↦ absurd (ground (arith, z.0)) ])
]

pub show-digits : (n : ℕ) → All IsDigit (show n)
unfolding show
show-digits n = show_onto-digits (suc n) n [] tt

-- A written number has a digit, the first of which is zero only for `0` itself.
pub show-first :
    (n : ℕ) → (d : ℕ) × (ds : Bytes) × (show n ≡ d ∷ ds) × ((d ≢ 48) ⊎ ((n ≡ 0) × (ds ≡ [])))
unfolding show
show-first n = first_digit (suc n) n [] (omega arith)

pub parse_digits-show : (n : ℕ) → parse_digits (show n) ≡ some n
unfolding parse_digits
parse_digits-show n =
    let (d, ds, written, _) = show-first n in
    rw written (sym (ap (fold_digits 0) written) ∙ shown n)

pub parse_u64-show : (n : ℕ) → IsU64 n → parse_u64 (show n) ≡ some n
unfolding parse_u64
parse_u64-show n h = rw (parse_digits-show n) (ground arith)

-- The range of an i64.
abbrev pub IsI64 : ℤ → Type 0
IsI64 (pos n) = n < 2 ^ 63
IsI64 (negsuc n) = n < 2 ^ 63

pub parse_i64-show_int : (i : ℤ) → IsI64 i → parse_i64 (show_int i) ≡ some i
unfolding show_int parse_i64
parse_i64-show_int (negsuc n) h = rw (parse_digits-show (suc n)) (ground arith)
parse_i64-show_int (pos n) h =
    let (d, ds, written, _) = show-first n in
    let digits = subst (All IsDigit) written (show-digits n) in
    let value : parse_digits (d ∷ ds) ≡ some n =
      sym (ap parse_digits written) ∙ parse_digits-show n in
    rw (written, value) (ground arith)
