-- ===== src/Bencode/Parser/Scalars.antt =====
-- The parser of `lib.rs` on written integers and byte strings.
use mathlib.Core.Path.{subst}
use xfer_rust.Common.{
  ℕ, suc, ◌+◌, ◌≡◌, ◌≢◌, ◌⊎◌, inl, inr, refl, ap, arith, true, false, some, [], ◌∷◌, ◌++◌,
  append_assoc, ltb, ◌==◌, length, length-append, take-append, drop-append, All,
}
use xfer_rust.Common.Bytes.{Bytes, IsU64}
use xfer_rust.Common.Int.{ℤ, pos, negsuc}
use xfer_rust.Common.Run.{ok}
use xfer_rust.Bencode.Decimal.{is_digit, show, show_int}
use xfer_rust.Bencode.Decimal.Laws.{
  IsDigit, IsI64, show-digits, show-first, parse_u64-show, parse_i64-show_int,
}
use xfer_rust.Bencode.Value.{int, write_bytes}
use xfer_rust.Bencode.Parser.{
  at, until_e, plain_integer, parse_int, until_colon, leading_zero, parse_length, parse_raw_bytes,
  token, Token,
}

until_e-append :
    (text tail : Bytes)
    → All (λ b. b ≢ 101) text
    → until_e (text ++ (101 ∷ tail)) ≡ some (text, tail)
unfolding until_e
until_e-append [] tail h = refl
until_e-append (b ∷ text) tail (h, hs) =
    let other : (b == 101) ≡ false = ground arith in rw (other, until_e-append text tail hs) refl

no_e : (text : Bytes) → All IsDigit text → All (λ b. b ≢ 101) text
no_e [] h = tt
no_e (b ∷ text) ((low, high), hs) = (λ e. absurd (omega arith), no_e text hs)

show_int-no_e : (i : ℤ) → All (λ b. b ≢ 101) (show_int i)
unfolding show_int
show_int-no_e (pos n) = no_e (show n) (show-digits n)
show_int-no_e (negsuc n) = (λ e. absurd (omega arith), no_e (show (suc n)) (show-digits (suc n)))

plain_digits :
    (d : ℕ) (ds : Bytes) → IsDigit d → (d ≢ 48) ⊎ (ds ≡ []) → plain_integer (d ∷ ds) ≡ true
unfolding plain_integer
plain_digits d [] h first = ground arith
plain_digits d (e ∷ ds) h (inl ne) = ground arith
plain_digits d (e ∷ ds) h (inr none_) = absurd (cc none_)

plain_negative : (d : ℕ) (ds : Bytes) → d ≢ 48 → plain_integer (45 ∷ d ∷ ds) ≡ true
unfolding plain_integer
plain_negative d ds ne = ground arith

plain_integer-show_int : (i : ℤ) → plain_integer (show_int i) ≡ true
unfolding show_int
plain_integer-show_int (pos n) =
    let (d, ds, written, first) = show-first n in
    let digits = subst (All IsDigit) written (show-digits n) in
    rw written (plain_digits d ds digits.0 (elim first [ inl ne ↦ inl ne | inr z ↦ inr z.1 ]))
plain_integer-show_int (negsuc n) =
    let (d, ds, written, first) = show-first (suc n) in
    rw written
      (plain_negative d ds (elim first [ inl ne ↦ ne | inr z ↦ absurd (omega (arith, z.0)) ]))

-- The integer's text and the `e` behind it.
pub parse_int-show_int :
    (start : ℕ) (i : ℤ) (tail : Bytes)
    → IsI64 i
    → parse_int start (show_int i ++ (101 ∷ tail))
      ≡ ok (int i, at (start + 2 + length (show_int i)) tail)
unfolding parse_int
parse_int-show_int start i tail h =
    rw
      (
        until_e-append (show_int i) tail (show_int-no_e i),
        parse_i64-show_int i h,
        plain_integer-show_int i,
      )
      refl

until_colon-append :
    (p : ℕ) (text tail : Bytes)
    → All IsDigit text
    → until_colon p (text ++ (58 ∷ tail)) ≡ ok (text, tail)
unfolding until_colon
until_colon-append p [] tail h = refl
until_colon-append p (b ∷ text) tail ((low, high), hs) =
    let other : (b == 58) ≡ false = ground arith in
    let digit : is_digit b ≡ true = ground arith in
    rw (other, digit, until_colon-append (suc p) text tail hs) refl

one_zero : (d : ℕ) (ds : Bytes) → (d ≢ 48) ⊎ (ds ≡ []) → leading_zero (d ∷ ds) ≡ false
one_zero d [] h = refl
one_zero d (e ∷ ds) (inl ne) = ground arith
one_zero d (e ∷ ds) (inr none_) = absurd (cc none_)

leading_zero-show : (n : ℕ) → leading_zero (show n) ≡ false
leading_zero-show n =
    let (d, ds, written, first) = show-first n in
    rw written (one_zero d ds (elim first [ inl ne ↦ inl ne | inr z ↦ inr z.1 ]))

-- A string is read back whole, whatever stands behind it.
pub parse_raw_bytes-write_bytes :
    (p : ℕ) (b tail : Bytes)
    → IsU64 (length b)
    → parse_raw_bytes (at p (write_bytes b ++ tail)) ≡ ok (b, at (p + length (write_bytes b)) tail)
unfolding parse_raw_bytes parse_length
parse_raw_bytes-write_bytes p b tail h =
    let n = show (length b) in
    let split : write_bytes b ++ tail ≡ n ++ (58 ∷ (b ++ tail)) = append_assoc n (58 ∷ b) tail in
    let fits : ltb (length (b ++ tail)) (length b) ≡ false = ground (arith, length-append b tail) in
    let ends : p + length n + 1 + length b ≡ p + length (n ++ (58 ∷ b)) =
      omega (arith, length-append n (58 ∷ b)) in
    rw
      (
        split,
        until_colon-append p n (b ++ tail) (show-digits (length b)),
        leading_zero-show (length b),
        parse_u64-show (length b) h,
        fits,
        take-append b tail,
        drop-append b tail,
        ends,
      )
      refl

-- A string begins with a digit.
pub write_bytes-first :
    (b : Bytes) → (d : ℕ) × (ds : Bytes) × (write_bytes b ≡ d ∷ ds) × (token d ≡ Token.a_string)
unfolding token
write_bytes-first b =
    let (d, ds, written, _) = show-first (length b) in
    let digits = subst (All IsDigit) written (show-digits (length b)) in
    (d, ds ++ (58 ∷ b), ap (λ t. t ++ (58 ∷ b)) written, ground (arith, digits.0))
