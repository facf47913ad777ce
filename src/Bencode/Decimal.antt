-- ===== src/Bencode/Decimal.antt =====
-- `to_string` and `parse` of the integers of crates/xfer-bencode/src/lib.rs, in ASCII.
pub mod Laws
use xfer_rust.Common.{
  ℕ, zero, suc, ◌+◌, ◌-◌, ◌*◌, ◌/◌, ◌%◌, ◌^◌, Bool, true, false, not, ◌&&◌, Option, none, some,
  List, [], ◌∷◌, ltb, leb, ◌==◌, if◌then◌else◌,
}
use xfer_rust.Common.Bytes.{Bytes}
use xfer_rust.Common.Int.{ℤ, pos, negsuc}

abbrev pub is_digit : ℕ → Bool
is_digit b = leb 48 b && leb b 57

-- The digits of `n` before `rest`; a number has fewer digits than its successor, the fuel.
unfoldable pub show_onto : ℕ → ℕ → Bytes → Bytes
show_onto zero n rest = rest
show_onto (suc fuel) n rest =
    let more = show_onto fuel (n / 10) ((48 + n % 10) ∷ rest) in
    if ltb n 10 then (48 + n) ∷ rest else more

unfoldable pub show : ℕ → Bytes
show n = show_onto (suc n) n []

unfoldable pub show_int : ℤ → Bytes
show_int (pos n) = show n
show_int (negsuc n) = 45 ∷ show (suc n)

unfoldable pub fold_digits : ℕ → Bytes → Option ℕ
fold_digits acc [] = some acc
fold_digits acc (b ∷ bs) =
    let rest = fold_digits (acc * 10 + (b - 48)) bs in if is_digit b then rest else none

-- At least one digit, and nothing else.
unfoldable pub parse_digits : Bytes → Option ℕ
parse_digits [] = none
parse_digits (b ∷ bs) = fold_digits 0 (b ∷ bs)

abbrev pub in_limit : ℕ → Option ℕ → Option ℕ
in_limit limit none = none
in_limit limit (some n) = if ltb n limit then some n else none

unfoldable pub parse_u64 : Bytes → Option ℕ
parse_u64 text = in_limit (2 ^ 64) (parse_digits text)

abbrev pub negate : ℕ → ℤ
negate zero = pos 0
negate (suc n) = negsuc n

abbrev pub as_pos : Option ℕ → Option ℤ
as_pos none = none
as_pos (some n) = some (pos n)

abbrev pub as_neg : Option ℕ → Option ℤ
as_neg none = none
as_neg (some n) = some (negate n)

-- A sign may stand before the digits.
unfoldable pub parse_i64 : Bytes → Option ℤ
parse_i64 [] = none
parse_i64 (b ∷ bs) =
    if b == 45
    then as_neg (in_limit (2 ^ 63 + 1) (parse_digits bs))
    else if b == 43
    then as_pos (in_limit (2 ^ 63) (parse_digits bs))
    else as_pos (in_limit (2 ^ 63) (parse_digits (b ∷ bs)))
