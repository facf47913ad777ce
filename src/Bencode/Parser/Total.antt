-- ===== src/Bencode/Parser/Total.antt =====
-- What the parser of `lib.rs` accepts as an integer or a string, and what it leaves.
use xfer_rust.Common.{
  ℕ, zero, suc, ◌+◌, ◌^◌, ◌≤◌, ◌<◌, ◌≡◌, ◌⊎◌, inl, inr, refl, arith, Option, none, some, [], ◌∷◌,
  ltb, ◌==◌, Bool-cases, length, length-take, length-drop,
}
use xfer_rust.Common.Bytes.{Bytes, IsU64}
use xfer_rust.Common.Int.{ℤ}
use xfer_rust.Common.Run.{Run, ◌>>=◌, ok, err, stuck}
use xfer_rust.Bencode.Decimal.{
  is_digit, parse_i64, parse_u64, in_limit, as_pos, as_neg, parse_digits,
}
use xfer_rust.Bencode.Decimal.Laws.{IsI64}
use xfer_rust.Bencode.Value.Sorted.{IsValue}
use xfer_rust.Bencode.Parser.{
  BencodeError, Parser, Token, until_e, put, integer_of, finish_int, parse_int, until_colon,
  length_of, parse_length, take_bytes, parse_raw_bytes, leading_zero, plain_integer,
}

-- A result has the property; the fuel does not run out.
abbrev pub Holds : {A : Type 0} → (A → Type 0) → Run BencodeError A → Type 0
Holds P (ok x) = P x
Holds P (err e) = Unit
Holds P stuck = ⊥

-- Fewer than `n` bytes are left.
abbrev pub Left : {A : Type 0} → (A → Type 0) → ℕ → A × Parser → Type 0
Left P n r = P r.0 × (length r.1.rest < n)

module _ {A B : Type 0} (P : A → Type 0) (Q : B → Type 0) where
  pub Holds-bind :
      (m : Run BencodeError A) (f : A → Run BencodeError B)
      → Holds P m
      → ((x : A) → P x → Holds Q (f x))
      → Holds Q (m >>= f)
  Holds-bind (ok x) f h g = g x h
  Holds-bind (err e) f h g = tt
  Holds-bind stuck f h g = h

pub Holds-weaken :
    {A : Type 0} (P Q : A → Type 0) (m : Run BencodeError A)
    → ((x : A) → P x → Q x)
    → Holds P m
    → Holds Q m
Holds-weaken P Q (ok x) w h = w x h
Holds-weaken P Q (err e) w h = tt
Holds-weaken P Q stuck w h = h

pub Token-cases :
    (t : Token)
    → (t ≡ Token.an_int)
      ⊎ (t ≡ Token.a_list)
      ⊎ (t ≡ Token.a_dict)
      ⊎ (t ≡ Token.a_string)
      ⊎ (t ≡ Token.an_end)
      ⊎ (t ≡ Token.no_token)
Token-cases Token.an_int = inl refl
Token-cases Token.a_list = inr (inl refl)
Token-cases Token.a_dict = inr (inr (inl refl))
Token-cases Token.a_string = inr (inr (inr (inl refl)))
Token-cases Token.an_end = inr (inr (inr (inr (inl refl))))
Token-cases Token.no_token = inr (inr (inr (inr (inr refl))))

unfoldable InRange : Option ℤ → Type 0
InRange none = Unit
InRange (some i) = IsI64 i

as_pos-InRange : (o : Option ℕ) → InRange (as_pos (in_limit (2 ^ 63) o))
unfolding InRange
as_pos-InRange none = tt
as_pos-InRange (some n) = ground arith

as_neg-InRange : (o : Option ℕ) → InRange (as_neg (in_limit (2 ^ 63 + 1) o))
unfolding InRange
as_neg-InRange none = tt
as_neg-InRange (some zero) = ground arith
as_neg-InRange (some (suc n)) = ground arith

parse_i64-InRange : (text : Bytes) → InRange (parse_i64 text)
unfolding parse_i64
parse_i64-InRange [] = unfold InRange in tt
parse_i64-InRange (b ∷ bs) = elim (Bool-cases (b == 45)) [
  | inl e ↦ rw e (as_neg-InRange (parse_digits bs))
  | inr e ↦ elim (Bool-cases (b == 43)) [
    | inl g ↦ rw (e, g) (as_pos-InRange (parse_digits bs))
    | inr g ↦ rw (e, g) (as_pos-InRange (parse_digits (b ∷ bs)))
  ]
]

-- What is left behind the first `e` is shorter.
unfoldable Leaves : ℕ → Option (Bytes × Bytes) → Type 0
Leaves n none = Unit
Leaves n (some (text, rest)) = length rest < n

put-Leaves : (b n : ℕ) (o : Option (Bytes × Bytes)) → Leaves n o → Leaves (suc n) (put b o)
unfolding Leaves
put-Leaves b n none h = tt
put-Leaves b n (some (text, rest)) h = omega arith

until_e-Leaves : (bs : Bytes) → Leaves (length bs) (until_e bs)
unfolding until_e
until_e-Leaves [] = unfold Leaves in tt
until_e-Leaves (b ∷ bs) = elim (Bool-cases (b == 101)) [
  | inl e ↦ rw e (unfold Leaves in omega arith)
  | inr e ↦ rw e (put-Leaves b (length bs) (until_e bs) (until_e-Leaves bs))
]

integer_of-IsI64 :
    (start : ℕ) (text : Bytes) (o : Option ℤ) → InRange o → Holds IsI64 (integer_of start text o)
unfolding InRange
integer_of-IsI64 start text none h = tt
integer_of-IsI64 start text (some i) h = elim (Bool-cases (plain_integer text)) [
  | inl e ↦ rw e h
  | inr e ↦ rw e tt
]

module _ (depth : ℕ) (deep : depth ≤ 64) where
  finish_int-IsValue :
      (start n : ℕ) (after_i : Bytes) (o : Option (Bytes × Bytes))
      → Leaves n o
      → Holds (Left (IsValue depth) (suc n)) (finish_int start after_i o)
  unfolding Leaves IsValue
  finish_int-IsValue start n after_i none h = tt
  finish_int-IsValue start n after_i (some (text, rest)) h =
      Holds-bind IsI64 (Left (IsValue depth) (suc n)) (integer_of start text (parse_i64 text)) _
        (integer_of-IsI64 start text (parse_i64 text) (parse_i64-InRange text))
        (λ i fits. ((deep, fits), omega arith))

pub parse_int-IsValue :
    (depth start : ℕ) (bs : Bytes)
    → depth ≤ 64
    → Holds (Left (IsValue depth) (suc (length bs))) (parse_int start bs)
unfolding parse_int
parse_int-IsValue depth start bs deep =
    finish_int-IsValue depth deep start (length bs) bs (until_e bs) (until_e-Leaves bs)

until_colon-shorter :
    (pos : ℕ) (bs : Bytes)
    → Holds (λ (r : Bytes × Bytes). length r.1 < length bs) (until_colon pos bs)
unfolding until_colon
until_colon-shorter pos [] = tt
until_colon-shorter pos (b ∷ bs) =
    let rest =
      Holds-bind (λ (r : Bytes × Bytes). length r.1 < length bs)
        (λ (r : Bytes × Bytes). length r.1 < suc (length bs)) (until_colon (suc pos) bs)
        (λ found. ok (b ∷ found.0, found.1)) (until_colon-shorter (suc pos) bs)
        (λ r h. omega arith) in
    elim (Bool-cases (b == 58)) [
      | inl e ↦ rw e (omega arith)
      | inr e ↦ elim (Bool-cases (is_digit b)) [ inl d ↦ rw (e, d) rest | inr d ↦ rw (e, d) tt ]
    ]

length_of-Holds : (start : ℕ) (o : Option ℕ) → Holds (λ (n : ℕ). Unit) (length_of start o)
length_of-Holds start none = tt
length_of-Holds start (some n) = tt

parse_length-shorter :
    (p : Parser) → Holds (Left (λ (n : ℕ). Unit) (length p.rest)) (parse_length p)
unfolding parse_length
parse_length-shorter p =
    Holds-bind _ (Left (λ (n : ℕ). Unit) (length p.rest)) (until_colon p.pos p.rest) _
      (until_colon-shorter p.pos p.rest)
      λ found short. elim (Bool-cases (leading_zero found.0)) [
        | inl e ↦ rw e tt
        | inr e ↦ rw e (
            Holds-bind (λ (n : ℕ). Unit) (Left (λ (n : ℕ). Unit) (length p.rest))
              (length_of p.pos (parse_u64 found.0)) _ (length_of-Holds p.pos (parse_u64 found.0))
              (λ len u. (tt, short)))
      ]

take_bytes-IsU64 :
    (len n : ℕ) (p : Parser)
    → length p.rest < n
    → IsU64 n
    → Holds (Left (λ (b : Bytes). IsU64 (length b)) n) (take_bytes len p)
take_bytes-IsU64 len n p short fits = elim (Bool-cases (ltb (length p.rest) len)) [
  | inl e ↦ rw e tt
  | inr e ↦ rw e (omega (arith, length-take len p.rest), omega (arith, length-drop len p.rest))
]

pub parse_raw_bytes-IsU64 :
    (p : Parser)
    → IsU64 (length p.rest)
    → Holds (Left (λ (b : Bytes). IsU64 (length b)) (length p.rest)) (parse_raw_bytes p)
unfolding parse_raw_bytes
parse_raw_bytes-IsU64 p fits =
    Holds-bind _ (Left (λ (b : Bytes). IsU64 (length b)) (length p.rest)) (parse_length p) _
      (parse_length-shorter p)
      (λ found h. take_bytes-IsU64 found.0 (length p.rest) found.1 h.1 fits)
