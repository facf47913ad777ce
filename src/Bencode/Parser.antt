-- ===== src/Bencode/Parser.antt =====
-- crates/xfer-bencode/src/lib.rs: the parser. Its state is the offset and the input from there on.
pub mod Scalars
pub mod RoundTrip
pub mod Total
pub mod Decoded
use xfer_rust.Common.{
  ℕ, zero, suc, ◌+◌, ◌-◌, ◌*◌, ◌^◌, Bool, true, false, not, ◌&&◌, ◌||◌, Option, none, some, List,
  [], ◌∷◌, ◌++◌, ltb, leb, ◌==◌, if◌then◌else◌, length, take, drop,
}
use xfer_rust.Common.Bytes.{Bytes}
use xfer_rust.Common.Int.{ℤ}
use xfer_rust.Common.Run.{Run, ◌>>=◌, ok, err, stuck}
use xfer_rust.Bencode.Decimal.{is_digit, parse_u64, parse_i64}
use xfer_rust.Bencode.Value.{
  Value, Items, Fields, int, bytes, list, dict, nil, cons, end, field, insert,
}

pub data BencodeError : Type 0 where
  unexpected_eof : ℕ → BencodeError
  invalid_token : ℕ → ℕ → BencodeError
  invalid_integer : ℕ → BencodeError
  invalid_length : ℕ → BencodeError
  length_overflow : ℕ → ℕ → ℕ → BencodeError
  negative_length : ℤ → BencodeError
  depth_limit : ℕ → BencodeError
  trailing_data : ℕ → BencodeError
  other : Bytes → BencodeError

abbrev pub max_depth : ℕ
max_depth = 64

pub record Parser : Type 0 where
  pub pos : ℕ
  pub rest : Bytes

abbrev pub at : ℕ → Bytes → Parser
at pos rest = record { pos = pos; rest = rest }

abbrev pub put : ℕ → Option (Bytes × Bytes) → Option (Bytes × Bytes)
put b none = none
put b (some (text, after)) = some (b ∷ text, after)

-- The bytes up to an `e`, and those behind it.
unfoldable pub until_e : Bytes → Option (Bytes × Bytes)
until_e [] = none
until_e (b ∷ bs) = let rest = until_e bs in if b == 101 then some ([], bs) else put b rest

-- No sign alone, no zero before other digits, no minus before a zero.
unfoldable pub plain_integer : Bytes → Bool
plain_integer [] = false
plain_integer (b ∷ []) = not (b == 45)
plain_integer (b ∷ c ∷ bs) = not (b == 48) && not (b == 45 && c == 48)

abbrev pub integer_of : ℕ → Bytes → Option ℤ → Run BencodeError ℤ
integer_of start text none = err (BencodeError.invalid_integer start)
integer_of start text (some i) =
    if plain_integer text then ok i else err (BencodeError.invalid_integer start)

-- `after_i` is the input behind the `i` at `start`.
abbrev pub finish_int : ℕ → Bytes → Option (Bytes × Bytes) → Run BencodeError (Value × Parser)
finish_int start after_i none = err (BencodeError.unexpected_eof (start + 1 + length after_i))
finish_int start after_i (some (text, rest)) =
    integer_of start text (parse_i64 text) >>= (λ i. ok (int i, at (start + 2 + length text) rest))

unfoldable pub parse_int : ℕ → Bytes → Run BencodeError (Value × Parser)
parse_int start after_i = finish_int start after_i (until_e after_i)

-- The digits up to a colon, and what is behind it.
unfoldable pub until_colon : ℕ → Bytes → Run BencodeError (Bytes × Bytes)
until_colon pos [] = err (BencodeError.unexpected_eof pos)
until_colon pos (b ∷ bs) =
    let rest = until_colon (suc pos) bs in
    if b == 58
    then ok ([], bs)
    else if is_digit b
    then rest >>= (λ found. ok (b ∷ found.0, found.1))
    else err (BencodeError.invalid_length pos)

abbrev pub leading_zero : Bytes → Bool
leading_zero [] = false
leading_zero (b ∷ []) = false
leading_zero (b ∷ c ∷ bs) = b == 48

abbrev pub length_of : ℕ → Option ℕ → Run BencodeError ℕ
length_of start none = err (BencodeError.invalid_length start)
length_of start (some len) = ok len

unfoldable pub parse_length : Parser → Run BencodeError (ℕ × Parser)
parse_length p = until_colon p.pos p.rest >>= (λ found.
    if leading_zero found.0
    then err (BencodeError.invalid_length p.pos)
    else length_of p.pos (parse_u64 found.0)
      >>= (λ len. ok (len, at (p.pos + length found.0 + 1) found.1)))

abbrev pub take_bytes : ℕ → Parser → Run BencodeError (Bytes × Parser)
take_bytes len p =
    if ltb (length p.rest) len
    then err (BencodeError.length_overflow p.pos len (length p.rest))
    else ok (take len p.rest, at (p.pos + len) (drop len p.rest))

unfoldable pub parse_raw_bytes : Parser → Run BencodeError (Bytes × Parser)
parse_raw_bytes p = parse_length p >>= (λ found. take_bytes found.0 found.1)

-- What the next byte begins.
pub data Token : Type 0 where
  an_end an_int a_list a_dict a_string no_token : Token

unfoldable pub token : ℕ → Token
token b =
    if b == 101
    then Token.an_end
    else if b == 105
    then Token.an_int
    else if b == 108
    then Token.a_list
    else if b == 100
    then Token.a_dict
    else if is_digit b
    then Token.a_string
    else Token.no_token

-- The loops over a list and a dictionary take a unit of fuel each round, and so does a value.
unfoldable mutual
  pub parse_value : ℕ → ℕ → ℕ → Bytes → Run BencodeError (Value × Parser)
  parse_value zero depth pos input = stuck
  parse_value (suc fuel) depth pos input = elim (ltb max_depth depth) [
    | true ↦ err (BencodeError.depth_limit max_depth)
    | false ↦ elim input [
      | [] ↦ err (BencodeError.unexpected_eof pos)
      | b ∷ bs ↦ elim (token b) [
        | Token.an_int ↦ parse_int pos bs
        | Token.a_list ↦ parse_items fuel depth (suc pos) bs >>= (λ r. ok (list r.0, r.1))
        | Token.a_dict ↦ parse_fields fuel depth end (suc pos) bs >>= (λ r. ok (dict r.0, r.1))
        | Token.a_string ↦ parse_raw_bytes (at pos (b ∷ bs)) >>= (λ r. ok (bytes r.0, r.1))
        | Token.an_end ↦ err (BencodeError.invalid_token pos b)
        | Token.no_token ↦ err (BencodeError.invalid_token pos b)
      ]
    ]
  ]

  pub parse_items : ℕ → ℕ → ℕ → Bytes → Run BencodeError (Items × Parser)
  parse_items zero depth pos input = stuck
  parse_items (suc fuel) depth pos [] = err (BencodeError.unexpected_eof pos)
  parse_items (suc fuel) depth pos (b ∷ bs) = elim (b == 101) [
    | true ↦ ok (nil, at (suc pos) bs)
    | false ↦
        parse_value fuel (suc depth) pos (b ∷ bs)
        >>= (λ v. parse_items fuel depth v.1.pos v.1.rest >>= (λ vs. ok (cons v.0 vs.0, vs.1)))
  ]

  -- `map` holds the members so far.
  pub parse_fields : ℕ → ℕ → Fields → ℕ → Bytes → Run BencodeError (Fields × Parser)
  parse_fields zero depth map pos input = stuck
  parse_fields (suc fuel) depth map pos [] = err (BencodeError.unexpected_eof pos)
  parse_fields (suc fuel) depth map pos (b ∷ bs) = elim (token b) [
    | Token.an_end ↦ ok (map, at (suc pos) bs)
    | Token.a_string ↦ parse_raw_bytes (at pos (b ∷ bs)) >>= (λ k.
        parse_value fuel (suc depth) k.1.pos k.1.rest
        >>= (λ v. parse_fields fuel depth (insert k.0 v.0 map) v.1.pos v.1.rest))
    | _ ↦ err (BencodeError.invalid_token pos b)
  ]

-- A value is a byte at least, and a round of a loop ends or reads one.
abbrev pub fuel_for : Bytes → ℕ
fuel_for input = suc (2 * length input)

unfoldable pub decode_prefix : Bytes → Run BencodeError (Value × ℕ)
decode_prefix input = parse_value (fuel_for input) 0 0 input >>= (λ r. ok (r.0, r.1.pos))

abbrev pub at_end : Value → Bytes → Run BencodeError Value
at_end v [] = ok v
at_end v (b ∷ bs) = err (BencodeError.trailing_data (length (b ∷ bs)))

unfoldable pub decode : Bytes → Run BencodeError Value
decode input = parse_value (fuel_for input) 0 0 input >>= (λ r. at_end r.0 r.1.rest)
