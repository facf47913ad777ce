-- ===== src/Bencode/Examples.antt =====
-- Runs of the bencode model, and its theorems at concrete inputs.
use xfer_rust.Common.{◌≡◌, ◌≢◌, refl, arith, [], ◌∷◌, ◌++◌, length, replicate}
use xfer_rust.Common.Bytes.{Bytes}
use xfer_rust.Common.Int.{pos, negsuc}
use xfer_rust.Common.Run.{ok, err, stuck}
use xfer_rust.Common.ByteOrder.{below}
use xfer_rust.Bencode.Decimal.{
  show, show_int, show_onto, fold_digits, parse_digits, parse_u64, parse_i64,
}
use xfer_rust.Bencode.Value.{
  Value, int, bytes, list, dict, nil, cons, end, field, encode, write_value, insert, same_key,
}
use xfer_rust.Bencode.Value.Sorted.{IsValue}
use xfer_rust.Bencode.Parser.{
  BencodeError, decode, decode_prefix, parse_value, parse_int, until_e, plain_integer, token,
  parse_raw_bytes, parse_length, until_colon,
}
use xfer_rust.Bencode.Parser.RoundTrip.{decode_prefix-encode}
use xfer_rust.Bencode.Parser.Decoded.{decode-ne-stuck, decode-canonical}

-- d1:ai-42e1:bl2:hieee
abbrev sample : Value
sample = dict (
    field (97 ∷ []) (int (negsuc 41))
      (field (98 ∷ []) (list (cons (bytes (104 ∷ 105 ∷ [])) nil)) end))

abbrev sample_bytes : Bytes
sample_bytes =
    100 ∷ 49 ∷ 58 ∷ 97 ∷ 105 ∷ 45 ∷ 52 ∷ 50 ∷ 101 ∷ 49 ∷ 58 ∷ 98 ∷ 108 ∷ 50 ∷ 58 ∷ 104 ∷ 105 ∷ 101
    ∷ 101 ∷ []

sample_written : encode sample ≡ sample_bytes
unfolding encode write_value show_int show show_onto
sample_written = refl

sample-IsValue : IsValue 0 sample
unfolding IsValue below
sample-IsValue = ground arith

minus_zero : decode (105 ∷ 45 ∷ 48 ∷ 101 ∷ []) ≡ err (BencodeError.invalid_integer 0)
unfolding decode parse_value token parse_int until_e plain_integer parse_i64 parse_digits
    fold_digits
minus_zero = refl

-- `i+05e` is accepted as 5.
plus_sign : decode (105 ∷ 43 ∷ 48 ∷ 53 ∷ 101 ∷ []) ≡ ok (int (pos 5))
unfolding decode parse_value token parse_int until_e plain_integer parse_i64 parse_digits
    fold_digits
plus_sign = refl

too_deep : decode (replicate 66 108) ≡ err (BencodeError.depth_limit 64)
unfolding decode parse_value token
too_deep = refl

-- The keys of the input stand in the wrong order.
abbrev unsorted : Bytes
unsorted = 100 ∷ 49 ∷ 58 ∷ 98 ∷ 105 ∷ 49 ∷ 101 ∷ 49 ∷ 58 ∷ 97 ∷ 105 ∷ 50 ∷ 101 ∷ 101 ∷ []

abbrev two_keys : Value
two_keys = dict (field (97 ∷ []) (int (pos 2)) (field (98 ∷ []) (int (pos 1)) end))

unsorted_read : decode unsorted ≡ ok two_keys
unfolding decode parse_value token parse_int until_e plain_integer parse_i64 parse_digits
    fold_digits parse_raw_bytes parse_length until_colon parse_u64 insert below same_key
unsorted_read = refl

decode_prefix-encode_example :
    decode_prefix (encode sample ++ 105 ∷ []) ≡ ok (sample, length (encode sample))
decode_prefix-encode_example = decode_prefix-encode sample (105 ∷ []) sample-IsValue

decode-ne-stuck_example : decode unsorted ≢ stuck
decode-ne-stuck_example = decode-ne-stuck unsorted (omega arith)

decode-canonical_example : IsValue 0 two_keys × (decode (encode two_keys) ≡ ok two_keys)
decode-canonical_example = decode-canonical unsorted two_keys (omega arith) unsorted_read
