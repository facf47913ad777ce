-- ===== src/Bencode/Parser/RoundTrip.antt =====
-- The parser of `lib.rs` reads back every value from its encoding.
use xfer_rust.Common.{
  ℕ, zero, suc, ◌+◌, ◌*◌, ◌≤◌, ◌≡◌, refl, sym, ap, ◌∙◌, arith, false, [], ◌∷◌, ◌++◌, append_assoc,
  append-nil, ltb, ◌==◌, length, length-append,
}
use xfer_rust.Common.Bytes.{Bytes}
use xfer_rust.Common.Run.{ok}
use xfer_rust.Bencode.Value.{
  Value, Items, Fields, int, bytes, list, dict, nil, cons, end, field, write_bytes, write_value,
  write_items, write_fields, encode,
}
use xfer_rust.Bencode.Value.Sorted.{
  IsValue, AreItems, AreFields, Before, join, insert_last, Before-AllBelow, Before-join, join_assoc,
  join-end,
}
use xfer_rust.Bencode.Decimal.{show_int}
use xfer_rust.Bencode.Parser.{
  Parser, at, token, max_depth, parse_raw_bytes, parse_value, parse_items, parse_fields, fuel_for,
  decode, decode_prefix,
}
use xfer_rust.Bencode.Parser.Scalars.{
  parse_int-show_int, parse_raw_bytes-write_bytes, write_bytes-first,
}

pair_eq : {A : Type 0} {a c : A} {b d : Parser} → a ≡ c → b ≡ d → ◌≡◌ {A = A × Parser} (a, b) (c, d)
pair_eq e f = cc (e, f)

-- Where a loop's result is moved on by what was read before it.
same_at : {p q : ℕ} {tail : Bytes} → p ≡ q → at p tail ≡ at q tail
same_at {tail = tail} e = ap (λ t. at t tail) e

shallow : (depth : ℕ) → depth ≤ 64 → ltb max_depth depth ≡ false
shallow depth h = ground arith

-- No value begins with the `e` that ends a list.
value_first : (v : Value) → (b : ℕ) × (bs : Bytes) × (write_value v ≡ b ∷ bs) × ((b == 101) ≡ false)
unfolding write_value token
value_first (int i) = (105, _, refl, refl)
value_first (bytes s) =
    let (b, bs, written, digit) = write_bytes-first s in (b, bs, written, ground (arith, digit))
value_first (list items) = (108, _, refl, refl)
value_first (dict fs) = (100, _, refl, refl)

mutual
  unfolding parse_value write_value IsValue token

  value_back :
      (v : Value) (fuel depth pos : ℕ) (tail : Bytes)
      → IsValue depth v
      → suc (2 * length (write_value v)) ≤ fuel
      → parse_value fuel depth pos (write_value v ++ tail)
        ≡ ok (v, at (pos + length (write_value v)) tail)
  value_back v zero depth pos tail h enough_ = absurd (omega arith)
  value_back (int i) (suc fuel) depth pos tail (deep, fits) enough_ =
      let n = show_int i in
      let split = append_assoc n (101 ∷ []) tail in
      let ends : pos + 2 + length n ≡ pos + length (write_value (int i)) =
        omega (arith, length-append n (101 ∷ [])) in
      rw (parse_value, shallow depth deep, split, parse_int-show_int pos i tail fits, ends) refl
  value_back (bytes s) (suc fuel) depth pos tail (deep, fits) enough_ =
      let (b, bs, written, digit) = write_bytes-first s in
      let first : write_bytes s ++ tail ≡ b ∷ (bs ++ tail) = ap (λ t. t ++ tail) written in
      let read =
        sym (ap (λ t. parse_raw_bytes (at pos t)) first)
        ∙ parse_raw_bytes-write_bytes pos s tail fits in
      rw (parse_value, shallow depth deep, first, digit, read) refl
  value_back (list items) (suc fuel) depth pos tail (deep, fits) enough_ =
      let w = write_items items in
      let split = append_assoc w (101 ∷ []) tail in
      let size = length-append w (101 ∷ []) in
      let ends : suc (suc pos + length w) ≡ pos + length (write_value (list items)) =
        omega (arith, size) in
      rw
        (
          parse_value,
          shallow depth deep,
          split,
          items_back items fuel depth (suc pos) tail fits (omega (arith, size)),
          ends,
        )
        refl
  value_back (dict fs) (suc fuel) depth pos tail (deep, fits) enough_ =
      let w = write_fields fs in
      let split = append_assoc w (101 ∷ []) tail in
      let size = length-append w (101 ∷ []) in
      let ends : suc (suc pos + length w) ≡ pos + length (write_value (dict fs)) =
        omega (arith, size) in
      rw
        (
          parse_value,
          shallow depth deep,
          split,
          fields_back fs fuel depth end (suc pos) tail fits tt (omega (arith, size)),
          ends,
        )
        refl

  items_back :
      (items : Items) (fuel depth pos : ℕ) (tail : Bytes)
      → AreItems (suc depth) items
      → 2 + 2 * length (write_items items) ≤ fuel
      → parse_items fuel depth pos (write_items items ++ (101 ∷ tail))
        ≡ ok (items, at (suc (pos + length (write_items items))) tail)
  items_back items zero depth pos tail h enough_ = absurd (omega arith)
  items_back nil (suc fuel) depth pos tail h enough_ = ap (λ p. ok (nil, p)) (same_at (omega arith))
  items_back (cons v items) (suc fuel) depth pos tail (h, hs) enough_ =
      let (b, bs, written, other) = value_first v in
      let w = write_value v in
      let more = write_items items in
      let size = length-append w more in
      let long : length w ≡ suc (length bs) = ap length written in
      let behind = more ++ (101 ∷ tail) in
      let split : (w ++ more) ++ (101 ∷ tail) ≡ b ∷ (bs ++ behind) =
        append_assoc w more (101 ∷ tail) ∙ ap (λ t. t ++ behind) written in
      let value =
        sym (ap (λ t. parse_value fuel (suc depth) pos (t ++ behind)) written)
        ∙ value_back v fuel (suc depth) pos behind h (omega (arith, size)) in
      let rest = items_back items fuel depth (pos + length w) tail hs (omega (arith, size, long)) in
      let ends : suc (pos + length w + length more) ≡ suc (pos + length (w ++ more)) =
        omega (arith, size) in
      rw (parse_items, split, other, value, rest, ends) refl

  fields_back :
      (fs : Fields) (fuel depth : ℕ) (map : Fields) (pos : ℕ) (tail : Bytes)
      → AreFields (suc depth) fs
      → Before map fs
      → 2 + 2 * length (write_fields fs) ≤ fuel
      → parse_fields fuel depth map pos (write_fields fs ++ (101 ∷ tail))
        ≡ ok (join map fs, at (suc (pos + length (write_fields fs))) tail)
  fields_back fs zero depth map pos tail h before enough_ = absurd (omega arith)
  fields_back end (suc fuel) depth map pos tail h before enough_ =
      ap (λ r. ok r) (pair_eq (sym (join-end map)) (same_at (omega arith)))
  fields_back (field k v fs) (suc fuel) depth map pos tail (key, h, above, hs) before enough_ =
      let (b, bs, written, digit) = write_bytes-first k in
      let w = write_value v in
      let more = write_fields fs in
      let behind = more ++ (101 ∷ tail) in
      let size = length-append (write_bytes k) (w ++ more) in
      let size' = length-append w more in
      let long : length (write_bytes k) ≡ suc (length bs) = ap length written in
      let split : (write_bytes k ++ (w ++ more)) ++ (101 ∷ tail) ≡ b ∷ (bs ++ (w ++ behind)) =
        append_assoc (write_bytes k) (w ++ more) (101 ∷ tail)
        ∙ ap (λ t. write_bytes k ++ t) (append_assoc w more (101 ∷ tail))
        ∙ ap (λ t. t ++ (w ++ behind)) written in
      let name =
        sym (ap (λ t. parse_raw_bytes (at pos (t ++ (w ++ behind)))) written)
        ∙ parse_raw_bytes-write_bytes pos k (w ++ behind) key in
      let start = pos + length (write_bytes k) in
      let value = value_back v fuel (suc depth) start behind h (omega (arith, size, size', long)) in
      let (below_k, before') = Before-AllBelow map k v fs before in
      let grown = insert_last k v map below_k in
      let rest =
        fields_back fs fuel depth (join map (field k v end)) (start + length w) tail hs
          (Before-join map k v fs before' above) (omega (arith, size, size', long)) in
      let ends : suc (start + length w + length more)
          ≡ suc (pos + length (write_bytes k ++ (w ++ more))) =
        omega (arith, size, size') in
      rw (parse_fields, split, digit, name, value, grown, rest, join_assoc map k v fs, ends) refl

-- A value whose integers are i64, whose strings have a u64 length, whose keys ascend and whose nesting is
-- at most 64 levels deep is read back from its encoding, also where more bytes follow, and the number
-- of bytes read is that of the encoding.
pub decode_prefix-encode :
    (v : Value) (tail : Bytes)
    → IsValue 0 v
    → decode_prefix (encode v ++ tail) ≡ ok (v, length (encode v))
unfolding decode_prefix encode
decode_prefix-encode v tail h =
    let size = length-append (write_value v) tail in
    let read = value_back v (fuel_for (write_value v ++ tail)) 0 0 tail h (omega (arith, size)) in
    rw read (
      ap (λ n. ok (v, n))
        (let e : 0 + length (write_value v) ≡ length (write_value v) = omega arith in e))

pub decode-encode : (v : Value) → IsValue 0 v → decode (encode v) ≡ ok v
unfolding decode encode
decode-encode v h =
    let whole = append-nil (write_value v) in
    let read = value_back v (fuel_for (write_value v)) 0 0 [] h (omega arith) in
    rw (sym (ap (λ t. parse_value (fuel_for (write_value v)) 0 0 t) whole) ∙ read) refl
