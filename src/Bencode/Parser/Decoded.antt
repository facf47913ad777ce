-- ===== src/Bencode/Parser/Decoded.antt =====
-- The parser of `lib.rs` always answers, and what it accepts is a proper value.
use xfer_rust.Common.{
  ℕ, zero, suc, ◌+◌, ◌*◌, ◌≤◌, ◌≡◌, ◌≢◌, inl, inr, arith, [], ◌∷◌, ltb, ◌==◌, Bool-cases, length,
}
use xfer_rust.Common.Bytes.{Bytes, IsU64}
use xfer_rust.Common.Run.{Run, ok, err, stuck}
use xfer_rust.Bencode.Value.{Value, Fields, end, insert, encode}
use xfer_rust.Bencode.Value.Sorted.{IsValue, AreItems, AreFields, insert-AreFields}
use xfer_rust.Bencode.Parser.{
  BencodeError, Parser, at, token, max_depth, parse_raw_bytes, parse_value, parse_items,
  parse_fields, fuel_for, decode, at_end,
}
use xfer_rust.Bencode.Parser.RoundTrip.{decode-encode}
use xfer_rust.Bencode.Parser.Total.{
  Holds, Left, Holds-bind, Holds-weaken, Token-cases, parse_int-IsValue, parse_raw_bytes-IsU64,
}

Left-le :
    {A : Type 0} (P : A → Type 0) (a b : ℕ) (m : Run BencodeError (A × Parser))
    → a ≤ b
    → Holds (Left P a) m
    → Holds (Left P b) m
Left-le P a b m le h = Holds-weaken (Left P a) (Left P b) m (λ r k. (k.0, omega (arith, k.1))) h

mutual
  unfolding parse_value IsValue

  parse_value-IsValue :
      (fuel depth start : ℕ) (input : Bytes)
      → suc (2 * length input) ≤ fuel
      → IsU64 (length input)
      → Holds (Left (IsValue depth) (length input)) (parse_value fuel depth start input)
  parse_value-IsValue zero depth start input more fits = absurd (omega arith)
  parse_value-IsValue (suc fuel) depth start [] more fits =
      elim (Bool-cases (ltb max_depth depth)) [
        | inl e ↦ rw (parse_value, e) tt
        | inr e ↦ rw (parse_value, e) tt
      ]
  parse_value-IsValue (suc fuel) depth start (b ∷ bs) more fits =
      elim (Bool-cases (ltb max_depth depth)) [
        | inl e ↦ rw (parse_value, e) tt
        | inr e ↦
            let deep : depth ≤ 64 = ground arith in
            elim (Token-cases (token b)) [
              | inl t ↦ rw (parse_value, e, t) (parse_int-IsValue depth start bs deep)
              | inr (inl t) ↦
                  rw (parse_value, e, t)
                    (Holds-bind (Left (AreItems (suc depth)) (length bs))
                      (Left (IsValue depth) (suc (length bs)))
                      (parse_items fuel depth (suc start) bs) _
                      (parse_items-AreItems fuel depth (suc start) bs (omega arith) (omega arith))
                      (λ r h. ((deep, h.0), omega (arith, h.1))))
              | inr (inr (inl t)) ↦
                  rw (parse_value, e, t)
                    (Holds-bind (Left (AreFields (suc depth)) (length bs))
                      (Left (IsValue depth) (suc (length bs)))
                      (parse_fields fuel depth end (suc start) bs) _
                      (parse_fields-AreFields fuel depth end (suc start) bs tt (omega arith)
                        (omega arith))
                      (λ r h. ((deep, h.0), omega (arith, h.1))))
              | inr (inr (inr (inl t))) ↦
                  rw (parse_value, e, t)
                    (Holds-bind (Left (λ (s : Bytes). IsU64 (length s)) (suc (length bs)))
                      (Left (IsValue depth) (suc (length bs))) (parse_raw_bytes (at start (b ∷ bs)))
                      _ (parse_raw_bytes-IsU64 (at start (b ∷ bs)) fits)
                      (λ r h. ((deep, h.0), h.1)))
              | inr (inr (inr (inr (inl t)))) ↦ rw (parse_value, e, t) tt
              | inr (inr (inr (inr (inr t)))) ↦ rw (parse_value, e, t) tt
            ]
      ]

  parse_items-AreItems :
      (fuel depth start : ℕ) (input : Bytes)
      → 2 + 2 * length input ≤ fuel
      → IsU64 (length input)
      → Holds (Left (AreItems (suc depth)) (length input)) (parse_items fuel depth start input)
  parse_items-AreItems zero depth start input more fits = absurd (omega arith)
  parse_items-AreItems (suc fuel) depth start [] more fits = tt
  parse_items-AreItems (suc fuel) depth start (b ∷ bs) more fits =
      let value = parse_value-IsValue fuel (suc depth) start (b ∷ bs) (omega arith) fits in
      elim (Bool-cases (b == 101)) [
        | inl e ↦ rw (parse_items, e) (tt, omega arith)
        | inr e ↦
            rw (parse_items, e)
              (Holds-bind (Left (IsValue (suc depth)) (suc (length bs)))
                (Left (AreItems (suc depth)) (suc (length bs)))
                (parse_value fuel (suc depth) start (b ∷ bs)) _ value
                λ r h.
                  Holds-bind (Left (AreItems (suc depth)) (length r.1.rest))
                    (Left (AreItems (suc depth)) (suc (length bs)))
                    (parse_items fuel depth r.1.pos r.1.rest) _
                    (parse_items-AreItems fuel depth r.1.pos r.1.rest (omega (arith, h.1))
                      (omega (arith, h.1)))
                    (λ s k. ((h.0, k.0), omega (arith, h.1, k.1))))
      ]

  parse_fields-AreFields :
      (fuel depth : ℕ) (map : Fields) (start : ℕ) (input : Bytes)
      → AreFields (suc depth) map
      → 2 + 2 * length input ≤ fuel
      → IsU64 (length input)
      → Holds
          (Left (AreFields (suc depth)) (length input))
          (parse_fields fuel depth map start input)
  parse_fields-AreFields zero depth map start input proper more fits = absurd (omega arith)
  parse_fields-AreFields (suc fuel) depth map start [] proper more fits = tt
  parse_fields-AreFields (suc fuel) depth map start (b ∷ bs) proper more fits =
      elim (Token-cases (token b)) [
        | inl t ↦ rw (parse_fields, t) tt
        | inr (inl t) ↦ rw (parse_fields, t) tt
        | inr (inr (inl t)) ↦ rw (parse_fields, t) tt
        | inr (inr (inr (inl t))) ↦
            rw (parse_fields, t)
              (Holds-bind (Left (λ (s : Bytes). IsU64 (length s)) (suc (length bs)))
                (Left (AreFields (suc depth)) (suc (length bs)))
                (parse_raw_bytes (at start (b ∷ bs))) _
                (parse_raw_bytes-IsU64 (at start (b ∷ bs)) fits)
                λ k key.
                  Holds-bind (Left (IsValue (suc depth)) (length k.1.rest))
                    (Left (AreFields (suc depth)) (suc (length bs)))
                    (parse_value fuel (suc depth) k.1.pos k.1.rest) _
                    (parse_value-IsValue fuel (suc depth) k.1.pos k.1.rest (omega (arith, key.1))
                      (omega (arith, key.1)))
                    λ v value.
                      Left-le (AreFields (suc depth)) (length v.1.rest) (suc (length bs))
                        (parse_fields fuel depth (insert k.0 v.0 map) v.1.pos v.1.rest)
                        (omega (arith, key.1, value.1))
                        (parse_fields-AreFields fuel depth (insert k.0 v.0 map) v.1.pos v.1.rest
                          (insert-AreFields (suc depth) k.0 v.0 map key.0 value.0 proper)
                          (omega (arith, key.1, value.1)) (omega (arith, key.1, value.1))))
        | inr (inr (inr (inr (inl t)))) ↦ rw (parse_fields, t) (proper, omega arith)
        | inr (inr (inr (inr (inr t)))) ↦ rw (parse_fields, t) tt
      ]

at_end-IsValue : (v : Value) (bs : Bytes) → IsValue 0 v → Holds (IsValue 0) (at_end v bs)
at_end-IsValue v [] h = h
at_end-IsValue v (b ∷ bs) h = tt

decode-Holds : (input : Bytes) → IsU64 (length input) → Holds (IsValue 0) (decode input)
unfolding decode
decode-Holds input fits =
    Holds-bind (Left (IsValue 0) (length input)) (IsValue 0)
      (parse_value (fuel_for input) 0 0 input) _
      (parse_value-IsValue (fuel_for input) 0 0 input (omega arith) fits)
      (λ r h. at_end-IsValue r.0 r.1.rest h.0)

settled : (m : Run BencodeError Value) → Holds (IsValue 0) m → m ≢ stuck
settled (ok v) h e = cc e
settled (err e) h g = cc g
settled stuck h e = h

accepted : (m : Run BencodeError Value) (v : Value) → Holds (IsValue 0) m → m ≡ ok v → IsValue 0 v
accepted m v h e = rw e at h

-- With the fuel of `fuel_for`, every input of a u64 length is answered with a value or an error.
pub decode-ne-stuck : (input : Bytes) → IsU64 (length input) → decode input ≢ stuck
decode-ne-stuck input fits = settled (decode input) (decode-Holds input fits)

-- What `decode` accepts, canonical or not, is a proper value, and its encoding decodes to it again.
pub decode-canonical :
    (input : Bytes) (v : Value)
    → IsU64 (length input)
    → decode input ≡ ok v
    → IsValue 0 v × (decode (encode v) ≡ ok v)
decode-canonical input v fits e =
    let proper = accepted (decode input) v (decode-Holds input fits) e in
    (proper, decode-encode v proper)
