-- ===== src/Storage/PieceMap/Merge.antt =====
-- `set_from_bitfield` of `PieceMap`.
use xfer_rust.Common.{
  ℕ, zero, suc, ◌+◌, ◌-◌, ◌*◌, ◌/◌, ◌%◌, ◌<◌, bit_and, ◌≡◌, inl, inr, refl, ap, ◌∙◌, arith, Bool,
  false, ◌&&◌, ◌||◌, [], ◌∷◌, ltb, leb, ◌==◌, if◌then◌else◌, Bool-cases, get_or,
}
use xfer_rust.Common.Bytes.{Bytes}
use xfer_rust.Common.Masks.{bit_and-le}
use xfer_rust.Storage.PieceMap.{
  PieceMap, mask, set_piece, is_set, merge_bits, merge_bytes, set_from_bitfield,
}
use xfer_rust.Storage.PieceMap.Bits.{IsMap, bit_at, set_piece-IsMap, is_set-set_piece}

-- The pieces that the bits from `bit` on of the `i`-th byte `b` name.
abbrev named : ℕ → ℕ → ℕ → ℕ → ℕ → Bool
named count i bit b j =
    ltb j count && leb (i * 8 + bit) j && ltb j (i * 8 + 8) && bit_at b (j - i * 8)

-- What one bit does.
abbrev one_bit : ℕ → ℕ → ℕ → PieceMap → PieceMap
one_bit idx bit b m = if bit_and b (mask bit) == 0 then m else set_piece idx m

one_bit-count : (idx bit b : ℕ) (m : PieceMap) → (one_bit idx bit b m).count ≡ m.count
unfolding set_piece
one_bit-count idx bit b m = ground arith

one_bit-IsMap : (idx bit b : ℕ) (m : PieceMap) → IsMap m → IsMap (one_bit idx bit b m)
one_bit-IsMap idx bit b m h = elim (Bool-cases (bit_and b (mask bit) == 0)) [
  | inl e ↦ rw e h
  | inr e ↦ rw e (set_piece-IsMap idx m h)
]

is_set-one_bit :
    (idx bit b j : ℕ) (m : PieceMap)
    → IsMap m
    → idx < m.count
    → is_set j (one_bit idx bit b m) ≡ (is_set j m || (idx == j && bit_at b bit))
is_set-one_bit idx bit b j m h inside =
    let put = is_set-set_piece idx j m h inside in
    elim (Bool-cases (bit_and b (mask bit) == 0)) [
      | inl e ↦ rw e (ground arith)
      | inr e ↦ rw (e, put) (ground arith)
    ]

merge_bits-IsMap :
    (left bit i b : ℕ) (m : PieceMap)
    → IsMap m
    → IsMap (merge_bits left bit i b m) × ((merge_bits left bit i b m).count ≡ m.count)
unfolding merge_bits
merge_bits-IsMap zero bit i b m h = (h, refl)
merge_bits-IsMap (suc left) bit i b m h =
    let next = one_bit (i * 8 + bit) bit b m in
    let (proper, count) =
      merge_bits-IsMap left (suc bit) i b next (one_bit-IsMap (i * 8 + bit) bit b m h) in
    elim (Bool-cases (leb m.count (i * 8 + bit))) [
      | inl e ↦ rw e (h, refl)
      | inr e ↦ rw e (proper, count ∙ one_bit-count (i * 8 + bit) bit b m)
    ]

merge_bits-is_set :
    (left bit i b j : ℕ) (m : PieceMap)
    → IsMap m
    → bit + left ≡ 8
    → is_set j (merge_bits left bit i b m) ≡ (is_set j m || named m.count i bit b j)
unfolding merge_bits
merge_bits-is_set zero bit i b j m h full = ground arith
merge_bits-is_set (suc left) bit i b j m h full =
    let idx = i * 8 + bit in
    let next = one_bit idx bit b m in
    let rest =
      merge_bits-is_set left (suc bit) i b j next (one_bit-IsMap idx bit b m h) (omega arith) in
    let count = one_bit-count idx bit b m in
    elim (Bool-cases (leb m.count idx)) [
      | inl e ↦ rw e (ground arith)
      | inr e ↦
          let put = is_set-one_bit idx bit b j m h (ground arith) in
          rw (e, rest, put, count)
            (elim (Bool-cases (idx == j)) [
              | inl here ↦
                  let at : j - i * 8 ≡ bit = ground arith in
                  let test = ap (bit_at b) at in ground (arith, test)
              | inr elsewhere ↦ ground arith
            ])
    ]

no_bit : (k : ℕ) → bit_at 0 k ≡ false
no_bit k = ground (arith, bit_and-le 0 (mask k))

-- The pieces that the bytes from the `i`-th on name.
abbrev named_by : ℕ → ℕ → Bytes → ℕ → Bool
named_by count i bf j = ltb j count && leb (i * 8) j && bit_at (get_or bf (j / 8 - i) 0) (j % 8)

merge_bytes-is_set :
    (i : ℕ) (bf : Bytes) (j : ℕ) (m : PieceMap)
    → IsMap m
    → is_set j (merge_bytes i bf m) ≡ (is_set j m || named_by m.count i bf j)
unfolding merge_bytes
merge_bytes-is_set i [] j m h = ground (arith, no_bit (j % 8))
merge_bytes-is_set i (b ∷ bf) j m h =
    let next = merge_bits 8 0 i b m in
    let (proper, count) = merge_bits-IsMap 8 0 i b m h in
    let rest = merge_bytes-is_set (suc i) bf j next proper in
    let byte = merge_bits-is_set 8 0 i b j m h refl in
    elim (Bool-cases (leb m.count (i * 8))) [
      | inl e ↦ rw e (ground arith)
      | inr e ↦
          rw (e, rest, byte, count)
            (elim (Bool-cases (leb (suc i * 8) j)) [
              | inl later ↦
                  let at : j / 8 - i ≡ suc (j / 8 - suc i) = ground arith in
                  let test = ap (λ k. bit_at (get_or (b ∷ bf) k 0) (j % 8)) at in
                  ground (arith, test)
              | inr here ↦ elim (Bool-cases (leb (i * 8) j)) [
                | inl inside ↦
                    let at : j / 8 - i ≡ 0 = ground arith in
                    let bit : j % 8 ≡ j - i * 8 = ground arith in
                    let test =
                      ap (λ k. bit_at (get_or (b ∷ bf) k 0) (j % 8)) at ∙ ap (bit_at b) bit in
                    ground (arith, test)
                | inr before ↦ ground arith
              ]
            ])
    ]

named_all :
    (bf : Bytes) (j : ℕ) (m : PieceMap)
    → named_by m.count 0 bf j ≡ is_set j (record m { bits = bf })
unfolding is_set
named_all bf j m = ground arith

-- Merging a bitfield of any length into a map adds to its pieces exactly those that the bitfield names,
-- where bytes that it lacks name none.
pub set_from_bitfield-is_set :
    (bf : Bytes) (j : ℕ) (m : PieceMap)
    → IsMap m
    → is_set j (set_from_bitfield bf m) ≡ (is_set j m || is_set j (record m { bits = bf }))
unfolding set_from_bitfield
set_from_bitfield-is_set bf j m h =
    merge_bytes-is_set 0 bf j m h ∙ ap (λ t. is_set j m || t) (named_all bf j m)
