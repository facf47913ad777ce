-- ===== src/Storage/PieceMap/Clearing.antt =====
-- Clearing bits of a `PieceMap`.
use xfer_rust.Common.{
  ℕ, ◌-◌, ◌/◌, ◌%◌, ◌<◌, bit_and, ◌≡◌, inl, inr, refl, ap, ◌∙◌, arith, true, false, not, ◌&&◌, ltb,
  ltb→lt, leb, ◌==◌, Bool-cases, get_or, length-set,
}
use xfer_rust.Storage.PieceMap.{PieceMap, mask, unset, is_set}
use xfer_rust.Storage.PieceMap.Bits.{
  all_below, all_below_holds, bit_at, same, same-eq, both, IsMap, get_or-set, IsBytes-set,
  get_or-below,
}

clear_table :
    all_below 8 (λ k. all_below 8 (λ j. all_below 256 (λ b.
      same (bit_at (bit_and b (255 - mask k)) j) (not (k == j) && bit_at b j)
      && ltb (bit_and b (255 - mask k)) 256)))
    ≡ true
unfolding all_below
clear_table = refl

and_mask :
    (k j b : ℕ)
    → k < 8
    → j < 8
    → b < 256
    → (bit_at (bit_and b (255 - mask k)) j ≡ (not (k == j) && bit_at b j))
      × (bit_and b (255 - mask k) < 256)
and_mask k j b hk hj hb =
    let row = all_below_holds 8 _ k hk clear_table in
    let column = all_below_holds 8 _ j hj row in
    let (agrees, small) =
      both (same (bit_at (bit_and b (255 - mask k)) j) (not (k == j) && bit_at b j)) _
        (all_below_holds 256 _ b hb column) in
    (same-eq _ _ agrees, ltb→lt _ _ small)

pub unset-IsMap : (i : ℕ) (m : PieceMap) → IsMap m → IsMap (unset i m)
unfolding unset
unset-IsMap i m h =
    let b = get_or m.bits (i / 8) 0 in
    let small =
      and_mask (i % 8) 0 b (omega arith) (omega arith) (get_or-below m.bits (i / 8) h.bytes) in
    elim (Bool-cases (ltb i m.count)) [
      | inl e ↦ rw e (record {
        sized = length-set m.bits (i / 8) (bit_and b (255 - mask (i % 8))) ∙ h.sized;
        bytes = IsBytes-set m.bits (i / 8) (bit_and b (255 - mask (i % 8))) small.1 h.bytes;
      })
      | inr e ↦ rw e h
    ]

pub count-unset : (i : ℕ) (m : PieceMap) → (unset i m).count ≡ m.count
unfolding unset
count-unset i m = elim (Bool-cases (ltb i m.count)) [ inl e ↦ rw e refl | inr e ↦ rw e refl ]

-- Clearing a piece of the map clears its bit and leaves every other as it was.
pub is_set-unset :
    (i j : ℕ) (m : PieceMap) → IsMap m → is_set j (unset i m) ≡ (not (i == j) && is_set j m)
unfolding unset is_set
is_set-unset i j m h = elim (Bool-cases (ltb i m.count)) [
  | inr past ↦ rw past (ground arith)
  | inl there ↦
      let b = get_or m.bits (i / 8) 0 in
      let (bit, _) =
        and_mask (i % 8) (j % 8) b (omega arith) (omega arith)
          (get_or-below m.bits (i / 8) h.bytes) in
      let at =
        get_or-set m.bits (i / 8) (j / 8) (bit_and b (255 - mask (i % 8)))
          (ground (arith, h.sized)) in
      elim (Bool-cases (leb m.count j)) [
        | inl outside ↦ rw (there, outside) (ground arith)
        | inr inside ↦ elim (Bool-cases (i / 8 == j / 8)) [
          | inl one ↦
              let q : i / 8 ≡ j / 8 = ground arith in
              let eqs : (i % 8 == j % 8) ≡ (i == j) = ground arith in
              let byte : b ≡ get_or m.bits (j / 8) 0 = ap (λ t. get_or m.bits t 0) q in
              rw (there, inside, (rw one at at))
                (bit
                  ∙ ap (λ t. not t && bit_at b (j % 8)) eqs
                  ∙ ap (λ t. not (i == j) && bit_at t (j % 8)) byte)
          | inr other ↦
              let ne : (i == j) ≡ false = ground arith in
              rw (there, inside, (rw other at at), ne) refl
        ]
      ]
]
