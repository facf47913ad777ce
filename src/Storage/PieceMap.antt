-- ===== src/Storage/PieceMap.antt =====
-- crates/xfer-storage/src/piece.rs, `PieceMap`: the bitmap of pieces, the highest bit of a byte first.
pub mod Bits
pub mod Merge
pub mod Clearing
use xfer_rust.Common.{
  ℕ, zero, suc, ◌+◌, ◌-◌, ◌*◌, ◌/◌, ◌%◌, ◌^◌, min, bit_and, bit_or, Bool, true, false, not, List,
  [], ◌∷◌, ◌++◌, ltb, leb, ◌==◌, if◌then◌else◌, get_or, set, replicate, map,
}
use xfer_rust.Common.Bytes.{Bytes}

pub record PieceMap : Type 0 where
  pub count : ℕ
  pub bits : Bytes

-- `0x80 >> k`.
abbrev pub mask : ℕ → ℕ
mask k = 0x80 / 2 ^ k

unfoldable pub new : ℕ → PieceMap
new count = record { count = count; bits = replicate ((count + 7) / 8) 0 }

-- `set` of the code; `!mask` is what the mask leaves of a byte.
unfoldable pub set_piece : ℕ → PieceMap → PieceMap
set_piece i m =
    if ltb i m.count
    then record m { bits = set m.bits (i / 8) (bit_or (get_or m.bits (i / 8) 0) (mask (i % 8))) }
    else m

unfoldable pub unset : ℕ → PieceMap → PieceMap
unset i m =
    if ltb i m.count
    then record m {
      bits = set m.bits (i / 8) (bit_and (get_or m.bits (i / 8) 0) (255 - mask (i % 8)));
    }
    else m

unfoldable pub is_set : ℕ → PieceMap → Bool
is_set i m =
    if leb m.count i then false else not (bit_and (get_or m.bits (i / 8) 0) (mask (i % 8)) == 0)

-- `u8::count_ones`, over the eight bits.
abbrev pub ones_below : ℕ → ℕ → ℕ
ones_below zero b = 0
ones_below (suc k) b = ones_below k b + (if bit_and b (mask k) == 0 then 0 else 1)

abbrev pub count_ones : Bytes → ℕ
count_ones [] = 0
count_ones (b ∷ bs) = ones_below 8 b + count_ones bs

unfoldable pub done_count : PieceMap → ℕ
done_count m = min (count_ones m.bits % 2 ^ 32) m.count

unfoldable pub all_done : PieceMap → Bool
unfolding done_count
all_done m = done_count m == m.count

abbrev pub mask_last : ℕ → Bytes → Bytes
mask_last keep [] = []
mask_last keep (b ∷ []) = bit_and b keep ∷ []
mask_last keep (b ∷ c ∷ bs) = b ∷ mask_last keep (c ∷ bs)

-- The last byte keeps the bits of pieces that there are.
unfoldable pub set_all : PieceMap → PieceMap
set_all m =
    let full = map (λ b. 255) m.bits in
    let trailing = m.count % 8 in
    record m {
      bits = if trailing == 0 then full else mask_last (255 * 2 ^ (8 - trailing) % 256) full;
    }

unfoldable pub clear : PieceMap → PieceMap
clear m = record m { bits = map (λ b. 0) m.bits }

-- The pieces from `i` on, `n` of them, that are not set.
unfoldable pub missing_from : ℕ → ℕ → PieceMap → List ℕ
missing_from i zero m = []
missing_from i (suc n) m =
    let rest = missing_from (suc i) n m in if is_set i m then rest else i ∷ rest

unfoldable pub missing : PieceMap → List ℕ
missing m = missing_from 0 m.count m

unfoldable pub to_bitfield : PieceMap → Bytes
to_bitfield m = m.bits

-- The bits from `bit` to 7 of the byte `b`, which is the `i`-th.
unfoldable pub merge_bits : ℕ → ℕ → ℕ → ℕ → PieceMap → PieceMap
merge_bits zero bit i b m = m
merge_bits (suc left) bit i b m =
    let idx = i * 8 + bit in
    let rest =
      merge_bits left (suc bit) i b (if bit_and b (mask bit) == 0 then m else set_piece idx m) in
    if leb m.count idx then m else rest

unfoldable pub merge_bytes : ℕ → Bytes → PieceMap → PieceMap
merge_bytes i [] m = m
merge_bytes i (b ∷ bf) m =
    let rest = merge_bytes (suc i) bf (merge_bits 8 0 i b m) in
    if leb m.count (i * 8) then m else rest

unfoldable pub set_from_bitfield : Bytes → PieceMap → PieceMap
set_from_bitfield bf m = merge_bytes 0 bf m
