-- ===== src/Storage/Layout.antt =====
-- crates/xfer-storage/src/piece.rs, `PieceLayout`: how pieces lie across the files of a torrent. The
-- lengths and offsets are u64, and their sums wrap. In `piece_segments` the start of the piece is not
-- reduced and a difference stops at 0: this is the code for each piece that starts below the total
-- length and whose start and length add up to a u64, where no file's end wraps.
pub mod Segments
pub mod Done
pub mod Counts
pub mod Credited
use xfer_rust.Common.{
  ℕ, zero, suc, ◌+◌, ◌-◌, ◌*◌, ◌/◌, ◌%◌, ◌^◌, min, max, Bool, true, false, not, ◌&&◌, ◌||◌, Option,
  none, some, List, [], ◌∷◌, ltb, leb, ◌==◌, if◌then◌else◌, length, map,
}
use xfer_rust.Storage.PieceMap.{PieceMap, new, set_piece}

-- `Path` is the type of a path segment, of which only the number in a path counts here.
pub record FileLayout : Type 0 where
  pub path : List (List ℕ)
  pub length : ℕ
  pub offset : ℕ

pub record PieceLayout : Type 0 where
  pub piece_length : ℕ
  pub files : List FileLayout
  pub multi_file : Bool

unfoldable pub place : ℕ → List (List (List ℕ) × ℕ) → List FileLayout
place offset [] = []
place offset ((path, length) ∷ files) =
    record { path = path; length = length; offset = offset }
    ∷ place ((offset + length) % 2 ^ 64) files

-- One file with one path segment is taken for a torrent of a single file.
abbrev pub looks_single : List FileLayout → Bool
looks_single (f ∷ []) = length f.path == 1
looks_single _ = false

unfoldable pub new_layout : ℕ → List (List (List ℕ) × ℕ) → PieceLayout
new_layout piece_length files =
    let placed = place 0 files in
    record { piece_length = piece_length; files = placed; multi_file = not (looks_single placed) }

unfoldable pub with_multi_file : Bool → PieceLayout → PieceLayout
with_multi_file multi_file l = record l { multi_file = multi_file }

unfoldable pub is_single_file : PieceLayout → Bool
is_single_file l = not l.multi_file && (length l.files == 1)

-- Before the wrap-around, which the sums make that take it.
abbrev pub sum_lengths : List FileLayout → ℕ
sum_lengths [] = 0
sum_lengths (f ∷ files) = f.length + sum_lengths files

unfoldable pub total_length : PieceLayout → ℕ
total_length l = sum_lengths l.files % 2 ^ 64

unfoldable pub piece_count : PieceLayout → ℕ
piece_count l =
    if l.piece_length == 0
    then 0
    else ((total_length l + l.piece_length - 1) / l.piece_length) % 2 ^ 32

unfoldable pub piece_len : PieceLayout → ℕ → ℕ
piece_len l index =
    let total = total_length l in
    let start = index * l.piece_length % 2 ^ 64 in
    if leb total start then 0 else min (total - start) l.piece_length

-- The loop over the files from number `fi` on.
unfoldable pub segments : ℕ → ℕ → ℕ → List FileLayout → List (ℕ × ℕ × ℕ)
segments piece_start piece_end fi [] = []
segments piece_start piece_end fi (f ∷ files) =
    let rest = segments piece_start piece_end (suc fi) files in
    let f_end = (f.offset + f.length) % 2 ^ 64 in
    let seg_start = max piece_start f.offset - f.offset in
    let seg_end = min piece_end f_end - f.offset in
    if leb piece_end f.offset || leb f_end piece_start
    then rest
    else (fi, seg_start, seg_end - seg_start) ∷ rest

unfoldable pub piece_segments : PieceLayout → ℕ → List (ℕ × ℕ × ℕ)
piece_segments l index =
    let piece_start = index * l.piece_length in
    segments piece_start (min ((piece_start + l.piece_length) % 2 ^ 64) (total_length l)) 0 l.files

-- The `HashSet` of the selected files is the list that it is made of.
abbrev pub contains : ℕ → List ℕ → Bool
contains fi [] = false
contains fi (s ∷ sel) = fi == s || contains fi sel

abbrev pub any_selected : List ℕ → List (ℕ × ℕ × ℕ) → Bool
any_selected sel [] = false
any_selected sel ((fi, off, len) ∷ segs) = contains fi sel || any_selected sel segs

unfoldable pub mask_loop : PieceLayout → List ℕ → ℕ → ℕ → PieceMap → PieceMap
mask_loop l sel idx zero m = m
mask_loop l sel idx (suc n) m =
    mask_loop l sel (suc idx) n
      (if any_selected sel (piece_segments l idx) then set_piece idx m else m)

unfoldable pub wanted_piece_mask : PieceLayout → Option (List ℕ) → Option PieceMap
wanted_piece_mask l none = none
wanted_piece_mask l (some sel) = some (mask_loop l sel 0 (piece_count l) (new (piece_count l)))

unfoldable pub sum_selected : List ℕ → ℕ → List FileLayout → ℕ
sum_selected sel fi [] = 0
sum_selected sel fi (f ∷ files) =
    let rest = sum_selected sel (suc fi) files in if contains fi sel then f.length + rest else rest

unfoldable pub selected_length : PieceLayout → Option (List ℕ) → ℕ
selected_length l none = total_length l
selected_length l (some sel) = sum_selected sel 0 l.files % 2 ^ 64
