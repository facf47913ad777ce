-- ===== src/Storage/Examples.antt =====
-- Runs of the storage model, and its theorems at concrete inputs.
use xfer_rust.Common.{
  Bool, ◌==◌, ℕ, ◌+◌, ◌*◌, ◌-◌, ◌^◌, ◌≡◌, refl, arith, ◌||◌, some, List, [], ◌∷◌,
}
use xfer_rust.Storage.PieceMap.{
  PieceMap, set_piece, unset, is_set, done_count, missing, missing_from, set_all, set_from_bitfield,
}
use xfer_rust.Storage.PieceMap.Bits.{IsMap}
use xfer_rust.Storage.PieceMap.Merge.{set_from_bitfield-is_set}
use xfer_rust.Storage.Layout.{
  PieceLayout, piece_count, new_layout, place, piece_len, piece_segments, segments, total_length,
  selected_length, sum_selected,
}
use xfer_rust.Storage.Layout.Done.{skip_files, credit_files, pieces_loop, files_done_bytes}
use xfer_rust.Storage.Layout.Credited.{files_done_bytes-count}
use xfer_rust.Storage.Layout.Segments.{Lays, piece_segments-Lays}

abbrev ten : PieceMap
ten = record { count = 10; bits = 0x81 ∷ 0x40 ∷ [] }

ten-IsMap : IsMap ten
ten-IsMap = record { sized = refl; bytes = omega arith }

left_over : missing (set_piece 3 (unset 0 ten)) ≡ 0 ∷ 1 ∷ 2 ∷ 4 ∷ 5 ∷ 6 ∷ 8 ∷ []
unfolding missing missing_from set_piece unset is_set
left_over = refl

whole : set_all ten ≡ record { count = 10; bits = 255 ∷ 0xc0 ∷ [] }
unfolding set_all
whole = refl

three_done : done_count ten ≡ 3
unfolding done_count
three_done = refl

set_from_bitfield-is_set_example :
    is_set 3 (set_from_bitfield (0x10 ∷ []) ten)
    ≡ (is_set 3 ten || is_set 3 (record ten { bits = 0x10 ∷ [] }))
set_from_bitfield-is_set_example = set_from_bitfield-is_set (0x10 ∷ []) 3 ten ten-IsMap

-- Three files, of which the second is empty, in pieces of 8 bytes.
abbrev files : List (List (List ℕ) × ℕ)
files = ((97 ∷ []) ∷ [], 5) ∷ ((98 ∷ []) ∷ [], 0) ∷ ((99 ∷ []) ∷ [], 6) ∷ []

two_files : piece_segments (new_layout 8 files) 0 ≡ (0, 0, 5) ∷ (1, 0, 0) ∷ (2, 0, 3) ∷ []
unfolding piece_segments new_layout place segments total_length
two_files = refl

third_only : selected_length (new_layout 8 files) (some (2 ∷ 2 ∷ [])) ≡ 6
unfolding selected_length new_layout place sum_selected
third_only = refl

piece_segments-Lays_example :
    let l = new_layout 8 files in
    Lays l.files (1 * l.piece_length) (1 * l.piece_length + piece_len l 1) (piece_segments l 1)
piece_segments-Lays_example = piece_segments-Lays 8 files 1 (omega arith) (omega arith)

-- Files of 5, 0 and 7 bytes; of their pieces of 4 bytes the second and the third are there.
abbrev bounds : List (ℕ × ℕ)
bounds = (0, 5) ∷ (5, 0) ∷ (5, 7) ∷ []

abbrev all_but_first : ℕ → Bool
all_but_first i = i == 1 || i == 2

bytes_of_three : files_done_bytes 4 12 bounds all_but_first ≡ 1 ∷ 0 ∷ 7 ∷ []
unfolding files_done_bytes pieces_loop skip_files credit_files
bytes_of_three = refl

files_done_bytes-count_example : files_done_bytes 4 12 bounds all_but_first ≡ 1 ∷ 0 ∷ 7 ∷ []
files_done_bytes-count_example =
    files_done_bytes-count 4 12 bounds all_but_first (omega arith) (omega arith)
      ((omega arith, (omega arith, tt)), ((omega arith, tt), (tt, tt)))
      (omega arith, (omega arith, (omega arith, tt)))

-- A layout whose third piece starts below its total length, and whose start and length have no u64 sum.
abbrev huge : PieceLayout
huge = new_layout (2 ^ 62 + 1) (((97 ∷ []) ∷ [], 2 ^ 63 - 1) ∷ ((98 ∷ []) ∷ [], 2 ^ 63 - 1) ∷ [])

huge_count : piece_count huge ≡ 4
unfolding piece_count new_layout place total_length
huge_count = refl

huge_len : piece_len huge 3 ≡ 2 ^ 62 - 5
unfolding piece_len new_layout place total_length
huge_len = refl

huge_lost : piece_segments huge 3 ≡ []
unfolding piece_segments new_layout place segments total_length
huge_lost = refl

huge_done :
    files_done_bytes
      (2 ^ 62 + 1)
      (2 ^ 64 - 2)
      ((0, 2 ^ 63 - 1) ∷ (2 ^ 63 - 1, 2 ^ 63 - 1) ∷ [])
      (λ i. i == 3)
    ≡ 0 ∷ 0 ∷ []
unfolding files_done_bytes pieces_loop skip_files credit_files
huge_done = refl
