-- ===== src/Storage/Store/Blocks.antt =====
-- crates/xfer-storage/src/piece.rs, `PieceStore::read_block`: a part of a piece, for a peer that asks for it.
-- The u64 sums wrap; a difference stops at 0, which is the code where no sum wraps.
use xfer_rust.Common.{
  ℕ, suc, ◌+◌, ◌-◌, ◌*◌, ◌%◌, ◌^◌, min, max, Bool, not, ◌||◌, Option, none, some, List, [], ◌∷◌,
  ◌++◌, leb, if◌then◌else◌, length, take, drop,
}
use xfer_rust.Common.Bytes.{Bytes}
use xfer_rust.Storage.Layout.{FileLayout}
use xfer_rust.Storage.Store.{Files, PieceStore, find_cached, is_open}

-- The files from number `fi` on, for a block of a piece that is in the cache, and for one on disk.
unfoldable pub cached_block : List Bool → ℕ → ℕ → ℕ → Bytes → ℕ → List FileLayout → Bytes
cached_block opened piece_start block_start block_end cached fi [] = []
cached_block opened piece_start block_start block_end cached fi (g ∷ files) =
    let rest = cached_block opened piece_start block_start block_end cached (suc fi) files in
    let f_end = (g.offset + g.length) % 2 ^ 64 in
    let rel = max block_start g.offset - piece_start in
    let seg_len = min block_end f_end - max block_start g.offset in
    if leb block_end g.offset || leb f_end block_start
    then rest
    else if not (is_open opened fi)
    then rest
    else if leb (length cached) rel
    then rest
    else take seg_len (drop rel cached) ++ rest

abbrev pub joined : Option Bytes → Option Bytes → Option Bytes
joined none more = none
joined (some bytes) none = none
joined (some bytes) (some more) = some (bytes ++ more)

unfoldable pub disk_block :
    {D : Type 0} → Files D → List Bool → ℕ → ℕ → D → ℕ → List FileLayout → Option Bytes
disk_block f opened block_start block_end disk fi [] = some []
disk_block f opened block_start block_end disk fi (g ∷ files) =
    let rest = disk_block f opened block_start block_end disk (suc fi) files in
    let f_end = (g.offset + g.length) % 2 ^ 64 in
    let seg_start = max block_start g.offset - g.offset in
    let seg_end = min block_end f_end - g.offset in
    if leb block_end g.offset || leb f_end block_start
    then rest
    else if not (is_open opened fi)
    then rest
    else joined (f.read_at fi seg_start (seg_end - seg_start) disk) rest

unfoldable pub read_block : {D : Type 0} → Files D → ℕ → ℕ → ℕ → PieceStore D → Option Bytes
read_block f index begin block_len s =
    let piece_start = index * s.layout.piece_length % 2 ^ 64 in
    let block_start = (piece_start + begin) % 2 ^ 64 in
    let block_end = (block_start + block_len) % 2 ^ 64 in
    elim (find_cached index s.write_cache) [
      | some cached ↦
          some (cached_block s.opened piece_start block_start block_end cached 0 s.layout.files)
      | none ↦ disk_block f s.opened block_start block_end s.disk 0 s.layout.files
    ]
