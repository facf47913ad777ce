-- ===== src/Storage/Store.antt =====
-- crates/xfer-storage/src/piece.rs, `PieceStore`: the pieces on disk and the write-back cache before it.
-- The files are a type D with the operations on a handle that the code uses: to write bytes at an offset
-- (seek and write_all), which says whether it succeeded and may change the disk where it does not, and
-- to read so many bytes at an offset. Only a selected file is opened; the code panics on a piece that is
-- shorter than its segments, which the theorems exclude.
pub mod Blocks
pub mod Cache
pub mod Disk
pub mod Pieces
pub mod Entries
pub mod Tidy
pub mod Shows
pub mod Reads
pub mod Durable
pub mod Progress
use xfer_rust.Common.{
  ℕ, zero, suc, ◌+◌, ◌-◌, ◌*◌, ◌/◌, ◌%◌, ◌^◌, min, max, Bool, true, false, not, ◌&&◌, ◌||◌, Option,
  none, some, List, [], ◌∷◌, ◌++◌, ltb, leb, ◌==◌, if◌then◌else◌, length, take, drop, get_or,
}
use xfer_rust.Common.Bytes.{Bytes}
use xfer_rust.Storage.PieceMap.{PieceMap, set_piece, unset, is_set, set_from_bitfield, to_bitfield}
use xfer_rust.Storage.Layout.{PieceLayout, piece_segments, piece_len}

pub record Files (D : Type 0) : Type 0 where
  pub write_at : ℕ → ℕ → Bytes → D → D × Bool
  pub read_at : ℕ → ℕ → ℕ → D → Option Bytes

pub record CachedPiece : Type 0 where
  pub index : ℕ
  pub bytes : Bytes

pub record PieceStore (D : Type 0) : Type 0 where
  pub layout : PieceLayout
  pub opened : List Bool
  pub disk : D
  pub map : PieceMap
  pub write_cache : List CachedPiece
  pub write_cache_bytes : ℕ
  pub cache_limit : ℕ

-- The cached data of a piece; the first entry of that index, and the entries without it.
unfoldable pub find_cached : ℕ → List CachedPiece → Option Bytes
find_cached index [] = none
find_cached index (c ∷ cs) = if c.index == index then some c.bytes else find_cached index cs

unfoldable pub remove_cached : ℕ → List CachedPiece → List CachedPiece
remove_cached index [] = []
remove_cached index (c ∷ cs) = if c.index == index then cs else c ∷ remove_cached index cs

abbrev pub removed_bytes : Option Bytes → ℕ
removed_bytes none = 0
removed_bytes (some bytes) = length bytes

-- Whether a file has a handle.
abbrev pub is_open : List Bool → ℕ → Bool
is_open opened fi = get_or opened fi false

unfoldable pub write_segments :
    {D : Type 0} → Files D → List Bool → List (ℕ × ℕ × ℕ) → Bytes → D → D × Bool
write_segments f opened [] bytes disk = (disk, true)
write_segments f opened ((fi, off, len) ∷ segs) bytes disk =
    let written = f.write_at fi off (take len bytes) disk in
    let rest = write_segments f opened segs (drop len bytes) written.0 in
    let skipped = write_segments f opened segs (drop len bytes) disk in
    if is_open opened fi then (if written.1 then rest else written) else skipped

unfoldable pub read_segments :
    {D : Type 0} → Files D → List Bool → List (ℕ × ℕ × ℕ) → D → Option Bytes
read_segments f opened [] disk = some []
read_segments f opened ((fi, off, len) ∷ segs) disk =
    let rest = read_segments f opened segs disk in
    if is_open opened fi
    then elim (f.read_at fi off len disk) [
      | none ↦ none
      | some bytes ↦ elim rest [ none ↦ none | some more ↦ some (bytes ++ more) ]
    ]
    else rest

-- The bytes of a cached piece that lie in opened files.
unfoldable pub visible : List Bool → List (ℕ × ℕ × ℕ) → Bytes → Bytes
visible opened [] bytes = []
visible opened ((fi, off, len) ∷ segs) bytes =
    let rest = visible opened segs (drop len bytes) in
    if is_open opened fi then take len bytes ++ rest else rest

unfoldable pub mark_loop : ℕ → ℕ → PieceMap → PieceMap
mark_loop i zero m = m
mark_loop i (suc n) m = mark_loop (suc i) n (set_piece i m)

unfoldable pub unset_all : List CachedPiece → PieceMap → PieceMap
unset_all [] m = m
unset_all (c ∷ cs) m = unset_all cs (unset c.index m)

-- The lengths of the pieces from `i` on, `n` of them, that are set.
unfoldable pub done_from : PieceLayout → PieceMap → ℕ → ℕ → ℕ
done_from l m i zero = 0
done_from l m i (suc n) =
    let rest = done_from l m (suc i) n in if is_set i m then piece_len l i + rest else rest

module _ {D : Type 0} where
  unfoldable pub write_cache_contains : PieceStore D → ℕ → Bool
  write_cache_contains s index = elim (find_cached index s.write_cache) [
    | none ↦ false
    | some bytes ↦ true
  ]

  unfoldable pub mark_done : ℕ → PieceStore D → PieceStore D
  mark_done index s = record s { map = set_piece index s.map }

  unfoldable pub mark_all_done : PieceStore D → PieceStore D
  mark_all_done s = record s { map = mark_loop 0 s.map.count s.map }

  unfoldable pub set_bitfield : Bytes → PieceStore D → PieceStore D
  set_bitfield bf s =
      if length bf == (s.map.count + 7) / 8
      then record s { map = set_from_bitfield bf s.map }
      else s

  unfoldable pub done_bytes : PieceStore D → ℕ
  done_bytes s = done_from s.layout s.map 0 s.map.count % 2 ^ 64

  unfoldable pub wire_bitfield : PieceStore D → Bytes
  wire_bitfield s = to_bitfield s.map

  unfoldable pub durable_bitfield : PieceStore D → Bytes
  durable_bitfield s =
      if s.cache_limit == 0 || length s.write_cache == 0
      then wire_bitfield s
      else to_bitfield (unset_all s.write_cache s.map)

module _ {D : Type 0} (f : Files D) where
  unfoldable pub write_piece_direct : ℕ → Bytes → PieceStore D → PieceStore D × Bool
  write_piece_direct index bytes s =
      let r = write_segments f s.opened (piece_segments s.layout index) bytes s.disk in
      (record s { disk = r.0 }, r.1)

  -- The oldest piece is written; one that cannot be goes back to the front.
  unfoldable pub write_oldest : CachedPiece → List CachedPiece → PieceStore D → PieceStore D × Bool
  write_oldest c cs s =
      let popped = record s {
        write_cache = cs;
        write_cache_bytes = s.write_cache_bytes - length c.bytes;
      } in
      let r = write_piece_direct c.index c.bytes popped in
      if r.1 then r else (
        record r.0 {
          write_cache = c ∷ r.0.write_cache;
          write_cache_bytes = r.0.write_cache_bytes + length c.bytes;
        },
        false,
      )

  -- The rounds of `evict_to_limit` and `flush_write_cache` on a store with this cache.
  unfoldable pub evict_loop : List CachedPiece → PieceStore D → PieceStore D × Bool
  evict_loop [] s = (s, true)
  evict_loop (c ∷ cs) s =
      let r = write_oldest c cs s in
      let rest = evict_loop cs r.0 in
      if leb s.write_cache_bytes s.cache_limit then (s, true) else if r.1 then rest else r

  unfoldable pub flush_loop : List CachedPiece → PieceStore D → PieceStore D × Bool
  flush_loop [] s = (s, true)
  flush_loop (c ∷ cs) s =
      let r = write_oldest c cs s in let rest = flush_loop cs r.0 in if r.1 then rest else r

  unfoldable pub evict_to_limit : PieceStore D → PieceStore D × Bool
  evict_to_limit s = evict_loop s.write_cache s

  unfoldable pub flush_write_cache : PieceStore D → PieceStore D × Bool
  flush_write_cache s = flush_loop s.write_cache s

  unfoldable pub set_write_cache_limit : ℕ → PieceStore D → PieceStore D × Bool
  set_write_cache_limit bytes s = evict_to_limit (record s { cache_limit = bytes })

  -- The piece enters the cache in place of an older copy.
  unfoldable pub put_cached : ℕ → Bytes → PieceStore D → PieceStore D
  put_cached index bytes s = record s {
    write_cache = remove_cached index s.write_cache ++ record { index = index; bytes = bytes } ∷ [];
    write_cache_bytes =
        s.write_cache_bytes - removed_bytes (find_cached index s.write_cache) + length bytes;
  }

  unfoldable pub write_piece : ℕ → Bytes → PieceStore D → PieceStore D × Bool
  write_piece index bytes s =
      if s.cache_limit == 0 || ltb s.cache_limit (length bytes)
      then write_piece_direct index bytes s
      else evict_to_limit (put_cached index bytes s)

  unfoldable pub read_piece : ℕ → PieceStore D → Option Bytes
  read_piece index s = elim (find_cached index s.write_cache) [
    | some cached ↦ some (visible s.opened (piece_segments s.layout index) cached)
    | none ↦ read_segments f s.opened (piece_segments s.layout index) s.disk
  ]

  -- `verify_piece` compares the SHA-1 of the data with the expected one: `verified` is its answer.
  -- The result is none for an error, and else whether the piece was accepted.
  unfoldable pub accept_piece : Bool → ℕ → Bytes → PieceStore D → PieceStore D × Option Bool
  accept_piece verified index bytes s =
      let r = write_piece index bytes s in
      if not verified
      then (s, some false)
      else if r.1
      then (mark_done index r.0, some true)
      else (r.0, none)
