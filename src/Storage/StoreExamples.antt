-- ===== src/Storage/StoreExamples.antt =====
-- Runs of the piece store's model on a disk in memory, and its theorems at concrete inputs.
use xfer_rust.Common.{
  ℕ, zero, suc, ◌+◌, ◌-◌, ◌≤◌, ◌<◌, ◌≡◌, ◌≢◌, ◌⊎◌, inl, inr, refl, ap, ◌∙◌, arith, Bool, true,
  false, not, ◌&&◌, Option, none, some, List, [], ◌∷◌, ltb, leb, ◌==◌, if◌then◌else◌, length,
  get_elem?, Bool-cases,
}
use xfer_rust.Common.Bytes.{Bytes}
use xfer_rust.Storage.PieceMap.{new, is_set, to_bitfield}
use xfer_rust.Storage.PieceMap.Bits.{IsMap}
use xfer_rust.Storage.Layout.{new_layout, place, piece_segments, segments, total_length}
use xfer_rust.Storage.Store.{
  Files, PieceStore, find_cached, remove_cached, write_segments, read_segments, visible,
  write_cache_contains, wire_bitfield, durable_bitfield, write_piece_direct, write_oldest,
  evict_loop, flush_loop, evict_to_limit, flush_write_cache, set_write_cache_limit, put_cached,
  write_piece, read_piece,
}
use xfer_rust.Storage.Store.Blocks.{read_block, cached_block, disk_block}
use xfer_rust.Storage.Store.Disk.{IsDisk}
use xfer_rust.Storage.Store.Tidy.{Request, IsTidy, perform, performs, performs-IsTidy}
use xfer_rust.Storage.Store.Shows.{latest, AllSound}
use xfer_rust.Storage.Store.Reads.{performs-read_piece}
use xfer_rust.Storage.Store.Durable.{durable_bitfield-is_set}

-- The bytes of the files, and whether the disk takes what is written.
pub record Memory : Type 0 where
  pub content : ℕ → ℕ → Option ℕ
  pub healthy : Bool

abbrev written_over : ℕ → ℕ → Bytes → (ℕ → ℕ → Option ℕ) → ℕ → ℕ → Option ℕ
written_over fi off bytes d g o =
    if g == fi && (leb off o && ltb o (off + length bytes))
    then get_elem? bytes (o - off)
    else d g o

abbrev read_from : (ℕ → ℕ → Option ℕ) → ℕ → ℕ → ℕ → Option Bytes
read_from d fi off zero = some []
read_from d fi off (suc n) = elim (d fi off) [
  | none ↦ none
  | some b ↦ elim (read_from d fi (suc off) n) [ none ↦ none | some rest ↦ some (b ∷ rest) ]
]

abbrev in_memory : Files Memory
in_memory = record {
  write_at = λ fi off bytes d.
      if d.healthy
      then (record d { content = written_over fi off bytes d.content }, true)
      else (d, false);
  read_at = λ fi off len d. read_from d.content fi off len;
}

kept_over :
    (fi off : ℕ) (bytes : Bytes) (d : Memory) (g o : ℕ)
    → (g ≢ fi) ⊎ (o < off) ⊎ (off + length bytes ≤ o)
    → (in_memory.write_at fi off bytes d).0.content g o ≡ d.content g o
kept_over fi off bytes d g o away = elim (Bool-cases d.healthy) [
  | inr sick ↦ simp sick refl
  | inl well ↦
      let other : g == fi && (leb off o && ltb o (off + length bytes)) ≡ false = ground arith in
      simp well (rw other refl)
]

put_over :
    (fi off : ℕ) (bytes : Bytes) (d : Memory) (k : ℕ)
    → (in_memory.write_at fi off bytes d).1 ≡ true
    → k < length bytes
    → (in_memory.write_at fi off bytes d).0.content fi (off + k) ≡ get_elem? bytes k
put_over fi off bytes d k done lt = elim (Bool-cases d.healthy) [
  | inr sick ↦ absurd (cc (simp sick at done))
  | inl well ↦
      let inside : fi == fi && (leb off (off + k) && ltb (off + k) (off + length bytes)) ≡ true =
        ground arith in
      let back : off + k - off ≡ k = omega arith in simp well (rw (inside, back) refl)
]

read_back :
    (d : ℕ → ℕ → Option ℕ) (fi off : ℕ) (bytes : Bytes)
    → ((k : ℕ) → k < length bytes → d fi (off + k) ≡ get_elem? bytes k)
    → read_from d fi off (length bytes) ≡ some bytes
read_back d fi off [] h = refl
read_back d fi off (b ∷ bytes) h =
    let first : d fi off ≡ some b =
      ap (d fi) (let e : off ≡ off + 0 = omega arith in e) ∙ h 0 (omega arith) in
    let rest = read_back d fi (suc off) bytes (λ k lt.
      ap (d fi) (let e : suc off + k ≡ off + suc k = omega arith in e) ∙ h (suc k) (omega arith)) in
    rw (read_from, first, rest) refl

in_memory-IsDisk : IsDisk Memory in_memory
in_memory-IsDisk = record {
  stored = λ d. d.content;
  kept = kept_over;
  puts = put_over;
  reads_back = λ fi off bytes d h. read_back d.content fi off bytes h;
}

-- Three files, of which the second is empty, in pieces of 8 and of 3 bytes.
abbrev empty_store : PieceStore Memory
empty_store = record {
  layout = new_layout 8 (((97 ∷ []) ∷ [], 5) ∷ ((98 ∷ []) ∷ [], 0) ∷ ((99 ∷ []) ∷ [], 6) ∷ []);
  opened = true ∷ true ∷ true ∷ [];
  disk = record { content = λ g o. none; healthy = true };
  map = new 2;
  write_cache = [];
  write_cache_bytes = 0;
  cache_limit = 0;
}

abbrev first : Bytes
first = 1 ∷ 2 ∷ 3 ∷ 4 ∷ 5 ∷ 6 ∷ 7 ∷ 8 ∷ []

abbrev newer : Bytes
newer = 21 ∷ 22 ∷ 23 ∷ 24 ∷ 25 ∷ 26 ∷ 27 ∷ 28 ∷ []

abbrev requests : List Request
requests =
    Request.limits 10
    ∷ Request.writes 0 first
    ∷ Request.writes 1 (9 ∷ 10 ∷ 11 ∷ [])
    ∷ Request.flushes
    ∷ []

-- The second piece does not fit beside the first, which goes to disk.
one_evicted :
    write_cache_contains
      (performs in_memory
        (Request.limits 10 ∷ Request.writes 0 first ∷ Request.writes 1 (9 ∷ 10 ∷ 11 ∷ []) ∷ [])
        empty_store)
      0
    ≡ false
unfolding new_layout place piece_segments segments total_length find_cached remove_cached
    write_segments write_cache_contains write_piece_direct write_oldest evict_loop evict_to_limit
    set_write_cache_limit put_cached write_piece perform performs
one_evicted = refl

requests-AllSound : AllSound in_memory requests empty_store
unfolding new_layout place piece_segments segments total_length find_cached remove_cached
    write_segments write_piece_direct write_oldest evict_loop evict_to_limit set_write_cache_limit
    put_cached write_piece perform
requests-AllSound = (tt, ((refl, inl refl), ((refl, inl refl), (tt, tt))))

first_known : latest in_memory requests empty_store (λ j. none) 0 ≡ some first
unfolding new_layout place piece_segments segments total_length find_cached remove_cached
    write_segments write_piece_direct write_oldest evict_loop flush_loop evict_to_limit
    flush_write_cache set_write_cache_limit put_cached write_piece perform
first_known = refl

performs-read_piece_example :
    read_piece in_memory 0 (performs in_memory requests empty_store)
    ≡ some (
        visible
          (performs in_memory requests empty_store).opened
          (piece_segments (performs in_memory requests empty_store).layout 0)
          first)
performs-read_piece_example =
    performs-read_piece in_memory in_memory-IsDisk requests empty_store refl requests-AllSound 0
      first first_known

empty_store-IsTidy : IsTidy Memory empty_store
empty_store-IsTidy = record { counted = refl; single = tt }

performs-IsTidy_example : IsTidy Memory (performs in_memory requests empty_store)
performs-IsTidy_example = performs-IsTidy in_memory requests empty_store empty_store-IsTidy

limits_done : (perform in_memory (Request.limits 10) empty_store).1 ≡ true
unfolding perform set_write_cache_limit evict_to_limit evict_loop
limits_done = refl

-- Piece 0 waits in the cache and piece 1 is on disk; both are done.
abbrev half_written : PieceStore Memory
half_written = record empty_store {
  map = record { count = 2; bits = 0xc0 ∷ [] };
  write_cache = record { index = 0; bytes = first } ∷ [];
  write_cache_bytes = 8;
  cache_limit = 10;
}

half_written-IsMap : IsMap half_written.map
half_written-IsMap = record { sized = refl; bytes = omega arith }

durable_bitfield-is_set_example :
    is_set 0 (record half_written.map { bits = durable_bitfield half_written })
    ≡ (not (write_cache_contains half_written 0) && is_set 0 half_written.map)
durable_bitfield-is_set_example =
    durable_bitfield-is_set half_written 0 half_written-IsMap (λ no. absurd (omega arith))

-- The disk fails while the cache is turned off, and recovers.
abbrev turned_off : PieceStore Memory
turned_off =
    let sick = record half_written { disk = record half_written.disk { healthy = false } } in
    let off = (set_write_cache_limit in_memory 0 sick).0 in
    record off { disk = record off.disk { healthy = true } }

-- The piece that waits in the cache is listed as durable.
listed_as_durable : durable_bitfield turned_off ≡ 0xc0 ∷ []
unfolding new_layout place piece_segments segments total_length write_segments write_piece_direct
    write_oldest evict_loop evict_to_limit set_write_cache_limit durable_bitfield wire_bitfield
    to_bitfield
listed_as_durable = refl

-- A piece that is written past the cache is read as it was before, and a flush puts the older bytes on disk.
older_is_read : read_piece in_memory 0 (write_piece in_memory 0 newer turned_off).0 ≡ some first
unfolding new_layout place piece_segments segments total_length write_segments write_piece_direct
    write_oldest evict_loop evict_to_limit set_write_cache_limit find_cached visible write_piece
    read_piece
older_is_read = refl

older_is_flushed :
    read_piece in_memory 0
      (flush_write_cache in_memory (write_piece in_memory 0 newer turned_off).0).0
    ≡ some first
unfolding new_layout place piece_segments segments total_length write_segments read_segments
    write_piece_direct write_oldest evict_loop evict_to_limit flush_loop flush_write_cache
    set_write_cache_limit find_cached visible write_piece read_piece
older_is_flushed = refl

-- A disk in memory that never fails.
abbrev never_full : Files (ℕ → ℕ → Option ℕ)
never_full = record {
  write_at = λ fi off bytes d. (written_over fi off bytes d, true);
  read_at = λ fi off len d. read_from d fi off len;
}

abbrev two_waiting : PieceStore (ℕ → ℕ → Option ℕ)
two_waiting = record {
  layout = empty_store.layout;
  opened = true ∷ true ∷ true ∷ [];
  disk = λ g o. none;
  map = record { count = 2; bits = 0xc0 ∷ [] };
  write_cache =
      record { index = 0; bytes = first } ∷ record { index = 1; bytes = 9 ∷ 10 ∷ 11 ∷ [] } ∷ [];
  write_cache_bytes = 11;
  cache_limit = 20;
}

-- A block across two files, from the cache and after a flush.
block_waiting : read_block never_full 0 3 4 two_waiting ≡ some (4 ∷ 5 ∷ 6 ∷ 7 ∷ [])
unfolding read_block cached_block find_cached new_layout place
block_waiting = refl

block_on_disk :
    read_block never_full 0 3 4 (flush_write_cache never_full two_waiting).0
    ≡ some (4 ∷ 5 ∷ 6 ∷ 7 ∷ [])
unfolding read_block disk_block find_cached new_layout place piece_segments segments total_length
    write_segments write_piece_direct write_oldest flush_loop flush_write_cache
block_on_disk = refl
