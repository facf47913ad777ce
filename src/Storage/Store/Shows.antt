-- ===== src/Storage/Store/Shows.antt =====
-- What is read from the store of crates/xfer-storage/src/piece.rs is what was last written to it.
use mathlib.Core.Path.{subst}
use mathlib.Core.Option.{some-injective}
use xfer_rust.Common.{
  ℕ, ◌+◌, ◌-◌, ◌≡◌, ◌≢◌, ◌⊎◌, inl, inr, refl, sym, ap, ◌∙◌, arith, Bool, true, false, ◌||◌, Option,
  none, some, List, [], ◌∷◌, ltb, ◌==◌, ==_iff, if◌then◌else◌, length, Bool-cases,
}
use xfer_rust.Common.Bytes.{Bytes}
use xfer_rust.Storage.Layout.{piece_segments}
use xfer_rust.Storage.Store.{
  Files, CachedPiece, PieceStore, find_cached, write_segments, write_oldest, visible,
  evict_to_limit, flush_write_cache, read_piece,
}
use xfer_rust.Storage.Store.Cache.{
  disk_after, write_oldest-cases, flush_loop-keeps, evict_loop-keeps,
}
use xfer_rust.Storage.Store.Disk.{
  IsDisk, HoldsIn, span, write_segments-HoldsIn, write_segments-Apart, read_segments-HoldsIn,
}
use xfer_rust.Storage.Store.Pieces.{piece_segments-FilesFrom, piece_segments-Apart}
use xfer_rust.Storage.Store.Entries.{Single}
use xfer_rust.Storage.Store.Tidy.{Request, perform}

-- The specification of the store: the bytes of each piece, where they are known.
abbrev pub Latest : Type 0
Latest = ℕ → Option Bytes

abbrev pub update : ℕ → Option Bytes → Latest → Latest
update i known m = λ j. if i == j then known else m j

-- What a request does to it: a write that succeeds is known from then on, one that fails is unknown, and
-- nothing else changes what is known.
abbrev pub promised : Request → Bool → Latest → Latest
promised (Request.writes i bytes) true m = update i (some bytes) m
promised (Request.writes i bytes) false m = update i none m
promised Request.flushes done m = m
promised (Request.limits bytes) done m = m

module _ {D : Type 0} (f : Files D) where
  -- What is known after all requests.
  abbrev pub latest : List Request → PieceStore D → Latest → Latest
  latest [] s m = m
  latest (r ∷ rs) s m = latest rs (perform f r s).0 (promised r (perform f r s).1 m)

  -- A write is of a whole piece, and it goes to the cache or finds no copy of the piece there.
  abbrev pub IsSound : Request → PieceStore D → Type 0
  IsSound (Request.writes i bytes) s =
      (span (piece_segments s.layout i) ≡ length bytes)
      × (((s.cache_limit == 0 || ltb s.cache_limit (length bytes)) ≡ false)
          ⊎ (find_cached i s.write_cache ≡ none))
  IsSound Request.flushes s = Unit
  IsSound (Request.limits bytes) s = Unit

  abbrev pub AllSound : List Request → PieceStore D → Type 0
  AllSound [] s = Unit
  AllSound (r ∷ rs) s = IsSound r s × AllSound rs (perform f r s).0

module _ {D : Type 0} (f : Files D) (fs : IsDisk D f) where
  -- The bytes of a piece are in the cache, or they are on disk and no copy is in the cache.
  abbrev pub IsKept : PieceStore D → ℕ → Bytes → Type 0
  IsKept s i bytes =
      (span (piece_segments s.layout i) ≡ length bytes)
      × ((find_cached i s.write_cache ≡ some bytes)
          ⊎ ((find_cached i s.write_cache ≡ none)
              × HoldsIn f fs s.opened (piece_segments s.layout i) bytes s.disk))

  pub record Shows (m : Latest) (s : PieceStore D) : Type 0 where
    pub single : Single s.write_cache
    pub kept : (i : ℕ) (bytes : Bytes) → m i ≡ some bytes → IsKept s i bytes

  pub read_piece-IsKept :
      (s : PieceStore D) (i : ℕ) (bytes : Bytes)
      → IsKept s i bytes
      → read_piece f i s ≡ some (visible s.opened (piece_segments s.layout i) bytes)
  unfolding read_piece
  read_piece-IsKept s i bytes (size, inl there) = rw (read_piece, there) refl
  read_piece-IsKept s i bytes (size, inr (gone, held)) =
      rw (read_piece, gone)
        (read_segments-HoldsIn f fs s.opened (piece_segments s.layout i) bytes s.disk size held)

  pub disk_after-other :
      (c : CachedPiece) (s : PieceStore D) (i : ℕ) (bytes : Bytes)
      → c.index ≢ i
      → HoldsIn f fs s.opened (piece_segments s.layout i) bytes s.disk
      → HoldsIn f fs s.opened (piece_segments s.layout i) bytes (disk_after f c s).0
  disk_after-other c s i bytes ne held =
      write_segments-Apart f fs s.opened (piece_segments s.layout c.index)
        (piece_segments s.layout i) c.bytes bytes s.disk
        (piece_segments-Apart s.layout c.index i ne) held

  at_front :
      (c : CachedPiece) (cs : List CachedPiece) (s : PieceStore D) (i : ℕ)
      → s.write_cache ≡ c ∷ cs
      → c.index == i ≡ true
      → find_cached i s.write_cache ≡ some c.bytes
  unfolding find_cached
  at_front c cs s i at same = rw at (rw same refl)

  behind_front :
      (c : CachedPiece) (cs : List CachedPiece) (s : PieceStore D) (i : ℕ)
      → s.write_cache ≡ c ∷ cs
      → c.index == i ≡ false
      → find_cached i s.write_cache ≡ find_cached i cs
  unfolding find_cached
  behind_front c cs s i at other = rw at (rw other refl)

  -- A piece that is written to disk is there from then on.
  pub written-HoldsIn :
      (s : PieceStore D) (index : ℕ) (content : Bytes)
      → span (piece_segments s.layout index) ≡ length content
      → (write_segments f s.opened (piece_segments s.layout index) content s.disk).1 ≡ true
      → HoldsIn f fs s.opened
          (piece_segments s.layout index)
          content
          (write_segments f s.opened (piece_segments s.layout index) content s.disk).0
  written-HoldsIn s index content size done =
      write_segments-HoldsIn f fs s.opened 0 (piece_segments s.layout index) content s.disk
        (piece_segments-FilesFrom s.layout index) size done

  front-HoldsIn :
      (c : CachedPiece) (s : PieceStore D) (i : ℕ) (bytes : Bytes)
      → c.index ≡ i
      → c.bytes ≡ bytes
      → span (piece_segments s.layout i) ≡ length bytes
      → (disk_after f c s).1 ≡ true
      → HoldsIn f fs s.opened (piece_segments s.layout i) bytes (disk_after f c s).0
  front-HoldsIn c s i bytes same e size done =
      let size' =
        subst (λ k. span (piece_segments s.layout k) ≡ length c.bytes) (sym same)
          (size ∙ ap length (sym e)) in
      subst (λ k. HoldsIn f fs s.opened (piece_segments s.layout k) bytes (disk_after f c s).0) same
        (subst (λ b. HoldsIn f fs s.opened (piece_segments s.layout c.index) b (disk_after f c s).0)
          e (written-HoldsIn s c.index c.bytes size' done))

  taken-IsKept :
      (c : CachedPiece) (cs : List CachedPiece) (s : PieceStore D) (i : ℕ) (bytes : Bytes)
      → s.write_cache ≡ c ∷ cs
      → find_cached c.index cs ≡ none
      → (disk_after f c s).1 ≡ true
      → IsKept s i bytes
      → IsKept
          (record s {
            disk = (disk_after f c s).0;
            write_cache = cs;
            write_cache_bytes = s.write_cache_bytes - length c.bytes;
          })
          i
          bytes
  taken-IsKept c cs s i bytes at gone done (size, place) = elim (Bool-cases (c.index == i)) [
    | inl same ↦ elim place [
      | inl there ↦
          let here : c.index ≡ i = (==_iff c.index i).0 same in
          let e : c.bytes ≡ bytes =
            some-injective c.bytes bytes (sym (at_front c cs s i at same) ∙ there) in
          (
            size,
            inr (
              subst (λ k. find_cached k cs ≡ none) here gone,
              front-HoldsIn c s i bytes here e size done,
            ),
          )
      | inr (missing, held) ↦ absurd (cc (at_front c cs s i at same, missing))
    ]
    | inr other ↦
        let ne : c.index ≢ i = ground arith in
        let behind = behind_front c cs s i at other in
        elim place [
          | inl there ↦ (size, inl (sym behind ∙ there))
          | inr (missing, held) ↦
              (size, inr (sym behind ∙ missing, disk_after-other c s i bytes ne held))
        ]
  ]

  -- A piece that cannot be written stays in the cache, and the other pieces stay on disk.
  back-IsKept :
      (c : CachedPiece) (cs : List CachedPiece) (s : PieceStore D) (i bytes_now : ℕ) (bytes : Bytes)
      → s.write_cache ≡ c ∷ cs
      → IsKept s i bytes
      → IsKept
          (record s {
            disk = (disk_after f c s).0;
            write_cache = c ∷ cs;
            write_cache_bytes = bytes_now;
          })
          i
          bytes
  back-IsKept c cs s i bytes_now bytes at (size, inl there) = (size, inl (rw⁻¹ at there))
  back-IsKept c cs s i bytes_now bytes at (size, inr (missing, held)) =
      elim (Bool-cases (c.index == i)) [
        | inl same ↦ absurd (cc (at_front c cs s i at same, missing))
        | inr other ↦
            let ne : c.index ≢ i = ground arith in
            (size, inr (rw⁻¹ at missing, disk_after-other c s i bytes ne held))
      ]

  module _ (m : Latest) where
    write_oldest-Shows :
        (c : CachedPiece) (cs : List CachedPiece) (s : PieceStore D)
        → s.write_cache ≡ c ∷ cs
        → Shows m s
        → Shows m (write_oldest f c cs s).0
    write_oldest-Shows c cs s at h =
        let single : Single (c ∷ cs) = subst Single at h.single in
        elim (write_oldest-cases f c cs s) [
          | inl (done, e) ↦ rw e (record {
            single = single.1;
            kept = λ i bytes known.
                taken-IsKept c cs s i bytes at single.0 done (h.kept i bytes known);
          })
          | inr (failed, e) ↦ rw e (record {
            single = single;
            kept = λ i bytes known.
                back-IsKept c cs s i (s.write_cache_bytes - length c.bytes + length c.bytes) bytes
                  at (h.kept i bytes known);
          })
        ]

    pub evict_to_limit-Shows : (s : PieceStore D) → Shows m s → Shows m (evict_to_limit f s).0
    unfolding evict_to_limit
    evict_to_limit-Shows s h =
        evict_loop-keeps f (Shows m) write_oldest-Shows s.write_cache s refl h

    pub flush_write_cache-Shows : (s : PieceStore D) → Shows m s → Shows m (flush_write_cache f s).0
    unfolding flush_write_cache
    flush_write_cache-Shows s h =
        flush_loop-keeps f (Shows m) write_oldest-Shows s.write_cache s refl h
