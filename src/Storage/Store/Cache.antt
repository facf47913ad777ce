-- ===== src/Storage/Store/Cache.antt =====
-- The rounds in which the cache of crates/xfer-storage/src/piece.rs is written to disk, and its count of bytes.
use xfer_rust.Common.{
  ◌+◌, ◌-◌, ◌≡◌, ◌⊎◌, inl, inr, refl, ap, Bool, true, false, List, [], ◌∷◌, leb, length, Bool-cases,
}
use xfer_rust.Storage.Layout.{piece_segments}
use xfer_rust.Storage.Store.{
  Files, CachedPiece, PieceStore, write_segments, write_piece_direct, write_oldest, evict_loop,
  flush_loop,
}

module _ {D : Type 0} (f : Files D) where
  abbrev pub disk_after : CachedPiece → PieceStore D → D × Bool
  disk_after c s = write_segments f s.opened (piece_segments s.layout c.index) c.bytes s.disk

  -- The oldest piece leaves the cache, or the store is as before but for the disk.
  pub write_oldest-cases :
      (c : CachedPiece) (cs : List CachedPiece) (s : PieceStore D)
      → (((disk_after c s).1 ≡ true)
          × (write_oldest f c cs s ≡ (
            record s {
              disk = (disk_after c s).0;
              write_cache = cs;
              write_cache_bytes = s.write_cache_bytes - length c.bytes;
            },
            true,
          )))
        ⊎ (((disk_after c s).1 ≡ false)
            × (write_oldest f c cs s ≡ (
              record s {
                disk = (disk_after c s).0;
                write_cache = c ∷ cs;
                write_cache_bytes = s.write_cache_bytes - length c.bytes + length c.bytes;
              },
              false,
            )))
  unfolding write_oldest write_piece_direct
  write_oldest-cases c cs s = elim (Bool-cases (disk_after c s).1) [
    | inl done ↦ inl (done, rw done refl)
    | inr failed ↦ inr (failed, rw failed refl)
  ]

  -- What one round keeps, all rounds keep.
  module _ (P : PieceStore D → Type 0)
      (step : (c : CachedPiece) (cs : List CachedPiece) (s : PieceStore D)
        → s.write_cache ≡ c ∷ cs
        → P s
        → P (write_oldest f c cs s).0) where
    pub flush_loop-keeps :
        (cs : List CachedPiece) (s : PieceStore D)
        → s.write_cache ≡ cs
        → P s
        → P (flush_loop f cs s).0
    unfolding flush_loop
    flush_loop-keeps [] s at h = h
    flush_loop-keeps (c ∷ cs) s at h =
        let next = step c cs s at h in
        elim (write_oldest-cases c cs s) [
          | inl (done, e) ↦
              rw (ap (λ r. r.1) e)
                (flush_loop-keeps cs (write_oldest f c cs s).0 (ap (λ r. r.0.write_cache) e) next)
          | inr (failed, e) ↦ rw (ap (λ r. r.1) e) next
        ]

    pub evict_loop-keeps :
        (cs : List CachedPiece) (s : PieceStore D)
        → s.write_cache ≡ cs
        → P s
        → P (evict_loop f cs s).0
    unfolding evict_loop
    evict_loop-keeps [] s at h = h
    evict_loop-keeps (c ∷ cs) s at h =
        let next = step c cs s at h in
        elim (Bool-cases (leb s.write_cache_bytes s.cache_limit)) [
          | inl fits ↦ rw fits h
          | inr more ↦ elim (write_oldest-cases c cs s) [
            | inl (done, e) ↦
                rw (more, ap (λ r. r.1) e)
                  (evict_loop-keeps cs (write_oldest f c cs s).0 (ap (λ r. r.0.write_cache) e) next)
            | inr (failed, e) ↦ rw (more, ap (λ r. r.1) e) next
          ]
        ]
