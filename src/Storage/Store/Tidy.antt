-- ===== src/Storage/Store/Tidy.antt =====
-- The write-back cache of crates/xfer-storage/src/piece.rs: one copy of a piece, bytes counted, limit kept.
use mathlib.Core.Path.{subst}
use xfer_rust.Common.{
  ℕ, ◌+◌, ◌≤◌, ◌≡◌, inl, inr, refl, ap, ◌∙◌, arith, Bool, true, ◌||◌, List, [], ◌∷◌, ltb, leb, ◌==◌,
  length, Bool-cases,
}
use xfer_rust.Common.Bytes.{Bytes}
use xfer_rust.Storage.Store.{
  Files, CachedPiece, PieceStore, remove_cached, write_piece_direct, write_oldest, evict_loop,
  flush_loop, evict_to_limit, flush_write_cache, set_write_cache_limit, put_cached, write_piece,
}
use xfer_rust.Storage.Store.Cache.{write_oldest-cases, flush_loop-keeps, evict_loop-keeps}
use xfer_rust.Storage.Store.Entries.{
  cached_bytes, Single, cached_bytes-remove, cached_bytes-append, find_cached-remove,
  remove_cached-Single, Single-append,
}

-- What the store is asked for.
pub data Request : Type 0 where
  writes : ℕ → Bytes → Request
  flushes : Request
  limits : ℕ → Request

pub record IsTidy (D : Type 0) (s : PieceStore D) : Type 0 where
  pub counted : s.write_cache_bytes ≡ cached_bytes s.write_cache
  pub single : Single s.write_cache

module _ {D : Type 0} (f : Files D) where
  write_oldest-IsTidy :
      (c : CachedPiece) (cs : List CachedPiece) (s : PieceStore D)
      → s.write_cache ≡ c ∷ cs
      → IsTidy D s
      → IsTidy D (write_oldest f c cs s).0
  write_oldest-IsTidy c cs s at h =
      let counted : s.write_cache_bytes ≡ length c.bytes + cached_bytes cs =
        h.counted ∙ ap cached_bytes at in
      let single : Single (c ∷ cs) = subst Single at h.single in
      elim (write_oldest-cases f c cs s) [
        | inl (done, e) ↦ rw e (record { counted = omega arith; single = single.1 })
        | inr (failed, e) ↦ rw e (record { counted = omega arith; single = single })
      ]

  put_cached-IsTidy :
      (index : ℕ) (bytes : Bytes) (s : PieceStore D)
      → IsTidy D s
      → IsTidy D (put_cached f index bytes s)
  unfolding put_cached
  put_cached-IsTidy index bytes s h =
      let left = remove_cached index s.write_cache in
      let added = cached_bytes-append left (record { index = index; bytes = bytes } ∷ []) in
      let split = cached_bytes-remove index s.write_cache in
      record {
        counted = let whole = h.counted in omega arith;
        single =
            Single-append left (record { index = index; bytes = bytes })
              (remove_cached-Single index s.write_cache h.single)
              (find_cached-remove index s.write_cache h.single);
      }

module _ {D : Type 0} (f : Files D) where
  unfoldable pub perform : Request → PieceStore D → PieceStore D × Bool
  perform (Request.writes index bytes) s = write_piece f index bytes s
  perform Request.flushes s = flush_write_cache f s
  perform (Request.limits bytes) s = set_write_cache_limit f bytes s

  unfoldable pub performs : List Request → PieceStore D → PieceStore D
  performs [] s = s
  performs (r ∷ rs) s = performs rs (perform r s).0

  evict_to_limit-IsTidy : (s : PieceStore D) → IsTidy D s → IsTidy D (evict_to_limit f s).0
  unfolding evict_to_limit
  evict_to_limit-IsTidy s h =
      evict_loop-keeps f (IsTidy D) (write_oldest-IsTidy f) s.write_cache s refl h

  perform-IsTidy : (r : Request) (s : PieceStore D) → IsTidy D s → IsTidy D (perform r s).0
  unfolding perform write_piece write_piece_direct flush_write_cache set_write_cache_limit
  perform-IsTidy Request.flushes s h =
      flush_loop-keeps f (IsTidy D) (write_oldest-IsTidy f) s.write_cache s refl h
  perform-IsTidy (Request.limits bytes) s h =
      evict_to_limit-IsTidy (record s { cache_limit = bytes })
        (record { counted = h.counted; single = h.single })
  perform-IsTidy (Request.writes index bytes) s h =
      elim (Bool-cases (s.cache_limit == 0 || ltb s.cache_limit (length bytes))) [
        | inl direct ↦ rw direct (record { counted = h.counted; single = h.single })
        | inr cached ↦ rw cached (
            evict_to_limit-IsTidy (put_cached f index bytes s)
              (put_cached-IsTidy f index bytes s h))
      ]

  -- Whatever a store with a tidy cache is asked for, and whether or not the disk takes what is written to
  -- it, the cache holds no piece twice and write_cache_bytes is the number of the bytes in it.
  pub performs-IsTidy :
      (rs : List Request) (s : PieceStore D) → IsTidy D s → IsTidy D (performs rs s)
  unfolding performs
  performs-IsTidy [] s h = h
  performs-IsTidy (r ∷ rs) s h = performs-IsTidy rs (perform r s).0 (perform-IsTidy r s h)

  evict_loop-limit :
      (cs : List CachedPiece) (s : PieceStore D)
      → s.write_cache ≡ cs
      → IsTidy D s
      → (evict_loop f cs s).1 ≡ true
      → (evict_loop f cs s).0.write_cache_bytes ≤ (evict_loop f cs s).0.cache_limit
  unfolding evict_loop
  evict_loop-limit [] s at h done = let e = h.counted ∙ ap cached_bytes at in omega arith
  evict_loop-limit (c ∷ cs) s at h done =
      elim (Bool-cases (leb s.write_cache_bytes s.cache_limit)) [
        | inl fits ↦ rw fits (ground arith)
        | inr more ↦ elim (write_oldest-cases f c cs s) [
          | inl (taken, e) ↦
              rw (more, ap (λ r. r.1) e)
                (evict_loop-limit cs (write_oldest f c cs s).0 (ap (λ r. r.0.write_cache) e)
                  (write_oldest-IsTidy f c cs s at h) (rw (more, ap (λ r. r.1) e) at done))
          | inr (failed, e) ↦ absurd (cc (rw (more, ap (λ r. r.1) e) at done))
        ]
      ]

  pub flush_loop-empty :
      (cs : List CachedPiece) (s : PieceStore D)
      → s.write_cache ≡ cs
      → (flush_loop f cs s).1 ≡ true
      → (flush_loop f cs s).0.write_cache ≡ []
  unfolding flush_loop
  flush_loop-empty [] s at done = at
  flush_loop-empty (c ∷ cs) s at done = elim (write_oldest-cases f c cs s) [
    | inl (taken, e) ↦ rw (ap (λ r. r.1) e) (
        flush_loop-empty cs (write_oldest f c cs s).0 (ap (λ r. r.0.write_cache) e)
          (rw (ap (λ r. r.1) e) at done))
    | inr (failed, e) ↦ absurd (cc (rw (ap (λ r. r.1) e) at done))
  ]

  -- A request that succeeds leaves the cache within its limit where it was so, and a flush empties it.
  pub perform-limit :
      (r : Request) (s : PieceStore D)
      → IsTidy D s
      → s.write_cache_bytes ≤ s.cache_limit
      → (perform r s).1 ≡ true
      → (perform r s).0.write_cache_bytes ≤ (perform r s).0.cache_limit
  unfolding perform write_piece write_piece_direct flush_write_cache set_write_cache_limit
      evict_to_limit
  perform-limit Request.flushes s h fits done =
      let tidy = (perform-IsTidy Request.flushes s h).counted in
      let none_left = flush_loop-empty s.write_cache s refl done in
      let zero_bytes = tidy ∙ ap cached_bytes none_left in omega arith
  perform-limit (Request.limits bytes) s h fits done =
      let s1 = record s { cache_limit = bytes } in
      evict_loop-limit s1.write_cache s1 refl (record { counted = h.counted; single = h.single })
        done
  perform-limit (Request.writes index bytes) s h fits done =
      elim (Bool-cases (s.cache_limit == 0 || ltb s.cache_limit (length bytes))) [
        | inl direct ↦ rw direct fits
        | inr cached ↦
            let s1 = put_cached f index bytes s in
            rw cached (
              evict_loop-limit s1.write_cache s1 refl (put_cached-IsTidy f index bytes s h)
                (rw cached at done))
      ]
