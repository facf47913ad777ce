-- ===== src/Storage/Store/Reads.antt =====
-- The requests to the store of crates/xfer-storage/src/piece.rs, and what is read after them.
use mathlib.Core.Path.{subst}
use mathlib.Core.Option.{some-injective}
use xfer_rust.Common.{
  ℕ, ◌≡◌, ◌≢◌, inl, inr, refl, sym, ap, ◌∙◌, arith, true, ◌||◌, none, some, List, [], ◌∷◌, ◌++◌,
  ltb, ◌==◌, ==_iff, length, Bool-cases,
}
use xfer_rust.Common.Bytes.{Bytes}
use xfer_rust.Storage.Layout.{piece_segments}
use xfer_rust.Storage.Store.{
  Files, CachedPiece, PieceStore, find_cached, remove_cached, write_piece_direct, visible,
  evict_to_limit, set_write_cache_limit, put_cached, write_piece, read_piece,
}
use xfer_rust.Storage.Store.Cache.{disk_after}
use xfer_rust.Storage.Store.Disk.{IsDisk, span}
use xfer_rust.Storage.Store.Entries.{
  Single, remove_cached-Single, Single-append, find_cached-remove, find_cached-remove_other,
  find_cached-append, find_cached-append_other,
}
use xfer_rust.Storage.Store.Tidy.{Request, perform, performs}
use xfer_rust.Storage.Store.Shows.{
  Latest, update, promised, latest, IsSound, AllSound, IsKept, Shows, read_piece-IsKept,
  written-HoldsIn, disk_after-other, evict_to_limit-Shows, flush_write_cache-Shows,
}

module _ {D : Type 0} (f : Files D) (fs : IsDisk D f) where
  put_cached-Shows :
      (m : Latest) (index : ℕ) (bytes : Bytes) (s : PieceStore D)
      → span (piece_segments s.layout index) ≡ length bytes
      → Shows f fs m s
      → Shows f fs (update index (some bytes) m) (put_cached f index bytes s)
  unfolding put_cached find_cached
  put_cached-Shows m index bytes s size h =
      let c : CachedPiece = record { index = index; bytes = bytes } in
      let left = remove_cached index s.write_cache in
      let gone = find_cached-remove index s.write_cache h.single in
      let itself : index == index ≡ true = ground arith in
      record {
        single = Single-append left c (remove_cached-Single index s.write_cache h.single) gone;
        kept = λ i b known. elim (Bool-cases (index == i)) [
          | inl same ↦
              let here : index ≡ i = (==_iff index i).0 same in
              let e : bytes ≡ b = some-injective bytes b (rw same at known) in
              let there : find_cached index (left ++ c ∷ []) ≡ some bytes =
                find_cached-append index left c gone ∙ rw itself refl in
              (
                subst (λ k. span (piece_segments s.layout k) ≡ length b) here (size ∙ ap length e),
                inl (subst (λ k. find_cached k (left ++ c ∷ []) ≡ some b) here (there ∙ ap some e)),
              )
          | inr other ↦
              let ne : index ≢ i = ground arith in
              let as_before =
                find_cached-append_other i left c ne
                ∙ find_cached-remove_other index i s.write_cache ne in
              let (whole, place) = h.kept i b (rw other at known) in
              (
                whole,
                elim place [
                  | inl there ↦ inl (as_before ∙ there)
                  | inr (missing, held) ↦ inr (as_before ∙ missing, held)
                ],
              )
        ];
      }

  -- Nothing is claimed of a piece whose bytes are unknown.
  forget-Shows :
      (m : Latest) (index : ℕ) (bytes : Bytes) (s : PieceStore D)
      → Shows f fs (update index (some bytes) m) s
      → Shows f fs (update index none m) s
  forget-Shows m index bytes s h = record {
    single = h.single;
    kept = λ i b known. elim (Bool-cases (index == i)) [
      | inl same ↦ absurd (cc (rw same at known))
      | inr other ↦ h.kept i b (rw other (rw other at known))
    ];
  }

  direct-Shows :
      (m : Latest) (index : ℕ) (bytes : Bytes) (s : PieceStore D)
      → span (piece_segments s.layout index) ≡ length bytes
      → find_cached index s.write_cache ≡ none
      → Shows f fs m s
      → Shows f fs
          (promised (Request.writes index bytes) (write_piece_direct f index bytes s).1 m)
          (write_piece_direct f index bytes s).0
  unfolding write_piece_direct
  direct-Shows m index bytes s size gone h =
      let c : CachedPiece = record { index = index; bytes = bytes } in
      let others : (i : ℕ) (b : Bytes)
          → index ≢ i
          → IsKept f fs s i b
          → IsKept f fs (record s { disk = (disk_after f c s).0 }) i b =
        λ i b ne k. (
          k.0,
          elim k.1 [
            | inl there ↦ inl there
            | inr (missing, held) ↦ inr (missing, disk_after-other f fs c s i b ne held)
          ],
        ) in
      elim (Bool-cases (disk_after f c s).1) [
        | inl done ↦ rw done (record {
          single = h.single;
          kept = λ i b known. elim (Bool-cases (index == i)) [
            | inl same ↦
                let here : index ≡ i = (==_iff index i).0 same in
                let e : bytes ≡ b = some-injective bytes b (rw same at known) in
                subst (IsKept f fs (record s { disk = (disk_after f c s).0 }) i) e (
                  subst (λ k. IsKept f fs (record s { disk = (disk_after f c s).0 }) k bytes) here
                    (size, inr (gone, written-HoldsIn f fs s index bytes size done)))
            | inr other ↦ others i b (ground arith) (h.kept i b (rw other at known))
          ];
        })
        | inr failed ↦ rw failed (record {
          single = h.single;
          kept = λ i b known. elim (Bool-cases (index == i)) [
            | inl same ↦ absurd (cc (rw same at known))
            | inr other ↦ others i b (ground arith) (h.kept i b (rw other at known))
          ];
        })
      ]

  perform-Shows :
      (m : Latest) (r : Request) (s : PieceStore D)
      → IsSound f r s
      → Shows f fs m s
      → Shows f fs (promised r (perform f r s).1 m) (perform f r s).0
  unfolding perform set_write_cache_limit write_piece
  perform-Shows m Request.flushes s sound h = flush_write_cache-Shows f fs m s h
  perform-Shows m (Request.limits bytes) s sound h =
      evict_to_limit-Shows f fs m (record s { cache_limit = bytes })
        (record { single = h.single; kept = h.kept })
  perform-Shows m (Request.writes index bytes) s (size, way) h =
      elim (Bool-cases (s.cache_limit == 0 || ltb s.cache_limit (length bytes))) [
        | inl direct ↦
            let gone : find_cached index s.write_cache ≡ none = elim way [
              | inl cached ↦ absurd (cc (direct, cached))
              | inr gone ↦ gone
            ] in
            rw direct (direct-Shows m index bytes s size gone h)
        | inr cached ↦
            let put = put_cached f index bytes s in
            let r = evict_to_limit f put in
            let shown =
              evict_to_limit-Shows f fs (update index (some bytes) m) put
                (put_cached-Shows m index bytes s size h) in
            rw cached (elim (Bool-cases r.1) [
              | inl done ↦ rw done shown
              | inr failed ↦ rw failed (forget-Shows m index bytes r.0 shown)
            ])
      ]

  performs-Shows :
      (m : Latest) (rs : List Request) (s : PieceStore D)
      → AllSound f rs s
      → Shows f fs m s
      → Shows f fs (latest f rs s m) (performs f rs s)
  unfolding performs
  performs-Shows m [] s sound h = h
  performs-Shows m (r ∷ rs) s (sound, more) h =
      performs-Shows (promised r (perform f r s).1 m) rs (perform f r s).0 more
        (perform-Shows m r s sound h)

  -- On a disk that keeps what is written to it, the store implements its specification: after any
  -- requests to a store with an empty cache, written whole pieces, flushes and limits, whichever of them
  -- fail, a piece whose last write succeeded is read as it was written, up to the bytes of files that are
  -- not opened. A write that bypasses the cache must find no copy of its piece there.
  pub performs-read_piece :
      (rs : List Request) (s : PieceStore D)
      → s.write_cache ≡ []
      → AllSound f rs s
      → (i : ℕ) (bytes : Bytes) → latest f rs s (λ j. none) i ≡ some bytes
      → read_piece f i (performs f rs s)
        ≡ some (visible (performs f rs s).opened (piece_segments (performs f rs s).layout i) bytes)
  performs-read_piece rs s empty sound i bytes known =
      let start : Shows f fs (λ j. none) s = record {
        single = subst Single (sym empty) tt;
        kept = λ j b no. absurd (cc no);
      } in
      read_piece-IsKept f fs (performs f rs s) i bytes
        ((performs-Shows (λ j. none) rs s sound start).kept i bytes known)
