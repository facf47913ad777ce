-- ===== src/Storage/Store/Durable.antt =====
-- The bitmap that crates/xfer-storage/src/piece.rs writes to a resume file.
use xfer_rust.Common.{
  ℕ, ◌≡◌, inl, inr, refl, sym, ap, ◌∙◌, arith, Bool, true, false, not, ◌&&◌, ◌||◌, Option, none,
  some, List, [], ◌∷◌, ◌==◌, ==_iff, Bool-cases, Option-cases, length,
}
use xfer_rust.Common.Bytes.{Bytes}
use xfer_rust.Storage.PieceMap.{PieceMap, unset, is_set, to_bitfield}
use xfer_rust.Storage.PieceMap.Bits.{IsMap}
use xfer_rust.Storage.PieceMap.Clearing.{unset-IsMap, count-unset, is_set-unset}
use xfer_rust.Storage.Store.{
  CachedPiece, PieceStore, find_cached, unset_all, write_cache_contains, wire_bitfield,
  durable_bitfield,
}

abbrev is_present : Option Bytes → Bool
is_present none = false
is_present (some bytes) = true

none_left : (b : Bool) → b && false ≡ false
none_left true = refl
none_left false = refl

no_length : (cs : List CachedPiece) → length cs ≡ 0 → cs ≡ []
no_length [] h = refl
no_length (c ∷ cs) h = absurd (omega arith)

count-unset_all : (cs : List CachedPiece) (m : PieceMap) → (unset_all cs m).count ≡ m.count
unfolding unset_all
count-unset_all [] m = refl
count-unset_all (c ∷ cs) m = count-unset_all cs (unset c.index m) ∙ count-unset c.index m

is_set-unset_all :
    (cs : List CachedPiece) (m : PieceMap) (j : ℕ)
    → IsMap m
    → is_set j (unset_all cs m) ≡ (not (is_present (find_cached j cs)) && is_set j m)
unfolding unset_all find_cached
is_set-unset_all [] m j h = refl
is_set-unset_all (c ∷ cs) m j h =
    let rest = is_set-unset_all cs (unset c.index m) j (unset-IsMap c.index m h) in
    let here = is_set-unset c.index j m h in
    elim (Bool-cases (c.index == j)) [
      | inl e ↦ rw e (
          rest
          ∙ ap (λ t. not (is_present (find_cached j cs)) && t) (rw e at here)
          ∙ none_left (not (is_present (find_cached j cs))))
      | inr e ↦ rw e (rest ∙ ap (λ t. not (is_present (find_cached j cs)) && t) (rw e at here))
    ]

module _ {D : Type 0} where
  contains-is_present :
      (s : PieceStore D) (i : ℕ)
      → write_cache_contains s i ≡ is_present (find_cached i s.write_cache)
  unfolding write_cache_contains
  contains-is_present s i = elim (Option-cases (find_cached i s.write_cache)) [
    | inl e ↦ rw (write_cache_contains, e) refl
    | inr (bytes, e) ↦ rw (write_cache_contains, e) refl
  ]

  empty_cache :
      (s : PieceStore D)
      → (s.cache_limit ≡ 0 → s.write_cache ≡ [])
      → s.cache_limit == 0 || length s.write_cache == 0 ≡ true
      → s.write_cache ≡ []
  empty_cache s off e = elim (Bool-cases (s.cache_limit == 0)) [
    | inl zero_ ↦ off ((==_iff s.cache_limit 0).0 zero_)
    | inr more ↦ no_length s.write_cache (ground arith)
  ]

  -- In the bitmap for the resume file a piece is done exactly where it is done and no copy of it waits in
  -- the cache, as long as a cache with limit 0 is empty.
  pub durable_bitfield-is_set :
      (s : PieceStore D) (i : ℕ)
      → IsMap s.map
      → (s.cache_limit ≡ 0 → s.write_cache ≡ [])
      → is_set i (record s.map { bits = durable_bitfield s })
        ≡ (not (write_cache_contains s i) && is_set i s.map)
  unfolding durable_bitfield wire_bitfield to_bitfield find_cached
  durable_bitfield-is_set s i h off =
      elim (Bool-cases (s.cache_limit == 0 || length s.write_cache == 0)) [
        | inl e ↦
            let found : find_cached i s.write_cache ≡ none = rw (empty_cache s off e) refl in
            rw (e, contains-is_present s i, found) refl
        | inr e ↦
            let cleared = unset_all s.write_cache s.map in
            let same_map =
              ap (λ n. is_set i (record { count = n; bits = cleared.bits }))
                (sym (count-unset_all s.write_cache s.map)) in
            rw (e, contains-is_present s i) (same_map ∙ is_set-unset_all s.write_cache s.map i h)
      ]
