-- ===== src/Storage/Store/Pieces.antt =====
-- The segments of two pieces of crates/xfer-storage/src/piece.rs never meet, so writing one leaves the other.
use native.Mathlib.Nat.{mul-le-mul_right}
use xfer_rust.Common.{
  ℕ, ◌%◌, ◌^◌, suc, ◌+◌, ◌*◌, ◌≤◌, ◌<◌, min, ◌≡◌, ◌≢◌, ◌⊎◌, ap, arith, List, [], ◌∷◌,
}
use xfer_rust.Storage.Layout.{PieceLayout, piece_segments, total_length}
use xfer_rust.Storage.Store.Disk.{
  Segment, FilesFrom, Apart, InRegion, offset_at, segments-FilesFrom, segments-InRegion,
  InRegion-Outside,
}

pub piece_segments-FilesFrom : (l : PieceLayout) (i : ℕ) → FilesFrom 0 (piece_segments l i)
unfolding piece_segments
piece_segments-FilesFrom l i =
    segments-FilesFrom (i * l.piece_length)
      (min ((i * l.piece_length + l.piece_length) % 2 ^ 64) (total_length l)) 0 0 l.files
      (omega arith)

piece_segments-InRegion :
    (l : PieceLayout) (i : ℕ)
    → InRegion
        (offset_at l.files)
        (i * l.piece_length)
        (i * l.piece_length + l.piece_length)
        (piece_segments l i)
unfolding piece_segments
piece_segments-InRegion l i =
    segments-InRegion (offset_at l.files) (i * l.piece_length)
      (min ((i * l.piece_length + l.piece_length) % 2 ^ 64) (total_length l))
      (i * l.piece_length + l.piece_length) 0 l.files
      (λ k. ap (offset_at l.files) (let e : 0 + k ≡ k = omega arith in e)) (omega arith)
      (omega arith)

-- Segments in regions that do not meet.
InRegion-Apart :
    (base : ℕ → ℕ) (lo hi lo' hi' : ℕ) (segs others : List Segment)
    → (hi ≤ lo') ⊎ (hi' ≤ lo)
    → InRegion base lo hi segs
    → InRegion base lo' hi' others
    → Apart segs others
InRegion-Apart base lo hi lo' hi' segs [] away h k = tt
InRegion-Apart base lo hi lo' hi' segs ((fi, off, len) ∷ others) away h (k, ks) = (
  (λ j lt. InRegion-Outside base lo hi fi (off + j) segs h (ground arith)),
  InRegion-Apart base lo hi lo' hi' segs others away h ks,
)

next_region : (i j n : ℕ) → i < j → i * n + n ≤ j * n
next_region i j n h = let e : suc i * n ≤ j * n = mul-le-mul_right n h in omega arith

pub piece_segments-Apart :
    (l : PieceLayout) (i j : ℕ) → i ≢ j → Apart (piece_segments l i) (piece_segments l j)
piece_segments-Apart l i j ne =
    let n = l.piece_length in
    let away : (i * n + n ≤ j * n) ⊎ (j * n + n ≤ i * n) =
      ground (arith, next_region i j n, next_region j i n) in
    InRegion-Apart (offset_at l.files) (i * n) (i * n + n) (j * n) (j * n + n) (piece_segments l i)
      (piece_segments l j) away (piece_segments-InRegion l i) (piece_segments-InRegion l j)
