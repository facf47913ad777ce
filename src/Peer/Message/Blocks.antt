-- ===== src/Peer/Message/Blocks.antt =====
-- `request_blocks` of `message.rs`.
use xfer_rust.Common.{
  ℕ, zero, suc, ◌+◌, ◌-◌, ◌%◌, ◌^◌, ◌≤◌, ◌<◌, min, ◌≡◌, refl, arith, List, [], ◌∷◌, Bool-cases, ltb,
  ltb→lt, inl, inr,
}
use xfer_rust.Common.Bytes.{IsU32}
use xfer_rust.Common.Run.{ok}
use xfer_rust.Peer.Message.{request_loop, request_blocks}

-- The blocks cover the bytes from `begin` to `finish` one after the other; each has from 1 to `most` bytes.
abbrev pub Tiles : ℕ → ℕ → ℕ → List (ℕ × ℕ) → Type 0
Tiles most begin finish [] = begin ≡ finish
Tiles most begin finish ((b, len) ∷ blocks) =
    (b ≡ begin) × (0 < len) × (len ≤ most) × Tiles most (begin + len) finish blocks

-- All blocks but the last have the full size.
abbrev pub Full : ℕ → List (ℕ × ℕ) → Type 0
Full most [] = Unit
Full most ((b, len) ∷ []) = Unit
Full most ((b, len) ∷ c ∷ blocks) = (len ≡ most) × Full most (c ∷ blocks)

Tiles-le :
    (most begin finish : ℕ) (blocks : List (ℕ × ℕ))
    → Tiles most begin finish blocks
    → begin ≤ finish
Tiles-le most begin finish [] h = omega arith
Tiles-le most begin finish ((b, len) ∷ blocks) (at, pos, small, more) =
    omega (arith, Tiles-le most (begin + len) finish blocks more)

Full-cons :
    (most begin finish : ℕ) (blocks : List (ℕ × ℕ))
    → let len = min (finish - begin) most in
      Tiles most (begin + len) finish blocks → Full most blocks → Full most ((begin, len) ∷ blocks)
Full-cons most begin finish [] h f = tt
Full-cons most begin finish ((b, l) ∷ blocks) (at, pos, small, more) f =
    let len = min (finish - begin) most in
    (omega (arith, Tiles-le most (begin + len + l) finish blocks more), f)

request_loop-Tiles :
    (fuel piece_len block_size begin : ℕ)
    → IsU32 piece_len
    → 0 < block_size
    → begin ≤ piece_len
    → piece_len ≤ fuel + begin
    → (blocks : List (ℕ × ℕ)) × (request_loop fuel piece_len block_size begin ≡ ok blocks)
      × Tiles block_size begin piece_len blocks
      × Full block_size blocks
unfolding request_loop
request_loop-Tiles zero piece_len block_size begin fits pos below enough =
    ([], ground arith, omega arith, tt)
request_loop-Tiles (suc fuel) piece_len block_size begin fits pos below enough =
    elim (Bool-cases (ltb begin piece_len)) [
      | inr stop ↦ ([], rw stop refl, ground arith, tt)
      | inl go ↦
          let len = min (piece_len - begin) block_size in
          let inside = ltb→lt begin piece_len go in
          let (blocks, runs, tiles, full) =
            request_loop-Tiles fuel piece_len block_size (begin + len) fits pos (omega arith)
              (omega arith) in
          let next : (begin + len) % 2 ^ 32 ≡ begin + len = omega arith in
          (
            (begin, len) ∷ blocks,
            rw (go, next, runs) refl,
            (refl, omega arith, omega arith, tiles),
            Full-cons block_size begin piece_len blocks tiles full,
          )
    ]

-- For a u32 piece length and a block size other than zero, `request_blocks` returns, and the blocks it
-- gives cover the piece from 0 to its end one after the other, none empty, none above the block size, and
-- all but the last of exactly the block size.
pub request_blocks-Tiles :
    (piece_len block_size : ℕ)
    → IsU32 piece_len
    → 0 < block_size
    → (blocks : List (ℕ × ℕ)) × (request_blocks piece_len block_size ≡ ok blocks)
      × Tiles block_size 0 piece_len blocks
      × Full block_size blocks
unfolding request_blocks
request_blocks-Tiles piece_len block_size fits pos =
    request_loop-Tiles piece_len piece_len block_size 0 fits pos (omega arith) (omega arith)
