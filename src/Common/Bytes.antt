-- ===== src/Common/Bytes.antt =====
-- Fixed-width integers in network byte order: `to_be_bytes` and `from_be_bytes` of u16 and u32.
use xfer_rust.Common.{ℕ, ◌+◌, ◌*◌, ◌/◌, ◌%◌, ◌^◌, ◌<◌, ◌≡◌, arith, List, ◌∷◌, All}

abbrev pub Bytes : Type 0
Bytes = List ℕ

abbrev pub IsByte : ℕ → Type 0
IsByte b = b < 256

abbrev pub IsU16 : ℕ → Type 0
IsU16 v = v < 2 ^ 16

abbrev pub IsU32 : ℕ → Type 0
IsU32 v = v < 2 ^ 32

abbrev pub IsU64 : ℕ → Type 0
IsU64 v = v < 2 ^ 64

abbrev pub IsBytes : Bytes → Type 0
IsBytes bs = All IsByte bs

-- Appends the big-endian bytes of `v` before `rest`.
abbrev pub be16 : ℕ → Bytes → Bytes
be16 v rest = (v / 256 % 256) ∷ (v % 256) ∷ rest

abbrev pub be32 : ℕ → Bytes → Bytes
be32 v rest = (v / 2 ^ 24 % 256) ∷ (v / 2 ^ 16 % 256) ∷ (v / 2 ^ 8 % 256) ∷ (v % 256) ∷ rest

abbrev pub from_be16 : ℕ → ℕ → ℕ
from_be16 a b = a * 2 ^ 8 + b

abbrev pub from_be32 : ℕ → ℕ → ℕ → ℕ → ℕ
from_be32 a b c d = a * 2 ^ 24 + b * 2 ^ 16 + c * 2 ^ 8 + d

pub from_be16-be16 : (v : ℕ) → IsU16 v → from_be16 (v / 256 % 256) (v % 256) ≡ v
from_be16-be16 v h = omega arith

pub from_be32-be32 :
    (v : ℕ)
    → IsU32 v
    → from_be32 (v / 2 ^ 24 % 256) (v / 2 ^ 16 % 256) (v / 2 ^ 8 % 256) (v % 256) ≡ v
from_be32-be32 v h = omega arith
