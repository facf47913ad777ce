-- ===== src/Transport/Packet/Order.antt =====
-- Sequence numbers in a window of half the 16-bit circle (`seq_after`, `seq_leq`).
use xfer_rust.Common.{ℕ, ◌^◌, ◌<◌, ◌≡◌, ◌↔◌, true, false, not, arith}
use xfer_rust.Common.Bytes.{IsU16}
use xfer_rust.Transport.Packet.{seq_after, seq_leq, wrapping_add16, wrapping_sub16}

-- For two 16-bit numbers `a` and `b`, `a` is after `b` exactly when going from `b` upwards, with
-- wrap-around, reaches `a` in 1 to 2^15 - 1 steps.
pub seq_after_iff :
    (a b : ℕ)
    → IsU16 a
    → IsU16 b
    → (seq_after a b ≡ true) ↔ ((d : ℕ) × (0 < d) × (d < 2 ^ 15) × (wrapping_add16 b d ≡ a))
unfolding seq_after
seq_after_iff a b ha hb = (
  λ h. (wrapping_sub16 a b, ground arith, ground arith, omega arith),
  λ (d, p, q, e). ground arith,
)

-- `seq_leq` is the negation of `seq_after`.
pub seq_leq-eq-not : (a b : ℕ) → seq_leq a b ≡ not (seq_after a b)
unfolding seq_after seq_leq
seq_leq-eq-not a b = ground arith

pub seq_after_irrefl : (a : ℕ) → IsU16 a → seq_after a a ≡ false
unfolding seq_after
seq_after_irrefl a h = ground arith

-- No two 16-bit numbers are after one another.
pub seq_after_asymm : (a b : ℕ) → IsU16 a → IsU16 b → seq_after a b ≡ true → seq_after b a ≡ false
unfolding seq_after
seq_after_asymm a b ha hb h = ground arith
