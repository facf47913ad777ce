-- ===== src/Scheduling/Playhead.antt =====
-- crates/xfer-bt/src/playhead.rs: the order in which pieces are wanted while a file is played.
pub mod Tiers
use xfer_rust.Common.{
  ℕ, ◌+◌, ◌-◌, ◌*◌, ◌^◌, min, Bool, true, false, not, ◌&&◌, ◌||◌, Option, none, some, List, [], ◌∷◌,
  ltb, leb, ◌==◌, if◌then◌else◌,
}
use xfer_rust.Common.Sort.{sort_by}

abbrev pub stream_window_bytes : ℕ
stream_window_bytes = 32 * 1024 * 1024

abbrev pub next_window_bytes : ℕ
next_window_bytes = 128 * 1024 * 1024

abbrev pub back_window_bytes : ℕ
back_window_bytes = 8 * 1024 * 1024

pub data Tier : Type 0 where
  stream next soon backfill : Tier

-- `as u8`.
abbrev pub as_u8 : Tier → ℕ
as_u8 Tier.stream = 0
as_u8 Tier.next = 1
as_u8 Tier.soon = 2
as_u8 Tier.backfill = 3

unfoldable pub overlaps : ℕ → ℕ → ℕ → ℕ → Bool
overlaps a_start a_end b_start b_end = ltb a_start b_end && ltb b_start a_end

abbrev pub saturating_add64 : ℕ → ℕ → ℕ
saturating_add64 a b = min (a + b) (2 ^ 64 - 1)

unfoldable pub tier_of : ℕ → ℕ → ℕ → Tier
unfolding overlaps
tier_of piece_start piece_end playhead =
    let stream_end = saturating_add64 playhead stream_window_bytes in
    let next_end = saturating_add64 playhead next_window_bytes in
    let back_start = playhead - back_window_bytes in
    if overlaps piece_start piece_end playhead stream_end
    then Tier.stream
    else if overlaps piece_start piece_end stream_end next_end
    then Tier.next
    else if overlaps piece_start piece_end back_start playhead
    then Tier.soon
    else Tier.backfill

-- A candidate is the number of a piece and its rarity.
abbrev pub Candidate : Type 0
Candidate = ℕ × ℕ

-- The order of pairs and of triples.
abbrev pub pair_le : ℕ × ℕ → ℕ × ℕ → Bool
pair_le a b = ltb a.0 b.0 || (a.0 == b.0 && leb a.1 b.1)

abbrev pub triple_le : ℕ × ℕ × ℕ → ℕ × ℕ × ℕ → Bool
triple_le a b = ltb a.0 b.0 || (a.0 == b.0 && pair_le (a.1, a.2) (b.1, b.2))

unfoldable pub rarest_first : Candidate → Candidate → Bool
rarest_first a b = pair_le (a.1, a.0) (b.1, b.0)

unfoldable pub key_in : Tier → Candidate → ℕ × ℕ × ℕ
key_in Tier.backfill (idx, rarity) = (3, rarity, idx)
key_in Tier.stream (idx, rarity) = (0, idx, rarity)
key_in Tier.next (idx, rarity) = (1, idx, rarity)
key_in Tier.soon (idx, rarity) = (2, idx, rarity)

module _ (piece_range : ℕ → ℕ × ℕ) where
  unfoldable pub tier_at : ℕ → Candidate → Tier
  tier_at playhead c = tier_of (piece_range c.0).0 (piece_range c.0).1 playhead

  unfoldable pub sort_key : ℕ → Candidate → ℕ × ℕ × ℕ
  sort_key playhead c = key_in (tier_at playhead c) c

  unfoldable pub nearest_first : ℕ → Candidate → Candidate → Bool
  nearest_first playhead a b = triple_le (sort_key playhead a) (sort_key playhead b)

  unfoldable pub order : Option ℕ → List Candidate → List Candidate
  order none candidates = sort_by rarest_first candidates
  order (some playhead) candidates = sort_by (nearest_first playhead) candidates
