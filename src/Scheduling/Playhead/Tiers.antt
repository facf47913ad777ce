-- ===== src/Scheduling/Playhead/Tiers.antt =====
-- What the order of `playhead.rs` means for the pieces.
use mathlib.Core.List.{Perm}
use xfer_rust.Common.{
  ℕ, ◌+◌, ◌^◌, ◌≤◌, ◌<◌, max, ◌≡◌, ◌⊎◌, ◌↔◌, arith, true, false, some, List, [], ◌∷◌, All,
}
use xfer_rust.Common.Sort.{sort_by, Ordered, sort_by-perm, sort_by-Ordered}
use xfer_rust.Scheduling.Playhead.{
  Tier, as_u8, overlaps, tier_of, Candidate, triple_le, key_in, tier_at, sort_key, nearest_first,
  order, stream_window_bytes,
}

-- `a` is to be fetched no later than `b`: its tier is more urgent, or in the same tier it has the lower
-- number, or, behind all windows, it is as rare at least.
abbrev pub IsSooner : Tier → Tier → Candidate → Candidate → Type 0
IsSooner s t a b =
    (as_u8 s < as_u8 t)
    ⊎ ((as_u8 s ≡ as_u8 t) × (as_u8 s < 3) × (a.0 ≤ b.0))
    ⊎ ((as_u8 s ≡ 3) × (as_u8 t ≡ 3) × (a.1 ≤ b.1))

-- Each element is in the relation to all behind it.
abbrev pub Pairs : (Candidate → Candidate → Type 0) → List Candidate → Type 0
Pairs R [] = Unit
Pairs R (c ∷ cs) = All (R c) cs × Pairs R cs

key_in-IsSooner :
    (s t : Tier) (a b : Candidate) → triple_le (key_in s a) (key_in t b) ≡ true → IsSooner s t a b
unfolding key_in
key_in-IsSooner Tier.stream Tier.stream a b h = ground arith
key_in-IsSooner Tier.stream Tier.next a b h = ground arith
key_in-IsSooner Tier.stream Tier.soon a b h = ground arith
key_in-IsSooner Tier.stream Tier.backfill a b h = ground arith
key_in-IsSooner Tier.next Tier.stream a b h = ground arith
key_in-IsSooner Tier.next Tier.next a b h = ground arith
key_in-IsSooner Tier.next Tier.soon a b h = ground arith
key_in-IsSooner Tier.next Tier.backfill a b h = ground arith
key_in-IsSooner Tier.soon Tier.stream a b h = ground arith
key_in-IsSooner Tier.soon Tier.next a b h = ground arith
key_in-IsSooner Tier.soon Tier.soon a b h = ground arith
key_in-IsSooner Tier.soon Tier.backfill a b h = ground arith
key_in-IsSooner Tier.backfill Tier.stream a b h = ground arith
key_in-IsSooner Tier.backfill Tier.next a b h = ground arith
key_in-IsSooner Tier.backfill Tier.soon a b h = ground arith
key_in-IsSooner Tier.backfill Tier.backfill a b h = ground arith

triple_total : (a b : ℕ × ℕ × ℕ) → triple_le a b ≡ false → triple_le b a ≡ true
triple_total (a, b, c) (x, y, z) h = ground arith

triple_trans :
    (a b c : ℕ × ℕ × ℕ) → triple_le a b ≡ true → triple_le b c ≡ true → triple_le a c ≡ true
triple_trans (a, b, c) (x, y, z) (u, v, w) h k = ground arith

module _ (piece_range : ℕ → ℕ × ℕ) (playhead : ℕ) where
  abbrev pub Sooner : Candidate → Candidate → Type 0
  Sooner a b = IsSooner (tier_at piece_range playhead a) (tier_at piece_range playhead b) a b

  All-Sooner :
      (a : Candidate) (cs : List Candidate)
      → All (λ b. nearest_first piece_range playhead a b ≡ true) cs
      → All (Sooner a) cs
  unfolding nearest_first sort_key
  All-Sooner a [] h = tt
  All-Sooner a (b ∷ cs) (h, hs) = (
    key_in-IsSooner (tier_at piece_range playhead a) (tier_at piece_range playhead b) a b h,
    All-Sooner a cs hs,
  )

  Ordered-Pairs :
      (cs : List Candidate) → Ordered (nearest_first piece_range playhead) cs → Pairs Sooner cs
  Ordered-Pairs [] h = tt
  Ordered-Pairs (c ∷ cs) (h, hs) = (All-Sooner c cs h, Ordered-Pairs cs hs)

  nearest_total :
      (a b : Candidate)
      → nearest_first piece_range playhead a b ≡ false
      → nearest_first piece_range playhead b a ≡ true
  unfolding nearest_first
  nearest_total a b h =
      triple_total (sort_key piece_range playhead a) (sort_key piece_range playhead b) h

  nearest_trans :
      (a b c : Candidate)
      → nearest_first piece_range playhead a b ≡ true
      → nearest_first piece_range playhead b c ≡ true
      → nearest_first piece_range playhead a c ≡ true
  unfolding nearest_first
  nearest_trans a b c h k =
      triple_trans (sort_key piece_range playhead a) (sort_key piece_range playhead b)
        (sort_key piece_range playhead c) h k

  -- With a known play head the order is a reordering of the candidates in which no candidate stands
  -- behind a less urgent one: tiers come in the order stream, next, soon, backfill; inside a window the
  -- piece numbers ascend, and behind all windows the rarer piece comes first.
  pub order-Pairs :
      (candidates : List Candidate)
      → Perm (order piece_range (some playhead) candidates) candidates
        × Pairs Sooner (order piece_range (some playhead) candidates)
  unfolding order
  order-Pairs candidates = (
    sort_by-perm (nearest_first piece_range playhead) candidates,
    Ordered-Pairs (sort_by (nearest_first piece_range playhead) candidates) (
        sort_by-Ordered (nearest_first piece_range playhead) nearest_total nearest_trans
          candidates),
  )

-- A piece that has bytes is wanted at once exactly where one of its bytes lies in the 32 MiB from the play
-- head on, for a play head that is not within 32 MiB of the end of u64.
pub tier_of-stream_iff :
    (piece_start piece_end playhead : ℕ)
    → piece_start < piece_end
    → playhead + stream_window_bytes < 2 ^ 64
    → (tier_of piece_start piece_end playhead ≡ Tier.stream) ↔ (
        (x : ℕ) × (piece_start ≤ x)
        × (x < piece_end)
        × (playhead ≤ x)
        × (x < playhead + stream_window_bytes))
unfolding tier_of overlaps
tier_of-stream_iff piece_start piece_end playhead some_bytes inside = (
  λ h. (max piece_start playhead, ground arith, ground arith, ground arith, ground arith),
  λ h. ground arith,
)
