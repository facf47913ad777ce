-- ===== src/Split/Resume/Prefix.antt =====
-- crates/xfer-http/src/split.rs: what is kept of the file when a server does not serve ranges.
use xfer_rust.Common.{
  ℕ, ◌+◌, ◌≤◌, ◌<◌, ◌≡◌, inl, inr, arith, false, Option, some, List, [], ◌∷◌, ltb, if◌then◌else◌,
  Bool-cases, All,
}
use xfer_rust.Common.Indexed.{Each-All}
use xfer_rust.Common.Sort.{sort_by, sort_by-All}
use xfer_rust.Split.Writer.{DataFile, Seg, Writer}
use xfer_rust.Split.Writer.Content.{HasContent, Holds}
use xfer_rust.Split.Resume.{prefix_from, seg_by_start, contiguous_prefix}

module _ {D : Type 0} (f : DataFile D) (stored : D → ℕ → Option ℕ) (resource : ℕ → ℕ) where
  prefix_from-Holds :
      (disk : D) (base cur : ℕ) (segs : List Seg)
      → All (Holds f stored resource disk 0) segs
      → ((x : ℕ) → base ≤ x → x < cur → stored disk x ≡ some (resource x))
      → (x : ℕ) → base ≤ x
      → x < prefix_from cur segs
      → stored disk x ≡ some (resource x)
  unfolding prefix_from
  prefix_from-Holds disk base cur [] h known x low high = known x low high
  prefix_from-Holds disk base cur (s ∷ segs) (h, hs) known x low high =
      let reach = s.start + s.written in
      let next = if ltb cur reach then reach else cur in
      elim (Bool-cases (ltb cur s.start)) [
        | inl e ↦ known x low (rw (prefix_from, e) at high)
        | inr e ↦
            let known_next : (y : ℕ) → base ≤ y → y < next → stored disk y ≡ some (resource y) =
              λ y from to. elim (Bool-cases (ltb y cur)) [
                | inl e2 ↦ known y from (ground arith)
                | inr e2 ↦ h y (ground arith) (ground arith)
              ] in
            elim (Bool-cases (ltb reach s.end)) [
              | inl e2 ↦ known_next x low (rw (prefix_from, e, e2) at high)
              | inr e2 ↦
                  prefix_from-Holds disk base next segs hs known_next x low
                    (rw (prefix_from, e, e2) at high)
            ]
      ]

  -- What is kept of the file when the rest is cut off is the resource's.
  pub contiguous_prefix-holds :
      (w : Writer D)
      → HasContent f stored resource w
      → w.fatal ≡ false
      → (x : ℕ) → w.base ≤ x
      → x < contiguous_prefix w
      → stored w.disk x ≡ some (resource x)
  unfolding contiguous_prefix
  contiguous_prefix-holds w content ok x low high =
      let each = Each-All (Holds f stored resource w.disk 0) w.segs (content ok) in
      prefix_from-Holds w.disk w.base w.base (sort_by seg_by_start w.segs)
        (sort_by-All seg_by_start (Holds f stored resource w.disk 0) w.segs each)
        (λ y from to. absurd (omega arith)) x low high
