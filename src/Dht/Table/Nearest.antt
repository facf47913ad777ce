-- ===== src/Dht/Table/Nearest.antt =====
-- What `closest` of crates/xfer-dht/src/routing_table.rs answers.
use mathlib.Core.List.{Perm}
use xfer_rust.Common.{
  ℕ, ◌+◌, min, ◌≡◌, refl, arith, ap, ◌∙◌, Bool, true, false, not, List, [], ◌∷◌, ◌++◌, length,
  length-append, length-take, drop, take-append-drop, All,
}
use xfer_rust.Common.Bytes.{Bytes}
use xfer_rust.Common.ByteOrder.{below, below_asymm, not_below_trans}
use xfer_rust.Common.Sort.{
  sort_by, Ordered, sort_by-perm, sort_by-Ordered, length-sort_by, Ordered-take,
}
use xfer_rust.Dht.Table.{
  NodeEntry, RoutingTable, Bucket, xor, nodes_of, all_nodes, count_of, len, no_farther, closest,
}

length-nodes_of : (bs : List Bucket) → length (nodes_of bs) ≡ count_of bs
unfolding nodes_of count_of
length-nodes_of [] = refl
length-nodes_of (b ∷ bs) =
    length-append b.nodes (nodes_of bs) ∙ ap (λ n. length b.nodes + n) (length-nodes_of bs)

-- `not b ≡ true`.
not-true : (b : Bool) → not b ≡ true → b ≡ false
not-true b h = ground arith

module _ (target : Bytes) where
  no_farther_total :
      (a b : NodeEntry) → no_farther target a b ≡ false → no_farther target b a ≡ true
  unfolding no_farther
  no_farther_total a b h =
      let after : below (xor b.id target) (xor a.id target) ≡ true = ground arith in
      rw (below_asymm (xor b.id target) (xor a.id target) after) refl

  no_farther_trans :
      (a b c : NodeEntry)
      → no_farther target a b ≡ true
      → no_farther target b c ≡ true
      → no_farther target a c ≡ true
  unfolding no_farther
  no_farther_trans a b c h k =
      rw
        (not_below_trans (xor a.id target) (xor b.id target) (xor c.id target) (not-true _ h)
          (not-true _ k))
        refl

  -- `closest` answers with as many nodes as asked for, or with all the table has: the nodes of the table
  -- are those of the answer and those left out, the answer ascends in the XOR distance to the target, and
  -- no node left out is closer than one of the answer.
  pub closest-nearest :
      (t : RoutingTable) (count : ℕ)
      → (length (closest t target count) ≡ min count (len t))
        × ((left : List NodeEntry) × Perm (closest t target count ++ left) (all_nodes t)
            × Ordered (no_farther target) (closest t target count)
            × All (λ a. All (λ b. no_farther target a b ≡ true) left) (closest t target count))
  unfolding closest len all_nodes
  closest-nearest t count =
      let all = nodes_of t.buckets in
      let sorted = sort_by (no_farther target) all in
      let ordered =
        Ordered-take (no_farther target) count sorted
          (sort_by-Ordered (no_farther target) no_farther_total no_farther_trans all) in
      let size = length-sort_by (no_farther target) all ∙ length-nodes_of t.buckets in
      (
        length-take count sorted ∙ ap (min count) size,
        (
          drop count sorted,
          rw (take-append-drop count sorted) (sort_by-perm (no_farther target) all),
          ordered.0,
          ordered.1,
        ),
      )
