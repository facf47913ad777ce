-- ===== src/Dht/Examples.antt =====
-- Runs of the routing table's model, and its theorem at a concrete input.
use mathlib.Core.List.{Perm}
use xfer_rust.Common.{ℕ, min, true, ◌++◌, length, ◌≡◌, refl, List, [], ◌∷◌, All, replicate}
use xfer_rust.Common.Bytes.{Bytes}
use xfer_rust.Common.ByteOrder.{below}
use xfer_rust.Common.Sort.{Ordered}
use xfer_rust.Dht.Table.Nearest.{closest-nearest}
use xfer_rust.Dht.Table.{
  closest, len, all_nodes, nodes_of, no_farther, new_bucket, RoutingTable, NodeEntry, xor,
  leading_zero_bits, zeros_from, new_table, add, same_id,
}
use xfer_rust.Dht.Table.Buckets.{IsBucket}
use xfer_rust.Dht.Table.Changes.{Change, changes, changes-IsBucket}

abbrev home : Bytes
home = replicate 20 0

abbrev node : ℕ → NodeEntry
node n = record { id = n ∷ replicate 19 7; addr = record { ip = 10 ∷ 0 ∷ 0 ∷ n ∷ []; port = 6881 } }

far : leading_zero_bits (xor home (0 ∷ 0x10 ∷ replicate 18 0)) ≡ 11
unfolding leading_zero_bits zeros_from xor
far = refl

own : leading_zero_bits (xor home home) ≡ 160
unfolding leading_zero_bits zeros_from xor
own = refl

own_is_left_out : add 1 (record (node 0) { id = home }) (new_table 0 home) ≡ new_table 0 home
unfolding add same_id new_table
own_is_left_out = refl

abbrev happened : List Change
happened =
    Change.adds 1 (node 200)
    ∷ Change.adds 2 (node 201)
    ∷ Change.adds 3 (node 200)
    ∷ Change.finds_bad 4 (200 ∷ replicate 19 7)
    ∷ []

changes-IsBucket_example : All IsBucket (changes happened (new_table 0 home)).buckets
changes-IsBucket_example = changes-IsBucket happened 0 home

abbrev some_nodes : RoutingTable
some_nodes = record (new_table 0 home) {
  buckets =
      record (new_bucket 1) { nodes = node 200 ∷ node 130 ∷ [] }
      ∷ record (new_bucket 2) { nodes = node 65 ∷ [] }
      ∷ [];
}

two_closest : closest some_nodes (129 ∷ replicate 19 0) 2 ≡ node 130 ∷ node 200 ∷ []
unfolding closest all_nodes nodes_of no_farther xor new_bucket new_table below
two_closest = refl

closest-nearest_example :
    (length (closest some_nodes (129 ∷ replicate 19 0) 2) ≡ min 2 (len some_nodes))
    × ((left : List NodeEntry) × Perm
          (closest some_nodes (129 ∷ replicate 19 0) 2 ++ left)
          (all_nodes some_nodes)
        × Ordered (no_farther (129 ∷ replicate 19 0)) (closest some_nodes (129 ∷ replicate 19 0) 2)
        × All
            (λ a. All (λ b. no_farther (129 ∷ replicate 19 0) a b ≡ true) left)
            (closest some_nodes (129 ∷ replicate 19 0) 2))
closest-nearest_example = closest-nearest (129 ∷ replicate 19 0) some_nodes 2
