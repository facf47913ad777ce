-- ===== src/Dht/Table/Changes.antt =====
-- `add` and `mark_bad` of the routing table, in any order.
use xfer_rust.Common.{
  ℕ, zero, suc, inl, inr, refl, arith, List, [], ◌∷◌, Bool-cases, replicate, All,
}
use xfer_rust.Common.Bytes.{Bytes}
use xfer_rust.Dht.Table.{
  NodeEntry, Bucket, RoutingTable, same_id, add_to, drop_from, update_bucket, add, mark_bad,
  new_bucket, new_table, bucket_index,
}
use xfer_rust.Dht.Table.Buckets.{IsBucket}
use xfer_rust.Dht.Table.Capacity.{add_to-IsBucket, drop_from-IsBucket}

update_bucket-All :
    (i : ℕ) (f : Bucket → Bucket) (bs : List Bucket)
    → ((b : Bucket) → IsBucket b → IsBucket (f b))
    → All IsBucket bs
    → All IsBucket (update_bucket i f bs)
unfolding update_bucket
update_bucket-All i f [] keeps h = tt
update_bucket-All zero f (b ∷ bs) keeps (h, hs) = (keeps b h, hs)
update_bucket-All (suc i) f (b ∷ bs) keeps (h, hs) = (h, update_bucket-All i f bs keeps hs)

-- What happens to a routing table.
pub data Change : Type 0 where
  adds : ℕ → NodeEntry → Change
  finds_bad : ℕ → Bytes → Change

unfoldable pub change : Change → RoutingTable → RoutingTable
change (Change.adds now entry) t = add now entry t
change (Change.finds_bad now id) t = mark_bad now id t

unfoldable pub changes : List Change → RoutingTable → RoutingTable
unfolding change
changes [] t = t
changes (c ∷ cs) t = changes cs (change c t)

change-All :
    (c : Change) (t : RoutingTable) → All IsBucket t.buckets → All IsBucket (change c t).buckets
unfolding change add mark_bad
change-All (Change.adds now entry) t h =
    let kept =
      update_bucket-All (bucket_index t entry.id) (add_to now entry) t.buckets
        (add_to-IsBucket now entry) h in
    elim (Bool-cases (same_id entry.id t.our_id)) [ inl e ↦ rw e h | inr e ↦ rw e kept ]
change-All (Change.finds_bad now id) t h =
    update_bucket-All (bucket_index t id) (drop_from now id) t.buckets (drop_from-IsBucket now id) h

changes-All :
    (cs : List Change) (t : RoutingTable)
    → All IsBucket t.buckets
    → All IsBucket (changes cs t).buckets
unfolding changes
changes-All [] t h = h
changes-All (c ∷ cs) t h = changes-All cs (change c t) (change-All c t h)

new_bucket-IsBucket : (now : ℕ) → IsBucket (new_bucket now)
unfolding new_bucket
new_bucket-IsBucket now = record {
  room = omega arith;
  latest = omega arith;
  waits = inl refl;
  nodes = tt;
  candidates = tt;
  apart = tt;
}

replicate-All : (n : ℕ) (b : Bucket) → IsBucket b → All IsBucket (replicate n b)
replicate-All zero b h = tt
replicate-All (suc n) b h = (h, replicate-All n b h)

-- Whatever nodes a new routing table is given and in whatever order they are found bad, every bucket
-- keeps at most 8 nodes and 16 candidates, has candidates only while it has 8 nodes, and holds no id
-- twice among both.
pub changes-IsBucket :
    (cs : List Change) (now : ℕ) (our_id : Bytes)
    → All IsBucket (changes cs (new_table now our_id)).buckets
unfolding new_table
changes-IsBucket cs now our_id =
    changes-All cs (new_table now our_id)
      (replicate-All 160 (new_bucket now) (new_bucket-IsBucket now))
