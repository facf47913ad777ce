-- ===== src/Dht/Table.antt =====
-- crates/xfer-dht/src/node_id.rs and routing_table.rs: the distance of node ids and the buckets of the
-- routing table. An id is the list of its 20 bytes; an `Instant` is a number, given as `now`.
pub mod Buckets
pub mod Capacity
pub mod Changes
pub mod Nearest
use xfer_rust.Common.{
  ℕ, zero, suc, ◌+◌, ◌-◌, ◌*◌, ◌/◌, ◌%◌, min, bit_xor, Bool, true, false, not, ◌&&◌, ◌||◌, Option,
  none, some, List, [], ◌∷◌, ◌++◌, ltb, leb, ◌==◌, if◌then◌else◌, length, take, drop, set,
  get_elem?, replicate,
}
use xfer_rust.Common.Bytes.{Bytes}
use xfer_rust.Common.ByteOrder.{below}
use xfer_rust.Common.Sort.{sort_by}

-- `K` of lib.rs.
abbrev pub k : ℕ
k = 8

pub record SocketAddr : Type 0 where
  pub ip : Bytes
  pub port : ℕ

pub record NodeEntry : Type 0 where
  pub id : Bytes
  pub addr : SocketAddr

pub record Bucket : Type 0 where
  pub nodes : List NodeEntry
  pub replacements : List NodeEntry
  pub last_changed : ℕ

pub record RoutingTable : Type 0 where
  pub our_id : Bytes
  pub buckets : List Bucket

unfoldable pub same_id : Bytes → Bytes → Bool
same_id [] [] = true
same_id (a ∷ as_) (b ∷ bs) = a == b && same_id as_ bs
same_id _ _ = false

unfoldable pub xor : Bytes → Bytes → Bytes
xor (a ∷ as_) (b ∷ bs) = bit_xor a b ∷ xor as_ bs
xor _ _ = []

-- `u8::leading_zeros` of a byte other than zero.
abbrev pub leading_zeros : ℕ → ℕ
leading_zeros b =
    if leb 128 b
    then 0
    else if leb 64 b
    then 1
    else if leb 32 b
    then 2
    else if leb 16 b
    then 3
    else if leb 8 b
    then 4
    else if leb 4 b
    then 5
    else if leb 2 b
    then 6
    else 7

unfoldable pub zeros_from : ℕ → Bytes → ℕ
zeros_from i [] = 160
zeros_from i (b ∷ bs) =
    let rest = zeros_from (suc i) bs in if b == 0 then rest else i * 8 + leading_zeros b

unfoldable pub leading_zero_bits : Bytes → ℕ
leading_zero_bits xored = zeros_from 0 xored

unfoldable pub new_bucket : ℕ → Bucket
new_bucket now = record { nodes = []; replacements = []; last_changed = now }

unfoldable pub is_full : Bucket → Bool
is_full b = leb k (length b.nodes)

unfoldable pub new_table : ℕ → Bytes → RoutingTable
new_table now our_id = record { our_id = our_id; buckets = replicate 160 (new_bucket now) }

unfoldable pub bucket_index : RoutingTable → Bytes → ℕ
bucket_index t id = min (leading_zero_bits (xor t.our_id id)) 159

-- The first entry of that id, and the list without it.
unfoldable pub find : Bytes → List NodeEntry → Option NodeEntry
find id [] = none
find id (n ∷ nodes) = if same_id n.id id then some n else find id nodes

unfoldable pub remove_first : Bytes → List NodeEntry → List NodeEntry
remove_first id [] = []
remove_first id (n ∷ nodes) = if same_id n.id id then nodes else n ∷ remove_first id nodes

unfoldable pub has : Bytes → List NodeEntry → Bool
has id [] = false
has id (n ∷ nodes) = same_id n.id id || has id nodes

-- An entry that is there moves to the end with its new address.
unfoldable pub refresh : ℕ → NodeEntry → NodeEntry → Bucket → Bucket
refresh now n entry b = record b {
  nodes = remove_first entry.id b.nodes ++ record n { addr = entry.addr } ∷ [];
  last_changed = now;
}

-- A full bucket keeps at most 2 K candidates, the latest ones.
unfoldable pub queue_candidate : NodeEntry → Bucket → Bucket
queue_candidate entry b =
    let waiting = b.replacements ++ entry ∷ [] in
    if has entry.id b.replacements then b else record b {
      replacements = if ltb (k * 2) (length waiting) then drop 1 waiting else waiting;
    }

unfoldable pub add_new : ℕ → NodeEntry → Bucket → Bucket
add_new now entry b =
    if is_full b
    then queue_candidate entry b
    else record b { nodes = b.nodes ++ entry ∷ []; last_changed = now }

unfoldable pub add_found : ℕ → Option NodeEntry → NodeEntry → Bucket → Bucket
add_found now (some n) entry b = refresh now n entry b
add_found now none entry b = add_new now entry b

unfoldable pub add_to : ℕ → NodeEntry → Bucket → Bucket
add_to now entry b = add_found now (find entry.id b.nodes) entry b

-- The first candidate takes the free place.
unfoldable pub promote : ℕ → List NodeEntry → Bucket → Bucket
promote now [] b = b
promote now (rep ∷ waiting) b = record b {
  nodes = b.nodes ++ rep ∷ [];
  replacements = waiting;
  last_changed = now;
}

unfoldable pub drop_from : ℕ → Bytes → Bucket → Bucket
drop_from now id b =
    if has id b.nodes
    then promote now b.replacements (record b { nodes = remove_first id b.nodes })
    else b

unfoldable pub update_bucket : ℕ → (Bucket → Bucket) → List Bucket → List Bucket
update_bucket i f [] = []
update_bucket zero f (b ∷ bs) = f b ∷ bs
update_bucket (suc i) f (b ∷ bs) = b ∷ update_bucket i f bs

unfoldable pub add : ℕ → NodeEntry → RoutingTable → RoutingTable
add now entry t =
    if same_id entry.id t.our_id
    then t
    else record t { buckets = update_bucket (bucket_index t entry.id) (add_to now entry) t.buckets }

unfoldable pub mark_bad : ℕ → Bytes → RoutingTable → RoutingTable
mark_bad now id t = record t {
  buckets = update_bucket (bucket_index t id) (drop_from now id) t.buckets;
}

unfoldable pub nodes_of : List Bucket → List NodeEntry
nodes_of [] = []
nodes_of (b ∷ bs) = b.nodes ++ nodes_of bs

unfoldable pub all_nodes : RoutingTable → List NodeEntry
all_nodes t = nodes_of t.buckets

unfoldable pub count_of : List Bucket → ℕ
count_of [] = 0
count_of (b ∷ bs) = length b.nodes + count_of bs

unfoldable pub len : RoutingTable → ℕ
len t = count_of t.buckets

-- `a` sorts no later than `b`: its XOR with the target is not the larger one.
unfoldable pub no_farther : Bytes → NodeEntry → NodeEntry → Bool
no_farther target a b = not (below (xor b.id target) (xor a.id target))

unfoldable pub closest : RoutingTable → Bytes → ℕ → List NodeEntry
closest t target count = take count (sort_by (no_farther target) (all_nodes t))
