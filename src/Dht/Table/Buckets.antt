-- ===== src/Dht/Table/Buckets.antt =====
-- The invariant of a bucket of the routing table.
use xfer_rust.Common.{
  suc, ◌*◌, ◌≤◌, ◌≡◌, ◌⊎◌, inl, inr, refl, sym, ap, ◌∙◌, arith, true, false, ◌||◌, none, some, List,
  [], ◌∷◌, ◌++◌, Bool-cases, length, All,
}
use xfer_rust.Common.Bytes.{Bytes}
use xfer_rust.Dht.Table.{k, NodeEntry, Bucket, same_id, find, remove_first, has}

-- No id stands twice.
abbrev pub Distinct : List NodeEntry → Type 0
Distinct [] = Unit
Distinct (n ∷ nodes) = (has n.id nodes ≡ false) × Distinct nodes

-- No candidate is among the nodes.
abbrev pub Apart : List NodeEntry → List NodeEntry → Type 0
Apart nodes candidates = All (λ r. has r.id nodes ≡ false) candidates

-- At most K nodes and 2 K candidates, candidates only where the bucket is full, and no id twice.
pub record IsBucket (b : Bucket) : Type 0 where
  pub room : length b.nodes ≤ k
  pub latest : length b.replacements ≤ k * 2
  pub waits : (b.replacements ≡ []) ⊎ (length b.nodes ≡ k)
  pub nodes : Distinct b.nodes
  pub candidates : Distinct b.replacements
  pub apart : Apart b.nodes b.replacements

pub same_id_comm : (a b : Bytes) → same_id a b ≡ same_id b a
unfolding same_id
same_id_comm [] [] = refl
same_id_comm [] (y ∷ b) = refl
same_id_comm (x ∷ a) [] = refl
same_id_comm (x ∷ a) (y ∷ b) = ground (arith, same_id_comm a b)

pub same_id-eq : (a b : Bytes) → same_id a b ≡ true → a ≡ b
unfolding same_id
same_id-eq [] [] h = refl
same_id-eq [] (y ∷ b) h = absurd (cc h)
same_id-eq (x ∷ a) [] h = absurd (cc h)
same_id-eq (x ∷ a) (y ∷ b) h =
    let heads : x ≡ y = ground arith in
    let tails : same_id a b ≡ true = ground arith in cc (heads, same_id-eq a b tails)

pub has-append :
    (id : Bytes) (xs ys : List NodeEntry) → has id (xs ++ ys) ≡ (has id xs || has id ys)
unfolding has
has-append id [] ys = refl
has-append id (x ∷ xs) ys = ground (arith, has-append id xs ys)

pub has-one :
    (id : Bytes) (xs : List NodeEntry) (e : NodeEntry)
    → has id xs ≡ false
    → same_id e.id id ≡ false
    → has id (xs ++ e ∷ []) ≡ false
unfolding has
has-one id xs e h ne = ground (arith, has-append id xs (e ∷ []))

pub Distinct-append :
    (xs : List NodeEntry) (e : NodeEntry)
    → Distinct xs
    → has e.id xs ≡ false
    → Distinct (xs ++ e ∷ [])
unfolding has
Distinct-append [] e h new = (refl, tt)
Distinct-append (x ∷ xs) e (h, hs) new =
    let other : same_id x.id e.id ≡ false = ground arith in
    let later : has e.id xs ≡ false = ground arith in
    (has-one x.id xs e h (same_id_comm e.id x.id ∙ other), Distinct-append xs e hs later)

pub has-remove_first :
    (id j : Bytes) (xs : List NodeEntry) → has id xs ≡ false → has id (remove_first j xs) ≡ false
unfolding has remove_first
has-remove_first id j [] h = refl
has-remove_first id j (x ∷ xs) h = ground (arith, has-remove_first id j xs)

pub Distinct-remove_first :
    (id : Bytes) (xs : List NodeEntry) → Distinct xs → Distinct (remove_first id xs)
unfolding remove_first
Distinct-remove_first id [] h = tt
Distinct-remove_first id (x ∷ xs) (h, hs) =
    ground (arith, Distinct-remove_first id xs hs, has-remove_first x.id id xs h)

-- The removed id is gone.
pub remove_first-has :
    (id : Bytes) (xs : List NodeEntry) → Distinct xs → has id (remove_first id xs) ≡ false
unfolding has remove_first
remove_first-has id [] h = refl
remove_first-has id (x ∷ xs) (h, hs) = elim (Bool-cases (same_id x.id id)) [
  | inl e ↦ rw e (ap (λ i. has i xs) (sym (same_id-eq x.id id e)) ∙ h)
  | inr e ↦ rw (e, e) (remove_first-has id xs hs)
]

pub length-remove_first :
    (id : Bytes) (xs : List NodeEntry)
    → has id xs ≡ true
    → suc (length (remove_first id xs)) ≡ length xs
unfolding has remove_first
length-remove_first id [] h = absurd (cc h)
length-remove_first id (x ∷ xs) h = ground (arith, length-remove_first id xs)

pub find-none : (id : Bytes) (xs : List NodeEntry) → find id xs ≡ none → has id xs ≡ false
unfolding find has
find-none id [] h = refl
find-none id (x ∷ xs) h = ground (arith, find-none id xs)

pub find-some :
    (id : Bytes) (xs : List NodeEntry) (n : NodeEntry)
    → find id xs ≡ some n
    → (n.id ≡ id) × (has id xs ≡ true)
unfolding find has
find-some id [] n h = absurd (cc h)
find-some id (x ∷ xs) n h = elim (Bool-cases (same_id x.id id)) [
  | inl e ↦ rw e (cc (rw e at h, same_id-eq x.id id e), refl)
  | inr e ↦ let (same, there) = find-some id xs n (rw e at h) in rw e (same, there)
]

pub has-other :
    (i j : Bytes) (xs : List NodeEntry) → has i xs ≡ true → has j xs ≡ false → same_id i j ≡ false
unfolding has
has-other i j [] h g = absurd (cc h)
has-other i j (x ∷ xs) h g = elim (Bool-cases (same_id x.id i)) [
  | inl e ↦
      let other : same_id x.id j ≡ false = ground arith in
      ap (λ t. same_id t j) (sym (same_id-eq x.id i e)) ∙ other
  | inr e ↦ has-other i j xs (rw e at h) (ground arith)
]
