-- ===== src/Bencode/Value/Sorted.antt =====
-- The order of the keys of a dictionary, and the values that have an encoding.
use xfer_rust.Common.{
  ℕ, suc, ◌≤◌, ◌≡◌, refl, ap, arith, true, false, [], ◌∷◌, Bool-cases, inl, inr, length,
}
use xfer_rust.Common.Bytes.{Bytes, IsU64}
use xfer_rust.Common.ByteOrder.{below, below_asymm, below_trans}
use xfer_rust.Bencode.Decimal.Laws.{IsI64}
use xfer_rust.Bencode.Value.{
  Value, Items, Fields, int, bytes, list, dict, nil, cons, end, field, same_key, insert,
}

-- Every key of the map is after `k`.
abbrev pub AllAbove : Bytes → Fields → Type 0
AllAbove k end = Unit
AllAbove k (field j v fs) = (below k j ≡ true) × AllAbove k fs

-- Every key of the map is before `k`.
abbrev pub AllBelow : Fields → Bytes → Type 0
AllBelow end k = Unit
AllBelow (field j v fs) k = (below j k ≡ true) × AllBelow fs k

abbrev pub Before : Fields → Fields → Type 0
Before end fs = Unit
Before (field j v map) fs = AllAbove j fs × Before map fs

-- At the depth `d`: integers are i64, strings have a u64 length, keys ascend, and the nesting is at
-- most 64 levels deep.
unfoldable mutual
  pub IsValue : ℕ → Value → Type 0
  IsValue d (int i) = (d ≤ 64) × IsI64 i
  IsValue d (bytes b) = (d ≤ 64) × IsU64 (length b)
  IsValue d (list items) = (d ≤ 64) × AreItems (suc d) items
  IsValue d (dict fs) = (d ≤ 64) × AreFields (suc d) fs

  pub AreItems : ℕ → Items → Type 0
  AreItems d nil = Unit
  AreItems d (cons v items) = IsValue d v × AreItems d items

  pub AreFields : ℕ → Fields → Type 0
  AreFields d end = Unit
  AreFields d (field k v fs) = IsU64 (length k) × IsValue d v × AllAbove k fs × AreFields d fs

abbrev pub join : Fields → Fields → Fields
join end fs = fs
join (field k v map) fs = field k v (join map fs)

pub below-same_key : (j k : Bytes) → below j k ≡ true → same_key k j ≡ false
unfolding below same_key
below-same_key [] [] h = absurd (cc h)
below-same_key [] (b ∷ k) h = refl
below-same_key (a ∷ j) [] h = refl
below-same_key (a ∷ j) (b ∷ k) h = ground (arith, below-same_key j k)

-- A key after all others goes to the end.
pub insert_last :
    (k : Bytes) (v : Value) (map : Fields)
    → AllBelow map k
    → insert k v map ≡ join map (field k v end)
unfolding insert
insert_last k v end h = refl
insert_last k v (field j w map) (first, more) =
    rw (below-same_key j k first, below_asymm j k first, insert_last k v map more) refl

pub Before-AllBelow :
    (map : Fields) (k : Bytes) (v : Value) (fs : Fields)
    → Before map (field k v fs)
    → AllBelow map k × Before map fs
Before-AllBelow end k v fs h = (tt, tt)
Before-AllBelow (field j w map) k v fs ((first, above), more) =
    let (below_k, before) = Before-AllBelow map k v fs more in ((first, below_k), (above, before))

pub Before-join :
    (map : Fields) (k : Bytes) (v : Value) (fs : Fields)
    → Before map fs
    → AllAbove k fs
    → Before (join map (field k v end)) fs
Before-join end k v fs h above = (above, tt)
Before-join (field j w map) k v fs (first, more) above = (first, Before-join map k v fs more above)

pub join_assoc :
    (map : Fields) (k : Bytes) (v : Value) (fs : Fields)
    → join (join map (field k v end)) fs ≡ join map (field k v fs)
join_assoc end k v fs = refl
join_assoc (field j w map) k v fs = ap (field j w) (join_assoc map k v fs)

pub join-end : (map : Fields) → join map end ≡ map
join-end end = refl
join-end (field j w map) = ap (field j w) (join-end map)

same_key-eq : (a b : Bytes) → same_key a b ≡ true → a ≡ b
unfolding same_key
same_key-eq [] [] h = refl
same_key-eq [] (y ∷ b) h = absurd (cc h)
same_key-eq (x ∷ a) [] h = absurd (cc h)
same_key-eq (x ∷ a) (y ∷ b) h =
    let heads : x ≡ y = ground arith in
    let tails : same_key a b ≡ true = ground arith in cc (heads, same_key-eq a b tails)

below_total : (k j : Bytes) → same_key k j ≡ false → below k j ≡ false → below j k ≡ true
unfolding below same_key
below_total [] [] h g = absurd (cc h)
below_total [] (y ∷ j) h g = absurd (cc g)
below_total (x ∷ k) [] h g = refl
below_total (x ∷ k) (y ∷ j) h g = ground (arith, below_total k j)

AllAbove-trans : (a b : Bytes) (fs : Fields) → below a b ≡ true → AllAbove b fs → AllAbove a fs
AllAbove-trans a b end h k = tt
AllAbove-trans a b (field j w fs) h (first, more) =
    (below_trans a b j h first, AllAbove-trans a b fs h more)

AllAbove-insert :
    (a k : Bytes) (v : Value) (fs : Fields)
    → below a k ≡ true
    → AllAbove a fs
    → AllAbove a (insert k v fs)
unfolding insert
AllAbove-insert a k v end h above = (h, tt)
AllAbove-insert a k v (field j w fs) h (first, more) = elim (Bool-cases (same_key k j)) [
  | inl e ↦ rw e (first, more)
  | inr e ↦ elim (Bool-cases (below k j)) [
    | inl b ↦ rw (e, b) (h, (first, more))
    | inr b ↦ rw (e, b) (first, AllAbove-insert a k v fs h more)
  ]
]

-- Inserting keeps a map whose values and keys are proper.
pub insert-AreFields :
    (d : ℕ) (k : Bytes) (v : Value) (fs : Fields)
    → IsU64 (length k)
    → IsValue d v
    → AreFields d fs
    → AreFields d (insert k v fs)
unfolding insert IsValue
insert-AreFields d k v end short h hs = (short, h, tt, tt)
insert-AreFields d k v (field j w fs) short h (key, own, above, more) =
    elim (Bool-cases (same_key k j)) [
      | inl e ↦ rw e (key, h, above, more)
      | inr e ↦ elim (Bool-cases (below k j)) [
        | inl b ↦ rw (e, b) (short, h, (b, AllAbove-trans k j fs b above), (key, own, above, more))
        | inr b ↦
            rw (e, b)
              (
                key,
                own,
                AllAbove-insert j k v fs (below_total k j e b) above,
                insert-AreFields d k v fs short h more,
              )
      ]
    ]
