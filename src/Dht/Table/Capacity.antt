-- ===== src/Dht/Table/Capacity.antt =====
-- Adding an entry to a bucket and dropping one from it keep the bucket's invariant.
use mathlib.Core.Path.{subst}
use xfer_rust.Common.{
  ℕ, suc, ◌*◌, ◌≤◌, ◌<◌, ◌≡◌, ◌⊎◌, inl, inr, refl, sym, ap, ◌∙◌, arith, true, false, some, List, [],
  ◌∷◌, ◌++◌, ltb, Bool-cases, Option-cases, length, length-append, drop, All, All-append,
}
use xfer_rust.Common.Bytes.{Bytes}
use xfer_rust.Dht.Table.{
  k, NodeEntry, Bucket, same_id, is_full, find, remove_first, has, refresh, queue_candidate,
  add_new, add_found, add_to, promote, drop_from,
}
use xfer_rust.Dht.Table.Buckets.{
  Distinct, Apart, IsBucket, same_id_comm, has-one, Distinct-append, has-remove_first,
  Distinct-remove_first, remove_first-has, length-remove_first, find-none, find-some, has-other,
}

Apart-remove_first :
    (id : Bytes) (xs rs : List NodeEntry) → Apart xs rs → Apart (remove_first id xs) rs
Apart-remove_first id xs [] h = tt
Apart-remove_first id xs (r ∷ rs) (h, hs) =
    (has-remove_first r.id id xs h, Apart-remove_first id xs rs hs)

-- A candidate has no id that one of the nodes has.
Apart-append :
    (xs rs : List NodeEntry) (e : NodeEntry)
    → Apart xs rs
    → has e.id rs ≡ false
    → Apart (xs ++ e ∷ []) rs
unfolding has
Apart-append xs [] e h new = tt
Apart-append xs (r ∷ rs) e (h, hs) new =
    let other : same_id r.id e.id ≡ false = ground arith in
    let later : has e.id rs ≡ false = ground arith in
    (has-one r.id xs e h (same_id_comm e.id r.id ∙ other), Apart-append xs rs e hs later)

Apart-has :
    (xs rs : List NodeEntry) (id : Bytes) → Apart xs rs → has id xs ≡ true → has id rs ≡ false
unfolding has
Apart-has xs [] id h there = refl
Apart-has xs (r ∷ rs) id (h, hs) there =
    let other = has-other id r.id xs there h in
    let same = same_id_comm r.id id in ground (arith, Apart-has xs rs id hs there)

refresh-IsBucket :
    (now : ℕ) (n entry : NodeEntry) (b : Bucket)
    → find entry.id b.nodes ≡ some n
    → IsBucket b
    → IsBucket (refresh now n entry b)
unfolding refresh
refresh-IsBucket now n entry b found h =
    let (same, there) = find-some entry.id b.nodes n found in
    let left = remove_first entry.id b.nodes in
    let moved : NodeEntry = record n { addr = entry.addr } in
    let size = length-remove_first entry.id b.nodes there in
    let size' = length-append left (moved ∷ []) in
    let gone : has n.id left ≡ false =
      ap (λ i. has i left) same ∙ remove_first-has entry.id b.nodes h.nodes in
    let aside : has n.id b.replacements ≡ false =
      ap (λ i. has i b.replacements) same
      ∙ Apart-has b.nodes b.replacements entry.id h.apart there in
    let total : length (left ++ moved ∷ []) ≡ length b.nodes = omega (arith, size, size') in
    record {
      room = omega (arith, total, h.room);
      latest = h.latest;
      waits = elim h.waits [ inl e ↦ inl e | inr e ↦ inr (total ∙ e) ];
      nodes = Distinct-append left moved (Distinct-remove_first entry.id b.nodes h.nodes) gone;
      candidates = h.candidates;
      apart =
          Apart-append left b.replacements moved
            (Apart-remove_first entry.id b.nodes b.replacements h.apart) aside;
    }

All-tail : (P : NodeEntry → Type 0) (xs : List NodeEntry) → All P xs → All P (drop 1 xs)
All-tail P [] h = tt
All-tail P (x ∷ xs) (h, hs) = hs

Distinct-tail : (xs : List NodeEntry) → Distinct xs → Distinct (drop 1 xs)
Distinct-tail [] h = tt
Distinct-tail (x ∷ xs) (h, hs) = hs

tail-length : (xs : List NodeEntry) → 0 < length xs → suc (length (drop 1 xs)) ≡ length xs
tail-length [] h = absurd (omega arith)
tail-length (x ∷ xs) h = refl

queue_candidate-IsBucket :
    (entry : NodeEntry) (b : Bucket)
    → has entry.id b.nodes ≡ false
    → is_full b ≡ true
    → IsBucket b
    → IsBucket (queue_candidate entry b)
unfolding queue_candidate is_full
queue_candidate-IsBucket entry b new full h =
    let waiting = b.replacements ++ entry ∷ [] in
    let size = length-append b.replacements (entry ∷ []) in
    let eight : length b.nodes ≡ k = ground (arith, h.room) in
    let distinct = λ (e : has entry.id b.replacements ≡ false).
      Distinct-append b.replacements entry h.candidates e in
    let apart =
      All-append (λ r. has r.id b.nodes ≡ false) b.replacements (entry ∷ []) h.apart (new, tt) in
    elim (Bool-cases (has entry.id b.replacements)) [
      | inl e ↦ rw e h
      | inr e ↦ elim (Bool-cases (ltb (k * 2) (length waiting))) [
        | inl over ↦
            rw (e, over)
              (record {
                room = h.room;
                latest = omega (arith, size, h.latest, tail-length waiting (omega (arith, size)));
                waits = inr eight;
                nodes = h.nodes;
                candidates = Distinct-tail waiting (distinct e);
                apart = All-tail _ waiting apart;
              })
        | inr fits ↦
            rw (e, fits)
              (record {
                room = h.room;
                latest = ground (arith, size);
                waits = inr eight;
                nodes = h.nodes;
                candidates = distinct e;
                apart = apart;
              })
      ]
    ]

is_full-length : (b : Bucket) → is_full b ≡ false → length b.nodes < k
unfolding is_full
is_full-length b h = ground arith

add_new-IsBucket :
    (now : ℕ) (entry : NodeEntry) (b : Bucket)
    → has entry.id b.nodes ≡ false
    → IsBucket b
    → IsBucket (add_new now entry b)
unfolding add_new
add_new-IsBucket now entry b new h =
    let size = length-append b.nodes (entry ∷ []) in
    elim (Bool-cases (is_full b)) [
      | inl full ↦ rw full (queue_candidate-IsBucket entry b new full h)
      | inr free ↦
          let below = is_full-length b free in
          let none_waits : b.replacements ≡ [] = elim h.waits [
            | inl e ↦ e
            | inr e ↦ absurd (omega arith)
          ] in
          rw free (record {
            room = omega (arith, size);
            latest = h.latest;
            waits = inl none_waits;
            nodes = Distinct-append b.nodes entry h.nodes new;
            candidates = h.candidates;
            apart = subst (Apart (b.nodes ++ entry ∷ [])) (sym none_waits) tt;
          })
    ]

-- `b` has just lost a node, and `rs` are its candidates.
promote-IsBucket :
    (now : ℕ) (rs : List NodeEntry) (b : Bucket)
    → b.replacements ≡ rs
    → suc (length b.nodes) ≤ k
    → length rs ≤ k * 2
    → (rs ≡ []) ⊎ (suc (length b.nodes) ≡ k)
    → Distinct b.nodes
    → Distinct rs
    → Apart b.nodes rs
    → IsBucket (promote now rs b)
unfolding promote
promote-IsBucket now [] b e room latest waits nodes candidates apart = record {
  room = omega arith;
  latest = omega (arith, ap length e);
  waits = inl e;
  nodes = nodes;
  candidates = subst Distinct (sym e) tt;
  apart = subst (Apart b.nodes) (sym e) tt;
}
promote-IsBucket now (rep ∷ rs) b e room latest waits nodes (new, candidates) (free, apart) =
    let size = length-append b.nodes (rep ∷ []) in
    record {
      room = omega (arith, size);
      latest = omega arith;
      waits = elim waits [
        | inl none_ ↦ absurd (cc none_)
        | inr full ↦ inr (omega (arith, size, full))
      ];
      nodes = Distinct-append b.nodes rep nodes free;
      candidates = candidates;
      apart = Apart-append b.nodes rs rep apart new;
    }

pub drop_from-IsBucket :
    (now : ℕ) (id : Bytes) (b : Bucket) → IsBucket b → IsBucket (drop_from now id b)
unfolding drop_from
drop_from-IsBucket now id b h = elim (Bool-cases (has id b.nodes)) [
  | inr e ↦ rw e h
  | inl e ↦
      let size = length-remove_first id b.nodes e in
      rw e (
        promote-IsBucket now b.replacements (record b { nodes = remove_first id b.nodes }) refl
          (omega (arith, size, h.room)) h.latest
          (elim h.waits [ inl none_ ↦ inl none_ | inr full ↦ inr (size ∙ full) ])
          (Distinct-remove_first id b.nodes h.nodes) h.candidates
          (Apart-remove_first id b.nodes b.replacements h.apart))
]

pub add_to-IsBucket :
    (now : ℕ) (entry : NodeEntry) (b : Bucket) → IsBucket b → IsBucket (add_to now entry b)
unfolding add_to add_found
add_to-IsBucket now entry b h = elim (Option-cases (find entry.id b.nodes)) [
  | inl e ↦ rw e (add_new-IsBucket now entry b (find-none entry.id b.nodes e) h)
  | inr (n, e) ↦ rw e (refresh-IsBucket now n entry b e h)
]
