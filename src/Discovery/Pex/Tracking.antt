-- ===== src/Discovery/Pex/Tracking.antt =====
-- Whoever applies the messages of crates/xfer-discovery/src/pex.rs in order knows the peers of the sender.
use xfer_rust.Common.{
  ◌≡◌, refl, ap, ◌∙◌, arith, Bool, true, false, not, ◌&&◌, ◌||◌, List, [], ◌∷◌, ◌++◌, map, inl, inr,
  Bool-cases,
}
use xfer_rust.Common.ByteOrder.{same_bytes-eq}
use xfer_rust.Discovery.Pex.{
  IpAddr, v4, v6, PeerAddr, PexPeer, PexMessage, same_ip, same_addr, has_addr, new_peers, gone_from,
  generate_message,
}

same_ip-eq : (a b : IpAddr) → same_ip a b ≡ true → a ≡ b
unfolding same_ip
same_ip-eq (v4 a b c d) (v4 x y z w) h =
    let e : a ≡ x = ground arith in
    let f : b ≡ y = ground arith in
    let g : c ≡ z = ground arith in let k : d ≡ w = ground arith in cc (e, f, g, k)
same_ip-eq (v6 a) (v6 b) h = ap v6 (same_bytes-eq a b h)
same_ip-eq (v4 a b c d) (v6 o) h = absurd (cc h)
same_ip-eq (v6 o) (v4 a b c d) h = absurd (cc h)

same_addr-eq : (a b : PeerAddr) → same_addr a b ≡ true → a ≡ b
unfolding same_addr
same_addr-eq a b h =
    let e : a.ip ≡ b.ip = same_ip-eq a.ip b.ip (ground arith) in
    let f : a.port ≡ b.port = ground arith in cc (e, f)

has_addr-append :
    (a : PeerAddr) (xs ys : List PeerAddr)
    → has_addr a (xs ++ ys) ≡ (has_addr a xs || has_addr a ys)
unfolding has_addr
has_addr-append a [] ys = refl
has_addr-append a (x ∷ xs) ys = elim (Bool-cases (same_addr a x)) [
  | inl e ↦ rw e refl
  | inr e ↦ rw e (has_addr-append a xs ys)
]

and_false : (b : Bool) → b && false ≡ false
and_false true = refl
and_false false = refl

-- What is left of a set without another one.
has_addr-gone_from :
    (a : PeerAddr) (current xs : List PeerAddr)
    → has_addr a (gone_from current xs) ≡ (has_addr a xs && not (has_addr a current))
unfolding has_addr gone_from
has_addr-gone_from a current [] = refl
has_addr-gone_from a current (x ∷ xs) =
    let rest = has_addr-gone_from a current xs in
    elim (Bool-cases (has_addr x current)) [
      | inl gone ↦ elim (Bool-cases (same_addr a x)) [
        | inr other ↦ rw (gone, other) rest
        | inl same ↦
            let there : has_addr a current ≡ true =
              ap (λ t. has_addr t current) (same_addr-eq a x same) ∙ gone in
            rw (gone, same, there) (rest ∙ rw there (and_false (has_addr a xs)))
      ]
      | inr kept ↦ elim (Bool-cases (same_addr a x)) [
        | inr other ↦ rw (kept, other) rest
        | inl same ↦
            let there : has_addr a current ≡ false =
              ap (λ t. has_addr t current) (same_addr-eq a x same) ∙ kept in
            rw (kept, same, there) refl
      ]
    ]

abbrev pub addrs : List PexPeer → List PeerAddr
addrs ps = map (λ p. p.addr) ps

has_addr-new_peers :
    (a : PeerAddr) (sent : List PeerAddr) (ps : List PexPeer)
    → has_addr a (addrs (new_peers sent ps)) ≡ (has_addr a (addrs ps) && not (has_addr a sent))
unfolding has_addr new_peers
has_addr-new_peers a sent [] = refl
has_addr-new_peers a sent (p ∷ ps) =
    let rest = has_addr-new_peers a sent ps in
    elim (Bool-cases (has_addr p.addr sent)) [
      | inl old ↦ elim (Bool-cases (same_addr a p.addr)) [
        | inr other ↦ rw (old, other) rest
        | inl same ↦
            let there : has_addr a sent ≡ true =
              ap (λ t. has_addr t sent) (same_addr-eq a p.addr same) ∙ old in
            rw (old, same, there) (rest ∙ rw there (and_false (has_addr a (addrs ps))))
      ]
      | inr new ↦ elim (Bool-cases (same_addr a p.addr)) [
        | inr other ↦ rw (new, other) rest
        | inl same ↦
            let there : has_addr a sent ≡ false =
              ap (λ t. has_addr t sent) (same_addr-eq a p.addr same) ∙ new in
            rw (new, same, there) refl
      ]
    ]

-- The receiver of a message forgets the dropped peers and learns the added ones.
unfoldable pub learn : PexMessage → List PeerAddr → List PeerAddr
learn m known = addrs m.added ++ gone_from m.dropped known

-- Rounds of the sender, each with the peers it has then; the receiver applies each message.
unfoldable pub exchange :
    List (List PexPeer) → List PeerAddr → List PeerAddr → List PeerAddr × List PeerAddr
exchange [] sent known = (sent, known)
exchange (current ∷ rest) sent known =
    exchange rest (generate_message current sent).1 (learn (generate_message current sent).0 known)

-- The same members.
abbrev pub SameMembers : List PeerAddr → List PeerAddr → Type 0
SameMembers xs ys = (a : PeerAddr) → has_addr a xs ≡ has_addr a ys

learnt :
    (known sent now : Bool)
    → known ≡ sent
    → ((now && not sent) || (known && not (sent && not now))) ≡ now
learnt true true true e = refl
learnt true true false e = refl
learnt true false now e = absurd (cc e)
learnt false true now e = absurd (cc e)
learnt false false true e = refl
learnt false false false e = refl

learn-generate_message :
    (current : List PexPeer) (sent known : List PeerAddr)
    → SameMembers known sent
    → SameMembers (learn (generate_message current sent).0 known) (addrs current)
unfolding learn generate_message
learn-generate_message current sent known h a =
    let m = (generate_message current sent).0 in
    has_addr-append a (addrs (new_peers sent current))
      (gone_from (gone_from (addrs current) sent) known)
    ∙ rw
        (
          has_addr-new_peers a sent current,
          has_addr-gone_from a (gone_from (addrs current) sent) known,
          has_addr-gone_from a (addrs current) sent,
        )
        (learnt (has_addr a known) (has_addr a sent) (has_addr a (addrs current)) (h a))

-- Whoever applies the messages of any rounds in order, from the addresses that the sender has recorded on,
-- knows after each of them exactly the addresses of the peers that the sender has then.
pub exchange-SameMembers :
    (rounds : List (List PexPeer)) (current : List PexPeer) (sent known : List PeerAddr)
    → SameMembers known sent
    → SameMembers (exchange (rounds ++ current ∷ []) sent known).1 (addrs current)
unfolding exchange generate_message
exchange-SameMembers [] current sent known h = learn-generate_message current sent known h
exchange-SameMembers (peers ∷ rest) current sent known h =
    exchange-SameMembers rest current (generate_message peers sent).1
      (learn (generate_message peers sent).0 known) (learn-generate_message peers sent known h)
