-- ===== src/Discovery/Pex/RoundTrip.antt =====
-- A message of crates/xfer-discovery/src/pex.rs is read back from its bencoded form.
use xfer_rust.Common.{
  ℕ, ◌+◌, ◌*◌, ◌^◌, ◌≤◌, ◌<◌, ◌≡◌, refl, ap, ◌∙◌, arith, Bool, true, false, List, [], ◌∷◌, length,
  All,
}
use xfer_rust.Common.Bytes.{Bytes, IsU16, from_be16-be16}
use xfer_rust.Common.ByteOrder.{below}
use xfer_rust.Common.Run.{ok}
use xfer_rust.Bencode.Value.{dict, bytes, end, field, insert, get, as_dict, as_bytes, same_key}
use xfer_rust.Bencode.Value.Sorted.{IsValue}
use xfer_rust.Bencode.Parser.RoundTrip.{decode-encode}
use xfer_rust.Discovery.Pex.{
  IpAddr, v4, v6, PeerAddr, PexPeer, PexMessage, compact_ip, prepend, prepend_flag,
  compact_peer_bytes, parse_compact_peers, compact_added, flags_added, compact_dropped, added_key,
  flags_key, dropped_key, pex_fields, encode_pex, with_flags, message_of, decode_pex,
}

-- What the format carries: the peers with an IPv4 address.
abbrev pub is_v4 : IpAddr → Bool
is_v4 (v4 a b c d) = true
is_v4 (v6 octets) = false

abbrev pub keep_peer : Bool → PexPeer → List PexPeer → List PexPeer
keep_peer true p ps = p ∷ ps
keep_peer false p ps = ps

abbrev pub v4_peers : List PexPeer → List PexPeer
v4_peers [] = []
v4_peers (p ∷ ps) = keep_peer (is_v4 p.addr.ip) p (v4_peers ps)

abbrev pub keep_addr : Bool → PeerAddr → List PeerAddr → List PeerAddr
keep_addr true a as_ = a ∷ as_
keep_addr false a as_ = as_

abbrev pub v4_addrs : List PeerAddr → List PeerAddr
v4_addrs [] = []
v4_addrs (a ∷ as_) = keep_addr (is_v4 a.ip) a (v4_addrs as_)

parse-prepend :
    (ip : IpAddr) (port : ℕ) (rest : Bytes)
    → IsU16 port
    → parse_compact_peers (prepend (compact_ip ip port) rest)
      ≡ keep_addr (is_v4 ip) (record { ip = ip; port = port }) (parse_compact_peers rest)
unfolding parse_compact_peers
parse-prepend (v4 a b c d) port rest h = rw (from_be16-be16 port h) refl
parse-prepend (v6 octets) port rest h = refl

with_flags-prepend :
    (ip : IpAddr) (port flag : ℕ) (rest flags : Bytes)
    → IsU16 port
    → with_flags
        (prepend_flag (compact_ip ip port) flag flags)
        (parse_compact_peers (prepend (compact_ip ip port) rest))
      ≡ keep_peer
          (is_v4 ip)
          (record { addr = record { ip = ip; port = port }; flags = flag })
          (with_flags flags (parse_compact_peers rest))
unfolding parse_compact_peers with_flags
with_flags-prepend (v4 a b c d) port flag rest flags h = rw (from_be16-be16 port h) refl
with_flags-prepend (v6 octets) port flag rest flags h = refl

length-prepend :
    (ip : IpAddr) (port : ℕ) (rest : Bytes)
    → length (prepend (compact_ip ip port) rest) ≤ 6 + length rest
length-prepend (v4 a b c d) port rest = omega arith
length-prepend (v6 octets) port rest = omega arith

length-prepend_flag :
    (ip : IpAddr) (port flag : ℕ) (rest : Bytes)
    → length (prepend_flag (compact_ip ip port) flag rest) ≤ 1 + length rest
length-prepend_flag (v4 a b c d) port flag rest = omega arith
length-prepend_flag (v6 octets) port flag rest = omega arith

pub parse-compact_dropped :
    (as_ : List PeerAddr)
    → All (λ a. IsU16 a.port) as_
    → parse_compact_peers (compact_dropped as_) ≡ v4_addrs as_
unfolding compact_dropped compact_peer_bytes parse_compact_peers
parse-compact_dropped [] h = refl
parse-compact_dropped (a ∷ as_) (h, hs) =
    parse-prepend a.ip a.port (compact_dropped as_) h
    ∙ ap (keep_addr (is_v4 a.ip) a) (parse-compact_dropped as_ hs)

parse-compact_added :
    (ps : List PexPeer)
    → All (λ p. IsU16 p.addr.port) ps
    → with_flags (flags_added ps) (parse_compact_peers (compact_added ps)) ≡ v4_peers ps
unfolding compact_added flags_added compact_peer_bytes with_flags parse_compact_peers
parse-compact_added [] h = refl
parse-compact_added (p ∷ ps) (h, hs) =
    with_flags-prepend p.addr.ip p.addr.port p.flags (compact_added ps) (flags_added ps) h
    ∙ ap (keep_peer (is_v4 p.addr.ip) p) (parse-compact_added ps hs)

length-compact_added : (ps : List PexPeer) → length (compact_added ps) ≤ 6 * length ps
unfolding compact_added compact_peer_bytes
length-compact_added [] = omega arith
length-compact_added (p ∷ ps) =
    omega (arith, length-prepend p.addr.ip p.addr.port (compact_added ps), length-compact_added ps)

length-flags_added : (ps : List PexPeer) → length (flags_added ps) ≤ length ps
unfolding flags_added compact_peer_bytes
length-flags_added [] = omega arith
length-flags_added (p ∷ ps) = omega (
  arith,
  length-prepend_flag p.addr.ip p.addr.port p.flags (flags_added ps),
  length-flags_added ps,
)

length-compact_dropped : (as_ : List PeerAddr) → length (compact_dropped as_) ≤ 6 * length as_
unfolding compact_dropped compact_peer_bytes
length-compact_dropped [] = omega arith
length-compact_dropped (a ∷ as_) =
    omega (arith, length-prepend a.ip a.port (compact_dropped as_), length-compact_dropped as_)

pex_fields-eq :
    (m : PexMessage)
    → pex_fields m
      ≡ field added_key (bytes (compact_added m.added)) (
          field flags_key
            (bytes (flags_added m.added))
            (field dropped_key (bytes (compact_dropped m.dropped)) end))
unfolding pex_fields insert same_key below
pex_fields-eq m = refl

pex_fields-IsValue :
    (m : PexMessage)
    → 6 * length m.added < 2 ^ 64
    → 6 * length m.dropped < 2 ^ 64
    → IsValue 0 (dict (pex_fields m))
unfolding IsValue below
pex_fields-IsValue m many_added many_dropped =
    let a = length-compact_added m.added in
    let f = length-flags_added m.added in
    let d = length-compact_dropped m.dropped in
    rw (pex_fields-eq m) (
      omega arith,
      (
        omega arith,
        (omega arith, omega arith),
        (refl, (refl, tt)),
        (
          omega arith,
          (omega arith, omega arith),
          (refl, tt),
          (omega arith, (omega arith, omega arith), tt, tt),
        ),
      ),
    )

-- A message is read back from its bencoded form, less the peers that have no IPv4 address.
pub decode_pex-encode_pex :
    (m : PexMessage)
    → All (λ p. IsU16 p.addr.port) m.added
    → All (λ a. IsU16 a.port) m.dropped
    → 6 * length m.added < 2 ^ 64
    → 6 * length m.dropped < 2 ^ 64
    → decode_pex (encode_pex m)
      ≡ ok (record { added = v4_peers m.added; dropped = v4_addrs m.dropped })
unfolding decode_pex encode_pex as_dict as_bytes message_of get same_key
decode_pex-encode_pex m ports drops many_added many_dropped =
    let decoded =
      decode-encode (dict (pex_fields m)) (pex_fields-IsValue m many_added many_dropped) in
    rw
      (
        decoded,
        pex_fields-eq m,
        parse-compact_added m.added ports,
        parse-compact_dropped m.dropped drops,
      )
      refl
