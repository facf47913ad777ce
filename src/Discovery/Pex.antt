-- ===== src/Discovery/Pex.antt =====
-- crates/xfer-discovery/src/pex.rs: the exchange of peers. A HashSet of addresses is a list of them, of
-- which only the members count.
pub mod RoundTrip
pub mod Tracking
use xfer_rust.Common.{
  ℕ, ◌/◌, ◌%◌, Bool, true, false, not, ◌&&◌, ◌||◌, Option, none, some, List, [], ◌∷◌, ◌++◌, map,
  ◌==◌, if◌then◌else◌,
}
use xfer_rust.Common.Bytes.{Bytes, from_be16}
use xfer_rust.Common.ByteOrder.{same_bytes}
use xfer_rust.Common.Run.{Run, ok, err, stuck}
use xfer_rust.Bencode.Value.{
  Value, Fields, dict, bytes, end, insert, get, as_dict, as_bytes, encode,
}
use xfer_rust.Bencode.Parser.{BencodeError, decode}

pub data IpAddr : Type 0 where
  v4 : ℕ → ℕ → ℕ → ℕ → IpAddr
  v6 : Bytes → IpAddr

pub record PeerAddr : Type 0 where
  pub ip : IpAddr
  pub port : ℕ

pub record PexPeer : Type 0 where
  pub addr : PeerAddr
  pub flags : ℕ

pub record PexMessage : Type 0 where
  pub added : List PexPeer
  pub dropped : List PeerAddr

-- The errors' texts are left out.
pub data PexError : Type 0 where
  malformed : BencodeError → PexError
  no_dictionary : PexError

abbrev pub compact_ip : IpAddr → ℕ → Option Bytes
compact_ip (v4 a b c d) port = some (a ∷ b ∷ c ∷ d ∷ (port / 256 % 256) ∷ (port % 256) ∷ [])
compact_ip (v6 octets) port = none

unfoldable pub compact_peer_bytes : PeerAddr → Option Bytes
compact_peer_bytes addr = compact_ip addr.ip addr.port

unfoldable pub parse_compact_peers : Bytes → List PeerAddr
parse_compact_peers (a ∷ b ∷ c ∷ d ∷ e ∷ f ∷ rest) =
    record { ip = v4 a b c d; port = from_be16 e f } ∷ parse_compact_peers rest
parse_compact_peers _ = []

abbrev pub prepend : Option Bytes → Bytes → Bytes
prepend none rest = rest
prepend (some octets) rest = octets ++ rest

abbrev pub prepend_flag : Option Bytes → ℕ → Bytes → Bytes
prepend_flag none flag rest = rest
prepend_flag (some octets) flag rest = flag ∷ rest

-- The bytes and the flags of the peers that have a compact form.
unfoldable pub compact_added : List PexPeer → Bytes
compact_added [] = []
compact_added (p ∷ ps) = prepend (compact_peer_bytes p.addr) (compact_added ps)

unfoldable pub flags_added : List PexPeer → Bytes
flags_added [] = []
flags_added (p ∷ ps) = prepend_flag (compact_peer_bytes p.addr) p.flags (flags_added ps)

unfoldable pub compact_dropped : List PeerAddr → Bytes
compact_dropped [] = []
compact_dropped (a ∷ as_) = prepend (compact_peer_bytes a) (compact_dropped as_)

-- `added`, `added.f` and `dropped`.
abbrev pub added_key : Bytes
added_key = 97 ∷ 100 ∷ 100 ∷ 101 ∷ 100 ∷ []

abbrev pub flags_key : Bytes
flags_key = 97 ∷ 100 ∷ 100 ∷ 101 ∷ 100 ∷ 46 ∷ 102 ∷ []

abbrev pub dropped_key : Bytes
dropped_key = 100 ∷ 114 ∷ 111 ∷ 112 ∷ 112 ∷ 101 ∷ 100 ∷ []

unfoldable pub pex_fields : PexMessage → Fields
pex_fields m = insert dropped_key (bytes (compact_dropped m.dropped)) (
    insert flags_key (bytes (flags_added m.added))
      (insert added_key (bytes (compact_added m.added)) end))

unfoldable pub encode_pex : PexMessage → Bytes
encode_pex m = encode (dict (pex_fields m))

-- The flag of a peer is the one at its place, or 0.
unfoldable pub with_flags : Bytes → List PeerAddr → List PexPeer
with_flags flags [] = []
with_flags [] (a ∷ as_) = record { addr = a; flags = 0 } ∷ with_flags [] as_
with_flags (f ∷ fs) (a ∷ as_) = record { addr = a; flags = f } ∷ with_flags fs as_

-- The bytes that stand under a key, if bytes do.
abbrev pub bytes_of : Option Value → Option Bytes
bytes_of none = none
bytes_of (some v) = as_bytes v

abbrev pub or_empty : Option Bytes → Bytes
or_empty none = []
or_empty (some b) = b

unfoldable pub message_of : Fields → PexMessage
message_of d = record {
  added =
      with_flags (or_empty (bytes_of (get flags_key d)))
        (parse_compact_peers (or_empty (bytes_of (get added_key d))));
  dropped = parse_compact_peers (or_empty (bytes_of (get dropped_key d)));
}

abbrev pub of_root : Option Fields → Run PexError PexMessage
of_root none = err no_dictionary
of_root (some d) = ok (message_of d)

abbrev pub of_decoded : Run BencodeError Value → Run PexError PexMessage
of_decoded (ok v) = of_root (as_dict v)
of_decoded (err e) = err (malformed e)
of_decoded stuck = stuck

unfoldable pub decode_pex : Bytes → Run PexError PexMessage
decode_pex input = of_decoded (decode input)

unfoldable pub same_ip : IpAddr → IpAddr → Bool
same_ip (v4 a b c d) (v4 x y z w) = a == x && (b == y && (c == z && d == w))
same_ip (v6 a) (v6 b) = same_bytes a b
same_ip (v4 a b c d) (v6 o) = false
same_ip (v6 o) (v4 a b c d) = false

unfoldable pub same_addr : PeerAddr → PeerAddr → Bool
same_addr a b = same_ip a.ip b.ip && a.port == b.port

unfoldable pub has_addr : PeerAddr → List PeerAddr → Bool
has_addr a [] = false
has_addr a (b ∷ bs) = same_addr a b || has_addr a bs

-- The peers that are not in the set, and the addresses of the set that are not among the others.
unfoldable pub new_peers : List PeerAddr → List PexPeer → List PexPeer
new_peers sent [] = []
new_peers sent (p ∷ ps) =
    let rest = new_peers sent ps in if has_addr p.addr sent then rest else p ∷ rest

unfoldable pub gone_from : List PeerAddr → List PeerAddr → List PeerAddr
gone_from current [] = []
gone_from current (a ∷ as_) =
    let rest = gone_from current as_ in if has_addr a current then rest else a ∷ rest

-- The message and the set of what has been sent.
unfoldable pub generate_message : List PexPeer → List PeerAddr → PexMessage × List PeerAddr
generate_message current sent =
    let current_set = map (λ p. p.addr) current in
    (record { added = new_peers sent current; dropped = gone_from current_set sent }, current_set)
