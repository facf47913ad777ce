-- ===== src/Discovery/UdpTracker/Replies.antt =====
-- What crates/xfer-discovery/src/udp_tracker.rs makes of the replies of a tracker.
use xfer_rust.Common.{
  ℕ, ◌+◌, ◌*◌, ◌/◌, ◌%◌, ◌^◌, ◌≡◌, inl, inr, refl, ap, map, arith, true, false, List, [], ◌∷◌, ltb,
  ◌==◌, if◌then◌else◌, length, All, Bool-cases,
}
use xfer_rust.Common.Bytes.{Bytes, IsU16, IsU32, IsU64, be16, be32, from_be16-be16, from_be32-be32}
use xfer_rust.Common.Run.{ok, err}
use xfer_rust.Discovery.Pex.{PeerAddr, v4, parse_compact_peers}
use xfer_rust.Discovery.UdpTracker.{
  Fault, protocol, tracker_error, be64, parse_connect_response, parse_announce_response,
}

-- A peer as BEP 15 has it: the four bytes of an IPv4 address, and a port.
pub record Peer4 : Type 0 where
  pub a0 : ℕ
  pub a1 : ℕ
  pub a2 : ℕ
  pub a3 : ℕ
  pub port : ℕ

abbrev pub write_peers : List Peer4 → Bytes
write_peers [] = []
write_peers (p ∷ ps) = p.a0 ∷ p.a1 ∷ p.a2 ∷ p.a3 ∷ be16 p.port (write_peers ps)

abbrev pub socket_addr : Peer4 → PeerAddr
socket_addr p = record { ip = v4 p.a0 p.a1 p.a2 p.a3; port = p.port }

-- The replies as BEP 15 has them.
abbrev pub announce_reply : ℕ → ℕ → ℕ → ℕ → List Peer4 → Bytes
announce_reply tid interval leechers seeders peers =
    be32 1 (be32 tid (be32 interval (be32 leechers (be32 seeders (write_peers peers)))))

abbrev pub connect_reply : ℕ → ℕ → Bytes
connect_reply tid connection_id = be32 0 (be32 tid (be64 connection_id []))

abbrev pub error_reply : ℕ → Bytes → Bytes
error_reply tid message = be32 3 (be32 tid message)

parse-write_peers :
    (peers : List Peer4)
    → All (λ p. IsU16 p.port) peers
    → parse_compact_peers (write_peers peers) ≡ map socket_addr peers
unfolding parse_compact_peers
parse-write_peers [] h = refl
parse-write_peers (p ∷ ps) (h, hs) = rw (from_be16-be16 p.port h, parse-write_peers ps hs) refl

module _ (from_utf8_lossy : Bytes → Bytes) where
  -- The reply to an announce over IPv4, of a tracker that writes its numbers as u32 and each peer as four
  -- bytes and a port, is read as the tracker wrote it, with every peer in its order.
  pub parse_announce_response-reply :
      (tid interval leechers seeders : ℕ) (peers : List Peer4)
      → IsU32 tid
      → IsU32 interval
      → IsU32 leechers
      → IsU32 seeders
      → All (λ p. IsU16 p.port) peers
      → parse_announce_response from_utf8_lossy
          (announce_reply tid interval leechers seeders peers)
          tid
        ≡ ok (record {
          interval = interval;
          leechers = leechers;
          seeders = seeders;
          peers = map socket_addr peers;
        })
  unfolding parse_announce_response
  parse_announce_response-reply tid interval leechers seeders peers t i l s ports =
      let long : ltb (length (announce_reply tid interval leechers seeders peers)) 20 ≡ false =
        ground arith in
      let same : tid == tid ≡ true = ground arith in
      rw
        (
          long,
          from_be32-be32 tid t,
          same,
          from_be32-be32 interval i,
          from_be32-be32 leechers l,
          from_be32-be32 seeders s,
          parse-write_peers peers ports,
        )
        refl

  pub parse_connect_response-reply :
      (tid connection_id : ℕ)
      → IsU32 tid
      → IsU64 connection_id
      → parse_connect_response from_utf8_lossy (connect_reply tid connection_id) tid
        ≡ ok connection_id
  unfolding parse_connect_response
  parse_connect_response-reply tid connection_id t c =
      let same : tid == tid ≡ true = ground arith in
      let high = from_be32-be32 (connection_id / 2 ^ 32) (omega arith) in
      let low = from_be32-be32 (connection_id % 2 ^ 32) (omega arith) in
      let whole : connection_id / 2 ^ 32 * 2 ^ 32 + connection_id % 2 ^ 32 ≡ connection_id =
        omega arith in
      rw (from_be32-be32 tid t, same, high, low) (ap ok whole)

  -- An error that the tracker reports for an announce is passed on exactly where its message has at least
  -- 12 bytes, with the text that `from_utf8_lossy` makes of all of the message; a shorter one is taken for a
  -- reply that is too short.
  pub parse_announce_response-error :
      (tid : ℕ) (message : Bytes)
      → IsU32 tid
      → parse_announce_response from_utf8_lossy (error_reply tid message) tid ≡ (
          if ltb (length message) 12
          then err (protocol Fault.too_short)
          else err (tracker_error (from_utf8_lossy message)))
  unfolding parse_announce_response
  parse_announce_response-error tid message t =
      let same : tid == tid ≡ true = ground arith in
      elim (Bool-cases (ltb (length message) 12)) [
        | inl short ↦
            let e : ltb (length (error_reply tid message)) 20 ≡ true = ground arith in
            rw (short, e) refl
        | inr long ↦
            let e : ltb (length (error_reply tid message)) 20 ≡ false = ground arith in
            rw (long, e, from_be32-be32 tid t, same) refl
      ]
