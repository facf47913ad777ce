-- ===== src/Peer/Handshake/RoundTrip.antt =====
-- The handshake of `message.rs` read from a stream that arrives in pieces.
use xfer_rust.Common.{
  ◌≡◌, refl, sym, ap, ◌∙◌, arith, false, none, some, List, ◌++◌, append_assoc, ltb, length,
  length-append, take, drop, take-append, drop-append, take-append-drop, All,
}
use xfer_rust.Common.Bytes.{Bytes}
use xfer_rust.Common.Run.{ok}
use xfer_rust.Peer.Message.{fill_until}
use xfer_rust.Peer.Message.Reader.{concat, IsNonempty, fill_until-Fills, split_front}
use xfer_rust.Peer.Handshake.{
  own_reserved, encode_handshake, fields, finish_handshake, read_handshake,
}

module _ (info_hash peer_id : Bytes) (hash_fits : length info_hash ≡ 20)
    (id_fits : length peer_id ≡ 20) where
  length-encode_handshake : length (encode_handshake info_hash peer_id) ≡ 68
  unfolding encode_handshake
  length-encode_handshake = omega (arith, length-append info_hash peer_id, hash_fits, id_fits)

  fields-encode_handshake :
      (rest : Bytes)
      → fields (encode_handshake info_hash peer_id ++ rest)
        ≡ ok (record { info_hash = info_hash; peer_id = peer_id; reserved = own_reserved })
  unfolding encode_handshake fields
  fields-encode_handshake rest =
      let joined = append_assoc info_hash peer_id rest in
      let hash : take 20 ((info_hash ++ peer_id) ++ rest) ≡ info_hash =
        ap (take 20) joined
        ∙ ap (λ n. take n (info_hash ++ (peer_id ++ rest))) (sym hash_fits)
        ∙ take-append info_hash (peer_id ++ rest) in
      let behind : drop 20 ((info_hash ++ peer_id) ++ rest) ≡ peer_id ++ rest =
        ap (drop 20) joined
        ∙ ap (λ n. drop n (info_hash ++ (peer_id ++ rest))) (sym hash_fits)
        ∙ drop-append info_hash (peer_id ++ rest) in
      let id : take 20 (drop 20 ((info_hash ++ peer_id) ++ rest)) ≡ peer_id =
        ap (take 20) behind
        ∙ ap (λ n. take n (peer_id ++ rest)) (sym id_fits)
        ∙ take-append peer_id rest in
      ap
        (λ h. ok (record {
          info_hash = h;
          peer_id = take 20 (drop 20 ((info_hash ++ peer_id) ++ rest));
          reserved = own_reserved;
        }))
        hash
      ∙ ap (λ p. ok (record { info_hash = info_hash; peer_id = p; reserved = own_reserved })) id

-- Whatever the reads that bring it, as long as none is empty, a fresh reader reads the handshake that
-- `encode_handshake` makes of a 20-byte hash and a 20-byte id, with the reserved bytes of this program,
-- and the bytes behind it stay for the messages.
pub read_handshake-encode_handshake :
    (info_hash peer_id buf : Bytes) (reads : List Bytes) (rest : Bytes)
    → length info_hash ≡ 20
    → length peer_id ≡ 20
    → All IsNonempty reads
    → buf ++ concat reads ≡ encode_handshake info_hash peer_id ++ rest
    → (left : Bytes) × (later : List Bytes) × (read_handshake none buf reads
        ≡ ok (
          some (record { info_hash = info_hash; peer_id = peer_id; reserved = own_reserved }),
          left,
          later,
        ))
      × (left ++ concat later ≡ rest)
unfolding read_handshake finish_handshake
read_handshake-encode_handshake info_hash peer_id buf reads rest hash_fits id_fits alive e =
    let hs = encode_handshake info_hash peer_id in
    let size : length hs ≡ 68 = length-encode_handshake info_hash peer_id hash_fits id_fits in
    let long = ap length e ∙ length-append hs rest in
    let f = fill_until-Fills 68 buf reads alive (omega (arith, long, size)) in
    let filled = fill_until 68 buf reads in
    let (front, back) =
      split_front hs filled.0 (concat filled.1) rest (f.same ∙ e) (omega (arith, size, f.enough)) in
    let whole : filled.0 ≡ hs ++ drop (length hs) filled.0 =
      sym (take-append-drop (length hs) filled.0)
      ∙ ap (λ t. t ++ drop (length hs) filled.0) front in
    let parsed =
      ap fields whole
      ∙ fields-encode_handshake info_hash peer_id hash_fits id_fits (drop (length hs) filled.0) in
    let enough : ltb (length filled.0) 68 ≡ false = ground (arith, f.enough) in
    (
      drop 68 filled.0,
      filled.1,
      rw (enough, parsed) refl,
      ap (λ n. drop n filled.0 ++ concat filled.1) (sym size) ∙ back,
    )
