-- ===== src/Transport/Packet/Datagram.antt =====
-- `parse_packet` on whole datagrams.
use xfer_rust.Common.{ℕ, suc, ◌+◌, ◌≡◌, ◌≢◌, ◌↔◌, List, [], ◌++◌, arith, length}
use mathlib.Core.Path.{subst, sym}
use xfer_rust.Common.Bytes.{Bytes, IsBytes}
use xfer_rust.Common.Run.{>>=-eq-ok, >>=-ne-stuck, ok, stuck}
use xfer_rust.Transport.Packet.{
  PacketHeader, Extension, header_len, parse_header, parse_extensions, parse_packet, header_bytes,
}
use xfer_rust.Transport.Packet.Header.{
  IsHeader, parse_header-header_bytes, parse_header_sound, parse_header-ne-stuck,
}
use xfer_rust.Transport.Packet.Chain.{
  first_type, chain_bytes, IsChain, parse_extensions-chain_bytes, parse_extensions_sound,
  parse_extensions-ne-stuck, length-bytes,
}

-- Header, chain and payload, one behind the other.
abbrev pub wire : PacketHeader → List Extension → Bytes → Bytes
wire header es payload = header_bytes header ++ (chain_bytes es ++ payload)

pub parse_packet-wire :
    (header : PacketHeader) (es : List Extension) (payload : Bytes)
    → IsHeader header
    → IsChain es
    → header.extension ≡ first_type es
    → parse_packet (wire header es payload) ≡ ok (header, es, header_len + length (chain_bytes es))
unfolding parse_packet
parse_packet-wire header es payload h hs first =
    let body = chain_bytes es ++ payload in
    let walked =
      parse_extensions-chain_bytes es (suc (length body)) payload header_len [] hs
        (omega (arith, length-bytes (chain_bytes es) payload)) in
    rw (parse_header-header_bytes header body h) (rw (first, walked))

-- What `parse_packet` accepts is made of an accepted header and an accepted chain.
parse_packet-parts :
    (bytes : Bytes) (header : PacketHeader) (es : List Extension) (off : ℕ)
    → parse_packet bytes ≡ ok (header, es, off)
    → (rest : Bytes) × (parse_header bytes ≡ ok (header, rest))
      × (parse_extensions (suc (length rest)) rest header_len header.extension [] ≡ ok (es, off))
unfolding parse_packet
parse_packet-parts bytes header es off e =
    let ((header', rest), parsed, after) = >>=-eq-ok (parse_header bytes) _ e in
    let ((es', off'), walked, same) =
      >>=-eq-ok (parse_extensions (suc (length rest)) rest header_len header'.extension [])
        (λ (es', off'). ok (header', es', off')) after in
    (rest, ground (arith, parsed, same), ground (arith, walked, same))

pub parse_packet_sound :
    (bytes : Bytes) (header : PacketHeader) (es : List Extension) (off : ℕ)
    → IsBytes bytes
    → parse_packet bytes ≡ ok (header, es, off)
    → IsHeader header
      × IsChain es
      × (header.extension ≡ first_type es)
      × (off ≡ header_len + length (chain_bytes es))
      × ((payload : Bytes) × (bytes ≡ wire header es payload))
parse_packet_sound bytes header es off hb e =
    let (rest, parsed, walked) = parse_packet-parts bytes header es off e in
    let (proper, whole, rest_bytes) = parse_header_sound bytes header rest hb parsed in
    let (es', payload, same, split, moved, first, chain) =
      parse_extensions_sound (suc (length rest)) rest header_len header.extension [] es off
        rest_bytes proper.extension_fits walked in
    let same' : es' ≡ es = sym same in
    (
      proper,
      subst IsChain same' chain,
      ground (arith, same'),
      ground (arith, same'),
      (payload, rw whole (rw split (rw same'))),
    )

-- The walk over the extensions ends on every datagram.
pub parse_packet-ne-stuck : (bytes : Bytes) → parse_packet bytes ≢ stuck
unfolding parse_packet
parse_packet-ne-stuck bytes =
    >>=-ne-stuck (parse_header bytes) _ (parse_header-ne-stuck bytes) λ (header, rest) _.
      >>=-ne-stuck (parse_extensions (suc (length rest)) rest header_len header.extension []) _
        (parse_extensions-ne-stuck (suc (length rest)) rest header_len header.extension []
          (omega arith))
        (λ (es, off) _ e. cc)

-- A datagram is accepted with a header, a list of extensions and an offset exactly when it is that
-- header of version 1 in wire form, then the chain of those extensions, then a payload that starts
-- at the offset.
pub parse_packet_iff :
    (bytes : Bytes) (header : PacketHeader) (es : List Extension) (off : ℕ)
    → IsBytes bytes
    → (parse_packet bytes ≡ ok (header, es, off)) ↔ (
        IsHeader header
        × IsChain es
        × (header.extension ≡ first_type es)
        × (off ≡ header_len + length (chain_bytes es))
        × ((payload : Bytes) × (bytes ≡ wire header es payload)))
parse_packet_iff bytes header es off hb = (
  parse_packet_sound bytes header es off hb,
  λ (proper, chain, first, at_end, (payload, whole)).
      rw (whole, at_end) (parse_packet-wire header es payload proper chain first),
)
