-- ===== src/Discovery/Examples.antt =====
-- Runs of the exchange of peers, and its theorems at concrete inputs.
use xfer_rust.Common.{
  ◌++◌, List, length, ltb, if◌then◌else◌, replicate, ℕ, ◌≡◌, refl, arith, [], ◌∷◌,
}
use xfer_rust.Common.Run.{ok, err}
use xfer_rust.Discovery.Pex.{
  v4, v6, PeerAddr, PexPeer, PexMessage, encode_pex, decode_pex, parse_compact_peers,
  generate_message, new_peers, gone_from, has_addr, same_addr, same_ip,
}
use xfer_rust.Discovery.Pex.RoundTrip.{v4_peers, v4_addrs, decode_pex-encode_pex}
use xfer_rust.Discovery.Pex.Tracking.{SameMembers, addrs, exchange, exchange-SameMembers}
use xfer_rust.Common.Bytes.{Bytes}
use xfer_rust.Discovery.UdpTracker.{
  UdpAnnounceRequest, UdpEvent, Fault, protocol, tracker_error, build_connect_packet,
  build_announce_packet, parse_connect_response, parse_announce_response,
}
use xfer_rust.Discovery.UdpTracker.Replies.{
  Peer4, announce_reply, connect_reply, error_reply, parse_announce_response-reply,
  parse_announce_response-error,
}

abbrev at_port : ℕ → PexPeer
at_port port = record { addr = record { ip = v4 10 0 0 1; port = port }; flags = 4 }

abbrev elsewhere : PeerAddr
elsewhere = record { ip = v6 (32 ∷ 1 ∷ []); port = 6881 }

abbrev news : PexMessage
news = record {
  added = at_port 51413 ∷ record { addr = elsewhere; flags = 1 } ∷ at_port 6881 ∷ [];
  dropped = elsewhere ∷ [];
}

decode_pex-encode_pex_example :
    decode_pex (encode_pex news)
    ≡ ok (record { added = v4_peers news.added; dropped = v4_addrs news.dropped })
decode_pex-encode_pex_example =
    decode_pex-encode_pex news (omega arith, (omega arith, (omega arith, tt))) (omega arith, tt)
      (omega arith) (omega arith)

-- One peer left, one came, one stayed.
increment :
    (generate_message (at_port 2 ∷ at_port 3 ∷ []) (addrs (at_port 1 ∷ at_port 2 ∷ []))).0
    ≡ record { added = at_port 3 ∷ []; dropped = addrs (at_port 1 ∷ []) }
unfolding generate_message new_peers gone_from has_addr same_addr same_ip
increment = refl

exchange-SameMembers_example :
    SameMembers
      (exchange ((at_port 1 ∷ at_port 2 ∷ []) ∷ (at_port 2 ∷ at_port 3 ∷ []) ∷ []) [] []).1
      (addrs (at_port 2 ∷ at_port 3 ∷ []))
exchange-SameMembers_example =
    exchange-SameMembers ((at_port 1 ∷ at_port 2 ∷ []) ∷ []) (at_port 2 ∷ at_port 3 ∷ []) [] []
      (λ a. refl)

-- The conversion of a message that is ASCII already.
abbrev as_text : Bytes → Bytes
as_text message = message

abbrev two_peers : List Peer4
two_peers =
    record { a0 = 10; a1 = 0; a2 = 0; a3 = 1; port = 6881 }
    ∷ record { a0 = 192; a1 = 168; a2 = 1; a3 = 255; port = 51413 }
    ∷ []

parse_announce_response-reply_example :
    parse_announce_response as_text (announce_reply 7 1800 3 12 two_peers) 7
    ≡ ok (record {
      interval = 1800;
      leechers = 3;
      seeders = 12;
      peers =
          record { ip = v4 10 0 0 1; port = 6881 }
          ∷ record { ip = v4 192 168 1 255; port = 51413 }
          ∷ [];
    })
parse_announce_response-reply_example =
    parse_announce_response-reply as_text 7 1800 3 12 two_peers (omega arith) (omega arith)
      (omega arith) (omega arith) (omega arith, (omega arith, tt))

-- A tracker that is reached over IPv6 writes 18 bytes for a peer; they are read as three IPv4 peers.
one_peer_misread : length (parse_compact_peers (replicate 16 32 ++ 26 ∷ 225 ∷ [])) ≡ 3
unfolding parse_compact_peers
one_peer_misread = refl

-- `banned`.
abbrev banned : Bytes
banned = 98 ∷ 97 ∷ 110 ∷ 110 ∷ 101 ∷ 100 ∷ []

parse_announce_response-error_example : parse_announce_response as_text (error_reply 7 banned) 7 ≡ (
    if ltb (length banned) 12
    then err (protocol Fault.too_short)
    else err (tracker_error (as_text banned)))
parse_announce_response-error_example = parse_announce_response-error as_text 7 banned (omega arith)

message_lost :
    parse_announce_response as_text (error_reply 7 banned) 7 ≡ err (protocol Fault.too_short)
unfolding parse_announce_response
message_lost = refl

connected_to : parse_connect_response as_text (connect_reply 9 0x123456789a) 9 ≡ ok 0x123456789a
unfolding parse_connect_response
connected_to = refl

other_transaction_refused :
    parse_connect_response as_text (connect_reply 9 1) 8 ≡ err (protocol Fault.other_transaction)
unfolding parse_connect_response
other_transaction_refused = refl

abbrev request : UdpAnnounceRequest
request = record {
  info_hash = replicate 20 1;
  peer_id = replicate 20 2;
  port = 6881;
  uploaded = 0;
  downloaded = 0;
  left = 1000;
  event = UdpEvent.started;
  numwant = 50;
}

announce_size : length (build_announce_packet 1 2 3 request) ≡ 98
unfolding build_announce_packet
announce_size = refl

connect_size : length (build_connect_packet 5) ≡ 16
unfolding build_connect_packet
connect_size = refl
