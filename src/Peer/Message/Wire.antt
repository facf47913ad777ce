-- ===== src/Peer/Message/Wire.antt =====
-- The encoding of a message in `message.rs`: its length, and the parser on it.
use xfer_rust.Common.{
  ◌+◌, ℕ, ◌%◌, ◌^◌, ◌<◌, ◌≡◌, ◌⊎◌, inl, inr, refl, arith, [], ◌∷◌, length, none, some, Option-cases,
}
use xfer_rust.Common.Bytes.{Bytes, IsU16, IsU32, be32, from_be16-be16, from_be32-be32}
use xfer_rust.Common.Run.{ok}
use xfer_rust.Peer.Message.{
  payload_len, Message, id, body, encode, parse_body, parse_message, three_u32,
}

-- An id that stands for no message of its own, or for one whose payload is too short for it.
abbrev pub IsUnknown : ℕ → Bytes → Type 0
IsUnknown i payload =
    ((0x09 < i) × (i < 0x0d))
    ⊎ ((0x11 < i) × (i < 0x14))
    ⊎ (0x14 < i)
    ⊎ ((i ≡ 0x09) × (length payload < 2))
    ⊎ ((i ≡ 0x14) × (payload ≡ []))

-- The fields fit their widths.
abbrev pub IsMessage : Message → Type 0
IsMessage (Message.have i) = IsU32 i
IsMessage (Message.request index begin len) = IsU32 index × IsU32 begin × IsU32 len
IsMessage (Message.piece index begin block) = IsU32 index × IsU32 begin
IsMessage (Message.cancel index begin len) = IsU32 index × IsU32 begin × IsU32 len
IsMessage (Message.reject_request index begin len) = IsU32 index × IsU32 begin × IsU32 len
IsMessage (Message.allowed_fast index) = IsU32 index
IsMessage (Message.suggest_piece index) = IsU32 index
IsMessage (Message.port p) = IsU16 p
IsMessage (Message.unknown i payload) = IsUnknown i payload
IsMessage _ = Unit

-- The part of a message that the prefix counts.
unfoldable pub payload : Message → Bytes
payload m = elim (id m) [ none ↦ [] | some i ↦ i ∷ body m ]

three-be32 :
    (make : ℕ → ℕ → ℕ → Message) (index begin len : ℕ)
    → IsU32 index × IsU32 begin × IsU32 len
    → three_u32 make (be32 index (be32 begin (be32 len []))) ≡ ok (make index begin len)
three-be32 make index begin len (h, k, l) =
    rw (from_be32-be32 index h, from_be32-be32 begin k, from_be32-be32 len l)

parse_unknown : (i : ℕ) (bs : Bytes) → IsUnknown i bs → parse_body i bs ≡ ok (Message.unknown i bs)
unfolding parse_body
parse_unknown i bs (inl h) = ground arith
parse_unknown i bs (inr (inl h)) = ground arith
parse_unknown i bs (inr (inr (inl h))) = ground arith
parse_unknown i [] (inr (inr (inr (inl (e, h))))) = rw e refl
parse_unknown i (b ∷ []) (inr (inr (inr (inl (e, h))))) = rw e refl
parse_unknown i (b ∷ d ∷ bs) (inr (inr (inr (inl (e, h))))) = absurd (omega arith)
parse_unknown i bs (inr (inr (inr (inr (e, h))))) = rw (e, h) refl

-- The parser gives back the message whose id and body were written.
pub parse_message-payload : (m : Message) → IsMessage m → parse_message (payload m) ≡ ok m
unfolding payload id body parse_message parse_body
parse_message-payload Message.keep_alive h = refl
parse_message-payload Message.choke h = refl
parse_message-payload Message.unchoke h = refl
parse_message-payload Message.interested h = refl
parse_message-payload Message.not_interested h = refl
parse_message-payload (Message.have i) h = rw (from_be32-be32 i h)
parse_message-payload (Message.bitfield bf) h = refl
parse_message-payload (Message.request index begin len) h =
    three-be32 Message.request index begin len h
parse_message-payload (Message.piece index begin block) (h, k) =
    rw (from_be32-be32 index h, from_be32-be32 begin k)
parse_message-payload (Message.cancel index begin len) h =
    three-be32 Message.cancel index begin len h
parse_message-payload Message.have_all h = refl
parse_message-payload Message.have_none h = refl
parse_message-payload (Message.reject_request index begin len) h =
    three-be32 Message.reject_request index begin len h
parse_message-payload (Message.allowed_fast index) h = rw (from_be32-be32 index h)
parse_message-payload (Message.suggest_piece index) h = rw (from_be32-be32 index h)
parse_message-payload (Message.port p) h = rw (from_be16-be16 p h)
parse_message-payload (Message.extended ext_id bs) h = refl
parse_message-payload (Message.unknown i bs) h = parse_unknown i bs h

-- The encoding is the length and the payload.
pub encode-payload : (m : Message) → encode m ≡ be32 (length (payload m) % 2 ^ 32) (payload m)
unfolding encode payload
encode-payload m = elim (Option-cases (id m)) [
  | inl e ↦ rw (encode, payload, e) refl
  | inr (i, e) ↦ rw (encode, payload, e) refl
]

-- The length that `encode` reserves is enough for every message, and exact for all but `port`, for which
-- it is two bytes too many.
pub length-encode :
    (m : Message)
    → (length (encode m) ≡ 4 + payload_len m)
      ⊎ ((p : ℕ) × (m ≡ Message.port p) × (2 + length (encode m) ≡ 4 + payload_len m))
unfolding encode id body payload_len
length-encode (Message.port p) = inr (p, refl, refl)
length-encode Message.keep_alive = inl refl
length-encode Message.choke = inl refl
length-encode Message.unchoke = inl refl
length-encode Message.interested = inl refl
length-encode Message.not_interested = inl refl
length-encode (Message.have i) = inl refl
length-encode (Message.bitfield bf) = inl (omega arith)
length-encode (Message.request index begin len) = inl refl
length-encode (Message.piece index begin block) = inl (omega arith)
length-encode (Message.cancel index begin len) = inl refl
length-encode Message.have_all = inl refl
length-encode Message.have_none = inl refl
length-encode (Message.reject_request index begin len) = inl refl
length-encode (Message.allowed_fast index) = inl refl
length-encode (Message.suggest_piece index) = inl refl
length-encode (Message.extended ext_id bs) = inl (omega arith)
length-encode (Message.unknown i bs) = inl (omega arith)
