-- ===== src/Peer/Message/Reader.antt =====
-- The reader of `message.rs` on a stream that arrives in pieces.
use xfer_rust.Common.{
  ℕ, ◌+◌, ◌-◌, ◌*◌, ◌%◌, ◌^◌, ◌≤◌, ◌<◌, ◌≡◌, refl, sym, ap, ◌∙◌, arith, List, [], ◌∷◌, ◌++◌,
  append_assoc, length, length-append, All, take, drop, length-drop, drop-drop, ltb, Bool-cases,
  false, inl, inr, some,
}
use xfer_rust.Common.Bytes.{Bytes, IsU32, be32, from_be32-be32}
use xfer_rust.Common.Run.{ok}
use xfer_rust.Peer.Message.{
  Message, encode, prefix, fill_until, take_message, read_rest, read_body, read_message,
}
use xfer_rust.Peer.Message.Wire.{IsMessage, payload, parse_message-payload, encode-payload}

abbrev pub concat : List Bytes → Bytes
concat [] = []
concat (r ∷ reads) = r ++ concat reads

-- A read that gave some bytes.
abbrev pub IsNonempty : Bytes → Type 0
IsNonempty r = 0 < length r

-- `n` bytes are gathered and none is lost.
pub record Fills (n : ℕ) (stream : Bytes) (filled : Bytes × List Bytes) : Type 0 where
  pub enough : n ≤ length filled.0
  pub same : filled.0 ++ concat filled.1 ≡ stream
  pub alive : All IsNonempty filled.1

pub fill_until-Fills :
    (n : ℕ) (buf : Bytes) (reads : List Bytes)
    → All IsNonempty reads
    → n ≤ length (buf ++ concat reads)
    → Fills n (buf ++ concat reads) (fill_until n buf reads)
unfolding fill_until
fill_until-Fills n buf [] h e = record {
  enough = omega (arith, length-append buf []);
  same = refl;
  alive = tt;
}
fill_until-Fills n buf ([] ∷ reads) (h, hs) e = absurd (omega arith)
fill_until-Fills n buf ((b ∷ bs) ∷ reads) (h, hs) e =
    let joined = append_assoc buf (b ∷ bs) (concat reads) in
    let more = fill_until-Fills n (buf ++ b ∷ bs) reads hs (omega (arith, ap length joined)) in
    elim (Bool-cases (ltb (length buf) n)) [
      | inl e ↦
          rw e (record { enough = more.enough; same = more.same ∙ joined; alive = more.alive })
      | inr e ↦ rw e (record { enough = ground arith; same = refl; alive = (h, hs) })
    ]

-- Where a list starts with `p`, so does its longer front.
pub split_front :
    (p b t r : Bytes)
    → b ++ t ≡ p ++ r
    → length p ≤ length b
    → (take (length p) b ≡ p) × (drop (length p) b ++ t ≡ r)
split_front [] b t r e h = (refl, e)
split_front (x ∷ p) [] t r e h = absurd (omega arith)
split_front (x ∷ p) (y ∷ b) t r e h =
    let rest : b ++ t ≡ p ++ r = cc e in
    let (front, back) = split_front p b t r rest (omega arith) in (cc (e, front), back)

prefix-front :
    (b t : Bytes) (v : ℕ) (p : Bytes) → IsU32 v → 4 ≤ length b → b ++ t ≡ be32 v p → prefix b ≡ v
prefix-front (x ∷ y ∷ z ∷ w ∷ b) t v p fits h e = cc (from_be32-be32 v fits, e)
prefix-front [] t v p fits h e = absurd (omega arith)
prefix-front (x ∷ []) t v p fits h e = absurd (omega arith)
prefix-front (x ∷ y ∷ []) t v p fits h e = absurd (omega arith)
prefix-front (x ∷ y ∷ z ∷ []) t v p fits h e = absurd (omega arith)

-- A message that the buffer holds whole is parsed, and the bytes behind it stay.
take_message-encode :
    (m : Message) (buf : Bytes) (reads : List Bytes) (rest : Bytes)
    → IsMessage m
    → IsU32 (length (payload m))
    → 4 + length (payload m) ≤ length buf
    → buf ++ concat reads ≡ be32 (length (payload m)) (payload m) ++ rest
    → (left : Bytes) × (take_message (4 + length (payload m)) buf reads ≡ ok (some m, left, reads))
      × (left ++ concat reads ≡ rest)
unfolding take_message
take_message-encode m buf reads rest fits short whole e =
    let p = payload m in
    let (_, behind) =
      split_front (be32 (length p) []) buf (concat reads) (p ++ rest) e (omega arith) in
    let (front, back) =
      split_front p (drop 4 buf) (concat reads) rest behind (omega (arith, length-drop 4 buf)) in
    let n : 4 + length p - 4 ≡ length p = omega arith in
    (
      drop (4 + length p) buf,
      rw (n, front, parse_message-payload m fits) refl,
      ap (λ t. t ++ concat reads) (sym (drop-drop (length p) 4 buf)) ∙ back,
    )

read_body-encode :
    (m : Message) (buf : Bytes) (reads : List Bytes) (rest : Bytes)
    → IsMessage m
    → length (payload m) ≤ 2 * 1024 * 1024
    → 4 ≤ length buf
    → All IsNonempty reads
    → buf ++ concat reads ≡ be32 (length (payload m)) (payload m) ++ rest
    → (left : Bytes) × (later : List Bytes) × (read_body buf reads ≡ ok (some m, left, later))
      × (left ++ concat later ≡ rest)
unfolding read_body read_rest
read_body-encode m buf reads rest fits short head alive e =
    let p = payload m in
    let len = prefix-front buf (concat reads) (length p) (p ++ rest) (omega arith) head e in
    let long : length (buf ++ concat reads) ≡ 4 + (length p + length rest) =
      ap length e ∙ omega (arith, length-append p rest) in
    let f = fill_until-Fills (4 + length p) buf reads alive (omega (arith, long)) in
    let filled = fill_until (4 + length p) buf reads in
    let (left, taken, kept) =
      take_message-encode m filled.0 filled.1 rest fits (omega arith) f.enough (f.same ∙ e) in
    let allowed : ltb (2 * 1024 * 1024) (length p) ≡ false = ground arith in
    let enough : ltb (length filled.0) (4 + length p) ≡ false = ground (arith, f.enough) in
    let runs : read_rest (length p) filled ≡ ok (some m, left, filled.1) =
      rw (allowed, enough) taken in
    (left, filled.1, ap (λ n. read_rest n (fill_until (4 + n) buf reads)) len ∙ runs, kept)

-- Whatever the reads that bring it, as long as none is empty, a message whose fields fit and whose
-- payload is at most 2 MiB is read back from its encoding, also where a part of it was buffered
-- before, and the bytes behind it stay for the next call.
pub read_message-encode :
    (m : Message) (buf : Bytes) (reads : List Bytes) (rest : Bytes)
    → IsMessage m
    → length (payload m) ≤ 2 * 1024 * 1024
    → All IsNonempty reads
    → buf ++ concat reads ≡ encode m ++ rest
    → (left : Bytes) × (later : List Bytes) × (read_message buf reads ≡ ok (some m, left, later))
      × (left ++ concat later ≡ rest)
unfolding read_message
read_message-encode m buf reads rest fits short alive e =
    let p = payload m in
    let word : length p % 2 ^ 32 ≡ length p = omega arith in
    let written : encode m ≡ be32 (length p) p = encode-payload m ∙ ap (λ n. be32 n p) word in
    let there : buf ++ concat reads ≡ be32 (length p) p ++ rest = e ∙ ap (λ t. t ++ rest) written in
    let long : length (buf ++ concat reads) ≡ 4 + length (p ++ rest) =
      ap length there ∙ omega arith in
    let f = fill_until-Fills 4 buf reads alive (omega (arith, long)) in
    let filled = fill_until 4 buf reads in
    let enough : ltb (length filled.0) 4 ≡ false = ground (arith, f.enough) in
    let (left, later, runs, kept) =
      read_body-encode m filled.0 filled.1 rest fits short f.enough f.alive (f.same ∙ there) in
    (left, later, rw enough runs, kept)
