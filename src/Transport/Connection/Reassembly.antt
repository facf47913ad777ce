-- ===== src/Transport/Connection/Reassembly.antt =====
-- The receiving side of `utp_connection.rs`: what `on_data` hands to the reader.
use xfer_rust.Common.{
  ℕ, zero, suc, ◌<◌, ◌≡◌, ◌≢◌, ◌⊎◌, refl, sym, ap, ◌∙◌, true, false, ◌||◌, List, [], ◌∷◌, ◌++◌,
  append-nil, append_assoc, arith, ◌==◌, if◌then◌else◌, length, Bool-cases, inl, inr,
}
use xfer_rust.Common.Bytes.{Bytes, IsU16}
use xfer_rust.Common.BTree
use xfer_rust.Transport.Packet.{seq_leq, wrapping_add16}
use xfer_rust.Transport.Connection.State.{UtpConnection, InPacket, is_empty_bytes}
use xfer_rust.Transport.Connection.Receive.{sub32, drain_reorder, deliver, buffer_packet, on_data}

-- `stream s` is the payload that the peer sends under the number `s`: every buffered packet holds its own.
abbrev pub Agrees : (ℕ → Bytes) → List (ℕ × InPacket) → Type 0
Agrees stream [] = Unit
Agrees stream ((s, p) ∷ m) = (p.payload ≡ stream s) × Agrees stream m

-- The number `n` places after `ack`, and the payloads of the numbers on the way.
abbrev pub advance : ℕ → ℕ → ℕ
advance ack zero = ack
advance ack (suc n) = advance (wrapping_add16 ack 1) n

abbrev pub segment : (ℕ → Bytes) → ℕ → ℕ → Bytes
segment stream ack zero = []
segment stream ack (suc n) =
    stream (wrapping_add16 ack 1) ++ segment stream (wrapping_add16 ack 1) n

-- From `c` to `d` the next `n` payloads of the stream were delivered.
pub record Delivers (stream : ℕ → Bytes) (c d : UtpConnection) : Type 0 where
  pub count : ℕ
  pub reaches : d.ack ≡ advance c.ack count
  pub appends : d.recv_out ≡ c.recv_out ++ segment stream c.ack count
  pub agrees : Agrees stream d.recv_reorder

-- The four branches of `on_data`.
module _ (s : ℕ) (payload : Bytes) (now : ℕ) (c : UtpConnection) where
  pub on_data-old :
      is_empty_bytes payload || seq_leq s c.ack ≡ true
      → on_data s payload now c ≡ record c { ack_pending = true }
  unfolding on_data
  on_data-old h = elim (Bool-cases (is_empty_bytes payload)) [
    | inl e ↦ rw e
    | inr e ↦ rw (e, (rw e at h))
  ]

  pub on_data-taken :
      is_empty_bytes payload || seq_leq s c.ack ≡ false
      → on_data s payload now c ≡ (
          let asked = record c { ack_pending = true } in
          record (if s == wrapping_add16 c.ack 1
            then deliver s payload asked
            else buffer_packet s payload now asked) { want_read = true })
  unfolding on_data
  on_data-taken h = elim (Bool-cases (is_empty_bytes payload)) [
    | inl e ↦ cc (rw e at h)
    | inr e ↦ rw (e, (rw e at h))
  ]

module _ (stream : ℕ → Bytes) where
  Agrees-insert :
      (k : ℕ) (p : InPacket) (m : List (ℕ × InPacket))
      → p.payload ≡ stream k
      → Agrees stream m
      → Agrees stream (BTree.insert k p m)
  Agrees-insert k p [] h a = (h, tt)
  Agrees-insert k p ((j, w) ∷ m) h (a, b) = ground (arith, Agrees-insert k p m h b)

  Agrees-remove :
      (k : ℕ) (m : List (ℕ × InPacket)) → Agrees stream m → Agrees stream (BTree.remove k m)
  Agrees-remove k [] a = tt
  Agrees-remove k ((j, w) ∷ m) (a, b) = ground (arith, Agrees-remove k m b)

  drain_reorder-Delivers :
      (m : List (ℕ × InPacket)) (c : UtpConnection)
      → Agrees stream m
      → Delivers stream c (drain_reorder m c)
  unfolding drain_reorder
  drain_reorder-Delivers [] c a = record {
    count = 0;
    reaches = refl;
    appends = sym (append-nil c.recv_out);
    agrees = tt;
  }
  drain_reorder-Delivers ((k, p) ∷ m) c (a, b) =
      let next = record c {
        ack = k;
        recv_out = c.recv_out ++ p.payload;
        recv_buffered = sub32 c.recv_buffered (length p.payload);
      } in
      let rest = drain_reorder-Delivers m next b in
      elim (Bool-cases (k == wrapping_add16 c.ack 1)) [
        | inl e ↦
            let same : k ≡ wrapping_add16 c.ack 1 = ground arith in
            rw e record {
              count = suc rest.count;
              reaches = rest.reaches ∙ ap (λ t. advance t rest.count) same;
              appends = cc (
                rest.appends,
                a,
                same,
                append_assoc c.recv_out p.payload (segment stream k rest.count),
              );
              agrees = rest.agrees;
            }
        | inr e ↦ rw e record {
          count = 0;
          reaches = refl;
          appends = sym (append-nil c.recv_out);
          agrees = (a, b);
        }
      ]

  deliver-Delivers :
      (s : ℕ) (payload : Bytes) (c : UtpConnection)
      → s ≡ wrapping_add16 c.ack 1
      → payload ≡ stream s
      → Agrees stream c.recv_reorder
      → (d : Delivers stream c (deliver s payload c)) × (0 < d.count)
  unfolding deliver
  deliver-Delivers s payload c next own a =
      let taken = record c { ack = s; recv_out = c.recv_out ++ payload } in
      let rest = drain_reorder-Delivers c.recv_reorder taken a in
      (
        record {
          count = suc rest.count;
          reaches = rest.reaches ∙ ap (λ t. advance t rest.count) next;
          appends = cc (
            rest.appends,
            own,
            next,
            append_assoc c.recv_out payload (segment stream s rest.count),
          );
          agrees = rest.agrees;
        },
        omega arith,
      )

  buffer_packet-Agrees :
      (s : ℕ) (payload : Bytes) (now : ℕ) (c : UtpConnection)
      → payload ≡ stream s
      → Agrees stream c.recv_reorder
      → Agrees stream (buffer_packet s payload now c).recv_reorder
        × ((buffer_packet s payload now c).ack ≡ c.ack)
        × ((buffer_packet s payload now c).recv_out ≡ c.recv_out)
  unfolding buffer_packet
  buffer_packet-Agrees s payload now c own a =
      let p : InPacket = record { payload = payload; received_at = now } in
      ground (
        arith,
        Agrees-insert s p (BTree.remove s c.recv_reorder) own (Agrees-remove s c.recv_reorder a),
      )

  nothing :
      (c d : UtpConnection)
      → d.ack ≡ c.ack
      → d.recv_out ≡ c.recv_out
      → Agrees stream d.recv_reorder
      → Delivers stream c d
  nothing c d e o a = record {
    count = 0;
    reaches = e;
    appends = o ∙ sym (append-nil c.recv_out);
    agrees = a;
  }

  -- What `on_data` passes over as old is no packet with data under the next number.
  not_old :
      {A : Type 0} (s : ℕ) (payload : Bytes) (c : UtpConnection)
      → IsU16 c.ack
      → is_empty_bytes payload || seq_leq s c.ack ≡ true
      → (s ≢ wrapping_add16 c.ack 1) ⊎ (payload ≡ []) ⊎ A
  unfolding is_empty_bytes seq_leq
  not_old s [] c fits old = inr (inl refl)
  not_old s (b ∷ bs) c fits old = inl (ground arith)

  taken_Delivers :
      (s : ℕ) (payload : Bytes) (now : ℕ) (c : UtpConnection)
      → payload ≡ stream s
      → Agrees stream c.recv_reorder
      → let asked = record c { ack_pending = true } in
        let taken =
          if s == wrapping_add16 c.ack 1
          then deliver s payload asked
          else buffer_packet s payload now asked in
        (d : Delivers stream c (record taken { want_read = true })) × ((s ≢ wrapping_add16 c.ack 1)
          ⊎ (payload ≡ [])
          ⊎ (0 < d.count))
  taken_Delivers s payload now c own a =
      let asked = record c { ack_pending = true } in
      elim (Bool-cases (s == wrapping_add16 c.ack 1)) [
        | inl e ↦
            let (d, progress) = deliver-Delivers s payload asked (ground arith) own a in
            rw e (
              record {
                count = d.count;
                reaches = d.reaches;
                appends = d.appends;
                agrees = d.agrees;
              },
              inr (inr progress),
            )
        | inr e ↦
            let (agrees, same_ack, same_out) = buffer_packet-Agrees s payload now asked own a in
            rw e (nothing c _ same_ack same_out agrees, inl (ground arith))
      ]

  -- If the arriving packet and every buffered one carry the peer's payload of their number, then
  -- what `on_data` appends for the reader is exactly the peer's payloads of the numbers from
  -- `ack + 1` up to the new `ack`, in order, with nothing skipped or repeated, and the buffered
  -- packets are still the peer's. A packet with data that carries the number `ack + 1` is delivered.
  pub on_data-Delivers :
      (s : ℕ) (payload : Bytes) (now : ℕ) (c : UtpConnection)
      → IsU16 c.ack
      → payload ≡ stream s
      → Agrees stream c.recv_reorder
      → (d : Delivers stream c (on_data s payload now c)) × ((s ≢ wrapping_add16 c.ack 1)
          ⊎ (payload ≡ [])
          ⊎ (0 < d.count))
  on_data-Delivers s payload now c fits own a =
      elim (Bool-cases (is_empty_bytes payload || seq_leq s c.ack)) [
        | inl old ↦
            rw (on_data-old s payload now c old)
              (nothing c _ refl refl a, not_old s payload c fits old)
        | inr new ↦ rw (on_data-taken s payload now c new) (taken_Delivers s payload now c own a)
      ]
