-- ===== src/Transport/Connection/Sending.antt =====
-- The sending side of `utp_connection.rs`: segmentation of the pending bytes, numbers, and flow control.
use xfer_rust.Common.{
  ℕ, zero, suc, ◌+◌, ◌%◌, ◌^◌, ◌≤◌, ◌<◌, min, ◌≡◌, ◌⊎◌, refl, sym, ap, ◌∙◌, true, false, List, [],
  ◌∷◌, ◌++◌, append-nil, append_assoc, arith, leb→le, length, take, take-append-drop, length-take,
  length-drop, Bool-cases, inl, inr,
}
use mathlib.Core.Path.{subst}
use xfer_rust.Common.Bytes.{Bytes}
use xfer_rust.Transport.Packet.{wrapping_add16}
use xfer_rust.Transport.Connection.State.{UtpConnection, OutPacket, is_empty_bytes}
use xfer_rust.Transport.Connection.Output.{queue_data_packet}
use xfer_rust.Transport.Connection.Congestion.{can_send_data}
use xfer_rust.Transport.Connection.Tick.{send_chunk, flush_pending}

-- Bytes on the way, and the bytes that a queue carries.
abbrev pub total : List OutPacket → ℕ
total [] = 0
total (p ∷ queue) = p.size + total queue

abbrev pub payloads : List OutPacket → Bytes
payloads [] = []
payloads (p ∷ queue) = p.payload ++ payloads queue

-- `cur_window` is the number of bytes in the send queue, far from the end of a u32.
pub record InFlight (c : UtpConnection) : Type 0 where
  pub counted : c.cur_window ≡ total c.send_queue
  pub bounded : c.cur_window < 2 ^ 31

-- The packets carry the numbers `seq`, `seq + 1` and so on, at most `limit` bytes and at least one
-- each, their size is that of their payload, and none of them is a retransmission.
abbrev pub Numbered : ℕ → ℕ → List OutPacket → Type 0
Numbered limit seq [] = Unit
Numbered limit seq (p ∷ queue) =
    (p.seq ≡ seq)
    × (p.size ≡ length p.payload)
    × (0 < p.size)
    × (p.size ≤ limit)
    × (p.retransmits ≡ 0)
    × Numbered limit (wrapping_add16 seq 1) queue

abbrev pub after_numbers : ℕ → List OutPacket → ℕ
after_numbers seq [] = seq
after_numbers seq (p ∷ queue) = after_numbers (wrapping_add16 seq 1) queue

-- What a flush does from `c` to `d`: it cuts a front of the pending bytes into packets.
pub record Flushes (c d : UtpConnection) : Type 0 where
  pub sent : List OutPacket
  pub queued : d.send_queue ≡ c.send_queue ++ sent
  pub carried : payloads sent ++ d.pending_send ≡ c.pending_send
  pub numbered : Numbered c.packet_size c.seq sent
  pub next_seq : d.seq ≡ after_numbers c.seq sent
  pub in_flight : InFlight d
  pub within : (d.cur_window ≡ c.cur_window) ⊎ (d.cur_window ≤ min c.max_window c.peer_wnd)
  pub ends : (d.pending_send ≡ []) ⊎ ((can_send_data d ≡ false) × (d.want_write ≡ true))

total-append : (q r : List OutPacket) → total (q ++ r) ≡ total q + total r
total-append [] r = omega arith
total-append (p ∷ q) r = omega (arith, total-append q r)

nonempty : (bs : Bytes) → is_empty_bytes bs ≡ false → 0 < length bs
unfolding is_empty_bytes
nonempty [] h = cc
nonempty (b ∷ bs) h = omega arith

empty : (bs : Bytes) → is_empty_bytes bs ≡ true → bs ≡ []
unfolding is_empty_bytes
empty [] h = refl
empty (b ∷ bs) h = cc

length-nil : (bs : Bytes) → length bs ≤ 0 → bs ≡ []
length-nil [] h = refl
length-nil (b ∷ bs) h = absurd (omega arith)

can_send_data-shut :
    (c : UtpConnection)
    → can_send_data c ≡ false
    → can_send_data (record c { want_write = true }) ≡ false
unfolding can_send_data
can_send_data-shut c h = h

-- One round of the flush: the packet `op` from the front of the pending bytes.
record Sends (op : OutPacket) (c d : UtpConnection) : Type 0 where
  queued : d.send_queue ≡ c.send_queue ++ op ∷ []
  carried : op.payload ++ d.pending_send ≡ c.pending_send
  numbered : Numbered c.packet_size c.seq (op ∷ [])
  next_seq : d.seq ≡ wrapping_add16 c.seq 1
  windows :
      (d.packet_size ≡ c.packet_size) × (d.max_window ≡ c.max_window) × (d.peer_wnd ≡ c.peer_wnd)
  in_flight : InFlight d
  within : d.cur_window ≤ min c.max_window c.peer_wnd
  shorter : length d.pending_send < length c.pending_send

module _ (now_micros : ℕ → ℕ) where
  -- The packet that a round sends.
  abbrev chunk_of : ℕ → UtpConnection → OutPacket
  chunk_of now c =
      let payload = take (min (length c.pending_send) c.packet_size) c.pending_send in
      record {
        payload = payload;
        seq = c.seq;
        send_time = now;
        size = length payload % 2 ^ 32;
        retransmits = 0;
      }

  send_chunk-Sends :
      (now : ℕ) (c : UtpConnection)
      → 0 < length c.pending_send
      → 0 < c.packet_size
      → c.packet_size ≤ 2 ^ 20
      → c.max_window < 2 ^ 31
      → can_send_data c ≡ true
      → InFlight c
      → Sends (chunk_of now c) c (send_chunk now_micros now c)
  unfolding send_chunk queue_data_packet can_send_data
  send_chunk-Sends now c some_left pos small window go h =
      let chunk = min (length c.pending_send) c.packet_size in
      let room = leb→le _ _ go in
      let taken = length-take chunk c.pending_send in
      let counted = h.counted in
      let bounded = h.bounded in
      record {
        queued = refl;
        carried = take-append-drop chunk c.pending_send;
        numbered = omega (arith, taken);
        next_seq = refl;
        windows = (refl, refl, refl);
        in_flight = record {
          counted = omega (arith, taken, total-append c.send_queue (chunk_of now c ∷ []));
          bounded = omega (arith, taken);
        };
        within = omega (arith, taken);
        shorter = omega (arith, length-drop chunk c.pending_send);
      }

  append_flush : {c d e : UtpConnection} (op : OutPacket) → Sends op c d → Flushes d e → Flushes c e
  append_flush {c} {d} {e} op step rest =
      let (at_seq, sized, some_bytes, limited, first_time, _) = step.numbered in
      let (same_size, same_max, same_peer) = step.windows in
      let numbered' : Numbered c.packet_size d.seq rest.sent =
        subst (λ n. Numbered n d.seq rest.sent) same_size rest.numbered in
      let joined : Numbered c.packet_size c.seq (op ∷ rest.sent) = (
        at_seq,
        sized,
        some_bytes,
        limited,
        first_time,
        subst (λ n. Numbered c.packet_size n rest.sent) step.next_seq numbered',
      ) in
      record {
        sent = op ∷ rest.sent;
        queued =
            rest.queued
            ∙ ap (λ q. q ++ rest.sent) step.queued
            ∙ append_assoc c.send_queue (op ∷ []) rest.sent;
        carried =
            append_assoc op.payload (payloads rest.sent) e.pending_send
            ∙ ap (λ t. op.payload ++ t) rest.carried
            ∙ step.carried;
        numbered = joined;
        next_seq = rest.next_seq ∙ ap (λ q. after_numbers q rest.sent) step.next_seq;
        in_flight = rest.in_flight;
        within = inr (omega arith);
        ends = rest.ends;
      }

  -- A flush from a connection that counts its bytes in flight, with a congestion window below
  -- 2 GiB, a packet size of 1 to 2^20 and a unit of fuel for each pending byte: it appends packets that carry, cut from the
  -- front, what is missing from the pending bytes, numbered without a gap from `seq` on; the count of bytes in
  -- flight stays exact and within both windows if it grew; and it ends with nothing pending or with both
  -- windows full and `want_write` set.
  pub flush_pending-Flushes :
      (fuel now : ℕ) (c : UtpConnection)
      → length c.pending_send ≤ fuel
      → 0 < c.packet_size
      → c.packet_size ≤ 2 ^ 20
      → c.max_window < 2 ^ 31
      → InFlight c
      → Flushes c (flush_pending now_micros fuel now c)
  unfolding flush_pending
  flush_pending-Flushes zero now c enough pos small window h = record {
    sent = [];
    queued = sym (append-nil c.send_queue);
    carried = refl;
    numbered = tt;
    next_seq = refl;
    in_flight = h;
    within = inl refl;
    ends = inl (length-nil c.pending_send enough);
  }
  flush_pending-Flushes (suc fuel) now c enough pos small window h =
      elim (Bool-cases (is_empty_bytes c.pending_send)) [
        | inl none_left ↦ rw none_left (record {
          sent = [];
          queued = sym (append-nil c.send_queue);
          carried = refl;
          numbered = tt;
          next_seq = refl;
          in_flight = h;
          within = inl refl;
          ends = inl (empty c.pending_send none_left);
        })
        | inr some_left ↦ rw some_left (elim (Bool-cases (can_send_data c)) [
          | inr shut ↦ rw shut (record {
            sent = [];
            queued = sym (append-nil c.send_queue);
            carried = refl;
            numbered = tt;
            next_seq = refl;
            in_flight = record { counted = h.counted; bounded = h.bounded };
            within = inl refl;
            ends = inr (can_send_data-shut c shut, refl);
          })
          | inl go ↦
              let next = send_chunk now_micros now c in
              let op = chunk_of now c in
              let step =
                send_chunk-Sends now c (nonempty c.pending_send some_left) pos small window go h in
              let shorter = step.shorter in
              let (same_size, same_max, same_peer) = step.windows in
              let rest =
                flush_pending-Flushes fuel now next (omega arith) (omega arith) (omega arith)
                  (omega arith) step.in_flight in
              rw go (append_flush op step rest)
        ])
      ]
