-- ===== src/Transport/Connection/Life.antt =====
-- The life cycle of `utp_connection.rs`: the timer-driven half, and whole runs of a connection.
use xfer_rust.Common.{
  not, ℕ, zero, suc, ◌≤◌, ◌≡◌, ◌⊎◌, inl, inr, refl, Bool, true, false, List, [], ◌∷◌, arith, length,
  Bool-cases,
}
use xfer_rust.Common.Bytes.{Bytes}
use xfer_rust.Transport.Connection.State.{
  UtpConnection, UtpState, InPacket, OutPacket, rto_min, rto_max, initial, same_state,
}
use xfer_rust.Transport.Connection.State
use xfer_rust.Transport.Connection.Output.{
  queue_control, send_ack, retransmit_unacked, queue_data_packet,
}
use xfer_rust.Transport.Connection.Congestion.{Floats}
use xfer_rust.Transport.Connection.Handle.{new_outbound, new_inbound, handle_packet}
use xfer_rust.Transport.Connection.Tick.{
  retry_syn, retry_data, handle_timeout, send_chunk, flush_pending, flush_all, timers_and_flush,
  send_fin, process_tick, timed_out,
}
use xfer_rust.Transport.Connection.Frame.{InBounds}
use xfer_rust.Transport.Connection.Progress.{
  rank, Step, Step-trans, Step-if, Same, Same-Step, handle_packet-Step,
}

module _ (now_micros : ℕ → ℕ) where
  -- The sending half.
  flush_pending-Same :
      (fuel now : ℕ) (c : UtpConnection) → Same c (flush_pending now_micros fuel now c)
  unfolding flush_pending send_chunk queue_data_packet
  flush_pending-Same zero now c = ground arith
  flush_pending-Same (suc fuel) now c =
      ground (arith, flush_pending-Same fuel now (send_chunk now_micros now c))

  flush_all-Same : (now : ℕ) (c : UtpConnection) → Same c (flush_all now_micros now c)
  unfolding flush_all send_ack
  flush_all-Same now c = ground (arith, flush_pending-Same (length c.pending_send) now c)

  handle_timeout-Step : (now : ℕ) (c : UtpConnection) → Step c (handle_timeout now_micros now c)
  unfolding handle_timeout retry_syn retry_data queue_control retransmit_unacked
  handle_timeout-Step now c = record {
    forward = ground arith;
    errors = λ h e. ground (arith, h);
    bounds = λ h. ground arith;
  }

  timers-Step : (now : ℕ) (c : UtpConnection) → Step c (timers_and_flush now_micros now c)
  unfolding timers_and_flush
  timers-Step now c =
      Step-if (timed_out now c) (handle_timeout-Step now c) (Same-Step (flush_all-Same now c))

  abort-Step :
      (c : UtpConnection)
      → Step c (record c {
        fin_pending = false;
        fin_sent = true;
        fin_seq = c.seq;
        state = UtpState.closed;
      })
  abort-Step c = record { forward = ground arith; errors = λ h e. refl; bounds = λ h. h }

  send_fin-Step :
      (now : ℕ) (c : UtpConnection)
      → same_state c.state UtpState.closed ≡ false
      → Step c (send_fin now_micros now c)
  unfolding send_fin queue_control
  send_fin-Step now c open_c = record {
    forward = ground arith;
    errors = λ h e. ground (arith, h);
    bounds = λ h. h;
  }

  pub process_tick-Step : (now : ℕ) (c : UtpConnection) → Step c (process_tick now_micros now c)
  unfolding process_tick
  process_tick-Step now c = elim (Bool-cases (same_state c.state UtpState.closed)) [
    | inl e ↦ rw e (Same-Step {c = c} {d = c} (refl, refl, refl))
    | inr e ↦ rw e (
        Step-if (not c.fin_pending) (timers-Step now c) (
          Step-if (same_state c.state UtpState.syn_sent) (abort-Step c)
            (Step-trans (send_fin-Step now c e) (timers-Step now (send_fin now_micros now c)))))
  ]

pub close-Step : (c : UtpConnection) → Step c (State.close c)
unfolding State.close
close-Step c = record {
  forward = ground arith;
  errors = λ h e. ground (arith, h);
  bounds = λ h. ground arith;
}

-- What the socket layer may do with a connection, in any order.
pub data Event : Type 0 where
  arrives : Bytes → ℕ → Event
  ticks : ℕ → Event
  writes : Bytes → Event
  reads : ℕ → Event
  closes drains : Event

module _ (now_micros : ℕ → ℕ) (f : Floats) where
  pub on_event : Event → UtpConnection → UtpConnection
  on_event (arrives bytes now) c = handle_packet now_micros f bytes now c
  on_event (ticks now) c = process_tick now_micros now c
  on_event (writes bytes) c = (State.write bytes c).1
  on_event (reads room) c = (State.read room c).1
  on_event closes c = State.close c
  on_event drains c = (State.drain_outbox c).1

  -- The events of a list, in their order.
  pub run : List Event → UtpConnection → UtpConnection
  run [] c = c
  run (e ∷ es) c = run es (on_event e c)

  on_event-Step : (e : Event) (c : UtpConnection) → Step c (on_event e c)
  unfolding on_event State.write State.read State.drain_outbox
  on_event-Step (arrives bytes now) c = handle_packet-Step now_micros f bytes now c
  on_event-Step (ticks now) c = process_tick-Step now_micros now c
  on_event-Step (writes bytes) c = Same-Step {c = c} {d = (State.write bytes c).1} (ground arith)
  on_event-Step (reads room) c = Same-Step {c = c} {d = (State.read room c).1} (refl, refl, refl)
  on_event-Step closes c = close-Step c
  on_event-Step drains c = Same-Step {c = c} {d = (State.drain_outbox c).1} (refl, refl, refl)

  run-Step : (es : List Event) (c : UtpConnection) → Step c (run es c)
  unfolding run
  run-Step [] c = Same-Step {c = c} {d = c} (refl, refl, refl)
  run-Step (e ∷ es) c = Step-trans (on_event-Step e c) (run-Step es (on_event e c))

  -- Whatever arrives at a connection and is asked of it, in any order, its state never goes back in
  -- the order handshake, connected, FIN sent, closed; so a closed connection stays closed.
  pub run_forward : (es : List Event) (c : UtpConnection) → rank c.state ≤ rank (run es c).state
  run_forward es c = (run-Step es c).forward

  abbrev pub IsNew : UtpConnection → Type 0
  IsNew c =
      ((random now : ℕ) × (c ≡ new_outbound now_micros random now))
      ⊎ ((random peer_recv_id ack_nr now : ℕ) × (c
            ≡ new_inbound now_micros random peer_recv_id ack_nr now))

  error_cases :
      (b : Bool) {s : UtpState}
      → (b ≡ true → s ≡ UtpState.closed)
      → (b ≡ false) ⊎ (s ≡ UtpState.closed)
  error_cases true h = inr (h refl)
  error_cases false h = inl refl

  -- A connection made by either constructor keeps, through every list of events, a retransmission
  -- timeout between 500 ms and 60 s, and as long as it is not closed it reports no error.
  pub run_new :
      (es : List Event) (c : UtpConnection)
      → IsNew c
      → InBounds (run es c) × (((run es c).error ≡ false) ⊎ ((run es c).state ≡ UtpState.closed))
  unfolding new_outbound new_inbound initial queue_control
  run_new es c (inl (random, now, e)) =
      let step = run-Step es c in
      (
        step.bounds (rw e (omega arith)),
        error_cases (run es c).error (step.errors (rw e (λ x. cc))),
      )
  run_new es c (inr (random, id, nr, now, e)) =
      let step = run-Step es c in
      (
        step.bounds (rw e (omega arith)),
        error_cases (run es c).error (step.errors (rw e (λ x. cc))),
      )
