-- ===== src/Scheduling/Peers/Target.antt =====
-- crates/xfer-bt/src/scheduler.rs: the number of connections that the scheduler aims at, over any rounds.
use native.Mathlib.Nat.{le_refl}
use xfer_rust.Common.{
  ℕ, ◌+◌, ◌*◌, ◌^◌, ◌≤◌, ◌<◌, min, ◌≡◌, refl, sym, ◌∙◌, arith, ◌&&◌, List, [], ◌∷◌, ltb, leb,
  length, Bool-cases, Option-cases, inl, inr,
}
use xfer_rust.Scheduling.Peers.{
  Float, Config, PeerSample, PeerScheduler, new_scheduler, throughput_of, try_expand, adjust,
  try_replace, settle, decide, evaluate,
}

-- A configuration whose bounds are in order and leave room for the sums in a usize.
pub record Fits (F : Type 0) (c : Config F) : Type 0 where
  pub room : c.max_peers + c.expand_step < 2 ^ 64
  pub triple : c.max_peers * 3 < 2 ^ 64
  pub bounds : c.min_peers ≤ c.max_peers

-- The scheduler has this configuration, and its target is between the bounds.
pub record IsAimed (F : Type 0) (c : Config F) (s : PeerScheduler F) : Type 0 where
  pub kept : s.cfg ≡ c
  pub at_least : c.min_peers ≤ s.target
  pub at_most : s.target ≤ c.max_peers

module _ {F A : Type 0} (f : Float F) where
  -- Rounds of samples and of numbers of candidates.
  unfoldable pub rounds : List (List (PeerSample A) × ℕ) → PeerScheduler F → PeerScheduler F
  rounds [] s = s
  rounds ((peers, pending) ∷ rest) s = rounds rest (evaluate f s peers pending).0

module _ {F : Type 0} (f : Float F) where
  adjust-cfg : (s : PeerScheduler F) (throughput : ℕ) → (adjust f s throughput).cfg ≡ s.cfg
  unfolding adjust
  adjust-cfg s throughput = ground arith

  adjust-target :
      (s : PeerScheduler F) (throughput : ℕ)
      → s.cfg.max_peers + s.cfg.expand_step < 2 ^ 64
      → s.cfg.max_peers * 3 < 2 ^ 64
      → s.cfg.min_peers ≤ s.cfg.max_peers
      → s.cfg.min_peers ≤ s.target
      → s.target ≤ s.cfg.max_peers
      → (s.cfg.min_peers ≤ (adjust f s throughput).target)
        × ((adjust f s throughput).target ≤ s.cfg.max_peers)
  unfolding adjust
  adjust-target s throughput room triple bounds at_least at_most = ground arith

  module _ (c : Config F) (fits : Fits F c) where
    adjust-IsAimed :
        (s : PeerScheduler F) (throughput : ℕ) → IsAimed F c s → IsAimed F c (adjust f s throughput)
    adjust-IsAimed s throughput h =
        let r =
          adjust-target s throughput (rw h.kept fits.room) (rw h.kept fits.triple)
            (rw h.kept fits.bounds) (rw h.kept h.at_least) (rw h.kept h.at_most) in
        record {
          kept = adjust-cfg s throughput ∙ h.kept;
          at_least = rw (sym h.kept) r.0;
          at_most = rw (sym h.kept) r.1;
        }

    module _ {A : Type 0} where
      settle-IsAimed :
          (s : PeerScheduler F) (peers : List (PeerSample A)) (pending : ℕ)
          → IsAimed F c s
          → IsAimed F c (settle f s peers pending).0
      unfolding settle
      settle-IsAimed s peers pending h =
          elim (Bool-cases (leb s.cfg.stagnant_rounds s.stagnant && ltb 0 pending)) [
            | inr e ↦ rw e h
            | inl e ↦ elim (Option-cases (try_replace f s peers)) [
              | inl none_slow ↦ rw (e, none_slow) h
              | inr (action, found) ↦
                  rw (e, found)
                    (record { kept = h.kept; at_least = h.at_least; at_most = h.at_most })
            ]
          ]

      decide-IsAimed :
          (s : PeerScheduler F) (peers : List (PeerSample A)) (pending : ℕ)
          → IsAimed F c s
          → IsAimed F c (decide f s peers pending).0
      unfolding decide
      decide-IsAimed s peers pending h =
          elim (Option-cases (try_expand {A = A} s (length peers) pending)) [
            | inl full ↦ rw (decide, full) (settle-IsAimed s peers pending h)
            | inr (action, found) ↦ rw (decide, found) h
          ]

      evaluate-IsAimed :
          (s : PeerScheduler F) (peers : List (PeerSample A)) (pending : ℕ)
          → IsAimed F c s
          → IsAimed F c (evaluate f s peers pending).0
      unfolding evaluate
      evaluate-IsAimed s peers pending h = elim (Bool-cases s.started) [
        | inl e ↦ simp e (
            decide-IsAimed (adjust f s (throughput_of peers)) peers pending
              (adjust-IsAimed s (throughput_of peers) h))
        | inr e ↦ simp e (record {
          kept = h.kept;
          at_least = rw h.kept fits.bounds;
          at_most = rw h.kept (le_refl c.max_peers);
        })
      ]

      rounds-IsAimed :
          (rs : List (List (PeerSample A) × ℕ)) (s : PeerScheduler F)
          → IsAimed F c s
          → IsAimed F c (rounds f rs s)
      unfolding rounds
      rounds-IsAimed [] s h = h
      rounds-IsAimed ((peers, pending) ∷ rest) s h =
          rounds-IsAimed rest (evaluate f s peers pending).0 (evaluate-IsAimed s peers pending h)

-- A new scheduler aims, after any rounds, at no fewer connections than the smaller of the two bounds of
-- its configuration and at no more than the upper one, where the sums fit a usize.
pub rounds-target :
    {F A : Type 0} (f : Float F) (c : Config F)
    → c.max_peers + c.expand_step < 2 ^ 64
    → c.max_peers * 3 < 2 ^ 64
    → (rs : List (List (PeerSample A) × ℕ))
    → (min c.min_peers c.max_peers ≤ (rounds f rs (new_scheduler c)).target)
      × ((rounds f rs (new_scheduler c)).target ≤ c.max_peers)
unfolding new_scheduler
rounds-target f c room triple rs =
    let clamped = record c { min_peers = min c.min_peers c.max_peers } in
    let h =
      rounds-IsAimed f clamped (record { room = room; triple = triple; bounds = omega arith }) rs
        (new_scheduler c) (record { kept = refl; at_least = omega arith; at_most = omega arith }) in
    (h.at_least, h.at_most)
