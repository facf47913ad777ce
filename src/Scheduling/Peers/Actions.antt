-- ===== src/Scheduling/Peers/Actions.antt =====
-- crates/xfer-bt/src/scheduler.rs: what the actions that the scheduler asks for can be relied on.
use mathlib.Core.Path.{subst}
use mathlib.Core.Option.{some-injective}
use mathlib.Core.List.{Mem, mem-cons_self, mem-cons_of_mem}
use xfer_rust.Common.{
  ℕ, ◌+◌, ◌-◌, ◌≤◌, ◌<◌, min, ◌≡◌, ◌⊎◌, refl, ◌∙◌, arith, true, ◌&&◌, ◌||◌, none, some, List, [],
  ◌∷◌, map, ltb, leb, ◌==◌, length, length-take, length-map, All, All-take, Bool-cases,
  Option-cases, inl, inr,
}
use xfer_rust.Common.Sort.{sort_by, sort_by-All}
use xfer_rust.Scheduling.Peers.{
  Float, PeerSample, ScheduleAction, PeerScheduler, slower, is_slow, slow_of, replacing,
  throughput_of, try_expand, expand_or_hold, max_evict, slow_threshold, victims_of, adjust,
  try_replace, settle, decide, evaluate,
}

module _ {F A : Type 0} (f : Float F) (peers : List (PeerSample A)) where
  -- A connected peer that is past its grace period and slower than the threshold.
  abbrev pub IsVictim : PeerScheduler F → PeerSample A → Type 0
  IsVictim s p =
      Mem p peers × (s.cfg.grace_period ≤ p.connected_for) × (p.speed < slow_threshold f s peers)

  abbrev pub IsSafe : PeerScheduler F → ℕ → ScheduleAction A → Type 0
  IsSafe s pending ScheduleAction.hold = (pending ≡ 0) ⊎ (s.target ≤ length peers)
  IsSafe s pending (ScheduleAction.expand n) =
      (0 < n) × (n ≤ pending) × (length peers + n ≤ s.target)
  IsSafe s pending (ScheduleAction.replace addrs) =
      (0 < pending)
      × (s.target ≤ length peers)
      × (0 < length addrs)
      × (length addrs + s.cfg.min_peers ≤ length peers)
      × ((victims : List (PeerSample A)) × All (IsVictim s) victims
          × (map (λ p. p.addr) victims ≡ addrs))

module _ {A : Type 0} where
  All-Mem : (all peers : List A) → ((p : A) → Mem p peers → Mem p all) → All (λ p. Mem p all) peers
  All-Mem all [] h = tt
  All-Mem all (p ∷ ps) h =
      (h p mem-cons_self, All-Mem all ps λ q inside. h q (mem-cons_of_mem p inside))

is_slow-bounds :
    {A : Type 0} (grace_period threshold : ℕ) (p : PeerSample A)
    → is_slow grace_period threshold p ≡ true
    → (grace_period ≤ p.connected_for) × (p.speed < threshold)
unfolding is_slow
is_slow-bounds grace_period threshold p e = ground arith

module _ {A : Type 0} (grace_period threshold : ℕ) (P : PeerSample A → Type 0) where
  slow_of-All :
      (peers : List (PeerSample A))
      → All P peers
      → All
          (λ p. P p × (grace_period ≤ p.connected_for) × (p.speed < threshold))
          (slow_of grace_period threshold peers)
  unfolding slow_of
  slow_of-All [] h = tt
  slow_of-All (p ∷ ps) (h, hs) = elim (Bool-cases (is_slow grace_period threshold p)) [
    | inl e ↦
        let b = is_slow-bounds grace_period threshold p e in rw e ((h, b.0, b.1), slow_of-All ps hs)
    | inr e ↦ rw e (slow_of-All ps hs)
  ]

module _ {F A : Type 0} (f : Float F) (s : PeerScheduler F) (peers : List (PeerSample A)) where
  victims_of-IsVictim : All (IsVictim f peers s) (victims_of f s peers)
  unfolding victims_of
  victims_of-IsVictim = All-take (IsVictim f peers s) (max_evict f s (length peers)) _ (
      sort_by-All slower (IsVictim f peers s) _ (
        slow_of-All s.cfg.grace_period (slow_threshold f s peers) (λ p. Mem p peers) peers
          (All-Mem peers peers (λ p inside. inside))))

  length-victims_of :
      s.cfg.min_peers < length peers
      → length (victims_of f s peers) + s.cfg.min_peers ≤ length peers
  unfolding victims_of max_evict
  length-victims_of more =
      rw
        (length-take (max_evict f s (length peers))
          (sort_by slower (slow_of s.cfg.grace_period (slow_threshold f s peers) peers)))
        (omega arith)

  replacing-IsSafe :
      (pending : ℕ) (victims : List (PeerSample A)) (action : ScheduleAction A)
      → 0 < pending
      → s.target ≤ length peers
      → length victims + s.cfg.min_peers ≤ length peers
      → All (IsVictim f peers s) victims
      → replacing victims ≡ some action
      → IsSafe f peers s pending action
  unfolding replacing
  replacing-IsSafe pending [] action some_wait reached left all e = grind arith
  replacing-IsSafe pending (v ∷ vs) action some_wait reached left all e =
      subst (IsSafe f peers s pending) (some-injective _ action e) (
        some_wait,
        reached,
        rw (length-map vs (λ p. p.addr)) (omega arith),
        rw (length-map vs (λ p. p.addr)) left,
        ((v ∷ vs), all, refl),
      )

  try_replace-IsSafe :
      (pending : ℕ) (action : ScheduleAction A)
      → 0 < pending
      → s.target ≤ length peers
      → try_replace f s peers ≡ some action
      → IsSafe f peers s pending action
  unfolding try_replace
  try_replace-IsSafe pending action some_wait reached e =
      elim (Bool-cases (leb (length peers) s.cfg.min_peers)) [
        | inl few ↦ grind arith
        | inr more ↦
            let enough : s.cfg.min_peers < length peers = ground arith in
            let chosen : replacing (victims_of f s peers) ≡ some action = (rw more at e) in
            replacing-IsSafe pending (victims_of f s peers) action some_wait reached
              (length-victims_of enough) victims_of-IsVictim chosen
      ]

  try_expand-IsSafe :
      (pending : ℕ) (action : ScheduleAction A)
      → try_expand s (length peers) pending ≡ some action
      → IsSafe f peers s pending action
  unfolding try_expand
  try_expand-IsSafe pending action e =
      elim (Bool-cases (leb s.target (length peers) || pending == 0)) [
        | inl none_wanted ↦ grind arith
        | inr wanted ↦
            let added : some (ScheduleAction.expand (min (s.target - length peers) pending))
                ≡ some action =
              (rw wanted at e) in
            subst (IsSafe f peers s pending) (some-injective _ action added)
              (ground arith, ground arith, ground arith)
      ]

  full :
      (pending : ℕ)
      → try_expand {A = A} s (length peers) pending ≡ none
      → (pending ≡ 0) ⊎ (s.target ≤ length peers)
  unfolding try_expand
  full pending e = ground arith

module _ {F A : Type 0} (f : Float F) where
  abbrev Safe : List (PeerSample A) → ℕ → PeerScheduler F × ScheduleAction A → Type 0
  Safe peers pending r = IsSafe f peers r.0 pending r.1

  stagnant_unused :
      (s : PeerScheduler F) (peers : List (PeerSample A))
      → try_replace f (record s { stagnant = 0 }) peers ≡ try_replace f s peers
  unfolding try_replace victims_of max_evict slow_threshold
  stagnant_unused s peers = refl

  settle-Safe :
      (s : PeerScheduler F) (peers : List (PeerSample A)) (pending : ℕ)
      → (pending ≡ 0) ⊎ (s.target ≤ length peers)
      → Safe peers pending (settle f s peers pending)
  unfolding settle
  settle-Safe s peers pending h =
      elim (Bool-cases (leb s.cfg.stagnant_rounds s.stagnant && ltb 0 pending)) [
        | inr e ↦ rw e h
        | inl e ↦
            let some_wait : 0 < pending = ground arith in
            let reached : s.target ≤ length peers = ground arith in
            elim (Option-cases (try_replace f s peers)) [
              | inl none_slow ↦ rw (e, none_slow) h
              | inr (action, found) ↦
                  rw (e, found)
                    (try_replace-IsSafe f (record s { stagnant = 0 }) peers pending action some_wait
                      reached (stagnant_unused s peers ∙ found))
            ]
      ]

  decide-Safe :
      (s : PeerScheduler F) (peers : List (PeerSample A)) (pending : ℕ)
      → Safe peers pending (decide f s peers pending)
  unfolding decide
  decide-Safe s peers pending = elim (Option-cases (try_expand {A = A} s (length peers) pending)) [
    | inl none_added ↦
        rw (decide, none_added) (settle-Safe s peers pending (full f s peers pending none_added))
    | inr (action, found) ↦ rw (decide, found) (try_expand-IsSafe f s peers pending action found)
  ]

  expand_or_hold-IsSafe :
      (s : PeerScheduler F) (peers : List (PeerSample A)) (pending : ℕ)
      → IsSafe f peers s pending (expand_or_hold s (length peers) pending)
  unfolding expand_or_hold
  expand_or_hold-IsSafe s peers pending =
      elim (Option-cases (try_expand {A = A} s (length peers) pending)) [
        | inl none_added ↦ rw (expand_or_hold, none_added) (full f s peers pending none_added)
        | inr (action, found) ↦
            rw (expand_or_hold, found) (try_expand-IsSafe f s peers pending action found)
      ]

  -- Every round of `evaluate`, on any scheduler, asks for what the new state allows: connections are added
  -- up to the target and among the candidates that wait; peers are given up only where some wait and the
  -- target is reached, they are connected, past their grace period and slower than the threshold, and
  -- the lower bound of connections stays; and it holds only where none wait or the target is reached.
  pub evaluate-IsSafe :
      (s : PeerScheduler F) (peers : List (PeerSample A)) (pending : ℕ)
      → IsSafe f peers (evaluate f s peers pending).0 pending (evaluate f s peers pending).1
  unfolding evaluate
  evaluate-IsSafe s peers pending = elim (Bool-cases s.started) [
    | inl e ↦ simp e (decide-Safe (adjust f s (throughput_of peers)) peers pending)
    | inr e ↦ simp e (
        expand_or_hold-IsSafe
          (record s {
            started = true;
            target = s.cfg.max_peers;
            last_throughput = throughput_of peers;
          })
          peers pending)
  ]
