-- ===== src/Scheduling/Peers.antt =====
-- crates/xfer-bt/src/scheduler.rs: how many connections are aimed at, and which peers are given up.
-- Durations are numbers; f64 is a type F with the operations the code uses. Integers wrap.
pub mod Target
pub mod Actions
use xfer_rust.Common.{
  ℕ, suc, ◌+◌, ◌-◌, ◌*◌, ◌/◌, ◌%◌, ◌^◌, min, max, Bool, true, false, not, ◌&&◌, ◌||◌, Option, none,
  some, List, [], ◌∷◌, map, ltb, leb, ◌==◌, if◌then◌else◌, length, take, get_or,
}
use xfer_rust.Common.Sort.{sort_by}

-- What the code does with f64.
pub record Float (F : Type 0) : Type 0 where
  pub of_int : ℕ → F
  pub to_u64 : F → ℕ
  pub to_usize : F → ℕ
  pub div : F → F → F
  pub sub : F → F → F
  pub mul : F → F → F
  pub ceil : F → F
  pub gt : F → F → Bool
  pub ge : F → F → Bool

pub record Config (F : Type 0) : Type 0 where
  pub max_peers : ℕ
  pub min_peers : ℕ
  pub expand_step : ℕ
  pub gain_ratio : F
  pub stagnant_rounds : ℕ
  pub slow_ratio : F
  pub slow_floor : ℕ
  pub grace_period : ℕ
  pub evict_ratio : F

pub record PeerSample (A : Type 0) : Type 0 where
  pub addr : A
  pub speed : ℕ
  pub connected_for : ℕ

pub data ScheduleAction (A : Type 0) : Type 0 where
  hold : ScheduleAction A
  expand : ℕ → ScheduleAction A
  replace : List A → ScheduleAction A

pub record PeerScheduler (F : Type 0) : Type 0 where
  pub cfg : Config F
  pub target : ℕ
  pub last_throughput : ℕ
  pub stagnant : ℕ
  pub started : Bool

unfoldable pub new_scheduler : {F : Type 0} → Config F → PeerScheduler F
new_scheduler cfg = record {
  cfg = record cfg { min_peers = min cfg.min_peers cfg.max_peers };
  target = cfg.max_peers;
  last_throughput = 0;
  stagnant = 0;
  started = false;
}

module _ {A : Type 0} where
  -- `sum` of the speeds.
  unfoldable pub throughput_of : List (PeerSample A) → ℕ
  throughput_of [] = 0
  throughput_of (p ∷ ps) = (p.speed + throughput_of ps) % 2 ^ 64

  unfoldable pub slower : PeerSample A → PeerSample A → Bool
  slower p q = leb p.speed q.speed

  unfoldable pub is_slow : ℕ → ℕ → PeerSample A → Bool
  is_slow grace_period threshold p = leb grace_period p.connected_for && ltb p.speed threshold

  unfoldable pub slow_of : ℕ → ℕ → List (PeerSample A) → List (PeerSample A)
  slow_of grace_period threshold [] = []
  slow_of grace_period threshold (p ∷ ps) =
      let rest = slow_of grace_period threshold ps in
      if is_slow grace_period threshold p then p ∷ rest else rest

  unfoldable pub median : List (PeerSample A) → ℕ
  median peers = get_or (sort_by leb (map (λ p. p.speed) peers)) (length peers / 2) 0

  unfoldable pub replacing : List (PeerSample A) → Option (ScheduleAction A)
  replacing [] = none
  replacing (v ∷ vs) = some (ScheduleAction.replace (map (λ p. p.addr) (v ∷ vs)))

module _ {F A : Type 0} where
  unfoldable pub try_expand : PeerScheduler F → ℕ → ℕ → Option (ScheduleAction A)
  try_expand s active pending =
      if leb s.target active || pending == 0
      then none
      else some (ScheduleAction.expand (min (s.target - active) pending))

  unfoldable pub expand_or_hold : PeerScheduler F → ℕ → ℕ → ScheduleAction A
  expand_or_hold s active pending = elim (try_expand s active pending) [
    | some action ↦ action
    | none ↦ ScheduleAction.hold
  ]

module _ {F : Type 0} (f : Float F) where
  unfoldable pub max_evict : PeerScheduler F → ℕ → ℕ
  max_evict s active =
      min (max (f.to_usize (f.ceil (f.mul (f.of_int active) s.cfg.evict_ratio))) 1)
        (active - s.cfg.min_peers)

  unfoldable pub gain_of : ℕ → ℕ → F
  gain_of throughput prev_throughput =
      f.sub (f.div (f.of_int throughput) (f.of_int (max prev_throughput 1))) (f.of_int 1)

  -- The new target and the rounds of stagnation.
  unfoldable pub adjust : PeerScheduler F → ℕ → PeerScheduler F
  adjust s throughput =
      let gain = gain_of throughput s.last_throughput in
      let s1 = record s { last_throughput = throughput } in
      if throughput == 0 && s.last_throughput == 0
      then record s1 { stagnant = (s.stagnant + 1) % 2 ^ 32 }
      else if f.gt gain s.cfg.gain_ratio
      then record s1 {
        stagnant = 0;
        target = min ((s.target + s.cfg.expand_step) % 2 ^ 64) s.cfg.max_peers;
      }
      else if f.ge gain (f.of_int 0)
      then record s1 { stagnant = (s.stagnant + 1) % 2 ^ 32 }
      else record s1 {
        stagnant = min (s.stagnant + 2) (2 ^ 32 - 1);
        target = max (s.target * 3 % 2 ^ 64 / 4) s.cfg.min_peers;
      }

module _ {F A : Type 0} (f : Float F) where
  unfoldable pub slow_threshold : PeerScheduler F → List (PeerSample A) → ℕ
  slow_threshold s peers =
      max (f.to_u64 (f.mul (f.of_int (median peers)) s.cfg.slow_ratio)) s.cfg.slow_floor

  unfoldable pub victims_of : PeerScheduler F → List (PeerSample A) → List (PeerSample A)
  victims_of s peers =
      take (max_evict f s (length peers))
        (sort_by slower (slow_of s.cfg.grace_period (slow_threshold s peers) peers))

  unfoldable pub try_replace : PeerScheduler F → List (PeerSample A) → Option (ScheduleAction A)
  try_replace s peers =
      if leb (length peers) s.cfg.min_peers then none else replacing (victims_of s peers)

  -- The end of `evaluate`: peers that stagnate are replaced.
  unfoldable pub settle :
      PeerScheduler F → List (PeerSample A) → ℕ → PeerScheduler F × ScheduleAction A
  settle s peers pending =
      if leb s.cfg.stagnant_rounds s.stagnant && ltb 0 pending
      then elim (try_replace s peers) [
        | some action ↦ (record s { stagnant = 0 }, action)
        | none ↦ (s, ScheduleAction.hold)
      ]
      else (s, ScheduleAction.hold)

  unfoldable pub decide :
      PeerScheduler F → List (PeerSample A) → ℕ → PeerScheduler F × ScheduleAction A
  decide s peers pending = elim (try_expand s (length peers) pending) [
    | some action ↦ (s, action)
    | none ↦ settle s peers pending
  ]

  unfoldable pub evaluate :
      PeerScheduler F → List (PeerSample A) → ℕ → PeerScheduler F × ScheduleAction A
  evaluate s peers pending =
      let throughput = throughput_of peers in
      if s.started
      then decide (adjust f s throughput) peers pending
      else let s1 = record s {
        started = true;
        target = s.cfg.max_peers;
        last_throughput = throughput;
      } in
        (s1, expand_or_hold s1 (length peers) pending)
