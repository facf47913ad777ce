-- ===== src/Scheduling/Examples.antt =====
-- Runs of the scheduling model, and its theorems at concrete inputs.
use mathlib.Core.List.{Perm}
use xfer_rust.Common.{ℕ, suc, ◌+◌, ◌-◌, ◌*◌, ◌/◌, ◌≡◌, refl, true, some, List, [], ◌∷◌, ltb, leb}
use xfer_rust.Scheduling.Playhead.{
  Candidate, overlaps, tier_of, tier_at, nearest_first, sort_key, key_in, order,
  stream_window_bytes,
}
use xfer_rust.Scheduling.Playhead.Tiers.{Pairs, Sooner, order-Pairs}
use xfer_rust.Scheduling.Peers.{
  Float, Config, PeerSample, ScheduleAction, PeerScheduler, new_scheduler, evaluate, throughput_of,
  slower, is_slow, slow_of, median, replacing, try_expand, max_evict, gain_of, adjust,
  slow_threshold, victims_of, try_replace, settle, decide,
}
use xfer_rust.Scheduling.Peers.Actions.{IsSafe, evaluate-IsSafe}

abbrev mebibyte : ℕ
mebibyte = 1024 * 1024

-- Pieces of 16 MiB.
abbrev ranges : ℕ → ℕ × ℕ
ranges i = (i * (16 * mebibyte), suc i * (16 * mebibyte))

abbrev wanted : List Candidate
wanted = (9, 1) ∷ (0, 2) ∷ (3, 5) ∷ (12, 1) ∷ (2, 7) ∷ (4, 1) ∷ []

in_order :
    order ranges (some (33 * mebibyte)) wanted
    ≡ (2, 7) ∷ (3, 5) ∷ (4, 1) ∷ (9, 1) ∷ (12, 1) ∷ (0, 2) ∷ []
unfolding order nearest_first sort_key key_in tier_at tier_of overlaps
in_order = refl

order-Pairs_example :
    Perm (order ranges (some (33 * mebibyte)) wanted) wanted
    × Pairs (Sooner ranges (33 * mebibyte)) (order ranges (some (33 * mebibyte)) wanted)
order-Pairs_example = order-Pairs ranges (33 * mebibyte) wanted

-- An empty interval inside another one is said to meet it.
empty_meets : overlaps 1024 1024 0 stream_window_bytes ≡ true
unfolding overlaps
empty_meets = refl

-- Thousandths for f64.
abbrev thousandths : Float ℕ
thousandths = record {
  of_int = λ n. n * 1000;
  to_u64 = λ x. x / 1000;
  to_usize = λ x. x / 1000;
  div = λ x y. x * 1000 / y;
  sub = λ x y. x - y;
  mul = λ x y. x * y / 1000;
  ceil = λ x. (x + 999) / 1000 * 1000;
  gt = λ x y. ltb y x;
  ge = λ x y. leb y x;
}

abbrev usual : Config ℕ
usual = record {
  max_peers = 3;
  min_peers = 2;
  expand_step = 4;
  gain_ratio = 100;
  stagnant_rounds = 2;
  slow_ratio = 100;
  slow_floor = 10240;
  grace_period = 40;
  evict_ratio = 100;
}

abbrev peer : ℕ → ℕ → ℕ → PeerSample ℕ
peer addr speed connected_for = record { addr = addr; speed = speed; connected_for = connected_for }

abbrev three : List (PeerSample ℕ)
three = peer 1 500000 60 ∷ peer 2 100 60 ∷ peer 3 50 5 ∷ []

abbrev stagnating : PeerScheduler ℕ
stagnating = record (new_scheduler usual) { started = true; stagnant = 5; last_throughput = 500150 }

replaces_slow : (evaluate thousandths stagnating three 4).1 ≡ ScheduleAction.replace (2 ∷ [])
unfolding new_scheduler evaluate throughput_of slower is_slow slow_of median replacing try_expand
    max_evict gain_of adjust slow_threshold victims_of try_replace settle decide
replaces_slow = refl

evaluate-IsSafe_example :
    IsSafe thousandths three
      (evaluate thousandths stagnating three 4).0
      4
      (evaluate thousandths stagnating three 4).1
evaluate-IsSafe_example = evaluate-IsSafe thousandths stagnating three 4
