-- ===== src/Examples/Load.antt =====
-- Backends of a node with two cards (internal/balancer): a window of latencies, a choice.
use viiwork_freetoken.Prelude.{ℕ, ◌≡◌, refl, false, List, [], ◌∷◌, some, ℤ, pos, ◌+ℤ◌, arith}
use viiwork_freetoken.Balancer.State.{
  healthy, LatencySample, BackendState, new_backend_state, avg_latency,
}
use viiwork_freetoken.Balancer.State.Window.{InOrder, IsPast}
use viiwork_freetoken.Balancer.Pick.{
  Balancer, pick, total_in_flight, pick_idle_lowest_latency, pick_least_loaded,
}
use viiwork_freetoken.Balancer.Pick.Outcome.{pick-Picks, Picks}

abbrev serving : ℤ → ℤ → List LatencySample → BackendState
unfolding new_backend_state
serving id load samples = record (new_backend_state (id ∷ []) "127.0.0.1:9101" (pos 100)) {
  status = healthy;
  in_flight = load;
  samples = samples;
}

abbrev sample : ℕ → ℕ → LatencySample
sample at dur = record { at = at; dur = dur }

abbrev three_samples : List LatencySample
three_samples = sample 10 7 ∷ sample 60 20 ∷ sample 90 31 ∷ []

abbrev slow : BackendState
unfolding new_backend_state
slow = serving (pos 0) (pos 0) three_samples

abbrev fast : BackendState
unfolding new_backend_state
fast = serving (pos 1) (pos 0) (sample 80 5 ∷ [])

abbrev busy : BackendState
unfolding new_backend_state
busy = serving (pos 2) (pos 4) []

abbrev three_cards : Balancer
three_cards = record {
  backends = busy ∷ slow ∷ fast ∷ [];
  high_load_threshold = pos 8;
  max_in_flight = pos 4;
}

-- At 150 the oldest sample is out, and the mean of 20 and 31 is rounded down.
slow_mean : (avg_latency 150 slow).0 ≡ 25
unfolding avg_latency new_backend_state
slow_mean = refl

three_cards_chosen : pick 150 three_cards ≡ (some fast, false)
unfolding pick avg_latency new_backend_state total_in_flight pick_idle_lowest_latency
    pick_least_loaded ◌+ℤ◌
three_cards_chosen = refl

pick-Picks_example : Picks 150 three_cards (some fast, false)
unfolding pick avg_latency new_backend_state total_in_flight pick_idle_lowest_latency
    pick_least_loaded ◌+ℤ◌
pick-Picks_example = pick-Picks 150 three_cards

in_order : InOrder slow.samples
unfolding new_backend_state
in_order = ground arith

past : IsPast 150 slow.samples
unfolding new_backend_state
past = ground arith
