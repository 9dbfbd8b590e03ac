-- ===== src/Balancer/Pick.antt =====
-- internal/balancer/balancer.go: which local backend serves the next request.
-- A call reads each backend's counters once. The evictions that its readings of `AvgLatency` do are
-- left out of the result: they cannot be observed later (avg_latency-avg_latency in State/Window).
pub mod Choice
pub mod Outcome
use viiwork_freetoken.Prelude.{
  ℕ, suc, Bool, true, false, ◌||◌, List, [], ◌∷◌, Option, none, some, ℤ, pos, ◌+ℤ◌, ltb, ltb_ℤ,
  leb_ℤ, eqb_ℤ, keep, if◌then◌else◌,
}
use viiwork_freetoken.Balancer.State.{
  BackendStatus, starting, healthy, unhealthy, dead, BackendState, avg_latency,
}

pub record Balancer : Type 0 where
  pub backends : List BackendState
  pub high_load_threshold : ℤ
  pub max_in_flight : ℤ

abbrev pub is_healthy : BackendStatus → Bool
is_healthy healthy = true
is_healthy _ = false

total_from : ℤ → List BackendState → ℤ
total_from n [] = n
total_from n (s ∷ ss) = total_from (n +ℤ s.in_flight) ss

unfoldable pub total_in_flight : List BackendState → ℤ
unfolding total_from
total_in_flight ss = total_from (pos 0) ss

unfoldable pub healthy_count : List BackendState → ℕ
healthy_count [] = 0
healthy_count (s ∷ ss) = let n = healthy_count ss in if is_healthy s.status then suc n else n

-- The test of the loop that collects `eligible`.
abbrev pub has_room : ℤ → BackendState → Bool
has_room max s = leb_ℤ max (pos 0) || ltb_ℤ s.in_flight max

abbrev pub latency : ℕ → BackendState → ℕ
latency now s = (avg_latency now s).0

-- `best` and `bestLat`.
abbrev Best : Type 0
Best = Option (BackendState × ℕ)

idle_step : ℕ → Best → BackendState → Best
idle_step now none s = if eqb_ℤ s.in_flight (pos 0) then some (s, latency now s) else none
idle_step now (some (t, lat)) s =
    if eqb_ℤ s.in_flight (pos 0)
    then if ltb (latency now s) lat then some (s, latency now s) else some (t, lat)
    else some (t, lat)

idle_loop : ℕ → Best → List BackendState → Best
idle_loop now best [] = best
idle_loop now best (s ∷ ss) = idle_loop now (idle_step now best s) ss

abbrev just_best : Best → Option BackendState
just_best none = none
just_best (some (s, _)) = some s

unfoldable pub pick_idle_lowest_latency : ℕ → List BackendState → Option BackendState
unfolding idle_loop idle_step
pick_idle_lowest_latency now ss = just_best (idle_loop now none ss)

-- `best`, `bestLoad` and `bestLat`.
least_step : ℕ → BackendState × ℤ × ℕ → BackendState → BackendState × ℤ × ℕ
least_step now (t, load, lat) s =
    if ltb_ℤ s.in_flight load
    then (s, s.in_flight, latency now s)
    else if eqb_ℤ s.in_flight load
    then if ltb (latency now s) lat then (s, load, latency now s) else (t, load, lat)
    else (t, load, lat)

least_loop : ℕ → BackendState × ℤ × ℕ → List BackendState → BackendState × ℤ × ℕ
least_loop now best [] = best
least_loop now best (s ∷ ss) = least_loop now (least_step now best s) ss

-- The first candidate apart: the Go code indexes `candidates[0]`, and is not called without one.
unfoldable pub pick_least_loaded : ℕ → BackendState → List BackendState → BackendState
unfolding least_loop least_step
pick_least_loaded now s ss = (least_loop now (s, s.in_flight, latency now s) ss).0

-- From the non-empty list of the eligible on.
pick_eligible : ℕ → Balancer → BackendState → List BackendState → BackendState
pick_eligible now b s ss =
    if ltb_ℤ (total_in_flight b.backends) b.high_load_threshold
    then elim (pick_idle_lowest_latency now (s ∷ ss)) [
      | some best ↦ best
      | none ↦ pick_least_loaded now s ss
    ]
    else pick_least_loaded now s ss

choose : ℕ → Balancer → List BackendState → Option BackendState × Bool
choose now b [] = (none, true)
choose now b (s ∷ ss) = (some (pick_eligible now b s ss), false)

admit : ℕ → Balancer → List BackendState → Option BackendState × Bool
admit now b [] = (none, false)
admit now b (s ∷ ss) = choose now b (keep (has_room b.max_in_flight) (s ∷ ss))

unfoldable pub pick : ℕ → Balancer → Option BackendState × Bool
unfolding admit choose pick_eligible
pick now b = admit now b (keep (λ s. is_healthy s.status) b.backends)
