-- ===== src/Examples/Engine.antt =====
-- One engine process and its supervision (internal/freetoken).
use viiwork_freetoken.Prelude.{
  ℕ, zero, suc, ◌≡◌, refl, true, false, List, [], ◌∷◌, none, some, String, pos, arith,
}
use viiwork_freetoken.Balancer.State.{
  starting, healthy, unhealthy, dead, new_backend_state, set_status, take_hard_failure,
}
use viiwork_freetoken.Config.{HealthConfig}
use viiwork_freetoken.Freetoken.Health.{
  Health, no_health, ready, describe, parse_health, parse_context_len, parse_kv_capacity,
}
use viiwork_freetoken.Freetoken.Stats.{kv, swa, mamba, StatsDoc}
use viiwork_freetoken.Freetoken.Backend.{Backend, Answers, new_backend, learn_context_len, probe}
use viiwork_freetoken.Freetoken.Backend.Probe.{Answered}
use viiwork_freetoken.Freetoken.Manager.{Watch, check_one, start_one}
use viiwork_freetoken.Freetoken.Manager.Verdict.{Judged, check_one-Judged}
use viiwork_freetoken.Freetoken.Manager.Turns.{Phase, Life, turn, latch, mark}
use viiwork_freetoken.Freetoken.Manager.Decline.{Turn, ticks, IsSilent, ticks_terminate}
use viiwork_freetoken.Examples.Settings.{two_cards}

abbrev limits : HealthConfig
limits = two_cards.health

abbrev pub up_and_ready : Health
up_and_ready = record no_health { status = "ok" }

-- Three requests run, and of two pools one is a quarter full and one a half.
abbrev pub statistics : StatsDoc
statistics = record {
  kv = some (record {
    used_pages = pos 256;
    total_pages = pos 1024;
    used_slots = pos 0;
    total_slots = pos 0;
  });
  mamba =
      some (record {
        used_pages = pos 0;
        total_pages = pos 0;
        used_slots = pos 4;
        total_slots = pos 8;
      });
  swa = none;
  vram_bytes = pos 8000000000;
  gpus = record { name = "RTX"; uuid = "GPU-0" } ∷ [];
  decode_tps = record { num = pos 31; den = pos 1 };
  active = pos 3;
}

-- The engine serves, with a checkpoint for 32768 tokens and a pool of 16 × 1024.
abbrev serves : Answers
serves = record {
  health = some up_and_ready;
  stats = some statistics;
  pool_order = mamba ∷ kv ∷ swa ∷ [];
  models = some (record { max_model_len = pos 0; context_length = pos 32768 } ∷ []);
  cache = some (record { num_pages = pos 1024; page_size = pos 16 });
  rss_mb = pos 900;
}

-- Nothing answers.
abbrev silence : Answers
silence = record {
  health = none;
  stats = none;
  pool_order = [];
  models = none;
  cache = none;
  rss_mb = pos 0;
}

abbrev idle : Backend
unfolding new_backend new_backend_state
idle =
    new_backend (pos 0 ∷ []) (pos 9101) two_cards.model two_cards.freetoken
      (new_backend_state (pos 0 ∷ []) "127.0.0.1:9101" (pos 100))

-- A backend that has served since the instant 5.
abbrev pub serving : Backend
unfolding new_backend new_backend_state
serving = record idle {
  cmd = some (record { pid = pos 77; exited = false });
  started = some 5;
  ctx_learned = true;
  state = record idle.state { status = healthy; in_flight = pos 5; max_model_len = pos 8192 };
}

abbrev watched : Backend → Watch
watched b = record { backend = b; last_phase = "" }

-- The smaller of the two limits.
learned : (learn_context_len serves idle).state.max_model_len ≡ pos 16384
unfolding learn_context_len parse_context_len parse_kv_capacity new_backend new_backend_state
learned = refl

answered : Answered serves.health up_and_ready
unfolding ready
answered = (refl, refl)

abbrev rebuilding : Backend
unfolding new_backend new_backend_state
rebuilding = record serving {
  health = record no_health { status = "ok"; maintenance = "rebuilding" };
}

abbrev shell : List (String × String)
shell = ("PATH", "/bin") ∷ ("CUDA_VISIBLE_DEVICES", "7") ∷ []

check_one-Judged_example :
    Judged limits 900
      (some (pos 78))
      (probe silence serving).1
      serving
      (check_one limits [] 900 (some (pos 78)) silence (watched serving)).0.backend
check_one-Judged_example = check_one-Judged limits [] 900 (some (pos 78)) silence (watched serving)

-- One failure of three makes it unhealthy.
one_strike :
    (check_one limits [] 900 (some (pos 78)) silence (watched serving)).0.backend.state.status
    ≡ unhealthy
unfolding check_one probe parse_health take_hard_failure set_status describe new_backend
    new_backend_state
one_strike = refl

-- Started; a probe fails; before the check goes on, a request sees its connection break.
abbrev started_life : Life
started_life = record {
  phase = Phase.idle;
  backend = (start_one 5 (some (pos 77)) (watched idle)).0.backend;
  breaking = 0;
}

abbrev story : Life
story = mark 0 (latch (turn limits 20 none silence started_life))

-- Three seconds to load, one failure and one respawn.
abbrev strict : HealthConfig
strict = record limits { failure_threshold = pos 1; max_respawns = pos 1 }

abbrev loading : Watch
unfolding new_backend new_backend_state
loading = watched (record serving {
  engine = record idle.engine { startup_timeout = pos 3 };
  state = record idle.state { status = starting };
})

-- A tick at each of the next `n` instants, with no answer.
abbrev silent_turns : ℕ → ℕ → List Turn
silent_turns at zero = []
silent_turns at (suc n) =
    record { now = suc at; spawn = some (pos 80); answers = silence } ∷ silent_turns (suc at) n

silent_turns-IsSilent : (at n : ℕ) → IsSilent at (silent_turns at n)
silent_turns-IsSilent at zero = tt
silent_turns-IsSilent at (suc n) =
    (omega arith, λ h a. ground arith, silent_turns-IsSilent (suc at) n)

ticks_terminate_example : (ticks strict [] (silent_turns 5 10) loading).backend.state.status ≡ dead
unfolding new_backend new_backend_state
ticks_terminate_example =
    ticks_terminate strict [] 5 (silent_turns 5 10) loading (silent_turns-IsSilent 5 10)
      (λ _. (5, refl, omega arith)) (omega arith)
