-- ===== src/Balancer/State.antt =====
-- internal/balancer/state.go: the routable view of one FreeToken process.
-- Instants and durations are numbers of nanoseconds, read off a clock that does not run backwards;
-- each method that calls `time.Now` takes the instant as the argument `now`. The atomics and the
-- mutex are left out: a method is one step on the record.
pub mod Window
use viiwork_freetoken.Prelude.{
  ℕ, zero, suc, ◌+◌, ◌/◌, Bool, true, false, List, [], ◌∷◌, ◌++◌, String, ℤ, pos, negsuc, ◌+ℤ◌, ltb,
  length, if◌then◌else◌,
}

pub data BackendStatus : Type 0 where
  starting healthy unhealthy dead : BackendStatus

-- The words for a status are constants of the imported package `meshapi`.
pub record StatusWords : Type 0 where
  pub starting_word : String
  pub healthy_word : String
  pub unhealthy_word : String
  pub dead_word : String

-- The Go switch has a default, `unknown`, for integers that are none of the four constants.
unfoldable pub status_string : StatusWords → BackendStatus → String
status_string w starting = w.starting_word
status_string w healthy = w.healthy_word
status_string w unhealthy = w.unhealthy_word
status_string w dead = w.dead_word

pub record LatencySample : Type 0 where
  pub at : ℕ
  pub dur : ℕ

-- A float64 that is a quotient of two counters, kept as the two counters.
pub record Ratio : Type 0 where
  pub num : ℤ
  pub den : ℤ

pub record BackendState : Type 0 where
  pub gpu_ids : List ℤ
  pub addr : String
  pub status : BackendStatus
  pub in_flight : ℤ
  pub num_running : ℤ
  pub num_waiting : ℤ
  pub kv_cache_pct : Ratio
  pub rss_mb : ℤ
  pub max_model_len : ℤ
  pub max_num_seqs : ℤ
  pub hard_failure : Bool
  pub samples : List LatencySample
  pub window : ℤ

unfoldable pub new_backend_state : List ℤ → String → ℤ → BackendState
new_backend_state gpu_ids addr window = record {
  gpu_ids = gpu_ids;
  addr = addr;
  status = starting;
  in_flight = pos 0;
  num_running = pos 0;
  num_waiting = pos 0;
  kv_cache_pct = record { num = pos 0; den = pos 1 };
  rss_mb = pos 0;
  max_model_len = pos 0;
  max_num_seqs = pos 0;
  hard_failure = false;
  samples = [];
  window = window;
}

single_gpu : List ℤ → ℤ
single_gpu (id ∷ []) = id
single_gpu _ = negsuc 0

unfoldable pub gpu_id : BackendState → ℤ
unfolding single_gpu
gpu_id b = single_gpu b.gpu_ids

-- `meshapi.BackendLabel` is the argument `backend_label`.
label_of : (ℤ → List ℤ → String) → List ℤ → String
label_of backend_label (id ∷ []) = backend_label id []
label_of backend_label ids = backend_label (negsuc 0) ids

unfoldable pub label : (ℤ → List ℤ → String) → BackendState → String
unfolding label_of
label backend_label b = label_of backend_label b.gpu_ids

unfoldable pub set_status : BackendStatus → BackendState → BackendState
set_status s b = record b { status = s }

unfoldable pub incr_in_flight : BackendState → BackendState
incr_in_flight b = record b { in_flight = b.in_flight +ℤ pos 1 }

unfoldable pub decr_in_flight : BackendState → BackendState
decr_in_flight b = record b { in_flight = b.in_flight +ℤ negsuc 0 }

unfoldable pub set_scheduler_stats : ℤ → ℤ → Ratio → BackendState → BackendState
set_scheduler_stats running waiting kv_pct b = record b {
  num_running = running;
  num_waiting = waiting;
  kv_cache_pct = kv_pct;
}

-- Both stores at once; Freetoken.Manager.Turns has them apart.
unfoldable pub note_hard_failure : BackendState → BackendState
note_hard_failure b = record b { hard_failure = true; status = unhealthy }

-- The latch as it was, and the state with the latch cleared.
unfoldable pub take_hard_failure : BackendState → Bool × BackendState
take_hard_failure b = (b.hard_failure, record b { hard_failure = false })

-- The samples before the cutoff `now - w` at the front of the slice go; `i` stops at the first
-- that is not.
drop_old : ℕ → ℕ → List LatencySample → List LatencySample
drop_old w now [] = []
drop_old w now (s ∷ ss) = if ltb (s.at + w) now then drop_old w now ss else s ∷ ss

-- A window of zero or less keeps everything.
evict : ℤ → ℕ → List LatencySample → List LatencySample
evict (pos zero) now ss = ss
evict (pos (suc w)) now ss = drop_old (suc w) now ss
evict (negsuc _) now ss = ss

unfoldable pub evict_locked : ℕ → BackendState → BackendState
unfolding evict drop_old
evict_locked now b = record b { samples = evict b.window now b.samples }

unfoldable pub record_latency : ℕ → ℕ → BackendState → BackendState
unfolding evict_locked
record_latency now dur b =
    evict_locked now (record b { samples = b.samples ++ record { at = now; dur = dur } ∷ [] })

-- The loop `total += s.dur`.
total_dur : ℕ → List LatencySample → ℕ
total_dur total [] = total
total_dur total (s ∷ ss) = total_dur (total + s.dur) ss

mean : List LatencySample → ℕ
mean [] = 0
mean (s ∷ ss) = total_dur 0 (s ∷ ss) / length (s ∷ ss)

-- The mean over the window, and the state with the older samples gone.
unfoldable pub avg_latency : ℕ → BackendState → ℕ × BackendState
unfolding evict_locked mean total_dur
avg_latency now b = (mean (evict_locked now b).samples, evict_locked now b)
