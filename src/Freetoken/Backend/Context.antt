-- ===== src/Freetoken/Backend/Context.antt =====
-- What a probe (internal/freetoken/backend.go) learns and publishes.
use viiwork_freetoken.Prelude.{
  ◌≡◌, ◌⊎◌, refl, true, false, Option, none, some, ℤ, pos, ◌≤ℤ◌, ◌<ℤ◌, ◌-ℤ◌, -ℤ_parts, ltb_ℤ,
  if◌then◌else◌, arith,
}
use viiwork_freetoken.Freetoken.Health.{parse_context_len, parse_kv_capacity}
use viiwork_freetoken.Freetoken.Health.Limits.{parse_context_len_pos, parse_kv_capacity_pos}
use viiwork_freetoken.Freetoken.Stats.{Stats, parse_stats}
use viiwork_freetoken.Freetoken.Backend.{
  Backend, Answers, refresh_stats, context_limit, narrow, publish_limit, learn_context_len,
}

-- The context length to publish, from the old one, the checkpoint's limit and the pool's.
abbrev pub Published : ℤ → Option ℤ → Option ℤ → ℤ → Type 0
Published old none none m = m ≡ old
Published old (some n) none m = m ≡ n
Published old none (some k) m = m ≡ k
Published old (some n) (some k) m = (m ≤ℤ n) × (m ≤ℤ k) × ((m ≡ n) ⊎ (m ≡ k))

publish_limit_lem :
    (b : Backend) (c k : Option ℤ)
    → ((n : ℤ) → c ≡ some n → pos 0 <ℤ n)
    → ((n : ℤ) → k ≡ some n → pos 0 <ℤ n)
    → Published b.state.max_model_len c k
        (publish_limit (narrow (context_limit c) k) b).state.max_model_len
unfolding publish_limit narrow
publish_limit_lem b none none p q = refl
publish_limit_lem b (some n) none p q = ground (arith, p n refl)
publish_limit_lem b none (some k) p q = ground (arith, q k refl)
publish_limit_lem b (some n) (some k) p q = ground (arith, p n refl, q k refl)

learn_fresh :
    (a : Answers) (b : Backend)
    → b.engine.max_seq_len ≤ℤ pos 0
    → b.ctx_learned ≡ false
    → learn_context_len a b
      ≡ publish_limit
          (narrow (context_limit (parse_context_len a.models)) (parse_kv_capacity a.cache))
          (record b { ctx_learned = true })
unfolding learn_context_len
learn_fresh a b free fresh = ground arith

publish_limit-ctx_learned :
    (limit : ℤ) (b : Backend) → (publish_limit limit b).ctx_learned ≡ b.ctx_learned
unfolding publish_limit
publish_limit-ctx_learned limit b = ground arith

learn_kept :
    (a : Answers) (b : Backend)
    → (pos 0 <ℤ b.engine.max_seq_len) ⊎ (b.ctx_learned ≡ true)
    → learn_context_len a b ≡ b
unfolding learn_context_len
learn_kept a b h = ground arith

-- Where the config pins no context length and none was learned since the process was spawned, a
-- reading of the limits publishes the smaller of the two that the engine gives, the one that it
-- gives, or leaves the old one where it gives none; it is marked as done in every case. A pinned or
-- learned length stays as it is.
pub learn_context_len-Published :
    (a : Answers) (b : Backend)
    → (b.engine.max_seq_len ≤ℤ pos 0
        → b.ctx_learned ≡ false
        → Published b.state.max_model_len
            (parse_context_len a.models)
            (parse_kv_capacity a.cache)
            (learn_context_len a b).state.max_model_len
          × ((learn_context_len a b).ctx_learned ≡ true))
      × ((pos 0 <ℤ b.engine.max_seq_len) ⊎ (b.ctx_learned ≡ true) → learn_context_len a b ≡ b)
learn_context_len-Published a b = (
  λ free fresh. rw (learn_fresh a b free fresh) (
    publish_limit_lem (record b { ctx_learned = true }) _ _ (parse_context_len_pos a.models)
        (parse_kv_capacity_pos a.cache),
    publish_limit-ctx_learned _ (record b { ctx_learned = true }),
  ),
  learn_kept a b,
)

-- What the node derives of the queue: the requests in flight that the engine does not run, never
-- less than none.
abbrev pub IsQueue : ℤ → ℤ → ℤ → Type 0
IsQueue in_flight running waiting =
    (pos 0 ≤ℤ waiting)
    × (in_flight ≤ℤ running → waiting ≡ pos 0)
    × (running ≤ℤ in_flight → waiting ≡ in_flight -ℤ running)

queue :
    (n running : ℤ)
    → IsQueue n running (if ltb_ℤ (n -ℤ running) (pos 0) then pos 0 else n -ℤ running)
queue n running = (
  ground (arith, -ℤ_parts n running),
  λ h. ground (arith, -ℤ_parts n running),
  λ h. ground (arith, -ℤ_parts n running),
)

-- A reading of the engine's statistics publishes the running count, the queue derived from it, the
-- occupancy and the card as reported; without one the backend stays as it is.
pub refresh_stats-IsQueue :
    (a : Answers) (b : Backend)
    → (parse_stats a.pool_order a.stats ≡ none → refresh_stats a b ≡ b)
      × ((st : Stats)
          → parse_stats a.pool_order a.stats ≡ some st
          → let t = refresh_stats a b in
            (t.state.num_running ≡ st.num_running)
            × (t.state.kv_cache_pct ≡ st.cache_pct)
            × (t.gpu_uuid ≡ st.gpu_uuid)
            × IsQueue b.state.in_flight st.num_running t.state.num_waiting)
unfolding refresh_stats
refresh_stats-IsQueue a b = (
  λ h. ground arith,
  λ st h. (
    ground arith,
    ground arith,
    ground arith,
    rw (h, refresh_stats) (queue b.state.in_flight st.num_running),
  ),
)
