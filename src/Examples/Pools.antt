-- ===== src/Examples/Pools.antt =====
-- The statistics of an engine with two pools (internal/freetoken/metrics.go), visited in two orders.
use viiwork_freetoken.Prelude.{◌≡◌, ◌⊎◌, refl, false, List, [], ◌∷◌, none, some, pos, Memᴰ}
use viiwork_freetoken.Balancer.State.{Ratio}
use viiwork_freetoken.Peer.State.{zero_ratio}
use viiwork_freetoken.Freetoken.Stats.{
  PoolName, kv, swa, mamba, Stats, pool_key, occupancy, pool_of, above, initial_stats, see_pool,
  see_pools, see_gpus, read_stats, parse_stats,
}
use viiwork_freetoken.Freetoken.Stats.Fullest.{parse_stats-IsFullest}
use viiwork_freetoken.Examples.Engine.{statistics}

abbrev forwards : List PoolName
forwards = kv ∷ swa ∷ mamba ∷ []

abbrev backwards : List PoolName
backwards = mamba ∷ swa ∷ kv ∷ []

visits_forwards : (n : PoolName) → Memᴰ n forwards
visits_forwards kv = Memᴰ.head refl
visits_forwards swa = Memᴰ.tail (Memᴰ.head refl)
visits_forwards mamba = Memᴰ.tail (Memᴰ.tail (Memᴰ.head refl))

visits_backwards : (n : PoolName) → Memᴰ n backwards
visits_backwards mamba = Memᴰ.head refl
visits_backwards swa = Memᴰ.tail (Memᴰ.head refl)
visits_backwards kv = Memᴰ.tail (Memᴰ.tail (Memᴰ.head refl))

parse_stats-IsFullest_example :
    (st : Stats) × (st' : Stats) × (parse_stats forwards (some statistics) ≡ some st)
    × (parse_stats backwards (some statistics) ≡ some st')
    × ((n : PoolName) (o : Ratio)
        → occupancy (pool_of statistics n) ≡ some o
        → above o st.cache_pct ≡ false)
    × ((st.cache_pct ≡ zero_ratio)
        ⊎ ((n : PoolName) × (occupancy (pool_of statistics n) ≡ some st.cache_pct)))
    × (above st.cache_pct st'.cache_pct ≡ false)
    × (above st'.cache_pct st.cache_pct ≡ false)
parse_stats-IsFullest_example =
    parse_stats-IsFullest statistics forwards backwards visits_forwards visits_backwards

-- The slots are half full, the pages a quarter.
half_full :
    parse_stats forwards (some statistics)
    ≡ some (record {
      num_running = pos 3;
      cache_pct = record { num = pos 4; den = pos 8 };
      decode_tps = record { num = pos 31; den = pos 1 };
      vram_bytes = pos 8000000000;
      gpu_uuid = "GPU-0";
      gpu_name = "RTX";
      found =
          "running" ∷ "kv" ∷ "cache" ∷ "mamba" ∷ "cache" ∷ "decode_tps" ∷ "vram" ∷ "gpu_uuid" ∷ [];
    })
unfolding parse_stats read_stats initial_stats see_pools see_pool occupancy pool_of pool_key
    see_gpus
half_full = refl

undecoded : parse_stats forwards none ≡ none
unfolding parse_stats
undecoded = refl
