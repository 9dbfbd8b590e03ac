-- ===== src/Freetoken/Stats.antt =====
-- internal/freetoken/metrics.go: the engine's /v1/stats as `ParseStats` reads it.
-- `encoding/json` is taken by its result. The order in which `range` visits the map of the pools
-- is an argument. A quotient is compared exactly, without the rounding of float64.
pub mod Fullest
use viiwork_freetoken.Prelude.{
  ◌+◌, ◌*◌, Bool, true, false, not, List, [], ◌∷◌, ◌++◌, Option, none, some, String, str_eq, ℤ, pos,
  pos_part, neg_part, ltb_ℤ, ltb, if◌then◌else◌,
}
use viiwork_freetoken.Balancer.State.{Ratio}
use viiwork_freetoken.Peer.State.{zero_ratio}

pub record Pool : Type 0 where
  pub used_pages : ℤ
  pub total_pages : ℤ
  pub used_slots : ℤ
  pub total_slots : ℤ

-- Of a pool that the engine sends as null there is none.
unfoldable pub occupancy : Option Pool → Option Ratio
occupancy none = none
occupancy (some p) =
    if ltb_ℤ (pos 0) p.total_pages
    then some (record { num = p.used_pages; den = p.total_pages })
    else if ltb_ℤ (pos 0) p.total_slots
    then some (record { num = p.used_slots; den = p.total_slots })
    else none

pub record StatsGpu : Type 0 where
  pub name : String
  pub uuid : String

-- The fields that the source reads.
pub record StatsDoc : Type 0 where
  pub kv : Option Pool
  pub mamba : Option Pool
  pub swa : Option Pool
  pub vram_bytes : ℤ
  pub gpus : List StatsGpu
  pub decode_tps : Ratio
  pub active : ℤ

pub record Stats : Type 0 where
  pub num_running : ℤ
  pub cache_pct : Ratio
  pub decode_tps : Ratio
  pub vram_bytes : ℤ
  pub gpu_uuid : String
  pub gpu_name : String
  pub found : List String

pub data PoolName : Type 0 where
  kv swa mamba : PoolName

unfoldable pub pool_key : PoolName → String
pool_key kv = "kv"
pool_key swa = "swa"
pool_key mamba = "mamba"

unfoldable pub pool_of : StatsDoc → PoolName → Option Pool
pool_of doc kv = doc.kv
pool_of doc swa = doc.swa
pool_of doc mamba = doc.mamba

-- a > b, for quotients by positive numbers.
abbrev pub above : Ratio → Ratio → Bool
above a b =
    ltb (pos_part b.num * pos_part a.den + neg_part a.num * pos_part b.den)
      (pos_part a.num * pos_part b.den + neg_part b.num * pos_part a.den)

abbrev pub fuller : Ratio → Ratio → Ratio
fuller occ pct = if above occ pct then occ else pct

-- The body of the loop over the pools.
unfoldable pub see_pool : String → Option Ratio → Stats → Stats
see_pool key none st = st
see_pool key (some occ) st = record st {
  found = st.found ++ key ∷ "cache" ∷ [];
  cache_pct = fuller occ st.cache_pct;
}

unfoldable pub see_pools : StatsDoc → List PoolName → Stats → Stats
see_pools doc [] st = st
see_pools doc (n ∷ ns) st = see_pools doc ns (see_pool (pool_key n) (occupancy (pool_of doc n)) st)

unfoldable pub initial_stats : StatsDoc → Stats
initial_stats doc = record {
  num_running = doc.active;
  cache_pct = zero_ratio;
  decode_tps = doc.decode_tps;
  vram_bytes = doc.vram_bytes;
  gpu_uuid = "";
  gpu_name = "";
  found = "running" ∷ [];
}

abbrev pub note_if : Bool → String → Stats → Stats
note_if seen key st = if seen then record st { found = st.found ++ key ∷ [] } else st

-- The first entry names the card.
unfoldable pub see_gpus : List StatsGpu → Stats → Stats
see_gpus [] st = st
see_gpus (g ∷ _) st =
    if not (str_eq g.uuid "")
    then record st { gpu_name = g.name; gpu_uuid = g.uuid; found = st.found ++ "gpu_uuid" ∷ [] }
    else record st { gpu_name = g.name }

unfoldable pub read_stats : List PoolName → StatsDoc → Stats
read_stats order doc = see_gpus doc.gpus (
    note_if (ltb_ℤ (pos 0) doc.vram_bytes) "vram" (
      note_if (ltb_ℤ (pos 0) doc.decode_tps.num) "decode_tps"
        (see_pools doc order (initial_stats doc))))

unfoldable pub parse_stats : List PoolName → Option StatsDoc → Option Stats
parse_stats order none = none
parse_stats order (some doc) = some (read_stats order doc)
