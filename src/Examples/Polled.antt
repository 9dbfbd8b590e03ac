-- ===== src/Examples/Polled.antt =====
-- The reads of a probe (internal/freetoken/backend.go) and of the host's memory (internal/proxy).
use viiwork_freetoken.Prelude.{
  ◌≡◌, ◌↔◌, refl, true, false, [], ◌∷◌, Option, none, some, str_eq, ℤ, pos, same_bytes, Bytes,
  codes, parse_int, wrap_int64, if◌then◌else◌, ◌*ℤ◌, ◌-ℤ◌,
}
use viiwork_freetoken.Freetoken.Health.{Health, ready}
use viiwork_freetoken.Freetoken.Backend.Probe.{SameRouting}
use viiwork_freetoken.Freetoken.Backend.Wire.{
  Engine, Decoders, Told, read_all, read_rss_mb, pid, probe_engine, probe_engine_iff,
}
use viiwork_freetoken.Proxy.HostMemory.Reading.{
  parse_mem_info_kb, scan_lines, see_line, read_host_memory,
}
use viiwork_freetoken.Examples.Engine.{up_and_ready, serving}

-- It answers /health alone.
abbrev engine : Engine
engine path =
    if str_eq path "/health"
    then some (record { status = pos 200; body = codes "ok"; breaks_off = false })
    else none

abbrev decoders : Decoders
decoders = record {
  health = λ body. if same_bytes body (codes "ok") then some up_and_ready else none;
  stats = λ body. none;
  models = λ body. none;
  cache = λ body. none;
}

-- 1000 pages are resident.
abbrev statm : ℤ → Option Bytes
statm p = some (codes "9000 1000 20 1 0 7 0")

rss : read_rss_mb statm (pos 4096) (pos 77) ≡ pos 3
unfolding read_rss_mb parse_int ◌*ℤ◌ wrap_int64
rss = refl

too_large : parse_int (codes "9223372036854775808") ≡ (pos 9223372036854775807, false)
unfolding parse_int
too_large = refl

probe_engine_iff_example :
    (((probe_engine decoders engine [] statm (pos 4096) serving).1 ≡ true)
      ↔ ((h : Health) × Told decoders engine h × (ready h ≡ true)))
    × ((probe_engine decoders engine [] statm (pos 4096) serving).1 ≡ true
        → (probe_engine decoders engine [] statm (pos 4096) serving).0.state.rss_mb
          ≡ read_rss_mb statm (pos 4096) (pid serving.cmd))
    × SameRouting serving (probe_engine decoders engine [] statm (pos 4096) serving).0
probe_engine_iff_example = probe_engine_iff decoders engine [] statm (pos 4096) serving

told : Told decoders engine up_and_ready
unfolding read_all
told = (
  record { status = pos 200; body = codes "ok"; breaks_off = false },
  codes "ok",
  refl,
  refl,
  refl,
  refl,
)

memory :
    read_host_memory (
      some (
        codes "MemTotal:       16384000 kB"
        ∷ codes "MemFree:         1000000 kB"
        ∷ codes "MemAvailable:    6144000 kB"
        ∷ codes "MemTotal: 1 kB"
        ∷ []))
    ≡ (pos 16000, pos 10000)
unfolding read_host_memory scan_lines see_line parse_mem_info_kb parse_int ◌-ℤ◌
memory = refl
