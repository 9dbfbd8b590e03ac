-- ===== src/Gpu/Readings.antt =====
-- internal/gpu/parse.go, identity.go and collector.go: what nvidia-smi prints, and what is made of it.
-- Running the command is taken by its output, and `strconv.ParseFloat` is an argument.
pub mod Rows
use viiwork_freetoken.Prelude.{
  ℕ, ◌+◌, ◌==◌, Bool, true, false, ◌&&◌, ◌||◌, List, [], ◌∷◌, ◌++◌, map, Option, none, some, ℤ, pos,
  ltb_ℤ, eqb_ℤ, if◌then◌else◌, Bytes, codes, is_empty_text, is_prefix, same_bytes, split,
  trim_space, atoi,
}
use viiwork_freetoken.Balancer.State.{Ratio}
use viiwork_freetoken.Gpu.History.{GpuSample, History, add}

abbrev pub FloatReader : Type 0
FloatReader = Bytes → Option Ratio

abbrev zero_ratio : Ratio
zero_ratio = record { num = pos 0; den = pos 1 }

-- The empty text, and all that starts with a bracket such as [N/A], is no number.
unfoldable pub parse_float : FloatReader → Bytes → Option Ratio
parse_float read s = if is_empty_text s || is_prefix (codes "[") s then none else read s

abbrev pub or_zero : Option Ratio → Ratio
or_zero none = zero_ratio
or_zero (some r) = r

-- A field that need not be there.
abbrev pub fifth : FloatReader → List Bytes → Ratio
fifth read [] = zero_ratio
fifth read (f ∷ _) = or_zero (parse_float read f)

pub make_sample : ℤ → Option ℤ → Option Ratio → Ratio → Ratio → Ratio → Option GpuSample
make_sample ts none total util used power = none
make_sample ts (some id) none util used power = none
make_sample ts (some id) (some total) util used power = some (record {
  gpu_id = id;
  utilization = util;
  vram_used_mb = used;
  vram_total_mb = total;
  power_w = power;
  timestamp = ts;
})

unfoldable pub sample_of_fields : FloatReader → ℤ → List Bytes → Option GpuSample
unfolding make_sample
sample_of_fields read ts (index ∷ util ∷ used ∷ total ∷ rest) =
    make_sample ts (atoi index) (parse_float read total) (or_zero (parse_float read util))
      (or_zero (parse_float read used)) (fifth read rest)
sample_of_fields read ts _ = none

unfoldable pub parse_line : FloatReader → ℤ → Bytes → Option GpuSample
parse_line read ts line =
    let trimmed = trim_space line in
    if is_empty_text trimmed
    then none
    else sample_of_fields read ts (map trim_space (split b',' trimmed))

abbrev pub keep_some {ℓ} : {A : Type ℓ} → Option A → List A → List A
keep_some none rest = rest
keep_some (some a) rest = a ∷ rest

unfoldable pub parse_lines : FloatReader → ℤ → List Bytes → List GpuSample
parse_lines read ts [] = []
parse_lines read ts (line ∷ lines) = keep_some (parse_line read ts line) (parse_lines read ts lines)

unfoldable pub parse_csv : FloatReader → ℤ → Bytes → List GpuSample
parse_csv read ts out = parse_lines read ts (split b'\n' out)

unfoldable pub has_power : List GpuSample → Bool
has_power [] = false
has_power (s ∷ ss) = if ltb_ℤ (pos 0) s.power_w.num then true else has_power ss

abbrev map_first : ℕ → Option (Bytes × Bytes) → Option (Bytes × Bytes)
map_first x none = none
map_first x (some (front, back)) = some (x ∷ front, back)

-- The two parts of a text around its first comma, as of `strings.SplitN` with 2.
pub split_first : Bytes → Option (Bytes × Bytes)
split_first [] = none
split_first (x ∷ xs) =
    let rest = split_first xs in if x == b',' then some ([], xs) else map_first x rest

-- A Go map from card to UUID is a function into Option.
abbrev pub Uuids : Type 0
Uuids = ℤ → Option Bytes

abbrev pub no_uuids : Uuids
no_uuids _ = none

put_uuid : Option ℤ → Bytes → Uuids → Uuids
put_uuid none uuid m = m
put_uuid (some id) uuid m =
    if is_prefix (codes "GPU-") uuid then (λ j. if eqb_ℤ j id then some uuid else m j) else m

parse_identity : Option (Bytes × Bytes) → Uuids → Uuids
unfolding put_uuid
parse_identity none m = m
parse_identity (some (index, uuid)) m = put_uuid (atoi (trim_space index)) (trim_space uuid) m

identities : List Bytes → Uuids → Uuids
identities [] m = m
identities (line ∷ lines) m = identities lines (parse_identity (split_first (trim_space line)) m)

-- A nil map answers as an empty one does.
unfoldable pub parse_uuids : Bytes → Uuids
unfolding identities parse_identity split_first
parse_uuids out = identities (split b'\n' out) no_uuids

-- `cmd` is the position of the argument set in use.
pub record StatCollector : Type 0 where
  pub cmd : Option ℕ
  pub available : Bool
  pub power_available : Bool

pub unavailable : StatCollector
unavailable = record { cmd = none; available = false; power_available = false }

adopt : ℕ → List GpuSample → StatCollector → StatCollector
adopt i [] later = later
adopt i (s ∷ ss) later = record {
  cmd = some i;
  available = true;
  power_available = has_power (s ∷ ss);
}

probed : FloatReader → ℤ → Option Bytes → List GpuSample
probed read ts none = []
probed read ts (some out) = parse_csv read ts out

try_sets : FloatReader → ℤ → ℕ → List (Option Bytes) → StatCollector
unfolding adopt probed unavailable
try_sets read ts i [] = unavailable
try_sets read ts i (out ∷ outs) =
    let later = try_sets read ts (i + 1) outs in adopt i (probed read ts out) later

-- What the command prints with each of the argument sets, `none` where it fails.
unfoldable pub new_stat_collector : FloatReader → ℤ → List (Option Bytes) → StatCollector
unfolding try_sets
new_stat_collector read ts outs = try_sets read ts 0 outs

-- The history afterwards, and what is returned and published.
unfoldable pub collect :
    FloatReader → ℤ → Option Bytes → StatCollector → History → History × List GpuSample
unfolding probed
collect read ts out c h =
    let samples = if c.available then probed read ts out else [] in (add samples h, samples)
