-- ===== src/Gpu/Watts.antt =====
-- internal/power/power.go: the wattage of the node as the sum of its cards'. The addition of floats
-- is an argument, and so is how a GPUReading of the imported energy package is made.
pub mod Shares
use viiwork_freetoken.Prelude.{
  Bool, true, false, List, [], ◌∷◌, Option, none, some, ℤ, String, if◌then◌else◌,
}
use viiwork_freetoken.Balancer.State.{Ratio}
use viiwork_freetoken.Gpu.History.{GpuSample, History, latest}
use viiwork_freetoken.Peer.State.{zero_ratio}
use viiwork_freetoken.Peer.Registry.{Models, PowerReading}

abbrev pub FloatAdd : Type 0
FloatAdd = Ratio → Ratio → Ratio

abbrev pub source_label : String
source_label = "nvidia-smi"

-- The judgement of the collector at the time of the call, with none for a nil function.
pub record Sum : Type 0 where
  pub history : History
  pub power_available : Option Bool

unfoldable pub available : Sum → Bool
available s = elim s.power_available [ none ↦ false | some b ↦ b ]

abbrev pub add_watts : FloatAdd → Ratio → List Ratio → Ratio
add_watts plus total [] = total
add_watts plus total (w ∷ ws) = add_watts plus (plus total w) ws

-- The loop of Watts over the samples.
abbrev pub sum_power : FloatAdd → Ratio → List GpuSample → Ratio
sum_power plus total [] = total
sum_power plus total (s ∷ ss) = sum_power plus (plus total s.power_w) ss

unfoldable pub watts : FloatAdd → Sum → Ratio
watts plus s = if available s then sum_power plus zero_ratio (latest s.history) else zero_ratio

-- What the registry reads of a Sum.
unfoldable pub power_reading : FloatAdd → Sum → PowerReading
power_reading plus s = record {
  watts = watts plus s;
  available = available s;
  source = source_label;
}

-- A missing key of the map reads as the empty name.
abbrev pub model_name : Option String → String
model_name none = ""
model_name (some m) = m

pub readings_of {ℓ} : {R : Type ℓ} → (ℤ → Ratio → String → R) → Models → List GpuSample → List R
readings_of make models [] = []
readings_of make models (s ∷ ss) =
    make s.gpu_id s.power_w (model_name (models s.gpu_id)) ∷ readings_of make models ss

unfoldable pub readings {ℓ} : {R : Type ℓ} → (ℤ → Ratio → String → R) → History → Models → List R
unfolding readings_of
readings make history models = readings_of make models (latest history)
