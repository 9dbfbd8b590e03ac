-- ===== src/Freetoken/Backend/Spawn.antt =====
-- What a process of internal/freetoken/backend.go is started with.
use viiwork_freetoken.Prelude.{
  ◌≡◌, ◌≢◌, refl, List, [], ◌∷◌, ◌++◌, Option, none, some, String, str_eq, str_eq_iff, ℤ,
  if◌then◌else◌, arith,
}
use viiwork_freetoken.Config.{Float64}
use viiwork_freetoken.Freetoken.Backend.{Backend, base_args, length_args, moe_args, args, env}

-- The last of the values that an environment gives to a variable, the one that `os/exec` hands to
-- the process.
abbrev pub last_value : String → List (String × String) → Option String
last_value key [] = none
last_value key ((k, v) ∷ vars) = elim (last_value key vars) [
  | some w ↦ some w
  | none ↦ if str_eq k key then some v else none
]

last_value-append :
    (key v : String) (xs ys : List (String × String))
    → last_value key ys ≡ some v
    → last_value key (xs ++ ys) ≡ some v
last_value-append key v [] ys h = h
last_value-append key v ((k, w) ∷ xs) ys h = ground (arith, last_value-append key v xs ys h)

last_value-append_none :
    (key : String) (xs ys : List (String × String))
    → last_value key ys ≡ none
    → last_value key (xs ++ ys) ≡ last_value key xs
last_value-append_none key [] ys h = h
last_value-append_none key ((k, w) ∷ xs) ys h = ground (arith, last_value-append_none key xs ys h)

-- Whatever the inherited environment says, the process gets the PCI order and the backend's cards:
-- an operator's own setting of either variable is overridden. All other variables are inherited.
pub last_value-env :
    (gpu_spec : String) (inherited : List (String × String))
    → (last_value "CUDA_DEVICE_ORDER" (env gpu_spec inherited) ≡ some "PCI_BUS_ID")
      × (last_value "CUDA_VISIBLE_DEVICES" (env gpu_spec inherited) ≡ some gpu_spec)
      × ((key : String)
          → key ≢ "CUDA_DEVICE_ORDER"
          → key ≢ "CUDA_VISIBLE_DEVICES"
          → last_value key (env gpu_spec inherited) ≡ last_value key inherited)
unfolding env
last_value-env gpu_spec inherited = (
  last_value-append "CUDA_DEVICE_ORDER" "PCI_BUS_ID" inherited _ refl,
  last_value-append "CUDA_VISIBLE_DEVICES" gpu_spec inherited _ refl,
  λ key p q.
      last_value-append_none key inherited _
        (ground (arith, str_eq_iff "CUDA_DEVICE_ORDER" key, str_eq_iff "CUDA_VISIBLE_DEVICES" key)),
)

-- The word behind the last occurrence of a flag, which is the one that `argparse` takes.
abbrev pub flag_value : String → List String → Option String
flag_value flag [] = none
flag_value flag (w ∷ []) = none
flag_value flag (w ∷ v ∷ words) = elim (flag_value flag (v ∷ words)) [
  | some u ↦ some u
  | none ↦ if str_eq w flag then some v else none
]

flag_value-append :
    (flag v : String) (xs ys : List String)
    → flag_value flag ys ≡ some v
    → flag_value flag (xs ++ ys) ≡ some v
flag_value-append flag v [] ys h = h
flag_value-append flag v (x ∷ []) [] h = absurd (ground arith)
flag_value-append flag v (x ∷ []) (y ∷ ys) h = ground arith
flag_value-append flag v (x ∷ z ∷ xs) ys h = ground (arith, flag_value-append flag v (z ∷ xs) ys h)

-- A flag that the operator's extra arguments give a value has that value, whatever the node generates.
pub flag_value-args :
    (itoa : ℤ → String) (format_float : Float64 → String) (b : Backend) (flag v : String)
    → flag_value flag b.engine.extra_args ≡ some v
    → flag_value flag (args itoa format_float b) ≡ some v
unfolding args
flag_value-args itoa format_float b flag v h =
    let moe = moe_args b ++ b.engine.extra_args in
    flag_value-append flag v (base_args itoa format_float b) (length_args itoa b ++ moe) (
      flag_value-append flag v (length_args itoa b) moe
        (flag_value-append flag v (moe_args b) b.engine.extra_args h))
