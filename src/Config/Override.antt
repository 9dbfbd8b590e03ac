-- ===== src/Config/Override.antt =====
-- internal/config/config.go: the overrides of the command line.
-- An override that fails leaves the settings of those before it in place, so the settings are kept
-- beside the error.
pub mod Chain
use Prim.Native.Char.{code}
use viiwork_freetoken.Prelude.{
  Bool, true, false, ◌&&◌, List, [], ◌∷◌, Option, none, some, String, str_eq, ℤ, ◌==◌,
  if◌then◌else◌, Bytes, codes, split, trim_space, atoi,
}
use viiwork_freetoken.Config.{Config}

pub data OverrideError : Type 0 where
  no_value unknown not_number : String → OverrideError
  no_tensor_parallel : String → OverrideError
  not_index : Bytes → OverrideError

abbrev pub Outcome : Type 0
Outcome = Config × Option OverrideError

abbrev with_number : String → Option ℤ → (ℤ → Config) → Config → Outcome
with_number key none update c = (c, some (not_number key))
with_number key (some v) update c = (update v, none)

put_index : Bytes → Option ℤ → List ℤ × Option OverrideError → List ℤ × Option OverrideError
put_index f none rest = ([], some (not_index f))
put_index f (some v) (ids, e) = (v ∷ ids, e)

pub read_devices : List Bytes → List ℤ × Option OverrideError
read_devices [] = ([], none)
read_devices (f ∷ fs) = let rest = read_devices fs in put_index f (atoi (trim_space f)) rest

abbrev with_devices : List ℤ × Option OverrideError → Config → Outcome
with_devices (ids, none) c = (record c { gpus = record c.gpus { devices = ids } }, none)
with_devices (ids, some e) c = (c, some e)

unfoldable pub set : String → String → Config → Outcome
unfolding read_devices put_index
set key val c =
    let number = atoi (codes val) in
    if str_eq key "server.port"
    then with_number key number (λ v. record c { server = record c.server { port = v } }) c
    else if str_eq key "server.host"
    then (record c { server = record c.server { host = val } }, none)
    else if str_eq key "server.mesh_port"
    then with_number key number (λ v. record c { server = record c.server { mesh_port = v } }) c
    else if str_eq key "model.name"
    then (record c { model = record c.model { name = val } }, none)
    else if str_eq key "model.path"
    then (record c { model = record c.model { path = val } }, none)
    else if str_eq key "gpus.base_port"
    then with_number key number (λ v. record c { gpus = record c.gpus { base_port = v } }) c
    else if str_eq key "gpus.tensor_parallel_size"
    then (c, if str_eq val "1" then none else some (no_tensor_parallel val))
    else if str_eq key "gpus.devices"
    then with_devices (read_devices (split b',' (codes val))) c
    else if str_eq key "node.hostname"
    then (record c { node = record c.node { hostname = val } }, none)
    else (c, some (unknown key))

-- What stands after a leading `--`.
unfoldable pub flag_key : String → Option String
flag_key (String.◌∷◌ a (String.◌∷◌ b key)) =
    if code a == b'-' && code b == b'-' then some key else none
flag_key _ = none

stop_or : Outcome → (Config → Outcome) → Outcome
stop_or (c, none) next = next c
stop_or (c, some e) next = (c, some e)

on_flag : Option String → Outcome → (String → Outcome) → Outcome
on_flag none skipped taken = skipped
on_flag (some key) skipped taken = taken key

last_flag : Config → Option String → Outcome
last_flag c none = (c, none)
last_flag c (some key) = (c, some (no_value key))

unfoldable pub apply_overrides : List String → Config → Outcome
unfolding stop_or on_flag last_flag
apply_overrides [] c = (c, none)
apply_overrides (arg ∷ []) c = last_flag c (flag_key arg)
apply_overrides (arg ∷ val ∷ args) c =
    on_flag (flag_key arg) (apply_overrides (val ∷ args) c)
      (λ key. stop_or (set key val c) (λ d. apply_overrides args d))
