-- ===== src/Config/Defaults/Filled.antt =====
-- What the defaults of internal/config/defaults.go leave alone and what they guarantee.
use viiwork_freetoken.Prelude.{
  ℕ, ◌+◌, ◌≡◌, ◌≢◌, refl, inl, inr, true, Bool-cases, List, [], ◌∷◌, Option, none, some, String, ℤ,
  pos, ◌+ℤ◌, ◌≤ℤ◌, ◌<ℤ◌, All, arith,
}
use viiwork_freetoken.Config.{Float64, Config, ServerConfig, specs_from, backends, validate}
use viiwork_freetoken.Config.Valid.{IsFree, Distinct, validate_iff}
use viiwork_freetoken.Config.Defaults.{
  Slots, is_zero, or_number, or_ratio, or_text, or_origins, fill_server, fill_gpus, fill_freetoken,
  fill_health, fill_balancer, fill_peers, fill_activity, fill_energy, apply_defaults,
}

or_number-twice : (d x : ℤ) → or_number d (or_number d x) ≡ or_number d x
unfolding or_number
or_number-twice d x = ground arith

or_ratio-twice : (d x : Float64) → or_ratio d (or_ratio d x) ≡ or_ratio d x
unfolding or_ratio
or_ratio-twice d x = elim (Bool-cases (is_zero x)) [
  | inl e ↦ rw e (elim (Bool-cases (is_zero d)) [ inl f ↦ rw f refl | inr f ↦ rw f refl ])
  | inr e ↦ rw (e, e) refl
]

or_text-twice : (d x : String) → or_text d (or_text d x) ≡ or_text d x
unfolding or_text
or_text-twice d x = ground arith

or_origins-twice :
    (d : List String) (x : Option (List String)) → or_origins d (or_origins d x) ≡ or_origins d x
unfolding or_origins
or_origins-twice d none = refl
or_origins-twice d (some x) = refl

ruleset twice = (or_number-twice, or_ratio-twice, or_text-twice, or_origins-twice)

-- Applying the defaults again changes nothing.
pub apply_defaults-idempotent :
    (slots : Slots) (c : Config)
    → apply_defaults slots (apply_defaults slots c) ≡ apply_defaults slots c
unfolding apply_defaults fill_server fill_gpus fill_freetoken fill_health fill_balancer fill_peers
    fill_activity fill_energy
apply_defaults-idempotent slots c = simp twice

-- A file that leaves to the defaults what they fill in of what `Validate` looks at.
pub record IsMinimal (c : Config) : Type 0 where
  pub port_unset : c.server.port ≡ pos 0
  pub mesh_port_unset : c.server.mesh_port ≡ pos 0
  pub base_port_unset : c.gpus.base_port ≡ pos 0
  pub ratio_unset : is_zero c.freetoken.memory_ratio ≡ true
  pub moe_unset : c.freetoken.moe_backend ≡ ""

-- Ports that count up from one above both listeners are free.
specs_from-IsFree :
    (s : ServerConfig) (n : ℕ) (ds : List ℤ)
    → s.port <ℤ pos n
    → s.mesh_port <ℤ pos n
    → All (λ b. IsFree s b.port) (specs_from (pos n) ds)
unfolding specs_from ◌+ℤ◌
specs_from-IsFree s n [] p m = tt
specs_from-IsFree s n (d ∷ ds) p m =
    let one_on : pos n +ℤ pos 1 ≡ pos (n + 1) = ground arith in
    (
      ((λ e. ground arith), inr (λ e. ground arith)),
      rw one_on (specs_from-IsFree s (n + 1) ds (omega arith) (omega arith)),
    )

-- With the defaults applied, a file that gives the model's name and path and the devices, no negative
-- and no repeated one, and leaves the ports, the memory ratio and the MoE backend unset is accepted,
-- however many devices there are.
pub apply_defaults-validate :
    (slots : Slots) (c : Config)
    → IsMinimal c
    → c.model.name ≢ ""
    → c.model.path ≢ ""
    → c.gpus.devices ≢ []
    → All (λ d. pos 0 ≤ℤ d) c.gpus.devices
    → Distinct c.gpus.devices
    → validate (apply_defaults slots c) ≡ none
unfolding apply_defaults fill_server fill_gpus fill_freetoken or_number or_ratio backends
apply_defaults-validate slots c m name path some_device natural distinct =
    (validate_iff (apply_defaults slots c)).1 (record {
      named = name;
      located = path;
      some_device = some_device;
      devices_natural = natural;
      devices_distinct = distinct;
      listeners_apart = inr (rw (m.port_unset, m.mesh_port_unset) (λ e. ground arith));
      ports_free = rw (m.base_port_unset) (
          specs_from-IsFree (fill_server c.server) 9901 c.gpus.devices
            (rw (m.port_unset) (omega arith)) (rw (m.mesh_port_unset) (omega arith)));
      ratio_accepted = rw m.ratio_unset (omega arith, omega arith);
      moe_named = inl m.moe_unset;
    })
