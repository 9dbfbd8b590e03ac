-- ===== src/Examples/Started.antt =====
-- A node that is started on the host "rig" (cmd/viiwork-freetoken).
use viiwork_freetoken.Prelude.{
  ◌≡◌, refl, true, ◌==◌, if◌then◌else◌, [], ◌∷◌, none, some, pos, ◌+ℤ◌, atoi,
}
use viiwork_freetoken.Config.{Config, backends, validate}
use viiwork_freetoken.Config.Boot.{boot}
use viiwork_freetoken.Config.Defaults.{or_number, or_ratio, apply_defaults}
use viiwork_freetoken.Config.Override.{set, flag_key, apply_overrides}
use viiwork_freetoken.Command.{
  Environment, Parts, hostname_of, listen_addr_for, mint_node_id, cors_of, launch,
}
use viiwork_freetoken.Command.Launched.{IsBuilt, launch-IsBuilt}
use viiwork_freetoken.Examples.Settings.{slots, sparse}

abbrev host : Environment
host = record {
  itoa = λ _. "9000";
  plus = λ a _. a;
  os_hostname = some "rig";
  random_hex = some "00ff";
  time_hex = "1";
  power_available = true;
  version = "dev";
  spawned_at = 5;
  spawn = λ i. if i == 0 then some (pos 77) else none;
}

abbrev started : Config
unfolding apply_defaults or_number or_ratio
started =
    let c = apply_defaults slots sparse in record c { server = record c.server { port = pos 9000 } }

launch-IsBuilt_example :
    (p : Parts) × (launch host started ≡ some p) × (p.registry.hostname ≡ "rig") × IsBuilt started p
unfolding started boot validate backends apply_defaults or_number apply_overrides set flag_key atoi
    ◌+ℤ◌ or_ratio hostname_of
launch-IsBuilt_example =
    launch-IsBuilt host slots ("--server.port" ∷ "9000" ∷ []) sparse started "rig" refl refl
      (refl, (refl, (refl, (refl, tt))))

address : listen_addr_for host.itoa "rig" (pos 9000) ≡ "rig:9000"
unfolding listen_addr_for
address = refl

minted : mint_node_id host.random_hex host.time_hex ≡ "viiwork-freetoken-00ff"
unfolding mint_node_id
minted = refl

no_rules : cors_of (record { allow_origins = some []; allow_tailnet_ips = none }) ≡ none
unfolding cors_of
no_rules = refl
