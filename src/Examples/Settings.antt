-- ===== src/Examples/Settings.antt =====
-- A configuration (internal/config) of a node with two cards.
use viiwork_freetoken.Prelude.{
  ◌≡◌, ◌↔◌, refl, false, List, [], ◌∷◌, none, some, String, ℤ, pos, ◌+ℤ◌, atoi,
}
use viiwork_freetoken.Config.{real, nan, Config, backends, port_collides, twice_device, validate}
use viiwork_freetoken.Config.Defaults.{Slots, or_number, apply_defaults}
use viiwork_freetoken.Config.Defaults.Filled.{apply_defaults-validate}
use viiwork_freetoken.Config.Override.{not_index, set, flag_key, apply_overrides}
use viiwork_freetoken.Config.Override.Chain.{Stopped, apply_overrides-Stopped}
use viiwork_freetoken.Config.Valid.{IsValid, validate_iff}

abbrev pub config_of : List ℤ → ℤ → ℤ → Config
config_of devices base_port port = record {
  server = record {
    host = "0.0.0.0";
    port = port;
    mesh_port = pos 8089;
    cors = record { allow_origins = none; allow_tailnet_ips = none };
  };
  node = record { hostname = ""; id = "" };
  model = record { name = "qwen3"; path = "/models/qwen3" };
  gpus = record { devices = devices; base_port = base_port };
  freetoken = record {
    binary = "ft";
    extra_args = [];
    max_seq_len = pos 0;
    max_running_requests = pos 8;
    memory_ratio = real (record { num = pos 9; den = pos 10 });
    moe_backend = "fused";
    startup_timeout = pos 600;
    shutdown_grace = pos 10;
  };
  health = record {
    interval = pos 10;
    timeout = pos 5;
    failure_threshold = pos 3;
    max_respawns = pos 2;
  };
  balancer = record {
    latency_window = pos 100;
    high_load_threshold = pos 8;
    max_in_flight_per_backend = pos 4;
  };
  peers = record { hosts = []; poll_interval = pos 5; timeout = pos 2 };
  activity = record { prompt_history = pos 0; event_history = pos 500 };
  energy = record {
    enabled = false;
    dir = "";
    sample_interval = pos 10;
    minute_slots = pos 1440;
    hour_slots = pos 720;
    day_slots = pos 3650;
  };
}

abbrev pub two_cards : Config
two_cards = config_of (pos 0 ∷ pos 1 ∷ []) (pos 9101) (pos 8088)

validate_iff_example : (validate two_cards ≡ none) ↔ IsValid two_cards
validate_iff_example = validate_iff two_cards

two_cards_accepted : validate two_cards ≡ none
unfolding validate backends ◌+ℤ◌
two_cards_accepted = refl

two_cards-IsValid : IsValid two_cards
two_cards-IsValid = (validate_iff two_cards).0 two_cards_accepted

-- The second backend would listen on the mesh port.
colliding :
    validate (config_of (pos 0 ∷ pos 1 ∷ []) (pos 8088) (pos 7000))
    ≡ some (port_collides (pos 8089))
unfolding validate backends ◌+ℤ◌
colliding = refl

repeated :
    validate (config_of (pos 3 ∷ pos 3 ∷ []) (pos 9101) (pos 8088)) ≡ some (twice_device (pos 3))
unfolding validate backends ◌+ℤ◌
repeated = refl

not_a_number :
    validate (record two_cards { freetoken = record two_cards.freetoken { memory_ratio = nan } })
    ≡ none
unfolding validate backends ◌+ℤ◌
not_a_number = refl

-- A geometry that serves the example only.
abbrev pub slots : Slots
slots = record { minutes = pos 1440; hours = pos 720; days = pos 3650 }

-- A file that leaves to the defaults what they fill in.
abbrev pub sparse : Config
sparse = record (config_of (pos 0 ∷ pos 1 ∷ []) (pos 0) (pos 0)) {
  server = record two_cards.server { port = pos 0; mesh_port = pos 0 };
  freetoken = record two_cards.freetoken {
    memory_ratio = real (record { num = pos 0; den = pos 1 });
    moe_backend = "";
  };
}

apply_defaults-validate_example : validate (apply_defaults slots sparse) ≡ none
apply_defaults-validate_example =
    apply_defaults-validate slots sparse
      (record {
        port_unset = refl;
        mesh_port_unset = refl;
        base_port_unset = refl;
        ratio_unset = refl;
        moe_unset = refl;
      })
      two_cards-IsValid.named two_cards-IsValid.located two_cards-IsValid.some_device
      two_cards-IsValid.devices_natural two_cards-IsValid.devices_distinct

-- The second override is refused, the first one stays.
abbrev words : List String
words = "--server.port" ∷ "9000" ∷ "--gpus.devices" ∷ "0, x" ∷ "--model.name" ∷ "other" ∷ []

abbrev moved : Config
moved = record two_cards { server = record two_cards.server { port = pos 9000 } }

refused : apply_overrides words two_cards ≡ (moved, some (not_index (32 ∷ b'x' ∷ [])))
unfolding apply_overrides set flag_key atoi
refused = refl

apply_overrides-Stopped_example : Stopped (not_index (32 ∷ b'x' ∷ [])) words two_cards moved
apply_overrides-Stopped_example =
    apply_overrides-Stopped words two_cards moved (not_index (32 ∷ b'x' ∷ [])) refused

-- A mesh port of 0 in the file is not kept, one of an override is.
mesh_port_of_file :
    (apply_defaults slots (record two_cards {
      server = record two_cards.server { mesh_port = pos 0 };
    })).server.mesh_port
    ≡ pos 8086
unfolding apply_defaults or_number
mesh_port_of_file = refl

mesh_port_of_override :
    (apply_overrides ("--server.mesh_port" ∷ "0" ∷ []) two_cards).0.server.mesh_port ≡ pos 0
unfolding apply_overrides set flag_key atoi
mesh_port_of_override = refl
