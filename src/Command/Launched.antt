-- ===== src/Command/Launched.antt =====
-- What holds of a node that has been put together (cmd/viiwork-freetoken/main.go).
use Prim.Native.String.{◌++◌ as append}
use viiwork_freetoken.Prelude.{
  ℕ, suc, Option, none, false, ◌⊎◌, arith, ◌≡◌, ◌≢◌, refl, sym, ap, ◌∙◌, inl, inr, List, [], ◌∷◌,
  map, some, String, ℤ, get_elem?-mem, All, All-get, Memᴰ, Bool-cases, not, str_eq,
}
use viiwork_freetoken.Balancer.State.{starting, healthy, dead, set_status, new_backend_state}
use viiwork_freetoken.Config.{Config, backends}
use viiwork_freetoken.Config.Valid.{IsValid}
use viiwork_freetoken.Config.Boot.{boot, settings, boot-IsValid}
use viiwork_freetoken.Config.Defaults.{Slots}
use viiwork_freetoken.Freetoken.Backend.{new_backend, is_running, start}
use viiwork_freetoken.Freetoken.Manager.{Watch, new_manager, start_one}
use viiwork_freetoken.Gpu.History.{History}
use viiwork_freetoken.Peer.State.{unreachable, new_peer_state}
use viiwork_freetoken.Peer.Registry.{Registry, host_of_addr, resolve}
use viiwork_freetoken.Peer.Route.{Route}
use viiwork_freetoken.Peer.Registry.Addresses.{IsColonFree, host_of_addr-append}
use viiwork_freetoken.Peer.Registry.Routing.{Serves, resolve_iff}
use viiwork_freetoken.Peer.Route.{Counters, pick_route}
use viiwork_freetoken.Proxy.Dispatch.{
  names, no_backend, local_only, model_name, candidates, route_request,
}
use viiwork_freetoken.Command.{
  Environment, Parts, listen_addr_for, hostname_of, or_devices, energy_lanes, start_all, build,
  launch,
}

empty_of {ℓ} : {A : Type ℓ} (xs : List A) → ((a : A) → ¬ Memᴰ a xs) → xs ≡ []
empty_of [] h = refl
empty_of (x ∷ xs) h = absurd (h x (Memᴰ.head refl))

All-map {ℓ κ ι} :
    {A : Type ℓ} {B : Type κ} (P : B → Type ι) (f : A → B) (xs : List A)
    → ((a : A) → P (f a))
    → All P (map f xs)
All-map P f [] h = tt
All-map P f (x ∷ xs) h = (h x, All-map P f xs h)

-- A node none of whose backends is up and none of whose peers has answered offers nothing.
resolve-nil :
    (r : Registry) (name : String)
    → All (λ b. b.status ≢ healthy) r.backends
    → All (λ p. p.status ≡ unreachable) r.peers
    → resolve r name ≡ []
resolve-nil r name down silent =
    empty_of (resolve r name) (λ t m. none_serves t ((resolve_iff r name t).0 m))
  where
    none_serves : (t : Route) → Serves r name t → ⊥
    none_serves t (inl (_, (i, b, at, up, _))) =
        All-get (λ b. b.status ≢ healthy) r.backends (get_elem?-mem r.backends i at) down up
    none_serves t (inr (i, p, at, up, _, _)) =
        let d = All-get (λ p. p.status ≡ unreachable) r.peers (get_elem?-mem r.peers i at) silent in
        cc (sym d ∙ up)

-- Where nothing is offered every request is refused.
refused :
    (r : Registry) (max : ℤ) (name origin : String) (k : Counters)
    → ((m : String) → resolve r m ≡ [])
    → route_request r max (names name) origin k ≡ (no_backend, k)
unfolding route_request candidates local_only pick_route
refused r max name origin k h = elim (Bool-cases (not (str_eq origin ""))) [
  | inl e ↦ rw (candidates, e, h (model_name r name)) refl
  | inr e ↦ rw (candidates, e, h (model_name r name)) refl
]

or_devices-ne-nil : (ids devices : List ℤ) → devices ≢ [] → or_devices ids devices ≢ []
or_devices-ne-nil [] devices h e = h e
or_devices-ne-nil (id ∷ ids) devices h e = cc e

-- A backend that was started, or that could not be.
abbrev pub IsUnproven : Watch → Type 0
IsUnproven w =
    ((w.backend.state.status ≡ starting) × (w.backend.cmd ≢ none))
    ⊎ ((w.backend.state.status ≡ dead) × (w.backend.cmd ≡ none))

start_one-IsUnproven :
    (now : ℕ) (spawn : Option ℤ) (w : Watch)
    → w.backend.cmd ≡ none
    → IsUnproven (start_one now spawn w).0
unfolding start_one start set_status
start_one-IsUnproven now none w c =
    let quiet : is_running w.backend.cmd ≡ false = ap is_running c in rw quiet (inr (refl, c))
start_one-IsUnproven now (some pid) w c =
    let quiet : is_running w.backend.cmd ≡ false = ap is_running c in
    rw quiet (inl (refl, (λ e. ground arith)))

start_all-IsUnproven :
    (now : ℕ) (spawn : ℕ → Option ℤ) (i : ℕ) (ws : List Watch)
    → All (λ w. w.backend.cmd ≡ none) ws
    → All IsUnproven (start_all now spawn i ws)
unfolding start_all
start_all-IsUnproven now spawn i [] h = tt
start_all-IsUnproven now spawn i (w ∷ ws) (c, h) =
    (start_one-IsUnproven now (spawn i) w c, start_all-IsUnproven now spawn (suc i) ws h)

down_of :
    (ws : List Watch)
    → All IsUnproven ws
    → All (λ b. b.status ≢ healthy) (map (λ w. w.backend.state) ws)
down_of [] h = tt
down_of (w ∷ ws) (inl (s, _), h) = ((λ u. cc (sym s ∙ u)), down_of ws h)
down_of (w ∷ ws) (inr (s, _), h) = ((λ u. cc (sym s ∙ u)), down_of ws h)

-- What the parts of a node are, for the settings they are made of.
abbrev pub IsBuilt : Config → Parts → Type 0
IsBuilt c p =
    (host_of_addr p.registry.listen_addr ≡ p.registry.hostname)
    × All IsUnproven p.watches
    × ((max : ℤ) (name origin : String) (k : Counters)
        → route_request p.registry max (names name) origin k ≡ (no_backend, k))
    × ((h : History) → energy_lanes h c ≢ [])

build-IsBuilt :
    (env : Environment) (c : Config) (hostname : String)
    → IsValid c
    → IsColonFree (env.itoa c.server.port)
    → IsBuilt c (build env c hostname)
unfolding build listen_addr_for new_manager new_backend new_backend_state new_peer_state
    energy_lanes
build-IsBuilt env c hostname v free =
    let ws = new_manager env.itoa append c in
    let unproven =
      start_all-IsUnproven env.spawned_at env.spawn 0 ws (All-map _ _ (backends c) (λ s. refl)) in
    (
      host_of_addr-append hostname (env.itoa c.server.port) free,
      unproven,
      λ max name origin k. refused _ max name origin k (λ m.
          resolve-nil _ m (down_of _ unproven)
            (All-map _ new_peer_state c.peers.hosts (λ a. refl))),
      λ h. or_devices-ne-nil _ c.gpus.devices v.some_device,
    )

-- With settings that the command accepts and a name for its host, a node whose backends the manager has
-- started, and of which no health loop, poll or listener has run yet, is as follows: the host part of the
-- address that it publishes is that name; each backend is starting and has a process, or is dead and has
-- none; every request would be refused for want of a backend, whatever model it names; and its energy
-- store has a lane. The port is printed without a colon.
pub launch-IsBuilt :
    (env : Environment) (slots : Slots) (args : List String) (file c : Config) (hostname : String)
    → boot slots args file ≡ settings c
    → hostname_of env c.node.hostname ≡ some hostname
    → IsColonFree (env.itoa c.server.port)
    → (p : Parts) × (launch env c ≡ some p) × (p.registry.hostname ≡ hostname) × IsBuilt c p
unfolding launch
launch-IsBuilt env slots args file c hostname booted named free =
    let valid = (boot-IsValid slots args file c booted).0 in
    (build env c hostname, rw named refl, refl, build-IsBuilt env c hostname valid free)
