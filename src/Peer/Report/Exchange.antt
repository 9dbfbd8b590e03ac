-- ===== src/Peer/Report/Exchange.antt =====
-- What a node reports of itself (internal/peer/registry.go) and what a node that polls it learns.
use viiwork_freetoken.Prelude.{
  ℕ, zero, suc, ◌+◌, ◌≡◌, ◌≢◌, ◌⊎◌, refl, sym, ap, ◌∙◌, inr, Bool, true, false, List, [], ◌∷◌, ◌++◌,
  map, append-nil, append_assoc, Option, none, some, some-injective, String, str_eq, str_eq_iff, ℤ,
  pos, ◌≤ℤ◌, ◌+ℤ◌, get_elem?, ltb, length, All, Memᴰ, if◌then◌else◌, arith,
}
use viiwork_freetoken.Balancer.State.{BackendState, StatusWords, gpu_id}
use viiwork_freetoken.Balancer.Pick.{is_healthy, healthy_count}
use viiwork_freetoken.Peer.State.{
  GpuInfo, StatusResponse, PeerState, update, has_model, total_in_flight as peer_in_flight,
}
use viiwork_freetoken.Peer.Registry.{
  Registry, PowerReading, EnergyReading, backend_gpu_ids, load_from, total_in_flight, PollResult,
  answered, poll_peer, poll_all, poll_once, peer_route, resolve,
}
use viiwork_freetoken.Peer.Registry.Routing.{resolve_iff}
use viiwork_freetoken.Peer.Route.{Route}
use viiwork_freetoken.Peer.Report.{
  backend_info, report_step, report_backends, report_power, report_energy, blank_response,
  status_response,
}

by_cards :
    (words : StatusWords) (r : Registry) (b : BackendState) (ids : List ℤ)
    → b.gpu_ids ≡ ids
    → ids ≢ []
    → All (λ d. pos 0 ≤ℤ d) ids
    → backend_gpu_ids (backend_info words r b) ≡ ids
unfolding backend_info backend_gpu_ids gpu_id
by_cards words r b [] e some_card natural = absurd (some_card refl)
by_cards words r b (d ∷ []) e some_card natural = rw e (ground (arith, natural.0))
by_cards words r b (d ∷ c ∷ ds) e some_card natural =
    let many : ltb 1 (length (d ∷ c ∷ ds)) ≡ true = ground arith in rw (e, many)

-- The cards of a backend survive the report: a node that reads it finds the cards that the backend
-- has, provided that it has some and their numbers are not negative.
pub backend_gpu_ids-backend_info :
    (words : StatusWords) (r : Registry) (b : BackendState)
    → b.gpu_ids ≢ []
    → All (λ d. pos 0 ≤ℤ d) b.gpu_ids
    → backend_gpu_ids (backend_info words r b) ≡ b.gpu_ids
backend_gpu_ids-backend_info words r b some_card natural =
    by_cards words r b b.gpu_ids refl some_card natural

report_backends_lem :
    (words : StatusWords) (r : Registry) (resp : StatusResponse) (bs : List BackendState)
    → let t = report_backends words r resp bs in
      (t.backends ≡ resp.backends ++ map (backend_info words r) bs)
      × (t.total_in_flight ≡ load_from resp.total_in_flight bs)
      × ((n : ℕ) → resp.healthy_backends ≡ pos n → t.healthy_backends ≡ pos (n + healthy_count bs))
      × (t.models ≡ resp.models)
unfolding report_backends report_step load_from healthy_count ◌+ℤ◌
report_backends_lem words r resp [] =
    (sym (append-nil resp.backends), refl, (λ n h. ground arith), refl)
report_backends_lem words r resp (b ∷ bs) =
    let (infos, load, healthy, models) =
      report_backends_lem words r (report_step words r resp b) bs in
    (
      infos ∙ append_assoc resp.backends (backend_info words r b ∷ []) _,
      load,
      λ n h. step n h (is_healthy b.status) refl healthy,
      models,
    )
  where
    step :
        (n : ℕ)
        → resp.healthy_backends ≡ pos n
        → (up : Bool) → is_healthy b.status ≡ up
        → ((k : ℕ)
            → (if up then resp.healthy_backends +ℤ pos 1 else resp.healthy_backends) ≡ pos k
            → (report_backends words r (report_step words r resp b) bs).healthy_backends
              ≡ pos (k + healthy_count bs))
        → (report_backends words r (report_step words r resp b) bs).healthy_backends
          ≡ pos (n + (if up then suc (healthy_count bs) else healthy_count bs))
    step n h true e rest = rest (n + 1) (ground arith) ∙ ap pos (omega arith)
    step n h false e rest = rest n h

report_rest :
    (power : Option PowerReading) (energy : Option EnergyReading) (resp : StatusResponse)
    → let t = report_energy energy (report_power power resp) in
      (t.backends ≡ resp.backends)
      × (t.total_in_flight ≡ resp.total_in_flight)
      × (t.healthy_backends ≡ resp.healthy_backends)
      × (t.models ≡ resp.models)
unfolding report_energy report_power
report_rest none none resp = (refl, refl, refl, refl)
report_rest (some p) none resp = (refl, refl, refl, refl)
report_rest none (some e) resp = (refl, refl, refl, refl)
report_rest (some p) (some e) resp = (refl, refl, refl, refl)

-- A node reports each of its backends, in order, the sum of their requests in flight, how many of
-- them are healthy, and its own model as the only one.
pub status_response_totals :
    (words : StatusWords) (gpus : List GpuInfo) (total used : ℤ) (r : Registry)
    → let t = status_response words gpus total used r in
      (t.backends ≡ map (backend_info words r) r.backends)
      × (t.total_in_flight ≡ total_in_flight r)
      × (t.healthy_backends ≡ pos (healthy_count r.backends))
      × (t.models ≡ r.local_model ∷ [])
unfolding status_response total_in_flight blank_response
status_response_totals words gpus total used r =
    let blank = blank_response gpus total used r in
    let (infos, load, healthy, models) = report_backends_lem words r blank r.backends in
    let (infos', load', healthy', models') =
      report_rest r.power r.energy (report_backends words r blank r.backends) in
    (
      infos' ∙ infos,
      load' ∙ load,
      healthy' ∙ healthy 0 refl ∙ ap pos (omega arith),
      models' ∙ models,
    )

-- The larger of two numbers.
abbrev pub IsLarger : ℤ → ℤ → ℤ → Type 0
IsLarger a b m = (a ≤ℤ m) × (b ≤ℤ m) × ((m ≡ a) ⊎ (m ≡ b))

larger :
    (q : PeerState) (load : ℤ)
    → q.polled_in_flight ≡ load
    → IsLarger load q.local_in_flight (peer_in_flight q)
unfolding peer_in_flight
larger q load h = (ground arith, ground arith, ground arith)

has_own_model : {m : String} (q : PeerState) → q.models ≡ m ∷ [] → has_model m q ≡ true
unfolding has_model
has_own_model {m} q h = let same : str_eq m m ≡ true = (str_eq_iff m m).1 refl in rw (h, same)

poll_all_at :
    (res : List PollResult) (ps : List PeerState) (i : ℕ) (x : PollResult) (p : PeerState)
    → get_elem? res i ≡ some x
    → get_elem? ps i ≡ some p
    → get_elem? (poll_all res ps) i ≡ some (poll_peer x p)
unfolding poll_all
poll_all_at [] ps i x p h k = absurd (ground arith)
poll_all_at (y ∷ res) [] i x p h k = absurd (ground arith)
poll_all_at (y ∷ res) (q ∷ ps) zero x p h k =
    ap some
      (ap (λ z. poll_peer z q) (some-injective _ _ h) ∙ ap (poll_peer x) (some-injective _ _ k))
poll_all_at (y ∷ res) (q ∷ ps) (suc i) x p h k = poll_all_at res ps i x p h k

-- The poll of the peer at `i` that a node answers with its report gives that node's model a route to
-- the peer, whose load is what the node has in flight, or what this one has with it if that is more.
pub poll_once-resolve :
    (words : StatusWords) (gpus : List GpuInfo) (total used : ℤ) (r s : Registry)
    (results : List PollResult) (i : ℕ) (p : PeerState)
    → get_elem? s.peers i ≡ some p
    → get_elem? results i ≡ some (answered (status_response words gpus total used r))
    → (t : Route) × Memᴰ t (resolve (poll_once results s) r.local_model)
      × (t.peer ≡ some i)
      × (t.addr ≡ p.addr)
      × IsLarger (total_in_flight r) p.local_in_flight t.in_flight
unfolding poll_once poll_peer update
poll_once-resolve words gpus total used r s results i p at said =
    let resp = status_response words gpus total used r in
    let (_, load, _, models) = status_response_totals words gpus total used r in
    let q = update resp p in
    let there = poll_all_at results s.peers i (answered resp) p said at in
    (
      peer_route i q,
      (resolve_iff (poll_once results s) r.local_model (peer_route i q)).1
          (inr (i, q, there, refl, has_own_model q models, ap (λ n. peer_route n q) (omega arith))),
      refl,
      refl,
      larger q (total_in_flight r) load,
    )
