-- ===== src/Proxy/Dispatch/Candidates.antt =====
-- Where a request may go (internal/proxy/handler.go).
use viiwork_freetoken.Prelude.{
  ◌≡◌, ◌≢◌, ◌↔◌, refl, inl, inr, List, [], ◌∷◌, String, str_eq, str_eq_iff, ℤ, keep-mem, mem-keep,
  All-get, Memᴰ, Bool-cases, arith,
}
use viiwork_freetoken.Peer.Route.{
  Route, route_local, Choice, picked, no_route, backpressure, panics, Counters, is_local,
}
use viiwork_freetoken.Peer.Route.Outcome.{IsFull, Precedes, Chosen, pick_route-Chosen}
use viiwork_freetoken.Peer.Registry.{Registry, resolve}
use viiwork_freetoken.Peer.Registry.Routing.{Serves, resolve_iff}
use viiwork_freetoken.Proxy.Dispatch.{
  names, Outcome, bad_request, no_backend, at_capacity, internal_error, dispatched, local_only,
  model_name, candidates, outcome_of, route_request,
}

-- A route that serves the model, a local one if the request was forwarded before.
abbrev pub IsCandidate : Registry → String → String → Route → Type 0
IsCandidate r name origin t = Serves r name t × (origin ≢ "" → t.kind ≡ route_local)

candidates_iff :
    (r : Registry) (name origin : String) (t : Route)
    → Memᴰ t (candidates r name origin) ↔ IsCandidate r name origin t
unfolding candidates local_only
candidates_iff r name origin t = elim (Bool-cases (str_eq origin "")) [
  | inl e ↦ rw e (
    (λ m. ((resolve_iff r name t).0 m, (λ n. absurd (n (ground (arith, str_eq_iff origin "")))))),
    (λ s. (resolve_iff r name t).1 s.0),
  )
  | inr e ↦ rw e (
    (λ m.
        let (k, l) = keep-mem (λ u. is_local u.kind) (resolve r name) m in
        ((resolve_iff r name t).0 k, (λ n. ground arith))),
    (λ s.
        let l : t.kind ≡ route_local = s.1 (λ h. ground (arith, str_eq_iff origin "")) in
        mem-keep (λ u. is_local u.kind) (resolve r name) ((resolve_iff r name t).1 s.0)
          (ground arith)),
  )
]

-- What each outcome says of the candidates.
abbrev pub Decided : Registry → ℤ → String → String → Outcome → Type 0
Decided r max name origin (dispatched t) =
    IsCandidate r name origin t
    × ¬ IsFull max t
    × ((u : Route) → IsCandidate r name origin u → ¬ IsFull max u → Precedes t u)
Decided r max name origin no_backend = (u : Route) → ¬ IsCandidate r name origin u
Decided r max name origin at_capacity =
    ((u : Route) × IsCandidate r name origin u)
    × ((u : Route) → IsCandidate r name origin u → IsFull max u)
Decided r max name origin bad_request = ⊥
Decided r max name origin internal_error = ⊥

module _ (r : Registry) (max : ℤ) (name origin : String) where
  abbrev found : List Route
  found = candidates r name origin

  some_found : (rs : List Route) → rs ≢ [] → (u : Route) × Memᴰ u rs
  some_found [] h = absurd (h refl)
  some_found (u ∷ rs) h = (u, Memᴰ.head refl)

  none_found : (rs : List Route) → rs ≡ [] → (u : Route) → ¬ Memᴰ u rs
  none_found [] h u m = elim m [ ]
  none_found (v ∷ rs) h u m = absurd (ground arith)

  Chosen-Decided :
      (choice : Choice) → Chosen max found choice → Decided r max name origin (outcome_of choice)
  unfolding outcome_of
  Chosen-Decided (picked t) (m, room, first) = (
    (candidates_iff r name origin t).0 m,
    room,
    λ u c n. All-get _ found ((candidates_iff r name origin u).1 c) first n,
  )
  Chosen-Decided no_route e = λ u c. none_found found e u ((candidates_iff r name origin u).1 c)
  Chosen-Decided backpressure (n, full) =
      let (u, m) = some_found found n in
      (
        (u, (candidates_iff r name origin u).0 m),
        λ v c. All-get _ found ((candidates_iff r name origin v).1 c) full,
      )
  Chosen-Decided panics h = elim h [ ]

-- A request whose body decodes is dispatched to a route that serves its model, or this node's own
-- where it names none; a request that was forwarded before goes to a local backend only. The route is
-- below its ceiling and no such route has less in flight. It is refused as having no backend only if
-- no route serves the model so, and as being at capacity only if some do and all are full.
pub route_request-Decided :
    (r : Registry) (max : ℤ) (name origin : String) (c : Counters)
    → Decided r max (model_name r name) origin (route_request r max (names name) origin c).0
unfolding route_request
route_request-Decided r max name origin c =
    Chosen-Decided r max (model_name r name) origin _
      (pick_route-Chosen (candidates r (model_name r name) origin) max c)
