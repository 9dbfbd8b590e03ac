-- ===== src/Peer/Registry/Routing.antt =====
-- Which routes `Resolve` (internal/peer/registry.go) offers for a model.
use viiwork_freetoken.Prelude.{
  ℕ, zero, suc, ◌+◌, ◌≡◌, refl, ap, ◌∙◌, ◌⊎◌, ◌↔◌, inl, inr, true, ◌&&◌, List, [], ◌∷◌, ◌++◌, some,
  String, str_eq, str_eq_iff, get_elem?, Memᴰ, mem-if_cons, if_cons-head, if_cons-tail,
  mem-append_left, mem-append_right, mem-append_cases, Bool-cases, if◌then◌else◌, arith,
}
use viiwork_freetoken.Balancer.State.{BackendState, healthy}
use viiwork_freetoken.Balancer.Pick.{is_healthy}
use viiwork_freetoken.Peer.State.{PeerState, reachable, has_model}
use viiwork_freetoken.Peer.Route.{Route}
use viiwork_freetoken.Peer.Registry.{
  Registry, is_reachable, local_route, peer_route, local_routes, peer_routes, resolve,
}

-- A healthy backend of the list, at a position counted from `k`.
abbrev pub IsLocal : ℕ → List BackendState → Route → Type 0
IsLocal k bs t =
    (i : ℕ) × (b : BackendState) × (get_elem? bs i ≡ some b)
    × (b.status ≡ healthy)
    × (t ≡ local_route (k + i) b)

-- A reachable peer of the list that reports the model.
abbrev pub IsPeer : ℕ → String → List PeerState → Route → Type 0
IsPeer k name ps t =
    (i : ℕ) × (p : PeerState) × (get_elem? ps i ≡ some p)
    × (p.status ≡ reachable)
    × (has_model name p ≡ true)
    × (t ≡ peer_route (k + i) p)

IsLocal-tail :
    (k : ℕ) (b : BackendState) (bs : List BackendState) (t : Route)
    → IsLocal (k + 1) bs t
    → IsLocal k (b ∷ bs) t
IsLocal-tail k b bs t (i, c, at, up, e) =
    (suc i, c, at, up, e ∙ ap (λ n. local_route n c) (omega arith))

local_routes-IsLocal :
    (k : ℕ) (bs : List BackendState) (t : Route) → Memᴰ t (local_routes k bs) → IsLocal k bs t
unfolding local_routes
local_routes-IsLocal k [] t m = elim m [ ]
local_routes-IsLocal k (b ∷ bs) t m =
    elim (mem-if_cons (is_healthy b.status) (local_route k b) (local_routes (k + 1) bs) m) [
      | inl (up, e) ↦ (0, b, refl, ground arith, e ∙ ap (λ n. local_route n b) (omega arith))
      | inr n ↦ IsLocal-tail k b bs t (local_routes-IsLocal (k + 1) bs t n)
    ]

IsLocal-mem :
    (k : ℕ) (bs : List BackendState) (t : Route) → IsLocal k bs t → Memᴰ t (local_routes k bs)
unfolding local_routes
IsLocal-mem k [] t (i, b, at, up, e) = absurd (ground arith)
IsLocal-mem k (b ∷ bs) t (zero, c, at, up, e) =
    if_cons-head (is_healthy b.status) (local_route k b) (local_routes (k + 1) bs) (ground arith)
      (ground arith)
IsLocal-mem k (b ∷ bs) t (suc i, c, at, up, e) =
    if_cons-tail (is_healthy b.status) (local_route k b) (local_routes (k + 1) bs)
      (IsLocal-mem (k + 1) bs t (i, c, at, up, e ∙ ap (λ n. local_route n c) (omega arith)))

IsPeer-tail :
    (k : ℕ) (name : String) (p : PeerState) (ps : List PeerState) (t : Route)
    → IsPeer (k + 1) name ps t
    → IsPeer k name (p ∷ ps) t
IsPeer-tail k name p ps t (i, q, at, up, has, e) =
    (suc i, q, at, up, has, e ∙ ap (λ n. peer_route n q) (omega arith))

peer_routes-IsPeer :
    (k : ℕ) (name : String) (ps : List PeerState) (t : Route)
    → Memᴰ t (peer_routes k name ps)
    → IsPeer k name ps t
unfolding peer_routes
peer_routes-IsPeer k name [] t m = elim m [ ]
peer_routes-IsPeer k name (p ∷ ps) t m =
    let c = is_reachable p.status && has_model name p in
    elim (mem-if_cons c (peer_route k p) (peer_routes (k + 1) name ps) m) [
      | inl (up, e) ↦
          (0, p, refl, ground arith, ground arith, e ∙ ap (λ n. peer_route n p) (omega arith))
      | inr n ↦ IsPeer-tail k name p ps t (peer_routes-IsPeer (k + 1) name ps t n)
    ]

IsPeer-mem :
    (k : ℕ) (name : String) (ps : List PeerState) (t : Route)
    → IsPeer k name ps t
    → Memᴰ t (peer_routes k name ps)
unfolding peer_routes
IsPeer-mem k name [] t (i, p, at, up, has, e) = absurd (ground arith)
IsPeer-mem k name (p ∷ ps) t (zero, q, at, up, has, e) =
    if_cons-head (is_reachable p.status && has_model name p) (peer_route k p)
      (peer_routes (k + 1) name ps) (ground arith) (ground arith)
IsPeer-mem k name (p ∷ ps) t (suc i, q, at, up, has, e) =
    if_cons-tail (is_reachable p.status && has_model name p) (peer_route k p)
      (peer_routes (k + 1) name ps)
      (IsPeer-mem (k + 1) name ps t (i, q, at, up, has, e ∙ ap (λ n. peer_route n q) (omega arith)))

-- What a route for the model stands for.
abbrev pub Serves : Registry → String → Route → Type 0
Serves r name t = ((name ≡ r.local_model) × IsLocal 0 r.backends t) ⊎ IsPeer 0 name r.peers t

abbrev own_routes : Registry → String → List Route
own_routes r name = if str_eq name r.local_model then local_routes 0 r.backends else []

own_routes-mem :
    (r : Registry) (name : String) (t : Route)
    → Memᴰ t (own_routes r name) ↔ ((name ≡ r.local_model) × IsLocal 0 r.backends t)
own_routes-mem r name t = elim (Bool-cases (str_eq name r.local_model)) [
  | inl e ↦ rw e (
    (λ m. ((str_eq_iff name r.local_model).0 e, local_routes-IsLocal 0 r.backends t m)),
    (λ h. IsLocal-mem 0 r.backends t h.1),
  )
  | inr e ↦ rw e ((λ m. elim m [ ]), (λ h. ground (arith, str_eq_iff name r.local_model)))
]

-- `Resolve` offers exactly the healthy local backends, if the model is this node's own, and the
-- reachable peers that report the model, each with its present load.
pub resolve_iff :
    (r : Registry) (name : String) (t : Route) → Memᴰ t (resolve r name) ↔ Serves r name t
unfolding resolve
resolve_iff r name t = (offered, listed)
  where
    offered : Memᴰ t (own_routes r name ++ peer_routes 0 name r.peers) → Serves r name t
    offered m = elim (mem-append_cases (own_routes r name) (peer_routes 0 name r.peers) m) [
      | inl n ↦ inl ((own_routes-mem r name t).0 n)
      | inr n ↦ inr (peer_routes-IsPeer 0 name r.peers t n)
    ]

    listed : Serves r name t → Memᴰ t (own_routes r name ++ peer_routes 0 name r.peers)
    listed (inl h) = mem-append_left (own_routes r name) _ ((own_routes-mem r name t).1 h)
    listed (inr h) = mem-append_right (own_routes r name) _ (IsPeer-mem 0 name r.peers t h)
