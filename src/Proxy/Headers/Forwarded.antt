-- ===== src/Proxy/Headers/Forwarded.antt =====
-- A request is forwarded at most once, and no response brings the permissions of another node
-- (internal/proxy).
use viiwork_freetoken.Prelude.{
  ◌≡◌, ◌≢◌, ◌⊎◌, refl, sym, ap, ◌∙◌, subst, inl, inr, Bool, true, false, ◌||◌, List, [], ◌∷◌,
  String, str_eq, str_eq_iff, ℤ, Memᴰ, mem-append_cases, Bool-cases, if◌then◌else◌, arith,
}
use viiwork_freetoken.Peer.Route.{Route, route_local, Counters}
use viiwork_freetoken.Peer.Registry.{Registry}
use viiwork_freetoken.Proxy.Dispatch.{
  Body, unreadable, not_json, names, dispatched, model_name, route_request,
}
use viiwork_freetoken.Proxy.Dispatch.Candidates.{Decided, route_request-Decided}
use viiwork_freetoken.Proxy.Headers.{
  Header, Canonical, origin_header, hop_by_hop, get_header, delete_header, set_header, end_to_end,
  copy_request_headers, is_cors, passed_on, copy_response_headers, peer_request_headers,
}

get_header-set_header :
    (name v : String) (hs : List Header) → get_header name (set_header name v hs) ≡ v
unfolding get_header set_header
get_header-set_header name v hs =
    let same : str_eq name name ≡ true = (str_eq_iff name name).1 refl in rw same

-- A request that a node forwards is dispatched to a local backend by the node that gets it, if to any,
-- whatever origin header the client sent along: no request makes a second hop. The node that forwards
-- it has an id.
pub peer_request_headers-route_request :
    (canonical : Canonical) (sender : Registry) (src : List Header) (r : Registry) (max : ℤ)
    (body : Body) (c : Counters) (t : Route)
    → sender.node_id ≢ ""
    → (route_request r max body
        (get_header origin_header (peer_request_headers canonical sender.node_id src))
        c).0
      ≡ dispatched t
    → t.kind ≡ route_local
unfolding peer_request_headers route_request
peer_request_headers-route_request canonical sender src r max unreadable c t given h =
    absurd (ground arith)
peer_request_headers-route_request canonical sender src r max not_json c t given h =
    absurd (ground arith)
peer_request_headers-route_request canonical sender src r max (names name) c t given h =
    let origin = get_header origin_header (peer_request_headers canonical sender.node_id src) in
    let marked : origin ≡ sender.node_id =
      get_header-set_header origin_header sender.node_id (copy_request_headers canonical src) in
    let decided = route_request-Decided r max name origin c in
    let at : Decided r max (model_name r name) origin (dispatched t) =
      subst (Decided r max (model_name r name) origin) h decided in
    at.0.1 (λ e. given (sym marked ∙ e))

abbrev name_of : Header → String
name_of h = h.0

end_to_end-kept :
    (canonical : Canonical) (hs : List Header) (h : Header)
    → Memᴰ h (end_to_end canonical hs)
    → hop_by_hop (name_of h) ≡ false
unfolding end_to_end
end_to_end-kept canonical [] h m = elim m [ ]
end_to_end-kept canonical ((j, u) ∷ hs) h m = elim (Bool-cases (hop_by_hop (canonical j))) [
  | inl e ↦ end_to_end-kept canonical hs h (subst (Memᴰ h) (ap (pick j u) e) m)
  | inr e ↦ elim (subst (Memᴰ h) (ap (pick j u) e) m) [
    | Memᴰ.head p ↦ ap (λ x. hop_by_hop (name_of x)) p ∙ e
    | Memᴰ.tail n ↦ end_to_end-kept canonical hs h n
  ]
]
  where
    pick : String → String → Bool → List Header
    pick j u b = if b then end_to_end canonical hs else (canonical j, u) ∷ end_to_end canonical hs

passed_on-kept :
    (canonical : Canonical) (hs : List Header) (h : Header)
    → Memᴰ h (passed_on canonical hs)
    → (hop_by_hop (name_of h) || is_cors (name_of h)) ≡ false
unfolding passed_on
passed_on-kept canonical [] h m = elim m [ ]
passed_on-kept canonical ((j, u) ∷ hs) h m =
    elim (Bool-cases (hop_by_hop (canonical j) || is_cors (canonical j))) [
      | inl e ↦ passed_on-kept canonical hs h (subst (Memᴰ h) (ap (pick j u) e) m)
      | inr e ↦ elim (subst (Memᴰ h) (ap (pick j u) e) m) [
        | Memᴰ.head p ↦ ap (λ x. hop_by_hop (name_of x) || is_cors (name_of x)) p ∙ e
        | Memᴰ.tail n ↦ passed_on-kept canonical hs h n
      ]
    ]
  where
    pick : String → String → Bool → List Header
    pick j u b = if b then passed_on canonical hs else (canonical j, u) ∷ passed_on canonical hs

delete_header-mem :
    (name : String) (hs : List Header) (h : Header) → Memᴰ h (delete_header name hs) → Memᴰ h hs
unfolding delete_header
delete_header-mem name [] h m = m
delete_header-mem name ((j, u) ∷ hs) h m = elim (Bool-cases (str_eq j name)) [
  | inl e ↦ Memᴰ.tail (delete_header-mem name hs h (subst (Memᴰ h) (ap (pick j u) e) m))
  | inr e ↦ elim (subst (Memᴰ h) (ap (pick j u) e) m) [
    | Memᴰ.head p ↦ Memᴰ.head p
    | Memᴰ.tail n ↦ Memᴰ.tail (delete_header-mem name hs h n)
  ]
]
  where
    pick : String → String → Bool → List Header
    pick j u b = if b then delete_header name hs else (j, u) ∷ delete_header name hs

copy_request_headers-kept :
    (canonical : Canonical) (src : List Header) (h : Header)
    → Memᴰ h (copy_request_headers canonical src)
    → hop_by_hop (name_of h) ≡ false
unfolding copy_request_headers set_header hop_by_hop
copy_request_headers-kept canonical src h m =
    let dst = end_to_end canonical src in
    elim (Bool-cases (str_eq (get_header "Content-Type" dst) "")) [
      | inl e ↦ elim (subst (Memᴰ h) (ap (typed dst) e) m) [
        | Memᴰ.head p ↦ ap (λ x. hop_by_hop (name_of x)) p
        | Memᴰ.tail n ↦ end_to_end-kept canonical src h (delete_header-mem "Content-Type" dst h n)
      ]
      | inr e ↦ end_to_end-kept canonical src h (subst (Memᴰ h) (ap (typed dst) e) m)
    ]
  where
    typed : List Header → Bool → List Header
    typed dst b = if b then set_header "Content-Type" "application/json" dst else dst

-- No header of a single connection is passed on with a request, and of what a response of a backend or
-- a peer brings along no such header and no permission for another origin: a response has only the
-- permissions that this node has given itself.
pub copy_headers-kept :
    (canonical : Canonical) (src upstream w : List Header) (h : Header)
    → (Memᴰ h (copy_request_headers canonical src) → hop_by_hop h.0 ≡ false)
      × (Memᴰ h (copy_response_headers canonical upstream w)
          → Memᴰ h w ⊎ ((hop_by_hop h.0 || is_cors h.0) ≡ false))
unfolding copy_response_headers
copy_headers-kept canonical src upstream w h = (
  copy_request_headers-kept canonical src h,
  λ m. elim (mem-append_cases w (passed_on canonical upstream) m) [
    | inl k ↦ inl k
    | inr k ↦ inr (passed_on-kept canonical upstream h k)
  ],
)
