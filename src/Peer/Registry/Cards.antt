-- ===== src/Peer/Registry/Cards.antt =====
-- Whose models `GPUModels` (internal/peer/registry.go) puts on the host's cards.
use viiwork_freetoken.Prelude.{
  ◌≡◌, ◌≢◌, refl, subst, ◌⊎◌, inl, inr, Bool, true, false, not, ◌||◌, List, [], ◌∷◌, some, String,
  str_eq, str_eq_iff, ℤ, eqb_ℤ, eqb_ℤ_iff, Memᴰ, Bool-cases, if◌then◌else◌, arith,
}
use viiwork_freetoken.Balancer.State.{BackendState}
use viiwork_freetoken.Peer.State.{BackendInfo, PeerState, PeerStatus, reachable, unreachable}
use viiwork_freetoken.Peer.Registry.{
  Registry, Models, no_models, is_reachable, backend_gpu_ids, assign, adopt_backends, adopt_peers,
  own_cards, gpu_models,
}

-- A later write of the same model does not change what a card has.
assign_stays :
    (m : String) (ids : List ℤ) (out : Models) (id : ℤ)
    → out id ≡ some m
    → assign m ids out id ≡ some m
unfolding assign
assign_stays m [] out id h = h
assign_stays m (j ∷ ids) out id h = assign_stays m ids _ id (ground arith)

assign_hit :
    (m : String) (ids : List ℤ) (out : Models) (id : ℤ) → Memᴰ id ids → assign m ids out id ≡ some m
unfolding assign
assign_hit m [] out id k = elim k [ ]
assign_hit m (j ∷ ids) out id (Memᴰ.head e) =
    assign_stays m ids _ id (ground (arith, (eqb_ℤ_iff id j).1 e))
assign_hit m (j ∷ ids) out id (Memᴰ.tail k) = assign_hit m ids _ id k

assign_source :
    (m v : String) (ids : List ℤ) (out : Models) (id : ℤ)
    → assign m ids out id ≡ some v
    → (Memᴰ id ids × (v ≡ m)) ⊎ (out id ≡ some v)
unfolding assign
assign_source m v [] out id h = inr h
assign_source m v (j ∷ ids) out id h = elim (assign_source m v ids _ id h) [
  | inl (k, e) ↦ inl (Memᴰ.tail k, e)
  | inr k ↦ elim (Bool-cases (eqb_ℤ id j)) [
    | inl e ↦ inl (Memᴰ.head ((eqb_ℤ_iff id j).0 e), ground arith)
    | inr e ↦ inr (ground arith)
  ]
]

-- A backend of the list claims the card.
abbrev pub Owns : List BackendState → ℤ → Type 0
Owns bs id = (b : BackendState) × Memᴰ b bs × Memᴰ id b.gpu_ids

own_cards_stay :
    (m : String) (bs : List BackendState) (out : Models) (id : ℤ)
    → out id ≡ some m
    → own_cards m bs out id ≡ some m
unfolding own_cards
own_cards_stay m [] out id h = h
own_cards_stay m (b ∷ bs) out id h = own_cards_stay m bs _ id (assign_stays m b.gpu_ids out id h)

own_cards_hit :
    (m : String) (bs : List BackendState) (out : Models) (id : ℤ)
    → Owns bs id
    → own_cards m bs out id ≡ some m
unfolding own_cards
own_cards_hit m [] out id (b, at, k) = elim at [ ]
own_cards_hit m (c ∷ bs) out id (b, Memᴰ.head e, k) =
    own_cards_stay m bs _ id (assign_hit m c.gpu_ids out id (subst (λ d. Memᴰ id d.gpu_ids) e k))
own_cards_hit m (c ∷ bs) out id (b, Memᴰ.tail at, k) = own_cards_hit m bs _ id (b, at, k)

own_cards_source :
    (m v : String) (bs : List BackendState) (out : Models) (id : ℤ)
    → own_cards m bs out id ≡ some v
    → (Owns bs id × (v ≡ m)) ⊎ (out id ≡ some v)
unfolding own_cards
own_cards_source m v [] out id h = inr h
own_cards_source m v (b ∷ bs) out id h = elim (own_cards_source m v bs _ id h) [
  | inl ((c, at, k), e) ↦ inl ((c, Memᴰ.tail at, k), e)
  | inr k ↦ elim (assign_source m v b.gpu_ids out id k) [
    | inl (i, e) ↦ inl ((b, Memᴰ.head refl, i), e)
    | inr i ↦ inr i
  ]
]

-- Some backend in a peer's report claims the card, under the model.
abbrev pub Reports : List BackendInfo → ℤ → String → Type 0
Reports bs id v = (b : BackendInfo) × Memᴰ b bs × Memᴰ id (backend_gpu_ids b) × (v ≡ b.model)

-- A reachable peer on the host reports the card.
abbrev pub Adopted : String → List PeerState → ℤ → String → Type 0
Adopted host ps id v =
    (p : PeerState) × Memᴰ p ps
    × (p.status ≡ reachable)
    × (p.hostname ≡ host)
    × Reports p.backends id v

adopt_backends_source :
    (v : String) (bs : List BackendInfo) (out : Models) (id : ℤ)
    → adopt_backends bs out id ≡ some v
    → Reports bs id v ⊎ (out id ≡ some v)
unfolding adopt_backends
adopt_backends_source v [] out id h = inr h
adopt_backends_source v (b ∷ bs) out id h = elim (adopt_backends_source v bs _ id h) [
  | inl (c, at, k, e) ↦ inl (c, Memᴰ.tail at, k, e)
  | inr k ↦ elim (assign_source b.model v (backend_gpu_ids b) out id k) [
    | inl (i, e) ↦ inl (b, Memᴰ.head refl, i, e)
    | inr i ↦ inr i
  ]
]

adopt_one_source :
    (host v : String) (p : PeerState) (out : Models) (id : ℤ)
    → (if not (is_reachable p.status) || not (str_eq p.hostname host)
          then out
          else adopt_backends p.backends out)
        id
      ≡ some v
    → ((p.status ≡ reachable) × (p.hostname ≡ host) × Reports p.backends id v) ⊎ (out id ≡ some v)
adopt_one_source host v p out id h = go p.status (str_eq p.hostname host) refl refl h
  where
    go :
        (s : PeerStatus) (same : Bool)
        → p.status ≡ s
        → str_eq p.hostname host ≡ same
        → (if not (is_reachable s) || not same then out else adopt_backends p.backends out) id
          ≡ some v
        → ((p.status ≡ reachable) × (p.hostname ≡ host) × Reports p.backends id v)
          ⊎ (out id ≡ some v)
    go unreachable same e f k = inr k
    go reachable false e f k = inr k
    go reachable true e f k = elim (adopt_backends_source v p.backends out id k) [
      | inl c ↦ inl (e, (str_eq_iff p.hostname host).0 f, c)
      | inr i ↦ inr i
    ]

adopt_peers_source :
    (host v : String) (ps : List PeerState) (out : Models) (id : ℤ)
    → adopt_peers host ps out id ≡ some v
    → Adopted host ps id v ⊎ (out id ≡ some v)
unfolding adopt_peers
adopt_peers_source host v [] out id h = inr h
adopt_peers_source host v (p ∷ ps) out id h = elim (adopt_peers_source host v ps _ id h) [
  | inl (q, at, up, same, k) ↦ inl (q, Memᴰ.tail at, up, same, k)
  | inr k ↦ elim (adopt_one_source host v p out id k) [
    | inl (up, same, c) ↦ inl (p, Memᴰ.head refl, up, same, c)
    | inr i ↦ inr i
  ]
]

-- A card of an own backend carries this node's model, whatever the peers report. Any other card
-- carries a model only if the node knows its host name and a reachable peer with that very name has
-- a backend that claims the card for the model.
pub gpu_models_source :
    (r : Registry) (id : ℤ)
    → (Owns r.backends id → gpu_models r id ≡ some r.local_model)
      × ((v : String)
          → gpu_models r id ≡ some v
          → (Owns r.backends id × (v ≡ r.local_model))
            ⊎ ((r.hostname ≢ "") × Adopted r.hostname r.peers id v))
unfolding gpu_models
gpu_models_source r id = (
  own_cards_hit r.local_model r.backends _ id,
  λ v h. elim (own_cards_source r.local_model v r.backends _ id h) [
    | inl own ↦ inl own
    | inr k ↦ inr (foreign v (str_eq r.hostname "") refl k)
  ],
)
  where
    foreign :
        (v : String) (unnamed : Bool)
        → str_eq r.hostname "" ≡ unnamed
        → (if not unnamed then adopt_peers r.hostname r.peers no_models else no_models) id ≡ some v
        → (r.hostname ≢ "") × Adopted r.hostname r.peers id v
    foreign v true e k = absurd (ground arith)
    foreign v false e k = (
      (λ f. ground (arith, str_eq_iff r.hostname "")),
      only (adopt_peers_source r.hostname v r.peers no_models id k),
    )
      where
        only :
            Adopted r.hostname r.peers id v ⊎ (no_models id ≡ some v)
            → Adopted r.hostname r.peers id v
        only (inl a) = a
        only (inr n) = absurd (ground arith)
