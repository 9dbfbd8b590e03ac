-- ===== src/Peer/Cluster/Listed.antt =====
-- Which models and hosts the whole-mesh view of internal/peer/registry.go lists.
use viiwork_freetoken.Prelude.{
  ℕ, zero, suc, ◌+◌, ◌≡◌, ◌≢◌, ◌↔◌, ◌⊎◌, refl, ◌∙◌, subst, inl, inr, true, List, [], ◌∷◌, ◌++◌,
  some, String, str_eq, str_eq_iff, get_elem?, Memᴰ, Bool-cases, mem-append_left, mem-append_right,
  mem-append_cases, arith,
}
use viiwork_freetoken.Balancer.State.{StatusWords}
use viiwork_freetoken.Peer.State.{PeerState, PeerStatus, reachable, has_model}
use viiwork_freetoken.Peer.Route.{Route}
use viiwork_freetoken.Peer.Registry.{Registry, is_reachable, peer_route, resolve}
use viiwork_freetoken.Peer.Registry.Routing.{Serves, resolve_iff}
use viiwork_freetoken.Peer.Cluster.{fresh, own_model, reachable_models, cluster_state}
use viiwork_freetoken.Peer.Cluster.Names.{sort_names_iff, has_model_in_iff, all_names_iff}

-- A reachable peer reports the model.
abbrev pub Reported : List PeerState → String → Type 0
Reported ps n =
    (i : ℕ) × (p : PeerState) × (get_elem? ps i ≡ some p)
    × (is_reachable p.status ≡ true)
    × (has_model n p ≡ true)

Reported-tail :
    (p : PeerState) (ps : List PeerState) (n : String) → Reported ps n → Reported (p ∷ ps) n
Reported-tail p ps n (i, q, at, up, has) = (suc i, q, at, up, has)

reachable_models_iff :
    (ps : List PeerState) (n : String) → Memᴰ n (reachable_models ps) ↔ Reported ps n
unfolding reachable_models has_model
reachable_models_iff [] n =
    ((λ m. elim m [ ]), (λ r. let (i, p, at, up, has) = r in absurd (ground arith)))
reachable_models_iff (p ∷ ps) n =
    let (one, other) = reachable_models_iff ps n in
    let here = has_model_in_iff n p.models in
    elim (Bool-cases (is_reachable p.status)) [
      | inl e ↦ rw e (
        (λ m. elim (mem-append_cases p.models (reachable_models ps) m) [
          | inl k ↦ (0, p, refl, e, here.1 k)
          | inr k ↦ Reported-tail p ps n (one k)
        ]),
        (λ r. elim (split r) [
          | inl (up, has) ↦ mem-append_left p.models (reachable_models ps) (here.0 has)
          | inr k ↦ mem-append_right p.models (reachable_models ps) (other k)
        ]),
      )
      | inr e ↦ rw e (
        (λ m. Reported-tail p ps n (one m)),
        (λ r. elim (split r) [ inl (up, has) ↦ absurd (ground arith) | inr k ↦ other k ]),
      )
    ]
  where
    split :
        Reported (p ∷ ps) n
        → ((is_reachable p.status ≡ true) × (has_model n p ≡ true)) ⊎ Reported ps n
    split (zero, q, at, up, has) =
        let same : q ≡ p = ground arith in
        inl (
          subst (λ x. is_reachable (PeerState.status x) ≡ true) same up,
          subst (λ x. has_model n x ≡ true) same has,
        )
    split (suc i, q, at, up, has) = inr (i, q, at, up, has)

pub own_model_iff :
    (r : Registry) (n : String) → Memᴰ n (own_model r) ↔ ((n ≡ r.local_model) × (n ≢ ""))
own_model_iff r n = elim (Bool-cases (str_eq r.local_model "")) [
  | inl e ↦ rw e ((λ m. elim m [ ]), (λ h. absurd (h.1 (h.0 ∙ (str_eq_iff r.local_model "").0 e))))
  | inr e ↦ rw e (
    (λ m. elim m [
      | Memᴰ.head h ↦ (h, (λ k. ground (arith, str_eq_iff r.local_model "")))
      | Memᴰ.tail l ↦ elim l [ ]
    ]),
    (λ h. Memᴰ.head h.0),
  )
]

-- The own model and what reachable peers report.
pub cluster_models_iff :
    (words : StatusWords) (r : Registry) (n : String)
    → Memᴰ n (cluster_state words r).models
      ↔ (((n ≡ r.local_model) × (n ≢ "")) ⊎ Reported r.peers n)
unfolding cluster_state
cluster_models_iff words r n =
    let names = own_model r ++ fresh (own_model r) (reachable_models r.peers) in
    let (out, back) = sort_names_iff names n in
    let (one, other) = all_names_iff (own_model r) (reachable_models r.peers) n in
    let own = own_model_iff r n in
    let far = reachable_models_iff r.peers n in
    (
      (λ m. elim (one (out m)) [ inl k ↦ inl (own.0 k) | inr k ↦ inr (far.0 k) ]),
      (λ c. elim c [ inl h ↦ back (other (inl (own.1 h))) | inr h ↦ back (other (inr (far.1 h))) ]),
    )

reported_up : (s : PeerStatus) → (is_reachable s ≡ true) ↔ (s ≡ reachable)
reported_up s = (λ h. ground arith, λ h. ground arith)

-- Of the models other than the node's own, the whole-mesh view lists exactly those for which `Resolve`
-- has a route; the own one is listed whether or not a backend is healthy.
pub cluster_state-resolve :
    (words : StatusWords) (r : Registry) (name : String)
    → (name ≢ r.local_model
        → Memᴰ name (cluster_state words r).models ↔ ((t : Route) × Memᴰ t (resolve r name)))
      × (name ≡ r.local_model → name ≢ "" → Memᴰ name (cluster_state words r).models)
cluster_state-resolve words r name =
    let (one, other) = cluster_models_iff words r name in
    (
      (λ far. (
        (λ m. elim (one m) [
          | inl own ↦ absurd (far own.0)
          | inr (i, p, at, up, has) ↦
              let t = peer_route (0 + i) p in
              let from : Serves r name t = inr (i, p, at, (reported_up p.status).0 up, has, refl) in
              (t, (resolve_iff r name t).1 from)
        ]),
        (λ k.
            let (t, m) = k in
            elim ((resolve_iff r name t).0 m) [
              | inl own ↦ absurd (far own.0)
              | inr (i, p, at, up, has, e) ↦
                  other (inr (i, p, at, (reported_up p.status).1 up, has))
            ]),
      )),
      (λ e given. other (inl (e, given))),
    )
