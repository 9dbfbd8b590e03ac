-- ===== src/Peer/Cluster/Agreed.antt =====
-- The two lists of the fleet's models in internal/peer/registry.go agree.
use viiwork_freetoken.Prelude.{
  ◌≡◌, ◌↔◌, refl, ap, ◌∙◌, inl, inr, List, [], ◌∷◌, ◌++◌, map, String, Memᴰ, Bool-cases,
  mem-append_left, mem-append_right, mem-append_cases, All, arith,
}
use viiwork_freetoken.Balancer.State.{StatusWords}
use viiwork_freetoken.Peer.State.{PeerState, unreachable, update, mark_unreachable}
use viiwork_freetoken.Peer.Registry.{
  Registry, is_reachable, PollResult, poll_peer, poll_all, poll_once,
}
use viiwork_freetoken.Peer.Cluster.{
  sort_names, fresh, ModelEntry, entry, peer_models, own_model, all_models, reachable_models,
  cluster_state,
}
use viiwork_freetoken.Peer.Cluster.Names.{sort_names_iff}

-- A peer that is not reachable has no models, as `MarkUnreachable` leaves it.
abbrev pub IsCleared : PeerState → Type 0
IsCleared p = p.status ≡ unreachable → p.models ≡ []

poll_peer-IsCleared : (res : PollResult) (p : PeerState) → IsCleared (poll_peer res p)
unfolding poll_peer update mark_unreachable
poll_peer-IsCleared res p h = ground arith

poll_all-IsCleared :
    (results : List PollResult) (ps : List PeerState)
    → All IsCleared ps
    → All IsCleared (poll_all results ps)
unfolding poll_all
poll_all-IsCleared results [] h = tt
poll_all-IsCleared [] (p ∷ ps) h = h
poll_all-IsCleared (res ∷ results) (p ∷ ps) h =
    (poll_peer-IsCleared res p, poll_all-IsCleared results ps h.1)

poll_once-IsCleared :
    (results : List PollResult) (r : Registry)
    → All IsCleared r.peers
    → All IsCleared (poll_once results r).peers
unfolding poll_once
poll_once-IsCleared results r h = poll_all-IsCleared results r.peers h

cleared-reachable_models :
    (ps : List PeerState) → All IsCleared ps → reachable_models ps ≡ peer_models ps
unfolding reachable_models
cleared-reachable_models [] h = refl
cleared-reachable_models (p ∷ ps) h = elim (Bool-cases (is_reachable p.status)) [
  | inl e ↦ rw (reachable_models, e, cleared-reachable_models ps h.1)
  | inr e ↦
      let none_left : p.models ≡ [] = h.0 (ground arith) in
      rw (reachable_models, e, none_left) (cleared-reachable_models ps h.1)
]

map_id :
    (owner : String) (ns : List String) → map (λ m. ModelEntry.id m) (map (entry owner) ns) ≡ ns
map_id owner [] = refl
map_id owner (n ∷ ns) = ap (λ l. n ∷ l) (map_id owner ns)

map-append :
    (xs ys : List ModelEntry)
    → map (λ m. ModelEntry.id m) (xs ++ ys)
      ≡ map (λ m. ModelEntry.id m) xs ++ map (λ m. ModelEntry.id m) ys
map-append [] ys = refl
map-append (x ∷ xs) ys = ap (λ l. x.id ∷ l) (map-append xs ys)

all_models_ids :
    (r : Registry)
    → map (λ m. ModelEntry.id m) (all_models r)
      ≡ own_model r ++ sort_names (fresh (own_model r) (peer_models r.peers))
unfolding all_models
all_models_ids r =
    let others = sort_names (fresh (own_model r) (peer_models r.peers)) in
    map-append (map (entry "local") (own_model r)) (map (entry "peer") others)
    ∙ ap (λ l. l ++ map (λ m. ModelEntry.id m) (map (entry "peer") others))
        (map_id "local" (own_model r))
    ∙ ap (λ l. own_model r ++ l) (map_id "peer" others)

-- After a poll the models that `AllModels` lists are those that the whole-mesh view lists, if the
-- peers that were not reachable before had no models, as is the case from the start on.
pub all_models-cluster_state :
    (words : StatusWords) (results : List PollResult) (r : Registry) (name : String)
    → All IsCleared r.peers
    → Memᴰ name (map (λ m. ModelEntry.id m) (all_models (poll_once results r)))
      ↔ Memᴰ name (cluster_state words (poll_once results r)).models
unfolding cluster_state
all_models-cluster_state words results r name h =
    let v = poll_once results r in
    let own = own_model v in
    let cleared = cleared-reachable_models v.peers (poll_once-IsCleared results r h) in
    let others = sort_names (fresh own (peer_models v.peers)) in
    let listed = sort_names_iff (own ++ fresh own (peer_models v.peers)) name in
    let sorted = sort_names_iff (fresh own (peer_models v.peers)) name in
    rw (all_models_ids v, cleared)
      (
        (λ m. elim (mem-append_cases own others m) [
          | inl k ↦ listed.1 (mem-append_left own _ k)
          | inr k ↦ listed.1 (mem-append_right own _ (sorted.0 k))
        ]),
        (λ m. elim (mem-append_cases own (fresh own (peer_models v.peers)) (listed.0 m)) [
          | inl k ↦ mem-append_left own others k
          | inr k ↦ mem-append_right own others (sorted.1 k)
        ]),
      )
