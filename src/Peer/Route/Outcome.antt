-- ===== src/Peer/Route/Outcome.antt =====
-- What `PickRoute` (internal/peer/route.go) promises of the route that it returns.
use viiwork_freetoken.Prelude.{
  ℕ, zero, suc, ◌%◌, ◌<◌, ◌≡◌, refl, sym, subst, ◌⊎◌, inl, inr, ◌≢◌, ◌↔◌, true, false, not, ◌&&◌,
  List, [], ◌∷◌, some, ℤ, pos, ◌≤ℤ◌, ◌<ℤ◌, eqb_ℤ, keep-mem, keep-All, keep-nil, All, All-map,
  All-get, All-of, Memᴰ, length, get_elem?, get_elem?-mem, arith,
}
use viiwork_freetoken.Peer.Route.{
  Route, route_local, route_peer, Choice, picked, no_route, backpressure, panics, Counters,
  is_local, is_full, rotate, scan, tie, choose, choose_peer, settle, pick_route,
}
use viiwork_freetoken.Peer.Route.Scan.{
  available, tied_locals, tied_peers, tie_lem, scan_available, IsMinOf, scan-IsScan,
}

-- A local route that has reached a ceiling above zero.
abbrev pub IsFull : ℤ → Route → Type 0
IsFull max r = (r.kind ≡ route_local) × (pos 0 <ℤ max) × (max ≤ℤ r.in_flight)

-- No more in flight than the other, and less if this is a peer and the other a local backend.
abbrev pub Precedes : Route → Route → Type 0
Precedes r t =
    (r.in_flight ≤ℤ t.in_flight)
    × (r.kind ≡ route_peer → t.kind ≡ route_local → r.in_flight <ℤ t.in_flight)

-- What each outcome of `PickRoute` says of the routes.
abbrev pub Chosen : ℤ → List Route → Choice → Type 0
Chosen max rs (picked r) = Memᴰ r rs × ¬ IsFull max r × All (λ t. ¬ IsFull max t → Precedes r t) rs
Chosen max rs no_route = rs ≡ []
Chosen max rs backpressure = (rs ≢ []) × All (IsFull max) rs
Chosen max rs panics = ⊥

is_full_lem : (max : ℤ) (r : Route) → (not (is_full max r) ≡ true) ↔ (¬ IsFull max r)
is_full_lem max r = (ground arith, ground arith)

get_elem?_total {ℓ} :
    {A : Type ℓ} (xs : List A) (i : ℕ) → i < length xs → (a : A) × (get_elem? xs i ≡ some a)
get_elem?_total [] i h = absurd (omega arith)
get_elem?_total (x ∷ xs) zero h = (x, refl)
get_elem?_total (x ∷ xs) (suc i) h = get_elem?_total xs i (omega arith)

-- Rotating over some routes picks one of them.
rotate_lem :
    (r : Route) (rs : List Route) (n : ℕ)
    → (t : Route) × Memᴰ t (r ∷ rs) × (rotate (r ∷ rs) n ≡ picked t)
rotate_lem r rs n =
    let (t, e) = get_elem?_total (r ∷ rs) (n % length (r ∷ rs)) (omega arith) in
    (t, get_elem?-mem (r ∷ rs) (n % length (r ∷ rs)) e, rw e)

-- With a tied route at hand, the choice is one of the tied local ones, or of the tied peers where
-- there is no local one.
choose_lem :
    (ls ps : List Route) (c : Counters)
    → (ls ≡ [] → ps ≢ [])
    → (t : Route) × (Memᴰ t ls ⊎ ((ls ≡ []) × Memᴰ t ps)) × ((choose (ls, ps) c).0 ≡ picked t)
unfolding choose choose_peer
choose_lem [] [] c h = absurd (h refl refl)
choose_lem [] (p ∷ []) c h = (p, inr (refl, Memᴰ.head refl), refl)
choose_lem [] (p ∷ q ∷ ps) c h =
    let (t, m, e) = rotate_lem p (q ∷ ps) c.peer_rr in (t, inr (refl, m), e)
choose_lem (l ∷ []) ps c h = (l, inl (Memᴰ.head refl), refl)
choose_lem (l ∷ k ∷ ls) ps c h = let (t, m, e) = rotate_lem l (k ∷ ls) c.local_rr in (t, inl m, e)

-- The least of some routes is among the tied ones.
tied_somewhere :
    (m : ℤ) (rs : List Route) → IsMinOf rs m → tied_locals m rs ≡ [] → tied_peers m rs ≢ []
tied_somewhere m rs ((r, mem, e), low) nl np = ground (
  arith,
  All-get _ rs mem (keep-nil (λ r. eqb_ℤ r.in_flight m && is_local r.kind) rs nl),
  All-get _ rs mem (keep-nil (λ r. eqb_ℤ r.in_flight m && not (is_local r.kind)) rs np),
)

-- What is said of the choice among the available routes.
abbrev Best : List Route → Route → Type 0
Best rs r = Memᴰ r rs × All (Precedes r) rs

tied_local-Best :
    (m : ℤ) (rs : List Route) (r : Route) → IsMinOf rs m → Memᴰ r (tied_locals m rs) → Best rs r
tied_local-Best m rs r (_, low) mem =
    let (at, p) = keep-mem (λ r. eqb_ℤ r.in_flight m && is_local r.kind) rs mem in
    (at, All-map _ _ rs (λ t k. ground arith) low)

tied_peer-Best :
    (m : ℤ) (rs : List Route) (r : Route)
    → IsMinOf rs m
    → tied_locals m rs ≡ []
    → Memᴰ r (tied_peers m rs)
    → Best rs r
tied_peer-Best m rs r (_, low) nl mem =
    let (at, p) = keep-mem (λ r. eqb_ℤ r.in_flight m && not (is_local r.kind)) rs mem in
    (
      at,
      All-of _ rs (λ t i. ground (
        arith,
        All-get (λ t. m ≤ℤ t.in_flight) rs i low,
        All-get (λ t. (eqb_ℤ t.in_flight m && is_local t.kind) ≡ false) rs i
            (keep-nil (λ r. eqb_ℤ r.in_flight m && is_local r.kind) rs nl),
      )),
    )

-- The choice among the routes that the first loop kept, `m` the lowest number in flight of these.
choose-Best :
    (m : ℤ) (rs : List Route) (c : Counters)
    → IsMinOf rs m
    → (t : Route) × Best rs t × ((choose (tie m ([], []) rs) c).0 ≡ picked t)
choose-Best m rs c low =
    let (t, from, e) =
      choose_lem (tied_locals m rs) (tied_peers m rs) c (tied_somewhere m rs low) in
    (t, best t from, rw (tie_lem m [] [] rs) e)
  where
    best :
        (t : Route)
        → Memᴰ t (tied_locals m rs) ⊎ ((tied_locals m rs ≡ []) × Memᴰ t (tied_peers m rs))
        → Best rs t
    best t (inl mem) = tied_local-Best m rs t low mem
    best t (inr (nl, mem)) = tied_peer-Best m rs t low nl mem

settle-Chosen :
    (max : ℤ) (rs : List Route) (st : List Route × ℤ) (c : Counters)
    → rs ≢ []
    → st.0 ≡ available max rs
    → (st.0 ≡ []) ⊎ IsMinOf st.0 st.1
    → Chosen max rs (settle st c).0
unfolding settle
settle-Chosen max rs ([], m) c some_route e h = (
  some_route,
  All-map _ _ rs (λ t k. ground arith) (keep-nil (λ r. not (is_full max r)) rs (sym e)),
)
settle-Chosen max rs (x ∷ xs, m) c some_route e (inl h) = absurd (ground arith)
settle-Chosen max rs (x ∷ xs, m) c some_route e (inr low) =
    let (t, (mem, prec), chosen) = choose-Best m (x ∷ xs) c low in
    let (at, room) = keep-mem (λ r. not (is_full max r)) rs (subst (Memᴰ t) e mem) in
    rw chosen (
      at,
      (is_full_lem max t).0 room,
      All-map _ _ rs (λ u k free. k ((is_full_lem max u).1 free))
          (keep-All (Precedes t) (λ r. not (is_full max r)) rs (subst (All (Precedes t)) e prec)),
    )

-- `PickRoute` fails with no route exactly on an empty list, and with backpressure only when there is
-- a route and all are local ones at their ceiling. A route that it returns is one of the list and
-- below its ceiling; no other such route has less in flight, and if a peer is returned, every local
-- backend below its ceiling has more. It never panics.
pub pick_route-Chosen :
    (rs : List Route) (max : ℤ) (c : Counters) → Chosen max rs (pick_route rs max c).0
unfolding pick_route
pick_route-Chosen [] max c = refl
pick_route-Chosen (r ∷ rs) max c =
    settle-Chosen max (r ∷ rs) (scan max ([], pos 0) (r ∷ rs)) c (λ e. ground arith)
      (scan_available max [] (pos 0) (r ∷ rs)) (scan-IsScan max ([], pos 0) (r ∷ rs) (inl refl))
