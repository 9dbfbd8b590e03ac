-- ===== src/Proxy/Request/Ledger.antt =====
-- The counters of a node while requests overlap (internal/proxy/handler.go, internal/peer).
use viiwork_freetoken.Prelude.{
  ℕ, zero, suc, ◌+◌, ◌≡◌, ◌≢◌, refl, sym, ap, ◌∙◌, subst, List, [], ◌∷◌, ◌++◌, Option, none, some,
  ℤ, pos, ◌+ℤ◌, ◌==◌, if◌then◌else◌, get_elem?, arith,
}
use viiwork_freetoken.Balancer.State.{BackendState, incr_in_flight, decr_in_flight}
use viiwork_freetoken.Peer.State.{PeerState, inc_local_in_flight, dec_local_in_flight}
use viiwork_freetoken.Peer.Route.{Route, RouteType, route_local, route_peer}
use viiwork_freetoken.Peer.Registry.{Registry}
use viiwork_freetoken.Proxy.Dispatch.{Upstream, begin_request, finish_request}
use viiwork_freetoken.Proxy.Dispatch.Flight.{served-in_flight}
use viiwork_freetoken.Proxy.Request.{Call, update_at, at_pointer, on_route}

-- Each entry of the list has its number.
abbrev pub Tally {ℓ} : {A : Type ℓ} → (A → ℤ) → List A → (ℕ → ℕ) → Type ℓ
Tally {A = A} m xs k = (i : ℕ) (x : A) → get_elem? xs i ≡ some x → m x ≡ pos (k i)

module _ {ℓ} {A : Type ℓ} (m : A → ℤ) where
  Tally-update :
      (f : A → A) (j : ℕ) (xs : List A) (k l : ℕ → ℕ)
      → Tally m xs k
      → ((x : A) → m x ≡ pos (k j) → m (f x) ≡ pos (l j))
      → ((i : ℕ) → i ≢ j → l i ≡ k i)
      → Tally m (update_at f j xs) l
  Tally-update f j [] k l h step same i x e = absurd (ground arith)
  Tally-update f zero (y ∷ ys) k l h step same zero x e =
      subst (λ z. m z ≡ pos (l 0)) (taken e) (step y (h 0 y refl))
    where
      taken : {a b : A} → some a ≡ some b → a ≡ b
      taken p = ground arith
  Tally-update f zero (y ∷ ys) k l h step same (suc i) x e =
      h (suc i) x e ∙ ap pos (sym (same (suc i) (λ p. ground arith)))
  Tally-update f (suc j) (y ∷ ys) k l h step same zero x e =
      h 0 x e ∙ ap pos (sym (same 0 (λ p. ground arith)))
  Tally-update f (suc j) (y ∷ ys) k l h step same (suc i) x e =
      Tally-update f j ys (λ n. k (suc n)) (λ n. l (suc n)) (λ n z p. h (suc n) z p) step
        (λ n d. same (suc n) (λ p. d (ground arith))) i x e

-- 1 for the entry that the pointer is to.
abbrev pub hit : ℕ → Option ℕ → ℕ
hit i none = 0
hit i (some j) = if i == j then 1 else 0

module _ {ℓ} {A : Type ℓ} (m : A → ℤ) where
  Tally-up :
      (f : A → A) (o : Option ℕ) (xs : List A) (k : ℕ → ℕ)
      → ((x : A) (n : ℕ) → m x ≡ pos n → m (f x) ≡ pos (suc n))
      → Tally m xs k
      → Tally m (at_pointer f o xs) (λ i. hit i o + k i)
  Tally-up f none xs k step h = λ i x e. h i x e ∙ ap pos (omega arith)
  Tally-up f (some j) xs k step h =
      Tally-update m f j xs k (λ i. hit i (some j) + k i) h
        (λ x e. step x (k j) e ∙ ap pos (ground arith)) (λ i d. ground arith)

  Tally-down :
      (f : A → A) (o : Option ℕ) (xs : List A) (k : ℕ → ℕ)
      → ((x : A) (n : ℕ) → m x ≡ pos (suc n) → m (f x) ≡ pos n)
      → Tally m xs (λ i. hit i o + k i)
      → Tally m (at_pointer f o xs) k
  Tally-down f none xs k step h = λ i x e. h i x e ∙ ap pos (omega arith)
  Tally-down f (some j) xs k step h =
      Tally-update m f j xs (λ i. hit i (some j) + k i) k h
        (λ x e. step x (k j) (e ∙ ap pos (ground arith))) (λ i d. ground arith)

  pub Tally-kept :
      (f : A → A) (j : ℕ) (xs : List A) (k : ℕ → ℕ)
      → ((x : A) → m (f x) ≡ m x)
      → Tally m xs k
      → Tally m (update_at f j xs) k
  Tally-kept f j xs k same h = Tally-update m f j xs k k h (λ x e. same x ∙ e) (λ i d. refl)

-- How often a request goes to the backend, or to the peer, at a position.
abbrev pub to_backend : ℕ → Route → RouteType → ℕ
to_backend i t route_local = hit i t.backend
to_backend i t route_peer = 0

abbrev pub to_peer : ℕ → Route → RouteType → ℕ
to_peer i t route_local = 0
to_peer i t route_peer = hit i t.peer

abbrev pub at_backend : List Call → ℕ → ℕ
at_backend [] i = 0
at_backend (c ∷ cs) i = to_backend i c.route c.route.kind + at_backend cs i

abbrev pub at_peer : List Call → ℕ → ℕ
at_peer [] i = 0
at_peer (c ∷ cs) i = to_peer i c.route c.route.kind + at_peer cs i

pub at_backend-remove :
    (front back : List Call) (c : Call) (i : ℕ)
    → at_backend (front ++ c ∷ back) i ≡ at_backend (c ∷ front ++ back) i
at_backend-remove [] back c i = refl
at_backend-remove (d ∷ front) back c i = omega (arith, at_backend-remove front back c i)

pub at_peer-remove :
    (front back : List Call) (c : Call) (i : ℕ)
    → at_peer (front ++ c ∷ back) i ≡ at_peer (c ∷ front ++ back) i
at_peer-remove [] back c i = refl
at_peer-remove (d ∷ front) back c i = omega (arith, at_peer-remove front back c i)

abbrev pub BackendsTally : Registry → (ℕ → ℕ) → Type 0
BackendsTally r k = Tally (λ b. BackendState.in_flight b) r.backends k

abbrev pub PeersTally : Registry → (ℕ → ℕ) → Type 0
PeersTally r k = Tally (λ p. PeerState.local_in_flight p) r.peers k

-- One request more, or one less.
pub opens_tally :
    (t : Route) (kind : RouteType) (r : Registry) (k l : ℕ → ℕ)
    → BackendsTally r k
    → PeersTally r l
    → BackendsTally
        (on_route begin_request inc_local_in_flight t kind r)
        (λ i. to_backend i t kind + k i)
      × PeersTally
          (on_route begin_request inc_local_in_flight t kind r)
          (λ i. to_peer i t kind + l i)
unfolding begin_request incr_in_flight inc_local_in_flight ◌+ℤ◌
opens_tally t route_local r k l h g = (
  Tally-up (λ b. BackendState.in_flight b) begin_request t.backend r.backends k
      (λ x n e. ground arith) h,
  λ i p e. g i p e ∙ ap pos (omega arith),
)
opens_tally t route_peer r k l h g = (
  λ i b e. h i b e ∙ ap pos (omega arith),
  Tally-up (λ p. PeerState.local_in_flight p) inc_local_in_flight t.peer r.peers l
      (λ x n e. ground arith) g,
)

pub closes_tally :
    (now dur : ℕ) (u : Upstream) (t : Route) (kind : RouteType) (r : Registry) (k l : ℕ → ℕ)
    → BackendsTally r (λ i. to_backend i t kind + k i)
    → PeersTally r (λ i. to_peer i t kind + l i)
    → BackendsTally (on_route (finish_request now dur u) dec_local_in_flight t kind r) k
      × PeersTally (on_route (finish_request now dur u) dec_local_in_flight t kind r) l
unfolding finish_request decr_in_flight dec_local_in_flight ◌+ℤ◌
closes_tally now dur u t route_local r k l h g = (
  Tally-down (λ b. BackendState.in_flight b) (finish_request now dur u) t.backend r.backends k
      (λ x n e. ground (arith, served-in_flight now dur u x)) h,
  λ i p e. g i p e ∙ ap pos (omega arith),
)
closes_tally now dur u t route_peer r k l h g = (
  λ i b e. h i b e ∙ ap pos (omega arith),
  Tally-down (λ p. PeerState.local_in_flight p) dec_local_in_flight t.peer r.peers l
      (λ x n e. ground arith) g,
)
