-- ===== src/Balancer/Pick/Outcome.antt =====
-- `Pick` of internal/balancer/balancer.go against what its comment promises of the three outcomes.
use viiwork_freetoken.Prelude.{
  ℕ, ◌≡◌, ◌≢◌, ◌↔◌, refl, ◌⊎◌, inl, inr, ap, sym, subst, Bool, true, false, List, [], ◌∷◌, Option,
  none, some, ℤ, pos, ◌≤ℤ◌, ◌<ℤ◌, ltb_ℤ, keep, keep-mem, keep-All, keep-nil, All, All-map, sym,
  subst, Bool-cases, Memᴰ, arith,
}
use viiwork_freetoken.Balancer.State.{BackendState, healthy}
use viiwork_freetoken.Balancer.Pick.{
  Balancer, is_healthy, total_in_flight, has_room, pick_least_loaded, pick_eligible, choose, admit,
  pick,
}
use viiwork_freetoken.Balancer.Pick.Choice.{
  NotWorse, IsIdle, FastestIdle, IdleChoice, pick_least_loaded_lem,
  pick_idle_lowest_latency-IdleChoice,
}

-- A healthy backend below the ceiling; a ceiling of zero or less is none.
abbrev pub CanServe : Balancer → BackendState → Type 0
CanServe b s =
    (s.status ≡ healthy) × ((b.max_in_flight ≤ℤ pos 0) ⊎ (s.in_flight <ℤ b.max_in_flight))

-- The node's load is below the threshold.
abbrev pub IsCalm : Balancer → Type 0
IsCalm b = total_in_flight b.backends <ℤ b.high_load_threshold

-- What each outcome of `Pick` says of the backends.
abbrev pub Picks : ℕ → Balancer → Option BackendState × Bool → Type 0
Picks now b (none, false) = All (λ t. t.status ≢ healthy) b.backends
Picks now b (none, true) =
    ((t : BackendState) × Memᴰ t b.backends × (t.status ≡ healthy))
    × All (λ t. ¬ CanServe b t) b.backends
Picks now b (some s, true) = ⊥
Picks now b (some s, false) =
    Memᴰ s b.backends
    × CanServe b s
    × ((IsCalm b × IsIdle s × All (λ t. CanServe b t → FastestIdle now s t) b.backends)
        ⊎ ((IsCalm b → All (λ t. CanServe b t → ¬ IsIdle t) b.backends)
            × All (λ t. CanServe b t → NotWorse now s t) b.backends))

healthy_lem : (s : BackendState) → (is_healthy s.status ≡ true) ↔ (s.status ≡ healthy)
healthy_lem s = ground arith

has_room_lem :
    (max : ℤ) (s : BackendState) → (has_room max s ≡ true) ↔ ((max ≤ℤ pos 0) ⊎ (s.in_flight <ℤ max))
has_room_lem max s = ground arith

-- The backends left after both filters.
abbrev eligible : Balancer → List BackendState
eligible b = keep (has_room b.max_in_flight) (keep (λ s. is_healthy s.status) b.backends)

eligible-mem :
    (b : Balancer) {s : BackendState} → Memᴰ s (eligible b) → Memᴰ s b.backends × CanServe b s
eligible-mem b {s} m =
    let (inner, room) = keep-mem (has_room b.max_in_flight) _ m in
    let (outer, up) = keep-mem (λ s. is_healthy s.status) b.backends inner in
    (outer, ((healthy_lem s).0 up, (has_room_lem b.max_in_flight s).0 room))

eligible-All :
    (P : BackendState → Type 0) (b : Balancer)
    → All P (eligible b)
    → All (λ t. CanServe b t → P t) b.backends
eligible-All P b h =
    All-map _ _ b.backends
      (λ t k c. k ((healthy_lem t).1 c.0) ((has_room_lem b.max_in_flight t).1 c.1))
      (keep-All _ _ b.backends (keep-All P _ _ h))

eligible-nil : (b : Balancer) → eligible b ≡ [] → All (λ t. ¬ CanServe b t) b.backends
eligible-nil b e =
    All-map _ _ b.backends
      (λ t k c. true_not_false (k ((healthy_lem t).1 c.0)) ((has_room_lem b.max_in_flight t).1 c.1))
      (keep-All (λ t. has_room b.max_in_flight t ≡ false) _ b.backends (keep-nil _ _ e))
  where
    true_not_false : {x : Bool} → x ≡ false → x ≡ true → ⊥
    true_not_false p q = cc

least_Picks :
    (now : ℕ) (b : Balancer) (s : BackendState) (ss : List BackendState)
    → eligible b ≡ s ∷ ss
    → (IsCalm b → All (λ t. CanServe b t → ¬ IsIdle t) b.backends)
    → Picks now b (some (pick_least_loaded now s ss), false)
least_Picks now b s ss e busy =
    let (m, rest) = pick_least_loaded_lem now s ss in
    let (at, can) = eligible-mem b (rw e m) in
    (at, can, inr (busy, eligible-All (NotWorse now (pick_least_loaded now s ss)) b (rw e rest)))

idle_Picks :
    (now : ℕ) (b : Balancer) (s : BackendState) (ss : List BackendState) (o : Option BackendState)
    → eligible b ≡ s ∷ ss
    → IsCalm b
    → IdleChoice now (s ∷ ss) o
    → Picks now b (some (elim o [ some best ↦ best | none ↦ pick_least_loaded now s ss ]), false)
idle_Picks now b s ss none e calm c =
    least_Picks now b s ss e (λ _. eligible-All (λ t. ¬ IsIdle t) b (rw e c))
idle_Picks now b s ss (some r) e calm (m, i, rest) =
    let (at, can) = eligible-mem b (rw e m) in
    (at, can, inl (calm, i, eligible-All (FastestIdle now r) b (rw e rest)))

pick_eligible-Picks :
    (now : ℕ) (b : Balancer) (s : BackendState) (ss : List BackendState)
    → eligible b ≡ s ∷ ss
    → Picks now b (some (pick_eligible now b s ss), false)
unfolding pick_eligible
pick_eligible-Picks now b s ss e =
    elim (Bool-cases (ltb_ℤ (total_in_flight b.backends) b.high_load_threshold)) [
      | inl calm ↦ rw calm (
          idle_Picks now b s ss _ e (ground arith)
            (pick_idle_lowest_latency-IdleChoice now (s ∷ ss)))
      | inr loaded ↦ rw loaded (least_Picks now b s ss e (λ calm. absurd (ground arith)))
    ]

choose-Picks :
    (now : ℕ) (b : Balancer) (up : BackendState) (es : List BackendState)
    → Memᴰ up b.backends × (up.status ≡ healthy)
    → eligible b ≡ es
    → Picks now b (choose now b es)
unfolding choose
choose-Picks now b up [] (m, h) e = ((up, m, h), eligible-nil b e)
choose-Picks now b up (s ∷ ss) (m, h) e = pick_eligible-Picks now b s ss e

admit-Picks :
    (now : ℕ) (b : Balancer) (hs : List BackendState)
    → keep (λ s. is_healthy s.status) b.backends ≡ hs
    → Picks now b (admit now b hs)
unfolding admit
admit-Picks now b [] e =
    All-map _ _ b.backends (λ t k h. unhealthy_now k ((healthy_lem t).1 h)) (keep-nil _ _ e)
  where
    unhealthy_now : {x : Bool} → x ≡ false → x ≡ true → ⊥
    unhealthy_now p q = cc
admit-Picks now b (h ∷ hs) e =
    choose-Picks now b h _
      (up
        (keep-mem (λ s. is_healthy s.status) b.backends (subst (Memᴰ h) (sym e) (Memᴰ.head refl))))
      (ap (keep (has_room b.max_in_flight)) e)
  where
    up : Memᴰ h b.backends × (is_healthy h.status ≡ true) → Memᴰ h b.backends × (h.status ≡ healthy)
    up (m, k) = (m, (healthy_lem h).0 k)

-- `Pick` returns no backend and false only when none is healthy; none and true only when one is
-- healthy and each is unhealthy or at its ceiling. A backend that it returns is one of its own,
-- healthy and below the ceiling; either the load is below the threshold, it is idle, and no idle
-- one that could serve is faster, or none of those that could serve is idle or the load is not
-- below, and each of them has more in flight, or as many with no less latency.
pub pick-Picks : (now : ℕ) (b : Balancer) → Picks now b (pick now b)
unfolding pick
pick-Picks now b = admit-Picks now b _ refl
