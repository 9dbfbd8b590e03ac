-- ===== src/Balancer/Pick/Choice.antt =====
-- What `Pick` of internal/balancer/balancer.go promises of the backend that it returns.
use viiwork_freetoken.Prelude.{
  ℕ, ◌≤◌, ◌≡◌, refl, ◌⊎◌, inl, inr, List, [], ◌∷◌, Option, none, some, ℤ, pos, ◌<ℤ◌, ◌∙◌, ltb,
  eqb_ℤ, eqb_ℤ_iff, All, Bool-cases, Memᴰ, arith,
}
use viiwork_freetoken.Balancer.State.{BackendState}
use viiwork_freetoken.Balancer.Pick.{
  latency, Best, idle_step, idle_loop, just_best, pick_idle_lowest_latency, least_step, least_loop,
  pick_least_loaded,
}

-- Fewer requests in flight, or as many and no more latency.
abbrev pub NotWorse : ℕ → BackendState → BackendState → Type 0
NotWorse now s t =
    (s.in_flight <ℤ t.in_flight) ⊎ ((s.in_flight ≡ t.in_flight) × (latency now s ≤ latency now t))

abbrev pub IsIdle : BackendState → Type 0
IsIdle s = s.in_flight ≡ pos 0

NotWorse-trans :
    (now : ℕ) (s t u : BackendState) → NotWorse now s t → NotWorse now t u → NotWorse now s u
NotWorse-trans now s t u p q = ground arith

-- The load and the latency beside the best so far are its own.
abbrev IsOwn : ℕ → BackendState × ℤ × ℕ → Type 0
IsOwn now best = (best.1 ≡ best.0.in_flight) × (best.2 ≡ latency now best.0)

least_step_lem :
    (now : ℕ) (best : BackendState × ℤ × ℕ) (x : BackendState)
    → IsOwn now best
    → let next = least_step now best x in
      IsOwn now next
      × ((next.0 ≡ best.0) ⊎ (next.0 ≡ x))
      × NotWorse now next.0 best.0
      × NotWorse now next.0 x
unfolding least_step
least_step_lem now best x own = ground arith

least_loop_lem :
    (now : ℕ) (best : BackendState × ℤ × ℕ) (ss : List BackendState)
    → IsOwn now best
    → let r = (least_loop now best ss).0 in
      ((r ≡ best.0) ⊎ Memᴰ r ss) × NotWorse now r best.0 × All (NotWorse now r) ss
unfolding least_loop
least_loop_lem now best [] own = (inl refl, inr (refl, omega arith), tt)
least_loop_lem now best (x ∷ ss) own =
    let next = least_step now best x in
    let (own', from, to_best, to_x) = least_step_lem now best x own in
    let (r_from, r_next, rest) = least_loop_lem now next ss own' in
    (
      came from r_from,
      NotWorse-trans now _ _ _ r_next to_best,
      (NotWorse-trans now _ _ _ r_next to_x, rest),
    )
  where
    came :
        {r n : BackendState}
        → (n ≡ best.0) ⊎ (n ≡ x)
        → (r ≡ n) ⊎ Memᴰ r ss
        → (r ≡ best.0) ⊎ Memᴰ r (x ∷ ss)
    came f (inr m) = inr (Memᴰ.tail m)
    came (inl e) (inl f) = inl (f ∙ e)
    came (inr e) (inl f) = inr (Memᴰ.head (f ∙ e))

-- `pickLeastLoaded` returns a candidate that no other beats.
pub pick_least_loaded_lem :
    (now : ℕ) (s : BackendState) (ss : List BackendState)
    → let r = pick_least_loaded now s ss in Memᴰ r (s ∷ ss) × All (NotWorse now r) (s ∷ ss)
unfolding pick_least_loaded
pick_least_loaded_lem now s ss =
    let (from, first, rest) = least_loop_lem now (s, s.in_flight, latency now s) ss (refl, refl) in
    (member from, (first, rest))
  where
    member : {r : BackendState} → (r ≡ s) ⊎ Memᴰ r ss → Memᴰ r (s ∷ ss)
    member (inl e) = Memᴰ.head e
    member (inr m) = Memᴰ.tail m

-- No idle candidate answers faster.
abbrev pub FastestIdle : ℕ → BackendState → BackendState → Type 0
FastestIdle now s t = IsIdle t → latency now s ≤ latency now t

-- What the idle loop ends with when it began with the idle backend `s`.
abbrev Kept : ℕ → BackendState → List BackendState → Best → Type 0
Kept now s ss none = ⊥
Kept now s ss (some (r, lat)) =
    ((r ≡ s) ⊎ Memᴰ r ss) × IsIdle r × (latency now r ≤ latency now s) × All (FastestIdle now r) ss

Kept-cons :
    (now : ℕ) (s n x : BackendState) (ss : List BackendState) (best : Best)
    → ((n ≡ s) ⊎ (n ≡ x))
    → latency now n ≤ latency now s
    → (IsIdle x → latency now n ≤ latency now x)
    → Kept now n ss best
    → Kept now s (x ∷ ss) best
Kept-cons now s n x ss none f p q k = k
Kept-cons now s n x ss (some (r, lat)) f p q (from, idle, le, rest) =
    (came f from, idle, omega arith, ((λ i. omega (arith, q i)), rest))
  where
    came : (n ≡ s) ⊎ (n ≡ x) → (r ≡ n) ⊎ Memᴰ r ss → (r ≡ s) ⊎ Memᴰ r (x ∷ ss)
    came f (inr m) = inr (Memᴰ.tail m)
    came (inl e) (inl d) = inl (d ∙ e)
    came (inr e) (inl d) = inr (Memᴰ.head (d ∙ e))

idle_loop-Kept :
    (now : ℕ) (s : BackendState) (ss : List BackendState)
    → IsIdle s
    → Kept now s ss (idle_loop now (some (s, latency now s)) ss)
unfolding idle_loop idle_step
idle_loop-Kept now s [] i = (inl refl, i, omega arith, tt)
idle_loop-Kept now s (x ∷ ss) i = elim (Bool-cases (eqb_ℤ x.in_flight (pos 0))) [
  | inl e ↦ elim (Bool-cases (ltb (latency now x) (latency now s))) [
    | inl l ↦
        rw (e, l)
          (Kept-cons now s x x ss _ (inr refl) (ground arith) (λ _. omega arith)
            (idle_loop-Kept now x ss ((eqb_ℤ_iff _ _).0 e)))
    | inr l ↦
        rw (e, l)
          (Kept-cons now s s x ss _ (inl refl) (omega arith) (λ _. ground arith)
            (idle_loop-Kept now s ss i))
  ]
  | inr e ↦ rw e (
      Kept-cons now s s x ss _ (inl refl) (omega arith) (λ j. absurd (ground arith))
        (idle_loop-Kept now s ss i))
]

-- What `pickIdleLowestLatency` returns for some candidates.
abbrev pub IdleChoice : ℕ → List BackendState → Option BackendState → Type 0
IdleChoice now ss none = All (λ t. ¬ IsIdle t) ss
IdleChoice now ss (some r) = Memᴰ r ss × IsIdle r × All (FastestIdle now r) ss

Kept-IdleChoice :
    (now : ℕ) (s : BackendState) (ss : List BackendState) (best : Best)
    → Kept now s ss best
    → IdleChoice now (s ∷ ss) (just_best best)
Kept-IdleChoice now s ss none k = absurd k
Kept-IdleChoice now s ss (some (r, lat)) (from, idle, le, rest) =
    (member from, idle, ((λ _. le), rest))
  where
    member : (r ≡ s) ⊎ Memᴰ r ss → Memᴰ r (s ∷ ss)
    member (inl e) = Memᴰ.head e
    member (inr m) = Memᴰ.tail m

IdleChoice-skip :
    (now : ℕ) (s : BackendState) (ss : List BackendState) (o : Option BackendState)
    → ¬ IsIdle s
    → IdleChoice now ss o
    → IdleChoice now (s ∷ ss) o
IdleChoice-skip now s ss none b c = (b, c)
IdleChoice-skip now s ss (some r) b (m, i, rest) = (Memᴰ.tail m, i, ((λ j. absurd (b j)), rest))

idle_loop-IdleChoice :
    (now : ℕ) (ss : List BackendState) → IdleChoice now ss (just_best (idle_loop now none ss))
unfolding idle_loop idle_step
idle_loop-IdleChoice now [] = tt
idle_loop-IdleChoice now (x ∷ ss) = elim (Bool-cases (eqb_ℤ x.in_flight (pos 0))) [
  | inl e ↦ rw e (Kept-IdleChoice now x ss _ (idle_loop-Kept now x ss ((eqb_ℤ_iff _ _).0 e)))
  | inr e ↦ rw e (IdleChoice-skip now x ss _ (λ j. ground arith) (idle_loop-IdleChoice now ss))
]

-- `pickIdleLowestLatency` returns an idle candidate of the lowest latency, or nothing where none
-- is idle.
pub pick_idle_lowest_latency-IdleChoice :
    (now : ℕ) (ss : List BackendState) → IdleChoice now ss (pick_idle_lowest_latency now ss)
unfolding pick_idle_lowest_latency
pick_idle_lowest_latency-IdleChoice = idle_loop-IdleChoice
