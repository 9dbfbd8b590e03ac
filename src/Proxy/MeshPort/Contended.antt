-- ===== src/Proxy/MeshPort/Contended.antt =====
-- What comes of the contention of the nodes of one host for the port (internal/proxy/meshport.go).
use viiwork_freetoken.Prelude.{
  ℕ, ◌≡◌, ◌≢◌, ◌⊎◌, refl, sym, ap, ◌∙◌, inl, inr, ℤ, ◌==◌, Bool-cases, arith,
}
use viiwork_freetoken.Proxy.MeshPort.{
  Phase, trying, waiting, serving, returned, Outcome, bound, retried, start_mesh_port, step, Host,
  at, Step, Steps,
}

-- Other than by binding, no outcome makes a node serve.
step-serving : (o : Outcome) (p : Phase) → o ≢ bound → step o p ≡ serving → p ≡ serving
unfolding step
step-serving o p n e = ground arith

at-same : (i : ℕ) (o : Outcome) (h : Host) → at i o h i ≡ step o (h i)
at-same i o h = ground arith

at-other : (i j : ℕ) (o : Outcome) (h : Host) → j ≢ i → at i o h j ≡ h j
at-other i j o h n = ground arith

-- Whether a node that serves after an outcome is the one that it came to.
at-serving :
    (i j : ℕ) (o : Outcome) (h : Host)
    → at i o h j ≡ serving
    → ((j ≡ i) × (step o (h i) ≡ serving)) ⊎ (h j ≡ serving)
at-serving i j o h e = elim (Bool-cases (j == i)) [ inl k ↦ ground arith | inr k ↦ ground arith ]

abbrev pub IsSole : Host → Type 0
IsSole h = (i j : ℕ) → h i ≡ serving → h j ≡ serving → i ≡ j

-- The hosts that come of nodes that start with the same port setting.
pub data Reach : Host → Type 0 where
  started : (port : ℤ) → Reach (λ i. start_mesh_port port)
  continues : {h g : Host} → Reach h → Step h g → Reach g

start-idle : (port : ℤ) → start_mesh_port port ≢ serving
unfolding start_mesh_port
start-idle port e = ground arith

Step-IsSole : (h g : Host) → Step h g → IsSole h → IsSole g
Step-IsSole h g (Step.binds i _ free) sole j k p q = elim (at-serving i j bound h p) [
  | inr a ↦ absurd (free j a)
  | inl (a, _) ↦ elim (at-serving i k bound h q) [
    | inl (b, _) ↦ a ∙ sym b
    | inr b ↦ absurd (free k b)
  ]
]
Step-IsSole h g (Step.other i o _ n) sole j k p q = sole j k (before j p) (before k q)
  where
    before : (l : ℕ) → at i o h l ≡ serving → h l ≡ serving
    before l e = elim (at-serving i l o h e) [
      | inl (a, s) ↦ ap h a ∙ step-serving o (h i) n s
      | inr s ↦ s
    ]

Reach-IsSole : (h : Host) → Reach h → IsSole h
Reach-IsSole h (Reach.started port) = λ i j p q. absurd (start-idle port p)
Reach-IsSole h (Reach.continues {h = g} before s) = Step-IsSole g h s (Reach-IsSole g before)

-- A node that tries binds the port that no other serves.
binds_now :
    (h : Host) (i : ℕ)
    → ((j : ℕ) → h j ≢ serving)
    → h i ≡ trying
    → Step h (at i bound h) × (at i bound h i ≡ serving)
unfolding step
binds_now h i free e = (Step.binds i h free, at-same i bound h ∙ ap (step bound) e)

takes_over :
    (h : Host) (i : ℕ) (p : Phase)
    → ((j : ℕ) → h j ≢ serving)
    → h i ≡ p
    → p ≢ returned
    → (g : Host) × Steps h g × (g i ≡ serving)
unfolding step
takes_over h i trying free e live =
    let (s, now) = binds_now h i free e in (at i bound h, Steps.next s (Steps.done _), now)
takes_over h i serving free e live = absurd (free i e)
takes_over h i returned free e live = absurd (live refl)
takes_over h i waiting free e live =
    let g = at i retried h in
    let again : g i ≡ trying = at-same i retried h ∙ ap (step retried) e in
    let still : (j : ℕ) → g j ≢ serving = λ j s. elim (at-serving i j retried h s) [
      | inl (_, t) ↦ free i (step-serving retried (h i) (λ k. ground arith) t)
      | inr t ↦ free j t
    ] in
    let (s, now) = binds_now g i still again in
    (
      at i bound g,
      Steps.next (Step.other i retried h (λ k. ground arith)) (Steps.next s (Steps.done _)),
      now,
    )

-- However the nodes of a host came to contend for the port, at most one of them serves it; and while
-- none does, any that has not returned can come to serve it by its own next steps alone, whether it is
-- about to try or waits after it found the port taken.
pub Reach-hands_over :
    (h : Host)
    → Reach h
    → IsSole h
      × (((j : ℕ) → h j ≢ serving)
          → (i : ℕ) → h i ≢ returned
          → (g : Host) × Steps h g × (g i ≡ serving))
Reach-hands_over h r = (Reach-IsSole h r, λ free i live. takes_over h i (h i) free refl live)
