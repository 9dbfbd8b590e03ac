-- ===== src/Freetoken/Manager/Decline.antt =====
-- How many checks a backend that never answers takes up (internal/freetoken/manager.go, `checkOne`).
use viiwork_freetoken.Prelude.{
  ℕ, zero, suc, ◌+◌, ◌-◌, ◌*◌, ◌≤◌, ◌<◌, ◌≡◌, ◌≢◌, ◌⊎◌, refl, ap, ◌∙◌, inl, inr, Bool, true, false,
  List, [], ◌∷◌, Option, some, String, ℤ, pos, pos_part, ◌≤ℤ◌, ◌<ℤ◌, leb_ℤ, ltb_ℤ, length,
  Bool-cases, Option-cases, arith,
}
use viiwork_freetoken.Balancer.State.{starting, dead, set_status}
use viiwork_freetoken.Config.{HealthConfig, FreetokenConfig}
use viiwork_freetoken.Freetoken.Health.{Health}
use viiwork_freetoken.Freetoken.Backend.{Backend, Answers, start, stop, uptime, probe}
use viiwork_freetoken.Freetoken.Backend.Probe.{Answered, probe_iff, probe-SameProcess}
use viiwork_freetoken.Freetoken.Manager.{
  Watch, tick_one, check_one, is_dead, judge, failed, wait, strike, demote, count_failure, respawn,
  note_progress,
}
use viiwork_freetoken.Freetoken.Manager.Check.{Respawned, SameRun, demoted}
use viiwork_freetoken.Freetoken.Manager.Verdict.{Judged, check_one-Judged}

-- One tick: its instant, how a spawn would end, and what the engine answers.
pub record Turn : Type 0 where
  pub now : ℕ
  pub spawn : Option ℤ
  pub answers : Answers

unfoldable pub ticks : HealthConfig → List (ℤ × String) → List Turn → Watch → Watch
ticks cfg uuids [] w = w
ticks cfg uuids (t ∷ ts) w = ticks cfg uuids ts (tick_one cfg uuids t.now t.spawn t.answers w).0

-- The instants after `since` go up, and no answer says that the engine serves.
abbrev pub IsSilent : ℕ → List Turn → Type 0
IsSilent since [] = Unit
IsSilent since (t ∷ ts) =
    (since < t.now) × ((h : Health) → Answered t.answers.health h → ⊥) × IsSilent t.now ts

-- A backend that is starting was spawned at an instant not after `at`.
abbrev pub IsSpawned : ℕ → Backend → Type 0
IsSpawned at b = b.state.status ≡ starting → (began : ℕ) × (b.started ≡ some began) × (began ≤ at)

-- The checks that one process can take up.
abbrev pub per_process : HealthConfig → Backend → ℕ
per_process cfg b = pos_part b.engine.startup_timeout + pos_part cfg.failure_threshold + 1

abbrev pub enough_checks : HealthConfig → Backend → ℕ
enough_checks cfg b = suc (pos_part cfg.max_respawns - b.respawns) * per_process cfg b

-- The checks that the present process can still take up, none of them after a respawn or the end.
abbrev left : HealthConfig → ℕ → Backend → ℕ
left cfg at b = elim b.state.status [
  | starting ↦ suc (pos_part b.engine.startup_timeout - uptime at b)
  | _ ↦ suc (pos_part cfg.failure_threshold - b.failures)
]

failed-engine :
    (cfg : HealthConfig) (now : ℕ) (spawn : Option ℤ) (hard : Bool) (w : Watch)
    → (failed cfg now spawn hard w).0.backend.engine ≡ w.backend.engine
unfolding failed wait strike demote respawn note_progress start stop set_status
failed-engine cfg now spawn hard w = ground arith

count_failure-engine : (b : Backend) → (count_failure b).engine ≡ b.engine
unfolding count_failure
count_failure-engine b = refl

check_one-engine :
    (cfg : HealthConfig) (uuids : List (ℤ × String)) (now : ℕ) (spawn : Option ℤ) (a : Answers)
    (w : Watch)
    → (probe a w.backend).1 ≡ false
    → (check_one cfg uuids now spawn a w).0.backend.engine ≡ w.backend.engine
unfolding check_one
check_one-engine cfg uuids now spawn a w e =
    verdict (probe a w.backend) e ∙ (probe-SameProcess a w.backend).4
  where
    verdict :
        (r : Backend × Bool)
        → r.1 ≡ false
        → (judge cfg uuids now spawn w.last_phase r).0.backend.engine ≡ r.0.engine
    verdict (b, true) e = absurd (ground arith)
    verdict (b, false) e = rw (judge, failed-engine) (count_failure-engine b)

-- The rounds that are left, and the checks of the present one: what one failed check does to them.
abbrev Shrinks : HealthConfig → ℕ → Backend → ℕ → Backend → Type 0
Shrinks cfg at b now c =
    (c.state.status ≡ dead)
    ⊎ ((c.respawns ≡ suc b.respawns)
        × (b.respawns < pos_part cfg.max_respawns)
        × (left cfg now c ≤ per_process cfg b)
        × IsSpawned now c)
    ⊎ ((c.respawns ≡ b.respawns) × (left cfg now c < left cfg at b) × IsSpawned now c)

module _ (cfg : HealthConfig) (at now : ℕ) (spawn : Option ℤ) (b c : Backend)
    (n : c.engine ≡ b.engine) (up : at < now) (h : IsSpawned at b) where
  Respawned-Shrinks : Respawned cfg now spawn b c → Shrinks cfg at b now c
  unfolding uptime
  Respawned-Shrinks (limit, below) = elim (Bool-cases (leb_ℤ cfg.max_respawns (pos b.respawns))) [
    | inl e ↦ inl (limit (ground arith)).1
    | inr e ↦
        let (r, gone, there) = below (ground arith) in
        elim (Option-cases spawn) [
          | inl s ↦ inl (gone s).0
          | inr (pid, s) ↦
              let (st, cmd, began, f) = there pid s in
              inr (inl (r, ground arith, rw st (ground arith), λ _. (now, began, omega arith)))
        ]
  ]

  waiting_Shrinks :
      b.state.status ≡ starting
      → pos (uptime now b) ≤ℤ b.engine.startup_timeout
      → (c.state.status ≡ starting) × (c.failures ≡ suc b.failures) × SameRun b c
      → Shrinks cfg at b now c
  unfolding uptime
  waiting_Shrinks s t (st, f, (p, began, r)) =
      let (i, e, le) = h s in
      let older : uptime at b < uptime now b = rw e (omega arith) in
      let same : uptime now c ≡ uptime now b = rw began in
      inr (inr (r, rw (st, s, n, same) (ground arith), λ _. (i, began ∙ e, omega arith)))

  counting_Shrinks :
      b.state.status ≢ starting
      → pos (suc b.failures) <ℤ cfg.failure_threshold
      → (c.state.status ≡ demoted b.state.status) × (c.failures ≡ suc b.failures) × SameRun b c
      → Shrinks cfg at b now c
  counting_Shrinks s t (st, f, (p, began, r)) =
      inr (inr (r, ground arith, λ k. absurd (ground arith)))

  Judged-Shrinks : Judged cfg now spawn false b c → Shrinks cfg at b now c
  Judged-Shrinks j = elim (Bool-cases b.state.hard_failure) [
    | inl l ↦ Respawned-Shrinks (j.gives_up refl (inl l))
    | inr l ↦ elim starting_or_not [
      | inl s ↦ elim (Bool-cases (ltb_ℤ b.engine.startup_timeout (pos (uptime now b)))) [
        | inl t ↦ Respawned-Shrinks (j.times_out refl s l (ground arith))
        | inr t ↦ waiting_Shrinks s (ground arith) (j.waits refl s l (ground arith))
      ]
      | inr s ↦ elim (Bool-cases (leb_ℤ cfg.failure_threshold (pos (suc b.failures)))) [
        | inl t ↦ Respawned-Shrinks (j.gives_up refl (inr (s, ground arith)))
        | inr t ↦ counting_Shrinks s (ground arith) (j.counts refl s l (ground arith))
      ]
    ]
  ]
    where
      starting_or_not : (b.state.status ≡ starting) ⊎ (b.state.status ≢ starting)
      starting_or_not = ground arith

ticks-dead :
    (cfg : HealthConfig) (uuids : List (ℤ × String)) (ts : List Turn) (w : Watch)
    → w.backend.state.status ≡ dead
    → (ticks cfg uuids ts w).backend.state.status ≡ dead
unfolding ticks tick_one
ticks-dead cfg uuids [] w d = d
ticks-dead cfg uuids (t ∷ ts) w d =
    let skipped : is_dead w.backend.state.status ≡ true = ap is_dead d in
    rw (ticks, skipped) (ticks-dead cfg uuids ts w d)

-- The checks of `n` further processes.
abbrev rounds : ℕ → ℕ → ℕ
rounds zero k = 0
rounds (suc n) k = k + rounds n k

rounds-mul : (n k : ℕ) → rounds n k ≡ n * k
rounds-mul zero k = omega arith
rounds-mul (suc n) k = omega (arith, rounds-mul n k)

rounds-step : (m r k : ℕ) → r < m → rounds (m - r) k ≡ k + rounds (m - suc r) k
rounds-step m r k h = let e : m - r ≡ suc (m - suc r) = omega arith in rw e

abbrev budget : HealthConfig → ℕ → Backend → ℕ
budget cfg at b =
    rounds (pos_part cfg.max_respawns - b.respawns) (per_process cfg b) + left cfg at b

rounds-same :
    (cfg : HealthConfig) (b c : Backend) (r : ℕ)
    → c.engine ≡ b.engine
    → c.respawns ≡ r
    → rounds (pos_part cfg.max_respawns - c.respawns) (per_process cfg c)
      ≡ rounds (pos_part cfg.max_respawns - r) (per_process cfg b)
rounds-same cfg b c r n e =
    ap (λ i. rounds (pos_part cfg.max_respawns - i) (per_process cfg c)) e
    ∙ ap
        (λ g.
          rounds (pos_part cfg.max_respawns - r)
            (pos_part (FreetokenConfig.startup_timeout g) + pos_part cfg.failure_threshold + 1))
        n

Shrinks-budget :
    (cfg : HealthConfig) (at now : ℕ) (b c : Backend)
    → c.engine ≡ b.engine
    → Shrinks cfg at b now c
    → (c.state.status ≡ dead) ⊎ ((budget cfg now c < budget cfg at b) × IsSpawned now c)
Shrinks-budget cfg at now b c n (inl d) = inl d
Shrinks-budget cfg at now b c n (inr (inl (r, below, l, s))) =
    let e = rounds-step (pos_part cfg.max_respawns) b.respawns (per_process cfg b) below in
    let positive : 0 < left cfg at b = ground arith in
    inr (omega (arith, e, rounds-same cfg b c (suc b.respawns) n r), s)
Shrinks-budget cfg at now b c n (inr (inr (r, l, s))) =
    inr (omega (arith, rounds-same cfg b c b.respawns n r), s)

ticks_end :
    (cfg : HealthConfig) (uuids : List (ℤ × String)) (at : ℕ) (ts : List Turn) (w : Watch)
    → IsSilent at ts
    → IsSpawned at w.backend
    → budget cfg at w.backend ≤ length ts
    → (ticks cfg uuids ts w).backend.state.status ≡ dead
unfolding ticks tick_one
ticks_end cfg uuids at [] w quiet h enough = absurd (ground arith)
ticks_end cfg uuids at (t ∷ ts) w (up, quiet, more) h enough =
    elim (Bool-cases (is_dead w.backend.state.status)) [
      | inl e ↦ ticks-dead cfg uuids (t ∷ ts) w (ground arith)
      | inr e ↦
          let v = (check_one cfg uuids t.now t.spawn t.answers w).0 in
          let n = check_one-engine cfg uuids t.now t.spawn t.answers w silent in
          let j = check_one-Judged cfg uuids t.now t.spawn t.answers w in
          let shrunk =
            Judged-Shrinks cfg at t.now t.spawn w.backend v.backend n up h (rw (← silent) j) in
          elim (Shrinks-budget cfg at t.now w.backend v.backend n shrunk) [
            | inl d ↦ rw (ticks, e) (ticks-dead cfg uuids ts v d)
            | inr (l, s) ↦ rw (ticks, e) (ticks_end cfg uuids t.now ts v more s (omega arith))
          ]
    ]
  where
    silent : (probe t.answers w.backend).1 ≡ false
    silent = elim (Bool-cases (probe t.answers w.backend).1) [
      | inl e ↦ let (d, a) = (probe_iff t.answers w.backend).0.0 e in absurd (quiet d a)
      | inr e ↦ e
    ]

-- A backend that no answer shows to serve is dead after finitely many checks: at most one process'
-- worth, `startup_timeout + failure_threshold + 1`, for its present process and for each respawn that
-- it has left, where a starting backend was spawned before and each check is at a later instant than
-- the one before.
pub ticks_terminate :
    (cfg : HealthConfig) (uuids : List (ℤ × String)) (at : ℕ) (ts : List Turn) (w : Watch)
    → IsSilent at ts
    → IsSpawned at w.backend
    → enough_checks cfg w.backend ≤ length ts
    → (ticks cfg uuids ts w).backend.state.status ≡ dead
ticks_terminate cfg uuids at ts w quiet h enough =
    let n = pos_part cfg.max_respawns - w.backend.respawns in
    let first : left cfg at w.backend ≤ per_process cfg w.backend = ground arith in
    ticks_end cfg uuids at ts w quiet h (
      omega (
        arith,
        rounds-mul n (per_process cfg w.backend),
        rounds-mul (suc n) (per_process cfg w.backend),
      ))
