-- ===== src/Freetoken/Manager/Verdict.antt =====
-- What one check of a backend (internal/freetoken/manager.go) comes to, over all its branches.
use viiwork_freetoken.Prelude.{
  ℕ, suc, ◌≡◌, ◌≢◌, ◌⊎◌, refl, sym, ap, ◌∙◌, inl, inr, Bool, true, false, List, Option, String, ℤ,
  pos, ◌≤ℤ◌, ◌<ℤ◌, arith,
}
use viiwork_freetoken.Balancer.State.{starting, healthy, set_status, take_hard_failure}
use viiwork_freetoken.Config.{HealthConfig}
use viiwork_freetoken.Freetoken.Backend.{Backend, Answers, uptime, probe}
use viiwork_freetoken.Freetoken.Backend.Probe.{
  SameRouting, SameProcess, probe_iff, probe-SameProcess,
}
use viiwork_freetoken.Freetoken.Manager.{
  Watch, passed, failed, wait, strike, demote, count_failure, judge, check_one, note_progress,
}
use viiwork_freetoken.Freetoken.Manager.Check.{
  Respawned, SameRun, demoted, passed_lem, wait_lem, demote_lem, strike_lem, failed_waits,
  failed_strikes, respawn-latch, counted_lem, Respawned-of,
}

-- What one check makes of a backend `b`, `ok` telling whether its probe succeeded.
pub record Judged (cfg : HealthConfig) (now : ℕ) (spawn : Option ℤ) (ok : Bool) (b c : Backend)
    : Type 0 where
  pub passes : ok ≡ true → (c.state.status ≡ healthy) × (c.failures ≡ 0) × SameRun b c
  pub waits :
      ok ≡ false
      → b.state.status ≡ starting
      → b.state.hard_failure ≡ false
      → pos (uptime now b) ≤ℤ b.engine.startup_timeout
      → (c.state.status ≡ starting) × (c.failures ≡ suc b.failures) × SameRun b c
  pub times_out :
      ok ≡ false
      → b.state.status ≡ starting
      → b.state.hard_failure ≡ false
      → b.engine.startup_timeout <ℤ pos (uptime now b)
      → Respawned cfg now spawn b c
  pub counts :
      ok ≡ false
      → b.state.status ≢ starting
      → b.state.hard_failure ≡ false
      → pos (suc b.failures) <ℤ cfg.failure_threshold
      → (c.state.status ≡ demoted b.state.status) × (c.failures ≡ suc b.failures) × SameRun b c
  pub gives_up :
      ok ≡ false
      → (b.state.hard_failure ≡ true)
        ⊎ ((b.state.status ≢ starting) × (cfg.failure_threshold ≤ℤ pos (suc b.failures)))
      → Respawned cfg now spawn b c
  pub latch_read : ok ≡ false → c.state.hard_failure ≡ false

module _ (cfg : HealthConfig) (now : ℕ) (spawn : Option ℤ) (phase : String) (b : Backend) where
  abbrev counted : Watch
  counted = record { backend = count_failure b; last_phase = phase }

  abbrev after_failure : Backend
  after_failure = (failed cfg now spawn b.state.hard_failure counted).0.backend

  uptime_counted : uptime now (count_failure b) ≡ uptime now b
  unfolding uptime count_failure
  uptime_counted = refl

  engine_counted : (count_failure b).engine ≡ b.engine
  unfolding count_failure
  engine_counted = refl

  -- Below the threshold nothing but the count and the status changes.
  after_count :
      b.state.status ≢ starting
      → b.state.hard_failure ≡ false
      → pos (suc b.failures) <ℤ cfg.failure_threshold
      → (after_failure.state.status ≡ demoted b.state.status)
        × (after_failure.failures ≡ suc b.failures)
        × SameRun b after_failure
  after_count s l t =
      let (same, status, failures, latch) = counted_lem b in
      let (status', failures', same') = demote_lem (count_failure b) in
      let kept =
        (strike_lem cfg now spawn b.state.hard_failure (demote (count_failure b))).0 l
          (rw (failures', failures) t) in
      rw
        (
          failed_strikes cfg now spawn b.state.hard_failure counted (inr (λ e. s (sym status ∙ e))),
          kept,
        )
        (
          status' ∙ ap demoted status,
          failures' ∙ failures,
          (same'.0 ∙ same.0, same'.1 ∙ same.1, same'.2 ∙ same.2),
        )

  after_strikes :
      (b.state.hard_failure ≡ true)
        ⊎ ((b.state.status ≢ starting) × (cfg.failure_threshold ≤ℤ pos (suc b.failures)))
      → Respawned cfg now spawn b after_failure
  after_strikes h =
      let (same, status, failures, latch) = counted_lem b in
      let (status', failures', same') = demote_lem (count_failure b) in
      Respawned-of cfg now spawn b (demote (count_failure b)).0 after_failure
        (same'.0 ∙ same.0, same'.1 ∙ same.1, same'.2 ∙ same.2)
        (failed_strikes cfg now spawn b.state.hard_failure counted (split status h)
          ∙ (strike_lem cfg now spawn b.state.hard_failure (demote (count_failure b))).1
              (over (failures' ∙ failures) h))
    where
      split :
          (count_failure b).state.status ≡ b.state.status
          → (b.state.hard_failure ≡ true)
            ⊎ ((b.state.status ≢ starting) × (cfg.failure_threshold ≤ℤ pos (suc b.failures)))
          → (b.state.hard_failure ≡ true) ⊎ ((count_failure b).state.status ≢ starting)
      split e (inl l) = inl l
      split e (inr (s, t)) = inr (λ f. s (sym e ∙ f))

      over :
          (demote (count_failure b)).0.failures ≡ suc b.failures
          → (b.state.hard_failure ≡ true)
            ⊎ ((b.state.status ≢ starting) × (cfg.failure_threshold ≤ℤ pos (suc b.failures)))
          → (b.state.hard_failure ≡ true)
            ⊎ (cfg.failure_threshold ≤ℤ pos (demote (count_failure b)).0.failures)
      over e (inl l) = inl l
      over e (inr (s, t)) = inr (rw e t)

  after_wait :
      b.state.status ≡ starting
      → b.state.hard_failure ≡ false
      → (pos (uptime now b) ≤ℤ b.engine.startup_timeout → after_failure ≡ count_failure b)
        × (b.engine.startup_timeout <ℤ pos (uptime now b) → Respawned cfg now spawn b after_failure)
  after_wait s l =
      let (same, status, failures, latch) = counted_lem b in
      let waits = failed_waits cfg now spawn b.state.hard_failure counted (status ∙ s) l in
      let (patient, late) = wait_lem cfg now spawn counted in
      (
        (λ t. waits ∙ patient (rw (uptime_counted, engine_counted) t)),
        (λ t.
            Respawned-of cfg now spawn b (count_failure b) after_failure same
              (waits ∙ late (rw (uptime_counted, engine_counted) t))),
      )

  latch_after : (after_failure).state.hard_failure ≡ false
  unfolding failed wait strike demote note_progress set_status count_failure take_hard_failure
  latch_after = ground (
    arith,
    respawn-latch cfg now spawn (count_failure b),
    respawn-latch cfg now spawn (demote (count_failure b)).0,
  )

  failed-Judged : Judged cfg now spawn false b after_failure
  failed-Judged = record {
    passes = λ h. absurd (ground arith);
    waits = λ _ s l t.
        let (same, status, failures, latch) = counted_lem b in
        rw ((after_wait s l).0 t) (status ∙ s, failures, same);
    times_out = λ _ s l t. (after_wait s l).1 t;
    counts = λ _ s l t. after_count s l t;
    gives_up = λ _ h. after_strikes h;
    latch_read = λ _. latch_after;
  }

passed-Judged :
    (cfg : HealthConfig) (now : ℕ) (spawn : Option ℤ) (uuids : List (ℤ × String)) (b : Backend)
    → Judged cfg now spawn true b (passed uuids b).0
passed-Judged cfg now spawn uuids b = record {
  passes = λ _. passed_lem uuids b;
  waits = λ ok. absurd (ground arith);
  times_out = λ ok. absurd (ground arith);
  counts = λ ok. absurd (ground arith);
  gives_up = λ ok. absurd (ground arith);
  latch_read = λ ok. absurd (ground arith);
}

-- A backend that differs in nothing that the verdict reads can stand in its place.
module _ (cfg : HealthConfig) (now : ℕ) (spawn : Option ℤ) (ok : Bool) (b d c : Backend)
    (r : SameRouting b d) (p : SameProcess b d) where
  SameRun-from : SameRun d c → SameRun b c
  SameRun-from s = (s.0 ∙ p.0, s.1 ∙ p.1, s.2 ∙ p.2)

  Respawned-from : Respawned cfg now spawn d c → Respawned cfg now spawn b c
  Respawned-from (at, below) = (
    λ h. let k = at (rw p.2 h) in (k.0 ∙ p.2, k.1, k.2 ∙ p.0),
    λ h. let k = below (rw p.2 h) in (k.0 ∙ ap suc p.2, k.1, k.2),
  )

  uptime-from : uptime now d ≡ uptime now b
  unfolding uptime
  uptime-from = rw p.1

  Judged-from : Judged cfg now spawn ok d c → Judged cfg now spawn ok b c
  Judged-from j = record {
    passes = λ e. let (s, f, run) = j.passes e in (s, f, SameRun-from run);
    waits = λ e s l t.
        let (st, f, run) = j.waits e (r.0 ∙ s) (r.2 ∙ l) (rw (uptime-from, p.4) t) in
        (st, f ∙ ap suc p.3, SameRun-from run);
    times_out =
        λ e s l t. Respawned-from (j.times_out e (r.0 ∙ s) (r.2 ∙ l) (rw (uptime-from, p.4) t));
    counts = λ e s l t.
        let (st, f, run) = j.counts e (λ k. s (sym r.0 ∙ k)) (r.2 ∙ l) (rw p.3 t) in
        (st ∙ ap demoted r.0, f ∙ ap suc p.3, SameRun-from run);
    gives_up = λ e h. Respawned-from (j.gives_up e (give h));
    latch_read = j.latch_read;
  }
    where
      give :
          (b.state.hard_failure ≡ true)
            ⊎ ((b.state.status ≢ starting) × (cfg.failure_threshold ≤ℤ pos (suc b.failures)))
          → (d.state.hard_failure ≡ true)
            ⊎ ((d.state.status ≢ starting) × (cfg.failure_threshold ≤ℤ pos (suc d.failures)))
      give (inl l) = inl (r.2 ∙ l)
      give (inr (s, t)) = inr (((λ k. s (sym r.0 ∙ k)), rw p.3 t))

-- One check of a backend. If the probe succeeds the backend is healthy, with no failures and the same
-- process. Else the latch is clear afterwards, and: a starting backend with the latch clear stays as
-- it is up to the startup timeout and is respawned past it; another one, with the latch clear, counts
-- the failure and, if it was healthy, is unhealthy, as long as the failures stay below the threshold;
-- at the threshold, and on a set latch whatever the status, it is respawned. A respawn leaves a
-- backend at its limit dead; below the limit it counts and leaves a new process that is starting, or
-- a dead backend where the spawn fails.
pub check_one-Judged :
    (cfg : HealthConfig) (uuids : List (ℤ × String)) (now : ℕ) (spawn : Option ℤ) (a : Answers)
    (w : Watch)
    → Judged cfg now spawn
        (probe a w.backend).1
        w.backend
        (check_one cfg uuids now spawn a w).0.backend
unfolding check_one take_hard_failure
check_one-Judged cfg uuids now spawn a w =
    Judged-from cfg now spawn _ w.backend (probe a w.backend).0 _ (probe_iff a w.backend).2
      (probe-SameProcess a w.backend) (verdict (probe a w.backend))
  where
    verdict :
        (r : Backend × Bool)
        → Judged cfg now spawn r.1 r.0 (judge cfg uuids now spawn w.last_phase r).0.backend
    verdict (b, true) = passed-Judged cfg now spawn uuids b
    verdict (b, false) = failed-Judged cfg now spawn w.last_phase b
