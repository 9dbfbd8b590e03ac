-- ===== src/Freetoken/Backend/Probe.antt =====
-- What a probe (internal/freetoken/backend.go) answers, and what of it outlives a failed one.
use viiwork_freetoken.Prelude.{
  ◌≡◌, ◌↔◌, ◌⊎◌, refl, sym, ap, ◌∙◌, subst, inl, inr, Bool, true, false, ◌&&◌, Option, none, some,
  str_eq, str_eq_iff, pos, ◌≤ℤ◌, Bool-cases, arith,
}
use viiwork_freetoken.Freetoken.Health.{
  Health, no_health, ready, parse_health, parse_context_len, parse_kv_capacity,
}
use viiwork_freetoken.Freetoken.Backend.{
  Backend, Answers, refresh_stats, learn_context_len, note_health, probe,
}
use viiwork_freetoken.Freetoken.Backend.Context.{Published, learn_context_len-Published}

-- What no probe touches.
abbrev pub SameRouting : Backend → Backend → Type 0
SameRouting b c =
    (c.state.status ≡ b.state.status)
    × (c.state.in_flight ≡ b.state.in_flight)
    × (c.state.hard_failure ≡ b.state.hard_failure)

parse_health-ready : (h : Health) → ready h ≡ true → parse_health (some h) ≡ (h, true)
unfolding ready parse_health
parse_health-ready h r =
    let e : h.status ≡ "ok" = ground (arith, str_eq_iff h.status "ok") in
    let full : str_eq h.status "" ≡ false = ap (λ s. str_eq s "") e in rw full

-- A reading that makes a probe succeed.
abbrev pub Answered : Option Health → Health → Type 0
Answered o h = (o ≡ some h) × (ready h ≡ true)

parse_health-cases :
    (o : Option Health)
    → ((h : Health) × Answered o h)
      ⊎ ((h : Health) × (fine : Bool) × (parse_health o ≡ (h, fine)) × ((fine && ready h) ≡ false))
unfolding parse_health ready
parse_health-cases none = inr (no_health, false, refl, refl)
parse_health-cases (some h) = elim (Bool-cases (ready h)) [
  | inl r ↦ inl (h, (refl, r))
  | inr r ↦ elim (Bool-cases (str_eq h.status "")) [
    | inl e ↦ inr (no_health, false, rw e, refl)
    | inr e ↦ inr (h, true, rw e, ground arith)
  ]
]

abbrev served : Answers → Backend → Backend
served a b =
    let c = learn_context_len a (refresh_stats a b) in
    record c { state = record c.state { rss_mb = a.rss_mb } }

probe_serves :
    (a : Answers) (b : Backend) (h : Health)
    → Answered a.health h
    → probe a b ≡ (served a (note_health h b), true)
unfolding probe
probe_serves a b h (e, r) = rw (e, parse_health-ready h r, r)

probe_failed :
    (a : Answers) (b : Backend) (h : Health) (fine : Bool)
    → parse_health a.health ≡ (h, fine)
    → (fine && ready h) ≡ false
    → probe a b ≡ (note_health h b, false)
unfolding probe
probe_failed a b h fine e r = rw e (ground arith)

SameRouting-trans : (b c d : Backend) → SameRouting b c → SameRouting c d → SameRouting b d
SameRouting-trans b c d p q = (q.0 ∙ p.0, q.1 ∙ p.1, q.2 ∙ p.2)

note_health-SameRouting : (h : Health) (b : Backend) → SameRouting b (note_health h b)
unfolding note_health
note_health-SameRouting h b = (refl, refl, refl)

served-SameRouting : (a : Answers) (b : Backend) → SameRouting b (served a b)
unfolding learn_context_len refresh_stats
served-SameRouting a b = (ground arith, ground arith, ground arith)

-- A probe succeeds exactly if the engine's document decodes and says that it serves; on success the
-- resident size is published, and no probe changes the status, the number in flight or the latch.
pub probe_iff :
    (a : Answers) (b : Backend)
    → (((probe a b).1 ≡ true) ↔ ((h : Health) × Answered a.health h))
      × ((probe a b).1 ≡ true → (probe a b).0.state.rss_mb ≡ a.rss_mb)
      × SameRouting b (probe a b).0
probe_iff a b = elim (parse_health-cases a.health) [
  | inl (h, answered) ↦ rw (probe_serves a b h answered) (
    ((λ _. (h, answered)), (λ _. refl)),
    (λ _. refl),
    SameRouting-trans b (note_health h b) (served a (note_health h b)) (note_health-SameRouting h b)
        (served-SameRouting a (note_health h b)),
  )
  | inr (h, fine, e, r) ↦
      let failed = probe_failed a b h fine e r in
      rw failed (
        ((λ k. absurd (ground arith)), (λ k. absurd (ground (arith, probe_serves a b k.0 k.1)))),
        (λ k. absurd (ground arith)),
        note_health-SameRouting h b,
      )
]

refresh_stats-max_model_len :
    (a : Answers) (b : Backend)
    → ((refresh_stats a b).state.max_model_len ≡ b.state.max_model_len)
      × ((refresh_stats a b).ctx_learned ≡ b.ctx_learned)
      × ((refresh_stats a b).engine ≡ b.engine)
unfolding refresh_stats
refresh_stats-max_model_len a b = (ground arith, ground arith, ground arith)

-- Once the context is learned, a probe that succeeds when the last reading told of no maintenance
-- leaves the published length as it is.
probe_keeps :
    (a : Answers) (b : Backend) (h : Health)
    → Answered a.health h
    → b.ctx_learned ≡ true
    → b.health.maintenance ≡ ""
    → (probe a b).0.state.max_model_len ≡ b.state.max_model_len
unfolding note_health
probe_keeps a b h answered c m =
    let n = note_health h b in
    let same = refresh_stats-max_model_len a n in
    let quiet : str_eq b.health.maintenance "" ≡ true = ap (λ s. str_eq s "") m in
    let learned : (refresh_stats a n).ctx_learned ≡ true = same.1 ∙ rw (quiet, c) refl in
    rw (probe_serves a b h answered) (
      ap (λ (x : Backend). x.state.max_model_len)
        ((learn_context_len-Published a (refresh_stats a n)).1 (inr learned))
      ∙ same.0)

-- A failed probe keeps the learned context and forgets the maintenance state.
probe_lost :
    (lost : Answers) (b : Backend)
    → lost.health ≡ none
    → probe lost b ≡ (note_health no_health b, false)
unfolding parse_health
probe_lost lost b l = probe_failed lost b no_health false (rw l) refl

-- The first answer after a rebuild forgets what was learned before it.
probe_relearns :
    (a : Answers) (b : Backend) (h : Health)
    → Answered a.health h
    → b.health.maintenance ≡ "rebuilding"
    → b.engine.max_seq_len ≤ℤ pos 0
    → Published b.state.max_model_len
        (parse_context_len a.models)
        (parse_kv_capacity a.cache)
        (probe a b).0.state.max_model_len
unfolding note_health
probe_relearns a b h answered m free =
    let n = note_health h b in
    let same = refresh_stats-max_model_len a n in
    let down : str_eq b.health.maintenance "" ≡ false = ap (λ s. str_eq s "") m in
    let busy : str_eq b.health.maintenance "serving" ≡ false = ap (λ s. str_eq s "serving") m in
    let void : (refresh_stats a n).ctx_learned ≡ false =
      same.1 ∙ rw (down, busy, answered.1) refl in
    let unpinned : (refresh_stats a n).engine.max_seq_len ≤ℤ pos 0 =
      subst (λ e. e.max_seq_len ≤ℤ pos 0) (sym same.2) free in
    rw (probe_serves a b h answered) (
      subst
        (λ old.
          Published old (parse_context_len a.models) (parse_kv_capacity a.cache)
            (served a n).state.max_model_len)
        same.0 ((learn_context_len-Published a (refresh_stats a n)).0 unpinned void).0)

-- A context length that was learned outlives a cache rebuild if a probe fails between the rebuild's
-- last report and the first answer of the engine that serves again: the published length stays as it
-- was. Without the failed probe that answer's limits are published.
pub stale_context :
    (a lost : Answers) (b : Backend) (h : Health)
    → Answered a.health h
    → lost.health ≡ none
    → b.ctx_learned ≡ true
    → b.health.maintenance ≡ "rebuilding"
    → b.engine.max_seq_len ≤ℤ pos 0
    → ((probe a (probe lost b).0).0.state.max_model_len ≡ b.state.max_model_len)
      × Published b.state.max_model_len
          (parse_context_len a.models)
          (parse_kv_capacity a.cache)
          (probe a b).0.state.max_model_len
unfolding note_health ready
stale_context a lost b h answered l c m free = (
  rw (probe_lost lost b l) (probe_keeps a (note_health no_health b) h answered (ground arith) refl),
  probe_relearns a b h answered m free,
)

-- Nor does it touch the process, its start, or the counts of failures and respawns.
abbrev pub SameProcess : Backend → Backend → Type 0
SameProcess b c =
    (c.cmd ≡ b.cmd)
    × (c.started ≡ b.started)
    × (c.respawns ≡ b.respawns)
    × (c.failures ≡ b.failures)
    × (c.engine ≡ b.engine)

served-SameProcess : (a : Answers) (b : Backend) → SameProcess b (served a b)
unfolding learn_context_len refresh_stats
served-SameProcess a b = (ground arith, ground arith, ground arith, ground arith, ground arith)

pub probe-SameProcess : (a : Answers) (b : Backend) → SameProcess b (probe a b).0
unfolding note_health
probe-SameProcess a b = elim (parse_health-cases a.health) [
  | inl (h, answered) ↦ rw (probe_serves a b h answered) (served-SameProcess a (note_health h b))
  | inr (h, fine, e, r) ↦ rw (probe_failed a b h fine e r) (refl, refl, refl, refl, refl)
]
