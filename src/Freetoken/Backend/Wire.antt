-- ===== src/Freetoken/Backend/Wire.antt =====
-- The reads of internal/freetoken/backend.go that a probe makes: HTTP, decoding and the process table.
-- The engine is a function from a path to what it answers there, `none` where no answer comes. The
-- decoding of JSON and the text of /proc/<pid>/statm are arguments. A body that breaks off does so
-- behind its last byte.
use viiwork_freetoken.Prelude.{
  ℕ, ◌*◌, ◌≡◌, ◌↔◌, refl, sym, ◌∙◌, inl, inr, Bool, true, List, [], ◌∷◌, Option, none, some, String,
  ℤ, pos, leb_ℤ, eqb_ℤ, eqb_ℤ_iff, leb, length, take, quot_ℤ, ◌*ℤ◌, if◌then◌else◌, Bool-cases,
  Bytes, words, parse_int, wrap_int64, arith,
}
use viiwork_freetoken.Freetoken.Health.{Health, ready, ModelDoc, Geometry}
use viiwork_freetoken.Freetoken.Stats.{PoolName, StatsDoc}
use viiwork_freetoken.Freetoken.Backend.{Process, Backend, Answers, probe}
use viiwork_freetoken.Freetoken.Backend.Probe.{SameRouting, probe_iff}

pub record Reply : Type 0 where
  pub status : ℤ
  pub body : Bytes
  pub breaks_off : Bool

abbrev pub Engine : Type 0
Engine = String → Option Reply

-- `io.ReadAll` of an `io.LimitReader`: at the limit it ends without an error.
unfoldable pub read_all : ℕ → Reply → Option Bytes
read_all limit r =
    if leb limit (length r.body)
    then some (take limit r.body)
    else if r.breaks_off
    then none
    else some r.body

-- The three calls share this shape: `get`, and the heads of `readHealth` and `refreshStats`.
unfoldable pub body_of : ℕ → Option Reply → Option Bytes
body_of limit none = none
body_of limit (some r) = if eqb_ℤ r.status (pos 200) then read_all limit r else none

unfoldable pub get : Engine → String → Option Bytes
get engine path = body_of (256 * 1024) (engine path)

pub record Decoders : Type 0 where
  pub health : Bytes → Option Health
  pub stats : Bytes → Option StatsDoc
  pub models : Bytes → Option (List ModelDoc)
  pub cache : Bytes → Option Geometry

abbrev pub decoded {ℓ} : {A : Type ℓ} → (Bytes → Option A) → Option Bytes → Option A
decoded decode none = none
decoded decode (some body) = decode body

unfoldable pub read_health : Decoders → Engine → Option Health
read_health d engine = decoded d.health (body_of (64 * 1024) (engine "/health"))

unfoldable pub read_stats : Decoders → Engine → Option StatsDoc
read_stats d engine = decoded d.stats (body_of (1024 * 1024) (engine "/v1/stats"))

unfoldable pub pid : Option Process → ℤ
pid none = pos 0
pid (some p) = p.pid

-- The second word of the line counts pages.
rss_of_words : ℤ → List Bytes → ℤ
rss_of_words page_size [] = pos 0
rss_of_words page_size (w ∷ []) = pos 0
rss_of_words page_size (w ∷ v ∷ vs) =
    let (pages, fine) = parse_int v in
    if fine then quot_ℤ (wrap_int64 (pages *ℤ page_size)) (1024 * 1024) else pos 0

rss_of_file : ℤ → Option Bytes → ℤ
rss_of_file page_size none = pos 0
rss_of_file page_size (some text) = rss_of_words page_size (words text)

unfoldable pub read_rss_mb : (ℤ → Option Bytes) → ℤ → ℤ → ℤ
unfolding rss_of_words rss_of_file
read_rss_mb statm page_size p = if leb_ℤ p (pos 0) then pos 0 else rss_of_file page_size (statm p)

-- What a probe of this backend reads.
unfoldable pub answers :
    Decoders → Engine → List PoolName → (ℤ → Option Bytes) → ℤ → Backend → Answers
answers d engine order statm page_size b = record {
  health = read_health d engine;
  stats = read_stats d engine;
  pool_order = order;
  models = decoded d.models (get engine "/v1/models");
  cache = decoded d.cache (get engine "/v1/cache/status");
  rss_mb = read_rss_mb statm page_size (pid b.cmd);
}

unfoldable pub probe_engine :
    Decoders → Engine → List PoolName → (ℤ → Option Bytes) → ℤ → Backend → Backend × Bool
probe_engine d engine order statm page_size b = probe (answers d engine order statm page_size b) b

-- The engine answers /health with a 200 whose body can be read and decodes to this document.
abbrev pub Told : Decoders → Engine → Health → Type 0
Told d engine h =
    (r : Reply) × (body : Bytes) × (engine "/health" ≡ some r)
    × (r.status ≡ pos 200)
    × (read_all (64 * 1024) r ≡ some body)
    × (d.health body ≡ some h)

told_of :
    (d : Decoders) (limit : ℕ) (o : Option Reply) (h : Health)
    → decoded d.health (body_of limit o) ≡ some h
    → (r : Reply) × (body : Bytes) × (o ≡ some r)
      × (r.status ≡ pos 200)
      × (read_all limit r ≡ some body)
      × (d.health body ≡ some h)
unfolding body_of
told_of d limit none h e = absurd (ground arith)
told_of d limit (some r) h e = elim (Bool-cases (eqb_ℤ r.status (pos 200))) [
  | inl ok ↦
      let (body, got, is_h) = decoded_some (read_all limit r) (sym (rw ok refl) ∙ e) in
      (r, body, refl, (eqb_ℤ_iff r.status (pos 200)).0 ok, got, is_h)
  | inr bad ↦ absurd (ground arith)
]
  where
    decoded_some :
        (o : Option Bytes)
        → decoded d.health o ≡ some h
        → (body : Bytes) × (o ≡ some body) × (d.health body ≡ some h)
    decoded_some none k = absurd (ground arith)
    decoded_some (some body) k = (body, refl, k)

read_health_iff :
    (d : Decoders) (engine : Engine) (h : Health)
    → (read_health d engine ≡ some h) ↔ Told d engine h
unfolding read_health body_of read_all
read_health_iff d engine h = (
  told_of d (64 * 1024) (engine "/health") h,
  λ (r, body, answer, ok, got, is_h). rw (read_health, answer, body_of, ok, got, is_h) refl,
)

-- A probe succeeds exactly if the engine answers /health with status 200 and a body that can be read
-- and decodes to a document that says that the engine serves, whatever the other paths answer; what
-- it then publishes as resident size is read for the process of the backend, and no probe changes the
-- status, the number in flight or the latch.
pub probe_engine_iff :
    (d : Decoders) (engine : Engine) (order : List PoolName) (statm : ℤ → Option Bytes)
    (page_size : ℤ) (b : Backend)
    → let after = probe_engine d engine order statm page_size b in
      ((after.1 ≡ true) ↔ ((h : Health) × Told d engine h × (ready h ≡ true)))
      × (after.1 ≡ true → after.0.state.rss_mb ≡ read_rss_mb statm page_size (pid b.cmd))
      × SameRouting b after.0
unfolding probe_engine answers
probe_engine_iff d engine order statm page_size b =
    let (served, size, same) = probe_iff (answers d engine order statm page_size b) b in
    (
      (
        (λ k. let (h, (e, r)) = served.0 k in (h, (read_health_iff d engine h).0 e, r)),
        (λ (h, told, r). served.1 (h, ((read_health_iff d engine h).1 told, r))),
      ),
      size,
      same,
    )
