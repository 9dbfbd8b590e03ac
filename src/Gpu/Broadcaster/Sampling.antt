-- ===== src/Gpu/Broadcaster/Sampling.antt =====
-- internal/gpu/collector.go: a round of `Collect` with the broadcaster, and the loop of `Run`.
-- A nil broadcaster is `none`. Running the command is taken by its output, with the instant of each.
use viiwork_freetoken.Prelude.{
  ◌≡◌, refl, ap, ◌∙◌, subst, some-injective, List, [], ◌∷◌, Option, none, some, ℤ, Bytes,
  if◌then◌else◌,
}
use viiwork_freetoken.Gpu.History.{GpuSample, History}
use viiwork_freetoken.Gpu.Readings.{FloatReader, StatCollector, collect}
use viiwork_freetoken.Gpu.Broadcaster.{Broadcaster, publish}
use viiwork_freetoken.Gpu.Broadcaster.Delivery.{Reach, Step, publish-Delivered}

-- An output of the command and the instant at which it is parsed.
pub record Output : Type 0 where
  pub at : ℤ
  pub out : Option Bytes

pub record Node : Type 0 where
  pub history : History
  pub broadcaster : Option Broadcaster

broadcast : List GpuSample → Node → Option Node
broadcast [] n = some n
broadcast (s ∷ ss) n = elim n.broadcaster [
  | none ↦ some n
  | some b ↦ elim (publish (s ∷ ss) b) [
    | none ↦ none
    | some c ↦ some (record n { broadcaster = some c })
  ]
]

-- `none` is a panic of the broadcaster.
unfoldable pub sample_once : FloatReader → StatCollector → Output → Node → Option Node
unfolding broadcast
sample_once read c o n =
    let (h, samples) = collect read o.at o.out c n.history in
    broadcast samples (record n { history = h })

unfoldable pub run_rounds : FloatReader → StatCollector → List Output → Node → Option Node
run_rounds read c [] n = some n
run_rounds read c (o ∷ os) n = elim (sample_once read c o n) [
  | none ↦ none
  | some m ↦ run_rounds read c os m
]

-- A collector that is not available does not begin; else the first round comes before the ticker.
unfoldable pub run : FloatReader → StatCollector → List Output → Node → Option Node
run read c os n = if c.available then run_rounds read c os n else some n

-- A broadcaster of which only such calls came before.
abbrev pub NodeReach : Node → Type 0
NodeReach n = (b : Broadcaster) → n.broadcaster ≡ some b → Reach b

-- A result that is no panic, with the history h.
abbrev Continues : Option Node → History → Type 0
Continues r h = (m : Node) × (r ≡ some m) × (m.history ≡ h) × NodeReach m

publish-Continues :
    (s : List GpuSample) (b : Broadcaster) (h : History)
    → Reach b
    → (c : Broadcaster) × (publish s b ≡ some c)
      × NodeReach (record { history = h; broadcaster = some c })
publish-Continues s b h r =
    let (after, done, _) = publish-Delivered s b r in
    (
      _,
      done,
      λ c e. subst Reach (some-injective _ _ e) (Reach.continues r (Step.publishes s b _ done)),
    )

broadcast_open :
    (s : GpuSample) (ss : List GpuSample) (h : History) (o : Option Broadcaster)
    → NodeReach (record { history = h; broadcaster = o })
    → Continues (broadcast (s ∷ ss) (record { history = h; broadcaster = o })) h
unfolding broadcast
broadcast_open s ss h none r = (_, refl, refl, r)
broadcast_open s ss h (some b) r =
    let (c, done, next) = publish-Continues (s ∷ ss) b h (r b refl) in
    (_, rw (broadcast, done) refl, refl, next)

broadcast-Continues :
    (ss : List GpuSample) (n : Node) → NodeReach n → Continues (broadcast ss n) n.history
unfolding broadcast
broadcast-Continues [] n r = (n, refl, refl, r)
broadcast-Continues (s ∷ ss) n r = broadcast_open s ss n.history n.broadcaster r

sample_once-Continues :
    (read : FloatReader) (c : StatCollector) (o : Output) (n : Node)
    → NodeReach n
    → Continues (sample_once read c o n) (collect read o.at o.out c n.history).0
unfolding sample_once
sample_once-Continues read c o n r =
    broadcast-Continues (collect read o.at o.out c n.history).1
      (record n { history = (collect read o.at o.out c n.history).0 }) r

-- The history after the rounds.
unfoldable pub recorded : FloatReader → StatCollector → List Output → History → History
recorded read c [] h = h
recorded read c (o ∷ os) h = recorded read c os (collect read o.at o.out c h).0

-- Whatever calls on the broadcaster came before, no round of the sampling panics, and the history is
-- that of the outputs in their order, whoever subscribes to the samples.
pub run_rounds-recorded :
    (read : FloatReader) (c : StatCollector) (os : List Output) (n : Node)
    → NodeReach n
    → (m : Node) × (run_rounds read c os n ≡ some m)
      × (m.history ≡ recorded read c os n.history)
      × NodeReach m
unfolding run_rounds recorded
run_rounds-recorded read c [] n r = (n, refl, refl, r)
run_rounds-recorded read c (o ∷ os) n r =
    let (k, done, same, next) = sample_once-Continues read c o n r in
    let (m, ran, all, last) = run_rounds-recorded read c os k next in
    (m, rw (run_rounds, done) ran, all ∙ ap (recorded read c os) same, last)
