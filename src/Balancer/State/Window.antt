-- ===== src/Balancer/State/Window.antt =====
-- What the latency window of internal/balancer/state.go holds.
use viiwork_freetoken.Prelude.{
  ℕ, zero, suc, ◌+◌, ◌*◌, ◌/◌, ◌≤◌, ◌<◌, ◌≡◌, refl, ◌≢◌, subst, Bool, not, List, [], ◌∷◌, ◌++◌, ℤ,
  pos, negsuc, ltb, length, keep, All, Bool-cases, inl, inr, arith,
}
use viiwork_freetoken.Balancer.State.{
  LatencySample, BackendState, drop_old, evict, evict_locked, record_latency, total_dur, mean,
  avg_latency,
}

drop_old-drop_old :
    (w now later : ℕ) (ss : List LatencySample)
    → now ≤ later
    → drop_old w later (drop_old w now ss) ≡ drop_old w later ss
unfolding drop_old
drop_old-drop_old w now later [] h = refl
drop_old-drop_old w now later (s ∷ ss) h = ground (arith, drop_old-drop_old w now later ss h)

evict-evict :
    (w : ℤ) (now later : ℕ) (ss : List LatencySample)
    → now ≤ later
    → evict w later (evict w now ss) ≡ evict w later ss
unfolding evict
evict-evict (pos zero) now later ss h = refl
evict-evict (pos (suc w)) now later ss h = drop_old-drop_old (suc w) now later ss h
evict-evict (negsuc w) now later ss h = refl

-- An earlier reading of the mean does not change what a later one gives or leaves behind: the
-- eviction that `AvgLatency` does as a side effect cannot be observed by a later call.
pub avg_latency-avg_latency :
    (now later : ℕ) (b : BackendState)
    → now ≤ later
    → avg_latency later (avg_latency now b).1 ≡ avg_latency later b
unfolding avg_latency
avg_latency-avg_latency now later b h = ground (arith, evict-evict b.window now later b.samples h)

total_dur-add : (n : ℕ) (ss : List LatencySample) → total_dur n ss ≡ n + total_dur 0 ss
unfolding total_dur
total_dur-add n [] = omega arith
total_dur-add n (s ∷ ss) = omega (arith, total_dur-add (n + s.dur) ss, total_dur-add (0 + s.dur) ss)

-- Oldest first.
abbrev pub InOrder : List LatencySample → Type 0
InOrder [] = Unit {0}
InOrder (s ∷ ss) = All (λ t. s.at ≤ t.at) ss × InOrder ss

abbrev pub in_window : ℕ → ℕ → LatencySample → Bool
in_window w now s = not (ltb (s.at + w) now)

recent_kept :
    (w now t : ℕ) (ss : List LatencySample)
    → now ≤ t + w
    → All (λ s. t ≤ s.at) ss
    → keep (in_window w now) ss ≡ ss
recent_kept w now t [] h k = refl
recent_kept w now t (s ∷ ss) h k = ground (arith, recent_kept w now t ss h k.1)

drop_old-keep :
    (w now : ℕ) (ss : List LatencySample)
    → InOrder ss
    → drop_old w now ss ≡ keep (in_window w now) ss
unfolding drop_old
drop_old-keep w now [] o = refl
drop_old-keep w now (s ∷ ss) o =
    ground (arith, drop_old-keep w now ss o.1, recent_kept w now s.at ss)

-- The window of `AvgLatency`.
abbrev pub recent_samples : ℕ → ℕ → BackendState → List LatencySample
recent_samples w now b = keep (in_window w now) b.samples

evict_locked-samples :
    (w now : ℕ) (b : BackendState)
    → b.window ≡ pos (suc w)
    → InOrder b.samples
    → (evict_locked now b).samples ≡ recent_samples (suc w) now b
unfolding evict_locked
evict_locked-samples w now b e o = rw (e, evict) (drop_old-keep (suc w) now b.samples o)

abbrev pub durations : List LatencySample → ℕ
durations [] = 0
durations (s ∷ ss) = s.dur + durations ss

total_dur-durations : (ss : List LatencySample) → total_dur 0 ss ≡ durations ss
unfolding total_dur
total_dur-durations [] = refl
total_dur-durations (s ∷ ss) = omega (arith, total_dur-add (0 + s.dur) ss, total_dur-durations ss)

-- `m` is the mean duration of the samples, rounded down, and 0 where there are none.
pub record IsMean (ss : List LatencySample) (m : ℕ) : Type 0 where
  pub none_zero : ss ≡ [] → m ≡ 0
  pub not_above : m * length ss ≤ durations ss
  pub within_one : ss ≢ [] → durations ss < (m + 1) * length ss

floor_bounds : (k t : ℕ) → (t / suc k * suc k ≤ t) × (t < (t / suc k + 1) * suc k)
floor_bounds k t = (grind arith, grind arith)

mean-IsMean : (ss : List LatencySample) → IsMean ss (mean ss)
unfolding mean
mean-IsMean [] = record {
  none_zero = λ _. refl;
  not_above = omega arith;
  within_one = λ h. absurd (h refl);
}
mean-IsMean (s ∷ ss) =
    let f = floor_bounds (length ss) (total_dur 0 (s ∷ ss)) in
    record {
      none_zero = λ h. cc;
      not_above = omega (arith, f.0, total_dur-durations (s ∷ ss));
      within_one = λ _. omega (arith, f.1, total_dur-durations (s ∷ ss));
    }

-- With a window of `w + 1` and samples in time order, `AvgLatency` at `now` gives the mean, rounded
-- down, of exactly the samples that are at most that old (0 where there are none), and keeps these.
pub avg_latency-IsMean :
    (w now : ℕ) (b : BackendState)
    → b.window ≡ pos (suc w)
    → InOrder b.samples
    → ((avg_latency now b).1.samples ≡ recent_samples (suc w) now b)
      × IsMean (recent_samples (suc w) now b) (avg_latency now b).0
unfolding avg_latency
avg_latency-IsMean w now b e o =
    let p = evict_locked-samples w now b e o in
    (p, subst (λ ss. IsMean ss (mean (evict_locked now b).samples)) p (mean-IsMean _))

drop_old-append :
    (w now dur : ℕ) (ss : List LatencySample)
    → drop_old w now (ss ++ record { at = now; dur = dur } ∷ [])
      ≡ drop_old w now ss ++ record { at = now; dur = dur } ∷ []
unfolding drop_old
drop_old-append w now dur [] = ground arith
drop_old-append w now dur (s ∷ ss) = ground (arith, drop_old-append w now dur ss)

evict-append :
    (w : ℤ) (now dur : ℕ) (ss : List LatencySample)
    → evict w now (ss ++ record { at = now; dur = dur } ∷ [])
      ≡ evict w now ss ++ record { at = now; dur = dur } ∷ []
unfolding evict
evict-append (pos zero) now dur ss = refl
evict-append (pos (suc w)) now dur ss = drop_old-append (suc w) now dur ss
evict-append (negsuc w) now dur ss = refl

-- The samples are in time order, and none is from after `now`.
abbrev pub IsPast : ℕ → List LatencySample → Type 0
IsPast now ss = InOrder ss × All (λ s. s.at ≤ now) ss

drop_old-IsPast :
    (w now limit : ℕ) (ss : List LatencySample) → IsPast limit ss → IsPast limit (drop_old w now ss)
unfolding drop_old
drop_old-IsPast w now limit [] h = h
drop_old-IsPast w now limit (s ∷ ss) h = elim (Bool-cases (ltb (s.at + w) now)) [
  | inl e ↦ rw e (drop_old-IsPast w now limit ss (h.0.1, h.1.1))
  | inr e ↦ rw e h
]

evict-IsPast :
    (w : ℤ) (now limit : ℕ) (ss : List LatencySample)
    → IsPast limit ss
    → IsPast limit (evict w now ss)
unfolding evict
evict-IsPast (pos zero) now limit ss h = h
evict-IsPast (pos (suc w)) now limit ss h = drop_old-IsPast (suc w) now limit ss h
evict-IsPast (negsuc w) now limit ss h = h

append-IsPast :
    (now dur : ℕ) (ss : List LatencySample)
    → IsPast now ss
    → IsPast now (ss ++ record { at = now; dur = dur } ∷ [])
append-IsPast now dur [] h = omega arith
append-IsPast now dur (s ∷ ss) h =
    let r = append-IsPast now dur ss (h.0.1, h.1.1) in ((later ss h.0.0, r.0), (h.1.0, r.1))
  where
    later :
        (ts : List LatencySample)
        → All (λ t. s.at ≤ t.at) ts
        → All (λ t. s.at ≤ t.at) (ts ++ record { at = now; dur = dur } ∷ [])
    later [] k = (h.1.0, tt)
    later (t ∷ ts) k = (k.0, later ts k.1)

-- `RecordLatency` at `now`, over samples in time order of which none is newer, drops the samples
-- that an eviction at `now` drops, puts the new one behind the rest, and keeps the order.
pub record_latency-IsPast :
    (now dur : ℕ) (b : BackendState)
    → IsPast now b.samples
    → ((record_latency now dur b).samples
        ≡ (evict_locked now b).samples ++ record { at = now; dur = dur } ∷ [])
      × IsPast now (record_latency now dur b).samples
unfolding record_latency
record_latency-IsPast now dur b h =
    let e = evict-append b.window now dur b.samples in
    (e, rw e (append-IsPast now dur _ (evict-IsPast b.window now now b.samples h)))
