-- ===== src/Peer/Route/Scan.antt =====
-- What the two loops of `PickRoute` (internal/peer/route.go) collect.
use viiwork_freetoken.Prelude.{
  ◌≡◌, refl, sym, ◌⊎◌, inl, inr, not, ◌&&◌, List, [], ◌∷◌, ◌++◌, ℤ, ◌≤ℤ◌, eqb_ℤ, ltb_ℤ, keep, All,
  All-map, mem-append_left, mem-append_right, Memᴰ, Bool-cases, if◌then◌else◌, arith,
}
use mathlib.Core.List.{append-nil, append_assoc}
use viiwork_freetoken.Peer.Route.{Route, is_local, is_full, scan_step, scan, tie_step, tie}

-- The routes that the first loop keeps.
abbrev pub available : ℤ → List Route → List Route
available max = keep (λ r. not (is_full max r))

abbrev pub tied_locals : ℤ → List Route → List Route
tied_locals min = keep (λ r. eqb_ℤ r.in_flight min && is_local r.kind)

abbrev pub tied_peers : ℤ → List Route → List Route
tied_peers min = keep (λ r. eqb_ℤ r.in_flight min && not (is_local r.kind))

pub tie_lem :
    (min : ℤ) (ls ps rs : List Route)
    → tie min (ls, ps) rs ≡ (ls ++ tied_locals min rs, ps ++ tied_peers min rs)
unfolding tie tie_step
tie_lem min ls ps [] = ground (arith, append-nil ls, append-nil ps)
tie_lem min ls ps (r ∷ rs) = ground (
  arith,
  tie_lem min ls ps rs,
  tie_lem min (ls ++ r ∷ []) ps rs,
  tie_lem min ls (ps ++ r ∷ []) rs,
  append_assoc ls (r ∷ []) (tied_locals min rs),
  append_assoc ps (r ∷ []) (tied_peers min rs),
)

pub scan_available :
    (max : ℤ) (av : List Route) (min : ℤ) (rs : List Route)
    → (scan max (av, min) rs).0 ≡ av ++ available max rs
unfolding scan scan_step
scan_available max av min [] = sym (append-nil av)
scan_available max av min (r ∷ rs) = ground (
  arith,
  scan_available max av min rs,
  scan_available max (av ++ r ∷ []) r.in_flight rs,
  scan_available max (av ++ r ∷ []) min rs,
  append_assoc av (r ∷ []) (available max rs),
)

-- The lowest number in flight among some routes.
abbrev pub IsMinOf : List Route → ℤ → Type 0
IsMinOf rs m = ((r : Route) × Memᴰ r rs × (r.in_flight ≡ m)) × All (λ r. m ≤ℤ r.in_flight) rs

abbrev pub IsScan : List Route × ℤ → Type 0
IsScan st = (st.0 ≡ []) ⊎ IsMinOf st.0 st.1

All-append_one :
    (P : Route → Type 0) (rs : List Route) (r : Route) → All P rs → P r → All P (rs ++ r ∷ [])
All-append_one P [] r h p = (p, tt)
All-append_one P (x ∷ rs) r h p = (h.0, All-append_one P rs r h.1 p)

-- One more route, with its own number or the old minimum, whichever is less.
IsMinOf-append :
    (rs : List Route) (m : ℤ) (r : Route)
    → IsMinOf rs m
    → IsMinOf (rs ++ r ∷ []) (if ltb_ℤ r.in_flight m then r.in_flight else m)
IsMinOf-append rs m r ((t, mem, e), low) = elim (Bool-cases (ltb_ℤ r.in_flight m)) [
  | inl l ↦ rw l (
    (r, mem-append_right rs (r ∷ []) (Memᴰ.head refl), refl),
    All-append_one _ rs r (All-map _ _ rs (λ u k. ground arith) low) (omega arith),
  )
  | inr l ↦ rw l ((t, mem-append_left rs (r ∷ []) mem, e), All-append_one _ rs r low (ground arith))
]

scan_step-IsScan :
    (max : ℤ) (st : List Route × ℤ) (r : Route) → IsScan st → IsScan (scan_step max st r)
unfolding scan_step
scan_step-IsScan max ([], m) r h = elim (Bool-cases (is_full max r)) [
  | inl e ↦ rw e h
  | inr e ↦ rw e (inr ((r, Memᴰ.head refl, refl), (omega arith, tt)))
]
scan_step-IsScan max (x ∷ xs, m) r (inl h) = absurd (ground arith)
scan_step-IsScan max (x ∷ xs, m) r (inr h) = elim (Bool-cases (is_full max r)) [
  | inl e ↦ rw e (inr h)
  | inr e ↦ rw e (inr (IsMinOf-append (x ∷ xs) m r h))
]

pub scan-IsScan :
    (max : ℤ) (st : List Route × ℤ) (rs : List Route) → IsScan st → IsScan (scan max st rs)
unfolding scan
scan-IsScan max st [] h = h
scan-IsScan max st (r ∷ rs) h =
    scan-IsScan max (scan_step max st r) rs (scan_step-IsScan max st r h)
