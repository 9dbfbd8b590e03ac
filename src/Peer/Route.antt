-- ===== src/Peer/Route.antt =====
-- internal/peer/route.go: the choice among the routes that can serve a model.
-- A route's pointers, to a backend and to a peer, are positions in the registry's slices. The two
-- round-robin counters, package variables of type uint64, are a state that each call passes on.
pub mod Scan
pub mod Outcome
pub mod Rotation
use viiwork_freetoken.Prelude.{
  ℕ, suc, ◌+◌, ◌%◌, ◌^◌, Bool, true, false, ◌&&◌, ◌||◌, List, [], ◌∷◌, ◌++◌, Option, none, some,
  String, ℤ, pos, ltb_ℤ, leb_ℤ, eqb_ℤ, length, get_elem?, if◌then◌else◌,
}

pub data RouteType : Type 0 where
  route_local route_peer : RouteType

pub record Route : Type 0 where
  pub kind : RouteType
  pub backend : Option ℕ
  pub addr : String
  pub peer : Option ℕ
  pub in_flight : ℤ

-- The result of `PickRoute`. `panics` is the index out of range of Go, or the division by zero.
pub data Choice : Type 0 where
  picked : Route → Choice
  no_route backpressure panics : Choice

pub record Counters : Type 0 where
  pub local_rr : ℕ
  pub peer_rr : ℕ

abbrev pub is_local : RouteType → Bool
is_local route_local = true
is_local route_peer = false

-- A local route at its ceiling; a ceiling of zero or less is none.
abbrev pub is_full : ℤ → Route → Bool
is_full max r = is_local r.kind && ltb_ℤ (pos 0) max && leb_ℤ max r.in_flight

abbrev pub is_empty {ℓ} : {A : Type ℓ} → List A → Bool
is_empty [] = true
is_empty (_ ∷ _) = false

-- The first loop, on `available` and `minIF`.
pub scan_step : ℤ → List Route × ℤ → Route → List Route × ℤ
scan_step max (available, min) r = if is_full max r then (available, min) else (
  available ++ r ∷ [],
  if is_empty available || ltb_ℤ r.in_flight min then r.in_flight else min,
)

pub scan : ℤ → List Route × ℤ → List Route → List Route × ℤ
scan max st [] = st
scan max st (r ∷ rs) = scan max (scan_step max st r) rs

-- The second loop, on `tiedLocals` and `tiedPeers`.
pub tie_step : ℤ → List Route × List Route → Route → List Route × List Route
tie_step min (locals, peers) r =
    if eqb_ℤ r.in_flight min
    then if is_local r.kind then (locals ++ r ∷ [], peers) else (locals, peers ++ r ∷ [])
    else (locals, peers)

pub tie : ℤ → List Route × List Route → List Route → List Route × List Route
tie min st [] = st
tie min st (r ∷ rs) = tie min (tie_step min st r) rs

abbrev pub u64 : ℕ → ℕ
u64 n = n % 2 ^ 64

abbrev pub picked_or_panics : Option Route → Choice
picked_or_panics none = panics
picked_or_panics (some r) = picked r

-- `tied[idx % len(tied)]`.
abbrev pub rotate : List Route → ℕ → Choice
rotate tied idx = picked_or_panics (get_elem? tied (idx % length tied))

pub choose_peer : List Route → Counters → Choice × Counters
choose_peer (r ∷ []) c = (picked r, c)
choose_peer peers c = (rotate peers c.peer_rr, record c { peer_rr = u64 (c.peer_rr + 1) })

pub choose : List Route × List Route → Counters → Choice × Counters
choose ([], peers) c = choose_peer peers c
choose (r ∷ [], peers) c = (picked r, c)
choose (r ∷ s ∷ rs, peers) c =
    (rotate (r ∷ s ∷ rs) c.local_rr, record c { local_rr = u64 (c.local_rr + 1) })

pub settle : List Route × ℤ → Counters → Choice × Counters
settle ([], min) c = (backpressure, c)
settle (r ∷ rs, min) c = choose (tie min ([], []) (r ∷ rs)) c

unfoldable pub pick_route : List Route → ℤ → Counters → Choice × Counters
unfolding scan scan_step tie tie_step choose choose_peer settle
pick_route [] max c = (no_route, c)
pick_route (r ∷ rs) max c = settle (scan max ([], pos 0) (r ∷ rs)) c
