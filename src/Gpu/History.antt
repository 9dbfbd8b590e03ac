-- ===== src/Gpu/History.antt =====
-- internal/gpu/history.go: a bounded window of samples for each card.
-- A Go map from card to samples is a function into Option. A float64 is an exact quotient.
pub mod Order
pub mod Kept
pub mod Recent
use viiwork_freetoken.Prelude.{
  ℕ, Bool, true, false, List, [], ◌∷◌, ◌++◌, Option, none, some, ℤ, ltb_ℤ, eqb_ℤ, ltb, length,
  last_n, if◌then◌else◌,
}
use viiwork_freetoken.Balancer.State.{Ratio}

pub record GpuSample : Type 0 where
  pub gpu_id : ℤ
  pub utilization : Ratio
  pub vram_used_mb : Ratio
  pub vram_total_mb : Ratio
  pub power_w : Ratio
  pub timestamp : ℤ

abbrev pub history_slots : ℕ
history_slots = 720

pub record History : Type 0 where
  pub series : ℤ → Option (List GpuSample)
  pub order : List ℤ

unfoldable pub new_history : History
new_history = record { series = λ id. none; order = [] }

-- The loop that moves a new last item to the left while its neighbour is larger. If it has passed the
-- whole list, the first component is true and the second is the list without it.
pub sink : ℤ → List ℤ → Bool × List ℤ
sink id [] = (true, [])
sink id (x ∷ xs) =
    let (moving, ys) = sink id xs in
    if moving
    then (if ltb_ℤ id x then (true, x ∷ ys) else (false, x ∷ id ∷ ys))
    else (false, x ∷ ys)

pub settled : ℤ → Bool × List ℤ → List ℤ
settled id (true, ys) = id ∷ ys
settled id (false, ys) = ys

pub add_order : ℤ → Option (List GpuSample) → List ℤ → List ℤ
add_order id none order = settled id (sink id order)
add_order id (some _) order = order

abbrev pub ring_of : Option (List GpuSample) → List GpuSample
ring_of none = []
ring_of (some ring) = ring

pub push_sample : GpuSample → List GpuSample → List GpuSample
push_sample s old =
    let ring = old ++ s ∷ [] in
    if ltb history_slots (length ring) then last_n history_slots ring else ring

unfoldable pub add_sample : GpuSample → History → History
unfolding add_order sink settled push_sample
add_sample s h = record {
  series = λ id.
      if eqb_ℤ id s.gpu_id then some (push_sample s (ring_of (h.series s.gpu_id))) else h.series id;
  order = add_order s.gpu_id (h.series s.gpu_id) h.order;
}

unfoldable pub add : List GpuSample → History → History
add [] h = h
add (s ∷ ss) h = add ss (add_sample s h)

pub last_sample : List GpuSample → Option GpuSample
last_sample [] = none
last_sample (s ∷ []) = some s
last_sample (s ∷ t ∷ ss) = last_sample (t ∷ ss)

pub latest_of : (ℤ → Option (List GpuSample)) → List ℤ → List GpuSample
latest_of series [] = []
latest_of series (id ∷ ids) =
    let rest = latest_of series ids in
    elim (last_sample (ring_of (series id))) [ none ↦ rest | some s ↦ s ∷ rest ]

unfoldable pub latest : History → List GpuSample
unfolding latest_of last_sample
latest h = latest_of h.series h.order
