-- ===== src/Proxy/HostMemory.antt =====
-- internal/proxy/meshactivity.go: the coarsened host memory on the push stream.
-- An int64 is an integer without a bound.
pub mod Reading
use native.Mathlib.Nat.{mod-lt, mod-add-div'}
use viiwork_freetoken.Prelude.{
  ℕ, zero, suc, ◌+◌, ◌*◌, ◌/◌, ◌≤◌, ◌<◌, ◌≡◌, ◌⊎◌, refl, inl, inr, Bool, true, false, not, ◌&&◌,
  List, [], ◌∷◌, ℤ, pos, negsuc, negated, ◌-ℤ◌, leb_ℤ, eqb_ℤ, eqb_ℤ_iff, ltb, ◌==◌, if◌then◌else◌,
  Bool-cases, arith,
}

abbrev pub host_mem_buckets : ℕ
host_mem_buckets = 64

-- The magnitude of an integer.
abbrev pub abs_int64 : ℤ → ℕ
abs_int64 (pos n) = n
abs_int64 (negsuc n) = suc n

-- `total / hostMemBuckets`, for a total above 0.
abbrev pub step_of : ℤ → ℕ
step_of (pos n) = n / host_mem_buckets
step_of (negsuc n) = 0

-- `(used / step) * step`; Go divides towards 0.
pub bucket : ℕ → ℤ → ℤ
bucket step (pos n) = pos (n / step * step)
bucket step (negsuc n) = negated (suc n / step * step)

unfoldable pub coarsen_host_mem : ℤ → ℤ → ℤ → ℤ
unfolding bucket
coarsen_host_mem prev total used =
    if leb_ℤ total (pos 0)
    then used
    else if step_of total == 0
    then used
    else if not (eqb_ℤ prev (pos 0)) && ltb (abs_int64 (used -ℤ prev)) (step_of total)
    then prev
    else bucket (step_of total) used

-- What `pushSnapshot` publishes for one reading after another.
unfoldable pub published : ℤ → ℤ → List ℤ → List ℤ
published prev total [] = []
published prev total (used ∷ rest) =
    let now = coarsen_host_mem prev total used in now ∷ published now total rest

below_step : (n step : ℕ) → 0 < step → (n / step * step ≤ n) × (n < n / step * step + step)
below_step n step h =
    let rest = mod-lt n h in
    let whole = mod-add-div' n step in (omega (arith, whole), omega (arith, whole, rest))

bucket-near : (step : ℕ) (used : ℤ) → 0 < step → abs_int64 (used -ℤ bucket step used) < step
unfolding bucket ◌-ℤ◌
bucket-near step (pos n) h = let (low, high) = below_step n step h in ground arith
bucket-near step (negsuc n) h = let (low, high) = below_step (suc n) step h in ground arith

total_positive : (total : ℤ) → 0 < step_of total → leb_ℤ total (pos 0) ≡ false
total_positive (pos n) h = ground arith
total_positive (negsuc n) h = absurd (omega arith)

-- The reading is held against a figure that was published before.
abbrev holds : ℤ → ℤ → ℤ → Bool
holds prev total used = not (eqb_ℤ prev (pos 0)) && ltb (abs_int64 (used -ℤ prev)) (step_of total)

coarsen_cases :
    (prev total used : ℤ)
    → 0 < step_of total
    → ((coarsen_host_mem prev total used ≡ prev) × (holds prev total used ≡ true))
      ⊎ ((coarsen_host_mem prev total used ≡ bucket (step_of total) used)
          × (holds prev total used ≡ false))
unfolding coarsen_host_mem
coarsen_cases prev total used h =
    let large = total_positive total h in
    let some_step : (step_of total == 0) ≡ false = ground arith in
    elim (Bool-cases (holds prev total used)) [
      | inl e ↦ inl (rw (coarsen_host_mem, large, some_step, e) refl, e)
      | inr e ↦ inr (rw (coarsen_host_mem, large, some_step, e) refl, e)
    ]

-- The published figure is less than a step, a 64th of the total, from the reading, and it is the
-- reading itself on a host too small for steps; where one was published before that is not 0, it stays
-- as it is unless the reading is a full step away from it.
pub coarsen_host_mem_near :
    (prev total used : ℤ)
    → let c = coarsen_host_mem prev total used in
      (step_of total ≡ 0 → c ≡ used)
      × (0 < step_of total → abs_int64 (used -ℤ c) < step_of total)
      × (0 < step_of total
          → (c ≡ prev) ⊎ ((prev ≡ pos 0) ⊎ (step_of total ≤ abs_int64 (used -ℤ prev))))
unfolding coarsen_host_mem
coarsen_host_mem_near prev total used = (
  λ h. ground arith,
  λ h. elim (coarsen_cases prev total used h) [
    | inl (c, e) ↦ rw c (ground arith)
    | inr (c, e) ↦ rw c (bucket-near (step_of total) used h)
  ],
  λ h. elim (coarsen_cases prev total used h) [
    | inl (c, e) ↦ inl c
    | inr (c, e) ↦ inr (ground (arith, eqb_ℤ_iff prev (pos 0)))
  ],
)
