-- ===== src/Peer/Route/Rotation.antt =====
-- How `PickRoute` (internal/peer/route.go) spreads the requests over tied local backends.
use viiwork_freetoken.Prelude.{
  ℕ, zero, suc, ◌+◌, ◌-◌, ◌%◌, ◌^◌, ◌≤◌, ◌<◌, ◌≡◌, refl, sym, ap, subst, ◌∙◌, ◌⊎◌, inl, inr, List,
  [], ◌∷◌, ℤ, pos, All-get, length, get_elem?, arith, ltb, ltb→lt, ltb→le, Bool-cases,
  if◌then◌else◌, eq_of_parts,
}
use native.Mathlib.Nat.{mod-lt, mod-add-mod, add-mod_right, mod-eq_of_lt}
use viiwork_freetoken.Peer.Route.{
  Route, Choice, Counters, rotate, picked_or_panics, u64, scan, choose, settle, pick_route,
}
use viiwork_freetoken.Peer.Route.Scan.{
  available, tied_locals, tie_lem, scan_available, IsMinOf, scan-IsScan,
}

-- The counters after some calls over the same routes.
pub after_picks : ℕ → List Route → ℤ → Counters → Counters
after_picks zero rs max c = c
after_picks (suc j) rs max c = after_picks j rs max (pick_route rs max c).1

IsMinOf-unique : (rs : List Route) (m n : ℤ) → IsMinOf rs m → IsMinOf rs n → m ≡ n
IsMinOf-unique rs m n ((r, mr, er), lr) ((t, mt, et), lt) =
    let p = All-get _ rs mr lt in let q = All-get _ rs mt lr in eq_of_parts m n (ground arith)

settle_rotates :
    (m : ℤ) (st : List Route × ℤ) (l k : Route) (ls : List Route) (c : Counters)
    → (st.0 ≡ []) ⊎ IsMinOf st.0 st.1
    → IsMinOf st.0 m
    → tied_locals m st.0 ≡ l ∷ k ∷ ls
    → settle st c ≡ (rotate (l ∷ k ∷ ls) c.local_rr, record c { local_rr = u64 (c.local_rr + 1) })
unfolding settle choose
settle_rotates m ([], n) l k ls c h low e = absurd (ground arith)
settle_rotates m (x ∷ xs, n) l k ls c (inl h) low e = absurd (ground arith)
settle_rotates m (x ∷ xs, n) l k ls c (inr h) low e =
    let same = IsMinOf-unique (x ∷ xs) n m h low in rw (same, tie_lem m [] [] (x ∷ xs), e)

pick_route_rotates :
    (rs : List Route) (max m : ℤ) (l k : Route) (ls : List Route) (c : Counters)
    → IsMinOf (available max rs) m
    → tied_locals m (available max rs) ≡ l ∷ k ∷ ls
    → pick_route rs max c
      ≡ (rotate (l ∷ k ∷ ls) c.local_rr, record c { local_rr = u64 (c.local_rr + 1) })
unfolding pick_route
pick_route_rotates [] max m l k ls c low e = absurd (ground arith)
pick_route_rotates (r ∷ rs) max m l k ls c low e =
    let same = scan_available max [] (pos 0) (r ∷ rs) in
    settle_rotates m (scan max ([], pos 0) (r ∷ rs)) l k ls c
      (scan-IsScan max ([], pos 0) (r ∷ rs) (inl refl)) (subst (λ av. IsMinOf av m) (sym same) low)
      (ap (tied_locals m) same ∙ e)

after_picks-local_rr :
    (j : ℕ) (rs : List Route) (max m : ℤ) (l k : Route) (ls : List Route) (c : Counters)
    → IsMinOf (available max rs) m
    → tied_locals m (available max rs) ≡ l ∷ k ∷ ls
    → c.local_rr + j < 2 ^ 64
    → (after_picks j rs max c).local_rr ≡ c.local_rr + j
unfolding after_picks
after_picks-local_rr zero rs max m l k ls c low e h = omega arith
after_picks-local_rr (suc j) rs max m l k ls c low e h =
    rw (pick_route_rotates rs max m l k ls c low e, after_picks)
      (after_picks-local_rr j rs max m l k ls (record c { local_rr = u64 (c.local_rr + 1) }) low e
          (omega arith)
        ∙ omega arith)

-- Some offset below `n` brings the counter to the place `i`.
offset : ℕ → ℕ → ℕ → ℕ
offset c n i = if ltb i (c % n) then i + n - c % n else i - c % n

offset_lem : (c n i : ℕ) → i < n → (offset c n i < n) × ((c + offset c n i) % n ≡ i)
unfolding offset
offset_lem c n i h = elim (Bool-cases (ltb i (c % n))) [
  | inl p ↦
      let lt = ltb→lt i (c % n) p in
      let below = mod-lt c {m = n} (omega arith) in
      rw p (
        omega arith,
        turned (i + n - c % n) (i + n) (omega arith) (add-mod_right i n ∙ mod-eq_of_lt h),
      )
  | inr p ↦
      let le = ltb→le i (c % n) p in
      rw p (omega arith, turned (i - c % n) i (omega arith) (mod-eq_of_lt h))
]
  where
    turned : (d s : ℕ) → c % n + d ≡ s → s % n ≡ i → (c + d) % n ≡ i
    turned d s e f = sym (mod-add-mod c n d) ∙ ap (λ x. x % n) e ∙ f

-- Where two or more local backends are tied at the lowest number in flight, and the counter does not
-- wrap within as many calls as are tied, each of the tied ones is returned by one of these calls:
-- the place `i` after `j` calls, `j` below the number of the tied.
pub pick_route_visits :
    (rs : List Route) (max m : ℤ) (l k : Route) (ls : List Route) (c : Counters) (i : ℕ)
    → IsMinOf (available max rs) m
    → tied_locals m (available max rs) ≡ l ∷ k ∷ ls
    → c.local_rr + length (l ∷ k ∷ ls) ≤ 2 ^ 64
    → i < length (l ∷ k ∷ ls)
    → (j : ℕ) × (j < length (l ∷ k ∷ ls))
      × ((pick_route rs max (after_picks j rs max c)).0
          ≡ picked_or_panics (get_elem? (l ∷ k ∷ ls) i))
pick_route_visits rs max m l k ls c i low e room h =
    let n = length (l ∷ k ∷ ls) in
    let j = offset c.local_rr n i in
    let (small, at) = offset_lem c.local_rr n i h in
    let there = after_picks-local_rr j rs max m l k ls c low e (omega arith) in
    (
      j,
      small,
      ap (λ (r : Choice × Counters). r.0) (pick_route_rotates rs max m l k ls _ low e)
          ∙ ap (λ x. picked_or_panics (get_elem? (l ∷ k ∷ ls) (x % n))) there
          ∙ ap (λ x. picked_or_panics (get_elem? (l ∷ k ∷ ls) x)) at,
    )
