-- ===== src/Gpu/History/Order.antt =====
-- The loop of `Add` (internal/gpu/history.go) that keeps the cards in order.
use viiwork_freetoken.Prelude.{
  ◌≡◌, ◌≢◌, ◌↔◌, ◌⊎◌, refl, ap, inl, inr, Bool, true, false, List, [], ◌∷◌, ℤ, ◌<ℤ◌, ltb_ℤ,
  eq_of_parts, All, All-get, Memᴰ, Bool-cases, if◌then◌else◌, arith,
}
use viiwork_freetoken.Gpu.History.{sink}

abbrev pub Ascending : List ℤ → Type 0
Ascending [] = Unit {0}
Ascending (x ∷ xs) = All (λ y. x <ℤ y) xs × Ascending xs

-- What the loop has made of an ascending list.
abbrev pub Sunk : ℤ → List ℤ → Bool × List ℤ → Type 0
Sunk id xs (true, ys) = (ys ≡ xs) × All (λ y. id <ℤ y) xs
Sunk id xs (false, ys) =
    ((y : ℤ) × Memᴰ y xs × (y <ℤ id))
    × Ascending ys
    × ((x : ℤ) → x <ℤ id → All (λ y. x <ℤ y) xs → All (λ y. x <ℤ y) ys)
    × ((j : ℤ) → Memᴰ j ys ↔ ((j ≡ id) ⊎ Memᴰ j xs))

not_below : (id x : ℤ) → x ≢ id → ltb_ℤ id x ≡ false → x <ℤ id
not_below id x n h = ground (arith, eq_of_parts x id)

mem-cons_swap : (j x id : ℤ) (xs : List ℤ) → Memᴰ j (x ∷ id ∷ xs) ↔ ((j ≡ id) ⊎ Memᴰ j (x ∷ xs))
mem-cons_swap j x id xs = (to, from)
  where
    to : Memᴰ j (x ∷ id ∷ xs) → (j ≡ id) ⊎ Memᴰ j (x ∷ xs)
    to (Memᴰ.head e) = inr (Memᴰ.head e)
    to (Memᴰ.tail (Memᴰ.head e)) = inl e
    to (Memᴰ.tail (Memᴰ.tail m)) = inr (Memᴰ.tail m)

    from : (j ≡ id) ⊎ Memᴰ j (x ∷ xs) → Memᴰ j (x ∷ id ∷ xs)
    from (inl e) = Memᴰ.tail (Memᴰ.head e)
    from (inr (Memᴰ.head e)) = Memᴰ.head e
    from (inr (Memᴰ.tail m)) = Memᴰ.tail (Memᴰ.tail m)

mem-cons_under :
    (j x id : ℤ) (xs ys : List ℤ)
    → (Memᴰ j ys ↔ ((j ≡ id) ⊎ Memᴰ j xs))
    → Memᴰ j (x ∷ ys) ↔ ((j ≡ id) ⊎ Memᴰ j (x ∷ xs))
mem-cons_under j x id xs ys (there, back) = (to, from)
  where
    to : Memᴰ j (x ∷ ys) → (j ≡ id) ⊎ Memᴰ j (x ∷ xs)
    to (Memᴰ.head e) = inr (Memᴰ.head e)
    to (Memᴰ.tail m) = elim (there m) [ inl e ↦ inl e | inr k ↦ inr (Memᴰ.tail k) ]

    from : (j ≡ id) ⊎ Memᴰ j (x ∷ xs) → Memᴰ j (x ∷ ys)
    from (inl e) = Memᴰ.tail (back (inl e))
    from (inr (Memᴰ.head e)) = Memᴰ.head e
    from (inr (Memᴰ.tail m)) = Memᴰ.tail (back (inr m))

pub sink-Sunk :
    (id : ℤ) (xs : List ℤ) → Ascending xs → All (λ x. x ≢ id) xs → Sunk id xs (sink id xs)
unfolding sink
sink-Sunk id [] a n = (refl, tt)
sink-Sunk id (x ∷ xs) a n = step (sink id xs) (sink-Sunk id xs a.1 n.1)
  where
    step :
        (r : Bool × List ℤ)
        → Sunk id xs r
        → Sunk id (x ∷ xs) (
            if r.0
            then (if ltb_ℤ id x then (true, x ∷ r.1) else (false, x ∷ id ∷ r.1))
            else (false, x ∷ r.1))
    step (true, ys) (same, above) = elim (Bool-cases (ltb_ℤ id x)) [
      | inl e ↦ rw e (ap (x ∷◌) same, (ground arith, above))
      | inr e ↦
          let low = not_below id x n.0 e in
          rw (e, same)
            (
              (x, Memᴰ.head refl, low),
              ((low, a.0), (above, a.1)),
              λ z l k. (k.0, (l, k.1)),
              λ j. mem-cons_swap j x id xs,
            )
    ]
    step (false, ys) ((y, at, below), asc, over, mem) =
        let near : x <ℤ y = All-get _ xs at a.0 in
        let low : x <ℤ id = omega arith in
        (
          (x, Memᴰ.head refl, low),
          (over x low a.0, asc),
          λ z l k. (k.0, over z l k.1),
          λ j. mem-cons_under j x id xs ys (mem j),
        )
