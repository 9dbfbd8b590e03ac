-- ===== src/Gpu/History/Kept.antt =====
-- What the history of internal/gpu/history.go keeps.
use viiwork_freetoken.Prelude.{
  ℕ, suc, ◌+◌, ◌-◌, ◌≤◌, ◌≡◌, ◌≢◌, ◌↔◌, ◌⊎◌, refl, sym, ap, ◌∙◌, subst, inl, inr, Bool, true, false,
  List, [], ◌∷◌, ◌++◌, map, Option, none, some, ℤ, eqb_ℤ, eqb_ℤ_iff, ltb, length, length-append,
  last_n, last_n-short, drop, drop-append, mem-append_right, All, All-get, All-of, Memᴰ, Bool-cases,
  if◌then◌else◌, arith,
}
use viiwork_freetoken.Gpu.History.{
  GpuSample, History, new_history, sink, settled, add_order, ring_of, push_sample, add_sample, add,
  last_sample, latest_of, latest, history_slots,
}
use viiwork_freetoken.Gpu.History.Order.{Ascending, Sunk, sink-Sunk}

-- The samples of one card: some, within the bound, and all of that card.
abbrev pub IsRing : ℤ → List GpuSample → Type 0
IsRing id ring =
    ((front : List GpuSample) × (s : GpuSample) × (ring ≡ front ++ s ∷ []))
    × (length ring ≤ history_slots)
    × All (λ s. s.gpu_id ≡ id) ring

pub record IsKept (h : History) : Type 0 where
  pub ascending : Ascending h.order
  pub listed : (id : ℤ) → Memᴰ id h.order → (ring : List GpuSample) × (h.series id ≡ some ring)
  pub known : (id : ℤ) (ring : List GpuSample) → h.series id ≡ some ring → Memᴰ id h.order
  pub ringed : (id : ℤ) (ring : List GpuSample) → h.series id ≡ some ring → IsRing id ring

All-drop : (P : GpuSample → Type 0) (n : ℕ) (xs : List GpuSample) → All P xs → All P (drop n xs)
All-drop P ℕ.zero xs h = h
All-drop P (suc n) [] h = tt
All-drop P (suc n) (x ∷ xs) h = All-drop P n xs h.1

All-append_last :
    (P : GpuSample → Type 0) (xs : List GpuSample) (s : GpuSample)
    → All P xs
    → P s
    → All P (xs ++ s ∷ [])
All-append_last P [] s h p = (p, tt)
All-append_last P (x ∷ xs) s h p = (h.0, All-append_last P xs s h.1 p)

push_sample-IsRing :
    (s : GpuSample) (old : List GpuSample)
    → length old ≤ history_slots
    → All (λ t. t.gpu_id ≡ s.gpu_id) old
    → IsRing s.gpu_id (push_sample s old)
      × ((front : List GpuSample) × (push_sample s old ≡ front ++ s ∷ []))
unfolding push_sample
push_sample-IsRing s old short same =
    let size : length (old ++ s ∷ []) ≡ length old + 1 = length-append old (s ∷ []) in
    let all = All-append_last (λ t. t.gpu_id ≡ s.gpu_id) old s same refl in
    elim (Bool-cases (ltb history_slots (length (old ++ s ∷ [])))) [
      | inl e ↦
          let n = length (old ++ s ∷ []) - history_slots in
          let cut : last_n history_slots (old ++ s ∷ []) ≡ drop n old ++ s ∷ [] =
            drop-append n old (s ∷ []) (omega arith) in
          rw e (
            (
              (drop n old, s, cut),
              last_n-short history_slots (old ++ s ∷ []),
              All-drop _ n (old ++ s ∷ []) all,
            ),
            (drop n old, cut),
          )
      | inr e ↦ rw e (((old, s, refl), ground arith, all), (old, refl))
    ]

old_ring :
    (h : History) (id : ℤ) (found : Option (List GpuSample))
    → IsKept h
    → h.series id ≡ found
    → (length (ring_of found) ≤ history_slots) × All (λ s. s.gpu_id ≡ id) (ring_of found)
old_ring h id none k e = (omega arith, tt)
old_ring h id (some ring) k e = let (_, short, same) = k.ringed id ring e in (short, same)

-- What `add_order` makes of the order, for a card that has samples or not.
add_order_lem :
    (h : History) (id : ℤ) (found : Option (List GpuSample))
    → IsKept h
    → h.series id ≡ found
    → Ascending (add_order id found h.order)
      × ((j : ℤ) → Memᴰ j (add_order id found h.order) ↔ ((j ≡ id) ⊎ Memᴰ j h.order))
unfolding add_order settled
add_order_lem h id (some ring) k e = (
  k.ascending,
  λ j. (
    (λ m. inr m),
    (λ c. elim c [ inl s ↦ subst (λ i. Memᴰ i h.order) (sym s) (k.known id ring e) | inr m ↦ m ]),
  ),
)
add_order_lem h id none k e = place (sink id h.order) (sink-Sunk id h.order k.ascending fresh)
  where
    fresh : All (λ x. x ≢ id) h.order
    fresh =
        All-of _ h.order (λ j m s.
          let (ring, f) = k.listed j m in absurd (clash (sym (ap h.series s) ∙ f ∙ refl) e))
      where
        clash : {ring : List GpuSample} → h.series id ≡ some ring → h.series id ≡ none → ⊥
        clash p q = ground arith

    place :
        (r : Bool × List ℤ)
        → Sunk id h.order r
        → Ascending (settled id r) × ((j : ℤ) → Memᴰ j (settled id r) ↔ ((j ≡ id) ⊎ Memᴰ j h.order))
    place (false, ys) (_, asc, _, mem) = (asc, mem)
    place (true, ys) (same, above) = rw same (
      (above, k.ascending),
      λ j. (
        (λ m. elim m [ Memᴰ.head s ↦ inl s | Memᴰ.tail n ↦ inr n ]),
        (λ c. elim c [ inl s ↦ Memᴰ.head s | inr n ↦ Memᴰ.tail n ]),
      ),
    )

add_sample-IsKept : (s : GpuSample) (h : History) → IsKept h → IsKept (add_sample s h)
unfolding add_sample
add_sample-IsKept s h k =
    let found = h.series s.gpu_id in
    let (asc, mem) = add_order_lem h s.gpu_id found k refl in
    let (short, same) = old_ring h s.gpu_id found k refl in
    let ring = (push_sample-IsRing s (ring_of found) short same).0 in
    record {
      ascending = asc;
      listed = λ id m. elim (Bool-cases (eqb_ℤ id s.gpu_id)) [
        | inl e ↦ (push_sample s (ring_of found), rw e refl)
        | inr e ↦ elim ((mem id).0 m) [
          | inl same_card ↦ absurd (ground (arith, eqb_ℤ_iff id s.gpu_id))
          | inr n ↦ let (old, f) = k.listed id n in (old, rw e f)
        ]
      ];
      known = λ id r f. elim (Bool-cases (eqb_ℤ id s.gpu_id)) [
        | inl e ↦ (mem id).1 (inl ((eqb_ℤ_iff id s.gpu_id).0 e))
        | inr e ↦ (mem id).1 (inr (k.known id r (other id r e f)))
      ];
      ringed = λ id r f. elim (Bool-cases (eqb_ℤ id s.gpu_id)) [
        | inl e ↦
            let card : id ≡ s.gpu_id = (eqb_ℤ_iff id s.gpu_id).0 e in
            let now : push_sample s (ring_of found) ≡ r = here id r e f in
            subst (λ i. IsRing i r) (sym card) (subst (IsRing s.gpu_id) now ring)
        | inr e ↦ k.ringed id r (other id r e f)
      ];
    }
  where
    other :
        (id : ℤ) (r : List GpuSample)
        → eqb_ℤ id s.gpu_id ≡ false
        → (if eqb_ℤ id s.gpu_id
            then some (push_sample s (ring_of (h.series s.gpu_id)))
            else h.series id)
          ≡ some r
        → h.series id ≡ some r
    other id r e f = ground arith

    here :
        (id : ℤ) (r : List GpuSample)
        → eqb_ℤ id s.gpu_id ≡ true
        → (if eqb_ℤ id s.gpu_id
            then some (push_sample s (ring_of (h.series s.gpu_id)))
            else h.series id)
          ≡ some r
        → push_sample s (ring_of (h.series s.gpu_id)) ≡ r
    here id r e f = ground arith

last_sample-append :
    (front : List GpuSample) (s : GpuSample) → last_sample (front ++ s ∷ []) ≡ some s
unfolding last_sample
last_sample-append [] s = refl
last_sample-append (t ∷ []) s = refl
last_sample-append (t ∷ u ∷ front) s = last_sample-append (u ∷ front) s

-- The last sample of a card that the order lists.
last_of :
    (h : History) (id : ℤ)
    → IsKept h
    → Memᴰ id h.order
    → (s : GpuSample) × (last_sample (ring_of (h.series id)) ≡ some s) × (s.gpu_id ≡ id)
last_of h id k m =
    let (ring, f) = k.listed id m in
    let ((front, s, e), _, same) = k.ringed id ring f in
    (
      s,
      ap (λ o. last_sample (ring_of o)) f ∙ ap last_sample e ∙ last_sample-append front s,
      All-get (λ t. t.gpu_id ≡ id) ring
          (subst (Memᴰ s) (sym e) (mem-append_right front (s ∷ []) (Memᴰ.head refl))) same,
    )

latest_of_ids :
    (h : History) (ids : List ℤ)
    → IsKept h
    → All (λ id. Memᴰ id h.order) ids
    → map (λ s. GpuSample.gpu_id s) (latest_of h.series ids) ≡ ids
unfolding latest_of
latest_of_ids h [] k all = refl
latest_of_ids h (id ∷ ids) k all =
    let (s, e, card) = last_of h id k all.0 in
    rw (latest_of, e) (ap2 card (latest_of_ids h ids k all.1))
  where
    ap2 : {x y : ℤ} {xs ys : List ℤ} → x ≡ y → xs ≡ ys → x ∷ xs ≡ y ∷ ys
    ap2 p q = cc

new_history-IsKept : IsKept new_history
unfolding new_history
new_history-IsKept = record {
  ascending = tt;
  listed = λ id m. elim m [ ];
  known = λ id ring e. absurd (ground arith);
  ringed = λ id ring e. absurd (ground arith);
}

-- Adding readings to the new history keeps, for each card of which there was one, a window of at most
-- 720 of that card's samples, and the cards in ascending order, each once; `Latest` gives one sample
-- of each card, in that order.
pub add-IsKept :
    (ss : List GpuSample)
    → IsKept (add ss new_history)
      × (map (λ s. GpuSample.gpu_id s) (latest (add ss new_history)) ≡ (add ss new_history).order)
unfolding latest add
add-IsKept ss =
    let k = grown ss new_history new_history-IsKept in
    (k, latest_of_ids _ _ k (All-of _ _ (λ id m. m)))
  where
    grown : (ss : List GpuSample) (h : History) → IsKept h → IsKept (add ss h)
    grown [] h k = k
    grown (s ∷ ss) h k = grown ss (add_sample s h) (add_sample-IsKept s h k)
