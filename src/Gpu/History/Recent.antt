-- ===== src/Gpu/History/Recent.antt =====
-- The history of internal/gpu/history.go against what it stands for: for each card, the most recent of
-- the samples that it was given.
use viiwork_freetoken.Prelude.{
  ◌≡◌, ◌≢◌, refl, sym, ap, ◌∙◌, subst, Bool, true, false, List, [], ◌∷◌, ◌++◌, Option, none, some,
  ℤ, eqb_ℤ, eqb_ℤ_iff, ltb, length, last_n, last_n-all, last_n-append, keep, append-nil,
  append_assoc, Bool-cases, inl, inr, if◌then◌else◌, arith,
}
use viiwork_freetoken.Gpu.History.{
  GpuSample, History, new_history, ring_of, push_sample, add_sample, add, history_slots,
}

-- The samples of one card, in order.
abbrev pub of_card : ℤ → List GpuSample → List GpuSample
of_card id ss = keep (λ s. eqb_ℤ s.gpu_id id) ss

push_sample-last :
    (s : GpuSample) (old : List GpuSample)
    → push_sample s old ≡ last_n history_slots (old ++ s ∷ [])
unfolding push_sample
push_sample-last s old = elim (Bool-cases (ltb history_slots (length (old ++ s ∷ [])))) [
  | inl e ↦ rw e
  | inr e ↦ rw e (sym (last_n-all history_slots (old ++ s ∷ []) (ground arith)))
]

-- A card has a series exactly if there was a sample of it, and it is the recent end of its samples.
abbrev Stands : List GpuSample → Option (List GpuSample) → Type 0
Stands [] o = o ≡ none
Stands (s ∷ ss) o = o ≡ some (last_n history_slots (s ∷ ss))

Stands-ring :
    (ss : List GpuSample) (o : Option (List GpuSample))
    → Stands ss o
    → ring_of o ≡ last_n history_slots ss
Stands-ring [] o h = ap ring_of h
Stands-ring (s ∷ ss) o h = ap ring_of h

Stands-snoc :
    (ss : List GpuSample) (s : GpuSample) (o : Option (List GpuSample))
    → o ≡ some (last_n history_slots (ss ++ s ∷ []))
    → Stands (ss ++ s ∷ []) o
Stands-snoc [] s o h = h
Stands-snoc (t ∷ ss) s o h = h

keep-append :
    (p : GpuSample → Bool) (xs ys : List GpuSample) → keep p (xs ++ ys) ≡ keep p xs ++ keep p ys
keep-append p [] ys = refl
keep-append p (x ∷ xs) ys = elim (Bool-cases (p x)) [
  | inl e ↦ rw (e, keep-append p xs ys)
  | inr e ↦ rw (e, keep-append p xs ys)
]

-- Every card's series stands for the samples given so far.
abbrev pub Agrees : List GpuSample → History → Type 0
Agrees ss h = (id : ℤ) → Stands (of_card id ss) (h.series id)

of_card-same :
    (id : ℤ) (ss : List GpuSample) (s : GpuSample)
    → eqb_ℤ s.gpu_id id ≡ true
    → of_card id (ss ++ s ∷ []) ≡ of_card id ss ++ s ∷ []
of_card-same id ss s e =
    keep-append (λ t. eqb_ℤ t.gpu_id id) ss (s ∷ [])
    ∙ ap (λ b. of_card id ss ++ (if b then s ∷ [] else [])) e

of_card-other :
    (id : ℤ) (ss : List GpuSample) (s : GpuSample)
    → eqb_ℤ s.gpu_id id ≡ false
    → of_card id (ss ++ s ∷ []) ≡ of_card id ss
of_card-other id ss s e =
    keep-append (λ t. eqb_ℤ t.gpu_id id) ss (s ∷ [])
    ∙ ap (λ b. of_card id ss ++ (if b then s ∷ [] else [])) e
    ∙ append-nil (of_card id ss)

pushed :
    (ss : List GpuSample) (s : GpuSample) (o : Option (List GpuSample))
    → Stands ss o
    → push_sample s (ring_of o) ≡ last_n history_slots (ss ++ s ∷ [])
pushed ss s o h =
    push_sample-last s (ring_of o)
    ∙ ap (λ ring. last_n history_slots (ring ++ s ∷ [])) (Stands-ring ss o h)
    ∙ last_n-append history_slots ss (s ∷ [])

add_sample-Agrees :
    (ss : List GpuSample) (s : GpuSample) (h : History)
    → Agrees ss h
    → Agrees (ss ++ s ∷ []) (add_sample s h)
unfolding add_sample
add_sample-Agrees ss s h a id = elim (Bool-cases (eqb_ℤ id s.gpu_id)) [
  | inl e ↦
      let card : s.gpu_id ≡ id = sym ((eqb_ℤ_iff id s.gpu_id).0 e) in
      let mine : eqb_ℤ s.gpu_id id ≡ true = (eqb_ℤ_iff s.gpu_id id).1 card in
      let held : Stands (of_card id ss) (h.series s.gpu_id) =
        subst (λ i. Stands (of_card id ss) (h.series i)) (sym card) (a id) in
      rw e (
        subst (λ cs. Stands cs (some (push_sample s (ring_of (h.series s.gpu_id)))))
          (sym (of_card-same id ss s mine))
          (Stands-snoc (of_card id ss) s _
            (ap some (pushed (of_card id ss) s (h.series s.gpu_id) held))))
  | inr e ↦
      let others : eqb_ℤ s.gpu_id id ≡ false = ground arith in
      rw e (subst (λ cs. Stands cs (h.series id)) (sym (of_card-other id ss s others)) (a id))
]

add-Agrees : (ss ts : List GpuSample) (h : History) → Agrees ss h → Agrees (ss ++ ts) (add ts h)
unfolding add
add-Agrees ss [] h a = subst (λ us. Agrees us h) (sym (append-nil ss)) a
add-Agrees ss (t ∷ ts) h a =
    subst (λ us. Agrees us (add ts (add_sample t h))) (append_assoc ss (t ∷ []) ts)
      (add-Agrees (ss ++ t ∷ []) ts (add_sample t h) (add_sample-Agrees ss t h a))

-- The history refines the record of all samples: whatever the order and the mixture of the cards, the
-- window of a card is the last 720 of the samples that were given of it, and a card of which there
-- was none has no window.
pub add-Stands :
    (ss : List GpuSample) (id : ℤ)
    → (of_card id ss ≡ [] → (add ss new_history).series id ≡ none)
      × (of_card id ss ≢ []
          → (add ss new_history).series id ≡ some (last_n history_slots (of_card id ss)))
unfolding new_history
add-Stands ss id = read (of_card id ss) (add-Agrees [] ss new_history (λ i. refl) id)
  where
    read :
        (cs : List GpuSample)
        → Stands cs ((add ss new_history).series id)
        → (cs ≡ [] → (add ss new_history).series id ≡ none)
          × (cs ≢ [] → (add ss new_history).series id ≡ some (last_n history_slots cs))
    read [] st = ((λ e. st), (λ n. absurd (n refl)))
    read (c ∷ cs) st = ((λ e. absurd (ground arith)), (λ n. st))
