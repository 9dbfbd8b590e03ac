-- ===== src/Activity/Prompts/Lookup.antt =====
-- What `Get` of internal/activity/prompts.go finds after the stores.
use viiwork_freetoken.Prelude.{
  ℕ, suc, ◌+◌, ◌-◌, ◌≤◌, ◌≡◌, ◌≢◌, refl, ap, ◌∙◌, subst, inl, inr, true, false, List, [], ◌∷◌, ◌++◌,
  Option, none, some, ℤ, pos, ltb, eqb_ℤ, eqb_ℤ_iff, length, length-append, drop, drop-append,
  last_n, last_n-all, last_n-short, Bool-cases, Option-cases, arith,
}
use viiwork_freetoken.Activity.Prompts.{
  Bytes, PromptEntry, PromptStore, truncate, append, is_blank, store, set_output, attach,
  store_output, find_last, get,
}

-- A store with room for at least one entry, and no more entries than it has room for.
abbrev pub IsSized : PromptStore → Type 0
IsSized p = (m : ℕ) × (p.max ≡ pos (suc m)) × (length p.entries ≤ suc m)

append-entries :
    (e : PromptEntry) (p : PromptStore) (m : ℕ)
    → p.max ≡ pos (suc m)
    → (append e p).entries ≡ last_n (suc m) (p.entries ++ e ∷ [])
unfolding append
append-entries e p m h = rw h (elim (Bool-cases (ltb (suc m) (length (p.entries ++ e ∷ [])))) [
  | inl k ↦ ground arith
  | inr k ↦ ground (arith, last_n-all (suc m) (p.entries ++ e ∷ []) (ground arith))
])

append-IsSized : (e : PromptEntry) (p : PromptStore) → IsSized p → IsSized (append e p)
unfolding append
append-IsSized e p (m, size, short) =
    (m, size, rw (append-entries e p m size) (last_n-short (suc m) (p.entries ++ e ∷ [])))

-- The entry at the end is found first.
find_last-append :
    (rid : ℤ) (es : List PromptEntry) (e : PromptEntry)
    → e.request_id ≡ rid
    → find_last rid (es ++ e ∷ []) ≡ some e
unfolding find_last
find_last-append rid [] e h = ground (arith, eqb_ℤ_iff e.request_id rid)
find_last-append rid (d ∷ es) e h = rw (find_last, find_last-append rid es e h) refl

append-found :
    (rid : ℤ) (e : PromptEntry) (p : PromptStore)
    → IsSized p
    → e.request_id ≡ rid
    → get rid (append e p) ≡ some e
unfolding get
append-found rid e p (m, size, short) h =
    let one : length (p.entries ++ e ∷ []) ≡ length p.entries + 1 =
      length-append p.entries (e ∷ []) in
    ap (find_last rid) (
      append-entries e p m size
      ∙ drop-append (length (p.entries ++ e ∷ []) - suc m) p.entries (e ∷ []) (omega arith))
    ∙ find_last-append rid (drop (length (p.entries ++ e ∷ []) - suc m) p.entries) e h

abbrev pub answered : Bytes → ℤ → PromptEntry → PromptEntry
answered output elapsed e = record e { output = output; elapsed_ms = elapsed }

set_output-none :
    (rid : ℤ) (output : Bytes) (elapsed : ℤ) (es : List PromptEntry)
    → find_last rid es ≡ none
    → set_output rid output elapsed es ≡ none
unfolding set_output find_last
set_output-none rid output elapsed [] n = refl
set_output-none rid output elapsed (d ∷ es) n = elim (Option-cases (find_last rid es)) [
  | inl k ↦ ground (arith, set_output-none rid output elapsed es k)
  | inr (c, k) ↦ absurd (ground arith)
]

-- The loop of `StoreOutput` sets the entry that `Get` finds, and no other.
set_output_found :
    (rid : ℤ) (output : Bytes) (elapsed : ℤ) (es : List PromptEntry) (e : PromptEntry)
    → find_last rid es ≡ some e
    → (ds : List PromptEntry) × (set_output rid output elapsed es ≡ some ds)
      × (length ds ≡ length es)
      × (find_last rid ds ≡ some (answered output elapsed e))
      × ((j : ℤ) → j ≢ rid → find_last j ds ≡ find_last j es)
unfolding set_output find_last
set_output_found rid output elapsed [] e h = absurd (ground arith)
set_output_found rid output elapsed (d ∷ es) e h = elim (Option-cases (find_last rid es)) [
  | inl n ↦
      let hit : eqb_ℤ d.request_id rid ≡ true = ground arith in
      let same : d ≡ e = ground arith in
      (
        answered output elapsed d ∷ es,
        rw (set_output, set_output-none rid output elapsed es n, hit) refl,
        refl,
        rw (find_last, n, hit) (ap (λ x. some (answered output elapsed x)) same),
        λ j k. ground (arith, eqb_ℤ_iff d.request_id rid, eqb_ℤ_iff d.request_id j),
      )
  | inr (c, f) ↦
      let same : c ≡ e = ground arith in
      let (ds, set, size, found, others) =
        set_output_found rid output elapsed es e (f ∙ ap some same) in
      (
        d ∷ ds,
        rw (set_output, set) refl,
        ap suc size,
        rw (find_last, found) refl,
        λ j k. rw (find_last, others j k) refl,
      )
]

-- What `Get` gives for the request afterwards.
abbrev pub Held : ℤ → Bytes → ℤ → Option PromptEntry → Option PromptEntry → Type 0
Held rid output elapsed before none = ⊥
Held rid output elapsed none (some e) =
    (e.request_id ≡ rid) × (e.prompt ≡ []) × (e.output ≡ truncate output) × (e.elapsed_ms ≡ elapsed)
Held rid output elapsed (some d) (some e) = e ≡ answered (truncate output) elapsed d

Held-some :
    (rid : ℤ) (output : Bytes) (elapsed : ℤ) (d : PromptEntry) (o : Option PromptEntry)
    → Held rid output elapsed (some d) o
    → o ≡ some (answered (truncate output) elapsed d)
Held-some rid output elapsed d none h = elim h [ ]
Held-some rid output elapsed d (some e) h = ap some h

not_blank : (s : Bytes) → s ≢ [] → is_blank s ≡ false
not_blank [] h = absurd (h refl)
not_blank (b ∷ s) h = refl

find_last-Held :
    (rid : ℤ) (output : Bytes) (elapsed : ℤ) (found : Option PromptEntry) (e : PromptEntry)
    → Held rid output elapsed found (some e)
    → (o : Option PromptEntry) → o ≡ some e
    → Held rid output elapsed found o
find_last-Held rid output elapsed found e h o k = rw k h

-- A non-empty output that is stored for a request is found with it, cut to the size of the store's
-- texts: in the request's latest entry, the rest of which stays, or in a new one where there is none.
-- What the store has for other requests stays where the request had an entry. The store keeps its
-- size in every case.
pub store_output-get :
    (rid t : ℤ) (model output : Bytes) (elapsed : ℤ) (p : PromptStore)
    → IsSized p
    → output ≢ []
    → let q = store_output rid t model output elapsed p in
      IsSized q
      × Held rid output elapsed (get rid p) (get rid q)
      × (get rid p ≢ none → (j : ℤ) → j ≢ rid → get j q ≡ get j p)
unfolding store_output attach get
store_output-get rid t model output elapsed p sized full =
    let blank : is_blank output ≡ false = not_blank output full in
    elim (Option-cases (find_last rid p.entries)) [
      | inl n ↦
          let e : PromptEntry = record {
            request_id = rid;
            time = t;
            model = model;
            prompt = [];
            output = truncate output;
            elapsed_ms = elapsed;
          } in
          rw (blank, set_output-none rid (truncate output) elapsed p.entries n, n)
            (
              append-IsSized e p sized,
              find_last-Held rid output elapsed none e (refl, refl, refl, refl) _
                  (append-found rid e p sized refl),
              λ k. absurd (k refl),
            )
      | inr (d, f) ↦
          let (ds, set, size, found, others) =
            set_output_found rid (truncate output) elapsed p.entries d f in
          rw (blank, set, f)
            (
              (sized.0, sized.1, omega (arith, size, sized.2)),
              find_last-Held rid output elapsed (some d) _ refl _ found,
              λ k j apart. others j apart,
            )
    ]

-- After a non-empty prompt and then a non-empty output are stored for a request, `Get` finds one entry
-- with both, each cut to the size of the store's texts, and with the model and time of the prompt.
pub store-store_output :
    (rid t later elapsed : ℤ) (model other prompt output : Bytes) (p : PromptStore)
    → IsSized p
    → prompt ≢ []
    → output ≢ []
    → get rid (store_output rid later other output elapsed (store rid t model prompt p))
      ≡ some (record {
        request_id = rid;
        time = t;
        model = model;
        prompt = truncate prompt;
        output = truncate output;
        elapsed_ms = elapsed;
      })
unfolding store
store-store_output rid t later elapsed model other prompt output p sized full wide =
    let e : PromptEntry = record {
      request_id = rid;
      time = t;
      model = model;
      prompt = truncate prompt;
      output = [];
      elapsed_ms = pos 0;
    } in
    let stored : store rid t model prompt p ≡ append e p = rw (not_blank prompt full) in
    let sized' = append-IsSized e p sized in
    let (_, held, _) = store_output-get rid later other output elapsed (append e p) sized' wide in
    rw stored (
      Held-some rid output elapsed e _ (
        subst
          (λ o.
            Held rid output elapsed o
              (get rid (store_output rid later other output elapsed (append e p))))
          (append-found rid e p sized refl) held))
