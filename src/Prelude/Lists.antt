-- ===== src/Prelude/Lists.antt =====
-- Lists measured and indexed by native numbers, under the library's names, and filtered by tests.
use Prim.Native.Nat.{ℕ, zero, suc, ◌+◌, ◌-◌, ◌≤◌}
use mathlib.Core.Path.{◌≡◌, refl, sym, ap, ◌∙◌, subst}
use mathlib.Core.Bool.{Bool, true, false}
use mathlib.Core.Logic.{◌⊎◌, inl, inr}
use mathlib.Core.List.{List, [], ◌∷◌, ◌++◌, Memᴰ}
use mathlib.Core.Option.{Option, none, some}
use native.Mathlib.Omega.{arith}
use viiwork_freetoken.Prelude.Tests.{if◌then◌else◌, Bool-cases}

module _ {ℓ} {A : Type ℓ} where
  abbrev pub length : List A → ℕ
  length [] = 0
  length (x ∷ xs) = suc (length xs)

  abbrev pub get_elem? : List A → ℕ → Option A
  get_elem? [] i = none
  get_elem? (x ∷ xs) zero = some x
  get_elem? (x ∷ xs) (suc i) = get_elem? xs i

  abbrev pub drop : ℕ → List A → List A
  drop zero xs = xs
  drop (suc n) [] = []
  drop (suc n) (x ∷ xs) = drop n xs

  pub length-append : (xs ys : List A) → length (xs ++ ys) ≡ length xs + length ys
  length-append [] ys = omega arith
  length-append (x ∷ xs) ys = omega (arith, length-append xs ys)

  pub length-drop : (n : ℕ) (xs : List A) → length (drop n xs) ≡ length xs - n
  length-drop zero xs = omega arith
  length-drop (suc n) [] = omega arith
  length-drop (suc n) (x ∷ xs) = omega (arith, length-drop n xs)

  abbrev pub take : ℕ → List A → List A
  take zero xs = []
  take (suc n) [] = []
  take (suc n) (x ∷ xs) = x ∷ take n xs

  -- The last `n` items, or all where there are fewer.
  abbrev pub last_n : ℕ → List A → List A
  last_n n xs = drop (length xs - n) xs

  pub drop-append : (n : ℕ) (xs ys : List A) → n ≤ length xs → drop n (xs ++ ys) ≡ drop n xs ++ ys
  drop-append zero xs ys h = refl
  drop-append (suc n) [] ys h = absurd (omega arith)
  drop-append (suc n) (x ∷ xs) ys h = drop-append n xs ys (omega arith)

  drop-nil : (n : ℕ) → drop n [] ≡ []
  drop-nil zero = refl
  drop-nil (suc n) = refl

  pub drop-drop : (n m : ℕ) (xs : List A) → drop n (drop m xs) ≡ drop (m + n) xs
  drop-drop n zero xs = ap (λ k. drop k xs) (omega arith)
  drop-drop n (suc m) [] = drop-nil n ∙ sym (drop-nil (suc m + n))
  drop-drop n (suc m) (x ∷ xs) =
      let e : suc m + n ≡ suc (m + n) = omega arith in rw e (drop-drop n m xs)

  pub take-nil : (n : ℕ) → take n [] ≡ []
  take-nil zero = refl
  take-nil (suc n) = refl

  pub last_n-short : (n : ℕ) (xs : List A) → length (last_n n xs) ≤ n
  last_n-short n xs = omega (arith, length-drop (length xs - n) xs)

  pub last_n-all : (n : ℕ) (xs : List A) → length xs ≤ n → last_n n xs ≡ xs
  last_n-all n xs h = let e : length xs - n ≡ 0 = omega arith in rw e

  -- Dropping early makes no difference to what is last in the end.
  pub last_n-append : (n : ℕ) (xs ys : List A) → last_n n (last_n n xs ++ ys) ≡ last_n n (xs ++ ys)
  last_n-append n xs ys =
      let k = length xs - n in
      let count : length (last_n n xs ++ ys) ≡ (length xs - k) + length ys =
        omega (arith, length-append (last_n n xs) ys, length-drop k xs) in
      ap (λ c. drop (c - n) (last_n n xs ++ ys)) count
      ∙ ap (drop ((length xs - k) + length ys - n)) (sym (drop-append k xs ys (omega arith)))
      ∙ drop-drop ((length xs - k) + length ys - n) k (xs ++ ys)
      ∙ ap (λ c. drop c (xs ++ ys)) (omega (arith, length-append xs ys))

  -- A predicate on every item.
  abbrev pub All {κ} : (A → Type κ) → List A → Type κ
  All P [] = Unit
  All P (x ∷ xs) = P x × All P xs

  pub All-get {κ} : (P : A → Type κ) {a : A} (xs : List A) → Memᴰ a xs → All P xs → P a
  All-get P [] m h = elim m [ ]
  All-get P (x ∷ xs) (Memᴰ.head e) h = subst P (sym e) h.0
  All-get P (x ∷ xs) (Memᴰ.tail m) h = All-get P xs m h.1

  pub All-of {κ} : (P : A → Type κ) (xs : List A) → ((a : A) → Memᴰ a xs → P a) → All P xs
  All-of P [] h = tt
  All-of P (x ∷ xs) h = (h x (Memᴰ.head refl), All-of P xs (λ a m. h a (Memᴰ.tail m)))

  -- The items that pass a test, in order.
  abbrev pub keep : (A → Bool) → List A → List A
  keep p [] = []
  keep p (x ∷ xs) = if p x then x ∷ keep p xs else keep p xs

  pub any : (A → Bool) → List A → Bool
  any p [] = false
  any p (x ∷ xs) = if p x then true else any p xs

  pub any-mem : (p : A → Bool) {a : A} (xs : List A) → Memᴰ a xs → p a ≡ true → any p xs ≡ true
  unfolding any
  any-mem p [] m h = elim m [ ]
  any-mem p (x ∷ xs) (Memᴰ.head e) h = let k : p x ≡ true = subst (λ y. p y ≡ true) e h in rw k
  any-mem p (x ∷ xs) (Memᴰ.tail m) h = ground (arith, any-mem p xs m h)

  pub get_elem?-mem : (xs : List A) (i : ℕ) {a : A} → get_elem? xs i ≡ some a → Memᴰ a xs
  get_elem?-mem [] i h = absurd (ground arith)
  get_elem?-mem (x ∷ xs) zero h = Memᴰ.head (ground arith)
  get_elem?-mem (x ∷ xs) (suc i) h = Memᴰ.tail (get_elem?-mem xs i h)

  pub keep-mem :
      (p : A → Bool) {a : A} (xs : List A) → Memᴰ a (keep p xs) → Memᴰ a xs × (p a ≡ true)
  keep-mem p [] m = elim m [ ]
  keep-mem p {a = a} (x ∷ xs) m = go (keep-mem p xs) (p x) refl m
    where
      go :
          (Memᴰ a (keep p xs) → Memᴰ a xs × (p a ≡ true))
          → (b : Bool) → p x ≡ b
          → Memᴰ a (if b then x ∷ keep p xs else keep p xs)
          → Memᴰ a (x ∷ xs) × (p a ≡ true)
      go rest true e (Memᴰ.head h) = (Memᴰ.head h, subst (λ y. p y ≡ true) (sym h) e)
      go rest true e (Memᴰ.tail n) = let r = rest n in (Memᴰ.tail r.0, r.1)
      go rest false e n = let r = rest n in (Memᴰ.tail r.0, r.1)

  pub mem-keep : (p : A → Bool) {a : A} (xs : List A) → Memᴰ a xs → p a ≡ true → Memᴰ a (keep p xs)
  mem-keep p [] m h = elim m [ ]
  mem-keep p (x ∷ xs) (Memᴰ.head e) h =
      let k : p x ≡ true = subst (λ y. p y ≡ true) e h in rw k (Memᴰ.head e)
  mem-keep p (x ∷ xs) (Memᴰ.tail m) h = elim (Bool-cases (p x)) [
    | inl e ↦ rw e (Memᴰ.tail (mem-keep p xs m h))
    | inr e ↦ rw e (mem-keep p xs m h)
  ]

  -- What holds of every item kept holds of every item that passes the test.
  pub keep-All {κ} :
      (P : A → Type κ) (p : A → Bool) (xs : List A)
      → All P (keep p xs)
      → All (λ a. p a ≡ true → P a) xs
  keep-All P p [] h = tt
  keep-All P p (x ∷ xs) h = go (keep-All P p xs) (p x) refl h
    where
      go :
          (All P (keep p xs) → All (λ a. p a ≡ true → P a) xs)
          → (b : Bool) → p x ≡ b
          → All P (if b then x ∷ keep p xs else keep p xs)
          → All (λ a. p a ≡ true → P a) (x ∷ xs)
      go rest true e k = ((λ _. k.0), rest k.1)
      go rest false e k = ((λ t. absurd (ground arith)), rest k)

  pub keep-nil : (p : A → Bool) (xs : List A) → keep p xs ≡ [] → All (λ a. p a ≡ false) xs
  keep-nil p [] h = tt
  keep-nil p (x ∷ xs) h = elim (Bool-cases (p x)) [
    | inl e ↦ absurd (ground arith)
    | inr e ↦ (e, keep-nil p xs (ground arith))
  ]

  pub All-map {κ ι} :
      (P : A → Type κ) (Q : A → Type ι) (xs : List A) → ((a : A) → P a → Q a) → All P xs → All Q xs
  All-map P Q [] f h = tt
  All-map P Q (x ∷ xs) f h = (f x h.0, All-map P Q xs f h.1)

  -- An item that a test puts in front of the rest.
  pub mem-if_cons :
      (c : Bool) (x : A) (rest : List A) {a : A}
      → Memᴰ a (if c then x ∷ rest else rest)
      → ((c ≡ true) × (a ≡ x)) ⊎ Memᴰ a rest
  mem-if_cons true x rest (Memᴰ.head e) = inl (refl, e)
  mem-if_cons true x rest (Memᴰ.tail m) = inr m
  mem-if_cons false x rest m = inr m

  pub if_cons-head :
      (c : Bool) (x : A) (rest : List A) {a : A}
      → c ≡ true
      → a ≡ x
      → Memᴰ a (if c then x ∷ rest else rest)
  if_cons-head true x rest h e = Memᴰ.head e
  if_cons-head false x rest h e = absurd (ground arith)

  pub if_cons-tail :
      (c : Bool) (x : A) (rest : List A) {a : A}
      → Memᴰ a rest
      → Memᴰ a (if c then x ∷ rest else rest)
  if_cons-tail true x rest m = Memᴰ.tail m
  if_cons-tail false x rest m = m

  pub mem-append_left : {a : A} (xs ys : List A) → Memᴰ a xs → Memᴰ a (xs ++ ys)
  mem-append_left [] ys m = elim m [ ]
  mem-append_left (x ∷ xs) ys (Memᴰ.head e) = Memᴰ.head e
  mem-append_left (x ∷ xs) ys (Memᴰ.tail m) = Memᴰ.tail (mem-append_left xs ys m)

  pub mem-append_right : {a : A} (xs ys : List A) → Memᴰ a ys → Memᴰ a (xs ++ ys)
  mem-append_right [] ys m = m
  mem-append_right (x ∷ xs) ys m = Memᴰ.tail (mem-append_right xs ys m)

  pub mem-append_cases : {a : A} (xs ys : List A) → Memᴰ a (xs ++ ys) → Memᴰ a xs ⊎ Memᴰ a ys
  mem-append_cases [] ys m = inr m
  mem-append_cases (x ∷ xs) ys (Memᴰ.head e) = inl (Memᴰ.head e)
  mem-append_cases (x ∷ xs) ys (Memᴰ.tail m) = elim (mem-append_cases xs ys m) [
    | inl n ↦ inl (Memᴰ.tail n)
    | inr n ↦ inr n
  ]
