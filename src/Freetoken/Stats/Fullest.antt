-- ===== src/Freetoken/Stats/Fullest.antt =====
-- The occupancy that `ParseStats` (internal/freetoken/metrics.go) reports is that of the fullest pool,
-- in whatever order Go visits the map of the pools.
use native.Mathlib.Nat.{mul-le-mul_right, le_of_mul-le-mul_right}
use viiwork_freetoken.Prelude.{
  ℕ, ◌+◌, ◌*◌, ◌≤◌, ◌<◌, ◌≡◌, ◌⊎◌, refl, sym, ap, ◌∙◌, subst, inl, inr, Bool, true, false, not,
  String, List, [], ◌∷◌, Option, none, some, ℤ, pos, negsuc, pos_part, neg_part, str_eq, Memᴰ,
  Bool-cases, some-injective, arith, ltb→le, ltb→lt, le→ltb,
}
use viiwork_freetoken.Balancer.State.{Ratio}
use viiwork_freetoken.Peer.State.{zero_ratio}
use viiwork_freetoken.Freetoken.Stats.{
  Pool, occupancy, StatsGpu, StatsDoc, Stats, PoolName, pool_key, pool_of, above, fuller, see_pool,
  see_pools, initial_stats, note_if, see_gpus, read_stats, parse_stats,
}

-- A quotient by a positive number.
abbrev IsQuotient : Ratio → Type 0
IsQuotient r = 0 < pos_part r.den

occupancy-IsQuotient : (p : Option Pool) (o : Ratio) → occupancy p ≡ some o → IsQuotient o
unfolding occupancy
occupancy-IsQuotient none o h = absurd (ground arith)
occupancy-IsQuotient (some p) o h = ground arith

scaled : (x y z a b d : ℕ) → 0 < b → x * b ≤ y * a → y * d ≤ z * b → x * d ≤ z * a
scaled x y z a b d h p q =
    let first : x * b * d ≤ y * a * d = mul-le-mul_right d p in
    let second : y * d * a ≤ z * b * a = mul-le-mul_right a q in
    let both : x * d * b ≤ z * a * b = grind arith in le_of_mul-le-mul_right both h

-- x / a is not above y / b, and z / d is, so x / a is not above z / d.
crossed :
    (x z : ℤ) (y a b d : ℕ)
    → 0 < b
    → pos_part x * b ≤ y * a + neg_part x * b
    → y * d + neg_part z * b < pos_part z * b
    → pos_part x * d + neg_part z * a ≤ pos_part z * a + neg_part x * d
crossed (pos x) (pos z) y a b d h p q =
    omega (arith, scaled x y z a b d h (omega arith) (omega arith))
crossed (pos x) (negsuc z) y a b d h p q = absurd (omega arith)
crossed (negsuc x) (pos z) y a b d h p q = omega arith
crossed (negsuc x) (negsuc z) y a b d h p q = absurd (omega arith)

-- A quotient that is not above one that is not negative is not above a larger one.
not-above_trans :
    (o c p : Ratio)
    → IsQuotient c
    → neg_part c.num ≡ 0
    → above o c ≡ false
    → above p c ≡ true
    → above o p ≡ false
not-above_trans o c p h k below higher =
    let low = ltb→le _ _ below in
    let high = ltb→lt _ _ higher in
    let flat : (m : ℕ) → neg_part c.num * m ≡ 0 = λ m. rw k (omega arith) in
    le→ltb _ _ (
      omega (
        arith,
        crossed o.num p.num (pos_part c.num) (pos_part o.den) (pos_part c.den) (pos_part p.den) h
            (omega (arith, flat (pos_part o.den))) (omega (arith, flat (pos_part p.den))),
      ))

natural_of : (x : ℤ) (l m : ℕ) → m + neg_part x * l < pos_part x * l → neg_part x ≡ 0
natural_of (pos x) l m h = refl
natural_of (negsuc x) l m h = absurd (omega arith)

above-natural : (o c : Ratio) → neg_part c.num ≡ 0 → above o c ≡ true → neg_part o.num ≡ 0
above-natural o c k higher =
    let flat : neg_part c.num * pos_part o.den ≡ 0 = rw k (omega arith) in
    natural_of o.num (pos_part c.den) (pos_part c.num * pos_part o.den)
      (omega (arith, ltb→lt _ _ higher, flat))

above_self : (c : Ratio) → above c c ≡ false
above_self c = ground arith

-- A figure that is at least 0 and that a later one is not below.
abbrev IsFigure : Ratio → Type 0
IsFigure c = IsQuotient c × (neg_part c.num ≡ 0)

abbrev Grows : Ratio → Ratio → Type 0
Grows c c' = (o : Ratio) → above o c ≡ false → above o c' ≡ false

fuller-Grows : (o c : Ratio) → IsFigure c → Grows c (fuller o c)
fuller-Grows o c h p e = elim (Bool-cases (above o c)) [
  | inl f ↦ rw f (not-above_trans p c o h.0 h.1 e f)
  | inr f ↦ rw f e
]

fuller-IsFigure : (o c : Ratio) → IsQuotient o → IsFigure c → IsFigure (fuller o c)
fuller-IsFigure o c q h = elim (Bool-cases (above o c)) [
  | inl f ↦ rw f (q, above-natural o c h.1 f)
  | inr f ↦ rw f h
]

fuller-above : (o c : Ratio) → above o (fuller o c) ≡ false
fuller-above o c = elim (Bool-cases (above o c)) [ inl f ↦ rw f (above_self o) | inr f ↦ rw f f ]

fuller-either : (o c : Ratio) → (fuller o c ≡ c) ⊎ (fuller o c ≡ o)
fuller-either o c = ground arith

note_if-cache_pct :
    (seen : Bool) (key : String) (st : Stats) → (note_if seen key st).cache_pct ≡ st.cache_pct
note_if-cache_pct true key st = refl
note_if-cache_pct false key st = refl

see_gpus-cache_pct : (gs : List StatsGpu) (st : Stats) → (see_gpus gs st).cache_pct ≡ st.cache_pct
unfolding see_gpus
see_gpus-cache_pct [] st = refl
see_gpus-cache_pct (g ∷ gs) st = elim (Bool-cases (not (str_eq g.uuid ""))) [
  | inl e ↦ rw e
  | inr e ↦ rw e
]

module _ (doc : StatsDoc) where
  abbrev occupied : PoolName → Option Ratio
  occupied n = occupancy (pool_of doc n)

  -- What the loop over some pools makes of the figure `c`.
  abbrev IsFullest : List PoolName → Ratio → Ratio → Type 0
  IsFullest ns c c' =
      IsFigure c'
      × Grows c c'
      × ((n : PoolName) (o : Ratio) → Memᴰ n ns → occupied n ≡ some o → above o c' ≡ false)
      × ((c' ≡ c) ⊎ ((n : PoolName) × (occupied n ≡ some c')))

  IsFullest-none :
      (n : PoolName) (ns : List PoolName) (c c' : Ratio)
      → occupied n ≡ none
      → IsFullest ns c c'
      → IsFullest (n ∷ ns) c c'
  IsFullest-none n ns c c' e (fine, grows, bound, from) = (fine, grows, bounded, from)
    where
      bounded :
          (m : PoolName) (o : Ratio) → Memᴰ m (n ∷ ns) → occupied m ≡ some o → above o c' ≡ false
      bounded m o (Memᴰ.head same) f = absurd (cc (sym f ∙ ap occupied same ∙ e))
      bounded m o (Memᴰ.tail k) f = bound m o k f

  IsFullest-some :
      (n : PoolName) (ns : List PoolName) (o c c' : Ratio)
      → IsFigure c
      → occupied n ≡ some o
      → IsFullest ns (fuller o c) c'
      → IsFullest (n ∷ ns) c c'
  IsFullest-some n ns o c c' h e (fine, grows, bound, from) =
      (fine, (λ p f. grows p (fuller-Grows o c h p f)), bounded, origin from)
    where
      bounded :
          (m : PoolName) (p : Ratio) → Memᴰ m (n ∷ ns) → occupied m ≡ some p → above p c' ≡ false
      bounded m p (Memᴰ.head same) f =
          let here : o ≡ p = some-injective _ _ (sym e ∙ sym (ap occupied same) ∙ f) in
          subst (λ q. above q c' ≡ false) here (grows o (fuller-above o c))
      bounded m p (Memᴰ.tail k) f = bound m p k f

      origin :
          ((c' ≡ fuller o c) ⊎ ((m : PoolName) × (occupied m ≡ some c')))
          → (c' ≡ c) ⊎ ((m : PoolName) × (occupied m ≡ some c'))
      origin (inr later) = inr later
      origin (inl kept) = elim (fuller-either o c) [
        | inl old ↦ inl (kept ∙ old)
        | inr new ↦ inr (n, e ∙ ap some (sym (kept ∙ new)))
      ]

  see_pools-IsFullest :
      (ns : List PoolName) (st : Stats)
      → IsFigure st.cache_pct
      → IsFullest ns st.cache_pct (see_pools doc ns st).cache_pct
  unfolding see_pools see_pool
  see_pools-IsFullest [] st h = (h, (λ o e. e), (λ n o m. elim m [ ]), inl refl)
  see_pools-IsFullest (n ∷ ns) st h = go (see_pools-IsFullest ns) (occupied n) refl
    where
      go :
          ((t : Stats)
            → IsFigure t.cache_pct
            → IsFullest ns t.cache_pct (see_pools doc ns t).cache_pct)
          → (o : Option Ratio) → occupied n ≡ o
          → IsFullest
              (n ∷ ns)
              st.cache_pct
              (see_pools doc ns (see_pool (pool_key n) o st)).cache_pct
      go rest none e = IsFullest-none n ns _ _ e (rest st h)
      go rest (some o) e = IsFullest-some n ns o _ _ h e (
          rest (see_pool (pool_key n) (some o) st)
            (fuller-IsFigure o st.cache_pct (occupancy-IsQuotient (pool_of doc n) o e) h))

  read_stats-cache_pct :
      (order : List PoolName)
      → (read_stats order doc).cache_pct ≡ (see_pools doc order (initial_stats doc)).cache_pct
  unfolding read_stats see_gpus
  read_stats-cache_pct order =
      see_gpus-cache_pct doc.gpus _
      ∙ note_if-cache_pct _ "vram" _
      ∙ note_if-cache_pct _ "decode_tps" (see_pools doc order (initial_stats doc))

  read_stats-IsFullest :
      (order : List PoolName) → IsFullest order zero_ratio (read_stats order doc).cache_pct
  unfolding initial_stats
  read_stats-IsFullest order =
      subst (IsFullest order zero_ratio) (sym (read_stats-cache_pct order))
        (see_pools-IsFullest order (initial_stats doc) (omega arith, refl))

  -- The figure is that of a pool or 0, so another order's figure, which is above none, bounds it.
  bounded_by :
      (order order' : List PoolName)
      → ((n : PoolName) → Memᴰ n order')
      → above (read_stats order doc).cache_pct (read_stats order' doc).cache_pct ≡ false
  bounded_by order order' all' =
      let (_, _, _, from) = read_stats-IsFullest order in
      let (fine, grows, bound, _) = read_stats-IsFullest order' in
      elim from [
        | inl none_seen ↦ rw none_seen (grows zero_ratio (above_self zero_ratio))
        | inr (n, e) ↦ bound n _ (all' n) e
      ]

  -- For a body that decodes, and whatever the order in which the map of the pools is visited, the
  -- occupancy that is reported is not exceeded by that of any pool, and it is that of a pool or 0; two
  -- orders report the same figure, in that neither is above the other.
  pub parse_stats-IsFullest :
      (order order' : List PoolName)
      → ((n : PoolName) → Memᴰ n order)
      → ((n : PoolName) → Memᴰ n order')
      → (st : Stats) × (st' : Stats) × (parse_stats order (some doc) ≡ some st)
        × (parse_stats order' (some doc) ≡ some st')
        × ((n : PoolName) (o : Ratio)
            → occupancy (pool_of doc n) ≡ some o
            → above o st.cache_pct ≡ false)
        × ((st.cache_pct ≡ zero_ratio)
            ⊎ ((n : PoolName) × (occupancy (pool_of doc n) ≡ some st.cache_pct)))
        × (above st.cache_pct st'.cache_pct ≡ false)
        × (above st'.cache_pct st.cache_pct ≡ false)
  unfolding parse_stats
  parse_stats-IsFullest order order' all all' =
      let (_, _, bound, from) = read_stats-IsFullest order in
      (
        read_stats order doc,
        read_stats order' doc,
        refl,
        refl,
        λ n o e. bound n o (all n) e,
        from,
        bounded_by order order' all',
        bounded_by order' order all,
      )
