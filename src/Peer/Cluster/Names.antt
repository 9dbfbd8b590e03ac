-- ===== src/Peer/Cluster/Names.antt =====
-- Sorting and gathering of names in internal/peer/registry.go: what is in the lists that come out.
use viiwork_freetoken.Prelude.{
  ◌≡◌, ◌↔◌, ◌⊎◌, refl, sym, subst, inl, inr, true, List, [], ◌∷◌, ◌++◌, String, str_eq, str_eq_iff,
  Memᴰ, Bool-cases, mem-append_left, mem-append_right, mem-append_cases, arith,
}
use viiwork_freetoken.Peer.State.{has_model_in}
use viiwork_freetoken.Peer.Cluster.{is_before, insert_name, sort_names, fresh}

insert_name_iff :
    (s : String) (ts : List String) (n : String) → Memᴰ n (insert_name s ts) ↔ ((n ≡ s) ⊎ Memᴰ n ts)
unfolding insert_name
insert_name_iff s [] n = (
  (λ m. elim m [ Memᴰ.head e ↦ inl e | Memᴰ.tail k ↦ inr k ]),
  (λ c. elim c [ inl e ↦ Memᴰ.head e | inr k ↦ Memᴰ.tail k ]),
)
insert_name_iff s (t ∷ ts) n = elim (Bool-cases (is_before s t)) [
  | inl e ↦ rw e (
    (λ m. elim m [ Memᴰ.head h ↦ inl h | Memᴰ.tail k ↦ inr k ]),
    (λ c. elim c [ inl h ↦ Memᴰ.head h | inr k ↦ Memᴰ.tail k ]),
  )
  | inr e ↦
      let (one, other) = insert_name_iff s ts n in
      rw e (
        (λ m. elim m [
          | Memᴰ.head h ↦ inr (Memᴰ.head h)
          | Memᴰ.tail k ↦ elim (one k) [ inl h ↦ inl h | inr l ↦ inr (Memᴰ.tail l) ]
        ]),
        (λ c. elim c [
          | inl h ↦ Memᴰ.tail (other (inl h))
          | inr l ↦ elim l [ Memᴰ.head h ↦ Memᴰ.head h | Memᴰ.tail k ↦ Memᴰ.tail (other (inr k)) ]
        ]),
      )
]

pub sort_names_iff : (ss : List String) (n : String) → Memᴰ n (sort_names ss) ↔ Memᴰ n ss
unfolding sort_names
sort_names_iff [] n = ((λ m. m), (λ m. m))
sort_names_iff (s ∷ ss) n =
    let (one, other) = insert_name_iff s (sort_names ss) n in
    let (out, back) = sort_names_iff ss n in
    (
      (λ m. elim (one m) [ inl e ↦ Memᴰ.head e | inr k ↦ Memᴰ.tail (out k) ]),
      (λ m. elim m [ Memᴰ.head e ↦ other (inl e) | Memᴰ.tail k ↦ other (inr (back k)) ]),
    )

pub has_model_in_iff : (n : String) (ms : List String) → (has_model_in n ms ≡ true) ↔ Memᴰ n ms
unfolding has_model_in
has_model_in_iff n [] = ((λ h. absurd (ground arith)), (λ m. elim m [ ]))
has_model_in_iff n (m ∷ ms) =
    let (one, other) = has_model_in_iff n ms in
    elim (Bool-cases (str_eq m n)) [
      | inl e ↦ rw e ((λ h. Memᴰ.head (sym ((str_eq_iff m n).0 e))), (λ h. refl))
      | inr e ↦ rw e (
        (λ h. Memᴰ.tail (one h)),
        (λ k. elim k [
          | Memᴰ.head h ↦ absurd (ground (arith, str_eq_iff m n))
          | Memᴰ.tail l ↦ other l
        ]),
      )
    ]

-- Together with those seen, the fresh names are all the names.
pub fresh_iff :
    (seen ms : List String) (n : String)
    → (Memᴰ n seen ⊎ Memᴰ n (fresh seen ms)) ↔ (Memᴰ n seen ⊎ Memᴰ n ms)
unfolding fresh
fresh_iff seen [] n = ((λ c. c), (λ c. c))
fresh_iff seen (m ∷ ms) n = elim (Bool-cases (has_model_in m seen)) [
  | inl e ↦
      let old : Memᴰ m seen = (has_model_in_iff m seen).0 e in
      let (one, other) = fresh_iff seen ms n in
      rw e (
        (λ c. elim (one c) [ inl s ↦ inl s | inr k ↦ inr (Memᴰ.tail k) ]),
        (λ c. elim c [
          | inl s ↦ inl s
          | inr k ↦ elim k [
            | Memᴰ.head h ↦ inl (subst (λ x. Memᴰ x seen) (sym h) old)
            | Memᴰ.tail l ↦ other (inr l)
          ]
        ]),
      )
  | inr e ↦
      let (one, other) = fresh_iff (m ∷ seen) ms n in
      rw e (
        (λ c. elim c [
          | inl s ↦ inl s
          | inr k ↦ elim k [ Memᴰ.head h ↦ inr (Memᴰ.head h) | Memᴰ.tail l ↦ put (one (inr l)) ]
        ]),
        (λ c. elim c [
          | inl s ↦ inl s
          | inr k ↦ elim k [ Memᴰ.head h ↦ inr (Memᴰ.head h) | Memᴰ.tail l ↦ take (other (inr l)) ]
        ]),
      )
]
  where
    put : Memᴰ n (m ∷ seen) ⊎ Memᴰ n ms → Memᴰ n seen ⊎ Memᴰ n (m ∷ ms)
    put (inl (Memᴰ.head h)) = inr (Memᴰ.head h)
    put (inl (Memᴰ.tail s)) = inl s
    put (inr l) = inr (Memᴰ.tail l)

    take :
        Memᴰ n (m ∷ seen) ⊎ Memᴰ n (fresh (m ∷ seen) ms)
        → Memᴰ n seen ⊎ Memᴰ n (m ∷ fresh (m ∷ seen) ms)
    take (inl (Memᴰ.head h)) = inr (Memᴰ.head h)
    take (inl (Memᴰ.tail s)) = inl s
    take (inr l) = inr (Memᴰ.tail l)

-- Names in front and the fresh ones of a further list are the names of both.
pub all_names_iff :
    (own ms : List String) (n : String) → Memᴰ n (own ++ fresh own ms) ↔ (Memᴰ n own ⊎ Memᴰ n ms)
all_names_iff own ms n =
    let (one, other) = fresh_iff own ms n in
    (
      (λ m. one (mem-append_cases own (fresh own ms) m)),
      (λ c. elim (other c) [
        | inl k ↦ mem-append_left own (fresh own ms) k
        | inr k ↦ mem-append_right own (fresh own ms) k
      ]),
    )
