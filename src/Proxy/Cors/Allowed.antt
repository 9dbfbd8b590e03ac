-- ===== src/Proxy/Cors/Allowed.antt =====
-- What internal/proxy/cors.go allows, said of the origin.
use viiwork_freetoken.Prelude.{
  ℕ, ◌+◌, ◌-◌, ◌≡◌, ◌≢◌, ◌↔◌, ◌⊎◌, refl, sym, ap, ◌∙◌, subst, inl, inr, Bool, true, false, ◌&&◌,
  ◌||◌, not, List, [], ◌∷◌, ◌++◌, Option, none, some, String, str_eq, str_eq_iff, ◌<◌, ◌≤◌, leb,
  ltb, if◌then◌else◌, Bytes, codes, is_empty_text, is_prefix, same_bytes_iff, length, drop, take,
  length-append, Memᴰ, Bool-cases, arith,
}
use viiwork_freetoken.Proxy.Cors.{
  Cors, Ip, v4, v6, Library, is_suffix, in_tailnet, tailnet_host, matches, any_pattern, allows_host,
  allows,
}

is_prefix_iff : (xs ys : Bytes) → (is_prefix xs ys ≡ true) ↔ ((rest : Bytes) × (ys ≡ xs ++ rest))
is_prefix_iff [] ys = ((λ h. (ys, refl)), (λ h. refl))
is_prefix_iff (x ∷ xs) [] = ((λ h. absurd (ground arith)), (λ h. absurd (ground (arith, h.1))))
is_prefix_iff (x ∷ xs) (y ∷ ys) =
    let (one, other) = is_prefix_iff xs ys in
    (
      (λ h. let (rest, e) = one (ground arith) in (rest, ground arith)),
      (λ h.
          let (rest, e) = h in
          let tail : is_prefix xs ys ≡ true = other (rest, ground arith) in ground arith),
    )

take-drop : (n : ℕ) (xs : Bytes) → xs ≡ take n xs ++ drop n xs
take-drop ℕ.zero xs = refl
take-drop (ℕ.suc n) [] = refl
take-drop (ℕ.suc n) (x ∷ xs) = ap (λ l. x ∷ l) (take-drop n xs)

drop-length : (xs ys : Bytes) → drop (length xs) (xs ++ ys) ≡ ys
drop-length [] ys = refl
drop-length (x ∷ xs) ys = drop-length xs ys

is_suffix_iff :
    (suffix s : Bytes) → (is_suffix suffix s ≡ true) ↔ ((label : Bytes) × (s ≡ label ++ suffix))
unfolding is_suffix
is_suffix_iff suffix s = (
  λ h.
      let n = length s - length suffix in
      let same : suffix ≡ drop n s = (same_bytes_iff suffix (drop n s)).0 (ground arith) in
      (take n s, take-drop n s ∙ ap (λ l. take n s ++ l) (sym same)),
  λ h.
      let (label, e) = h in
      let size : length s ≡ length label + length suffix =
        ap length e ∙ length-append label suffix in
      let n : length s - length suffix ≡ length label = omega arith in
      let same : suffix ≡ drop (length s - length suffix) s =
        sym (ap (λ k. drop k s) n ∙ ap (drop (length label)) e ∙ drop-length label suffix) in
      let fits : leb (length suffix) (length s) ≡ true = ground arith in
      rw (fits, (same_bytes_iff _ _).1 same),
)

-- A subdomain of the name after the star, by a host in lower case; else the same name but for case.
abbrev pub Matches : Library → Bytes → Bytes → Type 0
Matches lib host pat =
    ((name : Bytes) × (pat ≡ b'*' ∷ b'.' ∷ name)
      × (length name + 1 < length host)
      × ((label : Bytes) × (lib.to_lower host ≡ label ++ b'.' ∷ name)))
    ⊎ (((name : Bytes) → pat ≢ b'*' ∷ b'.' ∷ name) × (lib.equal_fold host pat ≡ true))

starred :
    (pat : Bytes) → is_prefix (codes "*.") pat ≡ true → (name : Bytes) × (pat ≡ b'*' ∷ b'.' ∷ name)
starred pat h = (is_prefix_iff (codes "*.") pat).0 h

matches_iff :
    (lib : Library) (host pat : Bytes) → (matches lib host pat ≡ true) ↔ Matches lib host pat
unfolding matches
matches_iff lib host pat = elim (Bool-cases (is_prefix (codes "*.") pat)) [
  | inl e ↦
      let (name, p) = starred pat e in
      let suffix : drop 1 pat ≡ b'.' ∷ name = ap (drop 1) p in
      let ends = is_suffix_iff (b'.' ∷ name) (lib.to_lower host) in
      rw (e, suffix)
        (
          (λ h. inl (name, p, ground arith, ends.0 (ground arith))),
          (λ h. elim h [
            | inl (n, q, size, l) ↦
                let same : b'.' ∷ n ≡ b'.' ∷ name = ap (drop 1) (sym q ∙ p) in
                let len : length n ≡ length name = ap (λ k. length (drop 2 k)) (sym q ∙ p) in
                let wide : ltb (length (b'.' ∷ name)) (length host) ≡ true = ground arith in
                let fits =
                  ends.1 (subst (λ k. (label : Bytes) × (lib.to_lower host ≡ label ++ k)) same l) in
                rw (wide, fits)
            | inr (plain, _) ↦ absurd (plain name p)
          ]),
        )
  | inr e ↦ rw e (
    (λ h. inr ((λ name p. clash name p e), h)),
    (λ h. elim h [ inl (n, q, _, _) ↦ absurd (clash n q e) | inr (_, f) ↦ f ]),
  )
]
  where
    clash : (name : Bytes) → pat ≡ b'*' ∷ b'.' ∷ name → is_prefix (codes "*.") pat ≡ false → ⊥
    clash name p e =
        let yes : is_prefix (codes "*.") pat ≡ true =
          (is_prefix_iff (codes "*.") pat).1 (name, p) in
        ground arith

any_pattern_iff :
    (lib : Library) (host : Bytes) (pats : List Bytes)
    → (any_pattern lib host pats ≡ true) ↔ ((pat : Bytes) × Memᴰ pat pats × Matches lib host pat)
unfolding any_pattern
any_pattern_iff lib host [] = ((λ h. absurd (ground arith)), (λ h. elim h.1 [ ]))
any_pattern_iff lib host (p ∷ ps) =
    let rest = any_pattern_iff lib host ps in
    let here = matches_iff lib host p in
    elim (Bool-cases (matches lib host p)) [
      | inl e ↦ rw e ((λ h. (p, Memᴰ.head refl, here.0 e)), (λ h. refl))
      | inr e ↦ rw e (
        (λ h. let (q, m, k) = rest.0 h in (q, Memᴰ.tail m, k)),
        (λ h.
            let (q, m, k) = h in
            elim m [
              | Memᴰ.head s ↦ absurd (clash e (here.1 (subst (Matches lib host) s k)))
              | Memᴰ.tail n ↦ rest.1 (q, n, k)
            ]),
      )
    ]
  where
    clash : {b : Bool} → b ≡ false → b ≡ true → ⊥
    clash f t = ground arith

-- The blocks 100.64.0.0/10 and fd7a:115c:a1e0::/48, from which Tailscale hands out addresses.
abbrev pub InTailnet : Ip → Type 0
InTailnet (v4 a b c d) = (a ≡ 100) × (64 ≤ b) × (b ≤ 127)
InTailnet (v6 bytes) = (rest : Bytes) × (bytes ≡ 253 ∷ 122 ∷ 17 ∷ 92 ∷ 161 ∷ 224 ∷ rest)

in_tailnet_iff : (ip : Ip) → (in_tailnet ip ≡ true) ↔ InTailnet ip
unfolding in_tailnet
in_tailnet_iff (v4 a b c d) = (λ h. ground arith, λ h. ground arith)
in_tailnet_iff (v6 bytes) = is_prefix_iff (253 ∷ 122 ∷ 17 ∷ 92 ∷ 161 ∷ 224 ∷ []) bytes

tailnet_host_iff :
    (o : Option Ip) → (tailnet_host o ≡ true) ↔ ((ip : Ip) × (o ≡ some ip) × InTailnet ip)
unfolding tailnet_host
tailnet_host_iff none = ((λ h. absurd (ground arith)), (λ h. absurd (ground (arith, h.1))))
tailnet_host_iff (some ip) =
    let iff = in_tailnet_iff ip in
    (
      (λ h. (ip, refl, iff.0 h)),
      (λ h.
          let (jp, e, k) = h in
          let same : ip ≡ jp = ground arith in iff.1 (subst InTailnet (sym same) k)),
    )

-- An address of the tailnet, where these are allowed, or a name that one of the patterns matches.
abbrev pub HostAllowed : Library → Cors → Bytes → Type 0
HostAllowed lib c host =
    ((c.tailnet_ips ≡ true) × ((ip : Ip) × (lib.parse_ip host ≡ some ip) × InTailnet ip))
    ⊎ ((pat : Bytes) × Memᴰ pat c.origins × Matches lib host pat)

-- A page's origin: one of the two schemes of the web and some host.
abbrev pub IsAllowed : Library → Cors → String → Type 0
IsAllowed lib c origin =
    (scheme : String) × (host : Bytes) × (lib.parse_url origin ≡ some (scheme, host))
    × ((scheme ≡ "http") ⊎ (scheme ≡ "https"))
    × (host ≢ [])
    × HostAllowed lib c host

is_empty_iff : (xs : Bytes) → (is_empty_text xs ≡ false) ↔ (xs ≢ [])
is_empty_iff [] = ((λ h. absurd (ground arith)), (λ h. absurd (h refl)))
is_empty_iff (x ∷ xs) = ((λ h e. ground arith), (λ h. refl))

allows_host_lem :
    (lib : Library) (c : Cors) (scheme : String) (host : Bytes)
    → (allows_host lib c (some (scheme, host)) ≡ true)
      ↔ (((scheme ≡ "http") ⊎ (scheme ≡ "https")) × (host ≢ []) × HostAllowed lib c host)
unfolding allows_host
allows_host_lem lib c scheme host =
    let http = str_eq_iff scheme "http" in
    let https = str_eq_iff scheme "https" in
    let some_host = is_empty_iff host in
    let tailnet = tailnet_host_iff (lib.parse_ip host) in
    let named = any_pattern_iff lib host c.origins in
    (
      λ h.
          (ground (arith, http, https), some_host.0 (ground arith), where_from h tailnet.0 named.0),
      λ h.
          let (schemes, some_name, from) = h in
          let web : (not (str_eq scheme "http") && not (str_eq scheme "https")) ≡ false =
            ground (arith, http, https) in
          let there : is_empty_text host ≡ false = some_host.1 some_name in
          rw (web, there)
            (elim from [
              | inl (on, ip) ↦ let found = tailnet.1 ip in rw (on, found)
              | inr pat ↦ let found = named.1 pat in last found
            ]),
    )
  where
    last :
        any_pattern lib host c.origins ≡ true
        → (if c.tailnet_ips && tailnet_host (lib.parse_ip host)
            then true
            else any_pattern lib host c.origins)
          ≡ true
    last found = ground arith

    where_from :
        allows_host lib c (some (scheme, host)) ≡ true
        → (tailnet_host (lib.parse_ip host) ≡ true
            → (ip : Ip) × (lib.parse_ip host ≡ some ip) × InTailnet ip)
        → (any_pattern lib host c.origins ≡ true
            → (pat : Bytes) × Memᴰ pat c.origins × Matches lib host pat)
        → HostAllowed lib c host
    where_from h tailnet named =
        elim (Bool-cases (c.tailnet_ips && tailnet_host (lib.parse_ip host))) [
          | inl e ↦ inl (ground arith, tailnet (ground arith))
          | inr e ↦ inr (named (ground arith))
        ]

no_url : (lib : Library) (c : Cors) → allows_host lib c none ≡ true → ⊥
unfolding allows_host
no_url lib c h = ground arith

-- A page's origin may read the API exactly if its scheme is http or https and its host is, where that
-- is switched on, an address in one of the two blocks of the tailnet, or a name that a pattern gives:
-- a proper subdomain for a pattern with a star, else the name itself but for case.
pub allows_iff :
    (lib : Library) (c : Cors) (origin : String)
    → origin ≢ ""
    → origin ≢ "null"
    → (allows lib (some c) origin ≡ true) ↔ IsAllowed lib c origin
unfolding allows
allows_iff lib c origin given page =
    let named : (str_eq origin "" || str_eq origin "null") ≡ false =
      ground (arith, str_eq_iff origin "", str_eq_iff origin "null") in
    rw (allows, named) (split (lib.parse_url origin) refl)
  where
    split :
        (o : Option (String × Bytes))
        → lib.parse_url origin ≡ o
        → (allows_host lib c o ≡ true) ↔ IsAllowed lib c origin
    split none e = ((λ h. absurd (no_url lib c h)), (λ h. absurd (ground (arith, e, h.2))))
    split (some (scheme, host)) e =
        let iff = allows_host_lem lib c scheme host in
        (
          (λ h. let (schemes, there, from) = iff.0 h in (scheme, host, e, schemes, there, from)),
          (λ h.
              let (scheme', host', e', schemes, there, from) = h in
              let same : some (scheme, host) ≡ some (scheme', host') = sym e ∙ e' in
              ap (allows_host lib c) same
              ∙ (allows_host_lem lib c scheme' host').1 (schemes, there, from)),
        )
