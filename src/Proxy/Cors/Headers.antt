-- ===== src/Proxy/Cors/Headers.antt =====
-- What `apply` of internal/proxy/cors.go puts into a response.
use viiwork_freetoken.Prelude.{
  ◌≡◌, ◌≢◌, ◌↔◌, refl, inl, inr, Bool, true, false, not, ◌||◌, Option, some, none, List, [], ◌∷◌,
  String, str_eq, str_eq_iff, Bool-cases, if◌then◌else◌, arith,
}
use viiwork_freetoken.Proxy.Cors.{
  Cors, Library, Request, Response, untouched, named, preflight, allows, apply,
}

-- A request by which a browser asks for leave: OPTIONS with an origin and the method asked for.
abbrev pub IsPreflight : Request → Type 0
IsPreflight r = (r.origin ≢ "") × (r.is_options ≡ true) × (r.request_method ≢ "")

-- None of the headers that let a page read or send.
abbrev pub PermitsNothing : Response → Type 0
PermitsNothing s =
    (s.allow_origin ≡ "")
    × (s.expose_headers ≡ "")
    × (s.allow_methods ≡ "")
    × (s.allow_headers ≡ "")
    × (s.max_age ≡ "")

-- The same at a known verdict on the origin.
abbrev answer : Bool → Request → Response × Bool
answer allowed r =
    if str_eq r.origin ""
    then (untouched, false)
    else if not r.is_options || str_eq r.request_method ""
    then (named allowed r.origin, false)
    else (preflight allowed r, true)

answered_iff : (allowed : Bool) (r : Request) → ((answer allowed r).1 ≡ true) ↔ IsPreflight r
answered_iff allowed r =
    let origin = str_eq_iff r.origin "" in
    let method = str_eq_iff r.request_method "" in
    (
      (λ h. ((λ e. ground (arith, origin)), ground arith, λ e. ground (arith, method))),
      (λ h. ground (arith, origin, method, h.0, h.1, h.2)),
    )

varies :
    (allowed : Bool) (r : Request)
    → r.origin ≢ ""
    → (vary : List String) × ((answer allowed r).0.vary ≡ "Origin" ∷ vary)
unfolding preflight
varies allowed r given =
    let there : str_eq r.origin "" ≡ false = ground (arith, str_eq_iff r.origin "") in
    elim (Bool-cases (not r.is_options || str_eq r.request_method "")) [
      | inl e ↦ rw (there, e) ([], refl)
      | inr e ↦ rw (there, e) (preflight_varies allowed)
    ]
  where
    preflight_varies : (b : Bool) → (vary : List String) × ((preflight b r).vary ≡ "Origin" ∷ vary)
    preflight_varies false = ([], refl)
    preflight_varies true = ("Access-Control-Request-Headers" ∷ [], refl)

refuses :
    (r : Request)
    → PermitsNothing (answer false r).0
      × ((answer false r).1 ≡ true → (answer false r).0.status ≡ some 403)
unfolding preflight
refuses r = ground arith

permits :
    (r : Request)
    → r.origin ≢ ""
    → ((answer true r).0.allow_origin ≡ r.origin)
      × ((answer true r).1 ≡ true → (answer true r).0.status ≡ some 204)
unfolding preflight
permits r given = ground (arith, str_eq_iff r.origin "")

allows-given :
    (lib : Library) (c : Option Cors) (origin : String) → allows lib c origin ≡ true → origin ≢ ""
unfolding allows
allows-given lib none origin h e = ground arith
allows-given lib (some c) origin h e = ground (arith, str_eq_iff origin "")

-- The middleware answers exactly the preflights, with 204 to an origin that is allowed and 403 to one
-- that is not. An origin that is allowed is named in the response, and no other origin is; one that is
-- not allowed gets no header that permits anything. The response varies by origin whenever there is
-- one, so that a shared cache does not mix them up.
pub apply-IsPreflight :
    (lib : Library) (c : Option Cors) (r : Request)
    → ((apply lib c r).1 ≡ true ↔ IsPreflight r)
      × (r.origin ≢ "" → (vary : List String) × ((apply lib c r).0.vary ≡ "Origin" ∷ vary))
      × (allows lib c r.origin ≡ false
          → PermitsNothing (apply lib c r).0
            × ((apply lib c r).1 ≡ true → (apply lib c r).0.status ≡ some 403))
      × (allows lib c r.origin ≡ true
          → ((apply lib c r).0.allow_origin ≡ r.origin)
            × ((apply lib c r).1 ≡ true → (apply lib c r).0.status ≡ some 204))
unfolding apply preflight
apply-IsPreflight lib c r = elim (Bool-cases (allows lib c r.origin)) [
  | inl e ↦ rw e (
    answered_iff true r,
    varies true r,
    (λ f. absurd (ground arith)),
    (λ _. permits r (allows-given lib c r.origin e)),
  )
  | inr e ↦
      rw e (answered_iff false r, varies false r, (λ _. refuses r), (λ f. absurd (ground arith)))
]
