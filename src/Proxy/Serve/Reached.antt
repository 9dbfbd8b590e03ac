-- ===== src/Proxy/Serve/Reached.antt =====
-- Which requests reach which handler (internal/proxy/handler.go and meshport.go).
use viiwork_freetoken.Prelude.{
  ◌≡◌, ◌≢◌, ◌↔◌, ◌⊎◌, refl, sym, ap, ◌∙◌, subst, inl, inr, Bool, true, false, not, ◌&&◌, Option,
  none, some, String, str_eq, str_eq_iff, if◌then◌else◌, Bool-cases, arith,
}
use viiwork_freetoken.Proxy.Cors.{Cors, Library, apply}
use viiwork_freetoken.Proxy.Serve.{
  Paths, Page, mesh, inference, not_allowed, not_found, Request, is_inference, later_page,
  middle_page, page, middleware, cors_request, serve_http, mesh_root,
}

and_false : (a : Bool) → (a && false) ≡ false
and_false true = refl
and_false false = refl

-- A request of another method than GET is looked at for inference only.
page-other :
    (ps : Paths) (path method : String)
    → str_eq method "GET" ≡ false
    → page ps path method ≡ (
        if is_inference ps path
        then if not (str_eq method "POST") then not_allowed else inference
        else not_found)
unfolding page
page-other ps path method h = simp (h, and_false)

eq_of_str : (s t : String) → str_eq s t ≡ true → s ≡ t
eq_of_str s t h = (str_eq_iff s t).0 h

not_str : (s t : String) → s ≢ t → str_eq s t ≡ false
not_str s t h = elim (Bool-cases (str_eq s t)) [ inl e ↦ absurd (h (eq_of_str s t e)) | inr e ↦ e ]

post-get : (method : String) → str_eq method "POST" ≡ true → str_eq method "GET" ≡ false
post-get method h = subst (λ m. str_eq m "GET" ≡ false) (sym (eq_of_str method "POST" h)) refl

post-options : (method : String) → str_eq method "POST" ≡ true → str_eq method "OPTIONS" ≡ false
post-options method h =
    subst (λ m. str_eq m "OPTIONS" ≡ false) (sym (eq_of_str method "POST" h)) refl

get-options : (method : String) → str_eq method "GET" ≡ true → str_eq method "OPTIONS" ≡ false
get-options method h = subst (λ m. str_eq m "OPTIONS" ≡ false) (sym (eq_of_str method "GET" h)) refl

get-post : (method : String) → str_eq method "GET" ≡ true → str_eq method "POST" ≡ false
get-post method h = subst (λ m. str_eq m "POST" ≡ false) (sym (eq_of_str method "GET" h)) refl

-- A page is looked up by its code, which tells inference from the others.
abbrev is_infer : Page → Bool
is_infer inference = true
is_infer _ = false

pass :
    (c : Bool) (x y : Page)
    → is_infer x ≡ false
    → is_infer y ≡ false
    → is_infer (if c then x else y) ≡ false
pass true x y h k = h
pass false x y h k = k

later-infer : (ps : Paths) (path : String) (get : Bool) → is_infer (later_page ps path get) ≡ false
later-infer ps path get = ground arith

middle-infer :
    (ps : Paths) (path method : String)
    → str_eq method "GET" ≡ true
    → is_infer (middle_page ps path method) ≡ false
middle-infer ps path method h =
    let refusal : is_infer (if not (str_eq method "POST") then not_allowed else inference) ≡ false =
      rw (get-post method h) refl in
    pass (is_inference ps path) _ (later_page ps path (str_eq method "GET")) refusal
      (later-infer ps path (str_eq method "GET"))

page-get-infer :
    (ps : Paths) (path method : String)
    → str_eq method "GET" ≡ true
    → is_infer (page ps path method) ≡ false
unfolding page
page-get-infer ps path method h = let m = middle-infer ps path method h in ground arith

page-get :
    (ps : Paths) (path method : String)
    → str_eq method "GET" ≡ true
    → page ps path method ≢ inference
page-get ps path method h e = cc (sym (ap is_infer e) ∙ page-get-infer ps path method h)

page-inference :
    (ps : Paths) (path method : String)
    → page ps path method ≡ inference
    → (is_inference ps path ≡ true) × (str_eq method "POST" ≡ true)
page-inference ps path method h = elim (Bool-cases (str_eq method "GET")) [
  | inl e ↦ absurd (page-get ps path method e h)
  | inr e ↦ let k = sym (page-other ps path method e) ∙ h in (ground arith, ground arith)
]

middleware-passes :
    (lib : Library) (cors : Option Cors) (r : Request)
    → str_eq r.method "OPTIONS" ≡ false
    → (middleware lib cors (cors_request r)).1 ≡ false
unfolding middleware apply
middleware-passes lib none r h = refl
middleware-passes lib (some c) r h = elim (Bool-cases (str_eq r.origin "")) [
  | inl e ↦ rw e refl
  | inr e ↦ rw (e, h) refl
]

-- A request is handed to inference exactly if it is a POST to one of the three paths, whatever its
-- origin; and one that is neither a GET nor a POST is handed to no handler: it is answered by the
-- middleware, or with 405 on one of those paths and 404 elsewhere.
pub serve_http-inference :
    (lib : Library) (cors : Option Cors) (ps : Paths) (r : Request)
    → (((serve_http lib cors ps r).1 ≡ some inference)
        ↔ ((r.method ≡ "POST") × (is_inference ps r.path ≡ true)))
      × (r.method ≢ "GET"
          → r.method ≢ "POST"
          → ((serve_http lib cors ps r).1 ≡ none)
            ⊎ ((serve_http lib cors ps r).1
                ≡ some (if is_inference ps r.path then not_allowed else not_found)))
unfolding serve_http
serve_http-inference lib cors ps r = ((there, back), other)
  where
    there :
        (serve_http lib cors ps r).1 ≡ some inference
        → (r.method ≡ "POST") × (is_inference ps r.path ≡ true)
    there h = elim (Bool-cases (middleware lib cors (cors_request r)).1) [
      | inl e ↦ absurd (ground arith)
      | inr e ↦
          let reached : page ps r.path r.method ≡ inference = ground arith in
          let (path, post) = page-inference ps r.path r.method reached in
          (eq_of_str r.method "POST" post, path)
    ]

    back :
        (r.method ≡ "POST") × (is_inference ps r.path ≡ true)
        → (serve_http lib cors ps r).1 ≡ some inference
    back (post, here) =
        let posts : str_eq r.method "POST" ≡ true = (str_eq_iff _ _).1 post in
        let onward = middleware-passes lib cors r (post-options r.method posts) in
        let found = page-other ps r.path r.method (post-get r.method posts) in
        rw (onward, found, here, posts) refl

    other :
        r.method ≢ "GET"
        → r.method ≢ "POST"
        → ((serve_http lib cors ps r).1 ≡ none)
          ⊎ ((serve_http lib cors ps r).1
              ≡ some (if is_inference ps r.path then not_allowed else not_found))
    other g p = elim (Bool-cases (middleware lib cors (cors_request r)).1) [
      | inl e ↦ inl (rw e refl)
      | inr e ↦
          let not_get = not_str r.method "GET" g in
          let not_post = not_str r.method "POST" p in
          inr (rw (e, page-other ps r.path r.method not_get, not_post) refl)
    ]

-- Where "/mesh" is none of the first four paths of the protocol, a GET on the mesh port is shown the
-- mesh page at "/", and everywhere else what the node's own port shows.
pub mesh_root-page :
    (lib : Library) (cors : Option Cors) (ps : Paths) (r : Request)
    → r.method ≡ "GET"
    → ps.health ≢ "/mesh"
    → ps.models ≢ "/mesh"
    → ps.status ≢ "/mesh"
    → ps.cluster ≢ "/mesh"
    → (r.path ≡ "/" → (mesh_root lib cors ps r).1 ≡ some mesh)
      × (r.path ≢ "/" → mesh_root lib cors ps r ≡ serve_http lib cors ps r)
unfolding mesh_root serve_http page
mesh_root-page lib cors ps r get h m s c = (
  (λ e.
      let here : str_eq r.path "/" ≡ true = (str_eq_iff _ _).1 e in
      let gets : str_eq r.method "GET" ≡ true = (str_eq_iff _ _).1 get in
      let onward = middleware-passes lib cors r (get-options r.method gets) in
      rw
        (
          here,
          onward,
          not_str "/mesh" ps.health (λ x. h (sym x)),
          not_str "/mesh" ps.models (λ x. m (sym x)),
          not_str "/mesh" ps.status (λ x. s (sym x)),
          not_str "/mesh" ps.cluster (λ x. c (sym x)),
          gets,
        )
        refl),
  (λ e. rw (not_str r.path "/" e) refl),
)
