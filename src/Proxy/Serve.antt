-- ===== src/Proxy/Serve.antt =====
-- internal/proxy/handler.go and meshport.go: what `ServeHTTP` answers a request with, on the node's own
-- port and on the mesh port.
-- The paths of the protocol are constants of `meshapi` and an argument. What a page writes is told
-- elsewhere or is left out.
pub mod Reached
use viiwork_freetoken.Prelude.{
  ℕ, ◌<◌, Bool, true, false, not, ◌&&◌, ◌||◌, List, [], ◌∷◌, ◌++◌, Option, none, some, String,
  str_eq, ℤ, pos, ltb_ℤ, ltb, length, if◌then◌else◌,
}
use viiwork_freetoken.Balancer.State.{BackendState}
use viiwork_freetoken.Balancer.Pick.{healthy_count}
use viiwork_freetoken.Proxy.Cors.{Cors, Library, Response, untouched, apply}
use viiwork_freetoken.Proxy.Cors as Middleware

pub record Paths : Type 0 where
  pub health : String
  pub models : String
  pub status : String
  pub cluster : String
  pub chat_completions : String
  pub completions : String
  pub embeddings : String
  pub activity : String
  pub activity_stream : String
  pub mesh_stream : String
  pub prompts : String
  pub mesh_prompt : String

-- The handlers, the pages, and the errors 405 and 404.
pub data Page : Type 0 where
  health models status cluster dashboard mesh prompt inference metrics metrics_stream : Page
  activity activity_stream mesh_stream prompt_lookup mesh_prompt : Page
  not_allowed not_found : Page

-- `r.URL.Path`, `r.Method` and the headers of a request that the middleware reads.
pub record Request : Type 0 where
  pub path : String
  pub method : String
  pub origin : String
  pub request_method : String
  pub request_headers : String

abbrev pub is_inference : Paths → String → Bool
is_inference ps path =
    str_eq path ps.chat_completions || str_eq path ps.completions || str_eq path ps.embeddings

-- The cases after that of inference.
abbrev pub later_page : Paths → String → Bool → Page
later_page ps path get =
    if str_eq path "/v1/metrics" && get
    then metrics
    else if str_eq path "/v1/metrics/stream" && get
    then metrics_stream
    else if str_eq path ps.activity && get
    then activity
    else if str_eq path ps.activity_stream && get
    then activity_stream
    else if str_eq path ps.mesh_stream && get
    then mesh_stream
    else if str_eq path ps.prompts && get
    then prompt_lookup
    else if str_eq path ps.mesh_prompt && get
    then mesh_prompt
    else not_found

abbrev pub middle_page : Paths → String → String → Page
middle_page ps path method =
    if is_inference ps path
    then if not (str_eq method "POST") then not_allowed else inference
    else later_page ps path (str_eq method "GET")

-- The switch.
unfoldable pub page : Paths → String → String → Page
page ps path method =
    let get = str_eq method "GET" in
    if str_eq path ps.health && get
    then health
    else if str_eq path ps.models && get
    then models
    else if str_eq path ps.status && get
    then status
    else if str_eq path ps.cluster && get
    then cluster
    else if str_eq path "/" && get
    then dashboard
    else if str_eq path "/mesh" && get
    then mesh
    else if str_eq path "/prompt" && get
    then prompt
    else middle_page ps path method

abbrev pub cors_request : Request → Middleware.Request
cors_request r = record {
  origin = r.origin;
  is_options = str_eq r.method "OPTIONS";
  request_method = r.request_method;
  request_headers = r.request_headers;
}

-- Without rules the middleware is passed over.
unfoldable pub middleware : Library → Option Cors → Middleware.Request → Response × Bool
middleware lib none r = (untouched, false)
middleware lib (some c) r = apply lib (some c) r

-- The headers of the middleware, and the page unless the middleware has answered.
unfoldable pub serve_http : Library → Option Cors → Paths → Request → Response × Option Page
serve_http lib cors ps r =
    let (resp, answered) = middleware lib cors (cors_request r) in
    (resp, if answered then none else some (page ps r.path r.method))

-- The handler of the mesh port.
unfoldable pub mesh_root : Library → Option Cors → Paths → Request → Response × Option Page
mesh_root lib cors ps r =
    if str_eq r.path "/"
    then serve_http lib cors ps (record r { path = "/mesh" })
    else serve_http lib cors ps r

-- What `handleHealth` tells.
pub record HealthReply : Type 0 where
  pub code : ℕ
  pub status : String
  pub healthy_backends : ℕ
  pub total_backends : ℕ

unfoldable pub handle_health : List BackendState → HealthReply
handle_health bs = record {
  code = if ltb 0 (healthy_count bs) then 200 else 503;
  status = if ltb 0 (healthy_count bs) then "ok" else "degraded";
  healthy_backends = healthy_count bs;
  total_backends = length bs;
}
