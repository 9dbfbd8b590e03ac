-- ===== src/Proxy/Headers.antt =====
-- internal/proxy/streaming.go and peerproxy.go: the headers that are passed on with a request and with
-- its response. A header is a name with one value; `http.CanonicalHeaderKey` is an argument.
pub mod Forwarded
use text.Mathlib.Text.{starts_with}
use viiwork_freetoken.Prelude.{
  Bool, true, false, not, ◌&&◌, ◌||◌, List, [], ◌∷◌, ◌++◌, String, str_eq, if◌then◌else◌,
}

abbrev pub Header : Type 0
Header = String × String

abbrev pub Canonical : Type 0
Canonical = String → String

abbrev pub origin_header : String
origin_header = "X-Viiwork-Origin"

unfoldable pub hop_by_hop : String → Bool
hop_by_hop name =
    str_eq name "Connection"
    || str_eq name "Keep-Alive"
    || str_eq name "Proxy-Authenticate"
    || str_eq name "Proxy-Authorization"
    || str_eq name "Te"
    || str_eq name "Trailer"
    || str_eq name "Transfer-Encoding"
    || str_eq name "Upgrade"

-- `Header.Get` at a canonical name: the first value, empty where there is none.
unfoldable pub get_header : String → List Header → String
get_header name [] = ""
get_header name ((k, v) ∷ hs) = let rest = get_header name hs in if str_eq k name then v else rest

pub delete_header : String → List Header → List Header
delete_header name [] = []
delete_header name ((k, v) ∷ hs) =
    let rest = delete_header name hs in if str_eq k name then rest else (k, v) ∷ rest

-- `Header.Set`.
unfoldable pub set_header : String → String → List Header → List Header
unfolding delete_header
set_header name v hs = (name, v) ∷ delete_header name hs

pub end_to_end : Canonical → List Header → List Header
end_to_end canonical [] = []
end_to_end canonical ((k, v) ∷ hs) =
    let rest = end_to_end canonical hs in
    if hop_by_hop (canonical k) then rest else (canonical k, v) ∷ rest

-- The headers of the upstream request, which begins with none.
unfoldable pub copy_request_headers : Canonical → List Header → List Header
unfolding end_to_end
copy_request_headers canonical src =
    let dst = end_to_end canonical src in
    if str_eq (get_header "Content-Type" dst) ""
    then set_header "Content-Type" "application/json" dst
    else dst

abbrev pub is_cors : String → Bool
is_cors name = starts_with name "Access-Control-"

-- What is added to the headers that the response has already.
pub passed_on : Canonical → List Header → List Header
passed_on canonical [] = []
passed_on canonical ((k, v) ∷ hs) =
    let rest = passed_on canonical hs in
    if hop_by_hop (canonical k) || is_cors (canonical k) then rest else (canonical k, v) ∷ rest

unfoldable pub copy_response_headers : Canonical → List Header → List Header → List Header
unfolding passed_on
copy_response_headers canonical upstream w = w ++ passed_on canonical upstream

-- The headers of the request that `proxyToPeer` makes.
unfoldable pub peer_request_headers : Canonical → String → List Header → List Header
peer_request_headers canonical node_id src =
    set_header origin_header node_id (copy_request_headers canonical src)

-- The headers of the response that `proxyToPeer` makes of the peer's.
unfoldable pub peer_response_headers : Canonical → String → List Header → List Header → List Header
peer_response_headers canonical label upstream w =
    let hs = copy_response_headers canonical upstream w in
    if str_eq (get_header "X-Gpu-Backend" upstream) ""
    then set_header "X-Gpu-Backend" label hs
    else hs
