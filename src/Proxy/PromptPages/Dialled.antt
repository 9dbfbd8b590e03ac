-- ===== src/Proxy/PromptPages/Dialled.antt =====
-- Which addresses the prompt lookup of internal/proxy/prompts.go dials.
use viiwork_freetoken.Prelude.{◌≡◌, List, ◌∷◌, map, some, String, Memᴰ}
use viiwork_freetoken.Peer.State.{PeerState}
use viiwork_freetoken.Peer.Registry.{Registry}
use viiwork_freetoken.Proxy.PromptPages.{Url, Redirects}

abbrev pub addresses : Registry → List String
addresses r = map (λ p. PeerState.addr p) r.peers

-- No configured peer redirects to an address that is not one of a configured peer.
abbrev pub IsConfined : Redirects → Registry → Type 0
IsConfined redirects r =
    (u v : Url) → Memᴰ u.host (addresses r) → redirects u ≡ some v → Memᴰ v.host (addresses r)

-- The first of the addresses that are dialled, if there are any.
abbrev pub BeginsAt : String → List String → Type 0
BeginsAt addr out = (later : List String) × (out ≡ addr ∷ later)
