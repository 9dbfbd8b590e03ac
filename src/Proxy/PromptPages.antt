-- ===== src/Proxy/PromptPages.antt =====
-- internal/proxy/prompts.go: the lookup of a prompt here or at the node that took the request.
-- Of what a peer answers only its redirects are kept, which `net/http` follows: `peerClient` sets no
-- `CheckRedirect`, so that a request goes on to the tenth address. Whether an address answers with a
-- redirect, and to what, is an argument.
pub mod Dialled
use viiwork_freetoken.Prelude.{
  ℕ, zero, suc, Bool, true, false, ◌||◌, List, [], ◌∷◌, Option, none, some, String, str_eq, ℤ,
  if◌then◌else◌, codes, atoi,
}
use viiwork_freetoken.Peer.Registry.{Registry, PollResult, is_known_addr, poll_once}
use viiwork_freetoken.Activity.Prompts.{PromptEntry, PromptStore, get}

pub data Reply : Type 0 where
  bad_request not_found forbidden : Reply
  entry : PromptEntry → Reply
  dials : String → ℤ → Reply

found : Option PromptEntry → Reply
found none = not_found
found (some e) = entry e

looked_up : Option ℤ → Option PromptStore → Reply
unfolding found
looked_up none prompts = not_found
looked_up (some rid) none = not_found
looked_up (some rid) (some p) = found (get rid p)

-- `rid` is the parameter of the query, empty where it is absent.
unfoldable pub handle_prompt_lookup : Option PromptStore → String → Reply
unfolding looked_up
handle_prompt_lookup prompts rid = looked_up (atoi (codes rid)) prompts

pub forward_to : Registry → Option PromptStore → Option ℤ → String → String → Reply
forward_to r prompts none rid addr = bad_request
forward_to r prompts (some n) rid addr =
    if str_eq addr "" || str_eq addr r.listen_addr
    then handle_prompt_lookup prompts rid
    else if is_known_addr r addr
    then dials addr n
    else forbidden

unfoldable pub handle_mesh_prompt : Registry → Option PromptStore → String → String → Reply
unfolding forward_to
handle_mesh_prompt r prompts rid addr = forward_to r prompts (atoi (codes rid)) rid addr

-- What is asked for, and where.
pub record Url : Type 0 where
  pub host : String
  pub path : String

abbrev pub Redirects : Type 0
Redirects = Url → Option Url

abbrev pub max_requests : ℕ
max_requests = 10

-- The addresses that `peerClient.Do` dials, from the first on, at most `n`.
pub visited : ℕ → Redirects → Url → List String
visited zero redirects u = []
visited (suc n) redirects u =
    u.host ∷ elim (redirects u) [ none ↦ [] | some v ↦ visited n redirects v ]

-- The addresses that a reply makes the node dial; `path` is the path and the query for a request id.
unfoldable pub dialled : (ℤ → String) → Redirects → Reply → List String
unfolding visited
dialled path redirects (dials addr n) =
    visited max_requests redirects (record { host = addr; path = path n })
dialled path redirects _ = []

-- One round of polls after another.
unfoldable pub poll_rounds : List (List PollResult) → Registry → Registry
poll_rounds [] r = r
poll_rounds (results ∷ rounds) r = poll_rounds rounds (poll_once results r)
