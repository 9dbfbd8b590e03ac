-- ===== src/Examples/Client.antt =====
-- Requests of a client (internal/proxy): where they go, and what comes back of a response that ends well,
-- that is broken off, and that the client leaves.
use viiwork_freetoken.Prelude.{
  ◌≡◌, ◌≢◌, ◌↔◌, ◌⊎◌, refl, true, false, [], none, some, pos, codes, if◌then◌else◌,
}
use viiwork_freetoken.Balancer.State.{new_backend_state}
use viiwork_freetoken.Proxy.Dispatch.{finish_request}
use viiwork_freetoken.Proxy.Serve.{
  Paths, inference, dashboard, mesh, not_allowed, not_found, Request, is_inference, serve_http,
  mesh_root, middleware, page,
}
use viiwork_freetoken.Proxy.Serve.Reached.{serve_http-inference}
use viiwork_freetoken.Proxy.Relay.{
  NetError, is_client_abort, is_hard_failure, Body, more, ends, stream_body, errs, answers,
  upstream_of,
}
use viiwork_freetoken.Proxy.Relay.Delivery.{
  completed, IsDelivered, finish_request-upstream_of, completed-stream_body,
}
use viiwork_freetoken.Examples.Mesh.{card}
use viiwork_freetoken.Examples.Pages.{library}

abbrev paths : Paths
paths = record {
  health = "/health";
  models = "/v1/models";
  status = "/v1/status";
  cluster = "/v1/cluster";
  chat_completions = "/v1/chat/completions";
  completions = "/v1/completions";
  embeddings = "/v1/embeddings";
  activity = "/v1/activity";
  activity_stream = "/v1/activity/stream";
  mesh_stream = "/v1/mesh/stream";
  prompts = "/v1/prompts";
  mesh_prompt = "/v1/mesh/prompt";
}

abbrev root : Request
root = record { path = "/"; method = "GET"; origin = ""; request_method = ""; request_headers = "" }

abbrev chat : Request
chat = record root { path = "/v1/chat/completions"; method = "POST" }

serve_http-inference_example :
    (((serve_http library none paths chat).1 ≡ some inference)
      ↔ ((chat.method ≡ "POST") × (is_inference paths chat.path ≡ true)))
    × (chat.method ≢ "GET"
        → chat.method ≢ "POST"
        → ((serve_http library none paths chat).1 ≡ none)
          ⊎ ((serve_http library none paths chat).1
              ≡ some (if is_inference paths chat.path then not_allowed else not_found)))
serve_http-inference_example = serve_http-inference library none paths chat

mesh_port : (mesh_root library none paths root).1 ≡ some mesh
unfolding mesh_root serve_http middleware page
mesh_port = refl

own_port : (serve_http library none paths root).1 ≡ some dashboard
unfolding serve_http middleware page
own_port = refl

-- The connection to the engine is lost.
abbrev reset : NetError
reset = record {
  is_eof = false;
  is_unexpected_eof = true;
  is_refused = false;
  is_op_error = false;
  is_handler_timeout = false;
  text = codes "unexpected EOF";
}

-- Two chunks arrive, then the engine is gone.
abbrev broken : Body
broken = more (codes "to") true (ends (codes "k") true false reset)

completed-stream_body_example :
    (stream_body broken ≡ stream_body (completed broken))
    × (finish_request 200 50 (upstream_of (answers (pos 200) [] broken)) (card (pos 0) (pos 1))
        ≡ finish_request 200 50
            (upstream_of (answers (pos 200) [] (completed broken)))
            (card (pos 0) (pos 1)))
unfolding is_client_abort
completed-stream_body_example =
    completed-stream_body 200 50 (pos 200) [] broken (card (pos 0) (pos 1)) refl

finish_request-upstream_of_example :
    let s = finish_request 200 50 (upstream_of (errs false reset)) (card (pos 0) (pos 1)) in
    (s.hard_failure ≡ true)
    × (s.samples ≢ (card (pos 0) (pos 1)).samples → IsDelivered (errs false reset))
unfolding is_client_abort is_hard_failure new_backend_state
finish_request-upstream_of_example =
    finish_request-upstream_of 200 50 (errs false reset) (card (pos 0) (pos 1))

-- The client leaves at the second chunk.
left :
    stream_body (more (codes "to") true (more (codes "k") false (ends [] true true reset)))
    ≡ (codes "to", true)
unfolding stream_body
left = refl
