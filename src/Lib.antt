-- ===== src/Lib.antt =====
-- A node of the viiwork mesh that runs FreeToken: one process per GPU, supervised, balanced, and
-- offered to the other nodes.
--
-- The parts and how they meet. A configuration (internal/config) yields the backends. The manager
-- (internal/freetoken) starts a process for each, probes it, and keeps its routable state
-- (internal/balancer) up to date; the balancer picks among these states. The registry
-- (internal/peer) polls the other nodes and offers, for a model, the routes to own backends and to
-- peers; the choice among the routes is PickRoute. The request path counts the requests in flight
-- on the states, records latencies and reports broken connections.
--
--   Prelude: lists, tests, and integers over the native natural numbers.
--   Balancer.State: state.go, the record BackendState with one function per method.
--   Balancer.Pick: balancer.go, `pick` for Balancer.Pick with its two loops as folds.
--   Config: config.go, the types, `backends`, `validate` for Config.Validate; Config.Defaults:
--     defaults.go; Config.Override: `apply_overrides` and `set`; Config.Boot: Load and the head of
--     cmd/viiwork-freetoken/main.go.
--   Freetoken.Health: metrics.go, the documents of the engine.
--   Freetoken.Backend: backend.go, `start`, `stop`, `probe` for the methods of Backend, with the reads
--     of a probe in Freetoken.Backend.Wire.
--   Freetoken.Manager: manager.go, `check_one` for checkOne, `respawn`, `tick_one` for what a tick
--     does to one backend; the same check in turns in Freetoken.Manager.Turns.
--   Freetoken.Prefix: prefix.go, `write`.
--   Peer.State: peer.go, the record PeerState.
--   Peer.Route: route.go, `pick_route` with the two package counters as a state.
--   Peer.Registry: registry.go, `resolve`, `gpu_models`, `poll_once`.
--   Peer.Report: registry.go, `status_response` and `backend_info`.
--   Peer.Cluster: registry.go, `all_models` and `cluster_state`.
--   Activity.Log: activity.go, the ring with a heap of channels, `emit` split at its lock into
--     `log_event` and `send_all`.
--   Activity.Prompts: prompts.go, `store`, `store_output`, `get`.
--   Freetoken.Stats: `ParseStats` of metrics.go, with the occupancies of the pools.
--   Gpu.History: history.go of internal/gpu, `add` and `latest`.
--   Gpu.Readings: parse.go, identity.go and collector.go, `parse_csv` over the bytes of the output.
--   Gpu.Broadcaster: broadcaster.go of internal/gpu, `publish`, and the rounds of collector.go.
--   Gpu.Watts: power.go of internal/power, `watts` and `readings`.
--   Proxy.Dispatch: handler.go and streaming.go of internal/proxy, `route_request` for the first half
--     of handleProxy, `begin_request` and `finish_request` for proxyRequest.
--   Proxy.Request: the second half of handleProxy, `open_request` and `close_request`.
--   Proxy.Headers: the headers passed on, of streaming.go and peerproxy.go.
--   Proxy.PromptPages: prompts.go, `handle_mesh_prompt`.
--   Proxy.Cors: cors.go, `allows` and `apply`.
--   Proxy.Stream: sse.go and the reader of meshactivity.go, over bytes.
--   Proxy.Capture: capture.go, `write` and `output`.
--   Proxy.PromptText: `extractPromptText` and `contentText` of capture.go.
--   Proxy.Relay: `streamBody`, `isClientAbort`, `isHardFailure` and the replies of streaming.go and
--     peerproxy.go.
--   Proxy.Serve: `ServeHTTP` and `handleHealth` of handler.go, `meshRoot` of meshport.go.
--   Proxy.MeshStream: `handleMeshStream`, `handleActivityStream` and `streamPeerOnce` of
--     meshactivity.go, with `clusterState` of status.go.
--   Proxy.HostMemory: coarsenHostMem of meshactivity.go, and readHostMemory of status.go.
--   Proxy.Metrics: `handleMetrics` of status.go, `handleMetricsStream` of meshactivity.go and the
--     preamble of sse.go.
--   Proxy.MeshPort: the loop of `ServeMeshPort` of meshport.go, for the nodes of one host.
--   Command: main.go of cmd/viiwork-freetoken, from the settings to the parts of a node.
--   Examples: the theorems at concrete states, and tests.
--
-- Loops are recursion on the list that they run over, so no fuel is needed. Go's int and int64 are
-- integers without a bound, except for the two round-robin counters, which wrap at 2 ^ 64, and for the
-- texts that are read as numbers and the size that is made of one. Instants
-- are nanoseconds of a clock that does not run backwards. A method that takes a lock is one step;
-- where several goroutines act on one backend, a check is cut into the turns between which it holds no
-- lock (Freetoken.Manager.Turns), and the life of the backend (Freetoken.Manager.Life) is a sequence of
-- turns and of the stores of the others, in any order.
--
-- Not modelled: decoding of YAML and JSON (a document is taken as decoded), HTTP and the operating
-- system (their answers are arguments), the JSON of the pages of internal/proxy, the running of
-- nvidia-smi in internal/gpu, and the listeners and signals of cmd.
pub mod Prelude
pub mod Activity
pub mod Balancer
pub mod Command
pub mod Config
pub mod Freetoken
pub mod Gpu
pub mod Peer
pub mod Proxy
mod Examples
