-- ===== src/Examples/Dashboard.antt =====
-- A dashboard that watches a node of the mesh (internal/proxy/meshactivity.go).
use viiwork_freetoken.Prelude.{
  ◌≡◌, refl, subst, some-injective, All, Bool, true, List, [], ◌∷◌, ◌++◌, map, Option, none, some,
  ℤ, pos, pos_part, ◌-ℤ◌, Bytes, codes, same_bytes, if◌then◌else◌,
}
use viiwork_freetoken.Activity.Log.{Event, Log, node_event, new_log, log_event, backlog, replayed}
use viiwork_freetoken.Proxy.HostMemory.{coarsen_host_mem}
use viiwork_freetoken.Proxy.Stream.Delivered.{IsLine}
use viiwork_freetoken.Proxy.Stream.{is_line_end, stream_bytes, read_lines, received}
use viiwork_freetoken.Proxy.MeshStream.{
  MeshEvent, Snapshot, Encoder, activity, cluster, idle, Input, arrives, ticks, beats, Viewer,
  own_event, snapshot, backlog_inputs, serve, step, send_event, push_snapshot, handle_mesh_stream,
  handle_activity_stream, follow, peer_event,
}
use viiwork_freetoken.Proxy.MeshStream.Pushed.{
  activities, clusters, arrived, snapshots, changes, newest, handle_mesh_stream-pushes,
}
use viiwork_freetoken.Proxy.MeshStream.Followed.{IsCoded, encodable, follow-handle_activity_stream}
use viiwork_freetoken.Examples.Mesh.{node, neighbour, words}

abbrev past : Event
past = node_event (pos 1) "backend" (pos 0) "healthy"

abbrev present : Event
present = node_event (pos 2) "backend" (pos 0) "unhealthy"

abbrev one_event : Log
unfolding new_log log_event
one_event = log_event past (new_log (pos 2))

-- An event is its message, a snapshot the one number of its memory.
abbrev encoder : Encoder
encoder = record {
  encode_event = λ e. some (codes e.event.message);
  encode_snapshot = λ s. some (pos_part s.host_mem_used_mb ∷ []);
}

abbrev with_memory : ℤ → Snapshot
with_memory used = snapshot words "dev" node none (pos 6400) used

-- The memory moves by less than a step of 100, then by more.
abbrev inputs : List Input
inputs =
    ticks (with_memory (pos 1090)) true
    ∷ beats true
    ∷ arrives (own_event node present) true
    ∷ ticks (with_memory (pos 1250)) true
    ∷ []

abbrev all_taken : Event → Bool
all_taken _ = true

abbrev dashboard : Viewer
dashboard = handle_mesh_stream encoder node one_event all_taken (with_memory (pos 1010)) true inputs

stays : dashboard.present ≡ true
unfolding handle_mesh_stream backlog serve step send_event push_snapshot coarsen_host_mem snapshot
    one_event ◌-ℤ◌
stays = refl

handle_mesh_stream-pushes_example :
    (activities dashboard.out
      ≡ arrived encoder (backlog_inputs node all_taken (backlog one_event))
        ++ arrived encoder inputs)
    × (clusters dashboard.out
        ≡ changes [] (snapshots encoder (pos 0) (ticks (with_memory (pos 1010)) true ∷ inputs)))
    × (newest [] (clusters dashboard.out)
        ≡ newest [] (snapshots encoder (pos 0) (ticks (with_memory (pos 1010)) true ∷ inputs)))
handle_mesh_stream-pushes_example =
    handle_mesh_stream-pushes encoder node one_event all_taken (with_memory (pos 1010)) true inputs
      stays

seen :
    dashboard.out
    ≡ activity (codes "healthy")
      ∷ cluster (1000 ∷ [])
      ∷ idle
      ∷ activity (codes "unhealthy")
      ∷ cluster (1200 ∷ [])
      ∷ []
unfolding handle_mesh_stream backlog serve step send_event push_snapshot coarsen_host_mem snapshot
    one_event ◌-ℤ◌
seen = refl

-- The events of a peer, replayed ones as "old".
abbrev encode : Event → Option Bytes
encode e = if e.replay then some (codes "old") else some (codes "new")

abbrev decode : Bytes → Option Event
decode p =
    if same_bytes p (codes "old")
    then some (replayed past)
    else if same_bytes p (codes "new")
    then some present
    else none

abbrev live : List (Option Event)
live = none ∷ some present ∷ []

coded : All (IsCoded encode decode) (map some (backlog one_event) ++ live)
unfolding backlog log_event new_log is_line_end
coded = (
  λ p h.
      subst (λ q. (decode q ≡ some (replayed past)) × IsLine q) (some-injective _ _ h)
        (refl, (refl, (refl, (refl, tt)))),
  (
    tt,
    (
      λ p h.
          subst (λ q. (decode q ≡ some present) × IsLine q) (some-injective _ _ h)
            (refl, (refl, (refl, (refl, tt)))),
      tt,
    ),
  ),
)

follow-handle_activity_stream_example :
    let all =
      map (peer_event neighbour) (encodable encode decode (map some (backlog one_event) ++ live)) in
    (follow decode neighbour
        (received (read_lines (stream_bytes (handle_activity_stream encode one_event live))).0)
      ≡ all)
    × ((lost : List MeshEvent) × (all
          ≡ follow decode neighbour (received (read_lines []).0) ++ lost))
follow-handle_activity_stream_example =
    follow-handle_activity_stream encode decode neighbour one_event live []
      (stream_bytes (handle_activity_stream encode one_event live)) coded refl
