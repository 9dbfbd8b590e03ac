-- ===== src/Proxy/MeshStream.antt =====
-- internal/proxy/meshactivity.go and status.go: the one connection of a dashboard, `handleMeshStream`,
-- and the following of a peer's feed, `streamPeerOnce`.
-- JSON encoding and decoding are arguments. The loop takes one input after another, in the order in
-- which `select` picks them; each says whether the client still takes what is written.
pub mod Pushed
pub mod Followed
use viiwork_freetoken.Prelude.{
  Bool, true, false, List, [], ◌∷◌, ◌++◌, map, Option, none, some, String, ℤ, pos, if◌then◌else◌,
  Bytes, same_bytes, str_eq,
}
use viiwork_freetoken.Activity.Log.{Event, Log, backlog}
use viiwork_freetoken.Balancer.State.{StatusWords}
use viiwork_freetoken.Gpu.History.{GpuSample, History, latest}
use viiwork_freetoken.Peer.State.{GpuInfo, PeerState}
use viiwork_freetoken.Peer.Cluster.{ClusterResponse, cluster_state, host_of}
use viiwork_freetoken.Peer.Registry.{Registry}
use viiwork_freetoken.Proxy.HostMemory.{coarsen_host_mem}
use viiwork_freetoken.Proxy.Stream.{Frame, sent, keepalive}

-- `meshapi.MeshEvent`.
pub record MeshEvent : Type 0 where
  pub event : Event
  pub node_id : String
  pub hostname : String
  pub addr : String

abbrev gpu_info_of : GpuSample → GpuInfo
gpu_info_of s = record {
  gpu_id = s.gpu_id;
  util = s.utilization;
  vram_used_mb = s.vram_used_mb;
  vram_total_mb = s.vram_total_mb;
}

-- A nil history is `none`.
unfoldable pub gpu_info : Option History → List GpuInfo
gpu_info none = []
gpu_info (some h) = map gpu_info_of (latest h)

-- The cluster state with what the registry has no access to.
pub record Snapshot : Type 0 where
  pub cluster : ClusterResponse
  pub gpus : List GpuInfo
  pub host_mem_total_mb : ℤ
  pub host_mem_used_mb : ℤ

unfoldable pub snapshot : StatusWords → String → Registry → Option History → ℤ → ℤ → Snapshot
snapshot words version r history total used = record {
  cluster = record (cluster_state words r) { version = version };
  gpus = gpu_info history;
  host_mem_total_mb = total;
  host_mem_used_mb = used;
}

pub record Encoder : Type 0 where
  pub encode_event : MeshEvent → Option Bytes
  pub encode_snapshot : Snapshot → Option Bytes

-- What is sent, with its payload.
pub data Push : Type 0 where
  activity : Bytes → Push
  cluster : Bytes → Push
  idle : Push

-- `out` is what the client has got; the handler returns once `present` is false.
pub record Viewer : Type 0 where
  pub last_snapshot : Bytes
  pub last_mem : ℤ
  pub out : List Push
  pub present : Bool

-- One write: what is sent, unless the client is gone.
abbrev pub write : Bool → Push → Viewer → Viewer
write takes p v = if takes then record v { out = v.out ++ p ∷ [] } else record v { present = false }

-- A payload that cannot be encoded is not sent, and the stream goes on.
unfoldable pub send_event : Bool → Option Bytes → Viewer → Viewer
send_event takes none v = v
send_event takes (some p) v = write takes (activity p) v

-- `pushSnapshot` after the host memory is coarsened and the state encoded.
push_encoded : Bool → Option Bytes → Viewer → Viewer
push_encoded takes none v = v
push_encoded takes (some e) v =
    if same_bytes e v.last_snapshot
    then v
    else write takes (cluster e) (record v { last_snapshot = e })

unfoldable pub push_snapshot : Encoder → Bool → Snapshot → Viewer → Viewer
unfolding push_encoded
push_snapshot enc takes s v =
    let mem = coarsen_host_mem v.last_mem s.host_mem_total_mb s.host_mem_used_mb in
    push_encoded takes (enc.encode_snapshot (record s { host_mem_used_mb = mem }))
      (record v { last_mem = mem })

pub data Input : Type 0 where
  arrives : MeshEvent → Bool → Input
  ticks : Snapshot → Bool → Input
  beats : Bool → Input
  leaves : Input

unfoldable pub step : Encoder → Input → Viewer → Viewer
step enc (arrives e takes) v = send_event takes (enc.encode_event e) v
step enc (ticks s takes) v = push_snapshot enc takes s v
step enc (beats takes) v = write takes idle v
step enc leaves v = record v { present = false }

-- The loop.
unfoldable pub serve : Encoder → List Input → Viewer → Viewer
serve enc [] v = v
serve enc (i ∷ is) v = if v.present then serve enc is (step enc i v) else v

abbrev pub new_viewer : Viewer
new_viewer = record { last_snapshot = []; last_mem = pos 0; out = []; present = true }

-- The node's own events carry its identity.
abbrev pub own_event : Registry → Event → MeshEvent
own_event r e = record { event = e; node_id = r.node_id; hostname = r.hostname; addr = "" }

-- The backlog, the first snapshot and the loop; `takes` tells of each event of the backlog whether it
-- is written.
pub backlog_inputs : Registry → (Event → Bool) → List Event → List Input
backlog_inputs r takes [] = []
backlog_inputs r takes (e ∷ es) = arrives (own_event r e) (takes e) ∷ backlog_inputs r takes es

unfoldable pub handle_mesh_stream :
    Encoder → Registry → Log → (Event → Bool) → Snapshot → Bool → List Input → Viewer
unfolding backlog_inputs
handle_mesh_stream enc r log takes first taken inputs =
    serve enc (backlog_inputs r takes (backlog log) ++ ticks first taken ∷ inputs) new_viewer

-- An event of a peer carries the identity that the peer has at the time.
unfoldable pub peer_event : PeerState → Event → MeshEvent
peer_event p e = record { event = e; node_id = p.node_id; hostname = host_of p; addr = p.addr }

-- The loop of `streamPeerOnce` over the payloads that it reads; one that does not decode is skipped.
unfoldable pub follow : (Bytes → Option Event) → PeerState → List Bytes → List MeshEvent
follow decode p [] = []
follow decode p (payload ∷ payloads) =
    let rest = follow decode p payloads in
    elim (decode payload) [ none ↦ rest | some e ↦ peer_event p e ∷ rest ]

-- `handleActivityStream` of a client that stays: the backlog, then the events of the subscription with
-- keepalives (`none`) between them.
pub activity_frame : (Event → Option Bytes) → Option Event → Frame
activity_frame encode none = keepalive
activity_frame encode (some e) = sent [] (encode e)

unfoldable pub handle_activity_stream :
    (Event → Option Bytes) → Log → List (Option Event) → List Frame
unfolding activity_frame
handle_activity_stream encode log live =
    map (activity_frame encode) (map some (backlog log) ++ live)
