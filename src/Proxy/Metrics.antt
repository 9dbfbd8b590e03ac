-- ===== src/Proxy/Metrics.antt =====
-- internal/proxy: `handleMetrics` of status.go, `handleMetricsStream` of meshactivity.go and the
-- preamble of sse.go. JSON encoding is an argument. A nil pointer or function is `none`.
pub mod Shown
use viiwork_freetoken.Prelude.{
  ℕ, Bool, true, false, ◌&&◌, List, [], ◌∷◌, map, Option, none, some, ℤ, pos, Bytes, if◌then◌else◌,
}
use viiwork_freetoken.Gpu.History.{GpuSample, History}
use viiwork_freetoken.Gpu.Broadcaster.{Broadcaster, subscribe}
use viiwork_freetoken.Proxy.Headers.{Header, set_header}
use viiwork_freetoken.Proxy.Stream.{Frame, sent, keepalive}

abbrev pub Series : Type 0
Series = ℤ → Option (List GpuSample)

-- `Series` of the history; `none` is the answer that there are no metrics.
unfoldable pub handle_metrics : Option History → Option Bool → Option Series
handle_metrics none available = none
handle_metrics (some h) none = none
handle_metrics (some h) (some available) = if available then some h.series else none

unfoldable pub event_stream_headers : List Header → List Header
event_stream_headers w = set_header "X-Accel-Buffering" "no" (
    set_header "Connection" "keep-alive"
      (set_header "Cache-Control" "no-cache" (set_header "Content-Type" "text/event-stream" w)))

pub data Opened : Type 0 where
  not_found unsupported : Opened
  streams : ℕ → Broadcaster → Opened

-- The handler up to its loop: the channel of the stream, and the broadcaster with it. `flushes` says
-- whether the writer can flush.
unfoldable pub open_metrics_stream : Option Broadcaster → Bool → Opened
open_metrics_stream none flushes = not_found
open_metrics_stream (some b) flushes =
    if flushes then (let (c, i) = subscribe b in streams i c) else unsupported

abbrev samples_frame : (List GpuSample → Option Bytes) → Option (List GpuSample) → Frame
samples_frame encode none = keepalive
samples_frame encode (some s) = sent [] (encode s)

-- The loop for a client that stays: what it takes off the channel, with keepalives (`none`) between.
unfoldable pub metrics_frames :
    (List GpuSample → Option Bytes) → List (Option (List GpuSample)) → List Frame
metrics_frames encode live = map (samples_frame encode) live
