-- ===== src/Peer/Report.antt =====
-- internal/peer/registry.go: what the node tells of itself, `StatusResponse` and `backendInfo`.
-- The readings of the cards and of the host's memory are arguments, as in the source.
pub mod Exchange
use viiwork_freetoken.Prelude.{
  ◌<◌, Bool, List, [], ◌∷◌, ◌++◌, Option, none, some, ℤ, pos, ◌+ℤ◌, ltb, length, if◌then◌else◌,
}
use viiwork_freetoken.Balancer.State.{BackendState, StatusWords, status_string, gpu_id}
use viiwork_freetoken.Balancer.Pick.{is_healthy}
use viiwork_freetoken.Peer.State.{BackendInfo, GpuInfo, StatusResponse, zero_ratio}
use viiwork_freetoken.Peer.Registry.{Registry, PowerReading, EnergyReading}

unfoldable pub backend_info : StatusWords → Registry → BackendState → BackendInfo
backend_info words r b = record {
  gpu_id = gpu_id b;
  gpu_ids = if ltb 1 (length b.gpu_ids) then b.gpu_ids else [];
  model = r.local_model;
  status = status_string words b.status;
  in_flight = b.in_flight;
  rss_mb = b.rss_mb;
  slot_ctx = b.max_model_len;
  slot_count = b.max_num_seqs;
  slot_active = b.num_running;
  tok_decoded = pos 0;
  tok_remain = pos 0;
}

-- The loop over the backends.
report_step : StatusWords → Registry → StatusResponse → BackendState → StatusResponse
report_step words r resp b = record resp {
  backends = resp.backends ++ backend_info words r b ∷ [];
  total_in_flight = resp.total_in_flight +ℤ b.in_flight;
  healthy_backends =
      if is_healthy b.status then resp.healthy_backends +ℤ pos 1 else resp.healthy_backends;
}

report_backends : StatusWords → Registry → StatusResponse → List BackendState → StatusResponse
report_backends words r resp [] = resp
report_backends words r resp (b ∷ bs) = report_backends words r (report_step words r resp b) bs

report_power : Option PowerReading → StatusResponse → StatusResponse
report_power none resp = resp
report_power (some p) resp = record resp {
  power_watts = p.watts;
  power_available = p.available;
  power_source = p.source;
}

report_energy : Option EnergyReading → StatusResponse → StatusResponse
report_energy none resp = resp
report_energy (some e) resp = record resp { energy_kwh_24h = e.kwh_24h; energy_kwh_30d = e.kwh_30d }

blank_response : List GpuInfo → ℤ → ℤ → Registry → StatusResponse
blank_response gpus host_mem_total host_mem_used r = record {
  node_id = r.node_id;
  hostname = r.hostname;
  listen_addr = r.listen_addr;
  models = r.local_model ∷ [];
  backends = [];
  gpus = gpus;
  total_in_flight = pos 0;
  healthy_backends = pos 0;
  total_backends = pos (length r.backends);
  power_watts = zero_ratio;
  power_available = Bool.false;
  power_source = "";
  host_mem_total_mb = host_mem_total;
  host_mem_used_mb = host_mem_used;
  energy_kwh_24h = zero_ratio;
  energy_kwh_30d = zero_ratio;
  prompt_history = r.prompt_history;
}

unfoldable pub status_response : StatusWords → List GpuInfo → ℤ → ℤ → Registry → StatusResponse
unfolding report_energy report_power report_backends report_step blank_response
status_response words gpus host_mem_total host_mem_used r = report_energy r.energy (
    report_power r.power
      (report_backends words r (blank_response gpus host_mem_total host_mem_used r) r.backends))
