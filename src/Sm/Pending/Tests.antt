-- ===== src/Sm/Pending/Tests.antt =====
-- A connect request that has been lost.
use mathlib.Core.List.{Memᴰ}
use sc_code.Common.{ℕ, ◌*◌, ◌≡◌, refl, false, some, [], ◌∷◌, ok, arith}
use sc_code.Sm.{SessionState, SessionEndpoint, SmSession, Role, Rpc}
use sc_code.Sm.Init.{new_session}
use sc_code.Sm.Pending.{scan_pending}
use sc_code.Sm.Pending.Resend.{request_at, scan_pending_resends}

abbrev endpoint : ℕ → ℕ → ℕ → SessionEndpoint
endpoint host id num = record {
  transport_type = 2;
  hostname = 104 ∷ host ∷ [];
  sm_udp_port = 31850;
  rpc_id = id;
  session_num = num;
  routing_info = host;
}

abbrev connecting : SmSession
connecting = record (new_session Role.client 1234) {
  state = SessionState.connect_in_progress;
  client = endpoint 1 4 0;
  server = endpoint 2 9 65535;
  local_session_num = 0;
  sm_req_ts = 20;
}

abbrev client_rpc : Rpc
client_rpc = record {
  rpc_id = 4;
  transport_type = 2;
  local_rinfo = 11;
  hostname = 104 ∷ 1 ∷ [];
  sm_udp_port = 31850;
  session_vec = some connecting ∷ [];
  ring_entries_available = 32736;
  conn_req_token_map = [];
  sm_pending_reqs = 0 ∷ [];
  sent = [];
  events = [];
  retry = false;
  fail_resolve_rinfo = false;
  tsc = 50;
  stallq = [];
  active_rpcs = [];
  conts = [];
}

abbrev to_msec : ℕ → ℕ
to_msec ticks = ticks * 5

scan_pending_resends_example :
    (c' : Rpc) × (scan_pending to_msec client_rpc ≡ ok c') × Memᴰ (request_at 50 connecting) c'.sent
scan_pending_resends_example =
    scan_pending_resends to_msec client_rpc 0 connecting
      (record { session = some connecting; there = refl; own = refl }, tt) (Memᴰ.head refl) refl
      refl refl (omega arith)
