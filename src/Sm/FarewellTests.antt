-- ===== src/Sm/FarewellTests.antt =====
-- Two Rpcs with one session, which the client ends.
use sc_code.Common.{ℕ, ◌≡◌, inr, refl, true, false, some, none, [], ◌∷◌, get_elem?, ok, arith}
use sc_code.Sm.{
  pos, SessionState, SessionEndpoint, SmPkt, SmErrType, SmEventType, SmSession, Role, Rpc,
}
use sc_code.Sm.Init.{new_session, init_loop}
use sc_code.Sm.Api.{destroy_session}
use sc_code.Sm.Disconnect.{handle_disconnect_req, handle_disconnect_resp}
use sc_code.Sm.Farewell.{Joined, disconnect_ends}

abbrev endpoint : ℕ → ℕ → ℕ → SessionEndpoint
endpoint host id num = record {
  transport_type = 2;
  hostname = 104 ∷ host ∷ [];
  sm_udp_port = 31850;
  rpc_id = id;
  session_num = num;
  routing_info = host;
}

abbrev end_of : Role → ℕ → ℕ → SmSession
end_of role own other = record (new_session role 1234) {
  state = SessionState.connected;
  client = endpoint 1 4 0;
  server = endpoint 2 9 1;
  local_session_num = own;
  remote_session_num = other;
}

abbrev client_end : SmSession
client_end = end_of Role.client 0 1

abbrev server_end : SmSession
server_end = end_of Role.server 1 0

abbrev client_rpc : Rpc
client_rpc = record {
  rpc_id = 4;
  transport_type = 2;
  local_rinfo = 11;
  hostname = 104 ∷ 1 ∷ [];
  sm_udp_port = 31850;
  session_vec = some client_end ∷ [];
  ring_entries_available = 32736;
  conn_req_token_map = [];
  sm_pending_reqs = [];
  sent = [];
  events = [];
  retry = false;
  fail_resolve_rinfo = false;
  tsc = 50;
  stallq = [];
  active_rpcs = [];
  conts = [];
}

abbrev server_rpc : Rpc
server_rpc = record client_rpc {
  rpc_id = 9;
  local_rinfo = 22;
  hostname = 104 ∷ 2 ∷ [];
  session_vec = none ∷ some server_end ∷ [];
}

joined : Joined client_rpc server_rpc client_end server_end
unfolding new_session init_loop
joined = record {
  client = record {
    there = refl;
    local = refl;
    role_of = refl;
    connected = refl;
    ring = omega arith;
  };
  server = record {
    there = refl;
    local = refl;
    role_of = refl;
    connected = refl;
    ring = omega arith;
  };
  client_rpc = refl;
  server_rpc = refl;
  same_client = refl;
  same_server = refl;
  all_free = refl;
  idle = refl;
  answered = refl;
}

disconnect_ends_example :
    (a1 b1 b2 a2 : Rpc) × (p q : SmPkt) × (destroy_session true (pos 0) client_rpc
      ≡ ok (inr tt, a1))
    × (a1.sent ≡ (104 ∷ 2 ∷ [], 31850, p) ∷ [])
    × (handle_disconnect_req p server_rpc ≡ ok b1)
    × (b1.sent ≡ (104 ∷ 1 ∷ [], 31850, q) ∷ [])
    × (handle_disconnect_resp q a1 ≡ ok a2)
    × (get_elem? a2.session_vec 0 ≡ some none)
    × (get_elem? b1.session_vec 1 ≡ some none)
    × (a2.ring_entries_available ≡ 32768)
    × (b1.ring_entries_available ≡ 32768)
    × (a2.events
        ≡ record { session_num = 0; event = SmEventType.disconnected; error = SmErrType.no_error }
          ∷ [])
    × (handle_disconnect_req p b1 ≡ ok b2)
    × (b2 ≡ record b1 { sent = (104 ∷ 1 ∷ [], 31850, q) ∷ b1.sent })
disconnect_ends_example = disconnect_ends client_rpc server_rpc client_end server_end joined
