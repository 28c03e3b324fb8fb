-- ===== src/Sm/ConnectTests.antt =====
-- Two Rpcs that connect, at concrete states.
use sc_code.Common.{
  ℕ, ◌*◌, ◌≡◌, inr, refl, true, false, some, List, [], ◌∷◌, length, get_elem?, ok, err, bad_access,
  replicate, arith,
}
use sc_code.Sm.{
  SessionState, SessionEndpoint, SmPkt, SmPktType, SmErrType, SmEventType, SmSession, Rpc,
}
use sc_code.Sm.Api.{create_session}
use sc_code.Sm.Connect.{handle_connect_req, handle_connect_resp}
use sc_code.Sm.Handshake.{MayConnect, handshake_connects}
use sc_code.Sm.Hostname.{create_session_overflows}
use sc_code.Sm.Retry.{connect_req_idempotent}

-- An Rpc on a host of a two-character name; the second character is the argument.
abbrev rpc : ℕ → ℕ → Rpc
rpc host id = record {
  rpc_id = id;
  transport_type = 2;
  local_rinfo = host * 11;
  hostname = 104 ∷ host ∷ [];
  sm_udp_port = 31850;
  session_vec = [];
  ring_entries_available = 32768;
  conn_req_token_map = [];
  sm_pending_reqs = [];
  sent = [];
  events = [];
  retry = false;
  fail_resolve_rinfo = false;
  tsc = 50;
  stallq = [];
  active_rpcs = [];
  conts = [];
}

may_connect : MayConnect (rpc 1 4) (rpc 2 9) 1234
may_connect = record {
  client_name = omega arith;
  server_name = omega arith;
  named = omega arith;
  apart = refl;
  client_ring = omega arith;
  server_ring = omega arith;
  same_transport = refl;
  client_sessions = omega arith;
  server_sessions = omega arith;
  new_token = refl;
}

handshake_connects_example :
    (a1 b1 a2 : Rpc) × (p q : SmPkt) × (s t : SmSession) × (create_session true
        (104 ∷ 2 ∷ [])
        31850
        9
        1234
        (rpc 1 4)
      ≡ ok (inr 0, a1))
    × (a1.sent ≡ (104 ∷ 2 ∷ [], 31850, p) ∷ [])
    × (handle_connect_req some p (rpc 2 9) ≡ ok b1)
    × (b1.sent ≡ (104 ∷ 1 ∷ [], 31850, q) ∷ [])
    × (handle_connect_resp some q a1 ≡ ok a2)
    × (get_elem? a2.session_vec 0 ≡ some (some s))
    × (s.state ≡ SessionState.connected)
    × (s.remote_session_num ≡ 0)
    × (get_elem? b1.session_vec 0 ≡ some (some t))
    × (t.state ≡ SessionState.connected)
    × (t.remote_session_num ≡ 0)
    × (a2.events
        ≡ record { session_num = 0; event = SmEventType.connected; error = SmErrType.no_error }
          ∷ [])
handshake_connects_example =
    handshake_connects some some (rpc 1 4) (rpc 2 9) 1234 11 22 may_connect refl refl

abbrev endpoint : ℕ → ℕ → ℕ → SessionEndpoint
endpoint host id num = record {
  transport_type = 2;
  hostname = 104 ∷ host ∷ [];
  sm_udp_port = 31850;
  rpc_id = id;
  session_num = num;
  routing_info = 66;
}

abbrev connect_req : SmPkt
connect_req = record {
  pkt_type = SmPktType.connect_req;
  err_type = SmErrType.no_error;
  uniq_token = 1234;
  client = endpoint 1 4 5;
  server = endpoint 2 9 65535;
}

connect_req_idempotent_example :
    (b1 b2 : Rpc) × (q : SmPkt) × (handle_connect_req some connect_req (rpc 2 9) ≡ ok b1)
    × (b1.sent ≡ (104 ∷ 1 ∷ [], 31850, q) ∷ [])
    × (length b1.session_vec ≡ 1)
    × (handle_connect_req some connect_req b1 ≡ ok b2)
    × (b2.sent ≡ (104 ∷ 1 ∷ [], 31850, q) ∷ b1.sent)
    × (b2 ≡ record b1 { sent = b2.sent })
connect_req_idempotent_example =
    connect_req_idempotent some connect_req 66 (rpc 2 9) refl refl refl refl (omega arith) refl
      (omega arith)

abbrev long_name : List ℕ
long_name = replicate 128 97

create_session_overflows_example :
    create_session true long_name 31850 9 1234 (rpc 1 4) ≡ err bad_access
create_session_overflows_example =
    create_session_overflows long_name 31850 9 1234 (rpc 1 4) refl (omega arith) refl (omega arith)
