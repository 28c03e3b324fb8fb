-- ===== src/Sm/Tests.antt =====
-- Session management at concrete states.
use sc_code.Common.{ℕ, inl, inr, refl, List, [], ◌∷◌, some, Outcome, ok, err, true, false, arith}
use sc_code.Sm.{sm_construct_resp, pos, SessionEndpoint, SmPktType, SmErrType, Rpc}
use sc_code.Sm.Init.{new_session}
use sc_code.Sm.Helpers.{alloc_ring_entries, sm_pkt_udp_tx}
use sc_code.Sm.Api.{Errno, create_session, destroy_session, client_session}
use sc_code.Sm.Connect.{
  handle_connect_req, first_request, accept, server_session, duplicate, respond,
}
use sc_code.Sm.Disconnect.{handle_disconnect_req}
use sc_code.Sm.Rx.{SmWorkItem, handle_sm_rx}
use sc_code.Sm.Rings.{RingsOk}
use sc_code.Sm.Rings.Calls.{Created, Destroyed, calls-RingsOk}
use sc_code.Sm.Rings.Queue.{Changes, handle_sm_rx-RingsOk}

-- Rpc 4 on the host called by the characters 104, 1.
abbrev rpc : Rpc
rpc = record {
  rpc_id = 4;
  transport_type = 2;
  local_rinfo = 77;
  hostname = 104 ∷ 1 ∷ [];
  sm_udp_port = 31850;
  session_vec = [];
  ring_entries_available = 32768;
  conn_req_token_map = [];
  sm_pending_reqs = [];
  sent = [];
  events = [];
  retry = false;
  fail_resolve_rinfo = false;
  tsc = 50;
  stallq = [];
  active_rpcs = [];
  conts = [];
}

rpc-RingsOk : RingsOk rpc
rpc-RingsOk = record { own = tt; balance = refl }

abbrev peer : ℕ → SessionEndpoint
peer num = record {
  transport_type = 2;
  hostname = 104 ∷ 2 ∷ [];
  sm_udp_port = 31850;
  rpc_id = 9;
  session_num = num;
  routing_info = 66;
}

abbrev own : ℕ → SessionEndpoint
own num = record {
  transport_type = 2;
  hostname = 104 ∷ 1 ∷ [];
  sm_udp_port = 31850;
  rpc_id = 4;
  session_num = num;
  routing_info = 77;
}

-- A connect request of the peer, twice, and its disconnect request.
abbrev connect_then_leave : List SmWorkItem
connect_then_leave =
    SmWorkItem.pkt (record {
      pkt_type = SmPktType.connect_req;
      err_type = SmErrType.no_error;
      uniq_token = 1234;
      client = peer 5;
      server = own 65535;
    })
    ∷ SmWorkItem.pkt (record {
      pkt_type = SmPktType.connect_req;
      err_type = SmErrType.no_error;
      uniq_token = 1234;
      client = peer 5;
      server = own 65535;
    })
    ∷ SmWorkItem.pkt (record {
      pkt_type = SmPktType.disconnect_req;
      err_type = SmErrType.no_error;
      uniq_token = 1234;
      client = peer 5;
      server = own 0;
    })
    ∷ []

abbrev value {ℓ} : {A : Type ℓ} → A → Outcome A → A
value d (ok a) = a
value d (err e) = d

abbrev served : Rpc
served = value rpc (handle_sm_rx some connect_then_leave rpc)

handle_sm_rx-RingsOk_example : Changes rpc served × RingsOk served
unfolding handle_sm_rx handle_connect_req new_session handle_disconnect_req first_request accept
    alloc_ring_entries sm_construct_resp sm_pkt_udp_tx server_session duplicate respond
handle_sm_rx-RingsOk_example =
    handle_sm_rx-RingsOk some connect_then_leave rpc served rpc-RingsOk (omega arith) refl

abbrev created_rpc : Rpc
created_rpc = (value (inl Errno.eperm, rpc) (create_session true (104 ∷ 2 ∷ []) 31850 9 1234 rpc)).1

calls-RingsOk_example :
    (Created rpc (inr 0, created_rpc) × RingsOk created_rpc)
    × (Destroyed (pos 0) rpc (inl Errno.einval, rpc) × RingsOk rpc)
unfolding create_session destroy_session alloc_ring_entries client_session
calls-RingsOk_example =
    calls-RingsOk rpc rpc-RingsOk true (104 ∷ 2 ∷ []) 31850 9 1234 (pos 0) (inr 0)
      (inl Errno.einval) created_rpc rpc (omega arith) refl refl
