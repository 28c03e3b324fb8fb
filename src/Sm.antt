-- ===== src/Sm.antt =====
-- Session management: the packets of src/sm_types.h, the sessions of src/session.h, and the part of
-- src/rpc.h that the handlers in src/rpc_impl/rpc_sm_api.cc, rpc_connect_handlers.cc,
-- rpc_disconnect_handlers.cc, rpc_reset_handlers.cc and rpc_sm_helpers.cc work on.
pub mod Init
pub mod Helpers
pub mod Api
pub mod Connect
pub mod Disconnect
pub mod Reset
pub mod Rx
pub mod Rings
pub mod Steps
pub mod Handshake
pub mod Leaving
pub mod Farewell
pub mod Pending
pub mod Retry
pub mod Hostname
mod Tests
mod ConnectTests
mod FarewellTests
use sc_code.Common.{
  ℕ, Bool, true, false, ◌&&◌, Option, List, [], ◌∷◌, ◌==◌, Outcome, ok, err, runtime_error, assert,
  ◌>>=◌, ◌>>◌,
}
use sc_code.Datapath.{SSlot}

-- C's `int`
pub data ℤ : Type 0 where
  pos : ℕ → ℤ
  negsuc : ℕ → ℤ

pub data SessionState : Type 0 where
  connect_in_progress connected disconnect_in_progress reset_in_progress : SessionState

abbrev pub state_eq : SessionState → SessionState → Bool
state_eq SessionState.connect_in_progress SessionState.connect_in_progress = true
state_eq SessionState.connected SessionState.connected = true
state_eq SessionState.disconnect_in_progress SessionState.disconnect_in_progress = true
state_eq SessionState.reset_in_progress SessionState.reset_in_progress = true
state_eq a b = false

pub data SmPktType : Type 0 where
  unblock ping_req ping_resp connect_req connect_resp disconnect_req disconnect_resp : SmPktType

pub data SmErrType : Type 0 where
  no_error srv_disconnected ring_exhausted out_of_memory : SmErrType
  routing_resolution_failure invalid_remote_rpc_id invalid_transport : SmErrType

pub data SmEventType : Type 0 where
  connected connect_failed disconnected disconnect_failed : SmEventType

abbrev pub sm_pkt_type_is_req : SmPktType → Bool
sm_pkt_type_is_req SmPktType.ping_req = true
sm_pkt_type_is_req SmPktType.connect_req = true
sm_pkt_type_is_req SmPktType.disconnect_req = true
sm_pkt_type_is_req SmPktType.ping_resp = false
sm_pkt_type_is_req SmPktType.unblock = false
sm_pkt_type_is_req SmPktType.connect_resp = false
sm_pkt_type_is_req SmPktType.disconnect_resp = false

abbrev resp_type : SmPktType → Outcome SmPktType
resp_type SmPktType.ping_req = ok SmPktType.ping_resp
resp_type SmPktType.connect_req = ok SmPktType.connect_resp
resp_type SmPktType.disconnect_req = ok SmPktType.disconnect_resp
resp_type SmPktType.ping_resp = err runtime_error
resp_type SmPktType.unblock = err runtime_error
resp_type SmPktType.connect_resp = err runtime_error
resp_type SmPktType.disconnect_resp = err runtime_error

abbrev pub sm_pkt_type_req_to_resp : SmPktType → Outcome SmPktType
sm_pkt_type_req_to_resp t = do assert (sm_pkt_type_is_req t); resp_type t

abbrev pub is_no_error : SmErrType → Bool
is_no_error SmErrType.no_error = true
is_no_error e = false

abbrev pub is_invalid_rpc_id : SmErrType → Bool
is_invalid_rpc_id SmErrType.invalid_remote_rpc_id = true
is_invalid_rpc_id e = false

-- Hostnames are the characters up to the terminator; routing info is opaque.
pub record SessionEndpoint : Type 0 where
  pub transport_type : ℕ
  pub hostname : List ℕ
  pub sm_udp_port : ℕ
  pub rpc_id : ℕ
  pub session_num : ℕ
  pub routing_info : ℕ

-- `strcmp(a, b) == 0`
abbrev pub str_eq : List ℕ → List ℕ → Bool
str_eq [] [] = true
str_eq [] (c ∷ cs) = false
str_eq (c ∷ cs) [] = false
str_eq (c ∷ cs) (d ∷ ds) = c == d && str_eq cs ds

-- `operator==`, which leaves the routing info out.
abbrev pub endpoint_eq : SessionEndpoint → SessionEndpoint → Bool
endpoint_eq a b =
    a.transport_type == b.transport_type
    && str_eq a.hostname b.hostname
    && a.sm_udp_port == b.sm_udp_port
    && a.rpc_id == b.rpc_id
    && a.session_num == b.session_num

pub record SmPkt : Type 0 where
  pub pkt_type : SmPktType
  pub err_type : SmErrType
  pub uniq_token : ℕ
  pub client : SessionEndpoint
  pub server : SessionEndpoint

unfoldable pub sm_construct_resp : SmPkt → SmErrType → Outcome SmPkt
sm_construct_resp req err_type = do
  t ← sm_pkt_type_req_to_resp req.pkt_type
  ok (record req { pkt_type = t; err_type = err_type })

pub data Role : Type 0 where
  server client : Role

abbrev pub is_client : Role → Bool
is_client Role.client = true
is_client Role.server = false

abbrev pub is_server : Role → Bool
is_server Role.client = false
is_server Role.server = true

-- A session endpoint; `req_types` are the slots' `server_info_.req_type_`.
pub record SmSession : Type 0 where
  pub role : Role
  pub uniq_token : ℕ
  pub state : SessionState
  pub client : SessionEndpoint
  pub server : SessionEndpoint
  pub local_session_num : ℕ
  pub remote_session_num : ℕ
  pub sslots : List SSlot
  pub req_types : List ℕ
  pub sslot_free_vec : List ℕ
  pub sm_req_ts : ℕ
  pub prev_desired_tx_tsc : ℕ

-- A call of the application's handler: session, event and error.
pub record SmEvent : Type 0 where
  pub session_num : ℕ
  pub event : SmEventType
  pub error : SmErrType

-- An Rpc with its Nexus's address. `sent` and `events` are what has been given to UDP and to the
-- application, latest first; `retry` is `retry_connect_on_invalid_rpc_id_`, and the two faults are
-- those of the routing info's resolution, injected or the transport's own.
pub record Rpc : Type 0 where
  pub rpc_id : ℕ
  pub transport_type : ℕ
  pub local_rinfo : ℕ
  pub hostname : List ℕ
  pub sm_udp_port : ℕ
  pub session_vec : List (Option SmSession)
  pub ring_entries_available : ℕ
  pub conn_req_token_map : List (ℕ × ℕ)
  pub sm_pending_reqs : List ℕ
  pub sent : List (List ℕ × ℕ × SmPkt)
  pub events : List SmEvent
  pub retry : Bool
  pub fail_resolve_rinfo : Bool
  pub tsc : ℕ
  pub stallq : List (ℕ × ℕ)
  pub active_rpcs : List (ℕ × ℕ)
  pub conts : List (ℕ × ℕ)
