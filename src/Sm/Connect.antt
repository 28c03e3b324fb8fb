-- ===== src/Sm/Connect.antt =====
-- `handle_connect_req_st` and `handle_connect_resp_st` of src/rpc_impl/rpc_connect_handlers.cc. The
-- transport's resolution of routing info is a parameter.
use sc_code.Common.{
  ℕ, ◌%◌, ◌^◌, Bool, true, false, not, ◌&&◌, Option, none, some, List, [], ◌∷◌, ltb, ◌==◌,
  if◌then◌else◌, length, snoc, Outcome, ok, assert, ◌>>=◌, ◌>>◌,
}
use sc_code.Sm.{
  SessionState, state_eq, SessionEndpoint, endpoint_eq, str_eq, SmPkt, SmPktType, SmErrType,
  SmEventType, is_no_error, is_invalid_rpc_id, sm_construct_resp, SmSession, Rpc, Role, is_client,
}
use sc_code.Sm.Init.{new_session, invalid_session_num}
use sc_code.Sm.Helpers.{
  have_ring_entries, alloc_ring_entries, free_ring_entries, session_at, bury_session, sm_pkt_udp_tx,
  send_sm_req, put_session, notify, insert,
}

-- `conn_req_token_map_`, read and written by key.
abbrev pub token_lookup : ℕ → List (ℕ × ℕ) → Option ℕ
token_lookup t [] = none
token_lookup t ((u, n) ∷ rest) = if t == u then some n else token_lookup t rest

abbrev pub is_connect_req : SmPktType → Bool
is_connect_req SmPktType.connect_req = true
is_connect_req t = false

abbrev pub is_connect_resp : SmPktType → Bool
is_connect_resp SmPktType.connect_resp = true
is_connect_resp t = false

-- A response of one error type, sent.
unfoldable pub respond : SmPkt → SmErrType → SessionEndpoint → Rpc → Outcome Rpc
respond req err_type server c = do
  resp ← sm_construct_resp req err_type
  ok (sm_pkt_udp_tx (record resp { server = server }) c)

module _ (resolve : ℕ → Option ℕ) where
  abbrev pub resolve_rinfo : Rpc → ℕ → Option ℕ
  resolve_rinfo c rinfo = if c.fail_resolve_rinfo then none else resolve rinfo

  -- The server's session for a first request.
  unfoldable pub server_session : SmPkt → ℕ → Rpc → SmSession
  server_session p client_rinfo c =
      let num = length c.session_vec % 2 ^ 16 in
      record (new_session Role.server p.uniq_token) {
        state = SessionState.connected;
        server = record (p.server) { session_num = num; routing_info = c.local_rinfo };
        client = record (p.client) { routing_info = client_rinfo };
        local_session_num = num;
        remote_session_num = p.client.session_num;
      }

  unfoldable pub accept : SmPkt → ℕ → Rpc → Outcome Rpc
  accept p client_rinfo c = do
    let s = server_session p client_rinfo c
    c' ← alloc_ring_entries c
    respond p SmErrType.no_error s.server (record c' {
      conn_req_token_map = (s.uniq_token, s.server.session_num) ∷ c'.conn_req_token_map;
      session_vec = snoc c'.session_vec (some s);
    })

  -- A request whose token is known.
  unfoldable pub duplicate : SmPkt → ℕ → Rpc → Outcome Rpc
  duplicate p srv_session_num c = do
    assert (ltb srv_session_num (length c.session_vec))
    session ← session_at srv_session_num c
    elim session [
      | none ↦ ok c
      | some s ↦
          if not (state_eq s.state SessionState.connected)
          then ok c
          else respond p SmErrType.no_error s.server c
    ]

  unfoldable pub first_request : SmPkt → Rpc → Outcome Rpc
  first_request p c =
      if not (p.server.transport_type == c.transport_type)
      then respond p SmErrType.invalid_transport p.server c
      else if not (have_ring_entries c)
      then respond p SmErrType.ring_exhausted p.server c
      else elim (resolve_rinfo c p.client.routing_info) [
        | none ↦ respond p SmErrType.routing_resolution_failure p.server c
        | some client_rinfo ↦ accept p client_rinfo c
      ]

  unfoldable pub handle_connect_req : SmPkt → Rpc → Outcome Rpc
  handle_connect_req p c = do
    assert (is_connect_req p.pkt_type && p.server.rpc_id == c.rpc_id)
    elim (token_lookup p.uniq_token c.conn_req_token_map) [
      | some srv_session_num ↦ duplicate p srv_session_num c
      | none ↦ first_request p c
    ]

  -- The server has a session; its routing info is resolved, or the session is given up.
  unfoldable pub connected : SmPkt → SmSession → Rpc → Outcome Rpc
  connected p s c = elim (resolve_rinfo c p.server.routing_info) [
    | none ↦ ok (
        send_sm_req (record s { server = p.server; state = SessionState.disconnect_in_progress }) c)
    | some srv_routing_info ↦ ok (
        notify s SmEventType.connected SmErrType.no_error (
          put_session
            (record s {
              server = record (p.server) { routing_info = srv_routing_info };
              remote_session_num = p.server.session_num;
              state = SessionState.connected;
              prev_desired_tx_tsc = c.tsc;
            })
            c))
  ]

  unfoldable pub refused : SmPkt → SmSession → Rpc → Outcome Rpc
  refused p s c = do
    c' ← free_ring_entries c
    bury_session s (notify s SmEventType.connect_failed p.err_type c')

  unfoldable pub answered : SmPkt → SmSession → Rpc → Outcome Rpc
  answered p s c = do
    assert (is_client s.role && endpoint_eq s.client p.client)
    assert (str_eq s.server.hostname p.server.hostname)
    assert (s.server.rpc_id == p.server.rpc_id)
    assert (s.server.session_num == invalid_session_num)
    if is_invalid_rpc_id p.err_type && c.retry
        then ok (record c { sm_pending_reqs = insert s.local_session_num c.sm_pending_reqs })
        else if not (is_no_error p.err_type)
        then refused p s c
        else connected p s c

  unfoldable pub handle_connect_resp : SmPkt → Rpc → Outcome Rpc
  handle_connect_resp p c = do
    assert (is_connect_resp p.pkt_type && p.client.rpc_id == c.rpc_id)
    assert (ltb p.client.session_num (length c.session_vec))
    session ← session_at p.client.session_num c
    elim session [
      | none ↦ ok c
      | some s ↦
          if not (state_eq s.state SessionState.connect_in_progress) then ok c else answered p s c
    ]
