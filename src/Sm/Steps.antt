-- ===== src/Sm/Steps.antt =====
-- The connect handlers of src/rpc_impl/rpc_connect_handlers.cc where they go through, step by step.
use sc_code.Common.{
  ℕ, ◌-◌, ◌≤◌, ◌<◌, ◌≡◌, ◌∙◌, refl, true, ◌&&◌, Option, none, some, List, [], ◌∷◌, ltb, ◌==◌,
  length, get_elem?, snoc, ok, assert-true, lt→ltb, le→leb, arith,
}
use sc_code.Datapath.{session_credits}
use sc_code.Sm.{
  SessionState, SessionEndpoint, endpoint_eq, str_eq, SmPkt, SmErrType, SmEventType, SmPktType,
  SmSession, Rpc, is_client, sm_construct_resp,
}
use sc_code.Sm.Init.{invalid_session_num}
use sc_code.Sm.Helpers.{
  alloc_ring_entries, session_at, sm_pkt_udp_tx, have_ring_entries, put_session, notify,
}
use sc_code.Sm.Connect.{
  handle_connect_req, handle_connect_resp, respond, first_request, accept, answered, connected,
  server_session, resolve_rinfo, token_lookup, is_connect_resp, is_connect_req,
}

pub ==_same : (n : ℕ) → (n == n) ≡ true
==_same n = ground arith

pub str_eq_same : (s : List ℕ) → str_eq s s ≡ true
str_eq_same [] = refl
str_eq_same (c ∷ cs) = rw (==_same c) (str_eq_same cs)

pub endpoint_eq_same : (e : SessionEndpoint) → endpoint_eq e e ≡ true
endpoint_eq_same e =
    rw
      (
        ==_same e.transport_type,
        str_eq_same e.hostname,
        ==_same e.sm_udp_port,
        ==_same e.rpc_id,
        ==_same e.session_num,
      )
      refl

-- The server's side: what a first connect request gives.
pub respond-sent :
    (p : SmPkt) (error : SmErrType) (server : SessionEndpoint) (c : Rpc)
    → p.pkt_type ≡ SmPktType.connect_req
    → respond p error server c
      ≡ ok (
          sm_pkt_udp_tx
            (record p { pkt_type = SmPktType.connect_resp; err_type = error; server = server })
            c)
unfolding respond sm_construct_resp
respond-sent p error server c e = rw (respond, e) refl

pub alloc_ring-ok :
    (c : Rpc)
    → session_credits ≤ c.ring_entries_available
    → alloc_ring_entries c
      ≡ ok (record c { ring_entries_available = c.ring_entries_available - session_credits })
unfolding alloc_ring_entries
alloc_ring-ok c room = assert-true (have_ring_entries c) _ (le→leb _ _ room)

pub session_at-some :
    (i : ℕ) (c : Rpc) (o : Option SmSession)
    → get_elem? c.session_vec i ≡ some o
    → session_at i c ≡ ok o
unfolding session_at
session_at-some i c o e = rw (session_at, e) refl

abbrev pub with_server_session : SmPkt → SmSession → Rpc → Rpc
with_server_session p s c = record c {
  ring_entries_available = c.ring_entries_available - session_credits;
  conn_req_token_map = (s.uniq_token, s.server.session_num) ∷ c.conn_req_token_map;
  session_vec = snoc c.session_vec (some s);
}

module _ (resolve : ℕ → Option ℕ) where
  pub accept-sent :
      (p : SmPkt) (r : ℕ) (c : Rpc)
      → p.pkt_type ≡ SmPktType.connect_req
      → session_credits ≤ c.ring_entries_available
      → let s = server_session resolve p r c in
        accept resolve p r c
        ≡ ok (
            sm_pkt_udp_tx
              (record p {
                pkt_type = SmPktType.connect_resp;
                err_type = SmErrType.no_error;
                server = s.server;
              })
              (with_server_session p s c))
  unfolding accept
  accept-sent p r c e room =
      let s = server_session resolve p r c in
      rw (accept, alloc_ring-ok c room)
        (respond-sent p SmErrType.no_error s.server (with_server_session p s c) e)

  pub first_request-accepted :
      (p : SmPkt) (r : ℕ) (c : Rpc)
      → (p.server.transport_type == c.transport_type) ≡ true
      → session_credits ≤ c.ring_entries_available
      → resolve_rinfo resolve c p.client.routing_info ≡ some r
      → first_request resolve p c ≡ accept resolve p r c
  unfolding first_request
  first_request-accepted p r c t room e = rw (first_request, t, le→leb _ _ room, e) refl

  pub connect_req-first :
      (p : SmPkt) (c : Rpc)
      → p.pkt_type ≡ SmPktType.connect_req
      → p.server.rpc_id ≡ c.rpc_id
      → token_lookup p.uniq_token c.conn_req_token_map ≡ none
      → handle_connect_req resolve p c ≡ first_request resolve p c
  unfolding handle_connect_req
  connect_req-first p c t id new =
      let mine : (p.server.rpc_id == c.rpc_id) ≡ true = ground arith in
      assert-true (is_connect_req p.pkt_type && p.server.rpc_id == c.rpc_id) _ (rw (t, mine) refl)
      ∙ rw new refl

  -- The client's side: what a response without error gives.
  abbrev pub client_connected : SmPkt → ℕ → SmSession → Rpc → Rpc
  client_connected p r s c = notify s SmEventType.connected SmErrType.no_error (
      put_session
        (record s {
          server = record (p.server) { routing_info = r };
          remote_session_num = p.server.session_num;
          state = SessionState.connected;
          prev_desired_tx_tsc = c.tsc;
        })
        c)

  pub connected-notifies :
      (p : SmPkt) (r : ℕ) (s : SmSession) (c : Rpc)
      → resolve_rinfo resolve c p.server.routing_info ≡ some r
      → connected resolve p s c ≡ ok (client_connected p r s c)
  unfolding connected
  connected-notifies p r s c e = rw (connected, e) refl

  pub answered-connected :
      (p : SmPkt) (s : SmSession) (c : Rpc)
      → is_client s.role ≡ true
      → endpoint_eq s.client p.client ≡ true
      → str_eq s.server.hostname p.server.hostname ≡ true
      → (s.server.rpc_id == p.server.rpc_id) ≡ true
      → (s.server.session_num == invalid_session_num) ≡ true
      → p.err_type ≡ SmErrType.no_error
      → answered resolve p s c ≡ connected resolve p s c
  unfolding answered
  answered-connected p s c k own host id num good = rw (answered, k, own, host, id, num, good) refl

  pub connect_resp-answered :
      (p : SmPkt) (s : SmSession) (c : Rpc)
      → p.pkt_type ≡ SmPktType.connect_resp
      → p.client.rpc_id ≡ c.rpc_id
      → p.client.session_num < length c.session_vec
      → get_elem? c.session_vec p.client.session_num ≡ some (some s)
      → s.state ≡ SessionState.connect_in_progress
      → handle_connect_resp resolve p c ≡ answered resolve p s c
  unfolding handle_connect_resp
  connect_resp-answered p s c t id low at st =
      let mine : (p.client.rpc_id == c.rpc_id) ≡ true = ground arith in
      assert-true (is_connect_resp p.pkt_type && p.client.rpc_id == c.rpc_id) _ (rw (t, mine) refl)
      ∙ assert-true (ltb p.client.session_num (length c.session_vec)) _ (lt→ltb _ _ low)
      ∙ rw (session_at-some p.client.session_num c (some s) at, st) refl
