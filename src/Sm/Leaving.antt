-- ===== src/Sm/Leaving.antt =====
-- Each step at the end of a session: `destroy_session_st` (src/rpc_impl/rpc_sm_api.cc),
-- `handle_disconnect_req_st` and `handle_disconnect_resp_st` (src/rpc_impl/rpc_disconnect_handlers.cc).
use sc_code.Common.{
  ℕ, ◌+◌, ◌≤◌, ◌<◌, ◌≡◌, ◌∙◌, refl, ap, inr, true, none, some, ◌==◌, length, get_elem?,
  get_elem?_lt, set, ok, lt→ltb, le→leb, arith,
}
use sc_code.Datapath.{session_credits, session_req_window}
use sc_code.Sm.{
  is_client, is_server, is_no_error, state_eq, sm_construct_resp, pos, SessionState, endpoint_eq,
  Role, SmPkt, SmErrType, SmEventType, SmPktType, SmSession, Rpc,
}
use sc_code.Sm.Helpers.{
  notify, send_sm_req, sm_pkt_udp_tx, num_rx_ring_entries, free_ring_entries, bury_session,
}
use sc_code.Sm.Api.{destroy_session, destroy_idle, destroy_connected, all_idle}
use sc_code.Sm.Connect.{respond}
use sc_code.Sm.Disconnect.{
  handle_disconnect_req, handle_disconnect_resp, disconnect_server, disconnect_client, all_answered,
  is_disconnect_req, is_disconnect_resp,
}
use sc_code.Sm.Steps.{==_same, session_at-some}

-- A session in the vector of its Rpc, connected, with its ring entries taken.
pub record Standing (c : Rpc) (n : ℕ) (role : Role) (s : SmSession) : Type 0 where
  pub there : get_elem? c.session_vec n ≡ some (some s)
  pub local : s.local_session_num ≡ n
  pub role_of : s.role ≡ role
  pub connected : s.state ≡ SessionState.connected
  pub ring : c.ring_entries_available + session_credits ≤ num_rx_ring_entries

free_ring_entries-ok :
    (c : Rpc)
    → c.ring_entries_available + session_credits ≤ num_rx_ring_entries
    → free_ring_entries c
      ≡ ok (record c { ring_entries_available = c.ring_entries_available + session_credits })
unfolding free_ring_entries
free_ring_entries-ok c room = rw (le→leb _ _ room) refl

bury_session-ok :
    (s : SmSession) (n : ℕ) (c : Rpc)
    → s.local_session_num ≡ n
    → n < length c.session_vec
    → bury_session s c ≡ ok (record c { session_vec = set c.session_vec n none })
unfolding bury_session
bury_session-ok s n c e lt = rw e (rw (lt→ltb _ _ lt) refl)

abbrev pub leaving : SmSession → SmSession
leaving s = record s { state = SessionState.disconnect_in_progress }

destroy_connected-leaves :
    (s : SmSession) (c : Rpc)
    → s.state ≡ SessionState.connected
    → destroy_connected s c ≡ (inr tt, send_sm_req (leaving s) c)
unfolding destroy_connected
destroy_connected-leaves s c e = rw e refl

pub destroy_session-sends :
    (s : SmSession) (c : Rpc)
    → Standing c s.client.session_num Role.client s
    → length s.sslot_free_vec ≡ session_req_window
    → all_idle s.sslots ≡ true
    → destroy_session true (pos s.client.session_num) c ≡ ok (inr tt, send_sm_req (leaving s) c)
unfolding destroy_session destroy_idle
destroy_session-sends s c v free idle =
    let all_free : (length s.sslot_free_vec == session_req_window) ≡ true = ground arith in
    let client : is_client s.role ≡ true = ap is_client v.role_of in
    rw (v.there, client, all_free, idle, destroy_connected-leaves s c v.connected) refl

abbrev pub resp_of : SmPkt → SmPkt
resp_of p = record p { pkt_type = SmPktType.disconnect_resp; err_type = SmErrType.no_error }

abbrev pub ended : ℕ → Rpc → Rpc
ended n c = record c {
  ring_entries_available = c.ring_entries_available + session_credits;
  session_vec = set c.session_vec n none;
}

respond-disconnect :
    (p : SmPkt) (c : Rpc)
    → p.pkt_type ≡ SmPktType.disconnect_req
    → respond p SmErrType.no_error p.server c ≡ ok (sm_pkt_udp_tx (resp_of p) c)
unfolding respond sm_construct_resp
respond-disconnect p c e = rw (respond, e) refl

-- The server's end.
pub disconnect_req-ends :
    (p : SmPkt) (t : SmSession) (n : ℕ) (c : Rpc)
    → p.pkt_type ≡ SmPktType.disconnect_req
    → p.server.rpc_id ≡ c.rpc_id
    → p.server.session_num ≡ n
    → Standing c n Role.server t
    → endpoint_eq t.server p.server ≡ true
    → endpoint_eq t.client p.client ≡ true
    → all_answered t.req_types ≡ true
    → handle_disconnect_req p c ≡ ok (ended n (sm_pkt_udp_tx (resp_of p) c))
unfolding handle_disconnect_req disconnect_server sm_pkt_udp_tx
disconnect_req-ends p t n c type to num v server client answered =
    let at : get_elem? c.session_vec p.server.session_num ≡ some (some t) =
      ap (get_elem? c.session_vec) num ∙ v.there in
    let bound = get_elem?_lt c.session_vec n (some t) v.there in
    let c1 : Rpc = record c {
      ring_entries_available = c.ring_entries_available + session_credits;
    } in
    let serves : is_server t.role ≡ true = ap is_server v.role_of in
    let up : state_eq t.state SessionState.connected ≡ true =
      ap (λ x. state_eq x SessionState.connected) v.connected in
    rw
      (
        ap is_disconnect_req type,
        ap (λ k. k == c.rpc_id) to ∙ ==_same c.rpc_id,
        lt→ltb _ _ (get_elem?_lt c.session_vec p.server.session_num (some t) at),
        session_at-some p.server.session_num c (some t) at,
        serves,
        up,
        server,
        client,
        answered,
        free_ring_entries-ok c v.ring,
        respond-disconnect p c1 type,
        bury_session-ok t n (sm_pkt_udp_tx (resp_of p) c1) v.local bound,
      )
      refl

-- A request for a session that is gone is answered all the same.
pub disconnect_req-again :
    (p : SmPkt) (n : ℕ) (c : Rpc)
    → p.pkt_type ≡ SmPktType.disconnect_req
    → p.server.rpc_id ≡ c.rpc_id
    → p.server.session_num ≡ n
    → get_elem? c.session_vec n ≡ some none
    → handle_disconnect_req p c ≡ ok (sm_pkt_udp_tx (resp_of p) c)
unfolding handle_disconnect_req
disconnect_req-again p n c type to num gone =
    let there : get_elem? c.session_vec p.server.session_num ≡ some none = rw num gone in
    rw
      (
        ap is_disconnect_req type,
        ap (λ k. k == c.rpc_id) to ∙ ==_same c.rpc_id,
        lt→ltb _ _ (get_elem?_lt c.session_vec p.server.session_num none there),
        session_at-some p.server.session_num c none there,
        respond-disconnect p c type,
      )
      refl

-- The client's end.
pub disconnect_resp-ends :
    (p : SmPkt) (s : SmSession) (n : ℕ) (c : Rpc)
    → p.pkt_type ≡ SmPktType.disconnect_resp
    → p.err_type ≡ SmErrType.no_error
    → p.client.rpc_id ≡ c.rpc_id
    → p.client.session_num ≡ n
    → get_elem? c.session_vec n ≡ some (some s)
    → s.local_session_num ≡ n
    → s.role ≡ Role.client
    → s.state ≡ SessionState.disconnect_in_progress
    → c.ring_entries_available + session_credits ≤ num_rx_ring_entries
    → endpoint_eq s.client p.client ≡ true
    → endpoint_eq s.server p.server ≡ true
    → handle_disconnect_resp p c
      ≡ ok (ended n (notify s SmEventType.disconnected SmErrType.no_error c))
unfolding handle_disconnect_resp disconnect_client
disconnect_resp-ends p s n c type good to num there own role_of state room client server =
    let at : get_elem? c.session_vec p.client.session_num ≡ some (some s) =
      ap (get_elem? c.session_vec) num ∙ there in
    let c1 : Rpc = record c {
      ring_entries_available = c.ring_entries_available + session_credits;
    } in
    let asks : is_client s.role ≡ true = ap is_client role_of in
    let going : state_eq s.state SessionState.disconnect_in_progress ≡ true =
      ap (λ x. state_eq x SessionState.disconnect_in_progress) state in
    rw
      (
        ap is_disconnect_resp type,
        ap (λ k. k == c.rpc_id) to ∙ ==_same c.rpc_id,
        ap is_no_error good,
        lt→ltb _ _ (get_elem?_lt c.session_vec p.client.session_num (some s) at),
        session_at-some p.client.session_num c (some s) at,
        asks,
        going,
        client,
        server,
        free_ring_entries-ok c room,
        bury_session-ok s n (notify s SmEventType.disconnected SmErrType.no_error c1) own
            (get_elem?_lt c.session_vec n (some s) there),
      )
      refl
