-- ===== src/Sm/Farewell.antt =====
-- The end of a session: `destroy_session_st` at the client, `handle_disconnect_req_st` at the server,
-- and `handle_disconnect_resp_st` at the client.
use sc_code.Common.{
  subst, sym, ◌+◌, ◌<◌, ◌≡◌, refl, ap, inr, true, none, some, ◌∷◌, length, get_elem?,
  get_elem?-set_self, get_elem?_lt, set, ok,
}
use sc_code.Datapath.{session_credits, session_req_window}
use sc_code.Sm.{pos, endpoint_eq, Role, SmPkt, SmErrType, SmEventType, SmSession, Rpc}
use sc_code.Sm.Helpers.{notify, send_sm_req, sm_pkt_udp_tx, req_pkt}
use sc_code.Sm.Api.{destroy_session, all_idle}
use sc_code.Sm.Disconnect.{handle_disconnect_req, handle_disconnect_resp, all_answered}
use sc_code.Sm.Steps.{endpoint_eq_same}
use sc_code.Sm.Leaving.{
  Standing, leaving, resp_of, ended, destroy_session-sends, disconnect_req-ends,
  disconnect_req-again, disconnect_resp-ends,
}

-- The two ends of one session, with no request on its way.
pub record Joined (a b : Rpc) (s t : SmSession) : Type 0 where
  pub client : Standing a s.client.session_num Role.client s
  pub server : Standing b s.server.session_num Role.server t
  pub client_rpc : s.client.rpc_id ≡ a.rpc_id
  pub server_rpc : s.server.rpc_id ≡ b.rpc_id
  pub same_client : endpoint_eq t.client s.client ≡ true
  pub same_server : endpoint_eq t.server s.server ≡ true
  pub all_free : length s.sslot_free_vec ≡ session_req_window
  pub idle : all_idle s.sslots ≡ true
  pub answered : all_answered t.req_types ≡ true

-- A client's call at an idle session, the server's handling of the request that it sends, and the
-- client's handling of the response that the server sends bury the session on both sides, give the ring
-- entries of both back, and notify the client's application once. The request may reach the server
-- again: it is answered in the same way and changes nothing else.
pub disconnect_ends :
    (a b : Rpc) (s t : SmSession)
    → Joined a b s t
    → (a1 b1 b2 a2 : Rpc) × (p q : SmPkt) × (destroy_session true (pos s.client.session_num) a
        ≡ ok (inr tt, a1))
      × (a1.sent ≡ (s.server.hostname, s.server.sm_udp_port, p) ∷ a.sent)
      × (handle_disconnect_req p b ≡ ok b1)
      × (b1.sent ≡ (s.client.hostname, s.client.sm_udp_port, q) ∷ b.sent)
      × (handle_disconnect_resp q a1 ≡ ok a2)
      × (get_elem? a2.session_vec s.client.session_num ≡ some none)
      × (get_elem? b1.session_vec s.server.session_num ≡ some none)
      × (a2.ring_entries_available ≡ a.ring_entries_available + session_credits)
      × (b1.ring_entries_available ≡ b.ring_entries_available + session_credits)
      × (a2.events
          ≡ record {
            session_num = s.client.session_num;
            event = SmEventType.disconnected;
            error = SmErrType.no_error;
          }
            ∷ a.events)
      × (handle_disconnect_req p b1 ≡ ok b2)
      × (b2 ≡ record b1 { sent = (s.client.hostname, s.client.sm_udp_port, q) ∷ b1.sent })
unfolding send_sm_req sm_pkt_udp_tx
disconnect_ends a b s t v =
    let n = s.client.session_num in
    let m = s.server.session_num in
    let s1 = record (leaving s) { sm_req_ts = a.tsc } in
    let p = req_pkt s1 in
    let q = resp_of p in
    let a1 = send_sm_req (leaving s) a in
    let b1 = ended m (sm_pkt_udp_tx q b) in
    let ran = destroy_session-sends s a v.client v.all_free v.idle in
    let own = v.client.local in
    let bound : n < length a.session_vec = get_elem?_lt a.session_vec n (some s) v.client.there in
    let at : get_elem? a1.session_vec n ≡ some (some s1) =
      subst (λ k. get_elem? (set a.session_vec k (some s1)) n ≡ some (some s1)) (sym own)
        (get_elem?-set_self a.session_vec n (some s1) bound) in
    let gone : get_elem? b1.session_vec m ≡ some none =
      get_elem?-set_self b.session_vec m none
        (get_elem?_lt b.session_vec m (some t) v.server.there) in
    (
      a1,
      b1,
      sm_pkt_udp_tx q b1,
      ended n (notify s1 SmEventType.disconnected SmErrType.no_error a1),
      p,
      q,
      ran,
      refl,
      disconnect_req-ends p t m b refl v.server_rpc refl v.server v.same_server v.same_client
          v.answered,
      refl,
      disconnect_resp-ends q s1 n a1 refl refl v.client_rpc refl at own v.client.role_of refl
          v.client.ring (endpoint_eq_same s.client) (endpoint_eq_same s.server),
      get_elem?-set_self a1.session_vec n none (get_elem?_lt a1.session_vec n (some s1) at),
      gone,
      refl,
      refl,
      ap
          (λ k.
            record { session_num = k; event = SmEventType.disconnected; error = SmErrType.no_error }
            ∷ a.events)
          own,
      disconnect_req-again p m b1 refl v.server_rpc refl gone,
      refl,
    )
