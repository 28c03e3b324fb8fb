-- ===== src/Sm/Handshake.antt =====
-- The connection of two Rpcs: `create_session_st` at the client, `handle_connect_req_st` at the
-- server, and `handle_connect_resp_st` at the client.
use sc_code.Common.{
  ℕ, ◌-◌, ◌≤◌, ◌<◌, ◌≡◌, ◌∙◌, refl, ap, inr, true, false, ◌&&◌, Option, none, some, ◌∷◌, ltb, ◌==◌,
  length, length-snoc, length-set, get_elem?, get_elem?-set_self, get_elem?-snoc_end, snoc, ok,
  lt→ltb, le→leb, subst, arith,
}
use sc_code.Datapath.{session_credits}
use sc_code.Sm.{SessionState, str_eq, SmPkt, SmErrType, SmEventType, SmPktType, SmSession, Rpc}
use sc_code.Sm.Init.{new_session}
use sc_code.Sm.Helpers.{send_sm_req, sm_pkt_udp_tx, max_hostname_len, req_pkt}
use sc_code.Sm.Api.{create_session, client_session}
use sc_code.Sm.Connect.{
  handle_connect_req, handle_connect_resp, server_session, resolve_rinfo, token_lookup,
}
use sc_code.Sm.Steps.{
  ==_same, str_eq_same, endpoint_eq_same, alloc_ring-ok, with_server_session, accept-sent,
  first_request-accepted, connect_req-first, client_connected, connected-notifies,
  answered-connected, connect_resp-answered,
}

-- The client's call, where it may connect to the server.
pub record MayConnect (a b : Rpc) (token : ℕ) : Type 0 where
  pub client_name : length a.hostname < max_hostname_len
  pub server_name : length b.hostname < max_hostname_len
  pub named : 0 < length b.hostname
  pub apart :
      (str_eq b.hostname a.hostname && b.rpc_id == a.rpc_id && b.sm_udp_port == a.sm_udp_port)
      ≡ false
  pub client_ring : session_credits ≤ a.ring_entries_available
  pub server_ring : session_credits ≤ b.ring_entries_available
  pub same_transport : a.transport_type ≡ b.transport_type
  pub client_sessions : length a.session_vec < 65535
  pub server_sessions : length b.session_vec < 65535
  pub new_token : token_lookup token b.conn_req_token_map ≡ none

abbrev with_client_session : SmSession → Rpc → Rpc
with_client_session s a = record a {
  ring_entries_available = a.ring_entries_available - session_credits;
  session_vec = snoc a.session_vec (some s);
}

create_session-sends :
    (a b : Rpc) (token : ℕ)
    → MayConnect a b token
    → let s = client_session a.hostname b.hostname b.sm_udp_port b.rpc_id token a in
      create_session true b.hostname b.sm_udp_port b.rpc_id token a
      ≡ ok (inr s.client.session_num, send_sm_req s (with_client_session s a))
unfolding create_session
create_session-sends a b token v =
    let not_zero : (length b.hostname == 0) ≡ false = ground (arith, v.named) in
    let not_long : ltb max_hostname_len (length b.hostname) ≡ false =
      ground (arith, v.server_name) in
    rw
      (
        create_session,
        not_zero,
        not_long,
        v.apart,
        le→leb _ _ v.client_ring,
        lt→ltb _ _ v.client_name,
        lt→ltb _ _ v.server_name,
        alloc_ring-ok a v.client_ring,
      )
      refl

module _ (resolve_a resolve_b : ℕ → Option ℕ) where
  -- A client's call, the server's handling of the request that it sends, and the client's handling of
  -- the response that the server sends leave both sides with a connected session, each with the
  -- other's number as its remote one, and the client's application notified once.
  pub handshake_connects :
      (a b : Rpc) (token ra rb : ℕ)
      → MayConnect a b token
      → resolve_rinfo resolve_b b a.local_rinfo ≡ some ra
      → resolve_rinfo resolve_a a b.local_rinfo ≡ some rb
      → (a1 b1 a2 : Rpc) × (p q : SmPkt) × (s t : SmSession) × (create_session true b.hostname
            b.sm_udp_port b.rpc_id token a
          ≡ ok (inr (length a.session_vec), a1))
        × (a1.sent ≡ (b.hostname, b.sm_udp_port, p) ∷ a.sent)
        × (handle_connect_req resolve_b p b ≡ ok b1)
        × (b1.sent ≡ (a.hostname, a.sm_udp_port, q) ∷ b.sent)
        × (handle_connect_resp resolve_a q a1 ≡ ok a2)
        × (get_elem? a2.session_vec (length a.session_vec) ≡ some (some s))
        × (s.state ≡ SessionState.connected)
        × (s.remote_session_num ≡ length b.session_vec)
        × (get_elem? b1.session_vec (length b.session_vec) ≡ some (some t))
        × (t.state ≡ SessionState.connected)
        × (t.remote_session_num ≡ length a.session_vec)
        × (a2.events
            ≡ record {
              session_num = length a.session_vec;
              event = SmEventType.connected;
              error = SmErrType.no_error;
            }
              ∷ a.events)
  unfolding client_session new_session server_session send_sm_req sm_pkt_udp_tx
  handshake_connects a b token ra rb v e f =
      let s0 = client_session a.hostname b.hostname b.sm_udp_port b.rpc_id token a in
      let s1 = record s0 { sm_req_ts = a.tsc } in
      let p = req_pkt s1 in
      let a1 = send_sm_req s0 (with_client_session s0 a) in
      let t = server_session resolve_b p ra b in
      let q = record p {
        pkt_type = SmPktType.connect_resp;
        err_type = SmErrType.no_error;
        server = t.server;
      } in
      let b1 = sm_pkt_udp_tx q (with_server_session p t b) in
      let a2 = client_connected resolve_a q rb s1 a1 in
      let s = record s1 {
        server = record (q.server) { routing_info = rb };
        remote_session_num = q.server.session_num;
        state = SessionState.connected;
        prev_desired_tx_tsc = a1.tsc;
      } in
      let num_a : s0.local_session_num ≡ length a.session_vec = omega (arith, v.client_sessions) in
      let num_b : t.local_session_num ≡ length b.session_vec = omega (arith, v.server_sessions) in
      let vec = snoc a.session_vec (some s0) in
      let room : s0.local_session_num < length vec =
        omega (arith, num_a, length-snoc a.session_vec (some s0)) in
      let at : get_elem? a1.session_vec s0.local_session_num ≡ some (some s1) =
        get_elem?-set_self vec s0.local_session_num (some s1) room in
      let room' : s0.local_session_num < length a1.session_vec =
        omega (arith, room, length-set vec s0.local_session_num (some s1)) in
      let same : (a.transport_type == b.transport_type) ≡ true = ground (arith, v.same_transport) in
      (
        a1,
        b1,
        a2,
        p,
        q,
        s,
        t,
        create_session-sends a b token v ∙ ap (λ n. ok (inr n, a1)) num_a,
        refl,
        connect_req-first resolve_b p b refl refl v.new_token
            ∙ first_request-accepted resolve_b p ra b same v.server_ring e
            ∙ accept-sent resolve_b p ra b refl v.server_ring,
        refl,
        connect_resp-answered resolve_a q s1 a1 refl refl room' at refl
            ∙ answered-connected resolve_a q s1 a1 refl (endpoint_eq_same s1.client)
                (str_eq_same b.hostname) (==_same b.rpc_id) refl refl
            ∙ connected-notifies resolve_a q rb s1 a1 f,
        subst (λ n. get_elem? a2.session_vec n ≡ some (some s)) num_a
            (get_elem?-set_self a1.session_vec s0.local_session_num (some s) room'),
        refl,
        num_b,
        get_elem?-snoc_end b.session_vec (some t),
        refl,
        num_a,
        ap
            (λ n.
              record { session_num = n; event = SmEventType.connected; error = SmErrType.no_error }
              ∷ a.events)
            num_a,
      )
