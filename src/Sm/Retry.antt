-- ===== src/Sm/Retry.antt =====
-- A connect request that comes twice (`handle_connect_req_st`, src/rpc_impl/rpc_connect_handlers.cc).
use sc_code.Common.{
  ℕ, ◌+◌, ◌≤◌, ◌<◌, ◌≡◌, ◌∙◌, refl, sym, true, ◌&&◌, Option, none, some, ◌∷◌, ltb, ◌==◌, length,
  length-snoc, get_elem?, get_elem?-snoc_end, ok, assert-true, lt→ltb, subst, arith,
}
use sc_code.Datapath.{session_credits}
use sc_code.Sm.{SessionState, SmPkt, SmErrType, SmPktType, SmSession, Rpc}
use sc_code.Sm.Init.{new_session}
use sc_code.Sm.Helpers.{sm_pkt_udp_tx}
use sc_code.Sm.Connect.{
  handle_connect_req, respond, duplicate, server_session, resolve_rinfo, token_lookup,
  is_connect_req,
}
use sc_code.Sm.Steps.{
  ==_same, respond-sent, session_at-some, with_server_session, accept-sent, first_request-accepted,
  connect_req-first,
}

module _ (resolve : ℕ → Option ℕ) where
  duplicate-resends :
      (p : SmPkt) (n : ℕ) (t : SmSession) (c : Rpc)
      → n < length c.session_vec
      → get_elem? c.session_vec n ≡ some (some t)
      → t.state ≡ SessionState.connected
      → duplicate resolve p n c ≡ respond p SmErrType.no_error t.server c
  unfolding duplicate
  duplicate-resends p n t c low at st =
      assert-true (ltb n (length c.session_vec)) _ (lt→ltb _ _ low)
      ∙ rw (session_at-some n c (some t) at, st) refl

  connect_req-known :
      (p : SmPkt) (n : ℕ) (c : Rpc)
      → p.pkt_type ≡ SmPktType.connect_req
      → p.server.rpc_id ≡ c.rpc_id
      → token_lookup p.uniq_token c.conn_req_token_map ≡ some n
      → handle_connect_req resolve p c ≡ duplicate resolve p n c
  unfolding handle_connect_req
  connect_req-known p n c t id known =
      let mine : (p.server.rpc_id == c.rpc_id) ≡ true = ground arith in
      assert-true (is_connect_req p.pkt_type && p.server.rpc_id == c.rpc_id) _ (rw (t, mine) refl)
      ∙ rw known refl

  -- A first connect request that a server can take opens one session. The same request again, as a
  -- client repeats it when the response is lost, gets the same response again and changes no session,
  -- no ring entry and no token.
  pub connect_req_idempotent :
      (p : SmPkt) (r : ℕ) (b : Rpc)
      → p.pkt_type ≡ SmPktType.connect_req
      → p.server.rpc_id ≡ b.rpc_id
      → token_lookup p.uniq_token b.conn_req_token_map ≡ none
      → p.server.transport_type ≡ b.transport_type
      → session_credits ≤ b.ring_entries_available
      → resolve_rinfo resolve b p.client.routing_info ≡ some r
      → length b.session_vec < 65535
      → (b1 b2 : Rpc) × (q : SmPkt) × (handle_connect_req resolve p b ≡ ok b1)
        × (b1.sent ≡ (p.client.hostname, p.client.sm_udp_port, q) ∷ b.sent)
        × (length b1.session_vec ≡ length b.session_vec + 1)
        × (handle_connect_req resolve p b1 ≡ ok b2)
        × (b2.sent ≡ (p.client.hostname, p.client.sm_udp_port, q) ∷ b1.sent)
        × (b2 ≡ record b1 { sent = b2.sent })
  unfolding server_session new_session sm_pkt_udp_tx
  connect_req_idempotent p r b kind id new same room e h =
      let t = server_session resolve p r b in
      let q = record p {
        pkt_type = SmPktType.connect_resp;
        err_type = SmErrType.no_error;
        server = t.server;
      } in
      let b1 = sm_pkt_udp_tx q (with_server_session p t b) in
      let num : t.server.session_num ≡ length b.session_vec = omega (arith, h) in
      let low : t.server.session_num < length b1.session_vec =
        omega (arith, num, length-snoc b.session_vec (some t)) in
      let at : get_elem? b1.session_vec t.server.session_num ≡ some (some t) =
        subst (λ n. get_elem? b1.session_vec n ≡ some (some t)) (sym num)
          (get_elem?-snoc_end b.session_vec (some t)) in
      let known : token_lookup p.uniq_token b1.conn_req_token_map ≡ some t.server.session_num =
        rw (==_same p.uniq_token) refl in
      (
        b1,
        sm_pkt_udp_tx q b1,
        q,
        connect_req-first resolve p b kind id new
            ∙ first_request-accepted resolve p r b (ground (arith, same)) room e
            ∙ accept-sent resolve p r b kind room,
        refl,
        length-snoc b.session_vec (some t),
        connect_req-known p t.server.session_num b1 kind id known
            ∙ duplicate-resends p t.server.session_num t b1 low at refl
            ∙ respond-sent p SmErrType.no_error t.server b1 kind,
        refl,
        refl,
      )
