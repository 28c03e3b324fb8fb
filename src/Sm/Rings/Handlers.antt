-- ===== src/Sm/Rings/Handlers.antt =====
-- Every session management call makes one change of `Sm/Rings.antt`, or none, or does not return.
use sc_code.Common.{
  ℕ, ◌+◌, ◌-◌, ◌^◌, ◌<◌, ◌≡◌, refl, ap, true, not, ◌&&◌, Option, none, some, ◌∷◌, ltb, ◌==◌, length,
  get_elem?, set, snoc, arith,
}
use sc_code.Datapath.{session_credits}
use sc_code.Sm.{
  SessionState, state_eq, endpoint_eq, str_eq, is_invalid_rpc_id, is_no_error, SmPkt, SmErrType,
  SmSession, Rpc, is_client, is_server,
}
use sc_code.Sm.Init.{new_session, invalid_session_num}
use sc_code.Sm.Helpers.{send_sm_req, sm_pkt_udp_tx, have_ring_entries}
use sc_code.Sm.Connect.{
  handle_connect_req, handle_connect_resp, duplicate, first_request, accept, answered, connected,
  refused, server_session, resolve_rinfo, token_lookup, is_connect_resp, is_connect_req,
}
use sc_code.Sm.Disconnect.{
  handle_disconnect_req, handle_disconnect_resp, disconnect_server, disconnect_client, all_answered,
  is_disconnect_req, is_disconnect_resp,
}
use sc_code.Sm.Rings.{RingsOk, Change, keeps, moves, opens, closes, Begins, Moves, Ends}
use sc_code.Sm.Rings.Leads.{
  Leads, Leads-bind, Leads-assert, Leads-if, Leads-weaken, Same, respond-Same, respond-keeps,
  Leads-cases, session_at-Leads, freed-Leads, alloc-Leads, buried-Leads, Leads-found, state_eq→≡,
  both,
}

module _ (resolve : ℕ → Option ℕ) where
  connected-Leads :
      (p : SmPkt) (s : SmSession) (c : Rpc)
      → get_elem? c.session_vec s.local_session_num ≡ some (some s)
      → is_client s.role ≡ true
      → s.state ≡ SessionState.connect_in_progress
      → Leads (Change c) (connected resolve p s c)
  unfolding connected send_sm_req sm_pkt_udp_tx
  connected-Leads p s c at k st =
      Leads-cases (Change c) (resolve_rinfo resolve c p.server.routing_info) _ _
        (moves s _ at k (rw st Moves.gives_up) refl refl refl)
        (λ r. moves s _ at k (rw st Moves.connects) refl refl refl)

  refused-Leads :
      (p : SmPkt) (s : SmSession) (c : Rpc)
      → get_elem? c.session_vec s.local_session_num ≡ some (some s)
      → is_client s.role ≡ true
      → s.state ≡ SessionState.connect_in_progress
      → Leads (Change c) (refused resolve p s c)
  unfolding refused
  refused-Leads p s c at k st =
      freed-Leads (Change c) c _
        (buried-Leads (Change c) s _ (closes s at (Ends.refused k st) refl refl))

  answered-Leads :
      (p : SmPkt) (s : SmSession) (c : Rpc)
      → get_elem? c.session_vec s.local_session_num ≡ some (some s)
      → s.state ≡ SessionState.connect_in_progress
      → Leads (Change c) (answered resolve p s c)
  unfolding answered
  answered-Leads p s c at st =
      Leads-assert {B = Rpc} (Change c) (is_client s.role && endpoint_eq s.client p.client) _ (λ k.
        Leads-assert {B = Rpc} (Change c) (str_eq s.server.hostname p.server.hostname) _ (λ _.
          Leads-assert {B = Rpc} (Change c) (s.server.rpc_id == p.server.rpc_id) _ (λ _.
            Leads-assert {B = Rpc} (Change c) (s.server.session_num == invalid_session_num) _ (λ _.
              Leads-if (Change c) (is_invalid_rpc_id p.err_type && c.retry) _ _
                (λ _. keeps refl refl)
                (λ _.
                  Leads-if (Change c) (not (is_no_error p.err_type)) _ _
                    (λ _. refused-Leads p s c at (both _ _ k).0 st)
                    (λ _. connected-Leads p s c at (both _ _ k).0 st))))))

  pub handle_connect_resp-Leads :
      (p : SmPkt) (c : Rpc) → RingsOk c → Leads (Change c) (handle_connect_resp resolve p c)
  unfolding handle_connect_resp
  handle_connect_resp-Leads p c v =
      Leads-assert {B = Rpc} (Change c) (is_connect_resp p.pkt_type && p.client.rpc_id == c.rpc_id)
        _
        (λ _.
          Leads-assert {B = Rpc} (Change c) (ltb p.client.session_num (length c.session_vec)) _
            (λ _. session_at-Leads (Change c) p.client.session_num c _ (λ o e.
              Leads-found c p.client.session_num o _ _ v e (keeps refl refl) (λ s at.
                Leads-if (Change c) (not (state_eq s.state SessionState.connect_in_progress)) _ _
                  (λ _. keeps refl refl)
                  (λ b. answered-Leads p s c at (state_eq→≡ _ _ (ground arith)))))))

  accept-Leads :
      (p : SmPkt) (r : ℕ) (c : Rpc)
      → length c.session_vec < 2 ^ 16
      → Leads (Change c) (accept resolve p r c)
  unfolding accept server_session Same new_session
  accept-Leads p r c h =
      let s = server_session resolve p r c in
      let num : s.local_session_num ≡ length c.session_vec = omega arith in
      alloc-Leads (Change c) c _ (λ room.
        Leads-weaken
          (Same (record c {
            ring_entries_available = c.ring_entries_available - session_credits;
            conn_req_token_map = (s.uniq_token, s.server.session_num) ∷ c.conn_req_token_map;
            session_vec = snoc c.session_vec (some s);
          }))
          (Change c) _ (λ c' e. opens s (Begins.as_server refl refl) num e.0 (omega (arith, e.1)))
          (respond-Same p SmErrType.no_error s.server _))

  first_request-Leads :
      (p : SmPkt) (c : Rpc)
      → length c.session_vec < 2 ^ 16
      → Leads (Change c) (first_request resolve p c)
  unfolding first_request
  first_request-Leads p c h =
      Leads-if (Change c) (not (p.server.transport_type == c.transport_type)) _ _
        (λ _. respond-keeps p SmErrType.invalid_transport p.server c)
        (λ _.
          Leads-if (Change c) (not (have_ring_entries c)) _ _
            (λ _. respond-keeps p SmErrType.ring_exhausted p.server c)
            (λ _.
              Leads-cases (Change c) (resolve_rinfo resolve c p.client.routing_info) _ _
                (respond-keeps p SmErrType.routing_resolution_failure p.server c)
                (λ r. accept-Leads p r c h)))

  duplicate-Leads : (p : SmPkt) (n : ℕ) (c : Rpc) → Leads (Change c) (duplicate resolve p n c)
  unfolding duplicate
  duplicate-Leads p n c = Leads-assert {B = Rpc} (Change c) (ltb n (length c.session_vec)) _ (λ _.
      session_at-Leads (Change c) n c _ (λ o _. Leads-cases (Change c) o _ _ (keeps refl refl) (λ s.
        Leads-if (Change c) (not (state_eq s.state SessionState.connected)) _ _
          (λ _. keeps refl refl) (λ _. respond-keeps p SmErrType.no_error s.server c))))

  pub handle_connect_req-Leads :
      (p : SmPkt) (c : Rpc)
      → length c.session_vec < 2 ^ 16
      → Leads (Change c) (handle_connect_req resolve p c)
  unfolding handle_connect_req
  handle_connect_req-Leads p c h =
      Leads-assert {B = Rpc} (Change c) (is_connect_req p.pkt_type && p.server.rpc_id == c.rpc_id) _
        (λ _.
          Leads-cases (Change c) (token_lookup p.uniq_token c.conn_req_token_map) _ _
            (first_request-Leads p c h) (λ n. duplicate-Leads p n c))

disconnect_server-Leads :
    (p : SmPkt) (s : SmSession) (c : Rpc)
    → get_elem? c.session_vec s.local_session_num ≡ some (some s)
    → Leads (Change c) (disconnect_server p s c)
unfolding disconnect_server Same
disconnect_server-Leads p s c at =
    Leads-assert {B = Rpc} (Change c) (is_server s.role && state_eq s.state SessionState.connected)
      _
      (λ k. Leads-assert {B = Rpc} (Change c) (endpoint_eq s.server p.server) _ (λ _.
        Leads-assert {B = Rpc} (Change c) (endpoint_eq s.client p.client) _ (λ _.
          Leads-assert {B = Rpc} (Change c) (all_answered s.req_types) _ (λ _.
            freed-Leads (Change c) c _ (
              Leads-bind
                (Same (record c {
                  ring_entries_available = c.ring_entries_available + session_credits;
                }))
                (Change c) _ _ (respond-Same p SmErrType.no_error p.server _)
                (λ c' e. buried-Leads (Change c) s c' (
                  closes s at (Ends.left (both _ _ k).0 (state_eq→≡ _ _ (both _ _ k).1))
                    (ap (λ v. set v s.local_session_num none) e.0) e.1)))))))

pub handle_disconnect_req-Leads :
    (p : SmPkt) (c : Rpc) → RingsOk c → Leads (Change c) (handle_disconnect_req p c)
unfolding handle_disconnect_req
handle_disconnect_req-Leads p c v =
    Leads-assert {B = Rpc} (Change c) (is_disconnect_req p.pkt_type && p.server.rpc_id == c.rpc_id)
      _
      (λ _.
        Leads-assert {B = Rpc} (Change c) (ltb p.server.session_num (length c.session_vec)) _ (λ _.
          session_at-Leads (Change c) p.server.session_num c _ (λ o e.
            Leads-found c p.server.session_num o _ _ v e
              (respond-keeps p SmErrType.no_error p.server c)
              (λ s at. disconnect_server-Leads p s c at))))

disconnect_client-Leads :
    (p : SmPkt) (s : SmSession) (c : Rpc)
    → get_elem? c.session_vec s.local_session_num ≡ some (some s)
    → Leads (Change c) (disconnect_client p s c)
unfolding disconnect_client
disconnect_client-Leads p s c at = Leads-assert {B = Rpc} (Change c) (is_client s.role) _ (λ k.
    Leads-assert {B = Rpc} (Change c) (state_eq s.state SessionState.disconnect_in_progress) _
      (λ st. Leads-assert {B = Rpc} (Change c) (endpoint_eq s.client p.client) _ (λ _.
        Leads-assert {B = Rpc} (Change c) (endpoint_eq s.server p.server) _ (λ _.
          freed-Leads (Change c) c _ (
            buried-Leads (Change c) s _
              (closes s at (Ends.disconnected k (state_eq→≡ _ _ st)) refl refl))))))

pub handle_disconnect_resp-Leads :
    (p : SmPkt) (c : Rpc) → RingsOk c → Leads (Change c) (handle_disconnect_resp p c)
unfolding handle_disconnect_resp
handle_disconnect_resp-Leads p c v =
    Leads-assert {B = Rpc} (Change c) (is_disconnect_resp p.pkt_type && p.client.rpc_id == c.rpc_id)
      _
      (λ _. Leads-assert {B = Rpc} (Change c) (is_no_error p.err_type) _ (λ _.
        Leads-assert {B = Rpc} (Change c) (ltb p.client.session_num (length c.session_vec)) _ (λ _.
          session_at-Leads (Change c) p.client.session_num c _ (λ o e.
            Leads-found c p.client.session_num o _ _ v e (keeps refl refl)
              (λ s at. disconnect_client-Leads p s c at)))))
