-- ===== src/Sm/Disconnect.antt =====
-- `handle_disconnect_req_st` and `handle_disconnect_resp_st` of
-- src/rpc_impl/rpc_disconnect_handlers.cc.
use sc_code.Common.{
  ℕ, Bool, true, false, ◌&&◌, none, some, List, [], ◌∷◌, ltb, ◌==◌, length, Outcome, ok, assert,
  ◌>>=◌, ◌>>◌,
}
use sc_code.Sm.{
  SessionState, state_eq, endpoint_eq, SmPkt, SmPktType, SmErrType, SmEventType, is_no_error,
  SmSession, Rpc, is_client, is_server,
}
use sc_code.Sm.Init.{invalid_req_type}
use sc_code.Sm.Helpers.{free_ring_entries, session_at, bury_session, notify}
use sc_code.Sm.Connect.{respond}

abbrev pub is_disconnect_req : SmPktType → Bool
is_disconnect_req SmPktType.disconnect_req = true
is_disconnect_req t = false

abbrev pub is_disconnect_resp : SmPktType → Bool
is_disconnect_resp SmPktType.disconnect_resp = true
is_disconnect_resp t = false

-- No slot has a request that its handler has not answered.
abbrev pub all_answered : List ℕ → Bool
all_answered [] = true
all_answered (t ∷ ts) = t == invalid_req_type && all_answered ts

unfoldable pub disconnect_server : SmPkt → SmSession → Rpc → Outcome Rpc
unfolding free_ring_entries respond bury_session
disconnect_server p s c = do
  assert (is_server s.role && state_eq s.state SessionState.connected)
  assert (endpoint_eq s.server p.server)
  assert (endpoint_eq s.client p.client)
  assert (all_answered s.req_types)
  c' ← free_ring_entries c
  c'' ← respond p SmErrType.no_error p.server c'
  bury_session s c''

-- The assertion on the number bounds `session_vec_.at(..)` as well.
unfoldable pub handle_disconnect_req : SmPkt → Rpc → Outcome Rpc
unfolding session_at respond disconnect_server
handle_disconnect_req p c = do
  assert (is_disconnect_req p.pkt_type && p.server.rpc_id == c.rpc_id)
  assert (ltb p.server.session_num (length c.session_vec))
  session ← session_at p.server.session_num c
  elim session [ none ↦ respond p SmErrType.no_error p.server c | some s ↦ disconnect_server p s c ]

unfoldable pub disconnect_client : SmPkt → SmSession → Rpc → Outcome Rpc
unfolding free_ring_entries bury_session
disconnect_client p s c = do
  assert (is_client s.role)
  assert (state_eq s.state SessionState.disconnect_in_progress)
  assert (endpoint_eq s.client p.client)
  assert (endpoint_eq s.server p.server)
  c' ← free_ring_entries c
  bury_session s (notify s SmEventType.disconnected SmErrType.no_error c')

unfoldable pub handle_disconnect_resp : SmPkt → Rpc → Outcome Rpc
unfolding session_at disconnect_client
handle_disconnect_resp p c = do
  assert (is_disconnect_resp p.pkt_type && p.client.rpc_id == c.rpc_id)
  assert (is_no_error p.err_type)
  assert (ltb p.client.session_num (length c.session_vec))
  session ← session_at p.client.session_num c
  elim session [ none ↦ ok c | some s ↦ disconnect_client p s c ]
