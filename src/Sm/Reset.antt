-- ===== src/Sm/Reset.antt =====
-- `handle_reset_server_st` of src/rpc_impl/rpc_reset_handlers.cc.
use sc_code.Common.{
  ℕ, ◌+◌, Bool, true, false, List, [], ◌∷◌, ◌==◌, if◌then◌else◌, Outcome, ok, assert, ◌>>=◌, ◌>>◌,
}
use sc_code.Sm.{SessionState, SmSession, Rpc, is_server}
use sc_code.Sm.Init.{invalid_req_type}
use sc_code.Sm.Helpers.{free_ring_entries, bury_session, put_session}

abbrev pub pending_enqueue_resps : List ℕ → ℕ
pending_enqueue_resps [] = 0
pending_enqueue_resps (t ∷ ts) = (if t == invalid_req_type then 0 else 1) + pending_enqueue_resps ts

-- True where the session is gone.
unfoldable pub handle_reset_server : SmSession → Rpc → Outcome (Bool × Rpc)
unfolding free_ring_entries bury_session
handle_reset_server s c = do
  assert (is_server s.role)
  let s' = record s { state = SessionState.reset_in_progress }
  let c' = put_session s' c
  if pending_enqueue_resps s.req_types == 0
      then (do c'' ← free_ring_entries c'; c''' ← bury_session s' c''; ok (true, c'''))
      else ok (false, c')
