-- ===== src/Sm/Api.antt =====
-- `create_session_st`, `destroy_session_st` and `num_active_sessions_st` of
-- src/rpc_impl/rpc_sm_api.cc. The hostname and port are those that the URI was split into.
use sc_code.Common.{
  ℕ, suc, ◌%◌, ◌^◌, Bool, true, not, ◌&&◌, ◌||◌, Option, none, some, List, [], ◌∷◌, ltb, ◌==◌,
  if◌then◌else◌, length, get_elem?, snoc, ◌⊎◌, inl, inr, Outcome, ok, assert, ◌>>=◌, ◌>>◌,
}
use sc_code.Datapath.{SSlot, session_req_window}
use sc_code.Datapath.Request.{is_null}
use sc_code.Sm.{ℤ, pos, negsuc, SessionState, SmSession, Rpc, Role, is_client, str_eq}
use sc_code.Sm.Init.{new_session, no_endpoint}
use sc_code.Sm.Helpers.{
  max_hostname_len, copy_hostname, have_ring_entries, alloc_ring_entries, send_sm_req,
}

pub data Errno : Type 0 where
  eperm einval enomem ebusy ealready : Errno

-- The client's session of a new connection, with both endpoints as far as they are known.
unfoldable pub client_session : List ℕ → List ℕ → ℕ → ℕ → ℕ → Rpc → SmSession
client_session own_hostname rem_hostname rem_sm_udp_port rem_rpc_id uniq_token c =
    let num = length c.session_vec % 2 ^ 16 in
    record (new_session Role.client uniq_token) {
      state = SessionState.connect_in_progress;
      local_session_num = num;
      client = record {
        transport_type = c.transport_type;
        hostname = own_hostname;
        sm_udp_port = c.sm_udp_port;
        rpc_id = c.rpc_id;
        session_num = num;
        routing_info = c.local_rinfo;
      };
      server = record no_endpoint {
        transport_type = c.transport_type;
        hostname = rem_hostname;
        sm_udp_port = rem_sm_udp_port;
        rpc_id = rem_rpc_id;
      };
    }

-- Returns the error or the session's number; `uniq_token` is the random number drawn for it.
unfoldable pub create_session : Bool → List ℕ → ℕ → ℕ → ℕ → Rpc → Outcome ((Errno ⊎ ℕ) × Rpc)
create_session in_dispatch rem_hostname rem_sm_udp_port rem_rpc_id uniq_token c =
    if not in_dispatch
    then ok (inl Errno.eperm, c)
    else if length rem_hostname == 0 || ltb max_hostname_len (length rem_hostname)
    then ok (inl Errno.einval, c)
    else if str_eq rem_hostname c.hostname
        && rem_rpc_id == c.rpc_id
        && rem_sm_udp_port == c.sm_udp_port
    then ok (inl Errno.einval, c)
    else if not (have_ring_entries c)
    then ok (inl Errno.enomem, c)
    else (do
      own ← copy_hostname c.hostname
      rem ← copy_hostname rem_hostname
      let s = client_session own rem rem_sm_udp_port rem_rpc_id uniq_token c
      c' ← alloc_ring_entries c
      let c'' = record c' { session_vec = snoc c'.session_vec (some s) }
      ok (inr s.client.session_num, send_sm_req s c''))

abbrev pub all_idle : List SSlot → Bool
all_idle [] = true
all_idle (s ∷ ss) = is_null s.tx_msgbuf && all_idle ss

unfoldable pub destroy_connected : SmSession → Rpc → (Errno ⊎ Unit {0}) × Rpc
destroy_connected s c = elim s.state [
  | SessionState.connect_in_progress ↦ (inl Errno.eperm, c)
  | SessionState.connected ↦
      (inr tt, send_sm_req (record s { state = SessionState.disconnect_in_progress }) c)
  | SessionState.disconnect_in_progress ↦ (inl Errno.ealready, c)
  | SessionState.reset_in_progress ↦ (inr tt, c)
]

unfoldable pub destroy_idle : SmSession → Rpc → Outcome ((Errno ⊎ Unit {0}) × Rpc)
destroy_idle s c =
    if not (is_client s.role)
    then ok (inl Errno.einval, c)
    else if not (length s.sslot_free_vec == session_req_window)
    then ok (inl Errno.ebusy, c)
    else (do assert (all_idle s.sslots); ok (destroy_connected s c))

unfoldable pub destroy_session : Bool → ℤ → Rpc → Outcome ((Errno ⊎ Unit {0}) × Rpc)
destroy_session in_dispatch (negsuc n) c =
    if not in_dispatch then ok (inl Errno.eperm, c) else ok (inl Errno.einval, c)
destroy_session in_dispatch (pos n) c =
    if not in_dispatch then ok (inl Errno.eperm, c) else elim (get_elem? c.session_vec n) [
      | none ↦ ok (inl Errno.einval, c)
      | some session ↦ elim session [ none ↦ ok (inl Errno.eperm, c) | some s ↦ destroy_idle s c ]
    ]

abbrev pub num_active : List (Option SmSession) → ℕ
num_active [] = 0
num_active (none ∷ rest) = num_active rest
num_active (some s ∷ rest) = suc (num_active rest)

abbrev pub num_active_sessions : Rpc → ℕ
num_active_sessions c = num_active c.session_vec
