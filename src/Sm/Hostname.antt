-- ===== src/Sm/Hostname.antt =====
-- The longest hostname that `create_session_st` (src/rpc_impl/rpc_sm_api.cc) lets through.
use sc_code.Common.{
  ℕ, ◌≤◌, ◌<◌, ◌≡◌, refl, true, false, ◌&&◌, List, ◌==◌, length, lt→ltb, le→leb, err, bad_access,
}
use sc_code.Datapath.{session_credits}
use sc_code.Sm.{Rpc, str_eq}
use sc_code.Sm.Helpers.{max_hostname_len}
use sc_code.Sm.Api.{create_session}

-- A remote hostname of exactly the greatest length is not refused, and its terminator is written
-- behind the array that it is copied to.
pub create_session_overflows :
    (host : List ℕ) (port rid token : ℕ) (c : Rpc)
    → length host ≡ max_hostname_len
    → length c.hostname < max_hostname_len
    → (str_eq host c.hostname && rid == c.rpc_id && port == c.sm_udp_port) ≡ false
    → session_credits ≤ c.ring_entries_available
    → create_session true host port rid token c ≡ err bad_access
unfolding create_session
create_session_overflows host port rid token c full own apart room =
    rw (create_session, full, apart, le→leb _ _ room, lt→ltb _ _ own) refl
