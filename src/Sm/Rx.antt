-- ===== src/Sm/Rx.antt =====
-- `handle_sm_rx_st` of src/rpc_impl/rpc_sm_helpers.cc: the packets that the Nexus has queued.
use sc_code.Common.{
  ℕ, false, not, ◌&&◌, Option, List, [], ◌∷◌, if◌then◌else◌, Outcome, ok, err, runtime_error,
  assert, ◌>>=◌, ◌>>◌,
}
use sc_code.Sm.{SmPkt, SmPktType, sm_pkt_type_is_req, Rpc}
use sc_code.Sm.Helpers.{has, erase}
use sc_code.Sm.Connect.{handle_connect_req, handle_connect_resp}
use sc_code.Sm.Disconnect.{handle_disconnect_req, handle_disconnect_resp}

-- `SmWorkItem`: a packet, or a reset of all sessions with a host.
pub data SmWorkItem : Type 0 where
  pkt : SmPkt → SmWorkItem
  reset : List ℕ → SmWorkItem

-- A response ends the wait for it.
abbrev pub clear_pending : SmPkt → Rpc → Rpc
clear_pending p c = record c {
  sm_pending_reqs =
      if not (sm_pkt_type_is_req p.pkt_type) && has p.client.session_num c.sm_pending_reqs
      then erase p.client.session_num c.sm_pending_reqs
      else c.sm_pending_reqs;
}

module _ (resolve : ℕ → Option ℕ) where
  unfoldable pub dispatch : SmPktType → SmPkt → Rpc → Outcome Rpc
  dispatch SmPktType.unblock p c = err runtime_error
  dispatch SmPktType.ping_req p c = err runtime_error
  dispatch SmPktType.ping_resp p c = err runtime_error
  dispatch SmPktType.connect_req p c = handle_connect_req resolve p c
  dispatch SmPktType.connect_resp p c = handle_connect_resp resolve p c
  dispatch SmPktType.disconnect_req p c = handle_disconnect_req p c
  dispatch SmPktType.disconnect_resp p c = handle_disconnect_resp p c

  unfoldable pub handle_sm_rx : List SmWorkItem → Rpc → Outcome Rpc
  unfolding dispatch
  handle_sm_rx [] c = ok c
  handle_sm_rx (SmWorkItem.reset host ∷ queue) c = assert false >> ok c
  handle_sm_rx (SmWorkItem.pkt p ∷ queue) c = do
    c' ← dispatch p.pkt_type p (clear_pending p c)
    handle_sm_rx queue c'
