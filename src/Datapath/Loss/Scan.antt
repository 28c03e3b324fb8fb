-- ===== src/Datapath/Loss/Scan.antt =====
-- The data path half of `pkt_loss_scan_st` (src/rpc_impl/rpc_pkt_loss.cc), over the list of active
-- requests, which the scan leaves as it is.
use sc_code.Common.{ℕ, List, [], ◌∷◌, Outcome, ok, ◌>>=◌}
use sc_code.Datapath.{Config}
use sc_code.Datapath.Client.{on_slot}
use sc_code.Datapath.Loss.{scan_slot}
use sc_code.Datapath.Queues.{Clients, on_session}

module _ (cfg : Config) (rpc_rto_cycles : ℕ) where
  unfoldable pub scan_slots : List (ℕ × ℕ) → Clients → Outcome Clients
  scan_slots [] c = ok c
  scan_slots ((k, i) ∷ active) c = do
    c' ← on_session k (λ e. on_slot i (scan_slot cfg rpc_rto_cycles e.stallq) e) c
    scan_slots active c'

  unfoldable pub scan_active_rpcs : Clients → Outcome Clients
  scan_active_rpcs c = scan_slots c.rest.active_rpcs c
