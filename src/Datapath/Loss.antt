-- ===== src/Datapath/Loss.antt =====
-- Packet loss: `pkt_loss_retransmit_st` and the data path half of `pkt_loss_scan_st` of
-- src/rpc_impl/rpc_pkt_loss.cc.
pub mod Rollback
pub mod Scan
use sc_code.Common.{
  Bool, true, false, List, [], ◌∷◌, ◌&&◌, ℕ, ◌+◌, not, ltb, leb, ◌==◌, if◌then◌else◌, Outcome, ok,
  assert, ◌>>=◌, ◌>>◌,
}
use sc_code.Datapath.{Config, Flow, session_credits}
use sc_code.Datapath.Words.{add_size, sub_size}
use sc_code.Datapath.Batch.{drain_tx_batch_and_dma_queue}
use sc_code.Datapath.Kick.{kick_req, req_pkts_pending}
use sc_code.Datapath.Request.{is_null}

-- Back to what has been received: the credits return, and the packets are to be sent again.
unfoldable pub roll_back : Flow → Flow
roll_back f = record f {
  slot = record (f.slot) { num_tx = f.slot.num_rx; progress_tsc = f.ev_loop_tsc };
  credits = add_size f.credits (sub_size f.slot.num_tx f.slot.num_rx);
  session_re_tx = f.session_re_tx + 1;
  num_re_tx = f.num_re_tx + 1;
}

-- `std::find` in a list of slots.
abbrev pub has_slot : ℕ → ℕ → List (ℕ × ℕ) → Bool
has_slot session i [] = false
has_slot session i ((s, j) ∷ slots) =
    if s == session && j == i then true else has_slot session i slots

module _ (cfg : Config) where
  -- Where the request is sent, nothing is sent again: the call of `kick_rfr_st` is commented out.
  unfoldable pub retransmit : Flow → Outcome Flow
  retransmit f = do pending ← req_pkts_pending f.slot; if pending then kick_req cfg f else ok f

  -- `stallq_` is searched as well, which has pointers to slots.
  unfoldable pub pkt_loss_retransmit : List (ℕ × ℕ) → Flow → Outcome Flow
  pkt_loss_retransmit stallq f = do
    assert (not (is_null f.slot.tx_msgbuf))
    let delta = sub_size f.slot.num_tx f.slot.num_rx
    assert (leb (add_size f.credits delta) session_credits)
    let waits = record f { still_in_wheel = f.still_in_wheel + 1 }
    if delta == 0 then ok f else (do
      assert (not (has_slot f.session f.slot.index stallq))
      if ltb 0 f.slot.wheel_count then ok waits else retransmit (roll_back f))

  -- One slot of the scan. Server failure is not looked for (`if (false)`).
  unfoldable pub scan_slot : ℕ → List (ℕ × ℕ) → Flow → Outcome Flow
  unfolding pkt_loss_retransmit
  scan_slot rpc_rto_cycles stallq f =
      if f.slot.num_tx == f.slot.num_rx
      then ok f
      else if ltb rpc_rto_cycles (sub_size f.ev_loop_tsc f.slot.progress_tsc)
      then (do
        f' ← pkt_loss_retransmit stallq f
        t ← drain_tx_batch_and_dma_queue f'.tx
        ok (record f' { tx = t }))
      else ok f
