-- ===== src/Datapath/Credit.antt =====
-- Credits that come back: `bump_credits` and `update_timely_rate` of src/rpc.h and
-- `process_expl_cr_st` of src/rpc_impl/rpc_cr.cc. The rate computation that a round-trip sample
-- feeds is in floating point; the samples are kept as a list.
use sc_code.Common.{
  ℕ, ◌+◌, ◌%◌, ◌&&◌, List, [], ◌∷◌, ltb, leb, ◌==◌, if◌then◌else◌, Outcome, ok, assert, ◌>>=◌, ◌>>◌,
}
use sc_code.Packet.{PktHdr}
use sc_code.Datapath.{Config, Flow, Stamp, session_credits}
use sc_code.Datapath.Words.{sub_size}
use sc_code.Datapath.Kick.{kick_req, req_pkts_pending}

-- `tx_ts_[entry]` of a slot: the last stamp, or the zero that the slot starts with.
unfoldable pub tx_ts : ℕ → ℕ → ℕ → List Stamp → ℕ
tx_ts session sslot entry [] = 0
tx_ts session sslot entry (s ∷ stamps) =
    if s.session == session && s.sslot == sslot && s.entry == entry
    then s.tsc
    else tx_ts session sslot entry stamps

unfoldable pub update_timely_rate : ℕ → ℕ → Flow → Flow
unfolding tx_ts
update_timely_rate pkt_num rx_tsc f =
    let sent = tx_ts f.session f.slot.index (pkt_num % session_credits) f.tx.stamps in
    record f { rtt_samples = (rx_tsc, sub_size rx_tsc sent) ∷ f.rtt_samples }

-- The slot is a client's, so `assert(session->is_client())` holds.
unfoldable pub bump_credits : Flow → Outcome Flow
bump_credits f = do
  assert (ltb f.credits session_credits)
  ok (record f { credits = f.credits + 1 })

abbrev pub mark_progress : Flow → Flow
mark_progress f = record f { slot = record (f.slot) { progress_tsc = f.ev_loop_tsc } }

module _ (cfg : Config) where
  unfoldable pub process_expl_cr : PktHdr → ℕ → Flow → Outcome Flow
  unfolding update_timely_rate bump_credits
  process_expl_cr pkthdr rx_tsc f = do
    assert (leb pkthdr.req_num f.slot.cur_req_num)
    f' ← bump_credits (update_timely_rate pkthdr.pkt_num rx_tsc f)
    let g = mark_progress f'
    pending ← req_pkts_pending g.slot
    if pending then kick_req cfg g else ok g
