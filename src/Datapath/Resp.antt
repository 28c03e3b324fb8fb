-- ===== src/Datapath/Resp.antt =====
-- One response packet at the client: the first part of `process_resp_one_st`
-- (src/rpc_impl/rpc_resp.cc), up to the test whether the response is complete.
pub mod Reassembly
pub mod Credits
use sc_code.Common.{
  ℕ, ◌+◌, ◌%◌, ◌^◌, Bool, true, ◌&&◌, none, some, List, ◌++◌, leb, ◌==◌, if◌then◌else◌, take,
  Outcome, ok, err, bad_access, assert, ◌>>=◌, ◌>>◌,
}
use sc_code.Packet.{PktHdr}
use sc_code.Packet.Sizes.{wire_pkts}
use sc_code.Datapath.{Config, Flow, RespBuf, rx_ring, new_buff}
use sc_code.Datapath.Words.{add_size}
use sc_code.Datapath.Kick.{kick_rfr, tx_msg, hdr_0}
use sc_code.Datapath.Credit.{update_timely_rate, bump_credits, mark_progress}

-- A response of one packet is left in the RX ring.
unfoldable pub store_small : PktHdr → List ℕ → RespBuf → RespBuf
store_small pkthdr body r = record r {
  iov_begin = 0;
  iov_end = 1;
  first = rx_ring (take pkthdr.this_msg_size body);
}

-- `resp_msgbuf.clear(); iov_begin = iov_end = 0;`
unfoldable pub restart : RespBuf → RespBuf
restart r = record r { iov_begin = 0; iov_end = 0; bytes = none; used_size = 0 }

-- The first packet to come allocates the message and is copied to its start.
unfoldable pub store_first : PktHdr → List ℕ → RespBuf → Outcome RespBuf
store_first pkthdr body r =
    if leb pkthdr.this_msg_size pkthdr.msg_size
    then ok (record r {
      iov_end = 1;
      first = new_buff pkthdr.msg_size;
      bytes = some (take pkthdr.this_msg_size body);
      cap = pkthdr.msg_size;
      used_size = pkthdr.this_msg_size;
    })
    else err bad_access

-- Any later one is copied behind what has come so far.
unfoldable pub store_next : PktHdr → List ℕ → RespBuf → Outcome RespBuf
store_next pkthdr body r = elim r.bytes [
  | none ↦ err bad_access
  | some bs ↦
      if leb (r.used_size + pkthdr.this_msg_size) r.cap
      then ok (record r {
        bytes = some (bs ++ take pkthdr.this_msg_size body);
        used_size = (r.used_size + pkthdr.this_msg_size) % 2 ^ 32;
      })
      else err bad_access
]

unfoldable pub store_large : PktHdr → List ℕ → RespBuf → Outcome RespBuf
unfolding restart store_first store_next
store_large pkthdr body r =
    let r' = if pkthdr.pkt_num == 0 then restart r else r in
    if r'.iov_begin == 0 && r'.iov_end == 0
    then store_first pkthdr body r'
    else store_next pkthdr body r'

abbrev pub set_resp : RespBuf → Flow → Flow
set_resp r f = record f { slot = record (f.slot) { resp = r } }

module _ (cfg : Config) where
  -- RFRs go out unless everything has been asked for.
  unfoldable pub kick_rfr_if_pending : PktHdr → Flow → Outcome Flow
  kick_rfr_if_pending pkthdr f = do
    msg ← tx_msg f.slot
    h ← hdr_0 msg
    let total = wire_pkts h.total_pkt pkthdr.total_pkt
    if f.slot.num_tx == total then ok f else kick_rfr cfg (some pkthdr) f

  unfoldable pub process_large_resp_pkt : PktHdr → List ℕ → Flow → Outcome (Flow × Bool)
  process_large_resp_pkt pkthdr body f = do
    k ← kick_rfr_if_pending pkthdr f
    r ← store_large pkthdr body k.slot.resp
    ok (set_resp r k, k.slot.num_rx == pkthdr.total_pkt)

  -- The flag says that the response is complete.
  unfoldable pub process_resp_pkt : PktHdr → ℕ → List ℕ → Flow → Outcome (Flow × Bool)
  unfolding update_timely_rate bump_credits store_small
  process_resp_pkt pkthdr rx_tsc body f = do
    assert (leb pkthdr.req_num f.slot.cur_req_num)
    f' ← bump_credits (update_timely_rate pkthdr.pkt_num rx_tsc f)
    let g =
        mark_progress (record f' { slot = record (f'.slot) { num_rx = add_size f'.slot.num_rx 1 } })
    let small = set_resp (store_small pkthdr body g.slot.resp) g
    if leb pkthdr.msg_size cfg.max_data_per_pkt
        then ok (small, true)
        else process_large_resp_pkt pkthdr body g
