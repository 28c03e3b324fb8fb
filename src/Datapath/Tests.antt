-- ===== src/Datapath/Tests.antt =====
-- Tests of the client's packet handlers, and the theorems about them at concrete states.
use sc_code.Common.{
  ℕ, ◌+◌, ◌-◌, ◌≤◌, ◌≡◌, ◌⊎◌, refl, List, [], ◌∷◌, replicate, some, none, ok, err, false,
  assert_failed, arith,
}
use sc_code.Packet.{PktHdr, PktType}
use sc_code.Packet.Sizes.{wire_pkts}
use sc_code.Datapath.{Config, Serializer, nowhere, RespBuf, SSlot, CtrlRing, Flow, new_buff}
use sc_code.Datapath.Batch.{HasRoom, queued}
use sc_code.Datapath.Kick.{kick_req}
use sc_code.Datapath.Kick.Req.{CanKick, data_pkts, kick_req_sends}
use sc_code.Datapath.Kick.Rfr.{CanAsk}
use sc_code.Datapath.Credit.{process_expl_cr}
use sc_code.Datapath.Loss.{pkt_loss_retransmit}
use sc_code.Datapath.Loss.Rollback.{pkt_loss_retransmit_resends, retransmit_fails_after_cr}
use sc_code.Datapath.Resp.{store_large, process_resp_pkt}
use sc_code.Datapath.Resp.Credits.{process_resp_pkt_credits}
use sc_code.Datapath.Resp.Reassembly.{Arrival, store_all, store_all_whole}

-- A transport with packets of 4 bytes, bursts of 2 and a ring of 8 control headers.
abbrev cfg : Config
cfg = record { max_data_per_pkt = 4; postlist = 2; unsig_batch = 4; hdr_size = 72 }

abbrev hdr : PktType → ℕ → ℕ → ℕ → ℕ → PktHdr
hdr t num total size this = record {
  req_type = 2;
  msg_size = size;
  dest_session_num = 1;
  pkt_type = t;
  pkt_num = num;
  req_num = 35;
  magic = 11;
  lkey = 0;
  total_pkt = total;
  this_msg_size = this;
}

-- A request of ten bytes in three packets.
abbrev req_hdrs : List PktHdr
req_hdrs = hdr PktType.req 1 3 10 4 ∷ hdr PktType.req 2 3 10 2 ∷ []

abbrev first_hdr : PktHdr
first_hdr = hdr PktType.req 0 3 10 4

abbrev message : Serializer
message = record {
  hdrs = first_hdr ∷ req_hdrs;
  segs = record { base = 4096; len = 10 } ∷ [];
  front = 8;
  total_pkg = 3;
}

abbrev no_resp : RespBuf
no_resp = record {
  iov_begin = 0;
  iov_end = 0;
  first = nowhere;
  bytes = none;
  cap = 0;
  used_size = 0;
}

abbrev slot : ℕ → ℕ → SSlot
slot num_tx num_rx = record {
  index = 3;
  tx_msgbuf = some message;
  cur_req_num = 35;
  resp = no_resp;
  context = 0;
  resp_msgbuf = 1;
  cont_func = 5;
  tag = 6;
  num_tx = num_tx;
  num_rx = num_rx;
  progress_tsc = 0;
  cont_etid = 8;
  wheel_count = 0;
}

abbrev ring : CtrlRing
ring = record { hdrs = replicate 8 (hdr PktType.rfr 0 0 0 0); head = 7 }

abbrev flow : ℕ → ℕ → Flow
flow num_tx credits = record {
  session = 0;
  remote_session_num = 1;
  slot = slot num_tx 0;
  credits = credits;
  tx = record { batch = []; sent = []; stamps = []; clock = 100 };
  ctrl = ring;
  ev_loop_tsc = 90;
  rtt_samples = [];
  session_re_tx = 0;
  num_re_tx = 0;
  still_in_wheel = 0;
}

-- Two credits: two of the three packets go out.
abbrev can_kick : CanKick cfg message 3 (flow 0 2)
can_kick = record {
  room = record { room = omega arith };
  active = refl;
  in_range = omega arith;
  total_16 = omega arith;
  has_credit = omega arith;
  credits_64 = omega arith;
}

kick_req_sends_example :
    (f' : Flow) × (kick_req cfg (flow 0 2) ≡ ok f')
    × (f'.credits + f'.slot.num_tx ≡ 2)
    × (f'.slot.num_tx ≤ 3)
    × ((f'.credits ≡ 0) ⊎ (f'.slot.num_tx ≡ 3))
    × (queued f'.tx ≡ data_pkts 0 3 message 0 (f'.slot.num_tx - 0))
    × HasRoom cfg f'.tx
kick_req_sends_example = kick_req_sends cfg message first_hdr req_hdrs (flow 0 2) refl can_kick

-- The request is out; response packet 0 of 5 has come, and four are to be asked for.
abbrev resp_hdr : PktHdr
resp_hdr = hdr PktType.resp 0 5 17 4

abbrev can_ask : CanAsk cfg message 3 (wire_pkts 3 5) (flow 3 2)
can_ask = record {
  room = record { room = omega arith };
  ring = record { size = refl; in_range = omega arith };
  active = refl;
  req_sent = omega arith;
  in_range = unfold wire_pkts in (omega arith);
  total_16 = unfold wire_pkts in (omega arith);
  credits_64 = omega arith;
}

process_resp_pkt_credits_example :
    (f' : Flow) × (process_resp_pkt cfg resp_hdr 100 (1 ∷ 2 ∷ 3 ∷ 4 ∷ []) (flow 3 2)
      ≡ ok (f', false))
    × (f'.credits + f'.slot.num_tx ≡ 6)
    × (f'.slot.num_rx ≡ 1)
    × (f'.slot.resp ≡ record {
      iov_begin = 0;
      iov_end = 1;
      first = new_buff 17;
      bytes = some (1 ∷ 2 ∷ 3 ∷ 4 ∷ []);
      cap = 17;
      used_size = 4;
    })
    × (f'.slot.num_tx ≤ wire_pkts 3 5)
    × ((f'.credits ≡ 0) ⊎ (f'.slot.num_tx ≡ wire_pkts 3 5))
unfolding store_large
process_resp_pkt_credits_example =
    process_resp_pkt_credits cfg message first_hdr req_hdrs refl resp_hdr 100 (1 ∷ 2 ∷ 3 ∷ 4 ∷ [])
      (flow 3 2) can_ask (omega arith) (omega arith) (omega arith) refl

abbrev packet_0 : Arrival
packet_0 = (hdr PktType.resp 0 2 6 4, 1 ∷ 2 ∷ 3 ∷ 4 ∷ [])

abbrev packet_1 : Arrival
packet_1 = (hdr PktType.resp 1 2 6 2, 5 ∷ 6 ∷ [])

store_all_whole_example :
    (r' : RespBuf) × (store_all (packet_0 ∷ packet_1 ∷ []) no_resp ≡ ok r')
    × (r'.bytes ≡ some (1 ∷ 2 ∷ 3 ∷ 4 ∷ 5 ∷ 6 ∷ []))
    × (r'.first ≡ new_buff 6)
    × (r'.used_size ≡ 6)
    × (r'.cap ≡ 6)
store_all_whole_example =
    store_all_whole packet_0 (packet_1 ∷ []) no_resp refl (omega arith) (omega arith) (omega arith)

-- Other slots that are stalled.
abbrev others : List (ℕ × ℕ)
others = (0, 2) ∷ (1, 3) ∷ []

pkt_loss_retransmit_resends_example :
    (f' : Flow) × (pkt_loss_retransmit cfg others (flow 2 0) ≡ ok f')
    × (f'.credits + f'.slot.num_tx ≡ 2)
    × (f'.slot.num_tx ≤ 3)
    × ((f'.credits ≡ 0) ⊎ (f'.slot.num_tx ≡ 3))
    × (queued f'.tx ≡ data_pkts 0 3 message 0 (f'.slot.num_tx - 0))
pkt_loss_retransmit_resends_example =
    pkt_loss_retransmit_resends cfg message first_hdr req_hdrs refl others (flow 2 0) refl
      (record { room = omega arith }) refl (omega arith) refl (omega arith) (omega arith)
      (omega arith) (omega arith) refl

retransmit_fails_after_cr_example :
    (f' : Flow) × (process_expl_cr cfg (hdr PktType.expl_cr 0 3 20 0) 100 (flow 3 29) ≡ ok f')
    × (pkt_loss_retransmit cfg others f' ≡ err assert_failed)
retransmit_fails_after_cr_example =
    retransmit_fails_after_cr cfg message first_hdr req_hdrs refl others
      (hdr PktType.expl_cr 0 3 20 0) 100 (flow 3 29) (record { room = omega arith }) refl
      (omega arith) refl refl (omega arith) (omega arith) refl (omega arith)
