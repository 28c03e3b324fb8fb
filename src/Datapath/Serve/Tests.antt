-- ===== src/Datapath/Serve/Tests.antt =====
-- A server slot that gets a request of three packets, and one that answers.
use sc_code.Common.{
  ℕ, ◌+◌, ◌%◌, ◌≡◌, refl, false, true, some, none, List, [], ◌∷◌, replicate, ok, err, assert_failed,
  arith,
}
use sc_code.Packet.{PktHdr, PktType}
use sc_code.Packet.Headers.{fill_hdrs}
use sc_code.Datapath.{Config, Serializer}
use sc_code.Datapath.Serve.{
  ReqFunc, ServeFlow, process_large_reqs, process_small_req, enqueue_response, resp_hdr_args,
}
use sc_code.Datapath.Serve.Requests.{Served, bodies, large_request-Served}
use sc_code.Datapath.Serve.Respond.{second_response_fails}
use sc_code.Sm.{SessionState}

abbrev cfg : Config
cfg = record { max_data_per_pkt = 4; postlist = 2; unsig_batch = 4; hdr_size = 72 }

abbrev hdr : PktType → ℕ → ℕ → ℕ → ℕ → ℕ → PktHdr
hdr t req_num num total size this = record {
  req_type = 2;
  msg_size = size;
  dest_session_num = 1;
  pkt_type = t;
  pkt_num = num;
  req_num = req_num;
  magic = 11;
  lkey = 0;
  total_pkt = total;
  this_msg_size = this;
}

abbrev slot : ServeFlow
slot = record {
  flow = record {
    session = 0;
    remote_session_num = 1;
    is_client = false;
    index = 3;
    tx_msgbuf = none;
    cur_req_num = 3;
    num_rx = 0;
    sav_num_req_pkts = 0;
    tx = record { batch = []; sent = []; stamps = []; clock = 100 };
    ctrl = record { hdrs = replicate 8 (hdr PktType.expl_cr 0 0 0 0 0); head = 7 };
  };
  state = SessionState.connected;
  req_type = 255;
  req_background = false;
  iov = [];
  before = record { base = 0; len = 2300 };
  context = 0;
  calls = [];
  bg_reqs = [];
  bg_responses = [];
  num_bg_threads = 0;
  rand_seed = 1;
}

abbrev funcs : ℕ → ReqFunc
funcs t = record { req_func = some (t + 100); is_background = false }

-- The second body follows the first in memory, the third is elsewhere.
abbrev packets : List (PktHdr × ℕ)
packets =
    (hdr PktType.req 35 0 3 10 4, 4096)
    ∷ (hdr PktType.req 35 1 3 10 4, 4100)
    ∷ (hdr PktType.req 35 2 3 10 2, 8192)
    ∷ []

abbrev mem : ℕ → ℕ
mem a = a % 256

large_request-Served_example :
    (f' : ServeFlow) × (process_large_reqs cfg 8 funcs packets slot ≡ ok f')
    × Served mem 102 35 2 2 (bodies mem packets) slot f'
large_request-Served_example =
    large_request-Served cfg 8 funcs mem 102 3 35 2 refl (omega arith) (hdr PktType.req 35 0 3 10 4)
      (hdr PktType.req 35 1 3 10 4) 4096 4100 ((hdr PktType.req 35 2 3 10 2, 8192) ∷ []) slot
      (refl, refl, refl, refl, (refl, refl, refl, refl, (refl, refl, refl, refl, refl)))
      (omega arith) (omega arith) refl (omega arith)

abbrev waiting : ServeFlow
waiting = record slot { flow = record (slot.flow) { cur_req_num = 35; num_rx = 1 }; req_type = 2 }

abbrev message : Serializer
message = record {
  hdrs = [];
  segs = record { base = 8192; len = 6 } ∷ [];
  front = 8;
  total_pkg = 2;
}

abbrev fresh_hdr : PktHdr
fresh_hdr = record (hdr PktType.req 0 0 2 0 0) { dest_session_num = 0; magic = 0 }

abbrev resp_hdrs : List PktHdr
resp_hdrs = hdr PktType.resp 35 0 2 6 4 ∷ hdr PktType.resp 35 1 2 6 2 ∷ []

second_response_fails_example :
    (f' g : ServeFlow) × (enqueue_response cfg true message 0 (some fresh_hdr) 0 waiting ≡ ok f')
    × (process_small_req funcs (hdr PktType.req 67 0 1 4 4) 4096 f' ≡ ok g)
    × (enqueue_response cfg true message 0 (some fresh_hdr) 0 g ≡ err assert_failed)
unfolding resp_hdr_args fill_hdrs
second_response_fails_example =
    second_response_fails cfg message 0 0 fresh_hdr resp_hdrs waiting refl refl
      (λ e. absurd (omega arith)) (omega arith) refl funcs (hdr PktType.req 67 0 1 4 4) 4096 102
      refl refl message 0 0 fresh_hdr (omega arith)
