-- ===== src/Datapath/Exchange/Tests.antt =====
-- A request of three packets between a client with eight credits and a server.
use sc_code.Common.{ℕ, ◌+◌, ◌*◌, ◌%◌, refl, false, some, none, [], ◌∷◌, replicate, arith}
use sc_code.Packet.{PktHdr, PktType}
use sc_code.Packet.Headers.{HdrArgs, fill_hdrs}
use sc_code.Datapath.{Config, Serializer, Flow, nowhere}
use sc_code.Datapath.Kick.Req.{CanKick}
use sc_code.Datapath.Serve.{ReqFunc, ServeFlow}
use sc_code.Datapath.Exchange.Whole.{Exchange, request-Exchange}
use sc_code.Sm.{SessionState}

abbrev cfg : Config
cfg = record { max_data_per_pkt = 4; postlist = 2; unsig_batch = 4; hdr_size = 72 }

abbrev hdr : PktType → ℕ → ℕ → ℕ → PktHdr
hdr t num size this = record {
  req_type = 2;
  msg_size = size;
  dest_session_num = 5;
  pkt_type = t;
  pkt_num = num;
  req_num = 35;
  magic = 11;
  lkey = 0;
  total_pkt = 3;
  this_msg_size = this;
}

abbrev message : Serializer
message = record {
  hdrs = hdr PktType.req 0 10 4 ∷ hdr PktType.req 1 10 4 ∷ hdr PktType.req 2 10 2 ∷ [];
  segs = record { base = 8192; len = 10 } ∷ [];
  front = 8;
  total_pkg = 3;
}

abbrev args : HdrArgs
args = record {
  req_type = 2;
  msg_size = 10;
  remote_session_num = 5;
  pkt_type = PktType.req;
  pkt_num = 0;
  req_num = 35;
  lkey = 0;
}

abbrev client : Flow
client = record {
  session = 1;
  remote_session_num = 5;
  slot = record {
    index = 3;
    tx_msgbuf = some message;
    cur_req_num = 35;
    resp = record {
      iov_begin = 0;
      iov_end = 0;
      first = nowhere;
      bytes = none;
      cap = 0;
      used_size = 0;
    };
    context = 0;
    resp_msgbuf = 0;
    cont_func = 0;
    tag = 0;
    num_tx = 0;
    num_rx = 0;
    progress_tsc = 0;
    cont_etid = 8;
    wheel_count = 0;
  };
  credits = 8;
  tx = record { batch = []; sent = []; stamps = []; clock = 100 };
  ctrl = record { hdrs = replicate 8 (hdr PktType.rfr 0 0 0); head = 0 };
  ev_loop_tsc = 100;
  rtt_samples = [];
  session_re_tx = 0;
  num_re_tx = 0;
  still_in_wheel = 0;
}

abbrev server : ServeFlow
server = record {
  flow = record {
    session = 5;
    remote_session_num = 1;
    is_client = false;
    index = 3;
    tx_msgbuf = none;
    cur_req_num = 3;
    num_rx = 0;
    sav_num_req_pkts = 0;
    tx = record { batch = []; sent = []; stamps = []; clock = 100 };
    ctrl = record { hdrs = replicate 8 (hdr PktType.expl_cr 0 0 0); head = 7 };
  };
  state = SessionState.connected;
  req_type = 255;
  req_background = false;
  iov = [];
  before = record { base = 0; len = 2300 };
  context = 0;
  calls = [];
  bg_reqs = [];
  bg_responses = [];
  num_bg_threads = 0;
  rand_seed = 1;
}

abbrev funcs : ℕ → ReqFunc
funcs t = record { req_func = some (t + 100); is_background = false }

abbrev place : ℕ → ℕ
place i = 4096 + i * 4096

abbrev mem : ℕ → ℕ
mem a = a % 256

client-CanKick : CanKick cfg message 3 client
client-CanKick = record {
  room = omega arith;
  active = refl;
  in_range = omega arith;
  total_16 = omega arith;
  has_credit = omega arith;
  credits_64 = omega arith;
}

request-Exchange_example : Exchange cfg 8 funcs place mem 102 35 2 3 500 message client server
unfolding fill_hdrs
request-Exchange_example =
    request-Exchange cfg 8 funcs place mem args (hdr PktType.req 0 10 4) message 102 500 client
      server refl refl refl client-CanKick refl (omega arith) (omega arith) (omega arith)
      (omega arith) refl (omega arith) (omega arith) refl (omega arith)
