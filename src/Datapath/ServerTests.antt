-- ===== src/Datapath/ServerTests.antt =====
-- A server slot with a response of three packets, asked for the last two.
use sc_code.Common.{ℕ, false, some, [], ◌∷◌, replicate}
use sc_code.Packet.{PktHdr, PktType}
use sc_code.Datapath.{Config, Serializer}
use sc_code.Datapath.Server.{ServerFlow}

abbrev cfg : Config
cfg = record { max_data_per_pkt = 4; postlist = 2; unsig_batch = 4; hdr_size = 72 }

abbrev rfr : ℕ → PktHdr
rfr num = record {
  req_type = 2;
  msg_size = 0;
  dest_session_num = 1;
  pkt_type = PktType.rfr;
  pkt_num = num;
  req_num = 35;
  magic = 11;
  lkey = 0;
  total_pkt = 0;
  this_msg_size = 0;
}

abbrev response : Serializer
response = record {
  hdrs = [];
  segs = record { base = 8192; len = 10 } ∷ [];
  front = 8;
  total_pkg = 3;
}

abbrev server : ServerFlow
server = record {
  session = 0;
  remote_session_num = 1;
  is_client = false;
  index = 3;
  tx_msgbuf = some response;
  cur_req_num = 35;
  num_rx = 1;
  sav_num_req_pkts = 1;
  tx = record { batch = []; sent = []; stamps = []; clock = 100 };
  ctrl = record { hdrs = replicate 8 (rfr 0); head = 7 };
}
