-- ===== src/Datapath/Rx/Tests.antt =====
-- A ring that holds a request of three packets for one of two sessions.
use sc_code.Common.{
  ℕ, ◌+◌, ◌%◌, ◌≡◌, refl, false, some, none, List, [], ◌∷◌, replicate, Outcome, ok, err, bad_access,
  ◌>>=◌, arith,
}
use sc_code.Packet.{PktHdr, PktType}
use sc_code.Datapath.{Config}
use sc_code.Datapath.Serve.{ReqFunc, ServeFlow, process_large_req_one}
use sc_code.Datapath.Serve.Requests.{Served, bodies}
use sc_code.Datapath.Rx.{Handlers, Receiver, process_comps}
use sc_code.Datapath.Rx.Slot.{SlotView, process_comps_serves}
use sc_code.Sm.{SessionState}

abbrev cfg : Config
cfg = record { max_data_per_pkt = 4; postlist = 2; unsig_batch = 4; hdr_size = 72 }

abbrev hdr : PktType → ℕ → ℕ → ℕ → ℕ → ℕ → PktHdr
hdr t req_num num total size this = record {
  req_type = 2;
  msg_size = size;
  dest_session_num = 1;
  pkt_type = t;
  pkt_num = num;
  req_num = req_num;
  magic = 11;
  lkey = 0;
  total_pkt = total;
  this_msg_size = this;
}

abbrev slot : ServeFlow
slot = record {
  flow = record {
    session = 0;
    remote_session_num = 1;
    is_client = false;
    index = 3;
    tx_msgbuf = none;
    cur_req_num = 3;
    num_rx = 0;
    sav_num_req_pkts = 0;
    tx = record { batch = []; sent = []; stamps = []; clock = 100 };
    ctrl = record { hdrs = replicate 8 (hdr PktType.expl_cr 0 0 0 0 0); head = 7 };
  };
  state = SessionState.connected;
  req_type = 255;
  req_background = false;
  iov = [];
  before = record { base = 0; len = 2300 };
  context = 0;
  calls = [];
  bg_reqs = [];
  bg_responses = [];
  num_bg_threads = 0;
  rand_seed = 1;
}

abbrev funcs : ℕ → ReqFunc
funcs t = record { req_func = some (t + 100); is_background = false }

-- The second body follows the first in memory, the third is elsewhere.
abbrev packets : List (PktHdr × ℕ)
packets =
    (hdr PktType.req 35 0 3 10 4, 4096)
    ∷ (hdr PktType.req 35 1 3 10 4, 4100)
    ∷ (hdr PktType.req 35 2 3 10 2, 8192)
    ∷ []

abbrev mem : ℕ → ℕ
mem a = a % 256

bind-ok : {S : Type 0} (o : Outcome S) → o ≡ (o >>= λ s. ok s)
bind-ok (err fault) = refl
bind-ok (ok s) = refl

-- An Rpc of which one slot is in view; the other handlers are not called here.
abbrev handlers : Handlers ServeFlow
handlers = record {
  session_vec = λ g. none ∷ some SessionState.connected ∷ [];
  small_req = λ s i h body g. err bad_access;
  large_req_one = λ s i h body g. process_large_req_one cfg 8 funcs h body g;
  resp_one = λ s i h body tsc g. err bad_access;
  rfr = λ s i h g. err bad_access;
  expl_cr = λ s i h tsc g. err bad_access;
}

abbrev view : SlotView cfg 8 funcs handlers 1 3
view = record {
  view = λ g. g;
  put = λ g old. g;
  view-put = λ g old. refl;
  session_vec-put = λ g old. refl;
  large_req_one-put = λ h body rpc. bind-ok (process_large_req_one cfg 8 funcs h body rpc);
}

abbrev receiver : Receiver ServeFlow
receiver = record {
  rx_ring = (hdr PktType.rfr 0 0 0 0 0, 0) ∷ packets;
  rx_ring_head = 1;
  ev_loop_tsc = 700;
  rpc = slot;
}

process_comps_serves_example :
    (r' : Receiver ServeFlow) × (process_comps cfg handlers 3 receiver ≡ ok r')
    × Served mem 102 35 2 2 (bodies mem packets) slot r'.rpc
    × (r'.rx_ring_head ≡ 4)
process_comps_serves_example =
    process_comps_serves cfg 8 funcs mem handlers 1 3 view 3 35 2 102 (hdr PktType.req 35 0 3 10 4)
      (hdr PktType.req 35 1 3 10 4) 4096 4100 ((hdr PktType.req 35 2 3 10 2, 8192) ∷ []) receiver
      (omega arith) (refl, (refl, (refl, tt))) refl
      ((
        refl,
        refl,
        refl,
        omega arith,
        omega arith,
        (
          refl,
          refl,
          refl,
          omega arith,
          omega arith,
          (refl, refl, refl, omega arith, omega arith, tt),
        ),
      ))
      (refl, refl, refl, refl, (refl, refl, refl, refl, (refl, refl, refl, refl, refl)))
      (omega arith) refl (omega arith) (omega arith) refl (omega arith)
