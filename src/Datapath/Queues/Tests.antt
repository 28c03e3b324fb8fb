-- ===== src/Datapath/Queues/Tests.antt =====
-- Two sessions with stalled requests: the first has credits for one, the second has none.
use sc_code.Common.{
  ℕ, ◌≡◌, ◌≤◌, get_elem?, refl, true, some, List, [], ◌∷◌, ok, err, bad_access, arith,
}
use sc_code.Packet.{PktHdr, PktType}
use sc_code.Datapath.{Config, Serializer, SSlot, Session, EnqReqArgs, TxItem}
use sc_code.Datapath.Batch.{HasRoom, queued}
use sc_code.Datapath.Queues.{Clients, process_credit_stall_queue, process_bg_queues_enqueue_request}
use sc_code.Datapath.Queues.Places.{Stalled}
use sc_code.Datapath.Queues.Sweep.{Sweep, Paid}
use sc_code.Datapath.Queues.Stall.{stall_queue_settles}
use sc_code.Datapath.Queues.Background.{bg_request_faults}
use sc_code.Sm.Init.{new_sslot}

abbrev cfg : Config
cfg = record { max_data_per_pkt = 4; postlist = 2; unsig_batch = 4; hdr_size = 72 }

abbrev hdr : PktHdr
hdr = record {
  req_type = 2;
  msg_size = 10;
  dest_session_num = 1;
  pkt_type = PktType.req;
  pkt_num = 0;
  req_num = 35;
  magic = 11;
  lkey = 0;
  total_pkt = 3;
  this_msg_size = 4;
}

abbrev message : Serializer
message = record {
  hdrs = hdr ∷ [];
  segs = record { base = 4096; len = 10 } ∷ [];
  front = 8;
  total_pkg = 3;
}

abbrev waiting : ℕ → SSlot
waiting i = record (new_sslot i) { tx_msgbuf = some message; cont_etid = 8 }

abbrev session : ℕ → ℕ → Session
session num credits = record {
  is_connected = true;
  local_session_num = num;
  remote_session_num = 1;
  sslots = waiting 0 ∷ waiting 1 ∷ new_sslot 2 ∷ [];
  credits = credits;
  sslot_free_vec = 2 ∷ [];
  enq_req_backlog = [];
  num_re_tx = 0;
}

abbrev request : EnqReqArgs
request = record {
  session_num = 1;
  req_type = 2;
  req_msgbuf = message;
  resp_msgbuf = 1;
  cont_func = 5;
  tag = 6;
  cont_etid = 3;
}

abbrev clients : Clients
clients = record {
  session_vec = session 0 4 ∷ session 1 0 ∷ [];
  rest = record {
    session = session 0 4;
    stallq = (0, 0) ∷ (1, 0) ∷ (0, 1) ∷ [];
    active_rpcs = [];
    tx = record { batch = []; sent = []; stamps = []; clock = 100 };
    ctrl = record { hdrs = []; head = 0 };
    ev_loop_tsc = 90;
    rtt_samples = [];
    num_re_tx = 0;
    still_in_wheel = 0;
    conts = [];
    bg_resps = [];
    bg_requests = request ∷ [];
    num_bg_threads = 4;
  };
}

is_Stalled :
    (k i credits : ℕ)
    → get_elem? clients.session_vec k ≡ some (session k credits)
    → get_elem? (session k credits).sslots i ≡ some (waiting i)
    → credits ≤ 32
    → Stalled clients.session_vec k i
is_Stalled k i credits here there bound = record {
  place = record { session = session k credits; here = here; slot = waiting i; there = there };
  number = refl;
  msg = message;
  hdr = hdr;
  hdrs = [];
  active = refl;
  front = refl;
  total = refl;
  total_16 = omega arith;
  pending = omega arith;
  credits = bound;
}

stall_queue_settles_example :
    (c' : Clients) × (sent : List TxItem) × (process_credit_stall_queue cfg clients ≡ ok c')
    × Sweep clients.session_vec c'.session_vec ((0, 0) ∷ (1, 0) ∷ (0, 1) ∷ []) c'.rest.stallq sent
    × (queued c'.rest.tx ≡ sent)
    × Paid clients.session_vec c'.session_vec sent
    × HasRoom cfg c'.rest.tx
stall_queue_settles_example =
    stall_queue_settles cfg clients
      (
        is_Stalled 0 0 4 refl refl (omega arith),
        (is_Stalled 1 0 0 refl refl (omega arith), (is_Stalled 0 1 4 refl refl (omega arith), tt)),
      )
      ((λ k i. omega arith, (λ k i. omega arith, tt)), ((λ k i. omega arith, tt), (tt, tt)))
      (omega arith)

bg_request_faults_example : process_bg_queues_enqueue_request cfg clients ≡ err bad_access
bg_request_faults_example =
    bg_request_faults cfg request [] 2 [] clients (session 1 0) (new_sslot 2) refl refl refl refl
      refl refl
