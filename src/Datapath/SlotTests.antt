-- ===== src/Datapath/SlotTests.antt =====
-- The slots of a session at concrete states: requests that start, stall and end.
use sc_code.Common.{
  ℕ, ◌+◌, ◌%◌, ◌≡◌, inl, refl, List, [], ◌∷◌, ◌++◌, map, get_elem?, some, ok, err, true, false,
  bad_access, arith,
}
use sc_code.Packet.{PktHdr, PktType}
use sc_code.Datapath.{Config, Serializer, SSlot, EnqReqArgs, Endpoint}
use sc_code.Datapath.Request.{enqueue_request, req_hdr_args, is_null}
use sc_code.Datapath.Batch.{queued}
use sc_code.Datapath.Kick.Req.{data_pkts}
use sc_code.Packet.Headers.{fill_hdrs}
use sc_code.Datapath.Complete.{complete}
use sc_code.Datapath.Slots.{SlotsOk}
use sc_code.Datapath.Slots.Take.{CanStart}
use sc_code.Datapath.Slots.Start.{enqueue_request_starts, enqueue_request_stalls}
use sc_code.Datapath.Slots.Finish.{CanFinish, complete_frees, complete_faults_with_backlog}
use sc_code.Sm.Init.{new_sslot, init_loop}

abbrev cfg : Config
cfg = record { max_data_per_pkt = 4; postlist = 2; unsig_batch = 4; hdr_size = 72 }

abbrev message : Serializer
message = record {
  hdrs = [];
  segs = record { base = 4096; len = 10 } ∷ [];
  front = 8;
  total_pkg = 3;
}

abbrev request : EnqReqArgs
request = record {
  session_num = 0;
  req_type = 2;
  req_msgbuf = message;
  resp_msgbuf = 1;
  cont_func = 5;
  tag = 6;
  cont_etid = 8;
}

-- The caller's header array, of three packets.
abbrev raw_hdr : PktHdr
raw_hdr = record {
  req_type = 0;
  msg_size = 0;
  dest_session_num = 0;
  pkt_type = PktType.req;
  pkt_num = 0;
  req_num = 0;
  magic = 0;
  lkey = 0;
  total_pkt = 3;
  this_msg_size = 0;
}

abbrev endpoint : List SSlot → List ℕ → List EnqReqArgs → Endpoint
endpoint sslots free backlog = record {
  session = record {
    is_connected = true;
    local_session_num = 0;
    remote_session_num = 1;
    sslots = sslots;
    credits = 2;
    sslot_free_vec = free;
    enq_req_backlog = backlog;
    num_re_tx = 0;
  };
  stallq = [];
  active_rpcs = [];
  tx = record { batch = []; sent = []; stamps = []; clock = 100 };
  ctrl = record { hdrs = []; head = 0 };
  ev_loop_tsc = 90;
  rtt_samples = [];
  num_re_tx = 0;
  still_in_wheel = 0;
  conts = [];
  bg_resps = [];
  bg_requests = [];
  num_bg_threads = 0;
}

-- The slots of a new session, and with requests in all of them.
abbrev new_slots : List SSlot × List ℕ
new_slots = init_loop 32 0 [] []

abbrev with_message : SSlot → SSlot
with_message s = record s { tx_msgbuf = some message; cont_etid = 8 }

abbrev idle_endpoint : Endpoint
idle_endpoint = endpoint (new_slots.0) (new_slots.1) []

abbrev full_endpoint : List EnqReqArgs → Endpoint
full_endpoint backlog = endpoint (map with_message (new_slots.0)) [] backlog

abbrev rest_of : List ℕ → List ℕ
rest_of [] = []
rest_of (i ∷ is) = is

can_start : CanStart cfg idle_endpoint 0 (rest_of (new_slots.1)) (new_sslot 0) raw_hdr
unfolding init_loop
can_start = record {
  connected = refl;
  free_vec = refl;
  slots = record {
    size = refl;
    numbered = ground arith;
    idle = ground arith;
    distinct = ground arith;
    count = refl;
  };
  at = refl;
  num_64 = omega arith;
  total_pos = omega arith;
}

enqueue_request_starts_example :
    (c' : Endpoint) × (s' : SSlot) × (hs : List PktHdr) × (msg : Serializer) × (enqueue_request cfg
        true request 0
        (some raw_hdr)
        0
        idle_endpoint
      ≡ ok c')
    × (get_elem? c'.session.sslots 0 ≡ some s')
    × (s'.cur_req_num ≡ 32)
    × (s'.cur_req_num % 32 ≡ 0)
    × (c'.session.sslot_free_vec ≡ rest_of (new_slots.1))
    × SlotsOk c'.session.sslots (rest_of (new_slots.1))
    × (c'.session.credits + s'.num_tx ≡ 2)
    × (s'.num_tx ≡ 2)
    × (c'.active_rpcs ≡ (0, 0) ∷ [])
    × (fill_hdrs 4 (req_hdr_args cfg request 0 1 s'.cur_req_num) raw_hdr ≡ some hs)
    × (msg.hdrs ≡ hs ++ [])
    × (s'.tx_msgbuf ≡ some msg)
    × (queued c'.tx ≡ data_pkts 0 0 msg 0 s'.num_tx)
enqueue_request_starts_example =
    enqueue_request_starts cfg 0 (rest_of (new_slots.1)) (new_sslot 0) request 0 raw_hdr 0
      idle_endpoint can_start (omega arith) (omega arith) (omega arith) (omega arith)
      (record { room = omega arith })

can_finish :
    (backlog : List EnqReqArgs)
    → CanFinish (full_endpoint backlog) 3 (with_message (new_sslot 3)) message
unfolding init_loop
can_finish backlog = record {
  at = refl;
  slots = record { size = refl; numbered = ground arith; idle = tt; distinct = tt; count = refl };
  active = refl;
  no_wheel = refl;
}

complete_frees_example :
    (c' : Endpoint) × (complete cfg 3 (full_endpoint []) ≡ ok c')
    × SlotsOk c'.session.sslots c'.session.sslot_free_vec
    × (c'.session.sslot_free_vec ≡ 3 ∷ [])
    × (c'.active_rpcs ≡ [])
    × (c'.conts ≡ (0, 0) ∷ [])
    × (c'.bg_resps ≡ [])
complete_frees_example =
    complete_frees cfg (full_endpoint []) 3 (with_message (new_sslot 3)) message (can_finish [])
      refl (omega arith) (inl refl)

complete_faults_with_backlog_example :
    complete cfg 3 (full_endpoint (request ∷ [])) ≡ err bad_access
complete_faults_with_backlog_example =
    complete_faults_with_backlog cfg (full_endpoint (request ∷ [])) 3 (with_message (new_sslot 3))
      message request [] (can_finish (request ∷ [])) refl refl refl

abbrev stalled_endpoint : Endpoint
stalled_endpoint = record idle_endpoint { session = record (idle_endpoint.session) { credits = 0 } }

can_stall : CanStart cfg stalled_endpoint 0 (rest_of (new_slots.1)) (new_sslot 0) raw_hdr
can_stall = record {
  connected = can_start.connected;
  free_vec = can_start.free_vec;
  slots = can_start.slots;
  at = can_start.at;
  num_64 = can_start.num_64;
  total_pos = can_start.total_pos;
}

enqueue_request_stalls_example :
    (c' : Endpoint) × (s' : SSlot) × (enqueue_request cfg true request 0
        (some raw_hdr)
        0
        stalled_endpoint
      ≡ ok c')
    × (get_elem? c'.session.sslots 0 ≡ some s')
    × (s'.cur_req_num % 32 ≡ 0)
    × (s'.num_tx ≡ 0)
    × (is_null s'.tx_msgbuf ≡ false)
    × (c'.session.sslot_free_vec ≡ rest_of (new_slots.1))
    × SlotsOk c'.session.sslots (rest_of (new_slots.1))
    × (c'.stallq ≡ (0, 0) ∷ [])
    × (c'.active_rpcs ≡ (0, 0) ∷ [])
    × (c'.tx ≡ stalled_endpoint.tx)
enqueue_request_stalls_example =
    enqueue_request_stalls cfg 0 (rest_of (new_slots.1)) (new_sslot 0) request 0 raw_hdr 0
      stalled_endpoint can_stall refl
