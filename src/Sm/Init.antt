-- ===== src/Sm/Init.antt =====
-- The constructor of a session (src/session.h), and that its slots start in order.
use sc_code.Common.{ℕ, zero, suc, ◌+◌, ◌-◌, refl, none, arith, List, [], ◌∷◌, replicate}
use sc_code.Datapath.{SSlot, nowhere, session_req_window}
use sc_code.Datapath.Slots.{SlotsOk}
use sc_code.Sm.{SessionState, SessionEndpoint, SmSession, Role}

abbrev pub invalid_session_num : ℕ
invalid_session_num = 65535

-- `kInvalidReqType`, that is `kReqTypeArraySize - 1`.
abbrev pub invalid_req_type : ℕ
invalid_req_type = 255

abbrev pub no_endpoint : SessionEndpoint
no_endpoint = record {
  transport_type = 0;
  hostname = [];
  sm_udp_port = 0;
  rpc_id = 255;
  session_num = invalid_session_num;
  routing_info = 0;
}

-- A slot that was cleared by `memset`, with its index and first request number.
abbrev pub new_sslot : ℕ → SSlot
new_sslot sslot_i = record {
  index = sslot_i;
  tx_msgbuf = none;
  cur_req_num = sslot_i;
  resp = record {
    iov_begin = 0;
    iov_end = 0;
    first = nowhere;
    bytes = none;
    cap = 0;
    used_size = 0;
  };
  context = 0;
  resp_msgbuf = 0;
  cont_func = 0;
  tag = 0;
  num_tx = 0;
  num_rx = 0;
  progress_tsc = 0;
  cont_etid = 0;
  wheel_count = 0;
}

-- The constructor's loop, by the rounds left: the array is filled from its end, and indices are
-- pushed to the back of the free ones.
unfoldable pub init_loop : ℕ → ℕ → List SSlot → List ℕ → List SSlot × List ℕ
init_loop zero i sslots free = (sslots, free)
init_loop (suc n) i sslots free =
    let sslot_i = session_req_window - 1 - i in
    init_loop n (i + 1) (new_sslot sslot_i ∷ sslots) (sslot_i ∷ free)

-- Fields that the constructor leaves unset are 0.
unfoldable pub new_session : Role → ℕ → SmSession
unfolding init_loop
new_session role uniq_token =
    let (sslots, free) = init_loop session_req_window 0 [] [] in
    record {
      role = role;
      uniq_token = uniq_token;
      state = SessionState.connect_in_progress;
      client = no_endpoint;
      server = no_endpoint;
      local_session_num = 0;
      remote_session_num = 0;
      sslots = sslots;
      req_types = replicate session_req_window invalid_req_type;
      sslot_free_vec = free;
      sm_req_ts = 0;
      prev_desired_tx_tsc = 0;
    }

-- A new session's slots are numbered, all free and each free once.
new_session-SlotsOk :
    (role : Role) (uniq_token : ℕ)
    → let s = new_session role uniq_token in SlotsOk s.sslots s.sslot_free_vec
unfolding init_loop new_session
new_session-SlotsOk role uniq_token = record {
  size = refl;
  numbered = ground arith;
  idle = ground arith;
  distinct = ground arith;
  count = refl;
}
