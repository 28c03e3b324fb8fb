-- ===== src/Datapath/Serve.antt =====
-- The server's side of a request: `process_small_req_st` and `process_large_req_one_st`
-- (src/rpc_impl/rpc_req.cc), `submit_bg_req_st` (src/rpc_impl/rpc_rx.cc) and `enqueue_response`
-- (src/rpc_impl/rpc_resp.cc). What a handler does is the application's; that it is called, and with
-- which message, is recorded.
pub mod Gather
pub mod Packets
pub mod Requests
pub mod Respond
mod Tests
use sc_code.Common.{
  ℕ, ◌+◌, ◌*◌, ◌/◌, ◌%◌, ◌^◌, Bool, not, Option, none, some, List, [], ◌∷◌, ltb, ◌==◌,
  if◌then◌else◌, length, snoc, Outcome, ok, err, bad_access, assert, ◌>>=◌, ◌>>◌,
}
use sc_code.Packet.{PktHdr, PktType}
use sc_code.Packet.Headers.{HdrArgs}
use sc_code.Datapath.{Config, Serializer, Iovec, data_pkt, session_req_window}
use sc_code.Datapath.Words.{add_size}
use sc_code.Datapath.Batch.{enqueue_item}
use sc_code.Datapath.Request.{iov_sum, is_null, new_context, push_hdrs}
use sc_code.Datapath.Server.{ServerFlow, enqueue_cr}
use sc_code.Sm.{SessionState, state_eq}
use sc_code.Sm.Init.{invalid_req_type}

-- `iovector::capacity`, as `push_back` sets it.
abbrev pub iov_capacity : ℕ
iov_capacity = 2300

-- A registered handler, a null pointer where there is none.
pub record ReqFunc : Type 0 where
  pub req_func : Option ℕ
  pub is_background : Bool

-- `enq_resp_args_t`, with the slot for the handle.
pub record EnqRespArgs : Type 0 where
  pub handle : ℕ
  pub resp_msgbuf : Serializer

-- A server slot on top of what answers to single packets use. `iov` is `dyn_resp_msgbuf_.iov` from its
-- first entry, and `before` the memory in front of the array. Latest first, `calls` are the handlers
-- called, as function, slot and message, and `bg_reqs` the slots given to background threads.
pub record ServeFlow : Type 0 where
  pub flow : ServerFlow
  pub state : SessionState
  pub req_type : ℕ
  pub req_background : Bool
  pub iov : List Iovec
  pub before : Iovec
  pub context : ℕ
  pub calls : List (ℕ × ℕ × List Iovec)
  pub bg_reqs : List (ℕ × ℕ)
  pub bg_responses : List EnqRespArgs
  pub num_bg_threads : ℕ
  pub rand_seed : ℕ

-- `FastRand::next_u32`: the new seed and the number.
unfoldable pub next_u32 : ℕ → ℕ × ℕ
next_u32 seed = let seed' = (seed * 1103515245 + 12345) % 2 ^ 64 in (seed', seed' / 2 ^ 32 % 2 ^ 32)

unfoldable pub submit_bg_req : ServeFlow → Outcome ServeFlow
unfolding next_u32
submit_bg_req f = do
  assert (ltb 0 f.num_bg_threads)
  let (seed, r) = next_u32 f.rand_seed
  ok (record f { rand_seed = seed; bg_reqs = (r % f.num_bg_threads, f.flow.index) ∷ f.bg_reqs })

unfoldable pub call_handler : ReqFunc → ServeFlow → Outcome ServeFlow
call_handler func f = elim func.req_func [
  | none ↦ err bad_access
  | some h ↦ ok (record f { calls = (h, f.flow.index, f.iov) ∷ f.calls })
]

-- The request's type is set while its response is awaited.
unfoldable pub mark_pending : ℕ → ReqFunc → ServeFlow → Outcome ServeFlow
mark_pending req_type func f = do
  assert (f.req_type == invalid_req_type)
  ok (record f { req_type = req_type; req_background = func.is_background })

abbrev pub track : ℕ → ℕ → ServeFlow → ServeFlow
track req_num num_rx f = record f {
  flow = record (f.flow) { cur_req_num = req_num; num_rx = num_rx };
}

-- `iov.back()` of an empty array is the memory in front of it.
unfoldable pub back : List Iovec → Iovec → Iovec
back [] v = v
back (v ∷ vs) before = back vs v

unfoldable pub extend_back : ℕ → List Iovec → Outcome (List Iovec)
extend_back n [] = err bad_access
extend_back n (v ∷ []) = ok (record v { len = v.len + n } ∷ [])
extend_back n (v ∷ w ∷ vs) = do rest ← extend_back n (w ∷ vs); ok (v ∷ rest)

-- A packet's body at address `body` joins the message: as part of the last piece where it follows that
-- in memory, and else as a new one, for which there may be no room (`none`).
unfoldable pub add_body : ℕ → ℕ → Iovec → List Iovec → Outcome (Option (List Iovec))
unfolding back extend_back
add_body body size before iov =
    let v = back iov before in
    if v.base + v.len == body
    then (do iov' ← extend_back size iov; ok (some iov'))
    else if ltb (length iov) iov_capacity
    then ok (some (snoc iov (record { base = body; len = size })))
    else if size == 0
    then ok (some iov)
    else ok none

module _ (req_funcs : ℕ → ReqFunc) where
  -- A background type is left alone: the function has no other branch.
  unfoldable pub process_small_req : PktHdr → ℕ → ServeFlow → Outcome ServeFlow
  unfolding mark_pending call_handler
  process_small_req pkthdr body f = do
    assert (pkthdr.req_num == add_size f.flow.cur_req_num session_req_window)
    let func = req_funcs pkthdr.req_type
    f' ← mark_pending pkthdr.req_type func (track pkthdr.req_num 1 f)
    let iov = record { base = body; len = pkthdr.msg_size } ∷ []
    if func.is_background then ok f' else call_handler func (record f' { iov = iov })

  -- The packet completes its request.
  unfoldable pub dispatch_req : PktHdr → ServeFlow → Outcome ServeFlow
  unfolding mark_pending call_handler submit_bg_req
  dispatch_req pkthdr f = do
    let func = req_funcs pkthdr.req_type
    f' ← mark_pending pkthdr.req_type func f
    if func.is_background then submit_bg_req f' else call_handler func f'

module _ (cfg : Config) (ctrl_size : ℕ) (req_funcs : ℕ → ReqFunc) where
  -- Packet 0 starts the message anew; `is_next_pkt_same_req` and `is_first_pkt_next_req` are computed
  -- and not used.
  unfoldable pub start_or_count : PktHdr → ServeFlow → ServeFlow
  start_or_count pkthdr f =
      if pkthdr.pkt_num == 0
      then record (track pkthdr.req_num 1 f) { iov = [] }
      else track f.flow.cur_req_num (add_size f.flow.num_rx 1) f

  -- A credit goes back for every packet but the last, `total_pkt - 1` being -1 for no packets.
  unfoldable pub return_credit : PktHdr → ServeFlow → Outcome ServeFlow
  return_credit pkthdr f =
      if pkthdr.pkt_num + 1 == pkthdr.total_pkt
      then ok f
      else (do flow ← enqueue_cr cfg ctrl_size pkthdr f.flow; ok (record f { flow = flow }))

  unfoldable pub process_large_req_one : PktHdr → ℕ → ServeFlow → Outcome ServeFlow
  unfolding start_or_count return_credit add_body dispatch_req
  process_large_req_one pkthdr body f = do
    g ← return_credit pkthdr (start_or_count pkthdr f)
    added ← add_body body pkthdr.this_msg_size g.before g.iov
    elim added [
      | none ↦ ok g
      | some iov ↦
          if g.flow.num_rx == pkthdr.total_pkt
          then dispatch_req req_funcs pkthdr (record g { iov = iov })
          else ok (record g { iov = iov })
    ]

  -- Packets of large requests, in order of arrival, with the addresses of their bodies.
  unfoldable pub process_large_reqs : List (PktHdr × ℕ) → ServeFlow → Outcome ServeFlow
  process_large_reqs [] f = ok f
  process_large_reqs ((h, body) ∷ ps) f = do
    f' ← process_large_req_one h body f
    process_large_reqs ps f'

module _ (cfg : Config) where
  unfoldable pub resp_hdr_args : Serializer → ℕ → ServeFlow → HdrArgs
  resp_hdr_args msg lkey f = record {
    req_type = f.req_type;
    msg_size = iov_sum cfg.hdr_size msg;
    remote_session_num = f.flow.remote_session_num;
    pkt_type = PktType.resp;
    pkt_num = 0;
    req_num = f.flow.cur_req_num;
    lkey = lkey;
  }

  -- The response is in the slot, and its first packet is queued.
  unfoldable pub send_resp : Serializer → ServeFlow → Outcome ServeFlow
  send_resp msg f = do
    assert (is_null f.flow.tx_msgbuf)
    assert (not (f.req_type == invalid_req_type))
    t ← enqueue_item cfg (data_pkt f.flow.session f.flow.index msg 0 none) f.flow.tx
    ok (record f {
      flow = record (f.flow) { tx_msgbuf = some msg; tx = t };
      req_type = invalid_req_type;
    })

  -- Where the session is being reset, the response is only awaited.
  unfoldable pub drop_resp : ServeFlow → Outcome ServeFlow
  drop_resp f = do
    assert (state_eq f.state SessionState.reset_in_progress)
    assert (not (f.req_type == invalid_req_type))
    ok (record f { req_type = invalid_req_type })

  unfoldable pub enqueue_response :
      Bool → Serializer → ℕ → Option PktHdr → ℕ → ServeFlow → Outcome ServeFlow
  unfolding resp_hdr_args send_resp drop_resp
  enqueue_response in_dispatch resp_msgbuf lkey pkthdr context f =
      if in_dispatch
      then (do
        let g = record f {
          context = new_context f.context context;
          flow = record (f.flow) { sav_num_req_pkts = 1 };
        }
        if state_eq g.state SessionState.connected
            then (do
              msg ← push_hdrs cfg (resp_hdr_args resp_msgbuf lkey g) pkthdr resp_msgbuf
              send_resp msg g)
            else drop_resp g)
      else ok (record f {
        bg_responses =
            snoc f.bg_responses (record { handle = f.flow.index; resp_msgbuf = resp_msgbuf });
      })
