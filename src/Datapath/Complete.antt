-- ===== src/Datapath/Complete.antt =====
-- The end of a request: the second part of `process_resp_one_st` (src/rpc_impl/rpc_resp.cc), with
-- `delete_from_active_rpc_list` of src/rpc.h and `submit_bg_resp_st` of src/rpc_impl/rpc_rx.cc.
use sc_code.Common.{
  ℕ, true, ◌&&◌, none, List, [], ◌∷◌, ltb, ◌==◌, if◌then◌else◌, length, Outcome, ok, assert, ◌>>=◌,
  ◌>>◌,
}
use sc_code.Packet.{PktHdr}
use sc_code.Datapath.{Config, SSlot, Session, Endpoint, session_req_window, invalid_bg_etid}
use sc_code.Datapath.Client.{slot_at, flow_of, put_flow, put_slot}
use sc_code.Datapath.Request.{enqueue_request}
use sc_code.Datapath.Resp.{process_resp_pkt}

-- Unlinking a slot from the active list.
abbrev pub unlink : ℕ → ℕ → List (ℕ × ℕ) → List (ℕ × ℕ)
unlink session i [] = []
unlink session i ((s, j) ∷ rest) =
    if s == session && j == i then rest else (s, j) ∷ unlink session i rest

-- `FixedVector::push_back`
unfoldable pub push_free : ℕ → Session → Outcome Session
push_free i s = do
  assert (ltb (length s.sslot_free_vec) session_req_window)
  ok (record s { sslot_free_vec = i ∷ s.sslot_free_vec })

-- A background thread's continuation is queued for it.
unfoldable pub submit_bg_resp : ℕ → ℕ → ℕ → Endpoint → Outcome Endpoint
submit_bg_resp cont_func tag etid c = do
  assert (ltb 0 c.num_bg_threads)
  assert (ltb etid c.num_bg_threads)
  ok (record c { bg_resps = (etid, cont_func, tag) ∷ c.bg_resps })

unfoldable pub run_cont : SSlot → Endpoint → Outcome Endpoint
unfolding submit_bg_resp
run_cont s c =
    if s.cont_etid == invalid_bg_etid
    then ok (record c { conts = (s.cont_func, s.tag) ∷ c.conts })
    else submit_bg_resp s.cont_func s.tag s.cont_etid c

module _ (cfg : Config) where
  -- The first waiting request gets the slot. The call passes seven arguments, so that the thread of
  -- the continuation goes in as `_lkey`, and `pkthdr`, the context and `cont_etid` are the defaults.
  unfoldable pub serve_backlog : Endpoint → Outcome Endpoint
  serve_backlog c = elim c.session.enq_req_backlog [
    | [] ↦ ok c
    | args ∷ rest ↦ do
      assert (length c.session.sslot_free_vec == 1)
      c' ←
          enqueue_request cfg true (record args { cont_etid = invalid_bg_etid }) args.cont_etid none
            0 c
      ok (record c' { session = record (c'.session) { enq_req_backlog = rest } })
  ]

  unfoldable pub complete : ℕ → Endpoint → Outcome Endpoint
  unfolding push_free run_cont
  complete i c = do
    s ← slot_at i c
    assert (s.wheel_count == 0)
    let c' = put_slot i (record s { num_rx = 0; tx_msgbuf = none }) c
    session ← push_free s.index c'.session
    c'' ← serve_backlog (record c' {
      session = session;
      active_rpcs = unlink c.session.local_session_num i c.active_rpcs;
    })
    run_cont s c''

  unfoldable pub process_resp_one : ℕ → PktHdr → ℕ → List ℕ → Endpoint → Outcome Endpoint
  process_resp_one i pkthdr rx_tsc body c = do
    s ← slot_at i c
    (f, done) ← process_resp_pkt cfg pkthdr rx_tsc body (flow_of c s)
    if done then complete i (put_flow i f c) else ok (put_flow i f c)
