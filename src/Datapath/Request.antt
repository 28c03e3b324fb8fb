-- ===== src/Datapath/Request.antt =====
-- `Rpc::enqueue_request` of src/rpc_impl/rpc_req.cc, with `add_to_active_rpc_list` of src/rpc.h.
-- The intrusive list of active requests is kept as the list of its slots.
use sc_code.Common.{
  ℕ, suc, ◌+◌, ◌-◌, ◌*◌, ◌≤◌, arith, ◌≡◌, refl, Bool, true, false, Option, none, some, List, [],
  ◌∷◌, ◌++◌, ltb, ◌==◌, if◌then◌else◌, length, snoc, count_if, Outcome, ok, err, bad_access, assert,
  ◌>>=◌, ◌>>◌,
}
use sc_code.Packet.{PktHdr, PktType}
use sc_code.Packet.Headers.{HdrArgs, fill_hdrs}
use sc_code.Datapath.{Config, Serializer, SSlot, EnqReqArgs, Endpoint, session_req_window}
use sc_code.Datapath.Words.{add_size}
use sc_code.Datapath.Kick.{kick_req}
use sc_code.Datapath.Client.{on_slot, slot_at, put_slot}

-- `iov.sum()`
abbrev pub iov_sum : ℕ → Serializer → ℕ
iov_sum hdr_size msg = length msg.hdrs * hdr_size + count_if (λ v. v.len) msg.segs

abbrev pub is_null {ℓ} : {A : Type ℓ} → Option A → Bool
is_null none = true
is_null (some a) = false

-- `if (context != nullptr) sslot.c = context;`, a null pointer being 0.
abbrev pub new_context : ℕ → ℕ → ℕ
new_context old context = if context == 0 then old else context

-- The slot of a new request, before its headers are made.
unfoldable pub start_slot : EnqReqArgs → ℕ → ℕ → SSlot → SSlot
start_slot args context now s = record s {
  tx_msgbuf = some args.req_msgbuf;
  cur_req_num = add_size s.cur_req_num session_req_window;
  context = new_context s.context context;
  resp_msgbuf = args.resp_msgbuf;
  cont_func = args.cont_func;
  tag = args.tag;
  progress_tsc = now;
  num_rx = 0;
  num_tx = 0;
  cont_etid = args.cont_etid;
}

-- `iov.push_front(pkthdr + i, sizeof(pkthdr_t))`. Without a free entry the header is not pushed, which the
-- callers only log.
unfoldable pub push_front : PktHdr → Serializer → Serializer
push_front h msg =
    if ltb 0 msg.front then record msg { hdrs = h ∷ msg.hdrs; front = msg.front - 1 } else msg

-- The last header is pushed first.
unfoldable pub push_each_hdr : List PktHdr → Serializer → Serializer
unfolding push_front
push_each_hdr [] msg = msg
push_each_hdr (h ∷ hs) msg = push_front h (push_each_hdr hs msg)

pub push_each_hdr-fits :
    (hs : List PktHdr) (msg : Serializer)
    → length hs ≤ msg.front
    → push_each_hdr hs msg ≡ record msg { hdrs = hs ++ msg.hdrs; front = msg.front - length hs }
unfolding push_each_hdr
push_each_hdr-fits [] msg fits =
    let all_left : msg.front - 0 ≡ msg.front = omega arith in rw all_left refl
push_each_hdr-fits (h ∷ hs) msg fits =
    let room : ltb 0 (msg.front - length hs) ≡ true = ground arith in
    let one_less : msg.front - length hs - 1 ≡ msg.front - suc (length hs) = omega arith in
    rw (push_each_hdr-fits hs msg (omega arith)) (rw (push_front, room, one_less) refl)

module _ (cfg : Config) where
  -- Headers from `pkthdr[0]`, pushed in front of the data. A null `pkthdr` is written through.
  unfoldable pub push_hdrs : HdrArgs → Option PktHdr → Serializer → Outcome Serializer
  push_hdrs a pkthdr msg = elim pkthdr [
    | none ↦ err bad_access
    | some h ↦ elim (fill_hdrs cfg.max_data_per_pkt a h) [
      | none ↦ err bad_access
      | some hs ↦ ok (push_each_hdr hs msg)
    ]
  ]

  pub push_hdrs-filled :
      (a : HdrArgs) (h : PktHdr) (msg : Serializer) (hs : List PktHdr)
      → fill_hdrs cfg.max_data_per_pkt a h ≡ some hs
      → push_hdrs a (some h) msg ≡ ok (push_each_hdr hs msg)
  unfolding push_hdrs
  push_hdrs-filled a h msg hs e = rw (push_hdrs, e) refl

  unfoldable pub req_hdr_args : EnqReqArgs → ℕ → ℕ → ℕ → HdrArgs
  req_hdr_args args lkey remote_session_num req_num = record {
    req_type = args.req_type;
    msg_size = iov_sum cfg.hdr_size args.req_msgbuf;
    remote_session_num = remote_session_num;
    pkt_type = PktType.req;
    pkt_num = 0;
    req_num = req_num;
    lkey = lkey;
  }

  -- The request in slot `i`, which has been popped from the free slots.
  unfoldable pub start_request :
      ℕ → EnqReqArgs → ℕ → Option PktHdr → ℕ → Endpoint → Outcome Endpoint
  unfolding start_slot req_hdr_args
  start_request i args lkey pkthdr context c = do
    s ← slot_at i c
    assert (is_null s.tx_msgbuf)
    let s' = start_slot args context c.ev_loop_tsc s
    let a = req_hdr_args args lkey c.session.remote_session_num s'.cur_req_num
    msg ← push_hdrs a pkthdr args.req_msgbuf
    let slot = c.session.local_session_num
    let c' = record (put_slot i (record s' { tx_msgbuf = some msg }) c) {
      active_rpcs = snoc c.active_rpcs (slot, i);
    }
    if ltb 0 c.session.credits
        then on_slot i (kick_req cfg) c'
        else ok (record c' { stallq = snoc c.stallq (slot, i) })

  abbrev set_backlog : List EnqReqArgs → Endpoint → Endpoint
  set_backlog q c = record c { session = record (c.session) { enq_req_backlog = q } }

  abbrev set_free : List ℕ → Endpoint → Endpoint
  set_free free c = record c { session = record (c.session) { sslot_free_vec = free } }

  -- In the dispatch thread a request takes a free slot, or waits for one; another thread's call
  -- only queues it, with the caller's thread for the continuation.
  unfoldable pub enqueue_request :
      Bool → EnqReqArgs → ℕ → Option PktHdr → ℕ → Endpoint → Outcome Endpoint
  enqueue_request in_dispatch args lkey pkthdr context c =
      if in_dispatch
      then (do
        assert c.session.is_connected
        elim c.session.sslot_free_vec [
          | [] ↦ ok (set_backlog (snoc c.session.enq_req_backlog args) c)
          | i ∷ free ↦ start_request i args lkey pkthdr context (set_free free c)
        ])
      else ok (record c { bg_requests = snoc c.bg_requests args })
