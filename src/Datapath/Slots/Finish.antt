-- ===== src/Datapath/Slots/Finish.antt =====
-- The end of a request (`process_resp_one_st`, src/rpc_impl/rpc_resp.cc), with and without requests that wait.
use sc_code.Common.{
  ℕ, ◌<◌, ◌≤◌, ◌⊎◌, inl, inr, ◌≡◌, ◌∙◌, refl, ap, true, false, none, some, List, [], ◌∷◌, ◌==◌,
  length, get_elem?, get_elem?-set_self, get_elem?_lt, set, lt→ltb, ok, err, bad_access, ◌>>=◌,
  arith, if◌then◌else◌,
}
use sc_code.Datapath.{
  Config, Serializer, SSlot, EnqReqArgs, Endpoint, session_req_window, invalid_bg_etid,
}
use sc_code.Datapath.Client.{slot_at, slot_at-some}
use sc_code.Datapath.Request.{is_null, enqueue_request, start_request, push_hdrs}
use sc_code.Datapath.Complete.{unlink, push_free, submit_bg_resp, run_cont, serve_backlog, complete}
use sc_code.Datapath.Slots.{SlotsOk, SlotsOk-finish, Numbered-get}

-- The slot after its request, and the endpoint before its continuation is run.
ended : SSlot → SSlot
ended s = record s { num_rx = 0; tx_msgbuf = none }

freed : ℕ → SSlot → Endpoint → Endpoint
unfolding ended
freed i s c = record c {
  session = record (c.session) {
    sslots = set c.session.sslots i (ended s);
    sslot_free_vec = i ∷ c.session.sslot_free_vec;
  };
  active_rpcs = unlink c.session.local_session_num i c.active_rpcs;
}

-- A slot whose request has been answered in full, at a session whose slots are in order.
pub record CanFinish (c : Endpoint) (i : ℕ) (s : SSlot) (msg : Serializer) : Type 0 where
  pub at : get_elem? c.session.sslots i ≡ some s
  pub slots : SlotsOk c.session.sslots c.session.sslot_free_vec
  pub active : s.tx_msgbuf ≡ some msg
  pub no_wheel : s.wheel_count ≡ 0

ended-SlotsOk :
    (c : Endpoint) (i : ℕ) (s : SSlot) (msg : Serializer)
    → CanFinish c i s msg
    → SlotsOk (set c.session.sslots i (ended s)) (i ∷ c.session.sslot_free_vec)
      × (length c.session.sslot_free_vec < session_req_window)
unfolding ended
ended-SlotsOk c i s msg v =
    SlotsOk-finish c.session.sslots i s (ended s) v.at refl c.session.sslot_free_vec refl
      (ap (λ m. if is_null m then 0 else 1) v.active) refl v.slots

module _ (cfg : Config) where
  -- Up to the backlog, the call frees the slot; the continuation is run last.
  complete-freed :
      (c : Endpoint) (i : ℕ) (s : SSlot) (msg : Serializer)
      → CanFinish c i s msg
      → complete cfg i c ≡ (serve_backlog cfg (freed i s c) >>= run_cont s)
  unfolding complete push_free freed ended
  complete-freed c i s msg v =
      let room =
        lt→ltb (length c.session.sslot_free_vec) session_req_window (ended-SlotsOk c i s msg v).1 in
      let own : s.index ≡ i =
        omega (arith, (Numbered-get 0 c.session.sslots i s v.at v.slots.numbered).0) in
      let wheel : (s.wheel_count == 0) ≡ true = ap (λ n. n == 0) v.no_wheel in
      rw (slot_at-some i c s v.at, wheel, room, own) refl

  run_cont-runs :
      (s : SSlot) (c : Endpoint)
      → c.num_bg_threads ≤ invalid_bg_etid
      → (s.cont_etid ≡ invalid_bg_etid) ⊎ (s.cont_etid < c.num_bg_threads)
      → run_cont s c
        ≡ ok (record c {
          conts =
              if s.cont_etid == invalid_bg_etid then (s.cont_func, s.tag) ∷ c.conts else c.conts;
          bg_resps =
              if s.cont_etid == invalid_bg_etid
              then c.bg_resps
              else (s.cont_etid, s.cont_func, s.tag) ∷ c.bg_resps;
        })
  unfolding run_cont submit_bg_resp
  run_cont-runs s c n (inl e) =
      let own : (s.cont_etid == invalid_bg_etid) ≡ true = ground arith in rw own refl
  run_cont-runs s c n (inr l) =
      let other : (s.cont_etid == invalid_bg_etid) ≡ false = ground arith in
      rw (other, lt→ltb 0 c.num_bg_threads (omega arith), lt→ltb s.cont_etid c.num_bg_threads l)
        refl

  -- With no request waiting, the end of a request frees its slot, which goes to the back of the
  -- free ones and is the next to be taken; the slots stay in order; and the continuation is invoked
  -- once, in this thread or, for a request of a background thread, by being queued for that one.
  pub complete_frees :
      (c : Endpoint) (i : ℕ) (s : SSlot) (msg : Serializer)
      → CanFinish c i s msg
      → c.session.enq_req_backlog ≡ []
      → c.num_bg_threads ≤ invalid_bg_etid
      → (s.cont_etid ≡ invalid_bg_etid) ⊎ (s.cont_etid < c.num_bg_threads)
      → (c' : Endpoint) × (complete cfg i c ≡ ok c')
        × SlotsOk c'.session.sslots c'.session.sslot_free_vec
        × (c'.session.sslot_free_vec ≡ i ∷ c.session.sslot_free_vec)
        × (c'.active_rpcs ≡ unlink c.session.local_session_num i c.active_rpcs)
        × (c'.conts
            ≡ (if s.cont_etid == invalid_bg_etid then (s.cont_func, s.tag) ∷ c.conts else c.conts))
        × (c'.bg_resps ≡ (
            if s.cont_etid == invalid_bg_etid
            then c.bg_resps
            else (s.cont_etid, s.cont_func, s.tag) ∷ c.bg_resps))
  unfolding freed serve_backlog
  complete_frees c i s msg v none_waits n etid =
      let served : serve_backlog cfg (freed i s c) ≡ ok (freed i s c) = rw none_waits refl in
      (
        _,
        complete-freed c i s msg v
            ∙ ap (λ m. m >>= run_cont s) served
            ∙ run_cont-runs s (freed i s c) n etid,
        (ended-SlotsOk c i s msg v).0,
        refl,
        refl,
        refl,
        refl,
      )

  -- A request that waits for a slot is never sent: where all slots were taken, the end of the first
  -- request gives the waiting one's headers a null pointer, and writes through it.
  pub complete_faults_with_backlog :
      (c : Endpoint) (i : ℕ) (s : SSlot) (msg : Serializer) (args : EnqReqArgs)
      (rest : List EnqReqArgs)
      → CanFinish c i s msg
      → c.session.is_connected ≡ true
      → c.session.sslot_free_vec ≡ []
      → c.session.enq_req_backlog ≡ args ∷ rest
      → complete cfg i c ≡ err bad_access
  unfolding freed serve_backlog enqueue_request start_request push_hdrs ended slot_at
  complete_faults_with_backlog c i s msg args rest v k full waits =
      let now : get_elem? (set c.session.sslots i (ended s)) i ≡ some (ended s) =
        get_elem?-set_self c.session.sslots i (ended s) (get_elem?_lt c.session.sslots i s v.at) in
      let c' = record (freed i s c) {
        session = record ((freed i s c).session) { sslot_free_vec = [] };
      } in
      let faulted : serve_backlog cfg (freed i s c) ≡ err bad_access =
        rw (waits, full, k, slot_at-some i c' (ended s) now) refl in
      complete-freed c i s msg v ∙ ap (λ m. m >>= run_cont s) faulted
