-- ===== src/Datapath/Slots/Take.antt =====
-- The steps of `enqueue_request` (src/rpc_impl/rpc_req.cc) at a free slot.
use sc_code.Common.{
  ℕ, ◌+◌, ◌%◌, ◌^◌, ◌<◌, ◌≡◌, ◌∙◌, refl, sym, ap, true, some, List, ◌∷◌, ltb, snoc, get_elem?, set,
  get_elem?-set_self, get_elem?_lt, lt→ltb, ok, assert-true, arith, if◌then◌else◌,
}
use sc_code.Packet.{PktHdr}
use sc_code.Packet.Headers.{HdrArgs, fill_hdrs, fill_hdrs-cons}
use sc_code.Datapath.{Config, Serializer, SSlot, EnqReqArgs, Flow, Endpoint, session_req_window}
use sc_code.Datapath.Words.{add_size, add_size_exact}
use sc_code.Datapath.Kick.{kick_req}
use sc_code.Datapath.Client.{on_slot, slot_at-some, put_slot, flow_of, put_flow}
use sc_code.Datapath.Request.{
  is_null, push_each_hdr, push_hdrs, push_hdrs-filled, start_slot, start_request, req_hdr_args,
  enqueue_request,
}
use sc_code.Datapath.Slots.{SlotsOk, busy, busy_at-get}

pub null_of_idle : (s : SSlot) → busy s ≡ 0 → is_null s.tx_msgbuf ≡ true
null_of_idle s b = ground arith

pub window_next : (n : ℕ) → n + 32 < 2 ^ 64 → add_size n session_req_window % 32 ≡ n % 32
window_next n h = rw (add_size_exact n 32 h) (omega arith)

module _ (cfg : Config) where
  -- The headers that are made, and the message that they are pushed to.
  pub push_hdrs-cons :
      (a : HdrArgs) (h : PktHdr) (msg : Serializer)
      → 0 < h.total_pkt
      → (g : PktHdr) × (gs : List PktHdr) × (fill_hdrs cfg.max_data_per_pkt a h ≡ some (g ∷ gs))
        × (push_hdrs cfg a (some h) msg ≡ ok (push_each_hdr (g ∷ gs) msg))
        × (g.total_pkt ≡ h.total_pkt)
  push_hdrs-cons a h msg p =
      let (g, gs, e, t) = fill_hdrs-cons cfg.max_data_per_pkt a h p in
      (g, gs, e, push_hdrs-filled cfg a h msg (g ∷ gs) e, t)

  -- The slot with its request, and the endpoint that has it.
  unfoldable pub started : EnqReqArgs → ℕ → Serializer → ℕ → SSlot → SSlot
  unfolding start_slot
  started args context msg now s = record (start_slot args context now s) { tx_msgbuf = some msg }

  unfoldable pub with_request : ℕ → SSlot → Endpoint → Endpoint
  with_request i s c = record (put_slot i s c) {
    active_rpcs = snoc c.active_rpcs (c.session.local_session_num, i);
  }

  pub start_request-kicks :
      (i : ℕ) (args : EnqReqArgs) (lkey : ℕ) (h : PktHdr) (context : ℕ) (c : Endpoint) (s : SSlot)
      (msg : Serializer)
      → get_elem? c.session.sslots i ≡ some s
      → is_null s.tx_msgbuf ≡ true
      → push_hdrs cfg
          (req_hdr_args cfg args lkey c.session.remote_session_num
            (add_size s.cur_req_num session_req_window))
          (some h)
          args.req_msgbuf
        ≡ ok msg
      → start_request cfg i args lkey (some h) context c ≡ (
          let c' = with_request i (started args context msg c.ev_loop_tsc s) c in
          if ltb 0 c.session.credits
          then on_slot i (kick_req cfg) c'
          else ok (record c' { stallq = snoc c.stallq (c.session.local_session_num, i) }))
  unfolding start_request started with_request
  start_request-kicks i args lkey h context c s msg e n p = rw (slot_at-some i c s e, n, p) refl

  -- What a new request meets: a connected session whose next free slot is `i`.
  pub record CanStart (c : Endpoint) (i : ℕ) (free : List ℕ) (s : SSlot) (h : PktHdr) : Type 0 where
    pub connected : c.session.is_connected ≡ true
    pub free_vec : c.session.sslot_free_vec ≡ i ∷ free
    pub slots : SlotsOk c.session.sslots (i ∷ free)
    pub at : get_elem? c.session.sslots i ≡ some s
    pub num_64 : s.cur_req_num + 32 < 2 ^ 64
    pub total_pos : 0 < h.total_pkt

  pub enqueue_request-started :
      (i : ℕ) (free : List ℕ) (args : EnqReqArgs) (lkey : ℕ) (h : PktHdr) (context : ℕ)
      (c : Endpoint)
      → c.session.is_connected ≡ true
      → c.session.sslot_free_vec ≡ i ∷ free
      → enqueue_request cfg true args lkey (some h) context c
        ≡ start_request cfg i args lkey
            (some h)
            context
            (record c { session = record (c.session) { sslot_free_vec = free } })
  unfolding enqueue_request
  enqueue_request-started i free args lkey h context c k e =
      assert-true c.session.is_connected _ k ∙ rw e refl

  pub put_kicked :
      (i : ℕ) (s s' : SSlot) (c : Endpoint) (f : Flow)
      → get_elem? c.session.sslots i ≡ some s
      → kick_req cfg (flow_of (with_request i s' c) s') ≡ ok f
      → on_slot i (kick_req cfg) (with_request i s' c) ≡ ok (put_flow i f (with_request i s' c))
  unfolding on_slot with_request
  put_kicked i s s' c f e k =
      let now : get_elem? (set c.session.sslots i s') i ≡ some s' =
        get_elem?-set_self c.session.sslots i s' (get_elem?_lt c.session.sslots i s e) in
      rw (slot_at-some i (with_request i s' c) s' now, k) refl

  -- The whole call, where the headers are made and the packets go out.
  pub enqueue_request-run :
      (i : ℕ) (free : List ℕ) (s : SSlot) (args : EnqReqArgs) (lkey : ℕ) (h : PktHdr) (context : ℕ)
      (c : Endpoint) (msg : Serializer) (f : Flow)
      → CanStart c i free s h
      → 0 < c.session.credits
      → push_hdrs cfg
          (req_hdr_args cfg args lkey c.session.remote_session_num
            (add_size s.cur_req_num session_req_window))
          (some h)
          args.req_msgbuf
        ≡ ok msg
      → let c0 = record c { session = record (c.session) { sslot_free_vec = free } } in
        let s' = started args context msg c.ev_loop_tsc s in
        kick_req cfg (flow_of (with_request i s' c0) s') ≡ ok f
        → enqueue_request cfg true args lkey (some h) context c
          ≡ ok (put_flow i f (with_request i s' c0))
  enqueue_request-run i free s args lkey h context c msg f v p e k =
      let c0 = record c { session = record (c.session) { sslot_free_vec = free } } in
      let s' = started args context msg c.ev_loop_tsc s in
      enqueue_request-started i free args lkey h context c v.connected v.free_vec
      ∙ start_request-kicks i args lkey h context c0 s msg v.at
          (null_of_idle s (sym (busy_at-get c.session.sslots i s v.at) ∙ v.slots.idle.0)) e
      ∙ ap
          (λ b.
            if b
            then on_slot i (kick_req cfg) (with_request i s' c0)
            else ok (record (with_request i s' c0) {
              stallq = snoc c0.stallq (c0.session.local_session_num, i);
            }))
          (lt→ltb 0 c.session.credits p)
      ∙ put_kicked i s s' c0 f v.at k
