-- ===== src/Datapath/Serve/Respond.antt =====
-- The response to a request, and what becomes of the slot's next request.
use sc_code.Common.{
  ℕ, ◌<◌, ◌≡◌, ◌≢◌, ◌∙◌, refl, true, false, some, none, List, [], ◌∷◌, ◌==◌, ok, err, assert_failed,
  arith, ==_iff,
}
use sc_code.Packet.{PktHdr}
use sc_code.Packet.Headers.{fill_hdrs, fill_hdrs-cons}
use sc_code.Datapath.Words.{add_size}
use sc_code.Datapath.{Config, Serializer, data_pkt, session_req_window}
use sc_code.Datapath.Batch.{pushed, enqueue_item-pushed, HasRoom}
use sc_code.Datapath.Request.{new_context, push_hdrs-filled, push_each_hdr}
use sc_code.Datapath.Serve.{
  ReqFunc, ServeFlow, enqueue_response, send_resp, resp_hdr_args, process_small_req,
}
use sc_code.Sm.{SessionState, state_eq}
use sc_code.Sm.Init.{invalid_req_type}

state-connected :
    (s : SessionState) → s ≡ SessionState.connected → state_eq s SessionState.connected ≡ true
state-connected s e = rw e refl

module _ (cfg : Config) where
  -- The call at a connected session, where the headers can be made.
  respond-connected :
      (msg : Serializer) (lkey context : ℕ) (h : PktHdr) (hs : List PktHdr) (f : ServeFlow)
      → f.state ≡ SessionState.connected
      → fill_hdrs cfg.max_data_per_pkt (resp_hdr_args cfg msg lkey f) h ≡ some hs
      → enqueue_response cfg true msg lkey (some h) context f
        ≡ send_resp cfg (push_each_hdr hs msg) (record f {
          context = new_context f.context context;
          flow = record (f.flow) { sav_num_req_pkts = 1 };
        })
  unfolding enqueue_response resp_hdr_args
  respond-connected msg lkey context h hs f conn filled =
      rw (state-connected f.state conn)
        (rw (push_hdrs-filled cfg (resp_hdr_args cfg msg lkey f) h msg hs filled) refl)

  send_resp-sends :
      (msg : Serializer) (f : ServeFlow)
      → f.flow.tx_msgbuf ≡ none
      → f.req_type ≢ invalid_req_type
      → HasRoom cfg f.flow.tx
      → send_resp cfg msg f
        ≡ ok (record f {
          flow = record (f.flow) {
            tx_msgbuf = some msg;
            tx = pushed cfg (data_pkt f.flow.session f.flow.index msg 0 none) f.flow.tx;
          };
          req_type = invalid_req_type;
        })
  unfolding send_resp
  send_resp-sends msg f empty pending room =
      let awaited : (f.req_type == invalid_req_type) ≡ false = ground (arith, pending) in
      rw (empty, awaited)
        (rw
          (enqueue_item-pushed cfg (data_pkt f.flow.session f.flow.index msg 0 none) f.flow.tx room)
          refl)

  send_resp-occupied :
      (msg old : Serializer) (f : ServeFlow)
      → f.flow.tx_msgbuf ≡ some old
      → send_resp cfg msg f ≡ err assert_failed
  unfolding send_resp
  send_resp-occupied msg old f e = rw e refl

  -- A one-packet request of a foreground type is handed to its handler with its body.
  process_small_req-calls :
      (req_funcs : ℕ → ReqFunc) (req : PktHdr) (body fn : ℕ) (f : ServeFlow)
      → req.req_num ≡ add_size f.flow.cur_req_num session_req_window
      → f.req_type ≡ invalid_req_type
      → req_funcs req.req_type ≡ record { req_func = some fn; is_background = false }
      → process_small_req req_funcs req body f
        ≡ ok (record f {
          flow = record (f.flow) { cur_req_num = req.req_num; num_rx = 1 };
          req_type = req.req_type;
          req_background = false;
          iov = record { base = body; len = req.msg_size } ∷ [];
          calls = (fn, f.flow.index, record { base = body; len = req.msg_size } ∷ []) ∷ f.calls;
        })
  unfolding process_small_req
  process_small_req-calls req_funcs req body fn f next idle registered =
      let expected : (req.req_num == add_size f.flow.cur_req_num session_req_window) ≡ true =
        (==_iff req.req_num _).1 next in
      let free : (f.req_type == invalid_req_type) ≡ true = ground (arith, idle) in
      rw expected (rw (registered, free) refl)

  -- The response to a one-packet request goes out, but its message stays in the slot, where nothing
  -- takes it out: the response to the next request of the slot fails its assertion.
  pub second_response_fails :
      (msg : Serializer) (lkey context : ℕ) (h : PktHdr) (hs : List PktHdr) (f : ServeFlow)
      → f.state ≡ SessionState.connected
      → f.flow.tx_msgbuf ≡ none
      → f.req_type ≢ invalid_req_type
      → HasRoom cfg f.flow.tx
      → fill_hdrs cfg.max_data_per_pkt (resp_hdr_args cfg msg lkey f) h ≡ some hs
      → (req_funcs : ℕ → ReqFunc) (req : PktHdr) (body fn : ℕ)
      → req.req_num ≡ add_size f.flow.cur_req_num session_req_window
      → req_funcs req.req_type ≡ record { req_func = some fn; is_background = false }
      → (msg2 : Serializer) (lkey2 context2 : ℕ) (h2 : PktHdr) → 0 < h2.total_pkt
      → (f' g : ServeFlow) × (enqueue_response cfg true msg lkey (some h) context f ≡ ok f')
        × (process_small_req req_funcs req body f' ≡ ok g)
        × (enqueue_response cfg true msg2 lkey2 (some h2) context2 g ≡ err assert_failed)
  second_response_fails msg lkey context h hs f conn empty pending room filled req_funcs req body fn
        next registered msg2 lkey2 context2 h2 some_pkts =
      let msg' : Serializer = push_each_hdr hs msg in
      let item = data_pkt f.flow.session f.flow.index msg' 0 none in
      let f1 : ServeFlow = record f {
        context = new_context f.context context;
        flow = record (f.flow) { sav_num_req_pkts = 1 };
      } in
      let f' : ServeFlow = record f1 {
        flow = record (f1.flow) { tx_msgbuf = some msg'; tx = pushed cfg item f.flow.tx };
        req_type = invalid_req_type;
      } in
      let piece = record { base = body; len = req.msg_size } ∷ [] in
      let g : ServeFlow = record f' {
        flow = record (f'.flow) { cur_req_num = req.req_num; num_rx = 1 };
        req_type = req.req_type;
        req_background = false;
        iov = piece;
        calls = (fn, f.flow.index, piece) ∷ f.calls;
      } in
      let (h0, rest, made, _) =
        fill_hdrs-cons cfg.max_data_per_pkt (resp_hdr_args cfg msg2 lkey2 g) h2 some_pkts in
      (
        f',
        g,
        respond-connected msg lkey context h hs f conn filled
            ∙ send_resp-sends msg' f1 empty pending room,
        process_small_req-calls req_funcs req body fn f' next refl registered,
        respond-connected msg2 lkey2 context2 h2 (h0 ∷ rest) g conn made
            ∙ send_resp-occupied (push_each_hdr (h0 ∷ rest) msg2) msg' _ refl,
      )
