-- ===== src/Datapath/Exchange/Whole.antt =====
-- The whole exchange of a request of several packets: `kick_req_st` of src/rpc_impl/rpc_kick.cc, the
-- requests' handler of src/rpc_impl/rpc_req.cc and `process_expl_cr_st` of src/rpc_impl/rpc_cr.cc.
use sc_code.Common.{
  ℕ, zero, suc, ◌+◌, ◌-◌, ◌%◌, ◌^◌, ◌≤◌, ◌<◌, ◌≡◌, ◌≢◌, ◌∙◌, sym, ap, false, some, List, ◌∷◌, ◌++◌,
  length, min, subst, ok, arith,
}
use sc_code.Packet.{PktHdr}
use sc_code.Packet.Headers.{HdrArgs, fill_hdrs, fill_hdrs-cons}
use sc_code.Datapath.{Config, Serializer, TxItem, Flow, session_credits}
use sc_code.Datapath.Batch.{HasRoom, queued, queued-push_all}
use sc_code.Datapath.Ctrl.{IsRing}
use sc_code.Datapath.Kick.{kick_req}
use sc_code.Datapath.Kick.Req.{CanKick, data_pkts, kick_req-after, after_kick}
use sc_code.Datapath.Serve.{ReqFunc, ServeFlow, process_large_reqs, iov_capacity}
use sc_code.Datapath.Serve.Requests.{Consecutive, bodies, Served, large_request-Served}
use sc_code.Sm.Init.{invalid_req_type}
use sc_code.Datapath.Exchange.{
  received, received-cons, Entry, received-Consecutive, length-received, length-data_pkts,
  fill_hdrs-Entry,
}
use sc_code.Datapath.Exchange.Credits.{process_expl_crs, process_expl_crs-returns}

-- Both ends over the whole request: the client's flow after the sending and after the credit returns,
-- the server's slot after the packets, and what the server served.
pub record Exchange (cfg : Config) (ctrl_size : ℕ) (req_funcs : ℕ → ReqFunc) (place mem : ℕ → ℕ)
    (fn q t n tsc : ℕ) (msg : Serializer) (f : Flow) (g : ServeFlow) : Type 0 where
  pub client : Flow
  pub server : ServeFlow
  pub items : List TxItem
  pub kicked : kick_req cfg f ≡ ok client
  pub queued_items : queued client.tx ≡ queued f.tx ++ items
  pub number : length items ≡ n
  pub handled : process_large_reqs cfg ctrl_size req_funcs (received place items) g ≡ ok server
  pub served : Served mem fn q t (n - 1) (bodies mem (received place items)) g server
  pub client_done : Flow
  pub returned : process_expl_crs cfg (received place served.crs) tsc client ≡ ok client_done
  pub credits : client_done.credits + 1 ≡ f.credits

module _ (cfg : Config) (ctrl_size : ℕ) (req_funcs : ℕ → ReqFunc) (place mem : ℕ → ℕ) where
  -- The server's part, of a message whose headers are in order.
  serve_received :
      (s l : ℕ) (msg : Serializer) (fn q t n : ℕ) (g : ServeFlow)
      → ((j : ℕ) → j < n → Entry msg n q t j)
      → 2 ≤ n
      → n ≤ iov_capacity
      → req_funcs t ≡ record { req_func = some fn; is_background = false }
      → IsRing cfg g.flow.ctrl
      → HasRoom cfg g.flow.tx
      → g.req_type ≡ invalid_req_type
      → g.before.base + g.before.len ≢ place 0
      → let ps = received place (data_pkts s l msg 0 n) in
        (g' : ServeFlow) × (process_large_reqs cfg ctrl_size req_funcs ps g ≡ ok g')
        × Served mem fn q t (n - 1) (bodies mem ps) g g'
  serve_received s l msg fn q t zero g entries two fits reg ring room idle apart =
      absurd (omega arith)
  serve_received s l msg fn q t (suc zero) g entries two fits reg ring room idle apart =
      absurd (omega arith)
  serve_received s l msg fn q t (suc (suc m)) g entries two fits reg ring room idle apart =
      let n = suc (suc m) in
      let v = entries 0 (omega arith) in
      let v' = entries 1 (omega arith) in
      let rest = received place (data_pkts s l msg 2 m) in
      let shape : received place (data_pkts s l msg 0 n)
          ≡ (v.hdr, place 0) ∷ (v'.hdr, place 1) ∷ rest =
        received-cons place s l msg 0 (suc m) v.hdr v.there
        ∙ ap (λ ps. (v.hdr, place 0) ∷ ps) (received-cons place s l msg 1 m v'.hdr v'.there) in
      let order = received-Consecutive place s l msg n q t n 0 entries (omega arith) in
      let number : suc (length rest) ≡ n - 1 =
        omega (arith, length-received place s l msg n q t m 2 entries (omega arith)) in
      let in_order : Consecutive 0 n q t ((v.hdr, place 0) ∷ (v'.hdr, place 1) ∷ rest) =
        subst (λ ps. Consecutive 0 n q t ps) shape order in
      let (g', ran, s) =
        large_request-Served cfg ctrl_size req_funcs mem fn n q t reg fits v.hdr v'.hdr (place 0)
          (place 1) rest g in_order ring room idle apart in
      (g', rw shape ran, rw (shape, sym number) s)

  -- A client with credits for a whole request of several packets sends them all; the server, given
  -- them in order, calls the request's handler once with all their bytes; and the credit returns that
  -- it queues, given to the client, give back all of its credits but one.
  pub request-Exchange :
      (a : HdrArgs) (h0 : PktHdr) (msg : Serializer) (fn tsc : ℕ) (f : Flow) (g : ServeFlow)
      → a.pkt_num ≡ 0
      → fill_hdrs cfg.max_data_per_pkt a h0 ≡ some msg.hdrs
      → msg.total_pkg ≡ h0.total_pkt
      → CanKick cfg msg h0.total_pkt f
      → f.slot.num_tx ≡ 0
      → a.req_num % 2 ^ 32 ≤ f.slot.cur_req_num
      → 2 ≤ h0.total_pkt
      → h0.total_pkt ≤ f.credits
      → f.credits ≤ session_credits
      → req_funcs (a.req_type % 2 ^ 8) ≡ record { req_func = some fn; is_background = false }
      → IsRing cfg g.flow.ctrl
      → HasRoom cfg g.flow.tx
      → g.req_type ≡ invalid_req_type
      → g.before.base + g.before.len ≢ place 0
      → Exchange cfg ctrl_size req_funcs place mem fn
          (a.req_num % 2 ^ 32)
          (a.req_type % 2 ^ 8)
          h0.total_pkt
          tsc
          msg
          f
          g
  request-Exchange a h0 msg fn tsc f g z made total can zero_tx known two enough max registered ring
        room idle apart =
      let n = h0.total_pkt in
      let q = a.req_num % 2 ^ 32 in
      let t = a.req_type % 2 ^ 8 in
      let entries = fill_hdrs-Entry cfg.max_data_per_pkt a h0 msg z can.total_16 made in
      let items = data_pkts f.session f.slot.index msg 0 n in
      let (h, hs, e, same) = fill_hdrs-cons cfg.max_data_per_pkt a h0 (omega arith) in
      let front : msg.hdrs ≡ h ∷ hs = cc (made, e) in
      let all : min f.credits (h.total_pkt - f.slot.num_tx) ≡ n = omega arith in
      let sent = kick_req-after cfg msg h hs f front (rw same can) in
      let (g', ran, s) =
        serve_received f.session f.slot.index msg fn q t n g entries two (omega arith) registered
          ring room idle apart in
      let client = after_kick cfg n msg f in
      let (done, back, credits, _, _) =
        process_expl_crs-returns cfg place g.flow.session g.flow.index q s.crs tsc msg client
          s.all_cr can.active (omega arith) known (omega (arith, s.number)) in
      record {
        client = client;
        server = g';
        items = items;
        kicked = rw all at sent;
        queued_items = rw zero_tx (queued-push_all cfg items f.tx);
        number = length-data_pkts f.session f.slot.index msg n 0;
        handled = ran;
        served = s;
        client_done = done;
        returned = back;
        credits = omega (arith, credits, s.number);
      }
