-- ===== src/Datapath/Resp/Credits.antt =====
-- What a response packet does to the credits of its session.
use sc_code.Common.{
  ℕ, ◌+◌, ◌≤◌, ◌<◌, ◌≡◌, ◌∙◌, ◌⊎◌, inl, inr, refl, ap, false, Bool-cases, List, ◌∷◌, leb, ◌==◌, ok,
  arith, lt→ltb, le→leb,
}
use sc_code.Packet.{PktHdr}
use sc_code.Packet.Sizes.{wire_pkts}
use sc_code.Datapath.{Config, Flow, Serializer, RespBuf, session_credits}
use sc_code.Datapath.Batch.{HasRoom}
use sc_code.Datapath.Words.{add_size}
use sc_code.Datapath.Ctrl.{IsRing}
use sc_code.Datapath.Kick.{tx_msg-some, hdr_0-cons}
use sc_code.Datapath.Kick.Rfr.{CanAsk, kick_rfr_sends}
use sc_code.Datapath.Credit.{update_timely_rate}
use sc_code.Datapath.Resp.{
  store_large, set_resp, kick_rfr_if_pending, process_large_resp_pkt, process_resp_pkt,
}

module _ (cfg : Config) (msg : Serializer) (h : PktHdr) (hs : List PktHdr)
    (e : msg.hdrs ≡ h ∷ hs) where
  kick_rfr_if_pending_credits :
      (p : PktHdr) (f : Flow)
      → CanAsk cfg msg h.total_pkt (wire_pkts h.total_pkt p.total_pkt) f
      → 0 < f.credits
      → (f' : Flow) × (kick_rfr_if_pending cfg p f ≡ ok f')
        × (f'.slot ≡ record (f.slot) { num_tx = f'.slot.num_tx })
        × (f'.credits + f'.slot.num_tx ≡ f.credits + f.slot.num_tx)
        × (f'.slot.num_tx ≤ wire_pkts h.total_pkt p.total_pkt)
        × ((f'.credits ≡ 0) ⊎ (f'.slot.num_tx ≡ wire_pkts h.total_pkt p.total_pkt))
        × HasRoom cfg f'.tx
        × IsRing cfg f'.ctrl
  unfolding kick_rfr_if_pending
  kick_rfr_if_pending_credits p f v c =
      let total = wire_pkts h.total_pkt p.total_pkt in
      let (f', _, kicked, same, sum, bound, idle, _, _, _, room, ring) =
        kick_rfr_sends cfg msg h hs e p f v c in
      elim (Bool-cases (f.slot.num_tx == total)) [
        | inl all ↦ (
          f,
          rw (tx_msg-some f.slot msg v.active, hdr_0-cons msg h hs e, all) refl,
          refl,
          refl,
          v.in_range,
          inr (ground arith),
          v.room,
          v.ring,
        )
        | inr more ↦ (
          f',
          rw (tx_msg-some f.slot msg v.active, hdr_0-cons msg h hs e, more) kicked,
          same,
          sum,
          bound,
          idle,
          room,
          ring,
        )
      ]

  -- A packet of a long response is worth one credit: it is kept, or an RFR goes out for it. The
  -- call does not abort, counts the packet, and reports the response complete when the count is
  -- that of the announced packets. Afterwards no credit lies idle while packets are not asked for.
  pub process_resp_pkt_credits :
      (p : PktHdr) (rx_tsc : ℕ) (body : List ℕ) (f : Flow) {r : RespBuf}
      → CanAsk cfg msg h.total_pkt (wire_pkts h.total_pkt p.total_pkt) f
      → f.credits < session_credits
      → p.req_num ≤ f.slot.cur_req_num
      → cfg.max_data_per_pkt < p.msg_size
      → store_large p body f.slot.resp ≡ ok r
      → (f' : Flow) × (process_resp_pkt cfg p rx_tsc body f
          ≡ ok (f', add_size f.slot.num_rx 1 == p.total_pkt))
        × (f'.credits + f'.slot.num_tx ≡ f.credits + f.slot.num_tx + 1)
        × (f'.slot.num_rx ≡ add_size f.slot.num_rx 1)
        × (f'.slot.resp ≡ r)
        × (f'.slot.num_tx ≤ wire_pkts h.total_pkt p.total_pkt)
        × ((f'.credits ≡ 0) ⊎ (f'.slot.num_tx ≡ wire_pkts h.total_pkt p.total_pkt))
  unfolding process_resp_pkt process_large_resp_pkt
  process_resp_pkt_credits p rx_tsc body f {r} v c le large stored =
      let g = record (update_timely_rate p.pkt_num rx_tsc f) {
        slot = record (f.slot) { num_rx = add_size f.slot.num_rx 1; progress_tsc = f.ev_loop_tsc };
        credits = f.credits + 1;
      } in
      let can : CanAsk cfg msg h.total_pkt (wire_pkts h.total_pkt p.total_pkt) g = record {
        room = v.room;
        ring = v.ring;
        active = v.active;
        req_sent = v.req_sent;
        in_range = v.in_range;
        total_16 = v.total_16;
        credits_64 = omega arith;
      } in
      let (k, kicked, same, sum, bound, idle, room, ring) =
        kick_rfr_if_pending_credits p g can (omega arith) in
      let long : leb p.msg_size cfg.max_data_per_pkt ≡ false = ground arith in
      let rx : k.slot.num_rx ≡ add_size f.slot.num_rx 1 = ap (λ s. s.num_rx) same in
      let resp : k.slot.resp ≡ f.slot.resp = ap (λ s. s.resp) same in
      let keep : store_large p body k.slot.resp ≡ ok r = ap (store_large p body) resp ∙ stored in
      (
        set_resp r k,
        rw
            (
              le→leb p.req_num f.slot.cur_req_num le,
              lt→ltb f.credits session_credits c,
              long,
              kicked,
              keep,
              rx,
            )
            refl,
        omega (arith, sum),
        rx,
        refl,
        bound,
        idle,
      )
