-- ===== src/Datapath/Loss/Rollback.antt =====
-- What a retransmission does to the credits, and why one fails after an explicit credit return.
use sc_code.Common.{
  ℕ, ◌+◌, ◌-◌, ◌^◌, ◌<◌, ◌≤◌, ◌≡◌, ◌⊎◌, refl, ap, false, some, List, ◌∷◌, ◌++◌, ltb, leb, ◌==◌, ok,
  err, assert_failed, arith, lt→ltb, le→leb,
}
use sc_code.Packet.{PktHdr}
use sc_code.Datapath.{Config, Serializer, Flow, session_credits}
use sc_code.Datapath.Words.{add_size, sub_size, add_size_exact, sub_size_exact}
use sc_code.Datapath.Batch.{HasRoom, queued}
use sc_code.Datapath.Kick.{kick_req, req_pkts_pending, tx_msg, tx_msg-some}
use sc_code.Datapath.Kick.Req.{CanKick, data_pkts, kick_req_sends}
use sc_code.Datapath.Credit.{process_expl_cr, update_timely_rate}
use sc_code.Datapath.Request.{is_null}
use sc_code.Datapath.Loss.{has_slot, roll_back, retransmit, pkt_loss_retransmit}

module _ (cfg : Config) (msg : Serializer) (h : PktHdr) (hs : List PktHdr)
    (e : msg.hdrs ≡ h ∷ hs) where
  -- The flow after the roll-back, where no subtraction or sum wraps.
  rolled : Flow → Flow
  rolled f = record f {
    slot = record (f.slot) { num_tx = f.slot.num_rx; progress_tsc = f.ev_loop_tsc };
    credits = f.credits + (f.slot.num_tx - f.slot.num_rx);
    session_re_tx = f.session_re_tx + 1;
    num_re_tx = f.num_re_tx + 1;
  }

  pkt_loss_retransmit-rolled :
      (stallq : List (ℕ × ℕ)) (f k : Flow)
      → has_slot f.session f.slot.index stallq ≡ false
      → f.slot.tx_msgbuf ≡ some msg
      → f.slot.num_rx < f.slot.num_tx
      → f.slot.num_rx < msg.total_pkg
      → f.slot.num_tx < 2 ^ 16
      → f.credits + (f.slot.num_tx - f.slot.num_rx) ≤ session_credits
      → f.slot.wheel_count ≡ 0
      → kick_req cfg (rolled f) ≡ ok k
      → pkt_loss_retransmit cfg stallq f ≡ ok k
  unfolding pkt_loss_retransmit retransmit req_pkts_pending rolled roll_back
  pkt_loss_retransmit-rolled stallq f k unstalled active lost short t16 c wheel kicked =
      let delta = f.slot.num_tx - f.slot.num_rx in
      let d : sub_size f.slot.num_tx f.slot.num_rx ≡ delta =
        sub_size_exact f.slot.num_tx f.slot.num_rx (omega arith) (omega arith) in
      let sum : add_size f.credits delta ≡ f.credits + delta =
        add_size_exact f.credits delta (omega arith) in
      let busy : is_null f.slot.tx_msgbuf ≡ false = ap is_null active in
      let some_lost : (delta == 0) ≡ false = ground arith in
      let no_wheel : ltb 0 f.slot.wheel_count ≡ false = ap (ltb 0) wheel in
      rw
        (
          busy,
          d,
          sum,
          le→leb (f.credits + delta) session_credits c,
          some_lost,
          unstalled,
          no_wheel,
          tx_msg-some (rolled f).slot msg active,
          lt→ltb f.slot.num_rx msg.total_pkg short,
        )
        kicked

  -- Packets of a request that are out beyond what has been received are sent again, from the first
  -- one missing, under the credits that they had taken; the sum of credits and packets sent stays. The
  -- slot is not stalled, has nothing in the wheel, and holds no more credits than there are.
  pub pkt_loss_retransmit_resends :
      (stallq : List (ℕ × ℕ)) (f : Flow)
      → has_slot f.session f.slot.index stallq ≡ false
      → HasRoom cfg f.tx
      → f.slot.tx_msgbuf ≡ some msg
      → h.total_pkt < 2 ^ 16
      → h.total_pkt ≡ msg.total_pkg
      → f.slot.num_rx < f.slot.num_tx
      → f.slot.num_rx < h.total_pkt
      → f.slot.num_tx ≤ h.total_pkt
      → f.credits + (f.slot.num_tx - f.slot.num_rx) ≤ session_credits
      → f.slot.wheel_count ≡ 0
      → (f' : Flow) × (pkt_loss_retransmit cfg stallq f ≡ ok f')
        × (f'.credits + f'.slot.num_tx ≡ f.credits + f.slot.num_tx)
        × (f'.slot.num_tx ≤ h.total_pkt)
        × ((f'.credits ≡ 0) ⊎ (f'.slot.num_tx ≡ h.total_pkt))
        × (queued f'.tx
            ≡ queued f.tx
              ++ data_pkts f.session f.slot.index msg f.slot.num_rx
                  (f'.slot.num_tx - f.slot.num_rx))
  unfolding rolled
  pkt_loss_retransmit_resends stallq f unstalled room active t16 same lost short in_range c wheel =
      let can : CanKick cfg msg h.total_pkt (rolled f) = record {
        room = room;
        active = active;
        in_range = omega arith;
        total_16 = t16;
        has_credit = omega arith;
        credits_64 = omega arith;
      } in
      let (k, kicked, sum, bound, idle, sent, _) = kick_req_sends cfg msg h hs (rolled f) e can in
      (
        k,
        pkt_loss_retransmit-rolled stallq f k unstalled active lost (omega arith) (omega arith) c
            wheel kicked,
        omega (arith, sum),
        bound,
        idle,
        sent,
      )

  -- An explicit credit return counts as a credit and not as a packet received. So once the whole
  -- request of a slot is out, with no response yet, and no other slot of the session holds a credit, one
  -- credit return makes the next retransmission of the slot fail its assertion on the credits.
  pub retransmit_fails_after_cr :
      (stallq : List (ℕ × ℕ)) (pkthdr : PktHdr) (rx_tsc : ℕ) (f : Flow)
      → HasRoom cfg f.tx
      → f.slot.tx_msgbuf ≡ some msg
      → h.total_pkt < 2 ^ 16
      → msg.total_pkg ≡ h.total_pkt
      → f.slot.num_tx ≡ h.total_pkt
      → f.slot.num_rx ≤ f.slot.num_tx
      → f.credits < session_credits
      → f.credits + (f.slot.num_tx - f.slot.num_rx) ≡ session_credits
      → pkthdr.req_num ≤ f.slot.cur_req_num
      → (f' : Flow) × (process_expl_cr cfg pkthdr rx_tsc f ≡ ok f')
        × (pkt_loss_retransmit cfg stallq f' ≡ err assert_failed)
  unfolding process_expl_cr pkt_loss_retransmit req_pkts_pending tx_msg
  retransmit_fails_after_cr stallq pkthdr rx_tsc f room active t16 same sent le c full num =
      let g = record (update_timely_rate pkthdr.pkt_num rx_tsc f) {
        slot = record (f.slot) { progress_tsc = f.ev_loop_tsc };
        credits = f.credits + 1;
      } in
      let delta = f.slot.num_tx - f.slot.num_rx in
      let d : sub_size f.slot.num_tx f.slot.num_rx ≡ delta =
        sub_size_exact f.slot.num_tx f.slot.num_rx le (omega arith) in
      let busy : is_null f.slot.tx_msgbuf ≡ false = ap is_null active in
      let over : leb (add_size (f.credits + 1) delta) session_credits ≡ false =
        rw (add_size_exact (f.credits + 1) delta (omega arith)) (ground arith) in
      let all_sent : ltb f.slot.num_tx msg.total_pkg ≡ false = ground arith in
      (
        g,
        rw
            (
              le→leb pkthdr.req_num f.slot.cur_req_num num,
              lt→ltb f.credits session_credits c,
              tx_msg-some f.slot msg active,
              all_sent,
            )
            refl,
        rw (busy, d, over) refl,
      )
