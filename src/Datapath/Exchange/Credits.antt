-- ===== src/Datapath/Exchange/Credits.antt =====
-- The credit returns for a request that has been sent whole: `process_expl_cr_st` of
-- src/rpc_impl/rpc_cr.cc for each that the receive loop of src/rpc_impl/rpc_rx.cc finds.
use sc_code.Common.{
  ℕ, ◌+◌, ◌≤◌, ◌<◌, ◌≡◌, refl, false, some, List, [], ◌∷◌, ltb, lt→ltb, le→leb, length, Outcome, ok,
  ◌>>=◌, arith,
}
use sc_code.Packet.{PktHdr}
use sc_code.Datapath.{Config, Serializer, TxItem, data_pkt, ctrl_pkt, Flow, session_credits}
use sc_code.Datapath.Kick.{req_pkts_pending, tx_msg, tx_msg-some}
use sc_code.Datapath.Credit.{process_expl_cr, update_timely_rate}
use sc_code.Datapath.Serve.Requests.{AllCr}
use sc_code.Datapath.Exchange.{received}

module _ (cfg : Config) where
  -- The client takes the credit returns that arrive, in order, each at its own time.
  unfoldable pub process_expl_crs : List (PktHdr × ℕ) → ℕ → Flow → Outcome Flow
  process_expl_crs [] tsc f = ok f
  process_expl_crs ((h, body) ∷ ps) tsc f = do
    f' ← process_expl_cr cfg h tsc f
    process_expl_crs ps (tsc + 1) f'

  -- A credit return after the whole request has been sent adds one credit and sends nothing.
  process_expl_cr-idle :
      (h : PktHdr) (tsc : ℕ) (msg : Serializer) (f : Flow)
      → f.slot.tx_msgbuf ≡ some msg
      → msg.total_pkg ≤ f.slot.num_tx
      → h.req_num ≤ f.slot.cur_req_num
      → f.credits < session_credits
      → process_expl_cr cfg h tsc f
        ≡ ok (record (update_timely_rate h.pkt_num tsc f) {
          slot = record (f.slot) { progress_tsc = f.ev_loop_tsc };
          credits = f.credits + 1;
        })
  unfolding process_expl_cr req_pkts_pending tx_msg
  process_expl_cr-idle h tsc msg f active sent known room =
      let idle : ltb f.slot.num_tx msg.total_pkg ≡ false = ground arith in
      rw
        (
          le→leb h.req_num f.slot.cur_req_num known,
          lt→ltb f.credits session_credits room,
          tx_msg-some f.slot msg active,
          idle,
        )
        refl

  pub process_expl_crs-returns :
      (place : ℕ → ℕ) (s l q : ℕ) (crs : List TxItem) (tsc : ℕ) (msg : Serializer) (f : Flow)
      → AllCr s l q crs
      → f.slot.tx_msgbuf ≡ some msg
      → msg.total_pkg ≤ f.slot.num_tx
      → q ≤ f.slot.cur_req_num
      → f.credits + length crs ≤ session_credits
      → (f' : Flow) × (process_expl_crs (received place crs) tsc f ≡ ok f')
        × (f'.credits ≡ f.credits + length crs)
        × (f'.slot.num_tx ≡ f.slot.num_tx)
        × (f'.tx ≡ f.tx)
  unfolding process_expl_crs update_timely_rate
  process_expl_crs-returns place s l q [] tsc msg f cr active sent known room =
      (f, refl, omega arith, refl, refl)
  process_expl_crs-returns place s l q (data_pkt s' l' m i e ∷ crs) tsc msg f cr active sent known
        room =
      absurd (cr.0)
  process_expl_crs-returns place s l q (ctrl_pkt s' l' h ∷ crs) tsc msg f cr active sent known
        room =
      let next : Flow = record (update_timely_rate h.pkt_num tsc f) {
        slot = record (f.slot) { progress_tsc = f.ev_loop_tsc };
        credits = f.credits + 1;
      } in
      let (f', ran, c, n, t) =
        process_expl_crs-returns place s l q crs (tsc + 1) msg next cr.1 active sent known
          (omega arith) in
      (
        f',
        rw (process_expl_cr-idle h tsc msg f active sent (omega (arith, cr.0.3)) (omega arith)) ran,
        omega (arith, c),
        n,
        t,
      )
