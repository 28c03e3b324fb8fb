-- ===== src/Datapath/Kick/Rfr.antt =====
-- What `kick_rfr_st` asks for, and what it leaves of the credits.
use sc_code.Common.{
  ℕ, zero, suc, ◌+◌, ◌-◌, ◌^◌, ◌≤◌, ◌<◌, ◌≡◌, ◌⊎◌, refl, ap, some, List, [], ◌∷◌, ◌++◌, map, min,
  length, ok, arith, lt→ltb,
}
use sc_code.Packet.{PktHdr, PktType}
use sc_code.Packet.Sizes.{wire_pkts}
use sc_code.Datapath.{Config, Serializer, Flow, ctrl_pkt, CtrlRing}
use sc_code.Datapath.Words.{add_size, sub_size, sub_size_exact}
use sc_code.Datapath.Batch.{
  enqueue_hdr_tx_burst, queued, pushed, enqueue_item-pushed, pushed-HasRoom, HasRoom, push_all,
  queued-push_all, push_all-HasRoom,
}
use sc_code.Datapath.Ctrl.{ctrl_hdr, IsRing, take_ctrl-IsRing}
use sc_code.Datapath.Kick.{
  kick_rfr_loop, kick_rfr, enqueue_rfr, spend-exact, tx_msg-some, hdr_0-cons,
}

-- Requests for the response packets `first`, `first + 1`, … of request `req_num`.
abbrev pub Rfrs : ℕ → ℕ → List PktHdr → Type 0
Rfrs req_num first [] = Unit
Rfrs req_num first (h ∷ hs) =
    (h.pkt_type ≡ PktType.rfr)
    × (h.req_num ≡ req_num)
    × (h.pkt_num ≡ first)
    × Rfrs req_num (first + 1) hs

-- What a call of `kick_rfr` stands on: the request is sent, of `req_total` packets, and the
-- packets of both messages are `total`.
pub record CanAsk (cfg : Config) (msg : Serializer) (req_total total : ℕ) (f : Flow) : Type 0 where
  pub room : HasRoom cfg f.tx
  pub ring : IsRing cfg f.ctrl
  pub active : f.slot.tx_msgbuf ≡ some msg
  pub req_sent : req_total ≤ f.slot.num_tx
  pub in_range : f.slot.num_tx ≤ total
  pub total_16 : total < 2 ^ 16
  pub credits_64 : f.credits < 2 ^ 64

module _ (cfg : Config) (msg : Serializer) (h : PktHdr) (hs : List PktHdr)
    (e : msg.hdrs ≡ h ∷ hs) where
  enqueue_rfr-after :
      (p : PktHdr) (total : ℕ) (f : Flow)
      → CanAsk cfg msg h.total_pkt total f
      → f.slot.num_tx < total
      → (hdr : PktHdr) × (ring : CtrlRing) × (enqueue_rfr cfg p f
          ≡ ok (record f {
            ctrl = ring;
            tx = pushed cfg (ctrl_pkt f.session f.slot.index hdr) f.tx;
          }))
        × IsRing cfg ring
        × (hdr.pkt_type ≡ PktType.rfr)
        × (hdr.req_num ≡ p.req_num)
        × (hdr.pkt_num ≡ f.slot.num_tx - h.total_pkt + 1)
  unfolding enqueue_rfr enqueue_hdr_tx_burst ctrl_hdr
  enqueue_rfr-after p total f v lt =
      let num = add_size (sub_size f.slot.num_tx h.total_pkt) 1 in
      let fill = ctrl_hdr p.req_type 0 f.remote_session_num PktType.rfr num p.req_num in
      let (base, ring, took, valid) = take_ctrl-IsRing cfg fill f.ctrl v.ring in
      let item = ctrl_pkt f.session f.slot.index (fill base) in
      (
        fill base,
        ring,
        rw
            (
              tx_msg-some f.slot msg v.active,
              hdr_0-cons msg h hs e,
              took,
              enqueue_item-pushed cfg item f.tx v.room,
            )
            refl,
        valid,
        refl,
        refl,
        omega (arith, v.req_sent, v.in_range, v.total_16),
      )

  kick_rfr_loop-after :
      (n : ℕ) (p : PktHdr) (total : ℕ) (f : Flow)
      → CanAsk cfg msg h.total_pkt total f
      → f.slot.num_tx + n ≤ total
      → n ≤ f.credits
      → (hdrs : List PktHdr) × (ring : CtrlRing) × (kick_rfr_loop cfg n p f
          ≡ ok (record f {
            slot = record (f.slot) { num_tx = f.slot.num_tx + n };
            credits = f.credits - n;
            ctrl = ring;
            tx = push_all cfg (map (ctrl_pkt f.session f.slot.index) hdrs) f.tx;
          }))
        × IsRing cfg ring
        × (length hdrs ≡ n)
        × Rfrs p.req_num (f.slot.num_tx - h.total_pkt + 1) hdrs
  unfolding kick_rfr_loop
  kick_rfr_loop-after zero p total f v i c = ([], f.ctrl, ground arith, v.ring, refl, tt)
  kick_rfr_loop-after (suc n) p total f v i c =
      let (hdr, ring, asked, valid, t, r, k) = enqueue_rfr-after p total f v (omega arith) in
      let item = ctrl_pkt f.session f.slot.index hdr in
      let mid = record f { ctrl = ring; tx = pushed cfg item f.tx } in
      let next = record mid {
        slot = record (f.slot) { num_tx = f.slot.num_tx + 1 };
        credits = f.credits - 1;
      } in
      let can : CanAsk cfg msg h.total_pkt total next = record {
        room = pushed-HasRoom cfg item f.tx v.room;
        ring = valid;
        active = v.active;
        req_sent = omega (arith, v.req_sent);
        in_range = omega arith;
        total_16 = v.total_16;
        credits_64 = omega (arith, v.credits_64);
      } in
      let (hdrs, ring', looped, valid', len, rest) =
        kick_rfr_loop-after n p total next can (omega arith) (omega arith) in
      let num : f.slot.num_tx + 1 + n ≡ f.slot.num_tx + suc n = omega arith in
      let left : f.credits - 1 - n ≡ f.credits - suc n = omega arith in
      let first : f.slot.num_tx + 1 - h.total_pkt + 1 ≡ f.slot.num_tx - h.total_pkt + 1 + 1 =
        omega (arith, v.req_sent) in
      (
        hdr ∷ hdrs,
        ring',
        rw
            (
              asked,
              spend-exact mid (omega arith) v.credits_64 (omega (arith, v.in_range, v.total_16)),
              looped,
              num,
              left,
            )
            refl,
        valid',
        ap suc len,
        (t, r, k, rw first at rest),
      )

  pub kick_rfr_sends :
      (p : PktHdr) (f : Flow)
      → CanAsk cfg msg h.total_pkt (wire_pkts h.total_pkt p.total_pkt) f
      → 0 < f.credits
      → (f' : Flow) × (hdrs : List PktHdr) × (kick_rfr cfg (some p) f ≡ ok f')
        × (f'.slot ≡ record (f.slot) { num_tx = f'.slot.num_tx })
        × (f'.credits + f'.slot.num_tx ≡ f.credits + f.slot.num_tx)
        × (f'.slot.num_tx ≤ wire_pkts h.total_pkt p.total_pkt)
        × ((f'.credits ≡ 0) ⊎ (f'.slot.num_tx ≡ wire_pkts h.total_pkt p.total_pkt))
        × (queued f'.tx ≡ queued f.tx ++ map (ctrl_pkt f.session f.slot.index) hdrs)
        × Rfrs p.req_num (f.slot.num_tx - h.total_pkt + 1) hdrs
        × (f.slot.num_tx + length hdrs ≡ f'.slot.num_tx)
        × HasRoom cfg f'.tx
        × IsRing cfg f'.ctrl
  unfolding kick_rfr
  kick_rfr_sends p f v c =
      let total = wire_pkts h.total_pkt p.total_pkt in
      let k = min f.credits (total - f.slot.num_tx) in
      let (hdrs, ring, looped, valid, len, rest) =
        kick_rfr_loop-after k p total f v (omega (arith, v.in_range)) (omega arith) in
      let items = map (ctrl_pkt f.session f.slot.index) hdrs in
      let f' = record f {
        slot = record (f.slot) { num_tx = f.slot.num_tx + k };
        credits = f.credits - k;
        ctrl = ring;
        tx = push_all cfg items f.tx;
      } in
      (
        f',
        hdrs,
        rw
            (
              lt→ltb 0 f.credits c,
              tx_msg-some f.slot msg v.active,
              hdr_0-cons msg h hs e,
              sub_size_exact total f.slot.num_tx v.in_range (omega (arith, v.total_16)),
            )
            looped,
        refl,
        omega arith,
        omega (arith, v.in_range),
        ground (arith, v.in_range),
        queued-push_all cfg items f.tx,
        rest,
        ap (λ n. f.slot.num_tx + n) len,
        push_all-HasRoom cfg items f.tx v.room,
        valid,
      )
