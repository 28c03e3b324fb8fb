-- ===== src/Datapath/Kick/Req.antt =====
-- What `kick_req_st` sends, and what it leaves of the credits.
use sc_code.Common.{
  ℕ, zero, suc, ◌+◌, ◌-◌, ◌%◌, ◌^◌, ◌≤◌, ◌<◌, ◌≡◌, ◌⊎◌, refl, some, List, [], ◌∷◌, ◌++◌, min, ok,
  arith, lt→ltb,
}
use sc_code.Packet.{PktHdr}
use sc_code.Datapath.{Config, Serializer, Flow, TxItem, data_pkt, session_credits}
use sc_code.Datapath.Words.{sub_size_exact}
use sc_code.Datapath.Batch.{
  enqueue_pkt_tx_burst, queued, pushed, enqueue_item-pushed, pushed-HasRoom, HasRoom, push_all,
  queued-push_all, push_all-HasRoom,
}
use sc_code.Datapath.Kick.{kick_req_loop, kick_req, spend-exact, tx_msg-some, hdr_0-cons}

-- Packets `first`, `first + 1`, … of a slot's message, `n` of them, each with its stamp entry.
abbrev pub data_pkts : ℕ → ℕ → Serializer → ℕ → ℕ → List TxItem
data_pkts session sslot msg first zero = []
data_pkts session sslot msg first (suc n) =
    data_pkt session sslot msg first (some (first % session_credits))
    ∷ data_pkts session sslot msg (first + 1) n

module _ (cfg : Config) where
  -- The flow after `n` packets of `msg`.
  abbrev pub after_kick : ℕ → Serializer → Flow → Flow
  after_kick n msg f = record f {
    slot = record (f.slot) { num_tx = f.slot.num_tx + n };
    credits = f.credits - n;
    tx = push_all cfg (data_pkts f.session f.slot.index msg f.slot.num_tx n) f.tx;
  }

  kick_req_loop-after :
      (n : ℕ) (msg : Serializer) (f : Flow)
      → HasRoom cfg f.tx
      → n ≤ f.credits
      → f.credits < 2 ^ 64
      → f.slot.num_tx + n < 2 ^ 64
      → kick_req_loop cfg n msg f ≡ ok (after_kick n msg f)
  unfolding kick_req_loop enqueue_pkt_tx_burst
  kick_req_loop-after zero msg f r c d e = ground arith
  kick_req_loop-after (suc n) msg f r c d e =
      let item =
        data_pkt f.session f.slot.index msg f.slot.num_tx
          (some (f.slot.num_tx % session_credits)) in
      let next = record f {
        slot = record (f.slot) { num_tx = f.slot.num_tx + 1 };
        credits = f.credits - 1;
        tx = pushed cfg item f.tx;
      } in
      let num : f.slot.num_tx + 1 + n ≡ f.slot.num_tx + suc n = omega arith in
      let left : f.credits - 1 - n ≡ f.credits - suc n = omega arith in
      rw
        (
          enqueue_item-pushed cfg item f.tx r,
          spend-exact (record f { tx = pushed cfg item f.tx }) (omega arith) d (omega arith),
          kick_req_loop-after n msg next (pushed-HasRoom cfg item f.tx r) (omega arith)
              (omega arith) (omega arith),
          num,
          left,
        )
        refl

-- What a call of `kick_req` stands on: a message with its first header, credits, and no packet sent
-- beyond the message.
pub record CanKick (cfg : Config) (msg : Serializer) (total : ℕ) (f : Flow) : Type 0 where
  pub room : HasRoom cfg f.tx
  pub active : f.slot.tx_msgbuf ≡ some msg
  pub in_range : f.slot.num_tx ≤ total
  pub total_16 : total < 2 ^ 16
  pub has_credit : 0 < f.credits
  pub credits_64 : f.credits < 2 ^ 64

module _ (cfg : Config) where
  pub kick_req-after :
      (msg : Serializer) (h : PktHdr) (hs : List PktHdr) (f : Flow)
      → msg.hdrs ≡ h ∷ hs
      → CanKick cfg msg h.total_pkt f
      → kick_req cfg f ≡ ok (after_kick cfg (min f.credits (h.total_pkt - f.slot.num_tx)) msg f)
  unfolding kick_req
  kick_req-after msg h hs f e v =
      rw
        (
          lt→ltb 0 f.credits v.has_credit,
          tx_msg-some f.slot msg v.active,
          hdr_0-cons msg h hs e,
          sub_size_exact h.total_pkt f.slot.num_tx v.in_range (omega (arith, v.total_16)),
        )
        (kick_req_loop-after cfg (min f.credits (h.total_pkt - f.slot.num_tx)) msg f v.room
          (omega arith) v.credits_64 (omega (arith, v.total_16, v.in_range)))

  -- With credits in hand the call sends the next packets of the request in order, one credit each,
  -- and stops where the credits or the request end.
  pub kick_req_sends :
      (msg : Serializer) (h : PktHdr) (hs : List PktHdr) (f : Flow)
      → msg.hdrs ≡ h ∷ hs
      → CanKick cfg msg h.total_pkt f
      → (f' : Flow) × (kick_req cfg f ≡ ok f')
        × (f'.credits + f'.slot.num_tx ≡ f.credits + f.slot.num_tx)
        × (f'.slot.num_tx ≤ h.total_pkt)
        × ((f'.credits ≡ 0) ⊎ (f'.slot.num_tx ≡ h.total_pkt))
        × (queued f'.tx
            ≡ queued f.tx
              ++ data_pkts f.session f.slot.index msg f.slot.num_tx
                  (f'.slot.num_tx - f.slot.num_tx))
        × HasRoom cfg f'.tx
  kick_req_sends msg h hs f e v =
      let k = min f.credits (h.total_pkt - f.slot.num_tx) in
      let items = data_pkts f.session f.slot.index msg f.slot.num_tx in
      let sent : f.slot.num_tx + k - f.slot.num_tx ≡ k = omega arith in
      (
        after_kick cfg k msg f,
        kick_req-after msg h hs f e v,
        omega arith,
        omega arith,
        ground arith,
        rw sent (queued-push_all cfg (items k) f.tx),
        push_all-HasRoom cfg (items k) f.tx v.room,
      )
