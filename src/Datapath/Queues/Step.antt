-- ===== src/Datapath/Queues/Step.antt =====
-- One stalled slot that is kicked (`process_credit_stall_queue_st` of src/rpc_impl/rpc_queues.cc), with
-- everything else as it was.
use sc_code.Common.{
  ℕ, ◌+◌, ◌-◌, ◌<◌, ◌≡◌, ◌⊎◌, ◌∙◌, inl, inr, refl, sym, ap, Bool-cases, ◌==◌, some, List, ◌∷◌, ◌++◌,
  get_elem?, set, ok, arith, min, lt→ltb,
}
use sc_code.Packet.{PktHdr}
use sc_code.Datapath.{Config, Serializer, SSlot, Session, Endpoint, TxItem}
use sc_code.Datapath.Client.{flow_of, put_flow, on_slot, slot_at-some}
use sc_code.Datapath.Batch.{HasRoom, queued, queued-push_all, push_all-HasRoom}
use sc_code.Datapath.Kick.{req_pkts_pending, tx_msg-some}
use sc_code.Datapath.Kick.Req.{CanKick, data_pkts, kick_req-after, after_kick}
use sc_code.Datapath.Queues.{Clients, on_session, kick_slot}
use sc_code.Datapath.Queues.Sweep.{Paid, takes-own, takes-other}
use sc_code.Datapath.Queues.Places.{
  credits_of, credits_of-at, credits_of-here, credits_of-elsewhere, Stalled, Apart, Frame, now_here,
  slot_in, credits_in, credits_in-at, slot_in-here, slot_in-elsewhere, spent-elsewhere, elsewhere,
  on_session-ok,
}

-- The slots but this one are as they were, and sessions without credit have none.
abbrev pub Elsewhere : List Session → List Session → ℕ → ℕ → Type 0
Elsewhere v v' k i =
    ((k' i' : ℕ) → Apart k i k' i' → slot_in v' k' i' ≡ slot_in v k' i')
    × ((k' : ℕ) → credits_in v k' ≡ some 0 → credits_in v' k' ≡ some 0)

module _ (cfg : Config) where
  kick_slot-pending :
      (i : ℕ) (e : Endpoint) (slot : SSlot) (msg : Serializer) (h : PktHdr) (hs : List PktHdr)
      → get_elem? e.session.sslots i ≡ some slot
      → msg.hdrs ≡ h ∷ hs
      → slot.num_tx < msg.total_pkg
      → CanKick cfg msg h.total_pkt (flow_of e slot)
      → kick_slot cfg i e
        ≡ ok (
            put_flow i
              (after_kick cfg
                (min e.session.credits (h.total_pkt - slot.num_tx))
                msg
                (flow_of e slot))
              e)
  unfolding kick_slot req_pkts_pending on_slot
  kick_slot-pending i e slot msg h hs there front pending can =
      rw
        (
          slot_at-some i e slot there,
          tx_msg-some slot msg can.active,
          lt→ltb slot.num_tx msg.total_pkg pending,
          kick_req-after cfg msg h hs (flow_of e slot) front can,
        )
        refl

  -- A stalled slot that is kicked, and everything else as it was.
  abbrev pub Kicked : (k i : ℕ) (c c' : Clients) → Stalled c.session_vec k i → Type 0
  Kicked k i c c' v =
      let slot = v.place.slot in
      (n : ℕ) × (0 < n)
      × (slot_in c'.session_vec k i ≡ some (record slot { num_tx = slot.num_tx + n }))
      × ((credits_in c'.session_vec k ≡ some 0) ⊎ (slot.num_tx + n ≡ v.msg.total_pkg))
      × (queued c'.rest.tx ≡ queued c.rest.tx ++ data_pkts k slot.index v.msg slot.num_tx n)
      × Frame c.session_vec c'.session_vec k i
      × Elsewhere c.session_vec c'.session_vec k i
      × Paid c.session_vec c'.session_vec (data_pkts k slot.index v.msg slot.num_tx n)
      × HasRoom cfg c'.rest.tx

  pub kick_step :
      (k i : ℕ) (c : Clients)
      → (v : Stalled c.session_vec k i) → 0 < v.place.session.credits
      → HasRoom cfg c.rest.tx
      → (c' : Clients) × (on_session k (kick_slot cfg i) c ≡ ok c') × Kicked k i c c' v
  kick_step k i c v pos room =
      let p = v.place in
      let e : Endpoint = record (c.rest) { session = p.session } in
      let f = flow_of e p.slot in
      let n = min f.credits (v.hdr.total_pkt - f.slot.num_tx) in
      let can : CanKick cfg v.msg v.hdr.total_pkt f = record {
        room = room;
        active = v.active;
        in_range = omega (arith, v.pending);
        total_16 = v.total_16;
        has_credit = pos;
        credits_64 = omega (arith, v.credits);
      } in
      let f' = after_kick cfg n v.msg f in
      let e' = put_flow i f' e in
      let s = e'.session in
      let vec = c.session_vec in
      let kicked =
        kick_slot-pending i e p.slot v.msg v.hdr v.hdrs p.there v.front
          (omega (arith, v.pending, v.total)) can in
      let sent_or_spent : (f'.credits ≡ 0) ⊎ (f'.slot.num_tx ≡ v.msg.total_pkg) =
        ground (arith, v.total, v.pending) in
      let now : get_elem? (set vec k s) k ≡ some s =
        now_here vec k i p f'.slot s refl (omega arith) refl in
      let items : ℕ → List TxItem = λ num. data_pkts num p.slot.index v.msg p.slot.num_tx n in
      (
        record { session_vec = set vec k s; rest = e' },
        on_session-ok k (kick_slot cfg i) c p.session e' p.here kicked,
        (
          n,
          omega (arith, v.pending),
          slot_in-here vec k i p f'.slot s refl (omega arith) refl,
          elim sent_or_spent [
            | inl spent ↦ inl (credits_in-at (set vec k s) k s now ∙ ap some spent)
            | inr sent ↦ inr sent
          ],
          queued-push_all cfg (items f.session) f.tx ∙ ap (λ x. queued f.tx ++ items x) v.number,
          elsewhere vec k i p f'.slot s refl (omega arith) refl,
          (
            slot_in-elsewhere vec k i p f'.slot s refl (omega arith) refl,
            spent-elsewhere vec k i p f'.slot s refl (omega arith) refl,
          ),
          λ k'. elim (Bool-cases (k == k')) [
            | inl own ↦
                let same : k ≡ k' = ground arith in
                let now_left : credits_of (set vec k s) k' ≡ f.credits - n =
                  ap (credits_of (set vec k s)) (sym same)
                  ∙ credits_of-here vec k i p f'.slot s refl (omega arith) refl in
                let were : credits_of vec k' ≡ f.credits =
                  ap (credits_of vec) (sym same) ∙ credits_of-at vec k p.session p.here in
                omega (arith, now_left, were, takes-own k k' p.slot.index v.msg p.slot.num_tx n own)
            | inr other ↦ omega (
              arith,
              credits_of-elsewhere vec k i p f'.slot s refl (omega arith) refl k' other,
              takes-other k k' p.slot.index v.msg p.slot.num_tx n other,
            )
          ],
          push_all-HasRoom cfg (items f.session) f.tx room,
        ),
      )
