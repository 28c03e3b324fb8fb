-- ===== src/Datapath/Slots/Start.antt =====
-- A request that finds a free slot (`enqueue_request`, src/rpc_impl/rpc_req.cc).
use sc_code.Common.{
  ◌≤◌, length, false, ℕ, ◌+◌, ◌-◌, ◌%◌, ◌^◌, ◌<◌, ◌≡◌, ◌∙◌, refl, sym, ap, true, some, List, ◌∷◌,
  ◌++◌, ltb, min, snoc, get_elem?, set, set-set, get_elem?-set_self, get_elem?_lt, ok, arith,
  if◌then◌else◌,
}
use sc_code.Packet.{PktHdr}
use sc_code.Packet.Headers.{fill_hdrs, length-fill_hdrs}
use sc_code.Datapath.{Serializer, Config, SSlot, EnqReqArgs, Endpoint, session_req_window}
use sc_code.Datapath.Words.{add_size, add_size_exact}
use sc_code.Datapath.Batch.{HasRoom, queued, queued-push_all}
use sc_code.Datapath.Kick.{kick_req}
use sc_code.Datapath.Kick.Req.{CanKick, data_pkts, after_kick, kick_req-after}
use sc_code.Datapath.Client.{on_slot, flow_of, put_flow}
use sc_code.Datapath.Request.{
  push_each_hdr, push_each_hdr-fits, is_null, start_slot, req_hdr_args, enqueue_request,
}
use sc_code.Datapath.Slots.{SlotsOk, SlotsOk-start, busy_at-get, Numbered-get}
use sc_code.Datapath.Slots.Take.{
  CanStart, null_of_idle, window_next, push_hdrs-cons, started, with_request, enqueue_request-run,
  enqueue_request-started, start_request-kicks,
}

module _ (cfg : Config) where
  -- At a connected session with a free slot and credits, whose slots are in order, where the message has
  -- room for the headers, of less than 2^16 packets: a request takes the slot at the back of the
  -- free ones. Its number is the slot's last one plus the window, so that the number modulo the
  -- window is the slot; the slots stay in order; and the request joins the active ones at the
  -- end. The headers stand in front of the message, and as many packets as the credits allow are
  -- queued behind the others, from packet 0 in order.
  pub enqueue_request_starts :
      (i : ℕ) (free : List ℕ) (s : SSlot) (args : EnqReqArgs) (lkey : ℕ) (h : PktHdr) (context : ℕ)
      (c : Endpoint)
      → CanStart cfg c i free s h
      → h.total_pkt ≤ args.req_msgbuf.front
      → h.total_pkt < 2 ^ 16
      → 0 < c.session.credits
      → c.session.credits < 2 ^ 64
      → HasRoom cfg c.tx
      → (c' : Endpoint) × (s' : SSlot) × (hs : List PktHdr) × (msg : Serializer) × (enqueue_request
            cfg true args lkey
            (some h)
            context
            c
          ≡ ok c')
        × (get_elem? c'.session.sslots i ≡ some s')
        × (s'.cur_req_num ≡ s.cur_req_num + 32)
        × (s'.cur_req_num % 32 ≡ i)
        × (c'.session.sslot_free_vec ≡ free)
        × SlotsOk c'.session.sslots free
        × (c'.session.credits + s'.num_tx ≡ c.session.credits)
        × (s'.num_tx ≡ min c.session.credits h.total_pkt)
        × (c'.active_rpcs ≡ snoc c.active_rpcs (c.session.local_session_num, i))
        × (fill_hdrs cfg.max_data_per_pkt
              (req_hdr_args cfg args lkey c.session.remote_session_num s'.cur_req_num)
              h
            ≡ some hs)
        × (msg.hdrs ≡ hs ++ args.req_msgbuf.hdrs)
        × (s'.tx_msgbuf ≡ some msg)
        × (queued c'.tx ≡ queued c.tx ++ data_pkts c.session.local_session_num i msg 0 s'.num_tx)
  unfolding started with_request start_slot
  enqueue_request_starts i free s args lkey h context c v front t16 p p64 room =
      let c0 = record c { session = record (c.session) { sslot_free_vec = free } } in
      let a =
        req_hdr_args cfg args lkey c.session.remote_session_num
          (add_size s.cur_req_num session_req_window) in
      let (g, gs, filled, pushed, total) = push_hdrs-cons cfg a h args.req_msgbuf v.total_pos in
      let len = length-fill_hdrs cfg.max_data_per_pkt a h v.total_pos filled in
      let msg : Serializer = record (args.req_msgbuf) {
        hdrs = g ∷ (gs ++ args.req_msgbuf.hdrs);
        front = args.req_msgbuf.front - length (g ∷ gs);
      } in
      let whole = push_each_hdr-fits (g ∷ gs) args.req_msgbuf (omega (arith, len, front)) in
      let s' = started cfg args context msg c.ev_loop_tsc s in
      let f = flow_of (with_request cfg i s' c0) s' in
      let can : CanKick cfg msg g.total_pkt f = record {
        room = room;
        active = refl;
        in_range = omega arith;
        total_16 = omega (arith, total);
        has_credit = p;
        credits_64 = p64;
      } in
      let n = min c.session.credits (g.total_pkt - 0) in
      let f' = after_kick cfg n msg f in
      let kicked = kick_req-after cfg msg g (gs ++ args.req_msgbuf.hdrs) f refl can in
      let ss = c.session.sslots in
      let twice : set (set ss i s') i f'.slot ≡ set ss i f'.slot = set-set ss i s' f'.slot in
      let num : f'.slot.cur_req_num ≡ s.cur_req_num + 32 =
        add_size_exact s.cur_req_num 32 v.num_64 in
      let same_mod : f'.slot.cur_req_num % 32 ≡ s.cur_req_num % 32 =
        window_next s.cur_req_num v.num_64 in
      let own = Numbered-get 0 ss i s v.at v.slots.numbered in
      let own_num : s.cur_req_num % 32 ≡ i = omega (arith, own.1) in
      let own_index : s.index ≡ i = omega (arith, own.0) in
      let session = c.session.local_session_num in
      let none_before : 0 + n ≡ n = omega arith in
      (
        put_flow i f' (with_request cfg i s' c0),
        f'.slot,
        g ∷ gs,
        msg,
        enqueue_request-run cfg i free s args lkey h context c msg f' v p (pushed ∙ ap ok whole)
            kicked,
        rw twice (get_elem?-set_self ss i f'.slot (get_elem?_lt ss i s v.at)),
        num,
        same_mod ∙ own_num,
        refl,
        rw twice (SlotsOk-start ss i s f'.slot v.at refl free same_mod refl v.slots),
        omega arith,
        omega (arith, total),
        refl,
        filled,
        refl,
        refl,
        queued-push_all cfg (data_pkts session s.index msg 0 n) c.tx
            ∙ ap (λ k. queued c.tx ++ data_pkts session k msg 0 n) own_index
            ∙ ap (λ k. queued c.tx ++ data_pkts session i msg 0 k) (sym none_before),
      )

  -- Without credits a request takes its slot all the same, with its number and its place among the
  -- active ones, and waits behind the others that are stalled; nothing is sent.
  pub enqueue_request_stalls :
      (i : ℕ) (free : List ℕ) (s : SSlot) (args : EnqReqArgs) (lkey : ℕ) (h : PktHdr) (context : ℕ)
      (c : Endpoint)
      → CanStart cfg c i free s h
      → c.session.credits ≡ 0
      → (c' : Endpoint) × (s' : SSlot) × (enqueue_request cfg true args lkey (some h) context c
          ≡ ok c')
        × (get_elem? c'.session.sslots i ≡ some s')
        × (s'.cur_req_num % 32 ≡ i)
        × (s'.num_tx ≡ 0)
        × (is_null s'.tx_msgbuf ≡ false)
        × (c'.session.sslot_free_vec ≡ free)
        × SlotsOk c'.session.sslots free
        × (c'.stallq ≡ snoc c.stallq (c.session.local_session_num, i))
        × (c'.active_rpcs ≡ snoc c.active_rpcs (c.session.local_session_num, i))
        × (c'.tx ≡ c.tx)
  unfolding started with_request start_slot
  enqueue_request_stalls i free s args lkey h context c v none_left =
      let c0 = record c { session = record (c.session) { sslot_free_vec = free } } in
      let (g, gs, filled, pushed, total) =
        push_hdrs-cons cfg
          (req_hdr_args cfg args lkey c.session.remote_session_num
            (add_size s.cur_req_num session_req_window))
          h args.req_msgbuf v.total_pos in
      let msg = push_each_hdr (g ∷ gs) args.req_msgbuf in
      let s' = started cfg args context msg c.ev_loop_tsc s in
      let c1 = with_request cfg i s' c0 in
      let ss = c.session.sslots in
      let same_mod : s'.cur_req_num % 32 ≡ s.cur_req_num % 32 =
        window_next s.cur_req_num v.num_64 in
      let own_num : s.cur_req_num % 32 ≡ i =
        omega (arith, (Numbered-get 0 ss i s v.at v.slots.numbered).1) in
      let idle = sym (busy_at-get ss i s v.at) ∙ v.slots.idle.0 in
      (
        record c1 { stallq = snoc c.stallq (c.session.local_session_num, i) },
        s',
        enqueue_request-started cfg i free args lkey h context c v.connected v.free_vec
            ∙ start_request-kicks cfg i args lkey h context c0 s msg v.at (null_of_idle s idle)
                pushed
            ∙ ap
                (λ n.
                  if ltb 0 n
                  then on_slot i (kick_req cfg) c1
                  else ok (record c1 { stallq = snoc c.stallq (c.session.local_session_num, i) }))
                none_left,
        get_elem?-set_self ss i s' (get_elem?_lt ss i s v.at),
        same_mod ∙ own_num,
        refl,
        refl,
        refl,
        SlotsOk-start ss i s s' v.at refl free same_mod refl v.slots,
        refl,
        refl,
        refl,
      )
