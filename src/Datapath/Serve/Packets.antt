-- ===== src/Datapath/Serve/Packets.antt =====
-- One packet of a large request at a server slot: `process_large_req_one_st` of
-- src/rpc_impl/rpc_req.cc, for the last packet and for the others.
use sc_code.Common.{
  ℕ, ◌+◌, ◌≤◌, ◌<◌, ◌≡◌, refl, true, false, some, List, [], ◌∷◌, ◌++◌, ◌==◌, length, ok, arith,
}
use sc_code.Packet.{PktHdr, PktType}
use sc_code.Datapath.{Config, Iovec, ctrl_pkt, CtrlRing}
use sc_code.Datapath.Words.{add_size_exact}
use sc_code.Datapath.Batch.{pushed, enqueue_item-pushed, HasRoom}
use sc_code.Datapath.Ctrl.{ctrl_hdr, IsRing, take_ctrl-IsRing}
use sc_code.Datapath.Server.{ServerFlow, enqueue_cr}
use sc_code.Datapath.Serve.{
  ReqFunc, ServeFlow, iov_capacity, start_or_count, return_credit, dispatch_req,
  process_large_req_one, track,
}
use sc_code.Sm.Init.{invalid_req_type}
use sc_code.Datapath.Serve.Gather.{bytes, read, Apart, add_body-read}

module _ (cfg : Config) (ctrl_size : ℕ) where
  enqueue_cr-pushed :
      (h : PktHdr) (f : ServerFlow)
      → IsRing cfg f.ctrl
      → HasRoom cfg f.tx
      → (hdr : PktHdr) × (ring : CtrlRing) × (enqueue_cr cfg ctrl_size h f
          ≡ ok (record f { ctrl = ring; tx = pushed cfg (ctrl_pkt f.session f.index hdr) f.tx }))
        × IsRing cfg ring
        × (hdr.pkt_type ≡ PktType.expl_cr)
        × (hdr.req_num ≡ h.req_num)
  unfolding enqueue_cr ctrl_hdr
  enqueue_cr-pushed h f ring room =
      let fill =
        ctrl_hdr h.req_type ctrl_size f.remote_session_num PktType.expl_cr h.pkt_num h.req_num in
      let (old, ring', e, ring_ok) = take_ctrl-IsRing cfg fill f.ctrl ring in
      (
        fill old,
        ring',
        rw e (rw (enqueue_item-pushed cfg (ctrl_pkt f.session f.index (fill old)) f.tx room) refl),
        ring_ok,
        refl,
        refl,
      )

-- The slot after `i` packets of request `req_num`, whose bytes so far are `acc`.
pub record Gathering (cfg : Config) (mem : ℕ → ℕ) (i req_num : ℕ) (acc : List ℕ) (f : ServeFlow)
    : Type 0 where
  pub ring : IsRing cfg f.flow.ctrl
  pub room : HasRoom cfg f.flow.tx
  pub idle : f.req_type ≡ invalid_req_type
  pub num_rx : f.flow.num_rx ≡ i
  pub current : f.flow.cur_req_num ≡ req_num
  pub pieces : length f.iov ≤ i
  pub started : 0 < length f.iov
  pub holds : read mem f.iov ≡ acc

module _ (cfg : Config) (ctrl_size : ℕ) (req_funcs : ℕ → ReqFunc) (mem : ℕ → ℕ) where
  -- A packet but the last, where `g` is the slot after it has been counted.
  pub step-more :
      (h : PktHdr) (body i : ℕ) (f g : ServeFlow)
      → start_or_count cfg ctrl_size req_funcs h f ≡ g
      → IsRing cfg g.flow.ctrl
      → HasRoom cfg g.flow.tx
      → g.flow.num_rx ≡ i + 1
      → h.pkt_num ≡ i
      → i + 1 < h.total_pkt
      → length g.iov ≤ i
      → Apart g.iov g.before body
      → i < iov_capacity
      → (hdr : PktHdr) × (ring : CtrlRing) × (iov : List Iovec) × (process_large_req_one cfg
            ctrl_size req_funcs h body f
          ≡ ok (record g {
            flow = record (g.flow) {
              ctrl = ring;
              tx = pushed cfg (ctrl_pkt g.flow.session g.flow.index hdr) g.flow.tx;
            };
            iov = iov;
          }))
        × IsRing cfg ring
        × (hdr.pkt_type ≡ PktType.expl_cr)
        × (hdr.req_num ≡ h.req_num)
        × (read mem iov ≡ read mem g.iov ++ bytes mem body h.this_msg_size)
        × (length iov ≤ i + 1)
        × (0 < length iov)
  unfolding process_large_req_one return_credit
  step-more h body i f g e ring room count num more few apart cap =
      let (hdr, ring', sent, ring_ok, type, same) =
        enqueue_cr-pushed cfg ctrl_size h g.flow ring room in
      let (iov, added, r, l, p) =
        add_body-read mem body h.this_msg_size g.before g.iov apart (omega (arith, few)) in
      let not_last : (h.pkt_num + 1 == h.total_pkt) ≡ false = ground (arith, num) in
      let not_done : (g.flow.num_rx == h.total_pkt) ≡ false = ground (arith, count) in
      (
        hdr,
        ring',
        iov,
        rw e (rw not_last (rw sent (rw added (rw not_done refl)))),
        ring_ok,
        type,
        same,
        r,
        omega (arith, l, few),
        p,
      )

  -- The last packet, of a type that is handled in the foreground by `fn`.
  pub step-last :
      (h : PktHdr) (body i fn : ℕ) (f g : ServeFlow)
      → start_or_count cfg ctrl_size req_funcs h f ≡ g
      → req_funcs h.req_type ≡ record { req_func = some fn; is_background = false }
      → g.req_type ≡ invalid_req_type
      → g.flow.num_rx ≡ i + 1
      → h.pkt_num ≡ i
      → i + 1 ≡ h.total_pkt
      → length g.iov ≤ i
      → Apart g.iov g.before body
      → i < iov_capacity
      → (iov : List Iovec) × (process_large_req_one cfg ctrl_size req_funcs h body f
          ≡ ok (record g {
            iov = iov;
            req_type = h.req_type;
            req_background = false;
            calls = (fn, g.flow.index, iov) ∷ g.calls;
          }))
        × (read mem iov ≡ read mem g.iov ++ bytes mem body h.this_msg_size)
  unfolding process_large_req_one return_credit dispatch_req
  step-last h body i fn f g e registered idle count num last few apart cap =
      let (iov, added, r, l, p) =
        add_body-read mem body h.this_msg_size g.before g.iov apart (omega (arith, few)) in
      let is_last : (h.pkt_num + 1 == h.total_pkt) ≡ true = ground (arith, num) in
      let done : (g.flow.num_rx == h.total_pkt) ≡ true = ground (arith, count) in
      let free : (g.req_type == invalid_req_type) ≡ true = ground (arith, idle) in
      (iov, rw e (rw is_last (rw added (rw done (rw (registered, free) refl)))), r)

  pub Apart-started :
      (iov : List Iovec) (before : Iovec) (body : ℕ) → 0 < length iov → Apart iov before body
  Apart-started [] before body h = absurd (omega arith)
  Apart-started (v ∷ iov) before body h = tt

  pub counted :
      (h : PktHdr) (i : ℕ) (f : ServeFlow)
      → h.pkt_num ≡ i
      → 0 < i
      → f.flow.num_rx ≡ i
      → i < iov_capacity
      → start_or_count cfg ctrl_size req_funcs h f ≡ track f.flow.cur_req_num (i + 1) f
  unfolding start_or_count
  counted h i f num pos count cap =
      let later : (h.pkt_num == 0) ≡ false = ground (arith, num) in
      rw (later, count, add_size_exact i 1 (omega arith)) refl
