-- ===== src/Datapath/Rx/Slot.antt =====
-- Packets of large requests from the ring to the slot they are for: `process_comps_st` of
-- src/rpc_impl/rpc_rx.cc with `process_large_req_one_st` of src/rpc_impl/rpc_req.cc.
use sc_code.Common.{
  suc, ◌≢◌, ℕ, ◌+◌, ◌%◌, ◌≤◌, ◌<◌, ◌≡◌, ◌∙◌, refl, ap, false, some, List, [], ◌∷◌, leb, le→leb,
  length, get_elem?, ok, ◌>>=◌, bind-returns, arith,
}
use sc_code.Packet.{PktHdr, PktType}
use sc_code.Datapath.{Config, session_req_window}
use sc_code.Datapath.Batch.{HasRoom}
use sc_code.Datapath.Ctrl.{IsRing}
use sc_code.Datapath.Serve.{
  ReqFunc, ServeFlow, iov_capacity, process_large_req_one, process_large_reqs,
}
use sc_code.Datapath.Serve.Requests.{Consecutive, bodies, Served, large_request-Served}
use sc_code.Datapath.Rx.{Handlers, Receiver, max_msg_size, dispatch_pkt, receive, process_comps}
use sc_code.Datapath.Rx.Ring.{Holds, receive_all, process_comps_in_order}
use sc_code.Sm.{SessionState}
use sc_code.Sm.Init.{invalid_req_type}
use sc_code.Sm.Helpers.{num_rx_ring_entries}

-- A server slot inside an Rpc, on which the handler for large requests works, and which leaves the
-- sessions' states alone.
pub record SlotView (cfg : Config) (ctrl_size : ℕ) (req_funcs : ℕ → ReqFunc) {S : Type 0}
    (handlers : Handlers S) (session i : ℕ) : Type 0 where
  pub view : S → ServeFlow
  pub put : ServeFlow → S → S
  pub view-put : (g : ServeFlow) (rpc : S) → view (put g rpc) ≡ g
  pub session_vec-put :
      (g : ServeFlow) (rpc : S) → handlers.session_vec (put g rpc) ≡ handlers.session_vec rpc
  pub large_req_one-put :
      (h : PktHdr) (body : ℕ) (rpc : S)
      → handlers.large_req_one session i h body rpc
        ≡ (process_large_req_one cfg ctrl_size req_funcs h body (view rpc) >>= λ g. ok (put g rpc))

-- Packets of large requests for one slot.
abbrev pub ForSlot : Config → ℕ → ℕ → List (PktHdr × ℕ) → Type 0
ForSlot cfg session i [] = Unit {0}
ForSlot cfg session i ((h, body) ∷ ps) =
    (h.pkt_type ≡ PktType.req)
    × (h.dest_session_num ≡ session)
    × (h.req_num % session_req_window ≡ i)
    × (cfg.max_data_per_pkt < h.msg_size)
    × (h.msg_size ≤ max_msg_size cfg)
    × ForSlot cfg session i ps

module _ (cfg : Config) (ctrl_size : ℕ) (req_funcs : ℕ → ReqFunc) {S : Type 0}
    (handlers : Handlers S) (session i : ℕ)
    (slot : SlotView cfg ctrl_size req_funcs handlers session i) where
  dispatch_pkt-large :
      (h : PktHdr) (body rx_tsc : ℕ) (rpc : S)
      → h.pkt_type ≡ PktType.req
      → leb h.msg_size cfg.max_data_per_pkt ≡ false
      → dispatch_pkt cfg handlers h body rx_tsc rpc
        ≡ handlers.large_req_one h.dest_session_num (h.req_num % session_req_window) h body rpc
  unfolding dispatch_pkt
  dispatch_pkt-large h body rx_tsc rpc type large = rw type (rw large refl)

  receive-large :
      (h : PktHdr) (body rx_tsc : ℕ) (rpc : S) (g : ServeFlow)
      → get_elem? (handlers.session_vec rpc) session ≡ some (some SessionState.connected)
      → ForSlot cfg session i ((h, body) ∷ [])
      → process_large_req_one cfg ctrl_size req_funcs h body (slot.view rpc) ≡ ok g
      → receive cfg handlers (h, body) rx_tsc rpc ≡ ok (slot.put g rpc)
  unfolding receive
  receive-large h body rx_tsc rpc g up (type, dest, num, large, bound, _) ran =
      let not_small : leb h.msg_size cfg.max_data_per_pkt ≡ false = ground arith in
      let at_slot : handlers.large_req_one h.dest_session_num (h.req_num % session_req_window) h
            body rpc
          ≡ ok (slot.put g rpc) =
        ap (λ k. handlers.large_req_one k (h.req_num % session_req_window) h body rpc) dest
        ∙ ap (λ k. handlers.large_req_one session k h body rpc) num
        ∙ slot.large_req_one-put h body rpc
        ∙ rw ran refl in
      simp (le→leb h.msg_size (max_msg_size cfg) bound, dest, up)
        (dispatch_pkt-large h body rx_tsc rpc type not_small ∙ at_slot)

  receive_all-large :
      (ps : List (PktHdr × ℕ)) (rx_tsc : ℕ) (rpc : S) (g : ServeFlow)
      → get_elem? (handlers.session_vec rpc) session ≡ some (some SessionState.connected)
      → ForSlot cfg session i ps
      → process_large_reqs cfg ctrl_size req_funcs ps (slot.view rpc) ≡ ok g
      → (rpc' : S) × (receive_all cfg handlers ps rx_tsc rpc ≡ ok rpc') × (slot.view rpc' ≡ g)
  unfolding receive_all process_large_reqs
  receive_all-large [] rx_tsc rpc g up for ran = (rpc, refl, cc)
  receive_all-large ((h, body) ∷ ps) rx_tsc rpc g up (t, d, n, l, b, for) ran =
      let (g', first, rest) =
        bind-returns (process_large_req_one cfg ctrl_size req_funcs h body (slot.view rpc))
          (process_large_reqs cfg ctrl_size req_funcs ps) ran in
      let one = receive-large h body rx_tsc rpc g' up (t, d, n, l, b, tt) first in
      let (rpc', all, same) =
        receive_all-large ps rx_tsc (slot.put g' rpc) g (rw (slot.session_vec-put g' rpc) up) for
          (rw (slot.view-put g' rpc) rest) in
      (rpc', rw one all, same)

  process_comps-large :
      (ps : List (PktHdr × ℕ)) (r : Receiver S) (g : ServeFlow)
      → r.rx_ring_head < num_rx_ring_entries
      → Holds r.rx_ring r.rx_ring_head ps
      → get_elem? (handlers.session_vec r.rpc) session ≡ some (some SessionState.connected)
      → ForSlot cfg session i ps
      → process_large_reqs cfg ctrl_size req_funcs ps (slot.view r.rpc) ≡ ok g
      → (r' : Receiver S) × (process_comps cfg handlers (length ps) r ≡ ok r')
        × (slot.view r'.rpc ≡ g)
        × (r'.rx_ring_head ≡ (r.rx_ring_head + length ps) % num_rx_ring_entries)
  process_comps-large ps r g head holds up for ran =
      let (rpc, all, same) = receive_all-large ps r.ev_loop_tsc r.rpc g up for ran in
      (
        record r { rx_ring_head = (r.rx_ring_head + length ps) % num_rx_ring_entries; rpc = rpc },
        process_comps_in_order cfg handlers ps r head holds ∙ rw all refl,
        same,
        refl,
      )

module _ (cfg : Config) (ctrl_size : ℕ) (req_funcs : ℕ → ReqFunc) (mem : ℕ → ℕ) {S : Type 0}
    (handlers : Handlers S) (session i : ℕ)
    (slot : SlotView cfg ctrl_size req_funcs handlers session i) where
  -- A request of several packets that are in the ring in order, around its end, for a ready slot of a
  -- connected session, is handed to its handler once, as a message of all its bytes, after one credit
  -- has been returned for each packet but the last; the ring's head is then behind the packets.
  pub process_comps_serves :
      (n q t fn : ℕ) (h h' : PktHdr) (body body' : ℕ) (ps : List (PktHdr × ℕ)) (r : Receiver S)
      → let packets = (h, body) ∷ (h', body') ∷ ps in
        let g = slot.view r.rpc in
        r.rx_ring_head < num_rx_ring_entries
        → Holds r.rx_ring r.rx_ring_head packets
        → get_elem? (handlers.session_vec r.rpc) session ≡ some (some SessionState.connected)
        → ForSlot cfg session i packets
        → Consecutive 0 n q t packets
        → n ≤ iov_capacity
        → req_funcs t ≡ record { req_func = some fn; is_background = false }
        → IsRing cfg g.flow.ctrl
        → HasRoom cfg g.flow.tx
        → g.req_type ≡ invalid_req_type
        → g.before.base + g.before.len ≢ body
        → (r' : Receiver S) × (process_comps cfg handlers (length packets) r ≡ ok r')
          × Served mem fn q t (suc (length ps)) (bodies mem packets) g (slot.view r'.rpc)
          × (r'.rx_ring_head ≡ (r.rx_ring_head + length packets) % num_rx_ring_entries)
  process_comps_serves n q t fn h h' body body' ps r head holds up for order fits reg ring room idle
        apart =
      let (g', ran, s) =
        large_request-Served cfg ctrl_size req_funcs mem fn n q t reg fits h h' body body' ps
          (slot.view r.rpc) order ring room idle apart in
      let (r', run, same, at) =
        process_comps-large cfg ctrl_size req_funcs handlers session i slot
          ((h, body) ∷ (h', body') ∷ ps) r g' head holds up for ran in
      (r', run, rw same s, at)
