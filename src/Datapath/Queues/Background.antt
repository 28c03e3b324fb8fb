-- ===== src/Datapath/Queues/Background.antt =====
-- Requests of background threads: `process_bg_queues_enqueue_request_st` of src/rpc_impl/rpc_queues.cc,
-- which calls `enqueue_request` without the header array that this writes to.
use sc_code.Common.{ℕ, ◌≡◌, refl, true, none, some, List, ◌∷◌, get_elem?, err, bad_access}
use sc_code.Datapath.{Config, SSlot, Session, EnqReqArgs, Endpoint, invalid_bg_etid}
use sc_code.Datapath.Client.{slot_at-some}
use sc_code.Datapath.Request.{enqueue_request, start_request, push_hdrs, is_null}
use sc_code.Datapath.Queues.{
  Clients, on_session, enqueue_popped, bg_requests_loop, process_bg_queues_enqueue_request,
}
use sc_code.Datapath.Queues.Places.{client_at-some}

module _ (cfg : Config) where
  -- With a free slot the call writes through the null pointer.
  enqueue_request-null :
      (args : EnqReqArgs) (lkey context i : ℕ) (free : List ℕ) (e : Endpoint) (slot : SSlot)
      → e.session.is_connected ≡ true
      → e.session.sslot_free_vec ≡ i ∷ free
      → get_elem? e.session.sslots i ≡ some slot
      → slot.tx_msgbuf ≡ none
      → enqueue_request cfg true args lkey none context e ≡ err bad_access
  unfolding enqueue_request start_request push_hdrs
  enqueue_request-null args lkey context i free e slot up first there idle =
      let popped : Endpoint = record e { session = record (e.session) { sslot_free_vec = free } } in
      let busy : is_null slot.tx_msgbuf ≡ true = rw idle refl in
      rw (up, first, slot_at-some i popped slot there) (rw busy refl)

  -- A background thread's request for a connected session that has a free slot ends the process: the
  -- pass over the queue faults at it.
  pub bg_request_faults :
      (args : EnqReqArgs) (queue : List EnqReqArgs) (i : ℕ) (free : List ℕ) (c : Clients)
      (s : Session) (slot : SSlot)
      → c.rest.bg_requests ≡ args ∷ queue
      → get_elem? c.session_vec args.session_num ≡ some s
      → s.is_connected ≡ true
      → s.sslot_free_vec ≡ i ∷ free
      → get_elem? s.sslots i ≡ some slot
      → slot.tx_msgbuf ≡ none
      → process_bg_queues_enqueue_request cfg c ≡ err bad_access
  unfolding process_bg_queues_enqueue_request bg_requests_loop enqueue_popped on_session
  bg_request_faults args queue i free c s slot waiting here up first there idle =
      let e : Endpoint = record (c.rest) { session = s; bg_requests = queue } in
      let fault =
        enqueue_request-null (record args { cont_etid = invalid_bg_etid }) args.cont_etid 0 i free e
          slot up first there idle in
      let c' : Clients = record c { rest = record (c.rest) { bg_requests = queue } } in
      let one : enqueue_popped cfg args queue c ≡ err bad_access =
        rw (client_at-some args.session_num c' s here) (rw fault refl) in
      rw waiting (rw one refl)
