-- ===== src/Datapath/Queues.antt =====
-- Queues of the event loop: `process_credit_stall_queue_st` and
-- `process_bg_queues_enqueue_request_st` of src/rpc_impl/rpc_queues.cc, over all client sessions.
pub mod Places
pub mod Sweep
pub mod Step
pub mod Stall
pub mod Background
mod Tests
use sc_code.Common.{
  ℕ, zero, suc, true, none, some, List, [], ◌∷◌, ltb, if◌then◌else◌, length, get_elem?, set, snoc,
  Outcome, ok, err, bad_access, ◌>>=◌,
}
use sc_code.Datapath.{Config, Session, EnqReqArgs, Endpoint, invalid_bg_etid}
use sc_code.Datapath.Client.{on_slot, slot_at}
use sc_code.Datapath.Kick.{kick_req, kick_rfr, req_pkts_pending}
use sc_code.Datapath.Request.{enqueue_request}

-- `session_vec_`, of clients, and the rest of the Rpc. The session in `rest` is the one last at work.
pub record Clients : Type 0 where
  pub session_vec : List Session
  pub rest : Endpoint

unfoldable pub client_at : ℕ → Clients → Outcome Session
client_at k c = elim (get_elem? c.session_vec k) [ none ↦ err bad_access | some s ↦ ok s ]

-- A step of one session's endpoint, taken at session `k`.
unfoldable pub on_session : ℕ → (Endpoint → Outcome Endpoint) → Clients → Outcome Clients
on_session k step c = do
  s ← client_at k c
  e ← step (record (c.rest) { session = s })
  ok (record { session_vec = set c.session_vec k e.session; rest = e })

module _ (cfg : Config) where
  -- `req_pkts_pending(sslot) ? kick_req_st(sslot) : kick_rfr_st(sslot, nullptr)`
  unfoldable pub kick_slot : ℕ → Endpoint → Outcome Endpoint
  kick_slot i e = do
    s ← slot_at i e
    pending ← req_pkts_pending s
    if pending then on_slot i (kick_req cfg) e else on_slot i (kick_rfr cfg none) e

  -- The loop over what is left of the queue, after `kept` has been written back to its front.
  unfoldable pub stall_loop : List (ℕ × ℕ) → List (ℕ × ℕ) → Clients → Outcome Clients
  stall_loop [] kept c = ok (record c { rest = record (c.rest) { stallq = kept } })
  stall_loop ((k, i) ∷ queue) kept c = do
    s ← client_at k c
    if ltb 0 s.credits
        then (do c' ← on_session k (kick_slot i) c; stall_loop queue kept c')
        else stall_loop queue (snoc kept (k, i)) c

  unfoldable pub process_credit_stall_queue : Clients → Outcome Clients
  process_credit_stall_queue c = stall_loop c.rest.stallq [] c

  -- `unlocked_pop` and the call, which passes seven arguments as in `serve_backlog`.
  unfoldable pub enqueue_popped : EnqReqArgs → List EnqReqArgs → Clients → Outcome Clients
  enqueue_popped args queue c =
      on_session args.session_num
        (enqueue_request cfg true (record args { cont_etid = invalid_bg_etid }) args.cont_etid none
          0)
        (record c { rest = record (c.rest) { bg_requests = queue } })

  unfoldable pub bg_requests_loop : ℕ → Clients → Outcome Clients
  bg_requests_loop zero c = ok c
  bg_requests_loop (suc n) c = elim c.rest.bg_requests [
    | [] ↦ err bad_access
    | args ∷ queue ↦ do c' ← enqueue_popped args queue c; bg_requests_loop n c'
  ]

  unfoldable pub process_bg_queues_enqueue_request : Clients → Outcome Clients
  process_bg_queues_enqueue_request c = bg_requests_loop (length c.rest.bg_requests) c
