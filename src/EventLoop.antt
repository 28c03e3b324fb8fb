-- ===== src/EventLoop.antt =====
-- The event loop of an Rpc, src/rpc_impl/rpc_ev_loop.cc, over the steps that it calls. The scan for lost
-- packets is commented out there.
use sc_code.Common.{ℕ, zero, suc, ◌+◌, Bool, ltb, if◌then◌else◌, Outcome, ok, err, no_return, ◌>>=◌}
use sc_code.Datapath.Words.{sub_size}

-- What the loop uses of an Rpc in state `S`: the handlers, the tests before two of them, the clock, whose
-- reading is part of the state, and `ev_loop_tsc_`.
record Steps (S : Type 0) : Type 0 where
  pub sm_rx_waiting : S → Bool
  pub handle_sm_rx : S → Outcome S
  pub process_comps : S → Outcome S
  pub process_credit_stall_queue : S → Outcome S
  pub process_wheel : S → Outcome S
  pub tx_batch_i : S → ℕ
  pub do_tx_burst : S → Outcome S
  pub multi_threaded : S → Bool
  pub process_bg_enqueue_request : S → Outcome S
  pub process_bg_enqueue_response : S → Outcome S
  pub rdtsc : S → ℕ × S
  pub stamp : ℕ → S → S
  pub ev_loop_tsc : S → ℕ

module _ {S : Type 0} (steps : Steps S) where
  -- `kCcPacing` is true.
  unfoldable run_event_loop_do_one : S → Outcome S
  run_event_loop_do_one s = do
    s1 ← (if steps.sm_rx_waiting s then steps.handle_sm_rx s else ok s)
    let (now, s2) = steps.rdtsc s1
    s3 ← steps.process_comps (steps.stamp now s2)
    s4 ← steps.process_credit_stall_queue s3
    s5 ← steps.process_wheel s4
    s6 ← (if ltb 0 (steps.tx_batch_i s5) then steps.do_tx_burst s5 else ok s5)
    if steps.multi_threaded s6
        then (do s7 ← steps.process_bg_enqueue_request s6; steps.process_bg_enqueue_response s7)
        else ok s6

  unfoldable timeout_loop : ℕ → ℕ → ℕ → S → Outcome S
  timeout_loop zero start_tsc timeout_tsc s = err no_return
  timeout_loop (suc n) start_tsc timeout_tsc s = do
    s' ← run_event_loop_do_one s
    let rest = timeout_loop n start_tsc timeout_tsc s'
    if ltb timeout_tsc (sub_size (steps.ev_loop_tsc s') start_tsc) then ok s' else rest

  -- The timeout in clock ticks; `ms_to_cycles` is in floating point. There are as many rounds as ticks, and
  -- one more.
  unfoldable run_event_loop_timeout : ℕ → S → Outcome S
  run_event_loop_timeout timeout_tsc s =
      let (start_tsc, s') = steps.rdtsc s in timeout_loop (timeout_tsc + 1) start_tsc timeout_tsc s'
