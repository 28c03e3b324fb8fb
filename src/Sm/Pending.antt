-- ===== src/Sm/Pending.antt =====
-- Lost session management packets: the second half of `pkt_loss_scan_st`
-- (src/rpc_impl/rpc_pkt_loss.cc). The conversion of clock ticks to milliseconds is in floating point
-- and a parameter; the clock is read once for the whole scan.
pub mod Resend
mod Tests
use sc_code.Common.{
  ℕ, Bool, true, false, none, some, List, [], ◌∷◌, ltb, if◌then◌else◌, Outcome, ok, ◌>>=◌,
}
use sc_code.Datapath.Words.{sub_size}
use sc_code.Sm.{SessionState, SmSession, Rpc}
use sc_code.Sm.Helpers.{send_sm_req, session_at}

-- `kSMTimeoutMs`, without testing.
abbrev pub sm_timeout_ms : ℕ
sm_timeout_ms = 100

-- The states in which a request is on its way.
abbrev pub awaits : SessionState → Bool
awaits SessionState.connect_in_progress = true
awaits SessionState.disconnect_in_progress = true
awaits SessionState.connected = false
awaits SessionState.reset_in_progress = false

module _ (to_msec : ℕ → ℕ) where
  unfoldable pub resend_lost : SmSession → Rpc → Rpc
  resend_lost s c =
      if awaits s.state
      then (if ltb sm_timeout_ms (to_msec (sub_size c.tsc s.sm_req_ts)) then send_sm_req s c else c)
      else c

  unfoldable pub scan_pending_loop : List ℕ → Rpc → Outcome Rpc
  scan_pending_loop [] c = ok c
  scan_pending_loop (n ∷ pending) c = do
    session ← session_at n c
    elim session [
      | none ↦ scan_pending_loop pending c
      | some s ↦ scan_pending_loop pending (resend_lost s c)
    ]

  unfoldable pub scan_pending : Rpc → Outcome Rpc
  scan_pending c = scan_pending_loop c.sm_pending_reqs c
