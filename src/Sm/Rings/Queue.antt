-- ===== src/Sm/Rings/Queue.antt =====
-- What a pass over the queued packets does to the sessions of an Rpc.
use sc_code.Common.{
  ℕ, ◌+◌, ◌^◌, ◌≤◌, ◌<◌, ◌≡◌, Option, List, [], ◌∷◌, length, ok, bind-returns, subst, arith,
}
use sc_code.Sm.{SmPkt, SmPktType, Rpc}
use sc_code.Sm.Rx.{SmWorkItem, clear_pending, dispatch, handle_sm_rx}
use sc_code.Sm.Rings.{RingsOk, Change, keeps, moves, opens, closes, Change-RingsOk, Change-length}
use sc_code.Sm.Rings.Leads.{Leads}
use sc_code.Sm.Rings.Handlers.{
  handle_connect_req-Leads, handle_connect_resp-Leads, handle_disconnect_req-Leads,
  handle_disconnect_resp-Leads,
}

-- One change after another.
pub data Changes : Rpc → Rpc → Type 0 where
  stop : {c : Rpc} → Changes c c
  next : {c c' c'' : Rpc} → Change c c' → Changes c' c'' → Changes c c''

-- The pending requests are not part of a change.
uncleared : (p : SmPkt) (c c' : Rpc) → Change (clear_pending p c) c' → Change c c'
uncleared p c c' (keeps v r) = keeps v r
uncleared p c c' (moves s s' at k m n v r) = moves s s' at k m n v r
uncleared p c c' (opens s b n v r) = opens s b n v r
uncleared p c c' (closes s at e v r) = closes s at e v r

module _ (resolve : ℕ → Option ℕ) where
  dispatch-Leads :
      (t : SmPktType) (p : SmPkt) (c : Rpc)
      → RingsOk c
      → length c.session_vec < 2 ^ 16
      → Leads (Change c) (dispatch resolve t p c)
  unfolding dispatch
  dispatch-Leads SmPktType.unblock p c v h = tt
  dispatch-Leads SmPktType.ping_req p c v h = tt
  dispatch-Leads SmPktType.ping_resp p c v h = tt
  dispatch-Leads SmPktType.connect_req p c v h = handle_connect_req-Leads resolve p c h
  dispatch-Leads SmPktType.connect_resp p c v h = handle_connect_resp-Leads resolve p c v
  dispatch-Leads SmPktType.disconnect_req p c v h = handle_disconnect_req-Leads p c v
  dispatch-Leads SmPktType.disconnect_resp p c v h = handle_disconnect_resp-Leads p c v

  dispatched :
      (p : SmPkt) (c c' : Rpc)
      → RingsOk c
      → length c.session_vec < 2 ^ 16
      → dispatch resolve p.pkt_type p (clear_pending p c) ≡ ok c'
      → Change c c'
  dispatched p c c' v h e =
      let pending = clear_pending p c in
      let ok_pending : RingsOk pending = record { own = v.own; balance = v.balance } in
      uncleared p c c'
        (subst (Leads (Change pending)) e (dispatch-Leads p.pkt_type p pending ok_pending h))

  -- A pass over a queue of packets, of whatever types and contents, that returns is a sequence of
  -- changes, each of which a session's life allows; every session is still at its own number; and the
  -- ring entries that are free and those of the sessions there make up the whole ring.
  pub handle_sm_rx-RingsOk :
      (queue : List SmWorkItem) (c c' : Rpc)
      → RingsOk c
      → length c.session_vec + length queue ≤ 2 ^ 16
      → handle_sm_rx resolve queue c ≡ ok c'
      → Changes c c' × RingsOk c'
  unfolding handle_sm_rx
  handle_sm_rx-RingsOk [] c c' v h e =
      let same : c ≡ c' = cc in subst (λ x. Changes c x × RingsOk x) same (stop, v)
  handle_sm_rx-RingsOk (SmWorkItem.reset host ∷ queue) c c' v h e = absurd (cc)
  handle_sm_rx-RingsOk (SmWorkItem.pkt p ∷ queue) c c' v h e =
      let (m, d, rest) =
        bind-returns (dispatch resolve p.pkt_type p (clear_pending p c))
          (handle_sm_rx resolve queue) e in
      let one = dispatched p c m v (omega arith) d in
      let after =
        handle_sm_rx-RingsOk queue m c' (Change-RingsOk c m one v)
          (omega (arith, Change-length c m one)) rest in
      (next one after.0, after.1)
