-- ===== src/Heartbeat/Failure.antt =====
-- A host that sends heartbeats is declared failed all the same (src/heartbeat_mgr.h).
use sc_code.Common.{
  ℕ, ◌-◌, ◌^◌, ◌≤◌, ◌<◌, ◌≡◌, ◌∙◌, refl, sym, ap, some, List, [], ◌∷◌, lt→ltb, snoc, Option-cases,
  inl, inr, subst,
}
use sc_code.Datapath.Words.{sub_size_exact}
use sc_code.Heartbeat.{EventType, HeartbeatMgr, receive_hb, handle_event, last_hb, emplace, erase}

-- Heartbeats of several hosts, each with its time.
abbrev pub receive_all : List (ℕ × ℕ) → HeartbeatMgr → HeartbeatMgr
receive_all [] m = m
receive_all ((uri, now) ∷ rest) m = receive_all rest (receive_hb uri now m)

emplace-same :
    (uri now t : ℕ) (entries : List (ℕ × ℕ))
    → last_hb uri entries ≡ some t
    → emplace uri now entries ≡ entries
emplace-same uri now t entries e = rw (emplace, e) refl

receive_hb-same : (uri now : ℕ) (m : HeartbeatMgr) → receive_hb uri now m ≡ m
unfolding receive_hb
receive_hb-same uri now m = elim (Option-cases (last_hb uri m.map_last_hb_rx)) [
  | inl e ↦ rw (receive_hb, e) refl
  | inr (t, e) ↦
      rw (receive_hb, e)
        (ap (λ x. record m { map_last_hb_rx = x }) (emplace-same uri now t m.map_last_hb_rx e))
]

receive_all-same : (hbs : List (ℕ × ℕ)) (m : HeartbeatMgr) → receive_all hbs m ≡ m
receive_all-same [] m = refl
receive_all-same ((uri, now) ∷ rest) m =
    ap (receive_all rest) (receive_hb-same uri now m) ∙ receive_all-same rest m

-- Whatever heartbeats have come since a host began to be tracked, and however late, the first check
-- of the host after the timeout that the host began with declares it failed.
pub check_fails_despite_heartbeats :
    (hbs : List (ℕ × ℕ)) (uri start now later : ℕ) (m : HeartbeatMgr) (failed : List ℕ)
    → last_hb uri m.map_last_hb_rx ≡ some start
    → start ≤ now
    → now < 2 ^ 64
    → m.failure_timeout_tsc < now - start
    → let m' = receive_all hbs m in
      (last_hb uri m'.map_last_hb_rx ≡ some start)
      × (handle_event EventType.check uri start now later m' failed
          ≡ (record m' { map_last_hb_rx = erase uri m'.map_last_hb_rx }, snoc failed uri))
unfolding handle_event
check_fails_despite_heartbeats hbs uri start now later m failed tracked after h late =
    subst
      (λ x.
        (last_hb uri x.map_last_hb_rx ≡ some start)
        × (handle_event EventType.check uri start now later x failed
            ≡ (record x { map_last_hb_rx = erase uri x.map_last_hb_rx }, snoc failed uri)))
      (sym (receive_all-same hbs m))
      (
        tracked,
        rw
            (
              handle_event,
              sub_size_exact now start after h,
              lt→ltb m.failure_timeout_tsc (now - start) late,
            )
            refl,
      )
