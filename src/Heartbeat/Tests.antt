-- ===== src/Heartbeat/Tests.antt =====
-- The heartbeat manager at concrete states: host 7, tracked since time 100.
use sc_code.Common.{ℕ, ◌+◌, ◌*◌, ◌<◌, ◌≤◌, ◌≡◌, refl, some, List, [], ◌∷◌, arith}
use sc_code.Heartbeat.{
  EventType, HeartbeatMgr, new_mgr, add_remote, schedule_hb_send, schedule_hb_check, push,
  handle_event, do_one, last_hb, erase,
}
use sc_code.Heartbeat.Due.{do_one_returns}
use sc_code.Heartbeat.Failure.{receive_all, check_fails_despite_heartbeats}

abbrev tracked : HeartbeatMgr
tracked = record {
  failure_timeout_tsc = 1000;
  hb_send_delta_tsc = 100;
  hb_check_delta_tsc = 500;
  hb_event_pqueue =
      record { type = EventType.send; rem_uri = 7; tsc = 200 }
      ∷ record { type = EventType.check; rem_uri = 7; tsc = 600 }
      ∷ [];
  map_last_hb_rx = (7, 100) ∷ [];
  sent = [];
}

-- It is what the calls make.
tracked_of_calls : add_remote 7 100 100 100 (new_mgr 1000) ≡ tracked
unfolding add_remote new_mgr schedule_hb_send schedule_hb_check push
tracked_of_calls = refl

-- A clock that advances by one with every reading.
abbrev clock : ℕ → ℕ → ℕ
clock i j = 700 + 3 * i + j

reads : (i j : ℕ) → i < 3 → j ≤ 2 → (700 ≤ clock i j) × (clock i j ≤ 710)
reads i j h l = (omega arith, omega arith)

do_one_returns_example : (r : HeartbeatMgr × List ℕ) × (do_one clock tracked [] ≡ some r)
do_one_returns_example =
    do_one_returns clock 700 710 tracked []
      (record {
        send_late = omega arith;
        check_late = omega arith;
        send_64 = omega arith;
        check_64 = omega arith;
      })
      reads

check_fails_despite_heartbeats_example :
    (last_hb 7 ((receive_all ((7, 1090) ∷ (7, 1150) ∷ []) tracked).map_last_hb_rx) ≡ some 100)
    × (handle_event EventType.check 7 100 1200 1201
          (receive_all ((7, 1090) ∷ (7, 1150) ∷ []) tracked)
          []
        ≡ (
          record (receive_all ((7, 1090) ∷ (7, 1150) ∷ []) tracked) {
            map_last_hb_rx =
                erase 7 ((receive_all ((7, 1090) ∷ (7, 1150) ∷ []) tracked).map_last_hb_rx);
          },
          7 ∷ [],
        ))
check_fails_despite_heartbeats_example =
    check_fails_despite_heartbeats ((7, 1090) ∷ (7, 1150) ∷ []) 7 100 1200 1201 tracked [] refl
      (omega arith) (omega arith) (omega arith)
