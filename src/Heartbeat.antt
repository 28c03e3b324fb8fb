-- ===== src/Heartbeat.antt =====
-- The heartbeat manager (src/heartbeat_mgr.h): the tracking set, the queue of events by time, and the
-- loop that handles the events that are due. URIs are numbers, the clock is the readings that a call
-- takes of it, and the priority queue is the list of its events by time.
pub mod Due
pub mod Failure
mod Tests
use sc_code.Common.{
  ℕ, zero, suc, ◌/◌, Option, none, some, List, [], ◌∷◌, ltb, ◌==◌, if◌then◌else◌, length, snoc,
}
use sc_code.Datapath.Words.{add_size, sub_size}

pub data EventType : Type 0 where
  send check : EventType

pub record Event : Type 0 where
  pub type : EventType
  pub rem_uri : ℕ
  pub tsc : ℕ

pub record HeartbeatMgr : Type 0 where
  pub failure_timeout_tsc : ℕ
  pub hb_send_delta_tsc : ℕ
  pub hb_check_delta_tsc : ℕ
  pub hb_event_pqueue : List Event
  pub map_last_hb_rx : List (ℕ × ℕ)
  pub sent : List ℕ

-- The constructor.
unfoldable pub new_mgr : ℕ → HeartbeatMgr
new_mgr failure_timeout_tsc = record {
  failure_timeout_tsc = failure_timeout_tsc;
  hb_send_delta_tsc = failure_timeout_tsc / 10;
  hb_check_delta_tsc = failure_timeout_tsc / 2;
  hb_event_pqueue = [];
  map_last_hb_rx = [];
  sent = [];
}

-- The earliest event is at the top.
unfoldable pub push : Event → List Event → List Event
push e [] = e ∷ []
push e (x ∷ xs) = if ltb e.tsc x.tsc then e ∷ x ∷ xs else x ∷ push e xs

-- The map from URIs to times; `emplace` leaves an entry that is there as it is.
abbrev pub last_hb : ℕ → List (ℕ × ℕ) → Option ℕ
last_hb uri [] = none
last_hb uri ((u, t) ∷ rest) = if uri == u then some t else last_hb uri rest

abbrev pub emplace : ℕ → ℕ → List (ℕ × ℕ) → List (ℕ × ℕ)
emplace uri t entries = elim (last_hb uri entries) [ none ↦ (uri, t) ∷ entries | some s ↦ entries ]

abbrev pub erase : ℕ → List (ℕ × ℕ) → List (ℕ × ℕ)
erase uri [] = []
erase uri ((u, t) ∷ rest) = if uri == u then rest else (u, t) ∷ erase uri rest

abbrev pub schedule : EventType → ℕ → ℕ → HeartbeatMgr → HeartbeatMgr
schedule type uri tsc m = record m {
  hb_event_pqueue = push (record { type = type; rem_uri = uri; tsc = tsc }) m.hb_event_pqueue;
}

unfoldable pub schedule_hb_send : ℕ → ℕ → HeartbeatMgr → HeartbeatMgr
schedule_hb_send uri now m = schedule EventType.send uri (add_size now m.hb_send_delta_tsc) m

unfoldable pub schedule_hb_check : ℕ → ℕ → HeartbeatMgr → HeartbeatMgr
schedule_hb_check uri now m = schedule EventType.check uri (add_size now m.hb_check_delta_tsc) m

-- The clock is read for the map, the first heartbeat and the first check.
unfoldable pub add_remote : ℕ → ℕ → ℕ → ℕ → HeartbeatMgr → HeartbeatMgr
add_remote uri cur_tsc send_now check_now m = schedule_hb_check uri check_now (
    schedule_hb_send uri send_now
      (record m { map_last_hb_rx = emplace uri cur_tsc m.map_last_hb_rx }))

unfoldable pub receive_hb : ℕ → ℕ → HeartbeatMgr → HeartbeatMgr
receive_hb uri now m = elim (last_hb uri m.map_last_hb_rx) [
  | none ↦ m
  | some t ↦ record m { map_last_hb_rx = emplace uri now m.map_last_hb_rx }
]

-- One event of a tracked URI whose last heartbeat came at `last`, with the URIs that have failed so
-- far. The clock is read once, and again where the check is scheduled anew.
unfoldable pub handle_event :
    EventType → ℕ → ℕ → ℕ → ℕ → HeartbeatMgr → List ℕ → HeartbeatMgr × List ℕ
handle_event EventType.send uri last now later m failed =
    (schedule_hb_send uri now (record m { sent = uri ∷ m.sent }), failed)
handle_event EventType.check uri last now later m failed =
    if ltb m.failure_timeout_tsc (sub_size now last)
    then (record m { map_last_hb_rx = erase uri m.map_last_hb_rx }, snoc failed uri)
    else (schedule_hb_check uri later m, failed)

-- The loop, by the rounds that it may make; `none` where they are not enough. `clock i` are the
-- readings of round `i`: for the time of the event at the top, and for its handling.
unfoldable pub do_one_loop :
    ℕ → ℕ → (ℕ → ℕ → ℕ) → HeartbeatMgr → List ℕ → Option (HeartbeatMgr × List ℕ)
do_one_loop zero i clock m failed = none
do_one_loop (suc n) i clock m failed = elim m.hb_event_pqueue [
  | [] ↦ some (m, failed)
  | e ∷ rest ↦ elim (last_hb e.rem_uri m.map_last_hb_rx) [
    | none ↦ some (m, failed)
    | some last ↦
        let next =
          handle_event e.type e.rem_uri last (clock i 1) (clock i 2)
            (record m { hb_event_pqueue = rest }) failed in
        let later = do_one_loop n (suc i) clock (next.0) (next.1) in
        if ltb (clock i 0) e.tsc then some (m, failed) else later
  ]
]

unfoldable pub do_one : (ℕ → ℕ → ℕ) → HeartbeatMgr → List ℕ → Option (HeartbeatMgr × List ℕ)
do_one clock m failed = do_one_loop (suc (length m.hb_event_pqueue)) 0 clock m failed
