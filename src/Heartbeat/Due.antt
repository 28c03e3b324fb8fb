-- ===== src/Heartbeat/Due.antt =====
-- The loop of `do_one` (src/heartbeat_mgr.h) ends where the call takes less time than the shorter delay:
-- an event that it adds is due after the call.
use sc_code.Common.{
  ℕ, zero, suc, ◌+◌, ◌^◌, ◌≤◌, ◌<◌, ◌≡◌, ◌∙◌, refl, ap, true, false, none, some, List, [], ◌∷◌, ltb,
  lt→ltb, if◌then◌else◌, length, count_if, Bool-cases, Option-cases, inl, inr, ◌⊎◌, arith,
}
use sc_code.Datapath.Words.{add_size, add_size_exact, sub_size}
use sc_code.Heartbeat.{
  EventType, Event, HeartbeatMgr, push, schedule_hb_send, schedule_hb_check, handle_event,
  do_one_loop, do_one, last_hb,
}

-- The events that are due.
abbrev pub is_due : ℕ → Event → ℕ
is_due now e = if ltb now e.tsc then 0 else 1

abbrev pub due : ℕ → HeartbeatMgr → ℕ
due now m = count_if (is_due now) m.hb_event_pqueue

count-push :
    (f : Event → ℕ) (e : Event) (es : List Event) → count_if f (push e es) ≡ f e + count_if f es
unfolding push
count-push f e [] = refl
count-push f e (x ∷ xs) = elim (Bool-cases (ltb e.tsc x.tsc)) [
  | inl b ↦ rw b refl
  | inr b ↦ rw b (omega (arith, count-push f e xs))
]

-- The call's readings of the clock lie from `start` to `last`, which is less than either delay later,
-- and no time wraps.
pub record Ticks (start last : ℕ) (m : HeartbeatMgr) : Type 0 where
  pub send_late : last < start + m.hb_send_delta_tsc
  pub check_late : last < start + m.hb_check_delta_tsc
  pub send_64 : last + m.hb_send_delta_tsc < 2 ^ 64
  pub check_64 : last + m.hb_check_delta_tsc < 2 ^ 64

-- The readings of the rounds before round `n`.
abbrev pub Reads : ℕ → ℕ → ℕ → (ℕ → ℕ → ℕ) → Type 0
Reads start last n clock = (i j : ℕ) → i < n → j ≤ 2 → (start ≤ clock i j) × (clock i j ≤ last)

future :
    (start now last delta : ℕ)
    → start ≤ now
    → now ≤ last
    → last < start + delta
    → last + delta < 2 ^ 64
    → ltb last (add_size now delta) ≡ true
future start now last delta a b late h =
    rw (add_size_exact now delta (omega arith)) (lt→ltb last (now + delta) (omega arith))

push-future :
    (now : ℕ) (e : Event) (es : List Event)
    → ltb now e.tsc ≡ true
    → count_if (is_due now) (push e es) ≡ count_if (is_due now) es
push-future now e es h =
    let not_due : is_due now e ≡ 0 = ap (λ b. if b then 0 else 1) h in
    omega (arith, not_due, count-push (is_due now) e es)

Ticks-delays :
    (start last : ℕ) (m m' : HeartbeatMgr)
    → m'.hb_send_delta_tsc ≡ m.hb_send_delta_tsc
    → m'.hb_check_delta_tsc ≡ m.hb_check_delta_tsc
    → Ticks start last m
    → Ticks start last m'
Ticks-delays start last m m' e f v = record {
  send_late = omega (arith, e, v.send_late);
  check_late = omega (arith, f, v.check_late);
  send_64 = omega (arith, e, v.send_64);
  check_64 = omega (arith, f, v.check_64);
}

-- An event handled adds none that is due before the call ends, and keeps the delays.
handle_event-due :
    (t : EventType) (uri hb now later start last : ℕ) (m : HeartbeatMgr) (failed : List ℕ)
    → Ticks start last m
    → (start ≤ now) × (now ≤ last)
    → (start ≤ later) × (later ≤ last)
    → let r = handle_event t uri hb now later m failed in
      (due last (r.0) ≡ due last m) × Ticks start last (r.0)
unfolding handle_event schedule_hb_send schedule_hb_check
handle_event-due EventType.send uri hb now later start last m failed v a b = (
  push-future last _ m.hb_event_pqueue
      (future start now last m.hb_send_delta_tsc a.0 a.1 v.send_late v.send_64),
  Ticks-delays start last m _ refl refl v,
)
handle_event-due EventType.check uri hb now later start last m failed v a b =
    elim (Bool-cases (ltb m.failure_timeout_tsc (sub_size now hb))) [
      | inl too_late ↦ rw too_late (refl, Ticks-delays start last m _ refl refl v)
      | inr not_yet ↦ rw not_yet (
        push-future last _ m.hb_event_pqueue
            (future start later last m.hb_check_delta_tsc b.0 b.1 v.check_late v.check_64),
        Ticks-delays start last m _ refl refl v,
      )
    ]

-- The state after the event at the top, in round `i`.
abbrev pub handled :
    Event → List Event → ℕ → ℕ → (ℕ → ℕ → ℕ) → HeartbeatMgr → List ℕ → HeartbeatMgr × List ℕ
handled e rest hb i clock m failed =
    handle_event e.type e.rem_uri hb (clock i 1) (clock i 2) (record m { hb_event_pqueue = rest })
      failed

module _ (clock : ℕ → ℕ → ℕ) where
  do_one_loop-step :
      (n i : ℕ) (m : HeartbeatMgr) (failed : List ℕ) (e : Event) (rest : List Event) (hb : ℕ)
      → m.hb_event_pqueue ≡ e ∷ rest
      → last_hb e.rem_uri m.map_last_hb_rx ≡ some hb
      → ltb (clock i 0) e.tsc ≡ false
      → do_one_loop (suc n) i clock m failed
        ≡ do_one_loop n
            (suc i)
            clock
            ((handled e rest hb i clock m failed).0)
            ((handled e rest hb i clock m failed).1)
  unfolding do_one_loop
  do_one_loop-step n i m failed e rest hb q t d = rw (do_one_loop, q, t, d) refl

  do_one_loop-stop :
      (n i : ℕ) (m : HeartbeatMgr) (failed : List ℕ) (e : Event) (rest : List Event)
      → m.hb_event_pqueue ≡ e ∷ rest
      → (last_hb e.rem_uri m.map_last_hb_rx ≡ none) ⊎ (ltb (clock i 0) e.tsc ≡ true)
      → do_one_loop (suc n) i clock m failed ≡ some (m, failed)
  unfolding do_one_loop
  do_one_loop-stop n i m failed e rest q (inl t) =
      rw (do_one_loop, q, t) (ap (λ l. some (record m { hb_event_pqueue = l }, failed)) q)
  do_one_loop-stop n i m failed e rest q (inr d) =
      elim (Option-cases (last_hb e.rem_uri m.map_last_hb_rx)) [
        | inl t ↦
            rw (do_one_loop, q, t) (ap (λ l. some (record m { hb_event_pqueue = l }, failed)) q)
        | inr (last, t) ↦
            rw (do_one_loop, q, t, d) (ap (λ l. some (record m { hb_event_pqueue = l }, failed)) q)
      ]

  do_one_loop-empty :
      (n i : ℕ) (m : HeartbeatMgr) (failed : List ℕ)
      → m.hb_event_pqueue ≡ []
      → do_one_loop (suc n) i clock m failed ≡ some (m, failed)
  unfolding do_one_loop
  do_one_loop-empty n i m failed q =
      rw (do_one_loop, q) (ap (λ l. some (record m { hb_event_pqueue = l }, failed)) q)

due-top :
    (now last : ℕ) (m : HeartbeatMgr) (e : Event) (rest : List Event)
    → m.hb_event_pqueue ≡ e ∷ rest
    → now ≤ last
    → ltb now e.tsc ≡ false
    → due last m ≡ suc (due last (record m { hb_event_pqueue = rest }))
due-top now last m e rest q h d =
    let early : ltb last e.tsc ≡ false = ground arith in
    let is : is_due last e ≡ 1 = ap (λ b. if b then 0 else 1) early in
    ap (count_if (is_due last)) q ∙ omega (arith, is)

module _ (clock : ℕ → ℕ → ℕ) (start last : ℕ) where
  abbrev Returns : ℕ → ℕ → HeartbeatMgr → List ℕ → Type 0
  Returns n i m failed = (r : HeartbeatMgr × List ℕ) × (do_one_loop n i clock m failed ≡ some r)

  one_round :
      (n i : ℕ) (m : HeartbeatMgr) (failed : List ℕ) (q : List Event)
      → Reads start last (i + suc n) clock
      → ((m' : HeartbeatMgr) (f' : List ℕ)
          → Ticks start last m'
          → due last m' < n
          → Returns n (suc i) m' f')
      → m.hb_event_pqueue ≡ q
      → Ticks start last m
      → due last m < suc n
      → Returns (suc n) i m failed
  one_round n i m failed [] reads rec q v h = ((m, failed), do_one_loop-empty clock n i m failed q)
  one_round n i m failed (e ∷ rest) reads rec q v h = elim (Bool-cases (ltb (clock i 0) e.tsc)) [
    | inl d ↦ ((m, failed), do_one_loop-stop clock n i m failed e rest q (inr d))
    | inr d ↦ elim (Option-cases (last_hb e.rem_uri m.map_last_hb_rx)) [
      | inl t ↦ ((m, failed), do_one_loop-stop clock n i m failed e rest q (inl t))
      | inr (hb, t) ↦
          let popped = record m { hb_event_pqueue = rest } in
          let read : (j : ℕ) → j ≤ 2 → (start ≤ clock i j) × (clock i j ≤ last) =
            λ j l. reads i j (omega arith) l in
          let (same, ticks) =
            handle_event-due e.type e.rem_uri hb (clock i 1) (clock i 2) start last popped failed
              (Ticks-delays start last m popped refl refl v) (read 1 (omega arith))
              (read 2 (omega arith)) in
          let top = due-top (clock i 0) last m e rest q ((read 0 (omega arith)).1) d in
          let (r, run) = rec _ _ ticks (omega (arith, same, top, h)) in
          (r, do_one_loop-step clock n i m failed e rest hb q t d ∙ run)
    ]
  ]

  -- With more rounds than events that are due before the call ends, the loop returns.
  do_one_loop-Returns :
      (n i : ℕ) (m : HeartbeatMgr) (failed : List ℕ)
      → Reads start last (i + n) clock
      → Ticks start last m
      → due last m < n
      → Returns n i m failed
  do_one_loop-Returns zero i m failed reads v h = absurd (omega arith)
  do_one_loop-Returns (suc n) i m failed reads v h =
      one_round n i m failed m.hb_event_pqueue reads
        (λ m' f'. do_one_loop-Returns n (suc i) m' f' (λ i' j l. reads i' j (omega arith))) refl v h

due-le_length : (now : ℕ) (es : List Event) → count_if (is_due now) es ≤ length es
due-le_length now [] = omega arith
due-le_length now (e ∷ es) = elim (Bool-cases (ltb now e.tsc)) [
  | inl b ↦ rw b (omega (arith, due-le_length now es))
  | inr b ↦ rw b (omega (arith, due-le_length now es))
]

-- The loop ends, whatever the events and the map, where the clock advances during the call by less
-- than either delay: each reading of a round, up to one round more than there are events in the
-- queue, lies from `start` to `last`. An event that the call adds is due after `last`, so it handles no
-- more events than were there when it began.
pub do_one_returns :
    (clock : ℕ → ℕ → ℕ) (start last : ℕ) (m : HeartbeatMgr) (failed : List ℕ)
    → Ticks start last m
    → Reads start last (suc (length m.hb_event_pqueue)) clock
    → (r : HeartbeatMgr × List ℕ) × (do_one clock m failed ≡ some r)
unfolding do_one
do_one_returns clock start last m failed v reads =
    do_one_loop-Returns clock start last (suc (length m.hb_event_pqueue)) 0 m failed
      (λ i j l. reads i j (omega arith)) v (omega (arith, due-le_length last m.hb_event_pqueue))
