-- ===== src/Datapath/Queues/Stall.antt =====
-- No credit lies idle and no request is lost: what `process_credit_stall_queue_st` of
-- src/rpc_impl/rpc_queues.cc leaves.
use sc_code.Common.{
  count_if-append, ℕ, ◌≡◌, ◌∙◌, inl, inr, refl, sym, ap, subst, Bool-cases, true, false, some, List,
  [], ◌∷◌, ◌++◌, ltb, snoc, ok, arith, append_nil, append_assoc, append-snoc_left,
}
use sc_code.Datapath.{Config, TxItem}
use sc_code.Datapath.Batch.{HasRoom, queued}
use sc_code.Datapath.Kick.Req.{data_pkts}
use sc_code.Datapath.Queues.{Clients, on_session, kick_slot, stall_loop, process_credit_stall_queue}
use sc_code.Datapath.Queues.Places.{
  Stalled, Apart, slot_in, slot_in-at, credits_in, credits_in-at, client_at-some, All,
  DistinctSlots, All-Stalled, Apart-sym,
}
use sc_code.Datapath.Queues.Sweep.{takes, Paid, Sweep, done, waits, goes, Sweep-start, All-same}
use sc_code.Datapath.Queues.Step.{Kicked, kick_step}

module _ (cfg : Config) where
  -- The loop over what is left of the queue, with the entries `kept` so far. Slots outside the queue
  -- stay as they are, and so do sessions without credit.
  abbrev Loops : List (ℕ × ℕ) → List (ℕ × ℕ) → Clients → Type 0
  Loops q kept c =
      (c' : Clients) × (kept' : List (ℕ × ℕ)) × (sent : List TxItem) × (stall_loop cfg q kept c
        ≡ ok c')
      × (c'.rest.stallq ≡ kept ++ kept')
      × (queued c'.rest.tx ≡ queued c.rest.tx ++ sent)
      × Sweep c.session_vec c'.session_vec q kept' sent
      × HasRoom cfg c'.rest.tx
      × Paid c.session_vec c'.session_vec sent
      × ((k i : ℕ) → All (Apart k i) q → slot_in c'.session_vec k i ≡ slot_in c.session_vec k i)
      × ((k : ℕ) → credits_in c.session_vec k ≡ some 0 → credits_in c'.session_vec k ≡ some 0)

  loop_kicks :
      (k i : ℕ) (q kept : List (ℕ × ℕ)) (c c1 : Clients) (v : Stalled c.session_vec k i)
      → ltb 0 v.place.session.credits ≡ true
      → on_session k (kick_slot cfg i) c ≡ ok c1
      → Kicked cfg k i c c1 v
      → All (Apart k i) q
      → Loops q kept c1
      → Loops ((k, i) ∷ q) kept c
  unfolding stall_loop
  loop_kicks k i q kept c c1 v has kicked step apart loops =
      let (n, pos, after, end, tx1, frame, other, paid1, room1) = step in
      let (c', kept', sent, ran, stalled, tx', sweep, room', paid, same, spent) = loops in
      let slot = v.place.slot in
      let items = data_pkts k slot.index v.msg slot.num_tx n in
      let still : slot_in c'.session_vec k i ≡ slot_in c1.session_vec k i = same k i apart in
      (
        c',
        kept',
        items ++ sent,
        rw (client_at-some k c v.place.session v.place.here) (rw has (rw kicked ran)),
        stalled,
        tx' ∙ ap (λ l. l ++ sent) tx1 ∙ append_assoc (queued c.rest.tx) items sent,
        goes k i n slot v.msg q kept' sent
            (slot_in-at c.session_vec k i v.place.session v.place.here ∙ v.place.there) v.active pos
            (still ∙ after)
            (elim end [ inl none_left ↦ inl (spent k none_left) | inr all ↦ inr all ])
            (Sweep-start c.session_vec c1.session_vec c'.session_vec q kept' sent
              (All-same c.session_vec c1.session_vec k i q other.0 apart) sweep),
        room',
        λ k'. omega (arith, paid k', paid1 k', count_if-append (takes k') items sent),
        λ k' i' a. same k' i' a.1 ∙ other.0 k' i' (Apart-sym k' i' k i a.0),
        λ k' e. spent k' (other.1 k' e),
      )

  loop_waits :
      (k i : ℕ) (q kept : List (ℕ × ℕ)) (c : Clients) (v : Stalled c.session_vec k i)
      → ltb 0 v.place.session.credits ≡ false
      → All (Apart k i) q
      → Loops q (snoc kept (k, i)) c
      → Loops ((k, i) ∷ q) kept c
  unfolding stall_loop
  loop_waits k i q kept c v spent_all apart loops =
      let (c', kept', sent, ran, stalled, tx', sweep, room', paid, same, spent) = loops in
      let s = v.place.session in
      let vec = c.session_vec in
      let none_left : s.credits ≡ 0 = ground arith in
      let here : slot_in vec k i ≡ some v.place.slot =
        slot_in-at vec k i s v.place.here ∙ v.place.there in
      (
        c',
        (k, i) ∷ kept',
        sent,
        rw (client_at-some k c s v.place.here) (rw spent_all ran),
        stalled ∙ append-snoc_left kept kept' (k, i),
        tx',
        waits k i v.place.slot q kept' sent here (same k i apart ∙ here)
            (spent k (credits_in-at vec k s v.place.here ∙ ap some none_left)) sweep,
        room',
        paid,
        λ k' i' a. same k' i' a.1,
        spent,
      )

  stall_loop-Loops :
      (q kept : List (ℕ × ℕ)) (c : Clients)
      → All (Stalled c.session_vec) q
      → DistinctSlots q
      → HasRoom cfg c.rest.tx
      → Loops q kept c
  unfolding stall_loop
  stall_loop-Loops [] kept c stalled distinct room = (
    record c { rest = record (c.rest) { stallq = kept } },
    [],
    [],
    refl,
    sym (append_nil kept),
    sym (append_nil (queued c.rest.tx)),
    done,
    room,
    λ k. omega arith,
    λ k i a. refl,
    λ k e. e,
  )
  stall_loop-Loops ((k, i) ∷ q) kept c stalled distinct room =
      let v = stalled.0 in
      elim (Bool-cases (ltb 0 v.place.session.credits)) [
        | inl has ↦
            let (c1, kicked, step) = kick_step cfg k i c v (ground arith) room in
            let (_, _, _, _, _, frame, _, _, room1) = step in
            loop_kicks k i q kept c c1 v has kicked step distinct.0 (
              stall_loop-Loops q kept c1
                (All-Stalled c.session_vec c1.session_vec k i q frame distinct.0 stalled.1)
                distinct.1 room1)
        | inr spent_all ↦
            loop_waits k i q kept c v spent_all distinct.0
              (stall_loop-Loops q (snoc kept (k, i)) c stalled.1 distinct.1 room)
      ]

  -- Whatever requests are stalled, each at most once in the queue, in whatever sessions, which stand at
  -- their numbers, a pass over the queue returns. Then the entries that stand in the queue are
  -- those, in order, whose slots are as they were and whose sessions have no credit; of every other
  -- request packets are sent, until it is whole or its session has no credit left; and these
  -- packets are queued behind all earlier ones, in the order of the entries, for one credit each of
  -- their session.
  pub stall_queue_settles :
      (c : Clients)
      → All (Stalled c.session_vec) c.rest.stallq
      → DistinctSlots c.rest.stallq
      → HasRoom cfg c.rest.tx
      → (c' : Clients) × (sent : List TxItem) × (process_credit_stall_queue cfg c ≡ ok c')
        × Sweep c.session_vec c'.session_vec c.rest.stallq c'.rest.stallq sent
        × (queued c'.rest.tx ≡ queued c.rest.tx ++ sent)
        × Paid c.session_vec c'.session_vec sent
        × HasRoom cfg c'.rest.tx
  unfolding process_credit_stall_queue
  stall_queue_settles c stalled distinct room =
      let (c', kept', sent, ran, now, tx', sweep, room', paid, _, _) =
        stall_loop-Loops c.rest.stallq [] c stalled distinct room in
      (
        c',
        sent,
        ran,
        subst (λ l. Sweep c.session_vec c'.session_vec c.rest.stallq l sent) (sym now) sweep,
        tx',
        paid,
        room',
      )
