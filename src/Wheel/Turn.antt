-- ===== src/Wheel/Turn.antt =====
-- One round of a reaping: the slot that is emptied and the turn to the next.
use sc_code.Common.{
  ℕ, suc, ◌+◌, ◌-◌, ◌*◌, ◌%◌, ◌^◌, ◌≤◌, ◌<◌, ◌≡◌, ◌≢◌, refl, some, List, [], ◌∷◌, ◌++◌, length,
  get_elem?, set, get_elem?-set_self, get_elem?_lt, ok, arith, set-set,
}
use sc_code.Util.MemPool.{MemPool, free}
use sc_code.Wheel.{
  Bucket, WSlot, TimingWheel, WheelArgs, ents, next_wslot, put_wslot, wslot_at, reset_bkt,
  free_chained, reap_wslot, reap_round,
}
use sc_code.Wheel.Order.{ahead}

pub wslot_at-some :
    (i : ℕ) (w : TimingWheel) (s : WSlot) → get_elem? w.wheel i ≡ some s → wslot_at i w ≡ ok s
unfolding wslot_at
wslot_at-some i w s e = rw (e, wslot_at)

pub ents-reset : (b : Bucket) → ents (reset_bkt b ∷ []) ≡ []
unfolding ents
ents-reset b = refl

-- Reaping only gives buckets back.
pub length-free_chained :
    (bs : List Bucket) (p : MemPool) → length p.pool ≤ length (free_chained bs p).pool
unfolding free_chained free
length-free_chained [] p = omega arith
length-free_chained (b ∷ bs) p = omega (arith, length-free_chained bs (free b.addr p))

module _ (args : WheelArgs) where
  -- The wheel after one round, where the current slot is `s` with the chain `b ∷ bs`.
  abbrev pub turned : WSlot → Bucket → List Bucket → ℕ → TimingWheel → TimingWheel
  turned s b bs tsc w = record {
    wheel = set w.wheel w.cur_wslot (record { tx_tsc = tsc; chain = reset_bkt b ∷ [] });
    cur_wslot = next_wslot args w.cur_wslot;
    bkt_pool = free_chained bs w.bkt_pool;
    ready_queue = w.ready_queue ++ ents (b ∷ bs);
  }

  pub reap_round-turned :
      (w : TimingWheel) (s : WSlot) (b : Bucket) (bs : List Bucket)
      → get_elem? w.wheel w.cur_wslot ≡ some s
      → s.chain ≡ b ∷ bs
      → s.tx_tsc + args.wslot_width_tsc * args.num_wslots < 2 ^ 61
      → reap_round args w ≡ ok (turned s b bs (s.tx_tsc + args.wslot_width_tsc * args.num_wslots) w)
  unfolding reap_round reap_wslot
  reap_round-turned w s b bs e c h =
      let emptied = record s { chain = reset_bkt b ∷ [] } in
      let now =
        get_elem?-set_self w.wheel w.cur_wslot emptied (get_elem?_lt w.wheel w.cur_wslot s e) in
      let exact : (s.tx_tsc + args.wslot_width_tsc * args.num_wslots) % 2 ^ 61
          ≡ s.tx_tsc + args.wslot_width_tsc * args.num_wslots =
        omega arith in
      let mid = put_wslot w.cur_wslot emptied (record w {
        bkt_pool = free_chained bs w.bkt_pool;
        ready_queue = w.ready_queue ++ ents (b ∷ bs);
      }) in
      rw (wslot_at-some w.cur_wslot w s e, c)
        (rw (wslot_at-some w.cur_wslot mid emptied now, exact)
          (rw
            (set-set w.wheel w.cur_wslot emptied (record {
              tx_tsc = s.tx_tsc + args.wslot_width_tsc * args.num_wslots;
              chain = reset_bkt b ∷ [];
            }))
            refl))

  -- The next slot is one further.
  pub ahead-next :
      (cur k : ℕ)
      → cur < args.num_wslots
      → k + 1 < args.num_wslots
      → ahead args.num_wslots (next_wslot args cur) k ≡ ahead args.num_wslots cur (suc k)
  ahead-next cur k h l = ground arith

  pub ahead-ne :
      (cur k : ℕ)
      → cur < args.num_wslots
      → k + 1 < args.num_wslots
      → cur ≢ ahead args.num_wslots cur (suc k)
  ahead-ne cur k h l e = absurd (ground arith)

  -- The slot just emptied is the last to come.
  pub ahead-last :
      (cur : ℕ)
      → cur < args.num_wslots
      → ahead args.num_wslots (next_wslot args cur) (args.num_wslots - 1) ≡ cur
  ahead-last cur h = ground arith

  pub ahead-zero : (cur : ℕ) → cur < args.num_wslots → ahead args.num_wslots cur 0 ≡ cur
  ahead-zero cur h = ground arith

  pub next-lt : (cur : ℕ) → cur < args.num_wslots → next_wslot args cur < args.num_wslots
  next-lt cur h = ground arith
