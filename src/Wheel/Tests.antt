-- ===== src/Wheel/Tests.antt =====
-- Runs of a small wheel, and the theorems at it.
use sc_code.Common.{
  ℕ, ◌+◌, ◌*◌, ◌≤◌, ◌<◌, ◌≡◌, ◌⊎◌, refl, some, Option, List, [], ◌∷◌, ◌++◌, ok, Outcome, arith,
  replicate, length,
}
use sc_code.Alloc.{HugeAlloc, alloc_raw}
use sc_code.Util.MemPool.{MemPool, alloc, new_pool}
use sc_code.Wheel.{
  WheelEnt, WSlot, TimingWheel, WheelArgs, new_wheel, insert_into_wslot, reap_round, reap_loop,
  reap, dst_wslot, insert,
}
use sc_code.Wheel.Order.{Shows}
use sc_code.Wheel.Reap.{released, later, reap_sends}
use sc_code.Wheel.Insert.{add_at, insert_paces}
use sc_code.Wheel.Pacing.{never_early, sent_within_width}
use sc_code.Wheel.Fresh.{new_wheel-Shows}

-- Four slots of ten ticks.
abbrev small : WheelArgs
small = record { num_wslots = 4; wslot_width_tsc = 10; horizon_tsc = 30 }

abbrev memory : ℕ → Outcome (Option (ℕ × ℕ))
memory size = ok (some (4096, 0))

abbrev no_huge : HugeAlloc
no_huge = record {
  freelist = replicate 18 [];
  prev_allocation_size = 16777216;
  shm_reserved = 0;
  user_alloc_tot = 0;
}

abbrev slot_at_100 : ℕ → List WheelEnt → WSlot
slot_at_100 i es = record {
  tx_tsc = 110 + 10 * i;
  chain = record { addr = 4096 + i * 64; entries = es } ∷ [];
}

abbrev pool_of : List ℕ → MemPool
pool_of pool = record {
  num_to_alloc = 32768;
  huge_alloc = record no_huge { shm_reserved = 2097152 };
  pool = pool;
}

abbrev fresh : TimingWheel
fresh = record {
  wheel = slot_at_100 0 [] ∷ slot_at_100 1 [] ∷ slot_at_100 2 [] ∷ slot_at_100 3 [] ∷ [];
  cur_wslot = 0;
  bkt_pool = pool_of [];
  ready_queue = [];
}

fresh_made : new_wheel small memory 100 no_huge ≡ ok fresh
unfolding new_wheel new_pool alloc_raw
fresh_made = refl

new_wheel-Shows_example : Shows small 110 (λ k. []) fresh
new_wheel-Shows_example =
    new_wheel-Shows small memory 100 no_huge fresh fresh_made (omega arith) (omega arith)
      (omega arith)

-- With a bucket in the pool.
abbrev wheel : TimingWheel
wheel = record fresh { bkt_pool = pool_of (9000 ∷ []) }

wheel-Shows : Shows small 110 (λ k. []) wheel
wheel-Shows = record {
  size = new_wheel-Shows_example.size;
  current = new_wheel-Shows_example.current;
  wide = new_wheel-Shows_example.wide;
  slots = new_wheel-Shows_example.slots;
  no_more = new_wheel-Shows_example.no_more;
}

abbrev ent : WheelEnt
ent = record { sslot = 77; pkt_num = 3 }

-- Wanted at 125, the entry goes to the slot that is due at 130.
insert_runs :
    insert small memory ent 105 125 wheel
    ≡ ok (record wheel {
      wheel =
          slot_at_100 0 [] ∷ slot_at_100 1 [] ∷ slot_at_100 2 (ent ∷ []) ∷ slot_at_100 3 [] ∷ [];
    })
unfolding insert reap reap_loop reap_round dst_wslot insert_into_wslot
insert_runs = refl

insert_paces_example :
    (w' : TimingWheel) × (insert small memory ent 105 125 wheel ≡ ok w')
    × (r : ℕ) × (k : ℕ) × Shows small (110 + r * 10) (add_at k ent (later r (λ k. []))) w'
    × (125 ≤ 110 + r * 10 + k * 10)
    × (110 + r * 10 + k * 10 ≤ 125 + 10)
    × (w'.ready_queue ≡ [] ++ released r (λ k. []))
insert_paces_example =
    insert_paces small memory 110 105 125 (λ k. []) ent wheel wheel-Shows (omega arith)
      (omega arith) (omega arith) (omega arith) (omega arith) (omega arith)

reap_sends_example :
    (r : ℕ) × (w' : TimingWheel) × (reap small 131 wheel ≡ ok w')
    × Shows small (110 + r * 10) (later r (λ k. [])) w'
    × (131 < 110 + r * 10)
    × ((r ≡ 0) ⊎ (110 + r * 10 ≤ 131 + 10))
    × (w'.ready_queue ≡ [] ++ released r (λ k. []))
    × (length wheel.bkt_pool.pool ≤ length w'.bkt_pool.pool)
reap_sends_example = reap_sends small 131 110 (λ k. []) wheel wheel-Shows (omega arith)

never_early_example :
    (w1 w2 : TimingWheel) × (insert small memory ent 105 125 wheel ≡ ok w1)
    × (reap small 124 w1 ≡ ok w2)
    × (r s : ℕ) × (w2.ready_queue ≡ ([] ++ released r (λ k. [])) ++ released s (later r (λ k. [])))
never_early_example =
    never_early small memory 110 105 125 124 (λ k. []) ent wheel wheel-Shows (omega arith)
      (omega arith) (omega arith) (omega arith) (omega arith) (omega arith) (omega arith)

sent_within_width_example :
    (w1 w2 : TimingWheel) × (insert small memory ent 105 125 wheel ≡ ok w1)
    × (reap small 140 w1 ≡ ok w2)
    × (pre post : List WheelEnt) × (w2.ready_queue ≡ pre ++ (ent ∷ post))
sent_within_width_example =
    sent_within_width small memory 110 105 125 140 (λ k. []) ent wheel wheel-Shows (omega arith)
      (omega arith) (omega arith) (omega arith) (omega arith) (omega arith) (omega arith)
      (omega arith)

-- A fifth entry in one slot takes a bucket from the pool, and the pass gives it back.
abbrev five : List WheelEnt
five = replicate 5 ent

fifth_takes_bucket :
    insert small memory ent 105 125 (record wheel {
      wheel =
          slot_at_100 0 []
          ∷ slot_at_100 1 []
          ∷ slot_at_100 2 (replicate 4 ent)
          ∷ slot_at_100 3 []
          ∷ [];
    })
    ≡ ok (record wheel {
      wheel =
          slot_at_100 0 []
          ∷ slot_at_100 1 []
          ∷ record (slot_at_100 2 []) {
            chain =
                record { addr = 4224; entries = five } ∷ record { addr = 9000; entries = [] } ∷ [];
          }
          ∷ slot_at_100 3 []
          ∷ [];
      bkt_pool = pool_of [];
    })
unfolding insert reap reap_loop reap_round dst_wslot insert_into_wslot alloc
fifth_takes_bucket = refl
