-- ===== src/Wheel.antt =====
-- The timing wheel of src/cc/timing_wheel.h that paces transmissions. A wheel slot is a chain of
-- buckets: the head of the list is the bucket in the wheel's array, the others come from the pool, and
-- `last_` is the end of the list. The record of actions is kept in profiling builds alone.
pub mod Chain
pub mod Order
pub mod Turn
pub mod Reap
pub mod Insert
pub mod Pacing
pub mod Fresh
mod Tests
use sc_code.Common.{
  ℕ, zero, suc, ◌+◌, ◌*◌, ◌/◌, ◌%◌, ◌^◌, Bool, Option, none, some, List, [], ◌∷◌, ◌++◌, ltb, leb,
  ◌==◌, ◌-◌, if◌then◌else◌, length, get_elem?, set, snoc, Outcome, ok, err, bad_access, no_return,
  runtime_error, assert, ◌>>=◌, ◌>>◌,
}
use sc_code.Datapath.Words.{sub_size}
use sc_code.Alloc.{HugeAlloc, alloc_raw}
use sc_code.Util.MemPool.{MemPool, new_pool, alloc, free}

abbrev pub wheel_bucket_cap : ℕ
wheel_bucket_cap = 5

-- `sizeof(wheel_bkt_t)`
abbrev pub bkt_size : ℕ
bkt_size = 64

pub record WheelEnt : Type 0 where
  pub sslot : ℕ
  pub pkt_num : ℕ

-- The constructor, with its bit fields.
unfoldable pub new_ent : ℕ → ℕ → WheelEnt
new_ent sslot pkt_num = record { sslot = sslot % 2 ^ 48; pkt_num = pkt_num % 2 ^ 16 }

-- The valid entries of a bucket, which are `num_entries_` many.
pub record Bucket : Type 0 where
  pub addr : ℕ
  pub entries : List WheelEnt

pub record WSlot : Type 0 where
  pub tx_tsc : ℕ
  pub chain : List Bucket

pub record TimingWheel : Type 0 where
  pub wheel : List WSlot
  pub cur_wslot : ℕ
  pub bkt_pool : MemPool
  pub ready_queue : List WheelEnt

-- What the constructor fixes, in ticks: `kWheelNumWslots`, the width of a slot and the horizon, which
-- are computed from floating-point constants and the clock's frequency.
pub record WheelArgs : Type 0 where
  pub num_wslots : ℕ
  pub wslot_width_tsc : ℕ
  pub horizon_tsc : ℕ

abbrev pub new_bkt : ℕ → Bucket
new_bkt addr = record { addr = addr; entries = [] }

abbrev pub reset_bkt : Bucket → Bucket
reset_bkt b = record b { entries = [] }

unfoldable pub wslot_at : ℕ → TimingWheel → Outcome WSlot
wslot_at ws_i w = elim (get_elem? w.wheel ws_i) [ none ↦ err bad_access | some s ↦ ok s ]

abbrev pub put_wslot : ℕ → WSlot → TimingWheel → TimingWheel
put_wslot ws_i s w = record w { wheel = set w.wheel ws_i s }

-- The entry goes into the last bucket; the flag says that this has filled it.
unfoldable pub append_ent : WheelEnt → List Bucket → Outcome (List Bucket × Bool)
append_ent ent [] = err bad_access
append_ent ent (b ∷ []) = do
  assert (ltb (length b.entries) wheel_bucket_cap)
  ok (record b { entries = snoc b.entries ent } ∷ [], length b.entries + 1 == wheel_bucket_cap)
append_ent ent (b ∷ c ∷ bs) = do (bs', full) ← append_ent ent (c ∷ bs); ok (b ∷ bs', full)

-- The entries of a chain, in order, and its buckets but the first, which go back to the pool.
unfoldable pub ents : List Bucket → List WheelEnt
ents [] = []
ents (b ∷ bs) = b.entries ++ ents bs

unfoldable pub free_chained : List Bucket → MemPool → MemPool
free_chained [] pool = pool
free_chained (b ∷ bs) pool = free_chained bs (free b.addr pool)

unfoldable pub reap_wslot : ℕ → TimingWheel → Outcome TimingWheel
unfolding wslot_at ents free_chained
reap_wslot ws_i w = do
  s ← wslot_at ws_i w
  elim s.chain [
    | [] ↦ err bad_access
    | b ∷ bs ↦ ok (
        put_wslot ws_i (record s { chain = reset_bkt b ∷ [] })
          (record w {
            bkt_pool = free_chained bs w.bkt_pool;
            ready_queue = w.ready_queue ++ ents (b ∷ bs);
          }))
  ]

module _ (shm : ℕ → Outcome (Option (ℕ × ℕ))) where
  unfoldable pub insert_into_wslot : ℕ → WheelEnt → TimingWheel → Outcome TimingWheel
  unfolding wslot_at append_ent
  insert_into_wslot ws_i ent w = do
    s ← wslot_at ws_i w
    (chain, full) ← append_ent ent s.chain
    if full
        then (do
          (p, pool) ← alloc bkt_size shm w.bkt_pool
          ok (
              put_wslot ws_i (record s { chain = snoc chain (new_bkt p) })
                (record w { bkt_pool = pool })))
        else ok (put_wslot ws_i (record s { chain = chain }) w)

module _ (args : WheelArgs) where
  -- The wheel's array at address `p`, from slot `ws_i` on: slot `ws_i` is first due at the end of its time.
  unfoldable pub new_wslots : ℕ → ℕ → ℕ → ℕ → List WSlot
  new_wslots base_tsc p ws_i zero = []
  new_wslots base_tsc p ws_i (suc n) =
      record {
        tx_tsc = (base_tsc + (ws_i + 1) * args.wslot_width_tsc) % 2 ^ 61;
        chain = new_bkt (p + ws_i * bkt_size) ∷ [];
      }
      ∷ new_wslots base_tsc p (ws_i + 1) n

  -- The constructor at time `base_tsc`: first the memory, then what is in it.
  unfoldable pub wheel_at :
      (ℕ → Outcome (Option (ℕ × ℕ))) → ℕ → Option ℕ → HugeAlloc → Outcome TimingWheel
  unfolding new_wslots
  wheel_at shm base_tsc none huge_alloc = err runtime_error
  wheel_at shm base_tsc (some p) huge_alloc = ok (record {
    wheel = new_wslots base_tsc p 0 args.num_wslots;
    cur_wslot = 0;
    bkt_pool = new_pool bkt_size shm huge_alloc;
    ready_queue = [];
  })

  unfoldable pub new_wheel : (ℕ → Outcome (Option (ℕ × ℕ))) → ℕ → HugeAlloc → Outcome TimingWheel
  unfolding wheel_at
  new_wheel shm base_tsc huge_alloc = do
    (b, huge_alloc') ← alloc_raw (λ x. x) shm (args.num_wslots * bkt_size) huge_alloc
    wheel_at shm base_tsc b.buf huge_alloc'

  abbrev pub next_wslot : ℕ → ℕ
  next_wslot cur = if cur + 1 == args.num_wslots then 0 else cur + 1

  -- The body of the loop of `reap`; the time is a bit field of 61 bits.
  unfoldable pub reap_round : TimingWheel → Outcome TimingWheel
  unfolding reap_wslot
  reap_round w = do
    w' ← reap_wslot w.cur_wslot w
    s ← wslot_at w.cur_wslot w'
    let later = (s.tx_tsc + args.wslot_width_tsc * args.num_wslots) % 2 ^ 61
    ok (
        put_wslot w.cur_wslot (record s { tx_tsc = later })
          (record w' { cur_wslot = next_wslot w.cur_wslot }))

  unfoldable pub reap_loop : ℕ → ℕ → TimingWheel → Outcome TimingWheel
  reap_loop zero reap_tsc w = err no_return
  reap_loop (suc n) reap_tsc w = do
    s ← wslot_at w.cur_wslot w
    let rest = reap_round w >>= reap_loop n reap_tsc
    if leb s.tx_tsc reap_tsc then rest else ok w

  -- A round moves the current slot's time on by at least one tick.
  unfoldable pub reap : ℕ → TimingWheel → Outcome TimingWheel
  reap reap_tsc w = reap_loop (reap_tsc + 2) reap_tsc w

  unfoldable pub dst_wslot : ℕ → ℕ → ℕ → Outcome ℕ
  dst_wslot desired_tx_tsc cur cur_tsc = if leb desired_tx_tsc cur_tsc then ok cur else (do
    let wslot_delta = 1 + (desired_tx_tsc - cur_tsc) / args.wslot_width_tsc
    assert (ltb wslot_delta args.num_wslots)
    let dst = cur + wslot_delta
    ok (if leb args.num_wslots dst then dst - args.num_wslots else dst))

module _ (args : WheelArgs) (shm : ℕ → Outcome (Option (ℕ × ℕ))) where
  unfoldable pub insert : WheelEnt → ℕ → ℕ → TimingWheel → Outcome TimingWheel
  insert ent ref_tsc desired_tx_tsc w = do
    assert (leb ref_tsc desired_tx_tsc)
    assert (leb (sub_size desired_tx_tsc ref_tsc) args.horizon_tsc)
    w' ← reap args ref_tsc w
    s ← wslot_at w'.cur_wslot w'
    assert (ltb ref_tsc s.tx_tsc)
    dst ← dst_wslot args desired_tx_tsc w'.cur_wslot s.tx_tsc
    insert_into_wslot shm dst ent w'
