-- ===== src/Wheel/Fresh.antt =====
-- The constructor leaves a wheel in order.
use native.Mathlib.Nat.{mul-le-mul_right}
use sc_code.Common.{
  bind-returns, ℕ, zero, suc, ◌+◌, ◌*◌, ◌^◌, ◌≤◌, ◌<◌, ◌≡◌, ◌∙◌, refl, ap, some, none, Option, [],
  length, ok, Outcome, arith,
}
use sc_code.Alloc.{HugeAlloc, alloc_raw}
use sc_code.Wheel.{
  TimingWheel, WheelArgs, ents, bkt_size, new_wslots, wheel_at, new_wheel, wheel_at,
}
use sc_code.Wheel.Order.{ahead, Slot, Shows, Slot-cast}

module _ (args : WheelArgs) where
  length-new_wslots : (base p i n : ℕ) → length (new_wslots args base p i n) ≡ n
  unfolding new_wslots
  length-new_wslots base p i zero = refl
  length-new_wslots base p i (suc n) = ap suc (length-new_wslots base p (i + 1) n)

  next : (i n : ℕ) → i + 1 + n ≡ i + suc n
  next i n = omega arith

  new_wslots-Slot :
      (base p i n k : ℕ)
      → k < n
      → base + (i + n) * args.wslot_width_tsc < 2 ^ 61
      → Slot (new_wslots args base p i n) k (base + (i + k + 1) * args.wslot_width_tsc) []
  unfolding new_wslots ents
  new_wslots-Slot base p i zero k h l = absurd (omega arith)
  new_wslots-Slot base p i (suc n) zero h l = record {
    slot = _;
    there = refl;
    time =
        let zero_add : i + 0 + 1 ≡ i + 1 = omega arith in
        let bound : (i + 1) * args.wslot_width_tsc ≤ (i + suc n) * args.wslot_width_tsc =
          mul-le-mul_right args.wslot_width_tsc (omega arith) in
        rw zero_add (omega (arith, bound));
    packed = omega arith;
    holds = refl;
  }
  new_wslots-Slot base p i (suc n) (suc k) h l =
      let v = new_wslots-Slot base p (i + 1) n k (omega arith) (rw (next i n) l) in
      record {
        slot = v.slot;
        there = v.there;
        time = v.time ∙ ap (λ (m : ℕ). base + m * args.wslot_width_tsc) (omega arith);
        packed = v.packed;
        holds = v.holds;
      }

  Shows-fresh :
      (base p : ℕ) (w : TimingWheel)
      → w.wheel ≡ new_wslots args base p 0 args.num_wslots
      → w.cur_wslot ≡ 0
      → 0 < args.num_wslots
      → 0 < args.wslot_width_tsc
      → base + args.num_wslots * args.wslot_width_tsc < 2 ^ 61
      → Shows args (base + args.wslot_width_tsc) (λ k. []) w
  Shows-fresh base p w e z some_slots wide fits = record {
    size = ap length e ∙ length-new_wslots base p 0 args.num_wslots;
    current = omega (arith, z);
    wide = wide;
    slots = λ k kn.
        let zero_add : 0 + args.num_wslots ≡ args.num_wslots = omega arith in
        let s = new_wslots-Slot base p 0 args.num_wslots k kn (rw zero_add fits) in
        let grid : (0 + k + 1) * args.wslot_width_tsc
            ≡ args.wslot_width_tsc + k * args.wslot_width_tsc =
          grind arith in
        let at : ahead args.num_wslots w.cur_wslot k ≡ k = rw z (ground arith) in
        rw (e, at) (Slot-cast refl (omega (arith, grid)) s);
    no_more = λ k kn. refl;
  }

  wheel_at-Shows :
      (shm : ℕ → Outcome (Option (ℕ × ℕ))) (base : ℕ) (buf : Option ℕ) (huge : HugeAlloc)
      (w : TimingWheel)
      → wheel_at args shm base buf huge ≡ ok w
      → 0 < args.num_wslots
      → 0 < args.wslot_width_tsc
      → base + args.num_wslots * args.wslot_width_tsc < 2 ^ 61
      → Shows args (base + args.wslot_width_tsc) (λ k. []) w
  unfolding wheel_at
  wheel_at-Shows shm base none huge w made some_slots wide fits = absurd (cc)
  wheel_at-Shows shm base (some p) huge w made some_slots wide fits =
      Shows-fresh base p w (ground arith) (ground arith) some_slots wide fits

  -- A new wheel is in order, with the first slot due one width from now and nothing to send.
  pub new_wheel-Shows :
      (shm : ℕ → Outcome (Option (ℕ × ℕ))) (base : ℕ) (huge : HugeAlloc) (w : TimingWheel)
      → new_wheel args shm base huge ≡ ok w
      → 0 < args.num_wslots
      → 0 < args.wslot_width_tsc
      → base + args.num_wslots * args.wslot_width_tsc < 2 ^ 61
      → Shows args (base + args.wslot_width_tsc) (λ k. []) w
  unfolding new_wheel
  new_wheel-Shows shm base huge w made some_slots wide fits =
      let (b, got, rest) =
        bind-returns (alloc_raw (λ x. x) shm (args.num_wslots * bkt_size) huge) _ made in
      wheel_at-Shows shm base b.0.buf b.1 w rest some_slots wide fits
