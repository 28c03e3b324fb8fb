-- ===== src/Wheel/Insert.antt =====
-- Insertion: which slot an entry goes to, and that it is sent neither early nor late.
use sc_code.Common.{
  ℕ, ◌+◌, ◌-◌, ◌*◌, ◌/◌, ◌^◌, ◌≤◌, ◌<◌, ◌≡◌, ◌≢◌, ◌⊎◌, ◌∙◌, refl, ap, true, false, some, Option,
  List, [], ◌∷◌, ◌++◌, leb, ◌==◌, if◌then◌else◌, length, length-set, get_elem?, get_elem?-set_self,
  Bool-cases, inl, inr, ok, arith, le→leb, lt→ltb, snoc, Outcome,
}
use native.Mathlib.Nat.{div-lt_iff_lt-mul, lt-div-mul-add, div-mul-le_self}
use sc_code.Datapath.Words.{sub_size_exact}
use sc_code.Util.MemPool.{MemPool, alloc, pop_object}
use sc_code.Wheel.{
  WheelEnt, WSlot, TimingWheel, WheelArgs, ents, put_wslot, new_bkt, bkt_size, insert_into_wslot,
  dst_wslot, insert, reap,
}
use sc_code.Wheel.Chain.{Packed, append_ent-queues, ents-snoc_new, Packed-snoc_new}
use sc_code.Wheel.Order.{ahead, Agenda, Shows, Slot-set_ne}
use sc_code.Wheel.Turn.{wslot_at-some}
use sc_code.Wheel.Reap.{released, later, reap_sends}

-- An agenda with one more entry in its `k`-th slot.
abbrev pub add_at : ℕ → WheelEnt → Agenda → Agenda
add_at k ent f = λ j. if j == k then snoc (f j) ent else f j

alloc-cons :
    (shm : ℕ → Outcome (Option (ℕ × ℕ))) (p : MemPool) (l : List ℕ)
    → p.pool ≡ l
    → 0 < length l
    → (a : ℕ) × (p' : MemPool) × (alloc bkt_size shm p ≡ ok (a, p'))
unfolding alloc pop_object
alloc-cons shm p [] e h = absurd (omega arith)
alloc-cons shm p (a ∷ l) e h = (a, record p { pool = l }, rw e refl)

module _ (args : WheelArgs) where
  -- The slot for a time within the horizon, that is not before it by more than a width.
  dst_wslot_lem :
      (desired cur base : ℕ)
      → cur < args.num_wslots
      → 0 < args.wslot_width_tsc
      → desired < base + (args.num_wslots - 1) * args.wslot_width_tsc
      → (k : ℕ) × (k < args.num_wslots)
        × (dst_wslot args desired cur base ≡ ok (ahead args.num_wslots cur k))
        × (desired ≤ base + k * args.wslot_width_tsc)
        × ((k ≡ 0) ⊎ (base + k * args.wslot_width_tsc ≤ desired + args.wslot_width_tsc))
  unfolding dst_wslot
  dst_wslot_lem desired cur base c w h = elim (Bool-cases (leb desired base)) [
    | inl now ↦ (0, omega arith, rw now (ground arith), ground arith, inl refl)
    | inr future ↦
        let q = (desired - base) / args.wslot_width_tsc in
        let after : base < desired = ground arith in
        let short : q < args.num_wslots - 1 = (div-lt_iff_lt-mul w).1 (omega (arith, h)) in
        let below : q + 1 < args.num_wslots = omega arith in
        let grid : (1 + q) * args.wslot_width_tsc
            ≡ q * args.wslot_width_tsc + args.wslot_width_tsc =
          grind arith in
        (
          1 + q,
          omega (arith, below),
          rw (future, lt→ltb (1 + q) args.num_wslots (omega (arith, below))) (ground arith),
          omega (arith, grid, lt-div-mul-add {a = desired - base} w),
          inr (ground (arith, grid, div-mul-le_self (desired - base) args.wslot_width_tsc)),
        )
  ]

  ahead-inj :
      (cur j k : ℕ)
      → cur < args.num_wslots
      → j < args.num_wslots
      → k < args.num_wslots
      → k ≢ j
      → ahead args.num_wslots cur k ≢ ahead args.num_wslots cur j
  ahead-inj cur j k c p q n e = n (ground arith)

  ahead-lt :
      (cur k : ℕ)
      → cur < args.num_wslots
      → k < args.num_wslots
      → ahead args.num_wslots cur k < args.num_wslots
  ahead-lt cur k c p = ground arith

  -- Putting a slot that holds one entry more.
  Shows-put :
      (base k : ℕ) (f : Agenda) (ent : WheelEnt) (w : TimingWheel) (pool : MemPool) (s : WSlot)
      → Shows args base f w
      → k < args.num_wslots
      → s.tx_tsc ≡ base + k * args.wslot_width_tsc
      → Packed s.chain
      → ents s.chain ≡ snoc (f k) ent
      → Shows args base
          (add_at k ent f)
          (put_wslot (ahead args.num_wslots w.cur_wslot k) s (record w { bkt_pool = pool }))
  Shows-put base k f ent w pool s v kn t packed q =
      let i = ahead args.num_wslots w.cur_wslot k in
      let il : i < length w.wheel = omega (arith, v.size, ahead-lt w.cur_wslot k v.current kn) in
      record {
        size = length-set w.wheel i s ∙ v.size;
        current = v.current;
        wide = v.wide;
        slots = λ j jn. elim (Bool-cases (j == k)) [
          | inl same ↦
              let e : j ≡ k = ground arith in
              rw e (
                let self : (k == k) ≡ true = ground arith in
                rw self (record {
                  slot = s;
                  there = get_elem?-set_self w.wheel i s il;
                  time = t;
                  packed = packed;
                  holds = q;
                }))
          | inr other ↦ rw other (
              Slot-set_ne w.wheel i _ _ _ s
                (ahead-inj w.cur_wslot j k v.current jn kn (λ e. absurd (ground arith)))
                (v.slots j jn))
        ];
        no_more = λ j jn. let other : (j == k) ≡ false = ground arith in rw other (v.no_more j jn);
      }

module _ (args : WheelArgs) (shm : ℕ → Outcome (Option (ℕ × ℕ))) where
  insert_into_wslot-Shows :
      (base k : ℕ) (f : Agenda) (ent : WheelEnt) (w : TimingWheel)
      → Shows args base f w
      → k < args.num_wslots
      → 0 < length w.bkt_pool.pool
      → (w' : TimingWheel) × (insert_into_wslot shm (ahead args.num_wslots w.cur_wslot k) ent w
          ≡ ok w')
        × Shows args base (add_at k ent f) w'
        × (w'.ready_queue ≡ w.ready_queue)
  unfolding insert_into_wslot
  insert_into_wslot-Shows base k f ent w v kn room =
      let i = ahead args.num_wslots w.cur_wslot k in
      let old = v.slots k kn in
      let (bs, full, ran, queue, filled, roomy) = append_ent-queues ent old.slot.chain old.packed in
      let (p, pool, got) = alloc-cons shm w.bkt_pool w.bkt_pool.pool refl room in
      let held = queue ∙ ap (λ es. snoc es ent) old.holds in
      elim (Bool-cases full) [
        | inl yes_full ↦
            let s = record (old.slot) { chain = snoc bs (new_bkt p) } in
            (
              put_wslot i s (record w { bkt_pool = pool }),
              rw (wslot_at-some i w old.slot old.there, ran, yes_full, got) refl,
              Shows-put args base k f ent w pool s v kn old.time
                  (Packed-snoc_new bs p (filled yes_full)) (ents-snoc_new bs p ∙ held),
              refl,
            )
        | inr not_full ↦
            let s = record (old.slot) { chain = bs } in
            (
              put_wslot i s w,
              rw (wslot_at-some i w old.slot old.there, ran, not_full) refl,
              Shows-put args base k f ent w w.bkt_pool s v kn old.time (roomy not_full) held,
              refl,
            )
      ]

  -- The call, where its three assertions hold.
  insert-steps :
      (ref desired dst : ℕ) (ent : WheelEnt) (w w1 w' : TimingWheel) (s : WSlot)
      → ref ≤ desired
      → desired ≤ ref + args.horizon_tsc
      → desired < 2 ^ 64
      → reap args ref w ≡ ok w1
      → get_elem? w1.wheel w1.cur_wslot ≡ some s
      → ref < s.tx_tsc
      → dst_wslot args desired w1.cur_wslot s.tx_tsc ≡ ok dst
      → insert_into_wslot shm dst ent w1 ≡ ok w'
      → insert args shm ent ref desired w ≡ ok w'
  unfolding insert
  insert-steps ref desired dst ent w w1 w' s order near fits reaped there past to ran =
      rw
        (
          le→leb ref desired order,
          sub_size_exact desired ref order fits,
          le→leb (desired - ref) args.horizon_tsc (omega arith),
          reaped,
        )
        (rw (wslot_at-some w1.cur_wslot w1 s there) (rw (lt→ltb ref s.tx_tsc past, to) ran))

  -- An insertion advances the wheel to `ref_tsc`, and puts the entry last in a slot that is due no
  -- earlier than the time wanted and at most one slot's width later. Nothing else moves.
  pub insert_paces :
      (base ref desired : ℕ) (f : Agenda) (ent : WheelEnt) (w : TimingWheel)
      → Shows args base f w
      → base ≤ ref + args.wslot_width_tsc
      → ref ≤ desired
      → desired ≤ ref + args.horizon_tsc
      → args.horizon_tsc ≤ (args.num_wslots - 1) * args.wslot_width_tsc
      → desired + args.wslot_width_tsc * args.num_wslots < 2 ^ 61
      → 0 < length w.bkt_pool.pool
      → (w' : TimingWheel) × (insert args shm ent ref desired w ≡ ok w')
        × (r : ℕ) × (k : ℕ) × Shows args
            (base + r * args.wslot_width_tsc)
            (add_at k ent (later r f))
            w'
        × (desired ≤ base + r * args.wslot_width_tsc + k * args.wslot_width_tsc)
        × (base + r * args.wslot_width_tsc + k * args.wslot_width_tsc
            ≤ desired + args.wslot_width_tsc)
        × (w'.ready_queue ≡ w.ready_queue ++ released r f)
  insert_paces base ref desired f ent w v recent order near cover fits room =
      let (r, w1, reaped, v1, past, bound, ready, grown) =
        reap_sends args ref base f w v (omega (arith, order, fits)) in
      let b1 = base + r * args.wslot_width_tsc in
      let first = v1.slots 0 (omega (arith, v1.current)) in
      let (k, kn, dst, early, late) =
        dst_wslot_lem args desired w1.cur_wslot b1 v1.current v.wide
          (omega (arith, past, near, cover)) in
      let (w', ran, v', same) =
        insert_into_wslot-Shows b1 k (later r f) ent w1 v1 kn (omega (arith, room, grown)) in
      let there : get_elem? w1.wheel w1.cur_wslot ≡ some first.slot =
        ap (get_elem? w1.wheel) (ground (arith, v1.current)) ∙ first.there in
      let on_time : first.slot.tx_tsc ≡ b1 = omega (arith, first.time) in
      let soon : b1 ≤ ref + args.wslot_width_tsc = elim bound [
        | inl z ↦ omega (arith, ap (λ (m : ℕ). m * args.wslot_width_tsc) z, recent)
        | inr b ↦ b
      ] in
      (
        w',
        insert-steps ref desired (ahead args.num_wslots w1.cur_wslot k) ent w w1 w' first.slot order
            near (omega (arith, fits)) reaped there (omega (arith, on_time, past))
            (ap (dst_wslot args desired w1.cur_wslot) on_time ∙ dst) ran,
        r,
        k,
        v',
        early,
        elim late [
          | inl z ↦ omega (arith, ap (λ (m : ℕ). m * args.wslot_width_tsc) z, soon, order)
          | inr l ↦ l
        ],
        same ∙ ready,
      )
