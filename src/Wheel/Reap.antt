-- ===== src/Wheel/Reap.antt =====
-- Reaping: what a call moves to the ready queue, and when the loop ends.
use sc_code.Common.{
  ℕ, zero, suc, ◌+◌, ◌-◌, ◌*◌, ◌^◌, ◌≤◌, ◌<◌, ◌≡◌, ◌∙◌, refl, sym, ap, true, false, some, List, [],
  ◌∷◌, ◌++◌, leb, ltb, length, length-set, get_elem?, set, get_elem?-set_self, get_elem?_lt,
  append_nil, append_assoc, subst, Bool-cases, inl, inr, ok, arith, ◌⊎◌, ltb→lt, leb→le,
}
use sc_code.Wheel.{
  WheelEnt, WSlot, TimingWheel, WheelArgs, ents, next_wslot, reset_bkt, reap_round, reap_loop, reap,
}
use sc_code.Wheel.Chain.{Packed-cons_of}
use sc_code.Wheel.Order.{ahead, Agenda, Shows, Slot-set_ne, Slot-cast}
use sc_code.Wheel.Turn.{
  wslot_at-some, ents-reset, length-free_chained, turned, reap_round-turned, ahead-next, ahead-ne,
  ahead-last, ahead-zero, next-lt,
}

-- What the first `n` slots of an agenda hold, in order of time.
abbrev pub released : ℕ → Agenda → List WheelEnt
released zero f = []
released (suc n) f = f 0 ++ released n (λ k. f (suc k))

-- What is left after them.
abbrev pub later : ℕ → Agenda → Agenda
later zero f = f
later (suc n) f = later n (λ k. f (suc k))

pub later_lem : (n : ℕ) (f : Agenda) (k : ℕ) → later n f k ≡ f (n + k)
later_lem zero f k = ap f (omega arith)
later_lem (suc n) f k = later_lem n (λ k. f (suc k)) k ∙ ap f (omega arith)

module _ (args : WheelArgs) where
  -- A round sends what is due first, and everything else comes one slot nearer.
  reap_round-Shows :
      (base : ℕ) (f : Agenda) (w : TimingWheel)
      → Shows args base f w
      → base + args.wslot_width_tsc * args.num_wslots < 2 ^ 61
      → (w' : TimingWheel) × (reap_round args w ≡ ok w')
        × Shows args (base + args.wslot_width_tsc) (λ k. f (suc k)) w'
        × (w'.ready_queue ≡ w.ready_queue ++ f 0)
        × (length w.bkt_pool.pool ≤ length w'.bkt_pool.pool)
  reap_round-Shows base f w v h =
      let first = v.slots 0 (omega (arith, v.current)) in
      let there : get_elem? w.wheel w.cur_wslot ≡ some first.slot =
        ap (get_elem? w.wheel) (sym (ahead-zero args w.cur_wslot v.current)) ∙ first.there in
      let on_time : first.slot.tx_tsc ≡ base = omega (arith, first.time) in
      let (b, bs, chain) = Packed-cons_of first.slot.chain first.packed in
      let next_tsc = first.slot.tx_tsc + args.wslot_width_tsc * args.num_wslots in
      let emptied : WSlot = record { tx_tsc = next_tsc; chain = reset_bkt b ∷ [] } in
      (
        turned args first.slot b bs next_tsc w,
        reap_round-turned args w first.slot b bs there chain (omega (arith, on_time)),
        record {
          size = length-set w.wheel w.cur_wslot emptied ∙ v.size;
          current = next-lt args w.cur_wslot v.current;
          wide = v.wide;
          slots = λ k kn. elim (Bool-cases (ltb (k + 1) args.num_wslots)) [
            | inl more ↦
                let lt = ltb→lt (k + 1) args.num_wslots more in
                Slot-cast (sym (ahead-next args w.cur_wslot k v.current lt)) (grind arith) (
                  Slot-set_ne w.wheel w.cur_wslot _ _ _ emptied
                    (ahead-ne args w.cur_wslot k v.current lt) (v.slots (suc k) (omega arith)))
            | inr last ↦
                let kn' : k ≡ args.num_wslots - 1 = ground arith in
                let lap : (k + 1) * args.wslot_width_tsc ≡ args.num_wslots * args.wslot_width_tsc =
                  ap (λ (m : ℕ). m * args.wslot_width_tsc) (omega (arith, kn', kn)) in
                record {
                  slot = emptied;
                  there =
                      ap (get_elem? (set w.wheel w.cur_wslot emptied)) (
                        ap (ahead args.num_wslots (next_wslot args w.cur_wslot)) kn'
                        ∙ ahead-last args w.cur_wslot v.current)
                      ∙ get_elem?-set_self w.wheel w.cur_wslot emptied
                          (get_elem?_lt w.wheel w.cur_wslot first.slot there);
                  time = grind (arith, on_time, lap);
                  packed = omega arith;
                  holds = ents-reset b ∙ sym (v.no_more (suc k) (omega (arith, kn')));
                }
          ];
          no_more = λ k kn. v.no_more (suc k) (omega arith);
        },
        ap (λ es. w.ready_queue ++ es) (ap ents (sym chain) ∙ first.holds),
        length-free_chained bs w.bkt_pool,
      )

  reap_loop-due :
      (n t : ℕ) (w w1 : TimingWheel) (s : WSlot)
      → get_elem? w.wheel w.cur_wslot ≡ some s
      → leb s.tx_tsc t ≡ true
      → reap_round args w ≡ ok w1
      → reap_loop args (suc n) t w ≡ reap_loop args n t w1
  unfolding reap_loop
  reap_loop-due n t w w1 s e b ran = rw (wslot_at-some w.cur_wslot w s e, b, ran) refl

  reap_loop-early :
      (n t : ℕ) (w : TimingWheel) (s : WSlot)
      → get_elem? w.wheel w.cur_wslot ≡ some s
      → leb s.tx_tsc t ≡ false
      → reap_loop args (suc n) t w ≡ ok w
  unfolding reap_loop
  reap_loop-early n t w s e b = rw (wslot_at-some w.cur_wslot w s e, b) refl

  -- The loop, with as many rounds as there are ticks until the current slot is in the future.
  reap_loop_sends :
      (n t base : ℕ) (f : Agenda) (w : TimingWheel)
      → Shows args base f w
      → 0 < n
      → t + 2 ≤ base + n
      → t + args.wslot_width_tsc * args.num_wslots < 2 ^ 61
      → (r : ℕ) × (w' : TimingWheel) × (reap_loop args n t w ≡ ok w')
        × Shows args (base + r * args.wslot_width_tsc) (later r f) w'
        × (t < base + r * args.wslot_width_tsc)
        × ((r ≡ 0) ⊎ (base + r * args.wslot_width_tsc ≤ t + args.wslot_width_tsc))
        × (w'.ready_queue ≡ w.ready_queue ++ released r f)
        × (length w.bkt_pool.pool ≤ length w'.bkt_pool.pool)
  reap_loop_sends zero t base f w v p q h = absurd (omega arith)
  reap_loop_sends (suc n) t base f w v p q h =
      let first = v.slots 0 (omega (arith, v.current)) in
      let there : get_elem? w.wheel w.cur_wslot ≡ some first.slot =
        ap (get_elem? w.wheel) (sym (ahead-zero args w.cur_wslot v.current)) ∙ first.there in
      let on_time : first.slot.tx_tsc ≡ base = omega (arith, first.time) in
      elim (Bool-cases (leb base t)) [
        | inl due ↦
            let (w1, ran, v1, ready, more) =
              reap_round-Shows base f w v (omega (arith, leb→le base t due)) in
            let (r, w', run, v', past, bound, sent, grown) =
              reap_loop_sends n t (base + args.wslot_width_tsc) (λ k. f (suc k)) w1 v1
                (omega (arith, leb→le base t due)) (omega (arith, v.wide)) h in
            let lap : base + args.wslot_width_tsc + r * args.wslot_width_tsc
                ≡ base + suc r * args.wslot_width_tsc =
              grind arith in
            (
              suc r,
              w',
              reap_loop-due n t w w1 first.slot there (ap (λ (m : ℕ). leb m t) on_time ∙ due) ran
                  ∙ run,
              subst (λ (m : ℕ). Shows args m (later (suc r) f) w') lap v',
              omega (arith, lap, past),
              inr (ground (arith, lap, bound, leb→le base t due)),
              sent
                  ∙ ap (λ es. es ++ released r (λ k. f (suc k))) ready
                  ∙ append_assoc w.ready_queue (f 0) (released r (λ k. f (suc k))),
              omega (arith, more, grown),
            )
        | inr early ↦ (
          0,
          w,
          reap_loop-early n t w first.slot there (ap (λ (m : ℕ). leb m t) on_time ∙ early),
          subst (λ (m : ℕ). Shows args m f w) (omega arith) v,
          ground arith,
          inl refl,
          sym (append_nil w.ready_queue),
          omega arith,
        )
      ]

  -- A call of `reap` ends. It moves to the ready queue the entries of exactly the slots that are due, in
  -- order of time, and leaves the others where they are.
  pub reap_sends :
      (t base : ℕ) (f : Agenda) (w : TimingWheel)
      → Shows args base f w
      → t + args.wslot_width_tsc * args.num_wslots < 2 ^ 61
      → (r : ℕ) × (w' : TimingWheel) × (reap args t w ≡ ok w')
        × Shows args (base + r * args.wslot_width_tsc) (later r f) w'
        × (t < base + r * args.wslot_width_tsc)
        × ((r ≡ 0) ⊎ (base + r * args.wslot_width_tsc ≤ t + args.wslot_width_tsc))
        × (w'.ready_queue ≡ w.ready_queue ++ released r f)
        × (length w.bkt_pool.pool ≤ length w'.bkt_pool.pool)
  unfolding reap
  reap_sends t base f w v h = reap_loop_sends (t + 2) t base f w v (omega arith) (omega arith) h
