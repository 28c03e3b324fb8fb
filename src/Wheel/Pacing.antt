-- ===== src/Wheel/Pacing.antt =====
-- An entry from its insertion to the ready queue.
use native.Mathlib.Nat.{mul-le-mul_right}
use sc_code.Common.{
  ℕ, zero, suc, ◌+◌, ◌-◌, ◌*◌, ◌^◌, ◌≤◌, ◌<◌, ◌≡◌, ◌⊎◌, ◌∙◌, refl, ap, false, true, Option, List,
  ◌∷◌, ◌++◌, leb, ◌==◌, length, snoc, append_assoc, append-snoc_left, Bool-cases, inl, inr, ok,
  Outcome, arith, leb→le,
}
use sc_code.Wheel.{WheelEnt, TimingWheel, WheelArgs, insert, reap}
use sc_code.Wheel.Order.{Agenda, Shows}
use sc_code.Wheel.Reap.{released, later, later_lem, reap_sends}
use sc_code.Wheel.Insert.{add_at, insert_paces}

released-same : (r : ℕ) (f g : Agenda) → ((j : ℕ) → j < r → g j ≡ f j) → released r g ≡ released r f
released-same zero f g h = refl
released-same (suc r) f g h = rw (h 0 (omega arith)) (
    ap (λ es. f 0 ++ es)
      (released-same r (λ k. f (suc k)) (λ k. g (suc k)) (λ j l. h (suc j) (omega arith))))

released-split :
    (k m : ℕ) (f : Agenda) → released (k + m) f ≡ released k f ++ released m (later k f)
released-split zero m f = ap (λ n. released n f) (omega arith)
released-split (suc k) m f =
    let e : suc k + m ≡ suc (k + m) = omega arith in
    rw (e, released-split k m (λ j. f (suc j)), append_assoc) refl

-- What is inserted in a slot that is not sent is not sent.
released-add_after :
    (r k : ℕ) (ent : WheelEnt) (f : Agenda) → r ≤ k → released r (add_at k ent f) ≡ released r f
released-add_after r k ent f h =
    released-same r f (add_at k ent f)
      (λ j l. let other : (j == k) ≡ false = ground arith in rw other refl)

-- What is inserted in a slot that is sent is sent.
released-add_before :
    (r k : ℕ) (ent : WheelEnt) (f : Agenda)
    → k < r
    → (pre post : List WheelEnt) × (released r (add_at k ent f) ≡ pre ++ (ent ∷ post))
released-add_before r k ent f h =
    let g = add_at k ent f in
    let m = r - k - 1 in
    let e : r ≡ k + suc m = omega arith in
    let self : (k == k) ≡ true = ground arith in
    let z : k + 0 ≡ k = omega arith in
    let here : later k g 0 ≡ snoc (f k) ent = later_lem k g 0 ∙ rw (z, self) refl in
    let post = released m (λ j. later k g (suc j)) in
    (
      released k g ++ f k,
      post,
      ap (λ n. released n g) e
          ∙ released-split k (suc m) g
          ∙ rw (here, append-snoc_left (f k) post ent, append_assoc) refl,
    )

-- Slots that start after `t` are not reached by a pass at `t`, and slots that start by then are.
not_reached :
    (b k s width t : ℕ) → t < b + k * width → (s ≡ 0) ⊎ (b + s * width ≤ t + width) → s ≤ k
not_reached b k s width t h (inl z) = omega (arith, z)
not_reached b k s width t h (inr l) = elim (Bool-cases (leb s k)) [
  | inl le ↦ leb→le s k le
  | inr gt ↦
      let more : suc k ≤ s = ground arith in
      let grid : suc k * width ≡ k * width + width = grind arith in
      absurd (omega (arith, mul-le-mul_right width more, grid))
]

reached : (b k s width t : ℕ) → b + k * width ≤ t → t < b + s * width → k < s
reached b k s width t h l = elim (Bool-cases (leb s k)) [
  | inl le ↦ absurd (omega (arith, mul-le-mul_right width (leb→le s k le)))
  | inr gt ↦ ground arith
]

module _ (args : WheelArgs) (shm : ℕ → Outcome (Option (ℕ × ℕ))) where
  -- An entry inserted for a time has not been moved by a pass that comes before this time: the ready queue
  -- holds what it held, and entries that were in the wheel before the insertion.
  pub never_early :
      (base ref desired t : ℕ) (f : Agenda) (ent : WheelEnt) (w : TimingWheel)
      → Shows args base f w
      → base ≤ ref + args.wslot_width_tsc
      → ref ≤ desired
      → desired ≤ ref + args.horizon_tsc
      → args.horizon_tsc ≤ (args.num_wslots - 1) * args.wslot_width_tsc
      → desired + args.wslot_width_tsc * args.num_wslots < 2 ^ 61
      → 0 < length w.bkt_pool.pool
      → t < desired
      → (w1 w2 : TimingWheel) × (insert args shm ent ref desired w ≡ ok w1)
        × (reap args t w1 ≡ ok w2)
        × (r s : ℕ) × (w2.ready_queue ≡ (w.ready_queue ++ released r f) ++ released s (later r f))
  never_early base ref desired t f ent w v recent order near cover fits room before =
      let (w1, inserted, r, k, v1, early, late, ready1) =
        insert_paces args shm base ref desired f ent w v recent order near cover fits room in
      let b1 = base + r * args.wslot_width_tsc in
      let (s, w2, reaped, v2, past, bound, ready2, grown) =
        reap_sends args t b1 (add_at k ent (later r f)) w1 v1 (omega (arith, fits, before)) in
      (
        w1,
        w2,
        inserted,
        reaped,
        r,
        s,
        ready2
            ∙ rw
                (
                  ready1,
                  released-add_after s k ent (later r f) (
                      not_reached b1 k s args.wslot_width_tsc t (omega (arith, before, early))
                        bound),
                )
                refl,
      )

  -- An entry inserted for a time is in the ready queue after any pass that comes at least one slot's width
  -- after this time.
  pub sent_within_width :
      (base ref desired t : ℕ) (f : Agenda) (ent : WheelEnt) (w : TimingWheel)
      → Shows args base f w
      → base ≤ ref + args.wslot_width_tsc
      → ref ≤ desired
      → desired ≤ ref + args.horizon_tsc
      → args.horizon_tsc ≤ (args.num_wslots - 1) * args.wslot_width_tsc
      → desired + args.wslot_width_tsc * args.num_wslots < 2 ^ 61
      → t + args.wslot_width_tsc * args.num_wslots < 2 ^ 61
      → 0 < length w.bkt_pool.pool
      → desired + args.wslot_width_tsc ≤ t
      → (w1 w2 : TimingWheel) × (insert args shm ent ref desired w ≡ ok w1)
        × (reap args t w1 ≡ ok w2)
        × (pre post : List WheelEnt) × (w2.ready_queue ≡ pre ++ (ent ∷ post))
  sent_within_width base ref desired t f ent w v recent order near cover fits fits_t room after =
      let (w1, inserted, r, k, v1, early, late, ready1) =
        insert_paces args shm base ref desired f ent w v recent order near cover fits room in
      let b1 = base + r * args.wslot_width_tsc in
      let (s, w2, reaped, v2, past, bound, ready2, grown) =
        reap_sends args t b1 (add_at k ent (later r f)) w1 v1 fits_t in
      let (pre, post, e) =
        released-add_before s k ent (later r f)
          (reached b1 k s args.wslot_width_tsc t (omega (arith, after, late)) past) in
      (w1, w2, inserted, reaped, w1.ready_queue ++ pre, post, ready2 ∙ rw (e, append_assoc) refl)
