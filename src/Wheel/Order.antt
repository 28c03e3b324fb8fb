-- ===== src/Wheel/Order.antt =====
-- The wheel as an agenda: what is to be sent in each slot of time from now on.
use sc_code.Common.{
  ℕ, ◌+◌, ◌-◌, ◌*◌, ◌≤◌, ◌<◌, ◌≡◌, ◌≢◌, ◌∙◌, sym, ap, some, List, [], leb, if◌then◌else◌, length,
  get_elem?, set, get_elem?-set_ne,
}
use sc_code.Wheel.{WheelEnt, WSlot, TimingWheel, WheelArgs, ents}
use sc_code.Wheel.Chain.{Packed}

-- The slot that is `k` after slot `cur`, for `k` below the number of slots.
abbrev pub ahead : ℕ → ℕ → ℕ → ℕ
ahead n cur k = if leb n (cur + k) then cur + k - n else cur + k

-- An agenda has the entries of the `k`-th slot from now at `k`.
abbrev pub Agenda : Type 0
Agenda = ℕ → List WheelEnt

pub record Slot (wheel : List WSlot) (i tsc : ℕ) (es : List WheelEnt) : Type 0 where
  pub slot : WSlot
  pub there : get_elem? wheel i ≡ some slot
  pub time : slot.tx_tsc ≡ tsc
  pub packed : Packed slot.chain
  pub holds : ents slot.chain ≡ es

-- The wheel is at slot `cur_wslot`, which is due at `base`, each further one a width later.
pub record Shows (args : WheelArgs) (base : ℕ) (f : Agenda) (w : TimingWheel) : Type 0 where
  pub size : length w.wheel ≡ args.num_wslots
  pub current : w.cur_wslot < args.num_wslots
  pub wide : 0 < args.wslot_width_tsc
  pub slots :
      (k : ℕ)
      → k < args.num_wslots
      → Slot w.wheel (ahead args.num_wslots w.cur_wslot k) (base + k * args.wslot_width_tsc) (f k)
  pub no_more : (k : ℕ) → args.num_wslots ≤ k → f k ≡ []

-- A slot other than the one written.
pub Slot-set_ne :
    (wheel : List WSlot) (i j tsc : ℕ) (es : List WheelEnt) (s : WSlot)
    → i ≢ j
    → Slot wheel j tsc es
    → Slot (set wheel i s) j tsc es
Slot-set_ne wheel i j tsc es s n v = record {
  slot = v.slot;
  there = get_elem?-set_ne wheel i j s n ∙ v.there;
  time = v.time;
  packed = v.packed;
  holds = v.holds;
}

-- The same slot under equal descriptions.
pub Slot-cast :
    {wheel : List WSlot} {i j t u : ℕ} {es : List WheelEnt}
    → i ≡ j
    → t ≡ u
    → Slot wheel i t es
    → Slot wheel j u es
Slot-cast {wheel} {i} {j} p q v = record {
  slot = v.slot;
  there = ap (get_elem? wheel) (sym p) ∙ v.there;
  time = v.time ∙ q;
  packed = v.packed;
  holds = v.holds;
}
