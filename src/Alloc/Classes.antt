-- ===== src/Alloc/Classes.antt =====
-- The size class of a request: `get_class` and `msb_index`.
use native.Mathlib.Nat.{pow-suc, pow-le-pow_right}
use sc_code.Common.{
  ℕ, suc, ◌-◌, ◌*◌, ◌/◌, ◌%◌, ◌^◌, ◌≤◌, ◌<◌, ◌≡◌, refl, ltb, ltb→lt, Bool-cases, inl, inr, lt→ltb,
  le→leb, Outcome, ok, arith, Option,
}
use sc_code.Alloc.{class_max_size, k_num_classes, k_max_class_size, get_class}

-- What the processor documents of `bsr`: the index of the highest bit of a number that is not 0.
abbrev pub BitScan : (ℕ → ℕ) → Type 0
BitScan bsrl = (x : ℕ) → 0 < x → (2 ^ bsrl x ≤ x) × (x < 2 ^ suc (bsrl x))

-- Powers of two are ordered as their exponents.
pub exponent_lt : (n c : ℕ) → 2 ^ c < 2 ^ n → c < n
exponent_lt n c h = elim (Bool-cases (ltb c n)) [
  | inl below ↦ ltb→lt c n below
  | inr above ↦
      absurd (omega (arith, pow-le-pow_right {n = 2} (omega arith) {i = n} {j = c} (ground arith)))
]

module _ (bsrl : ℕ → ℕ) (shm : ℕ → Outcome (Option (ℕ × ℕ))) (scan : BitScan bsrl) where
  -- The class of a size from 65 bytes to 8 MB is the least that holds it.
  pub get_class-fits :
      (size : ℕ)
      → 64 < size
      → size ≤ 8388608
      → let c = bsrl ((size - 1) / 64 * 2) in
        (get_class bsrl shm size ≡ ok c)
        × (size ≤ class_max_size c)
        × (class_max_size c < 2 * size)
        × (c < k_num_classes)
  unfolding get_class
  get_class-fits size low high =
      let x = (size - 1) / 64 in
      let c = bsrl (x * 2) in
      let pos : 0 < x * 2 = omega arith in
      let exact : x * 2 % 2 ^ 32 ≡ x * 2 = omega arith in
      let (below, above) = scan (x * 2) pos in
      let top : x * 2 < 2 ^ c * 2 = omega (arith, above, pow-suc 2 c) in
      (
        rw
            (
              le→leb 1 size (omega arith),
              le→leb size k_max_class_size (omega arith),
              lt→ltb x 1073741823 (omega arith),
              exact,
            )
            refl,
        omega (arith, top),
        omega (arith, below),
        exponent_lt 18 c (omega (arith, below)),
      )
