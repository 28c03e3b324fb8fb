-- ===== src/Alloc/Tests.antt =====
-- The allocator at concrete freelists, with a bit scan by division.
use native.Mathlib.Nat.{pow-suc}
use sc_code.Common.{
  ℕ, zero, suc, ◌/◌, ◌^◌, ◌≤◌, ◌<◌, ◌≡◌, refl, Option, none, some, [], ◌∷◌, ltb, if◌then◌else◌,
  replicate, Outcome, ok, err, assert_failed, arith, Bool-cases, inl, inr, ltb→lt,
}
use sc_code.Alloc.{Buffer, HugeAlloc, new_alloc, alloc}
use sc_code.Alloc.Classes.{BitScan}
use sc_code.Alloc.Request.{Stocked, Served, alloc_serves}
use sc_code.Alloc.Growth.{alloc_fails_after_growth}

scan_loop : ℕ → ℕ → ℕ
scan_loop zero x = 0
scan_loop (suc n) x = let rest = scan_loop n (x / 2) in if ltb x 2 then 0 else suc rest

bit_scan : ℕ → ℕ
bit_scan x = scan_loop x x

scan_loop-exact :
    (n x : ℕ) → x ≤ n → 0 < x → (2 ^ scan_loop n x ≤ x) × (x < 2 ^ suc (scan_loop n x))
unfolding scan_loop
scan_loop-exact zero x h p = absurd (omega arith)
scan_loop-exact (suc n) x h p = elim (Bool-cases (ltb x 2)) [
  | inl small ↦ rw small (omega (arith, ltb→lt x 2 small), omega (arith, ltb→lt x 2 small))
  | inr large ↦
      let two_up : 2 ≤ x = ground arith in
      let half = scan_loop-exact n (x / 2) (omega arith) (omega arith) in
      let r = scan_loop n (x / 2) in
      rw large
        (omega (arith, half.0, pow-suc 2 r), omega (arith, half.1, pow-suc 2 r, pow-suc 2 (suc r)))
]

bit_scan-BitScan : BitScan bit_scan
unfolding bit_scan
bit_scan-BitScan x p = scan_loop-exact x x (omega arith) p

-- One free buffer, of 512 bytes.
abbrev stock : HugeAlloc
stock = record {
  freelist =
      []
      ∷ []
      ∷ []
      ∷ (record { buf = some 4096; class_size = 512; lkey = 7 } ∷ [])
      ∷ replicate 14 [];
  prev_allocation_size = 16777216;
  shm_reserved = 2097152;
  user_alloc_tot = 0;
}

abbrev no_shm : ℕ → Outcome (Option (ℕ × ℕ))
no_shm size = ok none

abbrev shm : ℕ → Outcome (Option (ℕ × ℕ))
shm size = ok (some (4096, 7))

stock-Stocked : Stocked bit_scan no_shm stock (bit_scan 2)
unfolding bit_scan scan_loop
stock-Stocked = record {
  classes = refl;
  sized = ground arith;
  user_63 = omega arith;
  class_i = 3;
  at_least = omega arith;
  first = record { buf = some 4096; class_size = 512; lkey = 7 };
  others = [];
  found = refl;
}

alloc_serves_example :
    (buffer : Buffer) × (a' : HugeAlloc) × (alloc bit_scan no_shm 100 stock ≡ ok (buffer, a'))
    × Served 100 1 stock buffer a'
    × (buffer.class_size < 200)
unfolding bit_scan scan_loop
alloc_serves_example =
    alloc_serves bit_scan no_shm 100 stock bit_scan-BitScan (omega arith) (omega arith)
      stock-Stocked

alloc_fails_after_growth_example : alloc bit_scan shm 4096 (new_alloc 209715200) ≡ err assert_failed
alloc_fails_after_growth_example =
    alloc_fails_after_growth bit_scan shm 209715200 4096 4096 7 bit_scan-BitScan (omega arith)
      (omega arith) (omega arith) refl
