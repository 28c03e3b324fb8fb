-- ===== src/Alloc/Growth.antt =====
-- The first request to a new allocator, which has to reserve memory (src/util/huge_alloc.cc).
use sc_code.Common.{
  ℕ, zero, suc, ◌+◌, ◌-◌, ◌*◌, ◌/◌, ◌≤◌, ◌<◌, ◌≡◌, ◌∙◌, refl, ap, true, Option, some, List, [], ◌∷◌,
  ◌++◌, ltb, if◌then◌else◌, max, ◌%◌, ◌^◌, lt→ltb, le→leb, get_elem?, replicate, Outcome, ok, err,
  assert_failed, arith,
}
use sc_code.Alloc.{
  Buffer, HugeAlloc, new_alloc, k_num_classes, k_max_class_size, free_at, carve, split, split_back,
  split_down, serve, next_free, grow, round_up, reserve_hugepages, alloc_raw, alloc, get_class,
}
use sc_code.Alloc.Serve.{free_at-some, next_free-skip}
use sc_code.Alloc.Classes.{BitScan, get_class-fits, exponent_lt}

abbrev no_buffers : ℕ → List (List Buffer)
no_buffers n = replicate n []

get_elem?-replicate : (n i : ℕ) → i < n → get_elem? (no_buffers n) i ≡ some []
get_elem?-replicate zero i h = absurd (omega arith)
get_elem?-replicate (suc n) zero h = refl
get_elem?-replicate (suc n) (suc i) h = get_elem?-replicate n i (omega arith)

next_free-none : (n i : ℕ) → i + n ≤ 18 → next_free i n (no_buffers 18) ≡ i + n
unfolding next_free
next_free-none zero i h = omega arith
next_free-none (suc n) i h =
    next_free-skip n i (no_buffers 18) (get_elem?-replicate 18 i (omega arith))
    ∙ next_free-none n (i + 1) (omega arith)
    ∙ omega arith

-- The new allocator, whose first reservation is twice `p`.
empty : ℕ → HugeAlloc
empty p = record {
  freelist = replicate k_num_classes [];
  prev_allocation_size = p;
  shm_reserved = 0;
  user_alloc_tot = 0;
}

grown : (p base lkey : ℕ) → HugeAlloc
unfolding carve empty
grown p base lkey = record (empty p) {
  freelist = replicate 17 [] ++ (carve base lkey 0 (p * 2 / k_max_class_size) [] ∷ []);
  prev_allocation_size = p * 2;
  shm_reserved = 0 + round_up (p * 2);
}

-- The buffers pushed have the largest size, so the one at the back does.
abbrev Largest : List Buffer → Type 0
Largest l = (b : Buffer) × (rest : List Buffer) × (l ≡ b ∷ rest) × (b.class_size ≡ k_max_class_size)

carve-Largest :
    (base lkey i n : ℕ) (x : Buffer) (l : List Buffer)
    → x.class_size ≡ k_max_class_size
    → Largest (carve base lkey i n (x ∷ l))
unfolding carve
carve-Largest base lkey i zero x l e = (x, l, refl, e)
carve-Largest base lkey i (suc n) x l e = carve-Largest base lkey (i + 1) n _ (x ∷ l) refl

carved-Largest : (base lkey n : ℕ) → 1 ≤ n → Largest (carve base lkey 0 n [])
unfolding carve
carved-Largest base lkey zero h = absurd (omega arith)
carved-Largest base lkey (suc n) h = carve-Largest base lkey 1 n _ [] refl

split_down-fails :
    (n p base lkey : ℕ)
    → k_max_class_size ≤ p
    → split_down (suc n) 17 (grown p base lkey) ≡ err assert_failed
unfolding split_down split free_at split_back grown empty
split_down-fails n p base lkey h =
    let (b, rest, cut, size) = carved-Largest base lkey (p * 2 / k_max_class_size) (omega arith) in
    rw (cut, size) refl

module _ (bsrl : ℕ → ℕ) (shm : ℕ → Outcome (Option (ℕ × ℕ))) where
  grow-grown :
      (p base lkey : ℕ)
      → k_max_class_size ≤ p
      → p < 2 ^ 63
      → shm (round_up (p * 2)) ≡ ok (some (base, lkey))
      → grow bsrl shm (empty p) ≡ ok (true, grown p base lkey)
  unfolding grow reserve_hugepages alloc_raw free_at empty grown
  grow-grown p base lkey low high e =
      let exact : p * 2 % 2 ^ 64 ≡ p * 2 = omega arith in
      rw
        (
          exact,
          le→leb k_max_class_size (p * 2) (omega arith),
          e,
          exact,
          le→leb 1 (p * 2 / k_max_class_size) (omega arith),
        )
        refl

  serve-fails :
      (c n p base lkey : ℕ)
      → k_max_class_size ≤ p
      → 17 - c ≡ suc n
      → serve bsrl shm c 17 (grown p base lkey) ≡ err assert_failed
  unfolding serve
  serve-fails c n p base lkey low e = rw (serve, e, split_down-fails n p base lkey low) refl

  alloc-grows :
      (size c p base lkey : ℕ)
      → k_max_class_size ≤ p
      → p < 2 ^ 63
      → size ≤ k_max_class_size
      → get_class bsrl shm size ≡ ok c
      → c < 18
      → shm (round_up (p * 2)) ≡ ok (some (base, lkey))
      → alloc bsrl shm size (empty p) ≡ serve bsrl shm c 17 (grown p base lkey)
  unfolding alloc empty
  alloc-grows size c p base lkey least most small cls low e =
      let none_free : next_free (c + 1) (18 - (c + 1)) (no_buffers 18) ≡ 18 =
        next_free-none (18 - (c + 1)) (c + 1) (omega arith) ∙ omega arith in
      rw
        (
          alloc,
          le→leb size k_max_class_size small,
          cls,
          lt→ltb c k_num_classes low,
          free_at-some c (empty p) [] (get_elem?-replicate 18 c low),
          none_free,
          grow-grown p base lkey least most e,
        )
        refl

  -- Memory is reserved in buffers of 16 MB, which go to class 17, whose buffers are to have 8 MB. So
  -- the first request for 65 bytes to 4 MB at an allocator built with any initial size below 2^63
  -- fails an assertion of the split, even though the system has given the memory.
  pub alloc_fails_after_growth :
      (initial_size size base lkey : ℕ)
      → BitScan bsrl
      → initial_size < 2 ^ 63
      → 64 < size
      → size ≤ 4194304
      → shm (round_up (max initial_size k_max_class_size * 2)) ≡ ok (some (base, lkey))
      → alloc bsrl shm size (new_alloc initial_size) ≡ err assert_failed
  unfolding new_alloc empty
  alloc_fails_after_growth initial_size size base lkey scan init low high e =
      let c = bsrl ((size - 1) / 64 * 2) in
      let (cls, fits, tight, small) = get_class-fits bsrl shm scan size low (omega arith) in
      let below : c < 17 = exponent_lt 17 c (omega (arith, tight)) in
      let p = max initial_size k_max_class_size in
      let first : (if ltb initial_size k_max_class_size then k_max_class_size else initial_size)
          ≡ p =
        ground arith in
      let new : new_alloc initial_size ≡ empty p = ap (λ x. empty x) first in
      ap (alloc bsrl shm size) new
      ∙ alloc-grows size c p base lkey (omega arith) (omega arith) (omega arith) cls small e
      ∙ serve-fails c (16 - c) p base lkey (omega arith) (omega arith)
