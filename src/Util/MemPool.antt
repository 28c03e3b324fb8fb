-- ===== src/Util/MemPool.antt =====
-- `MemPool` of src/util/mempool.h: fixed-size objects, cut from hugepage memory.
use sc_code.Common.{
  ℕ, zero, suc, ◌+◌, ◌*◌, ◌/◌, ◌%◌, ◌^◌, Option, none, some, List, [], ◌∷◌, Outcome, ok, err,
  bad_access, runtime_error, ◌>>=◌,
}
use sc_code.Alloc.{HugeAlloc, alloc_raw}

-- Objects are addresses; the back of the vector is the head of the list.
pub record MemPool : Type 0 where
  pub num_to_alloc : ℕ
  pub huge_alloc : HugeAlloc
  pub pool : List ℕ

-- Objects `i`, …, `i + n - 1` of a region, pushed in this order.
unfoldable pub push_objects : ℕ → ℕ → ℕ → ℕ → List ℕ → List ℕ
push_objects base size i zero pool = pool
push_objects base size i (suc n) pool = push_objects base size (i + 1) n ((base + size * i) ∷ pool)

-- `size` is `sizeof(T)`.
module _ (size : ℕ) (shm : ℕ → Outcome (Option (ℕ × ℕ))) where
  unfoldable pub new_pool : HugeAlloc → MemPool
  new_pool huge_alloc = record { num_to_alloc = 2097152 / size; huge_alloc = huge_alloc; pool = [] }

  unfoldable pub extend_pool : MemPool → Outcome MemPool
  unfolding push_objects
  extend_pool p = do
    (b, huge_alloc) ← alloc_raw (λ x. x) shm (size * p.num_to_alloc % 2 ^ 64) p.huge_alloc
    elim b.buf [
      | none ↦ err runtime_error
      | some base ↦ ok (record {
        num_to_alloc = p.num_to_alloc * 2 % 2 ^ 64;
        huge_alloc = huge_alloc;
        pool = push_objects base size 0 p.num_to_alloc p.pool;
      })
    ]

  unfoldable pub pop_object : MemPool → Outcome (ℕ × MemPool)
  pop_object p = elim p.pool [ [] ↦ err bad_access | a ∷ rest ↦ ok (a, record p { pool = rest }) ]

  unfoldable pub alloc : MemPool → Outcome (ℕ × MemPool)
  unfolding extend_pool pop_object
  alloc p = elim p.pool [ [] ↦ do p' ← extend_pool p; pop_object p' | a ∷ rest ↦ pop_object p ]

unfoldable pub free : ℕ → MemPool → MemPool
free t p = record p { pool = t ∷ p.pool }
