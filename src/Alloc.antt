-- ===== src/Alloc.antt =====
-- The hugepage allocator of src/util/huge_alloc.h and src/util/huge_alloc.cc: freelists by size
-- class, the split of larger buffers, and the reservation of more memory. Shared memory from the
-- system, and the instruction `bsrl`, are parameters.
pub mod Lists
pub mod Serve
pub mod Classes
pub mod Request
pub mod Growth
mod Tests
use sc_code.Common.{
  ℕ, zero, suc, ◌+◌, ◌-◌, ◌*◌, ◌/◌, ◌%◌, ◌^◌, Bool, true, false, not, ◌&&◌, Option, none, some,
  List, [], ◌∷◌, ltb, leb, ◌==◌, if◌then◌else◌, get_elem?, set, replicate, Outcome, ok, err,
  bad_access, assert_failed, assert, ◌>>=◌, ◌>>◌,
}
use sc_code.Datapath.Words.{add_size, sub_size}

abbrev pub k_min_class_size : ℕ
k_min_class_size = 64

abbrev pub k_max_class_size : ℕ
k_max_class_size = 16777216

abbrev pub k_num_classes : ℕ
k_num_classes = 18

abbrev pub hugepage_size : ℕ
hugepage_size = 2097152

abbrev pub class_max_size : ℕ → ℕ
class_max_size class_i = k_min_class_size * 2 ^ class_i

-- `buf` is an address, none the null pointer.
pub record Buffer : Type 0 where
  pub buf : Option ℕ
  pub class_size : ℕ
  pub lkey : ℕ

-- The back of each freelist is the head of its list.
pub record HugeAlloc : Type 0 where
  pub freelist : List (List Buffer)
  pub prev_allocation_size : ℕ
  pub shm_reserved : ℕ
  pub user_alloc_tot : ℕ

-- The constructor.
unfoldable pub new_alloc : ℕ → HugeAlloc
new_alloc initial_size = record {
  freelist = replicate k_num_classes [];
  prev_allocation_size =
      if ltb initial_size k_max_class_size then k_max_class_size else initial_size;
  shm_reserved = 0;
  user_alloc_tot = 0;
}

unfoldable pub free_at : ℕ → HugeAlloc → Outcome (List Buffer)
free_at i a = elim (get_elem? a.freelist i) [ none ↦ err bad_access | some l ↦ ok l ]

abbrev pub put_at : ℕ → List Buffer → HugeAlloc → HugeAlloc
put_at i l a = record a { freelist = set a.freelist i l }

abbrev pub is_empty : List Buffer → Bool
is_empty [] = true
is_empty (b ∷ bs) = false

-- The end of an address range is an address.
abbrev pub offset : Buffer → ℕ → Option ℕ
offset b n = elim b.buf [ none ↦ none | some p ↦ some (p + n) ]

abbrev pub half : Buffer → Buffer
half b = record b { class_size = b.class_size / 2 }

abbrev pub other_half : Buffer → Buffer
other_half b = record b { buf = offset b (b.class_size / 2); class_size = b.class_size / 2 }

unfoldable pub split_back : ℕ → List Buffer → HugeAlloc → Outcome HugeAlloc
split_back size_class [] a = err bad_access
split_back size_class (buffer ∷ rest) a = do
  assert (buffer.class_size == class_max_size size_class)
  ok (put_at (size_class - 1) (other_half buffer ∷ half buffer ∷ []) (put_at size_class rest a))

unfoldable pub split : ℕ → HugeAlloc → Outcome HugeAlloc
unfolding free_at split_back
split size_class a = do
  assert (leb 1 size_class)
  from ← free_at size_class a
  assert (not (is_empty from))
  to ← free_at (size_class - 1) a
  assert (is_empty to)
  split_back size_class from a

-- `assert(buffer.class_size_ = class_max_size(size_class))` is an assignment.
unfoldable pub alloc_from_class : ℕ → HugeAlloc → Outcome (Buffer × HugeAlloc)
unfolding free_at
alloc_from_class size_class a = do
  assert (ltb size_class k_num_classes)
  l ← free_at size_class a
  elim l [
    | [] ↦ err bad_access
    | b ∷ rest ↦
        let buffer = record b { class_size = class_max_size size_class } in
        ok (
          buffer,
          record (put_at size_class rest a) {
            user_alloc_tot = add_size a.user_alloc_tot buffer.class_size;
          },
        )
  ]

-- `while (next_class != size_class) { split(next_class); next_class--; }`, by the rounds left.
unfoldable pub split_down : ℕ → ℕ → HugeAlloc → Outcome HugeAlloc
unfolding split
split_down zero next_class a = ok a
split_down (suc n) next_class a = do a' ← split next_class a; split_down n (next_class - 1) a'

-- The first class from `i` on with a free buffer, of `n` left; `i + n` where there is none.
unfoldable pub next_free : ℕ → ℕ → List (List Buffer) → ℕ
next_free i zero lists = i
next_free i (suc n) lists =
    let rest = next_free (i + 1) n lists in
    elim (get_elem? lists i) [ none ↦ rest | some l ↦ if is_empty l then rest else i ]

abbrev pub round_up : ℕ → ℕ
round_up size = (size + (hugepage_size - 1)) / hugepage_size * hugepage_size

-- Buffers of the largest size at `base`, `i` of them pushed so far.
unfoldable pub carve : ℕ → ℕ → ℕ → ℕ → List Buffer → List Buffer
carve base lkey i zero l = l
carve base lkey i (suc n) l = carve base lkey (i + 1) n (
    record { buf = some (base + i * k_max_class_size); class_size = k_max_class_size; lkey = lkey }
    ∷ l)

module _ (bsrl : ℕ → ℕ) (shm : ℕ → Outcome (Option (ℕ × ℕ))) where
  -- `msb_index((size - 1) >> k_min_class_bit_shift)`
  unfoldable pub get_class : ℕ → Outcome ℕ
  get_class size = do
    assert (leb 1 size && leb size k_max_class_size)
    let x = (size - 1) / 64
    assert (ltb x 1073741823)
    ok (bsrl (x * 2 % 2 ^ 32))

  -- `shm` answers with an address and its lkey, with nothing where hugepages are exhausted, or throws.
  unfoldable pub alloc_raw : ℕ → HugeAlloc → Outcome (Buffer × HugeAlloc)
  alloc_raw size a = do
    region ← shm (round_up size)
    elim region [
      | none ↦ ok (record { buf = none; class_size = 0; lkey = 0 }, a)
      | some r ↦ ok (
        record { buf = some (r.0); class_size = 2 ^ 64 - 1; lkey = r.1 },
        record a { shm_reserved = a.shm_reserved + round_up size },
      )
    ]

  unfoldable pub reserve_hugepages : ℕ → HugeAlloc → Outcome (Bool × HugeAlloc)
  unfolding alloc_raw free_at carve
  reserve_hugepages size a = do
    assert (leb k_max_class_size size)
    (buffer, a') ← alloc_raw size a
    elim buffer.buf [
      | none ↦ ok (false, a')
      | some base ↦ do
        let num_buffers = size / k_max_class_size
        assert (leb 1 num_buffers)
        l ← free_at (k_num_classes - 1) a'
        ok (true, put_at (k_num_classes - 1) (carve base buffer.lkey 0 num_buffers l) a')
    ]

  -- Where no class has a free buffer.
  unfoldable pub grow : HugeAlloc → Outcome (Bool × HugeAlloc)
  unfolding reserve_hugepages
  grow a = do
    let size = a.prev_allocation_size * 2 % 2 ^ 64
    (success, a') ← reserve_hugepages size (record a { prev_allocation_size = size })
    if success then ok (true, a') else ok (false, record a' { prev_allocation_size = size / 2 })

  unfoldable pub serve : ℕ → ℕ → HugeAlloc → Outcome (Buffer × HugeAlloc)
  unfolding split_down alloc_from_class free_at
  serve size_class next_class a = do
    assert (ltb next_class k_num_classes)
    a' ← split_down (next_class - size_class) next_class a
    l ← free_at size_class a'
    assert (not (is_empty l))
    alloc_from_class size_class a'

  unfoldable pub alloc : ℕ → HugeAlloc → Outcome (Buffer × HugeAlloc)
  alloc size a = do
    assert (leb size k_max_class_size)
    size_class ← get_class size
    assert (ltb size_class k_num_classes)
    l ← free_at size_class a
    if not (is_empty l) then alloc_from_class size_class a else (do
      let next_class = next_free (size_class + 1) (k_num_classes - (size_class + 1)) a.freelist
      if next_class == k_num_classes
          then (do
            (success, a') ← grow a
            if success
                then serve size_class (k_num_classes - 1) a'
                else ok (record { buf = none; class_size = 0; lkey = 0 }, a'))
          else serve size_class next_class a)

  unfoldable pub free_buf : Buffer → HugeAlloc → Outcome HugeAlloc
  unfolding get_class free_at
  free_buf buffer a = elim buffer.buf [
    | none ↦ err assert_failed
    | some p ↦ do
      size_class ← get_class buffer.class_size
      assert (class_max_size size_class == buffer.class_size)
      l ← free_at size_class a
      ok (record (put_at size_class (buffer ∷ l) a) {
        user_alloc_tot = sub_size a.user_alloc_tot buffer.class_size;
      })
  ]
