-- ===== src/Alloc/Request.antt =====
-- `HugeAlloc::alloc` (src/util/huge_alloc.cc) where some class that is large enough has a free buffer.
use sc_code.Common.{
  ℕ, ◌+◌, ◌-◌, ◌*◌, ◌/◌, ◌^◌, ◌≤◌, ◌<◌, ◌≡◌, ◌≢◌, ◌∙◌, refl, sym, ap, false, Option, some, List, [],
  ◌∷◌, lt→ltb, le→leb, ◌==◌, length, get_elem?, get_elem?-total, get_elem?_lt, count_if-set,
  Bool-cases, inl, inr, ==_iff, Outcome, ok, subst, arith,
}
use sc_code.Datapath.Words.{add_size_exact}
use sc_code.Alloc.{
  Buffer, HugeAlloc, class_max_size, k_num_classes, k_max_class_size, put_at, alloc_from_class,
  split_down, serve, next_free, alloc, get_class,
}
use sc_code.Alloc.Lists.{OfClass, Sized, Sized-get, Sized-set, bytes_of, free_bytes}
use sc_code.Alloc.Serve.{
  free_at-some, Servable, split_down-Servable, FirstFree, next_free-FirstFree,
}
use sc_code.Alloc.Classes.{BitScan, get_class-fits}

-- The buffer handed out from the back of class `c`, and the allocator without it.
handed : ℕ → Buffer → Buffer
handed c b = record b { class_size = class_max_size c }

without : ℕ → List Buffer → HugeAlloc → HugeAlloc
without c r a = record (put_at c r a) { user_alloc_tot = a.user_alloc_tot + class_max_size c }

-- What a request for `size` bytes at class `c` gives, and what it leaves.
pub record Served (size c : ℕ) (a : HugeAlloc) (buffer : Buffer) (a' : HugeAlloc) : Type 0 where
  pub enough : size ≤ buffer.class_size
  pub of_class : buffer.class_size ≡ class_max_size c
  pub sized : Sized 0 a'.freelist
  pub bytes : free_bytes a'.freelist + buffer.class_size ≡ free_bytes a.freelist
  pub user : a'.user_alloc_tot ≡ a.user_alloc_tot + buffer.class_size

alloc_from_class-handed :
    (c : ℕ) (b : Buffer) (r : List Buffer) (a : HugeAlloc)
    → c < k_num_classes
    → get_elem? a.freelist c ≡ some (b ∷ r)
    → a.user_alloc_tot + class_max_size c < 2 ^ 64
    → alloc_from_class c a ≡ ok (handed c b, without c r a)
unfolding alloc_from_class handed without
alloc_from_class-handed c b r a low at h =
    rw
      (
        lt→ltb c k_num_classes low,
        free_at-some c a (b ∷ r) at,
        add_size_exact a.user_alloc_tot (class_max_size c) h,
      )
      refl

handed-Served :
    (size c : ℕ) (b : Buffer) (r : List Buffer) (a : HugeAlloc)
    → size ≤ class_max_size c
    → get_elem? a.freelist c ≡ some (b ∷ r)
    → Sized 0 a.freelist
    → Served size c a (handed c b) (without c r a)
unfolding handed without
handed-Served size c b r a fits at v =
    let own : OfClass c (b ∷ r) =
      subst (λ n. OfClass n (b ∷ r)) (omega arith) (Sized-get 0 a.freelist c (b ∷ r) at v) in
    record {
      enough = fits;
      of_class = refl;
      sized = Sized-set 0 a.freelist c r (subst (λ n. OfClass n r) (omega arith) own.1) v;
      bytes = omega (arith, own.0, count_if-set bytes_of a.freelist c (b ∷ r) r at);
      user = refl;
    }

module _ (bsrl : ℕ → ℕ) (shm : ℕ → Outcome (Option (ℕ × ℕ))) where
  serve-run :
      (c k : ℕ) (a a' : HugeAlloc) (b : Buffer) (r : List Buffer)
      → k < k_num_classes
      → split_down (k - c) k a ≡ ok a'
      → get_elem? a'.freelist c ≡ some (b ∷ r)
      → serve bsrl shm c k a ≡ alloc_from_class c a'
  unfolding serve
  serve-run c k a a' b r high run at =
      rw (serve, lt→ltb k k_num_classes high, run, free_at-some c a' (b ∷ r) at) refl

  serve-Served :
      (size c k : ℕ) (a : HugeAlloc)
      → c ≤ k
      → k < k_num_classes
      → size ≤ class_max_size c
      → a.user_alloc_tot + class_max_size c < 2 ^ 64
      → Servable c (k - c) a
      → (buffer : Buffer) × (a' : HugeAlloc) × (serve bsrl shm c k a ≡ ok (buffer, a'))
        × Served size c a buffer a'
  serve-Served size c k a low high fits user v =
      let (a', run, ready, same, kept) = split_down-Servable (k - c) c a v in
      let back : c + (k - c) ≡ k = omega arith in
      let at : get_elem? a'.freelist c ≡ some (ready.first ∷ ready.others) =
        subst (λ n. get_elem? a'.freelist n ≡ some (ready.first ∷ ready.others)) (omega arith)
          ready.stocked in
      let s = handed-Served size c ready.first ready.others a' fits at ready.sized in
      (
        handed c ready.first,
        without c ready.others a',
        serve-run c k a a' ready.first ready.others high
              (subst (λ n. split_down (k - c) n a ≡ ok a') back run) at
            ∙ alloc_from_class-handed c ready.first ready.others a' (omega arith) at
                (omega (arith, kept)),
        record {
          enough = s.enough;
          of_class = s.of_class;
          sized = s.sized;
          bytes = s.bytes ∙ same;
          user = s.user ∙ ap (λ n. n + (handed c ready.first).class_size) kept;
        },
      )

  -- Class `c` has a free buffer, or the first larger class with one is split down.
  alloc-here :
      (size c : ℕ) (b : Buffer) (r : List Buffer) (a : HugeAlloc)
      → size ≤ k_max_class_size
      → get_class bsrl shm size ≡ ok c
      → c < k_num_classes
      → get_elem? a.freelist c ≡ some (b ∷ r)
      → alloc bsrl shm size a ≡ alloc_from_class c a
  unfolding alloc
  alloc-here size c b r a small cls low at =
      rw
        (
          alloc,
          le→leb size k_max_class_size small,
          cls,
          lt→ltb c k_num_classes low,
          free_at-some c a (b ∷ r) at,
        )
        refl

  alloc-above :
      (size c k : ℕ) (a : HugeAlloc)
      → size ≤ k_max_class_size
      → get_class bsrl shm size ≡ ok c
      → c < k_num_classes
      → get_elem? a.freelist c ≡ some []
      → next_free (c + 1) (k_num_classes - (c + 1)) a.freelist ≡ k
      → (k == k_num_classes) ≡ false
      → alloc bsrl shm size a ≡ serve bsrl shm c k a
  unfolding alloc
  alloc-above size c k a small cls low at next more =
      rw
        (
          alloc,
          le→leb size k_max_class_size small,
          cls,
          lt→ltb c k_num_classes low,
          free_at-some c a [] at,
          next,
          more,
        )
        refl

  -- What `alloc` finds: freelists in order, and a free buffer at class `c` or above.
  pub record Stocked (a : HugeAlloc) (c : ℕ) : Type 0 where
    pub classes : length a.freelist ≡ k_num_classes
    pub sized : Sized 0 a.freelist
    pub user_63 : a.user_alloc_tot < 2 ^ 63
    pub class_i : ℕ
    pub at_least : c ≤ class_i
    pub first : Buffer
    pub others : List Buffer
    pub found : get_elem? a.freelist class_i ≡ some (first ∷ others)

  above-Servable :
      (a : HugeAlloc) (c k : ℕ)
      → Sized 0 a.freelist
      → get_elem? a.freelist c ≡ some []
      → FirstFree a.freelist (c + 1) (k_num_classes - (c + 1)) k
      → Servable c (k - c) a
  above-Servable a c k v at f = record {
    sized = v;
    first = f.first;
    others = f.others;
    stocked =
        subst (λ n. get_elem? a.freelist n ≡ some (f.first ∷ f.others)) (omega (arith, f.low))
          f.found;
    between = λ j low high. elim (Bool-cases (j == c)) [
      | inl same ↦ subst (λ n. get_elem? a.freelist n ≡ some []) (sym ((==_iff j c).0 same)) at
      | inr other ↦ f.before j (ground arith) (omega (arith, f.low))
    ];
  }

  alloc-cases :
      (size c : ℕ) (a : HugeAlloc) (l : List Buffer)
      → get_elem? a.freelist c ≡ some l
      → size ≤ k_max_class_size
      → get_class bsrl shm size ≡ ok c
      → c < k_num_classes
      → size ≤ class_max_size c
      → a.user_alloc_tot + class_max_size c < 2 ^ 64
      → Stocked a c
      → (buffer : Buffer) × (a' : HugeAlloc) × (alloc bsrl shm size a ≡ ok (buffer, a'))
        × Served size c a buffer a'
  alloc-cases size c a (b ∷ r) at small cls low fits user v = (
    handed c b,
    without c r a,
    alloc-here size c b r a small cls low at ∙ alloc_from_class-handed c b r a low at user,
    handed-Served size c b r a fits at v.sized,
  )
  alloc-cases size c a [] at small cls low fits user v =
      let k = next_free (c + 1) (k_num_classes - (c + 1)) a.freelist in
      let other : c ≢ v.class_i =
        λ same. absurd (cc (ap (get_elem? a.freelist) same, at, v.found)) in
      let last : v.class_i < k_num_classes =
        omega (arith, v.classes, get_elem?_lt a.freelist v.class_i _ v.found) in
      let f : FirstFree a.freelist (c + 1) (k_num_classes - (c + 1)) k =
        next_free-FirstFree (k_num_classes - (c + 1)) (c + 1) a.freelist v.class_i v.first v.others
          (omega (arith, v.classes)) (omega (arith, other, v.at_least)) (omega arith) v.found in
      let high : k < k_num_classes = omega (arith, f.high) in
      let (b, a', run, served) =
        serve-Served size c k a (omega (arith, f.low)) high fits user
          (above-Servable a c k v.sized at f) in
      (b, a', alloc-above size c k a small cls low at refl (ground arith) ∙ run, served)

  -- For a size above 64 bytes and up to 8 MB: where its class, the least that holds it, or any above
  -- has a free buffer, and the freelists are in order, `alloc` gives a buffer of exactly that class,
  -- of less than twice the size asked for. Larger buffers are split on the way; every freelist still
  -- holds buffers of its class's size; and the free memory goes down, and the memory with the
  -- user up, by what was given.
  pub alloc_serves :
      (size : ℕ) (a : HugeAlloc)
      → BitScan bsrl
      → 64 < size
      → size ≤ 8388608
      → Stocked a (bsrl ((size - 1) / 64 * 2))
      → let c = bsrl ((size - 1) / 64 * 2) in
        (buffer : Buffer) × (a' : HugeAlloc) × (alloc bsrl shm size a ≡ ok (buffer, a'))
        × Served size c a buffer a'
        × (buffer.class_size < 2 * size)
  alloc_serves size a scan low high v =
      let c = bsrl ((size - 1) / 64 * 2) in
      let (cls, fits, tight, small) = get_class-fits bsrl shm scan size low high in
      let (l, at) = get_elem?-total a.freelist c (omega (arith, v.classes)) in
      let (b, a', run, served) =
        alloc-cases size c a l at (omega arith) cls small fits (omega (arith, v.user_63)) v in
      (b, a', run, served, omega (arith, served.of_class, tight))
