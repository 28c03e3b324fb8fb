-- ===== src/Alloc/Serve.antt =====
-- Splitting down to a class and taking a buffer from it.
use sc_code.Common.{
  ℕ, zero, suc, ◌+◌, ◌-◌, ◌≤◌, ◌<◌, ◌≡◌, ◌∙◌, refl, sym, ap, true, some, List, [], ◌∷◌, le→leb,
  ◌==◌, length, length-set, get_elem?, get_elem?-set_self, get_elem?-set_ne, Bool-cases, ==_iff,
  inl, inr, get_elem?_lt, get_elem?-total, ◌≢◌, set, count_if-set, ok, subst, arith,
}
use sc_code.Alloc.{
  Buffer, HugeAlloc, class_max_size, free_at, put_at, half, other_half, split, split_back,
  split_down, next_free,
}
use sc_code.Alloc.Lists.{OfClass, Sized, Sized-get, Sized-set, bytes_of, free_bytes, halves-OfClass}

pub free_at-some :
    (i : ℕ) (a : HugeAlloc) (l : List Buffer) → get_elem? a.freelist i ≡ some l → free_at i a ≡ ok l
unfolding free_at
free_at-some i a l e = rw (free_at, e) refl

-- The allocator after a split.
halved : ℕ → Buffer → List Buffer → HugeAlloc → HugeAlloc
halved j b rest a = put_at j (other_half b ∷ half b ∷ []) (put_at (suc j) rest a)

split-halved :
    (j : ℕ) (b : Buffer) (rest : List Buffer) (a : HugeAlloc)
    → get_elem? a.freelist (suc j) ≡ some (b ∷ rest)
    → get_elem? a.freelist j ≡ some []
    → b.class_size ≡ class_max_size (suc j)
    → split (suc j) a ≡ ok (halved j b rest a)
unfolding split split_back halved
split-halved j b rest a from to size =
    let sized : (b.class_size == class_max_size (suc j)) ≡ true = ground arith in
    let low : suc j - 1 ≡ j = omega arith in
    rw
      (
        le→leb 1 (suc j) (omega arith),
        free_at-some (suc j) a (b ∷ rest) from,
        low,
        free_at-some j a [] to,
        sized,
      )
      refl

-- A class that can be served from class `i + n`: those between are empty.
pub record Servable (i n : ℕ) (a : HugeAlloc) : Type 0 where
  pub sized : Sized 0 a.freelist
  pub first : Buffer
  pub others : List Buffer
  pub stocked : get_elem? a.freelist (i + n) ≡ some (first ∷ others)
  pub between : (j : ℕ) → i ≤ j → j < i + n → get_elem? a.freelist j ≡ some []

halved-Servable :
    (i m : ℕ) (a : HugeAlloc) (v : Servable i (suc m) a)
    → Servable i m (halved (i + m) v.first v.others a)
unfolding halved
halved-Servable i m a v =
    let fl = a.freelist in
    let j = i + m in
    let at : get_elem? fl (suc j) ≡ some (v.first ∷ v.others) =
      subst (λ n. get_elem? fl n ≡ some (v.first ∷ v.others)) (omega arith) v.stocked in
    let upper = set fl (suc j) v.others in
    let own : OfClass (suc j) (v.first ∷ v.others) =
      subst (λ n. OfClass n (v.first ∷ v.others)) (omega arith)
        (Sized-get 0 fl (suc j) _ at v.sized) in
    let halves = (halves-OfClass j v.first own.0).0 in
    let room : j < length upper =
      omega (arith, length-set fl (suc j) v.others, get_elem?_lt fl (suc j) _ at) in
    record {
      sized =
          Sized-set 0 upper j _
            (subst (λ n. OfClass n (other_half v.first ∷ half v.first ∷ [])) (omega arith) halves)
            (Sized-set 0 fl (suc j) v.others (subst (λ n. OfClass n v.others) (omega arith) own.1)
              v.sized);
      first = other_half v.first;
      others = half v.first ∷ [];
      stocked = get_elem?-set_self upper j _ room;
      between = λ k low high.
          get_elem?-set_ne upper j k _ (λ e. absurd (omega arith))
          ∙ get_elem?-set_ne fl (suc j) k _ (λ e. absurd (omega arith))
          ∙ v.between k low (omega arith);
    }

halved-free_bytes :
    (i m : ℕ) (a : HugeAlloc) (v : Servable i (suc m) a)
    → free_bytes ((halved (i + m) v.first v.others a).freelist) ≡ free_bytes a.freelist
unfolding halved
halved-free_bytes i m a v =
    let fl = a.freelist in
    let j = i + m in
    let at : get_elem? fl (suc j) ≡ some (v.first ∷ v.others) =
      subst (λ n. get_elem? fl n ≡ some (v.first ∷ v.others)) (omega arith) v.stocked in
    let upper = set fl (suc j) v.others in
    let own : OfClass (suc j) (v.first ∷ v.others) =
      subst (λ n. OfClass n (v.first ∷ v.others)) (omega arith)
        (Sized-get 0 fl (suc j) _ at v.sized) in
    let empty : get_elem? upper j ≡ some [] =
      get_elem?-set_ne fl (suc j) j _ (λ e. absurd (omega arith))
      ∙ v.between j (omega arith) (omega arith) in
    omega (
      arith,
      (halves-OfClass j v.first own.0).1,
      count_if-set bytes_of fl (suc j) (v.first ∷ v.others) v.others at,
      count_if-set bytes_of upper j [] (other_half v.first ∷ half v.first ∷ []) empty,
    )

split_down-next :
    (k j m : ℕ) (a b a' : HugeAlloc)
    → k ≡ suc j
    → split (suc j) a ≡ ok b
    → split_down m j b ≡ ok a'
    → split_down (suc m) k a ≡ ok a'
unfolding split_down
split_down-next k j m a b a' same e f = let low : suc j - 1 ≡ j = omega arith in rw (same, e, low) f

pub split_down-Servable :
    (n i : ℕ) (a : HugeAlloc)
    → Servable i n a
    → (a' : HugeAlloc) × (split_down n (i + n) a ≡ ok a')
      × Servable i 0 a'
      × (free_bytes a'.freelist ≡ free_bytes a.freelist)
      × (a'.user_alloc_tot ≡ a.user_alloc_tot)
unfolding split_down halved
split_down-Servable zero i a v = (a, refl, v, refl, refl)
split_down-Servable (suc m) i a v =
    let j = i + m in
    let at : get_elem? a.freelist (suc j) ≡ some (v.first ∷ v.others) =
      subst (λ n. get_elem? a.freelist n ≡ some (v.first ∷ v.others)) (omega arith) v.stocked in
    let own : OfClass (suc j) (v.first ∷ v.others) =
      subst (λ n. OfClass n (v.first ∷ v.others)) (omega arith)
        (Sized-get 0 a.freelist (suc j) _ at v.sized) in
    let one = halved j v.first v.others a in
    let (a', run, ready, bytes, user) = split_down-Servable m i one (halved-Servable i m a v) in
    (
      a',
      split_down-next (i + suc m) j m a one a' (omega arith)
          (split-halved j v.first v.others a at (v.between j (omega arith) (omega arith)) own.0)
          run,
      ready,
      bytes ∙ halved-free_bytes i m a v,
      user,
    )

-- `k` is the first class from `i` on, of `n`, with a free buffer.
pub record FirstFree (ls : List (List Buffer)) (i n k : ℕ) : Type 0 where
  pub first : Buffer
  pub others : List Buffer
  pub found : get_elem? ls k ≡ some (first ∷ others)
  pub low : i ≤ k
  pub high : k < i + n
  pub before : (m : ℕ) → i ≤ m → m < k → get_elem? ls m ≡ some []

next_free-here :
    (n i : ℕ) (ls : List (List Buffer)) (b : Buffer) (r : List Buffer)
    → get_elem? ls i ≡ some (b ∷ r)
    → next_free i (suc n) ls ≡ i
unfolding next_free
next_free-here n i ls b r e = rw (next_free, e) refl

pub next_free-skip :
    (n i : ℕ) (ls : List (List Buffer))
    → get_elem? ls i ≡ some []
    → next_free i (suc n) ls ≡ next_free (i + 1) n ls
unfolding next_free
next_free-skip n i ls e = rw (next_free, e) refl

skip-FirstFree :
    (ls : List (List Buffer)) (i n k : ℕ)
    → get_elem? ls i ≡ some []
    → FirstFree ls (i + 1) n k
    → FirstFree ls i (suc n) k
skip-FirstFree ls i n k e v = record {
  first = v.first;
  others = v.others;
  found = v.found;
  low = omega (arith, v.low);
  high = omega (arith, v.high);
  before = λ m low high. elim (Bool-cases (m == i)) [
    | inl same ↦ subst (λ x. get_elem? ls x ≡ some []) (sym ((==_iff m i).0 same)) e
    | inr other ↦ v.before m (ground arith) high
  ];
}

-- One round, by what class `i` holds.
round-FirstFree :
    (n i : ℕ) (ls : List (List Buffer)) (l : List Buffer)
    → get_elem? ls i ≡ some l
    → (l ≡ [] → FirstFree ls (i + 1) n (next_free (i + 1) n ls))
    → FirstFree ls i (suc n) (next_free i (suc n) ls)
round-FirstFree n i ls [] at rest =
    subst (FirstFree ls i (suc n)) (sym (next_free-skip n i ls at))
      (skip-FirstFree ls i n _ at (rest refl))
round-FirstFree n i ls (c ∷ t) at rest =
    subst (FirstFree ls i (suc n)) (sym (next_free-here n i ls c t at)) (record {
      first = c;
      others = t;
      found = at;
      low = omega arith;
      high = omega arith;
      before = λ m lo hi. absurd (omega arith);
    })

pub next_free-FirstFree :
    (n i : ℕ) (ls : List (List Buffer)) (j : ℕ) (b : Buffer) (r : List Buffer)
    → i + n ≤ length ls
    → i ≤ j
    → j < i + n
    → get_elem? ls j ≡ some (b ∷ r)
    → FirstFree ls i n (next_free i n ls)
next_free-FirstFree zero i ls j b r h low high e = absurd (omega arith)
next_free-FirstFree (suc n) i ls j b r h low high e =
    let (l, at) = get_elem?-total ls i (omega arith) in
    round-FirstFree n i ls l at (λ empty.
      let other : i ≢ j = λ same. absurd (cc (ap (get_elem? ls) same, e, at, empty)) in
      next_free-FirstFree n (i + 1) ls j b r (omega arith) (omega (arith, other)) (omega arith) e)
