-- ===== src/Util/FixedVector.antt =====
-- `FixedVector` of src/util/fixed_vector.h: an array with the index of its first free element.
use sc_code.Common.{
  ℕ, zero, suc, ◌+◌, ◌-◌, ◌≤◌, ◌<◌, ◌≡◌, ◌∙◌, Option, refl, some, none, List, [], ◌∷◌, ltb, length,
  get_elem?, set, length-set, Outcome, ok, err, bad_access, assert, ◌>>=◌, ◌>>◌, arith, ltb→lt,
  true, assert_failed, get_elem?-total, get_elem?-set_ne, get_elem?-set_self, Bool-cases, inl, inr,
}

module _ {ℓ} {T : Type ℓ} where
  unfoldable pub read : List T → ℕ → Outcome T
  read arr i = elim (get_elem? arr i) [ none ↦ err bad_access | some t ↦ ok t ]

pub record FixedVector {ℓ} (T : Type ℓ) : Type ℓ where
  pub arr : List T
  pub free_index : ℕ

module _ {ℓ} {T : Type ℓ} where
  -- `N` is the length of the array.
  unfoldable pub push_back : T → FixedVector T → Outcome (FixedVector T)
  push_back t v = do
    assert (ltb v.free_index (length v.arr))
    ok (record v { arr = set v.arr v.free_index t; free_index = v.free_index + 1 })

  unfoldable pub pop_back : FixedVector T → Outcome (T × FixedVector T)
  unfolding read
  pop_back v = do
    assert (ltb 0 v.free_index)
    t ← read v.arr (v.free_index - 1)
    ok (t, record v { free_index = v.free_index - 1 })

  unfoldable pub at : ℕ → FixedVector T → Outcome T
  unfolding read
  at i v = do assert (ltb i v.free_index); read v.arr i

-- The calls of one owner: a push, or a pop whose result is kept.
pub data Call {ℓ} (T : Type ℓ) : Type ℓ where
  push_call : T → Call T
  pop_call : Call T

module _ {ℓ} {T : Type ℓ} where
  -- A sequence of calls; the popped elements, latest first.
  unfoldable pub run : List (Call T) → FixedVector T → List T → Outcome (FixedVector T × List T)
  unfolding push_back pop_back
  run [] v popped = ok (v, popped)
  run (push_call t ∷ calls) v popped = do v' ← push_back t v; run calls v' popped
  run (pop_call ∷ calls) v popped = do (t, v') ← pop_back v; run calls v' (t ∷ popped)

  -- The same calls at a stack of bounded depth, which keeps no array.
  unfoldable pub run_stack : ℕ → List (Call T) → List T → List T → Outcome (List T × List T)
  run_stack cap [] stack popped = ok (stack, popped)
  run_stack cap (push_call t ∷ calls) stack popped = do
    assert (ltb (length stack) cap)
    run_stack cap calls (t ∷ stack) popped
  run_stack cap (pop_call ∷ calls) [] popped = err assert_failed
  run_stack cap (pop_call ∷ calls) (t ∷ stack) popped = run_stack cap calls stack (t ∷ popped)

  abbrev pub cons_some : Option T → List T → List T
  cons_some none l = l
  cons_some (some t) l = t ∷ l

  -- The first `n` elements of the array, the last of them on top.
  unfoldable pub stack_of : ℕ → List T → List T
  stack_of zero arr = []
  stack_of (suc n) arr = cons_some (get_elem? arr n) (stack_of n arr)

  pub view : Outcome (FixedVector T × List T) → Outcome (List T × List T)
  view (err fault) = err fault
  view (ok (v, popped)) = ok (stack_of v.free_index v.arr, popped)

  stack_of-set :
      (n m : ℕ) (arr : List T) (t : T) → n ≤ m → stack_of n (set arr m t) ≡ stack_of n arr
  unfolding stack_of
  stack_of-set zero m arr t h = refl
  stack_of-set (suc n) m arr t h =
      rw
        (
          get_elem?-set_ne arr m n t (λ e. absurd (omega (arith, e))),
          stack_of-set n m arr t (omega arith),
        )
        refl

  length-stack_of : (n : ℕ) (arr : List T) → n ≤ length arr → length (stack_of n arr) ≡ n
  unfolding stack_of
  length-stack_of zero arr h = refl
  length-stack_of (suc n) arr h =
      let (t, e) = get_elem?-total arr n h in ground (arith, e, length-stack_of n arr (omega arith))

  stack_of-push :
      (n : ℕ) (arr : List T) (t : T)
      → n < length arr
      → stack_of (n + 1) (set arr n t) ≡ t ∷ stack_of n arr
  unfolding stack_of
  stack_of-push n arr t h =
      let e : n + 1 ≡ suc n = omega arith in
      rw (e) (rw (get_elem?-set_self arr n t h, stack_of-set n n arr t (omega arith)) refl)

  -- Where the vector holds `n + 1` elements, the top of the stack is the last.
  stack_of-pop :
      (n : ℕ) (arr : List T)
      → 0 < n
      → n ≤ length arr
      → (t : T) × (get_elem? arr (n - 1) ≡ some t) × (stack_of n arr ≡ t ∷ stack_of (n - 1) arr)
  unfolding stack_of
  stack_of-pop zero arr p h = absurd (omega arith)
  stack_of-pop (suc n) arr p h =
      let (t, e) = get_elem?-total arr n h in
      let e' : suc n - 1 ≡ n = omega arith in (t, rw e' e, rw (e', e) refl)

  pop_back-some :
      (v : FixedVector T) (t : T)
      → ltb 0 v.free_index ≡ true
      → get_elem? v.arr (v.free_index - 1) ≡ some t
      → pop_back v ≡ ok (t, record v { free_index = v.free_index - 1 })
  unfolding pop_back read
  pop_back-some v t h e = ground arith

  pop_back-none : (v : FixedVector T) → v.free_index ≡ 0 → pop_back v ≡ err assert_failed
  unfolding pop_back
  pop_back-none v z = ground arith

  -- Where the elements lie within the array, every sequence of calls does what it does on a stack of the
  -- array's size: the same elements are popped and left, or the same assertion fails.
  pub run_refines_stack :
      (calls : List (Call T)) (v : FixedVector T) (popped : List T)
      → v.free_index ≤ length v.arr
      → view (run calls v popped)
        ≡ run_stack (length v.arr) calls (stack_of v.free_index v.arr) popped
  unfolding view run_stack run push_back stack_of
  run_refines_stack [] v popped h = refl
  run_refines_stack (push_call t ∷ calls) v popped h =
      let next = record v { arr = set v.arr v.free_index t; free_index = v.free_index + 1 } in
      elim (Bool-cases (ltb v.free_index (length v.arr))) [
        | inl room ↦
            let lt = ltb→lt v.free_index (length v.arr) room in
            let ih =
              run_refines_stack calls next popped
                (omega (arith, length-set v.arr v.free_index t)) in
            rw (length-stack_of v.free_index v.arr h, room)
              (ih
                ∙ rw (length-set v.arr v.free_index t, stack_of-push v.free_index v.arr t lt) refl)
        | inr full ↦ rw (length-stack_of v.free_index v.arr h, full) refl
      ]
  run_refines_stack (pop_call ∷ calls) v popped h = elim (Bool-cases (ltb 0 v.free_index)) [
    | inl some_left ↦
        let (t, e, top) = stack_of-pop v.free_index v.arr (ltb→lt 0 v.free_index some_left) h in
        rw (pop_back-some v t some_left e, top)
          (run_refines_stack calls (record v { free_index = v.free_index - 1 }) (t ∷ popped)
            (omega arith))
    | inr empty ↦ let z : v.free_index ≡ 0 = ground arith in rw (pop_back-none v z) (rw z refl)
  ]
