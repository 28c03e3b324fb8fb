-- ===== src/Util/FixedQueue.antt =====
-- `FixedQueue` of src/util/fixed_queue.h: a queue of at most `N` elements that drops its oldest.
use sc_code.Common.{
  ℕ, zero, suc, ◌+◌, ◌-◌, ◌≤◌, ◌<◌, ◌≡◌, refl, List, [], ◌∷◌, ◌++◌, ◌==◌, if◌then◌else◌, length,
  snoc, length-snoc, append_nil, append-snoc_left, Outcome, ok, err, runtime_error, bad_access,
  arith, ◌>>=◌, Bool-cases, inl, inr, ltb, ltb→lt, true, false,
}

module _ {ℓ} {T : Type ℓ} where
  -- `std::queue::pop`, on an empty queue too undefined.
  unfoldable pub pop_front : List T → Outcome (List T)
  pop_front [] = err bad_access
  pop_front (t ∷ queue) = ok queue

  unfoldable pub push : ℕ → T → List T → Outcome (List T)
  unfolding pop_front
  push n t queue = do
    room ← if length queue == n then pop_front queue else ok queue
    ok (snoc room t)

  unfoldable pub pop : List T → Outcome (T × List T)
  pop [] = err runtime_error
  pop (t ∷ queue) = ok (t, queue)

  unfoldable pub push_each : ℕ → List T → List T → Outcome (List T)
  unfolding push
  push_each n [] queue = ok queue
  push_each n (t ∷ ts) queue = do queue' ← push n t queue; push_each n ts queue'

  abbrev pub drop : ℕ → List T → List T
  drop zero xs = xs
  drop (suc n) [] = []
  drop (suc n) (x ∷ xs) = drop n xs

module _ {ℓ} {T : Type ℓ} where
  push-room :
      (n : ℕ) (t : T) (queue : List T) → length queue < n → push n t queue ≡ ok (snoc queue t)
  unfolding push
  push-room n t queue h = let e : (length queue == n) ≡ false = ground arith in rw e

  push-full :
      (n : ℕ) (t x : T) (xs : List T) → length (x ∷ xs) ≡ n → push n t (x ∷ xs) ≡ ok (snoc xs t)
  unfolding push pop_front
  push-full n t x xs h = let e : (length (x ∷ xs) == n) ≡ true = ground arith in rw e

  -- Pushing any sequence keeps the last `n` elements in order, and does not abort.
  pub push_each_keeps_last :
      (n : ℕ) (ts queue : List T)
      → 0 < n
      → length queue ≤ n
      → push_each n ts queue ≡ ok (drop (length queue + length ts - n) (queue ++ ts))
  unfolding push_each
  push_each_keeps_last n [] queue h le =
      let e : length queue + 0 - n ≡ 0 = omega arith in rw (e, append_nil queue) refl
  push_each_keeps_last n (t ∷ ts) [] h le =
      let e : 1 + length ts - n ≡ suc (length ts) - n = omega arith in
      let z : 0 + suc (length ts) - n ≡ 1 + length ts - n = omega arith in
      rw (push-room n t [] h, push_each_keeps_last n ts (t ∷ []) h (omega arith), z) refl
  push_each_keeps_last n (t ∷ ts) (x ∷ xs) h le = elim (Bool-cases (ltb (length (x ∷ xs)) n)) [
    | inl room ↦
        let lt = ltb→lt (length (x ∷ xs)) n room in
        let e : length (snoc (x ∷ xs) t) + length ts - n ≡ length (x ∷ xs) + length (t ∷ ts) - n =
          omega (arith, length-snoc (x ∷ xs) t) in
        rw
          (
            push-room n t (x ∷ xs) lt,
            push_each_keeps_last n ts (snoc (x ∷ xs) t) h (omega (arith, length-snoc xs t)),
            e,
            append-snoc_left (x ∷ xs) ts t,
          )
          refl
    | inr full ↦
        let same : length (x ∷ xs) ≡ n = ground arith in
        let e : length (snoc xs t) + length ts - n ≡ length ts =
          omega (arith, length-snoc xs t, same) in
        let e' : length (x ∷ xs) + length (t ∷ ts) - n ≡ suc (length ts) = omega (arith, same) in
        rw
          (
            push-full n t x xs same,
            push_each_keeps_last n ts (snoc xs t) h (omega (arith, length-snoc xs t, same)),
            e,
            e',
            append-snoc_left xs ts t,
          )
          refl
  ]
