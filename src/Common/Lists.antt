-- ===== src/Common/Lists.antt =====
-- Lists measured and indexed by native numbers, under the library's names: C arrays and vectors.
use Prim.Native.Nat.{ℕ, zero, suc, ◌+◌, ◌<◌}
use mathlib.Core.Path.{◌≡◌, refl, ap}
use mathlib.Core.Logic.{◌≢◌}
use mathlib.Core.List.{List, [], ◌∷◌, ◌++◌}
use mathlib.Core.Option.{Option, none, some}
use native.Mathlib.Omega.{arith}

module _ {ℓ} {A : Type ℓ} where
  abbrev pub length : List A → ℕ
  length [] = 0
  length (x ∷ xs) = suc (length xs)

  abbrev pub get_elem? : List A → ℕ → Option A
  get_elem? [] i = none
  get_elem? (x ∷ xs) zero = some x
  get_elem? (x ∷ xs) (suc i) = get_elem? xs i

  -- A write out of bounds changes nothing.
  abbrev pub set : List A → ℕ → A → List A
  set [] i v = []
  set (x ∷ xs) zero v = v ∷ xs
  set (x ∷ xs) (suc i) v = x ∷ set xs i v

  abbrev pub replicate : ℕ → A → List A
  replicate zero a = []
  replicate (suc n) a = a ∷ replicate n a

  abbrev pub take : ℕ → List A → List A
  take zero xs = []
  take (suc n) [] = []
  take (suc n) (x ∷ xs) = x ∷ take n xs

  abbrev pub snoc : List A → A → List A
  snoc [] a = a ∷ []
  snoc (x ∷ xs) a = x ∷ snoc xs a

  -- A measure summed over a list.
  abbrev pub count_if : (A → ℕ) → List A → ℕ
  count_if f [] = 0
  count_if f (x ∷ xs) = f x + count_if f xs

module _ {ℓ} {A : Type ℓ} where
  pub length-append : (xs ys : List A) → length (xs ++ ys) ≡ length xs + length ys
  length-append [] ys = omega arith
  length-append (x ∷ xs) ys = omega (arith, length-append xs ys)

  pub length-snoc : (xs : List A) (a : A) → length (snoc xs a) ≡ length xs + 1
  length-snoc [] a = omega arith
  length-snoc (x ∷ xs) a = omega (arith, length-snoc xs a)

  pub length-set : (xs : List A) (i : ℕ) (v : A) → length (set xs i v) ≡ length xs
  length-set [] i v = refl
  length-set (x ∷ xs) zero v = refl
  length-set (x ∷ xs) (suc i) v = ap suc (length-set xs i v)

  pub get_elem?-set_self :
      (xs : List A) (i : ℕ) (v : A) → i < length xs → get_elem? (set xs i v) i ≡ some v
  get_elem?-set_self [] i v h = elim h [ ]
  get_elem?-set_self (x ∷ xs) zero v h = refl
  get_elem?-set_self (x ∷ xs) (suc i) v h = get_elem?-set_self xs i v (omega arith)

  pub get_elem?-set_ne :
      (xs : List A) (i j : ℕ) (v : A) → i ≢ j → get_elem? (set xs i v) j ≡ get_elem? xs j
  get_elem?-set_ne [] i j v h = refl
  get_elem?-set_ne (x ∷ xs) zero zero v h = absurd (h refl)
  get_elem?-set_ne (x ∷ xs) zero (suc j) v h = refl
  get_elem?-set_ne (x ∷ xs) (suc i) zero v h = refl
  get_elem?-set_ne (x ∷ xs) (suc i) (suc j) v h = get_elem?-set_ne xs i j v (λ e. h (ap suc e))

  pub get_elem?_lt : (xs : List A) (i : ℕ) (v : A) → get_elem? xs i ≡ some v → i < length xs
  get_elem?_lt [] i v h = absurd (cc)
  get_elem?_lt (x ∷ xs) zero v h = omega arith
  get_elem?_lt (x ∷ xs) (suc i) v h = omega (arith, get_elem?_lt xs i v h)

  pub get_elem?-snoc_end : (xs : List A) (v : A) → get_elem? (snoc xs v) (length xs) ≡ some v
  get_elem?-snoc_end [] v = refl
  get_elem?-snoc_end (x ∷ xs) v = get_elem?-snoc_end xs v

  pub get_elem?-snoc_lt :
      (xs : List A) (i : ℕ) (v : A) → i < length xs → get_elem? (snoc xs v) i ≡ get_elem? xs i
  get_elem?-snoc_lt [] i v h = elim h [ ]
  get_elem?-snoc_lt (x ∷ xs) zero v h = refl
  get_elem?-snoc_lt (x ∷ xs) (suc i) v h = get_elem?-snoc_lt xs i v (omega arith)

  -- The sum moves by the change of the one entry written.
  pub count_if-set :
      (f : A → ℕ) (xs : List A) (i : ℕ) (u v : A)
      → get_elem? xs i ≡ some u
      → count_if f (set xs i v) + f u ≡ count_if f xs + f v
  count_if-set f [] i u v h = absurd (cc)
  count_if-set f (x ∷ xs) zero u v h = let e : x ≡ u = cc in omega (arith, ap f e)
  count_if-set f (x ∷ xs) (suc i) u v h = omega (arith, count_if-set f xs i u v h)

  pub count_if-append :
      (f : A → ℕ) (xs ys : List A) → count_if f (xs ++ ys) ≡ count_if f xs + count_if f ys
  count_if-append f [] ys = omega arith
  count_if-append f (x ∷ xs) ys = omega (arith, count_if-append f xs ys)

  pub count_if-snoc :
      (f : A → ℕ) (xs : List A) (v : A) → count_if f (snoc xs v) ≡ count_if f xs + f v
  count_if-snoc f [] v = omega arith
  count_if-snoc f (x ∷ xs) v = omega (arith, count_if-snoc f xs v)

  pub append-snoc : (xs ys : List A) (v : A) → xs ++ snoc ys v ≡ snoc (xs ++ ys) v
  append-snoc [] ys v = refl
  append-snoc (x ∷ xs) ys v = ap (◌∷◌ x) (append-snoc xs ys v)

  pub append_nil : (xs : List A) → xs ++ [] ≡ xs
  append_nil [] = refl
  append_nil (x ∷ xs) = ap (◌∷◌ x) (append_nil xs)

  pub append-snoc_left : (xs ys : List A) (v : A) → snoc xs v ++ ys ≡ xs ++ (v ∷ ys)
  append-snoc_left [] ys v = refl
  append-snoc_left (x ∷ xs) ys v = ap (◌∷◌ x) (append-snoc_left xs ys v)

  pub get_elem?-total : (xs : List A) (i : ℕ) → i < length xs → (a : A) × (get_elem? xs i ≡ some a)
  get_elem?-total [] i h = elim h [ ]
  get_elem?-total (x ∷ xs) zero h = (x, refl)
  get_elem?-total (x ∷ xs) (suc i) h = get_elem?-total xs i (omega arith)

  pub set-set : (xs : List A) (i : ℕ) (u v : A) → set (set xs i u) i v ≡ set xs i v
  set-set [] i u v = refl
  set-set (x ∷ xs) zero u v = refl
  set-set (x ∷ xs) (suc i) u v = ap (◌∷◌ x) (set-set xs i u v)

  pub set-snoc_end : (xs : List A) (u v : A) → set (snoc xs u) (length xs) v ≡ snoc xs v
  set-snoc_end [] u v = refl
  set-snoc_end (x ∷ xs) u v = ap (◌∷◌ x) (set-snoc_end xs u v)
