-- ===== src/Alloc/Lists.antt =====
-- Freelists whose buffers have their class's size, and the memory that they hold.
use native.Mathlib.Nat.{pow-suc}
use sc_code.Common.{
  ℕ, zero, suc, ◌+◌, ◌*◌, ◌≡◌, ◌∙◌, some, List, [], ◌∷◌, get_elem?, set, count_if, arith, subst,
}
use sc_code.Alloc.{Buffer, class_max_size, half, other_half}

-- Every buffer of a list has the size of class `i`.
abbrev pub OfClass : ℕ → List Buffer → Type 0
OfClass i [] = Unit
OfClass i (b ∷ bs) = (b.class_size ≡ class_max_size i) × OfClass i bs

abbrev pub Sized : ℕ → List (List Buffer) → Type 0
Sized i [] = Unit
Sized i (l ∷ ls) = OfClass i l × Sized (suc i) ls

abbrev pub bytes_of : List Buffer → ℕ
bytes_of = count_if λ b. b.class_size

abbrev pub free_bytes : List (List Buffer) → ℕ
free_bytes = count_if bytes_of

pub Sized-get :
    (n : ℕ) (ls : List (List Buffer)) (i : ℕ) (l : List Buffer)
    → get_elem? ls i ≡ some l
    → Sized n ls
    → OfClass (n + i) l
Sized-get n [] i l e h = absurd (cc)
Sized-get n (x ∷ ls) zero l e h =
    let same : x ≡ l = cc in let here : n + 0 ≡ n = omega arith in rw (here, ← same) h.0
Sized-get n (x ∷ ls) (suc i) l e h =
    let shift : n + suc i ≡ suc n + i = omega arith in rw shift (Sized-get (suc n) ls i l e h.1)

pub Sized-set :
    (n : ℕ) (ls : List (List Buffer)) (i : ℕ) (l : List Buffer)
    → OfClass (n + i) l
    → Sized n ls
    → Sized n (set ls i l)
Sized-set n [] i l k h = tt
Sized-set n (x ∷ ls) zero l k h =
    let here : n + 0 ≡ n = omega arith in (subst (λ m. OfClass m l) here k, h.1)
Sized-set n (x ∷ ls) (suc i) l k h =
    let shift : n + suc i ≡ suc n + i = omega arith in
    (h.0, Sized-set (suc n) ls i l (subst (λ m. OfClass m l) shift k) h.1)

pub class_max_size-suc : (i : ℕ) → class_max_size (suc i) ≡ 2 * class_max_size i
class_max_size-suc i = omega (arith, pow-suc 2 i)

-- Two halves of a buffer of class `i + 1` are of class `i`, and hold its memory.
pub halves-OfClass :
    (i : ℕ) (b : Buffer)
    → b.class_size ≡ class_max_size (suc i)
    → OfClass i (other_half b ∷ half b ∷ [])
      × (bytes_of (other_half b ∷ half b ∷ []) ≡ b.class_size)
halves-OfClass i b e =
    let twice : b.class_size ≡ 2 * class_max_size i = e ∙ class_max_size-suc i in
    ((omega (arith, twice), (omega (arith, twice), tt)), omega (arith, twice))
