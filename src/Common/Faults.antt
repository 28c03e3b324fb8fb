-- ===== src/Common/Faults.antt =====
-- What a call does: return, fail an `assert`, or throw.
use mathlib.Core.Path.{◌≡◌, refl}
use mathlib.Core.Bool.{Bool, true, false}

-- `assert(...)` aborts the process in a build with assertions; `throw std::runtime_error(...)`
-- throws; `bad_access` is an array access out of bounds or through a null pointer; `no_return` is a
-- loop that is still running after the rounds that a definition allows it.
pub data Fault : Type 0 where
  assert_failed runtime_error bad_access no_return : Fault

-- The new state and what is returned, or the fault that ends the call.
pub data Outcome {k} (State : Type k) : Type k where
  err : Fault → Outcome State
  ok : State → Outcome State

abbrev pub assert : Bool → Outcome (Unit {0})
assert false = err assert_failed
assert true = ok tt

infixl 5 ◌>>=◌
abbrev pub ◌>>=◌ {k l} : {S : Type k} {T : Type l} → Outcome S → (S → Outcome T) → Outcome T
err fault >>= rest = err fault
ok s >>= rest = rest s

-- For a first part that returns nothing.
infixl 5 ◌>>◌
abbrev pub ◌>>◌ {k} : {T : Type k} → Outcome (Unit {0}) → Outcome T → Outcome T
first >> rest = first >>= λ done. rest

-- Where two parts return, the first does, and the second from there.
pub bind-returns {k l} :
    {S : Type k} {T : Type l} (first : Outcome S) (rest : S → Outcome T) {t : T}
    → (first >>= rest) ≡ ok t
    → (s : S) × (first ≡ ok s) × (rest s ≡ ok t)
bind-returns (err fault) rest h = cc
bind-returns (ok s) rest h = (s, refl, h)

-- An assertion that holds is passed.
pub assert-true {k} :
    {T : Type k} (b : Bool) (rest : Outcome T) → b ≡ true → (assert b >> rest) ≡ rest
assert-true true rest e = refl
assert-true false rest e = absurd (cc)
