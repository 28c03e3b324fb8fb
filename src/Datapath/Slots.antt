-- ===== src/Datapath/Slots.antt =====
-- The slot discipline of a client session (src/session.h): which slots are free, which hold a
-- request, and what their request numbers are.
pub mod Take
pub mod Start
pub mod Finish
use sc_code.Common.{
  ℕ, zero, suc, ◌+◌, ◌%◌, ◌≤◌, ◌<◌, ◌≡◌, ◌≢◌, ◌∙◌, refl, sym, ap, some, List, [], ◌∷◌,
  if◌then◌else◌, length, length-set, get_elem?, set, get_elem?-set_self, get_elem?_lt, count_if,
  count_if-set, arith,
}
use sc_code.Datapath.{SSlot, session_req_window}
use sc_code.Datapath.Request.{is_null}

-- A slot is busy from its request to the end of the response.
abbrev pub busy : SSlot → ℕ
busy s = if is_null s.tx_msgbuf then 0 else 1

-- Slot `i` is number `i`, and its request numbers are `i` modulo the window.
abbrev pub Numbered : ℕ → List SSlot → Type 0
Numbered n [] = Unit
Numbered n (s ∷ ss) = (s.index ≡ n) × (s.cur_req_num % session_req_window ≡ n) × Numbered (suc n) ss

abbrev pub NotIn : ℕ → List ℕ → Type 0
NotIn i [] = Unit
NotIn i (j ∷ js) = (i ≢ j) × NotIn i js

abbrev pub Distinct : List ℕ → Type 0
Distinct [] = Unit
Distinct (i ∷ free) = NotIn i free × Distinct free

abbrev pub busy_at : List SSlot → ℕ → ℕ
busy_at [] i = 1
busy_at (s ∷ ss) zero = busy s
busy_at (s ∷ ss) (suc i) = busy_at ss i

abbrev pub Idle : List SSlot → List ℕ → Type 0
Idle ss [] = Unit
Idle ss (i ∷ free) = (busy_at ss i ≡ 0) × Idle ss free

pub record SlotsOk (ss : List SSlot) (free : List ℕ) : Type 0 where
  pub size : length ss ≡ session_req_window
  pub numbered : Numbered 0 ss
  pub idle : Idle ss free
  pub distinct : Distinct free
  pub count : count_if busy ss + length free ≡ session_req_window

Numbered-set :
    (n : ℕ) (ss : List SSlot) (i : ℕ) (s s' : SSlot)
    → get_elem? ss i ≡ some s
    → s'.index ≡ s.index
    → s'.cur_req_num % session_req_window ≡ s.cur_req_num % session_req_window
    → Numbered n ss
    → Numbered n (set ss i s')
Numbered-set n [] i s s' e p q h = tt
Numbered-set n (x ∷ ss) zero s s' e p q h =
    let same : x ≡ s = cc in
    (
      p ∙ ap (λ y. y.index) (sym same) ∙ h.0,
      q ∙ ap (λ y. y.cur_req_num % session_req_window) (sym same) ∙ h.1,
      h.2,
    )
Numbered-set n (x ∷ ss) (suc i) s s' e p q h = (h.0, h.1, Numbered-set (suc n) ss i s s' e p q h.2)

busy_at-set_ne :
    (ss : List SSlot) (i j : ℕ) (s : SSlot) → i ≢ j → busy_at (set ss i s) j ≡ busy_at ss j
busy_at-set_ne [] i j s h = refl
busy_at-set_ne (x ∷ ss) zero zero s h = absurd (h refl)
busy_at-set_ne (x ∷ ss) zero (suc j) s h = refl
busy_at-set_ne (x ∷ ss) (suc i) zero s h = refl
busy_at-set_ne (x ∷ ss) (suc i) (suc j) s h = busy_at-set_ne ss i j s (λ e. h (ap suc e))

pub busy_at-get :
    (ss : List SSlot) (i : ℕ) (s : SSlot) → get_elem? ss i ≡ some s → busy_at ss i ≡ busy s
busy_at-get [] i s e = cc
busy_at-get (x ∷ ss) zero s e = let same : x ≡ s = cc in ap busy same
busy_at-get (x ∷ ss) (suc i) s e = busy_at-get ss i s e

Idle-set :
    (ss : List SSlot) (i : ℕ) (s : SSlot) (free : List ℕ)
    → NotIn i free
    → Idle ss free
    → Idle (set ss i s) free
Idle-set ss i s [] n h = tt
Idle-set ss i s (j ∷ free) n h = (busy_at-set_ne ss i j s n.0 ∙ h.0, Idle-set ss i s free n.1 h.1)

-- A busy slot is not among the free ones.
pub NotIn-of_busy :
    (ss : List SSlot) (i : ℕ) (free : List ℕ) → busy_at ss i ≡ 1 → Idle ss free → NotIn i free
NotIn-of_busy ss i [] b h = tt
NotIn-of_busy ss i (j ∷ free) b h =
    (λ e. absurd (omega (arith, ap (busy_at ss) e)), NotIn-of_busy ss i free b h.1)

busy-le_count :
    (ss : List SSlot) (i : ℕ) (s : SSlot) → get_elem? ss i ≡ some s → busy s ≤ count_if busy ss
busy-le_count [] i s e = absurd (cc)
busy-le_count (x ∷ ss) zero s e = let same : x ≡ s = cc in omega (arith, ap busy same)
busy-le_count (x ∷ ss) (suc i) s e = omega (arith, busy-le_count ss i s e)

module _ (ss : List SSlot) (i : ℕ) (s s' : SSlot) (e : get_elem? ss i ≡ some s)
    (p : s'.index ≡ s.index) where
  -- A free slot that takes a request.
  pub SlotsOk-start :
      (free : List ℕ)
      → s'.cur_req_num % session_req_window ≡ s.cur_req_num % session_req_window
      → busy s' ≡ 1
      → SlotsOk ss (i ∷ free)
      → SlotsOk (set ss i s') free
  SlotsOk-start free q b v = record {
    size = length-set ss i s' ∙ v.size;
    numbered = Numbered-set 0 ss i s s' e p q v.numbered;
    idle = Idle-set ss i s' free v.distinct.0 v.idle.1;
    distinct = v.distinct.1;
    count = omega (arith, v.count, v.idle.0, busy_at-get ss i s e, count_if-set busy ss i s s' e);
  }

  -- A busy slot whose request ends.
  pub SlotsOk-finish :
      (free : List ℕ)
      → s'.cur_req_num % session_req_window ≡ s.cur_req_num % session_req_window
      → busy s ≡ 1
      → busy s' ≡ 0
      → SlotsOk ss free
      → SlotsOk (set ss i s') (i ∷ free) × (length free < session_req_window)
  SlotsOk-finish free q b b' v =
      let out = NotIn-of_busy ss i free (busy_at-get ss i s e ∙ b) v.idle in
      let now : get_elem? (set ss i s') i ≡ some s' =
        get_elem?-set_self ss i s' (get_elem?_lt ss i s e) in
      (
        record {
          size = length-set ss i s' ∙ v.size;
          numbered = Numbered-set 0 ss i s s' e p q v.numbered;
          idle = (busy_at-get (set ss i s') i s' now ∙ b', Idle-set ss i s' free out v.idle);
          distinct = (out, v.distinct);
          count = omega (arith, v.count, count_if-set busy ss i s s' e);
        },
        omega (arith, v.count, busy-le_count ss i s e),
      )

pub Numbered-get :
    (n : ℕ) (ss : List SSlot) (i : ℕ) (s : SSlot)
    → get_elem? ss i ≡ some s
    → Numbered n ss
    → (s.index ≡ n + i) × (s.cur_req_num % session_req_window ≡ n + i)
Numbered-get n [] i s e h = absurd (cc)
Numbered-get n (x ∷ ss) zero s e h =
    let same : x ≡ s = cc in
    omega
      (arith, ap (λ y. y.index) same, ap (λ y. y.cur_req_num % session_req_window) same, h.0, h.1)
Numbered-get n (x ∷ ss) (suc i) s e h = omega (arith, Numbered-get (suc n) ss i s e h.2)
