-- ===== src/Sm/Rings.antt =====
-- How the handlers may change the sessions of an Rpc: the life of a session as a state machine,
-- and the balance of ring entries, 32 for each session that is there.
pub mod Leads
pub mod Handlers
pub mod Calls
pub mod Queue
use sc_code.Common.{
  ℕ, zero, suc, ◌+◌, ◌*◌, ◌≤◌, ◌≡◌, refl, ap, true, Option, none, some, List, [], ◌∷◌, length,
  get_elem?, set, snoc, length-set, length-snoc, arith,
}
use sc_code.Datapath.{session_credits}
use sc_code.Sm.{SessionState, SmSession, Rpc, is_client, is_server}
use sc_code.Sm.Helpers.{num_rx_ring_entries}
use sc_code.Sm.Api.{num_active}

-- Every session stands at its own number.
abbrev pub Own : ℕ → List (Option SmSession) → Type 0
Own n [] = Unit
Own n (none ∷ rest) = Own (suc n) rest
Own n (some s ∷ rest) = (s.local_session_num ≡ n) × Own (suc n) rest

pub record RingsOk (c : Rpc) : Type 0 where
  pub own : Own 0 c.session_vec
  pub balance :
      c.ring_entries_available + session_credits * num_active c.session_vec ≡ num_rx_ring_entries

-- The states in which a session may begin, from which it may go on, and in which it may end.
pub data Begins (s : SmSession) : Type 0 where
  as_client : is_client s.role ≡ true → s.state ≡ SessionState.connect_in_progress → Begins s
  as_server : is_server s.role ≡ true → s.state ≡ SessionState.connected → Begins s

pub data Moves : SessionState → SessionState → Type 0 where
  connects : Moves SessionState.connect_in_progress SessionState.connected
  gives_up : Moves SessionState.connect_in_progress SessionState.disconnect_in_progress
  leaves : Moves SessionState.connected SessionState.disconnect_in_progress

pub data Ends (s : SmSession) : Type 0 where
  refused : is_client s.role ≡ true → s.state ≡ SessionState.connect_in_progress → Ends s
  disconnected : is_client s.role ≡ true → s.state ≡ SessionState.disconnect_in_progress → Ends s
  left : is_server s.role ≡ true → s.state ≡ SessionState.connected → Ends s

-- One handler's effect on the sessions and the ring entries. Only a client's session moves.
pub data Change (c c' : Rpc) : Type 0 where
  keeps :
      c'.session_vec ≡ c.session_vec
      → c'.ring_entries_available ≡ c.ring_entries_available
      → Change c c'
  moves :
      (s s' : SmSession)
      → get_elem? c.session_vec s.local_session_num ≡ some (some s)
      → is_client s.role ≡ true
      → Moves s.state s'.state
      → s'.local_session_num ≡ s.local_session_num
      → c'.session_vec ≡ set c.session_vec s.local_session_num (some s')
      → c'.ring_entries_available ≡ c.ring_entries_available
      → Change c c'
  opens :
      (s : SmSession)
      → Begins s
      → s.local_session_num ≡ length c.session_vec
      → c'.session_vec ≡ snoc c.session_vec (some s)
      → c'.ring_entries_available + session_credits ≡ c.ring_entries_available
      → Change c c'
  closes :
      (s : SmSession)
      → get_elem? c.session_vec s.local_session_num ≡ some (some s)
      → Ends s
      → c'.session_vec ≡ set c.session_vec s.local_session_num none
      → c'.ring_entries_available ≡ c.ring_entries_available + session_credits
      → Change c c'

num_active-snoc :
    (v : List (Option SmSession)) (s : SmSession)
    → num_active (snoc v (some s)) ≡ suc (num_active v)
num_active-snoc [] s = refl
num_active-snoc (none ∷ v) s = num_active-snoc v s
num_active-snoc (some x ∷ v) s = ap suc (num_active-snoc v s)

num_active-set-some :
    (v : List (Option SmSession)) (i : ℕ) (s s' : SmSession)
    → get_elem? v i ≡ some (some s)
    → num_active (set v i (some s')) ≡ num_active v
num_active-set-some [] i s s' e = refl
num_active-set-some (none ∷ v) zero s s' e = absurd (cc)
num_active-set-some (some x ∷ v) zero s s' e = refl
num_active-set-some (none ∷ v) (suc i) s s' e = num_active-set-some v i s s' e
num_active-set-some (some x ∷ v) (suc i) s s' e = ap suc (num_active-set-some v i s s' e)

num_active-set-none :
    (v : List (Option SmSession)) (i : ℕ) (s : SmSession)
    → get_elem? v i ≡ some (some s)
    → suc (num_active (set v i none)) ≡ num_active v
num_active-set-none [] i s e = absurd (cc)
num_active-set-none (none ∷ v) zero s e = absurd (cc)
num_active-set-none (some x ∷ v) zero s e = refl
num_active-set-none (none ∷ v) (suc i) s e = num_active-set-none v i s e
num_active-set-none (some x ∷ v) (suc i) s e = ap suc (num_active-set-none v i s e)

Own-snoc :
    (n : ℕ) (v : List (Option SmSession)) (s : SmSession)
    → s.local_session_num ≡ n + length v
    → Own n v
    → Own n (snoc v (some s))
Own-snoc n [] s e h = (omega arith, tt)
Own-snoc n (none ∷ v) s e h = Own-snoc (suc n) v s (omega arith) h
Own-snoc n (some x ∷ v) s e h = (h.0, Own-snoc (suc n) v s (omega arith) h.1)

Own-set_none : (n : ℕ) (v : List (Option SmSession)) (i : ℕ) → Own n v → Own n (set v i none)
Own-set_none n [] i h = tt
Own-set_none n (none ∷ v) zero h = h
Own-set_none n (some x ∷ v) zero h = h.1
Own-set_none n (none ∷ v) (suc i) h = Own-set_none (suc n) v i h
Own-set_none n (some x ∷ v) (suc i) h = (h.0, Own-set_none (suc n) v i h.1)

Own-set_some :
    (n : ℕ) (v : List (Option SmSession)) (i : ℕ) (s : SmSession)
    → s.local_session_num ≡ n + i
    → Own n v
    → Own n (set v i (some s))
Own-set_some n [] i s e h = tt
Own-set_some n (none ∷ v) zero s e h = (omega arith, h)
Own-set_some n (some x ∷ v) zero s e h = (omega arith, h.1)
Own-set_some n (none ∷ v) (suc i) s e h = Own-set_some (suc n) v i s (omega arith) h
Own-set_some n (some x ∷ v) (suc i) s e h = (h.0, Own-set_some (suc n) v i s (omega arith) h.1)

pub Own-get :
    (n : ℕ) (v : List (Option SmSession)) (i : ℕ) (s : SmSession)
    → get_elem? v i ≡ some (some s)
    → Own n v
    → s.local_session_num ≡ n + i
Own-get n [] i s e h = absurd (cc)
Own-get n (none ∷ v) zero s e h = absurd (cc)
Own-get n (some x ∷ v) zero s e h =
    let same : x ≡ s = cc in omega (arith, h.0, ap (λ y. y.local_session_num) same)
Own-get n (none ∷ v) (suc i) s e h = omega (arith, Own-get (suc n) v i s e h)
Own-get n (some x ∷ v) (suc i) s e h = omega (arith, Own-get (suc n) v i s e h.1)

-- A change keeps the sessions at their numbers and the ring entries in balance.
pub Change-RingsOk : (c c' : Rpc) → Change c c' → RingsOk c → RingsOk c'
Change-RingsOk c c' (keeps v r) h = record { own = rw v h.own; balance = rw (v, r) h.balance }
Change-RingsOk c c' (moves s s' at k m n v r) h = record {
  own = rw v (Own-set_some 0 c.session_vec s.local_session_num s' (omega arith) h.own);
  balance = rw (v, r, num_active-set-some c.session_vec s.local_session_num s s' at) h.balance;
}
Change-RingsOk c c' (opens s b n v r) h = record {
  own = rw v (Own-snoc 0 c.session_vec s (omega arith) h.own);
  balance = rw (v, num_active-snoc c.session_vec s) (omega (arith, h.balance));
}
Change-RingsOk c c' (closes s at e v r) h = record {
  own = rw v (Own-set_none 0 c.session_vec s.local_session_num h.own);
  balance =
      rw v (omega (arith, h.balance, num_active-set-none c.session_vec s.local_session_num s at));
}

-- At most one session is added.
pub Change-length : (c c' : Rpc) → Change c c' → length c'.session_vec ≤ length c.session_vec + 1
Change-length c c' (keeps v r) = rw v (omega arith)
Change-length c c' (moves s s' at k m n v r) =
    rw (v, length-set c.session_vec s.local_session_num (some s')) (omega arith)
Change-length c c' (opens s b n v r) = rw (v, length-snoc c.session_vec (some s)) (omega arith)
Change-length c c' (closes s at e v r) =
    rw (v, length-set c.session_vec s.local_session_num none) (omega arith)
