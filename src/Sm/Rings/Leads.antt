-- ===== src/Sm/Rings/Leads.antt =====
-- Rules for what a session management call leads to, by the shape of its code.
use sc_code.Common.{
  ℕ, ◌+◌, ◌-◌, ◌≤◌, ◌≡◌, refl, sym, Bool, true, false, ◌&&◌, Option, none, some, ltb, length,
  get_elem?, set, if◌then◌else◌, Outcome, ok, err, bad_access, leb, assert, ◌>>=◌, ◌>>◌, leb→le,
  subst, arith,
}
use sc_code.Datapath.{session_credits}
use sc_code.Sm.{
  SessionState, state_eq, SessionEndpoint, SmPkt, SmErrType, sm_construct_resp, SmSession, Rpc,
}
use sc_code.Sm.Helpers.{
  alloc_ring_entries, free_ring_entries, session_at, bury_session, sm_pkt_udp_tx,
  num_rx_ring_entries, have_ring_entries,
}
use sc_code.Sm.Connect.{respond}
use sc_code.Sm.Rings.{RingsOk, Own-get, Change, keeps}

-- What a call returns satisfies `P`; one that does not return satisfies everything.
abbrev pub Leads {ℓ} : {A : Type ℓ} → (A → Type 0) → Outcome A → Type 0
Leads P (ok a) = P a
Leads P (err e) = Unit

pub Leads-bind {ℓ κ} :
    {A : Type ℓ} {B : Type κ} (Q : A → Type 0) (P : B → Type 0) (m : Outcome A) (f : A → Outcome B)
    → Leads Q m
    → ((a : A) → Q a → Leads P (f a))
    → Leads P (m >>= f)
Leads-bind Q P (ok a) f q k = k a q
Leads-bind Q P (err e) f q k = tt

pub Leads-assert {κ} :
    {B : Type κ} (P : B → Type 0) (b : Bool) (m : Outcome B)
    → (b ≡ true → Leads P m)
    → Leads P (assert b >> m)
Leads-assert P true m k = k refl
Leads-assert P false m k = tt

pub Leads-if {κ} :
    {B : Type κ} (P : B → Type 0) (b : Bool) (m n : Outcome B)
    → (b ≡ true → Leads P m)
    → (b ≡ false → Leads P n)
    → Leads P (if b then m else n)
Leads-if P true m n k l = k refl
Leads-if P false m n k l = l refl

pub Leads-any {ℓ} : {A : Type ℓ} (m : Outcome A) → Leads (λ _. Unit) m
Leads-any (ok a) = tt
Leads-any (err e) = tt

pub Leads-weaken {ℓ} :
    {A : Type ℓ} (P Q : A → Type 0) (m : Outcome A) → ((a : A) → P a → Q a) → Leads P m → Leads Q m
Leads-weaken P Q (ok a) k h = k a h
Leads-weaken P Q (err e) k h = tt

-- A response leaves the sessions and the ring as they are.
unfoldable pub Same : Rpc → Rpc → Type 0
Same c c' =
    (c'.session_vec ≡ c.session_vec) × (c'.ring_entries_available ≡ c.ring_entries_available)

pub respond-Same :
    (p : SmPkt) (e : SmErrType) (server : SessionEndpoint) (c : Rpc)
    → Leads (Same c) (respond p e server c)
unfolding respond sm_pkt_udp_tx Same
respond-Same p e server c =
    Leads-bind (λ _. Unit) (Same c) (sm_construct_resp p e) _ (Leads-any (sm_construct_resp p e))
      (λ r _. (refl, refl))

pub respond-keeps :
    (p : SmPkt) (e : SmErrType) (server : SessionEndpoint) (c : Rpc)
    → Leads (Change c) (respond p e server c)
unfolding Same
respond-keeps p e server c =
    Leads-weaken (Same c) (Change c) _ (λ c' h. keeps h.0 h.1) (respond-Same p e server c)

pub Leads-option :
    (P : Rpc → Type 0) (o : Option (Option SmSession)) (f : Option SmSession → Outcome Rpc)
    → ((s : Option SmSession) → o ≡ some s → Leads P (f s))
    → Leads P (elim o [ none ↦ err bad_access | some s ↦ ok s ] >>= f)
Leads-option P none f k = tt
Leads-option P (some s) f k = k s refl

pub Leads-cases {ℓ} :
    {A : Type ℓ} (P : Rpc → Type 0) (o : Option A) (m : Outcome Rpc) (f : A → Outcome Rpc)
    → Leads P m
    → ((a : A) → Leads P (f a))
    → Leads P (elim o [ none ↦ m | some a ↦ f a ])
Leads-cases P none m f k l = k
Leads-cases P (some a) m f k l = l a

pub session_at-Leads :
    (P : Rpc → Type 0) (i : ℕ) (c : Rpc) (f : Option SmSession → Outcome Rpc)
    → ((o : Option SmSession) → get_elem? c.session_vec i ≡ some o → Leads P (f o))
    → Leads P (session_at i c >>= f)
unfolding session_at
session_at-Leads P i c f k = Leads-option P (get_elem? c.session_vec i) f k

pub freed-Leads :
    (P : Rpc → Type 0) (c : Rpc) (f : Rpc → Outcome Rpc)
    → Leads P (f (record c { ring_entries_available = c.ring_entries_available + session_credits }))
    → Leads P (free_ring_entries c >>= f)
unfolding free_ring_entries
freed-Leads P c f k =
    Leads-bind
      (λ c'. c' ≡ record c { ring_entries_available = c.ring_entries_available + session_credits })
      P (free_ring_entries c) f
      (Leads-assert {B = Rpc} _
        (leb (c.ring_entries_available + session_credits) num_rx_ring_entries) _ (λ _. refl))
      (λ c' e. rw e k)

pub alloc-Leads {κ} :
    {B : Type κ} (P : B → Type 0) (c : Rpc) (f : Rpc → Outcome B)
    → (session_credits ≤ c.ring_entries_available
        → Leads P
            (f (record c { ring_entries_available = c.ring_entries_available - session_credits })))
    → Leads P (alloc_ring_entries c >>= f)
unfolding alloc_ring_entries
alloc-Leads P c f k =
    Leads-bind
      (λ c'.
        (c' ≡ record c { ring_entries_available = c.ring_entries_available - session_credits })
        × (session_credits ≤ c.ring_entries_available))
      P (alloc_ring_entries c) f
      (Leads-assert {B = Rpc} _ (have_ring_entries c) _ (λ b. (refl, leb→le _ _ b)))
      (λ c' e. subst (λ x. Leads P (f x)) (sym e.0) (k e.1))

pub buried-Leads :
    (P : Rpc → Type 0) (s : SmSession) (c : Rpc)
    → P (record c { session_vec = set c.session_vec s.local_session_num none })
    → Leads P (bury_session s c)
unfolding bury_session
buried-Leads P s c k =
    Leads-if P (ltb s.local_session_num (length c.session_vec)) _ _ (λ _. k) (λ _. tt)

-- A session found in the vector stands at its own number.
pub number_own :
    (c : Rpc) (i : ℕ) (s : SmSession)
    → RingsOk c
    → get_elem? c.session_vec i ≡ some (some s)
    → i ≡ s.local_session_num
number_own c i s v e = omega (arith, Own-get 0 c.session_vec i s e v.own)

pub at_own :
    (c : Rpc) (i : ℕ) (s : SmSession)
    → RingsOk c
    → get_elem? c.session_vec i ≡ some (some s)
    → get_elem? c.session_vec s.local_session_num ≡ some (some s)
at_own c i s v e = subst (λ n. get_elem? c.session_vec n ≡ some (some s)) (number_own c i s v e) e

-- A case on the session found, which stands at its own number.
pub Leads-found :
    (c : Rpc) (i : ℕ) (o : Option SmSession) (m : Outcome Rpc) (f : SmSession → Outcome Rpc)
    → RingsOk c
    → get_elem? c.session_vec i ≡ some o
    → Leads (Change c) m
    → ((s : SmSession)
        → get_elem? c.session_vec s.local_session_num ≡ some (some s)
        → Leads (Change c) (f s))
    → Leads (Change c) (elim o [ none ↦ m | some s ↦ f s ])
Leads-found c i none m f v e k l = k
Leads-found c i (some s) m f v e k l = l s (at_own c i s v e)

pub state_eq→≡ : (a b : SessionState) → state_eq a b ≡ true → a ≡ b
state_eq→≡ a b e = ground arith

pub both : (a b : Bool) → (a && b) ≡ true → (a ≡ true) × (b ≡ true)
both true true e = (refl, refl)
both true false e = absurd (cc)
both false b e = absurd (cc)
