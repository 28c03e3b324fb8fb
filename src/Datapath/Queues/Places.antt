-- ===== src/Datapath/Queues/Places.antt =====
-- Slots of the Rpc's sessions as the stall queue of src/rpc_impl/rpc_queues.cc points at them, and how
-- they stand before and after work on another slot.
use sc_code.Common.{
  ℕ, ◌^◌, ◌≤◌, ◌<◌, ◌≡◌, ◌≢◌, inl, inr, refl, ap, Bool-cases, Option, none, some, false, List, [],
  ◌∷◌, get_elem?, set, get_elem?-set_self, get_elem?-set_ne, get_elem?_lt, Outcome, ok, arith, ◌∙◌,
  sym, ◌==◌, subst,
}
use sc_code.Packet.{PktHdr}
use sc_code.Datapath.{Serializer, SSlot, Session, Endpoint, session_credits}
use sc_code.Datapath.Queues.{Clients, client_at, on_session}

-- The slot of an entry and the credits of a session, at present.
abbrev pub slot_in : List Session → ℕ → ℕ → Option SSlot
slot_in v k i = elim (get_elem? v k) [ none ↦ none | some s ↦ get_elem? s.sslots i ]

abbrev pub credits_in : List Session → ℕ → Option ℕ
credits_in v k = elim (get_elem? v k) [ none ↦ none | some s ↦ some s.credits ]

abbrev pub credits_of : List Session → ℕ → ℕ
credits_of v k = elim (get_elem? v k) [ none ↦ 0 | some s ↦ s.credits ]

pub credits_of-at :
    (v : List Session) (k : ℕ) (s : Session) → get_elem? v k ≡ some s → credits_of v k ≡ s.credits
credits_of-at v k s e = rw (credits_of, e) refl

pub slot_in-at :
    (v : List Session) (k i : ℕ) (s : Session)
    → get_elem? v k ≡ some s
    → slot_in v k i ≡ get_elem? s.sslots i
slot_in-at v k i s e = rw (slot_in, e) refl

pub credits_in-at :
    (v : List Session) (k : ℕ) (s : Session)
    → get_elem? v k ≡ some s
    → credits_in v k ≡ some s.credits
credits_in-at v k s e = rw (credits_in, e) refl

pub record At (c : List Session) (k i : ℕ) : Type 0 where
  pub session : Session
  pub here : get_elem? c k ≡ some session
  pub slot : SSlot
  pub there : get_elem? session.sslots i ≡ some slot

-- A stalled slot: its request has packets to send, and its session stands at its own number.
pub record Stalled (c : List Session) (k i : ℕ) : Type 0 where
  pub place : At c k i
  pub number : place.session.local_session_num ≡ k
  pub msg : Serializer
  pub hdr : PktHdr
  pub hdrs : List PktHdr
  pub active : place.slot.tx_msgbuf ≡ some msg
  pub front : msg.hdrs ≡ hdr ∷ hdrs
  pub total : msg.total_pkg ≡ hdr.total_pkt
  pub total_16 : hdr.total_pkt < 2 ^ 16
  pub pending : place.slot.num_tx < hdr.total_pkt
  pub credits : place.session.credits ≤ session_credits

abbrev pub Apart : ℕ → ℕ → ℕ → ℕ → Type 0
Apart k i k' i' = k ≡ k' → i ≢ i'

-- Slots other than this one are as they were; no session has gained a credit or changed its number.
abbrev pub Frame : List Session → List Session → ℕ → ℕ → Type 0
Frame c c' k i =
    (k' i' : ℕ)
    → Apart k i k' i'
    → (p : At c k' i')
    → (p' : At c' k' i') × (p'.slot ≡ p.slot)
      × (p'.session.credits ≤ p.session.credits)
      × (p'.session.local_session_num ≡ p.session.local_session_num)

Stalled-Frame :
    (c c' : List Session) (k i k' i' : ℕ)
    → Frame c c' k i
    → Apart k i k' i'
    → Stalled c k' i'
    → Stalled c' k' i'
Stalled-Frame c c' k i k' i' frame apart v =
    let (p, same, less, num) = frame k' i' apart v.place in
    record {
      place = p;
      number = num ∙ v.number;
      msg = v.msg;
      hdr = v.hdr;
      hdrs = v.hdrs;
      active = ap (λ s. s.tx_msgbuf) same ∙ v.active;
      front = v.front;
      total = v.total;
      total_16 = v.total_16;
      pending = omega (arith, ap (λ s. s.num_tx) same, v.pending);
      credits = omega (arith, less, v.credits);
    }

module _ (c : List Session) (k i : ℕ) (p : At c k i) (slot : SSlot) (s : Session)
    (slots : s.sslots ≡ set p.session.sslots i slot) (less : s.credits ≤ p.session.credits)
    (num : s.local_session_num ≡ p.session.local_session_num) where
  abbrev pub after : List Session
  after = set c k s

  pub now_here : get_elem? (set c k s) k ≡ some s
  now_here = get_elem?-set_self c k s (get_elem?_lt c k p.session p.here)

  pub slot_in-here : slot_in after k i ≡ some slot
  slot_in-here =
      slot_in-at after k i s now_here
      ∙ ap (λ l. get_elem? l i) slots
      ∙ get_elem?-set_self p.session.sslots i slot (get_elem?_lt p.session.sslots i p.slot p.there)

  pub slot_in-elsewhere : (k' i' : ℕ) → Apart k i k' i' → slot_in after k' i' ≡ slot_in c k' i'
  slot_in-elsewhere k' i' apart = elim (Bool-cases (k == k')) [
    | inl equal ↦
        let same : k ≡ k' = ground arith in
        ap (λ n. slot_in after n i') (sym same)
        ∙ slot_in-at after k i' s now_here
        ∙ ap (λ l. get_elem? l i') slots
        ∙ get_elem?-set_ne p.session.sslots i i' slot (apart same)
        ∙ sym (slot_in-at c k i' p.session p.here)
        ∙ ap (λ n. slot_in c n i') same
    | inr other ↦ let ne : k ≢ k' = ground arith in rw (slot_in, get_elem?-set_ne c k k' s ne) refl
  ]

  pub credits_of-here : credits_of after k ≡ s.credits
  credits_of-here = credits_of-at after k s now_here

  pub credits_of-elsewhere : (k' : ℕ) → (k == k') ≡ false → credits_of after k' ≡ credits_of c k'
  credits_of-elsewhere k' other =
      let ne : k ≢ k' = ground arith in rw (credits_of, get_elem?-set_ne c k k' s ne) refl

  pub spent-elsewhere : (k' : ℕ) → credits_in c k' ≡ some 0 → credits_in after k' ≡ some 0
  spent-elsewhere k' e = elim (Bool-cases (k == k')) [
    | inl equal ↦
        let same : k ≡ k' = ground arith in
        let here : credits_in c k ≡ some p.session.credits = credits_in-at c k p.session p.here in
        let at_k : credits_in c k ≡ some 0 = ap (credits_in c) same ∙ e in
        let none_left : p.session.credits ≡ 0 = cc (here, at_k) in
        let none_now : s.credits ≡ 0 = omega (arith, less, none_left) in
        ap (credits_in after) (sym same) ∙ credits_in-at after k s now_here ∙ ap some none_now
    | inr other ↦ let ne : k ≢ k' = ground arith in rw (credits_in, get_elem?-set_ne c k k' s ne) e
  ]

  pub elsewhere : Frame c after k i
  elsewhere k' i' apart q = elim (Bool-cases (k == k')) [
    | inl equal ↦
        let same : k ≡ k' = ground arith in
        let at_k : get_elem? c k ≡ some q.session = ap (get_elem? c) same ∙ q.here in
        let one : p.session ≡ q.session = cc (at_k, p.here) in
        (
          record {
            session = s;
            here = subst (λ n. get_elem? (set c k s) n ≡ some s) same now_here;
            slot = q.slot;
            there =
                ap (λ l. get_elem? l i') slots
                ∙ get_elem?-set_ne p.session.sslots i i' slot (apart same)
                ∙ ap (λ x. get_elem? x.sslots i') one
                ∙ q.there;
          },
          refl,
          omega (arith, less, ap (λ x. x.credits) one),
          num ∙ ap (λ x. x.local_session_num) one,
        )
    | inr other ↦
        let ne : k ≢ k' = ground arith in
        (
          record {
            session = q.session;
            here = get_elem?-set_ne c k k' s ne ∙ q.here;
            slot = q.slot;
            there = q.there;
          },
          refl,
          omega arith,
          refl,
        )
  ]

pub client_at-some :
    (k : ℕ) (c : Clients) (s : Session) → get_elem? c.session_vec k ≡ some s → client_at k c ≡ ok s
unfolding client_at
client_at-some k c s e = rw (client_at, e) refl

pub on_session-ok :
    (k : ℕ) (step : Endpoint → Outcome Endpoint) (c : Clients) (s : Session) (e : Endpoint)
    → get_elem? c.session_vec k ≡ some s
    → step (record (c.rest) { session = s }) ≡ ok e
    → on_session k step c ≡ ok (record { session_vec = set c.session_vec k e.session; rest = e })
unfolding on_session
on_session-ok k step c s e here ran = rw (client_at-some k c s here) (rw ran refl)

abbrev pub All : (ℕ → ℕ → Type 0) → List (ℕ × ℕ) → Type 0
All P [] = Unit {0}
All P ((k, i) ∷ q) = P k i × All P q

-- No slot stands in the queue twice.
abbrev pub DistinctSlots : List (ℕ × ℕ) → Type 0
DistinctSlots [] = Unit {0}
DistinctSlots ((k, i) ∷ q) = All (Apart k i) q × DistinctSlots q

pub All-Stalled :
    (c c' : List Session) (k i : ℕ) (q : List (ℕ × ℕ))
    → Frame c c' k i
    → All (Apart k i) q
    → All (Stalled c) q
    → All (Stalled c') q
All-Stalled c c' k i [] frame apart v = tt
All-Stalled c c' k i ((k', i') ∷ q) frame apart v =
    (Stalled-Frame c c' k i k' i' frame apart.0 v.0, All-Stalled c c' k i q frame apart.1 v.1)

pub Apart-sym : (k i k' i' : ℕ) → Apart k i k' i' → Apart k' i' k i
Apart-sym k i k' i' apart e d = apart (sym e) (sym d)
