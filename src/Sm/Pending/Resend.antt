-- ===== src/Sm/Pending/Resend.antt =====
-- What the scan for lost session management packets sends (`pkt_loss_scan_st` of
-- src/rpc_impl/rpc_pkt_loss.cc).
use sc_code.Common.{
  ℕ, ◌<◌, ◌≡◌, ◌∙◌, refl, ap, sym, lt→ltb, ◌≢◌, Bool-cases, inl, inr, subst, get_elem?-set_self,
  get_elem?-set_ne, get_elem?_lt, ◌==◌, ◌⊎◌, true, Option, none, some, List, [], ◌∷◌, ltb, length,
  get_elem?, set, ok, arith,
}
use mathlib.Core.List.{Memᴰ}
use mathlib.Core.List.Memᴰ
use sc_code.Datapath.Words.{sub_size}
use sc_code.Sm.{state_eq, SessionState, SmSession, SmPkt, Rpc}
use sc_code.Sm.Helpers.{send_sm_req, req_pkt, sm_pkt_udp_tx}
use sc_code.Sm.Steps.{session_at-some}
use sc_code.Sm.Pending.{sm_timeout_ms, awaits, resend_lost, scan_pending_loop, scan_pending}

-- The sessions in a vector that a pending number points at, each under its own number or buried.
abbrev pub Owned : ℕ → Option SmSession → Type 0
Owned n none = Unit {0}
Owned n (some s) = s.local_session_num ≡ n

pub record PlacedAt (vec : List (Option SmSession)) (n : ℕ) : Type 0 where
  pub session : Option SmSession
  pub there : get_elem? vec n ≡ some session
  pub own : Owned n session

abbrev pub Placed : List (Option SmSession) → List ℕ → Type 0
Placed vec [] = Unit {0}
Placed vec (n ∷ ns) = PlacedAt vec n × Placed vec ns

Placed-set :
    (vec : List (Option SmSession)) (k : ℕ) (s : SmSession) (ns : List ℕ)
    → s.local_session_num ≡ k
    → k < length vec
    → Placed vec ns
    → Placed (set vec k (some s)) ns
Placed-set vec k s [] e lt v = tt
Placed-set vec k s (n ∷ ns) e lt v =
    let here : PlacedAt (set vec k (some s)) n = elim (Bool-cases (k == n)) [
      | inl equal ↦
          let same : k ≡ n = ground arith in
          record {
            session = some s;
            there =
                subst (λ m. get_elem? (set vec k (some s)) m ≡ some (some s)) same
                  (get_elem?-set_self vec k (some s) lt);
            own = e ∙ same;
          }
      | inr other ↦
          let ne : k ≢ n = ground arith in
          record {
            session = v.0.session;
            there = get_elem?-set_ne vec k n (some s) ne ∙ v.0.there;
            own = v.0.own;
          }
    ] in
    (here, Placed-set vec k s ns e lt v.1)

-- The session's request, as it is sent at time `now`.
abbrev pub request_at : ℕ → SmSession → List ℕ × ℕ × SmPkt
request_at now s = (s.server.hostname, s.server.sm_udp_port, req_pkt (record s { sm_req_ts = now }))

send_sm_req-sent : (s : SmSession) (c : Rpc) → (send_sm_req s c).sent ≡ request_at c.tsc s ∷ c.sent
unfolding send_sm_req sm_pkt_udp_tx
send_sm_req-sent s c = elim (Bool-cases (state_eq s.state SessionState.connect_in_progress)) [
  | inl connects ↦ rw connects refl
  | inr leaves ↦ rw leaves refl
]

send_sm_req-Placed :
    (s : SmSession) (n : ℕ) (c : Rpc) (ns : List ℕ)
    → s.local_session_num ≡ n
    → n < length c.session_vec
    → Placed c.session_vec ns
    → Placed (send_sm_req s c).session_vec ns
unfolding send_sm_req sm_pkt_udp_tx
send_sm_req-Placed s n c ns e lt v =
    Placed-set c.session_vec s.local_session_num (record s { sm_req_ts = c.tsc }) ns refl
      (omega (arith, e)) v

module _ (to_msec : ℕ → ℕ) where
  resend_lost-cases :
      (s : SmSession) (c : Rpc)
      → (resend_lost to_msec s c ≡ c) ⊎ (resend_lost to_msec s c ≡ send_sm_req s c)
  unfolding resend_lost
  resend_lost-cases s c = elim (Bool-cases (awaits s.state)) [
    | inl waits ↦ elim (Bool-cases (ltb sm_timeout_ms (to_msec (sub_size c.tsc s.sm_req_ts)))) [
      | inl old ↦ inr (rw waits (rw old refl))
      | inr new ↦ inl (rw waits (rw new refl))
    ]
    | inr idle ↦ inl (rw idle refl)
  ]

  -- What one round of the scan at number `n` leaves for the rest.
  abbrev Passed : ℕ → List ℕ → Rpc → Rpc → Type 0
  Passed n ns c c1 =
      (scan_pending_loop to_msec (n ∷ ns) c ≡ scan_pending_loop to_msec ns c1)
      × Placed c1.session_vec ns
      × (c1.tsc ≡ c.tsc)
      × ((x : List ℕ × ℕ × SmPkt) → Memᴰ x c.sent → Memᴰ x c1.sent)
      × ((k : ℕ) → n ≢ k → get_elem? c1.session_vec k ≡ get_elem? c.session_vec k)

  round_sends :
      (n : ℕ) (ns : List ℕ) (c : Rpc) (s : SmSession)
      → get_elem? c.session_vec n ≡ some (some s)
      → s.local_session_num ≡ n
      → Placed c.session_vec ns
      → resend_lost to_msec s c ≡ send_sm_req s c
      → Passed n ns c (send_sm_req s c)
  unfolding scan_pending_loop send_sm_req sm_pkt_udp_tx
  round_sends n ns c s there own v sends = (
    rw (session_at-some n c (some s) there) (rw sends refl),
    send_sm_req-Placed s n c ns own (get_elem?_lt c.session_vec n (some s) there) v,
    refl,
    λ x m. Memᴰ.tail m,
    λ k ne.
        get_elem?-set_ne c.session_vec s.local_session_num k (some (record s { sm_req_ts = c.tsc }))
          (λ e. ne (sym own ∙ e)),
  )

  round_at :
      (n : ℕ) (ns : List ℕ) (c : Rpc) (o : Option SmSession)
      → get_elem? c.session_vec n ≡ some o
      → Owned n o
      → Placed c.session_vec ns
      → (c1 : Rpc) × Passed n ns c c1
  unfolding scan_pending_loop
  round_at n ns c none there own v =
      (c, (rw (session_at-some n c none there) refl, v, refl, λ x m. m, λ k ne. refl))
  round_at n ns c (some s) there own v = elim (resend_lost-cases s c) [
    | inl stays ↦ (
      c,
      (rw (session_at-some n c (some s) there) (rw stays refl), v, refl, λ x m. m, λ k ne. refl),
    )
    | inr sends ↦ (send_sm_req s c, round_sends n ns c s there own v sends)
  ]

  round :
      (n : ℕ) (ns : List ℕ) (c : Rpc)
      → Placed c.session_vec (n ∷ ns)
      → (c1 : Rpc) × Passed n ns c c1
  round n ns c v = round_at n ns c v.0.session v.0.there v.0.own v.1

  scan_keeps :
      (ns : List ℕ) (c : Rpc) (x : List ℕ × ℕ × SmPkt)
      → Placed c.session_vec ns
      → Memᴰ x c.sent
      → (c' : Rpc) × (scan_pending_loop to_msec ns c ≡ ok c') × Memᴰ x c'.sent
  unfolding scan_pending_loop
  scan_keeps [] c x v m = (c, refl, m)
  scan_keeps (n ∷ ns) c x v m =
      let (c1, (step, v1, time, keeps, frame)) = round n ns c v in
      let (c', ran, m') = scan_keeps ns c1 x v1 (keeps x m) in (c', step ∙ ran, m')

  scan_resends :
      (ns : List ℕ) (c : Rpc) (n : ℕ) (s : SmSession)
      → Placed c.session_vec ns
      → Memᴰ n ns
      → get_elem? c.session_vec n ≡ some (some s)
      → s.local_session_num ≡ n
      → awaits s.state ≡ true
      → sm_timeout_ms < to_msec (sub_size c.tsc s.sm_req_ts)
      → (c' : Rpc) × (scan_pending_loop to_msec ns c ≡ ok c') × Memᴰ (request_at c.tsc s) c'.sent
  unfolding resend_lost
  scan_resends [] c n s v m there own waits old = elim m [ ]
  scan_resends (k ∷ ns) c n s v m there own waits old = elim (Bool-cases (k == n)) [
    | inl equal ↦
        let same : k ≡ n = ground arith in
        let at : get_elem? c.session_vec k ≡ some (some s) =
          ap (get_elem? c.session_vec) same ∙ there in
        let sends : resend_lost to_msec s c ≡ send_sm_req s c =
          rw waits (rw (lt→ltb sm_timeout_ms (to_msec (sub_size c.tsc s.sm_req_ts)) old) refl) in
        let (step, v1, _, _, _) = round_sends k ns c s at (own ∙ sym same) v.1 sends in
        let (c', ran, m') = scan_keeps ns (send_sm_req s c) (request_at c.tsc s) v1 (
          subst (λ l. Memᴰ (request_at c.tsc s) l) (sym (send_sm_req-sent s c)) (Memᴰ.head refl)) in
        (c', step ∙ ran, m')
    | inr other ↦
        let ne : k ≢ n = ground arith in
        let later : Memᴰ n ns = elim (Memᴰ.cases_cons m) [
          | inl e ↦ absurd (ne (sym e))
          | inr d ↦ d
        ] in
        let (c1, (step, v1, time, keeps, frame)) = round k ns c v in
        let (c', ran, m') =
          scan_resends ns c1 n s v1 later (frame n ne ∙ there) own waits
            (omega (arith, ap (λ t. to_msec (sub_size t s.sm_req_ts)) time, old)) in
        (c', step ∙ ran, subst (λ t. Memᴰ (request_at t s) c'.sent) time m')
  ]

  -- Where every pending number is of a session in the vector, a scan returns, and it has sent the
  -- request of any session again that has waited for its response longer than the timeout.
  pub scan_pending_resends :
      (c : Rpc) (n : ℕ) (s : SmSession)
      → Placed c.session_vec c.sm_pending_reqs
      → Memᴰ n c.sm_pending_reqs
      → get_elem? c.session_vec n ≡ some (some s)
      → s.local_session_num ≡ n
      → awaits s.state ≡ true
      → sm_timeout_ms < to_msec (sub_size c.tsc s.sm_req_ts)
      → (c' : Rpc) × (scan_pending to_msec c ≡ ok c') × Memᴰ (request_at c.tsc s) c'.sent
  unfolding scan_pending
  scan_pending_resends c n s = scan_resends c.sm_pending_reqs c n s
