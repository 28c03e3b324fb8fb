-- ===== src/Nexus/Routing.antt =====
-- Where the session management thread takes a packet.
use sc_code.Common.{
  ℕ, ◌<◌, ◌≡◌, ◌≢◌, ◌⊎◌, refl, true, false, Option, some, none, List, ◌∷◌, length, get_elem?, set,
  snoc, get_elem?-set_self, get_elem?-set_ne, get_elem?-total, get_elem?_lt, Bool-cases, inl, inr,
  ok,
}
use sc_code.Sm.{SmPkt, SmPktType, SmErrType, sm_pkt_type_is_req, sm_construct_resp}
use sc_code.Sm.Rx.{SmWorkItem}
use sc_code.Nexus.{Nexus, Hook, entry, refuse, route, target_rpc_id, is_unblock, sm_thread_rx}

-- The packet is at the end of the queue of the Rpc that it is for, and nothing else has changed.
pub record Queued (p : SmPkt) (n n' : Nexus) : Type 0 where
  pub hook : Hook
  pub found : get_elem? n.reg_hooks_arr (target_rpc_id p) ≡ some (some hook)
  pub queue :
      get_elem? n'.reg_hooks_arr (target_rpc_id p)
      ≡ some (some (record hook { sm_rx_queue = snoc hook.sm_rx_queue (SmWorkItem.pkt p) }))
  pub others :
      (j : ℕ) → target_rpc_id p ≢ j → get_elem? n'.reg_hooks_arr j ≡ get_elem? n.reg_hooks_arr j
  pub silent : n'.sent ≡ n.sent

-- There is no such Rpc, and the sender of the request has been told so.
pub record Refused (p : SmPkt) (n n' : Nexus) : Type 0 where
  pub nobody : get_elem? n.reg_hooks_arr (target_rpc_id p) ≡ some none
  pub request : sm_pkt_type_is_req p.pkt_type ≡ true
  pub reply : SmPkt
  pub made : sm_construct_resp p SmErrType.invalid_remote_rpc_id ≡ ok reply
  pub answered : n' ≡ record n { sent = (p.client.hostname, p.client.sm_udp_port, reply) ∷ n.sent }

-- There is no such Rpc, and the response is dropped.
pub record Dropped (p : SmPkt) (n n' : Nexus) : Type 0 where
  pub nobody : get_elem? n.reg_hooks_arr (target_rpc_id p) ≡ some none
  pub response : sm_pkt_type_is_req p.pkt_type ≡ false
  pub same : n' ≡ n

-- The error response to a request has the request's endpoints.
response_made :
    (t : SmPktType) (p : SmPkt) (e : SmErrType)
    → p.pkt_type ≡ t
    → sm_pkt_type_is_req t ≡ true
    → (r : SmPkt) × (sm_construct_resp p e ≡ ok r) × (r.client ≡ p.client)
unfolding sm_construct_resp
response_made SmPktType.ping_req p e q h =
    (record p { pkt_type = SmPktType.ping_resp; err_type = e }, rw q refl, refl)
response_made SmPktType.connect_req p e q h =
    (record p { pkt_type = SmPktType.connect_resp; err_type = e }, rw q refl, refl)
response_made SmPktType.disconnect_req p e q h =
    (record p { pkt_type = SmPktType.disconnect_resp; err_type = e }, rw q refl, refl)
response_made SmPktType.unblock p e q h = absurd (cc)
response_made SmPktType.ping_resp p e q h = absurd (cc)
response_made SmPktType.connect_resp p e q h = absurd (cc)
response_made SmPktType.disconnect_resp p e q h = absurd (cc)

entry-some {ℓ} :
    {A : Type ℓ} (arr : List A) (i : ℕ) (a : A) → get_elem? arr i ≡ some a → entry arr i ≡ ok a
unfolding entry
entry-some arr i a e = rw (e, entry)

-- The three branches, by what the table has at the target.
route-cases :
    (p : SmPkt) (n : Nexus) (h : Option Hook)
    → get_elem? n.reg_hooks_arr (target_rpc_id p) ≡ some h
    → (n' : Nexus) × (route p h n ≡ ok n') × (Queued p n n' ⊎ (Refused p n n' ⊎ Dropped p n n'))
unfolding route refuse
route-cases p n (some h) e =
    let t = target_rpc_id p in
    let hook = some (record h { sm_rx_queue = snoc h.sm_rx_queue (SmWorkItem.pkt p) }) in
    (
      record n { reg_hooks_arr = set n.reg_hooks_arr t hook },
      refl,
      inl (record {
        hook = h;
        found = e;
        queue =
            get_elem?-set_self n.reg_hooks_arr t hook (get_elem?_lt n.reg_hooks_arr t (some h) e);
        others = λ j d. get_elem?-set_ne n.reg_hooks_arr t j hook d;
        silent = refl;
      }),
    )
route-cases p n none e = elim (Bool-cases (sm_pkt_type_is_req p.pkt_type)) [
  | inl is_req ↦
      let (r, made, back) =
        response_made p.pkt_type p SmErrType.invalid_remote_rpc_id refl is_req in
      (
        record n { sent = (p.client.hostname, p.client.sm_udp_port, r) ∷ n.sent },
        rw (is_req, made, back) refl,
        inr (
            inl (record { nobody = e; request = is_req; reply = r; made = made; answered = refl })),
      )
  | inr is_resp ↦
      (n, rw is_resp refl, inr (inr (record { nobody = e; response = is_resp; same = refl })))
]

-- A packet that is not there to unblock the thread is queued at its Rpc, refused, or dropped, as its type
-- and the registered Rpcs have it.
pub sm_thread_rx_routes :
    (p : SmPkt) (n : Nexus)
    → is_unblock p.pkt_type ≡ false
    → target_rpc_id p < length n.reg_hooks_arr
    → (n' : Nexus) × (sm_thread_rx p n ≡ ok n')
      × (Queued p n n' ⊎ (Refused p n n' ⊎ Dropped p n n'))
unfolding sm_thread_rx
sm_thread_rx_routes p n work inside =
    let (h, there) = get_elem?-total n.reg_hooks_arr (target_rpc_id p) inside in
    let (n', ran, c) = route-cases p n h there in
    (n', rw (work, entry-some n.reg_hooks_arr (target_rpc_id p) h there) ran, c)
