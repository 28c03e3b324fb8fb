-- ===== src/Sm/Rings/Calls.antt =====
-- What the application's calls do to the sessions of an Rpc (src/rpc_impl/rpc_sm_api.cc).
use sc_code.Common.{
  ℕ, ◌+◌, ◌^◌, ◌<◌, ◌≡◌, ◌∙◌, refl, ap, inl, inr, ◌⊎◌, Bool, true, not, ◌&&◌, ◌||◌, Option, none,
  some, List, ltb, ◌==◌, length, get_elem?, set, snoc, ok, subst, arith, set-snoc_end,
}
use sc_code.Datapath.{session_req_window}
use sc_code.Sm.{ℤ, pos, negsuc, SessionState, SmSession, Rpc, is_client, str_eq}
use sc_code.Sm.Init.{new_session}
use sc_code.Sm.Helpers.{
  send_sm_req, sm_pkt_udp_tx, have_ring_entries, copy_hostname, max_hostname_len,
}
use sc_code.Sm.Api.{
  create_session, destroy_session, destroy_idle, destroy_connected, client_session, Errno, all_idle,
}
use sc_code.Sm.Rings.{RingsOk, Change-RingsOk, Change, keeps, moves, opens, Begins, Moves}
use sc_code.Sm.Rings.Leads.{
  Leads, Leads-any, Leads-bind, Leads-assert, Leads-if, alloc-Leads, number_own, at_own,
}

-- What `create_session` returns: an error, and nothing is changed; or the number of one new client
-- session at the end of the vector, for which 32 ring entries are taken.
pub data Created (c : Rpc) : (Errno ⊎ ℕ) × Rpc → Type 0 where
  refused : (e : Errno) → Created c (inl e, c)
  created :
      (s : SmSession) (n : ℕ) (c' : Rpc)
      → is_client s.role ≡ true
      → s.state ≡ SessionState.connect_in_progress
      → s.local_session_num ≡ length c.session_vec
      → n ≡ length c.session_vec
      → c'.session_vec ≡ snoc c.session_vec (some s)
      → c'.ring_entries_available + 32 ≡ c.ring_entries_available
      → Created c (inr n, c')

-- A client session without requests in progress.
pub record IdleClient (c : Rpc) (n : ℤ) (s : SmSession) : Type 0 where
  pub number : n ≡ pos s.local_session_num
  pub at : get_elem? c.session_vec s.local_session_num ≡ some (some s)
  pub client : is_client s.role ≡ true
  pub free : length s.sslot_free_vec ≡ 32
  pub idle : all_idle s.sslots ≡ true

-- What `destroy_session` returns: an error, and nothing is changed; or success, where the number is
-- that of an idle client session, which was connected and now disconnects, or is being reset
-- and stays as it is.
pub data Destroyed (n : ℤ) (c : Rpc) : (Errno ⊎ Unit {0}) × Rpc → Type 0 where
  refused : (e : Errno) → Destroyed n c (inl e, c)
  leaving :
      (s s' : SmSession) (c' : Rpc)
      → IdleClient c n s
      → s.state ≡ SessionState.connected
      → s'.state ≡ SessionState.disconnect_in_progress
      → s'.local_session_num ≡ s.local_session_num
      → c'.session_vec ≡ set c.session_vec s.local_session_num (some s')
      → c'.ring_entries_available ≡ c.ring_entries_available
      → Destroyed n c (inr tt, c')
  resetting :
      (s : SmSession)
      → IdleClient c n s
      → s.state ≡ SessionState.reset_in_progress
      → Destroyed n c (inr tt, c)

Created-Change : (c : Rpc) (r : (Errno ⊎ ℕ) × Rpc) → Created c r → Change c (r.1)
Created-Change c _ (Created.refused e) = keeps refl refl
Created-Change c _ (created s n c' client state num own vec ring) =
    opens s (Begins.as_client client state) num vec ring

Destroyed-Change :
    (n : ℤ) (c : Rpc) (r : (Errno ⊎ Unit {0}) × Rpc) → Destroyed n c r → Change c (r.1)
Destroyed-Change n c _ (Destroyed.refused e) = keeps refl refl
Destroyed-Change n c _ (leaving s s' c' v was is num vec ring) =
    moves s s' v.at v.client (rw (was, is) Moves.leaves) num vec ring
Destroyed-Change n c _ (resetting s v was) = keeps refl refl

create_session-Leads :
    (d : Bool) (host : List ℕ) (port rid token : ℕ) (c : Rpc)
    → length c.session_vec < 2 ^ 16
    → Leads (Created c) (create_session d host port rid token c)
unfolding create_session client_session new_session send_sm_req sm_pkt_udp_tx
create_session-Leads d host port rid token c h =
    let P = Created c in
    let no : (e : Errno) → Created c (inl e, c) = λ e. Created.refused e in
    Leads-if P (not d) _ _ (λ _. no _)
      (λ _.
        Leads-if P (length host == 0 || ltb max_hostname_len (length host)) _ _ (λ _. no _)
          (λ _.
            Leads-if P (str_eq host c.hostname && rid == c.rpc_id && port == c.sm_udp_port) _ _
              (λ _. no _)
              (λ _.
                Leads-if P (not (have_ring_entries c)) _ _ (λ _. no _)
                  (λ _.
                    Leads-bind (λ _. Unit) P (copy_hostname c.hostname) _ (Leads-any _)
                      (λ own _.
                        Leads-bind (λ _. Unit) P (copy_hostname host) _ (Leads-any _)
                          (λ rem _. alloc-Leads P c _ (λ room.
                            let s = client_session own rem port rid token c in
                            let s' = record s { sm_req_ts = c.tsc } in
                            let num : s.local_session_num ≡ length c.session_vec = omega arith in
                            created s' _ _ refl refl num num
                              (ap (λ n. set (snoc c.session_vec (some s)) n (some s')) num
                                ∙ set-snoc_end c.session_vec (some s) (some s'))
                              (omega arith))))))))

destroy_connected-Destroyed :
    (n : ℤ) (s : SmSession) (c : Rpc)
    → IdleClient c n s
    → (t : SessionState) → s.state ≡ t
    → Destroyed n c (destroy_connected s c)
unfolding destroy_connected send_sm_req sm_pkt_udp_tx
destroy_connected-Destroyed n s c v SessionState.connect_in_progress e =
    rw e (Destroyed.refused Errno.eperm)
destroy_connected-Destroyed n s c v SessionState.connected e =
    rw e (leaving s _ _ v e refl refl refl refl)
destroy_connected-Destroyed n s c v SessionState.disconnect_in_progress e =
    rw e (Destroyed.refused Errno.ealready)
destroy_connected-Destroyed n s c v SessionState.reset_in_progress e = rw e (resetting s v e)

destroy_idle-Leads :
    (n : ℤ) (s : SmSession) (c : Rpc)
    → n ≡ pos s.local_session_num
    → get_elem? c.session_vec s.local_session_num ≡ some (some s)
    → Leads (Destroyed n c) (destroy_idle s c)
unfolding destroy_idle
destroy_idle-Leads n s c num at =
    let P = Destroyed n c in
    Leads-if P (not (is_client s.role)) _ _ (λ _. Destroyed.refused Errno.einval)
      (λ k.
        Leads-if P (not (length s.sslot_free_vec == session_req_window)) _ _
          (λ _. Destroyed.refused Errno.ebusy)
          (λ all_free. Leads-assert {B = (Errno ⊎ Unit {0}) × Rpc} P (all_idle s.sslots) _ (λ idle.
            let v : IdleClient c n s = record {
              number = num;
              at = at;
              client = ground arith;
              free = ground arith;
              idle = idle;
            } in
            destroy_connected-Destroyed n s c v s.state refl)))

destroy_found-Leads :
    (n : ℕ) (c : Rpc) (o : Option (Option SmSession))
    → get_elem? c.session_vec n ≡ o
    → RingsOk c
    → Leads (Destroyed (pos n) c) (elim o [
      | none ↦ ok (inl Errno.einval, c)
      | some session ↦ elim session [ none ↦ ok (inl Errno.eperm, c) | some s ↦ destroy_idle s c ]
    ])
destroy_found-Leads n c none e v = Destroyed.refused Errno.einval
destroy_found-Leads n c (some none) e v = Destroyed.refused Errno.eperm
destroy_found-Leads n c (some (some s)) e v =
    destroy_idle-Leads (pos n) s c (ap pos (number_own c n s v e)) (at_own c n s v e)

destroy_session-Leads :
    (d : Bool) (n : ℤ) (c : Rpc) → RingsOk c → Leads (Destroyed n c) (destroy_session d n c)
unfolding destroy_session
destroy_session-Leads d (negsuc n) c v =
    Leads-if _ (not d) _ _ (λ _. Destroyed.refused Errno.eperm)
      (λ _. Destroyed.refused Errno.einval)
destroy_session-Leads d (pos n) c v =
    Leads-if _ (not d) _ _ (λ _. Destroyed.refused Errno.eperm)
      (λ _. destroy_found-Leads n c (get_elem? c.session_vec n) refl v)

module _ (c : Rpc) (v : RingsOk c) where
  -- A call of `create_session` that returns gives an error and changes nothing, or gives the number of
  -- one new client session, which is connecting, and takes 32 ring entries for it; the numbers of
  -- sessions are below 2^16. A call of `destroy_session` that returns gives an error and changes
  -- nothing, or finds a client session without requests in progress at that number, and
  -- then a connected one is disconnecting, and one that is being reset stays as it is; in other
  -- states it does not succeed. Both keep sessions and ring entries in order.
  pub calls-RingsOk :
      (d : Bool) (host : List ℕ) (port rid token : ℕ) (n : ℤ) (r : Errno ⊎ ℕ) (q : Errno ⊎ Unit {0})
      (c' c'' : Rpc)
      → length c.session_vec < 2 ^ 16
      → create_session d host port rid token c ≡ ok (r, c')
      → destroy_session d n c ≡ ok (q, c'')
      → (Created c (r, c') × RingsOk c') × (Destroyed n c (q, c'') × RingsOk c'')
  calls-RingsOk d host port rid token n r q c' c'' h e f =
      let a : Created c (r, c') =
        subst (Leads (Created c)) e (create_session-Leads d host port rid token c h) in
      let b : Destroyed n c (q, c'') =
        subst (Leads (Destroyed n c)) f (destroy_session-Leads d n c v) in
      (
        (a, Change-RingsOk c c' (Created-Change c (r, c') a) v),
        (b, Change-RingsOk c c'' (Destroyed-Change n c (q, c'') b) v),
      )
