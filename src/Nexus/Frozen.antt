-- ===== src/Nexus/Frozen.antt =====
-- The table of handlers never changes once an Rpc has been registered, so that Rpcs and background
-- threads read it without the lock.
use sc_code.Common.{
  ℕ, ◌≡◌, ◌≢◌, ◌∙◌, refl, sym, ap, Bool, true, false, Option, some, none, List, ◌∷◌, if◌then◌else◌,
  get_elem?, set, get_elem?-set_ne, snoc, Bool-cases, inl, inr, ok, ◌>>=◌, bind-returns, assert,
  leb, arith,
}
use sc_code.Sm.{SmPkt, SmErrType, sm_pkt_type_is_req, sm_construct_resp}
use sc_code.Sm.Rx.{SmWorkItem}
use sc_code.Datapath.Serve.{ReqFunc}
use sc_code.Datapath.Request.{is_null}
use sc_code.Nexus.{
  Nexus, Hook, RegResult, entry, check_req_func, is_success, register_req_func, register_hook,
  unregister_hook, sm_thread_rx, route, refuse, is_unblock, install_bg, target_rpc_id, max_rpc_id,
  is_hook,
}

-- A call of the application or of an Rpc, or a packet for the session management thread.
pub data Step (n m : Nexus) : Type 0 where
  reg_func : (t : ℕ) (f : ReqFunc) (r : RegResult) → register_req_func t f n ≡ ok (r, m) → Step n m
  reg_hook : (h : Hook) → register_hook h n ≡ ok m → Step n m
  unreg_hook : (addr i : ℕ) → unregister_hook addr i n ≡ ok m → Step n m
  rx : (p : SmPkt) → sm_thread_rx p n ≡ ok m → Step n m

pub data Steps (n : Nexus) : Nexus → Type 0 where
  done : Steps n n
  more : {m k : Nexus} → Steps n m → Step m k → Steps n k

-- What a step does to the table and to the permission to change it.
pub data Change (n m : Nexus) : Type 0 where
  kept :
      m.req_func_arr ≡ n.req_func_arr
      → m.req_func_registration_allowed ≡ n.req_func_registration_allowed
      → Change n m
  closed : m.req_func_arr ≡ n.req_func_arr → m.req_func_registration_allowed ≡ false → Change n m
  added :
      (t : ℕ) (old f : ReqFunc)
      → n.req_func_registration_allowed ≡ true
      → get_elem? n.req_func_arr t ≡ some old
      → old.req_func ≡ none
      → m ≡ record n { req_func_arr = set n.req_func_arr t f }
      → Change n m

-- Success means that all the tests passed.
check-success :
    (allowed : Bool) (old f : ReqFunc) (k : ℕ)
    → is_success (check_req_func allowed old f k) ≡ true
    → (allowed ≡ true) × (old.req_func ≡ none)
unfolding check_req_func
check-success allowed old f k h = ground arith

entry-ok {ℓ} :
    {A : Type ℓ} (arr : List A) (i : ℕ) (a : A) → entry arr i ≡ ok a → get_elem? arr i ≡ some a
unfolding entry
entry-ok arr i a h = ground arith

-- A step that leaves both fields alone.
same-Change :
    (n m k : Nexus)
    → m ≡ k
    → k.req_func_arr ≡ n.req_func_arr
    → k.req_func_registration_allowed ≡ n.req_func_registration_allowed
    → Change n m
same-Change n m k e p q =
    kept (ap (λ x. x.req_func_arr) e ∙ p) (ap (λ x. x.req_func_registration_allowed) e ∙ q)

reg_func-Change :
    (t : ℕ) (f : ReqFunc) (r : RegResult) (n m : Nexus)
    → register_req_func t f n ≡ ok (r, m)
    → Change n m
unfolding register_req_func
reg_func-Change t f r n m h =
    let (old, found, rest) = bind-returns (entry n.req_func_arr t) _ h in
    let c = check_req_func n.req_func_registration_allowed old f n.num_bg_threads in
    let em : m ≡ (if is_success c then record n { req_func_arr = set n.req_func_arr t f } else n) =
      cc in
    elim (Bool-cases (is_success c)) [
      | inl yes_ ↦
          let (allowed, free) =
            check-success n.req_func_registration_allowed old f n.num_bg_threads yes_ in
          added t old f allowed (entry-ok n.req_func_arr t old found) free (em ∙ rw yes_ refl)
      | inr no_ ↦ same-Change n m n (em ∙ rw no_ refl) refl refl
    ]

reg_hook-closes :
    (h : Hook) (n m : Nexus)
    → register_hook h n ≡ ok m
    → (m.req_func_arr ≡ n.req_func_arr) × (m.req_func_registration_allowed ≡ false)
unfolding register_hook
reg_hook-closes h n m e =
    let (_, _, e1) = bind-returns (assert (leb h.rpc_id max_rpc_id)) _ e in
    let (old, _, e2) = bind-returns (entry n.reg_hooks_arr h.rpc_id) _ e1 in
    let (_, _, e3) = bind-returns (assert (is_null old)) _ e2 in
    let installed = record h {
      bg_req_queue_arr = install_bg 0 n.num_bg_threads h.bg_req_queue_arr;
    } in
    let em : m ≡ record n {
      req_func_registration_allowed = false;
      reg_hooks_arr = set n.reg_hooks_arr h.rpc_id (some installed);
    } =
      cc in
    (ap (λ x. x.req_func_arr) em, ap (λ x. x.req_func_registration_allowed) em)

unreg_hook-Change : (addr i : ℕ) (n m : Nexus) → unregister_hook addr i n ≡ ok m → Change n m
unfolding unregister_hook
unreg_hook-Change addr i n m e =
    let (_, _, e1) = bind-returns (assert (leb i max_rpc_id)) _ e in
    let (old, _, e2) = bind-returns (entry n.reg_hooks_arr i) _ e1 in
    let (_, _, e3) = bind-returns (assert (is_hook addr old)) _ e2 in
    same-Change n m (record n { reg_hooks_arr = set n.reg_hooks_arr i none }) (cc) refl refl

refuse-if :
    (is_req : Bool) (p : SmPkt) (n m : Nexus)
    → (if is_req
        then (do
          r ← sm_construct_resp p SmErrType.invalid_remote_rpc_id
          ok (record n { sent = (r.client.hostname, r.client.sm_udp_port, r) ∷ n.sent }))
        else ok n)
      ≡ ok m
    → Change n m
refuse-if true p n m e =
    let (r, _, e1) = bind-returns (sm_construct_resp p SmErrType.invalid_remote_rpc_id) _ e in
    same-Change n m (record n { sent = (r.client.hostname, r.client.sm_udp_port, r) ∷ n.sent }) (cc)
      refl refl
refuse-if false p n m e = same-Change n m n (cc) refl refl

refuse-Change : (p : SmPkt) (n m : Nexus) → refuse p n ≡ ok m → Change n m
unfolding refuse
refuse-Change p n m e = refuse-if (sm_pkt_type_is_req p.pkt_type) p n m e

route-Change : (p : SmPkt) (h : Option Hook) (n m : Nexus) → route p h n ≡ ok m → Change n m
unfolding route
route-Change p none n m e = refuse-Change p n m e
route-Change p (some h) n m e =
    same-Change n m
      (record n {
        reg_hooks_arr =
            set n.reg_hooks_arr (target_rpc_id p)
              (some (record h { sm_rx_queue = snoc h.sm_rx_queue (SmWorkItem.pkt p) }));
      })
      (cc) refl refl

rx-if :
    (unblock : Bool) (p : SmPkt) (n m : Nexus)
    → (if unblock then ok n else (do h ← entry n.reg_hooks_arr (target_rpc_id p); route p h n))
      ≡ ok m
    → Change n m
rx-if true p n m e = same-Change n m n (cc) refl refl
rx-if false p n m e =
    let (h, _, e1) = bind-returns (entry n.reg_hooks_arr (target_rpc_id p)) _ e in
    route-Change p h n m e1

Step-Change : {n m : Nexus} → Step n m → Change n m
unfolding sm_thread_rx
Step-Change {n} {m} (reg_func t f r e) = reg_func-Change t f r n m e
Step-Change {n} {m} (reg_hook h e) = (let (p, q) = reg_hook-closes h n m e in closed p q)
Step-Change {n} {m} (unreg_hook addr i e) = unreg_hook-Change addr i n m e
Step-Change {n} {m} (rx p e) = rx-if (is_unblock p.pkt_type) p n m e

Change-closed :
    {n m : Nexus}
    → Change n m
    → n.req_func_registration_allowed ≡ false
    → (m.req_func_arr ≡ n.req_func_arr) × (m.req_func_registration_allowed ≡ false)
Change-closed (kept p q) h = (p, q ∙ h)
Change-closed (closed p q) h = (p, q)
Change-closed (added t old f allowed e u s) h = absurd (cc)

Change-keeps :
    {n m : Nexus} (t : ℕ) (f : ReqFunc)
    → Change n m
    → get_elem? n.req_func_arr t ≡ some f
    → f.req_func ≢ none
    → get_elem? m.req_func_arr t ≡ some f
Change-keeps t f (kept p q) e u = ap (λ arr. get_elem? arr t) p ∙ e
Change-keeps t f (closed p q) e u = ap (λ arr. get_elem? arr t) p ∙ e
Change-keeps {n} t f (added t' old f' allowed there free s) e u =
    ap (λ x. get_elem? x.req_func_arr t) s
    ∙ get_elem?-set_ne n.req_func_arr t' t f' (λ same.
      let here : get_elem? n.req_func_arr t ≡ some old =
        ap (get_elem? n.req_func_arr) (sym same) ∙ there in
      let eq : f ≡ old = cc in u (ap (λ x. x.req_func) eq ∙ free))
    ∙ e

-- Whatever the application, the Rpcs and the network do once an Rpc has been registered, the table of
-- handlers stays as it is.
pub handlers_frozen :
    {n m : Nexus} (h : Hook) (k : Nexus)
    → register_hook h k ≡ ok n
    → Steps n m
    → (m.req_func_arr ≡ k.req_func_arr) × (m.req_func_registration_allowed ≡ false)
handlers_frozen {n} h k e done = reg_hook-closes h k n e
handlers_frozen {n} {m} h k e (more {m = l} steps step) =
    let (same, shut) = handlers_frozen h k e steps in
    let (p, q) = Change-closed (Step-Change step) shut in (p ∙ same, q)

-- Before that too, a handler that is in the table stays there.
pub handler_kept :
    {n m : Nexus} (t : ℕ) (f : ReqFunc)
    → get_elem? n.req_func_arr t ≡ some f
    → f.req_func ≢ none
    → Steps n m
    → get_elem? m.req_func_arr t ≡ some f
handler_kept t f e set_ done = e
handler_kept {n} {m} t f e set_ (more {m = l} steps step) =
    Change-keeps t f (Step-Change step) (handler_kept t f e set_ steps) set_
