-- ===== src/Nexus.antt =====
-- The Nexus of src/nexus.h: registration of handlers and of Rpcs (src/nexus_impl/nexus.cc), the thread
-- that hands session management packets to Rpcs (nexus_sm_thread.cc), and the background threads
-- (nexus_bg_thread.cc). Each call runs under the lock of the hooks, as one step.
pub mod Ports
pub mod Routing
pub mod Frozen
mod Tests
use sc_code.Common.{
  ℕ, zero, suc, ◌+◌, Bool, true, false, not, ◌&&◌, Option, none, some, List, [], ◌∷◌, ltb, leb,
  ◌==◌, if◌then◌else◌, get_elem?, set, snoc, replicate, Outcome, ok, err, bad_access, runtime_error,
  assert, ◌>>=◌, ◌>>◌,
}
use sc_code.Sm.{SmPkt, SmPktType, SmErrType, sm_pkt_type_is_req, sm_construct_resp}
use sc_code.Sm.Rx.{SmWorkItem}
use sc_code.Datapath.Serve.{ReqFunc}
use sc_code.Datapath.Request.{is_null}

abbrev pub max_rpc_id : ℕ
max_rpc_id = 254

abbrev pub max_bg_threads : ℕ
max_bg_threads = 8

abbrev pub max_numa_nodes : ℕ
max_numa_nodes = 8

abbrev pub base_sm_udp_port : ℕ
base_sm_udp_port = 31800

abbrev pub max_num_erpc_processes : ℕ
max_num_erpc_processes = 100

abbrev pub req_type_array_size : ℕ
req_type_array_size = 256

-- A hook by its address; `bg_req_queue_arr` has the Nexus's queues by index, and a null pointer for a
-- thread that there is not.
pub record Hook : Type 0 where
  pub addr : ℕ
  pub rpc_id : ℕ
  pub bg_req_queue_arr : List (Option ℕ)
  pub sm_rx_queue : List SmWorkItem

-- `sent` is what the session management thread has sent, latest first.
pub record Nexus : Type 0 where
  pub hostname : List ℕ
  pub sm_udp_port : ℕ
  pub num_bg_threads : ℕ
  pub req_func_arr : List ReqFunc
  pub req_func_registration_allowed : Bool
  pub reg_hooks_arr : List (Option Hook)
  pub kill_switch : Bool
  pub sent : List (List ℕ × ℕ × SmPkt)

-- `ReqFunc()`; its type is not initialised.
abbrev pub no_req_func : ReqFunc
no_req_func = record { req_func = none; is_background = false }

-- The constructor, with the URI already split. The launch of the threads is not modelled.
unfoldable pub new_nexus : List ℕ → ℕ → ℕ → ℕ → Outcome Nexus
new_nexus hostname sm_udp_port numa_node num_bg_threads =
    if leb base_sm_udp_port sm_udp_port
      && ltb sm_udp_port (base_sm_udp_port + max_num_erpc_processes)
      && leb num_bg_threads max_bg_threads
      && ltb numa_node max_numa_nodes
    then ok (record {
      hostname = hostname;
      sm_udp_port = sm_udp_port;
      num_bg_threads = num_bg_threads;
      req_func_arr = replicate req_type_array_size no_req_func;
      req_func_registration_allowed = true;
      reg_hooks_arr = replicate (max_rpc_id + 1) none;
      kill_switch = false;
      sent = [];
    })
    else err runtime_error

-- An entry of an array, under its bounds.
unfoldable pub entry {ℓ} : {A : Type ℓ} → List A → ℕ → Outcome A
entry arr i = elim (get_elem? arr i) [ none ↦ err bad_access | some a ↦ ok a ]

unfoldable pub rpc_id_exists : ℕ → Nexus → Outcome Bool
unfolding entry
rpc_id_exists rpc_id n = do h ← entry n.reg_hooks_arr rpc_id; ok (not (is_null h))

-- `hook->bg_req_queue_arr_[i] = &bg_req_queue_[i]`, for `n` threads from `i` on.
unfoldable pub install_bg : ℕ → ℕ → List (Option ℕ) → List (Option ℕ)
install_bg i zero arr = arr
install_bg i (suc n) arr = install_bg (i + 1) n (set arr i (some i))

unfoldable pub register_hook : Hook → Nexus → Outcome Nexus
unfolding entry install_bg
register_hook hook n = do
  assert (leb hook.rpc_id max_rpc_id)
  h ← entry n.reg_hooks_arr hook.rpc_id
  assert (is_null h)
  let installed = record hook {
    bg_req_queue_arr = install_bg 0 n.num_bg_threads hook.bg_req_queue_arr;
  }
  ok (record n {
    req_func_registration_allowed = false;
    reg_hooks_arr = set n.reg_hooks_arr hook.rpc_id (some installed);
  })

abbrev pub is_hook : ℕ → Option Hook → Bool
is_hook addr none = false
is_hook addr (some h) = h.addr == addr

unfoldable pub unregister_hook : ℕ → ℕ → Nexus → Outcome Nexus
unfolding entry
unregister_hook addr rpc_id n = do
  assert (leb rpc_id max_rpc_id)
  h ← entry n.reg_hooks_arr rpc_id
  assert (is_hook addr h)
  ok (record n { reg_hooks_arr = set n.reg_hooks_arr rpc_id none })

-- What `register_req_func` returns: 0, `-EPERM`, `-EEXIST` or `-EINVAL`.
pub data RegResult : Type 0 where
  success eperm eexist einval : RegResult

-- The tests in the order of the source, for a slot of the table that holds `old`.
unfoldable pub check_req_func : Bool → ReqFunc → ReqFunc → ℕ → RegResult
check_req_func allowed old func num_bg_threads =
    if not allowed
    then RegResult.eperm
    else if not (is_null old.req_func)
    then RegResult.eexist
    else if is_null func.req_func
    then RegResult.einval
    else if func.is_background && num_bg_threads == 0
    then RegResult.eperm
    else RegResult.success

abbrev pub is_success : RegResult → Bool
is_success RegResult.success = true
is_success RegResult.eperm = false
is_success RegResult.eexist = false
is_success RegResult.einval = false

unfoldable pub register_req_func : ℕ → ReqFunc → Nexus → Outcome (RegResult × Nexus)
unfolding entry check_req_func
register_req_func req_type func n = do
  old ← entry n.req_func_arr req_type
  let r = check_req_func n.req_func_registration_allowed old func n.num_bg_threads
  ok (r, if is_success r then record n { req_func_arr = set n.req_func_arr req_type func } else n)

-- No Rpc has the ID: a request is answered with an error, anything else is dropped.
unfoldable pub refuse : SmPkt → Nexus → Outcome Nexus
refuse p n =
    if sm_pkt_type_is_req p.pkt_type
    then (do
      r ← sm_construct_resp p SmErrType.invalid_remote_rpc_id
      ok (record n { sent = (r.client.hostname, r.client.sm_udp_port, r) ∷ n.sent }))
    else ok n

abbrev pub target_rpc_id : SmPkt → ℕ
target_rpc_id p = if sm_pkt_type_is_req p.pkt_type then p.server.rpc_id else p.client.rpc_id

unfoldable pub route : SmPkt → Option Hook → Nexus → Outcome Nexus
unfolding refuse
route p none n = refuse p n
route p (some h) n = ok (record n {
  reg_hooks_arr =
      set n.reg_hooks_arr (target_rpc_id p)
        (some (record h { sm_rx_queue = snoc h.sm_rx_queue (SmWorkItem.pkt p) }));
})

abbrev pub is_unblock : SmPktType → Bool
is_unblock SmPktType.unblock = true
is_unblock t = false

-- One packet in `sm_thread_func`.
unfoldable pub sm_thread_rx : SmPkt → Nexus → Outcome Nexus
unfolding route entry
sm_thread_rx p n =
    if is_unblock p.pkt_type
    then ok n
    else (do h ← entry n.reg_hooks_arr (target_rpc_id p); route p h n)

-- `BgWorkItem`: a slot with its request's type, or a continuation with its tag.
pub data BgWorkItem : Type 0 where
  req_item : ℕ → ℕ → ℕ → BgWorkItem
  resp_item : ℕ → ℕ → ℕ → BgWorkItem

-- What a background thread calls: a handler on a slot, or a continuation on a tag, with the context.
pub data BgCall : Type 0 where
  handler continuation : ℕ → ℕ → ℕ → BgCall

-- The loop over the queue of a thread, with what it calls, latest first.
unfoldable pub bg_thread : List BgWorkItem → Nexus → List BgCall → Outcome (List BgCall)
unfolding entry
bg_thread [] n calls = ok calls
bg_thread (resp_item context cont_func tag ∷ queue) n calls =
    bg_thread queue n (continuation cont_func tag context ∷ calls)
bg_thread (req_item context sslot req_type ∷ queue) n calls = do
  f ← entry n.req_func_arr req_type
  elim f.req_func [
    | none ↦ err bad_access
    | some h ↦ bg_thread queue n (handler h sslot context ∷ calls)
  ]
