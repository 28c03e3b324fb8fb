-- ===== src/Nexus/Tests.antt =====
-- A Nexus with two background threads, and the theorems at it.
use sc_code.Common.{
  ℕ, ◌≤◌, ◌≡◌, ◌⊎◌, ◌↔◌, refl, [], ◌∷◌, some, none, ok, true, false, get_elem?, replicate, arith,
}
use sc_code.Sm.{SmPkt, SmPktType, SmErrType, SessionEndpoint}
use sc_code.Datapath.Serve.{ReqFunc}
use sc_code.Nexus.{
  Nexus, Hook, RegResult, no_req_func, register_req_func, register_hook, sm_thread_rx, BgCall,
  BgWorkItem, bg_thread,
}
use sc_code.Nexus.Ports.{get_dpath_udp_port, Neighbours, get_dpath_udp_port_collides}
use sc_code.Nexus.Routing.{Queued, Refused, Dropped, sm_thread_rx_routes}
use sc_code.Nexus.Frozen.{done, more, reg_func, handlers_frozen, handler_kept}

-- Rpc 254 of the process at 31800 and Rpc 0 of the one at 31801 have the same port.
get_dpath_udp_port_collides_example :
    (31900 ≤ get_dpath_udp_port 31800 254)
    × ((get_dpath_udp_port 31800 254 ≡ get_dpath_udp_port 31801 0) ↔ (
        ((◌≡◌ {A = ℕ} 31800 31801) × (◌≡◌ {A = ℕ} 254 0))
        ⊎ (Neighbours 31800 254 31801 0 ⊎ Neighbours 31801 0 31800 254)))
get_dpath_udp_port_collides_example =
    get_dpath_udp_port_collides 31800 254 31801 0 (omega arith) (omega arith)

ports_run : (get_dpath_udp_port 31800 254 ≡ 32154) × (get_dpath_udp_port 31801 0 ≡ 32154)
unfolding get_dpath_udp_port
ports_run = (refl, refl)

abbrev nexus : Nexus
nexus = record {
  hostname = 104 ∷ [];
  sm_udp_port = 31850;
  num_bg_threads = 2;
  req_func_arr = no_req_func ∷ no_req_func ∷ no_req_func ∷ [];
  req_func_registration_allowed = true;
  reg_hooks_arr = none ∷ none ∷ [];
  kill_switch = false;
  sent = [];
}

abbrev echo : ReqFunc
echo = record { req_func = some 70; is_background = false }

abbrev with_echo : Nexus
with_echo = record nexus { req_func_arr = no_req_func ∷ echo ∷ no_req_func ∷ [] }

register_runs : register_req_func 1 echo nexus ≡ ok (RegResult.success, with_echo)
unfolding register_req_func
register_runs = refl

register_twice : register_req_func 1 echo with_echo ≡ ok (RegResult.eexist, with_echo)
unfolding register_req_func
register_twice = refl

abbrev hook : Hook
hook = record { addr = 900; rpc_id = 1; bg_req_queue_arr = replicate 8 none; sm_rx_queue = [] }

abbrev with_rpc : Nexus
with_rpc = record with_echo {
  req_func_registration_allowed = false;
  reg_hooks_arr =
      none
      ∷ some (record hook {
        bg_req_queue_arr = some 0 ∷ some 1 ∷ none ∷ none ∷ none ∷ none ∷ none ∷ none ∷ [];
      })
      ∷ [];
}

hook_runs : register_hook hook with_echo ≡ ok with_rpc
unfolding register_hook
hook_runs = refl

-- A registration that comes too late.
late : register_req_func 2 echo with_rpc ≡ ok (RegResult.eperm, with_rpc)
unfolding register_req_func
late = refl

handlers_frozen_example :
    (with_rpc.req_func_arr ≡ with_echo.req_func_arr)
    × (with_rpc.req_func_registration_allowed ≡ false)
handlers_frozen_example =
    handlers_frozen hook with_echo hook_runs (more done (reg_func 2 echo RegResult.eperm late))

handler_kept_example : get_elem? with_rpc.req_func_arr 1 ≡ some echo
handler_kept_example =
    handler_kept 1 echo refl (λ e. cc) (more done (reg_func 2 echo RegResult.eperm late))

abbrev endpoint : ℕ → SessionEndpoint
endpoint rpc_id = record {
  transport_type = 2;
  hostname = 104 ∷ [];
  sm_udp_port = 31850;
  rpc_id = rpc_id;
  session_num = 0;
  routing_info = 0;
}

abbrev connect : SmPkt
connect = record {
  pkt_type = SmPktType.connect_req;
  err_type = SmErrType.no_error;
  uniq_token = 5;
  client = endpoint 1;
  server = endpoint 0;
}

sm_thread_rx_routes_example :
    (n' : Nexus) × (sm_thread_rx connect with_rpc ≡ ok n')
    × (Queued connect with_rpc n' ⊎ (Refused connect with_rpc n' ⊎ Dropped connect with_rpc n'))
sm_thread_rx_routes_example = sm_thread_rx_routes connect with_rpc refl (omega arith)

bg_runs :
    bg_thread (BgWorkItem.req_item 8 3 1 ∷ BgWorkItem.resp_item 8 60 9 ∷ []) with_rpc []
    ≡ ok (BgCall.continuation 60 9 8 ∷ BgCall.handler 70 3 8 ∷ [])
unfolding bg_thread
bg_runs = refl
