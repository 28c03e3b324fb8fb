-- ===== src/Sm/Helpers.antt =====
-- Ring entries and session lookup (src/rpc.h), `bury_session_st`, `sm_pkt_udp_tx_st` and
-- `send_sm_req_st` (src/rpc_impl/rpc_sm_helpers.cc), and `strcpy` into a hostname.
use sc_code.Common.{
  ℕ, ◌+◌, ◌-◌, Bool, true, false, Option, none, some, List, [], ◌∷◌, ltb, leb, ◌==◌, if◌then◌else◌,
  length, get_elem?, set, Outcome, ok, err, bad_access, runtime_error, assert, ◌>>◌,
}
use sc_code.Datapath.{session_credits}
use sc_code.Sm.{
  SessionState, state_eq, SmPktType, sm_pkt_type_is_req, SmErrType, SmPkt, SmSession, Rpc,
  SmEventType,
}

abbrev pub max_hostname_len : ℕ
max_hostname_len = 128

abbrev pub num_rx_ring_entries : ℕ
num_rx_ring_entries = 32768

-- `strcpy` into a `char[kMaxHostnameLen]`, which has to hold the terminator too.
abbrev pub copy_hostname : List ℕ → Outcome (List ℕ)
copy_hostname name = if ltb (length name) max_hostname_len then ok name else err bad_access

abbrev pub have_ring_entries : Rpc → Bool
have_ring_entries c = leb session_credits c.ring_entries_available

unfoldable pub alloc_ring_entries : Rpc → Outcome Rpc
alloc_ring_entries c = do
  assert (have_ring_entries c)
  ok (record c { ring_entries_available = c.ring_entries_available - session_credits })

unfoldable pub free_ring_entries : Rpc → Outcome Rpc
free_ring_entries c = do
  assert (leb (c.ring_entries_available + session_credits) num_rx_ring_entries)
  ok (record c { ring_entries_available = c.ring_entries_available + session_credits })

-- `session_vec_[i]` under its assertion.
unfoldable pub session_at : ℕ → Rpc → Outcome (Option SmSession)
session_at i c = elim (get_elem? c.session_vec i) [ none ↦ err bad_access | some s ↦ ok s ]

-- `session_vec_.at(..) = nullptr`, which throws out of range.
unfoldable pub bury_session : SmSession → Rpc → Outcome Rpc
bury_session s c =
    if ltb s.local_session_num (length c.session_vec)
    then ok (record c { session_vec = set c.session_vec s.local_session_num none })
    else err runtime_error

-- To the server for a request, to the client for a response.
unfoldable pub sm_pkt_udp_tx : SmPkt → Rpc → Rpc
sm_pkt_udp_tx p c =
    let to = if sm_pkt_type_is_req p.pkt_type then p.server else p.client in
    record c { sent = (to.hostname, to.sm_udp_port, p) ∷ c.sent }

-- `std::set::insert` and `erase`
abbrev pub has : ℕ → List ℕ → Bool
has n [] = false
has n (m ∷ ms) = if n == m then true else has n ms

abbrev pub insert : ℕ → List ℕ → List ℕ
insert n ms = if has n ms then ms else n ∷ ms

abbrev pub erase : ℕ → List ℕ → List ℕ
erase n [] = []
erase n (m ∷ ms) = if n == m then ms else m ∷ erase n ms

abbrev pub req_pkt : SmSession → SmPkt
req_pkt s = record {
  pkt_type =
      if state_eq s.state SessionState.connect_in_progress
      then SmPktType.connect_req
      else SmPktType.disconnect_req;
  err_type = SmErrType.no_error;
  uniq_token = s.uniq_token;
  client = s.client;
  server = s.server;
}

-- The session in the vector at its own number.
abbrev pub put_session : SmSession → Rpc → Rpc
put_session s c = record c { session_vec = set c.session_vec s.local_session_num (some s) }

unfoldable pub send_sm_req : SmSession → Rpc → Rpc
unfolding sm_pkt_udp_tx
send_sm_req s c =
    let s' = record s { sm_req_ts = c.tsc } in
    sm_pkt_udp_tx (req_pkt s')
      (record (put_session s' c) { sm_pending_reqs = insert s.local_session_num c.sm_pending_reqs })

-- A call of `sm_handler_`.
abbrev pub notify : SmSession → SmEventType → SmErrType → Rpc → Rpc
notify s event error c = record c {
  events = record { session_num = s.local_session_num; event = event; error = error } ∷ c.events;
}
