-- ===== src/Datapath/Rx.antt =====
-- Receive dispatch: `process_comps_st` of src/rpc_impl/rpc_rx.cc, over the handlers that it calls. What
-- `rx_burst` returns and has put into the ring is the transport's, and `post_recvs` too.
pub mod Ring
pub mod Slot
mod Tests
use sc_code.Common.{
  ℕ, zero, suc, ◌+◌, ◌*◌, ◌/◌, ◌%◌, Option, none, some, List, leb, ◌==◌, if◌then◌else◌, get_elem?,
  Outcome, ok, err, bad_access, assert, ◌>>=◌, ◌>>◌,
}
use sc_code.Alloc.{k_max_class_size}
use sc_code.Packet.{PktHdr, PktType}
use sc_code.Datapath.{Config, session_req_window}
use sc_code.Datapath.Words.{sub_size}
use sc_code.Sm.{SessionState, state_eq}
use sc_code.Sm.Helpers.{num_rx_ring_entries}

abbrev pub max_msg_size : Config → ℕ
max_msg_size cfg =
    sub_size k_max_class_size (k_max_class_size / cfg.max_data_per_pkt * cfg.hdr_size)

-- What the dispatch uses of an Rpc: the states of its sessions, `none` for a buried one, and the
-- handlers, which take the session, the slot, the header and the body. The last number of `resp_one`
-- and `expl_cr` is the time of arrival.
pub record Handlers (S : Type 0) : Type 0 where
  pub session_vec : S → List (Option SessionState)
  pub small_req : ℕ → ℕ → PktHdr → ℕ → S → Outcome S
  pub large_req_one : ℕ → ℕ → PktHdr → ℕ → S → Outcome S
  pub resp_one : ℕ → ℕ → PktHdr → ℕ → ℕ → S → Outcome S
  pub rfr : ℕ → ℕ → PktHdr → S → Outcome S
  pub expl_cr : ℕ → ℕ → PktHdr → ℕ → S → Outcome S

-- `rx_ring_`, a header and a body in each entry, with `rx_ring_head_`, `ev_loop_tsc_` and the rest.
pub record Receiver (S : Type 0) : Type 0 where
  pub rx_ring : List (PktHdr × ℕ)
  pub rx_ring_head : ℕ
  pub ev_loop_tsc : ℕ
  pub rpc : S

abbrev pub next_rx_head : ℕ → ℕ
next_rx_head head = if head + 1 == num_rx_ring_entries then 0 else head + 1

module _ (cfg : Config) {S : Type 0} (handlers : Handlers S) where
  -- `switch (pkthdr->pkt_type_)`. `kCcOptBatchTsc` is true, so that one time serves the whole batch.
  unfoldable pub dispatch_pkt : PktHdr → ℕ → ℕ → S → Outcome S
  dispatch_pkt pkthdr body rx_tsc rpc =
      let session = pkthdr.dest_session_num in
      let sslot_i = pkthdr.req_num % session_req_window in
      elim pkthdr.pkt_type [
        | PktType.req ↦
            if leb pkthdr.msg_size cfg.max_data_per_pkt
            then handlers.small_req session sslot_i pkthdr body rpc
            else handlers.large_req_one session sslot_i pkthdr body rpc
        | PktType.rfr ↦ handlers.rfr session sslot_i pkthdr rpc
        | PktType.expl_cr ↦ handlers.expl_cr session sslot_i pkthdr rx_tsc rpc
        | PktType.resp ↦ handlers.resp_one session sslot_i pkthdr body rx_tsc rpc
      ]

  -- One round of the loop, after the entry has been read. A packet for no session, for a buried one or
  -- for one that is not connected is dropped.
  unfoldable pub receive : PktHdr × ℕ → ℕ → S → Outcome S
  receive (pkthdr, body) rx_tsc rpc = do
    assert (leb pkthdr.msg_size (max_msg_size cfg))
    elim (get_elem? (handlers.session_vec rpc) pkthdr.dest_session_num) [
      | none ↦ ok rpc
      | some none ↦ ok rpc
      | some (some state) ↦
          if state_eq state SessionState.connected
          then dispatch_pkt pkthdr body rx_tsc rpc
          else ok rpc
    ]

  unfoldable pub process_comps_loop : ℕ → Receiver S → Outcome (Receiver S)
  process_comps_loop zero r = ok r
  process_comps_loop (suc n) r = elim (get_elem? r.rx_ring r.rx_ring_head) [
    | none ↦ err bad_access
    | some entry ↦ do
      rpc ← receive entry r.ev_loop_tsc r.rpc
      process_comps_loop n (record r { rx_ring_head = next_rx_head r.rx_ring_head; rpc = rpc })
  ]

  unfoldable pub process_comps : ℕ → Receiver S → Outcome (Receiver S)
  process_comps num_pkts r = if num_pkts == 0 then ok r else process_comps_loop num_pkts r
