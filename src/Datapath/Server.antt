-- ===== src/Datapath/Server.antt =====
-- The server's answers to single packets: `enqueue_cr_st` (src/rpc_impl/rpc_cr.cc) and
-- `process_rfr_st` (src/rpc_impl/rpc_rfr.cc), with `resp_ntoi` of src/rpc.h.
pub mod Answers
use sc_code.Common.{
  ℕ, Bool, not, Option, none, some, List, [], ◌∷◌, leb, Outcome, ok, err, bad_access, assert, ◌>>=◌,
  ◌>>◌,
}
use sc_code.Packet.{PktHdr, PktType}
use sc_code.Datapath.{Config, Serializer, data_pkt, ctrl_pkt, Tx, CtrlRing}
use sc_code.Datapath.Words.{add_size, sub_size}
use sc_code.Datapath.Batch.{enqueue_item}
use sc_code.Datapath.Ctrl.{ctrl_hdr, take_ctrl}

-- A server slot with its session's numbers, and the sending side.
pub record ServerFlow : Type 0 where
  pub session : ℕ
  pub remote_session_num : ℕ
  pub is_client : Bool
  pub index : ℕ
  pub tx_msgbuf : Option Serializer
  pub cur_req_num : ℕ
  pub num_rx : ℕ
  pub sav_num_req_pkts : ℕ
  pub tx : Tx
  pub ctrl : CtrlRing

abbrev pub resp_ntoi : ℕ → ℕ → ℕ
resp_ntoi pkt_num num_req_pkts = sub_size pkt_num (sub_size num_req_pkts 1)

module _ (cfg : Config) where
  -- `ctrl_size` is `sizeof(erpc::ctrl_buffer)`.
  unfoldable pub enqueue_cr : ℕ → PktHdr → ServerFlow → Outcome ServerFlow
  enqueue_cr ctrl_size req_hdr f = do
    (hdr, ring) ←
        take_ctrl cfg
          (ctrl_hdr req_hdr.req_type ctrl_size f.remote_session_num PktType.expl_cr req_hdr.pkt_num
            req_hdr.req_num)
          f.ctrl
    t ← enqueue_item cfg (ctrl_pkt f.session f.index hdr) f.tx
    ok (record f { ctrl = ring; tx = t })

  -- The transport reads the message of the packet, so that there has to be one.
  unfoldable pub process_rfr : PktHdr → ServerFlow → Outcome ServerFlow
  process_rfr pkthdr f = do
    assert (not f.is_client)
    assert (leb pkthdr.req_num f.cur_req_num)
    elim f.tx_msgbuf [
      | none ↦ err bad_access
      | some msg ↦ do
        t ←
            enqueue_item cfg
              (data_pkt f.session f.index msg (resp_ntoi pkthdr.pkt_num f.sav_num_req_pkts) none)
              f.tx
        ok (record f { num_rx = add_size f.num_rx 1; tx = t })
    ]

  unfoldable pub process_rfrs : List PktHdr → ServerFlow → Outcome ServerFlow
  unfolding process_rfr
  process_rfrs [] f = ok f
  process_rfrs (h ∷ hs) f = do f' ← process_rfr h f; process_rfrs hs f'
