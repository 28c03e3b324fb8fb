-- ===== src/Datapath/Kick.antt =====
-- Sending under credits: `kick_req_st` and `kick_rfr_st` of src/rpc_impl/rpc_kick.cc with
-- `enqueue_rfr_st` of src/rpc_impl/rpc_rfr.cc and `req_pkts_pending` of src/rpc.h.
pub mod Req
pub mod Rfr
use sc_code.Common.{
  ℕ, zero, suc, ◌+◌, ◌%◌, ◌^◌, Bool, Option, none, some, List, [], ◌∷◌, ltb, min, ◌≡◌, ◌<◌, ◌-◌,
  refl, Outcome, ok, err, bad_access, assert, ◌>>=◌, ◌>>◌,
}
use sc_code.Packet.{PktHdr, PktType}
use sc_code.Packet.Sizes.{wire_pkts}
use sc_code.Datapath.{Config, Serializer, SSlot, Flow, session_credits}
use sc_code.Datapath.Words.{add_size, sub_size, add_size_exact, sub_size_exact}
use sc_code.Datapath.Batch.{enqueue_pkt_tx_burst, enqueue_hdr_tx_burst}
use sc_code.Datapath.Ctrl.{ctrl_hdr, take_ctrl}

-- Header 0 of a message, `get_n_hdr(0)` and `iov[0].iov_base`.
unfoldable pub hdr_0 : Serializer → Outcome PktHdr
hdr_0 msg = elim msg.hdrs [ [] ↦ err bad_access | h ∷ hs ↦ ok h ]

unfoldable pub tx_msg : SSlot → Outcome Serializer
tx_msg slot = elim slot.tx_msgbuf [ none ↦ err bad_access | some msg ↦ ok msg ]

pub tx_msg-some :
    (slot : SSlot) (msg : Serializer) → slot.tx_msgbuf ≡ some msg → tx_msg slot ≡ ok msg
unfolding tx_msg
tx_msg-some slot msg e = rw e

pub hdr_0-cons :
    (msg : Serializer) (h : PktHdr) (hs : List PktHdr) → msg.hdrs ≡ h ∷ hs → hdr_0 msg ≡ ok h
unfolding hdr_0
hdr_0-cons msg h hs e = rw e

unfoldable pub req_pkts_pending : SSlot → Outcome Bool
req_pkts_pending slot = do msg ← tx_msg slot; ok (ltb slot.num_tx msg.total_pkg)

-- `ci.num_tx_++; credits--;`
abbrev pub spend : Flow → Flow
spend f = record f {
  slot = record (f.slot) { num_tx = add_size f.slot.num_tx 1 };
  credits = sub_size f.credits 1;
}

pub spend-exact :
    (f : Flow)
    → 0 < f.credits
    → f.credits < 2 ^ 64
    → f.slot.num_tx + 1 < 2 ^ 64
    → spend f
      ≡ record f { slot = record (f.slot) { num_tx = f.slot.num_tx + 1 }; credits = f.credits - 1 }
spend-exact f c d e = rw (add_size_exact f.slot.num_tx 1 e, sub_size_exact f.credits 1 c d) refl

module _ (cfg : Config) where
  unfoldable pub kick_req_loop : ℕ → Serializer → Flow → Outcome Flow
  kick_req_loop zero msg f = ok f
  kick_req_loop (suc n) msg f = do
    f' ← enqueue_pkt_tx_burst cfg f.slot.num_tx (some (f.slot.num_tx % session_credits)) msg f
    kick_req_loop n msg (spend f')

  -- `can_bypass_wheel` is evaluated too, and its result is not used.
  unfoldable pub kick_req : Flow → Outcome Flow
  kick_req f = do
    assert (ltb 0 f.credits)
    msg ← tx_msg f.slot
    h ← hdr_0 msg
    kick_req_loop (min f.credits (sub_size h.total_pkt f.slot.num_tx)) msg f

  unfoldable pub enqueue_rfr : PktHdr → Flow → Outcome Flow
  enqueue_rfr resp_hdr f = do
    msg ← tx_msg f.slot
    h ← hdr_0 msg
    (hdr, ring) ←
        take_ctrl cfg
          (ctrl_hdr resp_hdr.req_type 0 f.remote_session_num PktType.rfr
            (add_size (sub_size f.slot.num_tx h.total_pkt) 1) resp_hdr.req_num)
          f.ctrl
    enqueue_hdr_tx_burst cfg hdr (record f { ctrl = ring })

  unfoldable pub kick_rfr_loop : ℕ → PktHdr → Flow → Outcome Flow
  kick_rfr_loop zero resp_hdr f = ok f
  kick_rfr_loop (suc n) resp_hdr f = do
    f' ← enqueue_rfr resp_hdr f
    kick_rfr_loop n resp_hdr (spend f')

  -- The header is `none` where the caller passes a null pointer.
  unfoldable pub kick_rfr : Option PktHdr → Flow → Outcome Flow
  kick_rfr pkthdr f = do
    assert (ltb 0 f.credits)
    msg ← tx_msg f.slot
    h ← hdr_0 msg
    elim pkthdr [
      | none ↦ err bad_access
      | some p ↦
          let pending = sub_size (wire_pkts h.total_pkt p.total_pkt) f.slot.num_tx in
          kick_rfr_loop (min f.credits pending) p f
    ]
