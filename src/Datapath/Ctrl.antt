-- ===== src/Datapath/Ctrl.antt =====
-- The ring of control headers, and the header of an RFR or a credit return: the common first half
-- of `enqueue_rfr_st` (src/rpc_impl/rpc_rfr.cc) and `enqueue_cr_st` (src/rpc_impl/rpc_cr.cc).
use sc_code.Common.{
  ℕ, ◌+◌, ◌*◌, ◌%◌, ◌^◌, ◌<◌, ◌≡◌, none, some, ◌==◌, if◌then◌else◌, length, set, get_elem?,
  get_elem?-total, length-set, Outcome, ok, err, bad_access, arith,
}
use sc_code.Datapath.{Config, CtrlRing}
use sc_code.Packet.{PktHdr, PktType, pkt_hdr_magic, msg_size_bits}

-- What the two calls write; `lkey` and `total_pkt` stay as they are in the ring.
unfoldable pub ctrl_hdr : ℕ → ℕ → ℕ → PktType → ℕ → ℕ → PktHdr → PktHdr
ctrl_hdr req_type msg_size remote_session_num pkt_type pkt_num req_num h = record h {
  req_type = req_type;
  msg_size = msg_size % 2 ^ msg_size_bits;
  dest_session_num = remote_session_num % 2 ^ 4;
  pkt_type = pkt_type;
  pkt_num = pkt_num % 2 ^ 16;
  req_num = req_num;
  magic = pkt_hdr_magic;
  this_msg_size = 0;
}

module _ (cfg : Config) where
  -- `int index = ctrl_msgbuf_head_++; if (ctrl_msgbuf_head_ == 2 * kUnsigBatch) ... = 0;`
  unfoldable pub next_head : ℕ → ℕ
  next_head head = if head + 1 == 2 * cfg.unsig_batch then 0 else head + 1

  unfoldable pub take_ctrl : (PktHdr → PktHdr) → CtrlRing → Outcome (PktHdr × CtrlRing)
  unfolding next_head
  take_ctrl fill r = elim (get_elem? r.hdrs r.head) [
    | none ↦ err bad_access
    | some h ↦ ok (fill h, record r { hdrs = set r.hdrs r.head (fill h); head = next_head r.head })
  ]

  pub record IsRing (r : CtrlRing) : Type 0 where
    pub size : length r.hdrs ≡ 2 * cfg.unsig_batch
    pub in_range : r.head < 2 * cfg.unsig_batch

module _ (cfg : Config) where
  -- A header is always there to take, and the ring stays in range.
  pub take_ctrl-IsRing :
      (fill : PktHdr → PktHdr) (r : CtrlRing)
      → IsRing cfg r
      → (h : PktHdr) × (r' : CtrlRing) × (take_ctrl cfg fill r ≡ ok (fill h, r')) × IsRing cfg r'
  unfolding take_ctrl
  take_ctrl-IsRing fill r v =
      let (h, e) = get_elem?-total r.hdrs r.head (omega (arith, v.size, v.in_range)) in
      (
        h,
        record r { hdrs = set r.hdrs r.head (fill h); head = next_head cfg r.head },
        rw (e, take_ctrl),
        ground (arith, length-set r.hdrs r.head (fill h)),
      )
