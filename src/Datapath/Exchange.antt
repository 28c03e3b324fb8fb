-- ===== src/Datapath/Exchange.antt =====
-- A request of several packets over a network that delivers in order: the client's sending, the
-- server's handling and the credit returns, put together. What the two sides agree on is the headers.
pub mod Credits
pub mod Whole
mod Tests
use sc_code.Common.{
  ℕ, zero, suc, ◌+◌, ◌-◌, ◌%◌, ◌^◌, ◌<◌, ◌≡◌, refl, ap, Option, some, none, List, [], ◌∷◌, length,
  get_elem?, ◌>>=◌, arith,
}
use sc_code.Packet.{PktHdr}
use sc_code.Packet.Headers.{HdrArgs, fill_hdrs, fill_hdr_0}
use sc_code.Packet.Headers.Entries.{fill_hdrs-entry}
use sc_code.Datapath.{Serializer, TxItem, data_pkt, ctrl_pkt}
use sc_code.Datapath.Kick.Req.{data_pkts}
use sc_code.Datapath.Serve.Requests.{Consecutive}

-- What arrives for each item: the header that the transport finds in the message, and the body at the
-- address where the receiver's transport puts packet `i` of the message.
abbrev pub with_hdr : Option PktHdr → ℕ → List (PktHdr × ℕ) → List (PktHdr × ℕ)
with_hdr none body ps = ps
with_hdr (some h) body ps = (h, body) ∷ ps

abbrev pub received : (ℕ → ℕ) → List TxItem → List (PktHdr × ℕ)
received place [] = []
received place (data_pkt s l msg i e ∷ items) =
    with_hdr (get_elem? msg.hdrs i) (place i) (received place items)
received place (ctrl_pkt s l h ∷ items) = (h, 0) ∷ received place items

-- Header `j` of a message of `n` packets, as the receiver reads it.
pub record Entry (msg : Serializer) (n q t j : ℕ) : Type 0 where
  pub hdr : PktHdr
  pub there : get_elem? msg.hdrs j ≡ some hdr
  pub pkt_num : hdr.pkt_num ≡ j
  pub total_pkt : hdr.total_pkt ≡ n
  pub req_num : hdr.req_num ≡ q
  pub req_type : hdr.req_type ≡ t

pub received-cons :
    (place : ℕ → ℕ) (s l : ℕ) (msg : Serializer) (i m : ℕ) (h : PktHdr)
    → get_elem? msg.hdrs i ≡ some h
    → received place (data_pkts s l msg i (suc m))
      ≡ (h, place i) ∷ received place (data_pkts s l msg (i + 1) m)
received-cons place s l msg i m h e = rw e refl

pub received-Consecutive :
    (place : ℕ → ℕ) (s l : ℕ) (msg : Serializer) (n q t m i : ℕ)
    → ((j : ℕ) → j < n → Entry msg n q t j)
    → i + m ≡ n
    → Consecutive i n q t (received place (data_pkts s l msg i m))
received-Consecutive place s l msg n q t zero i entries e = omega arith
received-Consecutive place s l msg n q t (suc m) i entries e =
    let v = entries i (omega arith) in
    rw (received-cons place s l msg i m v.hdr v.there) (
      v.pkt_num,
      v.total_pkt,
      v.req_num,
      v.req_type,
      received-Consecutive place s l msg n q t m (i + 1) entries (omega arith),
    )

pub length-received :
    (place : ℕ → ℕ) (s l : ℕ) (msg : Serializer) (n q t m i : ℕ)
    → ((j : ℕ) → j < n → Entry msg n q t j)
    → i + m ≡ n
    → length (received place (data_pkts s l msg i m)) ≡ m
length-received place s l msg n q t zero i entries e = refl
length-received place s l msg n q t (suc m) i entries e =
    let v = entries i (omega arith) in
    rw (received-cons place s l msg i m v.hdr v.there)
      (ap suc (length-received place s l msg n q t m (i + 1) entries (omega arith)))

pub length-data_pkts : (s l : ℕ) (msg : Serializer) (m i : ℕ) → length (data_pkts s l msg i m) ≡ m
length-data_pkts s l msg zero i = refl
length-data_pkts s l msg (suc m) i = ap suc (length-data_pkts s l msg m (i + 1))

-- The headers that `enqueue_request` makes are such.
pub fill_hdrs-Entry :
    (max_data_per_pkt : ℕ) (a : HdrArgs) (h : PktHdr) (msg : Serializer)
    → a.pkt_num ≡ 0
    → h.total_pkt < 2 ^ 16
    → fill_hdrs max_data_per_pkt a h ≡ some msg.hdrs
    → (j : ℕ) → j < h.total_pkt
    → Entry msg h.total_pkt (a.req_num % 2 ^ 32) (a.req_type % 2 ^ 8) j
unfolding fill_hdr_0
fill_hdrs-Entry max a h msg z small made j lt = record {
  hdr = _;
  there = fill_hdrs-entry max a h j z lt small made;
  pkt_num = refl;
  total_pkt = refl;
  req_num = refl;
  req_type = refl;
}
