-- ===== src/Packet.antt =====
-- The packet header of src/pkthdr.h: `pkthdr_t` with its bit fields, and its classification.
-- A store into a bit field keeps the low bits, written out as `%`.
pub mod Headers
pub mod Sizes
pub mod Tests
use sc_code.Common.{ℕ, ◌%◌, ◌^◌, Bool, true, false, ◌&&◌, ◌==◌}

-- Two bits, with a value for each of the four types.
pub data PktType : Type 0 where
  req rfr expl_cr resp : PktType

abbrev pub pkt_type_eq : PktType → PktType → Bool
pkt_type_eq req req = true
pkt_type_eq rfr rfr = true
pkt_type_eq expl_cr expl_cr = true
pkt_type_eq resp resp = true
pkt_type_eq _ _ = false

-- The headroom is left out: the transport fills it and the Rpc layer does not read it.
pub record PktHdr : Type 0 where
  pub req_type : ℕ
  pub msg_size : ℕ
  pub dest_session_num : ℕ
  pub pkt_type : PktType
  pub pkt_num : ℕ
  pub req_num : ℕ
  pub magic : ℕ
  pub lkey : ℕ
  pub total_pkt : ℕ
  pub this_msg_size : ℕ

abbrev pub msg_size_bits : ℕ
msg_size_bits = 24

abbrev pub req_num_bits : ℕ
req_num_bits = 32

abbrev pub pkt_hdr_magic : ℕ
pkt_hdr_magic = 11

unfoldable pub format : PktHdr → ℕ → ℕ → ℕ → PktType → ℕ → ℕ → PktHdr
format h req_type msg_size dest_session_num pkt_type pkt_num req_num = record h {
  req_type = req_type % 2 ^ 8;
  msg_size = msg_size % 2 ^ msg_size_bits;
  dest_session_num = dest_session_num % 2 ^ 4;
  pkt_type = pkt_type;
  pkt_num = pkt_num % 2 ^ 16;
  req_num = req_num % 2 ^ req_num_bits;
  magic = pkt_hdr_magic;
}

unfoldable pub matches : PktHdr → PktType → ℕ → Bool
matches h pkt_type pkt_num = pkt_type_eq h.pkt_type pkt_type && h.pkt_num == pkt_num

unfoldable pub check_magic : PktHdr → Bool
check_magic h = h.magic == pkt_hdr_magic

unfoldable pub is_req : PktHdr → Bool
is_req h = pkt_type_eq h.pkt_type req

unfoldable pub is_rfr : PktHdr → Bool
is_rfr h = pkt_type_eq h.pkt_type rfr

unfoldable pub is_resp : PktHdr → Bool
is_resp h = pkt_type_eq h.pkt_type resp

unfoldable pub is_expl_cr : PktHdr → Bool
is_expl_cr h = pkt_type_eq h.pkt_type expl_cr
