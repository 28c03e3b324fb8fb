-- ===== src/Packet/Tests.antt =====
-- Tests of the packet headers, and the theorems about them at concrete messages.
use sc_code.Common.{
  ℕ, ◌+◌, ◌-◌, ◌⊎◌, ◌*◌, ◌%◌, ◌≤◌, ◌<◌, ◌≡◌, refl, ◌==◌, if◌then◌else◌, List, [], ◌∷◌, map, some,
  true, arith,
}
use sc_code.Packet.{PktHdr, PktType, format, matches}
use sc_code.Packet.Sizes.{data_size_to_num_pkts, data_size_to_num_pkts_least}
use sc_code.Packet.Headers.{
  HdrArgs, fill_hdr_0, copy_hdrs, set_last_size, fill_hdrs, payload, fill_hdrs-payload,
}

-- The caller has set the number of packets alone.
abbrev pub blank : ℕ → PktHdr
blank total = record {
  req_type = 0;
  msg_size = 0;
  dest_session_num = 0;
  pkt_type = PktType.req;
  pkt_num = 0;
  req_num = 0;
  magic = 0;
  lkey = 0;
  total_pkt = total;
  this_msg_size = 0;
}

-- 10,000 bytes to remote session 3; a packet holds 4,024.
abbrev args : HdrArgs
args = record {
  req_type = 2;
  msg_size = 10000;
  remote_session_num = 3;
  pkt_type = PktType.req;
  pkt_num = 0;
  req_num = 64;
  lkey = 7;
}

abbrev filled : List PktHdr
filled =
    set_last_size 1952
      (fill_hdr_0 4024 args (blank 3) ∷ copy_hdrs 2 1 (fill_hdr_0 4024 args (blank 3)))

three_packets : data_size_to_num_pkts 4024 10000 ≡ 3
unfolding data_size_to_num_pkts
three_packets = refl

filled_sizes : map (λ (h : PktHdr). h.this_msg_size) filled ≡ 4024 ∷ 4024 ∷ 1952 ∷ []
unfolding fill_hdr_0 copy_hdrs set_last_size
filled_sizes = refl

-- Two full packets: the second one announces no byte.
whole_packets :
    fill_hdrs 4024 (record args { msg_size = 8048 }) (blank 2)
    ≡ some (
        set_last_size 0 (
          fill_hdr_0 4024 (record args { msg_size = 8048 }) (blank 2)
          ∷ copy_hdrs 1 1 (fill_hdr_0 4024 (record args { msg_size = 8048 }) (blank 2))))
unfolding fill_hdrs
whole_packets = refl

-- A session number of 16 is 0 in its four bits.
session_16 : (format (blank 1) 1 10 16 PktType.resp 0 5).dest_session_num ≡ 0
unfolding format
session_16 = refl

formatted_matches : matches (format (blank 1) 1 10 3 PktType.resp 2 5) PktType.resp 2 ≡ true
unfolding matches format
formatted_matches = refl

data_size_to_num_pkts_least_example :
    let n = data_size_to_num_pkts 4024 10000 in
    (1 ≤ n) × (10000 ≤ n * 4024) × ((n ≡ 1) ⊎ ((n - 1) * 4024 < 10000))
data_size_to_num_pkts_least_example =
    data_size_to_num_pkts_least 4024 10000 (omega arith) (omega arith)

fill_hdrs-payload_example :
    payload filled + (if args.msg_size % 4024 == 0 then 4024 else 0) ≡ args.msg_size
unfolding fill_hdrs data_size_to_num_pkts
fill_hdrs-payload_example =
    fill_hdrs-payload 4024 args (blank 3) (omega arith) (omega arith) (omega arith) (omega arith)
      refl refl
