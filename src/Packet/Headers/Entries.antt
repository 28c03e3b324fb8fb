-- ===== src/Packet/Headers/Entries.antt =====
-- Each header of a message (src/rpc_impl/rpc_req.cc and rpc_resp.cc).
use sc_code.Common.{
  ℕ, zero, suc, ◌+◌, ◌-◌, ◌%◌, ◌^◌, ◌≤◌, ◌<◌, ◌≡◌, ◌∙◌, ap, ◌==◌, if◌then◌else◌, List, ◌∷◌, arith,
  get_elem?, some,
}
use sc_code.Packet.{PktHdr}
use sc_code.Packet.Headers.{
  HdrArgs, fill_hdr_0, copy_hdrs, set_last_size, fill_hdrs, fill_hdrs-some,
}

copy_entry :
    (size n i j : ℕ) (h : PktHdr)
    → j ≤ n
    → get_elem? (set_last_size size (copy_hdrs (suc n) i h)) j
      ≡ some (record h {
        pkt_num = (i + j) % 2 ^ 16;
        this_msg_size = if j == n then size % 2 ^ 16 else h.this_msg_size;
      })
unfolding copy_hdrs set_last_size
copy_entry size zero i zero h p = ground arith
copy_entry size zero i (suc j) h p = absurd (omega arith)
copy_entry size (suc n) i zero h p = ground arith
copy_entry size (suc n) i (suc j) h p =
    let shift : i + 1 + j ≡ i + suc j = omega arith in
    rw (← shift) (copy_entry size n (i + 1) j h (omega arith) ∙ ground arith)

module _ (max_data_per_pkt : ℕ) where
  hdr_0-numbered :
      (a : HdrArgs) (h : PktHdr) (n : ℕ)
      → a.pkt_num ≡ 0
      → let h0 = fill_hdr_0 max_data_per_pkt a h in h0 ∷ copy_hdrs n 1 h0 ≡ copy_hdrs (suc n) 0 h0
  unfolding fill_hdr_0 copy_hdrs
  hdr_0-numbered a h n z =
      let same : a.pkt_num % 2 ^ 16 ≡ 0 = omega arith in
      ap
        (λ k.
          record (fill_hdr_0 max_data_per_pkt a h) { pkt_num = k }
          ∷ copy_hdrs n 1 (fill_hdr_0 max_data_per_pkt a h))
        same

  -- Header `i` is header 0 with its own packet number, and only the last has a size of its own.
  pub fill_hdrs-entry :
      (a : HdrArgs) (h : PktHdr) (i : ℕ) {hs : List PktHdr}
      → a.pkt_num ≡ 0
      → i < h.total_pkt
      → h.total_pkt < 2 ^ 16
      → fill_hdrs max_data_per_pkt a h ≡ some hs
      → let h0 = fill_hdr_0 max_data_per_pkt a h in
        get_elem? hs i
        ≡ some (record h0 {
          pkt_num = i;
          this_msg_size =
              if i + 1 == h.total_pkt
              then h0.msg_size % max_data_per_pkt % 2 ^ 16
              else h0.this_msg_size;
        })
  fill_hdrs-entry a h i {hs} z p q e =
      let h0 = fill_hdr_0 max_data_per_pkt a h in
      let n = h.total_pkt - 1 in
      let size = h0.msg_size % max_data_per_pkt in
      let filled : hs ≡ set_last_size size (copy_hdrs (suc n) 0 h0) = cc (
        e,
        fill_hdrs-some max_data_per_pkt a h (omega arith),
        ap (set_last_size size) (hdr_0-numbered a h n z),
      ) in
      rw filled (copy_entry size n 0 i h0 (omega arith) ∙ ground arith)
