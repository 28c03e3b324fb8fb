-- ===== src/Packet/Headers.antt =====
-- The headers that `Rpc::enqueue_request` and `Rpc::enqueue_response` write (src/rpc_impl/rpc_req.cc
-- and rpc_resp.cc): the caller's array `pkthdr[0 .. total_pkt)`, filled from its first entry.
pub mod Entries
use native.Mathlib.Nat.{mod-lt, mod-eq_of_lt, div-add-mod'}
use sc_code.Common.{
  ℕ, zero, suc, ◌+◌, ◌-◌, ◌*◌, ◌/◌, ◌%◌, ◌^◌, ◌<◌, ◌≡◌, ◌∙◌, sym, ap, Bool-cases, inl, inr, refl,
  ◌==◌, if◌then◌else◌, List, [], ◌∷◌, arith, length, some, none, Option, count_if,
}
use sc_code.Packet.Sizes.{
  data_size_to_num_pkts, num_pkts-exact, num_pkts-rest, data_size_to_num_pkts_least,
}
use sc_code.Packet.{PktHdr, PktType, pkt_hdr_magic, msg_size_bits, req_num_bits}

-- What the two calls write into header 0, before the copies are made.
pub record HdrArgs : Type 0 where
  pub req_type : ℕ
  pub msg_size : ℕ
  pub remote_session_num : ℕ
  pub pkt_type : PktType
  pub pkt_num : ℕ
  pub req_num : ℕ
  pub lkey : ℕ

module _ (max_data_per_pkt : ℕ) where
  unfoldable pub fill_hdr_0 : HdrArgs → PktHdr → PktHdr
  fill_hdr_0 a h = record h {
    req_type = a.req_type % 2 ^ 8;
    msg_size = a.msg_size % 2 ^ msg_size_bits;
    dest_session_num = a.remote_session_num % 2 ^ 4;
    pkt_type = a.pkt_type;
    pkt_num = a.pkt_num % 2 ^ 16;
    req_num = a.req_num % 2 ^ req_num_bits;
    lkey = a.lkey % 2 ^ 32;
    magic = pkt_hdr_magic;
    this_msg_size = max_data_per_pkt % 2 ^ 16;
  }

-- `for (i = 1; i < total_pkt; ++i) { memcpy(pkthdr + i, pkthdr, ..); (pkthdr + i)->pkt_num_ = i; }`,
-- by the rounds left.
unfoldable pub copy_hdrs : ℕ → ℕ → PktHdr → List PktHdr
copy_hdrs zero i h = []
copy_hdrs (suc n) i h = record h { pkt_num = i % 2 ^ 16 } ∷ copy_hdrs n (i + 1) h

-- `(pkthdr + (total_pkt - 1))->this_msg_size = size`.
unfoldable pub set_last_size : ℕ → List PktHdr → List PktHdr
set_last_size size [] = []
set_last_size size (h ∷ []) = record h { this_msg_size = size % 2 ^ 16 } ∷ []
set_last_size size (h ∷ g ∷ hs) = h ∷ set_last_size size (g ∷ hs)

module _ (max_data_per_pkt : ℕ) where
  -- The headers in the order in which they stand at the front of the iovector. `none` is the
  -- write before the array that `total_pkt = 0` makes.
  unfoldable pub fill_hdrs : HdrArgs → PktHdr → Option (List PktHdr)
  unfolding fill_hdr_0 copy_hdrs set_last_size
  fill_hdrs a h =
      let h0 = fill_hdr_0 max_data_per_pkt a h in
      if h0.total_pkt == 0
      then none
      else some
          (set_last_size (h0.msg_size % max_data_per_pkt) (h0 ∷ copy_hdrs (h0.total_pkt - 1) 1 h0))

abbrev pub payload : List PktHdr → ℕ
payload = count_if λ h. h.this_msg_size

payload-copy_hdrs : (n i : ℕ) (h : PktHdr) → payload (copy_hdrs n i h) ≡ n * h.this_msg_size
unfolding copy_hdrs
payload-copy_hdrs zero i h = omega arith
payload-copy_hdrs (suc n) i h = omega (arith, payload-copy_hdrs n (i + 1) h)

payload-set_last_size :
    (size n i : ℕ) (g h : PktHdr)
    → g.this_msg_size ≡ h.this_msg_size
    → payload (set_last_size size (g ∷ copy_hdrs n i h)) ≡ n * h.this_msg_size + size % 2 ^ 16
unfolding copy_hdrs set_last_size
payload-set_last_size size zero i g h e = omega arith
payload-set_last_size size (suc n) i g h e =
    omega (arith, payload-set_last_size size n (i + 1) (record h { pkt_num = i % 2 ^ 16 }) h refl)

length-copy_hdrs : (n i : ℕ) (h : PktHdr) → length (copy_hdrs n i h) ≡ n
unfolding copy_hdrs
length-copy_hdrs zero i h = refl
length-copy_hdrs (suc n) i h = ap suc (length-copy_hdrs n (i + 1) h)

length-set_last_size : (size : ℕ) (hs : List PktHdr) → length (set_last_size size hs) ≡ length hs
unfolding set_last_size
length-set_last_size size [] = refl
length-set_last_size size (h ∷ []) = refl
length-set_last_size size (h ∷ g ∷ hs) = ap suc (length-set_last_size size (g ∷ hs))

set_last_size-cons :
    (size : ℕ) (h : PktHdr) (hs : List PktHdr)
    → (g : PktHdr) × (gs : List PktHdr) × (set_last_size size (h ∷ hs) ≡ g ∷ gs)
      × (g.total_pkt ≡ h.total_pkt)
unfolding set_last_size
set_last_size-cons size h [] = (record h { this_msg_size = size % 2 ^ 16 }, [], refl, refl)
set_last_size-cons size h (x ∷ hs) = (h, set_last_size size (x ∷ hs), refl, refl)

module _ (max_data_per_pkt : ℕ) where
  -- The filled array: header 0, its numbered copies, and the last size set.
  pub fill_hdrs-some :
      (a : HdrArgs) (h : PktHdr)
      → 0 < h.total_pkt
      → let h0 = fill_hdr_0 max_data_per_pkt a h in
        fill_hdrs max_data_per_pkt a h
        ≡ some
            (set_last_size (h0.msg_size % max_data_per_pkt) (h0 ∷ copy_hdrs (h.total_pkt - 1) 1 h0))
  unfolding fill_hdr_0 fill_hdrs
  fill_hdrs-some a h p = ground arith

  pub fill_hdrs-cons :
      (a : HdrArgs) (h : PktHdr)
      → 0 < h.total_pkt
      → (g : PktHdr) × (gs : List PktHdr) × (fill_hdrs max_data_per_pkt a h ≡ some (g ∷ gs))
        × (g.total_pkt ≡ h.total_pkt)
  unfolding fill_hdr_0
  fill_hdrs-cons a h p =
      let h0 = fill_hdr_0 max_data_per_pkt a h in
      let (g, gs, e, t) =
        set_last_size-cons (h0.msg_size % max_data_per_pkt) h0 (copy_hdrs (h.total_pkt - 1) 1 h0) in
      (g, gs, fill_hdrs-some a h p ∙ ap some e, t)

  pub length-fill_hdrs :
      (a : HdrArgs) (h : PktHdr) {hs : List PktHdr}
      → 0 < h.total_pkt
      → fill_hdrs max_data_per_pkt a h ≡ some hs
      → length hs ≡ h.total_pkt
  length-fill_hdrs a h {hs} p e =
      let h0 = fill_hdr_0 max_data_per_pkt a h in
      let tail = copy_hdrs (h.total_pkt - 1) 1 h0 in
      let filled : hs ≡ set_last_size (h0.msg_size % max_data_per_pkt) (h0 ∷ tail) =
        cc (e, fill_hdrs-some a h p) in
      rw filled (
        omega (
          arith,
          length-set_last_size (h0.msg_size % max_data_per_pkt) (h0 ∷ tail),
          length-copy_hdrs (h.total_pkt - 1) 1 h0,
        ))

  payload-filled :
      (a : HdrArgs) (h : PktHdr)
      → 0 < max_data_per_pkt
      → max_data_per_pkt < 2 ^ 16
      → a.msg_size < 2 ^ 24
      → let h0 = fill_hdr_0 max_data_per_pkt a h in
        payload
          (set_last_size (h0.msg_size % max_data_per_pkt) (h0 ∷ copy_hdrs (h.total_pkt - 1) 1 h0))
        ≡ (h.total_pkt - 1) * max_data_per_pkt + a.msg_size % max_data_per_pkt
  unfolding fill_hdr_0
  payload-filled a h p q r =
      let h0 = fill_hdr_0 max_data_per_pkt a h in
      let size_fits : h0.msg_size ≡ a.msg_size = omega arith in
      let max_fits : h0.this_msg_size ≡ max_data_per_pkt = omega arith in
      let rest_lt : h0.msg_size % max_data_per_pkt < max_data_per_pkt = mod-lt _ p in
      payload-set_last_size (h0.msg_size % max_data_per_pkt) (h.total_pkt - 1) 1 h0 h0 refl
      ∙ cc (
        max_fits,
        ap (λ s. s % max_data_per_pkt) size_fits,
        mod-eq_of_lt {n = h0.msg_size % max_data_per_pkt} {m = 2 ^ 16} (omega arith),
      )

  num_pkts-split :
      (size : ℕ)
      → 0 < max_data_per_pkt
      → 0 < size
      → size + max_data_per_pkt < 2 ^ 64
      → (data_size_to_num_pkts max_data_per_pkt size - 1) * max_data_per_pkt
          + size % max_data_per_pkt
          + (if size % max_data_per_pkt == 0 then max_data_per_pkt else 0)
        ≡ size
  num_pkts-split size p r fits =
      let q = size / max_data_per_pkt in
      let rest = size % max_data_per_pkt in
      let whole : size ≡ q * max_data_per_pkt + rest = sym (div-add-mod' size max_data_per_pkt) in
      let below : rest < max_data_per_pkt = mod-lt size p in
      elim (Bool-cases (rest == 0)) [
        | inl e ↦
            let none_left : rest ≡ 0 = ground arith in
            grind (arith, num_pkts-exact max_data_per_pkt q size p r (omega arith) fits)
        | inr e ↦
            let some_left : 0 < rest = ground arith in
            grind (arith, num_pkts-rest max_data_per_pkt q rest size some_left below whole fits)
      ]

  -- The sizes that the headers announce sum to the message, but where the message is a whole
  -- number of packets: there the last header announces nothing, and a full packet is missing.
  pub fill_hdrs-payload :
      (a : HdrArgs) (h : PktHdr) {hs : List PktHdr}
      → 0 < max_data_per_pkt
      → max_data_per_pkt < 2 ^ 16
      → 0 < a.msg_size
      → a.msg_size < 2 ^ 24
      → h.total_pkt ≡ data_size_to_num_pkts max_data_per_pkt a.msg_size
      → fill_hdrs max_data_per_pkt a h ≡ some hs
      → payload hs + (if a.msg_size % max_data_per_pkt == 0 then max_data_per_pkt else 0)
        ≡ a.msg_size
  fill_hdrs-payload a h {hs} p q r s t e =
      let pos : 0 < h.total_pkt =
        omega
          (arith, (data_size_to_num_pkts_least max_data_per_pkt a.msg_size p (omega arith)).0) in
      let filled : payload hs
          ≡ (h.total_pkt - 1) * max_data_per_pkt + a.msg_size % max_data_per_pkt =
        cc (e, fill_hdrs-some a h pos, payload-filled a h p q s) in
      rw (filled, t) (num_pkts-split a.msg_size p r (omega arith))
