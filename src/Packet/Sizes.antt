-- ===== src/Packet/Sizes.antt =====
-- How many packets carry a message: `Rpc::data_size_to_num_pkts` and `Rpc::wire_pkts` of
-- src/rpc.h. The parameter is the transport's `kMaxDataPerPkt`.
use native.Mathlib.Nat.{div-eq_of_lt-le, div-mul-le_self}
use sc_code.Datapath.Words.{add_size, sub_size}
use sc_code.Common.{
  ◌∙◌, ◌^◌, refl, false, ℕ, zero, suc, ◌+◌, ◌-◌, ◌*◌, ◌/◌, ◌≤◌, ◌<◌, ◌≡◌, ◌⊎◌, inl, inr, Bool-cases,
  leb, if◌then◌else◌, arith,
}

sub_one-mul : (n m : ℕ) → (n - 1) * m ≡ n * m - m
sub_one-mul zero m = omega arith
sub_one-mul (suc n) m = let e : suc n - 1 ≡ n = omega arith in rw e (omega arith)

module _ (max_data_per_pkt : ℕ) where
  unfoldable pub data_size_to_num_pkts : ℕ → ℕ
  data_size_to_num_pkts data_size =
      if leb data_size max_data_per_pkt
      then 1
      else sub_size (add_size data_size max_data_per_pkt) 1 / max_data_per_pkt

  -- No wrap where the sum stays in 64 bits.
  large_num_pkts :
      (data_size : ℕ)
      → max_data_per_pkt < data_size
      → data_size + max_data_per_pkt < 2 ^ 64
      → data_size_to_num_pkts data_size ≡ (data_size + max_data_per_pkt - 1) / max_data_per_pkt
  unfolding data_size_to_num_pkts
  large_num_pkts data_size large fits =
      let not_small : leb data_size max_data_per_pkt ≡ false = ground arith in
      let no_wrap : sub_size (add_size data_size max_data_per_pkt) 1
          ≡ data_size + max_data_per_pkt - 1 =
        omega arith in
      rw (not_small, no_wrap) refl

  -- Where the size and a packet's data together stay below 2^64, the count is at least one, the message
  -- fits into so many packets, and, but where it is one, it does not fit into one packet less.
  pub data_size_to_num_pkts_least :
      (data_size : ℕ)
      → 0 < max_data_per_pkt
      → data_size + max_data_per_pkt < 2 ^ 64
      → let n = data_size_to_num_pkts data_size in
        (1 ≤ n)
        × (data_size ≤ n * max_data_per_pkt)
        × ((n ≡ 1) ⊎ ((n - 1) * max_data_per_pkt < data_size))
  unfolding data_size_to_num_pkts
  data_size_to_num_pkts_least data_size h fits =
      elim (Bool-cases (leb data_size max_data_per_pkt)) [
        | inl small ↦ rw small (omega arith, ground (arith, small), inl refl)
        | inr large ↦
            let n = (data_size + max_data_per_pkt - 1) / max_data_per_pkt in
            let more : max_data_per_pkt < data_size = ground (arith, large) in
            let bound : n * max_data_per_pkt ≤ data_size + max_data_per_pkt - 1 =
              div-mul-le_self _ max_data_per_pkt in
            rw (large_num_pkts data_size more fits) (
              grind (arith, more),
              grind (arith, more),
              inr (ground (arith, sub_one-mul n max_data_per_pkt, bound)),
            )
      ]

  -- A whole number of packets, or one more for the rest.
  pub num_pkts-exact :
      (q size : ℕ)
      → 0 < max_data_per_pkt
      → 0 < size
      → size ≡ q * max_data_per_pkt
      → size + max_data_per_pkt < 2 ^ 64
      → data_size_to_num_pkts size ≡ q
  unfolding data_size_to_num_pkts
  num_pkts-exact zero size h k e fits = absurd (omega arith)
  num_pkts-exact (suc zero) size h k e fits = grind arith
  num_pkts-exact (suc (suc q)) size h k e fits = large_num_pkts size (omega arith) fits ∙ quotient
    where
      quotient : (size + max_data_per_pkt - 1) / max_data_per_pkt ≡ suc (suc q)
      quotient = div-eq_of_lt-le {k = suc (suc q)} max_data_per_pkt (omega arith) (omega arith)

  pub num_pkts-rest :
      (q r size : ℕ)
      → 0 < r
      → r < max_data_per_pkt
      → size ≡ q * max_data_per_pkt + r
      → size + max_data_per_pkt < 2 ^ 64
      → data_size_to_num_pkts size ≡ q + 1
  unfolding data_size_to_num_pkts
  num_pkts-rest zero r size h k e fits = grind arith
  num_pkts-rest (suc q) r size h k e fits =
      large_num_pkts size (omega arith) fits
      ∙ div-eq_of_lt-le {k = suc q + 1} max_data_per_pkt (omega arith) (omega arith)

-- The arguments are counts of 16 bits, and the sum in `int` becomes a `size_t`.
unfoldable pub wire_pkts : ℕ → ℕ → ℕ
wire_pkts req_pkg_num resp_pkg_num = sub_size (req_pkg_num + resp_pkg_num) 1
