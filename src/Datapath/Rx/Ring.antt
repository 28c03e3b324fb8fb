-- ===== src/Datapath/Rx/Ring.antt =====
-- The order in which `process_comps_st` (src/rpc_impl/rpc_rx.cc) takes packets out of its ring.
use sc_code.Common.{
  ℕ, suc, ◌+◌, ◌%◌, ◌<◌, ◌≡◌, refl, some, List, [], ◌∷◌, length, get_elem?, Outcome, ok, err, ◌>>=◌,
  arith, ◌⊎◌, inl, inr, Fault, false, ◌==◌,
}
use sc_code.Packet.{PktHdr}
use sc_code.Datapath.{Config}
use sc_code.Datapath.Rx.{
  Handlers, Receiver, next_rx_head, receive, process_comps_loop, process_comps,
}
use sc_code.Sm.Helpers.{num_rx_ring_entries}

-- Entries `i`, `i + 1`, … of the ring, counted around its end, are these packets.
abbrev pub Holds : List (PktHdr × ℕ) → ℕ → List (PktHdr × ℕ) → Type 0
Holds ring i [] = Unit {0}
Holds ring i (p ∷ ps) = (get_elem? ring (i % num_rx_ring_entries) ≡ some p) × Holds ring (i + 1) ps

outcome :
    {S : Type 0} (o : Outcome S) → ((fault : Fault) × (o ≡ err fault)) ⊎ ((s : S) × (o ≡ ok s))
outcome (err fault) = inl (fault, refl)
outcome (ok s) = inr (s, refl)

module _ (cfg : Config) {S : Type 0} (handlers : Handlers S) where
  -- The packets one after the other, with no ring.
  unfoldable pub receive_all : List (PktHdr × ℕ) → ℕ → S → Outcome S
  receive_all [] rx_tsc rpc = ok rpc
  receive_all (p ∷ ps) rx_tsc rpc = do
    rpc' ← receive cfg handlers p rx_tsc rpc
    receive_all ps rx_tsc rpc'

  process_comps_loop_lem :
      (ps : List (PktHdr × ℕ)) (i : ℕ) (r : Receiver S)
      → r.rx_ring_head ≡ i % num_rx_ring_entries
      → Holds r.rx_ring i ps
      → process_comps_loop cfg handlers (length ps) r ≡ (
          receive_all ps r.ev_loop_tsc r.rpc >>= λ rpc.
          ok (record r { rx_ring_head = (i + length ps) % num_rx_ring_entries; rpc = rpc }))
  unfolding process_comps_loop receive_all
  process_comps_loop_lem [] i r head holds =
      let same : (i + 0) % num_rx_ring_entries ≡ r.rx_ring_head = omega (arith, head) in
      rw same refl
  process_comps_loop_lem (p ∷ ps) i r head (now, later) =
      let here : get_elem? r.rx_ring r.rx_ring_head ≡ some p = rw head now in
      let step : next_rx_head r.rx_ring_head ≡ (i + 1) % num_rx_ring_entries =
        ground (arith, head) in
      let sum : i + suc (length ps) ≡ i + 1 + length ps = omega arith in
      rw (process_comps_loop, here, sum)
        (elim (outcome (receive cfg handlers p r.ev_loop_tsc r.rpc)) [
          | inl (fault, e) ↦ rw e refl
          | inr (rpc, e) ↦ rw e (
              process_comps_loop_lem ps (i + 1)
                (record r { rx_ring_head = next_rx_head r.rx_ring_head; rpc = rpc }) step later)
        ])

  -- The packets are handled one after the other in the order of their arrival, around the end of the
  -- ring, up to a first fault; then the head is behind the last of them.
  pub process_comps_in_order :
      (ps : List (PktHdr × ℕ)) (r : Receiver S)
      → r.rx_ring_head < num_rx_ring_entries
      → Holds r.rx_ring r.rx_ring_head ps
      → process_comps cfg handlers (length ps) r ≡ (
          receive_all ps r.ev_loop_tsc r.rpc >>= λ rpc. ok (record r {
            rx_ring_head = (r.rx_ring_head + length ps) % num_rx_ring_entries;
            rpc = rpc;
          }))
  unfolding process_comps receive_all
  process_comps_in_order [] r head holds =
      let same : (r.rx_ring_head + 0) % num_rx_ring_entries ≡ r.rx_ring_head =
        omega (arith, head) in
      rw same refl
  process_comps_in_order (p ∷ ps) r head holds =
      let some_left : (suc (length ps) == 0) ≡ false = ground arith in
      rw some_left (process_comps_loop_lem (p ∷ ps) r.rx_ring_head r (omega (arith, head)) holds)
