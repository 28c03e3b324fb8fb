-- ===== src/Nexus/Ports.antt =====
-- `get_dpath_udp_port` of src/rpc_constants.h: the UDP port of an Rpc's data path.
use sc_code.Common.{
  ℕ, ◌+◌, ◌-◌, ◌*◌, ◌%◌, ◌^◌, ◌≤◌, ◌<◌, ◌≡◌, ◌⊎◌, ◌↔◌, ◌∙◌, sym, ap, arith, Bool-cases, inl, inr,
  ltb, ltb→lt, ◌==◌,
}
use sc_code.Nexus.{base_sm_udp_port, max_num_erpc_processes, max_rpc_id}

-- The difference of the ports is cast to 16 bits, and so is the sum.
unfoldable pub get_dpath_udp_port : ℕ → ℕ → ℕ
get_dpath_udp_port mgmt_udp_port rpc_id =
    (base_sm_udp_port
      + max_num_erpc_processes
      + (mgmt_udp_port + 2 ^ 16 - base_sm_udp_port) % 2 ^ 16 * max_rpc_id
      + rpc_id)
    % 2 ^ 16

-- The ports of processes, and the IDs of Rpcs, that the Nexus lets through.
pub record InRange (mgmt_udp_port rpc_id : ℕ) : Type 0 where
  pub lowest : base_sm_udp_port ≤ mgmt_udp_port
  pub highest : mgmt_udp_port < base_sm_udp_port + max_num_erpc_processes
  pub id : rpc_id ≤ max_rpc_id

-- The next process's first Rpc.
pub record Neighbours (p r q s : ℕ) : Type 0 where
  pub next : q ≡ p + 1
  pub last_id : r ≡ max_rpc_id
  pub first_id : s ≡ 0

exact : (p r : ℕ) → InRange p r → get_dpath_udp_port p r ≡ 31900 + (p - base_sm_udp_port) * 254 + r
unfolding get_dpath_udp_port
exact p r v = omega arith

same_port :
    (p r q s : ℕ)
    → InRange p r
    → InRange q s
    → get_dpath_udp_port p r ≡ get_dpath_udp_port q s
    → ((p ≡ q) × (r ≡ s)) ⊎ (Neighbours p r q s ⊎ Neighbours q s p r)
same_port p r q s v w e =
    let eq = sym (exact p r v) ∙ e ∙ exact q s w in
    elim (Bool-cases (p == q)) [
      | inl same ↦ let pq : p ≡ q = ground arith in inl (pq, omega (arith, eq, pq))
      | inr other ↦ inr (elim (Bool-cases (ltb p q)) [
        | inl below ↦
            let lt = ltb→lt p q below in
            inl (record {
              next = omega (arith, eq, lt);
              last_id = omega (arith, eq, lt);
              first_id = omega (arith, eq, lt);
            })
        | inr above ↦
            let lt : q < p = ground arith in
            inr (record {
              next = omega (arith, eq, lt);
              last_id = omega (arith, eq, lt);
              first_id = omega (arith, eq, lt);
            })
      ])
    ]

Neighbours-collide :
    (p r q s : ℕ)
    → InRange p r
    → InRange q s
    → Neighbours p r q s
    → get_dpath_udp_port p r ≡ get_dpath_udp_port q s
Neighbours-collide p r q s v w n =
    omega (arith, exact p r v, exact q s w, n.next, n.last_id, n.first_id)

-- Data path ports lie above all management ports and below 2^16, and two Rpcs have the same one exactly
-- if they are the same Rpc of one process, or the last possible Rpc of one process and the first of the
-- next.
pub get_dpath_udp_port_collides :
    (p r q s : ℕ)
    → InRange p r
    → InRange q s
    → (base_sm_udp_port + max_num_erpc_processes ≤ get_dpath_udp_port p r)
      × ((get_dpath_udp_port p r ≡ get_dpath_udp_port q s)
          ↔ (((p ≡ q) × (r ≡ s)) ⊎ (Neighbours p r q s ⊎ Neighbours q s p r)))
get_dpath_udp_port_collides p r q s v w = (
  omega (arith, exact p r v),
  (
    same_port p r q s v w,
    λ c. elim c [
      | inl same ↦ ap (λ m. get_dpath_udp_port m r) same.0 ∙ ap (get_dpath_udp_port q) same.1
      | inr (inl n) ↦ Neighbours-collide p r q s v w n
      | inr (inr n) ↦ sym (Neighbours-collide q s p r w v n)
    ],
  ),
)
