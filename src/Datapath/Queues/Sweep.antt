-- ===== src/Datapath/Queues/Sweep.antt =====
-- What a pass over the stall queue does with each entry (`process_credit_stall_queue_st` of
-- src/rpc_impl/rpc_queues.cc).
use sc_code.Common.{
  ℕ, arith, refl, zero, suc, true, false, if◌then◌else◌, ◌==◌, count_if, ◌+◌, ◌<◌, ◌≡◌, ◌⊎◌, ◌∙◌,
  sym, some, List, [], ◌∷◌, ◌++◌,
}
use sc_code.Datapath.{Serializer, SSlot, Session, TxItem, data_pkt, ctrl_pkt}
use sc_code.Datapath.Kick.Req.{data_pkts}
use sc_code.Datapath.Queues.Places.{slot_in, credits_in, credits_of, Apart, All}

-- The sessions before and after; the queue, the entries that are put back, and what is sent, all in
-- order. An entry waits, with its slot as it was, where its session has no credit in the
-- end; or else packets of its request are sent, all that were left of it or as many as there are
-- credits in the session.
pub data Sweep (v v' : List Session) : List (ℕ × ℕ) → List (ℕ × ℕ) → List TxItem → Type 0 where
  done : Sweep v v' [] [] []
  waits :
      (k i : ℕ) (slot : SSlot) (q kept : List (ℕ × ℕ)) (sent : List TxItem)
      → slot_in v k i ≡ some slot
      → slot_in v' k i ≡ some slot
      → credits_in v' k ≡ some 0
      → Sweep v v' q kept sent
      → Sweep v v' ((k, i) ∷ q) ((k, i) ∷ kept) sent
  goes :
      (k i n : ℕ) (slot : SSlot) (msg : Serializer) (q kept : List (ℕ × ℕ)) (sent : List TxItem)
      → slot_in v k i ≡ some slot
      → slot.tx_msgbuf ≡ some msg
      → 0 < n
      → slot_in v' k i ≡ some (record slot { num_tx = slot.num_tx + n })
      → (credits_in v' k ≡ some 0) ⊎ (slot.num_tx + n ≡ msg.total_pkg)
      → Sweep v v' q kept sent
      → Sweep v v' ((k, i) ∷ q) kept (data_pkts k slot.index msg slot.num_tx n ++ sent)

-- The credits of session `k` that a packet takes.
abbrev pub takes : ℕ → TxItem → ℕ
takes k (data_pkt session sslot msg num ts) = if session == k then 1 else 0
takes k (ctrl_pkt session sslot h) = 0

pub takes-own :
    (k k' sslot : ℕ) (msg : Serializer) (first n : ℕ)
    → (k == k') ≡ true
    → count_if (takes k') (data_pkts k sslot msg first n) ≡ n
takes-own k k' sslot msg first zero b = refl
takes-own k k' sslot msg first (suc n) b =
    rw b (omega (arith, takes-own k k' sslot msg (first + 1) n b))

pub takes-other :
    (k k' sslot : ℕ) (msg : Serializer) (first n : ℕ)
    → (k == k') ≡ false
    → count_if (takes k') (data_pkts k sslot msg first n) ≡ 0
takes-other k k' sslot msg first zero b = refl
takes-other k k' sslot msg first (suc n) b =
    rw b (omega (arith, takes-other k k' sslot msg (first + 1) n b))

-- What each session has lost in credits, it has sent in packets.
abbrev pub Paid : List Session → List Session → List TxItem → Type 0
Paid v v' sent = (k : ℕ) → credits_of v' k + count_if (takes k) sent ≡ credits_of v k

-- The slots of a queue are as they were.
pub Sweep-start :
    (u v v' : List Session) (q kept : List (ℕ × ℕ)) (sent : List TxItem)
    → All (λ k i. slot_in v k i ≡ slot_in u k i) q
    → Sweep v v' q kept sent
    → Sweep u v' q kept sent
Sweep-start u v v' _ _ _ same done = done
Sweep-start u v v' _ _ _ same (waits k i slot q kept sent here after spent rest) =
    waits k i slot q kept sent (sym same.0 ∙ here) after spent
      (Sweep-start u v v' q kept sent same.1 rest)
Sweep-start u v v' _ _ _ same (goes k i n slot msg q kept sent here m pos after end rest) =
    goes k i n slot msg q kept sent (sym same.0 ∙ here) m pos after end
      (Sweep-start u v v' q kept sent same.1 rest)

pub All-same :
    (u v : List Session) (k i : ℕ) (q : List (ℕ × ℕ))
    → ((k' i' : ℕ) → Apart k i k' i' → slot_in v k' i' ≡ slot_in u k' i')
    → All (Apart k i) q
    → All (λ k' i'. slot_in v k' i' ≡ slot_in u k' i') q
All-same u v k i [] f a = tt
All-same u v k i ((k', i') ∷ q) f a = (f k' i' a.0, All-same u v k i q f a.1)
