-- ===== src/Datapath/Batch.antt =====
-- The TX batch: `do_tx_burst_st`, `enqueue_pkt_tx_burst_st`, `enqueue_hdr_tx_burst_st` and
-- `drain_tx_batch_and_dma_queue` of src/rpc.h. Packet drops exist in test builds alone.
use sc_code.Common.{
  ℕ, ◌+◌, ◌<◌, ◌≡◌, Option, none, some, List, [], ◌∷◌, ◌++◌, ltb, ◌==◌, if◌then◌else◌, length, snoc,
  length-snoc, append-snoc, append_nil, append-snoc_left, sym, ◌∙◌, ap, Outcome, ok, err,
  bad_access, assert, ◌>>=◌, ◌>>◌, arith,
}
use sc_code.Datapath.{Config, Serializer, TxItem, data_pkt, ctrl_pkt, Stamp, Tx, Flow}
use sc_code.Packet.{PktHdr}

-- The stamps that one burst writes at time `tsc`, latest first.
unfoldable pub stamp_all : ℕ → List TxItem → List Stamp → List Stamp
stamp_all tsc [] stamps = stamps
stamp_all tsc (data_pkt s l m i (some e) ∷ items) stamps =
    stamp_all tsc items (record { session = s; sslot = l; entry = e; tsc = tsc } ∷ stamps)
stamp_all tsc (data_pkt s l m i none ∷ items) stamps = stamp_all tsc items stamps
stamp_all tsc (ctrl_pkt s l h ∷ items) stamps = stamp_all tsc items stamps

unfoldable pub do_tx_burst : Tx → Outcome Tx
unfolding stamp_all
do_tx_burst t = do
  assert (ltb 0 (length t.batch))
  ok (record t {
    batch = [];
    sent = t.sent ++ t.batch;
    stamps = stamp_all t.clock t.batch t.stamps;
  })

module _ (cfg : Config) where
  -- The array has `kPostlist` entries.
  unfoldable pub enqueue_item : TxItem → Tx → Outcome Tx
  enqueue_item item t =
      let t' = record t { batch = snoc t.batch item } in
      if ltb (length t.batch) cfg.postlist
      then (if length t.batch + 1 == cfg.postlist then do_tx_burst t' else ok t')
      else err bad_access

  unfoldable pub enqueue_pkt_tx_burst : ℕ → Option ℕ → Serializer → Flow → Outcome Flow
  enqueue_pkt_tx_burst pkt_idx tx_ts msg f = do
    t ← enqueue_item (data_pkt f.session f.slot.index msg pkt_idx tx_ts) f.tx
    ok (record f { tx = t })

  unfoldable pub enqueue_hdr_tx_burst : PktHdr → Flow → Outcome Flow
  enqueue_hdr_tx_burst hdr f = do
    t ← enqueue_item (ctrl_pkt f.session f.slot.index hdr) f.tx
    ok (record f { tx = t })

-- `transport_->tx_flush()` is the transport's.
unfoldable pub drain_tx_batch_and_dma_queue : Tx → Outcome Tx
drain_tx_batch_and_dma_queue t = if ltb 0 (length t.batch) then do_tx_burst t else ok t

-- All that was ever enqueued, in order.
abbrev pub queued : Tx → List TxItem
queued t = t.sent ++ t.batch

-- Between calls the batch has room, so that the next write stays inside the array.
pub record HasRoom (cfg : Config) (t : Tx) : Type 0 where
  pub room : length t.batch < cfg.postlist

module _ (cfg : Config) where
  -- What `enqueue_item` leaves where the batch has room.
  pub pushed : TxItem → Tx → Tx
  pushed item t =
      let batch = snoc t.batch item in
      if length t.batch + 1 == cfg.postlist
      then record t {
        batch = [];
        sent = t.sent ++ batch;
        stamps = stamp_all t.clock batch t.stamps;
      }
      else record t { batch = batch }

  pub enqueue_item-pushed :
      (item : TxItem) (t : Tx) → HasRoom cfg t → enqueue_item cfg item t ≡ ok (pushed item t)
  unfolding enqueue_item do_tx_burst pushed
  enqueue_item-pushed item t h = ground (arith, length-snoc t.batch item)

  -- An item is queued behind all earlier ones, and the batch has room again.
  pub queued-pushed : (item : TxItem) (t : Tx) → queued (pushed item t) ≡ snoc (queued t) item
  unfolding pushed
  queued-pushed item t =
      ground (arith, append-snoc t.sent t.batch item, append_nil (t.sent ++ snoc t.batch item))

  pub pushed-HasRoom : (item : TxItem) (t : Tx) → HasRoom cfg t → HasRoom cfg (pushed item t)
  unfolding pushed
  pushed-HasRoom item t h = ground (arith, length-snoc t.batch item)

module _ (cfg : Config) where
  abbrev pub push_all : List TxItem → Tx → Tx
  push_all [] t = t
  push_all (x ∷ xs) t = push_all xs (pushed cfg x t)

  pub queued-push_all : (xs : List TxItem) (t : Tx) → queued (push_all xs t) ≡ queued t ++ xs
  queued-push_all [] t = sym (append_nil (queued t))
  queued-push_all (x ∷ xs) t =
      queued-push_all xs (pushed cfg x t)
      ∙ ap (λ q. q ++ xs) (queued-pushed cfg x t)
      ∙ append-snoc_left (queued t) xs x

  pub push_all-HasRoom : (xs : List TxItem) (t : Tx) → HasRoom cfg t → HasRoom cfg (push_all xs t)
  push_all-HasRoom [] t h = h
  push_all-HasRoom (x ∷ xs) t h = push_all-HasRoom xs (pushed cfg x t) (pushed-HasRoom cfg x t h)
