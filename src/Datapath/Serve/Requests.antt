-- ===== src/Datapath/Serve/Requests.antt =====
-- A large request whose packets arrive in order: the credits that go back for it, and the one call of
-- its handler.
use sc_code.Common.{
  ℕ, suc, ◌+◌, ◌≤◌, ◌<◌, ◌≡◌, ◌≢◌, ◌∙◌, refl, sym, ap, true, false, some, List, [], ◌∷◌, ◌++◌,
  append_assoc, append_nil, ◌==◌, length, append-snoc_left, ok, arith,
}
use sc_code.Packet.{PktHdr, PktType}
use sc_code.Datapath.{Config, Iovec, TxItem, data_pkt, ctrl_pkt}
use sc_code.Datapath.Batch.{queued, pushed, queued-pushed, pushed-HasRoom, HasRoom}
use sc_code.Datapath.Ctrl.{IsRing}
use sc_code.Datapath.Serve.{
  ReqFunc, ServeFlow, iov_capacity, start_or_count, process_large_reqs, track,
}
use sc_code.Sm.Init.{invalid_req_type}
use sc_code.Datapath.Serve.Gather.{bytes, read}
use sc_code.Datapath.Serve.Packets.{Gathering, step-more, step-last, Apart-started, counted}

-- A credit return of a slot for one of its requests.
abbrev pub IsCr : ℕ → ℕ → ℕ → TxItem → Type 0
IsCr session i req_num (data_pkt s j m n e) = ⊥
IsCr session i req_num (ctrl_pkt s j h) =
    (s ≡ session) × (j ≡ i) × (h.pkt_type ≡ PktType.expl_cr) × (h.req_num ≡ req_num)

abbrev pub AllCr : ℕ → ℕ → ℕ → List TxItem → Type 0
AllCr session i req_num [] = Unit {0}
AllCr session i req_num (x ∷ xs) = IsCr session i req_num x × AllCr session i req_num xs

-- Packets `i`, `i + 1`, … of `n`, all of one request.
abbrev pub Consecutive : ℕ → ℕ → ℕ → ℕ → List (PktHdr × ℕ) → Type 0
Consecutive i n req_num req_type [] = i ≡ n
Consecutive i n req_num req_type ((h, body) ∷ ps) =
    (h.pkt_num ≡ i)
    × (h.total_pkt ≡ n)
    × (h.req_num ≡ req_num)
    × (h.req_type ≡ req_type)
    × Consecutive (i + 1) n req_num req_type ps

abbrev pub bodies : (ℕ → ℕ) → List (PktHdr × ℕ) → List ℕ
bodies mem [] = []
bodies mem ((h, body) ∷ ps) = bytes mem body h.this_msg_size ++ bodies mem ps

-- What serving a request of type `req_type` with message `acc` makes of a slot: one call of `fn` with the
-- whole message, `n` credits returned, and the response awaited.
pub record Served (mem : ℕ → ℕ) (fn req_num req_type n : ℕ) (acc : List ℕ) (f f' : ServeFlow)
    : Type 0 where
  pub iov : List Iovec
  pub calls : f'.calls ≡ (fn, f.flow.index, iov) ∷ f.calls
  pub message : read mem iov ≡ acc
  pub crs : List TxItem
  pub sent : queued f'.flow.tx ≡ queued f.flow.tx ++ crs
  pub all_cr : AllCr f.flow.session f.flow.index req_num crs
  pub number : length crs ≡ n
  pub pending : f'.req_type ≡ req_type
  pub current : f'.flow.cur_req_num ≡ req_num

module _ (cfg : Config) (ctrl_size : ℕ) (req_funcs : ℕ → ReqFunc) (mem : ℕ → ℕ) (fn n q t : ℕ)
    (registered : req_funcs t ≡ record { req_func = some fn; is_background = false })
    (cap : n ≤ iov_capacity) where
  Consecutive-lt :
      (ps : List (PktHdr × ℕ)) (h : PktHdr) (body i : ℕ)
      → Consecutive i n q t ((h, body) ∷ ps)
      → i < n
  Consecutive-lt [] h body i c = omega (arith, c.4)
  Consecutive-lt ((h', body') ∷ ps) h body i c =
      omega (arith, Consecutive-lt ps h' body' (i + 1) c.4)

  gather-rest :
      (ps : List (PktHdr × ℕ)) (h : PktHdr) (body i m : ℕ) (acc : List ℕ) (f : ServeFlow)
      → Gathering cfg mem i q acc f
      → Consecutive i n q t ((h, body) ∷ ps)
      → 0 < i
      → length ps ≡ m
      → (f' : ServeFlow) × (process_large_reqs cfg ctrl_size req_funcs ((h, body) ∷ ps) f ≡ ok f')
        × Served mem fn q t m (acc ++ bodies mem ((h, body) ∷ ps)) f f'
  unfolding process_large_reqs
  gather-rest [] h body i m acc f v (num, total, req, type, last) pos len =
      let g = track f.flow.cur_req_num (i + 1) f in
      let (iov, ran, r) =
        step-last cfg ctrl_size req_funcs mem h body i fn f g
          (counted cfg ctrl_size req_funcs mem h i f num pos v.num_rx (omega arith))
          (ap req_funcs type ∙ registered) v.idle refl num (omega (arith, last, total)) v.pieces
          (Apart-started cfg ctrl_size req_funcs mem f.iov f.before body v.started)
          (omega (arith, last)) in
      let f' : ServeFlow = record g {
        iov = iov;
        req_type = h.req_type;
        req_background = false;
        calls = (fn, f.flow.index, iov) ∷ f.calls;
      } in
      (
        f',
        rw ran refl,
        record {
          iov = iov;
          calls = refl;
          message =
              r
              ∙ ap (λ l. l ++ bytes mem body h.this_msg_size) v.holds
              ∙ ap (λ l. acc ++ l) (sym (append_nil (bytes mem body h.this_msg_size)));
          crs = [];
          sent = sym (append_nil (queued f.flow.tx));
          all_cr = tt;
          number = len;
          pending = type;
          current = v.current;
        },
      )
  gather-rest ((h', body') ∷ ps) h body i m acc f v (num, total, req, type, more) pos len =
      let g = track f.flow.cur_req_num (i + 1) f in
      let below : i + 1 < n = Consecutive-lt ps h' body' (i + 1) more in
      let (hdr, ring, iov, ran, ring_ok, cr, same, r, few, started) =
        step-more cfg ctrl_size req_funcs mem h body i f g
          (counted cfg ctrl_size req_funcs mem h i f num pos v.num_rx (omega arith)) v.ring v.room
          refl num (omega (arith, below, total)) v.pieces
          (Apart-started cfg ctrl_size req_funcs mem f.iov f.before body v.started) (omega arith) in
      let item = ctrl_pkt f.flow.session f.flow.index hdr in
      let next : ServeFlow = record g {
        flow = record (g.flow) { ctrl = ring; tx = pushed cfg item f.flow.tx };
        iov = iov;
      } in
      let part = bytes mem body h.this_msg_size in
      let v' : Gathering cfg mem (i + 1) q (acc ++ part) next = record {
        ring = ring_ok;
        room = pushed-HasRoom cfg item f.flow.tx v.room;
        idle = v.idle;
        num_rx = refl;
        current = v.current;
        pieces = few;
        started = started;
        holds = r ∙ ap (λ l. l ++ part) v.holds;
      } in
      let (f', run, s) =
        gather-rest ps h' body' (i + 1) (length ps) (acc ++ part) next v' more (omega arith) refl in
      (
        f',
        rw ran run,
        record {
          iov = s.iov;
          calls = s.calls;
          message = s.message ∙ append_assoc acc part (bodies mem ((h', body') ∷ ps));
          crs = item ∷ s.crs;
          sent =
              s.sent
              ∙ ap (λ l. l ++ s.crs) (queued-pushed cfg item f.flow.tx)
              ∙ append-snoc_left (queued f.flow.tx) s.crs item;
          all_cr = ((refl, refl, cr, same ∙ req), s.all_cr);
          number = omega (arith, s.number, len);
          pending = s.pending;
          current = s.current;
        },
      )

  -- A request of several packets that arrive in order is handed to its handler once, as a message of
  -- all its bytes, after one credit has been returned for each packet but the last.
  pub large_request-Served :
      (h h' : PktHdr) (body body' : ℕ) (ps : List (PktHdr × ℕ)) (f : ServeFlow)
      → Consecutive 0 n q t ((h, body) ∷ (h', body') ∷ ps)
      → IsRing cfg f.flow.ctrl
      → HasRoom cfg f.flow.tx
      → f.req_type ≡ invalid_req_type
      → f.before.base + f.before.len ≢ body
      → (f' : ServeFlow) × (process_large_reqs cfg ctrl_size req_funcs
            ((h, body) ∷ (h', body') ∷ ps)
            f
          ≡ ok f')
        × Served mem fn q t (suc (length ps)) (bodies mem ((h, body) ∷ (h', body') ∷ ps)) f f'
  unfolding process_large_reqs start_or_count
  large_request-Served h h' body body' ps f (num, total, req, type, more) ring room idle apart =
      let g : ServeFlow = record (track h.req_num 1 f) { iov = [] } in
      let first : (h.pkt_num == 0) ≡ true = ground (arith, num) in
      let below : 1 < n = Consecutive-lt ps h' body' 1 more in
      let (hdr, ring', iov, ran, ring_ok, cr, same, r, few, started) =
        step-more cfg ctrl_size req_funcs mem h body 0 f g (rw first refl) ring room refl num
          (omega (arith, below, total)) (omega arith) apart (omega arith) in
      let item = ctrl_pkt f.flow.session f.flow.index hdr in
      let next : ServeFlow = record g {
        flow = record (g.flow) { ctrl = ring'; tx = pushed cfg item f.flow.tx };
        iov = iov;
      } in
      let v : Gathering cfg mem 1 q (bytes mem body h.this_msg_size) next = record {
        ring = ring_ok;
        room = pushed-HasRoom cfg item f.flow.tx room;
        idle = idle;
        num_rx = refl;
        current = req;
        pieces = few;
        started = started;
        holds = r;
      } in
      let (f', run, s) =
        gather-rest ps h' body' 1 (length ps) (bytes mem body h.this_msg_size) next v more
          (omega arith) refl in
      (
        f',
        rw ran run,
        record {
          iov = s.iov;
          calls = s.calls;
          message = s.message;
          crs = item ∷ s.crs;
          sent =
              s.sent
              ∙ ap (λ l. l ++ s.crs) (queued-pushed cfg item f.flow.tx)
              ∙ append-snoc_left (queued f.flow.tx) s.crs item;
          all_cr = ((refl, refl, cr, same ∙ req), s.all_cr);
          number = ap suc s.number;
          pending = s.pending;
          current = s.current;
        },
      )
