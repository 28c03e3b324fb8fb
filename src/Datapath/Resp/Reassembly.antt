-- ===== src/Datapath/Resp/Reassembly.antt =====
-- A response of several packets that come in order ends up whole in its buffer.
use sc_code.Common.{
  ℕ, ◌+◌, ◌^◌, ◌≤◌, ◌<◌, ◌≡◌, ◌≢◌, refl, ap, some, List, [], ◌∷◌, ◌++◌, take, count_if, Outcome, ok,
  ◌>>=◌, arith,
}
use sc_code.Packet.{PktHdr}
use sc_code.Datapath.{RespBuf, new_buff}
use sc_code.Datapath.Resp.{store_large}

-- A packet as it comes: its header and the bytes behind it.
abbrev pub Arrival : Type 0
Arrival = PktHdr × List ℕ

abbrev pub chunk : Arrival → List ℕ
chunk (h, body) = take h.this_msg_size body

abbrev pub chunks : List Arrival → List ℕ
chunks [] = []
chunks (a ∷ rest) = chunk a ++ chunks rest

abbrev pub sizes : List Arrival → ℕ
sizes = count_if λ a. a.0.this_msg_size

unfoldable pub store_all : List Arrival → RespBuf → Outcome RespBuf
unfolding store_large
store_all [] r = ok r
store_all (a ∷ rest) r = do r' ← store_large a.0 a.1 r; store_all rest r'

-- The packets behind the first have other numbers than 0.
abbrev pub Later : List Arrival → Type 0
Later [] = Unit
Later (a ∷ rest) = (a.0.pkt_num ≢ 0) × Later rest

append_assoc' : (xs ys zs : List ℕ) → (xs ++ ys) ++ zs ≡ xs ++ (ys ++ zs)
append_assoc' [] ys zs = refl
append_assoc' (x ∷ xs) ys zs = ap (◌∷◌ x) (append_assoc' xs ys zs)

append_nil' : (xs : List ℕ) → xs ++ [] ≡ xs
append_nil' [] = refl
append_nil' (x ∷ xs) = ap (◌∷◌ x) (append_nil' xs)

store_next-ok :
    (a : Arrival) (r : RespBuf) (bs : List ℕ)
    → a.0.pkt_num ≢ 0
    → r.iov_end ≡ 1
    → r.bytes ≡ some bs
    → r.used_size + a.0.this_msg_size ≤ r.cap
    → r.cap < 2 ^ 32
    → store_large a.0 a.1 r
      ≡ ok (record r { bytes = some (bs ++ chunk a); used_size = r.used_size + a.0.this_msg_size })
unfolding store_large
store_next-ok a r bs n e b u c = ground arith

store_first-ok :
    (a : Arrival) (r : RespBuf)
    → a.0.pkt_num ≡ 0
    → a.0.this_msg_size ≤ a.0.msg_size
    → store_large a.0 a.1 r
      ≡ ok (record r {
        iov_begin = 0;
        iov_end = 1;
        first = new_buff a.0.msg_size;
        bytes = some (chunk a);
        cap = a.0.msg_size;
        used_size = a.0.this_msg_size;
      })
unfolding store_large
store_first-ok a r z s = ground arith

store-Later :
    (rest : List Arrival) (r : RespBuf) (bs : List ℕ)
    → Later rest
    → r.iov_end ≡ 1
    → r.bytes ≡ some bs
    → r.used_size + sizes rest ≤ r.cap
    → r.cap < 2 ^ 32
    → store_all rest r
      ≡ ok (record r { bytes = some (bs ++ chunks rest); used_size = r.used_size + sizes rest })
unfolding store_all
store-Later [] r bs l e b u c = rw (append_nil' bs) (ground arith)
store-Later (a ∷ rest) r bs l e b u c =
    let next = record r {
      bytes = some (bs ++ chunk a);
      used_size = r.used_size + a.0.this_msg_size;
    } in
    let sum : r.used_size + a.0.this_msg_size + sizes rest
        ≡ r.used_size + (a.0.this_msg_size + sizes rest) =
      omega arith in
    rw
      (
        store_next-ok a r bs l.0 e b (omega arith) c,
        store-Later rest next (bs ++ chunk a) l.1 e refl (omega arith) c,
        append_assoc' bs (chunk a) (chunks rest),
        sum,
      )
      refl

-- Whatever the buffer held: after packet 0 and the later packets in order, it is one piece of the
-- announced size that holds the packets' bytes one behind the other.
pub store_all_whole :
    (a : Arrival) (rest : List Arrival) (r : RespBuf)
    → a.0.pkt_num ≡ 0
    → Later rest
    → sizes (a ∷ rest) ≤ a.0.msg_size
    → a.0.msg_size < 2 ^ 24
    → (r' : RespBuf) × (store_all (a ∷ rest) r ≡ ok r')
      × (r'.bytes ≡ some (chunks (a ∷ rest)))
      × (r'.first ≡ new_buff a.0.msg_size)
      × (r'.used_size ≡ sizes (a ∷ rest))
      × (r'.cap ≡ a.0.msg_size)
unfolding store_all
store_all_whole a rest r z l s m =
    let start = record r {
      iov_begin = 0;
      iov_end = 1;
      first = new_buff a.0.msg_size;
      bytes = some (chunk a);
      cap = a.0.msg_size;
      used_size = a.0.this_msg_size;
    } in
    let end = record start {
      bytes = some (chunk a ++ chunks rest);
      used_size = a.0.this_msg_size + sizes rest;
    } in
    (
      end,
      rw
          (
            store_first-ok a r z (omega arith),
            store-Later rest start (chunk a) l refl refl s (omega arith),
          )
          refl,
      refl,
      refl,
      refl,
      refl,
    )
