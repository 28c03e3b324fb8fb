-- ===== src/Wheel/Chain.antt =====
-- A wheel slot's chain as the queue of its entries: all buckets but the last are full.
use sc_code.Common.{
  ℕ, ◌+◌, ◌<◌, ◌≡◌, ◌∙◌, refl, sym, ap, Bool, true, false, List, [], ◌∷◌, ◌++◌, ◌==◌, length, snoc,
  length-snoc, append-snoc, append_nil, ok, arith,
}
use sc_code.Wheel.{WheelEnt, Bucket, append_ent, ents, new_bkt, wheel_bucket_cap}

abbrev pub Packed : List Bucket → Type 0
Packed [] = ⊥
Packed (b ∷ []) = length b.entries < wheel_bucket_cap
Packed (b ∷ c ∷ bs) = (length b.entries ≡ wheel_bucket_cap) × Packed (c ∷ bs)

-- All buckets are full, as between the two halves of an insertion.
abbrev pub Full : List Bucket → Type 0
Full [] = Unit {0}
Full (b ∷ bs) = (length b.entries ≡ wheel_bucket_cap) × Full bs

pub ents-snoc_new : (bs : List Bucket) (p : ℕ) → ents (snoc bs (new_bkt p)) ≡ ents bs
unfolding ents
ents-snoc_new [] p = refl
ents-snoc_new (b ∷ bs) p = ap (λ l. b.entries ++ l) (ents-snoc_new bs p)

pub Packed-snoc_new : (bs : List Bucket) (p : ℕ) → Full bs → Packed (snoc bs (new_bkt p))
Packed-snoc_new [] p h = omega arith
Packed-snoc_new (b ∷ []) p h = (h.0, omega arith)
Packed-snoc_new (b ∷ c ∷ bs) p h = (h.0, Packed-snoc_new (c ∷ bs) p h.1)

Packed-cons :
    (b : Bucket) (bs : List Bucket)
    → length b.entries ≡ wheel_bucket_cap
    → Packed bs
    → Packed (b ∷ bs)
Packed-cons b [] e h = elim h [ ]
Packed-cons b (c ∷ bs) e h = (e, h)

-- What an insertion makes of a chain: the entry comes last, and only a full chain needs a new bucket.
pub append_ent-queues :
    (ent : WheelEnt) (bs : List Bucket)
    → Packed bs
    → (bs' : List Bucket) × (full : Bool) × (append_ent ent bs ≡ ok (bs', full))
      × (ents bs' ≡ snoc (ents bs) ent)
      × (full ≡ true → Full bs')
      × (full ≡ false → Packed bs')
unfolding append_ent ents
append_ent-queues ent [] h = elim h [ ]
append_ent-queues ent (b ∷ []) h = (
  record b { entries = snoc b.entries ent } ∷ [],
  length b.entries + 1 == wheel_bucket_cap,
  ground arith,
  append_nil (snoc b.entries ent) ∙ ap (λ l. snoc l ent) (sym (append_nil b.entries)),
  λ e. ground (arith, length-snoc b.entries ent),
  λ e. ground (arith, length-snoc b.entries ent),
)
append_ent-queues ent (b ∷ c ∷ bs) h =
    let (bs', full, e, queue, filled, open_) = append_ent-queues ent (c ∷ bs) h.1 in
    (
      b ∷ bs',
      full,
      rw e refl,
      ap (λ l. b.entries ++ l) queue ∙ append-snoc b.entries (ents (c ∷ bs)) ent,
      λ e. (h.0, filled e),
      λ e. Packed-cons b bs' h.0 (open_ e),
    )

pub Packed-cons_of :
    (bs : List Bucket) → Packed bs → (b : Bucket) × (rest : List Bucket) × (bs ≡ b ∷ rest)
Packed-cons_of [] h = elim h [ ]
Packed-cons_of (b ∷ bs) h = (b, bs, refl)
