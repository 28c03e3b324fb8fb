-- ===== src/Datapath/Serve/Gather.antt =====
-- A large request that arrives in order: its pieces in memory, the credits that go back for it, and the
-- one call of its handler.
use sc_code.Common.{
  ℕ, zero, suc, ◌+◌, ◌≤◌, ◌<◌, ◌≡◌, ◌≢◌, ◌∙◌, refl, sym, ap, false, some, List, [], ◌∷◌, ◌++◌,
  append_assoc, append_nil, lt→ltb, ◌==◌, length, length-snoc, snoc, Bool-cases, inl, inr, ok,
  arith,
}
use sc_code.Datapath.{Iovec}
use sc_code.Datapath.Serve.{iov_capacity, back, extend_back, add_body}

-- Memory by address, `n` bytes of it, and the bytes that an iovector covers.
abbrev pub bytes : (ℕ → ℕ) → ℕ → ℕ → List ℕ
bytes mem b zero = []
bytes mem b (suc n) = mem b ∷ bytes mem (b + 1) n

abbrev pub read : (ℕ → ℕ) → List Iovec → List ℕ
read mem [] = []
read mem (v ∷ vs) = bytes mem v.base v.len ++ read mem vs

bytes-add : (mem : ℕ → ℕ) (b m n : ℕ) → bytes mem b (m + n) ≡ bytes mem b m ++ bytes mem (b + m) n
bytes-add mem b zero n =
    let z : 0 + n ≡ n = omega arith in let z' : b + 0 ≡ b = omega arith in rw (z, z') refl
bytes-add mem b (suc m) n =
    let s : suc m + n ≡ suc (m + n) = omega arith in
    let s' : b + 1 + m ≡ b + suc m = omega arith in
    rw s (ap (λ l. mem b ∷ l) (bytes-add mem (b + 1) m n ∙ rw s' refl))

read-snoc :
    (mem : ℕ → ℕ) (iov : List Iovec) (v : Iovec)
    → read mem (snoc iov v) ≡ read mem iov ++ bytes mem v.base v.len
read-snoc mem [] v = append_nil (bytes mem v.base v.len)
read-snoc mem (u ∷ iov) v =
    ap (λ l. bytes mem u.base u.len ++ l) (read-snoc mem iov v)
    ∙ sym (append_assoc (bytes mem u.base u.len) (read mem iov) (bytes mem v.base v.len))

extend_back-read :
    (mem : ℕ → ℕ) (n : ℕ) (u : Iovec) (iov : List Iovec)
    → (iov' : List Iovec) × (extend_back n (u ∷ iov) ≡ ok iov')
      × (read mem iov' ≡ read mem (u ∷ iov) ++ bytes mem ((back iov u).base + (back iov u).len) n)
      × (length iov' ≡ length (u ∷ iov))
unfolding extend_back back
extend_back-read mem n u [] = (
  record u { len = u.len + n } ∷ [],
  refl,
  append_nil (bytes mem u.base (u.len + n))
      ∙ bytes-add mem u.base u.len n
      ∙ ap (λ l. l ++ bytes mem (u.base + u.len) n) (sym (append_nil (bytes mem u.base u.len))),
  refl,
)
extend_back-read mem n u (w ∷ iov) =
    let (iov', e, r, l) = extend_back-read mem n w iov in
    (
      u ∷ iov',
      rw e refl,
      ap (λ l. bytes mem u.base u.len ++ l) r
          ∙ sym (
              append_assoc (bytes mem u.base u.len) (read mem (w ∷ iov))
                (bytes mem ((back iov w).base + (back iov w).len) n)),
      ap suc l,
    )

-- The memory in front of an empty array does not happen to end where the body begins.
abbrev pub Apart : List Iovec → Iovec → ℕ → Type 0
Apart [] before body = before.base + before.len ≢ body
Apart (u ∷ iov) before body = Unit {0}

-- A body is read behind all that was there before.
pub add_body-read :
    (mem : ℕ → ℕ) (body size : ℕ) (before : Iovec) (iov : List Iovec)
    → Apart iov before body
    → length iov < iov_capacity
    → (iov' : List Iovec) × (add_body body size before iov ≡ ok (some iov'))
      × (read mem iov' ≡ read mem iov ++ bytes mem body size)
      × (length iov' ≤ length iov + 1)
      × (0 < length iov')
unfolding add_body back
add_body-read mem body size before [] apart room =
    let other : (before.base + before.len == body) ≡ false = ground (arith, apart) in
    (
      record { base = body; len = size } ∷ [],
      rw other refl,
      append_nil (bytes mem body size),
      omega arith,
      omega arith,
    )
add_body-read mem body size before (u ∷ iov) apart room =
    elim (Bool-cases ((back iov u).base + (back iov u).len == body)) [
      | inl follows ↦
          let (iov', e, r, l) = extend_back-read mem size u iov in
          let at : (back iov u).base + (back iov u).len ≡ body = ground arith in
          (iov', rw (follows, e) refl, rw (← at) r, omega (arith, l), omega (arith, l))
      | inr apart' ↦
          let piece : Iovec = record { base = body; len = size } in
          (
            snoc (u ∷ iov) piece,
            rw (apart', lt→ltb (length (u ∷ iov)) iov_capacity room) refl,
            read-snoc mem (u ∷ iov) piece,
            omega (arith, length-snoc iov piece),
            omega arith,
          )
    ]
