-- ===== src/Ring/Cells.antt =====
-- The bytes of the ring by their place in the stream: `write` and `read` across the end of the
-- buffer.
use native.Mathlib.Nat.{
  div-add-mod, mul-add-mod_self_left, mod-eq_of_lt, mod-eq-sub-mod, mod-lt, one-le-pow,
}
use tickpipe.Base.{
  ℕ, ◌+◌, ◌-◌, ◌*◌, ◌/◌, ◌%◌, ◌^◌, ◌≤◌, ◌<◌, ◌≡◌, sym, ap, ◌∙◌, inl, inr, arith, ltb, leb, ltb→lt,
  Bool-cases, if◌then◌else◌, if_true, if_false, Bytes, memcpy, advance, bit_and, bit_and_mask,
}
use tickpipe.Ring.{SpscRing, write, read}

-- Where in the buffer the byte stands that is `i` places after a byte.
pos_add :
    (c p i : ℕ) → i < c → (p + i) % c ≡ (if ltb (p % c + i) c then p % c + i else p % c + i - c)
pos_add c p i lt =
    let shift : (p + i) % c ≡ (p % c + i) % c =
      ap (λ (n : ℕ). n % c) {x = p + i} {y = c * (p / c) + (p % c + i)}
        (omega (arith, div-add-mod p c))
      ∙ mul-add-mod_self_left c (p / c) (p % c + i) in
    elim (Bool-cases (ltb (p % c + i) c)) [
      | inl inside ↦ shift ∙ mod-eq_of_lt (ltb→lt _ _ inside) ∙ sym (if_true _ _ inside)
      | inr over ↦
          let small = mod-lt p {m = c} (omega arith) in
          shift
          ∙ mod-eq-sub-mod {n = p % c + i} {m = c} (ground (arith, over))
          ∙ mod-eq_of_lt {n = p % c + i - c} {m = c} (omega arith)
          ∙ sym (if_false _ _ over)
    ]

-- The copy in two parts that `write` makes, at one place of the buffer.
copied : (b src : Bytes) (c off n : ℕ) → Bytes
copied b src c off n =
    let first = if leb (off + n) c then n else c - off in
    let d = memcpy b off src first in
    if ltb first n then memcpy d 0 (advance src first) (n - first) else d

copied_in :
    (b src : Bytes) (c off n i j : ℕ)
    → off < c
    → n ≤ c
    → i < n
    → j ≡ (if ltb (off + i) c then off + i else off + i - c)
    → copied b src c off n j ≡ src i
unfolding copied
copied_in b src c off n i j lt le i_lt e = ground (arith, e)

copied_out :
    (b src : Bytes) (c off n d j : ℕ)
    → j < c
    → d + n ≤ c
    → 0 < d
    → off ≡ (if ltb (j + d) c then j + d else j + d - c)
    → copied b src c off n j ≡ b j
unfolding copied
copied_out b src c off n d j lt le pos e = ground (arith, e)

-- The copy in two parts that `read` makes, at one place of the destination.
fetched : (dst b : Bytes) (c off n : ℕ) → Bytes
fetched dst b c off n =
    let first = if leb (off + n) c then n else c - off in
    let d = memcpy dst 0 (advance b off) first in
    if ltb first n then memcpy d first b (n - first) else d

fetched_in :
    (dst b : Bytes) (c off n i j : ℕ)
    → off < c
    → n ≤ c
    → i < n
    → j ≡ (if ltb (off + i) c then off + i else off + i - c)
    → fetched dst b c off n i ≡ b j
unfolding fetched
fetched_in dst b c off n i j lt le i_lt e = ground (arith, e)

fetched_out :
    (dst b : Bytes) (c off n i : ℕ) → off < c → n ≤ c → n ≤ i → fetched dst b c off n i ≡ dst i
unfolding fetched
fetched_out dst b c off n i lt le ge = ground arith

-- A ring of `2 ^ k` bytes.
unfoldable pub IsRing : ℕ → SpscRing → Type 0
IsRing k r = (r.capacity ≡ 2 ^ k) × (r.mask ≡ 2 ^ k - 1)

-- The byte at a place of the stream.
unfoldable pub at_pos : SpscRing → Bytes
at_pos r p = r.buf (p % r.capacity)

masked : (k : ℕ) (r : SpscRing) (at : ℕ) → IsRing k r → bit_and at r.mask ≡ at % r.capacity
unfolding IsRing
masked k r at (cap, mask) =
    ap (bit_and at) mask ∙ bit_and_mask k at ∙ ap (λ (c : ℕ). at % c) (sym cap)

module _ (k : ℕ) (r : SpscRing) (ok : IsRing k r) where
  has_room : 0 < r.capacity
  unfolding IsRing
  has_room = omega (arith, ok.0, one-le-pow k 2 (omega arith))

  write-copied :
      (at n j : ℕ) (src : Bytes)
      → write r at src n j ≡ copied r.buf src r.capacity (at % r.capacity) n j
  unfolding write copied
  write-copied at n j src = ap (λ (off : ℕ). copied r.buf src r.capacity off n j) (masked k r at ok)

  -- `write` puts the bytes at their places of the stream,
  pub write_in :
      (at n i : ℕ) (src : Bytes)
      → n ≤ r.capacity
      → i < n
      → at_pos (record r { buf = write r at src n }) (at + i) ≡ src i
  unfolding at_pos
  write_in at n i src le lt =
      write-copied at n ((at + i) % r.capacity) src
      ∙ copied_in r.buf src r.capacity (at % r.capacity) n i _ (mod-lt at has_room) le lt
          (pos_add r.capacity at i (omega arith))

  -- and leaves those before them, as far back as the buffer reaches.
  pub write_out :
      (at n p : ℕ) (src : Bytes)
      → p < at
      → at + n ≤ p + r.capacity
      → 0 < n
      → at_pos (record r { buf = write r at src n }) p ≡ at_pos r p
  unfolding at_pos
  write_out at n p src lt le pos =
      write-copied at n (p % r.capacity) src
      ∙ copied_out r.buf src r.capacity (at % r.capacity) n (at - p) _ (mod-lt p has_room)
          (omega arith) (omega arith)
          (ap (λ (x : ℕ). x % r.capacity) {x = at} {y = p + (at - p)} (omega arith)
            ∙ pos_add r.capacity p (at - p) (omega arith))

  read-fetched :
      (at n i : ℕ) (dst : Bytes)
      → read r at n dst i ≡ fetched dst r.buf r.capacity (at % r.capacity) n i
  unfolding read fetched
  read-fetched at n i dst =
      ap (λ (off : ℕ). fetched dst r.buf r.capacity off n i) (masked k r at ok)

  -- `read` gets them back, and leaves what stands behind them at the destination.
  pub read_in :
      (at n i : ℕ) (dst : Bytes) → n ≤ r.capacity → i < n → read r at n dst i ≡ at_pos r (at + i)
  unfolding at_pos
  read_in at n i dst le lt =
      read-fetched at n i dst
      ∙ fetched_in dst r.buf r.capacity (at % r.capacity) n i _ (mod-lt at has_room) le lt
          (pos_add r.capacity at i (omega arith))

  pub read_out : (at n i : ℕ) (dst : Bytes) → n ≤ r.capacity → n ≤ i → read r at n dst i ≡ dst i
  read_out at n i dst le ge =
      read-fetched at n i dst
      ∙ fetched_out dst r.buf r.capacity (at % r.capacity) n i (mod-lt at has_room) le ge
