-- ===== src/Ring/Fifo.antt =====
-- The ring against a queue of messages.
use tickpipe.Base.{
  ℕ, ◌+◌, ◌-◌, ◌/◌, ◌%◌, ◌^◌, ◌≤◌, ◌<◌, ◌≡◌, refl, sym, ◌∙◌, subst, Bool, true, false, List, [],
  ◌∷◌, ◌++◌, ◌||◌, arith, ltb, ◌==◌, ltb→lt, if◌then◌else◌, if_with, Bytes, u32, u64, inc64,
}
use tickpipe.Ring.{SpscRing, write, read, used, push, pop, length_bytes, length_of}
use tickpipe.Ring.Cells.{IsRing, at_pos, write_in, write_out, read_in, read_out}

-- A message: its bytes and their number.
abbrev pub Message : Type 0
Message = Bytes × ℕ

-- A record in the stream: the length in four bytes, then the message.
unfoldable pub IsRecord : Bytes → ℕ → Message → Type 0
IsRecord cells p (payload, len) =
    (0 < len)
    × (4 + len < 2 ^ 32)
    × ((i : ℕ) → i < 4 → cells (p + i) ≡ length_bytes len i)
    × ((i : ℕ) → i < len → cells (p + 4 + i) ≡ payload i)

-- The stream from one place to another is the records of these messages.
unfoldable pub Holds : Bytes → ℕ → ℕ → List Message → Type 0
Holds cells p h [] = p ≡ h
Holds cells p h (m ∷ q) = IsRecord cells p m × Holds cells (p + 4 + m.1) h q

pub Holds-le : (cells : Bytes) (p h : ℕ) (q : List Message) → Holds cells p h q → p ≤ h
unfolding Holds
Holds-le cells p h [] e = omega arith
Holds-le cells p h (m ∷ q) (_, rest) = omega (arith, Holds-le cells (p + 4 + m.1) h q rest)

pub Holds-frame :
    (cells cells' : Bytes) (p h : ℕ) (q : List Message)
    → ((x : ℕ) → p ≤ x → x < h → cells' x ≡ cells x)
    → Holds cells p h q
    → Holds cells' p h q
unfolding Holds IsRecord
Holds-frame cells cells' p h [] same e = e
Holds-frame cells cells' p h ((payload, len) ∷ q) same ((pos, small, size, bytes), rest) =
    let le = Holds-le cells (p + 4 + len) h q rest in
    (
      (
        pos,
        small,
        λ i lt. same (p + i) (omega arith) (omega arith) ∙ size i lt,
        λ i lt. same (p + 4 + i) (omega arith) (omega arith) ∙ bytes i lt,
      ),
      Holds-frame cells cells' (p + 4 + len) h q (λ x ge lt. same x (omega arith) lt) rest,
    )

pub Holds-append :
    (cells : Bytes) (p h : ℕ) (q : List Message) (m : Message)
    → Holds cells p h q
    → IsRecord cells h m
    → Holds cells p (h + 4 + m.1) (q ++ (m ∷ []))
unfolding Holds
Holds-append cells p h [] m e rec =
    (subst (λ (x : ℕ). IsRecord cells x m) (sym e) rec, omega (arith, e))
Holds-append cells p h (m' ∷ q) m (first, rest) rec =
    (first, Holds-append cells (p + 4 + m'.1) h q m rest rec)

-- A ring of `2 ^ k` bytes whose unread stream is the records of a queue.
unfoldable pub IsQueue : ℕ → SpscRing → List Message → Type 0
IsQueue k r q =
    IsRing k r
    × (r.head ≤ r.tail + r.capacity)
    × (r.head < 2 ^ 64)
    × Holds (at_pos r) r.tail r.head q

-- What `push` returns and leaves.
unfoldable pub Pushed : ℕ → SpscRing → List Message → Message → Bool × SpscRing → Type 0
Pushed k r q m (true, r') = (used r + 4 + m.1 ≤ r.capacity) × IsQueue k r' (q ++ (m ∷ []))
Pushed k r q m (false, r') =
    (r.capacity < used r + 4 + m.1) × IsQueue k r' q × (r'.dropped ≡ inc64 r.dropped)

module _ (k : ℕ) (r : SpscRing) (q : List Message) (payload : Bytes) (len : ℕ) where
  -- The bytes that `push` leaves when the message fits.
  unfoldable pub stored : Bytes
  stored =
      let r2 = record r { buf = write r r.head (length_bytes len) 4 } in
      at_pos (record r2 { buf = write r2 (r.head + 4) payload len })

  pub stored-IsRecord :
      IsRing k r
      → 0 < len
      → 4 + len < 2 ^ 32
      → 4 + len ≤ r.capacity
      → IsRecord stored r.head (payload, len)
  unfolding stored IsRecord IsRing
  stored-IsRecord ok pos small fits =
      let r2 = record r { buf = write r r.head (length_bytes len) 4 } in
      (
        pos,
        small,
        λ i lt.
            write_out k r2 ok (r.head + 4) len (r.head + i) payload (omega arith) (omega arith) pos
            ∙ write_in k r ok r.head 4 i (length_bytes len) (omega arith) lt,
        λ i lt. write_in k r2 ok (r.head + 4) len i payload (omega arith) lt,
      )

  pub stored_before :
      (x : ℕ)
      → IsRing k r
      → 0 < len
      → x < r.head
      → r.head + 4 + len ≤ x + r.capacity
      → stored x ≡ at_pos r x
  unfolding stored IsRing
  stored_before x ok pos lt fits =
      let r2 = record r { buf = write r r.head (length_bytes len) 4 } in
      write_out k r2 ok (r.head + 4) len x payload (omega arith) (omega arith) pos
      ∙ write_out k r ok r.head 4 x (length_bytes len) lt (omega arith) (omega arith)

-- The ring after a message that fits, with the two sums of the code.
stored-IsQueue :
    (k hw : ℕ) (r : SpscRing) (q : List Message) (payload : Bytes) (len at4 head' : ℕ)
    → IsQueue k r q
    → 0 < len
    → 4 + len < 2 ^ 32
    → r.head + 4 + len < 2 ^ 64
    → r.head + 4 + len ≤ r.tail + r.capacity
    → at4 ≡ r.head + 4
    → head' ≡ r.head + 4 + len
    → let r1 = record r { high_water = hw } in
      let r2 = record r1 { buf = write r1 r.head (length_bytes len) 4 } in
      let r3 = record r2 { buf = write r2 at4 payload len } in
      IsQueue k (record r3 { head = head' }) (q ++ ((payload, len) ∷ []))
unfolding IsQueue IsRing at_pos stored write
stored-IsQueue k hw r q payload len at4 head' (ok, within, small, holds) pos short low fits e4 e =
    let tail_le = Holds-le (at_pos r) r.tail r.head q holds in
    let cells = stored k r q payload len in
    let kept =
      Holds-frame (at_pos r) cells r.tail r.head q
        (λ x ge lt. stored_before k r q payload len x ok pos lt (omega arith)) holds in
    let all =
      Holds-append cells r.tail r.head q (payload, len) kept
        (stored-IsRecord k r q payload len ok pos short (omega arith)) in
    (
      ok,
      omega arith,
      omega arith,
      subst
          (λ (h : ℕ).
            Holds
              (at_pos (record r {
                buf =
                    write (record r { buf = write r r.head (length_bytes len) 4 }) at4 payload len;
              }))
              r.tail h (q ++ ((payload, len) ∷ [])))
          (sym e)
          (subst
            (λ (a : ℕ).
              Holds
                (at_pos (record r {
                  buf =
                      write (record r { buf = write r r.head (length_bytes len) 4 }) a payload len;
                }))
                r.tail (r.head + 4 + len) (q ++ ((payload, len) ∷ [])))
            (sym e4) all),
    )

-- On a ring that holds a queue, `push` of a message of some bytes whose record ends below 2 ^ 64
-- in the stream succeeds exactly when the record fits beside what the ring holds. The ring then
-- holds the queue with the message at its end; otherwise it holds the queue and one more message
-- is counted as dropped.
pub push-Pushed :
    (k : ℕ) (r : SpscRing) (q : List Message) (payload : Bytes) (len : ℕ)
    → IsQueue k r q
    → 0 < len
    → 4 + len < 2 ^ 32
    → r.head + 4 + len < 2 ^ 64
    → Pushed k r q (payload, len) (push r payload len)
unfolding push Pushed used IsQueue IsRing at_pos
push-Pushed k r q payload len (ok, within, small, holds) pos short low =
    let tail_le = Holds-le (at_pos r) r.tail r.head q holds in
    let have : used r ≡ r.head - r.tail = omega arith in
    if_with (Pushed k r q (payload, len)) (ltb r.capacity (u64 (used r + u32 (4 + len))))
      (λ full. (omega (arith, have, ltb→lt r.capacity _ full), (ok, within, small, holds), refl))
      (λ fits.
        let room : r.head + 4 + len ≤ r.tail + r.capacity = ground (arith, fits, have) in
        (
          omega (arith, have),
          stored-IsQueue k (if ltb r.high_water (used r) then used r else r.high_water) r q payload
              len (u64 (r.head + 4)) (u64 (r.head + u32 (4 + len))) (ok, within, small, holds) pos
              short low room (omega arith) (omega arith),
        ))

-- What `pop` returns and leaves on a queue with a first message.
unfoldable pub Popped : ℕ → List Message → Message → Bytes → ℕ × Bytes × SpscRing → Type 0
Popped k q (payload, len) out (n, out', r') =
    (n ≡ len)
    × ((i : ℕ) → i < len → out' i ≡ payload i)
    × ((i : ℕ) → len ≤ i → out' i ≡ out i)
    × IsQueue k r' q

pub length_of-length_bytes :
    (p : Bytes) (len : ℕ)
    → len < 2 ^ 32
    → ((i : ℕ) → i < 4 → p i ≡ length_bytes len i)
    → length_of p ≡ len
length_of-length_bytes p len lt same =
    let b0 : p 0 ≡ len % 256 = same 0 (omega arith) in
    let b1 : p 1 ≡ len / 2 ^ 8 % 256 = same 1 (omega arith) in
    let b2 : p 2 ≡ len / 2 ^ 16 % 256 = same 2 (omega arith) in
    let b3 : p 3 ≡ len / 2 ^ 24 % 256 = same 3 (omega arith) in omega (arith, b0, b1, b2, b3)

-- On a ring that holds a queue with a first message, and with room for it, `pop` returns the
-- length of that message and copies its bytes, no more; the ring then holds the rest of the
-- queue.
pub pop-Popped :
    (k : ℕ) (r : SpscRing) (q : List Message) (m : Message) (out : Bytes) (out_cap : ℕ)
    → IsQueue k r (m ∷ q)
    → m.1 ≤ out_cap
    → Popped k q m out (pop r out out_cap)
unfolding pop Popped IsQueue Holds IsRecord IsRing at_pos
pop-Popped k r q (payload, len) out out_cap (ok, within, small, ((pos, short, size, bytes), rest))
      room =
    let low = Holds-le (at_pos r) (r.tail + 4 + len) r.head q rest in
    let found : length_of (read r r.tail 4 (λ _. 0)) ≡ len =
      length_of-length_bytes (read r r.tail 4 (λ _. 0)) len (omega arith)
        (λ i lt. read_in k r ok r.tail 4 i (λ _. 0) (omega arith) lt ∙ size i lt) in
    let n = length_of (read r r.tail 4 (λ _. 0)) in
    if_with (Popped k q (payload, len) out) (r.head == r.tail)
      (λ same. absurd (ground (arith, same)))
      (λ _.
        if_with (Popped k q (payload, len) out) (n == 0 || ltb out_cap n)
          (λ bad. absurd (ground (arith, bad, found)))
          (λ _.
            let result : ℕ → ℕ → ℕ → ℕ × Bytes × SpscRing =
              λ n at4 tail'. (n, read r at4 n out, record r { tail = tail' }) in
            let good : Popped k q (payload, len) out (result len (r.tail + 4) (r.tail + 4 + len)) =
              (
                refl,
                λ i lt. read_in k r ok (r.tail + 4) len i out (omega arith) lt ∙ bytes i lt,
                λ i ge. read_out k r ok (r.tail + 4) len i out (omega arith) ge,
                (ok, omega arith, small, rest),
              ) in
            let e4 : r.tail + 4 ≡ u64 (r.tail + 4) = omega arith in
            let e : r.tail + 4 + len ≡ u64 (r.tail + 4 + n) = omega (arith, found) in
            subst (λ (v : ℕ). Popped k q (payload, len) out (result n (u64 (r.tail + 4)) v)) e
              (subst (λ (v : ℕ). Popped k q (payload, len) out (result n v (r.tail + 4 + len))) e4
                (subst
                  (λ (v : ℕ).
                    Popped k q (payload, len) out (result v (r.tail + 4) (r.tail + 4 + len)))
                  (sym found) good))))
