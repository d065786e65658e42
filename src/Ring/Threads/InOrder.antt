-- ===== src/Ring/Threads/InOrder.antt =====
-- Whatever the order of the steps, the messages come out as they went in.
use tickpipe.Base.{ℕ, ◌+◌, ◌^◌, ◌≤◌, ◌<◌, ◌≡◌, refl, sym, ap, subst, List, [], ◌∷◌, ◌++◌}
use tickpipe.Ring.{SpscRing}
use tickpipe.Ring.Cells.{at_pos}
use tickpipe.Ring.Fifo.{Message, IsRecord, IsQueue}
use tickpipe.Ring.Threads.{
  Producer, ready, checked, written, Consumer, waiting, seen, copied, Threads, Move, push_load,
  push_write, push_publish, pop_load, pop_copy, pop_publish,
}

-- A received message has the bytes of the sent one.
abbrev pub Same : Message → Message → Type 0
Same m x = (x.1 ≡ m.1) × ((i : ℕ) → i < m.1 → x.0 i ≡ m.0 i)

-- What was sent is what was received, in its order, and then a queue.
unfoldable pub Delivered : List Message → List Message → List Message → Type 0
Delivered sent [] q = sent ≡ q
Delivered [] (x ∷ received) q = ⊥
Delivered (m ∷ sent) (x ∷ received) q = Same m x × Delivered sent received q

pub Delivered-receive :
    (sent received : List Message) (m x : Message) (q : List Message)
    → Delivered sent received (m ∷ q)
    → Same m x
    → Delivered sent (received ++ (x ∷ [])) q
unfolding Delivered
Delivered-receive sent [] m x q e same =
    subst (λ (s : List Message). Delivered s (x ∷ []) q) (sym e) (same, refl)
Delivered-receive [] (y ∷ received) m x q never same = absurd never
Delivered-receive (n ∷ sent) (y ∷ received) m x q (first, rest) same =
    (first, Delivered-receive sent received m x q rest same)

pub Delivered-send :
    (sent received : List Message) (m : Message) (q : List Message)
    → Delivered sent received q
    → Delivered (sent ++ (m ∷ [])) received (q ++ (m ∷ []))
unfolding Delivered
Delivered-send sent [] m q e = ap (λ (s : List Message). s ++ (m ∷ [])) e
Delivered-send [] (y ∷ received) m q never = absurd never
Delivered-send (n ∷ sent) (y ∷ received) m q (first, rest) =
    (first, Delivered-send sent received m q rest)

-- Every message fits a buffer of `out_cap` bytes.
unfoldable pub AllFit : ℕ → List Message → Type 0
AllFit out_cap [] = Unit
AllFit out_cap (m ∷ q) = (m.1 ≤ out_cap) × AllFit out_cap q

pub AllFit-append :
    (out_cap : ℕ) (q : List Message) (m : Message)
    → AllFit out_cap q
    → m.1 ≤ out_cap
    → AllFit out_cap (q ++ (m ∷ []))
unfolding AllFit
AllFit-append out_cap [] m h le = (le, tt)
AllFit-append out_cap (x ∷ q) m (first, rest) le = (first, AllFit-append out_cap q m rest le)

-- What a schedule may push: messages of 1 to `out_cap` bytes.
unfoldable pub IsSmall : ℕ → Move → Type 0
IsSmall out_cap (push_load payload len) = (0 < len) × (len ≤ out_cap)
IsSmall out_cap push_write = Unit
IsSmall out_cap push_publish = Unit
IsSmall out_cap pop_load = Unit
IsSmall out_cap (pop_copy out) = Unit
IsSmall out_cap pop_publish = Unit

unfoldable pub AllSmall : ℕ → List Move → Type 0
AllSmall out_cap [] = Unit
AllSmall out_cap (m ∷ ms) = IsSmall out_cap m × AllSmall out_cap ms

-- The bytes that it pushes, with their lengths.
unfoldable pub bytes_of_move : Move → ℕ
bytes_of_move (push_load payload len) = 4 + len
bytes_of_move push_write = 0
bytes_of_move push_publish = 0
bytes_of_move pop_load = 0
bytes_of_move (pop_copy out) = 0
bytes_of_move pop_publish = 0

unfoldable pub bytes_of_moves : List Move → ℕ
bytes_of_moves [] = 0
bytes_of_moves (m ∷ ms) = bytes_of_move m + bytes_of_moves ms

-- The message of a thread that is inside `push`: there is room for it, and its bytes are in place
-- once they are written.
unfoldable pub Room : ℕ → ℕ → SpscRing → ℕ → Type 0
Room out_cap left r len =
    (0 < len)
    × (len ≤ out_cap)
    × (r.head + 4 + len + left < 2 ^ 64)
    × (r.head + 4 + len ≤ r.tail + r.capacity)

unfoldable pub IsProducer : ℕ → ℕ → SpscRing → Producer → Type 0
IsProducer out_cap left r ready = r.head + left < 2 ^ 64
IsProducer out_cap left r (checked payload len) = Room out_cap left r len
IsProducer out_cap left r (written payload len) =
    Room out_cap left r len × IsRecord (at_pos r) r.head (payload, len)

-- A thread inside `pop` is at the first message of the queue.
unfoldable pub IsConsumer : List Message → Consumer → Type 0
IsConsumer q waiting = Unit
IsConsumer [] (seen h) = ⊥
IsConsumer (m ∷ q) (seen h) = Unit
IsConsumer [] (copied out n) = ⊥
IsConsumer (m ∷ q) (copied out n) = Same m (out, n)

pub IsConsumer-append :
    (q : List Message) (m : Message) (c : Consumer) → IsConsumer q c → IsConsumer (q ++ (m ∷ [])) c
unfolding IsConsumer
IsConsumer-append q m waiting h = tt
IsConsumer-append [] m (seen n) h = absurd h
IsConsumer-append (x ∷ q) m (seen n) h = tt
IsConsumer-append [] m (copied out n) h = absurd h
IsConsumer-append (x ∷ q) m (copied out n) h = h

-- The invariant, with the queue.
unfoldable pub IsAt : ℕ → ℕ → ℕ → List Message → Threads → Type 0
IsAt k out_cap left q s =
    IsQueue k s.ring q
    × AllFit out_cap q
    × Delivered s.sent s.received q
    × IsProducer out_cap left s.ring s.producer
    × IsConsumer q s.consumer
