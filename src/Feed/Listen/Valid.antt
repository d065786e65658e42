-- ===== src/Feed/Listen/Valid.antt =====
-- What the two threads of the receiver keep, whatever the order of their steps.
use tickpipe.Base.{
  ℕ, suc, ◌+◌, ◌*◌, ◌^◌, ◌≤◌, ◌<◌, ◌≡◌, refl, ap, Bool, false, none, some, List, [], ◌∷◌, ◌++◌, map,
  arith, bytes_of, length, All,
}
use tickpipe.Ring.Fifo.{Message, IsQueue}
use tickpipe.Feed.Receiver.{UdpReceiver}
use tickpipe.Feed.Wire.{receive_all}
use tickpipe.Feed.Listen.{
  max_packet_size, Phase, polling, checking, finished, Listener, Event, recv, round, test,
}

-- The bytes of datagrams in the ring.
abbrev pub size : List (List ℕ) → ℕ
size [] = 0
size (d ∷ ds) = 4 + length d + size ds

-- The datagrams that come in over a schedule.
unfoldable pub incoming : List Event → List (List ℕ)
incoming [] = []
incoming (recv none ∷ es) = incoming es
incoming (recv (some d) ∷ es) = d ∷ incoming es
incoming (round now ∷ es) = incoming es
incoming (test ∷ es) = incoming es

-- The datagrams that `push` took of those that arrived, and how many it dropped.
pub data Taken : ℕ → List (List ℕ) → List (List ℕ) → Type 0 where
  nothing : Taken 0 [] []
  kept :
      {n : ℕ} {arrived taken : List (List ℕ)} (d : List ℕ)
      → Taken n arrived taken
      → Taken n (arrived ++ (d ∷ [])) (taken ++ (d ∷ []))
  dropped :
      {n : ℕ} {arrived taken : List (List ℕ)} (d : List ℕ)
      → Taken n arrived taken
      → Taken (suc n) (arrived ++ (d ∷ [])) taken

pub size-append : (xs ys : List (List ℕ)) → size (xs ++ ys) ≡ size xs + size ys
size-append [] ys = omega arith
size-append (x ∷ xs) ys = omega (arith, size-append xs ys)

pub length-le-size : (ds : List (List ℕ)) → length ds * 4 ≤ size ds
length-le-size [] = omega arith
length-le-size (d ∷ ds) = omega (arith, length-le-size ds)

pub Taken-size :
    {n : ℕ} {arrived taken : List (List ℕ)} → Taken n arrived taken → size taken + n ≤ size arrived
Taken-size nothing = omega arith
Taken-size (kept {arrived = ds} {taken = ts} d h) =
    omega (arith, Taken-size h, size-append ds (d ∷ []), size-append ts (d ∷ []))
Taken-size (dropped {arrived = ds} d h) = omega (arith, Taken-size h, size-append ds (d ∷ []))

pub Taken-all :
    {n : ℕ} {arrived taken : List (List ℕ)} → Taken n arrived taken → n ≡ 0 → taken ≡ arrived
Taken-all nothing e = refl
Taken-all (kept d h) e = ap (λ (ds : List (List ℕ)). ds ++ (d ∷ [])) (Taken-all h e)
Taken-all (dropped d h) e = absurd (omega (arith, e))

abbrev pub message : List ℕ → Message
message d = (bytes_of d, length d)

unfoldable pub IsDatagram : List ℕ → Type 0
IsDatagram d = (0 < length d) × (length d ≤ max_packet_size)

-- The book thread stops when the socket thread has ended and nothing waits.
unfoldable pub Ends : Bool → List (List ℕ) → Phase → Type 0
Ends running waiting polling = Unit
Ends running waiting checking = Unit
Ends running waiting finished = (running ≡ false) × (waiting ≡ [])

-- The datagrams handled, those that wait in the ring, and the number that was dropped; `left` bytes
-- may still come in.
pub record IsValid (k left : ℕ) (r : UdpReceiver) (s : Listener) (handled waiting : List (List ℕ))
    (n : ℕ) : Type 0 where
  pub queue : IsQueue k s.ring (map message waiting)
  pub datagrams : All IsDatagram waiting
  pub taken : s.taken ≡ handled ++ waiting
  pub outcome : receive_all r handled ≡ (s.orders, s.receiver)
  pub losses : Taken n s.arrived s.taken
  pub drops : s.ring.dropped ≡ n
  pub head : s.ring.head ≡ size s.taken
  pub low : size s.arrived + left < 2 ^ 64
  pub room : size s.arrived ≤ 2 ^ k → n ≡ 0
  pub packets : s.packets_received ≡ length s.arrived
  pub bytes : s.bytes_received + 4 * s.packets_received ≡ size s.arrived
  pub ends : Ends s.running waiting s.phase

abbrev pub IsReached : ℕ → ℕ → UdpReceiver → Listener → Type 0
IsReached k left r s =
    (handled : List (List ℕ)) × (waiting : List (List ℕ)) × (n : ℕ) × IsValid k left r s handled
      waiting n
