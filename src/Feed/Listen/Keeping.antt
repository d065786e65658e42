-- ===== src/Feed/Listen/Keeping.antt =====
-- Each step of the two threads keeps what Listen/Valid states.
use mathlib.Core.List.{append_assoc}
use tickpipe.Base.{
  ℕ, suc, ◌+◌, ◌^◌, ◌≤◌, ◌<◌, ◌≡◌, refl, sym, ap, subst, ◌∙◌, Bool, true, false, ◌||◌, List, [],
  ◌∷◌, ◌++◌, map, arith, ltb, ◌==◌, if◌then◌else◌, if_both, if_false, Bytes, bytes_of, length,
  length-append, All, u32, u64, inc64, sub64,
}
use tickpipe.Itch.Order.{Order}
use tickpipe.Ring.{SpscRing, push, pop, used, read, length_of}
use tickpipe.Ring.Cells.{IsRing, at_pos}
use tickpipe.Ring.Fifo.{Message, Holds-le, IsQueue, Pushed, Popped}
use tickpipe.Feed.Receiver.{UdpReceiver, receive_packet}
use tickpipe.Feed.Wire.Sending.{prepend}
use tickpipe.Feed.Listen.{Phase, polling, checking, finished, Listener, store, handle}
use tickpipe.Feed.Listen.Within.{receive_packet_within, receive_all_snoc}
use tickpipe.Feed.Listen.Valid.{
  size-append, length-le-size, kept, dropped, Taken-size, message, IsDatagram, Ends, IsValid,
  IsReached,
}

-- The cursors and the count that `push` and `pop` leave.
pub record Stored (r : SpscRing) (len : ℕ) (t : Bool × SpscRing) : Type 0 where
  head : t.1.head ≡ (if t.0 then r.head + 4 + len else r.head)
  drops : t.1.dropped ≡ (if t.0 then r.dropped else inc64 r.dropped)

pub push-Stored :
    (r : SpscRing) (payload : Bytes) (len : ℕ)
    → 4 + len < 2 ^ 32
    → r.head + 4 + len < 2 ^ 64
    → Stored r len (push r payload len)
unfolding push
push-Stored r payload len small low =
    if_both (Stored r len) (ltb r.capacity (u64 (used r + u32 (4 + len))))
      (record { head = refl; drops = refl }) (record { head = omega arith; drops = refl })

pub record Left (r r' : SpscRing) : Type 0 where
  pub head : r'.head ≡ r.head
  pub drops : r'.dropped ≡ r.dropped

pub pop-Left : (r : SpscRing) (out : Bytes) (cap : ℕ) → Left r (pop r out cap).2
unfolding pop
pop-Left r out cap =
    let len = length_of (read r r.tail 4 (λ _. 0)) in
    let P : ℕ × Bytes × SpscRing → Type 0 = λ t. Left r t.2 in
    if_both P (r.head == r.tail) (record { head = refl; drops = refl })
      (if_both P (len == 0 || ltb cap len) (record { head = refl; drops = refl })
        (record { head = refl; drops = refl }))

map-append_one :
    (ds : List (List ℕ)) (d : List ℕ)
    → map message (ds ++ (d ∷ [])) ≡ map message ds ++ (message d ∷ [])
map-append_one [] d = refl
map-append_one (x ∷ ds) d = ap (λ (t : List Message). message x ∷ t) (map-append_one ds d)

All-append_one :
    (P : List ℕ → Type 0) (ds : List (List ℕ)) (d : List ℕ)
    → All P ds
    → P d
    → All P (ds ++ (d ∷ []))
All-append_one P [] d all p = (p, tt)
All-append_one P (x ∷ ds) d (q, all) p = (q, All-append_one P ds d all p)

module _ (k left : ℕ) (r : UdpReceiver) (s : Listener) (handled waiting : List (List ℕ))
    (n : ℕ) where
  Ends-running :
      (w : List (List ℕ)) (p : Phase)
      → s.running ≡ true
      → Ends s.running waiting p
      → Ends s.running w p
  unfolding Ends
  Ends-running w polling e h = tt
  Ends-running w checking e h = tt
  Ends-running w finished e h = absurd (ground (arith, e, h.0))

  pub store-IsValid :
      (d : List ℕ) (t : Bool × SpscRing)
      → s.running ≡ true
      → IsDatagram d
      → IsValid k (4 + length d + left) r s handled waiting n
      → Pushed k s.ring (map message waiting) (message d) t
      → Stored s.ring (length d) t
      → IsReached k left r (store d t s)
  unfolding store Pushed IsDatagram IsQueue IsRing used
  store-IsValid d (true, ring) up short v (fits, queue) stored =
      let grown = size-append s.arrived (d ∷ []) in
      let e =
        subst (λ (q : List Message). IsQueue k ring q) (sym (map-append_one waiting d)) queue in
      (
        handled,
        waiting ++ (d ∷ []),
        n,
        record {
          queue = e;
          datagrams = All-append_one IsDatagram waiting d v.datagrams short;
          taken =
              ap (λ (ds : List (List ℕ)). ds ++ (d ∷ [])) v.taken
              ∙ append_assoc handled waiting (d ∷ []);
          outcome = v.outcome;
          losses = kept d v.losses;
          drops = stored.drops ∙ v.drops;
          head = omega (arith, stored.head, v.head, size-append s.taken (d ∷ []));
          low = omega (arith, grown, v.low);
          room = λ le. v.room (omega (arith, grown, le));
          packets =
              omega (
                arith,
                v.packets,
                v.low,
                length-le-size s.arrived,
                length-append s.arrived (d ∷ []),
              );
          bytes = omega (arith, v.packets, v.low, v.bytes, length-le-size s.arrived, grown);
          ends = Ends-running (waiting ++ (d ∷ [])) s.phase up v.ends;
        },
      )
  store-IsValid d (false, ring) up short v (full, queue, drops) stored =
      let grown = size-append s.arrived (d ∷ []) in
      let some_left = Taken-size v.losses in
      let (shape, within, small, holds) = v.queue in
      let tail_le = Holds-le (at_pos s.ring) s.ring.tail s.ring.head (map message waiting) holds in
      let most : used s.ring ≤ s.ring.head = omega arith in
      (
        handled,
        waiting,
        suc n,
        record {
          queue = queue;
          datagrams = v.datagrams;
          taken = v.taken;
          outcome = v.outcome;
          losses = dropped d v.losses;
          drops = omega (arith, stored.drops, v.drops, some_left, v.low);
          head = omega (arith, stored.head, v.head);
          low = omega (arith, grown, v.low);
          room = λ le. absurd (omega (arith, grown, le, full, most, shape.0, v.head, some_left));
          packets =
              omega (
                arith,
                v.packets,
                v.low,
                length-le-size s.arrived,
                length-append s.arrived (d ∷ []),
              );
          bytes = omega (arith, v.packets, v.low, v.bytes, length-le-size s.arrived, grown);
          ends = Ends-running waiting s.phase up v.ends;
        },
      )

  Ends-stopped : (p : Phase) → Ends s.running waiting p → Ends false waiting p
  unfolding Ends
  Ends-stopped polling h = tt
  Ends-stopped checking h = tt
  Ends-stopped finished h = (refl, h.1)

  pub stopped-IsValid :
      IsValid k left r s handled waiting n
      → IsValid k left r (record s { running = false }) handled waiting n
  stopped-IsValid v = record {
    queue = v.queue;
    datagrams = v.datagrams;
    taken = v.taken;
    outcome = v.outcome;
    losses = v.losses;
    drops = v.drops;
    head = v.head;
    low = v.low;
    room = v.room;
    packets = v.packets;
    bytes = v.bytes;
    ends = Ends-stopped s.phase v.ends;
  }

  pub fewer-IsValid :
      (less : ℕ)
      → less ≤ left
      → IsValid k left r s handled waiting n
      → IsValid k less r s handled waiting n
  fewer-IsValid less le v = record {
    queue = v.queue;
    datagrams = v.datagrams;
    taken = v.taken;
    outcome = v.outcome;
    losses = v.losses;
    drops = v.drops;
    head = v.head;
    low = omega (arith, v.low, le);
    room = v.room;
    packets = v.packets;
    bytes = v.bytes;
    ends = v.ends;
  }

  -- A `pop` that gives nothing.
  pub idle-IsValid :
      (now : ℕ)
      → IsValid k left r s handled waiting n
      → IsValid k left r (handle now (0, s.buf, s.ring) s) handled waiting n
  unfolding handle Ends
  idle-IsValid now v = record {
    queue = v.queue;
    datagrams = v.datagrams;
    taken = v.taken;
    outcome = v.outcome;
    losses = v.losses;
    drops = v.drops;
    head = v.head;
    low = v.low;
    room = v.room;
    packets = v.packets;
    bytes = v.bytes;
    ends = tt;
  }

-- One that gives the first datagram that waits.
module _ (k left : ℕ) (r : UdpReceiver) (s : Listener) (handled waiting : List (List ℕ)) (n now : ℕ)
    (d : List ℕ) where
  busy : Bytes → SpscRing → Listener
  busy buf ring =
      let (os, r') = receive_packet s.receiver buf (length d) in
      record s {
        ring = ring;
        buf = buf;
        t_prev = now;
        process_ns = u64 (s.process_ns + sub64 now s.t_prev);
        receiver = r';
        orders = s.orders ++ os;
      }

  busy-IsValid :
      (buf : Bytes) (ring : SpscRing)
      → IsValid k left r s handled (d ∷ waiting) n
      → s.phase ≡ polling
      → ((i : ℕ) → i < length d → buf i ≡ bytes_of d i)
      → IsQueue k ring (map message waiting)
      → Left s.ring ring
      → IsValid k left r (busy buf ring) (handled ++ (d ∷ [])) waiting n
  unfolding busy Ends
  busy-IsValid buf ring v phase same queue cursors = record {
    queue = queue;
    datagrams = v.datagrams.1;
    taken = v.taken ∙ sym (append_assoc handled (d ∷ []) waiting);
    outcome =
        receive_all_snoc r handled d
        ∙ ap
            (λ (t : List Order × UdpReceiver).
              prepend t.0 (receive_packet t.1 (bytes_of d) (length d)))
            v.outcome
        ∙ ap (prepend s.orders)
            (sym (receive_packet_within (length d) buf (bytes_of d) same s.receiver));
    losses = v.losses;
    drops = cursors.drops ∙ v.drops;
    head = cursors.head ∙ v.head;
    low = v.low;
    room = v.room;
    packets = v.packets;
    bytes = v.bytes;
    ends = subst (Ends s.running waiting) (sym phase) tt;
  }

  pub handle-IsValid :
      (t : ℕ × Bytes × SpscRing)
      → IsValid k left r s handled (d ∷ waiting) n
      → s.phase ≡ polling
      → Popped k (map message waiting) (message d) s.buf t
      → Left s.ring t.2
      → IsValid k left r (handle now t s) (handled ++ (d ∷ [])) waiting n
        × ((handle now t s).phase ≡ polling)
  unfolding handle Popped IsDatagram busy
  handle-IsValid (m, buf, ring) v phase (count, bytes, behind, queue) cursors =
      let short = v.datagrams.0 in
      let e : busy buf ring ≡ handle now (m, buf, ring) s = sym (
        ap (λ (x : ℕ). handle now (x, buf, ring) s) count
        ∙ if_false {c = length d == 0} _ _ (ground (arith, short))) in
      (
        subst (λ (u : Listener). IsValid k left r u (handled ++ (d ∷ [])) waiting n) e
            (busy-IsValid buf ring v phase bytes queue cursors),
        subst (λ (u : Listener). u.phase ≡ polling) e phase,
      )
