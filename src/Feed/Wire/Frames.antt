-- ===== src/Feed/Wire/Frames.antt =====
-- Messages behind one another, each with its length in front, as they stand in a datagram.
use mathlib.Core.List.{append_assoc, append-nil}
use tickpipe.Base.{
  ℕ, zero, suc, ◌+◌, ◌/◌, ◌%◌, ◌^◌, ◌≤◌, ◌<◌, ◌≡◌, refl, sym, ap, subst, ◌∙◌, List, [], ◌∷◌, ◌++◌,
  ◌||◌, arith, ltb, ◌==◌, if◌then◌else◌, if_false, Bytes, advance, bytes_of, get_or, length,
  length-append, All,
}
use tickpipe.Itch.Order.{Order}
use tickpipe.Itch.Parser.{be16}
use tickpipe.Itch.Parser.Words.{be16_sum}
use tickpipe.Itch.Parser.Wire.{bytes_of-IsByte}
use tickpipe.Itch.Parser.Reads.{Agree, be16_ext}
use tickpipe.Feed.Server.{be16_bytes}
use tickpipe.Feed.Receiver.{UdpReceiver, short as cut, handle_message, message_loop}
use tickpipe.Feed.Wire.{handle_all}
use tickpipe.Feed.Wire.Within.{handle_message_within}

unfoldable pub frames : List (List ℕ) → List ℕ
frames [] = []
frames (m ∷ ms) = (be16_bytes (length m) ++ m) ++ frames ms

pub frames-append :
    (ms : List (List ℕ)) (m : List ℕ)
    → frames (ms ++ (m ∷ [])) ≡ frames ms ++ (be16_bytes (length m) ++ m)
unfolding frames
frames-append [] m = append-nil (be16_bytes (length m) ++ m)
frames-append (n ∷ ms) m =
    ap (λ (t : List ℕ). (be16_bytes (length n) ++ n) ++ t) (frames-append ms m)
    ∙ sym (append_assoc (be16_bytes (length n) ++ n) (frames ms) (be16_bytes (length m) ++ m))

-- What a message in a datagram can be: from 1 to 1398 bytes.
unfoldable pub IsShort : List ℕ → Type 0
IsShort m = (0 < length m) × (length m ≤ 1398)

-- Reading a list that follows another, and one that another follows.
get_or-append_right : (xs ys : List ℕ) (i : ℕ) → get_or (xs ++ ys) (length xs + i) 0 ≡ get_or ys i 0
get_or-append_right [] ys i = ap (λ (k : ℕ). get_or ys k 0) {x = 0 + i} (omega arith)
get_or-append_right (x ∷ xs) ys i =
    ap (λ (k : ℕ). get_or (x ∷ (xs ++ ys)) k 0) {x = suc (length xs) + i} {y = suc (length xs + i)}
      (omega arith)
    ∙ get_or-append_right xs ys i

get_or-append_left :
    (xs ys : List ℕ) (i : ℕ) → i < length xs → get_or (xs ++ ys) i 0 ≡ get_or xs i 0
get_or-append_left [] ys i lt = absurd (omega arith)
get_or-append_left (x ∷ xs) ys zero lt = refl
get_or-append_left (x ∷ xs) ys (suc i) lt = get_or-append_left xs ys i (omega arith)

-- The memory from `off` on holds the messages.
unfoldable pub Stands : Bytes → ℕ → List (List ℕ) → Type 0
Stands p off [] = Unit
Stands p off (m ∷ ms) =
    (p off ≡ length m / 2 ^ 8 % 256)
    × (p (off + 1) ≡ length m % 256)
    × Agree (length m) (advance p (off + 2)) (bytes_of m)
    × Stands p (off + 2 + length m) ms

pub frames-Stands :
    (pre : List ℕ) (ms : List (List ℕ)) → Stands (bytes_of (pre ++ frames ms)) (length pre) ms
unfolding frames Stands
frames-Stands pre [] = tt
frames-Stands pre (m ∷ ms) =
    let body = be16_bytes (length m) ++ m in
    let rest = frames-Stands (pre ++ body) ms in
    let at : (i : ℕ)
        → i < suc (suc (length m))
        → bytes_of (pre ++ (body ++ frames ms)) (length pre + i) ≡ bytes_of body i =
      λ i lt.
        get_or-append_right pre (body ++ frames ms) i ∙ get_or-append_left body (frames ms) i lt in
    (
      ap (bytes_of (pre ++ (body ++ frames ms))) {x = length pre} {y = length pre + 0} (omega arith)
          ∙ at 0 (omega arith),
      at 1 (omega arith),
      λ i lt.
          ap (bytes_of (pre ++ (body ++ frames ms))) {x = length pre + 2 + i}
            {y = length pre + suc (suc i)} (omega arith)
          ∙ at (suc (suc i)) (omega arith),
      subst (λ (xs : List ℕ). Stands (bytes_of xs) (length pre + 2 + length m) ms)
          (append_assoc pre body (frames ms))
          (subst (λ (k : ℕ). Stands (bytes_of ((pre ++ body) ++ frames ms)) k ms)
            (omega (arith, length-append pre body)) rest),
    )

-- The loop over a datagram handles its messages one by one.
pub message_loop-handle_all :
    (p : Bytes) (n off : ℕ) (r : UdpReceiver) (ms : List (List ℕ))
    → Stands p off ms
    → All IsShort ms
    → off + length (frames ms) ≤ n
    → message_loop p n (length ms) off r ≡ handle_all r ms
unfolding message_loop handle_all Stands frames IsShort
message_loop-handle_all p n off r [] stands short fits = refl
message_loop-handle_all p n off r (m ∷ ms) (high, low, same, stands) (short, shorts) fits =
    let L = length m in
    let body = advance p (off + 2) in
    let total : length (frames (m ∷ ms)) ≡ 2 + L + length (frames ms) =
      omega (arith, length-append m (frames ms)) in
    let size : be16 (advance p off) ≡ L =
      be16_ext (advance p off) (bytes_of (be16_bytes L)) (ap p {x = off + 0} (omega arith) ∙ high)
        low
      ∙ omega (
        arith,
        be16_sum (bytes_of (be16_bytes L))
            (bytes_of-IsByte (be16_bytes L) (omega arith, (omega arith, tt))),
        short,
      ) in
    let after : List Order × UdpReceiver → List Order × UdpReceiver =
      λ t. let rest = message_loop p n (length ms) (off + 2 + L) t.1 in (t.0 ++ rest.0, rest.1) in
    let (os, r') = handle_message r (bytes_of m) L in
    ap
      (λ (l : ℕ).
        let t = handle_message r body l in
        let rest = message_loop p n (length ms) (off + 2 + l) t.1 in
        let all : List Order × UdpReceiver = (t.0 ++ rest.0, rest.1) in
        if ltb n (off + 2) then cut r else if l == 0 || ltb n (off + 2 + l) then cut r else all)
      size
    ∙ if_false {c = ltb n (off + 2)} (cut r) _ (ground (arith, fits, total))
    ∙ if_false {c = L == 0 || ltb n (off + 2 + L)} (cut r) _ (ground (arith, fits, total, short))
    ∙ ap after (handle_message_within L body (bytes_of m) same short.0 r)
    ∙ ap (λ (t : List Order × UdpReceiver). (os ++ t.0, t.1))
        (message_loop-handle_all p n (off + 2 + L) r' ms stands shorts (omega (arith, fits, total)))
