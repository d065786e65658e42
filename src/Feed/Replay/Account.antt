-- ===== src/Feed/Replay/Account.antt =====
-- The counters of a file replay account for its messages.
use tickpipe.Base.{
  ℕ, zero, suc, ◌+◌, ◌^◌, ◌<◌, ◌≡◌, refl, Bool, Option, none, some, List, [], ◌++◌, ◌||◌, ◌&&◌, not,
  arith, length, length-append, if_both, ltb, leb, ◌==◌, Bytes, advance, u64, inc64,
}
use tickpipe.Itch.Order.{Order}
use tickpipe.Itch.Parser.{be16, parse}
use tickpipe.Symbols.{SymbolDirectory, feed, is_subscribed}
use tickpipe.Feed.Replay.{
  Stats, Walk, start, parse_message, handle_known, handle_message, at_limit, replay_loop,
  replay_all,
}

-- All messages, `open_messages` of them counted in the total only.
unfoldable pub IsBalanced : ℕ → Stats → Type 0
IsBalanced open_messages s =
    (s.messages_total
      ≡ u64 (
          s.directory_messages + s.messages_filtered + s.messages_parsed + s.messages_skipped
          + open_messages))
    × (s.messages_parsed < 2 ^ 64)

-- A step that hands on some orders: the counters account for all messages after it, and as many
-- orders were parsed as are handed on.
unfoldable pub Accounts : ℕ → Stats → List Order → Stats → Type 0
Accounts open_messages s os s' =
    IsBalanced open_messages s
    → IsBalanced 0 s' × (s'.messages_parsed ≡ u64 (s.messages_parsed + length os))

parse_message-Accounts :
    (w : Walk) (p : Bytes) (len : ℕ)
    → let (os, parsed, w') = parse_message w p len in Accounts 1 w.stats os w'.stats
unfolding parse_message Accounts IsBalanced
parse_message-Accounts w p len =
    if_both (λ (r : List Order × Bool × Walk). Accounts 1 w.stats r.0 r.2.stats)
      (parse w.parser (some p) len w.order).0
      (λ (total, small). ((omega arith, omega arith), omega arith))
      (λ (total, small). ((omega arith, omega arith), omega arith))

handle_known-Accounts :
    (w : Walk) (dir : SymbolDirectory) (p : Bytes) (len : ℕ)
    → let (os, parsed, w') = handle_known w dir p len in Accounts 1 w.stats os w'.stats
unfolding handle_known Accounts IsBalanced
handle_known-Accounts w dir p len =
    if_both (λ (r : List Order × Bool × Walk). Accounts 1 w.stats r.0 r.2.stats)
      (feed dir (some p) len).0 (λ (total, small). ((omega arith, omega arith), omega arith))
      (if_both (λ (r : List Order × Bool × Walk). Accounts 1 w.stats r.0 r.2.stats)
        (leb 3 len && not (is_subscribed (feed dir (some p) len).1 (be16 (advance p 1))))
        (λ (total, small). ((omega arith, omega arith), omega arith))
        (parse_message-Accounts (record w { directory = some (feed dir (some p) len).1 }) p len))

opened :
    (s : Stats) (total bytes : ℕ)
    → total ≡ inc64 s.messages_total
    → IsBalanced 0 s
    → IsBalanced 1 (record s { messages_total = total; bytes_read = bytes })
unfolding IsBalanced
opened s total bytes e (same, small) = (omega arith, small)

by_option {ℓ ℓ'} :
    {A : Type ℓ} {B : Type ℓ'} (o : Option A) (P : B → Type 0) {n : B} {f : A → B}
    → P n
    → ((a : A) → P (f a))
    → P (elim o [ none ↦ n | some a ↦ f a ])
by_option none P p q = p
by_option (some a) P p q = q a

handle_message-Accounts :
    (w : Walk) (p : Bytes) (len : ℕ)
    → let (os, parsed, w') = handle_message w p len in Accounts 0 w.stats os w'.stats
unfolding handle_message Accounts
handle_message-Accounts w p len =
    let bytes = u64 (w.stats.bytes_read + 2 + len) in
    let total = inc64 w.stats.messages_total in
    let w' = record w { stats = record (w.stats) { messages_total = total; bytes_read = bytes } } in
    let step : (r : List Order × Bool × Walk)
        → Accounts 1 w'.stats r.0 r.2.stats
        → Accounts 0 w.stats r.0 r.2.stats =
      λ r h good. h (opened w.stats total bytes refl good) in
    by_option w.directory (λ (r : List Order × Bool × Walk). Accounts 0 w.stats r.0 r.2.stats)
      (step (parse_message w' p len) (parse_message-Accounts w' p len))
      (λ dir. step (handle_known w' dir p len) (handle_known-Accounts w' dir p len))

Accounts-done : (s : Stats) → Accounts 0 s [] s
unfolding Accounts IsBalanced
Accounts-done s (total, small) = ((total, small), omega arith)

Accounts-then :
    (s s1 s2 : Stats) (os os' : List Order)
    → Accounts 0 s os s1
    → Accounts 0 s1 os' s2
    → Accounts 0 s (os ++ os') s2
unfolding Accounts
Accounts-then s s1 s2 os os' first second good =
    let (good1, parsed1) = first good in
    let (good2, parsed2) = second good1 in
    (good2, omega (arith, parsed1, parsed2, length-append os os'))

replay_loop-Accounts :
    (file : Bytes) (size max fuel off : ℕ) (w : Walk)
    → let (os, w') = replay_loop file size max fuel off w in Accounts 0 w.stats os w'.stats
unfolding replay_loop
replay_loop-Accounts file size max zero off w = Accounts-done w.stats
replay_loop-Accounts file size max (suc fuel) off w =
    let P : List Order × Walk → Type 0 = λ r. Accounts 0 w.stats r.0 r.1.stats in
    let len = be16 (advance file off) in
    let (os, parsed, w') = handle_message w (advance file (off + 2)) len in
    let one = handle_message-Accounts w (advance file (off + 2)) len in
    let rest = replay_loop-Accounts file size max fuel (off + 2 + len) w' in
    let (os', w2) = replay_loop file size max fuel (off + 2 + len) w' in
    if_both P (ltb size (off + 2)) (Accounts-done w.stats) (
      if_both P (len == 0 || ltb size (off + 2 + len)) (Accounts-done w.stats) (
        if_both P (parsed && at_limit max w') one
          (Accounts-then w.stats w'.stats w2.stats os os' one rest)))

-- Whatever the file, the directory and the limit, after a replay the directory messages, the
-- filtered, the parsed and the skipped messages make up the total, and as many orders were handed
-- on as messages were parsed, all counted modulo 2 ^ 64.
pub replay_all_accounts :
    (file : Option (Bytes × ℕ)) (directory : Option SymbolDirectory) (max_messages : ℕ)
    → let (os, w) = replay_all file directory max_messages in
      let s = w.stats in
      (s.messages_total
        ≡ u64 (s.directory_messages + s.messages_filtered + s.messages_parsed + s.messages_skipped))
      × (s.messages_parsed ≡ u64 (length os))
unfolding replay_all start IsBalanced Accounts
replay_all_accounts none directory max_messages = (refl, refl)
replay_all_accounts (some (file, size)) directory max_messages =
    let ((total, small), parsed) =
      replay_loop-Accounts file size max_messages size 0 (start directory) (refl, omega arith) in
    (omega (arith, total), omega (arith, parsed))
