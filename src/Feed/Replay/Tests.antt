-- ===== src/Feed/Replay/Tests.antt =====
-- A file with a deletion, a message of an unknown type, and a cut message.
use tickpipe.Base.{ℕ, ◌+◌, ◌≡◌, Option, none, some, [], ◌∷◌, Bytes, bytes_of, length, u64}
use tickpipe.Feed.Replay.{replay_all}
use tickpipe.Feed.Replay.Account.{replay_all_accounts}

abbrev mapped : Option (Bytes × ℕ)
mapped = some (
  bytes_of (
      0 ∷ 19 ∷ b'D' ∷ 0 ∷ 1 ∷ 0 ∷ 0 ∷ 0 ∷ 0 ∷ 0 ∷ 0 ∷ 0 ∷ 9 ∷ 0 ∷ 0 ∷ 0 ∷ 0 ∷ 0 ∷ 0 ∷ 0 ∷ 5 ∷ 0 ∷ 2
      ∷ b'?' ∷ 1 ∷ 0 ∷ 9 ∷ 1 ∷ []),
  28,
)

replay_all_accounts_example :
    ((replay_all mapped none 0).1.stats.messages_total
      ≡ u64 (
          (replay_all mapped none 0).1.stats.directory_messages
          + (replay_all mapped none 0).1.stats.messages_filtered
          + (replay_all mapped none 0).1.stats.messages_parsed
          + (replay_all mapped none 0).1.stats.messages_skipped))
    × ((replay_all mapped none 0).1.stats.messages_parsed
        ≡ u64 (length (replay_all mapped none 0).0))
replay_all_accounts_example = replay_all_accounts mapped none 0
