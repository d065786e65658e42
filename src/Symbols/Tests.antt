-- ===== src/Symbols/Tests.antt =====
-- A name that is subscribed before its directory message comes.
use tickpipe.Base.{
  ℕ, ◌<◌, Bool, ◌≡◌, refl, true, false, none, some, List, [], ◌∷◌, Bytes, bytes_of, arith,
}
use tickpipe.Symbols.{SymbolDirectory, new, pad, pad8, subscribe, feed}
use tickpipe.Symbols.Subscribe.{Subscribes, never, IsDirectory, subscribe_lem}
use tickpipe.Symbols.Waiting.{Event, feeding, subscribing, run, SubscribedAs, feed-subscribe_lem}
use tickpipe.Itch.Parser.{be16}

abbrev name : List ℕ
name = b'I' ∷ b'B' ∷ b'M' ∷ []

-- Locate code 258, symbol "IBM     ".
abbrev directory_message : Bytes
directory_message = bytes_of (
    b'R' ∷ 1 ∷ 2 ∷ 0 ∷ 0 ∷ 0 ∷ 0 ∷ 0 ∷ 0 ∷ 0 ∷ 0 ∷ b'I' ∷ b'B' ∷ b'M' ∷ 32 ∷ 32 ∷ 32 ∷ 32 ∷ 32 ∷ [])

directory_message-IsDirectory : IsDirectory directory_message 258 (pad8 name)
unfolding be16 pad8 pad
directory_message-IsDirectory = record { kind = refl; locate = refl; stock = refl }

taken_lem :
    (s s' : SymbolDirectory) (want : List ℕ) (ok : Bool)
    → Subscribes s want ok s'
    → s.pending_count < 64
    → ok ≡ true
taken_lem s s' want true h lt = refl
taken_lem s s' want false (never h full) lt = absurd (omega arith)

new_empty : new.pending_count < 64
unfolding new
new_empty = ground arith

taken : (subscribe new (some name)).0 ≡ true
taken = taken_lem new _ (pad8 name) _ (subscribe_lem new name) new_empty

-- The directory messages of other names come first, one of which waits too.
abbrev other_name : List ℕ
other_name = b'A' ∷ b'B' ∷ []

abbrev other_message : Bytes
other_message =
    bytes_of (
      b'R' ∷ 0 ∷ 7 ∷ 0 ∷ 0 ∷ 0 ∷ 0 ∷ 0 ∷ 0 ∷ 0 ∷ 0 ∷ b'A' ∷ b'B' ∷ 32 ∷ 32 ∷ 32 ∷ 32 ∷ 32 ∷ 32 ∷ [])

abbrev calls : List Event
calls = subscribing (some other_name) ∷ feeding (some other_message) 39 ∷ feeding none 0 ∷ []

feed-subscribe_lem_example :
    SubscribedAs new
      (pad8 name)
      calls
      258
      (feed (run (subscribe new (some name)).1 calls) (some directory_message) 39).1
feed-subscribe_lem_example =
    feed-subscribe_lem new name calls directory_message 258 taken directory_message-IsDirectory
