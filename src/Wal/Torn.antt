-- ===== src/Wal/Torn.antt =====
-- A write that is cut at any byte: what the file then has of the last entry.
use mathlib.Core.List.{append_assoc, append-nil}
use tickpipe.Base.{
  ℕ, zero, suc, ◌≤◌, ◌<◌, ◌≡◌, refl, ap, ap₂, sym, if_with, if◌then◌else◌, subst, ◌∙◌, Bool, false,
  some, List, [], ◌∷◌, ◌++◌, arith, ltb, leb, if_false, if_true, length, length-append, take, drop,
  All, All-append, inc64,
}
use tickpipe.Wal.{
  WalEntry, IsEntry, entry_size, Layout, FileBytes, WriteAheadLog, open_log, append, replay_loop,
  replay, disk,
}
use tickpipe.Wal.Replay.{
  Request, IsRequest, IsLoggable, reached, append-Reached, opened, entry_of, entries_from, encode,
  length-encode, take-append, drop-append, append_all, number_after, entries_from-append,
  entry_of-IsEntry, take_all, encode-append, replay-encode, entries_from-IsEntry,
}

length-take : {A : Type 0} (n : ℕ) (xs : List A) → length (take n xs) ≤ n
length-take zero xs = omega arith
length-take (suc n) [] = omega arith
length-take (suc n) (x ∷ xs) = omega (arith, length-take n xs)

module _ (layout : Layout) where
  -- What stands behind whole entries and is less than an entry is not read.
  replay_loop-tail :
      (es : List WalEntry) (tail : FileBytes) (fuel : ℕ)
      → All IsEntry es
      → length tail < entry_size
      → length es ≤ fuel
      → replay_loop layout fuel (encode layout es ++ tail) ≡ es
  unfolding replay_loop
  replay_loop-tail [] tail zero w less h = refl
  replay_loop-tail (e ∷ es) tail zero w less h = absurd (omega arith)
  replay_loop-tail [] tail (suc fuel) w less h =
      if_true {c = ltb (length tail) entry_size} [] _ (ground (arith, less))
  replay_loop-tail (e ∷ es) tail (suc fuel) w less h =
      let bytes = layout.to_bytes e in
      let file = encode layout es ++ tail in
      let shape : (bytes ++ encode layout es) ++ tail ≡ bytes ++ file =
        append_assoc bytes (encode layout es) tail in
      let enough : ltb (length (bytes ++ file)) entry_size ≡ false =
        ground (arith, length-append bytes file, layout.size e) in
      let first : take entry_size (bytes ++ file) ≡ bytes =
        subst (λ (n : ℕ). take n (bytes ++ file) ≡ bytes) (layout.size e)
          (take-append bytes file) in
      let others : drop entry_size (bytes ++ file) ≡ file =
        subst (λ (n : ℕ). drop n (bytes ++ file) ≡ file) (layout.size e) (drop-append bytes file) in
      ap (replay_loop layout (suc fuel)) shape
      ∙ if_false _ _ enough
      ∙ ap₂ (λ b r. layout.of_bytes b ∷ replay_loop layout fuel r) first others
      ∙ ap₂ (λ x xs. x ∷ xs) (layout.read_back e w.0)
          (replay_loop-tail es tail fuel w.1 less (omega arith))

  replay-tail :
      (es : List WalEntry) (tail : FileBytes)
      → All IsEntry es
      → length tail < entry_size
      → replay layout (some (encode layout es ++ tail)) ≡ (ltb 0 (length es), es)
  unfolding replay
  replay-tail es tail w less =
      ap (λ xs. (ltb 0 (length xs), xs))
        (replay_loop-tail es tail (length (encode layout es ++ tail)) w less
          (omega (arith, length-encode layout es, length-append (encode layout es) tail)))

  -- The entry is there as a whole.
  behind :
      (es : List WalEntry) (qs : List Request) (q : Request)
      → All IsEntry (es ++ entries_from (length es) qs)
      → IsLoggable q
      → entry_size ≤ reached q.io
      → let more = es ++ entries_from (length es) (qs ++ (q ∷ [])) in
        replay layout (
          some (
            encode layout (es ++ entries_from (length es) qs)
            ++ take
                (reached q.io)
                (layout.to_bytes (entry_of (inc64 (number_after (length es) qs)) q))))
        ≡ (ltb 0 (length more), more)
  behind es qs q whole h enough =
      let kept = es ++ entries_from (length es) qs in
      let m = number_after (length es) qs in
      let entry = entry_of (inc64 m) q in
      let bytes = layout.to_bytes entry in
      let all : take (reached q.io) bytes ≡ encode layout (entry ∷ []) =
        take_all (reached q.io) bytes (omega (arith, enough, layout.size entry))
        ∙ sym (append-nil bytes) in
      let shape : kept ++ (entry ∷ []) ≡ es ++ entries_from (length es) (qs ++ (q ∷ [])) =
        append_assoc es (entries_from (length es) qs) (entry ∷ [])
        ∙ ap (λ xs. es ++ xs) (sym (entries_from-append (length es) qs q)) in
      ap (λ (b : FileBytes). replay layout (some (encode layout kept ++ b))) all
      ∙ ap (λ (b : FileBytes). replay layout (some b))
          (sym (encode-append layout kept (entry ∷ [])))
      ∙ replay-encode layout (kept ++ (entry ∷ []))
          (All-append IsEntry kept (entry ∷ []) whole (entry_of-IsEntry m q h, tt))
      ∙ ap (λ xs. (ltb 0 (length xs), xs)) shape

  -- A log of whole entries is opened and requests are appended, all of them to the disk, all
  -- values fitting their fields. Of the next entry `fwrite` takes some bytes and passes some
  -- on, and `fflush`, which is called only if it took all, writes some. That `append` returns
  -- whether `fwrite` took all of the entry. The file is replayed as the entries before it, the
  -- old ones and then the requests, numbered on, and with the new entry behind them exactly if
  -- all of its bytes came to the disk.
  pub append-torn :
      (w : WriteAheadLog) (es : List WalEntry) (qs : List Request) (q : Request)
      → All IsEntry es
      → All IsRequest qs
      → IsLoggable q
      → let before = append_all layout (open_log w (some (encode layout es))).1 qs in
        let (ok, after) = append layout before q.now q.io q.kind q.order q.result in
        let kept = es ++ entries_from (length es) qs in
        let there =
          if leb entry_size (reached q.io)
          then es ++ entries_from (length es) (qs ++ (q ∷ []))
          else kept in
        (ok ≡ leb entry_size q.io.accepted)
        × (replay layout (disk after) ≡ (ltb 0 (length there), there))
  append-torn w es qs q he hq h =
      let kept = es ++ entries_from (length es) qs in
      let more = es ++ entries_from (length es) (qs ++ (q ∷ [])) in
      let m = number_after (length es) qs in
      let entry = entry_of (inc64 m) q in
      let bytes = layout.to_bytes entry in
      let there = if leb entry_size (reached q.io) then more else kept in
      let (rest, appended, _) = append-Reached layout (encode layout kept) m q in
      let whole =
        All-append IsEntry es (entries_from (length es) qs) he
          (entries_from-IsEntry (length es) qs hq) in
      let Good : Bool × WriteAheadLog → Type 0 = λ r.
        (r.0 ≡ leb entry_size q.io.accepted)
        × (replay layout (disk (r.1)) ≡ (ltb 0 (length there), there)) in
      let found : replay layout (some (encode layout kept ++ take (reached q.io) bytes))
          ≡ (ltb 0 (length there), there) =
        if_with
          (λ (es' : List WalEntry).
            replay layout (some (encode layout kept ++ take (reached q.io) bytes))
            ≡ (ltb 0 (length es'), es'))
          (leb entry_size (reached q.io)) (λ all. behind es qs q whole h (ground (arith, all)))
          (λ some_bytes.
            replay-tail kept (take (reached q.io) bytes) whole
              (ground (arith, some_bytes, length-take (reached q.io) bytes))) in
      subst (λ (v : WriteAheadLog). Good (append layout v q.now q.io q.kind q.order q.result))
        (sym (opened layout w es qs hq)) (subst Good (sym appended) (refl, found))
