-- ===== src/Wal/Replay.antt =====
-- What is appended is replayed: the whole log, in order, with its sequence numbers.
use mathlib.Core.List.{append_assoc, append-nil}
use tickpipe.Base.{
  ℕ, zero, suc, ◌+◌, ◌*◌, ◌/◌, ◌^◌, ◌<◌, leb, min, not, not_both, if_both, if◌then◌else◌, ◌≤◌, ◌≡◌,
  refl, sym, ap, ap₂, ◌∙◌, Bool, true, false, some, List, [], ◌∷◌, ◌++◌, arith, ltb, if_false,
  inc64, length, length-append, take, drop, subst, All, All-append,
}
use tickpipe.Itch.Order.{Order}
use tickpipe.Engine.Book.{MatchResult}
use tickpipe.Wal.{
  WalEntryType, WalEntry, IsEntry, FitsOrder, FitsResult, Stream, Stdio, fwrite_entry, fflush, disk,
  entry_size, Layout, FileBytes, WriteAheadLog, open_log, append_to, append, replay_loop, replay,
}

-- What `append` is called with.
pub record Request : Type 0 where
  pub now : ℕ
  pub io : Stdio
  pub kind : WalEntryType
  pub order : Order
  pub result : MatchResult

abbrev pub entry_of : ℕ → Request → WalEntry
entry_of n q = record {
  sequence = n;
  timestamp_ns = q.now;
  kind = q.kind;
  order = q.order;
  result = q.result;
}

-- The entries of the requests, numbered from the one behind `n` on.
abbrev pub entries_from : ℕ → List Request → List WalEntry
entries_from n [] = []
entries_from n (q ∷ qs) = entry_of (inc64 n) q ∷ entries_from (inc64 n) qs

-- The number of the last of them.
abbrev pub number_after : ℕ → List Request → ℕ
number_after n [] = n
number_after n (q ∷ qs) = number_after (inc64 n) qs

pub entries_from-append :
    (n : ℕ) (qs : List Request) (q : Request)
    → entries_from n (qs ++ (q ∷ []))
      ≡ entries_from n qs ++ (entry_of (inc64 (number_after n qs)) q ∷ [])
entries_from-append n [] q = refl
entries_from-append n (p ∷ qs) q =
    ap (λ es. entry_of (inc64 n) p ∷ es) (entries_from-append (inc64 n) qs q)

-- The bytes of an entry that come to the disk in one `append` to an empty buffer.
abbrev pub reached : Stdio → ℕ
reached io =
    if leb entry_size io.accepted then io.spilled + io.written else min io.spilled io.accepted

-- An `append` in which `fwrite` takes the entry, and all of it comes to the disk.
pub record IsWhole (io : Stdio) : Type 0 where
  pub accepted : entry_size ≤ io.accepted
  pub written : entry_size ≤ io.spilled + io.written

-- Values that an entry can hold.
pub record IsLoggable (q : Request) : Type 0 where
  pub now : q.now < 2 ^ 64
  pub order : FitsOrder q.order
  pub result : FitsResult q.result

pub record IsRequest (q : Request) : Type 0 where
  pub whole : IsWhole q.io
  pub loggable : IsLoggable q

pub entry_of-IsEntry : (n : ℕ) (q : Request) → IsLoggable q → IsEntry (entry_of (inc64 n) q)
entry_of-IsEntry n q h = record {
  sequence = omega arith;
  timestamp_ns = h.now;
  order = h.order;
  result = h.result;
}

pub entries_from-IsEntry :
    (n : ℕ) (qs : List Request) → All IsRequest qs → All IsEntry (entries_from n qs)
entries_from-IsEntry n [] h = tt
entries_from-IsEntry n (q ∷ qs) (h, hs) =
    (entry_of-IsEntry n q h.loggable, entries_from-IsEntry (inc64 n) qs hs)

pub take_all : {A : Type 0} (n : ℕ) (xs : List A) → length xs ≤ n → take n xs ≡ xs
take_all zero [] h = refl
take_all zero (x ∷ xs) h = absurd (omega arith)
take_all (suc n) [] h = refl
take_all (suc n) (x ∷ xs) h = ap (λ ys. x ∷ ys) (take_all n xs (omega arith))

drop_all : {A : Type 0} (n : ℕ) (xs : List A) → length xs ≤ n → drop n xs ≡ []
drop_all zero [] h = refl
drop_all zero (x ∷ xs) h = absurd (omega arith)
drop_all (suc n) [] h = refl
drop_all (suc n) (x ∷ xs) h = drop_all n xs (omega arith)

take_then :
    {A : Type 0} (n m k : ℕ) (xs : List A) → k ≡ n + m → take n xs ++ take m (drop n xs) ≡ take k xs
take_then zero m k xs h = ap (λ (j : ℕ). take j xs) (omega (arith, h))
take_then (suc n) m zero xs h = absurd (omega (arith, h))
take_then (suc n) zero (suc k) [] h = refl
take_then (suc n) (suc m) (suc k) [] h = refl
take_then (suc n) m (suc k) (x ∷ xs) h = ap (λ ys. x ∷ ys) (take_then n m k xs (omega (arith, h)))

drop_then : {A : Type 0} (n m : ℕ) (xs : List A) → length xs ≤ n + m → drop m (drop n xs) ≡ []
drop_then zero m xs h = drop_all m xs (omega (arith, h))
drop_then (suc n) m [] h = drop_all m [] (omega arith)
drop_then (suc n) m (x ∷ xs) h = drop_then n m xs (omega (arith, h))

take_twice : {A : Type 0} (n m k : ℕ) (xs : List A) → k ≡ min n m → take n (take m xs) ≡ take k xs
take_twice zero m zero xs h = refl
take_twice zero m (suc k) xs h = absurd (omega (arith, h))
take_twice (suc n) zero zero xs h = refl
take_twice (suc n) zero (suc k) xs h = absurd (omega (arith, h))
take_twice (suc n) (suc m) zero xs h = absurd (omega (arith, h))
take_twice (suc n) (suc m) (suc k) [] h = refl
take_twice (suc n) (suc m) (suc k) (x ∷ xs) h =
    ap (λ ys. x ∷ ys) (take_twice n m k xs (omega (arith, h)))

-- The stream after the tests of `append`, of which `b` is whether `fwrite` took the entry.
stream_after :
    (b : Bool) (disk bytes : FileBytes) (io : Stdio)
    → (b ≡ true → take io.accepted bytes ≡ bytes)
    → let s = fwrite_entry io bytes (record { on_disk = disk; buffered = [] }) in
      (rest : FileBytes) × ((if not b then s else fflush io s) ≡ record {
        on_disk =
            disk ++ take (if b then io.spilled + io.written else min io.spilled io.accepted) bytes;
        buffered = rest;
      })
      × (b ≡ true → length bytes ≤ io.spilled + io.written → rest ≡ [])
unfolding fwrite_entry fflush
stream_after false disk bytes io h = (
  drop io.spilled (take io.accepted bytes),
  ap
      (λ (ds : FileBytes). record {
        on_disk = disk ++ ds;
        buffered = drop io.spilled (take io.accepted bytes);
      })
      (take_twice io.spilled io.accepted (min io.spilled io.accepted) bytes refl),
  λ e. absurd (not_both e refl),
)
stream_after true disk bytes io h =
    let held = take io.accepted bytes in
    let rest = if io.keeps then drop io.written (drop io.spilled held) else [] in
    (
      rest,
      ap (λ (ds : FileBytes). record { on_disk = ds; buffered = rest })
          (append_assoc disk (take io.spilled held) (take io.written (drop io.spilled held))
            ∙ ap (λ (ds : FileBytes). disk ++ ds)
                (take_then io.spilled io.written (io.spilled + io.written) held refl
                  ∙ ap (λ (ds : FileBytes). take (io.spilled + io.written) ds) (h refl))),
      λ e le.
          if_both (λ (ds : FileBytes). ds ≡ []) io.keeps
            (drop_then io.spilled io.written held
              (omega (arith, le, ap (λ (ds : FileBytes). length ds) (h refl))))
            refl,
    )

pub take-append : {A : Type 0} (xs ys : List A) → take (length xs) (xs ++ ys) ≡ xs
take-append [] ys = refl
take-append (x ∷ xs) ys = ap (λ zs. x ∷ zs) (take-append xs ys)

pub drop-append : {A : Type 0} (xs ys : List A) → drop (length xs) (xs ++ ys) ≡ ys
drop-append [] ys = refl
drop-append (x ∷ xs) ys = drop-append xs ys

abbrev pub outcome : Bool → Stream → ℕ → Bool × WriteAheadLog
outcome ok s n = (ok, record { file = some s; sequence = n })

-- Both results of `append_to`.
tested :
    (b : Bool) (n : ℕ) (s t : Stream)
    → (if not b then outcome false s n else outcome true t n) ≡ outcome b (if not b then s else t) n
tested false n s t = refl
tested true n s t = refl

module _ (layout : Layout) where
  -- A log of whole entries.
  abbrev pub encode : List WalEntry → FileBytes
  encode [] = []
  encode (e ∷ es) = layout.to_bytes e ++ encode es

  pub length-encode : (es : List WalEntry) → length (encode es) ≡ length es * entry_size
  length-encode [] = omega arith
  length-encode (e ∷ es) =
      omega (arith, length-append (layout.to_bytes e) (encode es), layout.size e, length-encode es)

  pub encode-append : (es fs : List WalEntry) → encode (es ++ fs) ≡ encode es ++ encode fs
  encode-append [] fs = refl
  encode-append (e ∷ es) fs =
      ap (λ r. layout.to_bytes e ++ r) (encode-append es fs)
      ∙ sym (append_assoc (layout.to_bytes e) (encode es) (encode fs))

  replay_loop-encode :
      (es : List WalEntry) (fuel : ℕ)
      → All IsEntry es
      → length es ≤ fuel
      → replay_loop layout fuel (encode es) ≡ es
  unfolding replay_loop
  replay_loop-encode [] zero w h = refl
  replay_loop-encode (e ∷ es) zero w h = absurd (omega arith)
  replay_loop-encode [] (suc fuel) w h = refl
  replay_loop-encode (e ∷ es) (suc fuel) w h =
      let bytes = layout.to_bytes e in
      let enough : ltb (length (bytes ++ encode es)) entry_size ≡ false =
        ground (arith, length-append bytes (encode es), layout.size e) in
      let first : take entry_size (bytes ++ encode es) ≡ bytes =
        subst (λ n. take n (bytes ++ encode es) ≡ bytes) (layout.size e)
          (take-append bytes (encode es)) in
      let others : drop entry_size (bytes ++ encode es) ≡ encode es =
        subst (λ n. drop n (bytes ++ encode es) ≡ encode es) (layout.size e)
          (drop-append bytes (encode es)) in
      if_false _ _ enough
      ∙ ap₂ (λ b r. layout.of_bytes b ∷ replay_loop layout fuel r) first others
      ∙ ap₂ (λ x xs. x ∷ xs) (layout.read_back e w.0) (replay_loop-encode es fuel w.1 (omega arith))

  -- A log of whole entries is replayed as those entries.
  pub replay-encode :
      (es : List WalEntry)
      → All IsEntry es
      → replay layout (some (encode es)) ≡ (ltb 0 (length es), es)
  unfolding replay
  replay-encode es w =
      ap (λ xs. (ltb 0 (length xs), xs))
        (replay_loop-encode es (length (encode es)) w (omega (arith, length-encode es)))

  -- A log whose buffer is empty.
  abbrev pub flushed : FileBytes → ℕ → WriteAheadLog
  flushed bytes n = record { file = some (record { on_disk = bytes; buffered = [] }); sequence = n }

  -- What an `append` to an empty buffer does: the disk takes the bytes that reach it.
  pub append-Reached :
      (bytes : FileBytes) (n : ℕ) (q : Request)
      → (rest : FileBytes) × (append layout (flushed bytes n) q.now q.io q.kind q.order q.result ≡ (
        leb entry_size q.io.accepted,
        record {
          file = some (record {
            on_disk = bytes ++ take (reached q.io) (layout.to_bytes (entry_of (inc64 n) q));
            buffered = rest;
          });
          sequence = inc64 n;
        },
      ))
        × (IsWhole q.io → rest ≡ [])
  unfolding append append_to fwrite_entry fflush
  append-Reached bytes n q =
      let entry = layout.to_bytes (entry_of (inc64 n) q) in
      let (rest, after, empty) =
        stream_after (leb entry_size q.io.accepted) bytes entry q.io (λ took.
          take_all q.io.accepted entry
            (ground (arith, took, layout.size (entry_of (inc64 n) q)))) in
      (
        rest,
        tested (leb entry_size q.io.accepted) (inc64 n) _ _
            ∙ ap
                (λ (s : Stream).
                  (leb entry_size q.io.accepted, record { file = some s; sequence = inc64 n }))
                after,
        λ whole.
            empty (ground (arith, whole.accepted))
              (omega (arith, whole.written, layout.size (entry_of (inc64 n) q))),
      )

  -- An entry that reaches the disk as a whole lies behind the others.
  append-whole :
      (es : List WalEntry) (n : ℕ) (q : Request)
      → IsWhole q.io
      → append layout (flushed (encode es) n) q.now q.io q.kind q.order q.result
        ≡ (true, flushed (encode (es ++ entry_of (inc64 n) q ∷ [])) (inc64 n))
  append-whole es n q h =
      let (rest, appended, empty) = append-Reached (encode es) n q in
      let bytes = layout.to_bytes (entry_of (inc64 n) q) in
      let whole : take (reached q.io) bytes ≡ bytes =
        take_all (reached q.io) bytes
          (ground (arith, h.accepted, h.written, layout.size (entry_of (inc64 n) q))) in
      let behind : encode es ++ take (reached q.io) bytes
          ≡ encode (es ++ entry_of (inc64 n) q ∷ []) =
        ap (λ b. encode es ++ b) (whole ∙ sym (append-nil bytes))
        ∙ sym (encode-append es (entry_of (inc64 n) q ∷ [])) in
      appended
      ∙ ap₂ (λ (b : Bool) (s : Stream). (b, record { file = some s; sequence = inc64 n }))
          (ground (arith, h.accepted))
          (ap₂ (λ (d r : FileBytes). record { on_disk = d; buffered = r }) behind (empty h))

  -- The requests one after the other.
  unfoldable pub append_all : WriteAheadLog → List Request → WriteAheadLog
  append_all w [] = w
  append_all w (q ∷ qs) = append_all (append layout w q.now q.io q.kind q.order q.result).1 qs

  pub append_all-flushed :
      (es : List WalEntry) (n : ℕ) (qs : List Request)
      → All IsRequest qs
      → append_all (flushed (encode es) n) qs
        ≡ flushed (encode (es ++ entries_from n qs)) (number_after n qs)
  unfolding append_all
  append_all-flushed es n [] h = ap (λ xs. flushed (encode xs) n) (sym (append-nil es))
  append_all-flushed es n (q ∷ qs) (h, hs) =
      let m = number_after (inc64 n) qs in
      ap (λ (r : Bool × WriteAheadLog). append_all r.1 qs) (append-whole es n q h.whole)
      ∙ append_all-flushed (es ++ entry_of (inc64 n) q ∷ []) (inc64 n) qs hs
      ∙ ap (λ xs. flushed (encode xs) m)
          (append_assoc es (entry_of (inc64 n) q ∷ []) (entries_from (inc64 n) qs))

  pub opened :
      (w : WriteAheadLog) (es : List WalEntry) (qs : List Request)
      → All IsRequest qs
      → append_all (open_log w (some (encode es))).1 qs
        ≡ flushed (encode (es ++ entries_from (length es) qs)) (number_after (length es) qs)
  unfolding open_log
  opened w es qs h =
      let count : length (encode es) / entry_size ≡ length es =
        ap (λ n. n / entry_size) (length-encode es) ∙ omega arith in
      ap (λ (n : ℕ). append_all (flushed (encode es) n) qs) count
      ∙ append_all-flushed es (length es) qs h

  -- A log of whole entries is opened, requests are appended, and the file is replayed, all
  -- values fitting their fields: `fwrite` takes each entry, and what it does not pass on to the
  -- disk itself, `fflush` does. The entries are the old ones and then the requests in their
  -- order, numbered on from the number of old entries.
  pub replay-append_all :
      (w : WriteAheadLog) (es : List WalEntry) (qs : List Request)
      → All IsEntry es
      → All IsRequest qs
      → replay layout (disk (append_all (open_log w (some (encode es))).1 qs))
        ≡ (ltb 0 (length (es ++ entries_from (length es) qs)), es ++ entries_from (length es) qs)
  replay-append_all w es qs he hq =
      ap (λ (v : WriteAheadLog). replay layout (disk v)) (opened w es qs hq)
      ∙ replay-encode (es ++ entries_from (length es) qs)
          (All-append IsEntry es _ he (entries_from-IsEntry (length es) qs hq))
