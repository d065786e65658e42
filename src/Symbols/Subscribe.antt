-- ===== src/Symbols/Subscribe.antt =====
-- A symbol is subscribed whether `subscribe` or its directory message comes first.
use tickpipe.Base.{
  ℕ, zero, suc, ◌+◌, ◌≤◌, ◌<◌, ◌≡◌, refl, sym, ap, ◌∙◌, inl, inr, Bool, true, false, ◌&&◌, Option,
  none, some, List, arith, leb, ◌==◌, if_true, if_false, if_both, Bool-cases, Bytes, advance,
  update_self, subst, test_cases, if_with, not_both, ==_iff, ne_of_eq_false,
}
use tickpipe.Itch.Order.{same_stock}
use tickpipe.Itch.Parser.{be16, copy8}
use tickpipe.Symbols.{
  SymbolDirectory, max_locate, max_pending, pad8, mark, resolve_pending, learn, feed, find_locate,
  wait, subscribe_at, subscribe,
}

pub mark-subscribed : (s : SymbolDirectory) (l : ℕ) → (mark s l).subscribed l ≡ true
unfolding mark
mark-subscribed s l = elim (Bool-cases (s.subscribed l)) [
  | inl h ↦ ap (λ (t : SymbolDirectory). t.subscribed l) (if_true _ _ h) ∙ h
  | inr h ↦
      ap (λ (t : SymbolDirectory). t.subscribed l) (if_false _ _ h)
      ∙ update_self s.subscribed l true
]

-- A pending name that equals the symbol of `l` gets `l` subscribed.
resolve_pending_lem :
    (s : SymbolDirectory) (l left i k : ℕ)
    → i ≤ k
    → k < i + left
    → same_stock (s.pending k) (s.symbols l) ≡ true
    → (resolve_pending s l left i).subscribed l ≡ true
unfolding resolve_pending
resolve_pending_lem s l zero i k h h' m = absurd (omega arith)
resolve_pending_lem s l (suc left) i k h h' m =
    test_cases (λ (t : SymbolDirectory). t.subscribed l ≡ true)
      (same_stock (s.pending i) (s.symbols l)) (λ e. mark-subscribed s l)
      (λ e.
        resolve_pending_lem s l left (i + 1) k
          (elim (Bool-cases (k == i)) [
            | inl same ↦ absurd (
                not_both m (
                  subst (λ n. same_stock (s.pending n) (s.symbols l) ≡ false)
                    (sym ((==_iff k i).0 same)) e))
            | inr ne ↦ ground (arith, ne_of_eq_false ne)
          ])
          (omega arith) m)

-- The messages that `feed` takes for stock directory messages, with their locate code and symbol.
pub record IsDirectory (d : Bytes) (l : ℕ) (symbol : List ℕ) : Type 0 where
  pub kind : d 0 ≡ b'R'
  pub locate : be16 (advance d 1) ≡ l
  pub stock : copy8 (advance d 11) ≡ symbol

-- A directory message makes its locate code known. If its symbol was pending, the code is
-- subscribed.
pub record Learned (s : SymbolDirectory) (l : ℕ) (symbol : List ℕ) (s' : SymbolDirectory)
    : Type 0 where
  pub resolved :
      (k : ℕ)
      → k < s.pending_count
      → same_stock (s.pending k) symbol ≡ true
      → s'.subscribed l ≡ true

pub learn_lem :
    (s : SymbolDirectory) (l : ℕ) (symbol : List ℕ) → Learned s l symbol (learn s l symbol)
unfolding learn
learn_lem s l symbol = record {
  resolved = λ k lt m.
      resolve_pending_lem _ l s.pending_count 0 k (omega arith) (omega arith)
        (subst (λ t. same_stock (s.pending k) t ≡ true) (sym (update_self s.symbols l symbol)) m);
}

pub feed_lem :
    (s : SymbolDirectory) (d : Bytes) (l : ℕ) (symbol : List ℕ)
    → IsDirectory d l symbol
    → feed s (some d) 39 ≡ (true, learn s l symbol)
unfolding feed
feed_lem s d l symbol h = rw (h.kind, h.locate, h.stock)

-- Whether a code is known, with this symbol.
abbrev pub names : SymbolDirectory → List ℕ → ℕ → Bool
names s want l = s.known l && same_stock (s.symbols l) want

-- What `find_locate` says of the codes from `i` to `n`.
Located : SymbolDirectory → List ℕ → ℕ → ℕ → Option ℕ → Type 0
Located s want i n none = (l : ℕ) → i ≤ l → l < n → names s want l ≡ false
Located s want i n (some l) = names s want l ≡ true

further :
    (s : SymbolDirectory) (want : List ℕ) (i n : ℕ) (o : Option ℕ)
    → names s want i ≡ false
    → Located s want (i + 1) n o
    → Located s want i n o
unfolding Located
further s want i n none e h = λ l from lt. elim (Bool-cases (l == i)) [
  | inl same ↦ subst (λ k. names s want k ≡ false) (sym ((==_iff l i).0 same)) e
  | inr ne ↦ h l (ground arith) lt
]
further s want i n (some l) e h = h

find_locate_lem :
    (s : SymbolDirectory) (want : List ℕ) (left i n : ℕ)
    → n ≤ i + left
    → Located s want i n (find_locate s want left i)
unfolding find_locate Located
find_locate_lem s want zero i n h = λ l from lt. absurd (omega arith)
find_locate_lem s want (suc left) i n h =
    test_cases (Located s want i n) (names s want i) (λ e. e)
      (λ e. further s want i n _ e (find_locate_lem s want left (i + 1) n (omega arith)))

-- What `subscribe` does with a name.
pub data Subscribes (s : SymbolDirectory) (want : List ℕ) : Bool → SymbolDirectory → Type 0 where
  now :
      {s' : SymbolDirectory} (l : ℕ)
      → names s want l ≡ true
      → s'.subscribed l ≡ true
      → Subscribes s want true s'
  later :
      {s' : SymbolDirectory}
      → ((l : ℕ) → l < max_locate → names s want l ≡ false)
      → s.pending_count < max_pending
      → s'.pending s.pending_count ≡ want
      → s'.pending_count ≡ s.pending_count + 1
      → Subscribes s want true s'
  never :
      ((l : ℕ) → l < max_locate → names s want l ≡ false)
      → max_pending ≤ s.pending_count
      → Subscribes s want false s

-- What waiting for a directory message does.
wait_lem :
    (s : SymbolDirectory) (want : List ℕ)
    → ((l : ℕ) → l < max_locate → names s want l ≡ false)
    → Subscribes s want (wait s want).0 (wait s want).1
unfolding wait
wait_lem s want h =
    if_with (λ (r : Bool × SymbolDirectory). Subscribes s want r.0 r.1)
      (leb max_pending s.pending_count) (λ full. never h (ground arith))
      (λ room. later h (ground arith) (update_self s.pending s.pending_count want) refl)

subscribe_at_lem :
    (s : SymbolDirectory) (want : List ℕ) (o : Option ℕ)
    → Located s want 0 max_locate o
    → Subscribes s want (subscribe_at s want o).0 (subscribe_at s want o).1
unfolding subscribe_at Located
subscribe_at_lem s want none h = wait_lem s want (λ l lt. h l (omega arith) lt)
subscribe_at_lem s want (some l) h = now l h (mark-subscribed s l)

-- `subscribe` fails only if no known locate code has the padded name and 64 names or more are
-- waiting, and then changes nothing. Otherwise a code that is known under the padded name is
-- subscribed; if there is none, the padded name is put behind those that wait.
pub subscribe_lem :
    (s : SymbolDirectory) (name : List ℕ)
    → Subscribes s (pad8 name) (subscribe s (some name)).0 (subscribe s (some name)).1
unfolding subscribe
subscribe_lem s name =
    subscribe_at_lem s (pad8 name) (find_locate s (pad8 name) max_locate 0)
      (find_locate_lem s (pad8 name) max_locate 0 max_locate (omega arith))

pub mark-keeps :
    (s : SymbolDirectory) (l k : ℕ) → s.subscribed k ≡ true → (mark s l).subscribed k ≡ true
unfolding mark
mark-keeps s l k h =
    if_both (λ (t : SymbolDirectory). t.subscribed k ≡ true) (s.subscribed l) h (ground (arith, h))

resolve_pending-keeps :
    (s : SymbolDirectory) (l left i k : ℕ)
    → s.subscribed k ≡ true
    → (resolve_pending s l left i).subscribed k ≡ true
unfolding resolve_pending
resolve_pending-keeps s l zero i k h = h
resolve_pending-keeps s l (suc left) i k h =
    test_cases (λ (t : SymbolDirectory). t.subscribed k ≡ true)
      (same_stock (s.pending i) (s.symbols l)) (λ e. mark-keeps s l k h)
      (λ e. resolve_pending-keeps s l left (i + 1) k h)

pub learn-keeps :
    (s : SymbolDirectory) (l : ℕ) (symbol : List ℕ) (k : ℕ)
    → s.subscribed k ≡ true
    → (learn s l symbol).subscribed k ≡ true
unfolding learn
learn-keeps s l symbol k h = resolve_pending-keeps _ l s.pending_count 0 k h
