-- ===== src/Symbols.antt =====
-- The symbol directory: include/symbol_directory.hpp and src/symbol_directory.cpp. The arrays
-- are functions of the locate code; a C string is the list of its characters.
pub mod Subscribe
pub mod Waiting
mod Tests
use tickpipe.Base.{
  ℕ, zero, suc, ◌+◌, ◌-◌, Bool, true, false, ◌&&◌, ◌||◌, not, Option, none, some, List, [], ◌∷◌,
  ltb, leb, ◌==◌, if◌then◌else◌, Bytes, advance, update, u32,
}
use tickpipe.Itch.Order.{same_stock}
use tickpipe.Itch.Parser.{be16, copy8}

abbrev pub max_locate : ℕ
max_locate = 65536

abbrev pub max_pending : ℕ
max_pending = 64

pub record SymbolDirectory : Type 0 where
  pub symbols : ℕ → List ℕ
  pub known : ℕ → Bool
  pub subscribed : ℕ → Bool
  pub pending : ℕ → List ℕ
  pub pending_count : ℕ
  pub known_count : ℕ
  pub subscribed_count : ℕ
  pub all : Bool

abbrev pub blank : List ℕ
blank = 32 ∷ 32 ∷ 32 ∷ 32 ∷ 32 ∷ 32 ∷ 32 ∷ 32 ∷ []

unfoldable pub new : SymbolDirectory
new = record {
  symbols = λ _. blank;
  known = λ _. false;
  subscribed = λ _. false;
  pending = λ _. blank;
  pending_count = 0;
  known_count = 0;
  subscribed_count = 0;
  all = false;
}

-- The first `n` characters, with spaces behind a shorter name.
unfoldable pub pad : ℕ → List ℕ → List ℕ
pad zero name = []
pad (suc n) [] = b' ' ∷ pad n []
pad (suc n) (c ∷ name) = c ∷ pad n name

unfoldable pub pad8 : List ℕ → List ℕ
unfolding pad
pad8 name = pad 8 name

abbrev pub count32 : ℕ → ℕ
count32 n = u32 (n + 1)

-- `if (!subscribed_[l]) { subscribed_[l] = 1; ++subscribed_count_; }`
unfoldable pub mark : SymbolDirectory → ℕ → SymbolDirectory
mark s l = if s.subscribed l then s else record s {
  subscribed = update s.subscribed l true;
  subscribed_count = count32 s.subscribed_count;
}

-- The loop of `feed` over the pending names, with `left` of them to look at from `i` on.
unfoldable pub resolve_pending : SymbolDirectory → ℕ → ℕ → ℕ → SymbolDirectory
resolve_pending s l zero i = s
resolve_pending s l (suc left) i = elim (same_stock (s.pending i) (s.symbols l)) [
  | false ↦ resolve_pending s l left (i + 1)
  | true ↦
      let s' = mark s l in
      record s' {
        pending = update s'.pending i (s'.pending (s'.pending_count - 1));
        pending_count = s'.pending_count - 1;
      }
]

-- A stock directory message, of which the length and the type are right.
unfoldable pub learn : SymbolDirectory → ℕ → List ℕ → SymbolDirectory
learn s l symbol =
    let s' = record s {
      known_count = if s.known l then s.known_count else count32 s.known_count;
      symbols = update s.symbols l symbol;
      known = update s.known l true;
    } in
    resolve_pending s' l s'.pending_count 0

unfoldable pub feed : SymbolDirectory → Option Bytes → ℕ → Bool × SymbolDirectory
feed s none len = (false, s)
feed s (some d) len =
    if not (len == 39) || not (d 0 == b'R')
    then (false, s)
    else (true, learn s (be16 (advance d 1)) (copy8 (advance d 11)))

-- The first known locate code from `l` on with this symbol, `left` codes to look at.
unfoldable pub find_locate : SymbolDirectory → List ℕ → ℕ → ℕ → Option ℕ
find_locate s want zero l = none
find_locate s want (suc left) l = elim (s.known l && same_stock (s.symbols l) want) [
  | true ↦ some l
  | false ↦ find_locate s want left (l + 1)
]

-- The name waits until its directory message shows up.
unfoldable pub wait : SymbolDirectory → List ℕ → Bool × SymbolDirectory
wait s want = if leb max_pending s.pending_count then (false, s) else (
  true,
  record s { pending = update s.pending s.pending_count want; pending_count = s.pending_count + 1 },
)

-- `subscribe`, with the result of its search.
unfoldable pub subscribe_at : SymbolDirectory → List ℕ → Option ℕ → Bool × SymbolDirectory
subscribe_at s want (some l) = (true, mark s l)
subscribe_at s want none = wait s want

unfoldable pub subscribe : SymbolDirectory → Option (List ℕ) → Bool × SymbolDirectory
subscribe s none = (false, s)
subscribe s (some name) = subscribe_at s (pad8 name) (find_locate s (pad8 name) max_locate 0)

unfoldable pub subscribe_all : SymbolDirectory → SymbolDirectory
subscribe_all s = record s { all = true }

unfoldable pub is_subscribed : SymbolDirectory → ℕ → Bool
is_subscribed s l = s.all || s.subscribed l

unfoldable pub symbol_of : SymbolDirectory → ℕ → Option (List ℕ)
symbol_of s l = if s.known l then some (s.symbols l) else none

-- 0 stands for a name that is not known, and for locate code 0.
unfoldable pub locate_of : SymbolDirectory → Option (List ℕ) → ℕ
locate_of s none = 0
locate_of s (some name) = elim (find_locate s (pad8 name) max_locate 0) [ some l ↦ l | none ↦ 0 ]

unfoldable pub unmatched : SymbolDirectory → ℕ → Option (List ℕ)
unmatched s i = if ltb i s.pending_count then some (s.pending i) else none
