-- ===== src/Engine/Ladder/Capped.antt =====
-- A bound on the shares of every entry of a ladder.
use tickpipe.Base.{ℕ, ◌-◌, ◌≤◌, Option, [], ◌∷◌, Bool, arith, ◌==◌, if_both, min, All, All-append}
use tickpipe.Engine.Ladder.{
  Entry, Level, Ladder, push_back, keep_level, shrink_entry, reduce_level, remove_level, at_level,
  shrink, strip, scan,
}
use tickpipe.Engine.Ladder.Sorted.{OnSome, OnSome-map, found}

module _ (cap : ℕ) where
  abbrev pub Within : Entry → Type 0
  Within e = e.1 ≤ cap

  abbrev pub AllWithin : Level → Type 0
  AllWithin q = All Within q

  abbrev LevelWithin : ℕ × Level → Type 0
  LevelWithin l = AllWithin l.1

  unfoldable pub IsCapped : Ladder → Type 0
  IsCapped l = All LevelWithin l

  reduce_level-AllWithin :
      (ref qty : ℕ) (q : Level) → AllWithin q → OnSome AllWithin (reduce_level ref qty q)
  unfolding reduce_level shrink_entry
  reduce_level-AllWithin ref qty [] h = tt
  reduce_level-AllWithin ref qty ((r, have) ∷ rest) (first, h) =
      let P = OnSome AllWithin in
      if_both P (r == ref)
        (if_both AllWithin (have - min qty have == 0) h (omega (arith, first), h))
        (OnSome-map AllWithin AllWithin (λ q. (r, have) ∷ q) (reduce_level ref qty rest)
          (λ q p. (first, p)) (reduce_level-AllWithin ref qty rest h))

  remove_level-AllWithin :
      (ref : ℕ) (q : Level) → AllWithin q → OnSome AllWithin (remove_level ref q)
  unfolding remove_level
  remove_level-AllWithin ref [] h = tt
  remove_level-AllWithin ref ((r, have) ∷ rest) (first, h) =
      if_both (OnSome AllWithin) (r == ref) h (
        OnSome-map AllWithin AllWithin (λ q. (r, have) ∷ q) (remove_level ref rest)
          (λ q p. (first, p)) (remove_level-AllWithin ref rest h))

  keep_level-IsCapped :
      (p : ℕ) (q : Level) (rest : Ladder)
      → AllWithin q
      → IsCapped rest
      → IsCapped (keep_level p q rest)
  unfolding keep_level IsCapped
  keep_level-IsCapped p [] rest h l = l
  keep_level-IsCapped p (e ∷ q) rest h l = (h, l)

  at_level-IsCapped :
      (change : Level → Option Level)
      → ((q : Level) → AllWithin q → OnSome AllWithin (change q))
      → (price : ℕ) (l : Ladder) → IsCapped l
      → OnSome IsCapped (at_level change price l)
  unfolding at_level IsCapped
  at_level-IsCapped change h price [] l = tt
  at_level-IsCapped change h price ((p, q) ∷ rest) (first, l) =
      if_both (OnSome IsCapped) (p == price)
        (OnSome-map AllWithin IsCapped (λ q'. keep_level p q' rest) (change q)
          (λ q' w. keep_level-IsCapped p q' rest w l) (h q first))
        (OnSome-map IsCapped IsCapped (λ r. (p, q) ∷ r) (at_level change price rest)
          (λ r c. (first, c)) (at_level-IsCapped change h price rest l))

  pub shrink-IsCapped :
      (price ref qty : ℕ) (l : Ladder) → IsCapped l → OnSome IsCapped (shrink price ref qty l)
  unfolding shrink
  shrink-IsCapped price ref qty =
      at_level-IsCapped (reduce_level ref qty) (reduce_level-AllWithin ref qty) price

  pub strip-IsCapped :
      (price ref : ℕ) (l : Ladder) → IsCapped l → OnSome IsCapped (strip price ref l)
  unfolding strip
  strip-IsCapped price ref = at_level-IsCapped (remove_level ref) (remove_level-AllWithin ref) price

  pub scan-IsCapped : (ref qty : ℕ) (l : Ladder) → IsCapped l → OnSome IsCapped (scan ref qty l)
  unfolding scan IsCapped
  scan-IsCapped ref qty [] l = tt
  scan-IsCapped ref qty ((p, q) ∷ rest) (first, l) =
      found AllWithin IsCapped (λ q'. keep_level p q' rest) (reduce_level ref qty q) _
        (λ q' w. keep_level-IsCapped p q' rest w l) (reduce_level-AllWithin ref qty q first)
        (OnSome-map IsCapped IsCapped (λ r. (p, q) ∷ r) (scan ref qty rest) (λ r c. (first, c))
          (scan-IsCapped ref qty rest l))

  pub push_back-IsCapped :
      (before : ℕ → ℕ → Bool) (price : ℕ) (e : Entry) (l : Ladder)
      → Within e
      → IsCapped l
      → IsCapped (push_back before price e l)
  unfolding push_back IsCapped
  push_back-IsCapped before price e [] w l = ((w, tt), tt)
  push_back-IsCapped before price e ((p, q) ∷ rest) w (first, l) =
      if_both IsCapped (price == p) (All-append Within q (e ∷ []) first (w, tt), l)
        (if_both IsCapped (before price p) ((w, tt), (first, l))
          (first, push_back-IsCapped before price e rest w l))
