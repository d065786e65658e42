-- ===== src/Engine/Ladder/Shares.antt =====
-- The shares that rest on a side, and what holds of all its prices.
use tickpipe.Base.{
  ℕ, ◌+◌, ◌-◌, ◌<◌, ◌≡◌, refl, sym, inl, inr, Bool, [], ◌∷◌, ◌++◌, arith, ◌==◌, if_true, if_false,
  if_both, min, All, Bool-cases, subst,
}
use tickpipe.Engine.Ladder.{
  Entry, Level, Ladder, descending, ascending, push_back, keep_level, shrink_entry,
}
use tickpipe.Engine.Ladder.Sorted.{Behind}

abbrev pub level_shares : Level → ℕ
level_shares [] = 0
level_shares ((ref, qty) ∷ q) = qty + level_shares q

abbrev pub shares : Ladder → ℕ
shares [] = 0
shares ((p, q) ∷ rest) = level_shares q + shares rest

level_shares-append :
    (q : Level) (ref qty : ℕ) → level_shares (q ++ (ref, qty) ∷ []) ≡ level_shares q + qty
level_shares-append [] ref qty = omega arith
level_shares-append ((r, have) ∷ q) ref qty = omega (arith, level_shares-append q ref qty)

pub shares-push_back :
    (before : ℕ → ℕ → Bool) (price ref qty : ℕ) (l : Ladder)
    → shares (push_back before price (ref, qty) l) ≡ shares l + qty
unfolding push_back
shares-push_back before price ref qty [] = omega arith
shares-push_back before price ref qty ((p, q) ∷ rest) =
    if_both (λ l. shares l ≡ level_shares q + shares rest + qty) (price == p)
      (omega (arith, level_shares-append q ref qty))
      (if_both (λ l. shares l ≡ level_shares q + shares rest + qty) (before price p) (omega arith)
        (omega (arith, shares-push_back before price ref qty rest)))

keep_level-shares :
    (p : ℕ) (q : Level) (rest : Ladder)
    → shares (keep_level p q rest) ≡ level_shares q + shares rest
unfolding keep_level
keep_level-shares p [] rest = omega arith
keep_level-shares p (e ∷ q) rest = refl

shrink_entry-shares :
    (ref have qty : ℕ) (q : Level)
    → level_shares (shrink_entry ref have qty q) + min qty have ≡ have + level_shares q
unfolding shrink_entry
shrink_entry-shares ref have qty q = elim (Bool-cases (have - min qty have == 0)) [
  | inl z ↦
      subst (λ l. level_shares l + min qty have ≡ have + level_shares q) (sym (if_true _ _ z))
        (ground arith)
  | inr nz ↦
      subst (λ l. level_shares l + min qty have ≡ have + level_shares q) (sym (if_false _ _ nz))
        (ground arith)
]

-- The first entry of a side gives up what an order takes of it.
pub shares-fill :
    (p ref have qty : ℕ) (q : Level) (rest : Ladder)
    → shares (keep_level p (shrink_entry ref have qty q) rest) + min qty have
      ≡ shares ((p, (ref, have) ∷ q) ∷ rest)
shares-fill p ref have qty q rest = omega (
  arith,
  keep_level-shares p (shrink_entry ref have qty q) rest,
  shrink_entry-shares ref have qty q,
)

-- A predicate on the prices of a side.
abbrev pub AllPrices : (ℕ → Type 0) → Ladder → Type 0
AllPrices P l = All (λ lv. P lv.0) l

pub AllPrices-weaken :
    {P Q : ℕ → Type 0} (l : Ladder) → ((p : ℕ) → P p → Q p) → AllPrices P l → AllPrices Q l
AllPrices-weaken [] h a = tt
AllPrices-weaken ((p, q) ∷ rest) h a = (h p a.0, AllPrices-weaken rest h a.1)

pub AllPrices-both :
    {P Q R : ℕ → Type 0} (l : Ladder)
    → ((p : ℕ) → P p → Q p → R p)
    → AllPrices P l
    → AllPrices Q l
    → AllPrices R l
AllPrices-both [] h a b = tt
AllPrices-both ((p, q) ∷ rest) h a b = (h p a.0 b.0, AllPrices-both rest h a.1 b.1)

pub AllPrices-push_back :
    (P : ℕ → Type 0) (before : ℕ → ℕ → Bool) (price : ℕ) (e : Entry) (l : Ladder)
    → P price
    → AllPrices P l
    → AllPrices P (push_back before price e l)
unfolding push_back
AllPrices-push_back P before price e [] h a = (h, tt)
AllPrices-push_back P before price e ((p, q) ∷ rest) h a = if_both (AllPrices P) (price == p) a (
    if_both (AllPrices P) (before price p) (h, a)
      (a.0, AllPrices-push_back P before price e rest h a.1))

pub AllPrices-keep_level :
    (P : ℕ → Type 0) (p : ℕ) (q : Level) (rest : Ladder)
    → P p
    → AllPrices P rest
    → AllPrices P (keep_level p q rest)
unfolding keep_level
AllPrices-keep_level P p [] rest h a = a
AllPrices-keep_level P p (e ∷ q) rest h a = (h, a)

-- The levels behind a price, by its number.
pub Behind-above : (p : ℕ) (l : Ladder) → Behind ascending p l → AllPrices (λ a. p < a) l
unfolding Behind
Behind-above p [] b = tt
Behind-above p ((p', q) ∷ rest) b = (ground (arith, b.0), Behind-above p rest b.1)

pub Behind-below : (p : ℕ) (l : Ladder) → Behind descending p l → AllPrices (λ b. b < p) l
unfolding Behind
Behind-below p [] b = tt
Behind-below p ((p', q) ∷ rest) b = (ground (arith, b.0), Behind-below p rest b.1)
