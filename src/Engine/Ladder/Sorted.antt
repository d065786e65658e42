-- ===== src/Engine/Ladder/Sorted.antt =====
-- The order of a side's levels, and that no level and no entry is empty.
use tickpipe.Base.{
  ℕ, ◌-◌, ◌<◌, ◌≡◌, sym, ◌≢◌, inl, inr, Bool, true, false, Option, none, some, [], ◌∷◌, ◌++◌, arith,
  ◌==◌, if_true, if_false, min, All, Bool-cases, subst, if_both, All-append, ne_of_eq_false,
}
use mathlib.Core.Option
use tickpipe.Engine.Ladder.{
  Entry, Level, Ladder, descending, ascending, push_back, keep_level, shrink_entry, reduce_level,
  remove_level, at_level, shrink, strip, scan,
}

-- Every entry of a level is for some shares.
abbrev pub Positive : Level → Type 0
Positive q = All (λ e. 0 < e.1) q

abbrev pub NonEmpty : Level → Type 0
NonEmpty [] = ⊥
NonEmpty (e ∷ q) = Unit

module _ (before : ℕ → ℕ → Bool) where
  -- All levels come behind the price.
  unfoldable pub Behind : ℕ → Ladder → Type 0
  Behind p [] = Unit
  Behind p ((p', q) ∷ rest) = (before p p' ≡ true) × Behind p rest

  unfoldable pub IsLadder : Ladder → Type 0
  IsLadder [] = Unit
  IsLadder ((p, q) ∷ rest) = NonEmpty q × Positive q × Behind p rest × IsLadder rest

-- What holds of the result of a search, if there is one.
abbrev pub OnSome : {A : Type 0} → (A → Type 0) → Option A → Type 0
OnSome P none = Unit
OnSome P (some x) = P x

pub OnSome-map :
    {A B : Type 0} (P : A → Type 0) (Q : B → Type 0) (f : A → B) (o : Option A)
    → ((x : A) → P x → Q (f x))
    → OnSome P o
    → OnSome Q (Option.map f o)
OnSome-map P Q f none h p = tt
OnSome-map P Q f (some x) h p = h x p

-- A search, and another where it finds nothing.
pub found :
    {A B : Type 0} (P : A → Type 0) (Q : B → Type 0) (f : A → B) (o : Option A) (later : Option B)
    → ((x : A) → P x → Q (f x))
    → OnSome P o
    → OnSome Q later
    → OnSome Q (elim o [ some x ↦ some (f x) | none ↦ later ])
found P Q f none later h p q = q
found P Q f (some x) later h p q = h x p

-- The changes of a level leave no empty entry behind.
pub shrink_entry-Positive :
    (ref have qty : ℕ) (rest : Level) → Positive rest → Positive (shrink_entry ref have qty rest)
unfolding shrink_entry
shrink_entry-Positive ref have qty rest h = elim (Bool-cases (have - min qty have == 0)) [
  | inl z ↦ subst Positive (sym (if_true _ _ z)) h
  | inr nz ↦ subst Positive (sym (if_false _ _ nz)) (ground arith, h)
]

pub reduce_level-Positive :
    (ref qty : ℕ) (q : Level) → Positive q → OnSome Positive (reduce_level ref qty q)
unfolding reduce_level
reduce_level-Positive ref qty [] h = tt
reduce_level-Positive ref qty ((r, have) ∷ rest) h = elim (Bool-cases (r == ref)) [
  | inl e ↦
      subst (OnSome Positive) (sym (if_true _ _ e)) (shrink_entry-Positive r have qty rest h.1)
  | inr ne ↦ subst (OnSome Positive) (sym (if_false _ _ ne)) (
      OnSome-map Positive Positive (λ q. (r, have) ∷ q) (reduce_level ref qty rest)
        (λ q p. (h.0, p)) (reduce_level-Positive ref qty rest h.1))
]

pub remove_level-Positive :
    (ref : ℕ) (q : Level) → Positive q → OnSome Positive (remove_level ref q)
unfolding remove_level
remove_level-Positive ref [] h = tt
remove_level-Positive ref ((r, have) ∷ rest) h = elim (Bool-cases (r == ref)) [
  | inl e ↦ subst (OnSome Positive) (sym (if_true _ _ e)) h.1
  | inr ne ↦ subst (OnSome Positive) (sym (if_false _ _ ne)) (
      OnSome-map Positive Positive (λ q. (r, have) ∷ q) (remove_level ref rest) (λ q p. (h.0, p))
        (remove_level-Positive ref rest h.1))
]

NonEmpty-append : (q : Level) (e : Entry) → NonEmpty (q ++ e ∷ [])
NonEmpty-append [] e = tt
NonEmpty-append (x ∷ q) e = tt

module _ (before : ℕ → ℕ → Bool) where
  pub keep_level-Behind :
      (p p' : ℕ) (q : Level) (rest : Ladder)
      → before p p' ≡ true
      → Behind before p rest
      → Behind before p (keep_level p' q rest)
  unfolding keep_level Behind
  keep_level-Behind p p' [] rest h b = b
  keep_level-Behind p p' (e ∷ q) rest h b = (h, b)

  pub keep_level-IsLadder :
      (p : ℕ) (q : Level) (rest : Ladder)
      → Positive q
      → Behind before p rest
      → IsLadder before rest
      → IsLadder before (keep_level p q rest)
  unfolding keep_level IsLadder
  keep_level-IsLadder p [] rest h b l = l
  keep_level-IsLadder p (e ∷ q) rest h b l = (tt, h, b, l)

  -- A changed side is a ladder, and lies behind every price that the old one lay behind.
  pub Changed : Ladder → Ladder → Type 0
  Changed l l' = IsLadder before l' × ((p : ℕ) → Behind before p l → Behind before p l')

  Changed-keep :
      (p : ℕ) (q q' : Level) (rest : Ladder)
      → IsLadder before ((p, q) ∷ rest)
      → Positive q'
      → Changed ((p, q) ∷ rest) (keep_level p q' rest)
  unfolding Changed IsLadder Behind
  Changed-keep p q q' rest l h =
      (keep_level-IsLadder p q' rest h l.2 l.3, λ p' b. keep_level-Behind p' p q' rest b.0 b.1)

  Changed-later :
      (p : ℕ) (q : Level) (rest rest' : Ladder)
      → IsLadder before ((p, q) ∷ rest)
      → Changed rest rest'
      → Changed ((p, q) ∷ rest) ((p, q) ∷ rest')
  unfolding Changed IsLadder Behind
  Changed-later p q rest rest' l h = ((l.0, l.1, h.1 p l.2, h.0), λ p' b. (b.0, h.1 p' b.1))

  pub at_level-Changed :
      (change : Level → Option Level)
      → ((q : Level) → Positive q → OnSome Positive (change q))
      → (price : ℕ) (l : Ladder) → IsLadder before l
      → OnSome (Changed l) (at_level change price l)
  unfolding at_level IsLadder
  at_level-Changed change h price [] l = tt
  at_level-Changed change h price ((p, q) ∷ rest) l = elim (Bool-cases (p == price)) [
    | inl e ↦ subst (OnSome (Changed ((p, q) ∷ rest))) (sym (if_true _ _ e)) (
        OnSome-map Positive (Changed ((p, q) ∷ rest)) (λ q'. keep_level p q' rest) (change q)
          (λ q' pos. Changed-keep p q q' rest l pos) (h q l.1))
    | inr ne ↦ subst (OnSome (Changed ((p, q) ∷ rest))) (sym (if_false _ _ ne)) (
        OnSome-map (Changed rest) (Changed ((p, q) ∷ rest)) (λ r. (p, q) ∷ r)
          (at_level change price rest) (λ r c. Changed-later p q rest r l c)
          (at_level-Changed change h price rest l.3))
  ]

  pub scan-Changed :
      (ref qty : ℕ) (l : Ladder) → IsLadder before l → OnSome (Changed l) (scan ref qty l)
  unfolding scan IsLadder
  scan-Changed ref qty [] l = tt
  scan-Changed ref qty ((p, q) ∷ rest) l =
      found Positive (Changed ((p, q) ∷ rest)) (λ q'. keep_level p q' rest) (reduce_level ref qty q)
        _ (λ q' pos. Changed-keep p q q' rest l pos) (reduce_level-Positive ref qty q l.1)
        (OnSome-map (Changed rest) (Changed ((p, q) ∷ rest)) (λ r. (p, q) ∷ r) (scan ref qty rest)
          (λ r c. Changed-later p q rest r l c) (scan-Changed ref qty rest l.3))

-- What follows from a predicate follows on the result of a search.
OnSome-weaken :
    {A : Type 0} (P Q : A → Type 0) (o : Option A) → ((x : A) → P x → Q x) → OnSome P o → OnSome Q o
OnSome-weaken P Q none h p = tt
OnSome-weaken P Q (some x) h p = h x p

module _ (before : ℕ → ℕ → Bool) where
  pub shrink-IsLadder :
      (price ref qty : ℕ) (l : Ladder)
      → IsLadder before l
      → OnSome (IsLadder before) (shrink price ref qty l)
  unfolding shrink Changed
  shrink-IsLadder price ref qty l h =
      OnSome-weaken (Changed before l) (IsLadder before) _ (λ x c. c.0)
        (at_level-Changed before (reduce_level ref qty) (reduce_level-Positive ref qty) price l h)

  pub strip-IsLadder :
      (price ref : ℕ) (l : Ladder)
      → IsLadder before l
      → OnSome (IsLadder before) (strip price ref l)
  unfolding strip Changed
  strip-IsLadder price ref l h =
      OnSome-weaken (Changed before l) (IsLadder before) _ (λ x c. c.0)
        (at_level-Changed before (remove_level ref) (remove_level-Positive ref) price l h)

  pub scan-IsLadder :
      (ref qty : ℕ) (l : Ladder) → IsLadder before l → OnSome (IsLadder before) (scan ref qty l)
  unfolding Changed
  scan-IsLadder ref qty l h =
      OnSome-weaken (Changed before l) (IsLadder before) _ (λ x c. c.0)
        (scan-Changed before ref qty l h)

-- The comparison of a map: transitive, and it decides any two different prices.
pub record IsOrder (before : ℕ → ℕ → Bool) : Type 0 where
  pub trans : (a b c : ℕ) → before a b ≡ true → before b c ≡ true → before a c ≡ true
  pub total : (a b : ℕ) → a ≢ b → before a b ≡ false → before b a ≡ true

pub descending-IsOrder : IsOrder descending
descending-IsOrder = record { trans = λ a b c h h'. ground arith; total = λ a b n h. ground arith }

pub ascending-IsOrder : IsOrder ascending
ascending-IsOrder = record { trans = λ a b c h h'. ground arith; total = λ a b n h. ground arith }

module _ (before : ℕ → ℕ → Bool) (order : IsOrder before) where
  Behind-trans :
      (p p' : ℕ) (l : Ladder) → before p p' ≡ true → Behind before p' l → Behind before p l
  unfolding Behind
  Behind-trans p p' [] h b = tt
  Behind-trans p p' ((p'', q) ∷ l) h b = (order.trans p p' p'' h b.0, Behind-trans p p' l h b.1)

  push_back-Behind :
      (p price : ℕ) (e : Entry) (l : Ladder)
      → before p price ≡ true
      → Behind before p l
      → Behind before p (push_back before price e l)
  unfolding push_back Behind
  push_back-Behind p price e [] h b = (h, tt)
  push_back-Behind p price e ((p', q) ∷ rest) h b =
      if_both (Behind before p) (price == p') (b.0, b.1)
        (if_both (Behind before p) (before price p') (h, b)
          (b.0, push_back-Behind p price e rest h b.1))

  pub push_back-IsLadder :
      (price ref qty : ℕ) (l : Ladder)
      → 0 < qty
      → IsLadder before l
      → IsLadder before (push_back before price (ref, qty) l)
  unfolding push_back IsLadder Behind
  push_back-IsLadder price ref qty [] h l = (tt, (h, tt), tt, tt)
  push_back-IsLadder price ref qty ((p, q) ∷ rest) h l = elim (Bool-cases (price == p)) [
    | inl e ↦
        subst (IsLadder before) (sym (if_true _ _ e))
          (NonEmpty-append q (ref, qty), All-append _ q ((ref, qty) ∷ []) l.1 (h, tt), l.2, l.3)
    | inr ne ↦ subst (IsLadder before) (sym (if_false _ _ ne)) (elim (Bool-cases (before price p)) [
      | inl b ↦
          subst (IsLadder before) (sym (if_true _ _ b))
            (tt, (h, tt), (b, Behind-trans price p rest b l.2), l)
      | inr b ↦ subst (IsLadder before) (sym (if_false _ _ b)) (
        l.0,
        l.1,
        push_back-Behind p price (ref, qty) rest (order.total price p (ne_of_eq_false ne) b) l.2,
        push_back-IsLadder price ref qty rest h l.3,
      )
    ])
  ]
