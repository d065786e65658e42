-- ===== src/Base/Tests.antt =====
-- Boolean tests on the native numbers, and the conditional.
use Prim.Native.Nat.{ℕ, ◌<◌, compare, Ordering}
use mathlib.Core.Path.{◌≡◌, refl}
use mathlib.Core.Logic.{◌↔◌, ◌≢◌, ◌⊎◌, inl, inr}
use mathlib.Core.Bool.{Bool, true, false}
use mathlib.Core.Option.{Option, none, some}
use native.Mathlib.Omega.{arith}

abbrev pub ltb : ℕ → ℕ → Bool
ltb a b = elim (compare a b) [ Ordering.lt ↦ true | _ ↦ false ]

abbrev pub leb : ℕ → ℕ → Bool
leb a b = elim (compare a b) [ Ordering.gt ↦ false | _ ↦ true ]

infix 50 ◌==◌
abbrev pub ◌==◌ : ℕ → ℕ → Bool
a == b = elim (compare a b) [ Ordering.eq ↦ true | _ ↦ false ]

infix 1 if◌then◌else◌
abbrev pub if◌then◌else◌ {ℓ} : {A : Type ℓ} → Bool → A → A → A
if true then x else y = x
if false then x else y = y

pub ltb→lt : (a b : ℕ) → ltb a b ≡ true → a < b
ltb→lt a b h = ground arith

pub lt→ltb : (a b : ℕ) → a < b → ltb a b ≡ true
lt→ltb a b h = ground arith

pub ==_iff : (a b : ℕ) → ((a == b) ≡ true) ↔ (a ≡ b)
==_iff a b = ground arith

-- A test is not both.
pub not_both : {b : Bool} → b ≡ true → b ≡ false → ⊥
not_both h h' = ground arith

-- To split on a computed value and keep the equation.
pub Bool-cases : (b : Bool) → (b ≡ true) ⊎ (b ≡ false)
Bool-cases true = inl refl
Bool-cases false = inr refl

pub Option-cases {ℓ} : {A : Type ℓ} (o : Option A) → (o ≡ none) ⊎ ((a : A) × (o ≡ some a))
Option-cases none = inl refl
Option-cases (some a) = inr (a, refl)

pub ne_of_eq_false : {a b : ℕ} → (a == b) ≡ false → a ≢ b
ne_of_eq_false h = ground arith

module _ {ℓ} {A : Type ℓ} where
  -- What holds of both branches holds of the `if`.
  pub if_both : (P : A → Type 0) (c : Bool) {x y : A} → P x → P y → P (if c then x else y)
  if_both P true p q = p
  if_both P false p q = q

  -- Both ways of a test, each with what it knows.
  pub test_cases :
      (P : A → Type 0) (c : Bool) {x y : A}
      → (c ≡ true → P x)
      → (c ≡ false → P y)
      → P (elim c [ true ↦ x | false ↦ y ])
  test_cases P true p q = p refl
  test_cases P false p q = q refl

  pub if_with :
      (P : A → Type 0) (c : Bool) {x y : A}
      → (c ≡ true → P x)
      → (c ≡ false → P y)
      → P (if c then x else y)
  if_with P true p q = p refl
  if_with P false p q = q refl

  pub if_true : {c : Bool} (x y : A) → c ≡ true → (if c then x else y) ≡ x
  if_true x y h = rw h

  pub if_false : {c : Bool} (x y : A) → c ≡ false → (if c then x else y) ≡ y
  if_false x y h = rw h
