-- ===== src/Numa.antt =====
-- `ThreadPinner::pin_to_core` of src/numa.cpp and include/numa.hpp. How many cores there are and
-- whether the system sets the mask are arguments; the mask that it is asked for is the result.
use tickpipe.Base.{
  ℕ, ◌^◌, ◌<◌, ◌≡◌, refl, Bool, false, Option, none, some, leb, if◌then◌else◌, if_with, if_false,
  ◌⊎◌, inl, inr, arith, ℤ, pos, negsuc,
}

-- `none` when nothing is asked for. Core `i` is bit `i` of the mask.
unfoldable pub pin_to_core : ℤ → ℕ → Bool → Bool × Option ℕ
pin_to_core (negsuc n) cores set = (false, none)
pin_to_core (pos core) cores set = if leb cores core then (false, none) else (set, some (2 ^ core))

unfoldable pub pin_to_matching_core : ℕ → Bool → Bool × Option ℕ
pin_to_matching_core cores set = pin_to_core (pos 0) cores set

-- A thread is pinned to a core that there is, by the system, or `pin_to_core` returns false.
pin_to_core_lem :
    (core : ℤ) (cores : ℕ) (set : Bool)
    → pin_to_core core cores set ≡ (false, none)
      ⊎ (i : ℕ) × (core ≡ pos i) × (i < cores) × (pin_to_core core cores set ≡ (set, some (2 ^ i)))
unfolding pin_to_core
pin_to_core_lem (negsuc n) cores set = inl refl
pin_to_core_lem (pos i) cores set =
    if_with
      (λ r. r ≡ (false, none) ⊎ (j : ℕ) × (pos i ≡ pos j) × (j < cores) × (r ≡ (set, some (2 ^ j))))
      (leb cores i) (λ _. inl refl) (λ below. inr (i, refl, ground (arith, below), refl))

-- There is a core 0 to pin the matching engine to.
pin_to_matching_core_lem :
    (cores : ℕ) (set : Bool) → 0 < cores → pin_to_matching_core cores set ≡ (set, some 1)
unfolding pin_to_matching_core pin_to_core
pin_to_matching_core_lem cores set some_core =
    if_false {c = leb cores 0} _ _ (ground (arith, some_core))
