-- ===== src/Base/Memory.antt =====
-- A pointer to bytes is a function from the offset to the byte there; an array of anything else
-- is such a function too. `memcpy` and the write of one element return the new array.
use Prim.Native.Nat.{ℕ, ◌+◌, ◌-◌, ◌<◌}
use mathlib.Core.Path.{◌≡◌}
use mathlib.Core.Bool.{◌&&◌}
use mathlib.Core.List.{List}
use mathlib.Core.Logic.{◌≢◌}
use native.Mathlib.Omega.{arith}
use tickpipe.Base.Tests.{ltb, leb, ◌==◌, if◌then◌else◌}
use tickpipe.Base.Lists.{get_or}

abbrev pub Bytes : Type 0
Bytes = ℕ → ℕ

abbrev pub IsByte : ℕ → Type 0
IsByte b = b < 256

-- `p + off`
abbrev pub advance : Bytes → ℕ → Bytes
advance p off i = p (off + i)

-- The bytes of a list, zero past its end.
abbrev pub bytes_of : List ℕ → Bytes
bytes_of xs i = get_or xs i 0

module _ {ℓ} {A : Type ℓ} where
  -- `a[i] = v`
  abbrev pub update : (ℕ → A) → ℕ → A → ℕ → A
  update f i v j = if j == i then v else f j

  -- `memcpy(dst + off, src, n)`
  abbrev pub memcpy : (ℕ → A) → ℕ → (ℕ → A) → ℕ → ℕ → A
  memcpy dst off src n j = if leb off j && ltb j (off + n) then src (j - off) else dst j

  pub update_self : (f : ℕ → A) (i : ℕ) (v : A) → update f i v i ≡ v
  update_self f i v = ground arith

  pub update_ne : (f : ℕ → A) {i j : ℕ} (v : A) → j ≢ i → update f i v j ≡ f j
  update_ne f v h = ground arith
