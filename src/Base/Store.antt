-- ===== src/Base/Store.antt =====
-- An array or a memory is a function of the index; `update` is an assignment to one cell. `length`
-- counts in native numbers.
use Prim.Native.Nat.{ℕ, ◌+◌}
use mathlib.Core.List.{List, [], ◌∷◌}
use mathlib.Core.Path.{◌≡◌}
use mathlib.Core.Logic.{◌≢◌}
use tkernel.Base.Tests.{◌==◌, if◌then◌else◌, ==-refl, ==-ne}

module _ {ℓ} {A : Type ℓ} where
  abbrev pub update : (ℕ → A) → ℕ → A → ℕ → A
  update f i v j = if i == j then v else f j

  pub update_self : (f : ℕ → A) (i : ℕ) (v : A) → update f i v i ≡ v
  update_self f i v = rw ==-refl

  pub update_ne : (f : ℕ → A) (i j : ℕ) (v : A) → i ≢ j → update f i v j ≡ f j
  update_ne f i j v h = rw (==-ne i j h)

  abbrev pub length : List A → ℕ
  length [] = 0
  length (x ∷ l) = length l + 1
