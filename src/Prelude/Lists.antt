-- ===== src/Prelude/Lists.antt =====
-- Lists: the tests and searches of JavaScript's arrays, and predicates on the members.
use Prim.Native.Nat.{ℕ, suc}
use mathlib.Core.Path.{◌≡◌, refl, ap}
use mathlib.Core.Bool.{Bool, false, ◌||◌}
use mathlib.Core.Option.{Option, none, some}
use mathlib.Core.List.{List, [], ◌∷◌, ◌++◌}
use native.Mathlib.Omega.{arith}
use pockode.Prelude.Tests.{if◌then◌else◌}

module _ {ℓ} {A : Type ℓ} where
  abbrev pub length : List A → ℕ
  length [] = 0
  length (x ∷ xs) = suc (length xs)

  -- `xs[xs.length - 1]`
  abbrev pub last : List A → Option A
  last [] = none
  last (x ∷ []) = some x
  last (x ∷ y ∷ ys) = last (y ∷ ys)

  -- `xs.slice(0, -1)`
  abbrev pub init : List A → List A
  init [] = []
  init (x ∷ []) = []
  init (x ∷ y ∷ ys) = x ∷ init (y ∷ ys)

  -- `xs.filter(p)`
  abbrev pub keep : (A → Bool) → List A → List A
  keep p [] = []
  keep p (x ∷ xs) = if p x then x ∷ keep p xs else keep p xs

  -- `xs.some(p)`
  abbrev pub any : (A → Bool) → List A → Bool
  any p [] = false
  any p (x ∷ xs) = p x || any p xs

  pub last-append : (xs : List A) (x : A) → last (xs ++ x ∷ []) ≡ some x
  last-append [] x = refl
  last-append (y ∷ []) x = refl
  last-append (y ∷ z ∷ zs) x = last-append (z ∷ zs) x

  pub last-append_two : (xs : List A) (x y : A) → last (xs ++ x ∷ y ∷ []) ≡ some y
  last-append_two [] x y = refl
  last-append_two (z ∷ []) x y = refl
  last-append_two (z ∷ z' ∷ zs) x y = last-append_two (z' ∷ zs) x y

  pub init-append : (xs : List A) (x : A) → init (xs ++ x ∷ []) ≡ xs
  init-append [] x = refl
  init-append (y ∷ []) x = refl
  init-append (y ∷ z ∷ zs) x = ap (◌∷◌ y) (init-append (z ∷ zs) x)

  -- A list with a last element is its front and that element.
  pub init-last : (xs : List A) (x : A) → last xs ≡ some x → xs ≡ init xs ++ x ∷ []
  init-last [] x h = ground arith
  init-last (y ∷ []) x h = ground arith
  init-last (y ∷ z ∷ zs) x h = ap (◌∷◌ y) (init-last (z ∷ zs) x h)

module _ {ℓ κ} {A : Type ℓ} (P : A → Type κ) where
  abbrev pub All : List A → Type κ
  All [] = Unit
  All (x ∷ xs) = P x × All xs
