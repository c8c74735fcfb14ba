-- ===== src/Prelude/Arrays.antt =====
-- Lists: the operations on JavaScript's arrays that take an index, `findIndex`, `splice` and an
-- exchange of neighbours.
use Prim.Native.Nat.{ℕ, zero, suc, ◌+◌}
use mathlib.Core.Path.{◌≡◌, refl, ap}
use mathlib.Core.Bool.{Bool, true, false}
use mathlib.Core.Option.{Option, none, some}
use mathlib.Core.List.{List, [], ◌∷◌, ◌++◌}
use native.Mathlib.Omega.{arith}
use pockode.Prelude.Tests.{if◌then◌else◌}
use pockode.Prelude.Lists.{length, any}

module _ {ℓ} {A : Type ℓ} where
  -- `none` for -1.
  abbrev pub find_index : (A → Bool) → List A → Option ℕ
  find_index p [] = none
  find_index p (x ∷ xs) =
      if p x then some 0 else (elim (find_index p xs) [ none ↦ none | some i ↦ some (suc i) ])

  abbrev pub item_at : ℕ → List A → Option A
  item_at i [] = none
  item_at zero (x ∷ xs) = some x
  item_at (suc i) (x ∷ xs) = item_at i xs

  -- `xs.splice(i, 1)`
  abbrev pub remove_at : ℕ → List A → List A
  remove_at i [] = []
  remove_at zero (x ∷ xs) = xs
  remove_at (suc i) (x ∷ xs) = x ∷ remove_at i xs

  -- `xs.splice(i, 0, item)`: past the end it appends.
  abbrev pub insert_at : ℕ → A → List A → List A
  insert_at zero item xs = item ∷ xs
  insert_at (suc i) item [] = item ∷ []
  insert_at (suc i) item (x ∷ xs) = x ∷ insert_at i item xs

  -- `[xs[i], xs[i + 1]] = [xs[i + 1], xs[i]]`, where both are there.
  abbrev pub swap_at : ℕ → List A → List A
  swap_at zero (x ∷ y ∷ xs) = y ∷ x ∷ xs
  swap_at (suc i) (x ∷ xs) = x ∷ swap_at i xs
  swap_at _ xs = xs

  pub find_index-middle :
      (p : A → Bool) (xs : List A) (x : A) (ys : List A)
      → any p xs ≡ false
      → p x ≡ true
      → find_index p (xs ++ x ∷ ys) ≡ some (length xs)
  find_index-middle p [] x ys h e = rw e refl
  find_index-middle p (w ∷ xs) x ys h e = ground (arith, find_index-middle p xs x ys)

  pub item_at-middle :
      (xs : List A) (x : A) (ys : List A) → item_at (length xs) (xs ++ x ∷ ys) ≡ some x
  item_at-middle [] x ys = refl
  item_at-middle (w ∷ xs) x ys = item_at-middle xs x ys

  pub remove_at-middle :
      (xs : List A) (x : A) (ys : List A) → remove_at (length xs) (xs ++ x ∷ ys) ≡ xs ++ ys
  remove_at-middle [] x ys = refl
  remove_at-middle (w ∷ xs) x ys = ap (◌∷◌ w) (remove_at-middle xs x ys)

  pub insert_at-middle :
      (xs : List A) (x : A) (ys : List A) → insert_at (length xs) x (xs ++ ys) ≡ xs ++ x ∷ ys
  insert_at-middle [] x ys = refl
  insert_at-middle (w ∷ xs) x ys = ap (◌∷◌ w) (insert_at-middle xs x ys)

  pub swap_at-middle :
      (xs : List A) (x y : A) (ys : List A)
      → swap_at (length xs) (xs ++ x ∷ y ∷ ys) ≡ xs ++ y ∷ x ∷ ys
  swap_at-middle [] x y ys = refl
  swap_at-middle (w ∷ xs) x y ys = ap (◌∷◌ w) (swap_at-middle xs x y ys)

  pub length-append : (xs ys : List A) → length (xs ++ ys) ≡ length xs + length ys
  length-append [] ys = omega arith
  length-append (x ∷ xs) ys = let rest = length-append xs ys in omega arith

  pub any-append :
      (p : A → Bool) (xs ys : List A)
      → any p xs ≡ false
      → any p ys ≡ false
      → any p (xs ++ ys) ≡ false
  any-append p [] ys h k = k
  any-append p (x ∷ xs) ys h k = ground (arith, any-append p xs ys)
