-- ===== src/Stores/Refinement.antt =====
-- The lists of the stores, as finite maps from ids to items: web/src/hooks/useSessionSubscription.ts,
-- web/src/hooks/useWorkSubscription.ts and web/src/hooks/useAgentRoleSubscription.ts.
pub mod Unique
pub mod Stores
use pockode.Prelude.{
  ◌≡◌, refl, ◌∙◌, ap, Bool, true, false, ◌||◌, Option, none, some, List, [], ◌∷◌, ◌++◌, String, any,
  is_some, if◌then◌else◌, ◌===◌, ===_iff, arith, Bool-cases, inl, inr,
}
use mathlib.Core.Path.{fun_ext}
use pockode.Stores.Collection.{
  Keyed, ListChanged, create, update, delete, sync, includes, find, replace, remove, prepend,
  append_or_replace, apply_change,
}

module _ {ℓ} {A : Type ℓ} ⦃k : Keyed A⦄ where
  -- The abstract contract: what a notification does to a map from ids to items.
  abbrev pub change_map : ListChanged A → (String → Option A) → String → Option A
  change_map (create x) f j = if k.id x === j then some x else f j
  change_map (update x) f j = if k.id x === j then if is_some (f j) then some x else none else f j
  change_map (delete id) f j = if id === j then none else f j
  change_map (sync items) f j = find j items

  abbrev pub change_maps : List (ListChanged A) → (String → Option A) → String → Option A
  change_maps [] f = f
  change_maps (c ∷ changes) f = change_maps changes (change_map c f)

  pub find-remove :
      (id j : String) (items : List A)
      → find j (remove id items) ≡ (if id === j then none else find j items)
  find-remove id j [] = ground arith
  find-remove id j (x ∷ items) =
      ground (arith, find-remove id j items, ===_iff (k.id x) id, ===_iff (k.id x) j, ===_iff id j)

  pub find-replace :
      (item : A) (j : String) (items : List A)
      → find j (replace item items) ≡ (
          if k.id item === j
          then if is_some (find j items) then some item else none
          else find j items)
  find-replace item j [] = ground arith
  find-replace item j (x ∷ items) = ground (
    arith,
    find-replace item j items,
    ===_iff (k.id x) (k.id item),
    ===_iff (k.id x) j,
    ===_iff (k.id item) j,
  )

  pub includes-find : (id : String) (items : List A) → includes id items ≡ is_some (find id items)
  includes-find id [] = refl
  includes-find id (x ∷ items) = ground (arith, includes-find id items)

  pub find-append :
      (item : A) (j : String) (items : List A)
      → is_some (find (k.id item) items) ≡ false
      → find j (items ++ item ∷ []) ≡ (if k.id item === j then some item else find j items)
  find-append item j [] h = refl
  find-append item j (x ∷ items) h = ground (
    arith,
    find-append item j items,
    ===_iff (k.id x) (k.id item),
    ===_iff (k.id x) j,
    ===_iff (k.id item) j,
  )

  -- The law of a way to add an item.
  pub record Adds (add : A → List A → List A) : Type ℓ where
    pub find-add :
        (item : A) (j : String) (items : List A)
        → find j (add item items) ≡ (if k.id item === j then some item else find j items)

  pub prepend-Adds : Adds prepend
  unfolding prepend
  prepend-Adds = record {
    find-add = λ item j items. ground (arith, find-remove (k.id item) j items);
  }

  find-append_or_replace :
      (item : A) (j : String) (items : List A)
      → find j (append_or_replace item items)
        ≡ (if k.id item === j then some item else find j items)
  unfolding append_or_replace
  find-append_or_replace item j items = ground (
    arith,
    includes-find (k.id item) items,
    find-replace item j items,
    find-append item j items,
    ===_iff (k.id item) j,
  )

  pub append_or_replace-Adds : Adds append_or_replace
  append_or_replace-Adds = record { find-add = find-append_or_replace }

  pub find-apply_change :
      (add : A → List A → List A) (c : ListChanged A) (items : List A)
      → Adds add
      → (λ j. find j (apply_change add c items)) ≡ change_map c (λ j. find j items)
  unfolding apply_change
  find-apply_change add (create item) items l = fun_ext (λ j. l.find-add item j items)
  find-apply_change add (update item) items l = fun_ext (λ j. find-replace item j items)
  find-apply_change add (delete id) items l = fun_ext (λ j. find-remove id j items)
  find-apply_change add (sync new_items) items l = refl
