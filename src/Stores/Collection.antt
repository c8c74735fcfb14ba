-- ===== src/Stores/Collection.antt =====
-- web/src/hooks/useSessionSubscription.ts, web/src/hooks/useWorkSubscription.ts and
-- web/src/hooks/useAgentRoleSubscription.ts: a list that change notifications update.
use pockode.Prelude.{
  Bool, Option, none, some, List, [], ◌∷◌, ◌++◌, String, any, if◌then◌else◌, ◌===◌,
}

-- The items of such a list have an id.
pub record Keyed {ℓ} (A : Type ℓ) : Type ℓ where
  pub id : A → String

-- `SessionListChangedNotification` and the like, without the id of the subscription.
pub data ListChanged {ℓ} (A : Type ℓ) : Type ℓ where
  create update : A → ListChanged A
  delete : (id : String) → ListChanged A
  sync : List A → ListChanged A

module _ {ℓ} {A : Type ℓ} ⦃k : Keyed A⦄ where
  -- `items.some((x) => x.id === id)`
  abbrev pub includes : String → List A → Bool
  includes id items = any (λ x. k.id x === id) items

  -- `items.find((x) => x.id === id)`
  abbrev pub find : String → List A → Option A
  find id [] = none
  find id (x ∷ items) = if k.id x === id then some x else find id items

  -- `items.map((x) => (x.id === item.id ? item : x))`
  abbrev pub replace : A → List A → List A
  replace item [] = []
  replace item (x ∷ items) = (if k.id x === k.id item then item else x) ∷ replace item items

  -- `items.filter((x) => x.id !== id)`
  abbrev pub remove : String → List A → List A
  remove id [] = []
  remove id (x ∷ items) = if k.id x === id then remove id items else x ∷ remove id items

  -- The new item comes first: `prependSession`.
  unfoldable pub prepend : A → List A → List A
  prepend item items = item ∷ remove (k.id item) items

  -- The new item comes last, or takes its old place.
  unfoldable pub append_or_replace : A → List A → List A
  append_or_replace item items =
      if includes (k.id item) items then replace item items else items ++ item ∷ []

  -- What a notification does to the list, by what a creation does.
  unfoldable pub apply_change : (A → List A → List A) → ListChanged A → List A → List A
  apply_change add (create item) items = add item items
  apply_change add (update item) items = replace item items
  apply_change add (delete id) items = remove id items
  apply_change add (sync new_items) items = new_items
