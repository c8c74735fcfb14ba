-- ===== src/Project/Keys.antt =====
-- web/src/components/Project/WorkListOverlay.tsx: the loops that put items under their keys.
use pockode.Prelude.{
  ◌≡◌, refl, ◌∙◌, ap, Bool, false, Option, none, some, List, [], ◌∷◌, ◌++◌, String, keep,
  if◌then◌else◌, ◌===◌, ===_iff, append_assoc, append-nil, inl, inr, Bool-cases, sym,
}
use pockode.Ws.Watch.{get}
use pockode.Ws.Subscribe.Delivery.{get-set}
use pockode.Project.{pushed, add_item, add_under, group_from}

abbrev pub is_under : String → Option String → Bool
is_under k none = false
is_under k (some j) = j === k

module _ {A : Type 0} where
  -- What a list adds to a group that may be there.
  abbrev pub added : Option (List A) → List A → Option (List A)
  added (some items) more = some (items ++ more)
  added none [] = none
  added none (item ∷ more) = some (item ∷ more)

  added-nil : (o : Option (List A)) → added o [] ≡ o
  added-nil none = refl
  added-nil (some items) = ap some (append-nil items)

  added-pushed :
      (o : Option (List A)) (item : A) (more : List A)
      → added (some (pushed o item)) more ≡ added o (item ∷ more)
  added-pushed none item more = refl
  added-pushed (some items) item more = ap some (append_assoc items (item ∷ []) more)

  get-add_item :
      (k j : String) (item : A) (groups : List (String × List A)) (more : List A)
      → added (get j (add_item k item groups)) more
        ≡ added (get j groups) (if k === j then item ∷ more else more)
  get-add_item k j item groups more = elim (Bool-cases (k === j)) [
    | inl e ↦
        rw (get-set k j (pushed (get k groups) item) groups, e)
          (added-pushed (get k groups) item more
            ∙ ap (λ i. added (get i groups) (item ∷ more)) ((===_iff k j).0 e))
    | inr e ↦ rw (get-set k j (pushed (get k groups) item) groups, e) refl
  ]

  module _ (key : A → Option String) where
    -- The group of a key is what the filter by the key leaves.
    pub get-group_from :
        (j : String) (items : List A) (groups : List (String × List A))
        → get j (group_from key items groups)
          ≡ added (get j groups) (keep (λ item. is_under j (key item)) items)
    get-group_from j [] groups = sym (added-nil (get j groups))
    get-group_from j (item ∷ items) groups =
        get-group_from j items (add_under (key item) item groups) ∙ next (key item)
      where
        next :
            (o : Option String)
            → added (get j (add_under o item groups)) (keep (λ x. is_under j (key x)) items)
              ≡ added (get j groups) (
                  if is_under j o
                  then item ∷ keep (λ x. is_under j (key x)) items
                  else keep (λ x. is_under j (key x)) items)
        next none = refl
        next (some k) = get-add_item k j item groups (keep (λ x. is_under j (key x)) items)
