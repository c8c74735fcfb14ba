-- ===== src/Stores/Refinement/Unique.antt =====
-- web/src/hooks/useSessionSubscription.ts and web/src/hooks/useWorkSubscription.ts: each id stands
-- once in a list, and a creation that is told twice.
use pockode.Prelude.{
  ◌≡◌, refl, ◌∙◌, ap, sym, true, false, List, [], ◌∷◌, ◌++◌, String, if◌then◌else◌, ◌===◌, ===_iff,
  arith, Bool-cases, inl, inr,
}
use pockode.Stores.Collection.{
  Keyed, ListChanged, create, update, delete, sync, includes, replace, remove, prepend,
  append_or_replace, apply_change,
}
use pockode.Stores.Refinement.{find-remove, find-replace, includes-find}

module _ {ℓ} {A : Type ℓ} ⦃k : Keyed A⦄ where
  -- No two items have the same id.
  abbrev pub IsUnique : List A → Type 0
  IsUnique [] = Unit
  IsUnique (x ∷ items) = (includes (k.id x) items ≡ false) × IsUnique items

  includes-remove :
      (id j : String) (items : List A)
      → includes j (remove id items) ≡ (if id === j then false else includes j items)
  includes-remove id j items =
      ground
        (arith, includes-find j (remove id items), includes-find j items, find-remove id j items)

  includes-replace :
      (item : A) (j : String) (items : List A) → includes j (replace item items) ≡ includes j items
  includes-replace item j items = ground (
    arith,
    includes-find j (replace item items),
    includes-find j items,
    find-replace item j items,
  )

  remove-IsUnique : (id : String) (items : List A) → IsUnique items → IsUnique (remove id items)
  remove-IsUnique id [] u = tt
  remove-IsUnique id (x ∷ items) u = elim (Bool-cases (k.id x === id)) [
    | inl e ↦ rw e (remove-IsUnique id items u.1)
    | inr e ↦
        rw e (ground (arith, includes-remove id (k.id x) items, u.0), remove-IsUnique id items u.1)
  ]

  replace-IsUnique : (item : A) (items : List A) → IsUnique items → IsUnique (replace item items)
  replace-IsUnique item [] u = tt
  replace-IsUnique item (x ∷ items) u = elim (Bool-cases (k.id x === k.id item)) [
    | inl e ↦ rw e (
      includes-replace item (k.id item) items
          ∙ (ap (λ id. includes id items) (sym ((===_iff (k.id x) (k.id item)).0 e)) ∙ u.0),
      replace-IsUnique item items u.1,
    )
    | inr e ↦ rw e (includes-replace item (k.id x) items ∙ u.0, replace-IsUnique item items u.1)
  ]

  includes-append :
      (item : A) (j : String) (items : List A)
      → includes j (items ++ item ∷ []) ≡ (if k.id item === j then true else includes j items)
  includes-append item j [] = ground arith
  includes-append item j (x ∷ items) = ground (arith, includes-append item j items)

  append-IsUnique :
      (item : A) (items : List A)
      → includes (k.id item) items ≡ false
      → IsUnique items
      → IsUnique (items ++ item ∷ [])
  append-IsUnique item [] h u = (refl, tt)
  append-IsUnique item (x ∷ items) h u = (
    ground (
      arith,
      includes-append item (k.id x) items,
      u.0,
      ===_iff (k.id item) (k.id x),
      ===_iff (k.id x) (k.id item),
    ),
    append-IsUnique item items (ground arith) u.1,
  )

  pub prepend-IsUnique :
      (item : A) (items : List A) → IsUnique items → IsUnique (prepend item items)
  unfolding prepend
  prepend-IsUnique item items u = (
    ground (arith, includes-remove (k.id item) (k.id item) items, ===_iff (k.id item) (k.id item)),
    remove-IsUnique (k.id item) items u,
  )

  pub append_or_replace-IsUnique :
      (item : A) (items : List A) → IsUnique items → IsUnique (append_or_replace item items)
  unfolding append_or_replace
  append_or_replace-IsUnique item items u = elim (Bool-cases (includes (k.id item) items)) [
    | inl e ↦ rw e (replace-IsUnique item items u)
    | inr e ↦ rw e (append-IsUnique item items e u)
  ]

  -- The server sends lists without repetition.
  abbrev pub IsUniqueSync : ListChanged A → Type 0
  IsUniqueSync (sync items) = IsUnique items
  IsUniqueSync _ = Unit

  pub apply_change-IsUnique :
      (add : A → List A → List A) (c : ListChanged A) (items : List A)
      → ((item : A) → IsUnique items → IsUnique (add item items))
      → IsUniqueSync c
      → IsUnique items
      → IsUnique (apply_change add c items)
  unfolding apply_change
  apply_change-IsUnique add (create item) items h c u = h item u
  apply_change-IsUnique add (update item) items h c u = replace-IsUnique item items u
  apply_change-IsUnique add (delete id) items h c u = remove-IsUnique id items u
  apply_change-IsUnique add (sync new_items) items h c u = c

  remove_again : (id : String) (items : List A) → remove id (remove id items) ≡ remove id items
  remove_again id [] = refl
  remove_again id (x ∷ items) = ground (arith, remove_again id items)

  pub prepend_again :
      (item : A) (items : List A) → prepend item (prepend item items) ≡ prepend item items
  unfolding prepend
  prepend_again item items =
      ground (arith, remove_again (k.id item) items, ===_iff (k.id item) (k.id item))

  replace_again :
      (item : A) (items : List A) → replace item (replace item items) ≡ replace item items
  replace_again item [] = refl
  replace_again item (x ∷ items) = ground (arith, replace_again item items)

  replace-append :
      (item : A) (items : List A)
      → includes (k.id item) items ≡ false
      → replace item (items ++ item ∷ []) ≡ items ++ item ∷ []
  replace-append item [] h = ground arith
  replace-append item (x ∷ items) h = ground (arith, replace-append item items)

  pub append_or_replace_again :
      (item : A) (items : List A)
      → append_or_replace item (append_or_replace item items) ≡ append_or_replace item items
  unfolding append_or_replace
  append_or_replace_again item items = elim (Bool-cases (includes (k.id item) items)) [
    | inl e ↦ rw (e, includes-replace item (k.id item) items, e) (replace_again item items)
    | inr e ↦
        rw (e, includes-append item (k.id item) items, (===_iff (k.id item) (k.id item)).1 refl)
          (replace-append item items e)
  ]
