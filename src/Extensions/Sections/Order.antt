-- ===== src/Extensions/Sections/Order.antt =====
-- web/src/lib/registries/settingsRegistry.ts: the order of the sections, and taking one back.
use pockode.Prelude.{
  ℕ, ◌≤◌, ◌≡◌, refl, ◌∙◌, ap, sym, false, List, [], ◌∷◌, ◌++◌, String, ltb, ◌===◌, arith,
  Bool-cases, inl, inr, append_assoc, append-nil, subst,
}
use pockode.Extensions.Sections.{Section, insert, sort_onto, register_section, unregister_section}

module _ {C : Type 0} where
  -- Each section before all of the rest.
  abbrev pub AllAtLeast : ℕ → List (Section C) → Type 0
  AllAtLeast p [] = Unit
  AllAtLeast p (x ∷ xs) = (p ≤ x.priority) × AllAtLeast p xs

  abbrev pub IsSorted : List (Section C) → Type 0
  IsSorted [] = Unit
  IsSorted (x ∷ xs) = AllAtLeast x.priority xs × IsSorted xs

  AllAtLeast-le : (p q : ℕ) (xs : List (Section C)) → p ≤ q → AllAtLeast q xs → AllAtLeast p xs
  AllAtLeast-le p q [] h a = tt
  AllAtLeast-le p q (x ∷ xs) h a = let first = a.0 in (omega arith, AllAtLeast-le p q xs h a.1)

  insert-AllAtLeast :
      (p : ℕ) (x : Section C) (xs : List (Section C))
      → p ≤ x.priority
      → AllAtLeast p xs
      → AllAtLeast p (insert x xs)
  insert-AllAtLeast p x [] h a = (h, tt)
  insert-AllAtLeast p x (y ∷ ys) h a = elim (Bool-cases (ltb x.priority y.priority)) [
    | inl e ↦ rw e (h, a)
    | inr e ↦ rw e (a.0, insert-AllAtLeast p x ys h a.1)
  ]

  insert-IsSorted : (x : Section C) (xs : List (Section C)) → IsSorted xs → IsSorted (insert x xs)
  insert-IsSorted x [] s = (tt, tt)
  insert-IsSorted x (y ∷ ys) s = elim (Bool-cases (ltb x.priority y.priority)) [
    | inl e ↦
        let le : x.priority ≤ y.priority = ground arith in
        rw e ((le, AllAtLeast-le x.priority y.priority ys le s.0), s)
    | inr e ↦ rw e (insert-AllAtLeast y.priority x ys (ground arith) s.0, insert-IsSorted x ys s.1)
  ]

  sort_onto-IsSorted :
      (xs sorted : List (Section C)) → IsSorted sorted → IsSorted (sort_onto sorted xs)
  sort_onto-IsSorted [] sorted s = s
  sort_onto-IsSorted (x ∷ xs) sorted s =
      sort_onto-IsSorted xs (insert x sorted) (insert-IsSorted x sorted s)

  insert-last :
      (sorted : List (Section C)) (x : Section C)
      → IsSorted (sorted ++ x ∷ [])
      → insert x sorted ≡ sorted ++ x ∷ []
  insert-last [] x s = refl
  insert-last (y ∷ ys) x s = rw (not_before y ys s) (ap (◌∷◌ y) (insert-last ys x s.1))
    where
      last_at_least : (p : ℕ) (us : List (Section C)) → AllAtLeast p (us ++ x ∷ []) → p ≤ x.priority
      last_at_least p [] a = a.0
      last_at_least p (u ∷ us) a = last_at_least p us a.1

      not_before :
          (u : Section C) (us : List (Section C))
          → IsSorted (u ∷ us ++ x ∷ [])
          → ltb x.priority u.priority ≡ false
      not_before u us a = let le = last_at_least u.priority us a.0 in ground arith

  IsSorted-front : (xs ys : List (Section C)) → IsSorted (xs ++ ys) → IsSorted xs
  IsSorted-front [] ys s = tt
  IsSorted-front (x ∷ xs) ys s = (front x.priority xs s.0, IsSorted-front xs ys s.1)
    where
      front : (p : ℕ) (us : List (Section C)) → AllAtLeast p (us ++ ys) → AllAtLeast p us
      front p [] a = tt
      front p (u ∷ us) a = (a.0, front p us a.1)

  sort_onto-sorted :
      (xs sorted : List (Section C)) → IsSorted (sorted ++ xs) → sort_onto sorted xs ≡ sorted ++ xs
  sort_onto-sorted [] sorted s = sym (append-nil sorted)
  sort_onto-sorted (x ∷ xs) sorted s =
      let s' = subst IsSorted (sym (append_assoc sorted (x ∷ []) xs)) s in
      rw (insert-last sorted x (IsSorted-front (sorted ++ x ∷ []) xs s'))
        (sort_onto-sorted xs (sorted ++ x ∷ []) s' ∙ append_assoc sorted (x ∷ []) xs)

  sort_onto-append :
      (sorted xs : List (Section C)) (x : Section C)
      → sort_onto sorted (xs ++ x ∷ []) ≡ insert x (sort_onto sorted xs)
  sort_onto-append sorted [] x = refl
  sort_onto-append sorted (y ∷ xs) x = sort_onto-append (insert y sorted) xs x

  pub register_section-insert :
      (x : Section C) (xs : List (Section C)) → IsSorted xs → register_section x xs ≡ insert x xs
  unfolding register_section
  register_section-insert x xs s =
      sort_onto-append [] xs x ∙ ap (insert x) (sort_onto-sorted xs [] s)

  -- However the list was before, a registration leaves it sorted.
  pub register_section-IsSorted :
      (x : Section C) (xs : List (Section C)) → IsSorted (register_section x xs)
  unfolding register_section
  register_section-IsSorted x xs = sort_onto-IsSorted (xs ++ x ∷ []) [] tt

  unregister_section-AllAtLeast :
      (p : ℕ) (id : String) (xs : List (Section C))
      → AllAtLeast p xs
      → AllAtLeast p (unregister_section id xs)
  unfolding unregister_section
  unregister_section-AllAtLeast p id [] a = tt
  unregister_section-AllAtLeast p id (x ∷ xs) a = elim (Bool-cases (x.id === id)) [
    | inl e ↦ rw e (unregister_section-AllAtLeast p id xs a.1)
    | inr e ↦ rw e (a.0, unregister_section-AllAtLeast p id xs a.1)
  ]

  pub unregister_section-IsSorted :
      (id : String) (xs : List (Section C)) → IsSorted xs → IsSorted (unregister_section id xs)
  unfolding unregister_section
  unregister_section-IsSorted id [] s = tt
  unregister_section-IsSorted id (x ∷ xs) s = elim (Bool-cases (x.id === id)) [
    | inl e ↦ rw e (unregister_section-IsSorted id xs s.1)
    | inr e ↦
        rw e (
          unregister_section-AllAtLeast x.priority id xs s.0,
          unregister_section-IsSorted id xs s.1,
        )
  ]
