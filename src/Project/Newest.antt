-- ===== src/Project/Newest.antt =====
-- web/src/components/Project/WorkListOverlay.tsx: the sort of the closed stories.
use pockode.Prelude.{
  ◌≡◌, refl, ap, Bool, true, false, not, ◌&&◌, List, [], ◌∷◌, ◌++◌, String, keep, All, append_assoc,
  append-nil, inl, inr, Bool-cases, arith,
}
use pockode.Stores.Items.{Work}
use pockode.Project.{insert_newest, newest_first}

-- What a comparison of texts keeps to: not both are before the other, and a text that is not before
-- another is not before one that the other is not before.
pub record IsOrder (is_before : String → String → Bool) : Type 0 where
  pub is_asymmetric : (a b : String) → is_before a b ≡ true → is_before b a ≡ false
  pub is_total :
      (a b c : String) → is_before a b ≡ false → is_before b c ≡ false → is_before a c ≡ false

module _ (is_before : String → String → Bool) where
  -- No work is before one that comes after it.
  abbrev pub IsDescending : List Work → Type 0
  IsDescending [] = Unit
  IsDescending (w ∷ works) =
      All (λ (v : Work). is_before w.updated_at v.updated_at ≡ false) works × IsDescending works

  -- Neither the date nor that of the work is before the other.
  abbrev pub is_tied : String → Work → Bool
  is_tied date w = not (is_before date w.updated_at) && not (is_before w.updated_at date)

  -- The newest come first, and those that are tied with a date are the same ones in the same order.
  pub record IsNewestFirst (works sorted : List Work) : Type 0 where
    pub is_descending : IsDescending sorted
    pub keeps_ties : (date : String) → keep (is_tied date) sorted ≡ keep (is_tied date) works

module _ (is_before : String → String → Bool) (o : IsOrder is_before) where
  is_after : (a b c : String) → is_before a b ≡ true → is_before a c ≡ false → is_before c b ≡ true
  is_after a b c ab ac = elim (Bool-cases (is_before c b)) [
    | inl e ↦ e
    | inr e ↦ let ne = o.is_total a c b ac e in ground arith
  ]

  not_tied :
      (date : String) (v w : Work)
      → is_tied is_before date w ≡ true
      → is_before v.updated_at w.updated_at ≡ true
      → is_tied is_before date v ≡ false
  not_tied date v w t b = elim (Bool-cases (is_before v.updated_at date)) [
    | inl e ↦ ground arith
    | inr e ↦ let ne = o.is_total v.updated_at date w.updated_at e in ground arith
  ]

  none_before :
      (v w : Work) (works : List Work)
      → is_before v.updated_at w.updated_at ≡ true
      → All (λ (x : Work). is_before v.updated_at x.updated_at ≡ false) works
      → All (λ (x : Work). is_before w.updated_at x.updated_at ≡ false) works
  none_before v w [] b a = tt
  none_before v w (x ∷ works) b (h, a) = (
    o.is_total w.updated_at v.updated_at x.updated_at (o.is_asymmetric v.updated_at w.updated_at b)
        h,
    none_before v w works b a,
  )

  none_tied :
      (date : String) (v w : Work) (works : List Work)
      → is_tied is_before date w ≡ true
      → is_before v.updated_at w.updated_at ≡ true
      → All (λ (x : Work). is_before v.updated_at x.updated_at ≡ false) works
      → keep (is_tied is_before date) works ≡ []
  none_tied date v w [] t b a = refl
  none_tied date v w (x ∷ works) t b (h, a) =
      let before = is_after v.updated_at w.updated_at x.updated_at b h in
      rw (not_tied date x w t before) (none_tied date v w works t b a)

  All-insert_newest :
      (P : Work → Type 0) (w : Work) (works : List Work)
      → P w
      → All P works
      → All P (insert_newest is_before w works)
  All-insert_newest P w [] p a = (p, tt)
  All-insert_newest P w (v ∷ works) p (q, a) =
      elim (Bool-cases (is_before v.updated_at w.updated_at)) [
        | inl e ↦ rw (e) (p, (q, a))
        | inr e ↦ rw (e) (q, All-insert_newest P w works p a)
      ]

  insert_newest-IsDescending :
      (w : Work) (works : List Work)
      → IsDescending is_before works
      → IsDescending is_before (insert_newest is_before w works)
  insert_newest-IsDescending w [] d = (tt, tt)
  insert_newest-IsDescending w (v ∷ works) (a, d) =
      elim (Bool-cases (is_before v.updated_at w.updated_at)) [
        | inl e ↦
            let later = o.is_asymmetric v.updated_at w.updated_at e in
            rw (e) ((later, none_before v w works e a), (a, d))
        | inr e ↦
            let rest =
              All-insert_newest (λ (x : Work). is_before v.updated_at x.updated_at ≡ false) w works
                e a in
            rw (e) (rest, insert_newest-IsDescending w works d)
      ]

  keep-insert_newest :
      (date : String) (w : Work) (works : List Work)
      → IsDescending is_before works
      → keep (is_tied is_before date) (insert_newest is_before w works)
        ≡ keep (is_tied is_before date) works ++ keep (is_tied is_before date) (w ∷ [])
  keep-insert_newest date w [] d = refl
  keep-insert_newest date w (v ∷ works) (a, d) =
      elim (Bool-cases (is_before v.updated_at w.updated_at)) [
        | inl e ↦ elim (Bool-cases (is_tied is_before date w)) [
          | inl t ↦
              let others = none_tied date v w works t e a in
              rw (e, t, not_tied date v w t e, others) refl
          | inr t ↦ rw (e, t, append-nil (keep (is_tied is_before date) (v ∷ works))) refl
        ]
        | inr e ↦ elim (Bool-cases (is_tied is_before date v)) [
          | inl t ↦ rw (e, t) (ap (◌∷◌ v) (keep-insert_newest date w works d))
          | inr t ↦ rw (e, t) (keep-insert_newest date w works d)
        ]
      ]

  keep-split :
      (date : String) (w : Work) (works : List Work)
      → keep (is_tied is_before date) (w ∷ []) ++ keep (is_tied is_before date) works
        ≡ keep (is_tied is_before date) (w ∷ works)
  keep-split date w works = elim (Bool-cases (is_tied is_before date w)) [
    | inl t ↦ rw (t) refl
    | inr t ↦ rw (t) refl
  ]

  keep-newest_first :
      (date : String) (sorted works : List Work)
      → IsDescending is_before sorted
      → keep (is_tied is_before date) (newest_first is_before sorted works)
        ≡ keep (is_tied is_before date) sorted ++ keep (is_tied is_before date) works
  keep-newest_first date sorted [] d = rw (append-nil (keep (is_tied is_before date) sorted)) refl
  keep-newest_first date sorted (w ∷ works) d =
      let more = insert_newest is_before w sorted in
      let put = keep-insert_newest date w sorted d in
      let rest = keep-newest_first date more works (insert_newest-IsDescending w sorted d) in
      let assoc =
        append_assoc (keep (is_tied is_before date) sorted) (keep (is_tied is_before date) (w ∷ []))
          (keep (is_tied is_before date) works) in
      let split = keep-split date w works in cc (put, rest, assoc, split)

  newest_first-IsDescending :
      (sorted works : List Work)
      → IsDescending is_before sorted
      → IsDescending is_before (newest_first is_before sorted works)
  newest_first-IsDescending sorted [] d = d
  newest_first-IsDescending sorted (w ∷ works) d =
      newest_first-IsDescending (insert_newest is_before w sorted) works
        (insert_newest-IsDescending w sorted d)

  pub newest_first_lem :
      (works : List Work) → IsNewestFirst is_before works (newest_first is_before [] works)
  newest_first_lem works = record {
    is_descending = newest_first-IsDescending [] works tt;
    keeps_ties = λ date. keep-newest_first date [] works tt;
  }
