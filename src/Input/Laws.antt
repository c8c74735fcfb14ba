-- ===== src/Input/Laws.antt =====
-- web/src/hooks/useInputHistory.ts: what the arrow keys bring back, and how long the history gets.
use pockode.Prelude.{
  ℕ, suc, zero, ◌≡◌, refl, ◌≤◌, ◌<◌, Bool, true, false, Option, none, some, List, [], ◌∷◌, map,
  String, is_truthy, if◌then◌else◌, ===_iff, length, Bool-cases, inl, inr, arith, ◌∙◌, ap, ◌+◌,
  subst,
}
use pockode.Input.{
  InputHistory, max_history, strings, load_history, nth, take, get_history, is_first,
  save_to_history, reset_navigation, drafted, get_previous, get_next,
}

-- The index after `p` steps back.
abbrev index_at : ℕ → Option ℕ
index_at zero = none
index_at (suc k) = some k

record IsAt (history : List String) (p : ℕ) (typed : String) (s : InputHistory) : Type 0 where
  items : get_history s ≡ history
  index : s.index ≡ index_at p
  draft : s.draft ≡ typed

-- What a step forward from the place `suc p` shows.
abbrev shown_at : List String → String → ℕ → Option String
shown_at history draft zero = some draft
shown_at history draft (suc k) = nth k history

get_previous-IsAt :
    (x : String) (history : List String) (p : ℕ) (draft : String) (s : InputHistory)
    → IsAt history p draft s
    → p < length history
    → IsAt history (suc p) (drafted (index_at p) x draft) ((get_previous x s).1)
      × ((get_previous x s).0 ≡ nth p history)
unfolding get_previous get_history
get_previous-IsAt x history zero draft s at lt = ground (arith, at.items, at.index, at.draft)
get_previous-IsAt x history (suc p) draft s at lt = ground (arith, at.items, at.index, at.draft)

get_next-IsAt :
    (history : List String) (p : ℕ) (draft : String) (s : InputHistory)
    → IsAt history (suc p) draft s
    → IsAt history p draft ((get_next s).1) × ((get_next s).0 ≡ shown_at history draft p)
unfolding get_next get_history
get_next-IsAt history zero draft s at = ground (arith, at.items, at.index, at.draft)
get_next-IsAt history (suc p) draft s at = ground (arith, at.items, at.index, at.draft)

-- One key press after the other: back with the inputs that stand there, and forward.
abbrev pub go_back : List String → InputHistory → InputHistory
go_back [] s = s
go_back (x ∷ xs) s = go_back xs ((get_previous x s).1)

abbrev pub go_forward : ℕ → InputHistory → InputHistory
go_forward zero s = s
go_forward (suc n) s = go_forward n ((get_next s).1)

go_back-IsAt :
    (xs history : List String) (p : ℕ) (draft : String) (s : InputHistory)
    → IsAt history (suc p) draft s
    → suc p + length xs ≤ length history
    → IsAt history (suc p + length xs) draft (go_back xs s)
go_back-IsAt [] history p draft s at le = subst (λ q. IsAt history q draft s) (omega arith) at
go_back-IsAt (x ∷ xs) history p draft s at le =
    subst (λ q. IsAt history q draft (go_back xs ((get_previous x s).1))) (omega arith)
      (go_back-IsAt xs history (suc p) draft ((get_previous x s).1)
        ((get_previous-IsAt x history (suc p) draft s at (omega arith)).0) (omega arith))

go_forward-IsAt :
    (n : ℕ) (history : List String) (p q : ℕ) (draft : String) (s : InputHistory)
    → q ≡ n + p
    → IsAt history q draft s
    → IsAt history p draft (go_forward n s)
go_forward-IsAt zero history p q draft s e at = subst (λ r. IsAt history r draft s) (omega arith) at
go_forward-IsAt (suc n) history p q draft s e at =
    go_forward-IsAt n history p (n + p) draft ((get_next s).1) refl (
      (get_next-IsAt history (n + p) draft s
        (subst (λ r. IsAt history r draft s) (omega arith) at)).0)

-- The places that a first press and the presses after it lead to.
started :
    (x : String) (xs : List String) (s : InputHistory)
    → s.index ≡ none
    → length xs < length (get_history s)
    → IsAt (get_history s) (suc (length xs)) x (go_back (x ∷ xs) s)
started x xs s h lt =
    let history = get_history s in
    subst (λ r. IsAt history r x (go_back (x ∷ xs) s)) (omega arith)
      (go_back-IsAt xs history 0 x ((get_previous x s).1)
        ((get_previous-IsAt x history 0 s.draft s (record { items = refl; index = h; draft = refl })
          (omega arith)).0)
        (omega arith))

-- However far the user went back in the history, and whatever stood in the input meanwhile, as many
-- steps forward bring back what stood there first, and leave the history.
draft_restored :
    (x : String) (xs : List String) (s : InputHistory)
    → s.index ≡ none
    → length xs < length (get_history s)
    → let back = go_forward (length xs) (go_back (x ∷ xs) s) in
      ((get_next back).0 ≡ some x) × ((get_next back).1.index ≡ none)
draft_restored x xs s h lt =
    let history = get_history s in
    let t = go_forward (length xs) (go_back (x ∷ xs) s) in
    let last_step = get_next-IsAt history 0 x t (
      go_forward-IsAt (length xs) history 1 (suc (length xs)) x (go_back (x ∷ xs) s) (omega arith)
        (started x xs s h lt)) in
    (last_step.1, last_step.0.index)

-- From the draft, each step back shows the next older item of the history, the newest first.
previous_shows :
    (xs : List String) (x : String) (s : InputHistory)
    → s.index ≡ none
    → length xs < length (get_history s)
    → (get_previous x (go_back xs s)).0 ≡ nth (length xs) (get_history s)
previous_shows [] x s h lt =
    (get_previous-IsAt x (get_history s) 0 s.draft s
      (record { items = refl; index = h; draft = refl }) lt).1
previous_shows (y ∷ xs) x s h lt =
    (get_previous-IsAt x (get_history s) (suc (length xs)) y (go_back (y ∷ xs) s)
      (started y xs s h (omega arith)) lt).1

-- From the draft, each step back shows the next older item of the history, the newest first; as many
-- steps forward as steps back were taken show the draft again, and end the navigation.
pub steps_back_and_forward :
    (x : String) (xs : List String) (s : InputHistory)
    → s.index ≡ none
    → length xs < length (get_history s)
    → let back = go_forward (length xs) (go_back (x ∷ xs) s) in
      ((get_previous x (go_back xs s)).0 ≡ nth (length xs) (get_history s))
      × ((get_next back).0 ≡ some x)
      × ((get_next back).1.index ≡ none)
steps_back_and_forward x xs s h lt =
    let restored = draft_restored x xs s h lt in
    (previous_shows xs x s h lt, restored.0, restored.1)

length-take : (k : ℕ) (items : List String) → length (take k items) ≤ k
length-take zero [] = omega arith
length-take (suc k) [] = omega arith
length-take zero (item ∷ items) = omega arith
length-take (suc k) (item ∷ items) = ground (arith, length-take k items)

strings-map : (items : List String) → strings (map some items) ≡ items
strings-map [] = refl
strings-map (item ∷ items) = ap (◌∷◌ item) (strings-map items)

save_again :
    (trim : String → String) (is_stored : Bool) (content : String) (s : InputHistory)
    → is_truthy (trim content) ≡ true
    → is_first (trim content) (get_history s) ≡ true
    → save_to_history trim is_stored content s ≡ record s { history = some (get_history s) }
unfolding save_to_history get_history
save_again trim is_stored content s h f = rw (h, f, save_to_history) refl

save_new :
    (trim : String → String) (is_stored : Bool) (content : String) (s : InputHistory)
    → is_truthy (trim content) ≡ true
    → is_first (trim content) (get_history s) ≡ false
    → save_to_history trim is_stored content s ≡ (
        let history = take max_history (trim content ∷ get_history s) in
        record s {
          history = some history;
          stored = if is_stored then some (map some history) else s.stored;
        })
unfolding save_to_history get_history
save_new trim is_stored content s h f = rw (h, f, save_to_history) refl

save_nothing :
    (trim : String → String) (is_stored : Bool) (content : String) (s : InputHistory)
    → is_truthy (trim content) ≡ false
    → save_to_history trim is_stored content s ≡ s
unfolding save_to_history
save_nothing trim is_stored content s h = rw (h, save_to_history) refl

is_first-nth :
    (content : String) (items : List String)
    → is_first content items ≡ true
    → nth 0 items ≡ some content
is_first-nth content [] h = ground arith
is_first-nth content (item ∷ items) h = ground (arith, ===_iff item content)

nth_inhabited : (items : List String) (item : String) → nth 0 items ≡ some item → 0 < length items
nth_inhabited [] item h = ground arith
nth_inhabited (x ∷ items) item h = omega arith

previous_of_reset :
    (x : String) (s : InputHistory) (item : String)
    → nth 0 (get_history s) ≡ some item
    → (get_previous x (reset_navigation s)).0 ≡ some item
unfolding reset_navigation get_history
previous_of_reset x s item h =
    (get_previous-IsAt x (get_history s) 0 "" (reset_navigation s)
      (record { items = refl; index = refl; draft = refl })
      (nth_inhabited (get_history s) item h)).1
    ∙ h

-- What was saved is the first that a step back shows, without the blanks around it.
pub saved_shows :
    (trim : String → String) (is_stored : Bool) (content x : String) (s : InputHistory)
    → is_truthy (trim content) ≡ true
    → (get_previous x (reset_navigation (save_to_history trim is_stored content s))).0
      ≡ some (trim content)
unfolding get_history
saved_shows trim is_stored content x s h =
    elim (Bool-cases (is_first (trim content) (get_history s))) [
      | inl f ↦ previous_of_reset x (save_to_history trim is_stored content s) (trim content) (
          rw (save_again trim is_stored content s h f)
            (is_first-nth (trim content) (get_history s) f))
      | inr f ↦
          previous_of_reset x (save_to_history trim is_stored content s) (trim content)
            (rw (save_new trim is_stored content s h f) refl)
    ]

-- A save keeps the history to at most 100 items, if it was, and keeps what is stored in step with
-- it, if it was and the storage takes the item.
pub save_keeps :
    (trim : String → String) (content : String) (s : InputHistory)
    → length (get_history s) ≤ max_history
    → load_history s.stored ≡ get_history s
    → let t = save_to_history trim true content s in
      (length (get_history t) ≤ max_history) × (load_history t.stored ≡ get_history t)
unfolding get_history
save_keeps trim content s le e = elim (Bool-cases (is_truthy (trim content))) [
  | inr h ↦ rw (save_nothing trim true content s h) (le, e)
  | inl h ↦ elim (Bool-cases (is_first (trim content) (get_history s))) [
    | inl f ↦ rw (save_again trim true content s h f) (le, e)
    | inr f ↦ rw (save_new trim true content s h f) (
      length-take max_history (trim content ∷ get_history s),
      strings-map (take max_history (trim content ∷ get_history s)),
    )
  ]
]
