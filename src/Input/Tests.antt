-- ===== src/Input/Tests.antt =====
-- The theorems about the input history, applied to one that was loaded.
use pockode.Prelude.{◌≡◌, ◌≤◌, refl, true, none, some, [], ◌∷◌, String, length, arith}
use pockode.Input.{
  InputHistory, max_history, load_history, get_history, save_to_history, get_previous, get_next,
}
use pockode.Input.Laws.{go_back, go_forward, steps_back_and_forward, save_keeps}

abbrev typed : InputHistory
typed = record {
  index = none;
  draft = "";
  history = none;
  stored = some (some "fix it" ∷ none ∷ some "run tests" ∷ some "hello" ∷ []);
}

abbrev keep_blanks : String → String
keep_blanks content = content

save_keeps_example :
    let t = save_to_history keep_blanks true "go on" typed in
    (length (get_history t) ≤ max_history) × (load_history t.stored ≡ get_history t)
unfolding get_history
save_keeps_example = save_keeps keep_blanks "go on" typed (omega arith) refl

steps_back_and_forward_example :
    let back = go_forward 1 (go_back ("new" ∷ "fix it" ∷ []) typed) in
    ((get_previous "new" (go_back ("fix it" ∷ []) typed)).0 ≡ some "run tests")
    × ((get_next back).0 ≡ some "new")
    × ((get_next back).1.index ≡ none)
unfolding get_history
steps_back_and_forward_example =
    steps_back_and_forward "new" ("fix it" ∷ []) typed refl (omega arith)
