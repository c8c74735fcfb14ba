-- ===== src/Steps/Tests.antt =====
-- The theorems about steps, applied to three steps of which one is dragged.
use pockode.Prelude.{ℕ, ◌≡◌, refl, none, some, [], ◌∷◌, String, map}
use pockode.Steps.{
  StepItem, StepsEditor, mount_steps, drag_start, drag_over, drag_end, edit_all, adds, updates,
  drag_starts, drags_over, drag_ends, removes, dropped, move_step, add_step, remove_step,
}
use pockode.Steps.Dragging.{drag_lands}
use pockode.Steps.Ids.{IsNumbered, step_ids_unique}

abbrev item : ℕ → String → StepItem
item id value = record { id = id; value = value }

abbrev editor : StepsEditor
editor = mount_steps 0 (some ("plan" ∷ "build" ∷ "test" ∷ []))

abbrev trim : String → String
trim s = s

drag_lands_example :
    let down = drag_end (
      drag_over 3 (
        drag_start 1
          (record editor { step_items = item 1 "plan" ∷ item 2 "build" ∷ item 3 "test" ∷ [] }))) in
    let up = drag_end (
      drag_over 0 (
        drag_start 1
          (record editor { step_items = item 2 "build" ∷ item 3 "test" ∷ item 1 "plan" ∷ [] }))) in
    (down.step_items ≡ item 2 "build" ∷ item 3 "test" ∷ item 1 "plan" ∷ [])
    × (up.step_items ≡ item 1 "plan" ∷ item 2 "build" ∷ item 3 "test" ∷ [])
    × (down.drag_id ≡ none)
    × (up.drop_target_index ≡ none)
drag_lands_example =
    drag_lands [] (item 2 "build" ∷ item 3 "test" ∷ []) [] (item 1 "plan") editor refl refl

step_ids_unique_example :
    let s =
      edit_all trim
        (adds ∷ updates 4 "ship" ∷ drag_starts 1 ∷ drags_over 4 ∷ drag_ends ∷ [])
        (mount_steps 0 (some ("plan" ∷ "build" ∷ "test" ∷ []))) in
    IsNumbered s.counter s.step_items
step_ids_unique_example =
    step_ids_unique trim (adds ∷ updates 4 "ship" ∷ drag_starts 1 ∷ drags_over 4 ∷ drag_ends ∷ []) 0
      (some ("plan" ∷ "build" ∷ "test" ∷ []))

dragged_ids :
    map
      (λ (item : StepItem). item.id)
      (edit_all trim
        (adds ∷ removes 2 ∷ drag_starts 4 ∷ drags_over 0 ∷ drag_ends ∷ [])
        editor).step_items
    ≡ 4 ∷ 1 ∷ 3 ∷ []
unfolding drag_end drag_over drag_start dropped move_step add_step remove_step
dragged_ids = refl
