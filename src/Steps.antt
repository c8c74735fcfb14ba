-- ===== src/Steps.antt =====
-- web/src/components/Project/AgentRoleDetailOverlay.tsx: the editor of the steps of an agent role.
--
-- The id of an item, `step-` and a number, is that number. An index that is -1 is `none`.
pub mod Dragging
mod Counts
pub mod Ids
mod Tests
use pockode.Prelude.{
  ℕ, zero, suc, ◌+◌, ◌-◌, Bool, true, false, Option, none, some, List, [], ◌∷◌, ◌++◌, map, String,
  keep, length, ltb, nat_eq, is_truthy, get_or, if◌then◌else◌,
}
use pockode.Prelude.{find_index, item_at, remove_at, insert_at, swap_at}

pub record StepItem : Type 0 where
  pub id : ℕ
  pub value : String

pub record StepsEditor : Type 0 where
  pub editing : Bool
  pub step_items : List StepItem
  pub saving : Bool
  pub error : Option String
  pub drag_id : Option ℕ
  pub drop_target_index : Option ℕ
  -- `stepIdCounter`, which all editors share.
  pub counter : ℕ

-- The items are numbered from the counter on.
abbrev pub create_step_items : ℕ → List String → List StepItem
create_step_items counter [] = []
create_step_items counter (value ∷ steps) =
    record { id = counter + 1; value = value } ∷ create_step_items (counter + 1) steps

unfoldable pub set_steps : List String → StepsEditor → StepsEditor
set_steps steps s = record s {
  step_items = create_step_items s.counter steps;
  counter = s.counter + length steps;
}

-- The effect that follows the role while it is not edited.
unfoldable pub on_role_steps : Option (List String) → StepsEditor → StepsEditor
unfolding set_steps
on_role_steps steps s = if s.editing then s else set_steps (get_or steps []) s

abbrev pub trimmed_steps : (String → String) → List StepItem → List String
trimmed_steps trim items = keep is_truthy (map (λ (item : StepItem). trim item.value) items)

-- `handleSave` up to its request, the steps of which come first.
unfoldable pub save_steps : (String → String) → StepsEditor → List String × StepsEditor
save_steps trim s = (trimmed_steps trim s.step_items, record s { error = none; saving = true })

unfoldable pub on_steps_saved : (filtered : List String) → StepsEditor → StepsEditor
unfolding set_steps
on_steps_saved filtered s = record (set_steps filtered s) { editing = false; saving = false }

unfoldable pub on_save_failed : (err : Option String) → StepsEditor → StepsEditor
on_save_failed err s = record s { error = some (get_or err "Failed to save"); saving = false }

unfoldable pub cancel_steps : Option (List String) → StepsEditor → StepsEditor
unfolding set_steps
cancel_steps steps s = record (set_steps (get_or steps []) s) { editing = false; error = none }

unfoldable pub add_step : StepsEditor → StepsEditor
add_step s = record s {
  step_items = s.step_items ++ record { id = s.counter + 1; value = "" } ∷ [];
  counter = s.counter + 1;
}

abbrev pub has_step_id : ℕ → StepItem → Bool
has_step_id id item = nat_eq item.id id

abbrev pub with_value : ℕ → String → StepItem → StepItem
with_value id value item = if nat_eq item.id id then record item { value = value } else item

unfoldable pub update_step : (id : ℕ) (value : String) → StepsEditor → StepsEditor
update_step id value s = record s { step_items = map (with_value id value) s.step_items }

abbrev pub without_step : ℕ → List StepItem → List StepItem
without_step id [] = []
without_step id (item ∷ items) =
    if nat_eq item.id id then without_step id items else item ∷ without_step id items

unfoldable pub remove_step : (id : ℕ) → StepsEditor → StepsEditor
remove_step id s = record s { step_items = without_step id s.step_items }

-- The item that `splice` took out is put in.
abbrev pub put_back : ℕ → Option StepItem → List StepItem → List StepItem
put_back to_index none rest = rest
put_back to_index (some item) rest = insert_at to_index item rest

abbrev pub moved : (from_index : Option ℕ) (to_index : ℕ) → List StepItem → List StepItem
moved none to_index items = items
moved (some i) to_index items =
    if nat_eq i to_index then items else put_back to_index (item_at i items) (remove_at i items)

unfoldable pub move_step : (from_id to_index : ℕ) → StepsEditor → StepsEditor
move_step from_id to_index s = record s {
  step_items = moved (find_index (has_step_id from_id) s.step_items) to_index s.step_items;
}

abbrev pub moved_up : Option ℕ → List StepItem → List StepItem
moved_up (some (suc i)) items = swap_at i items
moved_up _ items = items

unfoldable pub move_step_up : (id : ℕ) → StepsEditor → StepsEditor
move_step_up id s = record s {
  step_items = moved_up (find_index (has_step_id id) s.step_items) s.step_items;
}

abbrev pub moved_down : Option ℕ → List StepItem → List StepItem
moved_down none items = items
moved_down (some i) items = if ltb (i + 1) (length items) then swap_at i items else items

unfoldable pub move_step_down : (id : ℕ) → StepsEditor → StepsEditor
move_step_down id s = record s {
  step_items = moved_down (find_index (has_step_id id) s.step_items) s.step_items;
}

unfoldable pub drag_start : (id : ℕ) → StepsEditor → StepsEditor
drag_start id s = record s { drag_id = some id }

unfoldable pub drag_over : (target_index : ℕ) → StepsEditor → StepsEditor
drag_over target_index s = record s { drop_target_index = some target_index }

unfoldable pub drag_leave : (leaves_container : Bool) → StepsEditor → StepsEditor
drag_leave leaves_container s =
    if leaves_container then record s { drop_target_index = none } else s

-- `adjustedIndex`
abbrev pub adjusted_index : (from_index : Option ℕ) (target_index : ℕ) → ℕ
adjusted_index none target_index = target_index
adjusted_index (some i) target_index = if ltb i target_index then target_index - 1 else target_index

abbrev pub is_index : Option ℕ → ℕ → Bool
is_index none j = false
is_index (some i) j = nat_eq i j

abbrev pub dropped : (drag_id drop_target_index : Option ℕ) → StepsEditor → StepsEditor
unfolding move_step
dropped (some id) (some target) s =
    let from_index = find_index (has_step_id id) s.step_items in
    let adjusted = adjusted_index from_index target in
    if is_index from_index adjusted then s else move_step id adjusted s
dropped _ _ s = s

unfoldable pub drag_end : StepsEditor → StepsEditor
unfolding dropped
drag_end s = record (dropped s.drag_id s.drop_target_index s) {
  drag_id = none;
  drop_target_index = none;
}

-- The editor as it is mounted.
abbrev pub mount_steps : (counter : ℕ) (steps : Option (List String)) → StepsEditor
mount_steps counter steps = record {
  editing = false;
  step_items = create_step_items counter (get_or steps []);
  saving = false;
  error = none;
  drag_id = none;
  drop_target_index = none;
  counter = counter + length (get_or steps []);
}

-- What the editor and the others, who share the counter, do.
pub data StepEdit : Type 0 where
  elsewhere : ℕ → StepEdit
  role_changes : Option (List String) → StepEdit
  starts_editing : StepEdit
  saves : StepEdit
  saved : List String → StepEdit
  save_fails : Option String → StepEdit
  cancels : Option (List String) → StepEdit
  adds : StepEdit
  updates : (id : ℕ) (value : String) → StepEdit
  removes : (id : ℕ) → StepEdit
  goes_up : (id : ℕ) → StepEdit
  goes_down : (id : ℕ) → StepEdit
  drag_starts : (id : ℕ) → StepEdit
  drags_over : (target_index : ℕ) → StepEdit
  drag_leaves : (leaves_container : Bool) → StepEdit
  drag_ends : StepEdit

abbrev pub edit_steps : (String → String) → StepEdit → StepsEditor → StepsEditor
edit_steps trim (elsewhere n) s = record s { counter = s.counter + n }
edit_steps trim (role_changes steps) s = on_role_steps steps s
edit_steps trim starts_editing s = record s { editing = true }
edit_steps trim saves s = (save_steps trim s).1
edit_steps trim (saved filtered) s = on_steps_saved filtered s
edit_steps trim (save_fails err) s = on_save_failed err s
edit_steps trim (cancels steps) s = cancel_steps steps s
edit_steps trim adds s = add_step s
edit_steps trim (updates id value) s = update_step id value s
edit_steps trim (removes id) s = remove_step id s
edit_steps trim (goes_up id) s = move_step_up id s
edit_steps trim (goes_down id) s = move_step_down id s
edit_steps trim (drag_starts id) s = drag_start id s
edit_steps trim (drags_over target_index) s = drag_over target_index s
edit_steps trim (drag_leaves leaves) s = drag_leave leaves s
edit_steps trim drag_ends s = drag_end s

abbrev pub edit_all : (String → String) → List StepEdit → StepsEditor → StepsEditor
edit_all trim [] s = s
edit_all trim (e ∷ es) s = edit_all trim es (edit_steps trim e s)
