-- ===== src/WorkDetail.antt =====
-- web/src/components/Project/WorkDetailOverlay.tsx: the page of one story or task.
--
-- Its bar of actions, the choice of its role, and the marks of its steps. An action is cut in two:
-- what it does up to its request, and what the answer does, an error being its text.
pub mod Marks
pub mod Offers
mod Tests
use Prim.Native.String
use pockode.Prelude.{
  ℕ, suc, ◌+◌, ◌-◌, pos, less_one, min, max_zero, Bool, true, false, not, ◌&&◌, ◌||◌, Option, none,
  some, List, [], ◌∷◌, String, length, ltb, nat_eq, is_truthy, ◌===◌, get_or, keep, if◌then◌else◌,
}
use pockode.Stores.Items.{
  WorkStatus, opened, in_progress, waiting, needs_input, stopped, closed, Work,
}

-- `childCount` and the list of them are `works` whose parent the work is.
abbrev pub is_child_of : String → Work → Bool
is_child_of work_id work = elim work.parent_id [ none ↦ false | some id ↦ id === work_id ]

abbrev pub children : String → List Work → List Work
children work_id works = keep (is_child_of work_id) works

pub data WorkAction : Type 0 where
  start stop reopen : WorkAction

pub record ActionBar : Type 0 where
  pub is_starting : Bool
  pub is_stopping : Bool
  pub is_reopening : Bool
  pub show_delete_confirm : Bool
  pub error : Option String

abbrev pub is_running : WorkAction → ActionBar → Bool
is_running start s = s.is_starting
is_running stop s = s.is_stopping
is_running reopen s = s.is_reopening

abbrev pub set_running : WorkAction → Bool → ActionBar → ActionBar
set_running start b s = record s { is_starting = b }
set_running stop b s = record s { is_stopping = b }
set_running reopen b s = record s { is_reopening = b }

abbrev pub failure : WorkAction → String
failure start = "Failed to start: "
failure stop = "Failed to stop: "
failure reopen = "Failed to reopen: "

-- `handleStart`, `handleStop` and `handleReopen`, up to their requests.
unfoldable pub handle_action : WorkAction → ActionBar → ActionBar
handle_action action s = set_running action true (record s { error = none })

-- `none` for a request that succeeds.
unfoldable pub on_action_answer : WorkAction → (err : Option String) → ActionBar → ActionBar
on_action_answer action none s = set_running action false s
on_action_answer action (some err) s =
    set_running action false (record s { error = some (String.◌++◌ (failure action) err) })

-- `handleDelete` after its answer; is the page left?
unfoldable pub on_delete_answer : (err : Option String) → ActionBar → Bool × ActionBar
on_delete_answer none s = (true, record s { show_delete_confirm = false })
on_delete_answer (some err) s = (
  false,
  record s { error = some (String.◌++◌ "Failed to delete: " err); show_delete_confirm = false },
)

-- `showStart`, `showStop` and `showReopen`.
abbrev pub is_offered : WorkAction → WorkStatus → Bool
is_offered start opened = true
is_offered start stopped = true
is_offered stop in_progress = true
is_offered stop waiting = true
is_offered stop needs_input = true
is_offered reopen closed = true
is_offered _ _ = false

abbrev pub can_delete : WorkStatus → Bool
can_delete closed = false
can_delete _ = true

-- A button is shown where its action is offered, and disabled while it runs.
abbrev pub is_clickable : WorkAction → WorkStatus → ActionBar → Bool
is_clickable action status s = is_offered action status && not (is_running action s)

pub record RoleSection : Type 0 where
  pub editing_role : Bool
  pub saving_role : Bool
  pub role_error : Option String

-- `handleRoleChange` up to its request, which it makes or not.
unfoldable pub handle_role_change :
    (agent_role_id : Option String) (new_role_id : String) → RoleSection → Bool × RoleSection
handle_role_change agent_role_id new_role_id s =
    if not (is_truthy new_role_id)
      || (elim agent_role_id [ none ↦ false | some id ↦ new_role_id === id ])
    then (false, record s { editing_role = false })
    else (true, record s { role_error = none; saving_role = true })

unfoldable pub on_role_answer : (err : Option (Option String)) → RoleSection → RoleSection
on_role_answer none s = record s { editing_role = false; saving_role = false }
on_role_answer (some err) s = record s {
  role_error = some (get_or err "Failed to update role");
  saving_role = false;
}

-- `currentStep`
abbrev pub current_step_of : (count : ℕ) → Work → ℕ
current_step_of count work = max_zero (min (get_or work.current_step (pos 0)) (less_one count))

pub data StepMark : Type 0 where
  completed current upcoming : StepMark

abbrev pub is_active_state : WorkStatus → Bool
is_active_state opened = false
is_active_state closed = false
is_active_state _ = true

abbrev pub is_closed : WorkStatus → Bool
is_closed closed = true
is_closed _ = false

-- `StepItem`
abbrev pub step_mark : WorkStatus → (current_step index : ℕ) → StepMark
step_mark status current_step index =
    if is_closed status || ltb index current_step
    then completed
    else if is_active_state status && nat_eq index current_step
    then current
    else upcoming

-- The marks of the list, the first of which is at `index`.
abbrev pub marks_from : WorkStatus → (current_step index : ℕ) → List String → List StepMark
marks_from status current_step index [] = []
marks_from status current_step index (step ∷ steps) =
    step_mark status current_step index ∷ marks_from status current_step (suc index) steps

unfoldable pub step_marks : Work → (steps : List String) → List StepMark
step_marks work steps = marks_from work.status (current_step_of (length steps) work) 0 steps
