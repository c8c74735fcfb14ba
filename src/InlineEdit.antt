-- ===== src/InlineEdit.antt =====
-- web/src/hooks/useInlineEdit.ts: a value that is edited where it is shown.
--
-- The options of the hook are the first parameters. A save is cut in two: what it does up to its
-- request, and what the answer does. `trim` stands for `String.prototype.trim`.
pub mod Following
mod Tests
use pockode.Prelude.{
  Bool, true, false, not, ◌&&◌, Option, none, some, List, [], ◌∷◌, String, is_truthy, ◌===◌, get_or,
  if◌then◌else◌,
}

pub record InlineEdit : Type 0 where
  pub initial_value : String
  pub editing : Bool
  pub value : String
  pub saving : Bool
  pub error : Option String

-- The request, if there is one, and the state.
unfoldable pub save :
    (String → String) → (allow_empty : Bool) → InlineEdit → Option String × InlineEdit
save trim allow_empty s =
    let trimmed = trim s.value in
    if not allow_empty && not (is_truthy trimmed)
    then (none, record s { editing = false })
    else if trimmed === trim s.initial_value
    then (none, record s { editing = false })
    else (some trimmed, record s { error = none; saving = true })

unfoldable pub on_saved : InlineEdit → InlineEdit
on_saved s = record s { editing = false; saving = false }

unfoldable pub on_save_failed : (err : Option String) → InlineEdit → InlineEdit
on_save_failed err s = record s { error = some (get_or err "Failed to save"); saving = false }

unfoldable pub cancel : InlineEdit → InlineEdit
cancel s = record s { value = s.initial_value; editing = false; error = none }

abbrev pub same_editing : Bool → Bool → Bool
same_editing true b = b
same_editing false b = not b

-- The effect on the initial value and on `editing`, which runs where one of them changed.
unfoldable pub follow_value : (before after : InlineEdit) → InlineEdit
follow_value before after =
    if (before.initial_value === after.initial_value) && same_editing before.editing after.editing
    then after
    else if after.editing
    then after
    else record after { value = after.initial_value }

-- What happens to an edited value. It is typed into while it is edited.
pub data EditEvent : Type 0 where
  starts : EditEvent
  types : (value : String) → EditEvent
  saves : EditEvent
  saved : EditEvent
  fails : (err : Option String) → EditEvent
  cancels : EditEvent
  changes : (initial_value : String) → EditEvent

abbrev pub on_edit : (String → String) → Bool → EditEvent → InlineEdit → InlineEdit
on_edit trim allow_empty starts s = record s { editing = true }
on_edit trim allow_empty (types value) s = if s.editing then record s { value = value } else s
on_edit trim allow_empty saves s = (save trim allow_empty s).1
on_edit trim allow_empty saved s = on_saved s
on_edit trim allow_empty (fails err) s = on_save_failed err s
on_edit trim allow_empty cancels s = cancel s
on_edit trim allow_empty (changes initial_value) s = record s { initial_value = initial_value }

abbrev pub on_edits : (String → String) → Bool → List EditEvent → InlineEdit → InlineEdit
on_edits trim allow_empty [] s = s
on_edits trim allow_empty (e ∷ es) s =
    on_edits trim allow_empty es (follow_value s (on_edit trim allow_empty e s))

abbrev pub fresh_edit : String → InlineEdit
fresh_edit initial_value = record {
  initial_value = initial_value;
  editing = false;
  value = initial_value;
  saving = false;
  error = none;
}
