-- ===== src/WorkDetail/Tests.antt =====
-- The theorems about the page of a work, applied to a task that waits in the last of its three steps, by a number that is past it.
use pockode.Prelude.{pos, ◌<◌, ◌≡◌, refl, none, some, List, [], ◌∷◌, String, length, arith}
use pockode.Stores.Items.{Work, task, waiting}
use pockode.WorkDetail.{current_step_of, completed, current, step_marks}
use pockode.WorkDetail.Marks.{clamp, expected_marks, step_marks_lem}

abbrev work : Work
work = record {
  id = "w1";
  type = task;
  parent_id = none;
  agent_role_id = some "r1";
  title = "Fix";
  body = none;
  status = waiting;
  session_id = none;
  current_step = some (pos 7);
  created_at = "";
  updated_at = "";
}

abbrev steps : List String
steps = "plan" ∷ "build" ∷ "test" ∷ []

marks : step_marks work steps ≡ completed ∷ completed ∷ current ∷ []
unfolding step_marks
marks = refl

step_marks_lem_example :
    let c = clamp (length steps) work.current_step in
    (current_step_of (length steps) work ≡ c)
    × (c < length steps)
    × (step_marks work steps ≡ expected_marks work.status c (length steps))
step_marks_lem_example = step_marks_lem work steps (ground arith)
