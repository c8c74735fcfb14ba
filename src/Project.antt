-- ===== src/Project.antt =====
-- web/src/components/Project/WorkListOverlay.tsx: the stories by status, and the tasks of each.
--
-- A status is a key of a map by its name. What `localeCompare` says of two dates is a parameter.
pub mod Grouping
pub mod Keys
pub mod Newest
mod Tests
use pockode.Prelude.{
  ℕ, Bool, true, false, ◌||◌, Option, none, some, List, [], ◌∷◌, ◌++◌, String, any, keep, length,
  is_some, is_truthy, if◌then◌else◌, ◌===◌,
}
use pockode.Ws.Watch.{get, set}
use pockode.Stores.Items.{
  Work, WorkType, story, task, WorkStatus, opened, in_progress, waiting, needs_input, stopped,
  closed,
}

-- `list.push(item)`, or a new list.
abbrev pub pushed {ℓ} : {A : Type ℓ} → Option (List A) → A → List A
pushed none item = item ∷ []
pushed (some items) item = items ++ item ∷ []

abbrev pub add_item {ℓ} :
    {A : Type ℓ} → String → A → List (String × List A) → List (String × List A)
add_item key item groups = set key (pushed (get key groups) item) groups

abbrev pub add_under {ℓ} :
    {A : Type ℓ} → Option String → A → List (String × List A) → List (String × List A)
add_under none item groups = groups
add_under (some key) item groups = add_item key item groups

-- The loop over the works, where only those with a key count.
abbrev pub group_from {ℓ} :
    {A : Type ℓ} → (A → Option String) → List A → List (String × List A) → List (String × List A)
group_from key [] groups = groups
group_from key (item ∷ items) groups = group_from key items (add_under (key item) item groups)

-- `w.type === "task" && w.parent_id`
abbrev pub task_parent : WorkType → Option String → Option String
task_parent task (some parent_id) = if is_truthy parent_id then some parent_id else none
task_parent _ _ = none

unfoldable pub tasks_by_parent_id : List Work → List (String × List Work)
tasks_by_parent_id works = group_from (λ (w : Work). task_parent w.type w.parent_id) works []

abbrev pub status_name : WorkStatus → String
status_name opened = "open"
status_name in_progress = "in_progress"
status_name waiting = "waiting"
status_name needs_input = "needs_input"
status_name stopped = "stopped"
status_name closed = "closed"

abbrev pub story_status : WorkType → WorkStatus → Option String
story_status story status = some (status_name status)
story_status task status = none

abbrev pub by_status : List Work → List (String × List Work)
by_status works = group_from (λ (w : Work). story_status w.type w.status) works []

abbrev pub status_group_order : List WorkStatus
status_group_order = in_progress ∷ waiting ∷ needs_input ∷ stopped ∷ opened ∷ closed ∷ []

abbrev pub is_closed : WorkStatus → Bool
is_closed closed = true
is_closed _ = false

module _ (is_before : String → String → Bool) where
  abbrev pub insert_newest : Work → List Work → List Work
  insert_newest w [] = w ∷ []
  insert_newest w (v ∷ works) =
      if is_before v.updated_at w.updated_at then w ∷ v ∷ works else v ∷ insert_newest w works

  -- `.sort((a, b) => b.updated_at.localeCompare(a.updated_at))`, with those that are sorted already.
  abbrev pub newest_first : List Work → List Work → List Work
  newest_first sorted [] = sorted
  newest_first sorted (w ∷ works) = newest_first (insert_newest w sorted) works

  abbrev pub stories_shown : WorkStatus → List Work → List Work
  stories_shown status stories = if is_closed status then newest_first [] stories else stories

  abbrev pub with_stories :
      WorkStatus
      → Option (List Work)
      → List (WorkStatus × List Work)
      → List (WorkStatus × List Work)
  with_stories status none rest = rest
  with_stories status (some stories) rest = (status, stories_shown status stories) ∷ rest

  abbrev pub groups_in : List WorkStatus → List (String × List Work) → List (WorkStatus × List Work)
  groups_in [] groups = []
  groups_in (status ∷ order) groups =
      with_stories status (get (status_name status) groups) (groups_in order groups)

  unfoldable pub story_groups : List Work → List (WorkStatus × List Work)
  story_groups works = groups_in status_group_order (by_status works)

-- `StoryRow`: the counts of a story's tasks, and whether it or a task of it waits for input.
abbrev pub tasks_of : Option (List Work) → List Work
tasks_of none = []
tasks_of (some tasks) = tasks

unfoldable pub total_tasks : Option (List Work) → ℕ
total_tasks tasks = length (tasks_of tasks)

unfoldable pub closed_tasks : Option (List Work) → ℕ
closed_tasks tasks = length (keep (λ (t : Work). is_closed t.status) (tasks_of tasks))

abbrev pub is_needs_input : WorkStatus → Bool
is_needs_input needs_input = true
is_needs_input _ = false

unfoldable pub shows_needs_input : Work → Option (List Work) → Bool
shows_needs_input w tasks =
    is_needs_input w.status || any (λ (t : Work). is_needs_input t.status) (tasks_of tasks)
