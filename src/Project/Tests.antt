-- ===== src/Project/Tests.antt =====
-- The theorem about the groups of stories, applied to a story and its task.
use pockode.Prelude.{
  ◌≡◌, none, some, List, [], ◌∷◌, String, Bool, keep, ◌===◌, ℕ, refl, ltb, true, false,
  if◌then◌else◌, arith,
}
use pockode.Ws.Watch.{get}
use pockode.Stores.Items.{Work, WorkType, WorkStatus}
use pockode.Project.{tasks_by_parent_id, story_groups}
use pockode.Project.Grouping.{inhabited, is_task_of, StoryGroups, groups_are_filters}
use pockode.Project.Newest.{IsOrder}

abbrev work : String → WorkType → String → WorkStatus → String → Work
work id type parent_id status updated_at = record {
  id = id;
  type = type;
  parent_id = some parent_id;
  agent_role_id = none;
  title = id;
  body = none;
  status = status;
  session_id = none;
  current_step = none;
  created_at = "2025-01-01";
  updated_at = updated_at;
}

abbrev works : List Work
works =
    work "w1" WorkType.story "" WorkStatus.closed "2025-01-02"
    ∷ work "w2" WorkType.task "w1" WorkStatus.closed "2025-01-03"
    ∷ work "w3" WorkType.story "" WorkStatus.waiting "2025-01-04"
    ∷ work "w4" WorkType.story "" WorkStatus.closed "2025-01-05"
    ∷ []

abbrev day : String → ℕ
day date = if date === "2025-01-02" then 2 else if date === "2025-01-05" then 5 else 0

abbrev is_before : String → String → Bool
is_before a b = ltb (day a) (day b)

is_asymmetric_days : (a b : ℕ) → ltb a b ≡ true → ltb b a ≡ false
is_asymmetric_days a b h = ground arith

is_total_days : (a b c : ℕ) → ltb a b ≡ false → ltb b c ≡ false → ltb a c ≡ false
is_total_days a b c h g = ground arith

days-IsOrder : IsOrder is_before
days-IsOrder = record {
  is_asymmetric = λ a b. is_asymmetric_days (day a) (day b);
  is_total = λ a b c. is_total_days (day a) (day b) (day c);
}

newest_closed :
    story_groups is_before works
    ≡ (WorkStatus.waiting, work "w3" WorkType.story "" WorkStatus.waiting "2025-01-04" ∷ [])
      ∷ (
        WorkStatus.closed,
        work "w4" WorkType.story "" WorkStatus.closed "2025-01-05"
            ∷ work "w1" WorkType.story "" WorkStatus.closed "2025-01-02"
            ∷ [],
      )
      ∷ []
unfolding story_groups
newest_closed = refl

groups_are_filters_example :
    (get "w1" (tasks_by_parent_id works) ≡ inhabited (keep (is_task_of "w1") works))
    × StoryGroups is_before works
        (WorkStatus.in_progress ∷ WorkStatus.waiting ∷ WorkStatus.needs_input ∷ WorkStatus.stopped
          ∷ WorkStatus.opened ∷ WorkStatus.closed ∷ [])
        (story_groups is_before works)
groups_are_filters_example = groups_are_filters is_before "w1" works days-IsOrder
