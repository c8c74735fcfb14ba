-- ===== src/Project/Grouping.antt =====
-- web/src/components/Project/WorkListOverlay.tsx: the groups, and the filters that they come to.
use mathlib.Core.List.{cons≢nil}
use pockode.Prelude.{
  ◌≡◌, ◌≢◌, refl, ◌∙◌, ap, Bool, true, false, ◌&&◌, Option, none, some, List, [], ◌∷◌, String, keep,
  ◌===◌, inl, inr, Bool-cases, sym, is_truthy,
}
use pockode.Ws.Watch.{get}
use pockode.Stores.Items.{
  Work, WorkType, story, task, WorkStatus, opened, in_progress, waiting, needs_input, stopped,
  closed,
}
use pockode.Project.{
  task_parent, tasks_by_parent_id, status_name, story_status, by_status, status_group_order,
  stories_shown, with_stories, groups_in, story_groups,
}
use pockode.Project.Keys.{is_under, added, get-group_from}
use pockode.Project.Newest.{IsOrder, IsNewestFirst, newest_first_lem}

-- The work is a task with a parent, which has the id.
abbrev pub is_task_under : WorkType → Option String → String → Bool
is_task_under task (some parent_id) id = is_truthy parent_id && (parent_id === id)
is_task_under _ _ id = false

abbrev pub is_task_of : String → Work → Bool
is_task_of id w = is_task_under w.type w.parent_id id

abbrev pub is_same : WorkStatus → WorkStatus → Bool
is_same opened opened = true
is_same in_progress in_progress = true
is_same waiting waiting = true
is_same needs_input needs_input = true
is_same stopped stopped = true
is_same closed closed = true
is_same _ _ = false

abbrev pub is_story : WorkType → Bool
is_story story = true
is_story task = false

abbrev pub is_story_with : WorkStatus → Work → Bool
is_story_with status w = is_story w.type && is_same w.status status

-- A list that is not empty.
abbrev pub inhabited : List Work → Option (List Work)
inhabited [] = none
inhabited (w ∷ works) = some (w ∷ works)

added-none : (works : List Work) → added none works ≡ inhabited works
added-none [] = refl
added-none (w ∷ works) = refl

keep-same :
    (p q : Work → Bool)
    → ((w : Work) → p w ≡ q w)
    → (works : List Work) → keep p works ≡ keep q works
keep-same p q same [] = refl
keep-same p q same (w ∷ works) = rw (same w, keep-same p q same works) refl

is_under-task :
    (id : String) (type : WorkType) (parent_id : Option String)
    → is_under id (task_parent type parent_id) ≡ is_task_under type parent_id id
is_under-task id story parent_id = refl
is_under-task id task none = refl
is_under-task id task (some parent_id) = elim (Bool-cases (is_truthy parent_id)) [
  | inl e ↦ rw (e) refl
  | inr e ↦ rw (e) refl
]

for_all_statuses :
    (P : WorkStatus → Type 0)
    → P opened
    → P in_progress
    → P waiting
    → P needs_input
    → P stopped
    → P closed
    → (status : WorkStatus) → P status
for_all_statuses P o p w n s c opened = o
for_all_statuses P o p w n s c in_progress = p
for_all_statuses P o p w n s c waiting = w
for_all_statuses P o p w n s c needs_input = n
for_all_statuses P o p w n s c stopped = s
for_all_statuses P o p w n s c closed = c

-- No two statuses have the same name.
names_differ :
    (own status : WorkStatus) → (status_name own === status_name status) ≡ is_same own status
names_differ opened =
    for_all_statuses (λ s. (status_name opened === status_name s) ≡ is_same opened s) refl refl refl
      refl refl refl
names_differ in_progress =
    for_all_statuses (λ s. (status_name in_progress === status_name s) ≡ is_same in_progress s) refl
      refl refl refl refl refl
names_differ waiting =
    for_all_statuses (λ s. (status_name waiting === status_name s) ≡ is_same waiting s) refl refl
      refl refl refl refl
names_differ needs_input =
    for_all_statuses (λ s. (status_name needs_input === status_name s) ≡ is_same needs_input s) refl
      refl refl refl refl refl
names_differ stopped =
    for_all_statuses (λ s. (status_name stopped === status_name s) ≡ is_same stopped s) refl refl
      refl refl refl refl
names_differ closed =
    for_all_statuses (λ s. (status_name closed === status_name s) ≡ is_same closed s) refl refl refl
      refl refl refl

is_under-story :
    (status : WorkStatus) (type : WorkType) (own : WorkStatus)
    → is_under (status_name status) (story_status type own) ≡ (is_story type && is_same own status)
is_under-story status story own = names_differ own status
is_under-story status task own = refl

tasks_found :
    (id : String) (works : List Work)
    → get id (tasks_by_parent_id works) ≡ inhabited (keep (is_task_of id) works)
unfolding tasks_by_parent_id
tasks_found id works =
    let own = λ (w : Work). is_under id (task_parent w.type w.parent_id) in
    get-group_from (λ (w : Work). task_parent w.type w.parent_id) id works []
    ∙ added-none (keep own works)
    ∙ ap inhabited
        (keep-same own (is_task_of id) (λ (w : Work). is_under-task id w.type w.parent_id) works)

stories_found :
    (status : WorkStatus) (works : List Work)
    → get (status_name status) (by_status works) ≡ inhabited (keep (is_story_with status) works)
stories_found status works =
    let own = λ (w : Work). is_under (status_name status) (story_status w.type w.status) in
    get-group_from (λ (w : Work). story_status w.type w.status) (status_name status) works []
    ∙ added-none (keep own works)
    ∙ ap inhabited (
        keep-same own (is_story_with status) (λ (w : Work). is_under-story status w.type w.status)
          works)

module _ (is_before : String → String → Bool) where
  -- How the stories with a status are shown.
  abbrev pub IsShown : WorkStatus → (stories shown : List Work) → Type 0
  IsShown closed stories shown = IsNewestFirst is_before stories shown
  IsShown _ stories shown = shown ≡ stories

  -- The groups of the works for the statuses in an order.
  pub data StoryGroups (works : List Work)
      : List WorkStatus → List (WorkStatus × List Work) → Type 0 where
    all_shown : StoryGroups works [] []
    no_group :
        (status : WorkStatus) (order : List WorkStatus) (groups : List (WorkStatus × List Work))
        → keep (is_story_with status) works ≡ []
        → StoryGroups works order groups
        → StoryGroups works (status ∷ order) groups
    group :
        (status : WorkStatus) (shown : List Work) (order : List WorkStatus)
        (groups : List (WorkStatus × List Work))
        → keep (is_story_with status) works ≢ []
        → IsShown status (keep (is_story_with status) works) shown
        → StoryGroups works order groups
        → StoryGroups works (status ∷ order) ((status, shown) ∷ groups)

  module _ (o : IsOrder is_before) where
    stories_shown-IsShown :
        (status : WorkStatus) (stories : List Work)
        → IsShown status stories (stories_shown is_before status stories)
    stories_shown-IsShown closed stories = newest_first_lem is_before o stories
    stories_shown-IsShown opened stories = refl
    stories_shown-IsShown in_progress stories = refl
    stories_shown-IsShown waiting stories = refl
    stories_shown-IsShown needs_input stories = refl
    stories_shown-IsShown stopped stories = refl

    with_stories-StoryGroups :
        (works : List Work) (status : WorkStatus) (order : List WorkStatus)
        (groups : List (WorkStatus × List Work)) (stories : List Work)
        → keep (is_story_with status) works ≡ stories
        → StoryGroups works order groups
        → StoryGroups works
            (status ∷ order)
            (with_stories is_before status (inhabited stories) groups)
    with_stories-StoryGroups works status order groups [] e g = no_group status order groups e g
    with_stories-StoryGroups works status order groups (w ∷ stories) e g =
        let shown = stories_shown is_before status (w ∷ stories) in
        group status shown order groups (λ n. cons≢nil (sym e ∙ n))
          (rw (e) (stories_shown-IsShown status (w ∷ stories))) g

    groups_in-StoryGroups :
        (works : List Work) (order : List WorkStatus)
        → StoryGroups works order (groups_in is_before order (by_status works))
    groups_in-StoryGroups works [] = all_shown
    groups_in-StoryGroups works (status ∷ order) = rw (stories_found status works) (
        with_stories-StoryGroups works status order (groups_in is_before order (by_status works))
          (keep (is_story_with status) works) refl (groups_in-StoryGroups works order))

-- A story's tasks are the works of type task with its id as their parent, where the id is not empty,
-- in the order of the list. The groups on the page are, in the order of in progress, waiting, needs
-- input, stopped, open and closed, one for each status that stories have, and no other. Its stories
-- are those with the status in the order of the list, but those that are closed come with the newest
-- first, and in the order of the list where neither date is before the other, provided that the
-- comparison of dates is an order.
pub groups_are_filters :
    (is_before : String → String → Bool) (id : String) (works : List Work)
    → IsOrder is_before
    → (get id (tasks_by_parent_id works) ≡ inhabited (keep (is_task_of id) works))
      × StoryGroups is_before works
          (in_progress ∷ waiting ∷ needs_input ∷ stopped ∷ opened ∷ closed ∷ [])
          (story_groups is_before works)
unfolding story_groups
groups_are_filters is_before id works o =
    (tasks_found id works, groups_in-StoryGroups is_before o works status_group_order)
