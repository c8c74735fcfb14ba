-- ===== src/QuestionForm.antt =====
-- web/src/components/Chat/AskUserQuestionItem.tsx: the form that answers the agent's questions.
--
-- The states are a record, the objects that map the text of a question to an answer association
-- lists. `trim` stands for `String.prototype.trim`.
pub mod Labels
pub mod Submission
pub mod Toggling
pub mod Clicks
mod Tests
use Prim.Native.String
use pockode.Prelude.{
  ℕ, Bool, true, false, not, ◌&&◌, ◌||◌, Option, none, some, List, [], ◌∷◌, ◌++◌, String, any,
  is_truthy, ◌===◌, get_or, find_index, remove_at, if◌then◌else◌,
}
use pockode.Ws.Watch.{get, set}
use pockode.Chat.Message.{QuestionStatus, AskUserQuestion}
use pockode.QuestionForm.Labels.{split, join}

pub record QuestionForm : Type 0 where
  pub answers : List (String × String)
  pub other_selected : List (String × Bool)
  pub other_text : List (String × String)

-- `answers[question] || ""`
abbrev pub text_at : String → List (String × String) → String
text_at question entries = get_or (get question entries) ""

abbrev pub is_other : String → QuestionForm → Bool
is_other question s = get_or (get question s.other_selected) false

-- `current ? current.split(", ") : []`
abbrev pub labels_of : String → List String
labels_of current = if is_truthy current then split current else []

abbrev pub splice_or_push : (index : Option ℕ) → String → List String → List String
splice_or_push none label labels = labels ++ label ∷ []
splice_or_push (some index) label labels = remove_at index labels

abbrev pub toggled : String → List String → List String
toggled label labels = splice_or_push (find_index (λ l. l === label) labels) label labels

unfoldable pub handle_option_select :
    (question_text label : String) (multi_select : Bool) → QuestionForm → QuestionForm
handle_option_select question_text label multi_select s =
    if multi_select
    then record s {
      answers =
          set question_text (join (toggled label (labels_of (text_at question_text s.answers))))
            s.answers;
    }
    else record s {
      other_selected = set question_text false s.other_selected;
      answers = set question_text label s.answers;
    }

unfoldable pub handle_other_select :
    (question_text : String) (multi_select : Bool) → QuestionForm → QuestionForm
handle_other_select question_text multi_select s =
    if multi_select
    then record s {
      other_selected = set question_text (not (is_other question_text s)) s.other_selected;
    }
    else record s {
      other_selected = set question_text true s.other_selected;
      answers = set question_text "" s.answers;
    }

unfoldable pub handle_other_text_change :
    (question_text content : String) → QuestionForm → QuestionForm
handle_other_text_change question_text content s = record s {
  other_text = set question_text content s.other_text;
}

-- `otherText[question]?.trim()` as a condition.
abbrev pub is_written : (String → String) → Option String → Bool
is_written trim none = false
is_written trim (some content) = is_truthy (trim content)

-- `parts`, what is chosen first.
abbrev pub answer_parts : (String → String) → String → QuestionForm → List String
answer_parts trim question s =
    let answer = text_at question s.answers in
    let chosen = if is_truthy answer then answer ∷ [] else [] in
    let other = String.◌++◌ "Other: " (text_at question s.other_text) in
    chosen
    ++ (if is_other question s && is_written trim (get question s.other_text)
        then other ∷ []
        else [])

unfoldable pub final_answer : (String → String) → AskUserQuestion → QuestionForm → String
final_answer trim q s =
    if q.multi_select
    then join (answer_parts trim q.question s)
    else if is_other q.question s
    then String.◌++◌ "Other: " (text_at q.question s.other_text)
    else text_at q.question s.answers

-- The loop of `handleSubmit`: of two questions with one text, the later one's answer is sent.
abbrev pub final_answers :
    (String → String)
    → List AskUserQuestion
    → QuestionForm
    → List (String × String)
    → List (String × String)
final_answers trim [] s answers = answers
final_answers trim (q ∷ questions) s answers =
    final_answers trim questions s (set q.question (final_answer trim q s) answers)

unfoldable pub handle_submit :
    (String → String) → List AskUserQuestion → QuestionForm → List (String × String)
handle_submit trim questions s = final_answers trim questions s []

unfoldable pub is_option_selected :
    (question_text label : String) (multi_select : Bool) → QuestionForm → Bool
is_option_selected question_text label multi_select s =
    let answer = text_at question_text s.answers in
    if not multi_select && is_other question_text s
    then false
    else if multi_select
    then any (λ l. l === label) (split answer)
    else answer === label

unfoldable pub can_answer : (String → String) → AskUserQuestion → QuestionForm → Bool
can_answer trim q s =
    let is_chosen = is_truthy (text_at q.question s.answers) in
    let is_other_written = is_truthy (trim (text_at q.question s.other_text)) in
    if q.multi_select
    then is_chosen || is_other q.question s && is_other_written
    else if is_other q.question s
    then is_other_written
    else is_chosen

abbrev pub can_submit : (String → String) → List AskUserQuestion → QuestionForm → Bool
can_submit trim [] s = true
can_submit trim (q ∷ questions) s = can_answer trim q s && can_submit trim questions s

-- What is shown of a question that is no longer pending.
unfoldable pub shown_answer :
    QuestionStatus → (saved_answers : Option (List (String × String))) → String → String
shown_answer status saved_answers question =
    let saved = text_at question (get_or saved_answers []) in
    if is_truthy saved then saved else elim status [
      | QuestionStatus.cancelled ↦ "(cancelled)"
      | QuestionStatus.expired ↦ "(expired)"
      | _ ↦ "(no answer)"
    ]

abbrev pub header_summary : List AskUserQuestion → String
header_summary [] = "Question"
header_summary (q ∷ questions) = q.header

-- What the user does to the form.
pub data FormEvent : Type 0 where
  selects : (question label : String) (multi_select : Bool) → FormEvent
  selects_other : (question : String) (multi_select : Bool) → FormEvent
  writes_other : (question content : String) → FormEvent

abbrev pub fill : FormEvent → QuestionForm → QuestionForm
fill (selects question label multi_select) s = handle_option_select question label multi_select s
fill (selects_other question multi_select) s = handle_other_select question multi_select s
fill (writes_other question content) s = handle_other_text_change question content s

abbrev pub fill_all : List FormEvent → QuestionForm → QuestionForm
fill_all [] s = s
fill_all (e ∷ es) s = fill_all es (fill e s)

abbrev pub empty_form : QuestionForm
empty_form = record { answers = []; other_selected = []; other_text = [] }
