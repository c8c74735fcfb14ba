-- ===== src/QuestionForm/Submission.antt =====
-- web/src/components/Chat/AskUserQuestionItem.tsx: what the form sends where it may be submitted.
use Prim.Native.Char.{Char}
use Prim.Native.String
use package.text.Mathlib.TextLemmas.{cons-append as cons-concat, cons≢nil}
use pockode.Prelude.{
  ◌⊎◌, ◌≡◌, refl, ap, Bool, true, false, ◌&&◌, ◌||◌, Option, none, some, List, [], ◌∷◌, ◌++◌,
  if-of_false, String, is_truthy, ◌===◌, ===_iff, Bool-cases, inl, inr, if◌then◌else◌, get_or,
  arith,
}
use pockode.Ws.Watch.{get, set}
use pockode.Ws.Subscribe.Delivery.{get-set}
use pockode.Chat.Message.{AskUserQuestion}
use pockode.QuestionForm.Labels.{join}
use pockode.QuestionForm.{
  QuestionForm, text_at, is_other, is_written, final_answer, final_answers, handle_submit,
  can_answer, can_submit,
}

is_truthy-cons : (c : Char) (rest : String) → is_truthy (String.◌∷◌ c rest) ≡ true
is_truthy-cons c rest = elim (Bool-cases (String.◌∷◌ c rest === "")) [
  | inl e ↦ absurd (cons≢nil ((===_iff (String.◌∷◌ c rest) "").0 e))
  | inr e ↦ if-of_false (String.◌∷◌ c rest === "") false true e
]

is_truthy-concat :
    (first rest : String) → is_truthy first ≡ true → is_truthy (String.◌++◌ first rest) ≡ true
is_truthy-concat String.[] rest h = ground arith
is_truthy-concat (String.◌∷◌ c first) rest h =
    rw (cons-concat c first rest) (is_truthy-cons c (String.◌++◌ first rest))

pub is_truthy-join :
    (first : String) (rest : List String)
    → is_truthy first ≡ true
    → is_truthy (join (first ∷ rest)) ≡ true
is_truthy-join first [] h = h
is_truthy-join first (next ∷ rest) h =
    is_truthy-concat first (String.◌++◌ ", " (join (next ∷ rest))) h

-- The text that is trimmed for the button is that which is trimmed for the answer.
is_written-of_truthy :
    (trim : String → String) (content : Option String)
    → trim "" ≡ ""
    → is_truthy (trim (get_or content "")) ≡ true
    → is_written trim content ≡ true
is_written-of_truthy trim none e h = ground (arith, ap is_truthy e)
is_written-of_truthy trim (some content) e h = h

is_truthy-other : (content : String) → is_truthy (String.◌++◌ "Other: " content) ≡ true
is_truthy-other content = is_truthy-concat "Other: " content refl

===_refl : (a : String) → a === a ≡ true
===_refl a = (===_iff a a).1 refl

both : {a b : Bool} → a ≡ true → b ≡ true → a && b ≡ true
both h k = ground arith

both_left : (a b : Bool) → a && b ≡ true → a ≡ true
both_left true b h = refl
both_left false b h = h

both_right : (a b : Bool) → a && b ≡ true → b ≡ true
both_right true b h = h
both_right false b h = ground arith

is_second : (a b : Bool) → a || b ≡ true → a ≡ false → b ≡ true
is_second a b h e = ground arith

joined-truthy :
    (chosen other : String) (b : Bool)
    → is_truthy other ≡ true
    → is_truthy chosen || b ≡ true
    → is_truthy
        (join ((if is_truthy chosen then chosen ∷ [] else []) ++ (if b then other ∷ [] else [])))
      ≡ true
joined-truthy chosen other b o h = elim (Bool-cases (is_truthy chosen)) [
  | inl e ↦ rw e (is_truthy-join chosen (if b then other ∷ [] else []) e)
  | inr e ↦ rw (e, is_second (is_truthy chosen) b h e) o
]

chosen_or_written :
    (a o w v : Bool) → (w ≡ true → v ≡ true) → a || o && w ≡ true → a || o && v ≡ true
chosen_or_written true o w v k h = refl
chosen_or_written false true w v k h = k h
chosen_or_written false false w v k h = h

-- What is sent for a question of either kind, where `w` is the button's test of the other answer
-- and `v` that of the answer itself.
answer-truthy :
    (multi o w v : Bool) (chosen other : String)
    → (w ≡ true → v ≡ true)
    → is_truthy other ≡ true
    → (if multi then is_truthy chosen || o && w else if o then w else is_truthy chosen) ≡ true
    → is_truthy (
        if multi
        then join
            ((if is_truthy chosen then chosen ∷ [] else []) ++ (if o && v then other ∷ [] else []))
        else if o
        then other
        else chosen)
      ≡ true
answer-truthy true o w v chosen other k t h =
    joined-truthy chosen other (o && v) t (chosen_or_written (is_truthy chosen) o w v k h)
answer-truthy false true w v chosen other k t h = t
answer-truthy false false w v chosen other k t h = h

final_answer-truthy :
    (trim : String → String) (q : AskUserQuestion) (s : QuestionForm)
    → trim "" ≡ ""
    → can_answer trim q s ≡ true
    → is_truthy (final_answer trim q s) ≡ true
unfolding final_answer can_answer
final_answer-truthy trim q s e h =
    let content = get q.question s.other_text in
    answer-truthy q.multi_select (is_other q.question s) (is_truthy (trim (get_or content "")))
      (is_written trim content) (text_at q.question s.answers)
      (String.◌++◌ "Other: " (get_or content "")) (is_written-of_truthy trim content e)
      (is_truthy-other (get_or content "")) h

-- Is there a text for the question in what is sent?
abbrev pub is_answered : List (String × String) → String → Bool
is_answered answers question = is_truthy (text_at question answers)

is_truthy-if :
    (b : Bool) (content : String) (o : Option String)
    → is_truthy content ≡ true
    → (b ≡ true) ⊎ (is_truthy (get_or o "") ≡ true)
    → is_truthy (get_or (if b then some content else o) "") ≡ true
is_truthy-if true content o t h = t
is_truthy-if false content o t (inl e) = ground arith
is_truthy-if false content o t (inr h) = h

is_answered-set :
    (i j content : String) (answers : List (String × String))
    → is_truthy content ≡ true
    → (i === j ≡ true) ⊎ (is_answered answers j ≡ true)
    → is_answered (set i content answers) j ≡ true
is_answered-set i j content answers t h =
    rw (get-set i j content answers) (is_truthy-if (i === j) content (get j answers) t h)

final_answers-keeps :
    (trim : String → String) (questions : List AskUserQuestion) (s : QuestionForm) (j : String)
    (answers : List (String × String))
    → trim "" ≡ ""
    → can_submit trim questions s ≡ true
    → is_answered answers j ≡ true
    → is_answered (final_answers trim questions s answers) j ≡ true
final_answers-keeps trim [] s j answers e h k = k
final_answers-keeps trim (q ∷ questions) s j answers e h k =
    let t =
      final_answer-truthy trim q s e
        (both_left (can_answer trim q s) (can_submit trim questions s) h) in
    final_answers-keeps trim questions s j (set q.question (final_answer trim q s) answers) e
      (both_right (can_answer trim q s) (can_submit trim questions s) h)
      (is_answered-set q.question j (final_answer trim q s) answers t (inr k))

abbrev pub all_answered : List AskUserQuestion → List (String × String) → Bool
all_answered [] answers = true
all_answered (q ∷ questions) answers =
    is_answered answers q.question && all_answered questions answers

final_answers-all_answered :
    (trim : String → String) (questions : List AskUserQuestion) (s : QuestionForm)
    (answers : List (String × String))
    → trim "" ≡ ""
    → can_submit trim questions s ≡ true
    → all_answered questions (final_answers trim questions s answers) ≡ true
final_answers-all_answered trim [] s answers e h = refl
final_answers-all_answered trim (q ∷ questions) s answers e h =
    let t =
      final_answer-truthy trim q s e
        (both_left (can_answer trim q s) (can_submit trim questions s) h) in
    let next = set q.question (final_answer trim q s) answers in
    both
      (final_answers-keeps trim questions s q.question next e
        (both_right (can_answer trim q s) (can_submit trim questions s) h)
        (is_answered-set q.question q.question (final_answer trim q s) answers t
          (inl (===_refl q.question))))
      (final_answers-all_answered trim questions s next e
        (both_right (can_answer trim q s) (can_submit trim questions s) h))

-- Where the button that submits the form is enabled, what is sent has a text that is not empty for
-- each of the questions, those that share their text included.
pub submitted_answers :
    (trim : String → String) (questions : List AskUserQuestion) (s : QuestionForm)
    → trim "" ≡ ""
    → can_submit trim questions s ≡ true
    → all_answered questions (handle_submit trim questions s) ≡ true
unfolding handle_submit
submitted_answers trim questions s e h = final_answers-all_answered trim questions s [] e h
