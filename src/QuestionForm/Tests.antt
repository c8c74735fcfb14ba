-- ===== src/QuestionForm/Tests.antt =====
-- The theorems about the form, applied to a question with several answers and one with one.
use pockode.Prelude.{arith, ◌≡◌, refl, true, false, List, [], ◌∷◌, String}
use pockode.Chat.Message.{AskUserQuestion}
use pockode.QuestionForm.Submission.{submitted_answers, all_answered}
use pockode.QuestionForm.Clicks.{chosen_by_parity, is_odd}
use pockode.QuestionForm.{
  can_answer, QuestionForm, FormEvent, selects, selects_other, writes_other, fill_all, empty_form,
  handle_submit, is_option_selected, handle_option_select, handle_other_select,
  handle_other_text_change, final_answer,
}

abbrev trim : String → String
trim s = s

abbrev colors : AskUserQuestion
colors = record {
  question = "Which colors?";
  header = "Colors";
  options =
      record { label = "red"; description = "" } ∷ record { label = "blue"; description = "" } ∷ [];
  multi_select = true;
}

abbrev size : AskUserQuestion
size = record {
  question = "Which size?";
  header = "Size";
  options = record { label = "S"; description = "" } ∷ [];
  multi_select = false;
}

abbrev clicks : List FormEvent
clicks =
    selects "Which colors?" "red" true
    ∷ selects "Which colors?" "blue" true
    ∷ selects_other "Which size?" false
    ∷ selects "Which colors?" "red" true
    ∷ writes_other "Which size?" "XXL"
    ∷ []

abbrev filled : QuestionForm
filled = record {
  answers = ("Which colors?", "blue") ∷ ("Which size?", "") ∷ [];
  other_selected = ("Which size?", true) ∷ [];
  other_text = ("Which size?", "XXL") ∷ [];
}

filled_by_clicks : fill_all clicks empty_form ≡ filled
unfolding handle_option_select handle_other_select handle_other_text_change
filled_by_clicks = refl

sent :
    handle_submit trim (colors ∷ size ∷ []) filled
    ≡ ("Which colors?", "blue") ∷ ("Which size?", "Other: XXL") ∷ []
unfolding handle_submit final_answer
sent = refl

submitted_answers_example :
    all_answered (colors ∷ size ∷ []) (handle_submit trim (colors ∷ size ∷ []) filled) ≡ true
unfolding can_answer
submitted_answers_example = submitted_answers trim (colors ∷ size ∷ []) filled refl refl

chosen_by_parity_example :
    is_option_selected "Which colors?" "blue" true (fill_all clicks empty_form)
    ≡ is_odd "Which colors?" "blue" clicks false
chosen_by_parity_example = chosen_by_parity "Which colors?" "blue" clicks refl (
  (λ e. (refl, refl)),
  ((λ e. (refl, refl)), ((λ e. ground arith), ((λ e. (refl, refl)), (tt, tt)))),
)
