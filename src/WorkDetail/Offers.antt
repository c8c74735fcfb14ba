-- ===== src/WorkDetail/Offers.antt =====
-- web/src/components/Project/WorkDetailOverlay.tsx: the buttons that start, stop and reopen a work.
use Prim.Native.String
use pockode.Prelude.{
  ◌≡◌, refl, ◌∙◌, ap, Bool, true, false, not, ◌&&◌, Option, none, some, [], ◌∷◌, String, keep,
  length,
}
use pockode.Stores.Items.{WorkStatus, opened, in_progress, waiting, needs_input, stopped, closed}
use pockode.WorkDetail.{
  WorkAction, start, stop, reopen, ActionBar, is_running, set_running, failure, handle_action,
  on_action_answer, is_offered, is_clickable,
}

-- The error that an answer leaves.
abbrev pub shown_failure : WorkAction → Option String → Option String
shown_failure action none = none
shown_failure action (some err) = some (String.◌++◌ (failure action) err)

offers_one :
    (status : WorkStatus)
    → length (keep (λ a. is_offered a status) (start ∷ stop ∷ reopen ∷ [])) ≡ 1
offers_one opened = refl
offers_one in_progress = refl
offers_one waiting = refl
offers_one needs_input = refl
offers_one stopped = refl
offers_one closed = refl

running-set :
    (action : WorkAction) (b : Bool) (s : ActionBar)
    → is_running action (set_running action b s) ≡ b
running-set start b s = refl
running-set stop b s = refl
running-set reopen b s = refl

error-set :
    (action : WorkAction) (b : Bool) (s : ActionBar) → (set_running action b s).error ≡ s.error
error-set start b s = refl
error-set stop b s = refl
error-set reopen b s = refl

answer_running :
    (action : WorkAction) (err : Option String) (s : ActionBar)
    → is_running action (on_action_answer action err s) ≡ false
unfolding on_action_answer
answer_running action none s = running-set action false s
answer_running action (some err) s =
    running-set action false (record s { error = some (String.◌++◌ (failure action) err) })

answer_error :
    (action : WorkAction) (err : Option String) (s : ActionBar)
    → s.error ≡ none
    → (on_action_answer action err s).error ≡ shown_failure action err
unfolding on_action_answer
answer_error action none s h = error-set action false s ∙ h
answer_error action (some err) s h =
    error-set action false (record s { error = some (String.◌++◌ (failure action) err) })

and_false : (b : Bool) → b && false ≡ false
and_false true = refl
and_false false = refl

and_true : (b : Bool) → b && true ≡ b
and_true true = refl
and_true false = refl

-- In every state of a work just one of the three actions is offered. Once its button is clicked it
-- takes no click until the answer; after it, it does where the action is offered, and an error is
-- shown just where the request failed, with the name of the action.
pub action_settles :
    (action : WorkAction) (status : WorkStatus) (err : Option String) (s : ActionBar)
    → let asked = handle_action action s in
      let answered = on_action_answer action err asked in
      (length (keep (λ a. is_offered a status) (start ∷ stop ∷ reopen ∷ [])) ≡ 1)
      × (is_clickable action status asked ≡ false)
      × (is_clickable action status answered ≡ is_offered action status)
      × (answered.error ≡ shown_failure action err)
unfolding handle_action
action_settles action status err s =
    let asked = handle_action action s in
    let cleared = record s { error = none } in
    (
      offers_one status,
      ap (λ b. is_offered action status && not b) (running-set action true cleared)
          ∙ and_false (is_offered action status),
      ap (λ b. is_offered action status && not b) (answer_running action err asked)
          ∙ and_true (is_offered action status),
      answer_error action err asked (error-set action true cleared),
    )
