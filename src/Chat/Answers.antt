-- ===== src/Chat/Answers.antt =====
-- web/src/lib/messageReducer.ts: the order of answers, cancellations and tool results.
use pockode.Prelude.{
  ◌===◌, ◌≡◌, refl, ap, ◌∙◌, sym, ◌≢◌, Bool, false, Option, some, List, [], ◌∷◌, map, String,
  is_some, any, arith, ===_iff, if◌then◌else◌, Bool-cases, inl, inr,
}
use pockode.Chat.Message.{
  ContentPart, tool_call, permission_request, ask_user_question, PermissionStatus, QuestionStatus,
  Message, Answers,
}
use pockode.Chat.Event.{NormalizedEvent, Nullish, undefined, null, value}
use pockode.Chat.Updates.{
  set_permission, set_question, set_result, expire_permission_request, update_question_status,
}
use pockode.Chat.Reducer.{Fresh, cancel_request, response_status, apply_server_event}
use pockode.Chat.Transcript.{all_parts, revised, revise}
use pockode.Chat.Revisions.{
  update_messages-items, update_messages-changed, all_parts-revise, revise-revise, revise_of_none,
}
use pockode.Chat.Dialogs.{
  choice_status, choice_status_cases, set_permission_twice, set_question_twice,
  apply-permission_response, apply-question_response, apply-tool_result,
}

response_status-ne-pending : (a : Nullish Answers) → response_status a ≢ QuestionStatus.pending
response_status-ne-pending undefined = λ e. cc
response_status-ne-pending null = λ e. cc
response_status-ne-pending (value a) = λ e. cc

module _ (first second : Fresh) (messages : List Message) where
  -- Once a permission request is answered, another answer to the same request changes nothing.
  permission_response_once :
      (id choice later : String)
      → apply_server_event second
          (apply_server_event first messages (NormalizedEvent.permission_response id choice))
          (NormalizedEvent.permission_response id later)
        ≡ apply_server_event first messages (NormalizedEvent.permission_response id choice)
  permission_response_once id choice later =
      let answered = set_permission id (choice_status choice) in
      let again = set_permission id (choice_status later) in
      let settled : choice_status choice ≢ PermissionStatus.pending =
        choice_status_cases (λ s. s ≢ PermissionStatus.pending) choice (λ e. cc) (λ e. cc) in
      rw (apply-permission_response first messages id choice) (
        apply-permission_response second (revise answered messages) id later
        ∙ revise-revise again answered answered
            (set_permission_twice id (choice_status choice) (choice_status later) settled) messages)

  -- Once a question is answered or cancelled, another response to it changes nothing.
  question_response_once :
      (id : String) (answers later : Nullish Answers)
      → apply_server_event second
          (apply_server_event first messages (NormalizedEvent.question_response id answers))
          (NormalizedEvent.question_response id later)
        ≡ apply_server_event first messages (NormalizedEvent.question_response id answers)
  question_response_once id answers later =
      let answered = set_question id (response_status answers) answers in
      let again = set_question id (response_status later) later in
      rw (apply-question_response first messages id answers) (
        apply-question_response second (revise answered messages) id later
        ∙ revise-revise again answered answered
            (set_question_twice id (response_status answers) (response_status later) answers later
              (response_status-ne-pending answers))
            messages)

abbrev pub awaits_permission : String → ContentPart → Bool
awaits_permission id part = is_some (set_permission id PermissionStatus.expired part)

cancel_request-revise :
    (messages : List Message) (id : String)
    → cancel_request messages id ≡ (
        if any (awaits_permission id) (all_parts messages)
        then revise (set_permission id PermissionStatus.expired) messages
        else revise (set_question id QuestionStatus.expired null) messages)
unfolding cancel_request expire_permission_request update_question_status
cancel_request-revise messages id = ground (
  arith,
  update_messages-items (set_permission id PermissionStatus.expired) messages,
  update_messages-changed (set_permission id PermissionStatus.expired) messages,
  update_messages-items (set_question id QuestionStatus.expired null) messages,
)

set_permission-set_question :
    (id : String) (s : PermissionStatus) (t : QuestionStatus) (a : Nullish Answers)
    (part : ContentPart)
    → is_some (set_permission id s (revised (set_question id t a) part)) ≡ awaits_permission id part
unfolding set_permission set_question
set_permission-set_question id s t a (permission_request r PermissionStatus.pending) = ground arith
set_permission-set_question id s t a (ask_user_question r QuestionStatus.pending x) = ground arith
set_permission-set_question id s t a _ = refl

any-set_permission-set_question :
    (id : String) (s : PermissionStatus) (t : QuestionStatus) (a : Nullish Answers)
    (parts : List ContentPart)
    → any (λ part. is_some (set_permission id s part)) (map (revised (set_question id t a)) parts)
      ≡ any (awaits_permission id) parts
any-set_permission-set_question id s t a [] = refl
any-set_permission-set_question id s t a (part ∷ parts) =
    rw (set_permission-set_question id s t a part, any-set_permission-set_question id s t a parts)

pub apply-request_cancelled :
    (fresh : Fresh) (messages : List Message) (id : String)
    → apply_server_event fresh messages (NormalizedEvent.request_cancelled id)
      ≡ cancel_request messages id
unfolding apply_server_event
apply-request_cancelled fresh messages id = refl

-- A cancellation is one of two revisions.
pub cancel_request_cases {ℓ} :
    (P : List Message → Type ℓ) (messages : List Message) (id : String)
    → P (revise (set_permission id PermissionStatus.expired) messages)
    → P (revise (set_question id QuestionStatus.expired null) messages)
    → P (cancel_request messages id)
cancel_request_cases P messages id p q =
    rw (cancel_request-revise messages id)
      (elim (Bool-cases (any (awaits_permission id) (all_parts messages))) [
        | inl e ↦ rw e p
        | inr e ↦ rw e q
      ])

cancel_request-permission :
    (messages : List Message) (id : String) (s : PermissionStatus)
    → revise (set_permission id s) (cancel_request messages id) ≡ cancel_request messages id
cancel_request-permission messages id s =
    rw (cancel_request-revise messages id)
      (elim (Bool-cases (any (awaits_permission id) (all_parts messages))) [
        | inl e ↦ rw e (
            revise-revise (set_permission id s) (set_permission id PermissionStatus.expired)
              (set_permission id PermissionStatus.expired)
              (set_permission_twice id PermissionStatus.expired s (λ e. cc)) messages)
        | inr e ↦ rw e (
            revise_of_none (set_permission id s) _ (
              rw (all_parts-revise (set_question id QuestionStatus.expired null) messages) (
                any-set_permission-set_question id s QuestionStatus.expired null
                  (all_parts messages)
                ∙ e)))
      ])

cancel_request-question :
    (messages : List Message) (id : String) (s : QuestionStatus) (a : Nullish Answers)
    → any (awaits_permission id) (all_parts messages) ≡ false
    → revise (set_question id s a) (cancel_request messages id) ≡ cancel_request messages id
cancel_request-question messages id s a h =
    rw (cancel_request-revise messages id, h)
      (revise-revise (set_question id s a) (set_question id QuestionStatus.expired null)
        (set_question id QuestionStatus.expired null)
        (set_question_twice id QuestionStatus.expired s null a (λ e. cc)) messages)

module _ (first second : Fresh) (messages : List Message) where
  -- An answer that arrives after the cancellation of a permission request changes nothing.
  request_cancelled_permission :
      (id choice : String)
      → apply_server_event second
          (apply_server_event first messages (NormalizedEvent.request_cancelled id))
          (NormalizedEvent.permission_response id choice)
        ≡ apply_server_event first messages (NormalizedEvent.request_cancelled id)
  request_cancelled_permission id choice =
      apply-permission_response second _ id choice
      ∙ rw (apply-request_cancelled first messages id)
          (cancel_request-permission messages id (choice_status choice))

  -- Nor does a response after the cancellation of a question, if no permission request with the
  -- same id was waiting.
  pub request_cancelled_question :
      (id : String) (answers : Nullish Answers)
      → any (awaits_permission id) (all_parts messages) ≡ false
      → apply_server_event second
          (apply_server_event first messages (NormalizedEvent.request_cancelled id))
          (NormalizedEvent.question_response id answers)
        ≡ apply_server_event first messages (NormalizedEvent.request_cancelled id)
  request_cancelled_question id answers h =
      apply-question_response second _ id answers
      ∙ rw (apply-request_cancelled first messages id)
          (cancel_request-question messages id (response_status answers) answers h)

set_result_twice :
    (id x y : String) (part : ContentPart)
    → revised (set_result id y) (revised (set_result id x) part) ≡ revised (set_result id y) part
unfolding set_result
set_result_twice id x y (tool_call t) = ground arith
set_result_twice id x y _ = refl

-- Both results, whichever comes first.
set_results : (a x b y : String) → ContentPart → Option ContentPart
set_results a x b y part = some (revised (set_result b y) (revised (set_result a x) part))

set_result_comm :
    (a x b y : String)
    → a ≢ b
    → (part : ContentPart)
    → revised (set_result a x) (revised (set_result b y) part)
      ≡ revised (set_result b y) (revised (set_result a x) part)
unfolding set_result
set_result_comm a x b y h (tool_call t) = ground (arith, ===_iff t.id a, ===_iff t.id b)
set_result_comm a x b y h _ = refl

-- The results of the tool calls with an id, in order: `none` for a call that has none yet.
abbrev pub results_of : String → List ContentPart → List (Option String)
results_of id [] = []
results_of id (tool_call t ∷ parts) =
    let rest = results_of id parts in if t.id === id then t.result ∷ rest else rest
results_of id (part ∷ parts) = results_of id parts

results_of-set_result :
    (id x : String) (parts : List ContentPart)
    → results_of id (map (revised (set_result id x)) parts)
      ≡ map (λ r. some x) (results_of id parts)
unfolding set_result
results_of-set_result id x [] = refl
results_of-set_result id x (tool_call t ∷ parts) =
    let rest = results_of-set_result id x parts in
    elim (Bool-cases (t.id === id)) [
      | inl e ↦ rw (e, e) (ap (◌∷◌ (some x)) rest)
      | inr e ↦ rw (e, e) rest
    ]
results_of-set_result id x (part ∷ parts) = results_of-set_result id x parts

results_of-set_result_other :
    (a x b : String)
    → a ≢ b
    → (parts : List ContentPart)
    → results_of b (map (revised (set_result a x)) parts) ≡ results_of b parts
unfolding set_result
results_of-set_result_other a x b h [] = refl
results_of-set_result_other a x b h (tool_call t ∷ parts) =
    let rest = results_of-set_result_other a x b h parts in
    ground (arith, ===_iff t.id a, ===_iff t.id b)
results_of-set_result_other a x b h (part ∷ parts) = results_of-set_result_other a x b h parts

module _ (first second : Fresh) (messages : List Message) where
  -- Of two results for one tool call the later one stays.
  tool_result_twice :
      (id x y : String)
      → apply_server_event second
          (apply_server_event first messages (NormalizedEvent.tool_result id x))
          (NormalizedEvent.tool_result id y)
        ≡ apply_server_event second messages (NormalizedEvent.tool_result id y)
  tool_result_twice id x y =
      rw (apply-tool_result first messages id x, apply-tool_result second messages id y)
        (apply-tool_result second (revise (set_result id x) messages) id y
          ∙ revise-revise (set_result id y) (set_result id x) (set_result id y)
              (set_result_twice id x y) messages)

  -- Results for different tool calls may come in either order.
  tool_result_comm :
      (a x b y : String)
      → a ≢ b
      → apply_server_event second
          (apply_server_event first messages (NormalizedEvent.tool_result a x))
          (NormalizedEvent.tool_result b y)
        ≡ apply_server_event second
            (apply_server_event first messages (NormalizedEvent.tool_result b y))
            (NormalizedEvent.tool_result a x)
  unfolding set_results
  tool_result_comm a x b y h =
      let both = set_results a x b y in
      rw (apply-tool_result first messages a x, apply-tool_result first messages b y)
        (apply-tool_result second (revise (set_result a x) messages) b y
          ∙ revise-revise (set_result b y) (set_result a x) both (λ part. refl) messages
          ∙ sym (
              apply-tool_result second (revise (set_result b y) messages) a x
              ∙ revise-revise (set_result a x) (set_result b y) both (set_result_comm a x b y h)
                  messages))

  -- Once a permission request is answered, another answer to the same request changes nothing; nor
  -- does another response to a question that is answered or cancelled, nor an answer to a permission
  -- request after its cancellation.
  pub settled_once :
      (id choice later : String) (answers other : Nullish Answers)
      → (apply_server_event second
            (apply_server_event first messages (NormalizedEvent.permission_response id choice))
            (NormalizedEvent.permission_response id later)
          ≡ apply_server_event first messages (NormalizedEvent.permission_response id choice))
        × (apply_server_event second
              (apply_server_event first messages (NormalizedEvent.question_response id answers))
              (NormalizedEvent.question_response id other)
            ≡ apply_server_event first messages (NormalizedEvent.question_response id answers))
        × (apply_server_event second
              (apply_server_event first messages (NormalizedEvent.request_cancelled id))
              (NormalizedEvent.permission_response id choice)
            ≡ apply_server_event first messages (NormalizedEvent.request_cancelled id))
  settled_once id choice later answers other = (
    permission_response_once first second messages id choice later,
    question_response_once first second messages id answers other,
    request_cancelled_permission first second messages id choice,
  )

  tool_result_set :
      (a x : String)
      → results_of a
          (all_parts (apply_server_event first messages (NormalizedEvent.tool_result a x)))
        ≡ map (λ r. some x) (results_of a (all_parts messages))
  tool_result_set a x =
      rw (apply-tool_result first messages a x, all_parts-revise (set_result a x) messages)
        (results_of-set_result a x (all_parts messages))

  tool_result_other :
      (a x b : String)
      → a ≢ b
      → results_of b
          (all_parts (apply_server_event first messages (NormalizedEvent.tool_result a x)))
        ≡ results_of b (all_parts messages)
  tool_result_other a x b h =
      rw (apply-tool_result first messages a x, all_parts-revise (set_result a x) messages)
        (results_of-set_result_other a x b h (all_parts messages))

  -- A result becomes that of every tool call with its id, and of no other. Results for different
  -- tool calls may come in either order, and of two results for one tool call the later one stays.
  pub tool_results :
      (a x b y : String)
      → a ≢ b
      → (results_of a
            (all_parts (apply_server_event first messages (NormalizedEvent.tool_result a x)))
          ≡ map (λ r. some x) (results_of a (all_parts messages)))
        × (results_of b
              (all_parts (apply_server_event first messages (NormalizedEvent.tool_result a x)))
            ≡ results_of b (all_parts messages))
        × (apply_server_event second
              (apply_server_event first messages (NormalizedEvent.tool_result a x))
              (NormalizedEvent.tool_result b y)
            ≡ apply_server_event second
                (apply_server_event first messages (NormalizedEvent.tool_result b y))
                (NormalizedEvent.tool_result a x))
        × (apply_server_event second
              (apply_server_event first messages (NormalizedEvent.tool_result a x))
              (NormalizedEvent.tool_result a y)
            ≡ apply_server_event second messages (NormalizedEvent.tool_result a y))
  tool_results a x b y h = (
    tool_result_set a x,
    tool_result_other a x b h,
    tool_result_comm a x b y h,
    tool_result_twice a x y,
  )
