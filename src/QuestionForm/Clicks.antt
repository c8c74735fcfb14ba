-- ===== src/QuestionForm/Clicks.antt =====
-- web/src/components/Chat/AskUserQuestionItem.tsx: which options of a question with several answers
-- are shown as chosen after any clicks on the form.
use pockode.Prelude.{
  find_index, ◌≡◌, refl, ap, subst, ◌∙◌, sym, Bool, true, false, not, ◌&&◌, List, [], ◌∷◌, String,
  any, All, ◌===◌, ===_iff, if◌then◌else◌, Bool-cases, inl, inr, arith, if-of_true, if-of_false,
}
use pockode.Ws.Watch.{set}
use pockode.Ws.Subscribe.Delivery.{get-set}
use pockode.QuestionForm.Labels.{
  join, split, is_plain, has_separator, all_undivided, split-undivided,
}
use pockode.QuestionForm.Toggling.{
  count_label, flag, all_plain, count_label-toggled, all_plain-splice_or_push, labels_of-join,
  shown-count,
}
use pockode.QuestionForm.{
  empty_form, QuestionForm, text_at, toggled, FormEvent, selects, selects_other, writes_other, fill,
  fill_all, handle_option_select, handle_other_select, handle_other_text_change, is_option_selected,
  labels_of,
}

-- The events of a question with several answers are those of one, and its labels plain.
abbrev pub IsFitting : String → FormEvent → Type 0
IsFitting question (selects q label multi) =
    q === question ≡ true → (multi ≡ true) × (is_plain label ≡ true)
IsFitting question (selects_other q multi) = q === question ≡ true → multi ≡ true
IsFitting question (writes_other q content) = Unit

-- Was the option clicked an odd number of times?
abbrev turned : (question label : String) → FormEvent → Bool → Bool
turned question label (selects q l multi) b = if q === question && l === label then not b else b
turned question label _ b = b

abbrev pub is_odd : (question label : String) → List FormEvent → Bool → Bool
is_odd question label [] b = b
is_odd question label (e ∷ es) b = is_odd question label es (turned question label e b)

record IsKept (question label : String) (b : Bool) (s : QuestionForm) : Type 0 where
  labels : List String
  joined : text_at question s.answers ≡ join labels
  plain : all_plain labels ≡ true
  count : count_label label labels ≡ flag b

text_at-set :
    (q question content : String) (entries : List (String × String))
    → text_at question (set q content entries)
      ≡ (if q === question then content else text_at question entries)
text_at-set q question content entries = ground (arith, get-set q question content entries)

===_same : (a b : String) → a === b ≡ true → a ≡ b
===_same a b h = (===_iff a b).0 h

-- A click on an option of the question.
IsKept-selected :
    (question label l : String) (b : Bool) (s : QuestionForm)
    → is_plain l ≡ true
    → IsKept question label b s
    → IsKept question label
        (if l === label then not b else b)
        (handle_option_select question l true s)
unfolding handle_option_select
IsKept-selected question label l b s p k =
    let same = (===_iff question question).1 refl in
    let answer = join (toggled l (labels_of (text_at question s.answers))) in
    record {
      labels = toggled l k.labels;
      joined =
          text_at-set question question answer s.answers
          ∙ if-of_true (question === question) answer (text_at question s.answers) same
          ∙ ap (λ t. join (toggled l (labels_of t))) k.joined
          ∙ ap (λ ls. join (toggled l ls)) (labels_of-join k.labels k.plain);
      plain = all_plain-splice_or_push (find_index (λ y. y === l) k.labels) l k.labels p k.plain;
      count = count_label-toggled label l b k.labels k.count;
    }

-- Where the answer to the question stays, all stays.
IsKept-same :
    (question label : String) (b : Bool) (s t : QuestionForm)
    → text_at question t.answers ≡ text_at question s.answers
    → IsKept question label b s
    → IsKept question label b t
IsKept-same question label b s t e k = record {
  labels = k.labels;
  joined = e ∙ k.joined;
  plain = k.plain;
  count = k.count;
}

set-other :
    (q question content : String) (entries : List (String × String))
    → q === question ≡ false
    → text_at question (set q content entries) ≡ text_at question entries
set-other q question content entries n =
    text_at-set q question content entries
    ∙ if-of_false (q === question) content (text_at question entries) n

select-other :
    (q l question : String) (multi : Bool) (s : QuestionForm)
    → q === question ≡ false
    → text_at question (handle_option_select q l multi s).answers ≡ text_at question s.answers
unfolding handle_option_select
select-other q l question true s n =
    set-other q question (join (toggled l (labels_of (text_at q s.answers)))) s.answers n
select-other q l question false s n = set-other q question l s.answers n

other-keeps :
    (q question : String) (multi : Bool) (s : QuestionForm)
    → (q === question ≡ true → multi ≡ true)
    → text_at question (handle_other_select q multi s).answers ≡ text_at question s.answers
unfolding handle_other_select
other-keeps q question true s h = refl
other-keeps q question false s h = elim (Bool-cases (q === question)) [
  | inl e ↦ ground (arith, h e)
  | inr n ↦ set-other q question "" s.answers n
]

IsKept-fill :
    (question label : String) (e : FormEvent) (b : Bool) (s : QuestionForm)
    → IsFitting question e
    → IsKept question label b s
    → IsKept question label (turned question label e b) (fill e s)
unfolding handle_other_text_change
IsKept-fill question label (selects q l multi) b s f k = elim (Bool-cases (q === question)) [
  | inl e ↦
      subst (λ c. IsKept question label c (handle_option_select q l multi s))
        (ap (λ c. if c && l === label then not b else b) (sym e))
        (subst
          (λ r.
            IsKept question label (if l === label then not b else b)
              (handle_option_select r l multi s))
          (sym (===_same q question e))
          (subst
            (λ m.
              IsKept question label (if l === label then not b else b)
                (handle_option_select question l m s))
            (sym (f e).0) (IsKept-selected question label l b s ((f e).1) k)))
  | inr n ↦
      subst (λ c. IsKept question label c (handle_option_select q l multi s))
        (ap (λ c. if c && l === label then not b else b) (sym n))
        (IsKept-same question label b s (handle_option_select q l multi s)
          (select-other q l question multi s n) k)
]
IsKept-fill question label (selects_other q multi) b s f k =
    IsKept-same question label b s (handle_other_select q multi s)
      (other-keeps q question multi s f) k
IsKept-fill question label (writes_other q content) b s f k =
    IsKept-same question label b s (handle_other_text_change q content s) refl k

IsKept-fill_all :
    (question label : String) (es : List FormEvent) (b : Bool) (s : QuestionForm)
    → All (IsFitting question) es
    → IsKept question label b s
    → IsKept question label (is_odd question label es b) (fill_all es s)
IsKept-fill_all question label [] b s f k = k
IsKept-fill_all question label (e ∷ es) b s f k =
    IsKept-fill_all question label es (turned question label e b) (fill e s) f.1
      (IsKept-fill question label e b s f.0 k)

-- Whatever is done to the form, also to its other questions, an option of a question with several
-- answers is shown as chosen just where it was clicked an odd number of times: if it and the options
-- of that question that were clicked have labels that are not empty and hold no comma before a space.
pub chosen_by_parity :
    (question label : String) (es : List FormEvent)
    → is_plain label ≡ true
    → All (IsFitting question) es
    → is_option_selected question label true (fill_all es empty_form)
      ≡ is_odd question label es false
unfolding is_option_selected
chosen_by_parity question label es p f =
    let s = fill_all es empty_form in
    let k =
      IsKept-fill_all question label es false empty_form f
        (record { labels = []; joined = refl; plain = refl; count = refl }) in
    ap (λ t. any (λ l. l === label) (split t)) k.joined
    ∙ shown-count label (is_odd question label es false) k.labels p k.plain k.count

any-undivided :
    (label : String) (ws : List String)
    → has_separator label ≡ true
    → all_undivided ws ≡ true
    → any (λ l. l === label) ws ≡ false
any-undivided label [] h k = refl
any-undivided label (w ∷ ws) h k = elim (Bool-cases (w === label)) [
  | inl e ↦ let same = ap has_separator (===_same w label e) in ground arith
  | inr n ↦ let rest = any-undivided label ws h in ground (arith, rest)
]

-- An option whose label holds a comma before a space is shown as chosen in no state of the form, so
-- no click on it takes it back.
pub divided_never_chosen :
    (question label : String) (s : QuestionForm)
    → has_separator label ≡ true
    → is_option_selected question label true s ≡ false
unfolding is_option_selected
divided_never_chosen question label s h =
    any-undivided label (split (text_at question s.answers)) h
      (split-undivided (text_at question s.answers))
