-- ===== src/QuestionForm/Toggling.antt =====
-- web/src/components/Chat/AskUserQuestionItem.tsx: the options of a question with several answers,
-- as they are clicked.
use pockode.Prelude.{
  ℕ, zero, suc, ◌+◌, ◌≡◌, if-of_true, refl, ap, ◌∙◌, Bool, true, false, not, ◌&&◌, Option, none,
  some, List, [], ◌∷◌, ◌++◌, String, any, is_truthy, ◌===◌, ===_iff, inl, inr, if◌then◌else◌,
  Option-cases, find_index, remove_at, arith,
}
use pockode.QuestionForm.Labels.{split, join, has_separator, is_plain, split-join}
use pockode.QuestionForm.Submission.{is_truthy-join}
use pockode.QuestionForm.{splice_or_push, labels_of, toggled}

abbrev is_label : String → String → Bool
is_label label l = l === label

abbrev pub count_label : String → List String → ℕ
count_label label [] = 0
count_label label (l ∷ labels) =
    let rest = count_label label labels in if l === label then suc rest else rest

abbrev pub flag : Bool → ℕ
flag true = 1
flag false = 0

count_label-none :
    (label : String) (labels : List String)
    → find_index (λ l. l === label) labels ≡ none
    → count_label label labels ≡ 0
count_label-none label [] h = refl
count_label-none label (l ∷ labels) h = elim (Option-cases (find_index (λ y. y === label) labels)) [
  | inl e ↦ let rest = count_label-none label labels e in ground (arith, e)
  | inr (j, e) ↦ ground (arith, e)
]

count_label-remove_at :
    (label x : String) (i : ℕ) (labels : List String)
    → find_index (λ l. l === x) labels ≡ some i
    → count_label label (remove_at i labels) + flag (x === label) ≡ count_label label labels
count_label-remove_at label x i [] h = ground arith
count_label-remove_at label x zero (l ∷ labels) h =
    elim (Option-cases (find_index (λ y. y === x) labels)) [
      | inl e ↦ ground (arith, e, ===_iff l x)
      | inr (j, e) ↦ ground (arith, e, ===_iff l x)
    ]
count_label-remove_at label x (suc i) (l ∷ labels) h =
    elim (Option-cases (find_index (λ y. y === x) labels)) [
      | inl e ↦ ground (arith, e)
      | inr (j, e) ↦ ground (arith, e, count_label-remove_at label x i labels)
    ]

count_label-append :
    (label x : String) (labels : List String)
    → count_label label (labels ++ x ∷ []) ≡ count_label label labels + flag (x === label)
count_label-append label x [] = ground arith
count_label-append label x (l ∷ labels) =
    let rest = count_label-append label x labels in ground arith

-- A click turns the one label over.
pub count_label-toggled :
    (label x : String) (b : Bool) (labels : List String)
    → count_label label labels ≡ flag b
    → count_label label (toggled x labels) ≡ flag (if x === label then not b else b)
count_label-toggled label x b labels h = elim (Option-cases (find_index (λ l. l === x) labels)) [
  | inl e ↦
      let none_left = count_label-none x labels e in
      let all = count_label-append label x labels in rw e (ground (arith, ===_iff x label))
  | inr (i, e) ↦ let all = count_label-remove_at label x i labels e in rw e (ground arith)
]

-- The labels that a question's answer may hold.
abbrev pub all_plain : List String → Bool
all_plain [] = true
all_plain (l ∷ labels) = is_plain l && all_plain labels

all_plain-append :
    (x : String) (labels : List String)
    → is_plain x ≡ true
    → all_plain labels ≡ true
    → all_plain (labels ++ x ∷ []) ≡ true
all_plain-append x [] h k = ground arith
all_plain-append x (l ∷ labels) h k = ground (arith, all_plain-append x labels h)

all_plain-remove_at :
    (i : ℕ) (labels : List String) → all_plain labels ≡ true → all_plain (remove_at i labels) ≡ true
all_plain-remove_at i [] h = h
all_plain-remove_at zero (l ∷ labels) h = ground arith
all_plain-remove_at (suc i) (l ∷ labels) h = ground (arith, all_plain-remove_at i labels)

pub all_plain-splice_or_push :
    (o : Option ℕ) (x : String) (labels : List String)
    → is_plain x ≡ true
    → all_plain labels ≡ true
    → all_plain (splice_or_push o x labels) ≡ true
all_plain-splice_or_push none x labels h k = all_plain-append x labels h k
all_plain-splice_or_push (some i) x labels h k = all_plain-remove_at i labels k

no_separator : (labels : List String) → all_plain labels ≡ true → any has_separator labels ≡ false
no_separator [] h = refl
no_separator (l ∷ labels) h = ground (arith, no_separator labels)

pub labels_of-join :
    (labels : List String) → all_plain labels ≡ true → labels_of (join labels) ≡ labels
labels_of-join [] h = refl
labels_of-join (l ∷ labels) h =
    let k = no_separator (l ∷ labels) h in
    if-of_true (is_truthy (join (l ∷ labels))) (split (join (l ∷ labels))) []
      (is_truthy-join l labels (ground arith))
    ∙ split-join l labels (ground arith) (ground arith)

any-of_count_zero :
    (label : String) (labels : List String)
    → count_label label labels ≡ 0
    → any (λ l. l === label) labels ≡ false
any-of_count_zero label [] h = refl
any-of_count_zero label (l ∷ labels) h = ground (arith, any-of_count_zero label labels)

any-of_count_one :
    (label : String) (labels : List String)
    → count_label label labels ≡ 1
    → any (λ l. l === label) labels ≡ true
any-of_count_one label [] h = ground arith
any-of_count_one label (l ∷ labels) h = ground (arith, any-of_count_one label labels)

any-of_count :
    (label : String) (b : Bool) (labels : List String)
    → count_label label labels ≡ flag b
    → any (λ l. l === label) labels ≡ b
any-of_count label true labels h = any-of_count_one label labels h
any-of_count label false labels h = any-of_count_zero label labels h

empty-ne-plain : (label : String) → is_truthy label ≡ true → "" === label ≡ false
empty-ne-plain label h = ground (arith, ===_iff label "", ===_iff "" label)

-- What the box of a label shows.
pub shown-count :
    (label : String) (b : Bool) (labels : List String)
    → is_plain label ≡ true
    → all_plain labels ≡ true
    → count_label label labels ≡ flag b
    → any (λ l. l === label) (split (join labels)) ≡ b
shown-count label true [] p h k = ground arith
shown-count label false [] p h k = rw (empty-ne-plain label (ground arith)) refl
shown-count label b (l ∷ labels) p h k =
    let s = no_separator (l ∷ labels) h in
    ap (any (λ l. l === label)) (split-join l labels (ground arith) (ground arith))
    ∙ any-of_count label b (l ∷ labels) k
