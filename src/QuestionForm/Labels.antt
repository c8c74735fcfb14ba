-- ===== src/QuestionForm/Labels.antt =====
-- web/src/components/Chat/AskUserQuestionItem.tsx: several labels in one string, as `split(", ")` and
-- `join(", ")` read and write it.
use Prim.Native.Char.{Char, code}
use Prim.Native.String
use package.text.Mathlib.TextLemmas.{cons-append as cons-concat, nil-append as nil-concat}
use pockode.Prelude.{
  ◌≡◌, refl, ap, ◌∙◌, sym, Bool, true, false, not, ◌&&◌, ◌||◌, List, [], ◌∷◌, String, any, nat_eq,
  is_truthy, Bool-cases, inl, inr, arith,
}

abbrev pub is_separator : Char → Char → Bool
is_separator c d = nat_eq (code c) 44 && nat_eq (code d) 32

abbrev pub push : Char → List String → List String
push c [] = String.◌∷◌ c String.[] ∷ []
push c (word ∷ words) = String.◌∷◌ c word ∷ words

-- `text.split(", ")`
abbrev pub split : String → List String
split String.[] = "" ∷ []
split (String.◌∷◌ c String.[]) = String.◌∷◌ c String.[] ∷ []
split (String.◌∷◌ c (String.◌∷◌ d text)) = elim (is_separator c d) [
  | true ↦ "" ∷ split text
  | false ↦ push c (split (String.◌∷◌ d text))
]

-- `labels.join(", ")`
abbrev pub join : List String → String
join [] = ""
join (label ∷ []) = label
join (label ∷ next ∷ labels) = String.◌++◌ label (String.◌++◌ ", " (join (next ∷ labels)))

abbrev pub has_separator : String → Bool
has_separator String.[] = false
has_separator (String.◌∷◌ c String.[]) = false
has_separator (String.◌∷◌ c (String.◌∷◌ d text)) =
    is_separator c d || has_separator (String.◌∷◌ d text)

-- A label that the form can tell from several.
abbrev pub is_plain : String → Bool
is_plain label = is_truthy label && not (has_separator label)

split-push :
    (c d : Char) (text : String)
    → is_separator c d ≡ false
    → split (String.◌∷◌ c (String.◌∷◌ d text)) ≡ push c (split (String.◌∷◌ d text))
split-push c d text h =
    ap
      (λ b. elim b as (λ _. List String) [
        | true ↦ "" ∷ split text
        | false ↦ push c (split (String.◌∷◌ d text))
      ])
      h

split-separator :
    (c d : Char) (text : String)
    → is_separator c d ≡ true
    → split (String.◌∷◌ c (String.◌∷◌ d text)) ≡ "" ∷ split text
split-separator c d text h =
    ap
      (λ b. elim b as (λ _. List String) [
        | true ↦ "" ∷ split text
        | false ↦ push c (split (String.◌∷◌ d text))
      ])
      h

separator-concat : (rest : String) → String.◌++◌ ", " rest ≡ String.◌∷◌ "," (String.◌∷◌ " " rest)
separator-concat rest =
    cons-concat "," " " rest
    ∙ ap (String.◌∷◌ ",") (cons-concat " " "" rest ∙ ap (String.◌∷◌ " ") (nil-concat rest))

-- Before a separator comes one label.
split-separated :
    (label rest : String)
    → has_separator label ≡ false
    → split (String.◌++◌ label (String.◌∷◌ "," (String.◌∷◌ " " rest))) ≡ label ∷ split rest
split-separated String.[] rest h = ap split (nil-concat (String.◌∷◌ "," (String.◌∷◌ " " rest)))
split-separated (String.◌∷◌ c String.[]) rest h =
    ap split (
      cons-concat c "" (String.◌∷◌ "," (String.◌∷◌ " " rest))
      ∙ ap (String.◌∷◌ c) (nil-concat (String.◌∷◌ "," (String.◌∷◌ " " rest))))
    ∙ split-push c "," (String.◌∷◌ " " rest) (ground arith)
split-separated (String.◌∷◌ c (String.◌∷◌ d text)) rest h =
    let tail = String.◌∷◌ "," (String.◌∷◌ " " rest) in
    let inner = cons-concat d text tail in
    ap split (cons-concat c (String.◌∷◌ d text) tail ∙ ap (String.◌∷◌ c) inner)
    ∙ split-push c d (String.◌++◌ text tail) (ground arith)
    ∙ ap (push c) (ap split (sym inner) ∙ split-separated (String.◌∷◌ d text) rest (ground arith))

split-plain : (label : String) → has_separator label ≡ false → split label ≡ label ∷ []
split-plain String.[] h = refl
split-plain (String.◌∷◌ c String.[]) h = refl
split-plain (String.◌∷◌ c (String.◌∷◌ d text)) h =
    split-push c d text (ground arith)
    ∙ ap (push c) (split-plain (String.◌∷◌ d text) (ground arith))

-- One label or more, none of which holds a separator, come back as they were.
pub split-join :
    (label : String) (labels : List String)
    → has_separator label ≡ false
    → any has_separator labels ≡ false
    → split (join (label ∷ labels)) ≡ label ∷ labels
split-join label [] h k = split-plain label h
split-join label (next ∷ labels) h k =
    ap split (ap (String.◌++◌ label) (separator-concat (join (next ∷ labels))))
    ∙ split-separated label (join (next ∷ labels)) h
    ∙ ap (◌∷◌ label) (split-join next labels (ground arith) (ground arith))

abbrev pub all_undivided : List String → Bool
all_undivided [] = true
all_undivided (w ∷ ws) = not (has_separator w) && all_undivided ws

push-push-undivided :
    (b c : Char) (ws : List String)
    → is_separator b c ≡ false
    → all_undivided (push c ws) ≡ true
    → all_undivided (push b (push c ws)) ≡ true
push-push-undivided b c [] h k = ground arith
push-push-undivided b c (w ∷ ws) h k = ground arith

split_at-undivided :
    (c d : Char) (text : String)
    → all_undivided (split text) ≡ true
    → (is_separator c d ≡ false → all_undivided (push c (split (String.◌∷◌ d text))) ≡ true)
    → all_undivided (split (String.◌∷◌ c (String.◌∷◌ d text))) ≡ true
split_at-undivided c d text h k = elim (Bool-cases (is_separator c d)) [
  | inl e ↦ rw (split-separator c d text e) h
  | inr e ↦ rw (split-push c d text e) (k e)
]

push-split_at-undivided :
    (b c d : Char) (text : String)
    → is_separator b c ≡ false
    → all_undivided (split text) ≡ true
    → (is_separator c d ≡ false → all_undivided (push c (split (String.◌∷◌ d text))) ≡ true)
    → all_undivided (push b (split (String.◌∷◌ c (String.◌∷◌ d text)))) ≡ true
push-split_at-undivided b c d text n h k = elim (Bool-cases (is_separator c d)) [
  | inl e ↦ rw (split-separator c d text e) h
  | inr e ↦ rw (split-push c d text e) (push-push-undivided b c (split (String.◌∷◌ d text)) n (k e))
]

undivided :
    (text : String)
    → (all_undivided (split text) ≡ true)
      × ((b c : Char)
          → is_separator b c ≡ false
          → all_undivided (push b (split (String.◌∷◌ c text))) ≡ true)
undivided String.[] = (refl, λ b c n. ground arith)
undivided (String.◌∷◌ d String.[]) =
    (refl, λ b c n. push-split_at-undivided b c d "" n refl (λ e. ground arith))
undivided (String.◌∷◌ d (String.◌∷◌ e text)) =
    let rest = undivided text in
    let next = undivided (String.◌∷◌ e text) in
    (
      split_at-undivided d e text rest.0 (rest.1 d e),
      λ b c n. push-split_at-undivided b c d (String.◌∷◌ e text) n next.0 (next.1 c d),
    )

-- No piece of a text holds a separator.
pub split-undivided : (text : String) → all_undivided (split text) ≡ true
split-undivided text = (undivided text).0
