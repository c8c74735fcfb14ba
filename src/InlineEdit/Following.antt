-- ===== src/InlineEdit/Following.antt =====
-- web/src/hooks/useInlineEdit.ts: what is shown while the value is not edited, and what is sent.
use pockode.Prelude.{
  ◌≡◌, refl, ◌∙◌, sym, Bool, true, false, not, ◌&&◌, ◌||◌, Option, none, some, List, [], ◌∷◌,
  String, is_truthy, ◌===◌, ===_iff, Bool-cases, inl, inr, if◌then◌else◌, arith,
}
use pockode.InlineEdit.{
  InlineEdit, save, on_saved, on_save_failed, cancel, same_editing, follow_value, EditEvent, starts,
  types, saves, saved, fails, cancels, changes, on_edit, on_edits, fresh_edit,
}

abbrev IsShown : InlineEdit → Type 0
IsShown s = s.editing ≡ false → s.value ≡ s.initial_value

same_editing-eq : (a b : Bool) → same_editing a b ≡ true → a ≡ b
same_editing-eq true b h = sym h
same_editing-eq false true h = h
same_editing-eq false false h = refl

IsShown-if :
    (b : Bool) (t : InlineEdit)
    → (b ≡ true → IsShown t)
    → IsShown (if b then t else if t.editing then t else record t { value = t.initial_value })
IsShown-if true t h = h refl
IsShown-if false t h = elim (Bool-cases t.editing) [
  | inl e ↦ rw e (λ n. ground arith)
  | inr e ↦ rw e (λ n. refl)
]

-- The effect keeps the value in step, if what was done before it did not change it unseen.
IsShown-follow_value :
    (s t : InlineEdit)
    → (s.editing ≡ false → t.editing ≡ false → t.value ≡ s.value)
    → IsShown s
    → IsShown (follow_value s t)
unfolding follow_value
IsShown-follow_value s t k h =
    IsShown-if ((s.initial_value === t.initial_value) && same_editing s.editing t.editing) t (λ b n.
      let still = same_editing-eq s.editing t.editing (ground (arith, b)) ∙ n in
      let initial = (===_iff s.initial_value t.initial_value).0 (ground (arith, b)) in
      k still n ∙ h still ∙ initial)

unseen_unchanged :
    (trim : String → String) (allow_empty : Bool) (e : EditEvent) (s : InlineEdit)
    → IsShown s
    → s.editing ≡ false
    → (on_edit trim allow_empty e s).editing ≡ false
    → (on_edit trim allow_empty e s).value ≡ s.value
unfolding save on_saved on_save_failed cancel
unseen_unchanged trim allow_empty starts s h e k = refl
unseen_unchanged trim allow_empty (types value) s h e k = ground (arith, e)
unseen_unchanged trim allow_empty saves s h e k = ground arith
unseen_unchanged trim allow_empty saved s h e k = refl
unseen_unchanged trim allow_empty (fails err) s h e k = refl
unseen_unchanged trim allow_empty cancels s h e k = sym (h e)
unseen_unchanged trim allow_empty (changes initial_value) s h e k = refl

IsShown-on_edits :
    (trim : String → String) (allow_empty : Bool) (es : List EditEvent) (s : InlineEdit)
    → IsShown s
    → IsShown (on_edits trim allow_empty es s)
IsShown-on_edits trim allow_empty [] s h = h
IsShown-on_edits trim allow_empty (e ∷ es) s h =
    IsShown-on_edits trim allow_empty es (follow_value s (on_edit trim allow_empty e s)) (
      IsShown-follow_value s (on_edit trim allow_empty e s)
        (unseen_unchanged trim allow_empty e s h) h)

-- Whatever is typed, saved or cancelled, and however often the value changes elsewhere, what is
-- shown while it is not edited is the value as it is outside.
pub shown_follows :
    (trim : String → String) (allow_empty : Bool) (es : List EditEvent) (initial_value : String)
    → (on_edits trim allow_empty es (fresh_edit initial_value)).editing ≡ false
    → (on_edits trim allow_empty es (fresh_edit initial_value)).value
      ≡ (on_edits trim allow_empty es (fresh_edit initial_value)).initial_value
shown_follows trim allow_empty es initial_value =
    IsShown-on_edits trim allow_empty es (fresh_edit initial_value) (λ e. refl)

-- A request to save is made just where the value differs from the one outside in more than the
-- blanks around it and is not empty, unless it may be; the request carries it without them. What is
-- typed stays in the field, also where the request then fails; the field stays open where there was
-- a request, and is closed where there was none.
pub save_asks :
    (trim : String → String) (allow_empty : Bool) (s : InlineEdit) (err : Option String)
    → let asks =
        (allow_empty || is_truthy (trim s.value)) && not (trim s.value === trim s.initial_value) in
      ((save trim allow_empty s).0 ≡ (if asks then some (trim s.value) else none))
      × ((on_save_failed err (save trim allow_empty s).1).value ≡ s.value)
      × ((on_save_failed err (save trim allow_empty s).1).editing ≡ asks && s.editing)
unfolding save on_save_failed
save_asks trim true s err = (ground arith, ground arith, ground arith)
save_asks trim false s err = (ground arith, ground arith, ground arith)
