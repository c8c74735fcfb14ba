-- ===== src/InlineEdit/Tests.antt =====
-- The theorems about an edited value, applied to a title.
use pockode.Prelude.{◌≡◌, refl, true, false, List, [], ◌∷◌, String}
use pockode.InlineEdit.{
  InlineEdit, save, on_saved, follow_value, EditEvent, starts, types, saves, saved, changes,
  on_edits, fresh_edit,
}
use pockode.InlineEdit.Following.{shown_follows}

abbrev trim : String → String
trim s = s

abbrev events : List EditEvent
events = starts ∷ types "New" ∷ saves ∷ changes "New" ∷ saved ∷ changes "Newer" ∷ []

shown_follows_example :
    (on_edits trim false events (fresh_edit "Old")).value
    ≡ (on_edits trim false events (fresh_edit "Old")).initial_value
unfolding save on_saved follow_value
shown_follows_example = shown_follows trim false events "Old" refl

newer : (on_edits trim false events (fresh_edit "Old")).value ≡ "Newer"
unfolding save on_saved follow_value
newer = refl

abbrev edited : InlineEdit
edited = record (fresh_edit "Old") { editing = true; value = "New" }
