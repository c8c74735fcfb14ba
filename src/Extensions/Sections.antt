-- ===== src/Extensions/Sections.antt =====
-- web/src/lib/registries/settingsRegistry.ts: the sections of the settings page, by priority.
-- Priorities are natural numbers here. `sort` keeps the order of sections with equal priorities.
pub mod Order
use pockode.Prelude.{ℕ, Bool, true, false, List, [], ◌∷◌, ◌++◌, String, ltb, if◌then◌else◌, ◌===◌}

abbrev pub default_priority : ℕ
default_priority = 100

pub record Section (C : Type 0) : Type 0 where
  pub id : String
  pub label : String
  pub priority : ℕ
  pub component : C

module _ {C : Type 0} where
  abbrev pub insert : Section C → List (Section C) → List (Section C)
  insert x [] = x ∷ []
  insert x (y ∷ ys) = if ltb x.priority y.priority then x ∷ y ∷ ys else y ∷ insert x ys

  -- `.sort((a, b) => a.priority - b.priority)`, with those that are sorted already.
  abbrev pub sort_onto : List (Section C) → List (Section C) → List (Section C)
  sort_onto sorted [] = sorted
  sort_onto sorted (x ∷ xs) = sort_onto (insert x sorted) xs

  unfoldable pub register_section : Section C → List (Section C) → List (Section C)
  register_section config sections = sort_onto [] (sections ++ config ∷ [])

  unfoldable pub unregister_section : String → List (Section C) → List (Section C)
  unregister_section id [] = []
  unregister_section id (x ∷ sections) =
      if x.id === id then unregister_section id sections else x ∷ unregister_section id sections
