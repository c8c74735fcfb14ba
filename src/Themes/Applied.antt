-- ===== src/Themes/Applied.antt =====
-- web/src/lib/themeStore.ts: what it is for a theme to be shown, and choosing one.
use pockode.Prelude.{
  ◌≡◌, refl, sym, true, some, List, [], ◌∷◌, String, is_some, if◌then◌else◌, ===_iff, arith,
  Bool-cases, inl, inr,
}
use pockode.Ws.Watch.{get}
use pockode.Themes.Registry.{
  keys, member, theme_names, ThemeMode, light, dark, system, Themes, is_valid_theme,
}
use pockode.Themes.Store.{
  get_initial_mode, get_initial_theme, resolve_mode, remove_classes, apply_theme, mode_name,
  set_mode, set_theme,
}

-- The document has the class of the theme of the store and no other, and is dark where the store
-- says so; the storage has what makes the same store again.
pub record IsShowing (s : Themes) : Type 0 where
  pub started : s.initialized ≡ true
  pub classes : s.theme_classes ≡ s.theme ∷ []
  pub dark : s.dark_class ≡ s.resolved_dark
  pub resolved : s.resolved_dark ≡ resolve_mode s.mode s.system_dark
  pub mode_stored : get_initial_mode s.stored_mode ≡ s.mode
  pub theme_stored : get_initial_theme s.stored_name ≡ s.theme

-- And the theme is one that there is.
pub record IsApplied (s : Themes) : Type 0 where
  pub showing : IsShowing s
  pub valid : is_valid_theme s.theme s ≡ true

pub get-keys {ℓ} :
    {V : Type ℓ} (name : String) (entries : List (String × V))
    → member name (keys entries) ≡ is_some (get name entries)
get-keys name [] = refl
get-keys name ((key, v) ∷ entries) = ground (arith, get-keys name entries)

pub remove_classes-nil : (names : List String) → remove_classes names [] ≡ []
remove_classes-nil [] = refl
remove_classes-nil (name ∷ names) = remove_classes-nil names

pub remove_classes-one :
    (names : List String) (c : String)
    → remove_classes names (c ∷ []) ≡ (if member c names then [] else c ∷ [])
remove_classes-one [] c = refl
remove_classes-one (name ∷ names) c =
    ground
      (arith, remove_classes-nil names, remove_classes-one names c, ===_iff c name, ===_iff name c)

-- A theme that is there leaves no class behind.
pub apply_theme-classes :
    (mode : ThemeMode) (name old : String) (s : Themes)
    → s.theme_classes ≡ old ∷ []
    → is_valid_theme old s ≡ true
    → (apply_theme mode name s).theme_classes ≡ name ∷ []
unfolding apply_theme is_valid_theme
apply_theme-classes mode name old s e v = elim (Bool-cases (member old theme_names)) [
  | inl b ↦
      rw (e, remove_classes-one theme_names old, b, remove_classes-nil (keys s.custom_themes)) refl
  | inr b ↦
      let custom : is_some (get old s.custom_themes) ≡ true = rw b at v in
      rw
        (
          e,
          remove_classes-one theme_names old,
          b,
          remove_classes-one (keys s.custom_themes) old,
          get-keys old s.custom_themes,
          custom,
        )
        refl
]

pub apply_theme-empty :
    (mode : ThemeMode) (name : String) (s : Themes)
    → s.theme_classes ≡ []
    → (apply_theme mode name s).theme_classes ≡ name ∷ []
unfolding apply_theme
apply_theme-empty mode name s e =
    rw (e, remove_classes-nil theme_names, remove_classes-nil (keys s.custom_themes)) refl

pub mode_again : (mode : ThemeMode) → get_initial_mode (some (mode_name mode)) ≡ mode
mode_again light = refl
mode_again dark = refl
mode_again system = refl

pub set_mode-IsApplied : (mode : ThemeMode) (s : Themes) → IsApplied s → IsApplied (set_mode mode s)
unfolding set_mode is_valid_theme apply_theme
set_mode-IsApplied mode s a = record {
  showing = record {
    started = a.showing.started;
    classes = apply_theme-classes mode s.theme s.theme s a.showing.classes a.valid;
    dark = refl;
    resolved = refl;
    mode_stored = mode_again mode;
    theme_stored = a.showing.theme_stored;
  };
  valid = a.valid;
}

pub set_theme-IsApplied : (name : String) (s : Themes) → IsApplied s → IsApplied (set_theme name s)
unfolding set_theme is_valid_theme apply_theme
set_theme-IsApplied name s a = elim (Bool-cases (is_valid_theme name s)) [
  | inr missing ↦ rw (missing, set_theme) a
  | inl found ↦
      rw (found, set_theme)
        (record {
          showing = record {
            started = a.showing.started;
            classes = apply_theme-classes s.mode name s.theme s a.showing.classes a.valid;
            dark = sym a.showing.resolved;
            resolved = a.showing.resolved;
            mode_stored = a.showing.mode_stored;
            theme_stored = refl;
          };
          valid = found;
        })
]
