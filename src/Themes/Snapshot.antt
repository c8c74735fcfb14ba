-- ===== src/Themes/Snapshot.antt =====
-- web/src/lib/registries/themeRegistry.ts: the list of all themes and its cache.
use pockode.Prelude.{
  ◌≡◌, refl, ◌∙◌, ap, Bool, Option, none, List, [], ◌∷◌, ◌++◌, String, is_some, if◌then◌else◌,
  arith, Bool-cases, inl, inr, get_or,
}
use pockode.Ws.Watch.{get, set, delete}
use pockode.Themes.Registry.{
  ThemeInfo, theme_info, member, theme_names, Themes, is_valid_theme, get_theme_info,
  get_all_themes,
}
use pockode.Themes.Store.{
  apply_theme, load_page, set_mode, set_theme, init, on_system_change, on_registry_change,
  notify_theme_listeners, nothing, theme, register_theme, unregister,
}
use pockode.Themes.Shown.{
  Operation, sets_mode, sets_theme, prefers, registers, unregisters, inits, reads, perform,
  perform_all,
}
use pockode.Themes.Applied.{get-keys}

-- The cache is empty or up to date.
abbrev pub IsFresh : Themes → Type 0
IsFresh s =
    get_or s.all_themes_cache (theme_info ++ s.custom_themes) ≡ theme_info ++ s.custom_themes

get_all_themes_fresh :
    (s : Themes) → IsFresh s → (get_all_themes s).0 ≡ theme_info ++ s.custom_themes
unfolding get_all_themes
get_all_themes_fresh s f = ground arith

on_registry_change-cache :
    (s : Themes) → (on_registry_change s).all_themes_cache ≡ s.all_themes_cache
unfolding on_registry_change apply_theme
on_registry_change-cache s = ground arith

IsFresh-of_none : (s : Themes) → s.all_themes_cache ≡ none → IsFresh s
IsFresh-of_none s e = ap (λ cache. get_or cache (theme_info ++ s.custom_themes)) e

IsFresh-of_same :
    (s t : Themes)
    → t.all_themes_cache ≡ s.all_themes_cache
    → t.custom_themes ≡ s.custom_themes
    → IsFresh s
    → IsFresh t
IsFresh-of_same s t e e' f = cc

notify_theme_listeners-IsFresh : (s : Themes) → IsFresh (notify_theme_listeners s)
unfolding notify_theme_listeners
notify_theme_listeners-IsFresh s =
    IsFresh-of_none (notify_theme_listeners s)
      (ground (arith, on_registry_change-cache (record s { all_themes_cache = none })))

register_theme-IsFresh :
    (name : String) (info : ThemeInfo) (css : String) (s : Themes)
    → IsFresh s
    → IsFresh (register_theme name info css s).1
unfolding register_theme
register_theme-IsFresh name info css s f = elim (Bool-cases (member name theme_names)) [
  | inl e ↦ rw (e, register_theme) f
  | inr e ↦
      rw (e, register_theme)
        (notify_theme_listeners-IsFresh (record s {
          custom_themes = set name info s.custom_themes;
          styles = set name css s.styles;
        }))
]

get_all_themes-IsFresh : (s : Themes) → IsFresh s → IsFresh (get_all_themes s).1
unfolding get_all_themes
get_all_themes-IsFresh s f = ground arith

perform-IsFresh : (o : Operation) (s : Themes) → IsFresh s → IsFresh (perform o s)
unfolding set_mode set_theme on_system_change init apply_theme unregister
perform-IsFresh (sets_mode mode) s f = f
perform-IsFresh (sets_theme name) s f =
    IsFresh-of_same s (set_theme name s) (ground arith) (ground arith) f
perform-IsFresh (prefers prefers_dark) s f =
    IsFresh-of_same s (on_system_change prefers_dark s) (ground arith) (ground arith) f
perform-IsFresh (registers name info css) s f = register_theme-IsFresh name info css s f
perform-IsFresh (unregisters nothing) s f = f
perform-IsFresh (unregisters (theme name)) s f =
    notify_theme_listeners-IsFresh
      (record s { custom_themes = delete name s.custom_themes; styles = delete name s.styles })
perform-IsFresh inits s f = IsFresh-of_same s (init s) (ground arith) (ground arith) f
perform-IsFresh reads s f = get_all_themes-IsFresh s f

perform_all-IsFresh :
    (operations : List Operation) (s : Themes) → IsFresh s → IsFresh (perform_all operations s)
perform_all-IsFresh [] s f = f
perform_all-IsFresh (o ∷ operations) s f =
    perform_all-IsFresh operations (perform o s) (perform-IsFresh o s f)

get-append :
    (name : String) (xs ys : List (String × ThemeInfo))
    → get name (xs ++ ys) ≡ (if is_some (get name xs) then get name xs else get name ys)
get-append name [] ys = refl
get-append name ((key, info) ∷ xs) ys = ground (arith, get-append name xs ys)

names-info : (name : String) → member name theme_names ≡ is_some (get name theme_info)
unfolding theme_info
names-info name = get-keys name theme_info

-- Whatever came and went since the page was loaded, the list of all themes is the builtin ones and
-- those that are registered now, a theme is valid just where there is information on it, and that is
-- what the list has under its name.
pub all_themes_agree :
    (stored_mode stored_name : Option String) (system_dark : Bool) (operations : List Operation)
    (name : String)
    → let s = perform_all operations (load_page stored_mode stored_name system_dark) in
      ((get_all_themes s).0 ≡ theme_info ++ s.custom_themes)
      × (is_valid_theme name s ≡ is_some (get_theme_info name s))
      × (get name (get_all_themes s).0 ≡ get_theme_info name s)
unfolding is_valid_theme get_theme_info
all_themes_agree stored_mode stored_name system_dark operations name =
    let s = perform_all operations (load_page stored_mode stored_name system_dark) in
    let all =
      get_all_themes_fresh s
        (perform_all-IsFresh operations (load_page stored_mode stored_name system_dark) refl) in
    (
      all,
      ground (arith, names-info name),
      ap (get name) all
          ∙ get-append name theme_info s.custom_themes
          ∙ ground (arith, names-info name),
    )
