-- ===== src/Themes/Shown.antt =====
-- web/src/lib/themeStore.ts: the document, the storage and the store, while themes come and go.
use pockode.Prelude.{
  ◌≡◌, refl, ◌∙◌, ap, sym, Bool, true, false, Option, none, List, [], ◌∷◌, String, ===_iff, arith,
  Bool-cases, inl, inr, if-of_true, subst,
}
use pockode.Ws.Watch.{set, delete}
use pockode.Themes.Registry.{
  ThemeInfo, member, theme_names, ThemeMode, light, dark, system, Themes, is_valid_theme,
  get_all_themes,
}
use pockode.Themes.Store.{
  get_initial_theme, resolve_mode, remove_class, apply_theme, is_system, load_page, set_mode,
  set_theme, init, on_system_change, on_registry_change, notify_theme_listeners, Unregister,
  nothing, theme, register_theme, unregister,
}
use pockode.Themes.Applied.{
  IsShowing, IsApplied, apply_theme-classes, apply_theme-empty, set_mode-IsApplied,
  set_theme-IsApplied,
}

pub data Operation : Type 0 where
  sets_mode : ThemeMode → Operation
  sets_theme : String → Operation
  prefers : (prefers_dark : Bool) → Operation
  registers : (name : String) (info : ThemeInfo) (css : String) → Operation
  unregisters : Unregister → Operation
  inits reads : Operation

abbrev pub perform : Operation → Themes → Themes
perform (sets_mode mode) s = set_mode mode s
perform (sets_theme name) s = set_theme name s
perform (prefers prefers_dark) s = on_system_change prefers_dark s
perform (registers name info css) s = (register_theme name info css s).1
perform (unregisters u) s = unregister u s
perform inits s = init s
perform reads s = (get_all_themes s).1

abbrev pub perform_all : List Operation → Themes → Themes
perform_all [] s = s
perform_all (o ∷ operations) s = perform_all operations (perform o s)

resolve_of_system : (mode : ThemeMode) (b : Bool) → is_system mode ≡ true → b ≡ resolve_mode mode b
resolve_of_system light b h = ground arith
resolve_of_system dark b h = ground arith
resolve_of_system system b h = refl

resolve_of_fixed :
    (mode : ThemeMode) (b c : Bool)
    → is_system mode ≡ false
    → resolve_mode mode b ≡ resolve_mode mode c
resolve_of_fixed light b c h = refl
resolve_of_fixed dark b c h = refl
resolve_of_fixed system b c h = ground arith

prefers-IsApplied :
    (prefers_dark : Bool) (s : Themes) → IsApplied s → IsApplied (on_system_change prefers_dark s)
unfolding on_system_change is_valid_theme apply_theme
prefers-IsApplied prefers_dark s a = elim (Bool-cases (is_system s.mode)) [
  | inl e ↦
      rw (a.showing.started, e, on_system_change)
        (record {
          showing = record {
            started = refl;
            classes = apply_theme-classes system s.theme s.theme s a.showing.classes a.valid;
            dark = refl;
            resolved = resolve_of_system s.mode prefers_dark e;
            mode_stored = a.showing.mode_stored;
            theme_stored = a.showing.theme_stored;
          };
          valid = a.valid;
        })
  | inr e ↦
      rw (a.showing.started, e, on_system_change)
        (record {
          showing = record {
            started = refl;
            classes = a.showing.classes;
            dark = a.showing.dark;
            resolved = a.showing.resolved ∙ resolve_of_fixed s.mode s.system_dark prefers_dark e;
            mode_stored = a.showing.mode_stored;
            theme_stored = a.showing.theme_stored;
          };
          valid = a.valid;
        })
]

member-one : (c : String) (classes : List String) → classes ≡ c ∷ [] → member c classes ≡ true
member-one c classes e = ap (member c) e ∙ ground (arith, ===_iff c c)

remove_class-one :
    (c : String) (classes : List String) → classes ≡ c ∷ [] → remove_class c classes ≡ []
remove_class-one c classes e = ap (remove_class c) e ∙ ground (arith, ===_iff c c)

-- After the registry changed, the theme that is shown is one that there is.
on_registry_change-IsApplied : (s : Themes) → IsShowing s → IsApplied (on_registry_change s)
unfolding on_registry_change is_valid_theme apply_theme
on_registry_change-IsApplied s a = elim (Bool-cases (is_valid_theme s.theme s)) [
  | inl v ↦
      rw (v, on_registry_change)
        (rw (member-one s.theme s.theme_classes a.classes) (record { showing = a; valid = v }))
  | inr v ↦
      rw (v, on_registry_change)
        (record {
          showing = record {
            started = a.started;
            classes =
                apply_theme-empty s.mode "abyss"
                  (record s { theme_classes = remove_class s.theme s.theme_classes })
                  (remove_class-one s.theme s.theme_classes a.classes);
            dark = sym a.resolved;
            resolved = a.resolved;
            mode_stored = a.mode_stored;
            theme_stored = refl;
          };
          valid = refl;
        })
]

pub notify_started :
    (s : Themes)
    → s.initialized ≡ true
    → notify_theme_listeners s ≡ on_registry_change (record s { all_themes_cache = none })
unfolding notify_theme_listeners
notify_started s e = if-of_true s.initialized _ _ e

notify_theme_listeners-IsApplied :
    (custom_themes : List (String × ThemeInfo)) (styles : List (String × String)) (s : Themes)
    → IsShowing s
    → IsApplied
        (notify_theme_listeners (record s { custom_themes = custom_themes; styles = styles }))
notify_theme_listeners-IsApplied custom_themes styles s a =
    let t = record s { custom_themes = custom_themes; styles = styles } in
    subst IsApplied (sym (notify_started t a.started)) (
      on_registry_change-IsApplied (record t { all_themes_cache = none })
        (record {
          started = a.started;
          classes = a.classes;
          dark = a.dark;
          resolved = a.resolved;
          mode_stored = a.mode_stored;
          theme_stored = a.theme_stored;
        }))

register_theme-IsApplied :
    (name : String) (info : ThemeInfo) (css : String) (s : Themes)
    → IsApplied s
    → IsApplied ((register_theme name info css s).1)
unfolding register_theme
register_theme-IsApplied name info css s a = elim (Bool-cases (member name theme_names)) [
  | inl e ↦ rw (e, register_theme) a
  | inr e ↦
      rw (e, register_theme)
        (notify_theme_listeners-IsApplied (set name info s.custom_themes) (set name css s.styles) s
          a.showing)
]

unregister-IsApplied : (u : Unregister) (s : Themes) → IsApplied s → IsApplied (unregister u s)
unfolding unregister
unregister-IsApplied nothing s a = a
unregister-IsApplied (theme name) s a =
    notify_theme_listeners-IsApplied (delete name s.custom_themes) (delete name s.styles) s
      a.showing

init-IsApplied : (s : Themes) → IsApplied s → IsApplied (init s)
unfolding init
init-IsApplied s a = subst IsApplied (sym (if-of_true s.initialized _ _ a.showing.started)) a

get_all_themes-IsApplied : (s : Themes) → IsApplied s → IsApplied ((get_all_themes s).1)
unfolding get_all_themes is_valid_theme
get_all_themes-IsApplied s a = record {
  showing = record {
    started = ground (arith, a.showing.started);
    classes = ground (arith, a.showing.classes);
    dark = ground (arith, a.showing.dark);
    resolved = ground (arith, a.showing.resolved);
    mode_stored = ground (arith, a.showing.mode_stored);
    theme_stored = ground (arith, a.showing.theme_stored);
  };
  valid = ground (arith, a.valid);
}

perform-IsApplied : (o : Operation) (s : Themes) → IsApplied s → IsApplied (perform o s)
perform-IsApplied (sets_mode mode) s a = set_mode-IsApplied mode s a
perform-IsApplied (sets_theme name) s a = set_theme-IsApplied name s a
perform-IsApplied (prefers prefers_dark) s a = prefers-IsApplied prefers_dark s a
perform-IsApplied (registers name info css) s a = register_theme-IsApplied name info css s a
perform-IsApplied (unregisters u) s a = unregister-IsApplied u s a
perform-IsApplied inits s a = init-IsApplied s a
perform-IsApplied reads s a = get_all_themes-IsApplied s a

perform_all-IsApplied :
    (operations : List Operation) (s : Themes) → IsApplied s → IsApplied (perform_all operations s)
perform_all-IsApplied [] s a = a
perform_all-IsApplied (o ∷ operations) s a =
    perform_all-IsApplied operations (perform o s) (perform-IsApplied o s a)

load_page-IsApplied :
    (stored_mode stored_name : Option String) (system_dark : Bool)
    → member (get_initial_theme stored_name) theme_names ≡ true
    → IsApplied (init (load_page stored_mode stored_name system_dark))
unfolding init is_valid_theme apply_theme
load_page-IsApplied stored_mode stored_name system_dark h =
    rw (h, init)
      (record {
        showing = record {
          started = refl;
          classes = refl;
          dark = refl;
          resolved = refl;
          mode_stored = refl;
          theme_stored = refl;
        };
        valid = rw h refl;
      })

-- If the stored theme is builtin or none is stored, then from `init` on, whatever is chosen,
-- registered, unregistered or preferred by the system: the theme of the store is one that there is,
-- the document has its class and no other theme's and is dark just where the resolved mode is, and
-- the storage has the mode and the theme of the store.
pub themes_shown :
    (stored_mode stored_name : Option String) (system_dark : Bool) (operations : List Operation)
    → member (get_initial_theme stored_name) theme_names ≡ true
    → IsApplied (perform_all operations (init (load_page stored_mode stored_name system_dark)))
themes_shown stored_mode stored_name system_dark operations h =
    perform_all-IsApplied operations (init (load_page stored_mode stored_name system_dark))
      (load_page-IsApplied stored_mode stored_name system_dark h)
