-- ===== src/Themes/Store.antt =====
-- web/src/lib/themeStore.ts: choosing a theme, and following what becomes of the registry; with the
-- operations of web/src/lib/registries/themeRegistry.ts that notify it.
use pockode.Prelude.{
  Bool, true, false, Option, none, some, List, [], ◌∷◌, ◌++◌, String, get_or, if◌then◌else◌, ◌===◌,
}
use pockode.Ws.Watch.{set, delete}
use pockode.Themes.Registry.{
  ThemeInfo, keys, member, theme_names, ThemeMode, light, dark, system, Themes, is_valid_theme,
}

abbrev pub mode_name : ThemeMode → String
mode_name light = "light"
mode_name dark = "dark"
mode_name system = "system"

-- `getInitialMode`: a stored mode that is none of the three counts as "system".
abbrev pub get_initial_mode : Option String → ThemeMode
get_initial_mode none = system
get_initial_mode (some stored) =
    if stored === "light" then light else if stored === "dark" then dark else system

abbrev pub get_initial_theme : Option String → String
get_initial_theme stored = get_or stored "abyss"

-- `resolveMode(mode) === "dark"`
abbrev pub resolve_mode : ThemeMode → (system_dark : Bool) → Bool
resolve_mode light system_dark = false
resolve_mode dark system_dark = true
resolve_mode system system_dark = system_dark

-- `classList.remove` and `classList.add`.
abbrev pub remove_class : String → List String → List String
remove_class name [] = []
remove_class name (c ∷ classes) =
    if c === name then remove_class name classes else c ∷ remove_class name classes

abbrev pub remove_classes : List String → List String → List String
remove_classes [] classes = classes
remove_classes (name ∷ names) classes = remove_classes names (remove_class name classes)

abbrev pub add_class : String → List String → List String
add_class name classes = if member name classes then classes else classes ++ name ∷ []

unfoldable pub apply_theme : ThemeMode → String → Themes → Themes
apply_theme mode name s = record s {
  dark_class = resolve_mode mode s.system_dark;
  theme_classes =
      add_class name
        (remove_classes (keys s.custom_themes) (remove_classes theme_names s.theme_classes));
}

-- A page that is loaded, with what is stored and what the system prefers.
abbrev pub load_page : (stored_mode stored_name : Option String) (system_dark : Bool) → Themes
load_page stored_mode stored_name system_dark = record {
  custom_themes = [];
  styles = [];
  all_themes_cache = none;
  mode = get_initial_mode stored_mode;
  theme = get_initial_theme stored_name;
  resolved_dark = resolve_mode (get_initial_mode stored_mode) system_dark;
  initialized = false;
  stored_mode = stored_mode;
  stored_name = stored_name;
  dark_class = false;
  theme_classes = [];
  system_dark = system_dark;
}

unfoldable pub set_mode : ThemeMode → Themes → Themes
unfolding apply_theme
set_mode new_mode s =
    record (apply_theme new_mode s.theme (record s { stored_mode = some (mode_name new_mode) })) {
      mode = new_mode;
      resolved_dark = resolve_mode new_mode s.system_dark;
    }

unfoldable pub set_theme : String → Themes → Themes
unfolding apply_theme is_valid_theme
set_theme new_theme s =
    if is_valid_theme new_theme s
    then record (apply_theme s.mode new_theme (record s { stored_name = some new_theme })) {
      theme = new_theme;
    }
    else s

unfoldable pub init : Themes → Themes
unfolding apply_theme is_valid_theme
init s =
    if s.initialized
    then s
    else record (if is_valid_theme s.theme s
        then apply_theme s.mode s.theme s
        else record s { dark_class = resolve_mode s.mode s.system_dark }) { initialized = true }

abbrev pub is_system : ThemeMode → Bool
is_system system = true
is_system _ = false

-- The system's preference changed.
unfoldable pub on_system_change : Bool → Themes → Themes
unfolding apply_theme
on_system_change prefers_dark s =
    let s' = record s { system_dark = prefers_dark } in
    if s.initialized
    then if is_system s.mode
      then record (apply_theme system s.theme s') { resolved_dark = prefers_dark }
      else s'
    else s'

-- The listener that `init` adds to the registry.
unfoldable pub on_registry_change : Themes → Themes
unfolding apply_theme is_valid_theme
on_registry_change s =
    if is_valid_theme s.theme s
    then if member s.theme s.theme_classes then s else apply_theme s.mode s.theme s
    else record (apply_theme s.mode "abyss" (record s {
      theme_classes = remove_class s.theme s.theme_classes;
      stored_name = some "abyss";
    })) { theme = "abyss" }

unfoldable pub notify_theme_listeners : Themes → Themes
unfolding on_registry_change
notify_theme_listeners s =
    let s' = record s { all_themes_cache = none } in
    if s.initialized then on_registry_change s' else s'

-- What `registerTheme` returns.
pub data Unregister : Type 0 where
  nothing : Unregister
  theme : (name : String) → Unregister

unfoldable pub register_theme : String → ThemeInfo → (css : String) → Themes → Unregister × Themes
unfolding notify_theme_listeners
register_theme name info css s = if member name theme_names then (nothing, s) else (
  theme name,
  notify_theme_listeners
      (record s { custom_themes = set name info s.custom_themes; styles = set name css s.styles }),
)

unfoldable pub unregister : Unregister → Themes → Themes
unfolding notify_theme_listeners
unregister nothing s = s
unregister (theme name) s =
    notify_theme_listeners
      (record s { custom_themes = delete name s.custom_themes; styles = delete name s.styles })
