-- ===== src/Themes/Registry.antt =====
-- web/src/lib/registries/themeRegistry.ts: the builtin themes and those that extensions register.
use pockode.Prelude.{
  Bool, ◌||◌, Option, none, some, List, [], ◌∷◌, ◌++◌, String, any, is_some, if◌then◌else◌, ◌===◌,
}
use pockode.Ws.Watch.{get}

pub record Shades : Type 0 where
  pub light : String
  pub dark : String

pub record ThemeInfo : Type 0 where
  pub label : String
  pub description : String
  pub accent : Shades
  pub bg : Shades
  pub text : Shades
  pub text_muted : Shades

abbrev shades : String → String → Shades
shades light dark = record { light = light; dark = dark }

-- `THEME_INFO`
unfoldable pub theme_info : List (String × ThemeInfo)
theme_info =
    (
      "abyss",
      record {
        label = "Abyss";
        description = "Ocean depths";
        accent = shades "#0d9488" "#2dd4bf";
        bg = shades "#f8fafb" "#0c1220";
        text = shades "#0f172a" "#f1f5f9";
        text_muted = shades "#64748b" "#94a3b8";
      },
    )
    ∷ (
      "aurora",
      record {
        label = "Aurora";
        description = "Northern lights";
        accent = shades "#9333ea" "#c084fc";
        bg = shades "#fbf9fe" "#150a24";
        text = shades "#1e1030" "#f5f3ff";
        text_muted = shades "#6b21a8" "#a78bfa";
      },
    )
    ∷ (
      "ember",
      record {
        label = "Ember";
        description = "Glowing coals";
        accent = shades "#c2410c" "#fb923c";
        bg = shades "#fefcfa" "#1c1412";
        text = shades "#1c1412" "#fef3e2";
        text_muted = shades "#9a3412" "#fdba74";
      },
    )
    ∷ (
      "mint",
      record {
        label = "Mint";
        description = "Cool breeze";
        accent = shades "#0891b2" "#22d3ee";
        bg = shades "#f8fcfa" "#0a1610";
        text = shades "#083344" "#ecfeff";
        text_muted = shades "#0e7490" "#67e8f9";
      },
    )
    ∷ (
      "void",
      record {
        label = "Void";
        description = "Pure simplicity";
        accent = shades "#18181b" "#fafafa";
        bg = shades "#ffffff" "#09090b";
        text = shades "#09090b" "#fafafa";
        text_muted = shades "#71717a" "#a1a1aa";
      },
    )
    ∷ []

-- The keys of a map.
abbrev pub keys {ℓ} : {V : Type ℓ} → List (String × V) → List String
keys [] = []
keys ((name, v) ∷ entries) = name ∷ keys entries

abbrev pub member : String → List String → Bool
member name names = any (λ x. x === name) names

abbrev pub theme_names : List String
theme_names = "abyss" ∷ "aurora" ∷ "ember" ∷ "mint" ∷ "void" ∷ []

pub data ThemeMode : Type 0 where
  light dark system : ThemeMode

pub record Themes : Type 0 where
  pub custom_themes : List (String × ThemeInfo)
  -- The style elements, by the name of their theme.
  pub styles : List (String × String)
  pub all_themes_cache : Option (List (String × ThemeInfo))
  pub mode : ThemeMode
  pub theme : String
  -- `resolvedMode === "dark"`
  pub resolved_dark : Bool
  pub initialized : Bool
  pub stored_mode : Option String
  pub stored_name : Option String
  pub dark_class : Bool
  pub theme_classes : List String
  -- Does the system prefer dark colours?
  pub system_dark : Bool

unfoldable pub is_valid_theme : String → Themes → Bool
is_valid_theme name s = member name theme_names || is_some (get name s.custom_themes)

unfoldable pub get_theme_info : String → Themes → Option ThemeInfo
get_theme_info name s =
    if member name theme_names then get name theme_info else get name s.custom_themes

-- `getAllThemesSnapshot`: the list, and the state with the cache filled.
unfoldable pub get_all_themes : Themes → List (String × ThemeInfo) × Themes
get_all_themes s = elim s.all_themes_cache [
  | some themes ↦ (themes, s)
  | none ↦
      let themes = theme_info ++ s.custom_themes in
      (themes, record s { all_themes_cache = some themes })
]
