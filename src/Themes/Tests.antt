-- ===== src/Themes/Tests.antt =====
-- The theorems about themes, applied to a page with a builtin theme and one with an extension's.
use pockode.Prelude.{◌≡◌, refl, true, false, none, some, List, [], ◌∷◌, ◌++◌, is_some}
use pockode.Ws.Watch.{get}
use pockode.Themes.Registry.{
  Shades, ThemeInfo, theme_info, Themes, is_valid_theme, get_theme_info, get_all_themes, dark,
}
use pockode.Themes.Store.{load_page, init, Unregister}
use pockode.Themes.Applied.{IsApplied}
use pockode.Themes.Shown.{
  Operation, sets_mode, sets_theme, prefers, registers, unregisters, reads, perform_all,
  themes_shown,
}
use pockode.Themes.Snapshot.{all_themes_agree}

abbrev grey : Shades
grey = record { light = "#888888"; dark = "#777777" }

abbrev info : ThemeInfo
info = record {
  label = "Fog";
  description = "Low contrast";
  accent = grey;
  bg = grey;
  text = grey;
  text_muted = grey;
}

-- A theme is registered, chosen, listed and taken back, and the system changes its preference.
abbrev visit : List Operation
visit =
    registers "fog" info ".theme-fog {}"
    ∷ sets_theme "fog"
    ∷ reads
    ∷ prefers true
    ∷ unregisters (Unregister.theme "fog")
    ∷ sets_mode dark
    ∷ []

themes_shown_example :
    IsApplied (perform_all visit (init (load_page (some "light") (some "mint") true)))
themes_shown_example = themes_shown (some "light") (some "mint") true visit refl

-- A page whose stored theme is "fog", before any extension is loaded.
abbrev waiting : Themes
waiting = record (load_page none (some "fog") false) { initialized = true }

all_themes_agree_example :
    let s = perform_all visit (load_page none none false) in
    ((get_all_themes s).0 ≡ theme_info ++ s.custom_themes)
    × (is_valid_theme "fog" s ≡ is_some (get_theme_info "fog" s))
    × (get "fog" (get_all_themes s).0 ≡ get_theme_info "fog" s)
all_themes_agree_example = all_themes_agree none none false visit "fog"
