-- ===== src/Extensions/Tests.antt =====
-- The theorems about extensions, applied to one with a section, a configuration and a theme.
use pockode.Prelude.{◌≡◌, refl, Bool, true, false, none, ℕ, [], ◌∷◌, String, arith}
use pockode.Themes.Store.{load_page}
use pockode.Extensions.Sections.{Section}
use pockode.Extensions.{
  Registries, Extension, resets_chat_ui, register_settings, configure_chat_ui, load_extension,
  unload_extension, is_extension_loaded, returns,
}
use pockode.Extensions.Unloading.{load_unload}

abbrev section : String → ℕ → Section ℕ
section id priority = record { id = id; label = id; priority = priority; component = 7 }

abbrev registries : Registries ℕ
registries = record {
  sections = section "mode" 10 ∷ section "theme" 20 ∷ [];
  chat_ui = ("UserAvatar", 4) ∷ [];
  header_ui = [];
  sidebar_ui = [];
  themes = load_page none none false;
  loaded = ("avatars", resets_chat_ui ∷ []) ∷ [];
}

abbrev clock : (throws : Bool) → Extension ℕ
clock throws = record {
  id = "clock";
  calls = register_settings (section "zone" 15) ∷ configure_chat_ui (("maxWidth", 5) ∷ []) ∷ [];
  throws = throws;
}

load_unload_example :
    let loaded = load_extension (clock false) registries in
    let unloaded = unload_extension "clock" loaded.1 in
    (loaded.0 ≡ returns true)
    × (unloaded.0 ≡ true)
    × (unloaded.1.sections ≡ registries.sections)
    × (is_extension_loaded "clock" unloaded.1 ≡ false)
load_unload_example =
    load_unload (clock false) registries refl refl ((omega arith, tt), (tt, tt)) (refl, (refl, tt))
