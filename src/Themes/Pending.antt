-- ===== src/Themes/Pending.antt =====
-- web/src/lib/themeStore.ts: a stored theme that is not registered yet.
use pockode.Prelude.{
  ◌≡◌, refl, ◌∙◌, ap, true, false, none, some, String, ===_iff, arith, ◌≢◌, if-of_false,
}
use pockode.Ws.Watch.{set}
use pockode.Ws.Subscribe.Delivery.{get-set}
use pockode.Themes.Registry.{ThemeInfo, member, theme_names, Themes, is_valid_theme}
use pockode.Themes.Store.{
  apply_theme, on_registry_change, notify_theme_listeners, Unregister, nothing, theme,
  register_theme,
}
use pockode.Themes.Shown.{notify_started}

on_registry_change_lost :
    (s : Themes)
    → is_valid_theme s.theme s ≡ false
    → ((on_registry_change s).theme ≡ "abyss") × ((on_registry_change s).stored_name ≡ some "abyss")
unfolding on_registry_change apply_theme
on_registry_change_lost s e = rw (e, on_registry_change) (refl, refl)

still_missing :
    (name : String) (info : ThemeInfo) (s : Themes)
    → is_valid_theme s.theme s ≡ false
    → name ≢ s.theme
    → is_valid_theme s.theme (record s { custom_themes = set name info s.custom_themes }) ≡ false
unfolding is_valid_theme
still_missing name info s missing other =
    ground (arith, get-set name s.theme info s.custom_themes, ===_iff name s.theme)

-- Where the stored theme is one that an extension has yet to register, the registration of any other
-- theme before it puts the default in its place, in the store and in the storage.
pub pending_theme_lost :
    (name : String) (info : ThemeInfo) (css : String) (s : Themes)
    → s.initialized ≡ true
    → is_valid_theme s.theme s ≡ false
    → member name theme_names ≡ false
    → name ≢ s.theme
    → let t = (register_theme name info css s).1 in
      (t.theme ≡ "abyss") × (t.stored_name ≡ some "abyss")
unfolding register_theme
pending_theme_lost name info css s started missing custom other =
    let t = record s {
      custom_themes = set name info s.custom_themes;
      styles = set name css s.styles;
    } in
    let e =
      ap (λ (p : Unregister × Themes). p.1)
        (if-of_false (member name theme_names) (nothing, s) (theme name, notify_theme_listeners t)
          custom)
      ∙ notify_started t started in
    let lost =
      on_registry_change_lost (record t { all_themes_cache = none })
        (still_missing name info s missing other) in
    (ap (λ (u : Themes). u.theme) e ∙ lost.0, ap (λ (u : Themes). u.stored_name) e ∙ lost.1)
