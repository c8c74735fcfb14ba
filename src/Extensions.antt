-- ===== src/Extensions.antt =====
-- web/src/lib/extensions.ts and the registries that extensions change: settingsRegistry.ts,
-- chatUIRegistry.ts, headerUIRegistry.ts and sidebarUIRegistry.ts of web/src/lib/registries.
--
-- A component or a class of a configuration is a value of any type `C`. What an extension does when
-- it is activated is a list of calls of its context, which may end with an exception. The listeners
-- of the registries only render, those of the themes excepted.
pub mod Sections
pub mod Disposal
pub mod Unloading
mod Tests
use pockode.Prelude.{
  ℕ, Bool, true, false, Option, none, some, List, [], ◌∷◌, ◌++◌, String, is_some, if◌then◌else◌,
}
use Prim.Native.String
use pockode.Ws.Watch.{get, set, delete}
use pockode.Extensions.Sections.{Section, register_section, unregister_section}
use pockode.Themes.Registry.{ThemeInfo, Themes, keys}
use pockode.Themes.Store.{Unregister, register_theme, unregister}

-- `ChatUIConfig` and the like: the fields that are there.
abbrev pub Config : Type 0 → Type 0
Config C = List (String × C)

-- `{ ...config, ...newConfig }`
abbrev pub spread {ℓ} : {C : Type ℓ} → List (String × C) → List (String × C) → List (String × C)
spread config [] = config
spread config ((key, v) ∷ new_config) = spread (set key v config) new_config

-- What `dispose` calls.
pub data Disposable : Type 0 where
  unregisters_section : (id : String) → Disposable
  resets_chat_ui resets_header_ui resets_sidebar_ui : Disposable
  unregisters_theme : Unregister → Disposable

pub record Registries (C : Type 0) : Type 0 where
  pub sections : List (Section C)
  pub chat_ui : Config C
  pub header_ui : Config C
  pub sidebar_ui : Config C
  pub themes : Themes
  -- The contexts of the extensions that are loaded, by what they dispose of.
  pub loaded : List (String × List Disposable)

-- The calls of an `ExtensionContext`.
pub data ContextCall (C : Type 0) : Type 0 where
  register_settings : Section C → ContextCall C
  configure_chat_ui configure_header_ui configure_sidebar_ui : Config C → ContextCall C
  add_theme : (name : String) (info : ThemeInfo) (css : String) → ContextCall C

pub record Extension (C : Type 0) : Type 0 where
  pub id : String
  pub calls : List (ContextCall C)
  -- Does `activate` throw after these calls?
  pub throws : Bool

-- What `loadExtension` returns or throws.
pub data LoadResult : Type 0 where
  returns : Bool → LoadResult
  threw : LoadResult

module _ {C : Type 0} where
  -- `${extensionId}.${config.id}`
  abbrev pub namespaced : String → Section C → Section C
  namespaced extension_id config = record config {
    id = String.◌++◌ extension_id (String.◌++◌ "." config.id);
  }

  -- A call of the context that `createContext` makes: what it adds to `disposables`.
  unfoldable pub call_context : String → ContextCall C → Registries C → Disposable × Registries C
  call_context extension_id (register_settings config) s =
      let section = namespaced extension_id config in
      (unregisters_section section.id, record s { sections = register_section section s.sections })
  call_context extension_id (configure_chat_ui config) s =
      (resets_chat_ui, record s { chat_ui = spread s.chat_ui config })
  call_context extension_id (configure_header_ui config) s =
      (resets_header_ui, record s { header_ui = spread s.header_ui config })
  call_context extension_id (configure_sidebar_ui config) s =
      (resets_sidebar_ui, record s { sidebar_ui = spread s.sidebar_ui config })
  call_context extension_id (add_theme name info css) s =
      let r = register_theme name info css s.themes in
      (unregisters_theme r.0, record s { themes = r.1 })

  abbrev pub call_all :
      String → List (ContextCall C) → Registries C → List Disposable × Registries C
  call_all extension_id [] s = ([], s)
  call_all extension_id (call ∷ calls) s =
      let first = call_context extension_id call s in
      let rest = call_all extension_id calls first.1 in (first.0 ∷ rest.0, rest.1)

  unfoldable pub dispose_of : Disposable → Registries C → Registries C
  dispose_of (unregisters_section id) s = record s { sections = unregister_section id s.sections }
  dispose_of resets_chat_ui s = record s { chat_ui = [] }
  dispose_of resets_header_ui s = record s { header_ui = [] }
  dispose_of resets_sidebar_ui s = record s { sidebar_ui = [] }
  dispose_of (unregisters_theme u) s = record s { themes = unregister u s.themes }

  abbrev pub dispose : List Disposable → Registries C → Registries C
  dispose [] s = s
  dispose (d ∷ disposables) s = dispose disposables (dispose_of d s)

  unfoldable pub load_extension : Extension C → Registries C → LoadResult × Registries C
  load_extension extension s =
      let r = call_all extension.id extension.calls s in
      if is_some (get extension.id s.loaded)
      then (returns false, s)
      else if extension.throws
      then (threw, r.1)
      else (returns true, record (r.1) { loaded = set extension.id r.0 (r.1).loaded })

  unfoldable pub unload_extension : String → Registries C → Bool × Registries C
  unload_extension id s = elim (get id s.loaded) [
    | none ↦ (false, s)
    | some disposables ↦
        let s' = dispose disposables s in (true, record s' { loaded = delete id s'.loaded })
  ]

  abbrev pub is_extension_loaded : String → Registries C → Bool
  is_extension_loaded id s = is_some (get id s.loaded)

  abbrev pub get_loaded_extensions : Registries C → List String
  get_loaded_extensions s = keys s.loaded

  -- The loop of `loadAllExtensions` over the modules that are extensions; an exception ends it.
  unfoldable pub load_all_extensions : List (Extension C) → Registries C → Registries C
  unfolding load_extension
  load_all_extensions [] s = s
  load_all_extensions (extension ∷ extensions) s =
      let r = load_extension extension s in
      elim (r.0) [ threw ↦ r.1 | returns _ ↦ load_all_extensions extensions r.1 ]
