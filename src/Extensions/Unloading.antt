-- ===== src/Extensions/Unloading.antt =====
-- web/src/lib/extensions.ts: what is left of an extension when it is unloaded, or when it fails.
use pockode.Prelude.{
  ◌≡◌, refl, ◌∙◌, ap, Bool, true, false, none, some, List, [], ◌∷◌, String, is_some, if◌then◌else◌,
  ◌===◌, ===_iff, arith, All, if-of_true, if-of_false,
}
use pockode.Ws.Watch.{get, set, delete}
use pockode.Ws.Subscribe.Delivery.{get-set, get-delete}
use pockode.Themes.Registry.{member}
use pockode.Themes.Store.{register_theme}
use pockode.Extensions.Sections.{Section}
use pockode.Extensions.Sections.Order.{IsSorted}
use pockode.Extensions.{
  Disposable, unregisters_section, resets_chat_ui, resets_header_ui, resets_sidebar_ui,
  unregisters_theme, Registries, ContextCall, register_settings, configure_chat_ui,
  configure_header_ui, configure_sidebar_ui, add_theme, Extension, returns, threw, namespaced,
  call_context, call_all, dispose_of, dispose, is_extension_loaded, load_extension,
  unload_extension,
}
use pockode.Extensions.Disposal.{
  section_ids, without, All-member, dispose-sections, call_all-ids, call_all-sections,
  without-fresh,
}

deleted :
    {V : Type 0} (id : String) (entries : List (String × V)) → get id (delete id entries) ≡ none
deleted id entries = ground (arith, get-delete id id entries, ===_iff id id)

module _ {C : Type 0} where
  dispose-loaded : (ds : List Disposable) (s : Registries C) → (dispose ds s).loaded ≡ s.loaded
  unfolding dispose_of
  dispose-loaded [] s = refl
  dispose-loaded (unregisters_section id ∷ ds) s =
      dispose-loaded ds (dispose_of (unregisters_section id) s)
  dispose-loaded (resets_chat_ui ∷ ds) s = dispose-loaded ds (dispose_of resets_chat_ui s)
  dispose-loaded (resets_header_ui ∷ ds) s = dispose-loaded ds (dispose_of resets_header_ui s)
  dispose-loaded (resets_sidebar_ui ∷ ds) s = dispose-loaded ds (dispose_of resets_sidebar_ui s)
  dispose-loaded (unregisters_theme u ∷ ds) s =
      dispose-loaded ds (dispose_of (unregisters_theme u) s)

  call_context-loaded :
      (e : String) (call : ContextCall C) (s : Registries C)
      → (call_context e call s).1.loaded ≡ s.loaded
  unfolding call_context
  call_context-loaded e (register_settings config) s = refl
  call_context-loaded e (configure_chat_ui config) s = refl
  call_context-loaded e (configure_header_ui config) s = refl
  call_context-loaded e (configure_sidebar_ui config) s = refl
  call_context-loaded e (add_theme name info css) s = refl

  call_all-loaded :
      (e : String) (calls : List (ContextCall C)) (s : Registries C)
      → (call_all e calls s).1.loaded ≡ s.loaded
  call_all-loaded e [] s = refl
  call_all-loaded e (call ∷ calls) s =
      call_all-loaded e calls (call_context e call s).1 ∙ call_context-loaded e call s

  -- What `loadExtension` does with an extension that is not loaded.
  loads :
      (x : Extension C) (s : Registries C)
      → get x.id s.loaded ≡ none
      → let r = call_all x.id x.calls s in
        load_extension x s ≡ (
          if x.throws
          then (threw, r.1)
          else (returns true, record (r.1) { loaded = set x.id r.0 (r.1).loaded }))
  unfolding load_extension
  loads x s h = rw h refl

  stays_out :
      (x : Extension C) (s : Registries C)
      → get x.id s.loaded ≡ none
      → get x.id (call_all x.id x.calls s).1.loaded ≡ none
  stays_out x s h = ap (get x.id) (call_all-loaded x.id x.calls s) ∙ h

  unloads :
      (id : String) (ds : List Disposable) (s : Registries C)
      → get id s.loaded ≡ some ds
      → unload_extension id s
        ≡ (true, record (dispose ds s) { loaded = delete id (dispose ds s).loaded })
  unfolding unload_extension
  unloads id ds s h = rw (h, unload_extension) refl

  abbrev loaded_registries : Extension C → Registries C → Registries C
  loaded_registries x s =
      let r = call_all x.id x.calls s in record (r.1) { loaded = set x.id r.0 (r.1).loaded }

  -- What loading and then unloading an extension comes to.
  load_then_unload :
      (x : Extension C) (s : Registries C)
      → get x.id s.loaded ≡ none
      → x.throws ≡ false
      → let s' = dispose (call_all x.id x.calls s).0 (loaded_registries x s) in
        (load_extension x s ≡ (returns true, loaded_registries x s))
        × (unload_extension x.id (load_extension x s).1
            ≡ (true, record s' { loaded = delete x.id s'.loaded }))
  load_then_unload x s h t =
      let ds = (call_all x.id x.calls s).0 in
      let start = loads x s h ∙ if-of_false x.throws _ _ t in
      let in_map : get x.id (loaded_registries x s).loaded ≡ some ds =
        get-set x.id x.id ds (call_all x.id x.calls s).1.loaded
        ∙ if-of_true (x.id === x.id) _ _ ((===_iff x.id x.id).1 refl) in
      (
        start,
        ap (λ p. unload_extension x.id p.1) start ∙ unloads x.id ds (loaded_registries x s) in_map,
      )

  -- An extension that is loaded without an exception and then unloaded again, with section ids that
  -- no section had before, leaves the settings page as it was, and is not loaded.
  pub load_unload :
      (x : Extension C) (s : Registries C)
      → get x.id s.loaded ≡ none
      → x.throws ≡ false
      → IsSorted s.sections
      → All (λ (y : Section C). member y.id (section_ids x.id x.calls) ≡ false) s.sections
      → let loaded = load_extension x s in
        let unloaded = unload_extension x.id loaded.1 in
        (loaded.0 ≡ returns true)
        × (unloaded.0 ≡ true)
        × (unloaded.1.sections ≡ s.sections)
        × (is_extension_loaded x.id unloaded.1 ≡ false)
  load_unload x s h t sorted fresh =
      let ds = (call_all x.id x.calls s).0 in
      let ids = section_ids x.id x.calls in
      let both = load_then_unload x s h t in
      let s' = dispose ds (loaded_registries x s) in
      let same =
        dispose-sections ds (loaded_registries x s)
        ∙ ap (λ l. without l (call_all x.id x.calls s).1.sections) (call_all-ids x.id x.calls s)
        ∙ call_all-sections x.id x.calls ids s (All-member ids []) sorted
        ∙ without-fresh ids s.sections fresh in
      (
        ap (λ p. p.0) both.0,
        ap (λ p. p.0) both.1,
        ap (λ p. p.1.sections) both.1 ∙ same,
        ap (λ p. is_extension_loaded x.id p.1) both.1 ∙ ap is_some (deleted x.id s'.loaded),
      )

  abbrev pub configures_chat_ui : List (ContextCall C) → Bool
  configures_chat_ui [] = false
  configures_chat_ui (configure_chat_ui config ∷ calls) = true
  configures_chat_ui (_ ∷ calls) = configures_chat_ui calls

  dispose-nil :
      (ds : List Disposable) (s : Registries C) → s.chat_ui ≡ [] → (dispose ds s).chat_ui ≡ []
  unfolding dispose_of
  dispose-nil [] s h = h
  dispose-nil (unregisters_section id ∷ ds) s h =
      dispose-nil ds (dispose_of (unregisters_section id) s) h
  dispose-nil (resets_chat_ui ∷ ds) s h = dispose-nil ds (dispose_of resets_chat_ui s) refl
  dispose-nil (resets_header_ui ∷ ds) s h = dispose-nil ds (dispose_of resets_header_ui s) h
  dispose-nil (resets_sidebar_ui ∷ ds) s h = dispose-nil ds (dispose_of resets_sidebar_ui s) h
  dispose-nil (unregisters_theme u ∷ ds) s h = dispose-nil ds (dispose_of (unregisters_theme u) s) h

  dispose-chat_ui :
      (e : String) (calls : List (ContextCall C)) (s t : Registries C)
      → configures_chat_ui calls ≡ true
      → (dispose (call_all e calls s).0 t).chat_ui ≡ []
  unfolding call_context dispose_of
  dispose-chat_ui e [] s t h = ground arith
  dispose-chat_ui e (register_settings config ∷ calls) s t h =
      dispose-chat_ui e calls (call_context e (register_settings config) s).1
        (dispose_of (unregisters_section (namespaced e config).id) t) h
  dispose-chat_ui e (configure_chat_ui config ∷ calls) s t h =
      dispose-nil (call_all e calls (call_context e (configure_chat_ui config) s).1).0
        (dispose_of resets_chat_ui t) refl
  dispose-chat_ui e (configure_header_ui config ∷ calls) s t h =
      dispose-chat_ui e calls (call_context e (configure_header_ui config) s).1
        (dispose_of resets_header_ui t) h
  dispose-chat_ui e (configure_sidebar_ui config ∷ calls) s t h =
      dispose-chat_ui e calls (call_context e (configure_sidebar_ui config) s).1
        (dispose_of resets_sidebar_ui t) h
  dispose-chat_ui e (add_theme name info css ∷ calls) s t h =
      dispose-chat_ui e calls (call_context e (add_theme name info css) s).1
        (dispose_of (unregisters_theme (register_theme name info css s.themes).0) t) h

  -- When an extension that configured the chat's UI is unloaded, the configuration is empty, also of
  -- what other extensions set, which stay loaded.
  pub unload_resets_config :
      (x : Extension C) (s : Registries C)
      → get x.id s.loaded ≡ none
      → x.throws ≡ false
      → configures_chat_ui x.calls ≡ true
      → (other : String)
      → let unloaded = (unload_extension x.id (load_extension x s).1).1 in
        (unloaded.chat_ui ≡ [])
        × (get other unloaded.loaded ≡ (if x.id === other then none else get other s.loaded))
  unload_resets_config x s h t c other =
      let ds = (call_all x.id x.calls s).0 in
      let both = load_then_unload x s h t in
      let s' = dispose ds (loaded_registries x s) in
      let kept : s'.loaded ≡ set x.id ds s.loaded =
        dispose-loaded ds (loaded_registries x s)
        ∙ ap (set x.id ds) (call_all-loaded x.id x.calls s) in
      (
        ap (λ p. p.1.chat_ui) both.1 ∙ dispose-chat_ui x.id x.calls s (loaded_registries x s) c,
        ap (λ p. get other p.1.loaded) both.1
            ∙ get-delete x.id other s'.loaded
            ∙ rw kept (ground (arith, get-set x.id other ds s.loaded)),
      )

  -- If activation throws, what the extension registered until then stays, while the extension is not
  -- loaded, so that unloading it changes nothing.
  pub activate_throws_leaks :
      (x : Extension C) (s : Registries C)
      → get x.id s.loaded ≡ none
      → x.throws ≡ true
      → let r = (call_all x.id x.calls s).1 in
        (load_extension x s ≡ (threw, r)) × (unload_extension x.id r ≡ (false, r))
  unfolding unload_extension
  activate_throws_leaks x s h t =
      (loads x s h ∙ if-of_true x.throws _ _ t, rw (stays_out x s h, unload_extension) refl)
