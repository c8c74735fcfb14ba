-- ===== src/Extensions/Disposal.antt =====
-- web/src/lib/extensions.ts: the sections of the settings page once an extension is disposed of.
use pockode.Prelude.{
  ◌≡◌, refl, ◌∙◌, ap, sym, true, false, not, List, [], ◌∷◌, ◌++◌, String, keep, ===_iff, arith, All,
  subst, append_assoc,
}
use pockode.Themes.Registry.{member}
use pockode.Extensions.Sections.{Section, insert, register_section, unregister_section}
use pockode.Extensions.Sections.Order.{IsSorted, register_section-insert, register_section-IsSorted}
use pockode.Extensions.{
  Disposable, unregisters_section, resets_chat_ui, resets_header_ui, resets_sidebar_ui,
  unregisters_theme, Registries, ContextCall, register_settings, configure_chat_ui,
  configure_header_ui, configure_sidebar_ui, add_theme, namespaced, call_context, call_all,
  dispose_of, dispose,
}

abbrev pub disposed_ids : List Disposable → List String
disposed_ids [] = []
disposed_ids (unregisters_section id ∷ ds) = id ∷ disposed_ids ds
disposed_ids (resets_chat_ui ∷ ds) = disposed_ids ds
disposed_ids (resets_header_ui ∷ ds) = disposed_ids ds
disposed_ids (resets_sidebar_ui ∷ ds) = disposed_ids ds
disposed_ids (unregisters_theme u ∷ ds) = disposed_ids ds

pub All-member : (ids more : List String) → All (λ id. member id (more ++ ids) ≡ true) ids
All-member [] more = tt
All-member (id ∷ ids) more = (
  member_middle more,
  subst (λ l. All (λ x. member x l ≡ true) ids) (append_assoc more (id ∷ []) ids)
      (All-member ids (more ++ id ∷ [])),
)
  where
    member_middle : (us : List String) → member id (us ++ id ∷ ids) ≡ true
    member_middle [] = ground (arith, ===_iff id id)
    member_middle (u ∷ us) = ground (arith, member_middle us)

module _ {C : Type 0} where
  -- The ids of the sections that an extension registers.
  abbrev pub section_ids : String → List (ContextCall C) → List String
  section_ids e [] = []
  section_ids e (register_settings config ∷ calls) = (namespaced e config).id ∷ section_ids e calls
  section_ids e (configure_chat_ui config ∷ calls) = section_ids e calls
  section_ids e (configure_header_ui config ∷ calls) = section_ids e calls
  section_ids e (configure_sidebar_ui config ∷ calls) = section_ids e calls
  section_ids e (add_theme name info css ∷ calls) = section_ids e calls

  abbrev pub without : List String → List (Section C) → List (Section C)
  without ids sections = keep (λ (x : Section C). not (member x.id ids)) sections

  without-nil : (sections : List (Section C)) → without [] sections ≡ sections
  without-nil [] = refl
  without-nil (x ∷ sections) = ap (◌∷◌ x) (without-nil sections)

  without-unregister :
      (id : String) (ids : List String) (sections : List (Section C))
      → without ids (unregister_section id sections) ≡ without (id ∷ ids) sections
  unfolding unregister_section
  without-unregister id ids [] = refl
  without-unregister id ids (x ∷ sections) =
      ground (arith, without-unregister id ids sections, ===_iff x.id id, ===_iff id x.id)

  pub dispose-sections :
      (ds : List Disposable) (s : Registries C)
      → (dispose ds s).sections ≡ without (disposed_ids ds) s.sections
  unfolding dispose_of
  dispose-sections [] s = sym (without-nil s.sections)
  dispose-sections (unregisters_section id ∷ ds) s =
      dispose-sections ds (dispose_of (unregisters_section id) s)
      ∙ without-unregister id (disposed_ids ds) s.sections
  dispose-sections (resets_chat_ui ∷ ds) s = dispose-sections ds (dispose_of resets_chat_ui s)
  dispose-sections (resets_header_ui ∷ ds) s = dispose-sections ds (dispose_of resets_header_ui s)
  dispose-sections (resets_sidebar_ui ∷ ds) s = dispose-sections ds (dispose_of resets_sidebar_ui s)
  dispose-sections (unregisters_theme u ∷ ds) s =
      dispose-sections ds (dispose_of (unregisters_theme u) s)

  pub call_all-ids :
      (e : String) (calls : List (ContextCall C)) (s : Registries C)
      → disposed_ids (call_all e calls s).0 ≡ section_ids e calls
  unfolding call_context
  call_all-ids e [] s = refl
  call_all-ids e (register_settings config ∷ calls) s =
      ap (◌∷◌ (namespaced e config).id)
        (call_all-ids e calls ((call_context e (register_settings config) s).1))
  call_all-ids e (configure_chat_ui config ∷ calls) s =
      call_all-ids e calls ((call_context e (configure_chat_ui config) s).1)
  call_all-ids e (configure_header_ui config ∷ calls) s =
      call_all-ids e calls ((call_context e (configure_header_ui config) s).1)
  call_all-ids e (configure_sidebar_ui config ∷ calls) s =
      call_all-ids e calls ((call_context e (configure_sidebar_ui config) s).1)
  call_all-ids e (add_theme name info css ∷ calls) s =
      call_all-ids e calls ((call_context e (add_theme name info css) s).1)

  without-insert :
      (ids : List String) (x : Section C) (sections : List (Section C))
      → member x.id ids ≡ true
      → without ids (insert x sections) ≡ without ids sections
  without-insert ids x [] h = ground arith
  without-insert ids x (y ∷ sections) h = ground (arith, without-insert ids x sections)

  without-register :
      (ids : List String) (x : Section C) (sections : List (Section C))
      → IsSorted sections
      → member x.id ids ≡ true
      → without ids (register_section x sections) ≡ without ids sections
  without-register ids x sections s h =
      ap (without ids) (register_section-insert x sections s) ∙ without-insert ids x sections h

  pub call_all-sections :
      (e : String) (calls : List (ContextCall C)) (ids : List String) (s : Registries C)
      → All (λ id. member id ids ≡ true) (section_ids e calls)
      → IsSorted s.sections
      → without ids (call_all e calls s).1.sections ≡ without ids s.sections
  unfolding call_context
  call_all-sections e [] ids s h sorted = refl
  call_all-sections e (register_settings config ∷ calls) ids s h sorted =
      call_all-sections e calls ids ((call_context e (register_settings config) s).1) h.1
        (register_section-IsSorted (namespaced e config) s.sections)
      ∙ without-register ids (namespaced e config) s.sections sorted h.0
  call_all-sections e (configure_chat_ui config ∷ calls) ids s h sorted =
      call_all-sections e calls ids ((call_context e (configure_chat_ui config) s).1) h sorted
  call_all-sections e (configure_header_ui config ∷ calls) ids s h sorted =
      call_all-sections e calls ids ((call_context e (configure_header_ui config) s).1) h sorted
  call_all-sections e (configure_sidebar_ui config ∷ calls) ids s h sorted =
      call_all-sections e calls ids ((call_context e (configure_sidebar_ui config) s).1) h sorted
  call_all-sections e (add_theme name info css ∷ calls) ids s h sorted =
      call_all-sections e calls ids ((call_context e (add_theme name info css) s).1) h sorted

  pub without-fresh :
      (ids : List String) (sections : List (Section C))
      → All (λ (x : Section C). member x.id ids ≡ false) sections
      → without ids sections ≡ sections
  without-fresh ids [] h = refl
  without-fresh ids (x ∷ sections) h =
      let first = h.0 in let rest = without-fresh ids sections h.1 in ground (arith, rest)
