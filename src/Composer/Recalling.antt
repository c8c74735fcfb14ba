-- ===== src/Composer/Recalling.antt =====
-- web/src/components/Chat/InputBar.tsx: a message that is sent, and brought back from the history.
use mathlib.Core.Path.{ap₂}
use pockode.Prelude.{
  ◌≡◌, refl, ap, ◌∙◌, Bool, true, false, not, ◌&&◌, ◌||◌, none, some, [], ◌∷◌, ◌++◌, String,
  is_truthy, ◌===◌, ===_iff, Bool-cases, inl, inr, if◌then◌else◌, get_or, if-of_true, if-of_false,
  arith,
}
use pockode.Input.{save_to_history, reset_navigation, get_previous}
use pockode.Input.Laws.{saved_shows}
use pockode.Ws.Watch.{get, delete}
use pockode.Ws.Subscribe.Delivery.{get-delete}
use pockode.Composer.Palette.{is_slash_mode, starts_with_slash}
use pockode.Composer.Selecting.{pressed, input_of-set_input}
use pockode.Composer.{
  Composer, Platform, KeyEvent, input_of, is_palette_open, filter_of, reopen, run_effects,
  handle_send, handle_input_key, handle_key_down, handle_key_up, show_item,
}

if-keeps {ℓ} :
    {A : Type ℓ} (f : Composer → A) (b : Bool) (x y : Composer) (a : A)
    → f x ≡ a
    → f y ≡ a
    → f (if b then x else y) ≡ a
if-keeps f true x y a h k = h
if-keeps f false x y a h k = k

-- What an effect does not set, it keeps.
run_effects-keeps {ℓ} :
    {A : Type ℓ} (f : Composer → A) (before after : Composer) (a : A)
    → ((s : Composer) → f (record s { selected_index = 0 }) ≡ f s)
    → f after ≡ a
    → f (reopen after) ≡ a
    → f (run_effects before after) ≡ a
unfolding run_effects
run_effects-keeps f before after a still h k =
    let b = input_of after === input_of before in
    let s = if b then after else reopen after in
    let same = if-keeps f b after (reopen after) a h k in
    if-keeps f (filter_of s === filter_of before) s (record s { selected_index = 0 }) a same
      (still s ∙ same)

reopen-keeps {ℓ} :
    {A : Type ℓ} (f : Composer → A) (s : Composer)
    → f (record s { palette_dismissed = false }) ≡ f s
    → f (reopen s) ≡ f s
reopen-keeps f s h =
    if-keeps f ((input_of s === "/") || not (starts_with_slash (input_of s)))
      (record s { palette_dismissed = false }) s (f s) h refl

sent_fields :
    (platform : Platform) (s : Composer)
    → is_truthy (platform.trim (input_of s)) ≡ true
    → s.can_send ≡ true
    → let trimmed = platform.trim (input_of s) in
      let t = handle_send platform s in
      (t.sent ≡ s.sent ++ trimmed ∷ [])
      × (t.inputs ≡ delete s.session_id s.inputs)
      × (t.history
          ≡ reset_navigation (save_to_history platform.trim platform.is_stored trimmed s.history))
      × (t.session_id ≡ s.session_id)
unfolding handle_send
sent_fields platform s h c = rw (h, c) (refl, refl, refl, refl)

closed_key :
    (platform : Platform) (e : KeyEvent) (s : Composer)
    → is_palette_open s ≡ false
    → e.is_composing ≡ false
    → handle_key_down platform e s ≡ some (handle_input_key platform e s)
unfolding handle_key_down
closed_key platform e s o c = rw (c, o) refl

-- The arrow up, pressed and released with the caret where it was.
abbrev pub arrow_up : Platform → Composer → Composer
arrow_up platform s =
    handle_key_up (pressed "ArrowUp") (handle_input_key platform (pressed "ArrowUp") s)

arrow_up-recalls :
    (platform : Platform) (s : Composer) (item : String)
    → (get_previous (input_of s) s.history).0 ≡ some item
    → (input_of (arrow_up platform s) ≡ item) × ((arrow_up platform s).palette_dismissed ≡ true)
unfolding handle_key_up handle_input_key
arrow_up-recalls platform s item h =
    let r = record s { pending = none; history = (get_previous (input_of s) s.history).1 } in
    (
      ap (λ o. input_of (show_item o r)) h
          ∙ input_of-set_input item (record r { palette_dismissed = true }),
      ap (λ o. (show_item o r).palette_dismissed) h,
    )

and_false : (b : Bool) → b && false ≡ false
and_false true = refl
and_false false = refl

closed-of_dismissed : (s : Composer) → s.palette_dismissed ≡ true → is_palette_open s ≡ false
closed-of_dismissed s d =
    ap (λ b. is_slash_mode (input_of s) && not b) d ∙ and_false (is_slash_mode (input_of s))

closed-of_no_slash :
    (s : Composer) → starts_with_slash (input_of s) ≡ false → is_palette_open s ≡ false
closed-of_no_slash s h = rw h refl

-- Dismissed, the palette is not opened by the effects, unless the input is a slash.
stays_dismissed :
    (before s : Composer)
    → s.palette_dismissed ≡ true
    → input_of s === "/" ≡ false
    → is_palette_open (run_effects before s) ≡ false
stays_dismissed before s d n =
    let opened = record s { palette_dismissed = false } in
    run_effects-keeps is_palette_open before s false (λ t. refl) (closed-of_dismissed s d)
      (elim (Bool-cases (starts_with_slash (input_of s))) [
        | inl e ↦
            ap is_palette_open (
              if-of_false ((input_of s === "/") || not (starts_with_slash (input_of s))) opened s
                (ground (arith, n, e)))
            ∙ closed-of_dismissed s d
        | inr e ↦
            if-keeps is_palette_open ((input_of s === "/") || not (starts_with_slash (input_of s)))
              opened s false (closed-of_no_slash opened e) (closed-of_no_slash s e)
      ])

after_effects {ℓ} :
    {A : Type ℓ} (f : Composer → A) (before after : Composer)
    → ((s : Composer) → f (record s { selected_index = 0 }) ≡ f s)
    → ((s : Composer) → f (record s { palette_dismissed = false }) ≡ f s)
    → f (run_effects before after) ≡ f after
after_effects f before after h k =
    run_effects-keeps f before after (f after) h refl (reopen-keeps f after (k after))

emptied :
    (s t : Composer)
    → t.session_id ≡ s.session_id
    → t.inputs ≡ delete s.session_id s.inputs
    → input_of t ≡ ""
emptied s t e f =
    ap₂ (λ i d. get_or (get i d) "") e f
    ∙ ap (λ o. get_or o "")
        (get-delete s.session_id s.session_id s.inputs
          ∙ if-of_true (s.session_id === s.session_id) none (get s.session_id s.inputs)
              ((===_iff s.session_id s.session_id).1 refl))

-- A message is sent once, as it is without the blanks around it, the field is empty and the drafts
-- of the other sessions stay; the arrow up, released with the caret where it was, brings the message
-- back, and the palette stays closed. It is so where there is something to send, other than a single
-- slash, and sending is allowed.
pub sent_then_recalled :
    (platform : Platform) (s : Composer) (other : String)
    → let trimmed = platform.trim (input_of s) in
      platform.trim trimmed ≡ trimmed
      → is_truthy trimmed ≡ true
      → s.can_send ≡ true
      → s.session_id === other ≡ false
      → trimmed === "/" ≡ false
      → let t = run_effects s (handle_send platform s) in
        let p = handle_input_key platform (pressed "ArrowUp") t in
        let u = handle_key_up (pressed "ArrowUp") p in
        (t.sent ≡ s.sent ++ trimmed ∷ [])
        × (input_of t ≡ "")
        × (get other t.inputs ≡ get other s.inputs)
        × (handle_key_down platform (pressed "ArrowUp") t ≡ some p)
        × (input_of u ≡ trimmed)
        × (is_palette_open (run_effects p u) ≡ false)
sent_then_recalled platform s other i h c n m =
    let v = handle_send platform s in
    let t = run_effects s v in
    let p = handle_input_key platform (pressed "ArrowUp") t in
    let fields = sent_fields platform s h c in
    let inputs = after_effects (λ x. x.inputs) s v (λ x. refl) (λ x. refl) ∙ fields.1 in
    let id = after_effects (λ x. x.session_id) s v (λ x. refl) (λ x. refl) ∙ fields.3 in
    let history = after_effects (λ x. x.history) s v (λ x. refl) (λ x. refl) ∙ fields.2 in
    let empty = emptied s t id inputs in
    let previous =
      ap (λ x. (get_previous (input_of t) x).0) history
      ∙ saved_shows platform.trim platform.is_stored (platform.trim (input_of s)) (input_of t)
          s.history (ap is_truthy i ∙ h)
      ∙ ap some i in
    let recalled = arrow_up-recalls platform t (platform.trim (input_of s)) previous in
    (
      after_effects (λ x. x.sent) s v (λ x. refl) (λ x. refl) ∙ fields.0,
      empty,
      ap (get other) inputs
          ∙ get-delete s.session_id other s.inputs
          ∙ if-of_false (s.session_id === other) none (get other s.inputs) n,
      closed_key platform (pressed "ArrowUp") t
          (ap (λ x. is_slash_mode x && not t.palette_dismissed) empty) refl,
      recalled.0,
      stays_dismissed p (arrow_up platform t) recalled.1 (ap (λ x. x === "/") recalled.0 ∙ m),
    )
