-- ===== src/Composer/Selecting.antt =====
-- web/src/components/Chat/InputBar.tsx: the keys that walk through the palette and choose from it.

use Prim.Native.String
use package.text.Mathlib.TextLemmas.{cons-append as cons-concat, nil-append as nil-concat}
use Prim.Native.Nat.{◌%◌}
use native.Mathlib.Nat.{mod-add-mod, add-mod_right, mod-eq_of_lt, mod_self}
use pockode.Prelude.{
  Bool-cases, inl, inr, sym, if◌then◌else◌, ℕ, zero, suc, ◌+◌, ◌<◌, ◌≡◌, refl, ap, ◌∙◌, true, false,
  not, some, List, [], ◌∷◌, String, length, ltb, item_at, ◌===◌, ===_iff, get_or, arith, if-of_true,
  ◌&&◌,
}
use pockode.Rpc.Commands.{Command}
use pockode.Ws.Watch.{get, set}
use pockode.Ws.Subscribe.Delivery.{get-set}
use pockode.Composer.Palette.{
  Reading, at_start, after_colon, in_first, in_second, failed, next_reading, reads, index_above,
  index_below, is_slash_mode,
}
use pockode.Composer.{
  Composer, Platform, KeyEvent, input_of, is_palette_open, filtered, set_input,
  handle_command_select, handle_key_down, select_at,
}

-- A key pressed alone.
abbrev pub pressed : String → KeyEvent
pressed key = record {
  key = key;
  shift_key = false;
  ctrl_key = false;
  is_composing = false;
  caret_y = 0;
}

reads-space : (r : Reading) (text : String) → reads r (String.◌++◌ text " ") ≡ false
reads-space at_start String.[] = refl
reads-space after_colon String.[] = refl
reads-space in_first String.[] = refl
reads-space in_second String.[] = refl
reads-space failed String.[] = refl
reads-space r (String.◌∷◌ c text) =
    ap (reads r) (cons-concat c text " ") ∙ reads-space (next_reading c r) text

-- A command that was chosen is not read as one that is being typed.
chosen-closed : (name : String) → is_slash_mode (String.◌++◌ "/" (String.◌++◌ name " ")) ≡ false
chosen-closed name =
    ap is_slash_mode (
      cons-concat "/" "" (String.◌++◌ name " ")
      ∙ ap (String.◌∷◌ "/") (nil-concat (String.◌++◌ name " ")))
    ∙ reads-space at_start name

pub input_of-set_input : (value : String) (s : Composer) → input_of (set_input value s) ≡ value
input_of-set_input value s =
    ap (λ o. get_or o "")
      (get-set s.session_id s.session_id value s.inputs
        ∙ if-of_true (s.session_id === s.session_id) (some value) (get s.session_id s.inputs)
            ((===_iff s.session_id s.session_id).1 refl))

length-item_at {ℓ} :
    {A : Type ℓ} (i : ℕ) (xs : List A) (x : A) → item_at i xs ≡ some x → i < length xs
length-item_at i [] x h = ground arith
length-item_at zero (y ∷ xs) x h = omega arith
length-item_at (suc i) (y ∷ xs) x h = let rest = length-item_at i xs x h in omega arith

positive-of_lt : (i n : ℕ) → i < n → ltb 0 n ≡ true
positive-of_lt i n lt = ground arith

above_below : (n i : ℕ) → i < n → index_above n (index_below n i) ≡ i
above_below zero i lt = ground arith
above_below (suc m) i lt =
    ap (λ k. k % suc m) (omega arith)
    ∙ mod-add-mod (i + 1) (suc m) m
    ∙ ap (λ k. k % suc m) (omega arith)
    ∙ add-mod_right i (suc m)
    ∙ mod-eq_of_lt lt

walks_down :
    (platform : Platform) (s : Composer)
    → is_palette_open s ≡ true
    → ltb 0 (length (filtered platform s)) ≡ true
    → handle_key_down platform (pressed "ArrowDown") s
      ≡ some (record s {
        selected_index = index_below (length (filtered platform s)) s.selected_index;
      })
unfolding handle_key_down
walks_down platform s o lt = rw (o, lt) refl

walks_up :
    (platform : Platform) (s : Composer)
    → is_palette_open s ≡ true
    → ltb 0 (length (filtered platform s)) ≡ true
    → handle_key_down platform (pressed "ArrowUp") s
      ≡ some (record s {
        selected_index = index_above (length (filtered platform s)) s.selected_index;
      })
unfolding handle_key_down
walks_up platform s o lt = rw (o, lt) refl

chooses :
    (platform : Platform) (s : Composer) (cmd : Command)
    → is_palette_open s ≡ true
    → ltb 0 (length (filtered platform s)) ≡ true
    → item_at s.selected_index (filtered platform s) ≡ some cmd
    → (handle_key_down platform (pressed "Enter") s ≡ some (handle_command_select cmd s))
      × (handle_key_down platform (pressed "Tab") s ≡ some (handle_command_select cmd s))
unfolding handle_key_down
chooses platform s cmd o lt c =
    let chosen = ap (λ x. select_at x s) c in (rw (o, lt) chosen, rw (o, lt) chosen)

-- The place below, or the first one below the last.
abbrev pub place_below : (count index : ℕ) → ℕ
place_below count index = if ltb (suc index) count then suc index else 0

index_below_lem : (n i : ℕ) → i < n → index_below n i ≡ place_below n i
index_below_lem n i lt = elim (Bool-cases (ltb (suc i) n)) [
  | inl e ↦ mod-eq_of_lt (ground arith) ∙ ground arith
  | inr e ↦ ap (λ k. k % n) (ground arith) ∙ mod_self n ∙ ground arith
]

-- The draft of the session is the command, behind a slash and before a blank.
abbrev pub with_command : String → Composer → Composer
with_command name s = record s {
  inputs = set s.session_id (String.◌++◌ "/" (String.◌++◌ name " ")) s.inputs;
}

-- Where the palette is open and a command is selected in it, the arrow down selects the one below,
-- or the first one after the last, and the arrow up then the first command again; Enter makes the
-- draft of the session a slash, the name of the selected command and a blank, and closes the
-- palette, and so does Tab.
pub palette_keys :
    (platform : Platform) (s : Composer) (cmd : Command)
    → is_palette_open s ≡ true
    → item_at s.selected_index (filtered platform s) ≡ some cmd
    → let n = length (filtered platform s) in
      let t = record s { selected_index = place_below n s.selected_index } in
      (handle_key_down platform (pressed "ArrowDown") s ≡ some t)
      × (handle_key_down platform (pressed "ArrowUp") t ≡ some s)
      × (handle_key_down platform (pressed "Enter") s ≡ some (with_command cmd.name s))
      × (handle_key_down platform (pressed "Tab") s ≡ some (with_command cmd.name s))
      × (input_of (with_command cmd.name s) ≡ String.◌++◌ "/" (String.◌++◌ cmd.name " "))
      × (is_palette_open (with_command cmd.name s) ≡ false)
unfolding handle_command_select filtered
palette_keys platform s cmd o c =
    let n = length (filtered platform s) in
    let lt = length-item_at s.selected_index (filtered platform s) cmd c in
    let positive = positive-of_lt s.selected_index n lt in
    let below = index_below_lem n s.selected_index lt in
    let t = record s { selected_index = place_below n s.selected_index } in
    let chosen = chooses platform s cmd o positive c in
    let typed = String.◌++◌ "/" (String.◌++◌ cmd.name " ") in
    (
      walks_down platform s o positive ∙ ap (λ i. some (record s { selected_index = i })) below,
      walks_up platform t o positive
          ∙ ap (λ i. some (record s { selected_index = i }))
              (ap (index_above n) (sym below) ∙ above_below n s.selected_index lt),
      chosen.0,
      chosen.1,
      input_of-set_input typed s,
      ap (λ input. is_slash_mode input && not s.palette_dismissed) (input_of-set_input typed s)
          ∙ ap (λ b. b && not s.palette_dismissed) (chosen-closed cmd.name),
    )
