-- ===== src/Composer/Tests.antt =====
-- The theorems about the message field, applied to one with two commands in its palette.
use pockode.Prelude.{◌≡◌, refl, true, false, none, some, [], ◌∷◌, ◌++◌, String}
use pockode.Input.{get_previous, get_history, save_to_history, reset_navigation}
use pockode.Rpc.Commands.{Command}
use pockode.Ws.Watch.{get}
use pockode.Composer.Palette.{is_slash_mode, use_filtered_commands}
use pockode.Composer.Selecting.{pressed, palette_keys, with_command}
use pockode.Composer.Recalling.{sent_then_recalled}
use pockode.Composer.{
  Composer, Platform, input_of, is_palette_open, filtered, set_input, run_effects, handle_send,
  handle_input_key, handle_key_up, handle_key_down, on_commands_listed,
}

abbrev platform : Platform
platform = record {
  is_mac = false;
  has_coarse_pointer = false;
  is_stored = true;
  trim = λ s. s;
  lower = λ s. s;
}

abbrev command : String → Command
command name = record { name = name; is_builtin = true }

abbrev typed : String → Composer
typed input = record {
  session_id = "s1";
  can_send = true;
  inputs = ("s2", "later") ∷ ("s1", input) ∷ [];
  history = record { index = none; draft = ""; history = some []; stored = none };
  commands = command "help" ∷ command "clear" ∷ [];
  cache = some (command "help" ∷ command "clear" ∷ []);
  selected_index = 1;
  palette_dismissed = false;
  pending = none;
  sent = [];
}

matched : is_slash_mode "/git:commit-2" ≡ true
matched = refl

not_matched : (is_slash_mode "/git:commit:x" ≡ false) × (is_slash_mode "/Git" ≡ false)
not_matched = (refl, refl)

narrowed : filtered platform (typed "/le") ≡ command "clear" ∷ []
unfolding filtered use_filtered_commands
narrowed = refl

palette_keys_example :
    let s = typed "/" in
    let t = record s { selected_index = 0 } in
    (handle_key_down platform (pressed "ArrowDown") s ≡ some t)
    × (handle_key_down platform (pressed "ArrowUp") t ≡ some s)
    × (handle_key_down platform (pressed "Enter") s ≡ some (with_command "clear" s))
    × (handle_key_down platform (pressed "Tab") s ≡ some (with_command "clear" s))
    × (input_of (with_command "clear" s) ≡ "/clear ")
    × (is_palette_open (with_command "clear" s) ≡ false)
unfolding filtered use_filtered_commands
palette_keys_example = palette_keys platform (typed "/") (command "clear") refl refl

sent_then_recalled_example :
    let s = typed "hello" in
    let t = run_effects s (handle_send platform s) in
    let p = handle_input_key platform (pressed "ArrowUp") t in
    let u = handle_key_up (pressed "ArrowUp") p in
    (t.sent ≡ [] ++ "hello" ∷ [])
    × (input_of t ≡ "")
    × (get "s2" t.inputs ≡ get "s2" s.inputs)
    × (handle_key_down platform (pressed "ArrowUp") t ≡ some p)
    × (input_of u ≡ "hello")
    × (is_palette_open (run_effects p u) ≡ false)
sent_then_recalled_example =
    sent_then_recalled platform (typed "hello") "s2" refl refl refl refl refl

-- A lone slash is sent with the button while the second command is selected; the list of commands
-- that is asked for anew is shorter, and a slash is typed again. Enter then chooses what is not there.
abbrev stale : Composer
stale =
    let s = typed "/" in
    let t = on_commands_listed (command "help" ∷ []) (run_effects s (handle_send platform s)) in
    run_effects t (set_input "/" t)

stale_selection_throws :
    (is_palette_open stale ≡ true) × (handle_key_down platform (pressed "Enter") stale ≡ none)
unfolding handle_key_down run_effects handle_send on_commands_listed filtered use_filtered_commands
stale_selection_throws = (refl, refl)

-- A lone slash that comes back from the history opens the palette.
slash_recalled :
    let s = typed "/" in
    let t = run_effects s (handle_send platform s) in
    let p = handle_input_key platform (pressed "ArrowUp") t in
    is_palette_open (run_effects p (handle_key_up (pressed "ArrowUp") p)) ≡ true
unfolding run_effects handle_send handle_input_key handle_key_up get_previous get_history
    save_to_history reset_navigation
slash_recalled = refl
