-- ===== src/Composer.antt =====
-- web/src/components/Chat/InputBar.tsx: the field that a message is typed in.
--
-- The states and refs of the component are a record, with the drafts of `inputStore`, the history
-- of `useInputHistory` and the cache of commands, which it uses. `trim` and `lower` stand for the
-- methods of strings.
pub mod Palette
pub mod Selecting
pub mod Recalling
mod Tests
use Prim.Native.String
use pockode.Prelude.{
  ℕ, Bool, true, false, not, ◌&&◌, ◌||◌, Option, none, some, List, [], ◌∷◌, ◌++◌, String, length,
  ltb, nat_eq, is_truthy, ◌===◌, get_or, item_at, if◌then◌else◌,
}
use pockode.Input.{InputHistory, save_to_history, reset_navigation, get_previous, get_next}
use pockode.Rpc.Commands.{Command, Cache, invalidate_command_cache}
use pockode.Ws.Watch.{get, set, delete}
use pockode.Composer.Palette.{
  is_slash_mode, starts_with_slash, without_first, use_filtered_commands, index_above, index_below,
}

pub data Direction : Type 0 where
  up down : Direction

pub record PendingNav : Type 0 where
  pub direction : Direction
  pub key : String
  pub caret_y_before : ℕ

pub record Composer : Type 0 where
  pub session_id : String
  pub can_send : Bool
  -- `inputStore`: what is typed in each session.
  pub inputs : List (String × String)
  pub history : InputHistory
  pub commands : List Command
  pub cache : Cache
  pub selected_index : ℕ
  pub palette_dismissed : Bool
  pub pending : Option PendingNav
  -- What `onSend` was called with, the last call last.
  pub sent : List String

-- The browser, as far as the code asks it.
pub record Platform : Type 0 where
  pub is_mac : Bool
  pub has_coarse_pointer : Bool
  -- Does the storage accept the history?
  pub is_stored : Bool
  pub trim : String → String
  pub lower : String → String

pub record KeyEvent : Type 0 where
  pub key : String
  pub shift_key : Bool
  pub ctrl_key : Bool
  pub is_composing : Bool
  pub caret_y : ℕ

abbrev pub input_of : Composer → String
input_of s = get_or (get s.session_id s.inputs) ""

abbrev pub is_palette_open : Composer → Bool
is_palette_open s = is_slash_mode (input_of s) && not s.palette_dismissed

abbrev pub filter_of : Composer → String
filter_of s = if is_palette_open s then without_first (input_of s) else ""

unfoldable pub filtered : Platform → Composer → List Command
filtered platform s = use_filtered_commands platform.lower s.commands (filter_of s)

abbrev pub set_input : String → Composer → Composer
set_input value s = record s { inputs = set s.session_id value s.inputs }

-- The effect on `input`.
abbrev pub reopen : Composer → Composer
reopen s =
    if (input_of s === "/") || not (starts_with_slash (input_of s))
    then record s { palette_dismissed = false }
    else s

-- The effects on `input` and on `filter` after an event: each runs where its value changed.
unfoldable pub run_effects : (before after : Composer) → Composer
run_effects before after =
    let s = if input_of after === input_of before then after else reopen after in
    if filter_of s === filter_of before then s else record s { selected_index = 0 }

unfoldable pub close_palette : Composer → Composer
close_palette s = record s { palette_dismissed = true }

unfoldable pub handle_trigger_click : Composer → Composer
unfolding close_palette
handle_trigger_click s =
    if is_palette_open s
    then close_palette s
    else if is_slash_mode (input_of s)
    then record s { palette_dismissed = false }
    else set_input (String.◌++◌ "/" (input_of s)) s

unfoldable pub handle_command_select : Command → Composer → Composer
handle_command_select cmd s = set_input (String.◌++◌ "/" (String.◌++◌ cmd.name " ")) s

-- The list of commands arrives.
unfoldable pub on_commands_listed : List Command → Composer → Composer
on_commands_listed commands s = record s { commands = commands }

unfoldable pub handle_send : Platform → Composer → Composer
handle_send platform s =
    let trimmed = platform.trim (input_of s) in
    if is_truthy trimmed && s.can_send
    then record s {
      history =
          reset_navigation (save_to_history platform.trim platform.is_stored trimmed s.history);
      sent = s.sent ++ trimmed ∷ [];
      inputs = delete s.session_id s.inputs;
      cache = if starts_with_slash trimmed then invalidate_command_cache s.cache else s.cache;
    }
    else s

-- What the history brings back is shown, and the palette stays closed.
abbrev pub show_item : Option String → Composer → Composer
show_item none s = s
show_item (some item) s = set_input item (record s { palette_dismissed = true })

abbrev pub navigate : Direction → Composer → Composer
navigate up s =
    let step = get_previous (input_of s) s.history in
    show_item step.0 (record s { history = step.1 })
navigate down s = let step = get_next s.history in show_item step.0 (record s { history = step.1 })

abbrev pub release : KeyEvent → Option PendingNav → Composer → Composer
release e none s = s
release e (some pending) s =
    if e.key === pending.key
    then if nat_eq e.caret_y pending.caret_y_before
      then navigate pending.direction (record s { pending = none })
      else record s { pending = none }
    else s

unfoldable pub handle_key_up : KeyEvent → Composer → Composer
handle_key_up e s = release e s.pending s

abbrev pub is_up : Platform → KeyEvent → Bool
is_up platform e = (e.key === "ArrowUp") || e.ctrl_key && platform.is_mac && (e.key === "p")

abbrev pub is_down : Platform → KeyEvent → Bool
is_down platform e = (e.key === "ArrowDown") || e.ctrl_key && platform.is_mac && (e.key === "n")

-- `handleCommandSelect(filteredCommands[selectedIndex])`: with no command there, it throws.
abbrev pub select_at : Option Command → Composer → Option Composer
select_at none s = none
select_at (some cmd) s = some (handle_command_select cmd s)

-- The keys of the field itself.
unfoldable pub handle_input_key : Platform → KeyEvent → Composer → Composer
unfolding handle_send
handle_input_key platform e s =
    if (e.key === "Enter") && not e.shift_key
    then if platform.has_coarse_pointer then s else handle_send platform s
    else if is_up platform e || is_down platform e
    then record s {
      pending = some (record {
        direction = if is_up platform e then up else down;
        key = e.key;
        caret_y_before = e.caret_y;
      });
    }
    else s

-- `handleKeyDown`; `none` where it throws.
unfoldable pub handle_key_down : Platform → KeyEvent → Composer → Option Composer
unfolding close_palette handle_input_key handle_command_select
handle_key_down platform e s =
    let listed = length (filtered platform s) in
    if e.is_composing
    then some s
    else if is_palette_open s && (e.key === "Escape")
    then some (close_palette s)
    else if is_palette_open s && is_up platform e && ltb 0 listed
    then some (record s { selected_index = index_above listed s.selected_index })
    else if is_palette_open s && is_down platform e && ltb 0 listed
    then some (record s { selected_index = index_below listed s.selected_index })
    else if is_palette_open s && ((e.key === "Tab") || (e.key === "Enter")) && ltb 0 listed
    then select_at (item_at s.selected_index (filtered platform s)) s
    else some (handle_input_key platform e s)
