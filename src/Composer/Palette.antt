-- ===== src/Composer/Palette.antt =====
-- web/src/components/Chat/InputBar.tsx and CommandPalette.tsx: what is typed of a command, and the
-- commands that the palette lists for it.
--
-- `lower` stands for `String.prototype.toLowerCase`.
use Prim.Native.Char.{Char, code}
use Prim.Native.Nat.{◌%◌}
use pockode.Prelude.{
  ℕ, suc, ◌+◌, ◌-◌, Bool, true, false, ◌&&◌, ◌||◌, List, String, keep, ltb, nat_eq, is_truthy,
  if◌then◌else◌,
}
use pockode.Rpc.Commands.{Command}

abbrev pub is_between : ℕ → ℕ → Char → Bool
is_between low high c = ltb low (suc (code c)) && ltb (code c) (suc high)

-- The states of the machine that reads `COMMAND_PATTERN` after its slash: nothing is read yet, a
-- part's first letter is due after the colon, or a part is being read, the second one or the first.
pub data Reading : Type 0 where
  at_start after_colon in_first in_second failed : Reading

abbrev pub is_part_character : Char → Bool
is_part_character c =
    is_between b'a' b'z' c || is_between b'0' b'9' c || nat_eq (code c) b'_' || nat_eq (code c) b'-'

abbrev pub next_reading : Char → Reading → Reading
next_reading c at_start = if is_between b'a' b'z' c then in_first else failed
next_reading c after_colon = if is_between b'a' b'z' c then in_second else failed
next_reading c in_first =
    if is_part_character c then in_first else if nat_eq (code c) b':' then after_colon else failed
next_reading c in_second = if is_part_character c then in_second else failed
next_reading c failed = failed

abbrev pub is_complete : Reading → Bool
is_complete at_start = true
is_complete in_first = true
is_complete in_second = true
is_complete _ = false

abbrev pub reads : Reading → String → Bool
reads reading String.[] = is_complete reading
reads reading (String.◌∷◌ c text) = reads (next_reading c reading) text

abbrev pub starts_with_slash : String → Bool
starts_with_slash String.[] = false
starts_with_slash (String.◌∷◌ c text) = nat_eq (code c) b'/'

-- `input.slice(1)`
abbrev pub without_first : String → String
without_first String.[] = ""
without_first (String.◌∷◌ c text) = text

-- `COMMAND_PATTERN.test(input)`
abbrev pub is_slash_mode : String → Bool
is_slash_mode input = starts_with_slash input && reads at_start (without_first input)

abbrev pub has_prefix : (prefix text : String) → Bool
has_prefix String.[] text = true
has_prefix (String.◌∷◌ c prefix) String.[] = false
has_prefix (String.◌∷◌ c prefix) (String.◌∷◌ d text) =
    nat_eq (code c) (code d) && has_prefix prefix text

-- `text.includes(part)`
abbrev pub includes : (part text : String) → Bool
includes part String.[] = has_prefix part ""
includes part (String.◌∷◌ c text) = has_prefix part (String.◌∷◌ c text) || includes part text

unfoldable pub use_filtered_commands :
    (String → String) → List Command → (filter : String) → List Command
use_filtered_commands lower commands filter =
    if is_truthy filter
    then keep (λ (cmd : Command). includes (lower filter) (lower cmd.name)) commands
    else commands

-- The index above, and the one below, of `count` that form a ring: `count` is positive.
abbrev pub index_above : (count index : ℕ) → ℕ
index_above count index = (index + count - 1) % count

abbrev pub index_below : (count index : ℕ) → ℕ
index_below count index = (index + 1) % count
