-- ===== src/Rpc/Commands.antt =====
-- web/src/lib/rpc/command.ts: the list of commands, and its cache.
use pockode.Prelude.{ℕ, Option, none, some, List, [], String, Bool}
use pockode.Rpc.{Request, request, NotConnected, not_connected}

pub record Command : Type 0 where
  pub name : String
  pub is_builtin : Bool

abbrev pub Cache : Type 0
Cache = Option (List Command)

-- What a call of `listCommands` comes to at once: an error, the cached list, or a request.
pub data Listing : Type 0 where
  fails : NotConnected → Listing
  cached : List Command → Listing
  asks : (client : ℕ) → Request → Listing

unfoldable pub list_commands : Option ℕ → Cache → Listing
list_commands client (some commands) = cached commands
list_commands none none = fails not_connected
list_commands (some client) none = asks client (request "command.list" [])

-- The request is answered.
unfoldable pub on_commands : List Command → Cache → Cache
on_commands commands cache = some commands

unfoldable pub invalidate_command_cache : Cache → Cache
invalidate_command_cache cache = none
