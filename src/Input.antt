-- ===== src/Input.antt =====
-- web/src/hooks/useInputHistory.ts: the history of what the user typed.
--
-- The refs of the hook are a record. An index of `none` is the source's -1, the draft. What stands
-- in the browser's storage is a list of JSON items, or `none` where it is missing or no such list;
-- `trim` stands for `String.prototype.trim`.
pub mod Laws
mod Tests
use pockode.Prelude.{
  ℕ, suc, zero, Bool, true, false, Option, none, some, List, [], ◌∷◌, map, String, is_truthy,
  if◌then◌else◌, ◌===◌, ltb, length, get_or,
}

-- An item of the stored list: a string, or something else.
abbrev pub Stored : Type 0
Stored = Option (List (Option String))

pub record InputHistory : Type 0 where
  pub index : Option ℕ
  pub draft : String
  pub history : Option (List String)
  pub stored : Stored

abbrev pub max_history : ℕ
max_history = 100

-- `parsed.filter((item) => typeof item === "string")`
abbrev pub strings : List (Option String) → List String
strings [] = []
strings (none ∷ items) = strings items
strings (some item ∷ items) = item ∷ strings items

abbrev pub load_history : Stored → List String
load_history none = []
load_history (some items) = strings items

-- `history[k]`, and `slice(0, k)`.
abbrev pub nth : ℕ → List String → Option String
nth k [] = none
nth zero (item ∷ items) = some item
nth (suc k) (item ∷ items) = nth k items

abbrev pub take : ℕ → List String → List String
take k [] = []
take zero (item ∷ items) = []
take (suc k) (item ∷ items) = item ∷ take k items

-- What `getHistory` returns: it loads the history once.
unfoldable pub get_history : InputHistory → List String
get_history s = get_or s.history (load_history s.stored)

-- What `getHistory` leaves.
abbrev pub loaded : InputHistory → InputHistory
loaded s = record s { history = some (get_history s) }

abbrev pub is_first : String → List String → Bool
is_first content [] = false
is_first content (item ∷ items) = item === content

-- `is_stored`: did the storage accept the item?
unfoldable pub save_to_history :
    (trim : String → String) (is_stored : Bool) (content : String) → InputHistory → InputHistory
unfolding get_history
save_to_history trim is_stored content s =
    let trimmed = trim content in
    let history = take max_history (trimmed ∷ get_history s) in
    if is_truthy trimmed
    then if is_first trimmed (get_history s)
      then record s { history = some (get_history s) }
      else record s {
        history = some history;
        stored = if is_stored then some (map some history) else s.stored;
      }
    else s

unfoldable pub reset_navigation : InputHistory → InputHistory
reset_navigation s = record s { index = none; draft = "" }

-- `indexRef.current + 1`
abbrev pub next_index : Option ℕ → ℕ
next_index none = 0
next_index (some k) = suc k

-- The draft is kept when the navigation starts.
abbrev pub drafted : Option ℕ → String → String → String
drafted none current_input draft = current_input
drafted (some k) current_input draft = draft

unfoldable pub get_previous : String → InputHistory → Option String × InputHistory
unfolding get_history
get_previous current_input s =
    let history = get_history s in
    let draft = drafted s.index current_input s.draft in
    let k = next_index s.index in
    if ltb 0 (length history)
    then if ltb k (length history)
      then (nth k history, record s { index = some k; draft = draft; history = some history })
      else (none, record s { draft = draft; history = some history })
    else (none, record s { history = some history })

unfoldable pub get_next : InputHistory → Option String × InputHistory
unfolding get_history
get_next s = elim s.index [
  | none ↦ (none, s)
  | some zero ↦ (some s.draft, record s { index = none })
  | some (suc k) ↦
      (nth k (get_history s), record s { index = some k; history = some (get_history s) })
]
