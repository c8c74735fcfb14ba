-- ===== src/Rpc/Merging.antt =====
-- web/src/lib/rpc/settings.ts: the settings that are sent when some of them change.
use pockode.Prelude.{
  ◌≡◌, refl, ◌∙◌, Option, none, some, List, [], ◌∷◌, String, arith, ◌===◌, if◌then◌else◌,
}
use pockode.Ws.Watch.{get, set}
use pockode.Ws.Subscribe.Delivery.{get-set}
use pockode.Stores.Works.{SettingsState}
use pockode.Extensions.{spread}
use pockode.Rpc.{Request, object, current_fields, update_settings}

-- The first value if there is one, and else the second.
abbrev pub or_else : {A : Type 0} → Option A → Option A → Option A
or_else (some v) other = some v
or_else none other = other

-- What the last entry with a key has.
abbrev pub get_last : {V : Type 0} → String → List (String × V) → Option V
get_last key [] = none
get_last key ((k, v) ∷ entries) =
    or_else (get_last key entries) (if k === key then some v else none)

get-spread :
    {V : Type 0} (key : String) (entries new_entries : List (String × V))
    → get key (spread entries new_entries) ≡ or_else (get_last key new_entries) (get key entries)
get-spread key entries [] = refl
get-spread key entries ((k, v) ∷ new_entries) =
    get-spread key (set k v entries) new_entries ∙ ground (arith, get-set k key v entries)

abbrev pub sent_fields : Request → List (String × String)
sent_fields r = elim (get "settings" r.params) [ some (object fields) ↦ fields | _ ↦ [] ]

-- An update of the settings sends each field of the patch as the patch has it, and each other field
-- as it is now, if it is known.
pub update_settings_merges :
    (patch : List (String × String)) (settings : SettingsState) (key : String)
    → let r = update_settings patch settings in
      (r.method ≡ "settings.update")
      × (get key (sent_fields r) ≡ or_else (get_last key patch) (get key (current_fields settings)))
unfolding update_settings
update_settings_merges patch settings key = (refl, get-spread key (current_fields settings) patch)
