-- ===== src/Nodes/Form.antt =====
-- web-cluster/src/components/NodeForm.tsx: the form for a new node or one that is there.
--
-- `trim` stands for `String.prototype.trim`. A submission is cut in two, at its request.
use Prim.Native.Char.{Char, code}
use pockode.Prelude.{
  ◌≡◌, refl, Bool, true, false, Option, none, some, List, [], ◌∷◌, String, is_truthy, get_or, keep,
  last, nat_eq, if◌then◌else◌,
}
use pockode.Nodes.{Node}

pub record NodeForm : Type 0 where
  pub path : String
  pub name : String
  pub error : Option String
  pub saving : Bool

-- The effect on `isOpen` and the node that is edited.
unfoldable pub form_effect : (is_open : Bool) (editing_node : Option Node) → NodeForm → NodeForm
form_effect false editing_node s = s
form_effect true none s = record s { path = ""; name = ""; error = none }
form_effect true (some node) s = record s { path = node.path; name = node.name; error = none }

-- `name.trim() || undefined`
abbrev pub given_name : String → Option String
given_name trimmed = if is_truthy trimmed then some trimmed else none

-- What `onSubmit` is called with, if it is, and the state.
unfoldable pub submit_form :
    (String → String) → NodeForm → Option (String × Option String) × NodeForm
submit_form trim s =
    if is_truthy (trim s.path)
    then (some (trim s.path, given_name (trim s.name)), record s { saving = true; error = none })
    else (none, record s { error = some "Path is required" })

-- The answer, after which a form that was saved is closed.
unfoldable pub on_form_saved : NodeForm → Bool × NodeForm
on_form_saved s = (true, record s { saving = false })

unfoldable pub on_form_failed : (err : Option String) → NodeForm → Bool × NodeForm
on_form_failed err s =
    (false, record s { error = some (get_or err "Failed to save node"); saving = false })

abbrev pub push_segment : Char → List String → List String
push_segment c [] = String.◌∷◌ c String.[] ∷ []
push_segment c (segment ∷ segments) = String.◌∷◌ c segment ∷ segments

-- `path.split("/")`
abbrev pub segments : String → List String
segments String.[] = "" ∷ []
segments (String.◌∷◌ c path) =
    let rest = segments path in if nat_eq (code c) b'/' then "" ∷ rest else push_segment c rest

unfoldable pub name_placeholder : (String → String) → String → String
name_placeholder trim path =
    if is_truthy (trim path)
    then get_or (last (keep is_truthy (segments (trim path)))) ""
    else "Derived from path"

-- The form of a node that is there sends the path and the name of the node, if they have no blanks
-- around them and are not empty and nothing is typed.
pub submit_form-form_effect :
    (trim : String → String) (node : Node) (s : NodeForm)
    → trim node.path ≡ node.path
    → trim node.name ≡ node.name
    → is_truthy node.path ≡ true
    → is_truthy node.name ≡ true
    → (submit_form trim (form_effect true (some node) s)).0 ≡ some (node.path, some node.name)
unfolding submit_form form_effect
submit_form-form_effect trim node s p n h k = rw (p, n, h, k) refl

placeholder : name_placeholder (λ path. path) "/home/me/app/" ≡ "app"
unfolding name_placeholder
placeholder = refl
