-- ===== src/Nodes.antt =====
-- web-cluster/src/components/NodeList.tsx: the list of nodes, what is done to them, and the notices
-- of what went wrong.
--
-- An action is cut in two, and an error is its text where it has one. `lower` stands for
-- `String.prototype.toLowerCase`.
pub mod Poll
pub mod OneTimer
pub mod Form
mod Tests
use Prim.Native.String
use pockode.Composer.Palette.{includes}
use pockode.Prelude.{
  ◌||◌, ℕ, zero, suc, ◌+◌, ◌≡◌, refl, Bool, true, false, not, ◌&&◌, Option, none, some, List, [],
  ◌∷◌, String, ◌===◌, get_or, length, if◌then◌else◌, arith,
}

pub data NodeStatus : Type 0 where
  running stopped stale : NodeStatus

pub record NodeStatusInfo : Type 0 where
  pub id : String
  pub status : NodeStatus
  pub port : Option ℕ
  pub started_at : Option String
  pub local_url : Option String
  pub remote_url : Option String

pub record Node : Type 0 where
  pub id : String
  pub path : String
  pub name : String
  pub created_at : String
  pub updated_at : String
  pub status : NodeStatusInfo

pub record Counts : Type 0 where
  pub running : ℕ
  pub stale : ℕ
  pub stopped : ℕ
  pub total : ℕ

pub data Variant : Type 0 where
  warning error : Variant

pub record ActionNotice : Type 0 where
  pub variant : Variant
  pub title : String
  pub message : String
  pub node_id : Option String

pub record NodeList : Type 0 where
  pub nodes : List Node
  pub loading : Bool
  pub load_error : Option String
  pub action_notice : Option ActionNotice
  pub form_open : Bool
  pub editing_node : Option Node

abbrev pub counted : NodeStatus → Counts → Counts
counted running acc = record acc { total = acc.total + 1; running = acc.running + 1 }
counted stopped acc = record acc { total = acc.total + 1; stopped = acc.stopped + 1 }
counted stale acc = record acc { total = acc.total + 1; stale = acc.stale + 1 }

-- `nodes.reduce(...)`
abbrev pub count_nodes : Counts → List Node → Counts
count_nodes acc [] = acc
count_nodes acc (node ∷ nodes) = count_nodes (counted node.status.status acc) nodes

-- The answer of `listNodes`.
unfoldable pub on_nodes : List Node → NodeList → NodeList
on_nodes result s = record s { nodes = result; load_error = none; loading = false }

unfoldable pub on_list_failed : (err : Option String) → NodeList → NodeList
on_list_failed err s = record s {
  load_error = some (get_or err "Failed to load nodes");
  loading = false;
}

-- A timer of five seconds closes a notice of an error.
unfoldable pub on_notice_timer : NodeList → NodeList
on_notice_timer s = elim s.action_notice [
  | none ↦ s
  | some notice ↦ (elim notice.variant [ error ↦ record s { action_notice = none } | warning ↦ s ])
]

unfoldable pub handle_add : NodeList → NodeList
handle_add s = record s { editing_node = none; form_open = true }

unfoldable pub handle_edit : Node → NodeList → NodeList
handle_edit node s = record s { editing_node = some node; form_open = true }

abbrev pub without_node : String → List Node → List Node
without_node id [] = []
without_node id (node ∷ nodes) =
    if node.id === id then without_node id nodes else node ∷ without_node id nodes

abbrev pub failed_notice : (title message id : String) → NodeList → NodeList
failed_notice title message id s = record s {
  action_notice =
      some (record { variant = error; title = title; message = message; node_id = some id });
}

unfoldable pub on_deleted : (id : String) → NodeList → NodeList
on_deleted id s = record s { nodes = without_node id s.nodes; action_notice = none }

unfoldable pub on_delete_failed : (id : String) (err : Option String) → NodeList → NodeList
on_delete_failed id err s =
    failed_notice "Could not delete node" (get_or err "Failed to delete node") id s

-- `nodes.find((n) => n.id === id)?.name ?? "node"`
abbrev pub name_of : String → List Node → String
name_of id [] = "node"
name_of id (node ∷ nodes) = if node.id === id then node.name else name_of id nodes

abbrev pub could_not : (verb id message : String) → List Node → String
could_not verb id message nodes =
    String.◌++◌ "Could not " (
      String.◌++◌ verb
        (String.◌++◌ " " (String.◌++◌ (name_of id nodes) (String.◌++◌ ": " message))))

-- A node was started or stopped, or the form submitted, and the nodes were listed anew.
unfoldable pub on_done : NodeList → NodeList
on_done s = record s { action_notice = none }

-- `before` are the nodes when the button was clicked.
unfoldable pub on_start_failed :
    (before : List Node) (id : String) (err : Option String) → NodeList → NodeList
on_start_failed before id err s =
    failed_notice "Could not start node"
      (could_not "start" id (get_or err "Failed to start node") before) id s

abbrev pub is_already_stopped_error : (String → String) → String → Bool
is_already_stopped_error lower message =
    includes "node not running" (lower message) || includes "process not found" (lower message)

unfoldable pub on_stop_failed :
    (lower : String → String) (before : List Node) (id : String) (err : Option String)
    → NodeList
    → NodeList
on_stop_failed lower before id err s =
    let message = get_or err "Failed to stop node" in
    if is_already_stopped_error lower message
    then record s {
      action_notice = some (record {
        variant = warning;
        title = "Node was already stopped";
        message = "Process was already gone. Stale server info was cleaned up.";
        node_id = some id;
      });
    }
    else failed_notice "Could not stop node" (could_not "stop" id message before) id s

total-counted : (status : NodeStatus) (acc : Counts) → (counted status acc).total ≡ acc.total + 1
total-counted running acc = refl
total-counted stopped acc = refl
total-counted stale acc = refl

balanced :
    (status : NodeStatus) (acc : Counts)
    → acc.total ≡ acc.running + acc.stale + acc.stopped
    → (counted status acc).total
      ≡ (counted status acc).running + (counted status acc).stale + (counted status acc).stopped
balanced running acc h = omega arith
balanced stopped acc h = omega arith
balanced stale acc h = omega arith

-- The counts add up: the total is the number of nodes, and that of the three states together.
pub count_nodes-total :
    (nodes : List Node) (acc : Counts)
    → acc.total ≡ acc.running + acc.stale + acc.stopped
    → let counts = count_nodes acc nodes in
      (counts.total ≡ acc.total + length nodes)
      × (counts.total ≡ counts.running + counts.stale + counts.stopped)
count_nodes-total [] acc h = (omega arith, h)
count_nodes-total (node ∷ nodes) acc h =
    let next = counted node.status.status acc in
    let rest = count_nodes-total nodes next (balanced node.status.status acc h) in
    let one = total-counted node.status.status acc in (omega (arith, rest.0), rest.1)
