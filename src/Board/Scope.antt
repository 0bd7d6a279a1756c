-- ===== src/Board/Scope.antt =====
-- The scope gate of `template/scripts/agent_board.py`: `scope_gate_required`, `_required_scope_inputs`,
-- `hard_scope_conflicts` and `enforce_scope_gate`, over the board's file, whose items are read as entries, and
-- what git says of the claims.
pub mod Enforced
use dev_platform.Base.{
  ℕ, String, Bool, true, false, Option, none, some, List, [], ◌∷◌, ◌==◌, if◌then◌else◌, map,
}
use dev_platform.Base.Json.{Json, bool, str, obj, Fields, lookup}
use dev_platform.Base.Result.{Result, err, ok, ◌>>=◌}
use dev_platform.Board.{Conflict, admission_conflicts}
use dev_platform.Board.Registry.{Task, Claims, find_item, without}

-- The failures `scope-gate-unavailable`, by their cause, and `scope-overlap`.
pub data GateFault : Type 0 where
  no_capabilities : GateFault
  no_capability : GateFault
  no_board_path : GateFault
  no_board : GateFault
  unreadable_board : GateFault
  no_board_object : GateFault
  no_board_items : GateFault
  no_main_branch : GateFault
  no_claim : GateFault
  hard_overlap : List Conflict → GateFault

-- The board's file: no configured path, no file, no JSON, no object, no list of items, or the items.
pub data BoardFile : Type 0 where
  unnamed : BoardFile
  nowhere : BoardFile
  unreadable : BoardFile
  no_object : BoardFile
  no_items : BoardFile
  holds : List Task → BoardFile

unfoldable pub capability : Option Json → Result GateFault Bool
capability (some (bool b)) = ok b
capability j = err no_capability

unfoldable pub capabilities_of : Option Json → Result GateFault Bool
unfolding capability lookup
capabilities_of (some (obj capabilities)) = capability (lookup "agent_board" capabilities)
capabilities_of j = err no_capabilities

unfoldable pub scope_gate_required : Fields → Result GateFault Bool
unfolding capabilities_of lookup
scope_gate_required config = capabilities_of (lookup "capabilities" config)

unfoldable pub items_of : BoardFile → Result GateFault (List Task)
items_of unnamed = err no_board_path
items_of nowhere = err no_board
items_of unreadable = err unreadable_board
items_of no_object = err no_board_object
items_of no_items = err no_board_items
items_of (holds items) = ok items

unfoldable pub current_of : Option (ℕ × Task) → Result GateFault (ℕ × Task)
current_of none = err no_claim
current_of (some place) = ok place

unfoldable pub main_branch_of : Option Json → Result GateFault String
main_branch_of (some (str s)) = if s == "" then err no_main_branch else ok s
main_branch_of j = err no_main_branch

unfoldable pub overlap_result : List Conflict → Result GateFault Unit
overlap_result [] = ok tt
overlap_result (c ∷ cs) = err (hard_overlap (c ∷ cs))

-- The items, the place of the task's entry, the entry, and the main branch.
abbrev pub Inputs : Type 0
Inputs = List Task × (ℕ × (Task × String))

-- `claims` reads git beside a main branch.
module _ (resolve : String → String) (claims : String → Claims) (limit : ℕ) where
  unfoldable pub required_scope_inputs :
      String → String → Fields → BoardFile → Result GateFault Inputs
  unfolding items_of main_branch_of current_of find_item lookup
  required_scope_inputs worktree branch config file = items_of file >>= λ items.
      main_branch_of (lookup "main_branch" config) >>= λ main.
      current_of (find_item resolve worktree branch items) >>= λ place.
      ok (items, (place.0, (place.1, main)))

  unfoldable pub conflicts_of : Inputs → List Conflict
  unfolding admission_conflicts without
  conflicts_of (items, (n, (current, main))) =
      admission_conflicts limit ((claims main).asking current)
        (map (claims main).item (without n items))

  unfoldable pub conflicts_if :
      String → String → Fields → BoardFile → Bool → Result GateFault (List Conflict)
  unfolding required_scope_inputs conflicts_of
  conflicts_if worktree branch config file false = ok []
  conflicts_if worktree branch config file true =
      required_scope_inputs worktree branch config file >>= λ inputs. ok (conflicts_of inputs)

  unfoldable pub hard_scope_conflicts :
      String → String → Fields → BoardFile → Result GateFault (List Conflict)
  unfolding scope_gate_required conflicts_if
  hard_scope_conflicts worktree branch config file =
      scope_gate_required config >>= λ required. conflicts_if worktree branch config file required

  unfoldable pub enforce_scope_gate : String → String → Fields → BoardFile → Result GateFault Unit
  unfolding hard_scope_conflicts overlap_result
  enforce_scope_gate worktree branch config file =
      hard_scope_conflicts worktree branch config file >>= λ conflicts. overlap_result conflicts
