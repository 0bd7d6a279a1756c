-- ===== src/Examples/Boarding.antt =====
-- A task that shares one path with another, and has acknowledged it; an entry whose branch was merged; and a
-- board that the scope gate reads.
use dev_platform.Base.Sorting.{sorted_set}
use dev_platform.Base.{String, List, ◌≡◌, ◌⊎◌, true, false, none, some, refl, [], ◌∷◌, All}
use dev_platform.Base.Json.{Fields, field, close, pos, bool, str, obj}
use dev_platform.Base.Result.{ok}
use dev_platform.Board.{Item, Asking, admit_item}
use dev_platform.Board.Status.{
  GitExit, merged_branch, terminal, valid_active, Entry, Reads, claim_eligibility,
}
use dev_platform.Board.Status.Proof.{
  IsMergedExactly, IsMergedBranch, IsRegistered, claim_eligibility-IsProved,
}
use dev_platform.Board.Registry.{Task, Claims, Identity, cmd_start, cmd_finish}
use dev_platform.Board.Registry.Unique.{fresh, started, finished, IsUnique, IsReachedBoard-IsUnique}
use dev_platform.Board.Scope.{BoardFile, holds, scope_gate_required, enforce_scope_gate}
use dev_platform.Board.Scope.Enforced.{IsAlone, enforce_scope_gate-IsAlone}
use dev_platform.Board.Admission.{IsFree, admit_item-IsFree}

abbrev other_item : Item
other_item = record {
  id = "t1";
  task = "parser";
  worktree = "/w/1";
  branch = "task/1";
  is_active = true;
  owned = "src/a.py" ∷ "src/b.py" ∷ "docs/index.md" ∷ [];
}

abbrev asking : Asking
asking = record {
  worktree = "/w/2";
  branch = "task/2";
  candidates = "src/b.py" ∷ "src/c.py" ∷ "docs/index.md" ∷ [];
  generated = "docs/index.md" ∷ [];
  acknowledgments = ("t1", "src/b.py" ∷ []) ∷ [];
}

abbrev granted : List String
granted = "docs/index.md" ∷ "src/b.py" ∷ "src/c.py" ∷ []

admit_item-IsFree_example :
    (sorted_set asking.candidates ≡ granted) × All (IsFree asking) (other_item ∷ [])
unfolding admit_item
admit_item-IsFree_example = admit_item-IsFree 5 asking (other_item ∷ []) granted refl

abbrev yes_exit : GitExit
yes_exit = record { code = pos 0; output = "task/1" }

abbrev entry : Entry
entry = record { worktree = "/w/1"; branch = "task/1"; base_head = "b0"; heartbeat = "now" }

abbrev reads : Reads
reads = record {
  is_there = true;
  show_current = yes_exit;
  show_ref = yes_exit;
  merged_into = yes_exit;
  base_commit = yes_exit;
  branch_head = record { code = pos 0; output = "h1" };
  base_ancestor = yes_exit;
  first_parents = some ("m2" ∷ []);
  has_env = false;
  local_head = yes_exit;
  candidates = none;
}

merged_entry :
    claim_eligibility (λ s. s) (λ j. "") (λ s. some 7) 3 entry "main" reads
    ≡ ok (terminal, merged_branch ∷ [])
unfolding claim_eligibility
merged_entry = refl

claim_eligibility-IsProved_example :
    (terminal ≡ terminal
      → IsMergedExactly (λ s. s) (λ j. "") entry "main" reads ⊎ IsMergedBranch entry reads)
    × (terminal ≡ valid_active → IsRegistered (λ s. some 7) 3 entry reads)
claim_eligibility-IsProved_example =
    claim_eligibility-IsProved (λ s. s) (λ j. "") (λ s. some 7) 3 entry "main" reads terminal
      (merged_branch ∷ []) merged_entry

abbrev board_task : Task
board_task = record {
  id = "t1";
  task = "parser";
  scope = "src/a.py";
  branch = "task/1";
  worktree = "/w/1";
  base_head = "b0";
  heartbeat = "now";
  acknowledgments = [];
  claims = [];
  admission = none;
}

abbrev identity : Identity
identity = record {
  is_absolute = true;
  raw = "/w/1";
  integration = "/main";
  is_there = true;
  registered = some ("/main" ∷ "/w/1" ∷ []);
  checked_out = some "task/1";
  has_branch = true;
}

task_started : cmd_start (λ s. s) board_task identity true (ok "b0") [] ≡ ok (board_task ∷ [])
unfolding cmd_start
task_started = refl

IsReachedBoard-IsUnique_example : IsUnique (λ s. s) (cmd_finish "t0" (board_task ∷ []))
IsReachedBoard-IsUnique_example =
    IsReachedBoard-IsUnique (λ s. s) (cmd_finish "t0" (board_task ∷ [])) (λ raw. refl)
      (finished (board_task ∷ []) "t0"
        (started [] (board_task ∷ []) board_task identity true (ok "b0") task_started fresh))

abbrev other_task : Task
other_task = record board_task { id = "t2"; branch = "task/2"; worktree = "/w/2" }

abbrev both_claims : Claims
both_claims = record { asking = λ t. asking; item = λ t. other_item }

abbrev gate_config : Fields
gate_config =
    field "main_branch" (str "main")
      (field "capabilities" (obj (field "agent_board" (bool true) close)) close)

abbrev board_file : BoardFile
board_file = holds (board_task ∷ other_task ∷ [])

enforce_scope_gate-IsAlone_example :
    IsAlone (λ s. s) (λ main. both_claims) 5 "/w/2" "task/2" gate_config board_file
unfolding enforce_scope_gate scope_gate_required
enforce_scope_gate-IsAlone_example =
    enforce_scope_gate-IsAlone (λ s. s) (λ main. both_claims) 5 "/w/2" "task/2" gate_config
      board_file refl refl
