-- ===== src/Board.antt =====
-- `template/scripts/agent_board.py`: `_acknowledged_overlap`, `_admission_conflicts` and `_admit_item`, which
-- decide whether a task may run beside the others. What `_owned_claim_paths`, `claim_eligibility` and
-- `_claim_candidates` read from git stands in the records; a read that exits leaves the board as it was, and is not
-- modelled. The board keeps the decision and the claims (Board.Registry).
pub mod Admission
pub mod Status
pub mod Registry
pub mod Scope
use dev_platform.Base.{ℕ, suc, String, Bool, true, false, not, ◌&&◌, ◌||◌, ◌==◌, leb}
use dev_platform.Base.{List, [], ◌∷◌, ◌++◌, any, keep, contains, is_empty, length, if◌then◌else◌}
use dev_platform.Base.Sorting.{sorted_set}

-- An item of the board: its eligibility is `valid-active` or not.
pub record Item : Type 0 where
  pub id : String
  pub task : String
  pub worktree : String
  pub branch : String
  pub is_active : Bool
  pub owned : List String

-- The task that asks: `acknowledgments` holds for each the identity `with_id` and the paths, `candidates`
-- is what `_claim_candidates` returns and `generated` what `_declared_generated_paths` returns.
pub record Asking : Type 0 where
  pub worktree : String
  pub branch : String
  pub candidates : List String
  pub generated : List String
  pub acknowledgments : List (String × List String)

pub record Conflict : Type 0 where
  pub id : String
  pub task : String
  pub path : String

-- `current_claims`, without the paths that are declared generated
unfoldable pub claims_of : Asking → List String
claims_of current = keep (λ path. not (contains current.generated path)) current.candidates

unfoldable pub acknowledged_overlap : Asking → String → String → Bool
acknowledged_overlap current other_id path =
    any (λ (with_id, paths). with_id == other_id && contains paths path) current.acknowledgments

unfoldable pub same_conflict : Conflict → Conflict → Bool
same_conflict a b = a.id == b.id && (a.task == b.task && a.path == b.path)

-- `if conflict not in conflicts: conflicts.append(conflict)`
unfoldable pub note_conflict : Conflict → List Conflict → List Conflict
unfolding same_conflict
note_conflict c conflicts =
    if any (same_conflict c) conflicts then conflicts else conflicts ++ (c ∷ [])

-- The loop over the shared paths of one item; the flag tells that the limit is reached.
unfoldable pub scan_shared : ℕ → Asking → Item → List String → List Conflict → Bool × List Conflict
unfolding acknowledged_overlap note_conflict
scan_shared limit current item [] conflicts = (false, conflicts)
scan_shared limit current item (path ∷ paths) conflicts =
    let noted = note_conflict (record { id = item.id; task = item.task; path = path }) conflicts in
    let skipped = scan_shared limit current item paths conflicts in
    let later = scan_shared limit current item paths noted in
    if acknowledged_overlap current item.id path
    then skipped
    else if leb limit (length noted)
    then (true, noted)
    else later

-- The items that the loop passes over.
unfoldable pub is_skipped : Asking → Item → Bool
is_skipped current item =
    item.worktree == current.worktree || (item.branch == current.branch || not item.is_active)

-- `sorted(current_claims & _owned_claim_paths(item))`
unfoldable pub shared_paths : Asking → Item → List String
unfolding sorted_set claims_of
shared_paths current item = sorted_set (keep (contains item.owned) (claims_of current))

-- The loop over the other items.
unfoldable pub scan_items : ℕ → Asking → List Item → Bool × List Conflict → List Conflict
unfolding is_skipped scan_shared shared_paths
scan_items limit current items (true, conflicts) = conflicts
scan_items limit current [] (false, conflicts) = conflicts
scan_items limit current (item ∷ items) (false, conflicts) = scan_items limit current items (
    if is_skipped current item
    then (false, conflicts)
    else scan_shared limit current item (shared_paths current item) conflicts)

unfoldable pub admission_conflicts : ℕ → Asking → List Item → List Conflict
unfolding scan_items
admission_conflicts limit current items =
    if is_empty current.candidates then [] else scan_items limit current items (false, [])

-- With the claims that the task gets, or with the conflicts.
pub data Decision : Type 0 where
  run : List String → Decision
  wait : List Conflict → Decision

decision : List String → List Conflict → Decision
decision candidates [] = run (sorted_set candidates)
decision candidates (c ∷ cs) = wait (c ∷ cs)

unfoldable pub admit_item : ℕ → Asking → List Item → Decision
unfolding admission_conflicts decision sorted_set
admit_item limit current items =
    decision current.candidates (admission_conflicts limit current items)
