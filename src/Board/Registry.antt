-- ===== src/Board/Registry.antt =====
-- The commands of `template/scripts/agent_board.py` that change the board: `cmd_start`, `cmd_update`, `cmd_admit`,
-- `cmd_acknowledge`, `cmd_finish` and `cmd_doctor --fix`, with `validate_worktree_identity` and `_find_item`. A command
-- that exits leaves the file as it was. `resolve` is the absolute path without links.
pub mod Unique
use dev_platform.Base.{
  ℕ, zero, suc, String, Bool, true, false, not, ◌&&◌, ◌||◌, ltb, Option, none, some, ◌==◌, List, [],
  ◌∷◌, ◌++◌, map, keep, any, contains, is_empty, length, if◌then◌else◌,
}
use dev_platform.Base.Result.{Result, err, ok, ◌>>=◌, ◌>>◌}
use dev_platform.Base.Sorting.{sorted_set}
use dev_platform.Base.Text.{strip, is_nil}
use dev_platform.Board.{Asking, Item, Decision, run, wait, admit_item}
use dev_platform.Board.Status.{
  Eligibility, valid_active, Problem, worktree_missing, merged_branch, merged_pr, is_terminal,
  BoardExit,
}

-- An entry; the process, the start time and the time of a decision are not modelled.
pub record Task : Type 0 where
  pub id : String
  pub task : String
  pub scope : String
  pub branch : String
  pub worktree : String
  pub base_head : String
  pub heartbeat : String
  pub acknowledgments : List (String × List String)
  pub claims : List String
  pub admission : Option Decision

-- `SystemExit`, by its message.
pub data Blocked : Type 0 where
  relative_path : Blocked
  integration_main : Blocked
  no_worktree : Blocked
  no_worktree_list : Blocked
  unregistered_worktree : Blocked
  other_branch : Blocked
  no_branch : Blocked
  scope_paths : Blocked
  worktree_taken : Blocked
  branch_taken : Blocked
  unknown_id : Blocked
  no_entry : Blocked
  no_reason : Blocked
  no_paths : Blocked
  too_many_paths : Blocked
  inactive_other : Blocked
  unproven_paths : List String → Blocked
  unclassified : BoardExit → Blocked

-- What the file system and git say of a worktree that is to be registered.
pub record Identity : Type 0 where
  pub is_absolute : Bool
  pub raw : String
  pub integration : String
  pub is_there : Bool
  pub registered : Option (List String)
  pub checked_out : Option String
  pub has_branch : Bool

unfoldable pub need_entry : Bool → Blocked → Result Blocked Unit
need_entry true blocked = ok tt
need_entry false blocked = err blocked

unfoldable pub registered_worktrees : Option (List String) → Result Blocked (List String)
registered_worktrees none = err no_worktree_list
registered_worktrees (some roots) = ok roots

unfoldable pub is_branch : String → Option String → Bool
is_branch branch none = false
is_branch branch (some actual) = actual == branch

unfoldable pub first_with : String → List Task → Option Task
first_with id [] = none
first_with id (t ∷ ts) = let rest = first_with id ts in if t.id == id then some t else rest

-- The first entry with the id, changed.
unfoldable pub change_first : String → (Task → Task) → List Task → List Task
change_first id f [] = []
change_first id f (t ∷ ts) =
    let rest = change_first id f ts in if t.id == id then f t ∷ ts else t ∷ rest

-- The new values of `cmd_update`; a value that is not given stays.
unfoldable pub or_kept : Option String → String → String
or_kept none kept = kept
or_kept (some given) kept = given

unfoldable pub renewed_fields : Option String → Option String → String → Task → Task
unfolding or_kept
renewed_fields task scope now t = record t {
  task = or_kept task t.task;
  scope = or_kept scope t.scope;
  heartbeat = now;
}

unfoldable pub cmd_update :
    String → Option String → Option String → Bool → String → List Task → Result Blocked (List Task)
unfolding need_entry first_with change_first renewed_fields
cmd_update id task scope scope_fits now items =
    need_entry scope_fits scope_paths >> elim (first_with id items) [
      | none ↦ err unknown_id
      | some t ↦ ok (change_first id (renewed_fields task scope now) items)
    ]

unfoldable pub cmd_finish : String → List Task → List Task
cmd_finish id items = keep (λ t. not (t.id == id)) items

-- The paths of a request, each once.
unfoldable pub requested_paths : List String → List String
unfolding sorted_set strip
requested_paths paths = sorted_set (keep (λ path. not (is_nil path)) (map strip paths))

unfoldable pub acknowledged : String → List String → Task → Task
acknowledged with_id paths t = record t {
  acknowledgments = t.acknowledgments ++ ((with_id, paths) ∷ []);
}

unfoldable pub is_missing_problem : Problem → Bool
is_missing_problem worktree_missing = true
is_missing_problem p = false

-- `_safe_to_remove`; the flag tells that the worktree is there and clean.
unfoldable pub safe_to_remove : Task → List Problem → Bool → Bool
unfolding is_missing_problem is_terminal
safe_to_remove t problems is_clean =
    any is_missing_problem problems || (any is_terminal problems && (t.worktree == "" || is_clean))

-- The ids of the entries that `--fix` may remove.
unfoldable pub removable_ids :
    (Task → Result BoardExit (Eligibility × List Problem))
    → (Task → Bool)
    → List Task
    → Result BoardExit (List String)
unfolding safe_to_remove
removable_ids classify is_clean [] = ok []
removable_ids classify is_clean (t ∷ ts) = classify t >>= λ found.
    removable_ids classify is_clean ts >>= λ ids.
    ok (if safe_to_remove t found.1 (is_clean t) then t.id ∷ ids else ids)

unfoldable pub cmd_doctor_fix :
    (Task → Result BoardExit (Eligibility × List Problem))
    → (Task → Bool)
    → List Task
    → Result BoardExit (List Task)
unfolding removable_ids
cmd_doctor_fix classify is_clean items =
    removable_ids classify is_clean items >>= λ ids. ok (keep (λ t. not (contains ids t.id)) items)

unfoldable pub new_entry : Task → String → String → Task
new_entry t worktree base = record t {
  worktree = worktree;
  base_head = base;
  acknowledgments = [];
  claims = [];
  admission = none;
}

module _ (resolve : String → String) where
  unfoldable pub validate_worktree_identity : String → Identity → Result Blocked String
  unfolding need_entry registered_worktrees is_branch
  validate_worktree_identity branch i =
      let worktree = resolve i.raw in
      need_entry i.is_absolute relative_path
      >> need_entry (not (worktree == resolve i.integration)) integration_main
      >> need_entry i.is_there no_worktree
      >> (registered_worktrees i.registered >>= λ roots.
          need_entry (contains roots worktree) unregistered_worktree
          >> need_entry (is_branch branch i.checked_out) other_branch
          >> need_entry i.has_branch no_branch
          >> ok worktree)

  -- The loop of `cmd_start` over the entries.
  unfoldable pub require_free : String → String → List Task → Result Blocked Unit
  unfolding need_entry
  require_free worktree branch [] = ok tt
  require_free worktree branch (t ∷ ts) =
      let later = require_free worktree branch ts in
      need_entry (not (resolve t.worktree == worktree)) worktree_taken
      >> need_entry (not (t.branch == branch)) branch_taken
      >> later

  -- The entry is given by its id, name, scope and heartbeat; the rest of it is what was proved. `head` is what
  -- `_branch_head` returns, or its exit.
  unfoldable pub cmd_start :
      Task → Identity → Bool → Result Blocked String → List Task → Result Blocked (List Task)
  unfolding validate_worktree_identity need_entry require_free new_entry
  cmd_start t i scope_fits head items = validate_worktree_identity t.branch i >>= λ worktree.
      need_entry scope_fits scope_paths
      >> require_free worktree t.branch items
      >> (head >>= λ base. ok (items ++ (new_entry t worktree base ∷ [])))

  unfoldable pub is_entry_of : String → String → Task → Bool
  is_entry_of worktree branch t = resolve t.worktree == resolve worktree && t.branch == branch

  -- `_find_item` with its position
  unfoldable pub find_item : String → String → List Task → Option (ℕ × Task)
  unfolding is_entry_of
  find_item worktree branch [] = none
  find_item worktree branch (t ∷ ts) =
      let rest = find_item worktree branch ts in
      if is_entry_of worktree branch t
      then some (0, t)
      else elim rest [ none ↦ none | some (n, u) ↦ some (suc n, u) ]

-- The entry at a position, changed.
unfoldable pub change_at : ℕ → (Task → Task) → List Task → List Task
change_at n f [] = []
change_at zero f (t ∷ ts) = f t ∷ ts
change_at (suc n) f (t ∷ ts) = t ∷ change_at n f ts

unfoldable pub without : ℕ → List Task → List Task
without n [] = []
without zero (t ∷ ts) = ts
without (suc n) (t ∷ ts) = t ∷ without n ts

unfoldable pub renewed_entry : Option String → String → Task → Task
unfolding or_kept
renewed_entry scope now t = record t { scope = or_kept scope t.scope; heartbeat = now }

-- What git says of the claims of an entry, as the one that asks and as another.
pub record Claims : Type 0 where
  pub asking : Task → Asking
  pub item : Task → Item

-- What `_admit_item` writes into the entry.
unfoldable pub with_decision : Decision → Task → Task
with_decision (run claims) t = record t { claims = claims; admission = some (run claims) }
with_decision (wait conflicts) t = record t { admission = some (wait conflicts) }

-- The entries after a decision.
unfoldable pub decided : ℕ → Option String → String → List Task → Decision → Decision × List Task
unfolding with_decision renewed_entry change_at
decided n scope now items d =
    (d, change_at n (λ t. with_decision d (renewed_entry scope now t)) items)

unfoldable pub admit_at :
    Claims
    → ℕ
    → Option String
    → String
    → List Task
    → Option (ℕ × Task)
    → Result Blocked (Decision × List Task)
unfolding renewed_entry decided without admit_item
admit_at claims limit scope now items none = err no_entry
admit_at claims limit scope now items (some (n, t)) = ok (
    decided n scope now items (
      admit_item limit (claims.asking (renewed_entry scope now t))
        (map claims.item (without n items))))

unfoldable pub cmd_admit :
    (String → String)
    → Claims
    → ℕ
    → String
    → Identity
    → Option String
    → Bool
    → String
    → List Task
    → Result Blocked (Decision × List Task)
unfolding validate_worktree_identity need_entry find_item admit_at
cmd_admit resolve claims limit branch i scope scope_fits now items =
    validate_worktree_identity resolve branch i >>= λ worktree.
    need_entry scope_fits scope_paths
    >> admit_at claims limit scope now items (find_item resolve worktree branch items)

unfoldable pub is_active_entry : Result BoardExit (Eligibility × List Problem) → Result Blocked Unit
is_active_entry (err e) = err (unclassified e)
is_active_entry (ok (valid_active, problems)) = ok tt
is_active_entry (ok (eligibility, problems)) = err inactive_other

-- The paths that both entries claim now have all the requested ones.
unfoldable pub require_overlap : Claims → Task → Task → List String → Result Blocked Unit
require_overlap claims current other requested =
    let overlap = keep (contains (claims.item other).owned) (claims.asking current).candidates in
    let unproven = keep (λ path. not (contains overlap path)) requested in
    if is_empty unproven then ok tt else err (unproven_paths unproven)

unfoldable pub acknowledge_other :
    Claims
    → (Task → Result BoardExit (Eligibility × List Problem))
    → ℕ
    → Task
    → List String
    → List Task
    → Option Task
    → Result Blocked (List Task)
unfolding is_active_entry require_overlap change_at acknowledged
acknowledge_other claims classify n current requested items none = err unknown_id
acknowledge_other claims classify n current requested items (some other) =
    is_active_entry (classify other)
    >> require_overlap claims current other requested
    >> ok (change_at n (acknowledged other.id requested) items)

unfoldable pub acknowledge_at :
    Claims
    → (Task → Result BoardExit (Eligibility × List Problem))
    → String
    → List String
    → List Task
    → Option (ℕ × Task)
    → Result Blocked (List Task)
unfolding acknowledge_other first_with without
acknowledge_at claims classify with_id requested items none = err no_entry
acknowledge_at claims classify with_id requested items (some (n, current)) =
    acknowledge_other claims classify n current requested items
      (first_with with_id (without n items))

unfoldable pub cmd_acknowledge :
    (String → String)
    → Claims
    → (Task → Result BoardExit (Eligibility × List Problem))
    → String
    → Identity
    → String
    → String
    → List String
    → List Task
    → Result Blocked (List Task)
unfolding validate_worktree_identity need_entry is_nil strip requested_paths acknowledge_at
    find_item
cmd_acknowledge resolve claims classify branch i with_id reason paths items =
    validate_worktree_identity resolve branch i >>= λ worktree.
    need_entry (not (is_nil (strip reason))) no_reason
    >> need_entry (not (is_empty (requested_paths paths))) no_paths
    >> need_entry (not (ltb 20 (length (requested_paths paths)))) too_many_paths
    >> acknowledge_at claims classify with_id (requested_paths paths) items
        (find_item resolve worktree branch items)
