-- ===== src/Board/Status.antt =====
-- `_status`, `_ancestor_merge_problem` and `claim_eligibility` of `template/scripts/agent_board.py`, with
-- `find_exact_local_branch_pr` of `template/scripts/publication_state.py`. The confirms of git and GitHub are a record;
-- an answer that the code does not come to ask for is not used. `moment` is the time that a text names.
pub mod Proof
use dev_platform.Base.{
  ℕ, zero, suc, String, Bool, true, false, not, ◌&&◌, ◌||◌, ltb, Option, none, some, ◌==◌, List, [],
  ◌∷◌, ◌++◌, any, contains, is_empty, if◌then◌else◌,
}
use dev_platform.Base.Json.{ℤ, pos, negsuc, Json, Fields}
use dev_platform.Base.Result.{Result, err, ok, ◌>>=◌}
use dev_platform.Base.Text.{strip, is_nil}
use dev_platform.Publication.ExactHead.{
  Found, HeadLookup, available, not_available, find_exact_head_pr,
}

pub record GitExit : Type 0 where
  pub code : ℤ
  pub output : String

-- `SystemExit`: a command that neither confirms nor denies, a head that cannot be read, a list that git refuses.
pub data BoardExit : Type 0 where
  blocked : GitExit → BoardExit
  no_head : BoardExit
  no_list : BoardExit

pub data Problem : Type 0 where
  worktree_missing : Problem
  branch_path_mismatch : Problem
  branch_missing : Problem
  merged_branch : Problem
  merged_pr : Problem
  unproven_merge_no_base : Problem
  unproven_merge_base_unknown : Problem
  unproven_merge_no_own_commits : Problem
  stale_heartbeat : Problem

-- `TERMINAL_BOARD_PROBLEMS`
unfoldable pub is_terminal : Problem → Bool
is_terminal merged_branch = true
is_terminal merged_pr = true
is_terminal _ = false

pub data Eligibility : Type 0 where
  terminal : Eligibility
  valid_active : Eligibility
  degraded : Eligibility

-- An entry, with empty texts for what is missing.
pub record Entry : Type 0 where
  pub worktree : String
  pub branch : String
  pub base_head : String
  pub heartbeat : String

pub record Reads : Type 0 where
  pub is_there : Bool
  pub show_current : GitExit
  pub show_ref : GitExit
  pub merged_into : GitExit
  pub base_commit : GitExit
  pub branch_head : GitExit
  pub base_ancestor : GitExit
  pub first_parents : Option (List String)
  pub has_env : Bool
  pub local_head : GitExit
  pub candidates : Option (List Fields)

unfoldable pub succeeded : GitExit → Bool
succeeded e = elim e.code [ pos n ↦ elim n [ zero ↦ true | suc m ↦ false ] | negsuc n ↦ false ]

-- Exit 0 is true and exit 1 false.
unfoldable pub exit_flag : GitExit → ℤ → Result BoardExit Bool
exit_flag e (pos zero) = ok true
exit_flag e (pos (suc zero)) = ok false
exit_flag e code = err (blocked e)

unfoldable pub confirms : GitExit → Result BoardExit Bool
unfolding exit_flag
confirms e = exit_flag e e.code

-- `_checked_out_branch(worktree) == branch`, for a branch that is not empty
unfoldable pub is_checked_out : GitExit → String → Bool
unfolding succeeded strip
is_checked_out e branch = succeeded e && strip e.output == branch

unfoldable pub heartbeat_is_stale : (String → Option ℕ) → ℕ → String → Bool
heartbeat_is_stale moment cutoff raw =
    if raw == "" then true else elim (moment raw) [ none ↦ true | some at ↦ ltb at cutoff ]

-- The lookup of `find_exact_local_branch_pr`, on the branch's head, and whether it shows an exact merged one.
unfoldable pub find_exact_local_branch_pr :
    (String → String) → (Json → String) → String → String → Reads → Option HeadLookup
unfolding succeeded strip is_nil find_exact_head_pr
find_exact_local_branch_pr upper text_of branch main_branch r =
    if succeeded r.local_head && not (is_nil (strip r.local_head.output))
    then some (
        find_exact_head_pr upper text_of branch main_branch (strip r.local_head.output)
          r.candidates)
    else none

unfoldable pub is_merged_lookup : Option HeadLookup → Bool
is_merged_lookup none = false
is_merged_lookup (some (not_available e)) = false
is_merged_lookup (some (available found)) = elim found.exact_merged [
  | none ↦ false
  | some pr ↦ true
]

unfoldable pub head_of : GitExit → Result BoardExit String
unfolding succeeded strip
head_of e = if succeeded e then ok (strip e.output) else err no_head

unfoldable pub known_list : Option (List String) → Result BoardExit (List String)
known_list none = err no_list
known_list (some shas) = ok shas

module _ (upper : String → String) (text_of : Json → String) where
  unfoldable pub exact_task_pr_is_merged : String → String → Reads → Bool
  unfolding find_exact_local_branch_pr is_merged_lookup
  exact_task_pr_is_merged branch main_branch r =
      r.has_env && is_merged_lookup (find_exact_local_branch_pr upper text_of branch main_branch r)

  -- `"merged-pr" if _exact_task_pr_is_merged(..) else other`
  unfoldable pub merged_or : String → String → Reads → Problem → Option Problem
  unfolding exact_task_pr_is_merged
  merged_or branch main_branch r other =
      if exact_task_pr_is_merged branch main_branch r then some merged_pr else some other

  -- A base that is an ancestor of the head, or not.
  unfoldable pub moved_on :
      String → String → Reads → String → Bool → Result BoardExit (Option Problem)
  unfolding merged_or known_list
  moved_on branch main_branch r head true = known_list r.first_parents >>= λ shas. ok (
      if contains shas head
      then merged_or branch main_branch r unproven_merge_no_own_commits
      else some merged_branch)
  moved_on branch main_branch r head false =
      ok (merged_or branch main_branch r unproven_merge_no_own_commits)

  unfoldable pub from_base :
      String → String → String → Reads → String → Bool → Result BoardExit (Option Problem)
  unfolding confirms moved_on
  from_base base branch main_branch r head true = ok none
  from_base base branch main_branch r head false =
      confirms r.base_ancestor >>= λ is_ancestor. moved_on branch main_branch r head is_ancestor

  unfoldable pub known_base :
      String → String → String → Reads → Bool → Result BoardExit (Option Problem)
  unfolding head_of from_base
  known_base base branch main_branch r false = ok (some unproven_merge_base_unknown)
  known_base base branch main_branch r true =
      head_of r.branch_head >>= λ head. from_base base branch main_branch r head (head == base)

  unfoldable pub ancestor_merge_problem :
      String → String → String → Reads → Bool → Result BoardExit (Option Problem)
  unfolding merged_or confirms known_base
  ancestor_merge_problem base branch main_branch r true =
      ok (merged_or branch main_branch r unproven_merge_no_base)
  ancestor_merge_problem base branch main_branch r false =
      confirms r.base_commit >>= λ is_commit. known_base base branch main_branch r is_commit

  unfoldable pub merge_problem :
      String → String → String → Reads → Bool → Result BoardExit (Option Problem)
  unfolding ancestor_merge_problem exact_task_pr_is_merged
  merge_problem base branch main_branch r true =
      ancestor_merge_problem base branch main_branch r (base == "")
  merge_problem base branch main_branch r false =
      ok (if exact_task_pr_is_merged branch main_branch r then some merged_pr else none)

  -- The part of the status about the branch.
  unfoldable pub branch_problem : Entry → String → Reads → Result BoardExit (Option Problem)
  unfolding succeeded confirms merge_problem
  branch_problem item main_branch r =
      if item.branch == "" || not (succeeded r.show_ref)
      then ok (some branch_missing)
      else if item.branch == main_branch
      then ok none
      else (confirms r.merged_into >>= λ merged.
          merge_problem item.base_head item.branch main_branch r merged)

-- The part of the status about the worktree.
unfoldable pub worktree_problem : Entry → Reads → Option Problem
unfolding is_checked_out
worktree_problem item r =
    if item.worktree == "" || not r.is_there
    then some worktree_missing
    else if item.branch == "" || is_checked_out r.show_current item.branch
    then none
    else some branch_path_mismatch

unfoldable pub heartbeat_problem : (String → Option ℕ) → ℕ → Entry → Option Problem
unfolding heartbeat_is_stale
heartbeat_problem moment cutoff item =
    if heartbeat_is_stale moment cutoff item.heartbeat then some stale_heartbeat else none

unfoldable pub with_problem : Option Problem → List Problem → List Problem
with_problem none problems = problems
with_problem (some problem) problems = problem ∷ problems

unfoldable pub eligibility : List Problem → Eligibility
unfolding is_terminal
eligibility problems =
    if any is_terminal problems
    then terminal
    else if is_empty problems
    then valid_active
    else degraded

module _ (upper : String → String) (text_of : Json → String) (moment : String → Option ℕ)
    (cutoff : ℕ) where
  unfoldable pub status : Entry → String → Reads → Result BoardExit (List Problem)
  unfolding worktree_problem branch_problem heartbeat_problem with_problem
  status item main_branch r = branch_problem upper text_of item main_branch r >>= λ problem. ok (
      with_problem (worktree_problem item r)
        (with_problem problem (with_problem (heartbeat_problem moment cutoff item) [])))

  unfoldable pub claim_eligibility :
      Entry → String → Reads → Result BoardExit (Eligibility × List Problem)
  unfolding status eligibility
  claim_eligibility item main_branch r =
      status item main_branch r >>= λ problems. ok (eligibility problems, problems)
