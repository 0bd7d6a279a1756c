-- ===== src/Checks/LeftToCi.antt =====
-- `template/scripts/select_checks.py`: the commands that a local run leaves to the required check of
-- the pull request, and the precondition on the repository for doing so.
pub mod Split
use dev_platform.Base.{String, Bool, true, false, not, ◌&&◌, ◌||◌, ◌==◌, ◌=?◌, Option, none, some}
use dev_platform.Base.{List, [], ◌∷◌, map, keep, contains, is_empty, length, if◌then◌else◌}
use dev_platform.Base.Result.{Result, ok, err, ◌>>=◌}
use dev_platform.Checks.Config.{Config, Check, Reason, behavior_declaration_unproven, SelectError}
use dev_platform.Checks.Config.{unknown_ci_only, ungated_ci_only}
use dev_platform.Checks.Select.{select_mapped}

-- The keys of the platform configuration that the gate reads.
pub record Platform : Type 0 where
  pub harness_mode : String
  pub scm_provider : String
  pub protected_main : Bool
  pub publish_mode : String
  pub pr_merge_mode : String

unfoldable pub ci_only_commands : Config → Result SelectError (List String)
ci_only_commands config =
    let s = config.settings in
    let unknown = keep (λ command. not (contains s.full_commands command)) s.ci_only_commands in
    if is_empty unknown then ok s.ci_only_commands else err (unknown_ci_only unknown)

unfoldable pub require_ci_runs_the_full_set : Platform → Result SelectError (Unit {0})
require_ci_runs_the_full_set p =
    if p.harness_mode == "platform"
      && p.scm_provider == "github"
      && p.protected_main
      && p.publish_mode == "pr"
      && p.pr_merge_mode == "auto"
    then ok tt
    else err ungated_ci_only

unfoldable pub or_empty : Option (List String) → List String
or_empty none = []
or_empty (some xs) = xs

-- `[kind for command, kind in zip(commands, kinds) if command not in leave]`
unfoldable pub kept_kinds : List String → List String → List String → List String
kept_kinds leave [] kinds = []
kept_kinds leave (c ∷ cs) [] = []
kept_kinds leave (c ∷ cs) (k ∷ ks) =
    let rest = kept_kinds leave cs ks in if contains leave c then rest else k ∷ rest

unfoldable pub is_unproven : Option Reason → Bool
is_unproven none = false
is_unproven (some Reason.behavior_declaration_unproven) = true
is_unproven (some _) = false

kept_evidence : List String → Check → Option (List String)
unfolding kept_kinds or_empty
kept_evidence leave check =
    let kinds = or_empty check.evidence_types in
    if length kinds =? length check.commands
    then some (kept_kinds leave check.commands kinds)
    else check.evidence_types

kept_required : Option (List String) → Option (List String) → Option (List String)
unfolding or_empty
kept_required none evidence = none
kept_required (some required) evidence = some (keep (contains (or_empty evidence)) required)

-- One round of the loop over the selected checks.
unfoldable pub leave_check : List String → Check → Check
unfolding kept_evidence kept_required is_unproven
leave_check leave check =
    let left = keep (contains leave) check.commands in
    if is_empty left || is_unproven check.selection_reason then check else record check {
      evidence_types = kept_evidence leave check;
      commands = keep (λ command. not (contains leave command)) check.commands;
      required_evidence_types =
          kept_required check.required_evidence_types (kept_evidence leave check);
      left_to_required_ci = some left;
    }

unfoldable pub leave_to_required_ci : Config → List Check → Result SelectError (List Check)
unfolding ci_only_commands leave_check
leave_to_required_ci config checks = do
  leave ← ci_only_commands config
  ok (map (leave_check leave) checks)

unfoldable pub select :
    (String → String → Bool)
    → Config
    → List String
    → Option String
    → Result SelectError (List Check)
unfolding select_mapped leave_to_required_ci
select fnmatch config paths declared = do
  checks ← select_mapped fnmatch config paths declared
  leave_to_required_ci config checks
