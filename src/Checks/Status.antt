-- ===== src/Checks/Status.antt =====
-- `template/scripts/select_checks.py`: the commands of a selection, whether it is covered by them, and
-- the pool tokens that its execution takes.
pub mod Ready
use dev_platform.Base.{
  String, ℕ, Bool, true, false, not, ◌&&◌, ◌||◌, ◌==◌, ◌=?◌, Option, none, some,
}
use dev_platform.Base.{
  List, [], ◌∷◌, ◌++◌, any, all, keep, contains, is_empty, length, if◌then◌else◌,
}
use dev_platform.Base.Result.{Result, ok, err}
use dev_platform.Base.Sorting.{sorted_set}
use dev_platform.Checks.Config.{Check, Reason, protected_full, high_impact_path, unknown_path}
use dev_platform.Checks.Config.{SelectError}
use dev_platform.Checks.LeftToCi.{or_empty}

-- `if command not in commands: commands.append(command)`, over the commands of one check
unfoldable pub add_new : List String → List String → List String
add_new seen [] = seen
add_new seen (c ∷ cs) = add_new (if contains seen c then seen else seen ++ (c ∷ [])) cs

unfoldable pub add_checks : List String → List Check → List String
unfolding add_new
add_checks seen [] = seen
add_checks seen (c ∷ cs) = add_checks (add_new seen c.commands) cs

unfoldable pub commands_for : List Check → List String
unfolding add_checks
commands_for checks = add_checks [] checks

runs_full_set : Option Reason → Bool
runs_full_set (some Reason.protected_full) = true
runs_full_set (some Reason.high_impact_path) = true
runs_full_set (some Reason.unknown_path) = true
runs_full_set _ = false

unfoldable pub requires_task_freshness : List Check → Bool
unfolding runs_full_set
requires_task_freshness checks = any (λ c. runs_full_set c.selection_reason) checks

pub data State : Type 0 where
  not_applicable ready invalid_coverage : State

pub record Status : Type 0 where
  pub state : State
  pub command_count : ℕ
  pub check_count : ℕ
  pub empty_check_ids : List String
  pub malformed_evidence_check_ids : List String
  pub missing_required_evidence : List (String × List String)

unfoldable pub empty_ids : List Check → List String
empty_ids [] = []
empty_ids (c ∷ cs) = if is_empty c.commands then c.id ∷ empty_ids cs else empty_ids cs

unfoldable pub is_malformed : Check → Bool
unfolding or_empty
is_malformed c =
    let kinds = or_empty c.evidence_types in
    not (is_empty kinds) && not (length kinds =? length c.commands)

-- `sorted(set(required) - set(kinds))`
unfoldable pub absent_kinds : Check → List String
unfolding or_empty sorted_set
absent_kinds c =
    sorted_set (
      keep (λ k. not (contains (or_empty c.evidence_types) k)) (or_empty c.required_evidence_types))

-- `d[key] = value`
unfoldable pub assign :
    String → List String → List (String × List String) → List (String × List String)
assign key v [] = (key, v) ∷ []
assign key v ((k, w) ∷ d) = if k == key then (key, v) ∷ d else (k, w) ∷ assign key v d

-- The loop that fills `malformed` and `missing_evidence`.
unfoldable pub scan_evidence :
    List Check
    → List String
    → List (String × List String)
    → List String × List (String × List String)
unfolding is_malformed absent_kinds assign
scan_evidence [] malformed missing = (malformed, missing)
scan_evidence (c ∷ cs) malformed missing =
    if is_malformed c
    then scan_evidence cs (malformed ++ (c.id ∷ [])) missing
    else if is_empty (absent_kinds c)
    then scan_evidence cs malformed missing
    else scan_evidence cs malformed (assign c.id (absent_kinds c) missing)

state_of : List String → List String → List (String × List String) → State
state_of empty malformed missing =
    if is_empty empty && is_empty malformed && is_empty missing then ready else invalid_coverage

unfoldable pub selection_status : List Check → Status
unfolding empty_ids scan_evidence state_of commands_for
selection_status [] = record {
  state = not_applicable;
  command_count = 0;
  check_count = 0;
  empty_check_ids = [];
  malformed_evidence_check_ids = [];
  missing_required_evidence = [];
}
selection_status (c ∷ cs) =
    let (malformed, missing) = scan_evidence (c ∷ cs) [] [] in
    record {
      state = state_of (empty_ids (c ∷ cs)) malformed missing;
      command_count = length (commands_for (c ∷ cs));
      check_count = length (c ∷ cs);
      empty_check_ids = empty_ids (c ∷ cs);
      malformed_evidence_check_ids = malformed;
      missing_required_evidence = missing;
    }

is_invalid : State → Bool
is_invalid State.invalid_coverage = true
is_invalid _ = false

unfoldable pub validate_platform_selection : List Check → String → Result SelectError Status
unfolding selection_status is_invalid
validate_platform_selection checks harness =
    let status = selection_status checks in
    if harness == "platform" && is_invalid status.state
    then err SelectError.invalid_coverage
    else ok status

-- `LIGHT_EVIDENCE_TYPES`
abbrev pub is_light : String → Bool
is_light kind = kind == "configuration" || kind == "syntax"

unfoldable pub lease_loop : List Check → ℕ → ℕ
unfolding or_empty
lease_loop [] test_jobs = 1
lease_loop (c ∷ cs) test_jobs =
    let kinds = or_empty c.evidence_types in
    let rest = lease_loop cs test_jobs in
    if not (length kinds =? length c.commands) || not (all is_light kinds) then test_jobs else rest

unfoldable pub lease_weight : List Check → Option (List String) → ℕ → ℕ
unfolding lease_loop or_empty
lease_weight checks precheck test_jobs =
    if is_empty (or_empty precheck) then lease_loop checks test_jobs else test_jobs
