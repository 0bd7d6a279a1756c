-- ===== src/Examples/Checking.antt =====
-- A configuration with two rules, and changes that it maps or does not map.
use dev_platform.Base.{
  String, Bool, true, false, ◌≡◌, refl, ◌==◌, none, some, List, [], ◌∷◌, contains, all, map,
  Distinct, ◌||◌,
}
use dev_platform.Checks.Config.{Rule, Config, Check}
use dev_platform.Checks.Select.{select_mapped, select_paths, start}
use dev_platform.Checks.Select.Coverage.{Covered, select_mapped-Covered}
use dev_platform.Checks.Select.Attribution.{backed, select_paths-backed, select_paths-Distinct}
use dev_platform.Checks.LeftToCi.{leave_check, or_empty}
use dev_platform.Checks.LeftToCi.Split.{contains-leave_check}
use dev_platform.Checks.Status.{commands_for, selection_status, ready}
use dev_platform.Checks.Status.Ready.{contains-commands_for, state-selection_status}

abbrev same_path : String → String → Bool
same_path path pattern = path == pattern

abbrev lint_rule : Rule
lint_rule = record {
  patterns = "a.py" ∷ [];
  commands = "ruff" ∷ "mypy" ∷ [];
  evidence_types = some ("syntax" ∷ "configuration" ∷ []);
  required_evidence_types = some ("syntax" ∷ []);
}

abbrev docs_rule : Rule
docs_rule = record {
  patterns = "b.md" ∷ "a.py" ∷ [];
  commands = "mypy" ∷ "links" ∷ [];
  evidence_types = some ("syntax" ∷ "syntax" ∷ []);
  required_evidence_types = none;
}

abbrev two_rules : List (String × Rule)
two_rules = ("lint", lint_rule) ∷ ("docs", docs_rule) ∷ []

abbrev two_rules_config : Config
two_rules_config = record {
  settings = record {
    full_commands = "pytest" ∷ "ruff" ∷ [];
    full_evidence_types = none;
    full_required_evidence_types = none;
    instruction_behavior_surface_patterns = [];
    ci_only_commands = "pytest" ∷ [];
    full_trigger_patterns = "core.py" ∷ [];
    affected_precheck = false;
  };
  checks = two_rules;
  behavioral_evidence = [];
  test_groups = [];
}

abbrev lint_check : Check
lint_check = record {
  id = "lint";
  paths = "a.py" ∷ [];
  commands = "ruff" ∷ "mypy" ∷ [];
  selection_reason = none;
  evidence_types = some ("syntax" ∷ "configuration" ∷ []);
  required_evidence_types = some ("syntax" ∷ []);
  left_to_required_ci = none;
}

abbrev docs_check : Check
docs_check = record {
  id = "docs";
  paths = "a.py" ∷ "b.md" ∷ [];
  commands = "mypy" ∷ "links" ∷ [];
  selection_reason = none;
  evidence_types = some ("syntax" ∷ "syntax" ∷ []);
  required_evidence_types = none;
  left_to_required_ci = none;
}

select_mapped-Covered_example :
    Covered same_path two_rules_config "b.md" (lint_check ∷ docs_check ∷ [])
unfolding select_mapped
select_mapped-Covered_example =
    select_mapped-Covered same_path two_rules_config ("a.py" ∷ "b.md" ∷ []) none "b.md" refl refl

select_paths-backed_example :
    all
      (λ c. all (λ q. backed same_path two_rules q c.id) c.paths)
      (select_paths same_path two_rules ("a.py" ∷ "b.md" ∷ []) start).selected
    ≡ true
select_paths-backed_example = select_paths-backed same_path two_rules ("a.py" ∷ "b.md" ∷ [])

select_paths-Distinct_example :
    Distinct
      (map (λ c. c.id) (select_paths same_path two_rules ("a.py" ∷ "b.md" ∷ []) start).selected)
select_paths-Distinct_example = select_paths-Distinct same_path two_rules ("a.py" ∷ "b.md" ∷ [])

contains-leave_check_example :
    let left = leave_check ("ruff" ∷ []) lint_check in
    contains lint_check.commands "ruff"
    ≡ (contains left.commands "ruff" || contains (or_empty left.left_to_required_ci) "ruff")
contains-leave_check_example = contains-leave_check ("ruff" ∷ []) lint_check "ruff" refl

contains-commands_for_example :
    contains (commands_for (lint_check ∷ docs_check ∷ [])) "links" ≡ true
contains-commands_for_example = contains-commands_for (lint_check ∷ docs_check ∷ []) "links"

state-selection_status_example : (selection_status (lint_check ∷ docs_check ∷ [])).state ≡ ready
unfolding or_empty
state-selection_status_example = state-selection_status lint_check (docs_check ∷ [])
