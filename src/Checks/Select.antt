-- ===== src/Checks/Select.antt =====
-- `template/scripts/select_checks.py`: which checks a set of changed paths selects. `fnmatch` is
-- the pattern matcher of Python's library.
pub mod Loop
pub mod Coverage
pub mod Attribution
use dev_platform.Base.{String, Bool, true, false, not, ◌&&◌, ◌||◌, ◌==◌, Option, none, some}
use dev_platform.Base.{List, [], ◌∷◌, ◌++◌, any, keep, contains, is_empty, if◌then◌else◌}
use dev_platform.Base.Result.{Result, ok, err, ◌>>=◌}
use dev_platform.Checks.Config.{Rule, Config, Check, Reason, SelectError, no_full_commands}
use dev_platform.Checks.Config.{high_impact_path, behavior_declaration_unproven, unknown_path}
use dev_platform.Checks.Config.{instruction_behavior_change}

unfoldable pub match_any : (String → String → Bool) → String → List String → Bool
match_any fnmatch path patterns = any (fnmatch path) patterns

unfoldable pub full_check : Config → Reason → Check
full_check config reason =
    let s = config.settings in
    record {
      id = "full";
      paths = [];
      commands = s.full_commands;
      selection_reason = some reason;
      evidence_types = s.full_evidence_types;
      required_evidence_types = s.full_required_evidence_types;
      left_to_required_ci = none;
    }

unfoldable pub full_checks : Config → Reason → Result SelectError (List Check)
unfolding full_check
full_checks config reason =
    if is_empty config.settings.full_commands
    then err no_full_commands
    else ok (full_check config reason ∷ [])

-- `full_checks` with the `id` and the `paths` that the callers write over its first entry
rename_full : String → List String → List Check → List Check
rename_full id paths [] = []
rename_full id paths (c ∷ cs) = record c { id = id; paths = paths } ∷ cs

unfoldable pub full_selection :
    Config → Reason → String → List String → Result SelectError (List Check)
unfolding full_checks rename_full
full_selection config reason id paths = do
  selected ← full_checks config reason
  ok (rename_full id paths selected)

unfoldable pub behavioral_evidence_commands : List (String × List String) → String → List String
behavioral_evidence_commands [] runtime = []
behavioral_evidence_commands ((name, commands) ∷ table) runtime =
    if runtime == name then commands else behavioral_evidence_commands table runtime

-- The local variables of the selection loop.
pub record Selection : Type 0 where
  pub selected : List Check
  pub seen : List String
  pub unknown : List String

unfoldable pub new_check : String → Rule → Check
new_check id rule = record {
  id = id;
  paths = [];
  commands = rule.commands;
  selection_reason = none;
  evidence_types = rule.evidence_types;
  required_evidence_types = rule.required_evidence_types;
  left_to_required_ci = none;
}

-- `next(item for item in selected if item["id"] == check_id)["paths"].append(path)`
unfoldable pub append_path : String → String → List Check → List Check
append_path id path [] = []
append_path id path (c ∷ cs) =
    if c.id == id
    then record c { paths = c.paths ++ (path ∷ []) } ∷ cs
    else c ∷ append_path id path cs

-- One rule that matches the path.
unfoldable pub select_rule : String → String → Rule → Selection → Selection
unfolding new_check append_path
select_rule path id rule s =
    if contains s.seen id
    then record s { selected = append_path id path s.selected }
    else record s {
      selected = append_path id path (s.selected ++ (new_check id rule ∷ []));
      seen = id ∷ s.seen;
    }

unfoldable pub behavior_check : List String → List String → Check
behavior_check paths commands = record {
  id = "instruction-behavior-change";
  paths = paths;
  commands = commands;
  selection_reason = some instruction_behavior_change;
  evidence_types = none;
  required_evidence_types = none;
  left_to_required_ci = none;
}

abbrev pub start : Selection
start = record { selected = []; seen = []; unknown = [] }

note_unmatched : String → Bool × Selection → Selection
note_unmatched path (true, s) = s
note_unmatched path (false, s) = record s { unknown = s.unknown ++ (path ∷ []) }

module _ (fnmatch : String → String → Bool) where
  unfoldable pub instruction_behavior_surface_paths : Config → List String → List String
  unfolding match_any
  instruction_behavior_surface_paths config paths =
      let patterns = config.settings.instruction_behavior_surface_patterns in
      if is_empty patterns then [] else keep (λ path. match_any fnmatch path patterns) paths

  unfoldable pub full_trigger_paths : Config → List String → List String
  unfolding match_any
  full_trigger_paths config paths =
      let patterns = config.settings.full_trigger_patterns in
      keep (λ path. not (is_empty patterns) && match_any fnmatch path patterns) paths

  unfoldable pub rule_matches : String → Rule → Bool
  unfolding match_any
  rule_matches path rule = not (is_empty rule.patterns) && match_any fnmatch path rule.patterns

  -- The inner loop, over `checks.items()`, with its flag `matched`.
  unfoldable pub match_rules : String → List (String × Rule) → Bool × Selection → Bool × Selection
  unfolding rule_matches select_rule
  match_rules path [] s = s
  match_rules path ((id, rule) ∷ rules) (matched, s) =
      match_rules path rules
        (if rule_matches path rule then (true, select_rule path id rule s) else (matched, s))

  unfoldable pub select_paths : List (String × Rule) → List String → Selection → Selection
  unfolding match_rules note_unmatched
  select_paths rules [] s = s
  select_paths rules (path ∷ paths) s =
      select_paths rules paths (note_unmatched path (match_rules path rules (false, s)))

  unfoldable pub select_loop : Config → List String → Result SelectError (List Check)
  unfolding select_paths full_selection
  select_loop config paths =
      let s = select_paths config.checks paths start in
      if is_empty s.unknown
      then ok s.selected
      else full_selection config unknown_path "full-fallback" s.unknown

  -- `select_mapped` with no declaration
  unfoldable pub select_undeclared : Config → List String → Result SelectError (List Check)
  unfolding full_trigger_paths full_selection select_loop
  select_undeclared config paths =
      let triggers = full_trigger_paths config paths in
      if is_empty triggers
      then select_loop config paths
      else full_selection config high_impact_path "full-trigger" triggers

  -- The branch of a declared behaviour change on paths of the instruction surface.
  unfoldable pub select_behavior :
      Config → List String → List String → String → Result SelectError (List Check)
  unfolding full_selection behavioral_evidence_commands select_undeclared behavior_check
  select_behavior config paths behavior_paths runtime =
      let commands = behavioral_evidence_commands config.behavioral_evidence runtime in
      if is_empty commands
      then full_selection config behavior_declaration_unproven "full-fallback" behavior_paths
      else do
        rest ← select_undeclared config (keep (λ path. not (contains behavior_paths path)) paths)
        ok (behavior_check behavior_paths commands ∷ rest)

  unfoldable pub select_mapped :
      Config → List String → Option String → Result SelectError (List Check)
  unfolding full_trigger_paths instruction_behavior_surface_paths select_behavior
  select_mapped config paths none = select_undeclared config paths
  select_mapped config paths (some runtime) =
      let behavior_paths = instruction_behavior_surface_paths config paths in
      if not (is_empty (full_trigger_paths config paths))
        || runtime == ""
        || is_empty behavior_paths
      then select_undeclared config paths
      else select_behavior config paths behavior_paths runtime
