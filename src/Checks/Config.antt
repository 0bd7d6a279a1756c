-- ===== src/Checks/Config.antt =====
-- The check configuration that `template/scripts/select_checks.py` reads, and the checks it selects.
-- An absent list and an empty one read alike where the code calls `get(key, [])`; a key that the code
-- tests by `in` is an `Option`.
use dev_platform.Base.{String, Bool, Option, List}

pub record Rule : Type 0 where
  pub patterns : List String
  pub commands : List String
  pub evidence_types : Option (List String)
  pub required_evidence_types : Option (List String)

pub record Settings : Type 0 where
  pub full_commands : List String
  pub full_evidence_types : Option (List String)
  pub full_required_evidence_types : Option (List String)
  pub instruction_behavior_surface_patterns : List String
  pub ci_only_commands : List String
  pub full_trigger_patterns : List String
  pub affected_precheck : Bool

-- `behavioral_evidence` lists the runtimes whose table has a list of commands.
pub record Config : Type 0 where
  pub settings : Settings
  pub checks : List (String × Rule)
  pub behavioral_evidence : List (String × List String)
  pub test_groups : List String

-- The texts that `selection_reason` can hold.
pub data Reason : Type 0 where
  protected_full high_impact_path behavior_declaration_unproven instruction_behavior_change : Reason
  unknown_path : Reason

pub record Check : Type 0 where
  pub id : String
  pub paths : List String
  pub commands : List String
  pub selection_reason : Option Reason
  pub evidence_types : Option (List String)
  pub required_evidence_types : Option (List String)
  pub left_to_required_ci : Option (List String)

-- The `SystemExit`s of the selection.
pub data SelectError : Type 0 where
  no_full_commands : SelectError
  unknown_ci_only : List String → SelectError
  ungated_ci_only : SelectError
  invalid_coverage : SelectError
