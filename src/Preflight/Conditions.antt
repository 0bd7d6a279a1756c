-- ===== src/Preflight/Conditions.antt =====
-- The five checks of `CONDITIONS`. A record holds what the other scripts, git and the commands answer; the exceptions
-- that a check turns into its refusal are their `refusal`. `show` is `str` of a number.
use mathlib.Core.Option
use dev_platform.Base.{
  ℕ, zero, suc, ◌-◌, String, ◌<>◌, Bool, true, false, not, ltb, Option, none, some, ◌==◌,
  if◌then◌else◌,
}
use dev_platform.Base.{List, [], ◌∷◌, ◌++◌, length, take, keep, is_empty}
use dev_platform.Base.Json.{
  ℤ, pos, Json, null, str, arr, obj, Items, end, item, Fields, close, lookup, get_or,
}
use dev_platform.Base.Result.{Result, err, ok, ◌>>=◌}
use dev_platform.Base.Text.{strip, is_blank}
use dev_platform.Rollout.Identity.{after_prefix}
use dev_platform.Preflight.{
  ConditionState, passed, repaired, not_applicable, ConditionResult, Stopped, refusal, failure,
  Condition,
}

abbrev pub Checked : Type 0
Checked = Result Stopped ConditionResult

-- `list(dict.fromkeys(paths))`
unfoldable pub unique_paths : List String → List String
unique_paths [] = []
unique_paths (path ∷ paths) = path ∷ keep (λ p. not (p == path)) (unique_paths paths)

-- `", ".join(texts)`
unfoldable pub comma_joined : List String → String
comma_joined [] = ""
comma_joined (s ∷ []) = s
comma_joined (s ∷ t ∷ ss) = s <> ", " <> comma_joined (t ∷ ss)

-- `part in text`
unfoldable pub is_part : String → String → Bool
unfolding after_prefix
is_part part String.[] = part == ""
is_part part (String.◌∷◌ c s) =
    let later = is_part part s in
    elim (after_prefix part (String.◌∷◌ c s)) [ none ↦ later | some rest ↦ true ]

unfoldable pub text_length : String → ℕ
text_length String.[] = 0
text_length (String.◌∷◌ c s) = suc (text_length s)

unfoldable pub drop_text : ℕ → String → String
drop_text zero s = s
drop_text (suc n) String.[] = ""
drop_text (suc n) (String.◌∷◌ c s) = drop_text n s

abbrev pub diagnostic_tail : ℕ
diagnostic_tail = 1500

-- `text.strip()[-DIAGNOSTIC_TAIL:]`
unfoldable pub tail_of : String → String
unfolding strip text_length drop_text
tail_of s = let t = strip s in drop_text (text_length t - diagnostic_tail) t

abbrev pub outcome : ConditionState → String → Checked
outcome state detail = ok (record { state = state; detail = detail })

-- A check that a waiver spares.
unfoldable pub unless_waived : Option String → Checked → Checked
unless_waived none answer = answer
unless_waived (some reason) answer = outcome not_applicable reason

-- What the shared workspace answers for the root and, where it is another directory, for the integration.
pub record SharedAnswers : Type 0 where
  pub is_applicable : Result Stopped Bool
  pub at_root : Result Stopped (List String)
  pub is_same : Bool
  pub at_integration : Result Stopped (List String)

-- What the scope gate does: it admits, finds a hard overlap, exits, or raises another exception.
pub data GateAnswer : Type 0 where
  admitted : GateAnswer
  hard_overlap : String → GateAnswer
  gate_exit : String → GateAnswer
  gate_failure : String → String → GateAnswer

-- The last field is what `block_for_scope_conflict` ends with.
pub record ScopeAnswers : Type 0 where
  pub scope_gate_waiver : Option String
  pub is_required : Result Stopped Bool
  pub gate : GateAnswer
  pub blocked : Result Stopped Unit

pub record Freshness : Type 0 where
  pub reconcile_required : Bool
  pub state : String
  pub target : String
  pub authoritative_sha : String

pub record BaseAnswers : Type 0 where
  pub task_base_waiver : Option String
  pub observed : Result Stopped Freshness

pub record EvidenceAnswers : Type 0 where
  pub evidence_waiver : Option String
  pub evidence : Result Stopped (String × String)

-- The configuration file, the exception of `get` on a value that is no dict, and the exit code and output of each command.
pub record CommandAnswers : Type 0 where
  pub is_present : Result Stopped Bool
  pub file_name : String
  pub config : Result Stopped Fields
  pub no_get : Json → Stopped
  pub ran : String → Result Stopped (ℤ × String)

-- `isinstance(item, str) and item.strip()`
unfoldable pub command_of : Json → Option String
unfolding is_blank
command_of (str s) = if is_blank s then none else some s
command_of j = none

unfoldable pub command_texts : Items → Option (List String)
unfolding command_of
command_texts end = some []
command_texts (item j js) = elim (command_of j) [
  | none ↦ none
  | some s ↦ Option.map (λ ss. s ∷ ss) (command_texts js)
]

-- The list of commands, `none` where the value is no list of command strings.
unfoldable pub command_list : Json → Option (List String)
unfolding command_texts
command_list (arr js) = command_texts js
command_list j = none

unfoldable pub named_commands : Option Json → Option Json × String
named_commands none = (none, "settings.preflight_commands is not configured")
named_commands (some null) = (none, "settings.preflight_commands is not configured")
named_commands (some j) = (some j, "")

unfoldable pub settings_commands : (Json → Stopped) → Json → Result Stopped (Option Json × String)
unfolding named_commands lookup
settings_commands no_get (obj settings) = ok (named_commands (lookup "preflight_commands" settings))
settings_commands no_get j = err (no_get j)

unfoldable pub configured_preflight_commands :
    CommandAnswers → Result Stopped (Option Json × String)
unfolding settings_commands get_or lookup
configured_preflight_commands a = a.is_present >>= λ present.
    if present
    then (a.config >>= λ config.
        settings_commands a.no_get (get_or (obj close) (lookup "settings" config)))
    else ok (
      none,
      "the check configuration " <> a.file_name
          <> " is not present, so no preflight_commands are configured",
    )

unfoldable pub repairs : SharedAnswers → Result Stopped (List String)
repairs a = a.at_root >>= λ first.
    if a.is_same then ok first else a.at_integration >>= λ more. ok (first ++ more)

module _ (show : ℕ → String) (show_int : ℤ → String) where
  unfoldable pub summarize_paths : ℕ → List String → String
  unfolding unique_paths comma_joined
  summarize_paths limit paths =
      let unique = unique_paths paths in
      comma_joined (take limit unique)
      <> (if ltb limit (length unique)
          then " and " <> show (length unique - limit) <> " more"
          else "")

  unfoldable pub repair_result : List String → Checked
  unfolding summarize_paths unique_paths
  repair_result paths =
      if is_empty paths
      then outcome passed "registered paths conform to the shared group contract"
      else outcome repaired (
          "repaired "
          <> show (length (unique_paths paths))
          <> " path(s) owned by this account: "
          <> summarize_paths 5 paths)

  unfoldable pub shared_result : SharedAnswers → Bool → Checked
  unfolding repair_result repairs
  shared_result a false =
      outcome not_applicable
        "no shared POSIX workspace contract here (disposable or single-user checkout)"
  shared_result a true = repairs a >>= λ paths. repair_result paths

  unfoldable pub check_shared_workspace : SharedAnswers → Checked
  unfolding shared_result
  check_shared_workspace a = a.is_applicable >>= λ applicable. shared_result a applicable

  -- A command fails, or the next one runs.
  unfoldable pub exit_result : String → ℤ × String → Result Stopped Unit
  unfolding tail_of
  exit_result command (pos zero, output) = ok tt
  exit_result command (code, output) = err (
      refusal (
        "project cheap gate failed (exit "
        <> show_int code
        <> "): "
        <> command
        <> "\n"
        <> tail_of output))

  unfoldable pub run_commands :
      (String → Result Stopped (ℤ × String)) → List String → Result Stopped Unit
  unfolding exit_result
  run_commands ran [] = ok tt
  run_commands ran (command ∷ commands) =
      ran command >>= λ run. exit_result command run >>= λ done. run_commands ran commands

  unfoldable pub gates_result :
      (String → Result Stopped (ℤ × String)) → Option (List String) → Checked
  unfolding run_commands
  gates_result ran none =
      err (refusal "settings.preflight_commands must be a list of non-empty command strings")
  gates_result ran (some commands) = run_commands ran commands >>= λ done.
      outcome passed (show (length commands) <> " project cheap gate command(s) passed")

  -- The tests of the commands that are configured, or the reason why none are.
  unfoldable pub commands_result :
      (String → Result Stopped (ℤ × String)) → (Option Json × String) → Checked
  unfolding gates_result command_list
  commands_result ran (none, reason) = outcome not_applicable reason
  commands_result ran (some commands, reason) = gates_result ran (command_list commands)

  unfoldable pub check_project_cheap_gates : CommandAnswers → Checked
  unfolding configured_preflight_commands commands_result
  check_project_cheap_gates a =
      configured_preflight_commands a >>= λ configured. commands_result a.ran configured

-- The text with the command that restores a claim.
unfoldable pub gate_detail : String → String → String → String
unfolding is_part
gate_detail branch root detail =
    if is_part "has no claim for worktree" detail
    then detail
      <> "\nrestore the claim: python3 scripts/agent_board.py start --task \"<task>\" --branch "
      <> branch <> " --worktree " <> root
    else detail

-- The gate's answer, and the text that is passed to `block_for_scope_conflict`.
unfoldable pub gate_result :
    String → String → Result Stopped Unit → GateAnswer → Option String × Checked
unfolding gate_detail
gate_result branch root blocked admitted = (
  none,
  outcome passed ("claim for " <> branch <> " found; no unacknowledged hard scope overlap"),
)
gate_result branch root blocked (hard_overlap text) =
    (some text, blocked >>= λ done. err (refusal text))
gate_result branch root blocked (gate_exit text) =
    (none, err (refusal (gate_detail branch root text)))
gate_result branch root blocked (gate_failure text kind) = (none, err (failure text kind))

unfoldable pub required_gate :
    String → String → ScopeAnswers → Result Stopped Bool → Option String × Checked
unfolding gate_result
required_gate branch root a (err stop) = (none, err stop)
required_gate branch root a (ok false) =
    (none, outcome not_applicable "[capabilities] agent_board is false")
required_gate branch root a (ok true) = gate_result branch root a.blocked a.gate

-- With the text of the conflict that the project's status gets.
unfoldable pub check_board_claim_and_scope :
    String → String → ScopeAnswers → Option String × Checked
unfolding required_gate
check_board_claim_and_scope branch root a = elim a.scope_gate_waiver [
  | none ↦ required_gate branch root a a.is_required
  | some reason ↦ (none, outcome not_applicable reason)
]

unfoldable pub freshness_result : String → Result Stopped Freshness → Checked
freshness_result branch (err (refusal text)) =
    err (refusal ("task freshness cannot be determined: " <> text))
freshness_result branch (err (failure text kind)) = err (failure text kind)
freshness_result branch (ok f) =
    if f.reconcile_required
    then err (
        refusal (
          branch <> " is " <> f.state <> " relative to freshly observed " <> f.target
          <> ". Reconcile: python3 scripts/finish_task.py --reconcile"))
    else outcome passed
        ("task is " <> f.state <> " relative to " <> f.target <> " (" <> f.authoritative_sha <> ")")

unfoldable pub check_task_base : String → BaseAnswers → Checked
unfolding unless_waived freshness_result
check_task_base branch a = unless_waived a.task_base_waiver (freshness_result branch a.observed)

unfoldable pub evidence_result : String × String → Checked
evidence_result (state, detail) =
    if state == "stale"
    then err (refusal detail)
    else if state == "current"
    then outcome passed detail
    else outcome not_applicable detail

unfoldable pub check_task_evidence : EvidenceAnswers → Checked
unfolding unless_waived evidence_result
check_task_evidence a = unless_waived a.evidence_waiver (a.evidence >>= λ e. evidence_result e)

-- What the five conditions see.
pub record Answers : Type 0 where
  pub branch : String
  pub root : String
  pub shared : SharedAnswers
  pub scope : ScopeAnswers
  pub base : BaseAnswers
  pub stale : EvidenceAnswers
  pub gates : CommandAnswers

-- `CONDITIONS`, with the answer of each check.
unfoldable pub conditions : (ℕ → String) → (ℤ → String) → Answers → List Condition
unfolding check_shared_workspace check_board_claim_and_scope check_task_base check_task_evidence
    check_project_cheap_gates
conditions show show_int a =
    record { id = "shared-workspace"; checked = check_shared_workspace show show_int a.shared }
    ∷ record {
      id = "board-claim-and-scope";
      checked = (check_board_claim_and_scope a.branch a.root a.scope).1;
    }
    ∷ record { id = "task-base"; checked = check_task_base a.branch a.base }
    ∷ record { id = "task-evidence"; checked = check_task_evidence a.stale }
    ∷ record {
      id = "project-cheap-gates";
      checked = check_project_cheap_gates show show_int a.gates;
    }
    ∷ []
