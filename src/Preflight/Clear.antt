-- ===== src/Preflight/Clear.antt =====
-- What a preflight that returns has established.
use dev_platform.Base.{
  ℕ, zero, suc, ◌≡◌, refl, ◌∙◌, sym, ap, String, Bool, true, false, Option, none, some, List, [],
  ◌∷◌, is_empty, All, if◌then◌else◌, Bool-cases, inl, inr, ◌⊎◌, ◌==◌,
}
use dev_platform.Base.Json.{ℤ, pos, negsuc, Json}
use dev_platform.Base.Result.{Result, err, ok, ◌>>=◌, >>=-eq-ok}
use dev_platform.Preflight.{
  not_applicable, Exit, ConditionResult, Stopped, refusal, failure, run_preflight,
}
use dev_platform.Preflight.Verdict.{add_line, run_preflight_lem}
use dev_platform.Preflight.Conditions.{
  Checked, unless_waived, SharedAnswers, GateAnswer, admitted, hard_overlap, gate_exit,
  gate_failure, ScopeAnswers, Freshness, BaseAnswers, EvidenceAnswers, CommandAnswers, repairs,
  shared_result, check_shared_workspace, exit_result, run_commands, gates_result, commands_result,
  command_list, configured_preflight_commands, check_project_cheap_gates, gate_result,
  required_gate, check_board_claim_and_scope, freshness_result, check_task_base, evidence_result,
  check_task_evidence, Answers, conditions,
}

-- The workspace is shared by no contract here, or what it holds could be repaired.
abbrev pub IsShared : SharedAnswers → Type 0
IsShared a = (a.is_applicable ≡ ok false) ⊎ ((paths : List String) × (repairs a ≡ ok paths))

-- The gate is waived or not required, or it admits the task.
abbrev pub IsAdmitted : ScopeAnswers → Type 0
IsAdmitted a =
    ((reason : String) × (a.scope_gate_waiver ≡ some reason))
    ⊎ ((a.is_required ≡ ok false) ⊎ (a.gate ≡ admitted))

-- The base is waived, or observed and not to be reconciled.
abbrev pub IsFresh : BaseAnswers → Type 0
IsFresh a =
    ((reason : String) × (a.task_base_waiver ≡ some reason))
    ⊎ ((f : Freshness) × (a.observed ≡ ok f) × (f.reconcile_required ≡ false))

-- The evidence is waived, or found and not stale.
abbrev pub IsCurrent : EvidenceAnswers → Type 0
IsCurrent a =
    ((reason : String) × (a.evidence_waiver ≡ some reason))
    ⊎ ((found : String × String) × (a.evidence ≡ ok found) × ((found.0 == "stale") ≡ false))

-- No commands are configured, or each of them exits with zero.
abbrev pub IsPassing : CommandAnswers → Type 0
IsPassing a =
    ((reason : String) × (configured_preflight_commands a ≡ ok (none, reason)))
    ⊎ ((value : Json) × (reason : String) × (commands : List String)
        × (configured_preflight_commands a ≡ ok (some value, reason))
        × (command_list value ≡ some commands)
        × All (λ command. (output : String) × (a.ran command ≡ ok (pos 0, output))) commands)

shared_lem :
    (show : ℕ → String) (show_int : ℤ → String) (a : SharedAnswers) {r : ConditionResult}
    → check_shared_workspace show show_int a ≡ ok r
    → IsShared a
unfolding check_shared_workspace shared_result
shared_lem show show_int a h =
    let (applicable, e, k) = >>=-eq-ok a.is_applicable _ h in go applicable e k
  where
    go :
        (b : Bool) {r : ConditionResult}
        → a.is_applicable ≡ ok b
        → shared_result show show_int a b ≡ ok r
        → IsShared a
    go false e k = inl e
    go true e k = let (paths, f, rest) = >>=-eq-ok (repairs a) _ k in inr (paths, f)

gate_lem :
    (branch root : String) (blocked : Result Stopped Unit) (g : GateAnswer) {r : ConditionResult}
    → (gate_result branch root blocked g).1 ≡ ok r
    → g ≡ admitted
unfolding gate_result
gate_lem branch root blocked admitted h = refl
gate_lem branch root (err e) (hard_overlap text) h = cc
gate_lem branch root (ok u) (hard_overlap text) h = cc
gate_lem branch root blocked (gate_exit text) h = cc
gate_lem branch root blocked (gate_failure text kind) h = cc

required_lem :
    (branch root : String) (a : ScopeAnswers) (required : Result Stopped Bool) {r : ConditionResult}
    → (required_gate branch root a required).1 ≡ ok r
    → (required ≡ ok false) ⊎ (a.gate ≡ admitted)
unfolding required_gate
required_lem branch root a (err stop) h = cc
required_lem branch root a (ok false) h = inl refl
required_lem branch root a (ok true) h = inr (gate_lem branch root a.blocked a.gate h)

scope_lem :
    (branch root : String) (a : ScopeAnswers) {r : ConditionResult}
    → (check_board_claim_and_scope branch root a).1 ≡ ok r
    → IsAdmitted a
unfolding check_board_claim_and_scope
scope_lem branch root a h = go a.scope_gate_waiver refl h
  where
    go :
        (waiver : Option String) {r : ConditionResult}
        → a.scope_gate_waiver ≡ waiver
        → (elim waiver as (λ w. Option String × Checked) [
          | none ↦ required_gate branch root a a.is_required
          | some reason ↦ (none, ok (record { state = not_applicable; detail = reason }))
        ]).1
          ≡ ok r
        → IsAdmitted a
    go none e k = inr (required_lem branch root a a.is_required k)
    go (some reason) e k = inl (reason, e)

waived_lem :
    (waiver : Option String) (answer : Checked) {r : ConditionResult}
    → unless_waived waiver answer ≡ ok r
    → ((reason : String) × (waiver ≡ some reason)) ⊎ ((s : ConditionResult) × (answer ≡ ok s))
unfolding unless_waived
waived_lem none answer {r} h = inr (r, h)
waived_lem (some reason) answer h = inl (reason, refl)

freshness_lem :
    (branch : String) (observed : Result Stopped Freshness) {r : ConditionResult}
    → freshness_result branch observed ≡ ok r
    → (f : Freshness) × (observed ≡ ok f) × (f.reconcile_required ≡ false)
unfolding freshness_result
freshness_lem branch (err (refusal text)) h = cc
freshness_lem branch (err (failure text kind)) h = cc
freshness_lem branch (ok f) h = elim (Bool-cases f.reconcile_required) [
  | inl e ↦ cc
  | inr e ↦ (f, refl, e)
]

base_lem :
    (branch : String) (a : BaseAnswers) {r : ConditionResult}
    → check_task_base branch a ≡ ok r
    → IsFresh a
unfolding check_task_base
base_lem branch a h = elim (waived_lem a.task_base_waiver (freshness_result branch a.observed) h) [
  | inl waived ↦ inl waived
  | inr (s, e) ↦ inr (freshness_lem branch a.observed e)
]

not_stale :
    (found : String × String) {r : ConditionResult}
    → evidence_result found ≡ ok r
    → (found.0 == "stale") ≡ false
unfolding evidence_result
not_stale (state, detail) h = elim (Bool-cases (state == "stale")) [ inl e ↦ cc | inr e ↦ e ]

evidence_lem :
    (a : EvidenceAnswers) {r : ConditionResult} → check_task_evidence a ≡ ok r → IsCurrent a
unfolding check_task_evidence
evidence_lem a h = elim (waived_lem a.evidence_waiver (a.evidence >>= λ e. evidence_result e) h) [
  | inl waived ↦ inl waived
  | inr (s, e) ↦ let (found, f, k) = >>=-eq-ok a.evidence _ e in inr (found, f, not_stale found k)
]

module _ (show : ℕ → String) (show_int : ℤ → String) where
  exit_lem :
      (command : String) (run : ℤ × String) {u : Unit}
      → exit_result show show_int command run ≡ ok u
      → run ≡ (pos 0, run.1)
  unfolding exit_result
  exit_lem command (pos zero, output) h = refl
  exit_lem command (pos (suc n), output) h = cc
  exit_lem command (negsuc n, output) h = cc

  commands_lem :
      (ran : String → Result Stopped (ℤ × String)) (commands : List String) {u : Unit}
      → run_commands show show_int ran commands ≡ ok u
      → All (λ command. (output : String) × (ran command ≡ ok (pos 0, output))) commands
  unfolding run_commands
  commands_lem ran [] h = tt
  commands_lem ran (command ∷ commands) h =
      let (run, e, k) = >>=-eq-ok (ran command) _ h in
      let (done, f, rest) = >>=-eq-ok (exit_result show show_int command run) _ k in
      ((run.1, e ∙ ap ok (exit_lem command run f)), commands_lem ran commands rest)

  gates_lem :
      (ran : String → Result Stopped (ℤ × String)) (found : Option (List String))
      {r : ConditionResult}
      → gates_result show show_int ran found ≡ ok r
      → (commands : List String) × (found ≡ some commands)
        × All (λ command. (output : String) × (ran command ≡ ok (pos 0, output))) commands
  unfolding gates_result
  gates_lem ran none h = cc
  gates_lem ran (some commands) h =
      let (done, e, k) = >>=-eq-ok (run_commands show show_int ran commands) _ h in
      (commands, refl, commands_lem ran commands e)

  configured_lem :
      (a : CommandAnswers) (configured : Option Json × String) {r : ConditionResult}
      → configured_preflight_commands a ≡ ok configured
      → commands_result show show_int a.ran configured ≡ ok r
      → IsPassing a
  unfolding commands_result
  configured_lem a (none, reason) e h = inl (reason, e)
  configured_lem a (some value, reason) e h =
      let (commands, f, passing) = gates_lem a.ran (command_list value) h in
      inr (value, reason, commands, e, f, passing)

  passing_lem :
      (a : CommandAnswers) {r : ConditionResult}
      → check_project_cheap_gates show show_int a ≡ ok r
      → IsPassing a
  unfolding check_project_cheap_gates
  passing_lem a h =
      let (configured, e, k) = >>=-eq-ok (configured_preflight_commands a) _ h in
      configured_lem a configured e k

line_missing :
    (id : String) (answer : Checked) (later : List String)
    → is_empty (add_line id answer later) ≡ true
    → ((r : ConditionResult) × (answer ≡ ok r)) × (is_empty later ≡ true)
line_missing id (err stop) later h = cc
line_missing id (ok r) later h = ((r, refl), h)

nothing_stopped :
    (b : Bool) (e : Exit) (all rs : List (String × ConditionResult))
    → (if b then ok all else err e) ≡ ok rs
    → b ≡ true
nothing_stopped true e all rs h = refl
nothing_stopped false e all rs h = cc

-- Where the preflight of the five conditions returns: the workspace is under no shared contract or its
-- repair succeeds at both places, the scope gate is waived, not required or admits the task, the base is
-- waived or needs no reconciliation, the evidence is waived or not stale, and no commands are configured or
-- each of them exits with zero.
pub run_preflight-IsClear :
    (show : ℕ → String) (show_int : ℤ → String) (a : Answers)
    (results : List (String × ConditionResult))
    → run_preflight (conditions show show_int a) ≡ ok results
    → IsShared a.shared
      × IsAdmitted a.scope
      × IsFresh a.base
      × IsCurrent a.stale
      × IsPassing a.gates
unfolding conditions
run_preflight-IsClear show show_int a results h =
    let lines =
      nothing_stopped _ _ _ results (sym (run_preflight_lem (conditions show show_int a)) ∙ h) in
    let ((r1, e1), l1) =
      line_missing "shared-workspace" (check_shared_workspace show show_int a.shared) _ lines in
    let ((r2, e2), l2) =
      line_missing "board-claim-and-scope" (check_board_claim_and_scope a.branch a.root a.scope).1 _
        l1 in
    let ((r3, e3), l3) = line_missing "task-base" (check_task_base a.branch a.base) _ l2 in
    let ((r4, e4), l4) = line_missing "task-evidence" (check_task_evidence a.stale) _ l3 in
    let ((r5, e5), l5) =
      line_missing "project-cheap-gates" (check_project_cheap_gates show show_int a.gates) _ l4 in
    (
      shared_lem show show_int a.shared e1,
      scope_lem a.branch a.root a.scope e2,
      base_lem a.branch a.base e3,
      evidence_lem a.stale e4,
      passing_lem show show_int a.gates e5,
    )
