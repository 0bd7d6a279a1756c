-- ===== src/Examples/Routings.antt =====
-- A plan, and records that pass the gates.
use dev_platform.Base.{◌≡◌, refl, String, Bool, true, false, some, ◌==◌, ◌⊎◌}
use dev_platform.Base.Json.{pos, Json, null, bool, int, str, obj, Fields, close, field, lookup}
use dev_platform.Base.Result.{Result, ok}
use dev_platform.Routing.{Refusal, plan_retained, is_text, Route}
use dev_platform.Routing.Gate.{require_routing_gate}
use dev_platform.Routing.Gate.Proven.{
  IsRetained, IsCodexRun, IsClaudeRun, require_routing_gate-proven,
}
use dev_platform.Routing.Early.{
  Content, content_pre, has_real_delegation, early_routing_gate, is_lifecycle_path,
  check_task_write,
}
use dev_platform.Routing.Early.Blocked.{IsSameContent, early_routing_gate-IsSameContent}
use dev_platform.Routing.Early.Consistent.{check_task_write-early}

abbrev files_before : Fields
files_before = field "src/a.py" (str "blob1") close

abbrev delegated_plan : Fields
delegated_plan = field "mode" (str "delegated-child") (
    field "declared_at" (str "t0") (
      field "task_content_pre"
        (obj (field "committed" (obj files_before) (field "paths" (obj close) close)))
        (field "delegation" null close)))

abbrev codex_execution : Fields
codex_execution =
    field "launched" (bool true)
      (field "outcome" (str "completed") (field "returncode" (int (pos 0)) close))

abbrev codex_route : Route
codex_route = record {
  source_issue = str "o/r#1";
  change = str "c";
  provider = str "codex";
  profile = str "routine";
  topology = str "linked-worktree";
  execution = some codex_execution;
  execution_plan = some delegated_plan;
}

abbrev same_values : Json → Json → Bool
same_values (str s) (str t) = s == t
same_values a b = false

abbrev no_float_is_zero : String → Bool
no_float_is_zero s = false

abbrev durable : Result Refusal Route
durable = ok codex_route

gate_passed : require_routing_gate same_values no_float_is_zero durable ≡ ok codex_route
unfolding require_routing_gate
gate_passed = refl

require_routing_gate-proven_example :
    (durable ≡ ok codex_route)
    × ((execution : Fields) × (codex_route.execution ≡ some execution)
        × (IsRetained same_values codex_route execution
            ⊎ (IsCodexRun no_float_is_zero codex_route execution
                ⊎ IsClaudeRun no_float_is_zero codex_route execution)))
require_routing_gate-proven_example =
    require_routing_gate-proven same_values no_float_is_zero durable codex_route gate_passed

abbrev content_found : Content
content_found = record { committed = files_before; paths = close }

abbrev found : Result Refusal Content
found = ok content_found

not_retained : is_text plan_retained (lookup "mode" delegated_plan) ≡ false
unfolding is_text lookup
not_retained = refl

not_delegated : has_real_delegation codex_route ≡ ok false
unfolding has_real_delegation
not_delegated = refl

gate_accepts :
    early_routing_gate same_values true (some (ok codex_route)) found ≡ ok (some codex_route)
unfolding early_routing_gate
gate_accepts = refl

early_routing_gate-IsSameContent_example :
    (after : Content) × (found ≡ ok after)
    × IsSameContent same_values (content_pre delegated_plan) after
early_routing_gate-IsSameContent_example =
    early_routing_gate-IsSameContent same_values codex_route delegated_plan found (some codex_route)
      refl not_retained not_delegated gate_accepts

abbrev retained_plan : Fields
retained_plan = field "mode" (str "supervisor-retained") close

abbrev retained_route : Route
retained_route = record codex_route { execution_plan = some retained_plan }

not_lifecycle : is_lifecycle_path "src/a.py" "c" ≡ false
unfolding is_lifecycle_path
not_lifecycle = refl

write_allowed : check_task_write true true "src/a.py" "c" (some (ok retained_route)) ≡ ok tt
unfolding check_task_write
write_allowed = refl

check_task_write-early_example :
    (route : Route) × (early_routing_gate same_values true
        (some (ok retained_route))
        (ok content_found)
      ≡ ok (some route))
check_task_write-early_example =
    check_task_write-early same_values (ok content_found) "src/a.py" "c" (some (ok retained_route))
      not_lifecycle write_allowed
