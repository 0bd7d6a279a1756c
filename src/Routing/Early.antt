-- ===== src/Routing/Early.antt =====
-- The gate before the work ends, `_early_routing_gate`, and the one before each write, `check_task_write`, with
-- `task_content_identity.py`'s `_canonical_path`. `same` is Python's `==` of two values. The files, the lineage and the
-- content of the worktree are inputs.
pub mod Blocked
pub mod Consistent
use Prim.Native.String
use dev_platform.Base.{
  String, ◌<>◌, Bool, true, false, not, ◌&&◌, ◌||◌, Option, none, some, ◌==◌, List, [], ◌∷◌, ◌++◌,
  keep, contains, is_empty, if◌then◌else◌,
}
use dev_platform.Base.Sorting.{sorted_set}
use dev_platform.Base.Json.{Json, null, obj, Fields, close, lookup, keys}
use dev_platform.Base.Result.{Result, err, ok, ◌>>=◌, ◌>>◌}
use dev_platform.Rollout.Identity.{after_prefix, sub_fields}
use dev_platform.Preflight.Conditions.{is_part}
use dev_platform.Routing.{
  Refusal, no_plan, content_before_route, reroute_required, written_by_supervisor, no_record,
  write_refused, uncaught, plan_retained, platform_observed, is_text, is_none, Route,
}
use dev_platform.Routing.Evidence.{is_claimed, launch_confirmed}

-- The committed paths and those of the worktree, with what they hold.
pub record Content : Type 0 where
  pub committed : Fields
  pub paths : Fields

-- `path.startswith(prefix)`
unfoldable pub has_prefix : String → String → Bool
unfolding after_prefix
has_prefix prefix path = elim (after_prefix prefix path) [ none ↦ false | some rest ↦ true ]

-- `text.split(marker, 1)[1]`, where the marker is in the text
unfoldable pub after_first : String → String → Option String
unfolding after_prefix
after_first marker String.[] = after_prefix marker ""
after_first marker (String.◌∷◌ c s) =
    let later = after_first marker s in
    elim (after_prefix marker (String.◌∷◌ c s)) [ none ↦ later | some rest ↦ some rest ]

unfoldable pub archived_path : String → String → String → Option String → String
archived_path active path change (some suffix) = active <> suffix
archived_path active path change none = path

unfoldable pub canonical_path : String → String → String
unfolding has_prefix after_first archived_path
canonical_path path change =
    let active = "openspec/changes/" <> change <> "/" in
    if has_prefix active path
    then path
    else if has_prefix "openspec/changes/archive/" path
    then archived_path active path change (after_first ("-" <> change <> "/") path)
    else path

unfoldable pub is_lifecycle_path : String → String → Bool
unfolding has_prefix canonical_path
is_lifecycle_path path change =
    path == ".managed-task-state.json"
    || has_prefix ".claude/" path
    || has_prefix ("openspec/changes/" <> change <> "/") (canonical_path path change)

unfoldable pub require_plan : Route → String → Result Refusal Fields
require_plan route action = elim route.execution_plan [
  | none ↦ err (no_plan action)
  | some plan ↦ ok plan
]

unfoldable pub is_claude_delegation : Fields → Option Fields → Bool
unfolding is_text is_claimed launch_confirmed lookup
is_claude_delegation delegation execution =
    if is_text "open" (lookup "state" delegation)
    then true
    else if is_text platform_observed (lookup "launch_evidence" delegation)
    then launch_confirmed execution
    else elim execution [ none ↦ false | some e ↦ is_claimed e ]

unfoldable pub is_codex_delegation : Fields → Option Fields → Bool
unfolding is_text is_none launch_confirmed lookup
is_codex_delegation delegation execution =
    not (is_none (lookup "opened_at" delegation))
    && (is_text "open" (lookup "state" delegation) || launch_confirmed execution)

unfoldable pub is_real : Fields → Option Fields → Bool
unfolding is_text is_claude_delegation is_codex_delegation lookup
is_real delegation execution =
    if is_text "not-launched" (lookup "outcome" delegation)
    then false
    else if is_text "claude" (lookup "provider" delegation)
    then is_claude_delegation delegation execution
    else is_codex_delegation delegation execution

unfoldable pub delegation_real : Option Json → Option Fields → Result Refusal Bool
unfolding is_real
delegation_real none execution = ok false
delegation_real (some null) execution = ok false
delegation_real (some (obj delegation)) execution = ok (is_real delegation execution)
delegation_real (some j) execution = err uncaught

unfoldable pub has_real_delegation : Route → Result Refusal Bool
unfolding require_plan delegation_real lookup
has_real_delegation route = require_plan route "checking delegation evidence" >>= λ plan.
    delegation_real (lookup "delegation" plan) route.execution

-- The content that the plan was made with.
unfoldable pub content_pre : Fields → Content
unfolding sub_fields
content_pre plan =
    let pre = sub_fields "task_content_pre" plan in
    record { committed = sub_fields "committed" pre; paths = sub_fields "paths" pre }

unfoldable pub accepted_if_same :
    Option Route → Refusal → List String → Result Refusal (Option Route)
accepted_if_same accepted refusal paths = if is_empty paths then ok accepted else err refusal

module _ (same : Json → Json → Bool) where
  -- `path not in old or path not in new or old[path] != new[path]`
  unfoldable pub is_changed : Option Json → Option Json → Bool
  is_changed (some a) (some b) = not (same a b)
  is_changed a b = true

  unfoldable pub changed_keys : Fields → Fields → List String
  unfolding is_changed lookup keys
  changed_keys old new =
      keep (λ path. is_changed (lookup path old) (lookup path new)) (keys old ++ keys new)

  unfoldable pub content_differences : Content → Content → List String
  unfolding changed_keys sorted_set
  content_differences before after =
      sorted_set
        (changed_keys before.committed after.committed ++ changed_keys before.paths after.paths)

  unfoldable pub unrouted_content : Content → Result Refusal (Option Route)
  unfolding content_differences accepted_if_same
  unrouted_content after =
      let paths = content_differences (record { committed = close; paths = close }) after in
      accepted_if_same none (content_before_route paths) paths

  unfoldable pub undelegated_content : Route → Fields → Content → Result Refusal (Option Route)
  unfolding content_differences accepted_if_same content_pre
  undelegated_content route plan after =
      let paths = content_differences (content_pre plan) after in
      accepted_if_same (some route) (written_by_supervisor paths) paths

  unfoldable pub unless_real :
      Route → Fields → Result Refusal Content → Bool → Result Refusal (Option Route)
  unfolding undelegated_content
  unless_real route plan content true = ok (some route)
  unless_real route plan content false = content >>= λ after. undelegated_content route plan after

  unfoldable pub planned :
      Route → Fields → Result Refusal Content → Bool → Result Refusal (Option Route)
  unfolding has_real_delegation unless_real
  planned route plan content true = ok (some route)
  planned route plan content false =
      has_real_delegation route >>= λ real. unless_real route plan content real

  -- What the gate makes of a record.
  unfoldable pub routed_content :
      Route → Result Refusal Content → Option Fields → Result Refusal (Option Route)
  unfolding is_text planned lookup
  routed_content route content none = elim route.execution [
    | none ↦ err reroute_required
    | some execution ↦ ok (some route)
  ]
  routed_content route content (some plan) =
      planned route plan content (is_text plan_retained (lookup "mode" plan))

  unfoldable pub recorded_content :
      Option (Result Refusal Route) → Result Refusal Content → Result Refusal (Option Route)
  unfolding unrouted_content routed_content
  recorded_content none content = content >>= λ after. unrouted_content after
  recorded_content (some reading) content =
      reading >>= λ route. routed_content route content route.execution_plan

  unfoldable pub early_routing_gate :
      Bool → Option (Result Refusal Route) → Result Refusal Content → Result Refusal (Option Route)
  unfolding recorded_content
  early_routing_gate false recorded content = ok none
  early_routing_gate true recorded content = recorded_content recorded content

-- `plan["mode"] == PLAN_RETAINED or _has_real_delegation(route)`
unfoldable pub write_planned : Route → Bool → Result Refusal Unit
unfolding has_real_delegation
write_planned route true = ok tt
write_planned route false =
    has_real_delegation route >>= λ real. if real then ok tt else err write_refused

unfoldable pub write_routed : Route → Option Fields → Result Refusal Unit
unfolding is_text write_planned lookup
write_routed route none = elim route.execution [
  | none ↦ err reroute_required
  | some execution ↦ ok tt
]
write_routed route (some plan) = write_planned route (is_text plan_retained (lookup "mode" plan))

unfoldable pub write_recorded : Option (Result Refusal Route) → Result Refusal Unit
unfolding write_routed
write_recorded none = err no_record
write_recorded (some reading) = reading >>= λ route. write_routed route route.execution_plan

-- The gate for a path below the root of a task.
unfoldable pub check_task_write :
    Bool → Bool → String → String → Option (Result Refusal Route) → Result Refusal Unit
unfolding is_lifecycle_path write_recorded
check_task_write managed active path change recorded =
    if not managed || not active || is_lifecycle_path path change
    then ok tt
    else write_recorded recorded
