-- ===== src/Routing/Evidence.antt =====
-- What an execution's record is evidence of, and the policy by which a parent retains the work.
use dev_platform.Base.{
  String, zero, Bool, true, false, not, ◌&&◌, ◌||◌, Option, none, some, ◌==◌, [], ◌∷◌,
  if◌then◌else◌,
}
use dev_platform.Base.Json.{
  Json, pos, null, bool, int, float, str, arr, obj, end, close, Fields, lookup,
}
use dev_platform.Base.Result.{Result}
use dev_platform.Routing.{
  Refusal, no_clean_postcheck, plan_delegated, owner_approved_policy, balanced_parent_policy,
  standalone_clone, self_reported, platform_observed, require, is_text, one_of, is_dict, is_exactly,
  has_key, Route,
}

unfoldable pub is_clean : Option Json → Bool
unfolding is_text lookup
is_clean (some (obj postcheck)) = is_text "clean" (lookup "containment" postcheck)
is_clean _ = false

unfoldable pub require_clean_postcheck : Fields → Result Refusal Unit
unfolding require is_clean lookup
require_clean_postcheck execution =
    require (is_clean (lookup "postcheck" execution)) no_clean_postcheck

unfoldable pub is_self_reported_claude : Fields → Bool
unfolding is_text has_key lookup
is_self_reported_claude execution =
    is_text self_reported (lookup "launch_evidence" execution)
    || (has_key "agent_id" execution && not (has_key "outcome" execution))

unfoldable pub launch_confirmed : Option Fields → Bool
unfolding is_exactly is_self_reported_claude lookup
launch_confirmed none = false
launch_confirmed (some execution) =
    is_exactly true (lookup "launched" execution) && not (is_self_reported_claude execution)

-- a claim with no receipt of the platform
unfoldable pub is_claimed : Fields → Bool
unfolding is_text lookup
is_claimed execution =
    is_text "claimed" (lookup "outcome" execution)
    && is_text self_reported (lookup "launch_evidence" execution)

unfoldable pub retention_policy_for : Json → Json → Bool → Option String
unfolding is_text one_of
retention_policy_for profile topology delegate =
    if is_text "complex" (some profile)
    then some "complex-parent"
    else if one_of ("routine" ∷ "standard" ∷ []) (some profile)
        && is_text standalone_clone (some topology)
    then some "parent-only-topology"
    else if delegate
    then none
    else some balanced_parent_policy

unfoldable pub plan_policy : Json → Json → Fields → Option String
unfolding is_text retention_policy_for lookup
plan_policy profile topology plan =
    if is_text owner_approved_policy (lookup "policy" plan)
    then some owner_approved_policy
    else if is_text plan_delegated (lookup "mode" plan)
    then none
    else retention_policy_for profile topology false

unfoldable pub retention_policy : Route → Option String
unfolding plan_policy retention_policy_for
retention_policy route = elim route.execution_plan [
  | none ↦ retention_policy_for route.profile route.topology false
  | some plan ↦ plan_policy route.profile route.topology plan
]

module _ (is_zero_float : String → Bool) where
  -- `value == 0`
  unfoldable pub is_zero : Option Json → Bool
  is_zero (some (int (pos zero))) = true
  is_zero (some (bool b)) = not b
  is_zero (some (float f)) = is_zero_float f
  is_zero _ = false

  -- `bool(value)`
  unfoldable pub is_truthy : Option Json → Bool
  is_truthy none = false
  is_truthy (some null) = false
  is_truthy (some (bool b)) = b
  is_truthy (some (int (pos zero))) = false
  is_truthy (some (float f)) = not (is_zero_float f)
  is_truthy (some (str s)) = not (s == "")
  is_truthy (some (arr end)) = false
  is_truthy (some (obj close)) = false
  is_truthy _ = true

  unfoldable pub sandboxed_claude_completed : Fields → Bool
  unfolding is_text is_exactly is_zero is_dict lookup
  sandboxed_claude_completed execution =
      is_text "sandbox-runtime" (lookup "mechanism" execution)
      && is_text platform_observed (lookup "launch_evidence" execution)
      && is_exactly true (lookup "launched" execution)
      && is_text "completed" (lookup "outcome" execution)
      && is_zero (lookup "returncode" execution)
      && is_dict (lookup "participant" execution)
